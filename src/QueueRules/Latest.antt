-- ===== src/QueueRules/Latest.antt =====
-- The row that `load_rules_for_repo` takes.
use mathlib.Core.List.{Memᴰ}
use queueboard_core.Prelude.Sorting.{sorted, sorted-IsFirst}
use queueboard_core.Prelude.{
  ℕ, ◌≡◌, ◌⊎◌, refl, true, false, Option, none, some, List, [], ◌∷◌, any, keep, keep_none,
  keep_some, All, All-keep, Memᴰ-keep, arith,
}
use queueboard_core.QueueRules.Rules.{QueueRuleSet, default_rules, rules_for_rule_set}
use queueboard_core.QueueRules.Select.{newer, is_effective, load_rules_for_repo}

newer_trans : (a b c : QueueRuleSet) → newer a b ≡ true → newer b c ≡ true → newer a c ≡ true
newer_trans a b c p q = ground arith

newer_total : (a b : QueueRuleSet) → (newer a b ≡ true) ⊎ (newer b a ≡ true)
newer_total a b = ground arith

-- If a row is in effect at the time, the rules are those of a row in effect, and no other row in
-- effect has a higher version, or the same version and a higher id.
pub load_rules-latest :
    (rows : List QueueRuleSet) (t : ℕ)
    → any (is_effective t) rows ≡ true
    → (obj : QueueRuleSet) × Memᴰ obj rows
      × (is_effective t obj ≡ true)
      × All (λ r. is_effective t r ≡ true → newer obj r ≡ true) rows
      × (load_rules_for_repo rows (some t) ≡ rules_for_rule_set obj)
unfolding load_rules_for_repo
load_rules-latest rows t found =
    let (x, xs, e) = keep_some (is_effective t) rows found in
    let (obj, rest, s, f) = sorted-IsFirst newer newer_trans newer_total x xs in
    let (listed, effective) = Memᴰ-keep (is_effective t) obj rows (rw e f.listed) in
    (
      obj,
      listed,
      effective,
      All-keep (is_effective t) (λ r. newer obj r ≡ true) rows (rw e f.first),
      rw (e, s),
    )

inactive_none :
    (t : ℕ) (rows : List QueueRuleSet)
    → any (λ r. r.is_active) rows ≡ false
    → any (is_effective t) rows ≡ false
unfolding any
inactive_none t [] h = refl
inactive_none t (r ∷ rows) h = ground (arith, inactive_none t rows)

-- With no active row the default rules apply at every time.
pub load_rules-default :
    (rows : List QueueRuleSet) (at : Option ℕ)
    → any (λ r. r.is_active) rows ≡ false
    → load_rules_for_repo rows at ≡ default_rules
unfolding load_rules_for_repo
load_rules-default rows none h = unfold keep sorted in rw (keep_none (λ r. r.is_active) rows h)
load_rules-default rows (some t) h =
    unfold keep sorted in
    rw (
      keep_none (is_effective t) rows (inactive_none t rows h),
      keep_none (λ r. r.is_active) rows h,
    )
