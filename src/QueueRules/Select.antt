-- ===== src/QueueRules/Select.antt =====
-- Which row of `QueueRuleSet` applies at a time. The rows are those of one
-- repository, in the order of the model (`-version`, then `id`).
use queueboard_core.Prelude.{
  ℕ, Bool, true, ◌&&◌, ◌||◌, Option, none, some, List, ◌==◌, nat_eq, ltb, leb, keep, head?,
}
use queueboard_core.Prelude.Sorting.{sorted}
use queueboard_core.QueueRules.Rules.{QueueRules, QueueRuleSet, default_rules, rules_for_rule_set}

-- `order_by("-version", "-id")`
abbrev pub newer : QueueRuleSet → QueueRuleSet → Bool
newer a b = ltb b.version a.version || (a.version == b.version && leb b.id a.id)

-- `or_else a b` is `b` where `a` is `None`.
abbrev pub or_else {ℓ} : {A : Type ℓ} → Option A → Option A → Option A
or_else none b = b
or_else (some a) b = some a

unfoldable pub default_rule_set_for_repo : List QueueRuleSet → Option QueueRuleSet
default_rule_set_for_repo rows =
    let active = keep (λ r. r.is_active) rows in
    or_else (head? (keep (λ r. r.is_default) active)) (head? (sorted newer active))

abbrev pub starts_by : Option ℕ → ℕ → Bool
starts_by none t = true
starts_by (some from_ts) t = leb from_ts t

abbrev pub ends_after : Option ℕ → ℕ → Bool
ends_after none t = true
ends_after (some to_ts) t = ltb t to_ts

-- The row is active, and its window [effective_from, effective_to) holds the time.
abbrev pub is_effective : ℕ → QueueRuleSet → Bool
is_effective t r = r.is_active && (starts_by r.effective_from t && ends_after r.effective_to t)

unfoldable pub effective_rule_set : List QueueRuleSet → Option ℕ → Option QueueRuleSet
effective_rule_set rows none = none
effective_rule_set rows (some t) = head? (sorted newer (keep (is_effective t) rows))

abbrev pub rules_or_default : Option QueueRuleSet → QueueRules
rules_or_default none = default_rules
rules_or_default (some obj) = rules_for_rule_set obj

unfoldable pub load_rules_for_repo : List QueueRuleSet → Option ℕ → QueueRules
unfolding effective_rule_set default_rule_set_for_repo
load_rules_for_repo rows at =
    rules_or_default (or_else (effective_rule_set rows at) (default_rule_set_for_repo rows))
