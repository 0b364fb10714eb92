-- ===== src/QueueRules/Eligible.antt =====
-- `is_on_queue` under the rules of a row is what the row's documentation says.
use queueboard_core.Prelude.{
  ◌≡◌, ◌↔◌, refl, inl, inr, Bool, true, false, not, ◌&&◌, Option, none, some, List, [], ◌∷◌, map,
  if◌then◌else◌, contains, any, all, is_empty, All, arith, Bool-cases,
}
use queueboard_core.Prelude.Text.{Text, normalize, strip, text_eq}
use queueboard_core.QueueRules.Rules.{
  QueueRuleSet, is_on_queue, has_all, has_any, rules_for_rule_set, normalized_names, or_nil,
  or_none, resolve_ci_gating_mode, is_true, is_set,
}

-- The PR has a label of this name, up to case and the white space around it.
pub carries : List Text → Text → Bool
carries labels name = contains (normalize name) (map normalize labels)

-- An entry that is a string and not blank names a label.
abbrev pub Requires : List Text → Option Text → Type 0
Requires labels none = Unit
Requires labels (some name) = is_empty (strip name) ≡ false → carries labels name ≡ true

abbrev pub Forbids : List Text → Option Text → Type 0
Forbids labels none = Unit
Forbids labels (some name) = is_empty (strip name) ≡ false → carries labels name ≡ false

pub record IsEligible (obj : QueueRuleSet) (is_open is_draft : Bool) (labels : List Text)
    (ci_ok : Option Bool) : Type 0 where
  pub open_needed : obj.require_open ≡ true → is_open ≡ true
  pub draft_barred : obj.require_not_draft ≡ true → is_draft ≡ false
  pub labels_needed : All (Requires labels) (or_nil obj.required_label_names)
  pub labels_barred : All (Forbids labels) (or_nil obj.forbidden_label_names)
  pub ci_needed : obj.require_ci_success ≡ true → ci_ok ≡ some true

has_all-or_none :
    (ns label_set : List Text) → has_all (or_none ns) label_set ≡ all (λ l. contains l label_set) ns
unfolding has_all all
has_all-or_none [] label_set = refl
has_all-or_none (n ∷ ns) label_set = refl

has_any-or_none :
    (ns label_set : List Text) → has_any (or_none ns) label_set ≡ any (λ l. contains l label_set) ns
unfolding has_any any
has_any-or_none [] label_set = refl
has_any-or_none (n ∷ ns) label_set = refl

required_iff :
    (labels : List Text) (names : List (Option Text))
    → (all (λ l. contains l (map normalize labels)) (normalized_names names) ≡ true)
      ↔ All (Requires labels) names
unfolding normalized_names all carries
required_iff labels [] = (λ _. tt, λ _. refl)
required_iff labels (none ∷ names) =
    let ih = required_iff labels names in (λ h. (tt, ih.0 h), λ h. ih.1 h.1)
required_iff labels (some n ∷ names) =
    let ih = required_iff labels names in
    elim (Bool-cases (is_empty (strip n))) [
      | inl blank ↦ rw blank (λ h. (λ e. cc, ih.0 h), λ h. ih.1 h.1)
      | inr full ↦
          rw full
            (λ h. (λ _. ground arith, ih.0 (ground arith)), λ h. ground (arith, h.0 refl, ih.1 h.1))
    ]

forbidden_iff :
    (labels : List Text) (names : List (Option Text))
    → (any (λ l. contains l (map normalize labels)) (normalized_names names) ≡ false)
      ↔ All (Forbids labels) names
unfolding normalized_names any carries
forbidden_iff labels [] = (λ _. tt, λ _. refl)
forbidden_iff labels (none ∷ names) =
    let ih = forbidden_iff labels names in (λ h. (tt, ih.0 h), λ h. ih.1 h.1)
forbidden_iff labels (some n ∷ names) =
    let ih = forbidden_iff labels names in
    elim (Bool-cases (is_empty (strip n))) [
      | inl blank ↦ rw blank (λ h. (λ e. cc, ih.0 h), λ h. ih.1 h.1)
      | inr full ↦
          rw full
            (λ h. (λ _. ground arith, ih.0 (ground arith)), λ h. ground (arith, h.0 refl, ih.1 h.1))
    ]

tests_bool :
    (ro o rd d all_in any_in rc ci : Bool) (mode : Option Text)
    → (if ro && not o
        then false
        else if rd && d
        then false
        else if not all_in
        then false
        else if any_in
        then false
        else if is_set (resolve_ci_gating_mode rc mode) && not ci
        then false
        else true)
      ≡ (not (ro && not o) && not (rd && d) && all_in && not any_in && not (rc && not ci))
unfolding resolve_ci_gating_mode
tests_bool ro o rd d all_in any_in rc ci mode = ground arith

-- The five tests of `is_on_queue` under the rules of a row, in one.
tests_lem :
    (obj : QueueRuleSet) (is_open is_draft : Bool) (labels : List Text) (ci_ok : Option Bool)
    → is_on_queue (rules_for_rule_set obj) is_open is_draft labels ci_ok ≡ (
        not (obj.require_open && not is_open)
        && not (obj.require_not_draft && is_draft)
        && all
            (λ l. contains l (map normalize labels))
            (normalized_names (or_nil obj.required_label_names))
        && not (
            any
              (λ l. contains l (map normalize labels))
              (normalized_names (or_nil obj.forbidden_label_names)))
        && not (obj.require_ci_success && not (is_true ci_ok)))
unfolding is_on_queue rules_for_rule_set
tests_lem obj is_open is_draft labels ci_ok =
    let required = normalized_names (or_nil obj.required_label_names) in
    let forbidden = normalized_names (or_nil obj.forbidden_label_names) in
    let label_set = map normalize labels in
    rw (has_all-or_none required label_set, has_any-or_none forbidden label_set)
      (tests_bool obj.require_open is_open obj.require_not_draft is_draft
        (all (λ l. contains l label_set) required) (any (λ l. contains l label_set) forbidden)
        obj.require_ci_success (is_true ci_ok) obj.ci_gating_mode)

-- A PR is on the queue under the rules of a row exactly if it is eligible by that row: open and no
-- draft where that is required, every named label present and no barred one, up to case and white
-- space, and CI known to be in order where that is required.
pub is_on_queue_iff :
    (obj : QueueRuleSet) (is_open is_draft : Bool) (labels : List Text) (ci_ok : Option Bool)
    → (is_on_queue (rules_for_rule_set obj) is_open is_draft labels ci_ok ≡ true)
      ↔ IsEligible obj is_open is_draft labels ci_ok
is_on_queue_iff obj is_open is_draft labels ci_ok =
    let required = required_iff labels (or_nil obj.required_label_names) in
    let forbidden = forbidden_iff labels (or_nil obj.forbidden_label_names) in
    rw (tests_lem obj is_open is_draft labels ci_ok) (
      λ h. record {
        open_needed = λ e. ground arith;
        draft_barred = λ e. ground arith;
        labels_needed = required.0 (ground arith);
        labels_barred = forbidden.0 (ground arith);
        ci_needed = λ e. ground arith;
      },
      λ h. ground (
        arith,
        h.open_needed,
        h.draft_barred,
        required.1 h.labels_needed,
        forbidden.1 h.labels_barred,
        h.ci_needed,
      ),
    )
