-- ===== src/QueueRules/Rules.antt =====
-- `QueueRules`, the rows that they come from, and `is_on_queue`.
use queueboard_core.Prelude.{
  ℕ, Bool, true, false, not, ◌&&◌, Option, none, some, List, [], ◌∷◌, map, if◌then◌else◌, contains,
  any, all, is_empty,
}
use queueboard_core.Prelude.Text.{Text, codes, text_eq, normalize, strip}
use queueboard_core.Classify.Status.{no_required_failures, is_no_required_failures}

pub record QueueRules : Type 0 where
  pub require_open : Bool
  pub require_not_draft : Bool
  pub require_ci_success : Bool
  pub ci_gating_mode : Option Text
  pub required_labels : Option (List Text)
  pub forbidden_labels : Option (List Text)
  pub assignment_forbidden_labels : Option (List Text)
  pub required_ci_contexts : Option (List Text)

-- The field defaults: open and not a draft.
abbrev pub default_rules : QueueRules
default_rules = record {
  require_open = true;
  require_not_draft = true;
  require_ci_success = false;
  ci_gating_mode = none;
  required_labels = none;
  forbidden_labels = none;
  assignment_forbidden_labels = none;
  required_ci_contexts = none;
}

-- `if labels:`, then `labels.issubset(label_set)`
unfoldable pub has_all : Option (List Text) → List Text → Bool
has_all none label_set = true
has_all (some labels) label_set = all (λ l. contains l label_set) labels

-- `if labels:`, then `label_set & labels`
unfoldable pub has_any : Option (List Text) → List Text → Bool
has_any none label_set = false
has_any (some labels) label_set = any (λ l. contains l label_set) labels

-- `ci_ok is True`
abbrev pub is_true : Option Bool → Bool
is_true none = false
is_true (some b) = b

unfoldable pub is_on_queue : QueueRules → Bool → Bool → List Text → Option Bool → Bool
unfolding has_all has_any
is_on_queue rules is_open is_draft labels ci_ok =
    if rules.require_open && not is_open
    then false
    else if rules.require_not_draft && is_draft
    then false
    else let label_set = map normalize labels in
      if not (has_all rules.required_labels label_set)
      then false
      else if has_any rules.forbidden_labels label_set
      then false
      else if rules.require_ci_success && not (is_true ci_ok)
      then false
      else true

-- A row of `QueueRuleSet`. A label list comes from JSON: an entry that is no string is `none`.
pub record QueueRuleSet : Type 0 where
  pub id : ℕ
  pub version : ℕ
  pub effective_from : Option ℕ
  pub effective_to : Option ℕ
  pub is_active : Bool
  pub is_default : Bool
  pub require_open : Bool
  pub require_not_draft : Bool
  pub require_ci_success : Bool
  pub ci_gating_mode : Option Text
  pub required_label_names : Option (List (Option Text))
  pub forbidden_label_names : Option (List (Option Text))
  pub assignment_forbidden_label_names : Option (List (Option Text))
  pub required_ci_contexts : Option (List (Option Text))

abbrev pub all_required_success : Text
all_required_success = codes "all_required_success"

unfoldable pub resolve_ci_gating_mode : Bool → Option Text → Option Text
resolve_ci_gating_mode require_ci_success mode =
    if not require_ci_success
    then none
    else if is_no_required_failures mode
    then some no_required_failures
    else some all_required_success

-- `names or []`
abbrev pub or_nil {ℓ} : {A : Type ℓ} → Option (List A) → List A
or_nil none = []
or_nil (some l) = l

-- `{_normalize_label(n) for n in names if isinstance(n, str) and n.strip()}`
unfoldable pub normalized_names : List (Option Text) → List Text
normalized_names [] = []
normalized_names (none ∷ names) = normalized_names names
normalized_names (some n ∷ names) =
    let rest = normalized_names names in if is_empty (strip n) then rest else normalize n ∷ rest

-- `names or None`
abbrev pub or_none : List Text → Option (List Text)
or_none [] = none
or_none (n ∷ names) = some (n ∷ names)

abbrev pub is_set {ℓ} : {A : Type ℓ} → Option A → Bool
is_set none = false
is_set (some a) = true

unfoldable pub rules_for_rule_set : QueueRuleSet → QueueRules
unfolding resolve_ci_gating_mode normalized_names
rules_for_rule_set obj =
    let ci_mode = resolve_ci_gating_mode obj.require_ci_success obj.ci_gating_mode in
    record {
      require_open = obj.require_open;
      require_not_draft = obj.require_not_draft;
      require_ci_success = is_set ci_mode;
      ci_gating_mode = ci_mode;
      required_labels = or_none (normalized_names (or_nil obj.required_label_names));
      forbidden_labels = or_none (normalized_names (or_nil obj.forbidden_label_names));
      assignment_forbidden_labels =
          or_none (normalized_names (or_nil obj.assignment_forbidden_label_names));
      required_ci_contexts = or_none (normalized_names (or_nil obj.required_ci_contexts));
    }
