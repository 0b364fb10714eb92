-- ===== src/QueueRules/Tests.antt =====
-- The queue rules of some rows.
use queueboard_core.Prelude.{◌≡◌, ◌↔◌, refl, true, false, none, some, [], ◌∷◌, any, All}
use mathlib.Core.List.{Memᴰ}
use queueboard_core.Prelude.Text.{codes}
use queueboard_core.QueueRules.Rules.{
  QueueRuleSet, is_on_queue, rules_for_rule_set, all_required_success,
}
use queueboard_core.QueueRules.Select.{newer, is_effective, load_rules_for_repo}
use queueboard_core.QueueRules.Eligible.{IsEligible, is_on_queue_iff}
use queueboard_core.QueueRules.Latest.{load_rules-latest}

abbrev first_rules : QueueRuleSet
first_rules = record {
  id = 1;
  version = 1;
  effective_from = none;
  effective_to = some 100;
  is_active = true;
  is_default = false;
  require_open = true;
  require_not_draft = true;
  require_ci_success = true;
  ci_gating_mode = some all_required_success;
  required_label_names = none;
  forbidden_label_names = some (some (codes " WIP") ∷ none ∷ []);
  assignment_forbidden_label_names = none;
  required_ci_contexts = some (some (codes "build") ∷ []);
}

abbrev second_rules : QueueRuleSet
second_rules = record first_rules {
  id = 2;
  version = 2;
  effective_to = none;
  effective_from = some 50;
}

is_on_queue_iff_example :
    (is_on_queue (rules_for_rule_set first_rules) true false (codes "easy" ∷ []) (some true) ≡ true)
    ↔ IsEligible first_rules true false (codes "easy" ∷ []) (some true)
is_on_queue_iff_example = is_on_queue_iff first_rules true false (codes "easy" ∷ []) (some true)

load_rules-latest_example :
    (obj : QueueRuleSet) × Memᴰ obj (first_rules ∷ second_rules ∷ [])
    × (is_effective 60 obj ≡ true)
    × All (λ r. is_effective 60 r ≡ true → newer obj r ≡ true) (first_rules ∷ second_rules ∷ [])
    × (load_rules_for_repo (first_rules ∷ second_rules ∷ []) (some 60) ≡ rules_for_rule_set obj)
unfolding any
load_rules-latest_example = load_rules-latest (first_rules ∷ second_rules ∷ []) 60 refl
