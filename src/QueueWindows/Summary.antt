-- ===== src/QueueWindows/Summary.antt =====
-- The entry points: the windows and the total time of a PR, who was on the queue, and the rebuild of
-- the rows of a PR under all its rule sets.
use queueboard_core.Prelude.{
  ℕ, ◌+◌, Bool, true, false, ◌||◌, Option, none, some, List, [], ◌∷◌, if◌then◌else◌, ltb, leb, keep,
  any, map, get_or, length, ◌==◌, nat_eq, ◌>>=◌,
}
use queueboard_core.Prelude.Int.{ℤ}
use queueboard_core.Prelude.Dict.{get, put}
use queueboard_core.QueueRules.Rules.{QueueRuleSet}
use queueboard_core.QueueRules.Select.{load_rules_for_repo}
use queueboard_core.QueueWindows.Builder.{QueueWindow, total_queue_time}
use queueboard_core.QueueWindows.CiState.{is_on_queue_at}
use queueboard_core.QueueWindows.Sweep.{queue_windows_with_rules}
use queueboard_core.QueueWindows.Rebuild.{
  Ids, Source, Row, WindowRows, Result, Status, rebuild_queue_windows_for_ruleset,
}

abbrev pub attributed : List QueueRuleSet → Source → ℕ → List QueueWindow
attributed rule_sets p as_of =
    queue_windows_with_rules p.pr (load_rules_for_repo rule_sets (some as_of)) p.revisions p.runs
      p.contexts as_of

unfoldable pub queue_windows_for_pr : List QueueRuleSet → Source → ℕ → List (ℕ × Option ℕ)
queue_windows_for_pr rule_sets p as_of =
    map (λ (w : QueueWindow). (w.from_ts, w.to_ts)) (attributed rule_sets p as_of)

-- In microseconds.
unfoldable pub total_queue_time_for_pr : List QueueRuleSet → Source → ℕ → ℤ
unfolding total_queue_time
total_queue_time_for_pr rule_sets p as_of = total_queue_time as_of (attributed rule_sets p as_of)

unfoldable pub who_was_on_queue_at : List QueueRuleSet → ℕ → List Source → List Source
who_was_on_queue_at rule_sets at prs =
    keep (λ (p : Source). is_on_queue_at rule_sets p.pr p.revisions p.runs p.contexts at) prs

-- A rule set with the repository that it is of.
pub record RuleSet : Type 0 where
  pub rule_set : QueueRuleSet
  pub repository_id : ℕ

abbrev pub id_of : RuleSet → ℕ
id_of r = r.rule_set.id

pub data Outcome : Type 0 where
  pr_before_ruleset_effective_from pr_on_or_after_ruleset_effective_to : Outcome
  ran : Result → Outcome

pub record Summary : Type 0 where
  pub rulesets : ℕ
  pub created : ℕ
  pub updated : ℕ
  pub deleted : ℕ
  pub skipped : ℕ
  pub skipped_out_of_bounds : ℕ
  pub per_ruleset : List (ℕ × Outcome)

abbrev pub starts_before : ℕ → Option ℕ → Bool
starts_before t none = false
starts_before t (some u) = ltb t u

abbrev pub starts_after : ℕ → Option ℕ → Bool
starts_after t none = false
starts_after t (some u) = leb u t

unfoldable pub out_of_bounds : ℕ → QueueRuleSet → Option Outcome
out_of_bounds created_at rule_set =
    if starts_before created_at rule_set.effective_from
    then some Outcome.pr_before_ruleset_effective_from
    else if starts_after created_at rule_set.effective_to
    then some Outcome.pr_on_or_after_ruleset_effective_to
    else none

abbrev pub count_skipped : Status → ℕ
count_skipped Status.rebuilt = 0
count_skipped _ = 1

abbrev pub add_out_of_bounds : ℕ → Outcome → Summary → Summary
add_out_of_bounds id why s = record s {
  skipped = s.skipped + 1;
  skipped_out_of_bounds = s.skipped_out_of_bounds + 1;
  per_ruleset = put id why s.per_ruleset;
}

abbrev pub add_result : ℕ → Result → Summary → Summary
add_result id res s = record s {
  created = s.created + res.created;
  updated = s.updated + res.updated;
  deleted = s.deleted + res.deleted;
  skipped = s.skipped + count_skipped res.status;
  per_ruleset = put id (Outcome.ran res) s.per_ruleset;
}

-- The rows of a PR by rule set, and the summary so far.
pub record Progress : Type 0 where
  pub rows : List (ℕ × WindowRows)
  pub summary : Summary

abbrev pub add_rebuilt : RuleSet → WindowRows × Result → Progress → Progress
add_rebuilt r res b = record {
  rows = put (id_of r) res.0 b.rows;
  summary = add_result (id_of r) res.1 b.summary;
}

unfoldable pub rebuild_in_bounds :
    Ids → Source → ℕ → RuleSet → Option Outcome → Progress → Option Progress
rebuild_in_bounds ids p as_of r (some why) b =
    some (record b { summary = add_out_of_bounds (id_of r) why b.summary })
rebuild_in_bounds ids p as_of r none b = do
  res ←
      rebuild_queue_windows_for_ruleset ids p r.repository_id r.rule_set as_of
        (get_or (get (id_of r) b.rows) [])
  some (add_rebuilt r res b)

unfoldable pub rebuild_rule_sets : Ids → Source → ℕ → List RuleSet → Progress → Option Progress
unfolding rebuild_in_bounds out_of_bounds
rebuild_rule_sets ids p as_of [] b = some b
rebuild_rule_sets ids p as_of (r ∷ rs) b = do
  b' ← rebuild_in_bounds ids p as_of r (out_of_bounds p.pr.gh_created_at r.rule_set) b
  rebuild_rule_sets ids p as_of rs b'

abbrev pub nothing_done : ℕ → Summary
nothing_done n = record {
  rulesets = n;
  created = 0;
  updated = 0;
  deleted = 0;
  skipped = 0;
  skipped_out_of_bounds = 0;
  per_ruleset = [];
}

-- `rule_sets or list(...)`, where `active` are the active rule sets of the repository.
abbrev pub or_active : List RuleSet → List RuleSet → List RuleSet
or_active [] active = active
or_active (r ∷ rs) active = r ∷ rs

unfoldable pub rebuild_queue_windows_for_pr :
    Ids → Source → List RuleSet → List RuleSet → ℕ → List (ℕ × WindowRows) → Option Progress
unfolding rebuild_rule_sets
rebuild_queue_windows_for_pr ids p rule_sets active as_of rows =
    rebuild_rule_sets ids p as_of (or_active rule_sets active)
      (record { rows = rows; summary = nothing_done (length (or_active rule_sets active)) })

-- Whether a row has no window count or no first start.
unfoldable pub queue_windows_need_rollup_backfill : WindowRows → Bool
queue_windows_need_rollup_backfill rows =
    any (λ (e : ℕ × Row). e.1.window_count == 0 || is_missing e.1.first_on_queue_ts) rows
  where
    is_missing : Option ℕ → Bool
    is_missing none = true
    is_missing (some t) = false
