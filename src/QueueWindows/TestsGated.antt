-- ===== src/QueueWindows/TestsGated.antt =====
-- The windows of a PR under rules that gate on CI.
use queueboard_core.Prelude.{
  any, all, map, discard, keep, contains, List, ℕ, ◌≡◌, refl, true, false, none, some, [], ◌∷◌,
  insert, arith,
}
use queueboard_core.Prelude.Text
use queueboard_core.CiEvaluation.Rows as CiRows
use queueboard_core.Prelude.Sorting.{sorted}
use queueboard_core.Prelude.Dict.{get, put, modify}
use mathlib.Core.Bool.{xor}
use queueboard_core.QueueWindows.Builder
use queueboard_core.QueueWindows.Rows
use queueboard_core.QueueWindows.Statuses
use queueboard_core.QueueWindows.Sweep
use queueboard_core.QueueWindows.Timeline
use queueboard_core.QueueWindows.CiState
use queueboard_core.Prelude.Text.{Text, codes}
use queueboard_core.QueueRules.Rules.{is_on_queue, has_all, has_any, QueueRules, default_rules}
use queueboard_core.QueueWindows.Timeline.{
  EventType, TimelineEvent, PullRequest, closed_ts, state_at_time, on_queue, apply_event,
}
use queueboard_core.QueueWindows.Attribution.{
  CheckRun, ci_state_is_eligible, check_run_state, determine_ci_boundary_attribution,
  status_context_state,
}
use queueboard_core.QueueWindows.CiState.{Revision, ci_required_contexts_state}
use queueboard_core.QueueWindows.Builder.{QueueWindow}
use queueboard_core.QueueWindows.Turn.{in_windows}
use queueboard_core.QueueWindows.Order.{InOrder}
use queueboard_core.QueueWindows.Sweep.{
  fold, taken, latest, event_by, revision_by, is_on_at, setting_of, queue_windows_with_rules,
}
use queueboard_core.QueueWindows.Gated.{
  start, boundary, scan_then, queue_windows_with_rules-last_boundary,
}
use queueboard_core.QueueWindows.GatedOrder.{queue_windows_with_rules-InOrder}
use native.Mathlib.Decide.{ℕ_discrete}
use queueboard_core.Prelude.{◌&&◌, not, if◌then◌else◌, get_or, nat_eq}
use queueboard_core.QueueRules.Rules.{QueueRuleSet}
use queueboard_core.QueueWindows.Attribution.{WindowEventType, plain}
use queueboard_core.QueueWindows.Rows.{ts_of}
use queueboard_core.QueueWindows.Rebuild.{
  Ids, Source, WindowRows, Result, Status, Row-discrete, lacks_revisions, windows_of, write_windows,
  rebuild_queue_windows_for_ruleset,
}
use queueboard_core.QueueWindows.Rebuilt.{window_rows, rebuild_queue_windows_for_ruleset-rows}
use mathlib.Core.List.{Memᴰ}
use queueboard_core.Prelude.{Distinct}
use queueboard_core.QueueWindows.Summary.{
  RuleSet, id_of, Progress, out_of_bounds, rebuild_queue_windows_for_pr,
}
use queueboard_core.QueueWindows.Summarised.{IsRebuilt, rebuild_queue_windows_for_pr-rows}

abbrev gated_rules : QueueRules
gated_rules = record default_rules {
  require_ci_success = true;
  required_ci_contexts = some (codes "Build" ∷ []);
}

abbrev pushed : PullRequest
pushed = record {
  number = 8;
  gh_created_at = 10;
  is_draft = false;
  closed_at = none;
  merged_at = none;
  head_sha = codes "abc";
  timeline = [];
}

abbrev first_push : List Revision
first_push = record { id = 1; seq = 1; head_sha = codes "abc"; from_ts = 10; to_ts = none } ∷ []

abbrev passed : Text → ℕ → CheckRun
passed name t = record {
  name = name;
  head_sha = codes "abc";
  status = codes "COMPLETED";
  conclusion = some (codes "SUCCESS");
  gh_completed_at = some t;
  gh_started_at = some 11;
}

abbrev started : Text → ℕ → CheckRun
started name t = record {
  name = name;
  head_sha = codes "abc";
  status = codes "IN_PROGRESS";
  conclusion = none;
  gh_completed_at = none;
  gh_started_at = some t;
}

abbrev builds : List CheckRun
builds =
    passed (codes "build") 20 ∷ started (codes "build docs") 30 ∷ passed (codes "build") 40 ∷ []

abbrev windows : List QueueWindow
windows = queue_windows_with_rules pushed gated_rules first_push builds [] 90

-- Before the build, after it, and after the end of the second one. A run that has started and not
-- ended is read after the later end of another run, so it closes no window at 30.
times_on_queue : map (λ t. in_windows t windows) (15 ∷ 35 ∷ 50 ∷ []) ≡ false ∷ true ∷ false ∷ []
unfolding queue_windows_with_rules in_windows any Builder.finish_with Rows.boundary_times sorted
    keep Timeline.iter_state_events Rows.check_runs_for contains Text.text_beq Rows.required_names
    Text.normalize insert Text.is_infix Rows.statuses_for on_queue is_on_queue
    Timeline.initial_state xor get modify put discard all Text.lower Text.starts_with Text.strip
    has_all has_any check_run_state ci_state_is_eligible determine_ci_boundary_attribution
    status_context_state Statuses.merge_latest_for_ctx Builder.close_at Builder.close_window
    Builder.turn Statuses.apply_ci_snapshot Statuses.combined_state Sweep.ci_queue_windows
    Timeline.created_as_draft
times_on_queue = refl

-- At 35 the CI state is not good enough for the rules.
not_eligible :
    ci_state_is_eligible gated_rules
      (ci_required_contexts_state pushed first_push builds [] gated_rules 35)
    ≡ false
unfolding ci_required_contexts_state ci_state_is_eligible sorted keep CiState.contexts_state
    CiState.latest_ci_statuses_for_fragment Text.normalize Text.text_beq Text.is_infix
    CiRows.take_seen CiRows.get CiRows.set any check_run_state contains
not_eligible = refl

queue_windows_with_rules-last_boundary_example :
    (in_windows 35 (queue_windows_with_rules pushed gated_rules first_push builds [] 90)
      ≡ is_on_at
          (setting_of pushed gated_rules first_push)
          (boundary pushed gated_rules first_push builds [] 90 35)
          (scan_then pushed gated_rules first_push builds [] 90 35))
    × ((scan_then pushed gated_rules first_push builds [] 90 35).state
        ≡ fold apply_event
            (taken
              (event_by (boundary pushed gated_rules first_push builds [] 90 35))
              (start pushed gated_rules first_push builds [] 90 35).events)
            (start pushed gated_rules first_push builds [] 90 35).state)
    × ((scan_then pushed gated_rules first_push builds [] 90 35).current_rev
        ≡ fold latest
            (taken
              (revision_by (boundary pushed gated_rules first_push builds [] 90 35))
              (start pushed gated_rules first_push builds [] 90 35).revisions)
            none)
queue_windows_with_rules-last_boundary_example =
    queue_windows_with_rules-last_boundary pushed gated_rules first_push builds [] 90 35 refl
      (ground arith) (ground arith) refl

queue_windows_with_rules-InOrder_example :
    InOrder 0 (queue_windows_with_rules pushed gated_rules first_push builds [] 90)
queue_windows_with_rules-InOrder_example =
    queue_windows_with_rules-InOrder pushed gated_rules first_push builds [] 90

abbrev gated_rule_set : QueueRuleSet
gated_rule_set = record {
  id = 4;
  version = 1;
  effective_from = none;
  effective_to = none;
  is_active = true;
  is_default = true;
  require_open = true;
  require_not_draft = true;
  require_ci_success = true;
  ci_gating_mode = none;
  required_label_names = none;
  forbidden_label_names = none;
  assignment_forbidden_label_names = none;
  required_ci_contexts = some (some (codes "build") ∷ []);
}

abbrev source : Source
source = record {
  pr = pushed;
  repository_id = 3;
  timeline_backfill_done = true;
  revisions = first_push;
  runs = builds;
  contexts = [];
}

abbrev row_ids : Ids
row_ids = record { run_id = λ cr. get_or (ts_of cr) 0; context_id = λ sc. sc.gh_created_at }

rebuild_queue_windows_for_ruleset-rows_example :
    (stored : WindowRows) × (result : Result) × (rebuild_queue_windows_for_ruleset row_ids source 3
        gated_rule_set 90 []
      ≡ some (stored, result))
    × ((k : ℕ)
        → get k stored ≡ (
            if source.timeline_backfill_done && not (lacks_revisions source gated_rule_set)
            then get k (window_rows row_ids (windows_of source gated_rule_set 90))
            else none))
rebuild_queue_windows_for_ruleset-rows_example =
    rebuild_queue_windows_for_ruleset-rows row_ids source gated_rule_set 90 []

abbrev one_window : List QueueWindow
one_window =
    record {
      from_ts = 20;
      to_ts = some 4000020;
      opened_by = plain WindowEventType.initial_state;
      closed_by = some (plain WindowEventType.pr_closed);
    }
    ∷ []

-- A second rebuild writes nothing.
written_once :
    (write_windows row_ids one_window (write_windows row_ids one_window []).0).1
    ≡ record { created = 0; updated = 0; deleted = 0; status = Status.rebuilt }
unfolding write_windows get keep put Row-discrete ℕ_discrete
written_once = refl

abbrev rule_sets : List RuleSet
rule_sets =
    record { rule_set = gated_rule_set; repository_id = 3 }
    ∷ record {
      rule_set = record gated_rule_set { id = 5; effective_from = some 11 };
      repository_id = 3;
    }
    ∷ []

different_ids : Distinct (map id_of rule_sets)
unfolding contains
different_ids = (refl, (refl, tt))

rebuild_queue_windows_for_pr-rows_example :
    (b : Progress) × (rebuild_queue_windows_for_pr row_ids source rule_sets [] 90 [] ≡ some b)
    × ((r : RuleSet)
        → Memᴰ r rule_sets
        → IsRebuilt row_ids source 90 r
            (get (id_of r) [])
            (out_of_bounds 10 r.rule_set)
            (get (id_of r) b.rows))
    × ((id : ℕ) → contains id (map id_of rule_sets) ≡ false → get id b.rows ≡ get id [])
rebuild_queue_windows_for_pr-rows_example =
    rebuild_queue_windows_for_pr-rows row_ids source 90 rule_sets [] [] (refl, (refl, tt))
      different_ids
