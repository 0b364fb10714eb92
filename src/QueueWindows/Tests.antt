-- ===== src/QueueWindows/Tests.antt =====
-- The windows of one PR.
use queueboard_core.Prelude.{any, List, ℕ, ◌≡◌, refl, true, false, none, some, [], ◌∷◌, arith}
use queueboard_core.Prelude.Text
use queueboard_core.Prelude.Text.{Text, codes}
use queueboard_core.QueueRules.Rules.{QueueRules, default_rules}
use queueboard_core.QueueWindows.Timeline.{
  EventType, TimelineEvent, PullRequest, state_at_time, on_queue,
}
use queueboard_core.QueueWindows.Attribution.{
  WindowEventType, Boundary, determine_ci_boundary_attribution, is_unknown, ci_changed,
}
use queueboard_core.Prelude.{keep, contains}
use queueboard_core.Prelude.Sorting.{sorted}
use queueboard_core.QueueRules.Select.{load_rules_for_repo}
use queueboard_core.CiEvaluation.Rows
use queueboard_core.QueueWindows.Attribution
use queueboard_core.QueueWindows.Attribution.{CheckRun, check_run_state}
use queueboard_core.QueueWindows.CiState as CiStateAt
use queueboard_core.QueueWindows.CiState.{
  run_by, context_by, head_sha_at_time, ci_required_contexts_state, is_on_queue_at,
}
use queueboard_core.QueueWindows.AtInstant.{
  ci_required_contexts_state-no_lookahead, is_on_queue_at-windows,
}
use queueboard_core.QueueWindows.Builder.{label_queue_windows}
use queueboard_core.QueueWindows.Turn.{in_windows}
use queueboard_core.QueueWindows.AtTime.{label_queue_windows-state_at_time}

abbrev review_rules : QueueRules
review_rules = record default_rules { forbidden_labels = some (codes "wip" ∷ []) }

abbrev labeled_at : ℕ → ℕ → EventType → TimelineEvent
labeled_at id t type = record {
  id = id;
  type = type;
  label_name = some (codes "WIP");
  occurred_at = t;
}

abbrev reviewed : PullRequest
reviewed = record {
  number = 7;
  gh_created_at = 10;
  is_draft = false;
  closed_at = some 60;
  merged_at = none;
  head_sha = codes "abc";
  timeline =
      labeled_at 2 30 EventType.unlabeled
      ∷ labeled_at 1 20 EventType.labeled
      ∷ labeled_at 3 60 EventType.closed
      ∷ [];
}

label_queue_windows-state_at_time_example :
    in_windows 40 (label_queue_windows reviewed review_rules 50)
    ≡ on_queue review_rules (some true) (state_at_time reviewed 40)
label_queue_windows-state_at_time_example =
    label_queue_windows-state_at_time reviewed review_rules 50 40 (ground arith) (ground arith) refl

abbrev went_green : Boundary
went_green = record {
  pre_rev = some 1;
  cur_rev = some 1;
  pre_ci_ok = some false;
  new_ci_ok = true;
  last_tl_ev = none;
  last_cr = none;
  last_sc = none;
  head_sha = some (codes "abc");
}

abbrev ci_rules : QueueRules
ci_rules = record review_rules {
  require_ci_success = true;
  required_ci_contexts = some (codes "build" ∷ []);
}

abbrev build_at : ℕ → Text → CheckRun
build_at t conclusion = record {
  name = codes "Build (ubuntu)";
  head_sha = codes "abc";
  status = codes "COMPLETED";
  conclusion = some conclusion;
  gh_completed_at = some t;
  gh_started_at = none;
}

abbrev build_runs : List CheckRun
build_runs = build_at 20 (codes "SUCCESS") ∷ build_at 45 (codes "FAILURE") ∷ []

ci_required_contexts_state_test :
    ci_required_contexts_state reviewed [] build_runs [] ci_rules 40 ≡ Attribution.CiState.pass
unfolding ci_required_contexts_state CiStateAt.head_sha_at_time CiStateAt.contexts_state
    CiStateAt.latest_ci_statuses_for_fragment CiStateAt.merge_runs CiStateAt.merge_contexts
    CiStateAt.merge_latest_ci_status check_run_state Rows.take_seen Rows.get Rows.set keep any
    contains Text.text_beq Text.is_infix Text.starts_with Text.normalize Text.strip Text.lower
ci_required_contexts_state_test = refl

ci_required_contexts_state-no_lookahead_example :
    ci_required_contexts_state reviewed []
      (keep (run_by 40) build_runs)
      (keep (context_by 40) [])
      ci_rules
      40
    ≡ ci_required_contexts_state reviewed [] build_runs [] ci_rules 40
ci_required_contexts_state-no_lookahead_example =
    ci_required_contexts_state-no_lookahead reviewed [] build_runs [] ci_rules 40

no_gate : (load_rules_for_repo [] (some 40)).require_ci_success ≡ false
unfolding load_rules_for_repo sorted keep
no_gate = refl

is_on_queue_at-windows_example :
    is_on_queue_at [] reviewed [] build_runs [] 40
    ≡ in_windows 40 (label_queue_windows reviewed (load_rules_for_repo [] (some 40)) 50)
is_on_queue_at-windows_example =
    is_on_queue_at-windows [] reviewed [] build_runs [] 50 40 no_gate (ground arith) (ground arith)
      refl
