-- ===== src/QueueWindows/Rebuild.antt =====
-- `rebuild_queue_windows_for_ruleset`: the rows of the windows of a PR under a rule set. The rows are
-- a dict by `from_ts`, which is unique for the pair; a row is found again by it, not by its id.
use native.Mathlib.Decide.{ℕ_discrete}
use queueboard_core.Prelude.{
  ℕ, ◌+◌, ◌-◌, ◌/◌, Bool, not, ◌&&◌, Option, none, some, List, [], ◌∷◌, ◌++◌, if◌then◌else◌, keep,
  length, is_some, is_empty, ◌==◌, Eq, nat_eq, discrete_eq,
}
use queueboard_core.Prelude.Text.{Text}
use queueboard_core.Prelude.Dict.{get, put}
use queueboard_core.QueueRules.Rules.{QueueRuleSet, resolve_ci_gating_mode, rules_for_rule_set}
use queueboard_core.QueueWindows.Timeline.{PullRequest, TimelineEvent}
use queueboard_core.QueueWindows.Attribution.{
  CheckRun, StatusContext, WindowEventType, WindowAttribution,
}
use queueboard_core.QueueWindows.Builder.{QueueWindow}
use queueboard_core.QueueWindows.CiState.{Revision}
use queueboard_core.QueueWindows.Sweep.{queue_windows_with_rules}

-- The columns of one side of a window; a foreign key is the id of its row.
pub record Columns : Type 0 where
  pub event_type : Option WindowEventType
  pub timeline_event : Option ℕ
  pub check_run : Option ℕ
  pub status_context : Option ℕ
  pub head_sha : Option Text

pub record Row : Type 0 where
  pub to_ts : Option ℕ
  pub cycle_index : ℕ
  pub duration_seconds_closed : ℕ
  pub cumulative_seconds_closed : ℕ
  pub window_count : ℕ
  pub first_on_queue_ts : Option ℕ
  pub opened : Columns
  pub closed : Columns

unfoldable pub Row-discrete : Discrete Row
Row-discrete = hlevel (ℕ_discrete)

instance abbrev pub row_eq : Eq Row
row_eq = discrete_eq Row-discrete

-- The ids of the rows of CI.
pub record Ids : Type 0 where
  pub run_id : CheckRun → ℕ
  pub context_id : StatusContext → ℕ

abbrev pub map_some : {A B : Type 0} → (A → B) → Option A → Option B
map_some f none = none
map_some f (some a) = some (f a)

unfoldable pub attribution_kwargs : Ids → Option WindowAttribution → Columns
attribution_kwargs ids none = record {
  event_type = none;
  timeline_event = none;
  check_run = none;
  status_context = none;
  head_sha = none;
}
attribution_kwargs ids (some attr) = record {
  event_type = some attr.event_type;
  timeline_event = map_some (λ (ev : TimelineEvent). ev.id) attr.timeline_event;
  check_run = map_some ids.run_id attr.check_run;
  status_context = map_some ids.context_id attr.status_context;
  head_sha = attr.head_sha;
}

-- `int((end - start).total_seconds())`; a window ends after it starts.
unfoldable pub duration_seconds : QueueWindow → ℕ
duration_seconds w = elim w.to_ts [ none ↦ 0 | some end ↦ (end - w.from_ts) / 1000000 ]

-- What is the same for every window of the run.
pub record Run : Type 0 where
  pub ids : Ids
  pub window_count : ℕ
  pub first_on_queue_ts : Option ℕ

unfoldable pub row_of : Run → ℕ → ℕ → QueueWindow → Row
unfolding attribution_kwargs duration_seconds
row_of run cycle_index cumulative w = record {
  to_ts = w.to_ts;
  cycle_index = cycle_index;
  duration_seconds_closed = duration_seconds w;
  cumulative_seconds_closed = cumulative + duration_seconds w;
  window_count = run.window_count;
  first_on_queue_ts = run.first_on_queue_ts;
  opened = attribution_kwargs run.ids (some w.opened_by);
  closed = attribution_kwargs run.ids w.closed_by;
}

abbrev pub WindowRows : Type 0
WindowRows = List (ℕ × Row)

-- `existing_by_start`, `to_create` and `to_update`.
pub record Sync : Type 0 where
  pub existing : WindowRows
  pub to_create : WindowRows
  pub to_update : WindowRows

-- `existing_by_start.pop(start, None)`
unfoldable pub pop : ℕ → WindowRows → WindowRows
pop start rows = keep (λ (e : ℕ × Row). not (e.0 == start)) rows

-- A row of which no column changes is not written.
unfoldable pub sync_row : ℕ → Row → Option Row → Sync → Sync
unfolding pop
sync_row start row none s = record s {
  existing = pop start s.existing;
  to_create = s.to_create ++ (start, row) ∷ [];
}
sync_row start row (some obj) s =
    if obj == row
    then record s { existing = pop start s.existing }
    else record s { existing = pop start s.existing; to_update = s.to_update ++ (start, row) ∷ [] }

unfoldable pub sync_windows : Run → ℕ → ℕ → List QueueWindow → Sync → Sync
unfolding sync_row row_of
sync_windows run cycle_index cumulative [] s = s
sync_windows run cycle_index cumulative (w ∷ ws) s =
    sync_windows run (cycle_index + 1) (cumulative + duration_seconds w) ws
      (sync_row w.from_ts (row_of run cycle_index cumulative w) (get w.from_ts s.existing) s)

-- `bulk_create` with `update_conflicts`, and `bulk_update`.
unfoldable pub write : WindowRows → WindowRows → WindowRows
write [] rows = rows
write ((start, row) ∷ more) rows = write more (put start row rows)

unfoldable pub delete : WindowRows → WindowRows → WindowRows
unfolding pop
delete [] rows = rows
delete ((start, row) ∷ more) rows = delete more (pop start rows)

pub data Status : Type 0 where
  rebuilt timeline_backfill_incomplete missing_pr_revisions_for_ci_ruleset : Status

pub record Result : Type 0 where
  pub created : ℕ
  pub updated : ℕ
  pub deleted : ℕ
  pub status : Status

abbrev pub skipped : Status → Result
skipped reason = record { created = 0; updated = 0; deleted = 0; status = reason }

abbrev pub first_start : List QueueWindow → Option ℕ
first_start [] = none
first_start (w ∷ ws) = some w.from_ts

abbrev pub run_of : Ids → List QueueWindow → Run
run_of ids windows = record {
  ids = ids;
  window_count = length windows;
  first_on_queue_ts = first_start windows;
}

unfoldable pub write_windows : Ids → List QueueWindow → WindowRows → WindowRows × Result
unfolding sync_windows write delete
write_windows ids windows rows =
    let s : Sync =
      sync_windows (run_of ids windows) 0 0 windows
        (record { existing = rows; to_create = []; to_update = [] }) in
    (
      delete s.existing (write s.to_update (write s.to_create rows)),
      record {
        created = length s.to_create;
        updated = length s.to_update;
        deleted = length s.existing;
        status = Status.rebuilt;
      },
    )

-- What is known of a PR besides its own row.
pub record Source : Type 0 where
  pub pr : PullRequest
  pub repository_id : ℕ
  pub timeline_backfill_done : Bool
  pub revisions : List Revision
  pub runs : List CheckRun
  pub contexts : List StatusContext

abbrev pub windows_of : Source → QueueRuleSet → ℕ → List QueueWindow
windows_of p rule_set as_of =
    queue_windows_with_rules p.pr (rules_for_rule_set rule_set) p.revisions p.runs p.contexts as_of

-- Rules that gate on CI, without a revision that says what the head was.
abbrev pub lacks_revisions : Source → QueueRuleSet → Bool
lacks_revisions p rule_set =
    is_some (resolve_ci_gating_mode rule_set.require_ci_success rule_set.ci_gating_mode)
    && is_empty p.revisions

-- `none` is the ValueError.
unfoldable pub rebuild_queue_windows_for_ruleset :
    Ids → Source → ℕ → QueueRuleSet → ℕ → WindowRows → Option (WindowRows × Result)
unfolding write_windows
rebuild_queue_windows_for_ruleset ids p rule_set_repository_id rule_set as_of rows =
    if not (p.repository_id == rule_set_repository_id)
    then none
    else if not p.timeline_backfill_done
    then some ([], skipped Status.timeline_backfill_incomplete)
    else if lacks_revisions p rule_set
    then some ([], skipped Status.missing_pr_revisions_for_ci_ruleset)
    else some (write_windows ids (windows_of p rule_set as_of) rows)
