-- ===== src/QueueWindows/Builder.antt =====
-- `_queue_windows_with_rules` under rules that do not gate on CI.
use queueboard_core.Prelude.{
  ℕ, Bool, true, false, Option, none, some, List, [], ◌∷◌, ◌++◌, ltb, if◌then◌else◌,
}
use queueboard_core.Prelude.Int.{ℤ, pos, sub_ℕ, ◌+ℤ◌}
use queueboard_core.QueueRules.Rules.{QueueRules}
use queueboard_core.QueueWindows.Timeline.{
  TimelineEvent, PullRequest, State, initial_state, created_as_draft, iter_state_events, is_blank,
  apply_event, closed_ts, closed_by_time, on_queue,
}
use queueboard_core.QueueWindows.Attribution.{
  WindowEventType, WindowAttribution, plain, timeline_event_type,
}

pub record QueueWindow : Type 0 where
  pub from_ts : ℕ
  pub to_ts : Option ℕ
  pub opened_by : WindowAttribution
  pub closed_by : Option WindowAttribution

-- A window that is open since `start`; `current_on` is that there is one.
pub record Opening : Type 0 where
  pub start : ℕ
  pub opened_by : WindowAttribution

-- The variables of the loop. `current_start` and `current_opened_by` are set together.
pub record Build : Type 0 where
  pub state : State
  pub current : Option Opening
  pub windows : List QueueWindow

abbrev pub by_event : QueueRules → TimelineEvent → WindowAttribution
by_event rules ev = record (plain (timeline_event_type ev rules)) { timeline_event = some ev }

-- A window that would be empty is not recorded.
unfoldable pub close_window : Opening → ℕ → WindowAttribution → List QueueWindow → List QueueWindow
close_window o ts closed_by windows =
    if ltb o.start ts
    then windows
      ++ record {
        from_ts = o.start;
        to_ts = some ts;
        opened_by = o.opened_by;
        closed_by = some closed_by;
      }
        ∷ []
    else windows

-- The tests on `current_on` and `new_on` at a time, with the cause of an opening and of an end.
unfoldable pub turn :
    ℕ
    → WindowAttribution
    → WindowAttribution
    → Bool
    → Option Opening
    → List QueueWindow
    → Option Opening × List QueueWindow
turn at opened closed false (some o) windows = (none, close_window o at closed windows)
turn at opened closed true none windows =
    (some (record { start = at; opened_by = opened }), windows)
turn at opened closed _ current windows = (current, windows)

unfoldable pub take_event : QueueRules → ℕ → Build → TimelineEvent → Build
unfolding turn
take_event rules t0 b ev =
    if ltb ev.occurred_at t0
    then b
    else if is_blank ev
    then b
    else let state = apply_event ev b.state in
      let (current, windows) =
        turn ev.occurred_at (by_event rules ev) (by_event rules ev)
          (on_queue rules (some true) state) b.current b.windows in
      record { state = state; current = current; windows = windows }

unfoldable pub take_events : QueueRules → ℕ → Build → List TimelineEvent → Build
unfolding take_event
take_events rules t0 b [] = b
take_events rules t0 b (ev ∷ events) = take_events rules t0 (take_event rules t0 b ev) events

unfoldable pub close_at : Option ℕ → Opening → List QueueWindow → List QueueWindow
unfolding close_window
close_at none o windows = windows
close_at (some end) o windows = close_window o end (plain WindowEventType.pr_closed) windows

-- A window that is still open ends when the PR was closed, if that is not after `as_of`.
unfoldable pub finish_with : Option ℕ → ℕ → Option Opening → List QueueWindow → List QueueWindow
unfolding close_at
finish_with closed as_of none windows = windows
finish_with closed as_of (some o) windows =
    if closed_by_time closed as_of
    then close_at closed o windows
    else if ltb o.start as_of
    then windows
      ++ record { from_ts = o.start; to_ts = none; opened_by = o.opened_by; closed_by = none } ∷ []
    else windows

unfoldable pub finish : Option ℕ → ℕ → Build → List QueueWindow
unfolding finish_with
finish closed as_of b = finish_with closed as_of b.current b.windows

unfoldable pub start_build : QueueRules → PullRequest → Build
start_build rules pr =
    let state = initial_state (created_as_draft pr (iter_state_events pr)) in
    record {
      state = state;
      current =
          if on_queue rules (some true) state
          then some
              (record { start = pr.gh_created_at; opened_by = plain WindowEventType.initial_state })
          else none;
      windows = [];
    }

unfoldable pub label_queue_windows : PullRequest → QueueRules → ℕ → List QueueWindow
unfolding take_events finish start_build
label_queue_windows pr rules as_of =
    finish (closed_ts pr) as_of
      (take_events rules pr.gh_created_at (start_build rules pr) (iter_state_events pr))

-- `sum((end or as_of) - start for start, end in windows)`
abbrev pub end_or : ℕ → Option ℕ → ℕ
end_or as_of none = as_of
end_or as_of (some t) = t

unfoldable pub total_queue_time : ℕ → List QueueWindow → ℤ
total_queue_time as_of [] = pos 0
total_queue_time as_of (w ∷ ws) =
    sub_ℕ (end_or as_of w.to_ts) w.from_ts +ℤ total_queue_time as_of ws
