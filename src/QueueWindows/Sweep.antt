-- ===== src/QueueWindows/Sweep.antt =====
-- `_queue_windows_with_rules` under rules that gate on CI. The two copies of the tests on
-- `current_on` and `new_on`, for revisions without a head at the time and for the rest, are one here.
use queueboard_core.Prelude.{
  ℕ, Bool, true, false, not, Option, none, some, List, [], ◌∷◌, leb, ◌==◌, nat_eq, if◌then◌else◌,
  is_empty, get_or,
}
use queueboard_core.Prelude.Text.{Text, text_eq}
use queueboard_core.Prelude.Dict.{get}
use queueboard_core.Prelude.Sorting.{sorted}
use queueboard_core.QueueRules.Rules.{QueueRules}
use queueboard_core.QueueWindows.Timeline.{
  PullRequest, TimelineEvent, State, initial_state, created_as_draft, iter_state_events, is_blank,
  apply_event, closed_ts, closed_by_time, on_queue,
}
use queueboard_core.QueueWindows.Attribution.{
  CiState, CheckRun, StatusContext, WindowEventType, WindowAttribution, plain, Boundary,
  tl_event_significance, ci_state_is_eligible, determine_ci_boundary_attribution,
}
use queueboard_core.QueueWindows.Builder.{
  QueueWindow, Opening, turn, finish_with, label_queue_windows,
}
use queueboard_core.QueueWindows.CiState.{Revision, head_of, is_by}
use queueboard_core.QueueWindows.Rows.{
  required_names, starts_earlier, shas_of, ts_of, check_runs_for, statuses_for, boundary_times,
}
use queueboard_core.QueueWindows.Statuses.{
  Statuses, no_statuses, apply_run, apply_context, combined_state,
}

-- `while index < len(rows) and ...`: the rows that the loop takes, and those that it leaves.
unfoldable pub taken {ℓ} : {A : Type ℓ} → (A → Bool) → List A → List A
taken p [] = []
taken p (a ∷ xs) = let rest = taken p xs in if p a then a ∷ rest else []

unfoldable pub left {ℓ} : {A : Type ℓ} → (A → Bool) → List A → List A
left p [] = []
left p (a ∷ xs) = let rest = left p xs in if p a then rest else a ∷ xs

unfoldable pub fold {ℓ κ} : {A : Type ℓ} → {B : Type κ} → (A → B → B) → List A → B → B
fold f [] b = b
fold f (a ∷ xs) b = fold f xs (f a b)

abbrev pub event_by : ℕ → TimelineEvent → Bool
event_by t ev = leb ev.occurred_at t

abbrev pub revision_by : ℕ → Revision → Bool
revision_by t rev = leb rev.from_ts t

abbrev pub run_by : ℕ → CheckRun → Bool
run_by t cr = is_by t (ts_of cr)

abbrev pub context_by : ℕ → StatusContext → Bool
context_by t sc = leb sc.gh_created_at t

abbrev pub latest {ℓ} : {A : Type ℓ} → A → Option A → Option A
latest a old = some a

-- What the loop has read so far, and the rows that are left.
pub record Scan : Type 0 where
  pub state : State
  pub current_rev : Option Revision
  pub statuses : Statuses
  pub events : List TimelineEvent
  pub revisions : List Revision
  pub runs : List CheckRun
  pub contexts : List StatusContext

unfoldable pub close_by : Option ℕ → ℕ → State → State
close_by closed t s = if closed_by_time closed t then record s { is_open = false } else s

unfoldable pub advance : Option ℕ → List Text → ℕ → Scan → Scan
unfolding close_by fold taken left
advance closed required t s = record {
  state = close_by closed t (fold apply_event (taken (event_by t) s.events) s.state);
  current_rev = fold latest (taken (revision_by t) s.revisions) s.current_rev;
  statuses =
      fold (apply_context required) (taken (context_by t) s.contexts)
        (fold (apply_run required) (taken (run_by t) s.runs) s.statuses);
  events = left (event_by t) s.events;
  revisions = left (revision_by t) s.revisions;
  runs = left (run_by t) s.runs;
  contexts = left (context_by t) s.contexts;
}

-- `_last_tl_ev`: of the most significant events, the last.
unfoldable pub more_significant :
    QueueRules → TimelineEvent → Option TimelineEvent → Option TimelineEvent
more_significant rules ev none = if is_blank ev then none else some ev
more_significant rules ev (some old) =
    if is_blank ev
    then some old
    else if leb (tl_event_significance old rules) (tl_event_significance ev rules)
    then some ev
    else some old

-- What does not change from one boundary to the next.
pub record Setting : Type 0 where
  pub rules : QueueRules
  pub closed : Option ℕ
  pub required : List Text
  pub has_revisions : Bool

abbrev pub state_of_head : List Text → Statuses → Option Text → CiState
state_of_head required m none = CiState.missing
state_of_head required m (some head) =
    combined_state (λ ctx. get_or (get ctx (get_or (get head m.by_head) [])) []) false false
      required

unfoldable pub ci_state_at : Setting → ℕ → Scan → CiState
ci_state_at c t s =
    if is_empty c.required
    then CiState.pass
    else if c.has_revisions
    then state_of_head c.required s.statuses (head_of s.current_rev t)
    else combined_state (λ ctx. get_or (get ctx s.statuses.for_pr) []) false false c.required

abbrev pub ci_ok_at : Setting → ℕ → Scan → Bool
ci_ok_at c t s = ci_state_is_eligible c.rules (ci_state_at c t s)

unfoldable pub is_on_at : Setting → ℕ → Scan → Bool
unfolding ci_state_at
is_on_at c t s = on_queue c.rules (some (ci_ok_at c t s)) s.state

-- `current` is `none` before the first boundary.
pub record Sweep : Type 0 where
  pub scan : Scan
  pub prev_ci_ok : Option Bool
  pub current : Option (Option Opening)
  pub windows : List QueueWindow

abbrev pub id_of : Option Revision → Option ℕ
id_of none = none
id_of (some rev) = some rev.id

unfoldable pub boundary_at : Setting → ℕ → Sweep → Scan → Boundary
unfolding more_significant
boundary_at c t b s = record {
  pre_rev = id_of b.scan.current_rev;
  cur_rev = id_of s.current_rev;
  pre_ci_ok = b.prev_ci_ok;
  new_ci_ok = ci_ok_at c t s;
  last_tl_ev = fold (more_significant c.rules) (taken (event_by t) b.scan.events) none;
  last_cr = fold latest (taken (run_by t) b.scan.runs) none;
  last_sc = fold latest (taken (context_by t) b.scan.contexts) none;
  head_sha = head_of s.current_rev t;
}

abbrev pub closes_at : Option ℕ → ℕ → Bool
closes_at none t = false
closes_at (some c) t = c == t

unfoldable pub closing_cause : Setting → ℕ → Boundary → WindowAttribution
closing_cause c t y =
    if closes_at c.closed t
    then record (plain WindowEventType.pr_closed) { head_sha = y.head_sha }
    else determine_ci_boundary_attribution c.rules y

abbrev pub first_opening : ℕ → Option Text → Bool → Option Opening
first_opening t head false = none
first_opening t head true = some (record {
  start = t;
  opened_by = record (plain WindowEventType.initial_state) { head_sha = head };
})

unfoldable pub turn_at :
    Setting
    → ℕ
    → Boundary
    → Bool
    → Option (Option Opening)
    → List QueueWindow
    → Option Opening × List QueueWindow
unfolding closing_cause turn
turn_at c t y on none windows = (first_opening t y.head_sha on, windows)
turn_at c t y on (some current) windows =
    turn t (determine_ci_boundary_attribution c.rules y) (closing_cause c t y) on current windows

unfoldable pub take_boundary : Setting → ℕ → Sweep → Sweep
unfolding turn_at boundary_at advance is_on_at
take_boundary c t b =
    let s = advance c.closed c.required t b.scan in
    let r = turn_at c t (boundary_at c t b s) (is_on_at c t s) b.current b.windows in
    record { scan = s; prev_ci_ok = some (ci_ok_at c t s); current = some r.0; windows = r.1 }

abbrev pub finish_sweep : Setting → ℕ → Sweep → List QueueWindow
finish_sweep c as_of b = finish_with c.closed as_of (get_or b.current none) b.windows

abbrev pub setting_of : PullRequest → QueueRules → List Revision → Setting
setting_of pr rules revisions = record {
  rules = rules;
  closed = closed_ts pr;
  required = required_names rules;
  has_revisions = not (is_empty revisions);
}

unfoldable pub start_scan :
    PullRequest → QueueRules → List Revision → List CheckRun → List StatusContext → ℕ → Scan
start_scan pr rules revisions runs contexts as_of =
    let required = required_names rules in
    let shas = shas_of revisions pr.head_sha in
    record {
      state = initial_state (created_as_draft pr (iter_state_events pr));
      current_rev = none;
      statuses = record { for_pr = no_statuses required; by_head = [] };
      events = iter_state_events pr;
      revisions = sorted starts_earlier revisions;
      runs = check_runs_for required shas pr.gh_created_at as_of runs;
      contexts = statuses_for required shas pr.gh_created_at as_of contexts;
    }

abbrev pub times_of : PullRequest → ℕ → Scan → List ℕ
times_of pr as_of s =
    boundary_times pr.gh_created_at as_of s.events s.revisions s.runs s.contexts (closed_ts pr)

abbrev pub start_sweep : Scan → Sweep
start_sweep s = record { scan = s; prev_ci_ok = none; current = none; windows = [] }

unfoldable pub ci_queue_windows :
    PullRequest
    → QueueRules
    → List Revision
    → List CheckRun
    → List StatusContext
    → ℕ
    → List QueueWindow
unfolding take_boundary start_scan fold
ci_queue_windows pr rules revisions runs contexts as_of =
    let s = start_scan pr rules revisions runs contexts as_of in
    let c = setting_of pr rules revisions in
    finish_sweep c as_of (fold (take_boundary c) (times_of pr as_of s) (start_sweep s))

unfoldable pub queue_windows_with_rules :
    PullRequest
    → QueueRules
    → List Revision
    → List CheckRun
    → List StatusContext
    → ℕ
    → List QueueWindow
unfolding ci_queue_windows
queue_windows_with_rules pr rules revisions runs contexts as_of =
    if not rules.require_ci_success
    then label_queue_windows pr rules as_of
    else ci_queue_windows pr rules revisions runs contexts as_of
