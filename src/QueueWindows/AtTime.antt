-- ===== src/QueueWindows/AtTime.antt =====
-- The windows of the label rules against the state that `_state_at_time` finds.
use queueboard_core.Prelude.{
  any, ℕ, ◌≤◌, ◌<◌, ◌≡◌, ◌⊎◌, refl, sym, ap, inl, inr, Bool, true, false, ◌||◌, some, List, [], ◌∷◌,
  ltb, leb, Bool-cases, All, arith,
}
use queueboard_core.Prelude.Sorting.{Ordered, sorted-Ordered}
use queueboard_core.QueueRules.Rules.{QueueRules}
use queueboard_core.QueueWindows.Timeline.{
  state_until, created_as_draft, initial_state, TimelineEvent, PullRequest, state_at_time,
  closed_ts, closed_by_time, on_queue, iter_state_events, earlier,
}
use queueboard_core.QueueWindows.Builder.{take_events, finish, label_queue_windows, start_build}
use queueboard_core.QueueWindows.Turn.{in_windows}
use queueboard_core.QueueWindows.Membership.{From, Fits, take_events_lem}

earlier_trans :
    (x y z : TimelineEvent) → earlier x y ≡ true → earlier y z ≡ true → earlier x z ≡ true
earlier_trans x y z p q = ground arith

earlier_total : (x y : TimelineEvent) → (earlier x y ≡ true) ⊎ (earlier y x ≡ true)
earlier_total x y = elim (Bool-cases (earlier x y)) [ inl p ↦ inl p | inr p ↦ inr (ground arith) ]

-- From `lo` on, or before the PR was opened.
abbrev from_or_early : ℕ → ℕ → TimelineEvent → Bool
from_or_early t0 lo ev = leb lo ev.occurred_at || ltb ev.occurred_at t0

after-All :
    (t0 : ℕ) (ev : TimelineEvent) (events : List TimelineEvent)
    → All (λ y. earlier ev y ≡ true) events
    → All (λ y. from_or_early t0 ev.occurred_at y ≡ true) events
after-All t0 ev [] a = tt
after-All t0 ev (y ∷ events) a = (let first = a.0 in ground arith, after-All t0 ev events a.1)

any-All : (t0 : ℕ) (events : List TimelineEvent) → All (λ y. from_or_early t0 t0 y ≡ true) events
any-All t0 [] = tt
any-All t0 (y ∷ events) = (ground arith, any-All t0 events)

Ordered-From :
    (t0 lo : ℕ) (events : List TimelineEvent)
    → Ordered earlier events
    → All (λ y. from_or_early t0 lo y ≡ true) events
    → From t0 lo events
Ordered-From t0 lo [] o a = tt
Ordered-From t0 lo (ev ∷ events) o a = elim (Bool-cases (ltb ev.occurred_at t0)) [
  | inl p ↦ inl (ground arith, Ordered-From t0 lo events o.1 a.1)
  | inr p ↦
      let first = a.0 in
      inr (
        ground arith,
        ground arith,
        Ordered-From t0 ev.occurred_at events o.1 (after-All t0 ev events o.0),
      )
]

pub iter_state_events-From : (pr : PullRequest) (t0 : ℕ) → From t0 t0 (iter_state_events pr)
unfolding iter_state_events
iter_state_events-From pr t0 =
    Ordered-From t0 t0 (iter_state_events pr) (sorted-Ordered earlier earlier_trans earlier_total _)
      (any-All t0 (iter_state_events pr))

start_build-Fits :
    (rules : QueueRules) (pr : PullRequest) → Fits rules pr.gh_created_at (start_build rules pr)
unfolding start_build
start_build-Fits rules pr =
    elim (Bool-cases
      (on_queue rules (some true) (initial_state (created_as_draft pr (iter_state_events pr))))) [
        | inl p ↦ rw p (record { current_on = sym p; started = λ o e. ground arith })
        | inr p ↦ rw p (record { current_on = sym p; started = λ o e. absurd (cc) })
      ]

state_at_time-open :
    (pr : PullRequest) (t : ℕ)
    → closed_by_time (closed_ts pr) t ≡ false
    → state_at_time pr t
      ≡ state_until pr.gh_created_at t
          (initial_state (created_as_draft pr (iter_state_events pr)))
          (iter_state_events pr)
unfolding state_at_time
state_at_time-open pr t e = rw e refl

start_build-state :
    (rules : QueueRules) (pr : PullRequest)
    → (start_build rules pr).state ≡ initial_state (created_as_draft pr (iter_state_events pr))
unfolding start_build
start_build-state rules pr = refl

start_build-empty :
    (rules : QueueRules) (pr : PullRequest) (t : ℕ)
    → in_windows t (start_build rules pr).windows ≡ false
unfolding start_build in_windows any
start_build-empty rules pr t = refl

pub label_queue_windows-start :
    (pr : PullRequest) (rules : QueueRules) (as_of : ℕ)
    → label_queue_windows pr rules as_of
      ≡ finish
          (closed_ts pr)
          as_of
          (take_events rules pr.gh_created_at (start_build rules pr) (iter_state_events pr))
unfolding label_queue_windows
label_queue_windows-start pr rules as_of = refl

-- At every time from the PR's creation to before `as_of` at which the PR is not closed by its
-- `closed_at`, or else its `merged_at`, the time is in one of the windows exactly when the rules
-- put the state of that time on the queue, with CI taken to be good enough.
pub label_queue_windows-state_at_time :
    (pr : PullRequest) (rules : QueueRules) (as_of t : ℕ)
    → pr.gh_created_at ≤ t
    → t < as_of
    → closed_by_time (closed_ts pr) t ≡ false
    → in_windows t (label_queue_windows pr rules as_of)
      ≡ on_queue rules (some true) (state_at_time pr t)
label_queue_windows-state_at_time pr rules as_of t ge known open_then =
    let from_start =
      take_events_lem rules pr.gh_created_at t as_of (closed_ts pr) known open_then pr.gh_created_at
        (start_build rules pr) (iter_state_events pr) (start_build-Fits rules pr) ge
        (iter_state_events-From pr pr.gh_created_at) in
    let on_then =
      ap (λ s. on_queue rules (some true) (state_until pr.gh_created_at t s (iter_state_events pr)))
        (start_build-state rules pr) in
    rw (label_queue_windows-start pr rules as_of, state_at_time-open pr t open_then)
      (ground (arith, from_start, on_then, start_build-empty rules pr t))
