-- ===== src/QueueWindows/Order.antt =====
-- The windows are in order and apart from each other.
use queueboard_core.Prelude.{
  ◌⊎◌, ℕ, ◌≤◌, ◌<◌, ◌≡◌, refl, sym, subst, Bool, true, false, Option, none, some, inl, inr, List,
  [], ◌∷◌, ◌++◌, ltb, Bool-cases, arith,
}
use queueboard_core.QueueRules.Rules.{QueueRules}
use queueboard_core.QueueWindows.Timeline
use queueboard_core.QueueWindows.Timeline.{
  created_as_draft, TimelineEvent, PullRequest, created_as_draft, closed_ts, on_queue, is_blank,
  iter_state_events, apply_event, closed_by_time,
}
use queueboard_core.QueueWindows.Attribution
use queueboard_core.QueueWindows.Attribution.{initial_state, WindowAttribution, plain}
use queueboard_core.QueueWindows.Builder.{
  by_event, QueueWindow, Opening, Build, close_window, turn, take_event, take_events, finish,
  finish_with, close_at, start_build, label_queue_windows,
}
use queueboard_core.QueueWindows.Membership.{From}
use queueboard_core.QueueWindows.AtTime.{label_queue_windows-start, iter_state_events-From}

-- No window starts before `lo` or before the one ahead of it has ended, none is empty, and only
-- the last one may be open.
abbrev pub InOrder : ℕ → List QueueWindow → Type 0
InOrder lo [] = Unit
InOrder lo (w ∷ ws) =
    (lo ≤ w.from_ts) × elim w.to_ts [ none ↦ ws ≡ [] | some t ↦ (w.from_ts < t) × InOrder t ws ]

-- The windows have all ended, by `hi`.
abbrev pub Ended : ℕ → List QueueWindow → ℕ → Type 0
Ended lo [] hi = lo ≤ hi
Ended lo (w ∷ ws) hi =
    (lo ≤ w.from_ts) × (t : ℕ) × (w.to_ts ≡ some t) × (w.from_ts < t) × Ended t ws hi

Ended-weaken : (lo : ℕ) (ws : List QueueWindow) (hi k : ℕ) → Ended lo ws hi → hi ≤ k → Ended lo ws k
Ended-weaken lo [] hi k e le = ground arith
Ended-weaken lo (w ∷ ws) hi k (a, t, p, b, e) le = (a, t, p, b, Ended-weaken t ws hi k e le)

Ended-append :
    (lo : ℕ) (ws : List QueueWindow) (hi t : ℕ) (w : QueueWindow)
    → Ended lo ws hi
    → hi ≤ w.from_ts
    → w.to_ts ≡ some t
    → w.from_ts < t
    → Ended lo (ws ++ w ∷ []) t
Ended-append lo [] hi t w e le p lt = (ground arith, t, p, lt, ground arith)
Ended-append lo (v ∷ ws) hi t w (a, u, q, b, e) le p lt =
    (a, u, q, b, Ended-append u ws hi t w e le p lt)

Ended-InOrder : (lo : ℕ) (ws : List QueueWindow) (hi : ℕ) → Ended lo ws hi → InOrder lo ws
Ended-InOrder lo [] hi e = tt
Ended-InOrder lo (w ∷ ws) hi (a, t, p, b, e) = (a, rw p (b, Ended-InOrder t ws hi e))

Ended-open :
    (lo : ℕ) (ws : List QueueWindow) (hi : ℕ) (w : QueueWindow)
    → Ended lo ws hi
    → hi ≤ w.from_ts
    → w.to_ts ≡ none
    → InOrder lo (ws ++ w ∷ [])
Ended-open lo [] hi w e le p = (ground arith, rw p refl)
Ended-open lo (v ∷ ws) hi w (a, t, q, b, e) le p = (a, rw q (b, Ended-open t ws hi w e le p))

-- The open window starts after the others have ended, and by `hi`.
abbrev pub Room : ℕ → ℕ → Option Opening → List QueueWindow → Type 0
Room lo hi none ws = Ended lo ws hi
Room lo hi (some o) ws = Ended lo ws o.start × (o.start ≤ hi)

close_window-Ended :
    (lo ts : ℕ) (o : Opening) (a : WindowAttribution) (ws : List QueueWindow)
    → Ended lo ws o.start
    → Ended lo (close_window o ts a ws) ts ⊎ Ended lo (close_window o ts a ws) o.start
unfolding close_window
close_window-Ended lo ts o a ws e = elim (Bool-cases (ltb o.start ts)) [
  | inl p ↦ inl (rw p (Ended-append lo ws o.start ts _ e (ground arith) refl (ground arith)))
  | inr p ↦ inr (rw p e)
]

pub turn-Room :
    (at : ℕ) (opened closed : WindowAttribution) (on : Bool) (lo hi : ℕ) (cur : Option Opening)
    (ws : List QueueWindow)
    → Room lo hi cur ws
    → hi ≤ at
    → Room lo at (turn at opened closed on cur ws).0 (turn at opened closed on cur ws).1
unfolding turn
turn-Room at opened closed true lo hi none ws r le = (Ended-weaken lo ws hi at r le, ground arith)
turn-Room at opened closed true lo hi (some o) ws r le = (r.0, let bound = r.1 in ground arith)
turn-Room at opened closed false lo hi none ws r le = Ended-weaken lo ws hi at r le
turn-Room at opened closed false lo hi (some o) ws r le =
    elim (close_window-Ended lo at o closed ws r.0) [
      | inl e ↦ e
      | inr e ↦
          let bound = r.1 in
          Ended-weaken lo (close_window o at closed ws) o.start at e (ground arith)
    ]

pub Room-weaken :
    (lo hi k : ℕ) (cur : Option Opening) (ws : List QueueWindow)
    → Room lo hi cur ws
    → hi ≤ k
    → Room lo k cur ws
Room-weaken lo hi k none ws r le = Ended-weaken lo ws hi k r le
Room-weaken lo hi k (some o) ws r le = (r.0, let bound = r.1 in ground arith)

take_event-Room :
    (rules : QueueRules) (t0 lo hi : ℕ) (b : Build) (ev : TimelineEvent)
    → Room lo hi b.current b.windows
    → t0 ≤ ev.occurred_at
    → hi ≤ ev.occurred_at
    → Room lo ev.occurred_at (take_event rules t0 b ev).current (take_event rules t0 b ev).windows
unfolding take_event
take_event-Room rules t0 lo hi b ev r ge le =
    let early : ltb ev.occurred_at t0 ≡ false = ground arith in
    elim (Bool-cases (is_blank ev)) [
      | inl p ↦ rw (early, p) (Room-weaken lo hi ev.occurred_at b.current b.windows r le)
      | inr p ↦
          rw (early, p)
            (turn-Room ev.occurred_at (by_event rules ev) (by_event rules ev)
              (on_queue rules (some true) (apply_event ev b.state)) lo hi b.current b.windows r le)
    ]

close_at-InOrder :
    (lo : ℕ) (closed : Option ℕ) (o : Opening) (ws : List QueueWindow)
    → Ended lo ws o.start
    → InOrder lo (close_at closed o ws)
unfolding close_at
close_at-InOrder lo none o ws e = Ended-InOrder lo ws o.start e
close_at-InOrder lo (some end) o ws e =
    let a = plain Attribution.WindowEventType.pr_closed in
    elim (close_window-Ended lo end o a ws e) [
      | inl f ↦ Ended-InOrder lo (close_window o end a ws) end f
      | inr f ↦ Ended-InOrder lo (close_window o end a ws) o.start f
    ]

pub finish_with-InOrder :
    (lo hi : ℕ) (closed : Option ℕ) (as_of : ℕ) (cur : Option Opening) (ws : List QueueWindow)
    → Room lo hi cur ws
    → InOrder lo (finish_with closed as_of cur ws)
unfolding finish_with
finish_with-InOrder lo hi closed as_of none ws r = Ended-InOrder lo ws hi r
finish_with-InOrder lo hi closed as_of (some o) ws r =
    elim (Bool-cases (closed_by_time closed as_of)) [
      | inl p ↦ rw p (close_at-InOrder lo closed o ws r.0)
      | inr p ↦ elim (Bool-cases (ltb o.start as_of)) [
        | inl q ↦ rw (p, q) (Ended-open lo ws o.start _ r.0 (ground arith) refl)
        | inr q ↦ rw (p, q) (Ended-InOrder lo ws o.start r.0)
      ]
    ]

take_events-Room :
    (rules : QueueRules) (t0 lo hi as_of : ℕ) (closed : Option ℕ) (b : Build)
    (events : List TimelineEvent)
    → Room lo hi b.current b.windows
    → From t0 hi events
    → InOrder lo (finish closed as_of (take_events rules t0 b events))
unfolding take_events finish
take_events-Room rules t0 lo hi as_of closed b [] r f =
    finish_with-InOrder lo hi closed as_of b.current b.windows r
take_events-Room rules t0 lo hi as_of closed b (ev ∷ events) r (inl f) =
    let same : take_event rules t0 b ev ≡ b = unfold take_event in ground arith in
    subst (λ c. InOrder lo (finish closed as_of (take_events rules t0 c events))) (sym same)
      (take_events-Room rules t0 lo hi as_of closed b events r f.1)
take_events-Room rules t0 lo hi as_of closed b (ev ∷ events) r (inr f) =
    take_events-Room rules t0 lo ev.occurred_at as_of closed (take_event rules t0 b ev) events
      (take_event-Room rules t0 lo hi b ev r f.0 f.1) f.2

start_build-Room :
    (rules : QueueRules) (pr : PullRequest)
    → Room pr.gh_created_at pr.gh_created_at
        (start_build rules pr).current
        (start_build rules pr).windows
unfolding start_build
start_build-Room rules pr =
    elim (Bool-cases (
      on_queue rules (some true)
        (Timeline.initial_state (created_as_draft pr (iter_state_events pr))))) [
          | inl p ↦ rw p (ground arith, ground arith)
          | inr p ↦ rw p (ground arith)
        ]

-- The windows of the label rules start at the PR's creation at the earliest, each one ends after
-- it starts and before the next one starts or as that starts, and only the last one may be open.
pub label_queue_windows-InOrder :
    (pr : PullRequest) (rules : QueueRules) (as_of : ℕ)
    → InOrder pr.gh_created_at (label_queue_windows pr rules as_of)
label_queue_windows-InOrder pr rules as_of = rw (label_queue_windows-start pr rules as_of) (
    take_events-Room rules pr.gh_created_at pr.gh_created_at pr.gh_created_at as_of (closed_ts pr)
      (start_build rules pr) (iter_state_events pr) (start_build-Room rules pr)
      (iter_state_events-From pr pr.gh_created_at))
