-- ===== src/QueueWindows/Membership.antt =====
-- The windows hold exactly the times at which the PR was on the queue.
use queueboard_core.Prelude.{
  ℕ, ◌≤◌, ◌<◌, ◌≡◌, ◌⊎◌, ◌∙◌, ap, inl, inr, Bool, true, false, ◌||◌, Option, some, List, [], ◌∷◌,
  ltb, if◌then◌else◌, Bool-cases, Option-cases, arith,
}
use queueboard_core.QueueRules.Rules.{QueueRules}
use queueboard_core.QueueWindows.Timeline.{
  TimelineEvent, State, apply_event, state_until, closed_by_time, on_queue, is_blank,
}
use queueboard_core.QueueWindows.Builder.{
  Opening, Build, turn, take_event, take_events, finish, by_event, finish_with,
}
use queueboard_core.QueueWindows.Turn.{
  in_windows, opened_by_time, is_open, finish_open, turn-open, turn-started, turn-before,
  turn-after, turn-same,
}

-- What the rest of the events adds at `t`: up to `lo` the open window, and from there the state.
abbrev later : QueueRules → ℕ → ℕ → ℕ → Build → List TimelineEvent → Bool
later rules t0 t lo b events =
    if ltb t lo
    then opened_by_time b.current t
    else on_queue rules (some true) (state_until t0 t b.state events)

-- The events are in order, and those from `t0` on are not before `lo`.
abbrev pub From : ℕ → ℕ → List TimelineEvent → Type 0
From t0 lo [] = Unit
From t0 lo (ev ∷ events) =
    ((ev.occurred_at < t0) × From t0 lo events)
    ⊎ ((t0 ≤ ev.occurred_at) × (lo ≤ ev.occurred_at) × From t0 ev.occurred_at events)

-- The loop's variables fit each other and the time `lo`.
pub record Fits (rules : QueueRules) (lo : ℕ) (b : Build) : Type 0 where
  pub current_on : is_open b.current ≡ on_queue rules (some true) b.state
  pub started : (o : Opening) → b.current ≡ some o → o.start ≤ lo

module _ (rules : QueueRules) (ev : TimelineEvent) where
  -- The step on an event from `t0` on; a blank label event is one that changes nothing.
  take_event_lem :
      (t0 lo : ℕ) (b : Build)
      → Fits rules lo b
      → t0 ≤ ev.occurred_at
      → take_event rules t0 b ev ≡ (
          let s = apply_event ev b.state in
          let r =
            turn ev.occurred_at
              (by_event rules ev)
              (by_event rules ev)
              (on_queue rules (some true) s)
              b.current
              b.windows in
          record { state = s; current = r.0; windows = r.1 })
  unfolding take_event apply_event
  take_event_lem t0 lo b f le = elim (Bool-cases (is_blank ev)) [
    | inl blank ↦
        rw
          (
            blank,
            ← f.current_on,
            turn-same ev.occurred_at (by_event rules ev) (by_event rules ev) b.current b.windows,
          )
          (ground arith)
    | inr full ↦ rw full (ground arith)
  ]

module _ (t0 t : ℕ) (s : State) (ev : TimelineEvent) (events : List TimelineEvent) where
  state_until-skip :
      ev.occurred_at < t0 → state_until t0 t s (ev ∷ events) ≡ state_until t0 t s events
  unfolding state_until
  state_until-skip h = ground arith

  state_until-stop : t0 ≤ ev.occurred_at → t < ev.occurred_at → state_until t0 t s (ev ∷ events) ≡ s
  unfolding state_until
  state_until-stop h k = ground arith

  state_until-step :
      t0 ≤ ev.occurred_at
      → ev.occurred_at ≤ t
      → state_until t0 t s (ev ∷ events) ≡ state_until t0 t (apply_event ev s) events
  unfolding state_until
  state_until-step h k = ground arith

opened-lem :
    (rules : QueueRules) (lo t : ℕ) (b : Build)
    → Fits rules lo b
    → lo ≤ t
    → opened_by_time b.current t ≡ on_queue rules (some true) b.state
opened-lem rules lo t b f le = elim (Option-cases b.current) [
  | inl e ↦ ground (arith, f.current_on)
  | inr e ↦ ground (arith, e.1, f.current_on, f.started e.0 e.1)
]

-- One event, from `t0` on, moves the time `lo` up to the event and changes nothing that is seen.
module _ (rules : QueueRules) (t0 t lo : ℕ) (b : Build) (ev : TimelineEvent)
    (events : List TimelineEvent) (f : Fits rules lo b) (ge : t0 ≤ ev.occurred_at)
    (le : lo ≤ ev.occurred_at) where
  step-Fits : Fits rules ev.occurred_at (take_event rules t0 b ev)
  step-Fits = rw (take_event_lem rules ev t0 lo b f ge) (
      let on = on_queue rules (some true) (apply_event ev b.state) in
      record {
        current_on =
            turn-open ev.occurred_at (by_event rules ev) (by_event rules ev) on b.current b.windows;
        started =
            turn-started ev.occurred_at (by_event rules ev) (by_event rules ev) lo on b.current
              b.windows le f.started;
      })

  step-later :
      (in_windows t (take_event rules t0 b ev).windows
        || later rules t0 t ev.occurred_at (take_event rules t0 b ev) events)
      ≡ (in_windows t b.windows || later rules t0 t lo b (ev ∷ events))
  step-later = rw (take_event_lem rules ev t0 lo b f ge) (
      let on = on_queue rules (some true) (apply_event ev b.state) in
      elim (Bool-cases (ltb t ev.occurred_at)) [
        | inl lt ↦
            let lt' : t < ev.occurred_at = ground arith in
            ground (
              arith,
              turn-before ev.occurred_at (by_event rules ev) (by_event rules ev) t on b.current
                  b.windows lt',
              ap (on_queue rules (some true)) (state_until-stop t0 t b.state ev events ge lt'),
              opened-lem rules lo t b f,
            )
        | inr past ↦
            let past' : ev.occurred_at ≤ t = ground arith in
            ground (
              arith,
              turn-after ev.occurred_at (by_event rules ev) (by_event rules ev) t on b.current
                  b.windows past',
              ap (on_queue rules (some true)) (state_until-step t0 t b.state ev events ge past'),
            )
      ])

module _ (rules : QueueRules) (t0 t as_of : ℕ) (closed : Option ℕ) (known : t < as_of)
    (open_then : closed_by_time closed t ≡ false) where
  finish_lem :
      (lo : ℕ) (b : Build)
      → Fits rules lo b
      → in_windows t (finish closed as_of b) ≡ (in_windows t b.windows || later rules t0 t lo b [])
  unfolding finish finish_with state_until
  finish_lem lo b f = elim (Option-cases b.current) [
    | inl e ↦
        ap (λ c. in_windows t (finish_with closed as_of c b.windows)) e
        ∙ ground (arith, e, f.current_on)
    | inr e ↦
        ap (λ c. in_windows t (finish_with closed as_of c b.windows)) e.1
        ∙ finish_open closed t as_of e.0 b.windows known open_then
        ∙ ground (arith, e.1, f.current_on, f.started e.0 e.1)
  ]

  pub take_events_lem :
      (lo : ℕ) (b : Build) (events : List TimelineEvent)
      → Fits rules lo b
      → t0 ≤ t
      → From t0 lo events
      → in_windows t (finish closed as_of (take_events rules t0 b events))
        ≡ (in_windows t b.windows || later rules t0 t lo b events)
  unfolding take_events
  take_events_lem lo b [] f ge order = finish_lem lo b f
  take_events_lem lo b (ev ∷ events) f ge (inl early) =
      let same : take_event rules t0 b ev ≡ b = unfold take_event in ground arith in
      rw same (
        take_events_lem lo b events f ge early.1
        ∙ ground (
          arith,
          ap (on_queue rules (some true)) (state_until-skip t0 t b.state ev events early.0),
        ))
  take_events_lem lo b (ev ∷ events) f ge (inr late) =
      take_events_lem ev.occurred_at (take_event rules t0 b ev) events
        (step-Fits rules t0 t lo b ev events f late.0 late.1) ge late.2
      ∙ step-later rules t0 t lo b ev events f late.0 late.1
