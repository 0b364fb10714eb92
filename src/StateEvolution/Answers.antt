-- ===== src/StateEvolution/Answers.antt =====
-- What the totals, the first time and the last update say of each other and of the events.
use queueboard_core.Prelude.{
  ◌≢◌, map, last_of, ℕ, ◌≤◌, ◌≡◌, refl, sym, ◌∙◌, ap, inl, inr, Bool, false, none, some, List, [],
  ◌∷◌, ◌==◌, if◌then◌else◌, All, arith, Bool-cases, nat_beq_iff, nat_eq,
}
use mathlib.Core.Path.{subst}
use queueboard_core.Prelude.Int.{ℤ, pos, sub_ℕ, ◌+ℤ◌, ◌≤ℤ◌, sub_ℕ_parts, int_laws}
use queueboard_core.Classify.Kinds.{PrStatus, PrState, pr_status_eq}
use queueboard_core.StateEvolution.Events.{Event, PrData, Metadata, process_data}
use queueboard_core.StateEvolution.Processed.{process_data-Processed}
use queueboard_core.StateEvolution.Totals.{
  total_time_in_status, total_time_in_status_inner, total_queue_time_inner, initial_state,
  first_on_queue_inner, first_time, skip_immediate, last_status_update_inner, last_entry,
}
use queueboard_core.StateEvolution.Replay.{
  ForkStatus, SameTimes, Evolves, determine_status_changes_total,
}
use queueboard_core.StateEvolution.Partition.{
  length-SameTimes, time_in, stretch, total_time_in_status-time_in, zero_add,
}

-- The events come in order, none before the creation and none after now.
abbrev pub Chronological : ℕ → List Event → ℕ → Type 0
Chronological t [] now = t ≤ now
Chronological t (e ∷ events) now = (t ≤ e.time) × Chronological e.time events now

Chronological-le : (t : ℕ) (events : List Event) (now : ℕ) → Chronological t events now → t ≤ now
Chronological-le t [] now h = h
Chronological-le t (e ∷ es) now h = omega (arith, Chronological-le e.time es now h.1)

stretch_bounds :
    (b : Bool) (t t' : ℕ)
    → t ≤ t'
    → (pos 0 ≤ℤ (if b then sub_ℕ t' t else pos 0))
      × ((if b then sub_ℕ t' t else pos 0) ≤ℤ sub_ℕ t' t)
stretch_bounds b t t' h = ground arith

time_in_bounds :
    (now t : ℕ) (st : PrStatus) (r : List (ℕ × PrStatus)) (events : List Event) (s : PrStatus)
    → SameTimes r events
    → Chronological t events now
    → (pos 0 ≤ℤ time_in now (t, st) r s) × (time_in now (t, st) r s ≤ℤ sub_ℕ now t)
unfolding time_in
time_in_bounds now t st [] [] s e h = stretch_bounds (st == s) t now h
time_in_bounds now t st [] (x ∷ es) s e h = absurd e
time_in_bounds now t st (y ∷ r) [] s e h = absurd e
time_in_bounds now t st ((t', st') ∷ r) (x ∷ es) s e h =
    let le : t' ≤ now = rw e.0 (Chronological-le x.time es now h.1) in
    let b = stretch_bounds (st == s) t t' (rw e.0 h.0) in
    let c = time_in_bounds now t' st' r es s e.1 (rw e.0 h.1) in
    (
      omega (int_laws, b, c),
      omega (int_laws, b, c, sub_ℕ_parts t' t, sub_ℕ_parts now t', sub_ℕ_parts now t),
    )

-- Where the PR's data is read and its events are in order, the total time in a status is at least 0, and at most the time since the
-- creation.
pub total_time_bounds :
    (now : ℕ) (pr : PrData) (m : Metadata) (s : PrStatus)
    → process_data pr ≡ some m
    → Chronological pr.created_at m.events now
    → (d : ℤ) × (total_time_in_status_inner now m s ≡ some d)
      × (pos 0 ≤ℤ d)
      × (d ≤ℤ sub_ℕ now pr.created_at)
unfolding total_time_in_status_inner
total_time_bounds now pr m s read chron =
    let created = (process_data-Processed pr m read).created in
    let (st, r, h) =
      determine_status_changes_total m.created_at (initial_state m) m.events
        (process_data-Processed pr m read).plain in
    let (lo, hi) =
      time_in_bounds now m.created_at st r m.events s h.times
        (subst (λ t. Chronological t m.events now) (sym created) chron) in
    (
      time_in now (m.created_at, st) r s,
      total_time_in_status-time_in m.created_at now (initial_state m) m.events st r h s,
      lo,
      subst (λ t. time_in now (m.created_at, st) r s ≤ℤ sub_ℕ now t) created hi,
    )

never_zero :
    (now : ℕ) (s : PrStatus) (x : ℕ × PrStatus) (r : List (ℕ × PrStatus))
    → first_time s (x ∷ r) ≡ none
    → time_in now x r s ≡ pos 0
unfolding time_in first_time
never_zero now s (t, st) [] h = ground arith
never_zero now s (t, st) ((t', st') ∷ r) h = elim (Bool-cases (st == s)) [
  | inl p ↦ absurd (ground arith)
  | inr p ↦
      rw p (zero_add (time_in now (t', st') r s) ∙ never_zero now s (t', st') r (ground arith))
]

sub_ℕ_self : (t : ℕ) → sub_ℕ t t ≡ pos 0
sub_ℕ_self t = ground arith

stretch_zero : (b : Bool) → (if b then pos 0 else pos 0) ≡ pos 0
stretch_zero b = ground arith

skip_zero :
    (now : ℕ) (s : PrStatus) (x : ℕ × PrStatus) (r : List (ℕ × PrStatus))
    → first_time s (skip_immediate (x ∷ r)) ≡ none
    → time_in now x r s ≡ pos 0
unfolding skip_immediate
skip_zero now s x [] h = never_zero now s x [] h
skip_zero now s (t, st) ((t', st') ∷ r) h = elim (Bool-cases (t == t')) [
  | inl p ↦
      unfold time_in in
      ap (λ d. stretch st d s +ℤ time_in now (t', st') r s)
        (ap (λ z. sub_ℕ t' z) ((nat_beq_iff t t').0 p) ∙ sub_ℕ_self t')
      ∙ ap (λ d. d +ℤ time_in now (t', st') r s) (stretch_zero (st == s))
      ∙ zero_add (time_in now (t', st') r s)
      ∙ never_zero now s (t', st') r (ground arith)
  | inr p ↦ never_zero now s (t, st) ((t', st') ∷ r) (ground arith)
]

-- A PR that was never on the queue, by its first time there, has spent no time on the queue.
pub first_on_queue-total_zero :
    (now : ℕ) (pr : PrData) (m : Metadata)
    → process_data pr ≡ some m
    → first_on_queue_inner m ≡ some none
    → total_queue_time_inner now m ≡ some (pos 0)
unfolding first_on_queue_inner total_queue_time_inner
first_on_queue-total_zero now pr m read first =
    let (st, r, h) =
      determine_status_changes_total m.created_at (initial_state m) m.events
        (process_data-Processed pr m read).plain in
    total_time_in_status-time_in m.created_at now (initial_state m) m.events st r h
      PrStatus.awaiting_review
    ∙ ap some
        (skip_zero now PrStatus.awaiting_review (m.created_at, st) r (ground (arith, h.computed)))

no_fork_zero :
    (now : ℕ) (st : PrStatus) (t : ℕ) (r : List (ℕ × PrStatus)) (s : PrStatus)
    → s ≢ PrStatus.not_from_fork
    → st ≡ PrStatus.not_from_fork
    → All (λ x. x.1 ≡ PrStatus.not_from_fork) r
    → time_in now (t, st) r s ≡ pos 0
unfolding time_in
no_fork_zero now st t [] s ne e a = ground (arith, pr_status_eq.beq_iff st s)
no_fork_zero now st t ((t', st') ∷ r) s ne e a =
    rw (no_fork_zero now st' t' r s ne a.0 a.1)
      (ground (arith, pr_status_eq.beq_iff st s, zero_add (pos 0)))

no_fork_total :
    (t now : ℕ) (u : PrState) (events : List Event) (st : PrStatus) (r : List (ℕ × PrStatus))
    → Evolves t u events st r
    → u.from_fork ≡ false
    → (s : PrStatus) → s ≢ PrStatus.not_from_fork
    → total_time_in_status t now u events s ≡ some (pos 0)
no_fork_total t now u events st r h e s ne =
    total_time_in_status-time_in t now u events st r h s
    ∙ ap some (
        no_fork_zero now st t r s ne (subst (λ b. ForkStatus b st) e h.first_fork)
          (subst (λ b. All (λ x. ForkStatus b x.1) r) e h.forks))

-- A branch of the repository itself is never in another status than `NotFromFork`, whatever
-- happens to its labels: its total time in the other statuses is 0.
pub total_time-no_fork :
    (now : ℕ) (pr : PrData) (m : Metadata) (s : PrStatus)
    → process_data pr ≡ some m
    → m.from_fork ≡ false
    → s ≢ PrStatus.not_from_fork
    → total_time_in_status_inner now m s ≡ some (pos 0)
unfolding total_time_in_status_inner
total_time-no_fork now pr m s read no_fork ne =
    let (st, r, h) =
      determine_status_changes_total m.created_at (initial_state m) m.events
        (process_data-Processed pr m read).plain in
    no_fork_total m.created_at now (initial_state m) m.events st r h no_fork s ne

last-SameTimes :
    (t : ℕ) (st : PrStatus) (r : List (ℕ × PrStatus)) (events : List Event)
    → SameTimes r events
    → (last_of (t, st) r).0 ≡ last_of t (map (λ e. e.time) events)
last-SameTimes t st [] [] h = refl
last-SameTimes t st [] (e ∷ es) h = absurd h
last-SameTimes t st (x ∷ r) [] h = absurd h
last-SameTimes t st ((t', st') ∷ r) (e ∷ es) h =
    last-SameTimes t' st' r es h.1 ∙ ap (λ z. last_of z (map (λ x. x.time) es)) h.0

-- Where the data is read, the last status change is computed without an exception, and is at the
-- time of the last event that changes the state, or at the creation.
pub last_status_update-time :
    (pr : PrData) (m : Metadata)
    → process_data pr ≡ some m
    → (st : PrStatus) × (last_status_update_inner m
        ≡ some (last_of pr.created_at (map (λ e. e.time) m.events), st))
unfolding last_status_update_inner last_entry
last_status_update-time pr m read =
    let (st, r, h) =
      determine_status_changes_total m.created_at (initial_state m) m.events
        (process_data-Processed pr m read).plain in
    (
      (last_of (m.created_at, st) r).1,
      rw (h.computed, length-SameTimes r m.events h.times)
          (ground (
            arith,
            last-SameTimes m.created_at st r m.events h.times,
            (process_data-Processed pr m read).created,
          )),
    )
