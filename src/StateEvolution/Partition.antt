-- ===== src/StateEvolution/Partition.antt =====
-- The times in the statuses of a PR make up the whole time since its creation.
use queueboard_core.Prelude.{
  Option-cases, ◌⊎◌, inl, inr, none, ℕ, suc, ◌≡◌, refl, ◌∙◌, ap, Bool, true, false, some, List, [],
  ◌∷◌, ◌==◌, if◌then◌else◌, length, arith,
}
use queueboard_core.Prelude.Int.{ℤ, pos, sub_ℕ, ◌+ℤ◌, sub_ℕ_parts, int_laws}
use queueboard_core.Classify.Kinds.{PrStatus, PrState, pr_status_eq, PrStatus-discrete}
use queueboard_core.StateEvolution.Events.{Event, PrData, Metadata, metadata_of, process_data}
use queueboard_core.StateEvolution.Processed.{
  Processed, process_data-Processed, process_data-owner, process_data-no_owner,
}
use queueboard_core.StateEvolution.Totals.{
  add_times, total_of, total_time_in_status, total_time_in_status_inner, initial_state,
}
use queueboard_core.StateEvolution.Replay.{SameTimes, Evolves, determine_status_changes_total}

pub sum_over : (PrStatus → ℤ) → List PrStatus → ℤ
sum_over f [] = pos 0
sum_over f (s ∷ ss) = f s +ℤ sum_over f ss

abbrev pub all_statuses : List PrStatus
all_statuses =
    PrStatus.not_from_fork ∷ PrStatus.not_ready ∷ PrStatus.blocked ∷ PrStatus.awaiting_review
    ∷ PrStatus.help_wanted ∷ PrStatus.awaiting_author ∷ PrStatus.awaiting_decision
    ∷ PrStatus.merge_conflict ∷ PrStatus.delegated ∷ PrStatus.awaiting_bors ∷ PrStatus.closed
    ∷ PrStatus.contradictory ∷ []

-- The time of one stretch, for the status that it has.
abbrev pub stretch : PrStatus → ℤ → PrStatus → ℤ
stretch st d s = if st == s then d else pos 0

-- `add_times` without an accumulator.
unfoldable pub time_in : ℕ → ℕ × PrStatus → List (ℕ × PrStatus) → PrStatus → ℤ
time_in now (t, st) [] s = stretch st (sub_ℕ now t) s
time_in now (t, st) ((t', st') ∷ rest) s = stretch st (sub_ℕ t' t) s +ℤ time_in now (t', st') rest s

pub zero_add : (a : ℤ) → pos 0 +ℤ a ≡ a
zero_add a = omega int_laws

if_add : (b : Bool) (acc d : ℤ) → (if b then acc +ℤ d else acc) ≡ acc +ℤ (if b then d else pos 0)
if_add true acc d = refl
if_add false acc d = omega int_laws

add_times-time_in :
    (now : ℕ) (s : PrStatus) (x : ℕ × PrStatus) (rest : List (ℕ × PrStatus)) (acc : ℤ)
    → add_times now s x rest acc ≡ acc +ℤ time_in now x rest s
unfolding add_times time_in
add_times-time_in now s (t, st) [] acc = if_add (st == s) acc (sub_ℕ now t)
add_times-time_in now s (t, st) ((t', st') ∷ rest) acc =
    let d = sub_ℕ t' t in
    add_times-time_in now s (t', st') rest (if st == s then acc +ℤ d else acc)
    ∙ ap (λ z. z +ℤ time_in now (t', st') rest s) (if_add (st == s) acc d)
    ∙ omega int_laws

sum_over-add :
    (f g : PrStatus → ℤ) (ss : List PrStatus)
    → sum_over (λ s. f s +ℤ g s) ss ≡ sum_over f ss +ℤ sum_over g ss
unfolding sum_over
sum_over-add f g [] = omega int_laws
sum_over-add f g (s ∷ ss) = rw (sum_over-add f g ss) (omega int_laws)

sum_over-stretch : (st : PrStatus) (d : ℤ) → sum_over (stretch st d) all_statuses ≡ d
unfolding sum_over PrStatus-discrete
sum_over-stretch PrStatus.not_from_fork d = omega int_laws
sum_over-stretch _ d = omega int_laws

telescope : (a b c : ℕ) → sub_ℕ b a +ℤ sub_ℕ c b ≡ sub_ℕ c a
telescope a b c = omega (int_laws, sub_ℕ_parts b a, sub_ℕ_parts c b, sub_ℕ_parts c a)

sum_over-time_in :
    (now : ℕ) (x : ℕ × PrStatus) (rest : List (ℕ × PrStatus))
    → sum_over (time_in now x rest) all_statuses ≡ sub_ℕ now x.0
unfolding time_in
sum_over-time_in now (t, st) [] = sum_over-stretch st (sub_ℕ now t)
sum_over-time_in now (t, st) ((t', st') ∷ rest) =
    sum_over-add (stretch st (sub_ℕ t' t)) (time_in now (t', st') rest) all_statuses
    ∙ rw (sum_over-stretch st (sub_ℕ t' t), sum_over-time_in now (t', st') rest)
        (telescope t t' now)

pub length-SameTimes {ℓ} :
    {A : Type ℓ} (l : List (ℕ × A)) (events : List Event)
    → SameTimes l events
    → length l ≡ length events
length-SameTimes [] [] h = refl
length-SameTimes [] (e ∷ es) h = absurd h
length-SameTimes (x ∷ l) [] h = absurd h
length-SameTimes (x ∷ l) (e ∷ es) h = ap suc (length-SameTimes l es h.1)

-- The assertion of `total_time_in_status` holds, and the loop adds the stretches of the status.
pub total_time_in_status-time_in :
    (t now : ℕ) (s : PrState) (events : List Event) (st : PrStatus) (r : List (ℕ × PrStatus))
    → Evolves t s events st r
    → (status : PrStatus)
    → total_time_in_status t now s events status ≡ some (time_in now (t, st) r status)
unfolding total_time_in_status total_of
total_time_in_status-time_in t now s events st r h status =
    rw (h.computed, length-SameTimes r events h.times)
      (ground (
        arith,
        add_times-time_in now status (t, st) r (pos 0),
        zero_add (time_in now (t, st) r status),
      ))

-- The totals of a PR's metadata are computed and make up the time since its creation.
metadata_total_time :
    (now : ℕ) (pr : PrData) (m : Metadata)
    → Processed pr m
    → (d : PrStatus → ℤ) × ((s : PrStatus) → total_time_in_status_inner now m s ≡ some (d s))
      × (sum_over d all_statuses ≡ sub_ℕ now pr.created_at)
unfolding total_time_in_status_inner
metadata_total_time now pr m p =
    let (st, r, h) =
      determine_status_changes_total m.created_at (initial_state m) m.events p.plain in
    (
      time_in now (m.created_at, st) r,
      total_time_in_status-time_in m.created_at now (initial_state m) m.events st r h,
      sum_over-time_in now (m.created_at, st) r ∙ ap (λ t. sub_ℕ now t) p.created,
    )

-- For every PR: either the owner of its head's repository is null, and reading its data raises; or
-- its data is read, the total time in each status is computed without an exception, and the totals
-- of the twelve statuses add up to the time from the creation to now.
pub total_time-partition :
    (now : ℕ) (pr : PrData)
    → ((pr.head_owner ≡ none) × (process_data pr ≡ none))
      ⊎ ((m : Metadata) × (process_data pr ≡ some m)
          × (d : PrStatus → ℤ) × ((s : PrStatus) → total_time_in_status_inner now m s ≡ some (d s))
          × (sum_over d all_statuses ≡ sub_ℕ now pr.created_at))
total_time-partition now pr = elim (Option-cases pr.head_owner) [
  | inl e ↦ inl (e, process_data-no_owner pr e)
  | inr (owner, e) ↦
      let m = metadata_of pr owner in
      let read = process_data-owner pr owner e in
      let (d, totals, sum) = metadata_total_time now pr m (process_data-Processed pr m read) in
      inr (m, read, d, totals, sum)
]
