-- ===== src/StateEvolution/Totals.antt =====
-- The status over time, and the questions that are answered from it.
use queueboard_core.Prelude.{
  ℕ, ◌+◌, Option, none, some, List, [], ◌∷◌, ◌==◌, if◌then◌else◌, ◌>>=◌, length, nat_eq, last_of,
}
use queueboard_core.Prelude.Int.{ℤ, pos, sub_ℕ, ◌+ℤ◌}
use queueboard_core.Classify.Kinds.{CiStatus, PrStatus, PrState, pr_status_eq}
use queueboard_core.Classify.Status.{determine_pr_status}
use queueboard_core.StateEvolution.Events.{Event, Metadata, determine_state_changes}

-- The loop of `determine_status_changes`.
unfoldable pub statuses_of : List (ℕ × PrState) → Option (List (ℕ × PrStatus))
statuses_of [] = some []
statuses_of ((time, state) ∷ evolution) = do
  status ← determine_pr_status time state none
  rest ← statuses_of evolution
  some ((time, status) ∷ rest)

unfoldable pub determine_status_changes : ℕ → PrState → List Event → Option (List (ℕ × PrStatus))
unfolding statuses_of
determine_status_changes initial_time initial_state events = do
  evolution ← determine_state_changes initial_time initial_state events
  statuses_of evolution

-- The loop over neighbours, and the time since the last entry, added to `total`.
unfoldable pub add_times : ℕ → PrStatus → ℕ × PrStatus → List (ℕ × PrStatus) → ℤ → ℤ
add_times now status (last, last_status) [] total =
    if last_status == status then total +ℤ sub_ℕ now last else total
add_times now status (old_time, old_status) ((new_time, new_status) ∷ rest) total =
    add_times now status (new_time, new_status) rest
      (if old_status == status then total +ℤ sub_ℕ new_time old_time else total)

-- `evolution_status` holds an entry for each event and one more, or the assertion fails.
unfoldable pub total_of : ℕ → PrStatus → ℕ → List (ℕ × PrStatus) → Option ℤ
unfolding add_times
total_of now status events [] = none
total_of now status events (entry ∷ rest) =
    if length (entry ∷ rest) == events + 1
    then some (add_times now status entry rest (pos 0))
    else none

unfoldable pub total_time_in_status : ℕ → ℕ → PrState → List Event → PrStatus → Option ℤ
unfolding total_of
total_time_in_status creation_time now initial_state events status = do
  evolution ← determine_status_changes creation_time initial_state events
  total_of now status (length events) evolution

-- A PR is taken to be created in passing state and without labels.
unfoldable pub initial_state : Metadata → PrState
initial_state metadata = record {
  labels = [];
  ci = CiStatus.pass;
  draft = metadata.created_as_draft;
  from_fork = metadata.from_fork;
}

unfoldable pub total_time_in_status_inner : ℕ → Metadata → PrStatus → Option ℤ
unfolding initial_state
total_time_in_status_inner now metadata status =
    total_time_in_status metadata.created_at now (initial_state metadata) metadata.events status

unfoldable pub total_queue_time_inner : ℕ → Metadata → Option ℤ
unfolding total_time_in_status_inner
total_queue_time_inner now metadata =
    total_time_in_status_inner now metadata PrStatus.awaiting_review

-- An entry at the time of the next one is not counted, if it is the first.
unfoldable pub skip_immediate : List (ℕ × PrStatus) → List (ℕ × PrStatus)
skip_immediate ((t, s) ∷ (t', s') ∷ rest) =
    if t == t' then (t', s') ∷ rest else (t, s) ∷ (t', s') ∷ rest
skip_immediate entries = entries

unfoldable pub first_time : PrStatus → List (ℕ × PrStatus) → Option ℕ
first_time status [] = none
first_time status ((time, estatus) ∷ rest) =
    if estatus == status then some time else first_time status rest

-- The outer `none` is an exception, the inner one "never so far".
unfoldable pub first_in_status_inner : Metadata → PrStatus → Option (Option ℕ)
unfolding skip_immediate first_time initial_state
first_in_status_inner metadata status = do
  evolution ← determine_status_changes metadata.created_at (initial_state metadata) metadata.events
  some (first_time status (skip_immediate evolution))

unfoldable pub first_on_queue_inner : Metadata → Option (Option ℕ)
unfolding first_in_status_inner
first_on_queue_inner metadata = first_in_status_inner metadata PrStatus.awaiting_review

-- `evolution_status[-1]`, past the assertion.
unfoldable pub last_entry : ℕ → List (ℕ × PrStatus) → Option (ℕ × PrStatus)
last_entry events [] = none
last_entry events (entry ∷ rest) =
    if length (entry ∷ rest) == events + 1 then some (last_of entry rest) else none

unfoldable pub last_status_update_inner : Metadata → Option (ℕ × PrStatus)
unfolding last_entry initial_state
last_status_update_inner metadata = do
  evolution ← determine_status_changes metadata.created_at (initial_state metadata) metadata.events
  last_entry (length metadata.events) evolution
