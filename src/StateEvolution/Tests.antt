-- ===== src/StateEvolution/Tests.antt =====
-- The state evolution on some timelines.
use mathlib.Core.Bool.{xor}
use queueboard_core.Prelude.{
  ◌⊎◌, ℕ, ◌≡◌, ◌≢◌, refl, true, false, none, some, List, [], ◌∷◌, contains, erase, last_of, arith,
  keep,
}
use queueboard_core.Prelude.Text
use queueboard_core.Prelude.Text.{Text, codes}
use queueboard_core.Prelude.Int.{ℤ, pos, sub_ℕ, ◌≤ℤ◌}
use queueboard_core.Classify.Kinds
use queueboard_core.Classify.Kinds.{
  CiStatus, LabelKind, PrStatus, PrState, label_categorisation_rules,
}
use queueboard_core.Classify.Status
use queueboard_core.StateEvolution.Events
use queueboard_core.StateEvolution.Totals
use queueboard_core.StateEvolution.Events.{
  PrChange, Event, PrData, TimelineItem, Metadata, metadata_of, update_state, process_data,
  determine_state_changes, parse_events, toggled,
}
use queueboard_core.StateEvolution.Totals.{
  total_time_in_status_inner, total_queue_time_inner, first_on_queue_inner,
  last_status_update_inner, initial_state,
}
use queueboard_core.StateEvolution.Replay.{
  update_state_raises, determine_status_changes_total, Evolves,
}
use queueboard_core.StateEvolution.Partition.{total_time-partition, sum_over, all_statuses}
use queueboard_core.StateEvolution.Answers.{total_time_bounds}
use queueboard_core.StateEvolution.Drafts.{created_as_draft-replays, Alternates}

abbrev recorded : PrState
recorded = record {
  labels = LabelKind.blocked ∷ [];
  ci = CiStatus.pass;
  draft = false;
  from_fork = true;
}

update_state_raises_example :
    update_state recorded (
      PrChange.label_added_removed []
        (codes "blocked-by-other-PR" ∷ codes "blocked-by-core-PR" ∷ []))
    ≡ none
unfolding label_categorisation_rules Kinds.get Text.text_beq contains erase Kinds.LabelKind-discrete
update_state_raises_example =
    update_state_raises recorded (codes "blocked-by-other-PR") (codes "blocked-by-core-PR")
      LabelKind.blocked refl refl refl refl

abbrev review_changes : List Event
review_changes =
    record { time = 5; change = PrChange.marked_ready }
    ∷ record { time = 7; change = PrChange.label_added (codes "awaiting-author") }
    ∷ []

determine_status_changes_total_example :
    (st : PrStatus) × (r : List (ℕ × PrStatus)) × Evolves 2 recorded review_changes st r
determine_status_changes_total_example =
    determine_status_changes_total 2 recorded review_changes (tt, (tt, tt))

abbrev forked : PrData
forked = record {
  created_at = 10;
  items =
      TimelineItem.ready_for_review 20
      ∷ TimelineItem.labeled 25 (codes "awaiting-author")
      ∷ TimelineItem.convert_to_draft 30
      ∷ [];
  is_draft = true;
  head_owner = some (codes "someone");
}

abbrev own_branch : PrData
own_branch = record {
  created_at = 10;
  items = TimelineItem.labeled 25 (codes "WIP") ∷ [];
  is_draft = false;
  head_owner = some (codes "leanprover-community");
}

abbrev forked_metadata : Metadata
forked_metadata = metadata_of forked (codes "someone")

forked_read : process_data forked ≡ some forked_metadata
unfolding process_data
forked_read = refl

abbrev own_metadata : Metadata
own_metadata = metadata_of own_branch (codes "leanprover-community")

own_branch_read : process_data own_branch ≡ some own_metadata
unfolding process_data
own_branch_read = refl

total_time-partition_example :
    ((forked.head_owner ≡ none) × (process_data forked ≡ none))
    ⊎ ((m : Metadata) × (process_data forked ≡ some m)
        × (d : PrStatus → ℤ) × ((s : PrStatus) → total_time_in_status_inner 50 m s ≡ some (d s))
        × (sum_over d all_statuses ≡ sub_ℕ 50 10))
total_time-partition_example = total_time-partition 50 forked

deleted_fork_raises : process_data (record forked { head_owner = none }) ≡ none
unfolding process_data
deleted_fork_raises = refl

total_time_bounds_example :
    (d : ℤ) × (total_time_in_status_inner 50 forked_metadata PrStatus.not_ready ≡ some d)
    × (pos 0 ≤ℤ d)
    × (d ≤ℤ sub_ℕ 50 10)
unfolding metadata_of parse_events
total_time_bounds_example =
    total_time_bounds 50 forked forked_metadata PrStatus.not_ready forked_read
      (ground arith, (ground arith, (ground arith, ground arith)))

never_on_queue : first_on_queue_inner own_metadata ≡ some none
unfolding first_on_queue_inner Totals.first_in_status_inner Totals.determine_status_changes
    determine_state_changes Events.state_changes_from update_state Events.add_kind
    Totals.statuses_of Totals.skip_immediate Totals.first_time initial_state metadata_of
    parse_events label_categorisation_rules Kinds.get Text.text_beq contains keep
    Kinds.LabelKind-discrete Kinds.PrStatus-discrete Status.determine_pr_status
    Kinds.canonicalise_label
never_on_queue = refl

own_branch_no_fork : own_metadata.from_fork ≡ false
unfolding metadata_of Text.text_beq
own_branch_no_fork = refl

own_branch_other : PrStatus.not_ready ≢ PrStatus.not_from_fork
own_branch_other e = cc

forked-Alternates : Alternates forked_metadata.created_as_draft forked_metadata.events
unfolding metadata_of parse_events keep xor
forked-Alternates = (refl, (tt, (refl, tt)))

created_as_draft-replays_example :
    (evolution : List (ℕ × PrState)) × (determine_state_changes 10
        (initial_state forked_metadata)
        forked_metadata.events
      ≡ some ((10, initial_state forked_metadata) ∷ evolution))
    × ((last_of (10, initial_state forked_metadata) evolution).1.draft ≡ true)
unfolding metadata_of
created_as_draft-replays_example =
    created_as_draft-replays forked forked_metadata forked_read forked-Alternates
