-- ===== src/StateEvolution/Events.antt =====
-- Events, the state that they lead to, and the metadata that a PR's timeline gives.
use queueboard_core.Prelude.{
  ℕ, ◌%◌, Bool, true, false, not, ◌&&◌, xor, Option, none, some, List, [], ◌∷◌, ◌++◌, ◌==◌,
  if◌then◌else◌, contains, erase, keep, is_some, ◌>>=◌, length, nat_eq,
}
use queueboard_core.Prelude.Text.{Text, text_eq, codes}
use queueboard_core.Classify.Kinds.{
  CiStatus, LabelKind, PrState, label_kind_eq, label_categorisation_rules, canonicalise_label,
}
use queueboard_core.Classify.Status.{kinds_of}

pub data PrChange : Type 0 where
  label_added : Text → PrChange
  label_removed : Text → PrChange
  label_added_removed : List Text → List Text → PrChange
  ci_status_changed : CiStatus → PrChange
  marked_draft : PrChange
  marked_ready : PrChange

pub record Event : Type 0 where
  pub time : ℕ
  pub change : PrChange

-- `labels.remove(kind)`, which raises `ValueError` where there is none.
unfoldable pub remove : LabelKind → List LabelKind → Option (List LabelKind)
remove kind labels = if contains kind labels then some (erase kind labels) else none

-- The loop over `removed` of `LabelAddedRemoved`: it looks in `current`, and removes from `new`.
unfoldable pub remove_all :
    List LabelKind → List LabelKind → List LabelKind → Option (List LabelKind)
unfolding remove
remove_all current new [] = some new
remove_all current new (kind ∷ kinds) =
    let rest = (do new' ← remove kind new; remove_all current new' kinds) in
    let skipped = remove_all current new kinds in
    if not (contains kind current) then skipped else rest

-- The names of `names` that are relevant and stand in only one of the two lists.
abbrev pub only_in : List Text → List Text → List Text
only_in names others =
    keep (λ name. is_some (label_categorisation_rules name) && not (contains name others)) names

-- The update of the labels, by the kind of a known label.
unfoldable pub add_kind : Option LabelKind → PrState → Option PrState
add_kind none current = some current
add_kind (some kind) current = some (record current { labels = current.labels ++ kind ∷ [] })

unfoldable pub remove_kind : Option LabelKind → PrState → Option PrState
unfolding remove
remove_kind none current = some current
remove_kind (some kind) current =
    if not (contains kind current.labels)
    then some current
    else do labels ← remove kind current.labels; some (record current { labels = labels })

unfoldable pub update_state : PrState → PrChange → Option PrState
unfolding add_kind remove_kind remove_all
update_state current PrChange.marked_draft = some (record current { draft = true })
update_state current PrChange.marked_ready = some (record current { draft = false })
update_state current (PrChange.ci_status_changed ci) = some (record current { ci = ci })
update_state current (PrChange.label_added name) =
    add_kind (label_categorisation_rules name) current
update_state current (PrChange.label_removed name) =
    remove_kind (label_categorisation_rules name) current
update_state current (PrChange.label_added_removed added removed) = do
  labels ← remove_all current.labels current.labels (kinds_of (only_in removed added))
  some (record current { labels = labels ++ kinds_of (only_in added removed) })

-- The loop of `determine_state_changes`.
unfoldable pub state_changes_from : PrState → List Event → Option (List (ℕ × PrState))
state_changes_from current [] = some []
state_changes_from current (event ∷ events) = do
  new ← update_state current event.change
  rest ← state_changes_from new events
  some ((event.time, new) ∷ rest)

unfoldable pub determine_state_changes : ℕ → PrState → List Event → Option (List (ℕ × PrState))
unfolding state_changes_from
determine_state_changes creation_time initial_state events = do
  rest ← state_changes_from initial_state events
  some ((creation_time, initial_state) ∷ rest)

pub record Metadata : Type 0 where
  pub created_at : ℕ
  pub events : List Event
  pub created_as_draft : Bool
  pub from_fork : Bool

-- A node of the timeline: its `__typename` with the fields that are read.
pub data TimelineItem : Type 0 where
  labeled : ℕ → Text → TimelineItem
  unlabeled : ℕ → Text → TimelineItem
  ready_for_review : ℕ → TimelineItem
  convert_to_draft : ℕ → TimelineItem
  other_kind : Text → TimelineItem

unfoldable pub parse_events : List TimelineItem → List Event
parse_events [] = []
parse_events (TimelineItem.labeled t name ∷ items) =
    record { time = t; change = PrChange.label_added (canonicalise_label name) }
    ∷ parse_events items
parse_events (TimelineItem.unlabeled t name ∷ items) =
    record { time = t; change = PrChange.label_removed (canonicalise_label name) }
    ∷ parse_events items
parse_events (TimelineItem.ready_for_review t ∷ items) =
    record { time = t; change = PrChange.marked_ready } ∷ parse_events items
parse_events (TimelineItem.convert_to_draft t ∷ items) =
    record { time = t; change = PrChange.marked_draft } ∷ parse_events items
parse_events (TimelineItem.other_kind name ∷ items) = parse_events items

abbrev pub is_draft_change : PrChange → Bool
is_draft_change PrChange.marked_draft = true
is_draft_change PrChange.marked_ready = true
is_draft_change _ = false

-- What is read of a PR's data: `head_owner` is the login of `headRepositoryOwner`, which is null
-- once the fork is deleted.
pub record PrData : Type 0 where
  pub created_at : ℕ
  pub items : List TimelineItem
  pub is_draft : Bool
  pub head_owner : Option Text

-- Whether the draft events are odd in number.
abbrev pub toggled : List Event → Bool
toggled events = length (keep (λ e. is_draft_change e.change) events) % 2 == 1

-- The metadata, with the owner of the head's repository.
unfoldable pub metadata_of : PrData → Text → Metadata
unfolding parse_events
metadata_of pr owner =
    let events = parse_events pr.items in
    record {
      created_at = pr.created_at;
      events = events;
      created_as_draft = xor (toggled events) pr.is_draft;
      from_fork = not (owner == codes "leanprover-community");
    }

-- `none` is the `TypeError` of `None["login"]`.
unfoldable pub process_data : PrData → Option Metadata
unfolding metadata_of
process_data pr = do owner ← pr.head_owner; some (metadata_of pr owner)
