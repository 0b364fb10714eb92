-- ===== src/QueueWindows/Timeline.antt =====
-- Timeline events, and the state of a PR that they lead to.
use queueboard_core.Prelude.{
  ℕ, Bool, true, false, ◌&&◌, ◌||◌, Option, none, some, List, [], ◌∷◌, ltb, leb, ◌==◌, nat_eq,
  if◌then◌else◌, insert, discard, keep, is_empty,
}
use queueboard_core.Prelude.Text.{Text, text_eq, normalize, or_empty}
use queueboard_core.Prelude.Sorting.{sorted}
use queueboard_core.QueueRules.Rules.{QueueRules, is_on_queue}

pub data EventType : Type 0 where
  labeled unlabeled ready_for_review convert_to_draft reopened closed other_type : EventType

pub record TimelineEvent : Type 0 where
  pub id : ℕ
  pub type : EventType
  pub label_name : Option Text
  pub occurred_at : ℕ

-- What is read of a PR, with the rows of its timeline.
pub record PullRequest : Type 0 where
  pub number : ℕ
  pub gh_created_at : ℕ
  pub is_draft : Bool
  pub closed_at : Option ℕ
  pub merged_at : Option ℕ
  pub head_sha : Text
  pub timeline : List TimelineEvent

pub record State : Type 0 where
  pub labels : List Text
  pub is_draft : Bool
  pub is_open : Bool

unfoldable pub initial_state : Bool → State
initial_state created_as_draft = record { labels = []; is_draft = created_as_draft; is_open = true }

-- The first draft event decides.
created_by : Bool → List TimelineEvent → Bool
created_by is_draft [] = is_draft
created_by is_draft (ev ∷ events) =
    let rest = created_by is_draft events in
    elim ev.type [
      | EventType.ready_for_review ↦ true
      | EventType.convert_to_draft ↦ false
      | _ ↦ rest
    ]

unfoldable pub created_as_draft : PullRequest → List TimelineEvent → Bool
unfolding created_by
created_as_draft pr events = created_by pr.is_draft events

abbrev pub is_state_type : EventType → Bool
is_state_type EventType.other_type = false
is_state_type _ = true

-- `order_by("occurred_at", "id")`
abbrev pub earlier : TimelineEvent → TimelineEvent → Bool
earlier a b = ltb a.occurred_at b.occurred_at || (a.occurred_at == b.occurred_at && leb a.id b.id)

unfoldable pub iter_state_events : PullRequest → List TimelineEvent
iter_state_events pr = sorted earlier (keep (λ ev. is_state_type ev.type) pr.timeline)

abbrev pub label_of : TimelineEvent → Text
label_of ev = normalize (or_empty ev.label_name)

-- A label event without a name is passed over.
abbrev pub is_blank : TimelineEvent → Bool
is_blank ev = elim ev.type [
  | EventType.labeled ↦ is_empty (label_of ev)
  | EventType.unlabeled ↦ is_empty (label_of ev)
  | _ ↦ false
]

set_state : EventType → Text → State → State
set_state EventType.labeled name s = record s { labels = insert name s.labels }
set_state EventType.unlabeled name s = record s { labels = discard name s.labels }
set_state EventType.ready_for_review name s = record s { is_draft = false }
set_state EventType.convert_to_draft name s = record s { is_draft = true }
set_state EventType.reopened name s = record s { is_open = true }
set_state EventType.closed name s = record s { is_open = false }
set_state EventType.other_type name s = s

unfoldable pub apply_event : TimelineEvent → State → State
unfolding set_state
apply_event ev s = if is_blank ev then s else set_state ev.type (label_of ev) s

-- The loop of `_state_at_time`: it passes over events before `t0`, and ends at one after `at`.
unfoldable pub state_until : ℕ → ℕ → State → List TimelineEvent → State
state_until t0 at s [] = s
state_until t0 at s (ev ∷ events) = elim (ltb ev.occurred_at t0) [
  | true ↦ state_until t0 at s events
  | false ↦ elim (ltb at ev.occurred_at) [
    | true ↦ s
    | false ↦ state_until t0 at (apply_event ev s) events
  ]
]

-- `pr.closed_at or pr.merged_at`
abbrev pub closed_ts : PullRequest → Option ℕ
closed_ts pr = elim pr.closed_at [ none ↦ pr.merged_at | some t ↦ some t ]

abbrev pub closed_by_time : Option ℕ → ℕ → Bool
closed_by_time none at = false
closed_by_time (some c) at = leb c at

unfoldable pub state_at_time : PullRequest → ℕ → State
unfolding state_until initial_state created_as_draft
state_at_time pr at =
    let events = iter_state_events pr in
    let s = state_until pr.gh_created_at at (initial_state (created_as_draft pr events)) events in
    if closed_by_time (closed_ts pr) at then record s { is_open = false } else s

-- `rules.is_on_queue` of a state.
unfoldable pub on_queue : QueueRules → Option Bool → State → Bool
on_queue rules ci_ok s = is_on_queue rules s.is_open s.is_draft s.labels ci_ok
