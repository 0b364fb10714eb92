-- ===== src/QueueWindows/Attribution.antt =====
-- What opened or closed a window.
use queueboard_core.Prelude.{
  ℕ, Bool, true, false, not, ◌&&◌, ◌||◌, Option, none, some, List, [], ◌∷◌, ◌==◌, nat_eq, xor,
  if◌then◌else◌, contains, is_some, nat_beq,
}
use queueboard_core.Prelude.Text.{Text, text_eq, codes}
use queueboard_core.QueueRules.Rules.{QueueRules}
use queueboard_core.Classify.Status.{is_no_required_failures}
use queueboard_core.QueueWindows.Timeline.{EventType, TimelineEvent, label_of}

pub data WindowEventType : Type 0 where
  required_label_added required_label_removed forbidden_label_added forbidden_label_removed :
      WindowEventType
  ci_passed ci_failed pr_opened draft_converted converted_to_draft pr_closed head_pushed :
      WindowEventType
  initial_state unknown : WindowEventType

pub data CiState : Type 0 where
  pass fail running missing : CiState

-- A row of `CommitCheckRun` and of `CommitStatusContext`, as far as it is read.
pub record CheckRun : Type 0 where
  pub name : Text
  pub head_sha : Text
  pub status : Text
  pub conclusion : Option Text
  pub gh_completed_at : Option ℕ
  pub gh_started_at : Option ℕ

pub record StatusContext : Type 0 where
  pub name : Text
  pub head_sha : Text
  pub state : Text
  pub gh_created_at : ℕ

pub record WindowAttribution : Type 0 where
  pub event_type : WindowEventType
  pub timeline_event : Option TimelineEvent
  pub check_run : Option CheckRun
  pub status_context : Option StatusContext
  pub head_sha : Option Text

-- `WindowAttribution(event_type=...)`
abbrev pub plain : WindowEventType → WindowAttribution
plain t = record {
  event_type = t;
  timeline_event = none;
  check_run = none;
  status_context = none;
  head_sha = none;
}

abbrev running_statuses : List Text
running_statuses = codes "QUEUED" ∷ codes "IN_PROGRESS" ∷ codes "PENDING" ∷ []

abbrev passing_conclusions : List Text
passing_conclusions = codes "SUCCESS" ∷ codes "NEUTRAL" ∷ codes "SKIPPED" ∷ []

abbrev pub is_one_of : Option Text → List Text → Bool
is_one_of none names = false
is_one_of (some s) names = contains s names

unfoldable pub check_run_state : CheckRun → CiState
check_run_state cr =
    if contains cr.status running_statuses
    then CiState.running
    else if not (cr.status == codes "COMPLETED")
    then CiState.running
    else if is_one_of cr.conclusion passing_conclusions
    then CiState.pass
    else CiState.fail

unfoldable pub status_context_state : StatusContext → CiState
status_context_state sc =
    if sc.state == codes "SUCCESS"
    then CiState.pass
    else if sc.state == codes "PENDING"
    then CiState.running
    else if contains sc.state (codes "FAILURE" ∷ codes "ERROR" ∷ [])
    then CiState.fail
    else CiState.running

abbrev pub is_fail : CiState → Bool
is_fail CiState.fail = true
is_fail _ = false

abbrev pub is_pass : CiState → Bool
is_pass CiState.pass = true
is_pass _ = false

unfoldable pub ci_state_is_eligible : QueueRules → CiState → Bool
ci_state_is_eligible rules ci_state =
    if not rules.require_ci_success
    then true
    else if is_no_required_failures rules.ci_gating_mode
    then not (is_fail ci_state)
    else is_pass ci_state

-- `names and name in names`
abbrev pub listed : Option (List Text) → Text → Bool
listed none name = false
listed (some names) name = contains name names

unfoldable pub timeline_event_type : TimelineEvent → QueueRules → WindowEventType
timeline_event_type ev rules =
    let name = label_of ev in
    let required = listed rules.required_labels name in
    let forbidden = listed rules.forbidden_labels name in
    elim ev.type [
      | EventType.labeled ↦
          if required
          then WindowEventType.required_label_added
          else if forbidden
          then WindowEventType.forbidden_label_added
          else WindowEventType.unknown
      | EventType.unlabeled ↦
          if required
          then WindowEventType.required_label_removed
          else if forbidden
          then WindowEventType.forbidden_label_removed
          else WindowEventType.unknown
      | EventType.ready_for_review ↦ WindowEventType.draft_converted
      | EventType.convert_to_draft ↦ WindowEventType.converted_to_draft
      | EventType.reopened ↦ WindowEventType.pr_opened
      | EventType.closed ↦ WindowEventType.pr_closed
      | EventType.other_type ↦ WindowEventType.unknown
    ]

abbrev pub is_state_change : EventType → Bool
is_state_change EventType.closed = true
is_state_change EventType.reopened = true
is_state_change EventType.ready_for_review = true
is_state_change EventType.convert_to_draft = true
is_state_change _ = false

abbrev pub is_label_type : EventType → Bool
is_label_type EventType.labeled = true
is_label_type EventType.unlabeled = true
is_label_type _ = false

unfoldable pub tl_event_significance : TimelineEvent → QueueRules → ℕ
tl_event_significance ev rules =
    let name = label_of ev in
    if is_state_change ev.type
    then 2
    else if is_label_type ev.type
        && (listed rules.required_labels name || listed rules.forbidden_labels name)
    then 1
    else 0

abbrev pub is_unknown : WindowEventType → Bool
is_unknown WindowEventType.unknown = true
is_unknown _ = false

-- Whether there is an event that `test` holds of.
abbrev pub holds_of {ℓ} : {A : Type ℓ} → (A → Bool) → Option A → Bool
holds_of test none = false
holds_of test (some a) = test a

-- The inputs of `_determine_ci_boundary_attribution`. A revision is known by its row.
pub record Boundary : Type 0 where
  pub pre_rev : Option ℕ
  pub cur_rev : Option ℕ
  pub pre_ci_ok : Option Bool
  pub new_ci_ok : Bool
  pub last_tl_ev : Option TimelineEvent
  pub last_cr : Option CheckRun
  pub last_sc : Option StatusContext
  pub head_sha : Option Text

abbrev pub same_rev : Option ℕ → Option ℕ → Bool
same_rev none none = true
same_rev (some a) (some b) = nat_beq a b
same_rev _ _ = false

abbrev pub ci_changed : Boundary → Bool
ci_changed b = elim b.pre_ci_ok [ none ↦ false | some ok ↦ xor b.new_ci_ok ok ]

-- The attribution to the event `ev`, if there is one, with the head SHA of the boundary.
abbrev pub from_timeline : QueueRules → Boundary → Option TimelineEvent → WindowAttribution
from_timeline rules b none = record (plain WindowEventType.unknown) { head_sha = b.head_sha }
from_timeline rules b (some ev) = record (plain (timeline_event_type ev rules)) {
  timeline_event = some ev;
  head_sha = b.head_sha;
}

abbrev pub ci_type : Boundary → WindowEventType
ci_type b = if b.new_ci_ok then WindowEventType.ci_passed else WindowEventType.ci_failed

abbrev pub from_ci : Boundary → Option CheckRun → WindowAttribution
from_ci b (some cr) = record (plain (ci_type b)) { check_run = some cr; head_sha = b.head_sha }
from_ci b none = record (plain (ci_type b)) { status_context = b.last_sc; head_sha = b.head_sha }

unfoldable pub determine_ci_boundary_attribution : QueueRules → Boundary → WindowAttribution
unfolding timeline_event_type
determine_ci_boundary_attribution rules b =
    if holds_of (λ ev. is_state_change ev.type) b.last_tl_ev
    then from_timeline rules b b.last_tl_ev
    else if ci_changed b && (is_some b.last_cr || is_some b.last_sc)
    then from_ci b b.last_cr
    else if holds_of
        (λ ev. is_label_type ev.type && not (is_unknown (timeline_event_type ev rules)))
        b.last_tl_ev
    then from_timeline rules b b.last_tl_ev
    else if not (same_rev b.cur_rev b.pre_rev)
    then record (plain WindowEventType.head_pushed) { head_sha = b.head_sha }
    else if ci_changed b
    then record (plain (ci_type b)) { head_sha = b.head_sha }
    else record (plain WindowEventType.unknown) { head_sha = b.head_sha }
