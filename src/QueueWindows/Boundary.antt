-- ===== src/QueueWindows/Boundary.antt =====
-- What the attribution of a boundary on the path with CI can say.
use queueboard_core.Prelude.{
  ◌≡◌, inl, inr, Bool, true, false, not, ◌&&◌, ◌||◌, Option, Option-cases, arith,
}
use queueboard_core.QueueRules.Rules.{QueueRules}
use queueboard_core.QueueWindows.Timeline.{TimelineEvent}
use queueboard_core.QueueWindows.Attribution.{
  ci_type, WindowEventType, Boundary, determine_ci_boundary_attribution, ci_changed, same_rev,
  timeline_event_type, is_unknown, is_label_type, is_state_change, holds_of,
}

abbrev pub is_ci : WindowEventType → Bool
is_ci WindowEventType.ci_passed = true
is_ci WindowEventType.ci_failed = true
is_ci _ = false

abbrev is_ci_type : Bool → WindowEventType
is_ci_type true = WindowEventType.ci_passed
is_ci_type false = WindowEventType.ci_failed

-- An event that the rules have a word for.
abbrev pub has_type : QueueRules → Option TimelineEvent → Bool
has_type rules ev = holds_of (λ e. not (is_unknown (timeline_event_type e rules))) ev

state_change-known :
    (ev : TimelineEvent) (rules : QueueRules)
    → is_state_change ev.type ≡ true
    → is_unknown (timeline_event_type ev rules) ≡ false
unfolding timeline_event_type
state_change-known ev rules e = ground arith

-- An event with a type the rules know is a draft, close or reopen event or a label event.
label-known :
    (ev : TimelineEvent) (rules : QueueRules)
    → is_unknown (timeline_event_type ev rules) ≡ false
    → (is_state_change ev.type || is_label_type ev.type) ≡ true
unfolding timeline_event_type
label-known ev rules e = ground arith

timeline-not_ci :
    (ev : TimelineEvent) (rules : QueueRules) → is_ci (timeline_event_type ev rules) ≡ false
unfolding timeline_event_type
timeline-not_ci ev rules = ground arith

-- A boundary is unknown exactly when there is no timeline event that the rules have a word for,
-- the head is the same revision, and whether CI is good enough has not changed.
pub determine_ci_boundary_attribution-unknown :
    (rules : QueueRules) (b : Boundary)
    → is_unknown (determine_ci_boundary_attribution rules b).event_type
      ≡ (not (has_type rules b.last_tl_ev) && same_rev b.cur_rev b.pre_rev && not (ci_changed b))
unfolding determine_ci_boundary_attribution
determine_ci_boundary_attribution-unknown rules b = elim (Option-cases b.last_tl_ev) [
  | inl e ↦ rw e (ground arith)
  | inr e ↦
      let (ev, p) = e in rw p (ground (arith, state_change-known ev rules, label-known ev rules))
]

-- Where a boundary is put down to CI, no draft, close or reopen event stands at it, whether CI is good enough has changed
-- there, and it is `ci_passed` or `ci_failed` as CI is good enough after it or not.
pub determine_ci_boundary_attribution-ci :
    (rules : QueueRules) (b : Boundary)
    → is_ci (determine_ci_boundary_attribution rules b).event_type ≡ true
    → (holds_of (λ ev. is_state_change ev.type) b.last_tl_ev ≡ false)
      × (ci_changed b ≡ true)
      × ((determine_ci_boundary_attribution rules b).event_type ≡ ci_type b)
unfolding determine_ci_boundary_attribution
determine_ci_boundary_attribution-ci rules b e = elim (Option-cases b.last_tl_ev) [
  | inl q ↦ rw q (ground arith)
  | inr q ↦ let (ev, p) = q in rw p (ground (arith, timeline-not_ci ev rules))
]
