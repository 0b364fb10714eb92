-- ===== src/Classify/Tests.antt =====
-- The classification on some states.
use queueboard_core.Prelude.{
  ◌≡◌, ◌≢◌, refl, true, false, none, some, List, [], ◌∷◌, contains, keep, all,
}
use queueboard_core.Prelude.Text
use queueboard_core.Prelude.Text.{Text, codes}
use queueboard_core.Prelude.Sorting
use queueboard_core.Classify.Kinds
use queueboard_core.Classify.Kinds.{
  CiStatus, LabelKind, PrStatus, PrState, try_from_str, to_str, try_from_str-to_str, label_kind_eq,
}
use queueboard_core.Classify.Status
use queueboard_core.Classify.Status.{
  determine_pr_status, determine_pr_status_ignoring_fork, no_required_failures,
  is_no_required_failures, retired_review_label,
}
use queueboard_core.Classify.Priority.{priority_status}
use queueboard_core.Classify.Determine.{counts, determine_pr_status-priority_status}
use queueboard_core.Classify.Gating.{determine_pr_status-gating}

abbrev with_labels : List LabelKind → CiStatus → PrState
with_labels labels ci = record { labels = labels; ci = ci; draft = false; from_fork = true }

abbrev conflicted : PrState
conflicted = with_labels (LabelKind.merge_conflict ∷ LabelKind.author ∷ []) CiStatus.running

abbrev disputed : PrState
disputed = with_labels (LabelKind.review ∷ LabelKind.author ∷ []) CiStatus.pass

abbrev unlabelled : PrState
unlabelled = with_labels [] CiStatus.running

determine_pr_status_test :
    determine_pr_status 0 conflicted (some no_required_failures) ≡ some PrStatus.merge_conflict
unfolding determine_pr_status Status.status_of_labels Status.is_contradictory Status.first_status
    Status.sorted_labels Sorting.sorted Status.relevant_labels Status.is_not_ready
    Status.ci_status_blocks_readiness contains keep all Status.priority Status.label_to_prstatus
    Text.text_beq Kinds.LabelKind-discrete Kinds.CiStatus-discrete
determine_pr_status_test = refl

determine_pr_status-priority_status_example :
    determine_pr_status retired_review_label conflicted none
    ≡ some (priority_status false (counts conflicted none))
determine_pr_status-priority_status_example =
    determine_pr_status-priority_status retired_review_label conflicted none

same_kinds :
    (k : LabelKind)
    → contains k (LabelKind.author ∷ LabelKind.merge_conflict ∷ LabelKind.author ∷ [])
      ≡ contains k conflicted.labels
unfolding contains Kinds.LabelKind-discrete
same_kinds LabelKind.author = refl
same_kinds LabelKind.merge_conflict = refl
same_kinds _ = refl

disputed_status : determine_pr_status 0 disputed none ≡ some PrStatus.contradictory
unfolding determine_pr_status Status.status_of_labels Status.is_contradictory Status.relevant_labels
    Status.is_not_ready Status.ci_status_blocks_readiness contains keep Text.text_beq
    Kinds.LabelKind-discrete Kinds.CiStatus-discrete
disputed_status = refl

determine_pr_status-gating_example :
    (CiStatus.running ≢ CiStatus.fail
      → determine_pr_status 0 unlabelled (some no_required_failures)
        ≡ determine_pr_status 0
            (record unlabelled { ci = CiStatus.pass })
            (some no_required_failures))
    × (is_no_required_failures none ≡ false
        → CiStatus.running ≢ CiStatus.pass
        → determine_pr_status 0 unlabelled none
          ≡ determine_pr_status 0 (record unlabelled { draft = true }) none)
determine_pr_status-gating_example = determine_pr_status-gating 0 unlabelled none
