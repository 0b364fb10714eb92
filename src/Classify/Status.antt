-- ===== src/Classify/Status.antt =====
-- `determine_PR_status` and what it calls.
use queueboard_core.Prelude.{
  ℕ, Bool, true, false, not, ◌&&◌, ◌||◌, Option, none, some, List, [], ◌∷◌, ◌++◌, ltb, leb, ◌==◌,
  if◌then◌else◌, contains, keep, all, is_some, get_or, head?, ◌>>=◌,
}
use queueboard_core.Prelude.Text.{Text, codes, text_eq}
use queueboard_core.Prelude.Sorting.{sorted}
use queueboard_core.Classify.Kinds
use queueboard_core.Classify.Kinds.{
  CiStatus, LabelKind, PrStatus, PrState, ci_status_eq, label_kind_eq, label_categorisation_rules,
}

abbrev pub no_required_failures : Text
no_required_failures = codes "no_required_failures"

abbrev strict_blocking : List CiStatus
strict_blocking =
    CiStatus.fail ∷ CiStatus.fail_inessential ∷ CiStatus.missing ∷ CiStatus.running ∷ []

abbrev pub is_no_required_failures : Option Text → Bool
is_no_required_failures none = false
is_no_required_failures (some mode) = mode == no_required_failures

unfoldable pub ci_status_blocks_readiness : CiStatus → Option Text → Bool
unfolding contains Kinds.CiStatus-discrete
ci_status_blocks_readiness ci mode =
    if is_no_required_failures mode then ci == CiStatus.fail else contains ci strict_blocking

-- A dict literal with no entry for `Other`.
unfoldable pub label_to_prstatus : LabelKind → Option PrStatus
label_to_prstatus LabelKind.wip = some PrStatus.not_ready
label_to_prstatus LabelKind.awaiting_ci = some PrStatus.not_ready
label_to_prstatus LabelKind.review = some PrStatus.awaiting_review
label_to_prstatus LabelKind.help_wanted = some PrStatus.help_wanted
label_to_prstatus LabelKind.author = some PrStatus.awaiting_author
label_to_prstatus LabelKind.blocked = some PrStatus.blocked
label_to_prstatus LabelKind.merge_conflict = some PrStatus.merge_conflict
label_to_prstatus LabelKind.decision = some PrStatus.awaiting_decision
label_to_prstatus LabelKind.delegated = some PrStatus.delegated
label_to_prstatus LabelKind.bors = some PrStatus.awaiting_bors
label_to_prstatus LabelKind.other = none

-- The dict `key`, with no entry for `Other`.
unfoldable pub priority : LabelKind → Option ℕ
priority LabelKind.blocked = some 11
priority LabelKind.help_wanted = some 10
priority LabelKind.wip = some 9
priority LabelKind.awaiting_ci = some 9
priority LabelKind.decision = some 8
priority LabelKind.merge_conflict = some 7
priority LabelKind.bors = some 6
priority LabelKind.author = some 5
priority LabelKind.review = some 5
priority LabelKind.delegated = some 4
priority LabelKind.other = none

abbrev pub rank : LabelKind → ℕ
rank k = get_or (priority k) 0

-- `sorted(labels, key=..., reverse=True)` keeps the order of equal keys.
abbrev pub before : LabelKind → LabelKind → Bool
before a b = leb (rank b) (rank a)

unfoldable pub sorted_labels : List LabelKind → Option (List LabelKind)
sorted_labels labels =
    if all (λ k. is_some (priority k)) labels then some (sorted before labels) else none

-- The six tests for label combinations that exclude one another, over a membership test.
unfoldable pub is_contradictory : (LabelKind → Bool) → Bool
is_contradictory has =
    (has LabelKind.decision && has LabelKind.bors)
    || (has LabelKind.wip && (has LabelKind.review || has LabelKind.bors))
    || (has LabelKind.author && has LabelKind.review)
    || (has LabelKind.bors && has LabelKind.blocked)
    || (has LabelKind.bors && has LabelKind.help_wanted)
    || (has LabelKind.bors && has LabelKind.author)

-- 9 July 2024, 00:00 UTC.
abbrev pub retired_review_label : ℕ
retired_review_label = 1720483200000000

unfoldable pub first_status : List LabelKind → Option PrStatus
first_status labels = do ks ← sorted_labels labels; k ← head? ks; label_to_prstatus k

unfoldable pub status_of_labels : ℕ → List LabelKind → Option PrStatus
unfolding first_status
status_of_labels date [] =
    some
      (if ltb retired_review_label date then PrStatus.awaiting_review else PrStatus.awaiting_author)
status_of_labels date (k ∷ []) = label_to_prstatus k
status_of_labels date (k ∷ k' ∷ ks) =
    if is_contradictory (λ l. contains l (k ∷ k' ∷ ks))
    then some PrStatus.contradictory
    else first_status (k ∷ k' ∷ ks)

unfoldable pub is_not_ready : PrState → Option Text → Bool
is_not_ready state mode =
    if state.draft || ci_status_blocks_readiness state.ci mode
    then true
    else contains LabelKind.awaiting_ci state.labels

-- The labels that are looked at: all but `Other`, and `WIP` for a PR that is not ready.
unfoldable pub relevant_labels : PrState → Option Text → List LabelKind
unfolding is_not_ready
relevant_labels state mode =
    let labels = keep (λ l. not (l == LabelKind.other)) state.labels in
    if is_not_ready state mode then labels ++ LabelKind.wip ∷ [] else labels

unfoldable pub determine_pr_status : ℕ → PrState → Option Text → Option PrStatus
unfolding relevant_labels
determine_pr_status date state mode =
    if not state.from_fork
    then some PrStatus.not_from_fork
    else status_of_labels date (relevant_labels state mode)

-- `[label_categorisation_rules[name] for name in names if name in label_categorisation_rules]`
unfoldable pub kinds_of : List Text → List LabelKind
kinds_of [] = []
kinds_of (name ∷ names) = elim (label_categorisation_rules name) [
  | none ↦ kinds_of names
  | some k ↦ k ∷ kinds_of names
]

unfoldable pub determine_pr_status_ignoring_fork :
    ℕ → List Text → CiStatus → Bool → Option Text → Option PrStatus
unfolding kinds_of determine_pr_status
determine_pr_status_ignoring_fork date names ci is_draft mode =
    determine_pr_status date
      (record { labels = kinds_of names; ci = ci; draft = is_draft; from_fork = true }) mode
