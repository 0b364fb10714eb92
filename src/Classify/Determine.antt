-- ===== src/Classify/Determine.antt =====
-- What `determine_PR_status` returns: always a status, decided by the kinds of label alone.
use mathlib.Core.List.{Perm}
use queueboard_core.Prelude.{
  ℕ, ◌≡◌, sym, ◌∙◌, ap, inl, inr, Bool, true, false, not, ◌&&◌, ◌||◌, Option, some, List, [], ◌∷◌,
  ltb, ◌==◌, if◌then◌else◌, contains, keep, any, Bool-cases, arith, contains-append, contains-keep,
  contains-perm,
}
use queueboard_core.Prelude.Text.{Text}
use mathlib.Core.Path.{fun_ext}
use queueboard_core.Classify.Kinds.{
  LabelKind, PrStatus, PrState, label_kind_eq, LabelKind-discrete, ci_status_eq,
}
use queueboard_core.Classify.Status.{
  retired_review_label, is_not_ready, relevant_labels, determine_pr_status,
}
use queueboard_core.Classify.Priority.{
  priority_status, has_excluded_pair, strongest, status_of_labels-priority_status,
}

-- The kinds that count: those of the labels but `Other`, and `WIP` if the PR is not ready.
pub counts : PrState → Option Text → LabelKind → Bool
counts s mode k =
    (not (k == LabelKind.other) && contains k s.labels)
    || (is_not_ready s mode && k == LabelKind.wip)

contains-relevant_labels :
    (s : PrState) (mode : Option Text) (k : LabelKind)
    → contains k (relevant_labels s mode) ≡ counts s mode k
unfolding relevant_labels counts contains
contains-relevant_labels s mode k =
    let kept = keep (λ l. not (l == LabelKind.other)) s.labels in
    ground (
      arith,
      contains-keep (λ l. not (l == LabelKind.other)) k s.labels,
      contains-append k kept (LabelKind.wip ∷ []),
    )

other_uncounted : (s : PrState) (mode : Option Text) → counts s mode LabelKind.other ≡ false
unfolding counts LabelKind-discrete
other_uncounted s mode = ground arith

counts_same :
    (s : PrState) (labels : List LabelKind) (mode : Option Text)
    → ((k : LabelKind) → contains k labels ≡ contains k s.labels)
    → (k : LabelKind) → counts (record s { labels = labels }) mode k ≡ counts s mode k
unfolding counts is_not_ready
counts_same s labels mode same k = rw (same k, same LabelKind.awaiting_ci)

counts_more :
    (s : PrState) (k : LabelKind) (mode : Option Text) (l : LabelKind)
    → counts s mode l ≡ true
    → counts (record s { labels = k ∷ s.labels }) mode l ≡ true
unfolding counts is_not_ready contains
counts_more s k mode l h = ground arith

has_excluded_pair_mono :
    (has more : LabelKind → Bool)
    → ((k : LabelKind) → has k ≡ true → more k ≡ true)
    → has_excluded_pair has ≡ true
    → has_excluded_pair more ≡ true
unfolding has_excluded_pair any
has_excluded_pair_mono has more f h = ground (
  arith,
  f LabelKind.decision,
  f LabelKind.bors,
  f LabelKind.wip,
  f LabelKind.review,
  f LabelKind.author,
  f LabelKind.blocked,
  f LabelKind.help_wanted,
)

contradictory_of :
    (retired : Bool) (has more : LabelKind → Bool)
    → ((k : LabelKind) → has k ≡ true → more k ≡ true)
    → priority_status retired has ≡ PrStatus.contradictory
    → priority_status retired more ≡ PrStatus.contradictory
unfolding priority_status strongest
contradictory_of retired has more f h = ground (arith, has_excluded_pair_mono has more f)

-- For every state the classification returns a status, and never raises: `NotFromFork` for a
-- branch of the repository itself, else the first kind that counts in the order of priority, or
-- `Contradictory` if two kinds that count exclude one another.
pub determine_pr_status-priority_status :
    (date : ℕ) (s : PrState) (mode : Option Text)
    → determine_pr_status date s mode
      ≡ some (
          if s.from_fork
          then priority_status (ltb retired_review_label date) (counts s mode)
          else PrStatus.not_from_fork)
unfolding determine_pr_status counts
determine_pr_status-priority_status date s mode = elim (Bool-cases s.from_fork) [
  | inl p ↦ rw p (
      status_of_labels-priority_status date (relevant_labels s mode)
        (contains-relevant_labels s mode LabelKind.other ∙ other_uncounted s mode)
      ∙ ap (λ has. some (priority_status (ltb retired_review_label date) has))
          (fun_ext (contains-relevant_labels s mode)))
  | inr p ↦ rw p
]

-- The order of the labels, and how often each stands there, do not matter to the status.
pub determine_pr_status-same_kinds :
    (date : ℕ) (s : PrState) (labels : List LabelKind) (mode : Option Text)
    → ((k : LabelKind) → contains k labels ≡ contains k s.labels)
    → determine_pr_status date (record s { labels = labels }) mode ≡ determine_pr_status date s mode
determine_pr_status-same_kinds date s labels mode same =
    let t = record s { labels = labels } in
    determine_pr_status-priority_status date t mode
    ∙ ap
        (λ has. some (
          if s.from_fork
          then priority_status (ltb retired_review_label date) has
          else PrStatus.not_from_fork))
        (fun_ext (λ k. counts_same s labels mode same k))
    ∙ sym (determine_pr_status-priority_status date s mode)

pub determine_pr_status-perm :
    (date : ℕ) (s : PrState) (labels : List LabelKind) (mode : Option Text)
    → Perm labels s.labels
    → determine_pr_status date (record s { labels = labels }) mode ≡ determine_pr_status date s mode
determine_pr_status-perm date s labels mode p =
    determine_pr_status-same_kinds date s labels mode (λ k. contains-perm k labels s.labels p)

-- A contradiction stays one under further labels.
pub determine_pr_status-contradictory :
    (date : ℕ) (s : PrState) (k : LabelKind) (mode : Option Text)
    → determine_pr_status date s mode ≡ some PrStatus.contradictory
    → determine_pr_status date (record s { labels = k ∷ s.labels }) mode
      ≡ some PrStatus.contradictory
determine_pr_status-contradictory date s k mode h =
    let t = record s { labels = k ∷ s.labels } in
    determine_pr_status-priority_status date t mode
    ∙ ground (
      arith,
      determine_pr_status-priority_status date s mode,
      contradictory_of (ltb retired_review_label date) (counts s mode) (counts t mode)
          (counts_more s k mode),
    )
