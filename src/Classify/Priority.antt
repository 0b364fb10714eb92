-- ===== src/Classify/Priority.antt =====
-- The status of a PR from outside: which kinds of label it has, and nothing else. It is the first
-- of a fixed order of kinds that is present, unless two kinds exclude one another.
use queueboard_core.Prelude.{
  contains-Memᴰ, ℕ, ◌≤◌, ◌≡◌, refl, ◌∙◌, ap, ◌⊎◌, inl, inr, Bool, true, false, ◌&&◌, ◌||◌, some,
  List, [], ◌∷◌, ltb, if◌then◌else◌, contains, any, all, is_some, Bool-cases, arith, All-contains,
}
use queueboard_core.Prelude.Sorting.{sorted-IsFirst}
use queueboard_core.Classify.Kinds.{LabelKind, PrStatus, label_kind_eq, LabelKind-discrete}
use queueboard_core.Classify.Status.{
  label_to_prstatus, priority, rank, before, sorted_labels, is_contradictory, status_of_labels,
  first_status, retired_review_label,
}

-- Pairs of kinds that no PR should have together.
abbrev excluded_pairs : List (LabelKind × LabelKind)
excluded_pairs =
    (LabelKind.decision, LabelKind.bors)
    ∷ (LabelKind.wip, LabelKind.review)
    ∷ (LabelKind.wip, LabelKind.bors)
    ∷ (LabelKind.author, LabelKind.review)
    ∷ (LabelKind.bors, LabelKind.blocked)
    ∷ (LabelKind.bors, LabelKind.help_wanted)
    ∷ (LabelKind.bors, LabelKind.author)
    ∷ []

unfoldable pub has_excluded_pair : (LabelKind → Bool) → Bool
has_excluded_pair has = any (λ p. has p.0 && has p.1) excluded_pairs

-- The order of the kinds, the strongest first.
unfoldable pub strongest : Bool → (LabelKind → Bool) → PrStatus
strongest retired has =
    if has LabelKind.blocked
    then PrStatus.blocked
    else if has LabelKind.help_wanted
    then PrStatus.help_wanted
    else if has LabelKind.wip || has LabelKind.awaiting_ci
    then PrStatus.not_ready
    else if has LabelKind.decision
    then PrStatus.awaiting_decision
    else if has LabelKind.merge_conflict
    then PrStatus.merge_conflict
    else if has LabelKind.bors
    then PrStatus.awaiting_bors
    else if has LabelKind.author
    then PrStatus.awaiting_author
    else if has LabelKind.review
    then PrStatus.awaiting_review
    else if has LabelKind.delegated
    then PrStatus.delegated
    else if retired
    then PrStatus.awaiting_review
    else PrStatus.awaiting_author

unfoldable pub priority_status : Bool → (LabelKind → Bool) → PrStatus
priority_status retired has =
    if has_excluded_pair has then PrStatus.contradictory else strongest retired has

has_excluded_pair_lem : (has : LabelKind → Bool) → has_excluded_pair has ≡ is_contradictory has
unfolding has_excluded_pair is_contradictory any
has_excluded_pair_lem has = ground arith

-- A kind that is present and of the highest rank decides, if no two kinds exclude one another.
module _ (retired : Bool) (has : LabelKind → Bool) (fine : has_excluded_pair has ≡ false)
    (no_other : has LabelKind.other ≡ false) where
  strongest-top :
      (h : LabelKind)
      → has h ≡ true
      → ((k : LabelKind) → has k ≡ true → rank k ≤ rank h)
      → label_to_prstatus h ≡ some (strongest retired has)
  unfolding strongest has_excluded_pair any label_to_prstatus priority
  strongest-top LabelKind.other m top = cc
  strongest-top LabelKind.blocked m top = ground arith
  strongest-top h m top = ground (
    arith,
    top LabelKind.blocked,
    top LabelKind.help_wanted,
    top LabelKind.wip,
    top LabelKind.awaiting_ci,
    top LabelKind.decision,
    top LabelKind.merge_conflict,
    top LabelKind.bors,
    top LabelKind.author,
    top LabelKind.review,
  )

before_trans : (x y z : LabelKind) → before x y ≡ true → before y z ≡ true → before x z ≡ true
before_trans x y z p q = ground arith

before_total : (x y : LabelKind) → (before x y ≡ true) ⊎ (before y x ≡ true)
before_total x y = ground arith

all-priority :
    (labels : List LabelKind)
    → contains LabelKind.other labels ≡ false
    → all (λ k. is_some (priority k)) labels ≡ true
unfolding all contains priority LabelKind-discrete
all-priority [] n = refl
all-priority (LabelKind.other ∷ ks) n = cc
all-priority (k ∷ ks) n = all-priority ks n

single_status :
    (date : ℕ) (k : LabelKind)
    → contains LabelKind.other (k ∷ []) ≡ false
    → label_to_prstatus k
      ≡ some (priority_status (ltb retired_review_label date) (λ l. contains l (k ∷ [])))
unfolding contains priority_status has_excluded_pair strongest any label_to_prstatus
    LabelKind-discrete
single_status date LabelKind.other n = cc
single_status date _ n = refl

first_status-strongest :
    (retired : Bool) (k : LabelKind) (ks : List LabelKind)
    → contains LabelKind.other (k ∷ ks) ≡ false
    → has_excluded_pair (λ l. contains l (k ∷ ks)) ≡ false
    → first_status (k ∷ ks) ≡ some (strongest retired (λ l. contains l (k ∷ ks)))
unfolding first_status sorted_labels
first_status-strongest retired k ks n fine =
    let (h, t, p, f) = sorted-IsFirst before before_trans before_total k ks in
    rw (all-priority (k ∷ ks) n, p)
      (strongest-top retired (λ l. contains l (k ∷ ks)) fine n h (contains-Memᴰ h (k ∷ ks) f.listed)
        (λ l m. ground (arith, All-contains (λ y. before h y ≡ true) l (k ∷ ks) f.first m)))

-- Over labels other than `Other`, the code computes the priority status.
pub status_of_labels-priority_status :
    (date : ℕ) (labels : List LabelKind)
    → contains LabelKind.other labels ≡ false
    → status_of_labels date labels
      ≡ some (priority_status (ltb retired_review_label date) (λ k. contains k labels))
unfolding status_of_labels
status_of_labels-priority_status date [] n =
    unfold contains priority_status has_excluded_pair strongest any in refl
status_of_labels-priority_status date (k ∷ []) n = single_status date k n
status_of_labels-priority_status date (k ∷ k' ∷ ks) n =
    elim (Bool-cases (is_contradictory (λ l. contains l (k ∷ k' ∷ ks)))) [
      | inl c ↦
          rw c (
            unfold priority_status in rw (has_excluded_pair_lem (λ l. contains l (k ∷ k' ∷ ks)), c))
      | inr c ↦
          let fine = has_excluded_pair_lem (λ l. contains l (k ∷ k' ∷ ks)) ∙ c in
          rw c (
            first_status-strongest (ltb retired_review_label date) k (k' ∷ ks) n fine
            ∙ ap some (unfold priority_status in rw fine))
    ]
