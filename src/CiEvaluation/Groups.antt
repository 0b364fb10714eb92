-- ===== src/CiEvaluation/Groups.antt =====
-- What holds of the PR numbers that are grouped by SHA.
use mathlib.Core.List.{Memᴰ}
use queueboard_core.Prelude.{
  ℕ, ◌≡◌, refl, sym, subst, true, false, not, ◌&&◌, ◌||◌, List, [], ◌∷◌, ◌++◌, ◌==◌, nat_eq,
  is_empty, keep, map, contains, contains-append, any, is_some, All, Bool-cases, inl, inr, arith,
  beq_refl,
}
use queueboard_core.Prelude.Text.{Text, text_eq, text_beq_iff}
use queueboard_core.QueueWindows.Timeline.{PullRequest}
use queueboard_core.QueueWindows.Attribution.{CiState, CheckRun, StatusContext}
use queueboard_core.CiEvaluation.Required.{evaluate_required_contexts}
use queueboard_core.CiEvaluation.Batch.{
  Statuses, status_for, put_all, append_number, group_by_sha, put_groups,
}
use queueboard_core.CiEvaluation.Entries.{Has, put_all-Has, put_all-Entries, Entries}

-- A claim on the groups: every number in a group is claimed with the status of its SHA.
module _ (required : List Text) (runs : List CheckRun) (contexts : List StatusContext)
    (claim : ℕ → CiState → Type 0) where
  abbrev pub status_of_sha : Text → CiState
  status_of_sha sha =
      evaluate_required_contexts required (keep (λ cr. cr.head_sha == sha) runs)
        (keep (λ sc. sc.head_sha == sha) contexts)

  pub put_groups-Entries :
      (groups : List (Text × List ℕ)) (result : Statuses)
      → All (λ g. All (λ n. claim n (status_of_sha g.0)) g.1) groups
      → Entries claim result
      → Entries claim (put_groups required runs contexts groups result)
  unfolding put_groups
  put_groups-Entries [] result c es = es
  put_groups-Entries ((sha, ns) ∷ groups) result c es =
      put_groups-Entries groups (put_all (status_of_sha sha) ns result) c.1
        (put_all-Entries claim (status_of_sha sha) ns result c.0 es)

  pub put_groups-Has :
      (k : ℕ) (groups : List (Text × List ℕ)) (result : Statuses)
      → (any (λ g. contains k g.1) groups || is_some (status_for k result)) ≡ true
      → Has k (put_groups required runs contexts groups result)
  unfolding put_groups any
  put_groups-Has k [] result h = h
  put_groups-Has k ((sha, ns) ∷ groups) result h =
      put_groups-Has k groups (put_all (status_of_sha sha) ns result)
        (elim (Bool-cases (contains k ns || is_some (status_for k result))) [
          | inl p ↦ let here = put_all-Has k (status_of_sha sha) ns result p in ground arith
          | inr p ↦ ground arith
        ])

-- What is known of the groups of some PRs: a number stands with the SHA of a PR of that number.
abbrev pub Sourced : List PullRequest → Text → ℕ → Type 0
Sourced prs sha n =
    (p : PullRequest) × Memᴰ p prs × (p.number ≡ n) × (p.head_sha ≡ sha) × (is_empty sha ≡ false)

abbrev pub AllSourced : List PullRequest → List (Text × List ℕ) → Type 0
AllSourced prs groups = All (λ g. All (Sourced prs g.0) g.1) groups

All-snoc {ℓ κ} :
    {A : Type ℓ} (P : A → Type κ) (xs : List A) (x : A) → All P xs → P x → All P (xs ++ x ∷ [])
All-snoc P [] x a b = (b, tt)
All-snoc P (y ∷ xs) x a b = (a.0, All-snoc P xs x a.1 b)

append_number-Sourced :
    (prs : List PullRequest) (sha : Text) (n : ℕ) (groups : List (Text × List ℕ))
    → Sourced prs sha n
    → AllSourced prs groups
    → AllSourced prs (append_number sha n groups)
unfolding append_number
append_number-Sourced prs sha n [] s a = ((s, tt), tt)
append_number-Sourced prs sha n ((key, ns) ∷ groups) s a = elim (Bool-cases (key == sha)) [
  | inl p ↦
      let same = (text_beq_iff key sha).0 p in
      rw p (All-snoc (Sourced prs key) ns n a.0 (subst (λ k. Sourced prs k n) (sym same) s), a.1)
  | inr p ↦ rw p (a.0, append_number-Sourced prs sha n groups s a.1)
]

append_number-has :
    (k : ℕ) (sha : Text) (n : ℕ) (groups : List (Text × List ℕ))
    → (any (λ g. contains k g.1) groups || k == n) ≡ true
    → any (λ g. contains k g.1) (append_number sha n groups) ≡ true
unfolding append_number any contains
append_number-has k sha n [] h = ground arith
append_number-has k sha n ((key, ns) ∷ groups) h = elim (Bool-cases (key == sha)) [
  | inl p ↦ rw p (ground (arith, contains-append k ns (n ∷ [])))
  | inr p ↦ rw p (elim (Bool-cases (any (λ g. contains k g.1) groups || k == n)) [
    | inl q ↦ let rest = append_number-has k sha n groups q in ground arith
    | inr q ↦ ground arith
  ])
]

pub group_by_sha-Sourced :
    (all_prs prs : List PullRequest) (groups : List (Text × List ℕ))
    → ((p : PullRequest) → Memᴰ p prs → Memᴰ p all_prs)
    → AllSourced all_prs groups
    → AllSourced all_prs (group_by_sha groups prs)
unfolding group_by_sha
group_by_sha-Sourced all_prs [] groups sub a = a
group_by_sha-Sourced all_prs (p ∷ prs) groups sub a = elim (Bool-cases (is_empty p.head_sha)) [
  | inl e ↦ rw e (group_by_sha-Sourced all_prs prs groups (λ q m. sub q (Memᴰ.tail m)) a)
  | inr e ↦ rw e (
      group_by_sha-Sourced all_prs prs (append_number p.head_sha p.number groups)
        (λ q m. sub q (Memᴰ.tail m))
        (append_number-Sourced all_prs p.head_sha p.number groups
          (p, sub p (Memᴰ.head refl), refl, refl, e) a))
]

pub group_by_sha-has :
    (k : ℕ) (prs : List PullRequest) (groups : List (Text × List ℕ))
    → (any (λ g. contains k g.1) groups
        || any (λ p. not (is_empty p.head_sha) && k == p.number) prs)
      ≡ true
    → any (λ g. contains k g.1) (group_by_sha groups prs) ≡ true
unfolding group_by_sha any
group_by_sha-has k [] groups h = ground arith
group_by_sha-has k (p ∷ prs) groups h = elim (Bool-cases (is_empty p.head_sha)) [
  | inl e ↦ rw e (group_by_sha-has k prs groups (ground arith))
  | inr e ↦ rw e (
      group_by_sha-has k prs (append_number p.head_sha p.number groups)
        (elim (Bool-cases (any (λ g. contains k g.1) groups || k == p.number)) [
          | inl q ↦ let now = append_number-has k p.head_sha p.number groups q in ground arith
          | inr q ↦ ground arith
        ]))
]

pub All-map {ℓ κ} :
    {A : Type ℓ} (P Q : A → Type κ) (xs : List A) → ((a : A) → P a → Q a) → All P xs → All Q xs
All-map P Q [] f a = tt
All-map P Q (x ∷ xs) f a = (f x a.0, All-map P Q xs f a.1)

pub keys-listed :
    (groups : List (Text × List ℕ)) → All (λ g. contains g.0 (map (λ h. h.0) groups) ≡ true) groups
unfolding contains
keys-listed [] = tt
keys-listed (g ∷ groups) = (
  ground (arith, beq_refl g.0),
  All-map (λ h. contains h.0 (map (λ x. x.0) groups) ≡ true)
      (λ h. contains h.0 (map (λ x. x.0) (g ∷ groups)) ≡ true) groups (λ h e. ground arith)
      (keys-listed groups),
)
