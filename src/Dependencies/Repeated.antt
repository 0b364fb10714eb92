-- ===== src/Dependencies/Repeated.antt =====
-- A second rebuild of a PR's dependencies does nothing.
use queueboard_core.Prelude.{
  ℕ, ◌≡◌, refl, sym, ap, subst, ◌∙◌, inl, inr, Bool, true, not, none, some, List, [], ◌∷◌, keep,
  length, contains, nat_eq, nat_beq_iff, Bool-cases, arith, beq_refl,
}
use queueboard_core.Prelude.Dict.{get}
use queueboard_core.Dependencies.Rows.{
  Key, key_eq, Target, target_eq, DependencyRows, PullRequest, Sync, write_row, note_number,
  sync_number, sync_numbers, is_stale_row, rebuild_numbers, named_numbers, rebuild_pr_dependencies,
}
use queueboard_core.Dependencies.Replaced.{start, rebuild_numbers-rows}

-- Nothing that a number's row counts has changed.
record IsSame (s t : Sync) : Type 0 where
  rows_same : t.rows ≡ s.rows
  created_same : t.created ≡ s.created
  updated_same : t.updated ≡ s.updated

module _ (repository : ℕ) (targets : ℕ → Target) (existing : DependencyRows) where
  write_row_due : (key : Key) (t : Target) (s : Sync) → write_row key t (some t) s ≡ s
  unfolding write_row
  write_row_due key t s = let e = beq_refl t in rw e refl

  note_number-IsSame : (n : ℕ) (t : Target) (s : Sync) → IsSame s (note_number n t s)
  unfolding note_number
  note_number-IsSame n none s = record {
    rows_same = refl;
    created_same = refl;
    updated_same = refl;
  }
  note_number-IsSame n (some id) s = record {
    rows_same = refl;
    created_same = refl;
    updated_same = refl;
  }

  sync_number-IsSame :
      (n : ℕ) (s : Sync)
      → get (repository, n) existing ≡ some (targets n)
      → IsSame s (sync_number repository targets existing n s)
  unfolding sync_number
  sync_number-IsSame n s e =
      let kept =
        ap (λ f. write_row (repository, n) (targets n) f s) e
        ∙ write_row_due (repository, n) (targets n) s in
      subst (λ u. IsSame s (note_number n (targets n) u)) (sym kept)
        (note_number-IsSame n (targets n) s)

  sync_numbers-IsSame :
      (ns : List ℕ) (s : Sync)
      → ((m : ℕ) → contains m ns ≡ true → get (repository, m) existing ≡ some (targets m))
      → IsSame s (sync_numbers repository targets existing ns s)
  unfolding sync_numbers contains
  sync_numbers-IsSame [] s h = record { rows_same = refl; created_same = refl; updated_same = refl }
  sync_numbers-IsSame (n ∷ ns) s h =
      let first = sync_number-IsSame n s (h n (ground (arith, nat_beq_iff n n))) in
      let rest =
        sync_numbers-IsSame ns (sync_number repository targets existing n s)
          (λ m l. h m (ground arith)) in
      record {
        rows_same = rest.rows_same ∙ first.rows_same;
        created_same = rest.created_same ∙ first.created_same;
        updated_same = rest.updated_same ∙ first.updated_same;
      }

keep_twice : {A : Type 0} (p : A → Bool) (xs : List A) → keep p (keep p xs) ≡ keep p xs
unfolding keep
keep_twice p [] = refl
keep_twice p (x ∷ xs) = elim (Bool-cases (p x)) [
  | inl e ↦ rw e (rw e (ap (λ l. x ∷ l) (keep_twice p xs)))
  | inr e ↦ rw e (keep_twice p xs)
]

keep_rest : {A : Type 0} (p : A → Bool) (xs : List A) → keep p (keep (λ x. not (p x)) xs) ≡ []
unfolding keep
keep_rest p [] = refl
keep_rest p (x ∷ xs) = elim (Bool-cases (p x)) [
  | inl e ↦ rw e (keep_rest p xs)
  | inr e ↦ rw e (rw e (keep_rest p xs))
]

-- A second rebuild finds nothing to do: it creates, updates and deletes no row.
pub rebuild_pr_dependencies_twice :
    (targets : ℕ → Target) (pr : PullRequest) (rows : DependencyRows)
    → (rebuild_pr_dependencies targets pr (rebuild_pr_dependencies targets pr rows).0).0
        ≡ (rebuild_pr_dependencies targets pr rows).0
      × (rebuild_pr_dependencies targets pr (rebuild_pr_dependencies targets pr rows).0).1.created
        ≡ 0
      × (rebuild_pr_dependencies targets pr (rebuild_pr_dependencies targets pr rows).0).1.updated
        ≡ 0
      × (rebuild_pr_dependencies targets pr (rebuild_pr_dependencies targets pr rows).0).1.deleted
        ≡ 0
unfolding rebuild_pr_dependencies rebuild_numbers
rebuild_pr_dependencies_twice targets pr rows =
    let numbers = named_numbers pr in
    let repository = pr.repository_id in
    let stale = is_stale_row repository numbers in
    let first = sync_numbers repository targets rows numbers (start rows) in
    let stored = keep (λ r. not (stale r)) first.rows in
    let due : (m : ℕ) → contains m numbers ≡ true → get (repository, m) stored ≡ some (targets m) =
      λ m l.
        rebuild_numbers-rows repository targets numbers rows (repository, m)
        ∙ (let own = (nat_beq_iff repository repository).1 refl in rw (own, l) refl) in
    let same = sync_numbers-IsSame repository targets stored numbers (start stored) due in
    (
      ap (keep (λ r. not (stale r))) same.rows_same ∙ keep_twice (λ r. not (stale r)) first.rows,
      same.created_same,
      same.updated_same,
      ap (λ l. length (keep stale l)) same.rows_same ∙ ap length (keep_rest stale first.rows),
    )
