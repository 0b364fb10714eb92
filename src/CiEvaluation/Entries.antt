-- ===== src/CiEvaluation/Entries.antt =====
-- What holds of the entries of the batch's result.
use queueboard_core.Prelude.{
  ℕ, ◌≡◌, refl, sym, subst, ap, ◌∙◌, Bool, true, ◌||◌, some, List, [], ◌∷◌, ◌==◌, nat_eq,
  nat_beq_iff, if◌then◌else◌, keep, contains, is_some, All, Bool-cases, inl, inr, arith, beq_comm,
}
use queueboard_core.Prelude.Text.{text_eq}
use queueboard_core.QueueWindows.Attribution.{CiState}
use queueboard_core.CiEvaluation.Batch.{Statuses, status_for, put_status, put_all}

pub keep_through {ℓ} :
    {A : Type ℓ} (p m c : A → Bool) (xs : List A)
    → ((x : A) → p x ≡ true → c x ≡ true)
    → keep p (keep m (keep c xs)) ≡ keep m (keep p xs)
unfolding keep
keep_through p m c [] h = refl
keep_through p m c (x ∷ xs) h =
    let ih = keep_through p m c xs h in
    elim (Bool-cases (p x)) [
      | inl a ↦
          let b = h x a in
          elim (Bool-cases (m x)) [
            | inl d ↦ rw (a, b, d) (rw a (ap (λ l. x ∷ l) ih))
            | inr d ↦ rw (a, b, d) ih
          ]
      | inr a ↦ elim (Bool-cases (c x)) [
        | inl b ↦ elim (Bool-cases (m x)) [
          | inl d ↦ rw (a, b, d) (rw a ih)
          | inr d ↦ rw (a, b, d) ih
        ]
        | inr b ↦ rw (a, b) ih
      ]
    ]

status_for-put_status :
    (k n : ℕ) (st : CiState) (result : Statuses)
    → status_for k (put_status n st result) ≡ (if n == k then some st else status_for k result)
unfolding status_for put_status
status_for-put_status k n st [] = refl
status_for-put_status k n st ((m, old) ∷ result) =
    let rest = status_for-put_status k n st result in ground (arith, rest)

-- `claim n st` holds of every entry.
abbrev pub Entries : (ℕ → CiState → Type 0) → Statuses → Type 0
Entries claim result = (n : ℕ) (st : CiState) → status_for n result ≡ some st → claim n st

module _ (claim : ℕ → CiState → Type 0) where
  put_status-Entries :
      (n : ℕ) (st : CiState) (result : Statuses)
      → claim n st
      → Entries claim result
      → Entries claim (put_status n st result)
  put_status-Entries n st result c es k st' e =
      let found = sym (status_for-put_status k n st result) ∙ e in
      elim (Bool-cases (n == k)) [
        | inl p ↦
            let same : some st ≡ some st' = rw p at found in
            let now : st ≡ st' = cc in
            subst (λ x. claim x st') ((nat_beq_iff n k).0 p) (subst (claim n) now c)
        | inr p ↦ es k st' (rw p at found)
      ]

  pub put_all-Entries :
      (st : CiState) (ns : List ℕ) (result : Statuses)
      → All (λ n. claim n st) ns
      → Entries claim result
      → Entries claim (put_all st ns result)
  unfolding put_all
  put_all-Entries st [] result c es = es
  put_all-Entries st (n ∷ ns) result c es =
      put_all-Entries st ns (put_status n st result) c.1 (put_status-Entries n st result c.0 es)

abbrev pub Has : ℕ → Statuses → Type 0
Has n result = is_some (status_for n result) ≡ true

put_status-Has :
    (k n : ℕ) (st : CiState) (result : Statuses) → Has k result → Has k (put_status n st result)
put_status-Has k n st result h = rw (status_for-put_status k n st result) (ground arith)

pub put_all-Has :
    (k : ℕ) (st : CiState) (ns : List ℕ) (result : Statuses)
    → (contains k ns || is_some (status_for k result)) ≡ true
    → Has k (put_all st ns result)
unfolding put_all contains
put_all-Has k st [] result h = h
put_all-Has k st (n ∷ ns) result h =
    put_all-Has k st ns (put_status n st result)
      (rw (status_for-put_status k n st result) (ground (arith, beq_comm n k)))
