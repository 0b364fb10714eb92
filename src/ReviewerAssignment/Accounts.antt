-- ===== src/ReviewerAssignment/Accounts.antt =====
-- What the simulation books: each suggestion is one open PR more of its reviewer.
use queueboard_core.Prelude.{
  ℕ, ◌+◌, ◌≡◌, refl, sym, ap, ◌∙◌, subst, inl, inr, true, none, some, List, [], ◌∷◌, ◌++◌,
  if◌then◌else◌, contains, length, length-append, erase, contains-erase, not-contains-erase,
  Distinct, Distinct-erase, ◌==◌, nat_eq, nat_beq_iff, Bool-cases, arith,
}
use mathlib.Core.List.{append_assoc, append-nil}
use queueboard_core.Prelude.Dict.{get, put, get-put, put_absent}
use queueboard_core.Prelude.Text.{Text, text_eq, text_beq_iff}
use queueboard_core.ReviewerAssignment.Profiles.{Arithmetic, ReviewerProfile, Load, Loads, load_of}
use queueboard_core.ReviewerAssignment.Simulation.{
  Run, Setting, add_pr, take_pick, take_pr, run_assignment_simulation,
}
use queueboard_core.ReviewerAssignment.Rounds.{rounds_rule, take_pr_cases}

-- The PRs that are suggested to a login, in the order of the suggestions.
unfoldable pub picked : Text → List (ℕ × Text) → List ℕ
picked login [] = []
picked login ((n, l) ∷ d) = let rest = picked login d in if l == login then n ∷ rest else rest

picked-append :
    (login : Text) (d e : List (ℕ × Text))
    → picked login (d ++ e) ≡ picked login d ++ picked login e
unfolding picked
picked-append login [] e = refl
picked-append login ((n, l) ∷ d) e = ground (arith, picked-append login d e)

picked-put :
    (other login : Text) (n : ℕ) (d : List (ℕ × Text))
    → get n d ≡ none
    → picked other (put n login d) ≡ picked other d ++ (if login == other then n ∷ [] else [])
unfolding picked
picked-put other login n d fresh =
    ap (picked other) (put_absent n login d fresh) ∙ picked-append other d ((n, login) ∷ [])

module _ {W : Type 0} ⦃a : Arithmetic W⦄ where
  abbrev pub open_of : Text → Loads W → List ℕ
  open_of login loads = (load_of (get login loads)).open_prs

  abbrev pub total_of : Text → Loads W → ℕ
  total_of login loads = (load_of (get login loads)).total

  -- Since `before`, each login's open PRs and its total have grown by the PRs suggested to it.
  abbrev pub Books : Loads W → Loads W → List (ℕ × Text) → Type 0
  Books before after suggestions =
      (login : Text)
      → (open_of login after ≡ open_of login before ++ picked login suggestions)
        × (total_of login after ≡ total_of login before + length (picked login suggestions))

  load-pick :
      (login other : Text) (n : ℕ) (loads : Loads W)
      → load_of (get other (put login (add_pr n (load_of (get login loads))) loads)) ≡ (
          if login == other
          then add_pr n (load_of (get other loads))
          else load_of (get other loads))
  load-pick login other n loads = elim (Bool-cases (login == other)) [
    | inl p ↦
        let same = (text_beq_iff login other).0 p in
        ap load_of (get-put other login (add_pr n (load_of (get login loads))) loads)
        ∙ rw p (ap (λ l. add_pr n (load_of (get l loads))) same)
    | inr p ↦
        ap load_of (get-put other login (add_pr n (load_of (get login loads))) loads) ∙ rw p refl
  ]

  pick-Books :
      (before : Loads W) (n : ℕ) (login : Text) (run : Run W)
      → get n run.suggestions ≡ none
      → Books before run.loads run.suggestions
      → Books before (take_pick n (some login) run).loads (take_pick n (some login) run).suggestions
  unfolding take_pick add_pr
  pick-Books before n login run fresh h other =
      let (opens, totals) = h other in
      let now = load-pick login other n run.loads in
      let grows = picked-put other login n run.suggestions fresh in
      elim (Bool-cases (login == other)) [
        | inl p ↦
            let now' = rw p at now in
            let grows' = rw p at grows in
            (
              ap (λ (l : Load W). l.open_prs) now'
                  ∙ ap (λ l. l ++ n ∷ []) opens
                  ∙ append_assoc (open_of other before) (picked other run.suggestions) (n ∷ [])
                  ∙ ap (λ l. open_of other before ++ l) (sym grows'),
              ap (λ (l : Load W). l.total) now'
                  ∙ omega (
                    arith,
                    totals,
                    ap length grows',
                    length-append (picked other run.suggestions) (n ∷ []),
                  ),
            )
        | inr p ↦
            let now' = rw p at now in
            let grows' = (rw p at grows) ∙ append-nil (picked other run.suggestions) in
            (
              ap (λ (l : Load W). l.open_prs) now'
                  ∙ opens
                  ∙ ap (λ l. open_of other before ++ l) (sym grows'),
              ap (λ (l : Load W). l.total) now' ∙ omega (arith, totals, ap length grows'),
            )
      ]

pub fresh_after :
    (n m : ℕ) (login : Text) (prs : List ℕ) (suggestions : List (ℕ × Text))
    → Distinct prs
    → ((k : ℕ) → contains k prs ≡ true → get k suggestions ≡ none)
    → contains m (erase n prs) ≡ true
    → get m (put n login suggestions) ≡ none
fresh_after n m login prs suggestions d fresh h = elim (Bool-cases (n == m)) [
  | inl p ↦
      let same = (nat_beq_iff n m).0 p in
      cc (sym (not-contains-erase n prs d) ∙ ap (λ k. contains k (erase n prs)) same ∙ h)
  | inr p ↦ ground (arith, get-put m n login suggestions, fresh m (contains-erase n m prs h))
]

module _ {W K : Type 0} ⦃a : Arithmetic W⦄ (c : Setting W K) (before : Loads W) where
  -- Between two rounds, no PR that is left has a suggestion.
  record IsBooked (prs : List ℕ) (run : Run W) : Type 0 where
    distinct : Distinct prs
    fresh : (n : ℕ) → contains n prs ≡ true → get n run.suggestions ≡ none
    books : Books before run.loads run.suggestions

  round-IsBooked :
      (round n : ℕ) (prs : List ℕ) (run : Run W)
      → contains n prs ≡ true
      → IsBooked prs run
      → IsBooked (erase n prs) (take_pr c round n run)
  unfolding take_pick
  round-IsBooked round n prs run listed h = elim (take_pr_cases c round n run) [
    | inl same ↦
        subst (λ r. IsBooked (erase n prs) r) (sym same)
          (record {
            distinct = Distinct-erase n prs h.distinct;
            fresh = λ m k. h.fresh m (contains-erase n m prs k);
            books = h.books;
          })
    | inr (login, same, _) ↦
        subst (λ r. IsBooked (erase n prs) r) (sym same)
          (record {
            distinct = Distinct-erase n prs h.distinct;
            fresh = λ m k. fresh_after n m login prs run.suggestions h.distinct h.fresh k;
            books = pick-Books before n login run (h.fresh n listed) h.books;
          })
  ]

-- The simulation of distinct PRs ends, after one round for each. Each login's open PRs then are those
-- that it had, with the PRs suggested to it after them, and its total has grown by their number.
pub run_assignment_simulation-Books :
    {W K : Type 0} ⦃a : Arithmetic W⦄ (c : Setting W K) (reviewers : List ReviewerProfile)
    (loads : Loads W) (prs : List ℕ)
    → Distinct prs
    → (r : Run W) × (run_assignment_simulation c reviewers loads prs ≡ some r)
      × Books loads r.loads r.suggestions
unfolding run_assignment_simulation get picked
run_assignment_simulation-Books {W} c reviewers loads prs d =
    let start : Run W = record { reviewers = reviewers; loads = loads; suggestions = [] } in
    let (r, e, h) =
      rounds_rule c (IsBooked c loads) (round-IsBooked c loads) (length prs) 0 prs start refl
        (record {
          distinct = d;
          fresh = λ n m. refl;
          books = λ login. (sym (append-nil (open_of login loads)), omega arith);
        }) in
    (r, e, h.books)
