-- ===== src/ReviewerAssignment/Rounds.antt =====
-- The ranking keeps the PRs, and the simulation takes each of them in some round.
use mathlib.Core.List.{Perm}
use mathlib.Core.List.Perm
use queueboard_core.Prelude.{
  ◌⊎◌, ℕ, zero, suc, ◌+◌, ◌≡◌, refl, sym, ap, ◌∙◌, subst, inl, inr, Bool, true, some, List, [], ◌∷◌,
  contains, map, length, erase, nat_eq, nat_beq_iff, contains-perm, Option-cases, arith,
}
use queueboard_core.Prelude.Sorting.{sorted-perm}
use queueboard_core.Prelude.Text.{Text}
use queueboard_core.ReviewerAssignment.Profiles.{Arithmetic, ReviewerProfile, Loads}
use queueboard_core.ReviewerAssignment.Ranking.{
  entry_of, excluded_for, AllPrs, Scorer, Ranked, stays_ahead, ranked_items,
  rank_prs_for_assignment,
}
use queueboard_core.ReviewerAssignment.Candidates.{Request, request_of, suggest_reviewer_for_pr}
use queueboard_core.ReviewerAssignment.Simulation.{
  take_pick, take_entry, Run, Setting, take_pr, ranking, rounds,
}

module _ {W K : Type 0} where
  numbers_of_items :
      (scorer : Scorer W K) (prs : AllPrs W) (reviewers : List ReviewerProfile) (loads : Loads W)
      (excluded : List (ℕ × List Text)) (index : ℕ) (ns : List ℕ)
      → map (λ (r : Ranked K). r.number) (ranked_items scorer prs reviewers loads excluded index ns)
        ≡ ns
  unfolding ranked_items
  numbers_of_items scorer prs reviewers loads excluded index [] = refl
  numbers_of_items scorer prs reviewers loads excluded index (n ∷ ns) =
      ap (λ l. n ∷ l) (numbers_of_items scorer prs reviewers loads excluded (index + 1) ns)

  -- The ranking orders the PRs that it is given, and drops or repeats none.
  pub rank_prs-perm :
      (lt : K → K → Bool) (scorer : Scorer W K) (prs : AllPrs W) (reviewers : List ReviewerProfile)
      (loads : Loads W) (excluded : List (ℕ × List Text)) (ns : List ℕ)
      → Perm (rank_prs_for_assignment lt scorer prs reviewers loads excluded ns) ns
  unfolding rank_prs_for_assignment
  rank_prs-perm lt scorer prs reviewers loads excluded ns =
      subst (λ l. Perm (rank_prs_for_assignment lt scorer prs reviewers loads excluded ns) l)
        (numbers_of_items scorer prs reviewers loads excluded 0 ns)
        (Perm.map (λ (r : Ranked K). r.number)
          (sorted-perm (stays_ahead lt) (ranked_items scorer prs reviewers loads excluded 0 ns)))

length-erase : (n : ℕ) (ns : List ℕ) → contains n ns ≡ true → suc (length (erase n ns)) ≡ length ns
unfolding erase contains
length-erase n [] h = absurd (cc)
length-erase n (x ∷ ns) h = ground (arith, length-erase n ns, nat_beq_iff n x, nat_beq_iff x n)

head_listed :
    (ns os : List ℕ) (n : ℕ) (rest : List ℕ) → Perm os ns → os ≡ n ∷ rest → contains n ns ≡ true
unfolding contains
head_listed ns os n rest p e =
    sym (contains-perm n os ns p) ∙ ap (contains n) e ∙ (ground (arith, nat_beq_iff n n))

none_listed : (p : ℕ) (ps os : List ℕ) → Perm os (p ∷ ps) → ¬ (os ≡ [])
unfolding contains
none_listed p ps os perm e =
    cc (sym (ap (contains p) e) ∙ contains-perm p os (p ∷ ps) perm ∙ head_self p ps)
  where
    head_self : (p : ℕ) (ps : List ℕ) → contains p (p ∷ ps) ≡ true
    head_self p ps = ground (arith, nat_beq_iff p p)

List-cases : (xs : List ℕ) → (xs ≡ []) ⊎ ((x : ℕ) × (rest : List ℕ) × (xs ≡ x ∷ rest))
List-cases [] = inl refl
List-cases (x ∷ xs) = inr (x, xs, refl)

module _ {W K : Type 0} ⦃a : Arithmetic W⦄ (c : Setting W K) (P : List ℕ → Run W → Type 0)
    (keep : (round n : ℕ) (prs : List ℕ) (run : Run W)
      → contains n prs ≡ true
      → P prs run
      → P (erase n prs) (take_pr c round n run)) where
  -- What a round keeps holds at the end, where no PR is left. The end comes after one round for each PR.
  pub rounds_rule :
      (fuel round : ℕ) (prs : List ℕ) (run : Run W)
      → length prs ≡ fuel
      → P prs run
      → (r : Run W) × (rounds fuel c round prs run ≡ some r) × P [] r
  unfolding rounds
  rounds_rule fuel round [] run e h = (run, refl, h)
  rounds_rule zero round (p ∷ ps) run e h = absurd (omega (arith, e))
  rounds_rule (suc fuel) round (p ∷ ps) run e h =
      let perm =
        rank_prs-perm c.key_less c.scorer c.all_prs run.reviewers run.loads c.excluded_by_pr
          (p ∷ ps) in
      elim (List-cases (ranking c run (p ∷ ps))) [
        | inl none_left ↦ absurd (none_listed p ps (ranking c run (p ∷ ps)) perm none_left)
        | inr (n, rest, q) ↦
            let listed = head_listed (p ∷ ps) (ranking c run (p ∷ ps)) n rest perm q in
            let (r, done, last) =
              rounds_rule fuel (round + 1) (erase n (p ∷ ps)) (take_pr c round n run)
                (omega (arith, e, length-erase n (p ∷ ps) listed))
                (keep round n (p ∷ ps) run listed h) in
            (r, rw (q, rounds) done, last)
      ]

module _ {W K : Type 0} ⦃a : Arithmetic W⦄ (c : Setting W K) (round n : ℕ) (run : Run W) where
  -- A round changes nothing, or takes the suggestion for its PR.
  abbrev pub Picks : Type 0
  Picks =
      (login : Text) × (take_pr c round n run ≡ take_pick n (some login) run)
      × ((q : Request) × ((suggest_reviewer_for_pr c.choose round q run.reviewers
              run.loads).suggested
            ≡ some login))

  pub take_pr_cases : (take_pr c round n run ≡ run) ⊎ Picks
  unfolding take_pr take_entry take_pick
  take_pr_cases = elim (Option-cases (entry_of n c.all_prs)) [
    | inl p ↦ inl (rw (p, take_entry) refl)
    | inr (entry, p) ↦
        let q = request_of c.fullmatch (excluded_for n c.excluded_by_pr) entry in
        elim (Option-cases
          (suggest_reviewer_for_pr c.choose round q run.reviewers run.loads).suggested) [
            | inl e ↦ inl (rw (p, take_entry) (rw (e, take_pick) refl))
            | inr (login, e) ↦
                inr (login, rw (p, take_entry) (ap (λ o. take_pick n o run) e), (q, e))
          ]
  ]
