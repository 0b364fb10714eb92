-- ===== src/ReviewerAssignment/Limits.antt =====
-- The weekly limit holds over a whole run.
use mathlib.Core.List.{Memᴰ}
use mathlib.Core.Path.{fun_ext}
use queueboard_core.Prelude.{
  ℕ, suc, ◌+◌, ◌≤◌, ◌<◌, ◌≡◌, refl, sym, ap, ◌∙◌, subst, inl, inr, true, none, some, List, [], ◌∷◌,
  ◌++◌, if◌then◌else◌, contains, map, length, erase, contains-erase, Distinct, Distinct-erase, ◌==◌,
  nat_eq, Bool-cases, arith, Memᴰ-map, beq_comm,
}
use queueboard_core.Prelude.Dict.{get, put, put_absent}
use queueboard_core.Prelude.Text.{Text, text_eq, text_beq_iff}
use queueboard_core.ReviewerAssignment.Profiles.{
  Arithmetic, ReviewerProfile, Loads, normalize_login, within_limit, within_rate_limit,
}
use queueboard_core.ReviewerAssignment.Simulation.{
  Run, Setting, charge, take_pick, take_pr, run_assignment_simulation,
}
use queueboard_core.ReviewerAssignment.Eligible.{Chooses, suggest_reviewer_for_pr-IsEligible}
use queueboard_core.ReviewerAssignment.Rounds.{rounds_rule, take_pr_cases}
use queueboard_core.ReviewerAssignment.Accounts.{fresh_after}

-- The number of PRs suggested to a login, up to its case.
unfoldable pub given : Text → List (ℕ × Text) → ℕ
given norm [] = 0
given norm ((n, l) ∷ d) =
    let rest = given norm d in if normalize_login (some l) == norm then suc rest else rest

abbrev pub norm_of : ReviewerProfile → Text
norm_of r = normalize_login (some r.github_login)

-- A profile after the suggestions of the run so far.
abbrev charged : List (ℕ × Text) → ReviewerProfile → ReviewerProfile
charged d r = record r { simulated_this_run = r.simulated_this_run + given (norm_of r) d }

given-append :
    (norm : Text) (n : ℕ) (l : Text) (d : List (ℕ × Text))
    → given norm (d ++ (n, l) ∷ [])
      ≡ (if normalize_login (some l) == norm then suc (given norm d) else given norm d)
unfolding given
given-append norm n l [] = refl
given-append norm n l ((m, k) ∷ d) = ground (arith, given-append norm n l d)

given-put :
    (norm : Text) (n : ℕ) (l : Text) (d : List (ℕ × Text))
    → get n d ≡ none
    → given norm (put n l d)
      ≡ (if normalize_login (some l) == norm then suc (given norm d) else given norm d)
given-put norm n l d fresh = ap (given norm) (put_absent n l d fresh) ∙ given-append norm n l d

charge-charged :
    (n : ℕ) (l : Text) (d : List (ℕ × Text)) (r : ReviewerProfile)
    → get n d ≡ none
    → charge (normalize_login (some l)) (charged d r) ≡ charged (put n l d) r
unfolding charge
charge-charged n l d r fresh =
    let e = given-put (norm_of r) n l d fresh in
    let turned = beq_comm (normalize_login (some l)) (norm_of r) in
    elim (Bool-cases (norm_of r == normalize_login (some l))) [
      | inl p ↦
          let e' = rw (turned ∙ p) at e in
          rw p (ap (λ k. record r { simulated_this_run = k }) (omega (arith, e')))
      | inr p ↦
          let e' = rw (turned ∙ p) at e in
          rw p (ap (λ k. record r { simulated_this_run = k }) (omega (arith, e')))
    ]

map-map :
    (f g : ReviewerProfile → ReviewerProfile) (rs : List ReviewerProfile)
    → map f (map g rs) ≡ map (λ r. f (g r)) rs
map-map f g [] = refl
map-map f g (r ∷ rs) = ap (λ l. f (g r) ∷ l) (map-map f g rs)

charged_none : (rs : List ReviewerProfile) → map (charged []) rs ≡ rs
unfolding given
charged_none [] = refl
charged_none (r ∷ rs) = ground (arith, charged_none rs, same r)
  where
    same : (r : ReviewerProfile) → charged [] r ≡ r
    same r = ap (λ k. record r { simulated_this_run = k }) (omega arith)

module _ {W K : Type 0} ⦃a : Arithmetic W⦄ (c : Setting W K) (chooses : Chooses c.choose)
    (reviewers : List ReviewerProfile) (reviewer : ReviewerProfile) (limit : ℕ)
    (limited : reviewer.weekly_limit ≡ some limit)
    (alone : (r : ReviewerProfile)
      → Memᴰ r reviewers
      → norm_of r ≡ norm_of reviewer
      → r ≡ reviewer) where
  abbrev taken : List (ℕ × Text) → ℕ
  taken d =
      reviewer.recent_assignment_count + reviewer.simulated_this_run + given (norm_of reviewer) d

  record IsLimited (prs : List ℕ) (run : Run W) : Type 0 where
    distinct : Distinct prs
    fresh : (n : ℕ) → contains n prs ≡ true → get n run.suggestions ≡ none
    profiles : run.reviewers ≡ map (charged run.suggestions) reviewers
    within : taken run.suggestions ≤ limit

  -- Who is picked has room for one more.
  room :
      (d : List (ℕ × Text)) (r : ReviewerProfile)
      → Memᴰ r (map (charged d) reviewers)
      → norm_of r ≡ norm_of reviewer
      → within_rate_limit r ≡ true
      → taken d < limit
  unfolding within_rate_limit within_limit
  room d r m same h =
      let (s, n, e) = Memᴰ-map (charged d) r reviewers m in
      let it = alone s n (sym (ap norm_of e) ∙ same) in
      let now = subst (λ x. within_rate_limit x ≡ true) (e ∙ ap (charged d) it) h in
      let now' =
        subst
          (λ o.
            within_limit o (
              reviewer.recent_assignment_count
              + (reviewer.simulated_this_run + given (norm_of reviewer) d))
            ≡ true)
          limited now in
      ground arith

  pick-within :
      (n : ℕ) (login : Text) (prs : List ℕ) (run : Run W) (r : ReviewerProfile)
      → contains n prs ≡ true
      → Memᴰ r run.reviewers
      → login ≡ r.github_login
      → within_rate_limit r ≡ true
      → IsLimited prs run
      → taken (put n login run.suggestions) ≤ limit
  pick-within n login prs run r listed m same rate h =
      let e = given-put (norm_of reviewer) n login run.suggestions (h.fresh n listed) in
      elim (Bool-cases (normalize_login (some login) == norm_of reviewer)) [
        | inl p ↦
            let norm = (text_beq_iff (normalize_login (some login)) (norm_of reviewer)).0 p in
            let e' = rw p at e in
            let in_map = subst (λ l. Memᴰ r l) h.profiles m in
            let left =
              room run.suggestions r in_map (sym (ap (λ l. normalize_login (some l)) same) ∙ norm)
                rate in
            omega (arith, e', left)
        | inr p ↦ let e' = rw p at e in omega (arith, e', h.within)
      ]

  pick-IsLimited :
      (n : ℕ) (login : Text) (prs : List ℕ) (run : Run W) (r : ReviewerProfile)
      → contains n prs ≡ true
      → Memᴰ r run.reviewers
      → login ≡ r.github_login
      → within_rate_limit r ≡ true
      → IsLimited prs run
      → IsLimited (erase n prs) (take_pick n (some login) run)
  unfolding take_pick
  pick-IsLimited n login prs run r listed m same rate h = record {
    distinct = Distinct-erase n prs h.distinct;
    fresh = λ k i. fresh_after n k login prs run.suggestions h.distinct h.fresh i;
    profiles =
        ap (map (charge (normalize_login (some login)))) h.profiles
        ∙ map-map (charge (normalize_login (some login))) (charged run.suggestions) reviewers
        ∙ ap (λ f. map f reviewers)
            (fun_ext λ s. charge-charged n login run.suggestions s (h.fresh n listed));
    within = pick-within n login prs run r listed m same rate h;
  }

  round-IsLimited :
      (round n : ℕ) (prs : List ℕ) (run : Run W)
      → contains n prs ≡ true
      → IsLimited prs run
      → IsLimited (erase n prs) (take_pr c round n run)
  round-IsLimited round n prs run listed h = elim (take_pr_cases c round n run) [
    | inl same ↦
        subst (λ r. IsLimited (erase n prs) r) (sym same)
          (record {
            distinct = Distinct-erase n prs h.distinct;
            fresh = λ m k. h.fresh m (contains-erase n m prs k);
            profiles = h.profiles;
            within = h.within;
          })
    | inr (login, same, (q, e)) ↦
        let (r, at, fit) =
          suggest_reviewer_for_pr-IsEligible c.choose round q run.reviewers run.loads login chooses
            e in
        subst (λ r. IsLimited (erase n prs) r) (sym same)
          (pick-IsLimited n login prs run r listed fit.listed at fit.in_rate h)
  ]

  -- A reviewer with a weekly limit, who was within it before the run and is alone under the login up
  -- to case, is within it after the run of distinct PRs: the PRs of the last week and those that the
  -- run suggests to the login are no more than the limit.
  pub run_assignment_simulation-within :
      (loads : Loads W) (prs : List ℕ)
      → Distinct prs
      → reviewer.recent_assignment_count + reviewer.simulated_this_run ≤ limit
      → (r : Run W) × (run_assignment_simulation c reviewers loads prs ≡ some r)
        × (reviewer.recent_assignment_count
              + reviewer.simulated_this_run
              + given (norm_of reviewer) r.suggestions
            ≤ limit)
  unfolding run_assignment_simulation get given
  run_assignment_simulation-within loads prs d h =
      let start : Run W = record { reviewers = reviewers; loads = loads; suggestions = [] } in
      let (r, e, l) =
        rounds_rule c IsLimited round-IsLimited (length prs) 0 prs start refl (record {
          distinct = d;
          fresh = λ n m. refl;
          profiles = sym (charged_none reviewers);
          within = omega (arith, h);
        }) in
      (r, e, l.within)
