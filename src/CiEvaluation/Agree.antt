-- ===== src/CiEvaluation/Agree.antt =====
-- The batch gives every PR the status that it has alone.
use mathlib.Core.List.{Memᴰ}
use queueboard_core.Prelude.{
  ℕ, ◌≡◌, refl, sym, ap, ◌∙◌, Bool, true, false, not, ◌&&◌, ◌||◌, some, List, [], ◌∷◌, ◌==◌, nat_eq,
  if◌then◌else◌, is_empty, keep, map, contains, any, is_some, All, Bool-cases, Option-cases, inl,
  inr, arith,
}
use queueboard_core.Prelude.Text.{Text, text_eq, text_beq_iff}
use queueboard_core.QueueRules.Rules.{QueueRules, or_nil}
use queueboard_core.QueueWindows.Timeline.{PullRequest}
use queueboard_core.QueueWindows.Attribution.{CiState, CheckRun, StatusContext}
use queueboard_core.CiEvaluation.Required.{
  evaluate_required_contexts, matches_some, ci_status_for_pr,
}
use queueboard_core.CiEvaluation.Batch.{
  Statuses, status_for, put_all, group_by_sha, put_groups, numbers_of, batch_ci_statuses_for_repo,
}
use queueboard_core.CiEvaluation.Entries.{Has, keep_through, put_all-Has, put_all-Entries, Entries}
use queueboard_core.CiEvaluation.Groups.{
  AllSourced, put_groups-Has, keys-listed, group_by_sha-Sourced, group_by_sha-has, All-map,
  status_of_sha, put_groups-Entries, Sourced,
}

-- PRs of one number have one head.
abbrev pub OneHead : List PullRequest → Type 0
OneHead prs =
    (p q : PullRequest) → Memᴰ p prs → Memᴰ q prs → p.number ≡ q.number → p.head_sha ≡ q.head_sha

module _ (prs : List PullRequest) (rules : QueueRules) (all_runs : List CheckRun)
    (all_contexts : List StatusContext) (one : OneHead prs) where
  abbrev required : List Text
  required = or_nil rules.required_ci_contexts

  abbrev no_gate : Bool
  no_gate = not rules.require_ci_success || is_empty required

  abbrev Claim : ℕ → CiState → Type 0
  Claim n st =
      (q : PullRequest)
      → Memᴰ q prs
      → q.number ≡ n
      → st ≡ ci_status_for_pr q rules all_runs all_contexts

  pass-Claim : no_gate ≡ true → (n : ℕ) → Claim n CiState.pass
  unfolding ci_status_for_pr
  pass-Claim e n q m s = rw e refl

  missing-Claim :
      no_gate ≡ false
      → (p : PullRequest) → Memᴰ p prs
      → is_empty p.head_sha ≡ true
      → Claim p.number CiState.missing
  unfolding ci_status_for_pr
  missing-Claim e p pm h q m s =
      let bare : is_empty q.head_sha ≡ true = ap is_empty (one q p m pm s) ∙ h in rw (e, bare) refl

  abbrev shas : List Text
  shas = map (λ g. g.0) (group_by_sha [] prs)

  abbrev named_runs : List CheckRun
  named_runs =
      keep (λ cr. matches_some required cr.name) (keep (λ cr. contains cr.head_sha shas) all_runs)

  abbrev named_contexts : List StatusContext
  named_contexts =
      keep (λ sc. matches_some required sc.name)
        (keep (λ sc. contains sc.head_sha shas) all_contexts)

  head_listed :
      (sha head : Text)
      → contains sha shas ≡ true
      → (head == sha) ≡ true
      → contains head shas ≡ true
  head_listed sha head listed e = ap (λ k. contains k shas) ((text_beq_iff head sha).0 e) ∙ listed

  sha-Claim :
      no_gate ≡ false
      → (sha : Text) (n : ℕ) → contains sha shas ≡ true
      → Sourced prs sha n
      → Claim n (status_of_sha required named_runs named_contexts Claim sha)
  unfolding ci_status_for_pr
  sha-Claim e sha n listed (p, pm, num, head, full) q m s =
      let same : q.head_sha ≡ sha = one q p m pm (s ∙ sym num) ∙ head in
      let runs_same =
        keep_through (λ cr. cr.head_sha == sha) (λ cr. matches_some required cr.name)
          (λ cr. contains cr.head_sha shas) all_runs (λ cr. head_listed sha cr.head_sha listed) in
      let contexts_same =
        keep_through (λ sc. sc.head_sha == sha) (λ sc. matches_some required sc.name)
          (λ sc. contains sc.head_sha shas) all_contexts
          (λ sc. head_listed sha sc.head_sha listed) in
      let of_sha : Text → CiState = λ k.
        evaluate_required_contexts required
          (keep (λ cr. matches_some required cr.name) (keep (λ cr. cr.head_sha == k) all_runs))
          (keep (λ sc. matches_some required sc.name)
            (keep (λ sc. sc.head_sha == k) all_contexts)) in
      let batch_side : status_of_sha required named_runs named_contexts Claim sha ≡ of_sha sha =
        rw (runs_same, contexts_same) refl in
      let bare : is_empty q.head_sha ≡ false = ap is_empty same ∙ full in
      let single_side : ci_status_for_pr q rules all_runs all_contexts ≡ of_sha q.head_sha =
        rw (e, bare) refl in
      batch_side ∙ sym (single_side ∙ ap of_sha same)

  groups-Claim :
      no_gate ≡ false
      → (groups : List (Text × List ℕ)) → All (λ g. contains g.0 shas ≡ true) groups
      → AllSourced prs groups
      → All
          (λ g. All (λ n. Claim n (status_of_sha required named_runs named_contexts Claim g.0)) g.1)
          groups
  groups-Claim e [] c a = tt
  groups-Claim e (g ∷ groups) c a = (
    All-map (Sourced prs g.0)
        (λ n. Claim n (status_of_sha required named_runs named_contexts Claim g.0)) g.1
        (λ n. sha-Claim e g.0 n c.0) a.0,
    groups-Claim e groups c.1 a.1,
  )

  no_sha-Claim :
      no_gate ≡ false
      → (ps : List PullRequest) → ((p : PullRequest) → Memᴰ p ps → Memᴰ p prs)
      → All (λ n. Claim n CiState.missing) (numbers_of (keep (λ p. is_empty p.head_sha) ps))
  unfolding keep
  no_sha-Claim e [] sub = tt
  no_sha-Claim e (p ∷ ps) sub =
      let rest = no_sha-Claim e ps (λ q m. sub q (Memᴰ.tail m)) in
      elim (Bool-cases (is_empty p.head_sha)) [
        | inl h ↦ rw h (missing-Claim e p (sub p (Memᴰ.head refl)) h, rest)
        | inr h ↦ rw h rest
      ]

  numbers-Claim :
      no_gate ≡ true → (ps : List PullRequest) → All (λ n. Claim n CiState.pass) (numbers_of ps)
  numbers-Claim e [] = tt
  numbers-Claim e (p ∷ ps) = (pass-Claim e p.number, numbers-Claim e ps)

-- Where a PR of a list is found.
numbers-has :
    (p : PullRequest) (ps : List PullRequest) → Memᴰ p ps → contains p.number (numbers_of ps) ≡ true
unfolding contains
numbers-has p [] m = elim m [ ]
numbers-has p (q ∷ ps) (Memᴰ.head e) =
    let same : p.number ≡ q.number = ap (λ x. x.number) e in ground arith
numbers-has p (q ∷ ps) (Memᴰ.tail m) = let rest = numbers-has p ps m in ground arith

placed :
    (p : PullRequest) (ps : List PullRequest)
    → Memᴰ p ps
    → (contains p.number (numbers_of (keep (λ q. is_empty q.head_sha) ps))
        || any (λ q. not (is_empty q.head_sha) && p.number == q.number) ps)
      ≡ true
unfolding contains any keep
placed p [] m = elim m [ ]
placed p (q ∷ ps) (Memᴰ.head e) =
    let same : p.number ≡ q.number = ap (λ x. x.number) e in
    elim (Bool-cases (is_empty q.head_sha)) [
      | inl h ↦ rw h (ground arith)
      | inr h ↦ rw h (ground arith)
    ]
placed p (q ∷ ps) (Memᴰ.tail m) =
    let rest = placed p ps m in
    elim (Bool-cases (is_empty q.head_sha)) [
      | inl h ↦ rw h (ground arith)
      | inr h ↦ rw h (ground arith)
    ]

-- What an entry is, if there is one and every entry has the claim.
found-claim :
    (claim : ℕ → CiState → Type 0) (n : ℕ) (result : Statuses)
    → Has n result
    → Entries claim result
    → (st : CiState) × (status_for n result ≡ some st) × claim n st
found-claim claim n result h es = elim (Option-cases (status_for n result)) [
  | inl e ↦ absurd (let bad = rw e at h in cc)
  | inr e ↦ (e.0, e.1, es n e.0 e.1)
]

nothing-claimed : (claim : ℕ → CiState → Type 0) → Entries claim []
unfolding status_for
nothing-claimed claim n st bad = absurd (cc)

placed-start :
    (p : PullRequest) (prs : List PullRequest)
    → Memᴰ p prs
    → (any (λ g. contains p.number g.1) (group_by_sha [] prs)
        || is_some (
            status_for p.number
              (put_all CiState.missing (numbers_of (keep (λ q. is_empty q.head_sha) prs)) [])))
      ≡ true
placed-start p prs m =
    let no_sha = numbers_of (keep (λ q. is_empty q.head_sha) prs) in
    let somewhere = placed p prs m in
    elim (Bool-cases (contains p.number no_sha)) [
      | inl h ↦ let put = put_all-Has p.number CiState.missing no_sha [] (rw h refl) in ground arith
      | inr h ↦
          let grouped = group_by_sha-has p.number prs [] (unfold any in (rw h at somewhere)) in
          ground arith
    ]

no_groups :
    (names : List Text) (runs : List CheckRun) (contexts : List StatusContext)
    (groups : List (Text × List ℕ)) (start : Statuses)
    → (if is_empty (map (λ g. g.0) groups)
        then start
        else put_groups names runs contexts groups start)
      ≡ put_groups names runs contexts groups start
unfolding put_groups
no_groups names runs contexts [] start = refl
no_groups names runs contexts (g ∷ groups) start = refl

-- Where PRs of one number have one head, the batch has a status for each PR of the list, and it is
-- the status that the PR has alone.
pub batch_ci_statuses_for_repo-single :
    (prs : List PullRequest) (rules : QueueRules) (all_runs : List CheckRun)
    (all_contexts : List StatusContext) (p : PullRequest)
    → OneHead prs
    → Memᴰ p prs
    → status_for p.number (batch_ci_statuses_for_repo prs rules all_runs all_contexts)
      ≡ some (ci_status_for_pr p rules all_runs all_contexts)
unfolding batch_ci_statuses_for_repo
batch_ci_statuses_for_repo-single prs rules all_runs all_contexts p one m =
    let claim = Claim prs rules all_runs all_contexts one in
    elim (Bool-cases (no_gate prs rules all_runs all_contexts one)) [
      | inl e ↦
          let result = put_all CiState.pass (numbers_of prs) [] in
          let (st, here, good) =
            found-claim claim p.number result
              (put_all-Has p.number CiState.pass (numbers_of prs) []
                (rw (numbers-has p prs m) refl))
              (put_all-Entries claim CiState.pass (numbers_of prs) []
                (numbers-Claim prs rules all_runs all_contexts one e prs)
                (nothing-claimed claim)) in
          rw e (here ∙ ap some (good p m refl))
      | inr e ↦
          let groups = group_by_sha [] prs in
          let no_sha = numbers_of (keep (λ q. is_empty q.head_sha) prs) in
          let start = put_all CiState.missing no_sha [] in
          let names = or_nil rules.required_ci_contexts in
          let runs = named_runs prs rules all_runs all_contexts one in
          let contexts = named_contexts prs rules all_runs all_contexts one in
          let (st, here, good) =
            found-claim claim p.number (put_groups names runs contexts groups start)
              (put_groups-Has names runs contexts claim p.number groups start
                (placed-start p prs m))
              (put_groups-Entries names runs contexts claim groups start
                (groups-Claim prs rules all_runs all_contexts one e groups (keys-listed groups)
                  (group_by_sha-Sourced prs prs [] (λ q k. k) tt))
                (put_all-Entries claim CiState.missing no_sha []
                  (no_sha-Claim prs rules all_runs all_contexts one e prs (λ q k. k))
                  (nothing-claimed claim))) in
          rw (e, no_groups names runs contexts groups start) (here ∙ ap some (good p m refl))
    ]
