-- ===== src/ReviewerAssignment/Simulation.antt =====
-- `run_assignment_simulation`, without the trace.
use queueboard_core.Prelude.{
  length, ℕ, zero, suc, ◌+◌, Bool, Option, none, some, List, [], ◌∷◌, ◌++◌, if◌then◌else◌, map,
  erase, ◌==◌, nat_eq,
}
use queueboard_core.Prelude.Dict.{get, put}
use queueboard_core.Prelude.Text.{Text, text_eq}
use queueboard_core.ReviewerAssignment.Profiles.{
  Arithmetic, ReviewerProfile, PrEntry, Load, Loads, normalize_login, load_of,
}
use queueboard_core.ReviewerAssignment.Candidates.{Chooser, request_of, suggest_reviewer_for_pr}
use queueboard_core.ReviewerAssignment.Ranking.{
  AllPrs, Scorer, entry_of, excluded_for, rank_prs_for_assignment,
}

-- What a round changes.
pub record Run (W : Type 0) : Type 0 where
  pub reviewers : List ReviewerProfile
  pub loads : Loads W
  pub suggestions : List (ℕ × Text)

-- What no round changes: the inputs, the pattern of topic labels, and the random choice.
pub record Setting (W K : Type 0) : Type 0 where
  pub all_prs : AllPrs W
  pub excluded_by_pr : List (ℕ × List Text)
  pub fullmatch : Text → Bool
  pub choose : Chooser W
  pub scorer : Scorer W K
  pub key_less : K → K → Bool

unfoldable pub charge : Text → ReviewerProfile → ReviewerProfile
charge picked_norm reviewer =
    if normalize_login (some reviewer.github_login) == picked_norm
    then record reviewer { simulated_this_run = reviewer.simulated_this_run + 1 }
    else reviewer

module _ {W : Type 0} ⦃a : Arithmetic W⦄ where
  unfoldable pub add_pr : ℕ → Load W → Load W
  add_pr n load = record {
    open_prs = load.open_prs ++ n ∷ [];
    weight = a.add load.weight (a.of_nat 1);
    total = load.total + 1;
  }

  unfoldable pub take_pick : ℕ → Option Text → Run W → Run W
  unfolding charge add_pr
  take_pick n none run = run
  take_pick n (some login) run = record {
    reviewers = map (charge (normalize_login (some login))) run.reviewers;
    loads = put login (add_pr n (load_of (get login run.loads))) run.loads;
    suggestions = put n login run.suggestions;
  }

module _ {W K : Type 0} ⦃a : Arithmetic W⦄ where
  unfoldable pub take_entry : Setting W K → ℕ → ℕ → Option (PrEntry W) → Run W → Run W
  unfolding take_pick
  take_entry c round n none run = run
  take_entry c round n (some entry) run =
      take_pick n
        (suggest_reviewer_for_pr c.choose round
          (request_of c.fullmatch (excluded_for n c.excluded_by_pr) entry) run.reviewers
          run.loads).suggested
        run

  unfoldable pub take_pr : Setting W K → ℕ → ℕ → Run W → Run W
  unfolding take_entry
  take_pr c round n run = take_entry c round n (entry_of n c.all_prs) run

  abbrev pub ranking : Setting W K → Run W → List ℕ → List ℕ
  ranking c run prs =
      rank_prs_for_assignment c.key_less c.scorer c.all_prs run.reviewers run.loads c.excluded_by_pr
        prs

  -- `while remaining_prs`, of which each turn removes one. `none` is `ordered_prs[0]` of an empty list.
  unfoldable pub rounds : ℕ → Setting W K → ℕ → List ℕ → Run W → Option (Run W)
  unfolding take_pr
  rounds fuel c round [] run = some run
  rounds zero c round (p ∷ ps) run = none
  rounds (suc fuel) c round (p ∷ ps) run = elim (ranking c run (p ∷ ps)) [
    | [] ↦ none
    | n ∷ _ ↦ rounds fuel c (round + 1) (erase n (p ∷ ps)) (take_pr c round n run)
  ]

  unfoldable pub run_assignment_simulation :
      Setting W K → List ReviewerProfile → Loads W → List ℕ → Option (Run W)
  unfolding rounds
  run_assignment_simulation c reviewers loads prs =
      rounds (length prs) c 0 prs
        (record { reviewers = reviewers; loads = loads; suggestions = [] })
