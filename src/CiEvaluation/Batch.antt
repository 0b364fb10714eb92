-- ===== src/CiEvaluation/Batch.antt =====
-- The statuses of many PRs at once.
use queueboard_core.Prelude.{
  ℕ, not, ◌||◌, Option, none, some, List, [], ◌∷◌, ◌++◌, ◌==◌, nat_eq, if◌then◌else◌, is_empty,
  keep, map, contains,
}
use queueboard_core.Prelude.Text.{Text, text_eq}
use queueboard_core.QueueRules.Rules.{QueueRules, or_nil}
use queueboard_core.QueueWindows.Timeline.{PullRequest}
use queueboard_core.QueueWindows.Attribution.{CiState, CheckRun, StatusContext}
use queueboard_core.CiEvaluation.Required.{evaluate_required_contexts, matches_some}

-- The dictionary `result`, by PR number.
abbrev pub Statuses : Type 0
Statuses = List (ℕ × CiState)

unfoldable pub status_for : ℕ → Statuses → Option CiState
status_for n [] = none
status_for n ((m, st) ∷ result) = let rest = status_for n result in if m == n then some st else rest

unfoldable pub put_status : ℕ → CiState → Statuses → Statuses
put_status n st [] = (n, st) ∷ []
put_status n st ((m, old) ∷ result) =
    let rest = put_status n st result in if m == n then (n, st) ∷ result else (m, old) ∷ rest

unfoldable pub put_all : CiState → List ℕ → Statuses → Statuses
unfolding put_status
put_all st [] result = result
put_all st (n ∷ numbers) result = put_all st numbers (put_status n st result)

-- `sha_to_pr_numbers[sha].append(number)`
unfoldable pub append_number : Text → ℕ → List (Text × List ℕ) → List (Text × List ℕ)
append_number sha n [] = (sha, n ∷ []) ∷ []
append_number sha n ((key, numbers) ∷ groups) =
    let rest = append_number sha n groups in
    if key == sha then (key, numbers ++ n ∷ []) ∷ groups else (key, numbers) ∷ rest

unfoldable pub group_by_sha : List (Text × List ℕ) → List PullRequest → List (Text × List ℕ)
unfolding append_number
group_by_sha groups [] = groups
group_by_sha groups (pr ∷ prs) =
    group_by_sha
      (if is_empty pr.head_sha then groups else append_number pr.head_sha pr.number groups) prs

-- The loop over the groups. A list in a dictionary by SHA is the rows of that SHA.
unfoldable pub put_groups :
    List Text → List CheckRun → List StatusContext → List (Text × List ℕ) → Statuses → Statuses
unfolding put_all
put_groups required runs contexts [] result = result
put_groups required runs contexts ((sha, numbers) ∷ groups) result =
    put_groups required runs contexts groups (
      put_all
        (evaluate_required_contexts required (keep (λ cr. cr.head_sha == sha) runs)
          (keep (λ sc. sc.head_sha == sha) contexts))
        numbers result)

abbrev pub numbers_of : List PullRequest → List ℕ
numbers_of prs = map (λ pr. pr.number) prs

-- The rows are those of the repository.
unfoldable pub batch_ci_statuses_for_repo :
    List PullRequest → QueueRules → List CheckRun → List StatusContext → Statuses
unfolding group_by_sha put_groups put_all
batch_ci_statuses_for_repo prs rules all_runs all_contexts =
    let required = or_nil rules.required_ci_contexts in
    let groups = group_by_sha [] prs in
    let head_shas = map (λ g. g.0) groups in
    let no_sha = numbers_of (keep (λ pr. is_empty pr.head_sha) prs) in
    let start = put_all CiState.missing no_sha [] in
    let runs =
      keep (λ cr. matches_some required cr.name)
        (keep (λ cr. contains cr.head_sha head_shas) all_runs) in
    let contexts =
      keep (λ sc. matches_some required sc.name)
        (keep (λ sc. contains sc.head_sha head_shas) all_contexts) in
    if not rules.require_ci_success || is_empty required
    then put_all CiState.pass (numbers_of prs) []
    else if is_empty head_shas
    then start
    else put_groups required runs contexts groups start
