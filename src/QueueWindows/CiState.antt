-- ===== src/QueueWindows/CiState.antt =====
-- The CI state of a PR at a time, and whether the PR was on the queue then.
use queueboard_core.Prelude.{
  ℕ, Bool, true, false, not, ◌&&◌, ◌||◌, Option, none, some, List, [], ◌∷◌, ltb, leb, ◌==◌, nat_eq,
  if◌then◌else◌, keep, any, head?, is_empty,
}
use queueboard_core.Prelude.Text.{Text, text_eq, lower, normalize, is_infix}
use queueboard_core.Prelude.Sorting.{sorted}
use queueboard_core.QueueRules.Rules.{QueueRules, QueueRuleSet, or_nil}
use queueboard_core.QueueRules.Select.{load_rules_for_repo}
use queueboard_core.QueueWindows.Timeline.{PullRequest, state_at_time, on_queue}
use queueboard_core.QueueWindows.Attribution.{
  CiState, CheckRun, StatusContext, check_run_state, status_context_state, ci_state_is_eligible,
  is_fail,
}
use queueboard_core.CiEvaluation.Rows.{Latest, take_seen, or_else, is_running}

-- A row of `PRRevision`.
pub record Revision : Type 0 where
  pub id : ℕ
  pub seq : ℕ
  pub head_sha : Text
  pub from_ts : ℕ
  pub to_ts : Option ℕ

-- `order_by("-from_ts", "-seq", "-id")`
abbrev pub starts_later : Revision → Revision → Bool
starts_later a b =
    ltb b.from_ts a.from_ts
    || (a.from_ts == b.from_ts && (ltb b.seq a.seq || (a.seq == b.seq && leb b.id a.id)))

-- `sha or None`
abbrev pub or_no_sha : Text → Option Text
or_no_sha sha = if is_empty sha then none else some sha

abbrev pub ended_by : Option ℕ → ℕ → Bool
ended_by none at = false
ended_by (some end) at = leb end at

abbrev pub head_of : Option Revision → ℕ → Option Text
head_of none at = none
head_of (some rev) at = if ended_by rev.to_ts at then none else or_no_sha rev.head_sha

unfoldable pub head_sha_at_time : List Revision → ℕ → Option Text × Bool
head_sha_at_time [] at = (none, false)
head_sha_at_time (r ∷ revisions) at =
    (head_of (head? (sorted starts_later (keep (λ v. leb v.from_ts at) (r ∷ revisions)))) at, true)

unfoldable pub merge_latest_ci_status : Latest → Text → Option ℕ → CiState → Latest
merge_latest_ci_status latest name none ci_state = latest
merge_latest_ci_status latest name (some ts) ci_state =
    if is_empty name || is_empty (normalize name)
    then latest
    else take_seen latest (record { key = normalize name; ts = ts; status = ci_state })

-- `gh_completed_at <= at`, or no completion and `gh_started_at <= at`
abbrev pub is_by : ℕ → Option ℕ → Bool
is_by at none = false
is_by at (some t) = leb t at

abbrev pub run_by : ℕ → CheckRun → Bool
run_by at cr = is_by at (or_else cr.gh_completed_at cr.gh_started_at)

abbrev pub context_by : ℕ → StatusContext → Bool
context_by at sc = leb sc.gh_created_at at

unfoldable pub merge_runs : Latest → List CheckRun → Latest
unfolding merge_latest_ci_status
merge_runs latest [] = latest
merge_runs latest (cr ∷ runs) =
    merge_runs
      (merge_latest_ci_status latest cr.name (or_else cr.gh_completed_at cr.gh_started_at)
        (check_run_state cr))
      runs

unfoldable pub merge_contexts : Latest → List StatusContext → Latest
unfolding merge_latest_ci_status
merge_contexts latest [] = latest
merge_contexts latest (sc ∷ contexts) =
    merge_contexts
      (merge_latest_ci_status latest sc.name (some sc.gh_created_at) (status_context_state sc))
      contexts

-- `head_sha or pr.head_sha`
abbrev pub head_or : Option Text → Text → Text
head_or none sha = sha
head_or (some head) sha = if is_empty head then sha else head

-- The rows are those of the repository.
unfoldable pub latest_ci_statuses_for_fragment :
    PullRequest → List CheckRun → List StatusContext → Text → ℕ → Option Text → Latest
unfolding merge_runs merge_contexts
latest_ci_statuses_for_fragment pr runs contexts required_fragment at head_sha =
    let fragment = normalize required_fragment in
    let head = head_or head_sha pr.head_sha in
    if is_empty fragment || is_empty head
    then []
    else merge_contexts
        (merge_runs [] (
          keep (λ cr. (cr.head_sha == head && is_infix fragment (lower cr.name)) && run_by at cr)
            runs))
        (keep (λ sc. (sc.head_sha == head && is_infix fragment (lower sc.name)) && context_by at sc)
          contexts)

-- The end of `_ci_required_contexts_state`.
abbrev pub state_of_flags : Bool → Bool → CiState
state_of_flags any_missing any_running =
    if any_missing then CiState.missing else if any_running then CiState.running else CiState.pass

-- The loop over the required contexts, which ends at the first failure.
unfoldable pub contexts_state : (Text → Latest) → Bool → Bool → List Text → CiState
contexts_state statuses any_missing any_running [] = state_of_flags any_missing any_running
contexts_state statuses any_missing any_running (ctx ∷ required) =
    let latest = statuses (normalize ctx) in
    let missing = contexts_state statuses true any_running required in
    let found =
      contexts_state statuses any_missing
        (if any (λ s. is_running s.status) latest then true else any_running) required in
    if is_empty latest
    then missing
    else if any (λ s. is_fail s.status) latest
    then CiState.fail
    else found

-- The head to look at: `none` for revisions without a head at the time.
abbrev pub head_to_check : PullRequest → Option Text × Bool → Option (Option Text)
head_to_check pr (some head, has_revisions) = some (some head)
head_to_check pr (none, true) = none
head_to_check pr (none, false) = some (or_no_sha pr.head_sha)

abbrev pub state_of_head :
    PullRequest
    → List CheckRun
    → List StatusContext
    → List Text
    → ℕ
    → Option (Option Text)
    → CiState
state_of_head pr runs contexts required at none = CiState.missing
state_of_head pr runs contexts required at (some head) =
    contexts_state (λ ctx. latest_ci_statuses_for_fragment pr runs contexts ctx at head) false false
      required

unfoldable pub ci_required_contexts_state :
    PullRequest → List Revision → List CheckRun → List StatusContext → QueueRules → ℕ → CiState
unfolding head_sha_at_time
ci_required_contexts_state pr revisions runs contexts rules at =
    let required = or_nil rules.required_ci_contexts in
    if not rules.require_ci_success
    then CiState.pass
    else if is_empty required
    then CiState.pass
    else state_of_head pr runs contexts required at
        (head_to_check pr (head_sha_at_time revisions at))

unfoldable pub is_on_queue_at :
    List QueueRuleSet → PullRequest → List Revision → List CheckRun → List StatusContext → ℕ → Bool
is_on_queue_at rows pr revisions runs contexts at =
    let rules = load_rules_for_repo rows (some at) in
    on_queue rules
      (some (
        ci_state_is_eligible rules
          (ci_required_contexts_state pr revisions runs contexts rules at)))
      (state_at_time pr at)
