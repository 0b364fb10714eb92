-- ===== src/QueueWindows/NewestAt.antt =====
-- The CI state at a time, by the newest row of every name.
use queueboard_core.Prelude.{
  ℕ, Bool, ◌&&◌, ◌||◌, Option, none, some, List, [], ◌∷◌, ◌==◌, if◌then◌else◌, keep, any, is_empty,
}
use queueboard_core.Prelude.Text.{Text, text_eq, normalize, is_infix, lower}
use queueboard_core.QueueRules.Rules.{QueueRules}
use queueboard_core.QueueWindows.Timeline.{PullRequest}
use queueboard_core.QueueWindows.Attribution.{
  CiState, CheckRun, StatusContext, check_run_state, status_context_state, is_fail,
}
use queueboard_core.QueueWindows.CiState.{run_by, context_by, head_or}
use queueboard_core.CiEvaluation.Rows.{Seen, is_running, or_else}
use queueboard_core.CiEvaluation.Newest.{newest_is}

-- What a row says under its trimmed lower-case name; nothing where that name is empty, or the
-- row has no time.
abbrev pub named_row : Text → Option ℕ → CiState → List Seen → List Seen
named_row name none status rest = rest
named_row name (some ts) status rest =
    if is_empty name || is_empty (normalize name)
    then rest
    else record { key = normalize name; ts = ts; status = status } ∷ rest

pub rows_of_runs : List CheckRun → List Seen → List Seen
rows_of_runs [] rest = rest
rows_of_runs (cr ∷ runs) rest =
    named_row cr.name (or_else cr.gh_completed_at cr.gh_started_at) (check_run_state cr)
      (rows_of_runs runs rest)

pub rows_of_contexts : List StatusContext → List Seen
rows_of_contexts [] = []
rows_of_contexts (sc ∷ contexts) =
    named_row sc.name (some sc.gh_created_at) (status_context_state sc) (rows_of_contexts contexts)

-- The rows of a required context at a time: those of the head whose name contains the context's
-- and whose time is not after it.
unfoldable pub rows_at :
    PullRequest → List CheckRun → List StatusContext → ℕ → Option Text → Text → List Seen
rows_at pr runs contexts at head ctx =
    let fragment = normalize (normalize ctx) in
    let sha = head_or head pr.head_sha in
    if is_empty fragment || is_empty sha
    then []
    else rows_of_runs
        (keep (λ cr. (cr.head_sha == sha && is_infix fragment (lower cr.name)) && run_by at cr)
          runs)
        (rows_of_contexts (
          keep (λ sc. (sc.head_sha == sha && is_infix fragment (lower sc.name)) && context_by at sc)
            contexts))

-- Some context has a name whose newest row passes the test.
abbrev pub some_newest : (CiState → Bool) → (Text → List Seen) → List Text → Bool
some_newest test rows required =
    any (λ ctx. any (λ r. newest_is test r.key (rows ctx)) (rows ctx)) required

-- The verdict on the required contexts, by their rows.
abbrev pub verdict : (Text → List Seen) → List Text → CiState
verdict rows required =
    if some_newest is_fail rows required
    then CiState.fail
    else if any (λ ctx. is_empty (rows ctx)) required
    then CiState.missing
    else if some_newest is_running rows required
    then CiState.running
    else CiState.pass

-- The same of the head that the revisions give; without one the CI is missing.
abbrev pub head_verdict :
    PullRequest
    → List CheckRun
    → List StatusContext
    → List Text
    → ℕ
    → Option (Option Text)
    → CiState
head_verdict pr runs contexts required at none = CiState.missing
head_verdict pr runs contexts required at (some head) =
    verdict (rows_at pr runs contexts at head) required
