-- ===== src/QueueWindows/Statuses.antt =====
-- The newest CI states of `_queue_windows_with_rules`, by required context, for the PR and by head.
use queueboard_core.Prelude.{
  ℕ, Bool, true, false, not, ◌&&◌, ◌||◌, Option, none, some, List, [], ◌∷◌, ltb, ◌==◌, nat_eq,
  if◌then◌else◌, is_empty, keep, any, map, get_or,
}
use queueboard_core.Prelude.Text.{Text, text_eq, normalize, is_infix}
use queueboard_core.Prelude.Dict.{get, put, modify}
use queueboard_core.QueueWindows.Attribution.{
  CiState, CheckRun, StatusContext, check_run_state, status_context_state, is_fail,
}
use queueboard_core.QueueWindows.CiState.{state_of_flags}
use queueboard_core.QueueWindows.Rows.{ts_of}
use queueboard_core.CiEvaluation.Rows.{is_running}

-- `(ts, ci_state, source)`; `is_run` is that the source is "check_run".
pub record Dated : Type 0 where
  pub ts : ℕ
  pub ci_state : CiState
  pub is_run : Bool

-- By name.
abbrev pub Newest : Type 0
Newest = List (Text × Dated)

-- By required context.
abbrev pub ByContext : Type 0
ByContext = List (Text × Newest)

pub record Statuses : Type 0 where
  pub for_pr : ByContext
  pub by_head : List (Text × ByContext)

unfoldable pub supersedes : Dated → Option Dated → Bool
supersedes d none = true
supersedes d (some cur) = ltb cur.ts d.ts || (d.ts == cur.ts && d.is_run && not cur.is_run)

unfoldable pub merge_latest_for_ctx : Text → Dated → Newest → Newest
unfolding supersedes
merge_latest_for_ctx name d latest =
    if supersedes d (get name latest) then put name d latest else latest

unfoldable pub merge_matched : List Text → Text → Dated → ByContext → ByContext
unfolding merge_latest_for_ctx
merge_matched [] name d m = m
merge_matched (ctx ∷ matched) name d m =
    merge_matched matched name d (modify ctx (merge_latest_for_ctx name d) m)

-- `{ctx: {} for ctx in required_ci}`
abbrev pub no_statuses : List Text → ByContext
no_statuses required = map (λ ctx. (ctx, [])) required

unfoldable pub merge_head :
    List Text → List Text → Text → Dated → Text → List (Text × ByContext) → List (Text × ByContext)
unfolding merge_matched
merge_head required matched name d head by_head =
    if is_empty head
    then by_head
    else put head (merge_matched matched name d (get_or (get head by_head) (no_statuses required)))
        by_head

unfoldable pub apply_ci_snapshot :
    List Text → Text → Option ℕ → Text → CiState → Bool → Statuses → Statuses
unfolding merge_head merge_matched
apply_ci_snapshot required name none head state is_run m = m
apply_ci_snapshot required name (some t) head state is_run m =
    let matched = keep (λ ctx. is_infix ctx (normalize name)) required in
    let d : Dated = record { ts = t; ci_state = state; is_run = is_run } in
    if is_empty (normalize name) then m else if is_empty matched then m else record {
      for_pr = merge_matched matched (normalize name) d m.for_pr;
      by_head = merge_head required matched (normalize name) d head m.by_head;
    }

abbrev pub apply_run : List Text → CheckRun → Statuses → Statuses
apply_run required cr m =
    apply_ci_snapshot required cr.name (ts_of cr) cr.head_sha (check_run_state cr) true m

abbrev pub apply_context : List Text → StatusContext → Statuses → Statuses
apply_context required sc m =
    apply_ci_snapshot required sc.name (some sc.gh_created_at) sc.head_sha (status_context_state sc)
      false m

-- The loop over the required contexts, which ends at the first failure.
unfoldable pub combined_state : (Text → Newest) → Bool → Bool → List Text → CiState
combined_state statuses any_missing any_running [] = state_of_flags any_missing any_running
combined_state statuses any_missing any_running (ctx ∷ required) =
    let latest = statuses ctx in
    let if_missing = combined_state statuses true any_running required in
    let found =
      combined_state statuses any_missing
        (if any (λ (e : Text × Dated). is_running e.1.ci_state) latest then true else any_running)
        required in
    if is_empty latest
    then if_missing
    else if any (λ (e : Text × Dated). is_fail e.1.ci_state) latest
    then CiState.fail
    else found
