-- ===== src/CiEvaluation/Rows.antt =====
-- The status of a row, and the newest status of every name.
use queueboard_core.Prelude.{
  ℕ, Bool, true, false, ◌&&◌, Option, none, some, List, [], ◌∷◌, ltb, ◌==◌, if◌then◌else◌, contains,
  is_empty, any,
}
use queueboard_core.Prelude.Text.{Text, text_eq, codes, upper, lower}
use queueboard_core.QueueWindows.Attribution.{CiState, CheckRun, StatusContext, is_one_of, is_fail}

abbrev pub pending_statuses : List Text
pending_statuses = codes "IN_PROGRESS" ∷ codes "QUEUED" ∷ codes "PENDING" ∷ []

abbrev pub good_conclusions : List Text
good_conclusions = codes "SUCCESS" ∷ codes "NEUTRAL" ∷ codes "SKIPPED" ∷ []

abbrev pub bad_conclusions : List Text
bad_conclusions = codes "FAILURE" ∷ codes "CANCELLED" ∷ codes "TIMED_OUT" ∷ []

abbrev upper_option : Option Text → Option Text
upper_option none = none
upper_option (some s) = some (upper s)

abbrev is_none {ℓ} : {A : Type ℓ} → Option A → Bool
is_none none = true
is_none (some a) = false

unfoldable pub check_run_ci_status : CheckRun → CiState
check_run_ci_status cr =
    let status = upper cr.status in
    let conclusion = upper_option cr.conclusion in
    if contains status pending_statuses
    then CiState.running
    else if is_one_of conclusion good_conclusions
    then CiState.pass
    else if is_one_of conclusion bad_conclusions
    then CiState.fail
    else if is_none conclusion && status == codes "COMPLETED"
    then CiState.fail
    else CiState.running

unfoldable pub status_context_ci_status : StatusContext → CiState
status_context_ci_status sc =
    if sc.state == codes "SUCCESS"
    then CiState.pass
    else if sc.state == codes "PENDING"
    then CiState.running
    else if contains sc.state (codes "FAILURE" ∷ codes "ERROR" ∷ [])
    then CiState.fail
    else CiState.running

-- What a row has to say: its key, its time and its status.
pub record Seen : Type 0 where
  pub key : Text
  pub ts : ℕ
  pub status : CiState

abbrev pub seen_run : CheckRun → ℕ → Seen
seen_run cr ts = record { key = lower cr.name; ts = ts; status = check_run_ci_status cr }

abbrev pub seen_context : StatusContext → Seen
seen_context sc = record {
  key = lower sc.name;
  ts = sc.gh_created_at;
  status = status_context_ci_status sc;
}

-- The dictionary `latest`.
abbrev pub Latest : Type 0
Latest = List Seen

unfoldable pub get : Text → Latest → Option Seen
get key [] = none
get key (e ∷ latest) = let rest = get key latest in if e.key == key then some e else rest

-- `latest[key] = (ts, s)`
unfoldable pub set : Seen → Latest → Latest
set s [] = s ∷ []
set s (e ∷ latest) = let rest = set s latest in if e.key == s.key then s ∷ latest else e ∷ rest

-- `current is None or ts > current[0]`
abbrev pub is_newer : Seen → Option Seen → Bool
is_newer s none = true
is_newer s (some current) = ltb current.ts s.ts

unfoldable pub take_seen : Latest → Seen → Latest
take_seen latest s = if is_newer s (get s.key latest) then set s latest else latest

-- `gh_completed_at or gh_started_at`
abbrev pub or_else {ℓ} : {A : Type ℓ} → Option A → Option A → Option A
or_else (some a) b = some a
or_else none b = b

unfoldable pub take_check_run : Latest → CheckRun → Latest
take_check_run latest cr = elim (or_else cr.gh_completed_at cr.gh_started_at) [
  | none ↦ latest
  | some ts ↦ if is_empty cr.name then latest else take_seen latest (seen_run cr ts)
]

unfoldable pub take_status_context : Latest → StatusContext → Latest
take_status_context latest sc =
    if is_empty sc.name then latest else take_seen latest (seen_context sc)

unfoldable pub take_check_runs : Latest → List CheckRun → Latest
take_check_runs latest [] = latest
take_check_runs latest (cr ∷ check_runs) = take_check_runs (take_check_run latest cr) check_runs

unfoldable pub take_status_contexts : Latest → List StatusContext → Latest
take_status_contexts latest [] = latest
take_status_contexts latest (sc ∷ status_contexts) =
    take_status_contexts (take_status_context latest sc) status_contexts

abbrev pub is_running : CiState → Bool
is_running CiState.running = true
is_running _ = false

-- The end of `context_aggregate_status`, on `latest`.
unfoldable pub status_of_latest : Latest → CiState
status_of_latest latest =
    if is_empty latest
    then CiState.missing
    else if any (λ e. is_fail e.status) latest
    then CiState.fail
    else if any (λ e. is_running e.status) latest
    then CiState.running
    else CiState.pass

unfoldable pub context_aggregate_status : List CheckRun → List StatusContext → CiState
context_aggregate_status check_runs status_contexts =
    status_of_latest (take_status_contexts (take_check_runs [] check_runs) status_contexts)
