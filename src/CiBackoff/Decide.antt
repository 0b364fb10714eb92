-- ===== src/CiBackoff/Decide.antt =====
-- The decision to fetch, from the stored state of a SHA and the settings.
use queueboard_core.Prelude.{
  ℕ, ◌+◌, ◌*◌, Bool, true, false, not, ◌&&◌, Option, none, some, List, [], ◌∷◌, ltb, leb, ◌==◌,
  if◌then◌else◌, contains, is_empty,
}
use queueboard_core.Prelude.Text.{Text, text_eq, codes}

-- The settings with the prefix `SYNCER_CI_SHA_`. None is below 0 in a sensible deployment.
pub record Settings : Type 0 where
  pub settle_window_seconds : ℕ
  pub hard_cap_days : ℕ
  pub min_attempts_terminal : ℕ
  pub backoff_empty_seconds : ℕ
  pub backoff_error_seconds : ℕ

-- A row of `CIShaFetchState`.
pub record CiShaFetchState : Type 0 where
  pub sha : Text
  pub last_result : Text
  pub attempts : ℕ
  pub created_at : ℕ
  pub last_attempted_at : ℕ
  pub last_success_at : Option ℕ

abbrev pub second : ℕ
second = 1000000

abbrev pub day : ℕ
day = 86400000000

-- `now - ts >= d`, where `now` may be before `ts`.
abbrev pub has_passed : ℕ → ℕ → ℕ → Bool
has_passed now ts d = leb (ts + d) now

abbrev pub is_capped : Settings → ℕ → Option ℕ → Bool
is_capped settings now none = false
is_capped settings now (some updated) =
    ltb 0 settings.hard_cap_days && has_passed now updated (settings.hard_cap_days * day)

-- Created rows have `created_at`, so `last_attempted_at` is not looked at.
unfoldable pub is_ci_sha_settled : Settings → ℕ → Option ℕ → CiShaFetchState → Bool
is_ci_sha_settled settings now gh_updated_at state =
    if is_capped settings now gh_updated_at
    then true
    else if leb settings.settle_window_seconds 0
    then false
    else has_passed now state.created_at (settings.settle_window_seconds * second)

abbrev pub terminal_results : List Text
terminal_results = codes "empty" ∷ codes "filtered" ∷ codes "not_found" ∷ []

unfoldable pub should_enqueue_state : Settings → ℕ → Option ℕ → CiShaFetchState → Bool
unfolding is_ci_sha_settled
should_enqueue_state settings now gh_updated_at state =
    let last = state.last_result in
    if contains last terminal_results && ltb state.attempts settings.min_attempts_terminal
    then true
    else if contains last (codes "not_found" ∷ codes "filtered" ∷ [])
    then not (is_ci_sha_settled settings now gh_updated_at state)
    else if last == codes "skipped_association"
    then true
    else if last == codes "empty"
    then if is_ci_sha_settled settings now gh_updated_at state
      then false
      else has_passed now state.last_attempted_at (settings.backoff_empty_seconds * second)
    else if last == codes "error"
    then has_passed now state.last_attempted_at (settings.backoff_error_seconds * second)
    else true

unfoldable pub should_enqueue_ci_sha_with_state :
    Settings → ℕ → Option ℕ → Text → Option CiShaFetchState → Bool
unfolding should_enqueue_state
should_enqueue_ci_sha_with_state settings now gh_updated_at sha none = not (is_empty sha)
should_enqueue_ci_sha_with_state settings now gh_updated_at sha (some state) =
    if is_empty sha then false else should_enqueue_state settings now gh_updated_at state

-- `CIShaFetchState.objects.filter(repository=..., sha=sha).first()`
unfoldable pub find_state : Text → List CiShaFetchState → Option CiShaFetchState
find_state sha [] = none
find_state sha (s ∷ states) =
    let rest = find_state sha states in if s.sha == sha then some s else rest

unfoldable pub should_enqueue_ci_sha : Settings → ℕ → Option ℕ → List CiShaFetchState → Text → Bool
unfolding should_enqueue_ci_sha_with_state find_state
should_enqueue_ci_sha settings now gh_updated_at states sha =
    should_enqueue_ci_sha_with_state settings now gh_updated_at sha (find_state sha states)
