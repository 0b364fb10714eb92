-- ===== src/CiBackoff/Store.antt =====
-- The stored states of a repository: what a fetch records, what a reset deletes, and the partition
-- of a list of SHAs.
use queueboard_core.Prelude.{
  ℕ, ◌+◌, Bool, not, ◌&&◌, ◌||◌, Option, none, some, List, [], ◌∷◌, ◌++◌, ◌==◌, if◌then◌else◌,
  contains, is_empty, keep, length,
}
use queueboard_core.Prelude.Text.{Text, text_eq, codes, strip, or_empty}
use queueboard_core.CiBackoff.Decide.{Settings, CiShaFetchState, should_enqueue_ci_sha}

abbrev pub ok : Text
ok = codes "ok"

-- The row that a first fetch creates. The database sets `created_at` from its own clock.
unfoldable pub first_state : ℕ → ℕ → Text → Text → CiShaFetchState
first_state clock now sha result = record {
  sha = sha;
  last_result = result;
  attempts = 1;
  created_at = clock;
  last_attempted_at = now;
  last_success_at = if result == ok then some now else none;
}

-- A later fetch. A success is not forgotten.
unfoldable pub next_state : ℕ → Text → CiShaFetchState → CiShaFetchState
next_state now result state = record state {
  attempts = state.attempts + 1;
  last_attempted_at = now;
  last_result = if state.last_result == ok && not (result == ok) then state.last_result else result;
  last_success_at = if result == ok then some now else state.last_success_at;
}

-- `get_or_create`, and the update of a row that was there.
unfoldable pub put_state : ℕ → ℕ → Text → Text → List CiShaFetchState → List CiShaFetchState
unfolding first_state next_state
put_state clock now sha result [] = first_state clock now sha result ∷ []
put_state clock now sha result (s ∷ states) =
    let rest = put_state clock now sha result states in
    if s.sha == sha then next_state now result s ∷ states else s ∷ rest

unfoldable pub record_ci_sha_fetch :
    ℕ → ℕ → Text → Text → List CiShaFetchState → List CiShaFetchState
unfolding put_state
record_ci_sha_fetch clock now sha result states =
    if is_empty sha then states else put_state clock now sha result states

-- `(raw or "").strip()`
abbrev pub sha_of : Option Text → Text
sha_of raw = strip (or_empty raw)

pub record Filtered : Type 0 where
  pub allowed : List Text
  pub blocked : List Text
  pub seen : List Text

abbrev pub nothing_seen : Filtered
nothing_seen = record { allowed = []; blocked = []; seen = [] }

-- One turn of the loop, by the test of a SHA.
unfoldable pub filter_sha : (Text → Bool) → Filtered → Option Text → Filtered
filter_sha test f raw =
    let sha = sha_of raw in
    if is_empty sha || contains sha f.seen
    then f
    else if test sha
    then record f { allowed = f.allowed ++ sha ∷ []; seen = sha ∷ f.seen }
    else record f { blocked = f.blocked ++ sha ∷ []; seen = sha ∷ f.seen }

unfoldable pub filter_shas : (Text → Bool) → Filtered → List (Option Text) → Filtered
unfolding filter_sha
filter_shas test f [] = f
filter_shas test f (raw ∷ shas) = filter_shas test (filter_sha test f raw) shas

unfoldable pub filter_ci_shas_for_enqueue :
    Settings
    → ℕ
    → Option ℕ
    → List CiShaFetchState
    → List (Option Text)
    → Bool
    → List Text × List Text
unfolding filter_shas
filter_ci_shas_for_enqueue settings now gh_updated_at states shas override_backoff =
    let f =
      filter_shas
        (λ sha. override_backoff || should_enqueue_ci_sha settings now gh_updated_at states sha)
        nothing_seen shas in
    (f.allowed, f.blocked)

-- The distinct SHAs of the list, in order.
unfoldable pub normalized_shas : List Text → List (Option Text) → List Text
normalized_shas seen [] = []
normalized_shas seen (raw ∷ shas) =
    let sha = sha_of raw in
    let skipped = normalized_shas seen shas in
    let taken = sha ∷ normalized_shas (sha ∷ seen) shas in
    if is_empty sha || contains sha seen then skipped else taken

-- The rows that are left, and how many were deleted.
unfoldable pub reset_ci_sha_fetch_state :
    List (Option Text) → List CiShaFetchState → List CiShaFetchState × ℕ
unfolding normalized_shas
reset_ci_sha_fetch_state shas states =
    let normalized = normalized_shas [] shas in
    (
      keep (λ s. not (contains s.sha normalized)) states,
      length (keep (λ s. contains s.sha normalized) states),
    )
