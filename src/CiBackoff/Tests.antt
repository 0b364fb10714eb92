-- ===== src/CiBackoff/Tests.antt =====
-- The backoff on one stored state.
use queueboard_core.Prelude.{
  ◌≡◌, refl, true, false, not, ◌&&◌, ◌||◌, Option, none, some, List, [], ◌∷◌, contains,
}
use queueboard_core.Prelude.Text
use queueboard_core.Prelude.Text.{Text, codes, text_eq}
use queueboard_core.CiBackoff.Decide.{Settings, CiShaFetchState, should_enqueue_ci_sha, find_state}
use queueboard_core.CiBackoff.Store.{ok, filter_ci_shas_for_enqueue}
use queueboard_core.CiBackoff.Recorded.{Fetch, record_all, is_ok, record_all-never_blocked}
use queueboard_core.CiBackoff.Partition.{names, filter_ci_shas_for_enqueue-partition}

abbrev settings : Settings
settings = record {
  settle_window_seconds = 3600;
  hard_cap_days = 30;
  min_attempts_terminal = 3;
  backoff_empty_seconds = 300;
  backoff_error_seconds = 300;
}

abbrev fetched : CiShaFetchState
fetched = record {
  sha = codes "abc";
  last_result = ok;
  attempts = 1;
  created_at = 5;
  last_attempted_at = 5;
  last_success_at = some 5;
}

abbrev failing : List Fetch
failing =
    record { clock = 7; now = 7; sha = codes "abc"; result = codes "error" }
    ∷ record { clock = 8; now = 8; sha = codes "abd"; result = codes "empty" }
    ∷ []

fetched_ok : is_ok (find_state (codes "abc") (fetched ∷ [])) ≡ true
unfolding find_state Text.text_beq
fetched_ok = refl

record_all-never_blocked_example :
    should_enqueue_ci_sha settings 9 (some 8) (record_all failing (fetched ∷ [])) (codes "abc")
    ≡ true
record_all-never_blocked_example =
    record_all-never_blocked settings 9 (some 8) (codes "abc") failing (fetched ∷ []) refl
      fetched_ok

not_fetched : is_ok (find_state (codes "abd") (fetched ∷ [])) ≡ false
unfolding find_state Text.text_beq
not_fetched = refl

abbrev listed : List (Option Text)
listed = some (codes " abc") ∷ none ∷ some (codes "abc") ∷ some (codes "abd") ∷ []

filter_ci_shas_for_enqueue-partition_example :
    (contains
        (codes "abc")
        (filter_ci_shas_for_enqueue settings 9 none (fetched ∷ []) listed false).0
      ≡ (names listed (codes "abc")
          && (false || should_enqueue_ci_sha settings 9 none (fetched ∷ []) (codes "abc"))))
    × (contains
          (codes "abc")
          (filter_ci_shas_for_enqueue settings 9 none (fetched ∷ []) listed false).1
        ≡ (names listed (codes "abc")
            && not (false || should_enqueue_ci_sha settings 9 none (fetched ∷ []) (codes "abc"))))
filter_ci_shas_for_enqueue-partition_example =
    filter_ci_shas_for_enqueue-partition settings 9 none (fetched ∷ []) listed false (codes "abc")
