-- ===== src/Revisions/Tests.antt =====
-- Revision windows on concrete heads and pushes.
use queueboard_core.Prelude.{
  arith, ℕ, ◌+◌, ◌≤◌, ◌<◌, ◌≡◌, ◌⊎◌, refl, true, false, Option, none, some, List, [], ◌∷◌, All,
  is_empty,
}
use queueboard_core.Prelude.Text.{codes, strip}
use queueboard_core.Revisions.Windows.{Window, normalize_windows, revisions_need_recontiguation}
use queueboard_core.Revisions.Normal.{normalize_windows_sound, normalize_windows_same}
use queueboard_core.Revisions.Heads.{
  Head, ForcePush, build_ci_head_windows, build_force_push_head_windows, current_head_change_ts,
  last_sha, ends_with, ensure_current_head_window,
}
use queueboard_core.Prelude.Sorting.{sorted}
use queueboard_core.Revisions.Heads.{seen_before}
use queueboard_core.Revisions.Meeting.{Meets}
use queueboard_core.Revisions.Shown.{shown_at, seen_at, first_head}
use queueboard_core.Revisions.Pushed.{head_in, segment_at}
use queueboard_core.Prelude.{keep}
use queueboard_core.Prelude.Text
use queueboard_core.Revisions.Contiguous.{
  build_ci_head_windows-Meets, build_force_push_head_windows-Meets,
}
use queueboard_core.Revisions.Current.{
  current_head_change_ts-bounds, ensure_current_head_window-tracks,
}
use queueboard_core.Revisions.Dirty.{BuildState, Covers, mark_all, mark_all-Covers}

abbrev window : ℕ → Option ℕ → Window
window from_ts to_ts = record { from_ts = from_ts; sha = codes "abc"; to_ts = to_ts }

abbrev broken : List Window
broken = window 30 none ∷ window 10 (some 20) ∷ window 10 (some 5) ∷ []

normalize_windows_sound_example : revisions_need_recontiguation (normalize_windows broken) ≡ false
normalize_windows_sound_example = normalize_windows_sound broken

abbrev whole : List Window
whole = window 10 (some 20) ∷ window 20 none ∷ []

normalize_windows_same_example : normalize_windows whole ≡ whole
unfolding revisions_need_recontiguation
normalize_windows_same_example = normalize_windows_same whole refl

abbrev seen : List Head
seen =
    record { sha = codes "b"; ts = 15 }
    ∷ record { sha = codes "a"; ts = 5 }
    ∷ record { sha = codes "c"; ts = 12 }
    ∷ []

build_ci_head_windows-Meets_example :
    Meets 10 (build_ci_head_windows 10 seen) none
    × (shown_at 13 [] (build_ci_head_windows 10 seen)
        ≡ seen_at 13 (first_head [] (sorted seen_before seen)) (sorted seen_before seen))
build_ci_head_windows-Meets_example = build_ci_head_windows-Meets 10 13 [] seen refl (ground arith)

abbrev early_push : ForcePush
early_push = record { occurred_at = 8; before_sha = none; after_sha = some (codes "a") }

abbrev late_push : ForcePush
late_push = record { occurred_at = 14; before_sha = some (codes "a"); after_sha = some (codes "b") }

build_force_push_head_windows-Meets_example :
    Meets 10 (build_force_push_head_windows 10 (early_push ∷ late_push ∷ []) seen) none
    × (shown_at 13 [] (build_force_push_head_windows 10 (early_push ∷ late_push ∷ []) seen)
        ≡ head_in 13 seen (segment_at 13 10 10 [] (early_push ∷ late_push ∷ [])))
build_force_push_head_windows-Meets_example =
    build_force_push_head_windows-Meets 10 13 [] early_push (late_push ∷ []) seen
      ((refl, tt), (tt, tt)) (ground arith)

head_at_13 : head_in 13 seen (segment_at 13 10 10 [] (early_push ∷ late_push ∷ [])) ≡ codes "c"
unfolding segment_at seen_at sorted keep Text.text_beq
head_at_13 = refl

current_head_change_ts-bounds_example :
    (20 < current_head_change_ts 100 (some 15) 20 (some 20))
    × ((current_head_change_ts 100 (some 15) 20 (some 20) ≤ 100)
        ⊎ (current_head_change_ts 100 (some 15) 20 (some 20) ≡ 20 + 1000000))
current_head_change_ts-bounds_example = current_head_change_ts-bounds 100 (some 15) 20 (some 20)

head_named : is_empty (strip (codes "abd")) ≡ false
unfolding strip
head_named = refl

ensure_current_head_window-tracks_example :
    (ends_with
        (last_sha (ensure_current_head_window 100 10 (some 30) (codes "abd") [] whole))
        (strip (codes "abd"))
      ≡ true)
    × (Meets 10 whole none
        → Meets 10 (ensure_current_head_window 100 10 (some 30) (codes "abd") [] whole) none)
ensure_current_head_window-tracks_example =
    ensure_current_head_window-tracks 100 10 (some 30) (codes "abd") [] whole head_named

abbrev built : BuildState
built = record { built_through_ts = some 50; dirty_from_ts = none }

mark_all-Covers_example :
    All (Covers (mark_all (some 40 ∷ none ∷ some 30 ∷ []) built)) (some 40 ∷ none ∷ some 30 ∷ [])
mark_all-Covers_example = mark_all-Covers (some 40 ∷ none ∷ some 30 ∷ []) built
