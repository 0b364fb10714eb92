-- ===== src/Revisions/Heads.antt =====
-- The head windows that CI rows and force pushes give, and the window of the current head.
use queueboard_core.Prelude.{
  ℕ, ◌+◌, Bool, true, false, not, ◌&&◌, Option, none, some, List, [], ◌∷◌, ◌++◌, ltb, leb, ◌==◌,
  if◌then◌else◌, keep, is_empty,
}
use queueboard_core.Prelude.Text.{Text, text_eq, strip, or_empty}
use queueboard_core.Prelude.Sorting.{sorted}
use queueboard_core.Revisions.Windows.{Window}

-- An item of `first_seen`: a head and its earliest CI time.
pub record Head : Type 0 where
  pub sha : Text
  pub ts : ℕ

abbrev pub seen_before : Head → Head → Bool
seen_before a b = leb a.ts b.ts

-- The loop over `enumerate(ordered)`: each head holds from `from_ts` until the next one is seen,
-- the last one until `end`.
unfoldable pub windows_from : Option ℕ → ℕ → Text → List Head → List Window
windows_from end from_ts sha [] = record { from_ts = from_ts; sha = sha; to_ts = end } ∷ []
windows_from end from_ts sha (h ∷ heads) =
    record { from_ts = from_ts; sha = sha; to_ts = some h.ts } ∷ windows_from end h.ts h.sha heads

unfoldable pub windows_of_heads : Option ℕ → ℕ → List Head → List Window
unfolding windows_from
windows_of_heads end start [] = []
windows_of_heads end start (h ∷ heads) = windows_from end start h.sha heads

-- `ordered = [(pre[-1][0], start)] + post`, if some head was seen before `start`.
unfoldable pub clamp_heads : ℕ → List Head → List Head → List Head → List Head
clamp_heads start [] post ordered = ordered
clamp_heads start (h ∷ []) post ordered = record h { ts = start } ∷ post
clamp_heads start (g ∷ h ∷ pre) post ordered = clamp_heads start (h ∷ pre) post ordered

unfoldable pub build_ci_head_windows : ℕ → List Head → List Window
unfolding windows_of_heads clamp_heads
build_ci_head_windows start first_seen =
    let ordered = sorted seen_before first_seen in
    windows_of_heads none start (
      clamp_heads start (keep (λ h. ltb h.ts start) ordered) (keep (λ h. leb start h.ts) ordered)
        ordered)

-- A HEAD_FORCE_PUSHED event.
pub record ForcePush : Type 0 where
  pub occurred_at : ℕ
  pub before_sha : Option Text
  pub after_sha : Option Text

pub record Segment : Type 0 where
  pub seg_start : ℕ
  pub seg_end : Option ℕ
  pub baseline : Text

unfoldable pub segments_after : List ForcePush → List Segment
segments_after [] = []
segments_after (ev ∷ []) =
    record { seg_start = ev.occurred_at; seg_end = none; baseline = or_empty ev.after_sha } ∷ []
segments_after (ev ∷ next ∷ fps) =
    record {
      seg_start = ev.occurred_at;
      seg_end = some next.occurred_at;
      baseline = or_empty ev.after_sha;
    }
    ∷ segments_after (next ∷ fps)

unfoldable pub segments_of : ℕ → List ForcePush → List Segment
unfolding segments_after
segments_of start [] = []
segments_of start (ev ∷ fps) =
    record { seg_start = start; seg_end = some ev.occurred_at; baseline = or_empty ev.before_sha }
    ∷ segments_after (ev ∷ fps)

-- `seg_end is not None and seg_end <= start`
abbrev pub ends_by : ℕ → Segment → Bool
ends_by start s = elim s.seg_end [ none ↦ false | some t ↦ leb t start ]

unfoldable pub clamp_segments : ℕ → List Segment → List Segment
clamp_segments start [] = []
clamp_segments start (s ∷ segments) =
    let rest = clamp_segments start segments in
    if ends_by start s
    then rest
    else record s { seg_start = if ltb s.seg_start start then start else s.seg_start } ∷ rest

-- A CI head of the segment: another one than its baseline, first seen in [seg_start, seg_end).
abbrev pub in_segment : Segment → Head → Bool
in_segment s h =
    not (h.sha == s.baseline)
    && (leb s.seg_start h.ts && elim s.seg_end [ none ↦ true | some t ↦ ltb h.ts t ])

unfoldable pub windows_of_segment : List Head → Segment → List Window
unfolding windows_of_heads
windows_of_segment ci_first_seen s = windows_of_heads s.seg_end s.seg_start (
    sorted seen_before
      (record { sha = s.baseline; ts = s.seg_start } ∷ keep (in_segment s) ci_first_seen))

unfoldable pub windows_of_segments : List Head → List Segment → List Window
unfolding windows_of_segment
windows_of_segments ci_first_seen [] = []
windows_of_segments ci_first_seen (s ∷ segments) =
    windows_of_segment ci_first_seen s ++ windows_of_segments ci_first_seen segments

unfoldable pub build_force_push_head_windows : ℕ → List ForcePush → List Head → List Window
unfolding windows_of_segments clamp_segments segments_of
build_force_push_head_windows start fps ci_first_seen =
    windows_of_segments ci_first_seen (clamp_segments start (segments_of start fps))

abbrev one_second : ℕ
one_second = 1000000

-- `existing_head_from_ts`, if it is after the last window's start, else `gh_updated_at` or `now`.
abbrev pub proposed_ts : ℕ → Option ℕ → ℕ → Option ℕ → ℕ
proposed_ts now gh_updated_at prev none = elim gh_updated_at [ none ↦ now | some t ↦ t ]
proposed_ts now gh_updated_at prev (some existing) =
    if ltb prev existing then existing else elim gh_updated_at [ none ↦ now | some t ↦ t ]

-- With a window to continue, whose start is `prev_from_ts`.
unfoldable pub current_head_change_ts : ℕ → Option ℕ → ℕ → Option ℕ → ℕ
current_head_change_ts now gh_updated_at prev_from_ts existing_head_from_ts =
    let proposed = proposed_ts now gh_updated_at prev_from_ts existing_head_from_ts in
    let ts = if ltb now proposed then now else proposed in
    if leb ts prev_from_ts then prev_from_ts + one_second else ts

-- The list with its last window closed by the change, and the window of the current head after it.
unfoldable pub follow_last : (ℕ → ℕ) → Text → List Window → List Window
follow_last change head [] = []
follow_last change head (w ∷ []) =
    record w { to_ts = some (change w.from_ts) }
    ∷ record { from_ts = change w.from_ts; sha = head; to_ts = none }
    ∷ []
follow_last change head (w ∷ v ∷ ws) = w ∷ follow_last change head (v ∷ ws)

unfoldable pub last_sha : List Window → Option Text
last_sha [] = none
last_sha (w ∷ []) = some w.sha
last_sha (w ∷ v ∷ ws) = last_sha (v ∷ ws)

abbrev pub ends_with : Option Text → Text → Bool
ends_with none head = false
ends_with (some sha) head = sha == head

-- The start of the first stored window of a head. The stored windows are in the order of
-- `from_ts`, `seq` and `id`.
unfoldable pub existing_from_ts : Text → List Window → Option ℕ
existing_from_ts head [] = none
existing_from_ts head (w ∷ stored) =
    let rest = existing_from_ts head stored in if w.sha == head then some w.from_ts else rest

unfoldable pub ensure_current_head_window :
    ℕ → ℕ → Option ℕ → Text → List Window → List Window → List Window
unfolding follow_last last_sha existing_from_ts
ensure_current_head_window now gh_created_at gh_updated_at head_sha stored windows =
    let head = strip head_sha in
    if is_empty head
    then windows
    else if ends_with (last_sha windows) head
    then windows
    else if is_empty windows
    then record { from_ts = gh_created_at; sha = head; to_ts = none } ∷ []
    else follow_last
        (λ prev. current_head_change_ts now gh_updated_at prev (existing_from_ts head stored)) head
        windows
