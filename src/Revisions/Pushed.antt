-- ===== src/Revisions/Pushed.antt =====
-- The head that the windows from force pushes show at a time.
use queueboard_core.Prelude.{
  ℕ, ◌≡◌, ◌≤◌, refl, ap, ◌∙◌, true, false, Option, none, some, List, [], ◌∷◌, ◌++◌, leb, All,
  if◌then◌else◌, keep, Bool-cases, inl, inr, arith, keep-All,
}
use queueboard_core.Prelude.Text.{Text, text_eq, or_empty}
use queueboard_core.Prelude.Sorting.{sorted, Ordered, sorted-All, sorted_first}
use queueboard_core.Revisions.Windows.{Window}
use queueboard_core.Revisions.Heads.{
  Head, ForcePush, Segment, seen_before, windows_of_heads, segments_after, segments_of,
  clamp_segments, in_segment, windows_of_segment, windows_of_segments,
}
use queueboard_core.Revisions.Shown.{shown_at, seen_at, shown_at-windows_from}
use queueboard_core.Revisions.Segments.{pushed_before, clamped}

-- The stretch between two pushes that holds a time. Before the creation no stretch starts.
unfoldable pub segment_at : ℕ → ℕ → ℕ → Text → List ForcePush → Segment
segment_at t start lo sha [] = record { seg_start = lo; seg_end = none; baseline = sha }
segment_at t start lo sha (ev ∷ fps) =
    let later = segment_at t start (clamped start ev.occurred_at) (or_empty ev.after_sha) fps in
    if leb ev.occurred_at t
    then later
    else record { seg_start = lo; seg_end = some ev.occurred_at; baseline = sha }

-- The last of the stretch's CI heads that was seen by the time, or else the stretch's own head.
abbrev pub head_in : ℕ → List Head → Segment → Text
head_in t ci s = seen_at t s.baseline (sorted seen_before (keep (in_segment s) ci))

shown_at-append :
    (t : ℕ) (d : Text) (xs ys : List Window)
    → shown_at t d (xs ++ ys) ≡ shown_at t (shown_at t d xs) ys
unfolding shown_at
shown_at-append t d [] ys = refl
shown_at-append t d (w ∷ xs) ys = shown_at-append t (if leb w.from_ts t then w.sha else d) xs ys

seen_at-none :
    (t from_ts : ℕ) (d : Text) (heads : List Head)
    → leb from_ts t ≡ false
    → All (λ h. leb from_ts h.ts ≡ true) heads
    → seen_at t d heads ≡ d
unfolding seen_at
seen_at-none t from_ts d [] e a = refl
seen_at-none t from_ts d (h ∷ heads) e a =
    let late : leb h.ts t ≡ false = let p = a.0 in ground arith in
    rw late (seen_at-none t from_ts d heads e a.1)

-- Before its start a stretch shows nothing, and from then on its head.
shown_at-segment :
    (t : ℕ) (d : Text) (ci : List Head) (s : Segment)
    → shown_at t d (windows_of_segment ci s) ≡ (if leb s.seg_start t then head_in t ci s else d)
unfolding windows_of_segment windows_of_heads
shown_at-segment t d ci s =
    let seen = sorted seen_before (keep (in_segment s) ci) in
    let base : Head = record { sha = s.baseline; ts = s.seg_start } in
    let after : All (λ h. leb s.seg_start h.ts ≡ true) (keep (in_segment s) ci) =
      keep-All (in_segment s) (λ h. leb s.seg_start h.ts ≡ true) (λ h p. ground arith) ci in
    let late =
      sorted-All seen_before (λ h. leb s.seg_start h.ts ≡ true) (keep (in_segment s) ci) after in
    rw (sorted_first seen_before base (keep (in_segment s) ci) late) (
      shown_at-windows_from s.seg_end t s.seg_start d s.baseline seen
      ∙ elim (Bool-cases (leb s.seg_start t)) [
        | inl p ↦ rw p refl
        | inr p ↦ rw p (seen_at-none t s.seg_start d seen p late)
      ])

clamped_by : (start u t : ℕ) → start ≤ t → leb (clamped start u) t ≡ leb u t
clamped_by start u t le = ground arith

-- A stretch after the creation, with the windows that follow it.
shown_at-stretch :
    (start t : ℕ) (d : Text) (ci : List Head) (u : ℕ) (end : Option ℕ) (sha : Text)
    (rest : List Window)
    → start ≤ t
    → let s : Segment = record { seg_start = clamped start u; seg_end = end; baseline = sha } in
      shown_at t d (windows_of_segment ci s ++ rest)
      ≡ shown_at t (if leb u t then head_in t ci s else d) rest
shown_at-stretch start t d ci u end sha rest le =
    let s : Segment = record { seg_start = clamped start u; seg_end = end; baseline = sha } in
    shown_at-append t d (windows_of_segment ci s) rest
    ∙ ap (λ x. shown_at t x rest)
        (shown_at-segment t d ci s
          ∙ ap (λ b. if b then head_in t ci s else d) (clamped_by start u t le))

shown_at-after :
    (start t : ℕ) (ci : List Head) (ev : ForcePush) (fps : List ForcePush) (d : Text)
    → start ≤ t
    → Ordered pushed_before (ev ∷ fps)
    → shown_at t d (windows_of_segments ci (clamp_segments start (segments_after (ev ∷ fps)))) ≡ (
        if leb ev.occurred_at t
        then head_in t ci
            (segment_at t start (clamped start ev.occurred_at) (or_empty ev.after_sha) fps)
        else d)
unfolding windows_of_segments clamp_segments segments_after segment_at
shown_at-after start t ci ev [] d le o =
    shown_at-stretch start t d ci ev.occurred_at none (or_empty ev.after_sha) [] le
    ∙ (unfold shown_at in refl)
shown_at-after start t ci ev (next ∷ fps) d le o =
    let first = o.0.0 in
    elim (Bool-cases (leb next.occurred_at start)) [
      | inl p ↦
          let by : leb next.occurred_at t ≡ true = ground arith in
          let ev_by : leb ev.occurred_at t ≡ true = ground arith in
          rw (p, by, ev_by) (shown_at-after start t ci next fps d le o.1 ∙ rw by refl)
      | inr p ↦ elim (Bool-cases (leb next.occurred_at t)) [
        | inl q ↦
            let ev_by : leb ev.occurred_at t ≡ true = ground arith in
            rw (p, q, ev_by)
              (shown_at-stretch start t d ci ev.occurred_at (some next.occurred_at)
                  (or_empty ev.after_sha) _ le
                ∙ shown_at-after start t ci next fps _ le o.1
                ∙ rw q refl)
        | inr q ↦
            rw (p, q)
              (shown_at-stretch start t d ci ev.occurred_at (some next.occurred_at)
                  (or_empty ev.after_sha) _ le
                ∙ shown_at-after start t ci next fps _ le o.1
                ∙ rw q refl)
      ]
    ]

pub shown_at-pushes :
    (start t : ℕ) (d : Text) (ci : List Head) (ev : ForcePush) (fps : List ForcePush)
    → start ≤ t
    → Ordered pushed_before (ev ∷ fps)
    → shown_at t d (windows_of_segments ci (clamp_segments start (segments_of start (ev ∷ fps))))
      ≡ head_in t ci (segment_at t start start (or_empty ev.before_sha) (ev ∷ fps))
unfolding windows_of_segments clamp_segments segments_of segment_at
shown_at-pushes start t d ci ev fps le o =
    let own : clamped start start ≡ start = ground arith in
    let started : leb start t ≡ true = ground arith in
    elim (Bool-cases (leb ev.occurred_at start)) [
      | inl p ↦
          let by : leb ev.occurred_at t ≡ true = ground arith in
          rw (p, by) (shown_at-after start t ci ev fps d le o ∙ rw by refl)
      | inr p ↦ elim (Bool-cases (leb ev.occurred_at t)) [
        | inl q ↦
            rw (p, q)
              (shown_at-stretch start t d ci start (some ev.occurred_at) (or_empty ev.before_sha) _
                  le
                ∙ shown_at-after start t ci ev fps _ le o
                ∙ rw q refl)
        | inr q ↦
            rw (p, q)
              (shown_at-stretch start t d ci start (some ev.occurred_at) (or_empty ev.before_sha) _
                  le
                ∙ shown_at-after start t ci ev fps _ le o
                ∙ rw (q, started, own) refl)
      ]
    ]
