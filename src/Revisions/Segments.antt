-- ===== src/Revisions/Segments.antt =====
-- The segments between the force pushes meet each other.
use queueboard_core.Prelude.{
  ℕ, ◌≡◌, ◌≤◌, refl, sym, subst, ap, ◌∙◌, Bool, none, some, List, [], ◌∷◌, ltb, leb, if◌then◌else◌,
  Bool-cases, inl, inr, arith,
}
use queueboard_core.Prelude.Text.{or_empty}
use queueboard_core.Prelude.Sorting.{Ordered}
use queueboard_core.Revisions.Heads.{
  ForcePush, Segment, segments_after, segments_of, clamp_segments,
}

-- The first segment starts at `start`, each one ends where the next one starts and not before its
-- own start, and the last one is open.
unfoldable pub Joined : ℕ → List Segment → Type 0
Joined start [] = ⊥
Joined start (s ∷ []) = (s.seg_start ≡ start) × (s.seg_end ≡ none)
Joined start (s ∷ r ∷ segments) =
    (s.seg_start ≡ start)
    × (s.seg_end ≡ some r.seg_start)
    × (s.seg_start ≤ r.seg_start)
    × Joined r.seg_start (r ∷ segments)

Joined-cons :
    (start t : ℕ) (s : Segment) (segments : List Segment)
    → s.seg_start ≡ start
    → s.seg_end ≡ some t
    → start ≤ t
    → Joined t segments
    → Joined start (s ∷ segments)
unfolding Joined
Joined-cons start t s [] a b le m = absurd m
Joined-cons start t s (r ∷ []) a b le m =
    (a, b ∙ ap some (sym m.0), omega (arith, a, m.0, le), (refl, m.1))
Joined-cons start t s (r ∷ q ∷ rest) a b le m =
    (a, b ∙ ap some (sym m.0), omega (arith, a, m.0, le), (refl, m.1, m.2, m.3))

-- The order in which the force pushes are read.
abbrev pub pushed_before : ForcePush → ForcePush → Bool
pushed_before a b = leb a.occurred_at b.occurred_at

abbrev pub clamped : ℕ → ℕ → ℕ
clamped start t = if ltb t start then start else t

clamp_segments-Joined :
    (start : ℕ) (ev : ForcePush) (fps : List ForcePush)
    → Ordered pushed_before (ev ∷ fps)
    → Joined (clamped start ev.occurred_at) (clamp_segments start (segments_after (ev ∷ fps)))
unfolding clamp_segments segments_after Joined
clamp_segments-Joined start ev [] o = (refl, refl)
clamp_segments-Joined start ev (next ∷ fps) o =
    let rest = clamp_segments-Joined start next fps o.1 in
    let first = o.0.0 in
    elim (Bool-cases (leb next.occurred_at start)) [
      | inl p ↦ rw p (
          let same : clamped start next.occurred_at ≡ clamped start ev.occurred_at = ground arith in
          subst (λ t. Joined t (clamp_segments start (segments_after (next ∷ fps)))) same rest)
      | inr p ↦ rw p (
          let same : clamped start next.occurred_at ≡ next.occurred_at = ground arith in
          Joined-cons (clamped start ev.occurred_at) next.occurred_at
            (record {
              seg_start = clamped start ev.occurred_at;
              seg_end = some next.occurred_at;
              baseline = or_empty ev.after_sha;
            })
            (clamp_segments start (segments_after (next ∷ fps))) refl refl (ground arith)
            (subst (λ t. Joined t (clamp_segments start (segments_after (next ∷ fps)))) same rest))
    ]

pub segments_of-Joined :
    (start : ℕ) (ev : ForcePush) (fps : List ForcePush)
    → Ordered pushed_before (ev ∷ fps)
    → Joined start (clamp_segments start (segments_of start (ev ∷ fps)))
unfolding segments_of clamp_segments
segments_of-Joined start ev fps o =
    let rest = clamp_segments-Joined start ev fps o in
    let after = clamp_segments start (segments_after (ev ∷ fps)) in
    elim (Bool-cases (leb ev.occurred_at start)) [
      | inl p ↦
          let same : clamped start ev.occurred_at ≡ start = ground arith in
          rw p (subst (λ t. Joined t after) same rest)
      | inr p ↦
          let same : clamped start ev.occurred_at ≡ ev.occurred_at = ground arith in
          rw p (
            Joined-cons start ev.occurred_at
              (record {
                seg_start = clamped start start;
                seg_end = some ev.occurred_at;
                baseline = or_empty ev.before_sha;
              })
              after (ground arith) refl (ground arith) (subst (λ t. Joined t after) same rest))
    ]
