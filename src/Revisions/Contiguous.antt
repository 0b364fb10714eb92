-- ===== src/Revisions/Contiguous.antt =====
-- The windows that the builders give meet each other, and the head they show at a time.
use queueboard_core.Prelude.{
  ℕ, ◌≡◌, ◌≤◌, refl, sym, subst, ap, Bool, true, false, Option, none, some, List, [], ◌∷◌, ◌++◌,
  ltb, leb, Option-cases, All, keep, is_empty, Bool-cases, inl, inr, arith, keep-All, All-kept,
}
use queueboard_core.Prelude.Text.{Text, text_eq, or_empty}
use queueboard_core.Prelude.Sorting.{sorted, Ordered, sorted-nonempty}
use queueboard_core.Revisions.Windows.{Window}
use queueboard_core.Revisions.Heads.{
  Head, ForcePush, Segment, seen_before, clamp_heads, build_ci_head_windows, segments_of,
  clamp_segments, in_segment, windows_of_segment, windows_of_segments,
  build_force_push_head_windows,
}
use queueboard_core.Revisions.Meeting.{
  Reaches, Meets, Meets-append, Within, After, windows_of_heads-Meets, sorted-After, sorted_heads,
}
use queueboard_core.Revisions.Shown.{
  pre_of, post_of, shown_at, seen_at, first_head, shown_at-ordered, seen_at-split,
}
use queueboard_core.Revisions.Pushed.{head_in, segment_at, shown_at-pushes}
use queueboard_core.Revisions.Segments.{Joined, pushed_before, segments_of-Joined}

keep-Ordered :
    (p : Head → Bool) (heads : List Head)
    → Ordered seen_before heads
    → Ordered seen_before (keep p heads)
unfolding keep
keep-Ordered p [] o = tt
keep-Ordered p (h ∷ heads) o = elim (Bool-cases (p h)) [
  | inl e ↦ rw e (All-kept p (λ y. leb h.ts y.ts ≡ true) heads o.0, keep-Ordered p heads o.1)
  | inr e ↦ rw e (keep-Ordered p heads o.1)
]

none_pre :
    (start : ℕ) (heads : List Head)
    → is_empty (pre_of start heads) ≡ true
    → All (Within start none) heads
unfolding keep
none_pre start [] e = tt
none_pre start (h ∷ heads) e = elim (Bool-cases (ltb h.ts start)) [
  | inl p ↦ absurd (let bad = rw p at e in cc)
  | inr p ↦ ((ground arith, tt), none_pre start heads (rw p at e))
]

clamp_heads-After :
    (start : ℕ) (pre post ordered : List Head)
    → All (Within start none) post
    → Ordered seen_before post
    → (is_empty pre ≡ true → After start none ordered)
    → After start none (clamp_heads start pre post ordered)
unfolding clamp_heads
clamp_heads-After start [] post ordered a o f = f refl
clamp_heads-After start (h ∷ []) post ordered a o f = (a, o)
clamp_heads-After start (g ∷ h ∷ pre) post ordered a o f =
    clamp_heads-After start (h ∷ pre) post ordered a o (λ e. absurd (cc))

tail-After :
    (start : ℕ) (heads : List Head)
    → is_empty heads ≡ false
    → All (Within start none) heads
    → Ordered seen_before heads
    → After start none heads
tail-After start [] e a o = absurd (cc)
tail-After start (h ∷ heads) e a o = (a.1, o.1)

sorted-clamped :
    (start : ℕ) (first_seen : List Head)
    → is_empty first_seen ≡ false
    → let ordered = sorted seen_before first_seen in
      After start none (clamp_heads start (pre_of start ordered) (post_of start ordered) ordered)
sorted-clamped start first_seen e =
    let ordered = sorted seen_before first_seen in
    let o = sorted_heads first_seen in
    clamp_heads-After start (pre_of start ordered) (post_of start ordered) ordered
      (keep-All (λ h. leb start h.ts) (Within start none) (λ h p. (p, tt)) ordered)
      (keep-Ordered (λ h. leb start h.ts) ordered o)
      (λ n.
        tail-After start ordered (sorted-nonempty seen_before first_seen e)
          (none_pre start ordered n) o)

-- If CI was seen on some head, the windows from CI start at the PR's creation, each one ends where
-- the next one starts, the last one is open, and none ends before it starts. And at every time
-- from the creation on, the last window that has started is of the head that was seen last by
-- that time, be it before the creation; if none was seen by then, of the head that was seen first.
pub build_ci_head_windows-Meets :
    (start t : ℕ) (d : Text) (first_seen : List Head)
    → is_empty first_seen ≡ false
    → start ≤ t
    → let windows = build_ci_head_windows start first_seen in
      let ordered = sorted seen_before first_seen in
      Meets start windows none × (shown_at t d windows ≡ seen_at t (first_head d ordered) ordered)
unfolding build_ci_head_windows
build_ci_head_windows-Meets start t d first_seen e le =
    let ordered = sorted seen_before first_seen in
    let pre = pre_of start ordered in
    let post = post_of start ordered in
    (
      windows_of_heads-Meets none start (clamp_heads start pre post ordered) tt
          (sorted-clamped start first_seen e),
      shown_at-ordered start t d pre post ordered le (sorted-nonempty seen_before first_seen e)
          (seen_at-split start t (first_head d ordered) ordered le (sorted_heads first_seen)),
    )

in_segment-Within :
    (s : Segment) (h : Head) → in_segment s h ≡ true → Within s.seg_start s.seg_end h
in_segment-Within s h p = elim (Option-cases s.seg_end) [
  | inl e ↦ (ground arith, subst (Reaches h.ts) (sym e) tt)
  | inr (end, e) ↦ let q = rw e at p in (ground arith, subst (Reaches h.ts) (sym e) (ground arith))
]

windows_of_segment-Meets :
    (ci : List Head) (s : Segment)
    → Reaches s.seg_start s.seg_end
    → Meets s.seg_start (windows_of_segment ci s) s.seg_end
unfolding windows_of_segment
windows_of_segment-Meets ci s r =
    let heads = record { sha = s.baseline; ts = s.seg_start } ∷ keep (in_segment s) ci in
    windows_of_heads-Meets s.seg_end s.seg_start (sorted seen_before heads) r (
      sorted-After s.seg_start s.seg_end heads refl (
        (ground arith, r),
        keep-All (in_segment s) (Within s.seg_start s.seg_end) (in_segment-Within s) ci,
      ))

windows_of_segment-at :
    (ci : List Head) (s : Segment) (start : ℕ) (end : Option ℕ)
    → s.seg_start ≡ start
    → s.seg_end ≡ end
    → Reaches start end
    → Meets start (windows_of_segment ci s) end
windows_of_segment-at ci s start end a b r =
    let reaches = subst (Reaches s.seg_start) (sym b) (subst (λ t. Reaches t end) (sym a) r) in
    subst (λ t. Meets t (windows_of_segment ci s) end) a
      (subst (Meets s.seg_start (windows_of_segment ci s)) b
        (windows_of_segment-Meets ci s reaches))

append_nil : (ws : List Window) → ws ++ [] ≡ ws
append_nil [] = refl
append_nil (w ∷ ws) = ap (λ l. w ∷ l) (append_nil ws)

windows_of_segments-Meets :
    (ci : List Head) (start : ℕ) (segments : List Segment)
    → Joined start segments
    → Meets start (windows_of_segments ci segments) none
unfolding windows_of_segments Joined
windows_of_segments-Meets ci start [] j = absurd j
windows_of_segments-Meets ci start (s ∷ []) j =
    rw (append_nil (windows_of_segment ci s)) (windows_of_segment-at ci s start none j.0 j.1 tt)
windows_of_segments-Meets ci start (s ∷ r ∷ segments) j =
    Meets-append start r.seg_start (windows_of_segment ci s) (windows_of_segments ci (r ∷ segments))
      none (windows_of_segment-at ci s start (some r.seg_start) j.0 j.1 (omega (arith, j.0, j.2)))
      (windows_of_segments-Meets ci r.seg_start (r ∷ segments) j.3)

-- If there is a force push, and they are in order, the windows from force pushes and CI start at
-- the PR's creation, each one ends where the next one starts, the last one is open, and none ends
-- before it starts: pushes before the creation, and CI rows at any time, make no gap, no overlap
-- and no window that runs backwards. And at every time from the creation on, the last window that
-- has started is of the head that CI first saw last, of the heads, other than the push's own, that
-- it first saw from the last push (or the creation, if that is later) up to the time; if there is
-- none, of the push's own head, which is the one that it made. Where no push is up to the time,
-- the own head is the one that the first push replaced, and CI heads count from the creation on.
pub build_force_push_head_windows-Meets :
    (start t : ℕ) (d : Text) (ev : ForcePush) (fps : List ForcePush) (ci_first_seen : List Head)
    → Ordered pushed_before (ev ∷ fps)
    → start ≤ t
    → let windows = build_force_push_head_windows start (ev ∷ fps) ci_first_seen in
      Meets start windows none
      × (shown_at t d windows
          ≡ head_in t ci_first_seen (segment_at t start start (or_empty ev.before_sha) (ev ∷ fps)))
unfolding build_force_push_head_windows
build_force_push_head_windows-Meets start t d ev fps ci_first_seen o le = (
  windows_of_segments-Meets ci_first_seen start
      (clamp_segments start (segments_of start (ev ∷ fps))) (segments_of-Joined start ev fps o),
  shown_at-pushes start t d ci_first_seen ev fps le o,
)
