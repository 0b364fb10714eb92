-- ===== src/Revisions/Normal.antt =====
-- Normalised windows pass the check, and windows that pass it are normal.
use queueboard_core.Prelude.{
  ℕ, ◌≡◌, refl, sym, ap, ◌∙◌, false, ◌||◌, Option, none, some, List, [], ◌∷◌, Bool-cases,
  Option-cases, inl, inr, arith,
}
use queueboard_core.Prelude.Sorting.{sorted, sorted_kept, sorted_single}
use queueboard_core.Revisions.Windows.{
  Window, starts_before, is_malformed, is_stale, forward_of, stitched, normalize_windows, is_broken,
  revisions_need_recontiguation,
}

-- The starts rise from `last` on, and no window is malformed.
Rising : Option ℕ → List Window → Type 0
Rising last [] = Unit
Rising last (w ∷ ws) =
    (is_stale last w ≡ false) × (is_malformed w ≡ false) × Rising (some w.from_ts) ws

forward_of-Rising : (last : Option ℕ) (ws : List Window) → Rising last (forward_of last ws)
unfolding forward_of Rising
forward_of-Rising last [] = tt
forward_of-Rising last (w ∷ ws) = elim (Bool-cases (is_malformed w || is_stale last w)) [
  | inl p ↦ rw p (forward_of-Rising last ws)
  | inr p ↦
      let a : is_stale last w ≡ false = ground arith in
      let b : is_malformed w ≡ false = ground arith in
      rw p (a, b, forward_of-Rising (some w.from_ts) ws)
]

stitched_sound :
    (last : Option ℕ) (ws : List Window)
    → Rising last ws
    → revisions_need_recontiguation (stitched ws) ≡ false
unfolding stitched revisions_need_recontiguation Rising
stitched_sound last [] r = refl
stitched_sound last (w ∷ []) r = r.1
stitched_sound last (w ∷ v ∷ []) r = ground (arith, r.0, r.1, r.2)
stitched_sound last (w ∷ v ∷ u ∷ ws) r =
    let rest = stitched_sound (some w.from_ts) (v ∷ u ∷ ws) r.2 in
    let later = r.2.0 in ground (arith, rest)

-- The output of the normalisation never asks for a rebuild, whatever the input.
pub normalize_windows_sound :
    (ws : List Window) → revisions_need_recontiguation (normalize_windows ws) ≡ false
unfolding normalize_windows
normalize_windows_sound ws =
    stitched_sound none (forward_of none (sorted starts_before ws))
      (forward_of-Rising none (sorted starts_before ws))

sorted-same :
    (ws : List Window) → revisions_need_recontiguation ws ≡ false → sorted starts_before ws ≡ ws
unfolding revisions_need_recontiguation
sorted-same [] e = unfold sorted in refl
sorted-same (w ∷ []) e = sorted_single starts_before w
sorted-same (w ∷ v ∷ ws) e =
    let rest = sorted-same (v ∷ ws) (ground arith) in
    sorted_kept starts_before w v ws rest (ground arith)

forward_of-keep :
    (last : Option ℕ) (w : Window) (ws : List Window)
    → is_stale last w ≡ false
    → is_malformed w ≡ false
    → forward_of last (w ∷ ws) ≡ w ∷ forward_of (some w.from_ts) ws
unfolding forward_of
forward_of-keep last w ws s m = rw (m, s) refl

forward_of-same :
    (last : Option ℕ) (w : Window) (ws : List Window)
    → is_stale last w ≡ false
    → revisions_need_recontiguation (w ∷ ws) ≡ false
    → forward_of last (w ∷ ws) ≡ w ∷ ws
unfolding revisions_need_recontiguation forward_of
forward_of-same last w [] s e = forward_of-keep last w [] s e
forward_of-same last w (v ∷ ws) s e =
    let rest = forward_of-same (some w.from_ts) v ws (ground arith) (ground arith) in
    forward_of-keep last w (v ∷ ws) s (ground arith) ∙ ap (λ l. w ∷ l) rest

is_broken-meets : (w v : Window) → is_broken w v ≡ false → w.to_ts ≡ some v.from_ts
is_broken-meets w v e = elim (Option-cases w.to_ts) [
  | inl p ↦ absurd (let bad = rw p at e in cc)
  | inr p ↦ p.1 ∙ ap some (ground (arith, p.1))
]

stitched-same : (ws : List Window) → revisions_need_recontiguation ws ≡ false → stitched ws ≡ ws
unfolding stitched revisions_need_recontiguation
stitched-same [] e = refl
stitched-same (w ∷ []) e = refl
stitched-same (w ∷ v ∷ ws) e =
    let rest = stitched-same (v ∷ ws) (ground arith) in
    let meets : w.to_ts ≡ some v.from_ts = is_broken-meets w v (ground arith) in
    ap (λ t. record w { to_ts = t } ∷ stitched (v ∷ ws)) (sym meets) ∙ ap (λ l. w ∷ l) rest

-- Windows that the check accepts are left as they are by the normalisation.
pub normalize_windows_same :
    (ws : List Window) → revisions_need_recontiguation ws ≡ false → normalize_windows ws ≡ ws
unfolding normalize_windows sorted
normalize_windows_same [] e = refl
normalize_windows_same (w ∷ ws) e =
    ap (λ l. stitched (forward_of none l)) (sorted-same (w ∷ ws) e)
    ∙ ap stitched (forward_of-same none w ws refl e)
    ∙ stitched-same (w ∷ ws) e
