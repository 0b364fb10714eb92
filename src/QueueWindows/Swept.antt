-- ===== src/QueueWindows/Swept.antt =====
-- The windows of rules that gate on CI against the rules at the boundary times.
use queueboard_core.Prelude.{
  ℕ, ◌≤◌, ◌<◌, ◌≡◌, refl, sym, ap, ◌∙◌, inl, inr, false, ◌||◌, Option, none, some, List, [], ◌∷◌,
  leb, get_or, Bool-cases, arith,
}
use queueboard_core.QueueWindows.Timeline.{closed_by_time}
use queueboard_core.QueueWindows.Attribution.{determine_ci_boundary_attribution}
use queueboard_core.QueueWindows.Builder.{QueueWindow, Opening, turn, finish_with}
use queueboard_core.QueueWindows.Turn.{
  in_windows, opened_by_time, is_open, finish_open, turn-open, turn-started, turn-before,
  turn-after,
}
use queueboard_core.QueueWindows.Sweep.{
  taken, fold, Scan, Setting, Sweep, boundary_at, is_on_at, closing_cause, turn_at, take_boundary,
  finish_sweep,
}
use queueboard_core.QueueWindows.Recomputed.{Rising, last_by, step}

ap2 : {A B C : Type 0} (f : A → B → C) {x y : A} {u v : B} → x ≡ y → u ≡ v → f x u ≡ f y v
ap2 f {x = x} {v = v} p q = ap (f x) q ∙ ap (λ a. f a v) p

module _ (c : Setting) where
  abbrev pub read : ℕ → Scan → Scan
  read = step c.closed c.required

  -- What a boundary makes of the open window and the others.
  abbrev pub turned : ℕ → Sweep → Option Opening → Option Opening × List QueueWindow
  turned t b cur =
      let s = read t b.scan in
      let y = boundary_at c t b s in
      turn t (determine_ci_boundary_attribution c.rules y) (closing_cause c t y) (is_on_at c t s)
        cur b.windows

  abbrev after : ℕ → Sweep → Sweep
  after t b = take_boundary c t b

  pub take_boundary-current :
      (t : ℕ) (b : Sweep) (cur : Option Opening)
      → b.current ≡ some cur
      → (take_boundary c t b).current ≡ some (turned t b cur).0
  unfolding take_boundary turn_at
  take_boundary-current t b cur e =
      let s = read t b.scan in
      ap (λ o. some (turn_at c t (boundary_at c t b s) (is_on_at c t s) o b.windows).0) e

  pub take_boundary-windows :
      (t : ℕ) (b : Sweep) (cur : Option Opening)
      → b.current ≡ some cur
      → (take_boundary c t b).windows ≡ (turned t b cur).1
  unfolding take_boundary turn_at
  take_boundary-windows t b cur e =
      let s = read t b.scan in
      ap (λ o. (turn_at c t (boundary_at c t b s) (is_on_at c t s) o b.windows).1) e

  take_boundary-scan : (t : ℕ) (b : Sweep) → (take_boundary c t b).scan ≡ read t b.scan
  unfolding take_boundary
  take_boundary-scan t b = refl

  module _ (as_of x : ℕ) (known : x < as_of) (open_then : closed_by_time c.closed x ≡ false) where
    finish_sweep_lem :
        (b : Sweep) (cur : Option Opening)
        → b.current ≡ some cur
        → in_windows x (finish_sweep c as_of b) ≡ (in_windows x b.windows || opened_by_time cur x)
    unfolding finish_with
    finish_sweep_lem b none e =
        ap (λ o. in_windows x (finish_with c.closed as_of (get_or o none) b.windows)) e
        ∙ ground arith
    finish_sweep_lem b (some o) e =
        ap (λ o. in_windows x (finish_with c.closed as_of (get_or o none) b.windows)) e
        ∙ finish_open c.closed x as_of o b.windows known open_then

    -- Boundaries after `x` change nothing at `x`.
    later_boundaries :
        (lo : ℕ) (ts : List ℕ) (b : Sweep) (cur : Option Opening)
        → x < lo
        → Rising lo ts
        → b.current ≡ some cur
        → in_windows x (finish_sweep c as_of (fold (take_boundary c) ts b))
          ≡ (in_windows x b.windows || opened_by_time cur x)
    unfolding fold
    later_boundaries lo [] b cur lt r e = finish_sweep_lem b cur e
    later_boundaries lo (t ∷ ts) b cur lt r e =
        let le = r.0 in
        later_boundaries t ts (after t b) (turned t b cur).0 (omega (arith, lt, le)) r.1
          (take_boundary-current t b cur e)
        ∙ ap (λ ws. in_windows x ws || opened_by_time (turned t b cur).0 x)
            (take_boundary-windows t b cur e)
        ∙ turn-before t _ _ x (is_on_at c t (read t b.scan)) cur b.windows (omega (arith, lt, le))

    opened_before :
        (lo : ℕ) (cur : Option Opening)
        → lo ≤ x
        → ((o : Opening) → cur ≡ some o → o.start ≤ lo)
        → opened_by_time cur x ≡ is_open cur
    opened_before lo none le start = refl
    opened_before lo (some o) le start = let bound = start o refl in ground arith

    -- From the first boundary on.
    pub boundaries_lem :
        (lo : ℕ) (ts : List ℕ) (b : Sweep) (cur : Option Opening)
        → lo ≤ x
        → Rising lo ts
        → b.current ≡ some cur
        → is_open cur ≡ is_on_at c lo b.scan
        → ((o : Opening) → cur ≡ some o → o.start ≤ lo)
        → in_windows x (finish_sweep c as_of (fold (take_boundary c) ts b)) ≡ (
            in_windows x b.windows
            || is_on_at c (last_by x lo ts) (fold read (taken (λ t. leb t x) ts) b.scan))
    unfolding fold taken last_by
    boundaries_lem lo [] b cur le r e on start =
        finish_sweep_lem b cur e
        ∙ ap (λ o. in_windows x b.windows || o) (opened_before lo cur le start ∙ on)
    boundaries_lem lo (t ∷ ts) b cur le r e on start = elim (Bool-cases (leb t x)) [
      | inl p ↦ rw p (
          let here = read t b.scan in
          let on' = is_on_at c t here in
          boundaries_lem t ts (after t b) (turned t b cur).0 (ground arith) r.1
            (take_boundary-current t b cur e)
            (turn-open t _ _ on' cur b.windows ∙ ap (is_on_at c t) (sym (take_boundary-scan t b)))
            (turn-started t _ _ lo on' cur b.windows r.0 start)
          ∙ ap2
              (λ ws s.
                in_windows x ws
                || is_on_at c (last_by x t ts) (fold read (taken (λ u. leb u x) ts) s))
              (take_boundary-windows t b cur e) (take_boundary-scan t b)
          ∙ ap (λ o. o || is_on_at c (last_by x t ts) (fold read (taken (λ u. leb u x) ts) here))
              (turn-after t _ _ x on' cur b.windows (ground arith)))
      | inr p ↦ rw p (
          later_boundaries t ts (after t b) (turned t b cur).0 (ground arith) r.1
            (take_boundary-current t b cur e)
          ∙ ap (λ ws. in_windows x ws || opened_by_time (turned t b cur).0 x)
              (take_boundary-windows t b cur e)
          ∙ turn-before t _ _ x (is_on_at c t (read t b.scan)) cur b.windows (ground arith)
          ∙ ap (λ o. in_windows x b.windows || o) (opened_before lo cur le start ∙ on))
    ]
