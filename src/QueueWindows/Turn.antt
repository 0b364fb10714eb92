-- ===== src/QueueWindows/Turn.antt =====
-- What a turn at a boundary, and the end, make of the times that the windows hold.
use queueboard_core.Prelude.{
  ℕ, ◌≤◌, ◌<◌, ◌≡◌, refl, ◌∙◌, inl, inr, Bool, true, false, ◌&&◌, ◌||◌, Option, none, some, List,
  [], ◌∷◌, ◌++◌, ltb, leb, any, Bool-cases, arith,
}
use queueboard_core.QueueWindows.Timeline.{closed_by_time}
use queueboard_core.QueueWindows.Attribution.{WindowAttribution, WindowEventType, plain}
use queueboard_core.QueueWindows.Builder.{
  QueueWindow, Opening, close_window, turn, close_at, finish_with,
}

abbrev pub before_end : Option ℕ → ℕ → Bool
before_end none t = true
before_end (some end) t = ltb t end

-- [from_ts, to_ts) holds the time.
abbrev pub holds : ℕ → QueueWindow → Bool
holds t w = leb w.from_ts t && before_end w.to_ts t

unfoldable pub in_windows : ℕ → List QueueWindow → Bool
in_windows t ws = any (holds t) ws

abbrev pub opened_by_time : Option Opening → ℕ → Bool
opened_by_time none t = false
opened_by_time (some o) t = leb o.start t

abbrev pub is_open : Option Opening → Bool
is_open none = false
is_open (some o) = true

pub any-append {ℓ} :
    {A : Type ℓ} (p : A → Bool) (xs ys : List A) → any p (xs ++ ys) ≡ (any p xs || any p ys)
unfolding any
any-append p [] ys = refl
any-append p (x ∷ xs) ys = ground (arith, any-append p xs ys)

pub in_windows-close_window :
    (t : ℕ) (o : Opening) (ts : ℕ) (a : WindowAttribution) (ws : List QueueWindow)
    → in_windows t (close_window o ts a ws) ≡ (in_windows t ws || (leb o.start t && ltb t ts))
unfolding in_windows close_window any
in_windows-close_window t o ts a ws = elim (Bool-cases (ltb o.start ts)) [
  | inl p ↦ rw (p, any-append (holds t) ws) (ground arith)
  | inr p ↦ rw p (ground arith)
]

pub finish_open :
    (closed : Option ℕ) (t as_of : ℕ) (o : Opening) (ws : List QueueWindow)
    → t < as_of
    → closed_by_time closed t ≡ false
    → in_windows t (finish_with closed as_of (some o) ws) ≡ (in_windows t ws || leb o.start t)
unfolding finish_with close_at in_windows any
finish_open none t as_of o ws known open_then = elim (Bool-cases (ltb o.start as_of)) [
  | inl p ↦ rw (p, any-append (holds t) ws) (ground arith)
  | inr p ↦ rw p (ground arith)
]
finish_open (some c) t as_of o ws known open_then = elim (Bool-cases (leb c as_of)) [
  | inl q ↦ rw q (
      unfold in_windows any in
      in_windows-close_window t o c (plain WindowEventType.pr_closed) ws ∙ ground arith)
  | inr q ↦ elim (Bool-cases (ltb o.start as_of)) [
    | inl p ↦ rw (q, p, any-append (holds t) ws) (ground arith)
    | inr p ↦ rw (q, p) (ground arith)
  ]
]

module _ (at : ℕ) (opened closed : WindowAttribution) where
  pub turn-open :
      (on : Bool) (cur : Option Opening) (ws : List QueueWindow)
      → is_open (turn at opened closed on cur ws).0 ≡ on
  unfolding turn
  turn-open true none ws = refl
  turn-open true (some o) ws = refl
  turn-open false none ws = refl
  turn-open false (some o) ws = refl

  pub turn-started :
      (lo : ℕ) (on : Bool) (cur : Option Opening) (ws : List QueueWindow)
      → lo ≤ at
      → ((o : Opening) → cur ≡ some o → o.start ≤ lo)
      → (o : Opening) → (turn at opened closed on cur ws).0 ≡ some o
      → o.start ≤ at
  unfolding turn
  turn-started lo true none ws le f o e = ground arith
  turn-started lo true (some o') ws le f o e = ground (arith, f o)
  turn-started lo false none ws le f o e = absurd (cc)
  turn-started lo false (some o') ws le f o e = absurd (cc)

  -- Before the event the windows and the open one cover the same times.
  pub turn-before :
      (t : ℕ) (on : Bool) (cur : Option Opening) (ws : List QueueWindow)
      → t < at
      → (in_windows t (turn at opened closed on cur ws).1
          || opened_by_time (turn at opened closed on cur ws).0 t)
        ≡ (in_windows t ws || opened_by_time cur t)
  unfolding turn
  turn-before t true none ws lt = ground arith
  turn-before t true (some o) ws lt = refl
  turn-before t false none ws lt = refl
  turn-before t false (some o) ws lt = ground (arith, in_windows-close_window t o at closed ws)

  pub turn-after :
      (t : ℕ) (on : Bool) (cur : Option Opening) (ws : List QueueWindow)
      → at ≤ t
      → in_windows t (turn at opened closed on cur ws).1 ≡ in_windows t ws
  unfolding turn
  turn-after t true none ws le = refl
  turn-after t true (some o) ws le = refl
  turn-after t false none ws le = refl
  turn-after t false (some o) ws le = ground (arith, in_windows-close_window t o at closed ws)

  pub turn-same :
      (cur : Option Opening) (ws : List QueueWindow)
      → turn at opened closed (is_open cur) cur ws ≡ (cur, ws)
  unfolding turn
  turn-same none ws = refl
  turn-same (some o) ws = refl
