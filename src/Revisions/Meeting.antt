-- ===== src/Revisions/Meeting.antt =====
-- Windows that meet each other, as the heads of a list in the order of their times give them.
use queueboard_core.Prelude.{
  ℕ, ◌≡◌, ◌≤◌, refl, sym, ap, ◌∙◌, true, false, Option, none, some, List, [], ◌∷◌, ◌++◌, leb, All,
  is_empty, Bool-cases, inl, inr, arith, leb_iff,
}
use queueboard_core.Prelude.Text.{Text}
use queueboard_core.Prelude.Sorting.{sorted, Ordered, sorted-Ordered, sorted-nonempty, sorted-All}
use queueboard_core.Revisions.Windows.{Window}
use queueboard_core.Revisions.Heads.{Head, seen_before, windows_from, windows_of_heads}

-- A time is not after an end; no time is after the open end.
abbrev pub Reaches : ℕ → Option ℕ → Type 0
Reaches t none = Unit
Reaches t (some end) = t ≤ end

-- The first window starts at `start`, each one ends where the next one starts, the last one ends
-- at `end`, and none ends before it starts.
unfoldable pub Meets : ℕ → List Window → Option ℕ → Type 0
Meets start [] end = ⊥
Meets start (w ∷ []) end = (w.from_ts ≡ start) × (w.to_ts ≡ end) × Reaches w.from_ts end
Meets start (w ∷ v ∷ ws) end =
    (w.from_ts ≡ start)
    × (w.to_ts ≡ some v.from_ts)
    × (w.from_ts ≤ v.from_ts)
    × Meets v.from_ts (v ∷ ws) end

pub Meets-cons :
    (start t : ℕ) (w : Window) (ws : List Window) (end : Option ℕ)
    → w.from_ts ≡ start
    → w.to_ts ≡ some t
    → start ≤ t
    → Meets t ws end
    → Meets start (w ∷ ws) end
unfolding Meets
Meets-cons start t w [] end a b le m = absurd m
Meets-cons start t w (v ∷ []) end a b le m =
    (a, b ∙ ap some (sym m.0), omega (arith, a, m.0, le), (refl, m.1, m.2))
Meets-cons start t w (v ∷ u ∷ ws) end a b le m =
    (a, b ∙ ap some (sym m.0), omega (arith, a, m.0, le), (refl, m.1, m.2, m.3))

pub Meets-append :
    (start t : ℕ) (xs ys : List Window) (end : Option ℕ)
    → Meets start xs (some t)
    → Meets t ys end
    → Meets start (xs ++ ys) end
unfolding Meets
Meets-append start t [] ys end m n = absurd m
Meets-append start t (w ∷ []) ys end m n =
    Meets-cons start t w ys end m.0 m.1 (omega (arith, m.0, m.2)) n
Meets-append start t (w ∷ v ∷ xs) ys end m n =
    Meets-cons start v.from_ts w (v ∷ xs ++ ys) end m.0 m.1 (omega (arith, m.0, m.2))
      (Meets-append v.from_ts t (v ∷ xs) ys end m.3 n)

-- A head is seen between the two times.
abbrev pub Within : ℕ → Option ℕ → Head → Type 0
Within start end h = (leb start h.ts ≡ true) × Reaches h.ts end

-- The heads after the first one are in order, and seen between the two times.
abbrev pub After : ℕ → Option ℕ → List Head → Type 0
After start end [] = ⊥
After start end (h ∷ heads) = All (Within start end) heads × Ordered seen_before heads

windows_from-Meets :
    (end : Option ℕ) (from_ts : ℕ) (sha : Text) (heads : List Head)
    → Reaches from_ts end
    → All (Within from_ts end) heads
    → Ordered seen_before heads
    → Meets from_ts (windows_from end from_ts sha heads) end
unfolding windows_from
windows_from-Meets end from_ts sha [] r a o = unfold Meets in (refl, refl, r)
windows_from-Meets end from_ts sha (h ∷ heads) r a o =
    Meets-cons from_ts h.ts _ (windows_from end h.ts h.sha heads) end refl refl
      ((leb_iff from_ts h.ts).0 a.0.0)
      (windows_from-Meets end h.ts h.sha heads a.0.1 (later h.ts from_ts heads o.0 a.1) o.1)
  where
    later :
        (t start : ℕ) (hs : List Head)
        → All (λ y. leb t y.ts ≡ true) hs
        → All (Within start end) hs
        → All (Within t end) hs
    later t start [] p q = tt
    later t start (y ∷ hs) p q = ((p.0, q.0.1), later t start hs p.1 q.1)

pub windows_of_heads-Meets :
    (end : Option ℕ) (start : ℕ) (heads : List Head)
    → Reaches start end
    → After start end heads
    → Meets start (windows_of_heads end start heads) end
unfolding windows_of_heads
windows_of_heads-Meets end start [] r a = absurd a
windows_of_heads-Meets end start (h ∷ heads) r a =
    windows_from-Meets end start h.sha heads r a.0 a.1

pub sorted_heads : (heads : List Head) → Ordered seen_before (sorted seen_before heads)
sorted_heads =
    sorted-Ordered seen_before (λ x y z p q. ground arith)
      (λ x y. elim (Bool-cases (leb x.ts y.ts)) [ inl p ↦ inl p | inr p ↦ inr (ground arith) ])

-- Heads that are seen between the two times, once they are sorted.
pub sorted-After :
    (start : ℕ) (end : Option ℕ) (heads : List Head)
    → is_empty heads ≡ false
    → All (Within start end) heads
    → After start end (sorted seen_before heads)
sorted-After start end heads e a =
    After-of (sorted seen_before heads) (sorted-nonempty seen_before heads e)
      (sorted-All seen_before (Within start end) heads a) (sorted_heads heads)
  where
    After-of :
        (hs : List Head)
        → is_empty hs ≡ false
        → All (Within start end) hs
        → Ordered seen_before hs
        → After start end hs
    After-of [] n b o = absurd (cc)
    After-of (h ∷ hs) n b o = (b.1, o.1)
