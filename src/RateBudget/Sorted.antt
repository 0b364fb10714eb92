-- ===== src/RateBudget/Sorted.antt =====
-- After the loop, each token stands where its budget says, and nothing else stands there.
use mathlib.Core.List.{Memᴰ}
use mathlib.Core.List.Memᴰ
use queueboard_core.Prelude.{ℕ, refl, sym, subst, inl, inr, Option, List, [], ◌∷◌, ◌++◌, nat_eq}
use queueboard_core.Prelude.Int.{ℤ, pos}
use queueboard_core.Prelude.Text.{Text, text_eq}
use queueboard_core.RateBudget.Choose.{Snapshot, Found, take_token, sort_tokens}
use queueboard_core.RateBudget.Budgets.{
  Budget, ample, low, unknown, exhausted, spent, budget_of, add_by, take_token-add_by, Holds,
  Holds-kept, Holds-new,
}

snoc_member :
    {A : Type 0} (Q : A → Type 0) (xs : List A) (y : A)
    → ((x : A) → Memᴰ x xs → Q x)
    → Q y
    → (x : A) → Memᴰ x (xs ++ y ∷ [])
    → Q x
snoc_member Q xs y h k x m = elim (Memᴰ.append_cases xs m) [
  | inl old ↦ h x old
  | inr new ↦ subst Q (sym (Memᴰ.eq_of_singleton new)) k
]

-- What stands in the lists is so.
pub record IsTrue (P : Budget → Text → Type 0) (f : Found) : Type 0 where
  pub ample_so : (p : ℤ × Text) → Memᴰ p f.above_threshold → P (ample p.0) p.1
  pub low_so : (p : ℤ × Text) → Memᴰ p f.low_budget → P (low p.0) p.1
  pub unknown_so : (t : Text) → Memᴰ t f.unknown → P unknown t
  pub exhausted_so : (p : ℕ × Text) → Memᴰ p f.exhausted → P (exhausted p.0) p.1

add_by-IsTrue :
    (P : Budget → Text → Type 0) (b : Budget) (t : Text) (f : Found)
    → IsTrue P f
    → P b t
    → IsTrue P (add_by b t f)
unfolding add_by
add_by-IsTrue P (ample r) t f h k = record {
  ample_so =
      snoc_member (λ (p : ℤ × Text). P (ample p.0) p.1) f.above_threshold (r, t) h.ample_so k;
  low_so = h.low_so;
  unknown_so = h.unknown_so;
  exhausted_so = h.exhausted_so;
}
add_by-IsTrue P (low r) t f h k = record {
  ample_so = h.ample_so;
  low_so = snoc_member (λ (p : ℤ × Text). P (low p.0) p.1) f.low_budget (r, t) h.low_so k;
  unknown_so = h.unknown_so;
  exhausted_so = h.exhausted_so;
}
add_by-IsTrue P unknown t f h k = record {
  ample_so = h.ample_so;
  low_so = h.low_so;
  unknown_so = snoc_member (P unknown) f.unknown t h.unknown_so k;
  exhausted_so = h.exhausted_so;
}
add_by-IsTrue P (exhausted d) t f h k = record {
  ample_so = h.ample_so;
  low_so = h.low_so;
  unknown_so = h.unknown_so;
  exhausted_so =
      snoc_member (λ (p : ℕ × Text). P (exhausted p.0) p.1) f.exhausted (d, t) h.exhausted_so k;
}
add_by-IsTrue P spent t f h k = h

module _ (threshold now : ℕ) (snapshots : Text → Option Snapshot) where
  pub sort_tokens-IsTrue :
      (P : Budget → Text → Type 0) (ids : List (Text × Text)) (f : Found)
      → ((e : Text × Text) → Memᴰ e ids → P (budget_of threshold (snapshots e.0)) e.1)
      → IsTrue P f
      → IsTrue P (sort_tokens (pos threshold) now snapshots ids f)
  unfolding sort_tokens
  sort_tokens-IsTrue P [] f h k = k
  sort_tokens-IsTrue P ((i, t) ∷ ids) f h k =
      let same = take_token-add_by threshold now (snapshots i) t f in
      sort_tokens-IsTrue P ids (take_token (pos threshold) now (snapshots i) t f)
        (λ e m. h e (Memᴰ.tail m))
        (subst (IsTrue P) (sym same)
          (add_by-IsTrue P (budget_of threshold (snapshots i)) t f k (h (i, t) (Memᴰ.head refl))))

  sort_tokens-kept :
      (b : Budget) (s : Text) (ids : List (Text × Text)) (f : Found)
      → Holds b s f
      → Holds b s (sort_tokens (pos threshold) now snapshots ids f)
  unfolding sort_tokens
  sort_tokens-kept b s [] f h = h
  sort_tokens-kept b s ((i, t) ∷ ids) f h =
      let same = take_token-add_by threshold now (snapshots i) t f in
      sort_tokens-kept b s ids (take_token (pos threshold) now (snapshots i) t f)
        (subst (Holds b s) (sym same) (Holds-kept b (budget_of threshold (snapshots i)) s t f h))

  pub sort_tokens-Holds :
      (e : Text × Text) (ids : List (Text × Text)) (f : Found)
      → Memᴰ e ids
      → Holds
          (budget_of threshold (snapshots e.0))
          e.1
          (sort_tokens (pos threshold) now snapshots ids f)
  unfolding sort_tokens
  sort_tokens-Holds e [] f m = elim m [ ]
  sort_tokens-Holds e ((i, t) ∷ ids) f (Memᴰ.tail m) =
      sort_tokens-Holds e ids (take_token (pos threshold) now (snapshots i) t f) m
  sort_tokens-Holds e ((i, t) ∷ ids) f (Memᴰ.head p) =
      let same = take_token-add_by threshold now (snapshots i) t f in
      let first =
        sort_tokens-kept (budget_of threshold (snapshots i)) t ids
          (take_token (pos threshold) now (snapshots i) t f)
          (subst (Holds (budget_of threshold (snapshots i)) t) (sym same)
            (Holds-new (budget_of threshold (snapshots i)) t f)) in
      subst
        (λ (x : Text × Text). Holds (budget_of threshold (snapshots x.0)) x.1 (
          sort_tokens (pos threshold) now snapshots ids
            (take_token (pos threshold) now (snapshots i) t f)))
        (sym p) first
