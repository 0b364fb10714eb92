-- ===== src/RateBudget/Preference.antt =====
-- No token is better than the one that is chosen.
use mathlib.Core.List.{Memᴰ}
use queueboard_core.Prelude.{
  ℕ, ◌≡◌, refl, sym, ap, subst, Bool, true, false, not, ◌&&◌, ◌||◌, List, [], ◌∷◌, is_empty,
  contains, ltb, ◌==◌, nat_eq, arith, Memᴰ_of_contains,
}
use queueboard_core.Prelude.Int.{ℤ}
use queueboard_core.Prelude.Text.{Text, text_eq}
use queueboard_core.RateBudget.Choose.{Found, lt_int, best_by, greater_int, pick}
use queueboard_core.RateBudget.Budgets.{Budget, ample, low, unknown, exhausted, spent, Holds}
use queueboard_core.RateBudget.Sorted.{IsTrue}
use queueboard_core.RateBudget.Best.{best_by-IsBest, ltb-IsOrder, greater_int-IsOrder}

abbrev pub level : Budget → ℕ
level (ample r) = 4
level (low r) = 3
level unknown = 2
level (exhausted d) = 1
level spent = 0

-- Within a level: as little left, or as late a reset.
abbrev pub no_more : Budget → Budget → Bool
no_more (ample q) (ample r) = not (lt_int r q)
no_more (low q) (low r) = not (lt_int r q)
no_more (exhausted c) (exhausted d) = not (ltb c d)
no_more _ _ = true

-- `b` is not better than `c`.
unfoldable pub is_no_better : Budget → Budget → Bool
is_no_better b c = ltb (level b) (level c) || (level b == level c && no_more b c)

-- `random.choice` gives an element of a list that is not empty.
abbrev pub Draws : (List Text → Text) → Type 0
Draws random = (ts : List Text) → is_empty ts ≡ false → contains (random ts) ts ≡ true

module _ (random : List Text → Text) (draws : Draws random) (tokens : List Text)
    (some_token : is_empty tokens ≡ false) (budget : Text → Budget) (f : Found)
    (so : IsTrue (λ b t. (budget t ≡ b) × (contains t tokens ≡ true)) f)
    (held : (t : Text) → contains t tokens ≡ true → Holds (budget t) t f) where
  abbrev pub IsChoice : Text → Type 0
  IsChoice t =
      (contains t tokens ≡ true)
      × ((s : Text) → contains s tokens ≡ true → is_no_better (budget s) (budget t) ≡ true)

  ample_case :
      (p : ℤ × Text) (ps : List (ℤ × Text))
      → f.above_threshold ≡ p ∷ ps
      → IsChoice (best_by greater_int p ps)
  unfolding is_no_better
  ample_case p ps e =
      let (r, (m, rest)) = best_by-IsBest greater_int greater_int-IsOrder p ps in
      let (b, listed) =
        so.ample_so (r, best_by greater_int p ps)
          (subst (λ l. Memᴰ (r, best_by greater_int p ps) l) (sym e) m) in
      (listed, λ s k. rw b (by_budget r s (budget s) (held s k) rest))
    where
      by_budget :
          (r : ℤ) (s : Text) (c : Budget)
          → Holds c s f
          → ((q : ℤ × Text) → Memᴰ q (p ∷ ps) → greater_int q.0 r ≡ false)
          → is_no_better c (ample r) ≡ true
      by_budget r s (ample q) h rest =
          let less = rest (q, s) (subst (λ l. Memᴰ (q, s) l) e h) in ground arith
      by_budget r s (low q) h rest = refl
      by_budget r s unknown h rest = refl
      by_budget r s (exhausted d) h rest = refl
      by_budget r s spent h rest = refl

  nothing_in : {A : Type 0} {x : A} {xs : List A} → xs ≡ [] → ¬ Memᴰ x xs
  nothing_in {x = x} e m = elim (subst (λ l. Memᴰ x l) e m) [ ]

  low_case :
      (p : ℤ × Text) (ps : List (ℤ × Text))
      → f.above_threshold ≡ []
      → f.low_budget ≡ p ∷ ps
      → IsChoice (best_by greater_int p ps)
  unfolding is_no_better
  low_case p ps n e =
      let (r, (m, rest)) = best_by-IsBest greater_int greater_int-IsOrder p ps in
      let (b, listed) =
        so.low_so (r, best_by greater_int p ps)
          (subst (λ l. Memᴰ (r, best_by greater_int p ps) l) (sym e) m) in
      (listed, λ s k. rw b (by_budget r s (budget s) (held s k) rest))
    where
      by_budget :
          (r : ℤ) (s : Text) (c : Budget)
          → Holds c s f
          → ((q : ℤ × Text) → Memᴰ q (p ∷ ps) → greater_int q.0 r ≡ false)
          → is_no_better c (low r) ≡ true
      by_budget r s (ample q) h rest = absurd (nothing_in n h)
      by_budget r s (low q) h rest =
          let less = rest (q, s) (subst (λ l. Memᴰ (q, s) l) e h) in ground arith
      by_budget r s unknown h rest = refl
      by_budget r s (exhausted d) h rest = refl
      by_budget r s spent h rest = refl

  unknown_case :
      f.above_threshold ≡ []
      → f.low_budget ≡ []
      → is_empty f.unknown ≡ false
      → IsChoice (random f.unknown)
  unfolding is_no_better
  unknown_case n m e =
      let (b, listed) =
        so.unknown_so (random f.unknown)
          (Memᴰ_of_contains (random f.unknown) f.unknown (draws f.unknown e)) in
      (listed, λ s k. rw b (by_budget s (budget s) (held s k)))
    where
      by_budget : (s : Text) (c : Budget) → Holds c s f → is_no_better c unknown ≡ true
      by_budget s (ample q) h = absurd (nothing_in n h)
      by_budget s (low q) h = absurd (nothing_in m h)
      by_budget s unknown h = refl
      by_budget s (exhausted d) h = refl
      by_budget s spent h = refl

  exhausted_case :
      (p : ℕ × Text) (ps : List (ℕ × Text))
      → f.above_threshold ≡ []
      → f.low_budget ≡ []
      → f.unknown ≡ []
      → f.exhausted ≡ p ∷ ps
      → IsChoice (best_by ltb p ps)
  unfolding is_no_better
  exhausted_case p ps n m u e =
      let (r, (i, rest)) = best_by-IsBest ltb ltb-IsOrder p ps in
      let (b, listed) =
        so.exhausted_so (r, best_by ltb p ps)
          (subst (λ l. Memᴰ (r, best_by ltb p ps) l) (sym e) i) in
      (listed, λ s k. rw b (by_budget r s (budget s) (held s k) rest))
    where
      by_budget :
          (r : ℕ) (s : Text) (c : Budget)
          → Holds c s f
          → ((q : ℕ × Text) → Memᴰ q (p ∷ ps) → ltb q.0 r ≡ false)
          → is_no_better c (exhausted r) ≡ true
      by_budget r s (ample q) h rest = absurd (nothing_in n h)
      by_budget r s (low q) h rest = absurd (nothing_in m h)
      by_budget r s unknown h rest = absurd (nothing_in u h)
      by_budget r s (exhausted d) h rest =
          let less = rest (d, s) (subst (λ l. Memᴰ (d, s) l) e h) in ground arith
      by_budget r s spent h rest = refl

  spent_case :
      f.above_threshold ≡ []
      → f.low_budget ≡ []
      → f.unknown ≡ []
      → f.exhausted ≡ []
      → IsChoice (random tokens)
  unfolding is_no_better
  spent_case n m u x =
      (draws tokens some_token, λ s k. by_budget s (budget s) (held s k) (budget (random tokens)))
    where
      by_budget : (s : Text) (c : Budget) → Holds c s f → (b : Budget) → is_no_better c b ≡ true
      by_budget s (ample q) h b = absurd (nothing_in n h)
      by_budget s (low q) h b = absurd (nothing_in m h)
      by_budget s unknown h b = absurd (nothing_in u h)
      by_budget s (exhausted d) h b = absurd (nothing_in x h)
      by_budget s spent h (ample q) = refl
      by_budget s spent h (low q) = refl
      by_budget s spent h unknown = refl
      by_budget s spent h (exhausted d) = refl
      by_budget s spent h spent = refl

  pub pick-IsChoice : IsChoice (pick random tokens f)
  unfolding pick
  pick-IsChoice = by_lists f.above_threshold f.low_budget f.unknown f.exhausted refl refl refl refl
    where
      by_lists :
          (a l : List (ℤ × Text)) (u : List Text) (x : List (ℕ × Text))
          → f.above_threshold ≡ a
          → f.low_budget ≡ l
          → f.unknown ≡ u
          → f.exhausted ≡ x
          → IsChoice (
              pick random tokens
                (record { above_threshold = a; low_budget = l; unknown = u; exhausted = x }))
      by_lists (p ∷ ps) l u x ea el eu ex = ample_case p ps ea
      by_lists [] (p ∷ ps) u x ea el eu ex = low_case p ps ea el
      by_lists [] [] (t ∷ ts) x ea el eu ex =
          subst (λ w. IsChoice (random w)) eu (unknown_case ea el (ap is_empty eu))
      by_lists [] [] [] (p ∷ ps) ea el eu ex = exhausted_case p ps ea el eu ex
      by_lists [] [] [] [] ea el eu ex = spent_case ea el eu ex
