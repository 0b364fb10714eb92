-- ===== src/RateBudget/Best.antt =====
-- `best_by` gives a pair with a best key.
use mathlib.Core.List.{Memᴰ}
use mathlib.Core.List.Memᴰ
use queueboard_core.Prelude.{
  ◌≡◌, refl, ap, ◌∙◌, inl, inr, Bool, true, false, List, [], ◌∷◌, ltb, nat_eq, Bool-cases, arith,
}
use queueboard_core.Prelude.Text.{Text, text_eq}
use queueboard_core.RateBudget.Choose.{best_by, greater_int}

Memᴰ_second : {A : Type 0} (a p x : A) (ps : List A) → Memᴰ a (p ∷ ps) → Memᴰ a (p ∷ x ∷ ps)
Memᴰ_second a p x ps (Memᴰ.head e) = Memᴰ.head e
Memᴰ_second a p x ps (Memᴰ.tail m) = Memᴰ.tail (Memᴰ.tail m)

-- The key is in the list, and no key of the list is better.
abbrev pub IsBest : {K : Type 0} → (K → K → Bool) → K → Text → List (K × Text) → Type 0
IsBest {K} better r t ps = Memᴰ (r, t) ps × ((q : K × Text) → Memᴰ q ps → better q.0 r ≡ false)

-- A strict order in which two keys that neither is better than the other are alike.
pub record IsOrder {K : Type 0} (better : K → K → Bool) : Type 0 where
  pub irr : (a : K) → better a a ≡ false
  pub asym : (a b : K) → better a b ≡ true → better b a ≡ false
  pub weak : (a b c : K) → better a b ≡ false → better b c ≡ false → better a c ≡ false

pub best_by-IsBest :
    {K : Type 0} (better : K → K → Bool)
    → IsOrder better
    → (p : K × Text) (ps : List (K × Text))
    → (r : K) × IsBest better r (best_by better p ps) (p ∷ ps)
unfolding best_by
best_by-IsBest {K} better o p [] = (
  p.0,
  (
    Memᴰ.head refl,
    λ q m. elim (Memᴰ.cases_cons m) [
      | inl e ↦ ap (λ (y : K × Text). better y.0 p.0) e ∙ o.irr p.0
      | inr n ↦ elim n [ ]
    ],
  ),
)
best_by-IsBest {K} better o p (x ∷ ps) = elim (Bool-cases (better x.0 p.0)) [
  | inl e ↦
      let (r, (m, rest)) = best_by-IsBest better o x ps in
      (
        r,
        (
          rw e (Memᴰ.tail m),
          λ q n. elim (Memᴰ.cases_cons n) [
            | inl same ↦
                ap (λ (y : K × Text). better y.0 r) same
                ∙ o.weak p.0 x.0 r (o.asym x.0 p.0 e) (rest x (Memᴰ.head refl))
            | inr k ↦ rest q k
          ],
        ),
      )
  | inr e ↦
      let (r, (m, rest)) = best_by-IsBest better o p ps in
      (
        r,
        (
          rw e (Memᴰ_second (r, best_by better p ps) p x ps m),
          λ q n. elim (Memᴰ.cases_cons n) [
            | inl same ↦ rest q (Memᴰ.head same)
            | inr k ↦ elim (Memᴰ.cases_cons k) [
              | inl same ↦
                  ap (λ (y : K × Text). better y.0 r) same
                  ∙ o.weak x.0 p.0 r e (rest p (Memᴰ.head refl))
              | inr l ↦ rest q (Memᴰ.tail l)
            ]
          ],
        ),
      )
]

pub ltb-IsOrder : IsOrder ltb
ltb-IsOrder = record {
  irr = λ a. ground arith;
  asym = λ a b h. ground arith;
  weak = λ a b c h k. ground arith;
}

pub greater_int-IsOrder : IsOrder greater_int
greater_int-IsOrder = record {
  irr = λ a. ground arith;
  asym = λ a b h. ground arith;
  weak = λ a b c h k. ground arith;
}
