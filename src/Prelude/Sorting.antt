-- ===== src/Prelude/Sorting.antt =====
-- Python's `sorted`: a stable sort. `before x y` says that `x` may stay ahead of a later `y`.
use mathlib.Core.Path.{◌≡◌, refl, ap, ◌∙◌}
use mathlib.Core.Bool.{Bool, true, false}
use mathlib.Core.Logic.{◌⊎◌, inl, inr}
use mathlib.Core.List.{List, [], ◌∷◌, Perm, Memᴰ}
use mathlib.Core.List.Perm
use mathlib.Core.List.Memᴰ
use native.Mathlib.Omega.{arith}
use queueboard_core.Prelude.Tests.{if◌then◌else◌, Bool-cases}
use queueboard_core.Prelude.Lists.{All, is_empty}

module _ {ℓ} {A : Type ℓ} where
  place : (A → A → Bool) → A → List A → List A
  place before x [] = x ∷ []
  place before x (y ∷ ys) =
      let rest = place before x ys in if before x y then x ∷ y ∷ ys else y ∷ rest

  unfoldable pub sorted : (A → A → Bool) → List A → List A
  unfolding place
  sorted before [] = []
  sorted before (x ∷ xs) = place before x (sorted before xs)

  place-perm : (before : A → A → Bool) (x : A) (xs : List A) → Perm (place before x xs) (x ∷ xs)
  unfolding place
  place-perm before x [] = Perm.refl (x ∷ [])
  place-perm before x (y ∷ ys) = elim (Bool-cases (before x y)) [
    | inl p ↦ rw p (Perm.refl (x ∷ y ∷ ys))
    | inr p ↦ rw p (Perm.trans (Perm.cons y (place-perm before x ys)) (Perm.swap x y ys))
  ]

  -- A sort keeps every element, as often as it stands there.
  pub sorted-perm : (before : A → A → Bool) (xs : List A) → Perm (sorted before xs) xs
  unfolding sorted
  sorted-perm before [] = Perm.refl []
  sorted-perm before (x ∷ xs) =
      Perm.trans (place-perm before x (sorted before xs)) (Perm.cons x (sorted-perm before xs))

  pub sorted_single : (before : A → A → Bool) (x : A) → sorted before (x ∷ []) ≡ x ∷ []
  unfolding sorted place
  sorted_single before x = refl

  Memᴰ-place :
      (before : A → A → Bool) (a x : A) (xs : List A)
      → Memᴰ a (place before x xs)
      → (a ≡ x) ⊎ Memᴰ a xs
  unfolding place
  Memᴰ-place before a x [] m = Memᴰ.cases_cons m
  Memᴰ-place before a x (y ∷ ys) m = elim (Bool-cases (before x y)) [
    | inl p ↦ Memᴰ.cases_cons (rw p at m)
    | inr p ↦ elim (Memᴰ.cases_cons (rw p at m)) [
      | inl e ↦ inr (Memᴰ.head e)
      | inr n ↦ elim (Memᴰ-place before a x ys n) [ inl e ↦ inl e | inr k ↦ inr (Memᴰ.tail k) ]
    ]
  ]

  -- What stands in the sorted list stands in the list.
  pub Memᴰ-sorted :
      (before : A → A → Bool) (a : A) (xs : List A) → Memᴰ a (sorted before xs) → Memᴰ a xs
  unfolding sorted
  Memᴰ-sorted before a [] m = m
  Memᴰ-sorted before a (x ∷ xs) m = elim (Memᴰ-place before a x (sorted before xs) m) [
    | inl e ↦ Memᴰ.head e
    | inr n ↦ Memᴰ.tail (Memᴰ-sorted before a xs n)
  ]

  place-nonempty :
      (before : A → A → Bool) (x : A) (xs : List A) → is_empty (place before x xs) ≡ false
  unfolding place
  place-nonempty before x [] = refl
  place-nonempty before x (y ∷ ys) = ground arith

  pub sorted-nonempty :
      (before : A → A → Bool) (xs : List A)
      → is_empty xs ≡ false
      → is_empty (sorted before xs) ≡ false
  unfolding sorted
  sorted-nonempty before [] e = e
  sorted-nonempty before (x ∷ xs) e = place-nonempty before x (sorted before xs)

  place-kept_All {κ} :
      (before : A → A → Bool) (P : A → Type κ) (x : A) (xs : List A)
      → P x
      → All P xs
      → All P (place before x xs)
  unfolding place
  place-kept_All before P x [] p a = (p, tt)
  place-kept_All before P x (y ∷ ys) p a = elim (Bool-cases (before x y)) [
    | inl q ↦ rw q (p, a)
    | inr q ↦ rw q (a.0, place-kept_All before P x ys p a.1)
  ]

  pub sorted-All {κ} :
      (before : A → A → Bool) (P : A → Type κ) (xs : List A) → All P xs → All P (sorted before xs)
  unfolding sorted
  sorted-All before P [] a = tt
  sorted-All before P (x ∷ xs) a =
      place-kept_All before P x (sorted before xs) a.0 (sorted-All before P xs a.1)

  pub sorted_kept :
      (before : A → A → Bool) (x y : A) (ys : List A)
      → sorted before (y ∷ ys) ≡ y ∷ ys
      → before x y ≡ true
      → sorted before (x ∷ y ∷ ys) ≡ x ∷ y ∷ ys
  unfolding sorted
  sorted_kept before x y ys same p = ap (place before x) same ∙ (unfold place in rw p refl)

  place-first :
      (before : A → A → Bool) (x : A) (xs : List A)
      → All (λ y. before x y ≡ true) xs
      → place before x xs ≡ x ∷ xs
  unfolding place
  place-first before x [] a = refl
  place-first before x (y ∷ ys) a = rw (a.0) refl

  -- An element that goes before all of a list comes first when it is sorted with it.
  pub sorted_first :
      (before : A → A → Bool) (x : A) (xs : List A)
      → All (λ y. before x y ≡ true) (sorted before xs)
      → sorted before (x ∷ xs) ≡ x ∷ sorted before xs
  unfolding sorted
  sorted_first before x xs a = place-first before x (sorted before xs) a

-- What is known of the first element of a sorted list.
pub record IsFirst {ℓ} {A : Type ℓ} (before : A → A → Bool) (h : A) (xs : List A) : Type ℓ where
  pub first : All (λ y. before h y ≡ true) xs
  pub listed : Memᴰ h xs

module _ {ℓ} {A : Type ℓ} (before : A → A → Bool)
    (trans : (x y z : A) → before x y ≡ true → before y z ≡ true → before x z ≡ true)
    (total : (x y : A) → (before x y ≡ true) ⊎ (before y x ≡ true)) where
  All-trans :
      (x h : A) (ys : List A)
      → before x h ≡ true
      → All (λ y. before h y ≡ true) ys
      → All (λ y. before x y ≡ true) ys
  All-trans x h [] p a = tt
  All-trans x h (y ∷ ys) p a = (trans x h y p a.0, All-trans x h ys p a.1)

  before_self : (x : A) → before x x ≡ true
  before_self x = elim (total x x) [ inl p ↦ p | inr p ↦ p ]

  -- The head of a sorted list goes before every element, and is one of them.
  pub sorted-IsFirst :
      (x : A) (xs : List A)
      → (h : A) × (t : List A) × (sorted before (x ∷ xs) ≡ h ∷ t) × IsFirst before h (x ∷ xs)
  unfolding sorted place
  sorted-IsFirst x [] =
      (x, [], refl, record { first = (before_self x, tt); listed = Memᴰ.head refl })
  sorted-IsFirst x (y ∷ ys) =
      let (h, t, p, f) = sorted-IsFirst y ys in
      elim (Bool-cases (before x h)) [
        | inl q ↦ (
          x,
          h ∷ t,
          rw (p, q),
          record {
            first = (before_self x, All-trans x h (y ∷ ys) q f.first);
            listed = Memᴰ.head refl;
          },
        )
        | inr q ↦ (
          h,
          place before x t,
          rw (p, q),
          record {
            first = (elim (total x h) [ inl r ↦ cc | inr r ↦ r ], f.first);
            listed = Memᴰ.tail f.listed;
          },
        )
      ]

-- Every element goes before those that follow it.
abbrev pub Ordered {ℓ} : {A : Type ℓ} → (A → A → Bool) → List A → Type 0
Ordered before [] = Unit
Ordered before (x ∷ xs) = All (λ y. before x y ≡ true) xs × Ordered before xs

module _ {ℓ} {A : Type ℓ} (before : A → A → Bool)
    (trans : (x y z : A) → before x y ≡ true → before y z ≡ true → before x z ≡ true)
    (total : (x y : A) → (before x y ≡ true) ⊎ (before y x ≡ true)) where
  place-All :
      (h x : A) (ys : List A)
      → before h x ≡ true
      → All (λ y. before h y ≡ true) ys
      → All (λ y. before h y ≡ true) (place before x ys)
  unfolding place
  place-All h x [] p a = (p, tt)
  place-All h x (y ∷ ys) p a = elim (Bool-cases (before x y)) [
    | inl q ↦ rw q (p, a)
    | inr q ↦ rw q (a.0, place-All h x ys p a.1)
  ]

  place-Ordered : (x : A) (ys : List A) → Ordered before ys → Ordered before (place before x ys)
  unfolding place
  place-Ordered x [] o = (tt, tt)
  place-Ordered x (y ∷ ys) o = elim (Bool-cases (before x y)) [
    | inl q ↦ rw q ((q, All-trans before trans total x y ys q o.0), o)
    | inr q ↦
        rw q (
          place-All y x ys (elim (total x y) [ inl r ↦ cc | inr r ↦ r ]) o.0,
          place-Ordered x ys o.1,
        )
  ]

  pub sorted-Ordered : (xs : List A) → Ordered before (sorted before xs)
  unfolding sorted
  sorted-Ordered [] = tt
  sorted-Ordered (x ∷ xs) = place-Ordered x (sorted before xs) (sorted-Ordered xs)
