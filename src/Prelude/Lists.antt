-- ===== src/Prelude/Lists.antt =====
-- Lists measured by native numbers, and Python's comprehensions with a Boolean test.
use Prim.Native.Nat.{ℕ, suc, ◌+◌}
use mathlib.Core.Logic.{inl, inr}
use mathlib.Core.Path.{◌∙◌, ◌≡◌, refl, ap}
use mathlib.Core.Bool.{Bool, true, false, ◌&&◌, ◌||◌}
use mathlib.Core.List.{Memᴰ, List, [], ◌∷◌, ◌++◌, map}
use mathlib.Core.Option.{Option, none, some}
use native.Mathlib.Omega.{arith}
use queueboard_core.Prelude.Tests.{Bool-cases, if◌then◌else◌}

module _ {ℓ} {A : Type ℓ} where
  abbrev pub length : List A → ℕ
  length [] = 0
  length (x ∷ xs) = suc (length xs)

  pub length-append : (xs ys : List A) → length (xs ++ ys) ≡ length xs + length ys
  length-append [] ys = omega arith
  length-append (x ∷ xs) ys = omega (arith, length-append xs ys)

  -- `[x for x in xs if p(x)]`
  unfoldable pub keep : (A → Bool) → List A → List A
  keep p [] = []
  keep p (x ∷ xs) = let rest = keep p xs in if p x then x ∷ rest else rest

  -- `any(p(x) for x in xs)`, `all(p(x) for x in xs)`
  unfoldable pub any : (A → Bool) → List A → Bool
  any p [] = false
  any p (x ∷ xs) = p x || any p xs

  unfoldable pub all : (A → Bool) → List A → Bool
  all p [] = true
  all p (x ∷ xs) = p x && all p xs

  -- `xs[0] if xs else None`, and `.first()` of a query.
  abbrev pub head? : List A → Option A
  head? [] = none
  head? (x ∷ xs) = some x

  -- `not xs`
  abbrev pub is_empty : List A → Bool
  is_empty [] = true
  is_empty (x ∷ xs) = false

  -- `xs[-1]` of the list `x ∷ xs`.
  abbrev pub last_of : A → List A → A
  last_of x [] = x
  last_of x (y ∷ ys) = last_of y ys

module _ {ℓ κ} {A : Type ℓ} {B : Type κ} where
  pub length-map : (f : A → B) (xs : List A) → length (map f xs) ≡ length xs
  length-map f [] = refl
  length-map f (x ∷ xs) = ap suc (length-map f xs)

-- A predicate of every element, by recursion, so that it computes to tuples.
abbrev pub All {ℓ κ} : {A : Type ℓ} → (A → Type κ) → List A → Type κ
All P [] = Unit
All P (x ∷ xs) = P x × All P xs

pub All-of_forall {ℓ κ} : {A : Type ℓ} (P : A → Type κ) → ((a : A) → P a) → (xs : List A) → All P xs
All-of_forall P h [] = tt
All-of_forall P h (x ∷ xs) = (h x, All-of_forall P h xs)

-- `do` over Python code that may raise: `none` is an exception that ends the call.
infixl 5 ◌>>=◌
abbrev pub ◌>>=◌ {ℓ κ} : {A : Type ℓ} {B : Type κ} → Option A → (A → Option B) → Option B
none >>= f = none
some a >>= f = f a

abbrev pub is_some {ℓ} : {A : Type ℓ} → Option A → Bool
is_some none = false
is_some (some a) = true

abbrev pub get_or {ℓ} : {A : Type ℓ} → Option A → A → A
get_or none d = d
get_or (some a) d = a

module _ {ℓ} {A : Type ℓ} (p : A → Bool) where
  pub All-keep {κ} :
      (P : A → Type κ) (xs : List A) → All P (keep p xs) → All (λ x. p x ≡ true → P x) xs
  unfolding keep
  All-keep P [] h = tt
  All-keep P (x ∷ xs) h = elim (Bool-cases (p x)) [
    | inl q ↦ let (a, b) = rw q at h in (λ _. a, All-keep P xs b)
    | inr q ↦ (λ e. absurd (ground arith), All-keep P xs (rw q at h))
  ]

  pub keep-All {κ} :
      (P : A → Type κ) → ((x : A) → p x ≡ true → P x) → (xs : List A) → All P (keep p xs)
  unfolding keep
  keep-All P f [] = tt
  keep-All P f (x ∷ xs) = elim (Bool-cases (p x)) [
    | inl q ↦ rw q (f x q, keep-All P f xs)
    | inr q ↦ rw q (keep-All P f xs)
  ]

  pub All-kept {κ} : (P : A → Type κ) (xs : List A) → All P xs → All P (keep p xs)
  unfolding keep
  All-kept P [] a = tt
  All-kept P (x ∷ xs) a = elim (Bool-cases (p x)) [
    | inl q ↦ rw q (a.0, All-kept P xs a.1)
    | inr q ↦ rw q (All-kept P xs a.1)
  ]

  Memᴰ-kept :
      (a x : A) (xs : List A)
      → p x ≡ true
      → (Memᴰ a (keep p xs) → Memᴰ a xs × (p a ≡ true))
      → Memᴰ a (x ∷ keep p xs)
      → Memᴰ a (x ∷ xs) × (p a ≡ true)
  Memᴰ-kept a x xs q f (Memᴰ.head e) = (Memᴰ.head e, ap p e ∙ q)
  Memᴰ-kept a x xs q f (Memᴰ.tail m) = let (i, e') = f m in (Memᴰ.tail i, e')

  pub Memᴰ-keep : (a : A) (xs : List A) → Memᴰ a (keep p xs) → Memᴰ a xs × (p a ≡ true)
  unfolding keep
  Memᴰ-keep a [] m = elim m [ ]
  Memᴰ-keep a (x ∷ xs) m = elim (Bool-cases (p x)) [
    | inl q ↦ Memᴰ-kept a x xs q (λ m'. Memᴰ-keep a xs m') (rw q at m)
    | inr q ↦ let (i, e) = Memᴰ-keep a xs (rw q at m) in (Memᴰ.tail i, e)
  ]

  pub keep_none : (xs : List A) → any p xs ≡ false → keep p xs ≡ []
  unfolding keep any
  keep_none [] h = refl
  keep_none (x ∷ xs) h = ground (arith, keep_none xs)

  pub keep_some : (xs : List A) → any p xs ≡ true → (y : A) × (ys : List A) × (keep p xs ≡ y ∷ ys)
  unfolding keep any
  keep_some [] h = absurd (cc)
  keep_some (x ∷ xs) h = elim (Bool-cases (p x)) [
    | inl q ↦ (x, keep p xs, ground arith)
    | inr q ↦ let (y, ys, e) = keep_some xs (ground arith) in (y, ys, ground arith)
  ]

-- An element of a mapped list comes from one of the list.
pub Memᴰ-map {ℓ κ} :
    {A : Type ℓ} {B : Type κ} (f : A → B) (b : B) (xs : List A)
    → Memᴰ b (map f xs)
    → (a : A) × Memᴰ a xs × (b ≡ f a)
Memᴰ-map f b [] m = elim m [ ]
Memᴰ-map f b (x ∷ xs) (Memᴰ.head e) = (x, Memᴰ.head refl, e)
Memᴰ-map f b (x ∷ xs) (Memᴰ.tail m) = let (a, n, e) = Memᴰ-map f b xs m in (a, Memᴰ.tail n, e)
