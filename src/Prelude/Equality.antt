-- ===== src/Prelude/Equality.antt =====
-- Python's `==` and `in`: a type with a Boolean equality test, as an instance.
use mathlib.Core.Path.{◌≡◌, refl, sym, subst, ◌∙◌}
use mathlib.Core.Logic.{◌↔◌, inl, inr, ∥∥₁_elim}
use mathlib.Core.Bool.{Bool, true, false, ◌&&◌, ◌||◌}
use mathlib.Core.List.{List, [], ◌∷◌, ◌++◌, Perm, Permᴰ, Memᴰ}
use native.Mathlib.Omega.{arith}
use Prim.Native.Nat.{ℕ}
use queueboard_core.Prelude.Lists.{All, keep}
use queueboard_core.Prelude.Tests.{nat_beq, nat_beq_iff, if◌then◌else◌, Bool-cases}

pub record Eq {ℓ} (A : Type ℓ) : Type ℓ where
  pub beq : A → A → Bool
  pub beq_iff : (a b : A) → (beq a b ≡ true) ↔ (a ≡ b)

-- The test that a decision gives.
abbrev pub test_of {ℓ} : {A : Type ℓ} → Discrete A → A → A → Bool
test_of d a b = elim (d a b) [ yes _ ↦ true | no _ ↦ false ]

pub test_of_iff {ℓ} : {A : Type ℓ} (d : Discrete A) (a b : A) → (test_of d a b ≡ true) ↔ (a ≡ b)
test_of_iff d a b = go (d a b)
  where
    go : (x : Dec (a ≡ b)) → (elim x [ yes _ ↦ true | no _ ↦ false ] ≡ true) ↔ (a ≡ b)
    go (yes p) = (λ _. p, λ _. refl)
    go (no p) = (λ e. cc, λ e. absurd (p e))

abbrev pub discrete_eq {ℓ} : {A : Type ℓ} → Discrete A → Eq A
discrete_eq d = record { beq = test_of d; beq_iff = test_of_iff d }

instance abbrev pub nat_eq : Eq ℕ
nat_eq = record { beq = nat_beq; beq_iff = nat_beq_iff }

infix 50 ◌==◌
abbrev pub ◌==◌ {ℓ} : {A : Type ℓ} ⦃e : Eq A⦄ → A → A → Bool
◌==◌ ⦃e⦄ = e.beq

module _ {ℓ} {A : Type ℓ} ⦃e : Eq A⦄ where
  pub beq_refl : (a : A) → e.beq a a ≡ true
  beq_refl a = (e.beq_iff a a).1 refl

  pub beq_comm : (a b : A) → e.beq a b ≡ e.beq b a
  beq_comm a b = ground (arith, e.beq_iff a b, e.beq_iff b a)

  -- `a in xs`
  unfoldable pub contains : A → List A → Bool
  contains a [] = false
  contains a (x ∷ xs) = a == x || contains a xs

  pub contains-append :
      (a : A) (xs ys : List A) → contains a (xs ++ ys) ≡ (contains a xs || contains a ys)
  unfolding contains
  contains-append a [] ys = refl
  contains-append a (x ∷ xs) ys = ground (arith, contains-append a xs ys)

  -- `xs.remove(a)`: the first occurrence; unchanged where there is none (where Python raises).
  unfoldable pub erase : A → List A → List A
  erase a [] = []
  erase a (x ∷ xs) = let rest = erase a xs in if x == a then xs else x ∷ rest

  -- `set.add` and the deduplication that a set makes, in the order of first insertion.
  unfoldable pub insert : A → List A → List A
  insert a xs = if contains a xs then xs else xs ++ a ∷ []

  -- `set.discard`
  unfoldable pub discard : A → List A → List A
  discard a [] = []
  discard a (x ∷ xs) = let rest = discard a xs in if x == a then rest else x ∷ rest

  pub contains-insert :
      (a b : A) (xs : List A) → contains b (insert a xs) ≡ (b == a || contains b xs)
  unfolding contains insert
  contains-insert a b xs = elim (Bool-cases (contains a xs)) [
    | inl old ↦ ground (arith, e.beq_iff b a)
    | inr new ↦ ground (arith, contains-append b xs (a ∷ []))
  ]

  pub contains-discard :
      (a b : A) (xs : List A)
      → contains b (discard a xs) ≡ (if b == a then false else contains b xs)
  unfolding contains discard
  contains-discard a b [] = ground arith
  contains-discard a b (x ∷ xs) =
      ground (arith, contains-discard a b xs, e.beq_iff b a, e.beq_iff x a, e.beq_iff b x)

  pub All-contains {κ} :
      (P : A → Type κ) (a : A) (xs : List A) → All P xs → contains a xs ≡ true → P a
  unfolding contains
  All-contains P a [] h m = cc
  All-contains P a (x ∷ xs) h m = elim (Bool-cases (e.beq a x)) [
    | inl p ↦ subst P (sym ((e.beq_iff a x).0 p)) h.0
    | inr p ↦ All-contains P a xs h.1 (ground arith)
  ]

  pub contains-keep :
      (p : A → Bool) (a : A) (xs : List A) → contains a (keep p xs) ≡ (p a && contains a xs)
  unfolding contains keep
  contains-keep p a [] = ground arith
  contains-keep p a (x ∷ xs) = elim (Bool-cases (e.beq a x)) [
    | inl q ↦
        let same = (e.beq_iff a x).0 q in
        rw (q, same) (ground (arith, contains-keep p a xs, beq_refl x))
    | inr q ↦ ground (arith, contains-keep p a xs)
  ]

  contains-permᴰ : (a : A) {xs ys : List A} → Permᴰ xs ys → contains a xs ≡ contains a ys
  unfolding contains
  contains-permᴰ a Permᴰ.nil = refl
  contains-permᴰ a (Permᴰ.cons p q) = rw (p, contains-permᴰ a q)
  contains-permᴰ a (Permᴰ.swap p q) = rw (p, q) (ground arith)
  contains-permᴰ a (Permᴰ.trans q r) = contains-permᴰ a q ∙ contains-permᴰ a r

  -- Membership does not see the order of a list.
  pub contains-perm : (a : A) (xs ys : List A) → Perm xs ys → contains a xs ≡ contains a ys
  contains-perm a xs ys p = ∥∥₁_elim p (hlevel) (λ q. contains-permᴰ a q)

  pub contains-Memᴰ : (a : A) (xs : List A) → Memᴰ a xs → contains a xs ≡ true
  unfolding contains
  contains-Memᴰ a [] m = elim m [ ]
  contains-Memᴰ a (x ∷ xs) (Memᴰ.head p) = ground (arith, e.beq_iff a x)
  contains-Memᴰ a (x ∷ xs) (Memᴰ.tail m) = ground (arith, contains-Memᴰ a xs m)

  pub Memᴰ_of_contains : (a : A) (xs : List A) → contains a xs ≡ true → Memᴰ a xs
  unfolding contains
  Memᴰ_of_contains a [] h = absurd (cc)
  Memᴰ_of_contains a (x ∷ xs) h = elim (Bool-cases (e.beq a x)) [
    | inl p ↦ Memᴰ.head ((e.beq_iff a x).0 p)
    | inr p ↦ Memᴰ.tail (Memᴰ_of_contains a xs (ground arith))
  ]

  -- No element stands twice.
  abbrev pub Distinct : List A → Type 0
  Distinct [] = Unit
  Distinct (x ∷ xs) = (contains x xs ≡ false) × Distinct xs

  pub contains-erase :
      (a b : A) (xs : List A) → contains b (erase a xs) ≡ true → contains b xs ≡ true
  unfolding contains erase
  contains-erase a b [] h = h
  contains-erase a b (x ∷ xs) h = ground (arith, contains-erase a b xs)

  pub Distinct-erase : (a : A) (xs : List A) → Distinct xs → Distinct (erase a xs)
  unfolding erase
  Distinct-erase a [] h = tt
  Distinct-erase a (x ∷ xs) h = elim (Bool-cases (e.beq x a)) [
    | inl p ↦ rw p h.1
    | inr p ↦ rw p (ground (arith, contains-erase a x xs, h.0), Distinct-erase a xs h.1)
  ]

  pub not-contains-erase : (a : A) (xs : List A) → Distinct xs → contains a (erase a xs) ≡ false
  unfolding contains erase
  not-contains-erase a [] h = refl
  not-contains-erase a (x ∷ xs) h = elim (Bool-cases (e.beq x a)) [
    | inl p ↦ rw p (subst (λ y. contains y xs ≡ false) ((e.beq_iff x a).0 p) h.0)
    | inr p ↦ rw p (ground (arith, not-contains-erase a xs h.1, e.beq_iff a x, e.beq_iff x a))
  ]
