-- ===== src/Prelude/Dict.antt =====
-- A Python dict: its items in the order in which their keys were first set.
use mathlib.Core.Path.{◌≡◌, refl}
use mathlib.Core.Bool.{Bool}
use mathlib.Core.List.{Memᴰ, ◌++◌, List, [], ◌∷◌, map}
use mathlib.Core.Option.{Option, none, some}
use native.Mathlib.Omega.{arith}
use queueboard_core.Prelude.Tests.{if◌then◌else◌, Bool-cases}
use mathlib.Core.List.Memᴰ
use mathlib.Core.Logic.{◌⊎◌, inl, inr}
use queueboard_core.Prelude.Lists.{is_some}
use queueboard_core.Prelude.Equality.{Eq, ◌==◌, contains}

abbrev pub map_value {ℓ} : {V : Type ℓ} → (V → V) → Option V → Option V
map_value f none = none
map_value f (some v) = some (f v)

module _ {ℓ κ} {K : Type ℓ} {V : Type κ} ⦃e : Eq K⦄ where
  -- `d.get(key)`
  unfoldable pub get : K → List (K × V) → Option V
  get key [] = none
  get key ((k, v) ∷ d) = let rest = get key d in if k == key then some v else rest

  -- `d[key] = v`
  unfoldable pub put : K → V → List (K × V) → List (K × V)
  put key v [] = (key, v) ∷ []
  put key v ((k, w) ∷ d) = let rest = put key v d in if k == key then (k, v) ∷ d else (k, w) ∷ rest

  -- `d[key]` changed in place, where it is there.
  unfoldable pub modify : K → (V → V) → List (K × V) → List (K × V)
  modify key f [] = []
  modify key f ((k, v) ∷ d) =
      let rest = modify key f d in if k == key then (k, f v) ∷ d else (k, v) ∷ rest

  abbrev pub keys : List (K × V) → List K
  keys d = map (λ (kv : K × V). kv.0) d

  -- `key in d`
  abbrev pub has_key : K → List (K × V) → Bool
  has_key key d = is_some (get key d)

  pub get-put :
      (j k : K) (v : V) (d : List (K × V))
      → get j (put k v d) ≡ (if k == j then some v else get j d)
  unfolding get put
  get-put j k v [] = refl
  get-put j k v ((i, w) ∷ d) =
      ground (arith, e.beq_iff k j, e.beq_iff i k, e.beq_iff i j, get-put j k v d)

  pub get-modify :
      (j k : K) (f : V → V) (d : List (K × V))
      → get j (modify k f d) ≡ (if k == j then map_value f (get j d) else get j d)
  unfolding get modify
  get-modify j k f [] = ground arith
  get-modify j k f ((i, w) ∷ d) =
      ground (arith, e.beq_iff k j, e.beq_iff i k, e.beq_iff i j, get-modify j k f d)

  pub has_key-keys : (k : K) (d : List (K × V)) → has_key k d ≡ contains k (keys d)
  unfolding get contains
  has_key-keys k [] = refl
  has_key-keys k ((i, w) ∷ d) = ground (arith, e.beq_iff i k, e.beq_iff k i, has_key-keys k d)

  -- A new key comes last.
  pub put_absent :
      (k : K) (v : V) (d : List (K × V)) → get k d ≡ none → put k v d ≡ d ++ (k, v) ∷ []
  unfolding get put
  put_absent k v [] h = refl
  put_absent k v ((i, w) ∷ d) h = ground (arith, put_absent k v d)

  pub Memᴰ-get : (k : K) (v : V) (d : List (K × V)) → get k d ≡ some v → Memᴰ (k, v) d
  unfolding get
  Memᴰ-get k v [] h = absurd (cc)
  Memᴰ-get k v ((i, w) ∷ d) h = elim (Bool-cases (e.beq i k)) [
    | inl p ↦ let same = (e.beq_iff i k).0 p in Memᴰ.head (ground arith)
    | inr p ↦ Memᴰ.tail (Memᴰ-get k v d (ground arith))
  ]

  pub Memᴰ-put :
      (x : K × V) (k : K) (v : V) (d : List (K × V)) → Memᴰ x (put k v d) → (x ≡ (k, v)) ⊎ Memᴰ x d
  unfolding put
  Memᴰ-put x k v [] m = Memᴰ.cases_cons m
  Memᴰ-put x k v ((i, w) ∷ d) m = elim (Bool-cases (e.beq i k)) [
    | inl p ↦ elim (Memᴰ.cases_cons (rw p at m)) [
      | inl q ↦ inl (let same = (e.beq_iff i k).0 p in ground arith)
      | inr n ↦ inr (Memᴰ.tail n)
    ]
    | inr p ↦ elim (Memᴰ.cases_cons (rw p at m)) [
      | inl q ↦ inr (Memᴰ.head q)
      | inr n ↦ elim (Memᴰ-put x k v d n) [ inl q ↦ inl q | inr l ↦ inr (Memᴰ.tail l) ]
    ]
  ]
