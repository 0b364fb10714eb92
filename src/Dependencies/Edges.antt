-- ===== src/Dependencies/Edges.antt =====
-- What the two edge sets hold.
use queueboard_core.Prelude.{
  ℕ, ◌≡◌, inl, inr, refl, ap, ◌∙◌, Bool, true, false, ◌&&◌, ◌||◌, Option, none, some, List, [], ◌∷◌,
  contains, contains-insert, insert, nat_eq, Bool-cases, Option-cases, arith, nat_beq_iff, ◌==◌,
  any, get_or, is_some, subst, All,
}
use mathlib.Core.Path.{fun_ext}
use queueboard_core.Prelude.Dict.{get, modify, has_key, get-modify, map_value, keys, has_key-keys}
use queueboard_core.Dependencies.Graph.{
  Graph, Edges, blank, add_edge, take_dep, take_deps, take_all, edges,
}
use queueboard_core.Dependencies.Search.{targets, leads}

-- Among the items, `a` depends on `b`.
unfoldable pub lists : Graph → ℕ → ℕ → Bool
lists direct a b = any (λ (e : ℕ × List ℕ). e.0 == a && contains b e.1) direct

-- `a` depends on `b` directly, and `b` is there.
unfoldable pub is_dependency : Graph → ℕ → ℕ → Bool
is_dependency direct a b = lists direct a b && has_key b direct

modify-has_key :
    (k j : ℕ) (f : List ℕ → List ℕ) (g : Graph) → has_key j (modify k f g) ≡ has_key j g
modify-has_key k j f g = elim (Option-cases (get j g)) [
  | inl p ↦ ground (arith, get-modify j k f g)
  | inr (v, p) ↦ ground (arith, get-modify j k f g)
]

contains-map_value :
    (o : Option (List ℕ)) (v y : ℕ)
    → is_some o ≡ true
    → contains y (get_or (map_value (insert v) o) []) ≡ (contains y (get_or o []) || y == v)
contains-map_value none v y h = cc
contains-map_value (some l) v y h = ground (arith, contains-insert v y l)

modify-targets :
    (k v j y : ℕ) (g : Graph)
    → has_key k g ≡ true
    → contains y (targets (modify k (insert v) g) j)
      ≡ (contains y (targets g j) || (k == j && y == v))
modify-targets k v j y g h = elim (Bool-cases (k == j)) [
  | inl p ↦
      let same = (nat_beq_iff k j).0 p in
      let key : has_key j g ≡ true = subst (λ x. has_key x g ≡ true) same h in
      rw (get-modify j k (insert v) g, p) (ground (arith, contains-map_value (get j g) v y))
  | inr p ↦ ground (arith, get-modify j k (insert v) g)
]

-- Both sets have the PRs that `has` tells.
pub record Keyed (has : ℕ → Bool) (s : Edges) : Type 0 where
  pub forward_keys : (x : ℕ) → has_key x s.forward ≡ has x
  pub backward_keys : (x : ℕ) → has_key x s.backward ≡ has x

-- The edge from `a` to `b` is in both sets, or in neither, as `there` says.
pub record HasEdge (s : Edges) (a b : ℕ) (there : Bool) : Type 0 where
  pub ahead : contains b (targets s.forward a) ≡ there
  pub back : contains a (targets s.backward b) ≡ there

module _ (has : ℕ → Bool) where
  take_dep-Keyed : (pr dep : ℕ) (s : Edges) → Keyed has s → Keyed has (take_dep pr s dep)
  unfolding take_dep add_edge
  take_dep-Keyed pr dep s h = record {
    forward_keys =
        λ x. ground (arith, h.forward_keys x, modify-has_key pr x (insert dep) s.forward);
    backward_keys =
        λ x. ground (arith, h.backward_keys x, modify-has_key dep x (insert pr) s.backward);
  }

  has_same : (b dep : ℕ) → b == dep ≡ true → has b ≡ has dep
  has_same b dep q = ap has ((nat_beq_iff b dep).0 q)

  take_dep-HasEdge :
      (pr dep a b : ℕ) (s : Edges) (e : Bool)
      → Keyed has s
      → has pr ≡ true
      → HasEdge s a b e
      → HasEdge (take_dep pr s dep) a b (e || (pr == a && b == dep && has b))
  unfolding take_dep add_edge
  take_dep-HasEdge pr dep a b s e h k l = elim (Bool-cases (has dep)) [
    | inl p ↦
        let there = h.forward_keys dep ∙ p in
        let dep_key = h.backward_keys dep ∙ p in
        let pr_key = h.forward_keys pr ∙ k in
        let same = has_same b dep in
        rw there record {
          ahead = ground (arith, modify-targets pr dep a b s.forward pr_key, same, l.ahead);
          back = ground (
            arith,
            modify-targets dep pr b a s.backward dep_key,
            same,
            l.back,
            nat_beq_iff dep b,
            nat_beq_iff b dep,
            nat_beq_iff a pr,
            nat_beq_iff pr a,
          );
        }
    | inr p ↦
        let there = h.forward_keys dep ∙ p in
        let same = has_same b dep in
        rw there
          record { ahead = ground (arith, same, l.ahead); back = ground (arith, same, l.back) }
  ]

  take_deps-Keyed :
      (pr : ℕ) (deps : List ℕ) (s : Edges) → Keyed has s → Keyed has (take_deps pr deps s)
  unfolding take_deps
  take_deps-Keyed pr [] s h = h
  take_deps-Keyed pr (dep ∷ deps) s h =
      take_deps-Keyed pr deps (take_dep pr s dep) (take_dep-Keyed pr dep s h)

  take_deps-HasEdge :
      (pr a b : ℕ) (deps : List ℕ) (s : Edges) (e : Bool)
      → Keyed has s
      → has pr ≡ true
      → HasEdge s a b e
      → HasEdge (take_deps pr deps s) a b (e || (pr == a && contains b deps && has b))
  unfolding take_deps contains
  take_deps-HasEdge pr a b [] s e h k l = record {
    ahead = ground (arith, l.ahead);
    back = ground (arith, l.back);
  }
  take_deps-HasEdge pr a b (dep ∷ deps) s e h k l =
      let l' =
        take_deps-HasEdge pr a b deps (take_dep pr s dep) (e || (pr == a && b == dep && has b))
          (take_dep-Keyed pr dep s h) k (take_dep-HasEdge pr dep a b s e h k l) in
      record { ahead = ground (arith, l'.ahead); back = ground (arith, l'.back) }

  take_all-HasEdge :
      (direct : Graph) (a b : ℕ) (s : Edges) (e : Bool)
      → Keyed has s
      → All (λ (x : ℕ × List ℕ). has x.0 ≡ true) direct
      → HasEdge s a b e
      → HasEdge (take_all direct s) a b (e || (lists direct a b && has b))
  unfolding take_all lists any
  take_all-HasEdge [] a b s e h k l = record {
    ahead = ground (arith, l.ahead);
    back = ground (arith, l.back);
  }
  take_all-HasEdge ((pr, deps) ∷ direct) a b s e h k l =
      let l' =
        take_all-HasEdge direct a b (take_deps pr deps s)
          (e || (pr == a && contains b deps && has b)) (take_deps-Keyed pr deps s h) k.1
          (take_deps-HasEdge pr a b deps s e h k.0 l) in
      record { ahead = ground (arith, l'.ahead); back = ground (arith, l'.back) }

get-blank : (x : ℕ) (g : Graph) → get x (blank g) ≡ map_value (λ _. []) (get x g)
unfolding blank get
get-blank x [] = refl
get-blank x ((k, l) ∷ g) = ground (arith, get-blank x g)

has_key-blank : (x : ℕ) (g : Graph) → has_key x (blank g) ≡ has_key x g
has_key-blank x g = elim (Option-cases (get x g)) [
  | inl p ↦ ground (arith, get-blank x g)
  | inr (v, p) ↦ ground (arith, get-blank x g)
]

targets-blank : (x y : ℕ) (g : Graph) → contains y (targets (blank g) x) ≡ false
unfolding contains
targets-blank x y g = elim (Option-cases (get x g)) [
  | inl p ↦ ground (arith, get-blank x g)
  | inr (v, p) ↦ ground (arith, get-blank x g)
]

keys_all :
    (P : ℕ → Type 0) (g : Graph)
    → ((x : ℕ) → contains x (keys g) ≡ true → P x)
    → All (λ (e : ℕ × List ℕ). P e.0) g
unfolding contains
keys_all P [] h = tt
keys_all P ((k, l) ∷ g) h =
    (h k (ground (arith, nat_beq_iff k k)), keys_all P g (λ x m. h x (ground arith)))

module _ (direct : Graph) where
  abbrev start_edges : Edges
  start_edges = record { forward = blank direct; backward = blank direct }

  start-Keyed : Keyed (λ x. has_key x direct) start_edges
  start-Keyed = record {
    forward_keys = λ x. has_key-blank x direct;
    backward_keys = λ x. has_key-blank x direct;
  }

  take_all-Keyed :
      (has : ℕ → Bool) (items : Graph) (s : Edges) → Keyed has s → Keyed has (take_all items s)
  unfolding take_all
  take_all-Keyed has [] s h = h
  take_all-Keyed has ((pr, deps) ∷ items) s h =
      take_all-Keyed has items (take_deps pr deps s) (take_deps-Keyed has pr deps s h)

  pub edges-Keyed : Keyed (λ x. has_key x direct) (edges direct)
  unfolding edges
  edges-Keyed = take_all-Keyed (λ x. has_key x direct) direct start_edges start-Keyed

  edges-HasEdge : (a b : ℕ) → HasEdge (edges direct) a b (is_dependency direct a b)
  unfolding edges is_dependency
  edges-HasEdge a b =
      take_all-HasEdge (λ x. has_key x direct) direct a b start_edges false start-Keyed
        (keys_all (λ x. has_key x direct ≡ true) direct (λ x m. has_key-keys x direct ∙ m))
        (record { ahead = targets-blank a b direct; back = targets-blank b a direct })

  -- Both sets have the direct dependencies on PRs that are there, each in its direction.
  pub edges-forward : leads (edges direct).forward ≡ is_dependency direct
  edges-forward = fun_ext λ a. fun_ext λ b. (edges-HasEdge a b).ahead

  pub edges-backward : leads (edges direct).backward ≡ (λ b a. is_dependency direct a b)
  edges-backward = fun_ext λ b. fun_ext λ a. (edges-HasEdge a b).back
