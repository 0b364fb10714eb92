-- ===== src/Dependencies/Counted.antt =====
-- The counts of the PRs that a search reaches, and their pairs.
use queueboard_core.Prelude.{
  Distinct, ℕ, suc, ◌-◌, ◌≡◌, ◌≢◌, ◌↔◌, inl, inr, refl, ◌∙◌, subst, Bool, true, false, Option, some,
  List, [], ◌∷◌, contains, contains-discard, discard, length, nat_eq, Bool-cases, arith,
  nat_beq_iff, ◌==◌,
}
use queueboard_core.Prelude.Dict.{get, has_key}
use queueboard_core.Dependencies.Graph.{Graph, counts_from, DependencyCounts, pair_counts}
use queueboard_core.Dependencies.Search.{leads, Reach, IsClosed}
use queueboard_core.Dependencies.Reachable.{reachable_lem}

-- `n` PRs other than `pr` have the property: a list of them, each once, has that length.
abbrev pub CountsOthers : (ℕ → Type 0) → ℕ → ℕ → Type 0
CountsOthers P pr n =
    (prs : List ℕ) × (length prs ≡ n)
    × Distinct prs
    × ((b : ℕ) → (contains b prs ≡ true) ↔ (P b × (b ≢ pr)))

Reach-first : {edge : ℕ → ℕ → Bool} {a b c : ℕ} → edge a b ≡ true → Reach edge b c → Reach edge a c
Reach-first e Reach.here = Reach.next Reach.here e
Reach-first e (Reach.next r f) = Reach.next (Reach-first e r) f

pub Reach-reverse : (edge : ℕ → ℕ → Bool) {a b : ℕ} → Reach (λ x y. edge y x) a b → Reach edge b a
Reach-reverse edge Reach.here = Reach.here
Reach-reverse edge (Reach.next r f) = Reach-first f (Reach-reverse edge r)

Distinct-discard : (a : ℕ) (xs : List ℕ) → Distinct xs → Distinct (discard a xs)
unfolding discard
Distinct-discard a [] h = tt
Distinct-discard a (x ∷ xs) h = elim (Bool-cases (x == a)) [
  | inl p ↦ rw p (Distinct-discard a xs h.1)
  | inr p ↦ rw p (ground (arith, contains-discard a x xs, h.0), Distinct-discard a xs h.1)
]

length-discard_absent :
    (a : ℕ) (xs : List ℕ) → contains a xs ≡ false → length (discard a xs) ≡ length xs
unfolding discard contains
length-discard_absent a [] h = refl
length-discard_absent a (x ∷ xs) h =
    ground (arith, length-discard_absent a xs, nat_beq_iff a x, nat_beq_iff x a)

length-discard :
    (a : ℕ) (xs : List ℕ)
    → Distinct xs
    → contains a xs ≡ true
    → suc (length (discard a xs)) ≡ length xs
unfolding discard contains
length-discard a [] d h = absurd (cc)
length-discard a (x ∷ xs) d h = elim (Bool-cases (x == a)) [
  | inl p ↦
      let same = (nat_beq_iff x a).0 p in
      let gone = subst (λ k. contains k xs ≡ false) same d.0 in
      rw p (omega (arith, length-discard_absent a xs gone))
  | inr p ↦
      let m : contains a xs ≡ true = ground (arith, nat_beq_iff x a, nat_beq_iff a x) in
      rw p (omega (arith, length-discard a xs d.1 m))
]

-- What was seen from `pr`, without `pr`, has the counted length.
seen_count :
    (P : ℕ → Type 0) (pr : ℕ) (r : List ℕ)
    → P pr
    → Distinct r
    → ((b : ℕ) → (contains b r ≡ true) ↔ P b)
    → CountsOthers P pr (length r - 1)
seen_count P pr r self d iff = (
  discard pr r,
  omega (arith, length-discard pr r d ((iff pr).1 self)),
  Distinct-discard pr r d,
  λ b. (
    λ m. (
      (iff b).0 (ground (arith, contains-discard pr b r)),
      λ e. absurd (ground (arith, contains-discard pr b r, nat_beq_iff b pr)),
    ),
    λ h. other b ((iff b).1 h.0) h.1,
  ),
)
  where
    other : (b : ℕ) → contains b r ≡ true → b ≢ pr → contains b (discard pr r) ≡ true
    other b m ne = elim (Bool-cases (b == pr)) [
      | inl p ↦ absurd (ne ((nat_beq_iff b pr).0 p))
      | inr p ↦ ground (arith, contains-discard pr b r)
    ]

pub CountsOthers-iff :
    (P Q : ℕ → Type 0) (pr n m : ℕ)
    → n ≡ m
    → ((b : ℕ) → P b ↔ Q b)
    → CountsOthers P pr n
    → CountsOthers Q pr m
CountsOthers-iff P Q pr n m e h (prs, l, d, iff) = (
  prs,
  l ∙ e,
  d,
  λ b. (λ q. let (p, ne) = (iff b).0 q in ((h b).0 p, ne), λ q. (iff b).1 ((h b).1 q.0, q.1)),
)

abbrev pub Counted : (ℕ → ℕ → Type 0) → ℕ → Option ℕ → Type 0
Counted P pr o = (n : ℕ) × (o ≡ some n) × CountsOthers (P pr) pr n

Counted-cons :
    (P : ℕ → ℕ → Type 0) (start n x : ℕ) (cs : List (ℕ × ℕ)) (starts : List ℕ)
    → CountsOthers (P start) start n
    → (contains x starts ≡ true → Counted P x (get x cs))
    → contains x (start ∷ starts) ≡ true
    → Counted P x (get x ((start, n) ∷ cs))
unfolding get contains
Counted-cons P start n x cs starts first rest m = elim (Bool-cases (start == x)) [
  | inl p ↦ (n, ground arith, subst (λ k. CountsOthers (P k) k n) ((nat_beq_iff start x).0 p) first)
  | inr p ↦
      let (k, e, c) = rest (ground (arith, nat_beq_iff x start, nat_beq_iff start x)) in
      (k, ground arith, c)
]

pub counts_from_total :
    (g : Graph) (starts : List ℕ)
    → IsClosed g
    → ((x : ℕ) → contains x starts ≡ true → has_key x g ≡ true)
    → (cs : List (ℕ × ℕ)) × (counts_from g starts ≡ some cs)
      × ((x : ℕ) → contains x starts ≡ true → Counted (λ a. Reach (leads g) a) x (get x cs))
unfolding counts_from contains
counts_from_total g [] closed known = ([], refl, λ x m. absurd (cc))
counts_from_total g (start ∷ starts) closed known =
    let (r, e, d, iff) =
      reachable_lem g start closed (known start (ground (arith, nat_beq_iff start start))) in
    let (cs, q, rest) = counts_from_total g starts closed (λ x m. known x (ground arith)) in
    let first = seen_count (λ b. Reach (leads g) start b) start r Reach.here d iff in
    (
      (start, length r - 1) ∷ cs,
      rw (e, q) refl,
      λ x m.
          Counted-cons (λ a. Reach (leads g) a) start (length r - 1) x cs starts first (rest x) m,
    )

-- Each PR has its two counts in the result.
abbrev pub Paired : List (ℕ × ℕ) → List (ℕ × ℕ) → List (ℕ × DependencyCounts) → ℕ → Type 0
Paired up down r x =
    (c : DependencyCounts) × (get x r ≡ some c)
    × (get x up ≡ some c.upstream)
    × (get x down ≡ some c.downstream)

pub pair_counts_total :
    (prs : List ℕ) (up down : List (ℕ × ℕ))
    → ((x : ℕ) → contains x prs ≡ true → (n : ℕ) × (get x up ≡ some n))
    → ((x : ℕ) → contains x prs ≡ true → (n : ℕ) × (get x down ≡ some n))
    → (r : List (ℕ × DependencyCounts)) × (pair_counts prs up down ≡ some r)
      × ((x : ℕ) → contains x prs ≡ true → Paired up down r x)
unfolding pair_counts contains get
pair_counts_total [] up down h k = ([], refl, λ x m. absurd (cc))
pair_counts_total (pr ∷ prs) up down h k =
    let self : contains pr (pr ∷ prs) ≡ true = ground (arith, nat_beq_iff pr pr) in
    let (u, eu) = h pr self in
    let (d, ed) = k pr self in
    let (r, e, rest) =
      pair_counts_total prs up down (λ x m. h x (ground arith)) (λ x m. k x (ground arith)) in
    let c : DependencyCounts = record { upstream = u; downstream = d } in
    (
      (pr, c) ∷ r,
      rw (eu, ed, e) refl,
      λ x m. elim (Bool-cases (pr == x)) [
        | inl p ↦
            let same = (nat_beq_iff pr x).0 p in
            (
              c,
              ground arith,
              subst (λ y. get y up ≡ some u) same eu,
              subst (λ y. get y down ≡ some d) same ed,
            )
        | inr p ↦
            let (c', e', a, b) = rest x (ground (arith, nat_beq_iff x pr, nat_beq_iff pr x)) in
            (c', ground arith, a, b)
      ],
    )
