-- ===== src/Dependencies/Counts.antt =====
-- The counts of a PR are those of the PRs that it needs, and that need it.
use queueboard_core.Prelude.{
  any, ℕ, ◌≡◌, ◌↔◌, sym, ap, ◌∙◌, subst, true, some, List, [], ◌∷◌, contains, nat_eq, arith,
}
use queueboard_core.Prelude.Dict.{get, has_key, keys, has_key-keys}
use queueboard_core.Dependencies.Graph.{
  Graph, edges, reachable_counts, DependencyCounts, transitive_dependency_counts,
}
use queueboard_core.Dependencies.Search.{leads, Reach, IsClosed}
use queueboard_core.Dependencies.Edges.{
  lists, is_dependency, edges-Keyed, edges-forward, edges-backward,
}
use queueboard_core.Dependencies.Counted.{
  CountsOthers, Reach-reverse, CountsOthers-iff, Counted, counts_from_total, pair_counts_total,
}

-- `a` needs `b`: by zero or more direct dependencies on PRs that are there.
abbrev pub Needs : Graph → ℕ → ℕ → Type 0
Needs direct = Reach (is_dependency direct)

some_inj : (a b : ℕ) → some a ≡ some b → a ≡ b
some_inj a b e = cc

dependency_known :
    (direct : Graph) (a b : ℕ) → is_dependency direct a b ≡ true → has_key b direct ≡ true
unfolding is_dependency
dependency_known direct a b e = ground arith

module _ (direct : Graph) where
  forward-IsClosed : IsClosed (edges direct).forward
  forward-IsClosed x y m =
      (edges-Keyed direct).forward_keys y
      ∙ dependency_known direct x y (sym (ap (λ f. f x y) (edges-forward direct)) ∙ m)

  item_known : (a b : ℕ) (items : Graph) → lists items a b ≡ true → has_key a items ≡ true
  unfolding lists any get
  item_known a b [] e = absurd (cc)
  item_known a b ((k, l) ∷ items) e = ground (arith, item_known a b items)

  backward-IsClosed : IsClosed (edges direct).backward
  unfolding is_dependency
  backward-IsClosed x y m =
      let e = sym (ap (λ f. f x y) (edges-backward direct)) ∙ m in
      (edges-Keyed direct).backward_keys y ∙ item_known y x direct (ground arith)

  key_in :
      (g : Graph) (x : ℕ)
      → has_key x g ≡ has_key x direct
      → contains x (keys direct) ≡ true
      → contains x (keys g) ≡ true
  key_in g x e m = sym (has_key-keys x g) ∙ e ∙ has_key-keys x direct ∙ m

  counts_total :
      (g : Graph)
      → ((x : ℕ) → has_key x g ≡ has_key x direct)
      → IsClosed g
      → (cs : List (ℕ × ℕ)) × (reachable_counts g ≡ some cs)
        × ((x : ℕ)
            → contains x (keys direct) ≡ true
            → Counted (λ a. Reach (leads g) a) x (get x cs))
  unfolding reachable_counts
  counts_total g same closed =
      let (cs, e, h) = counts_from_total g (keys g) closed (λ x m. has_key-keys x g ∙ m) in
      (cs, e, λ x m. h x (key_in g x (same x) m))

  forward-Needs : (a b : ℕ) → Reach (leads (edges direct).forward) a b ↔ Needs direct a b
  forward-Needs a b = (
    subst (λ f. Reach f a b) (edges-forward direct),
    subst (λ f. Reach f a b) (sym (edges-forward direct)),
  )

  backward-Needs : (a b : ℕ) → Reach (leads (edges direct).backward) a b ↔ Needs direct b a
  backward-Needs a b = (
    λ r. Reach-reverse (is_dependency direct) (subst (λ f. Reach f a b) (edges-backward direct) r),
    λ r.
        subst (λ f. Reach f a b) (sym (edges-backward direct))
          (Reach-reverse (λ x y. is_dependency direct y x) r),
  )

  -- The count always ends and never raises, whatever cycles the dependencies make. It has every PR
  -- of the dict; `upstream` is the number of other PRs that the PR needs, by direct dependencies on
  -- PRs of the dict, one after another, and `downstream` that of the other PRs that need it.
  pub transitive_dependency_counts_total :
      (r : List (ℕ × DependencyCounts)) × (transitive_dependency_counts direct ≡ some r)
      × ((pr : ℕ)
          → has_key pr direct ≡ true
          → (c : DependencyCounts) × (get pr r ≡ some c)
            × CountsOthers (λ b. Needs direct pr b) pr c.upstream
            × CountsOthers (λ b. Needs direct b pr) pr c.downstream)
  unfolding transitive_dependency_counts reachable_counts
  transitive_dependency_counts_total =
      let s = edges direct in
      let (up, eu, hu) =
        counts_total s.forward (edges-Keyed direct).forward_keys forward-IsClosed in
      let (down, ed, hd) =
        counts_total s.backward (edges-Keyed direct).backward_keys backward-IsClosed in
      let (r, er, hr) =
        pair_counts_total (keys direct) up down (λ x m. ((hu x m).0, (hu x m).1))
          (λ x m. ((hd x m).0, (hd x m).1)) in
      (
        r,
        rw (eu, ed) er,
        λ pr key.
            let m = sym (has_key-keys pr direct) ∙ key in
            let (c, ec, cu, cd) = hr pr m in
            let (n, nu, un) = hu pr m in
            let (k, kd, dk) = hd pr m in
            (
              c,
              ec,
              CountsOthers-iff (Reach (leads s.forward) pr) (λ b. Needs direct pr b) pr n c.upstream
                  (some_inj n c.upstream (sym nu ∙ cu)) (forward-Needs pr) un,
              CountsOthers-iff (Reach (leads s.backward) pr) (λ b. Needs direct b pr) pr k
                  c.downstream (some_inj k c.downstream (sym kd ∙ cd)) (backward-Needs pr) dk,
            ),
      )
