-- ===== src/Dependencies/Graph.antt =====
-- `transitive_dependency_counts`: the two edge sets, the search from each PR, and the counts.
-- A key that is not in a dict raises, which is `none`, and so is a search that runs out of fuel.
use queueboard_core.Prelude.{
  ℕ, zero, suc, ◌-◌, Option, none, some, List, [], ◌∷◌, if◌then◌else◌, contains, insert, length,
  map, nat_eq, ◌>>=◌,
}
use queueboard_core.Prelude.Dict.{get, modify, keys, has_key}

-- PRs, each with the PRs at the ends of its edges.
abbrev pub Graph : Type 0
Graph = List (ℕ × List ℕ)

-- `{pr: set() for pr in direct}`
unfoldable pub blank : Graph → Graph
blank direct = map (λ (e : ℕ × List ℕ). (e.0, [])) direct

pub record Edges : Type 0 where
  pub forward : Graph
  pub backward : Graph

unfoldable pub add_edge : ℕ → ℕ → Edges → Edges
add_edge pr dep s = record {
  forward = modify pr (insert dep) s.forward;
  backward = modify dep (insert pr) s.backward;
}

-- A dependency on a PR that is not there is ignored.
unfoldable pub take_dep : ℕ → Edges → ℕ → Edges
unfolding add_edge
take_dep pr s dep = if has_key dep s.forward then add_edge pr dep s else s

unfoldable pub take_deps : ℕ → List ℕ → Edges → Edges
unfolding take_dep
take_deps pr [] s = s
take_deps pr (dep ∷ deps) s = take_deps pr deps (take_dep pr s dep)

unfoldable pub take_all : Graph → Edges → Edges
unfolding take_deps
take_all [] s = s
take_all ((pr, deps) ∷ direct) s = take_all direct (take_deps pr deps s)

unfoldable pub edges : Graph → Edges
unfolding take_all blank
edges direct = take_all direct (record { forward = blank direct; backward = blank direct })

-- `seen` and `queue`. The end of the Python list, where it is popped, is the head here.
pub record Search : Type 0 where
  pub seen : List ℕ
  pub queue : List ℕ

unfoldable pub offer : Search → ℕ → Search
offer s n = if contains n s.seen then s else record { seen = n ∷ s.seen; queue = n ∷ s.queue }

unfoldable pub scan : List ℕ → Search → Search
unfolding offer
scan [] s = s
scan (n ∷ ns) s = scan ns (offer s n)

-- `while queue`, with the queue apart.
unfoldable pub loop : ℕ → Graph → List ℕ → List ℕ → Option (List ℕ)
unfolding scan
loop fuel adjacency seen [] = some seen
loop zero adjacency seen (current ∷ queue) = none
loop (suc fuel) adjacency seen (current ∷ queue) = elim (get current adjacency) [
  | none ↦ none
  | some ns ↦
      let s = scan ns (record { seen = seen; queue = queue }) in loop fuel adjacency s.seen s.queue
]

-- Each PR is popped once at most, so the number of PRs is enough.
unfoldable pub reachable : Graph → ℕ → Option (List ℕ)
unfolding loop
reachable adjacency start = loop (length adjacency) adjacency (start ∷ []) (start ∷ [])

unfoldable pub counts_from : Graph → List ℕ → Option (List (ℕ × ℕ))
unfolding reachable
counts_from adjacency [] = some []
counts_from adjacency (start ∷ starts) = do
  seen ← reachable adjacency start
  counts ← counts_from adjacency starts
  some ((start, length seen - 1) ∷ counts)

unfoldable pub reachable_counts : Graph → Option (List (ℕ × ℕ))
unfolding counts_from
reachable_counts adjacency = counts_from adjacency (keys adjacency)

pub record DependencyCounts : Type 0 where
  pub upstream : ℕ
  pub downstream : ℕ

unfoldable pub pair_counts :
    List ℕ → List (ℕ × ℕ) → List (ℕ × ℕ) → Option (List (ℕ × DependencyCounts))
pair_counts [] up down = some []
pair_counts (pr ∷ prs) up down = do
  u ← get pr up
  d ← get pr down
  rest ← pair_counts prs up down
  some ((pr, record { upstream = u; downstream = d }) ∷ rest)

unfoldable pub transitive_dependency_counts : Graph → Option (List (ℕ × DependencyCounts))
unfolding edges reachable_counts pair_counts
transitive_dependency_counts direct = do
  let s = edges direct
  upstream ← reachable_counts s.forward
  downstream ← reachable_counts s.backward
  pair_counts (keys direct) upstream downstream
