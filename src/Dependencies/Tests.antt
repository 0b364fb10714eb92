-- ===== src/Dependencies/Tests.antt =====
-- The counts on a chain that ends in a cycle, with a dependency on a PR that is not there.
use queueboard_core.Prelude.{ℕ, ◌≡◌, refl, true, some, List, [], ◌∷◌, insert, contains, nat_eq}
use queueboard_core.Prelude.Dict.{get, modify, has_key}
use queueboard_core.Dependencies.Graph.{Graph, DependencyCounts, transitive_dependency_counts}
use queueboard_core.Dependencies.Counts.{Needs, transitive_dependency_counts_total}
use queueboard_core.Prelude.{none, if◌then◌else◌, ◌==◌}
use queueboard_core.Prelude.Text.{codes, text_eq, text_beq, skip_spaces, lower}
use queueboard_core.Prelude.Sorting.{sorted}
use queueboard_core.Dependencies.Description.{parse_dependency_numbers}
use queueboard_core.Dependencies.Rows.{
  PullRequest, Target, key_eq, DependencyRows, rebuild_pr_dependencies,
}
use queueboard_core.Dependencies.Replaced.{named_row, rebuild_pr_dependencies-rows}
use queueboard_core.Dependencies.Repeated.{rebuild_pr_dependencies_twice}
use queueboard_core.Dependencies.Counted.{CountsOthers}

abbrev chain : Graph
chain = (1, 2 ∷ 9 ∷ []) ∷ (2, 3 ∷ []) ∷ (3, 2 ∷ 3 ∷ []) ∷ (4, []) ∷ []

abbrev counts : ℕ → ℕ → DependencyCounts
counts u d = record { upstream = u; downstream = d }

small_run :
    transitive_dependency_counts chain
    ≡ some ((1, counts 2 0) ∷ (2, counts 1 2) ∷ (3, counts 1 2) ∷ (4, counts 0 0) ∷ [])
unfolding transitive_dependency_counts get modify insert contains
small_run = refl

transitive_dependency_counts_total_example :
    (r : List (ℕ × DependencyCounts)) × (transitive_dependency_counts chain ≡ some r)
    × ((pr : ℕ)
        → has_key pr chain ≡ true
        → (c : DependencyCounts) × (get pr r ≡ some c)
          × CountsOthers (λ b. Needs chain pr b) pr c.upstream
          × CountsOthers (λ b. Needs chain b pr) pr c.downstream)
transitive_dependency_counts_total_example = transitive_dependency_counts_total chain

abbrev described : PullRequest
described = record {
  repository_id = 3;
  number = 7;
  body = some (
      codes "- [x] Depends on: #12, -[ ]depends on:#7; - [ ] depends on: #40a - [] depends on: #9");
}

named_in_body : parse_dependency_numbers described.body ≡ 7 ∷ 12 ∷ 40 ∷ []
unfolding parse_dependency_numbers text_beq sorted insert contains skip_spaces lower
named_in_body = refl

-- Of the PRs that are named, only number 12 is there.
abbrev known : ℕ → Target
known n = if n == 12 then some 112 else none

abbrev before : DependencyRows
before = ((3, 12), none) ∷ ((3, 5), some 105) ∷ ((4, 12), none) ∷ []

rebuild_pr_dependencies-rows_example :
    get (3, 12) (rebuild_pr_dependencies known described before).0
    ≡ named_row known described (3, 12)
rebuild_pr_dependencies-rows_example = rebuild_pr_dependencies-rows known described before (3, 12)

rebuild_pr_dependencies_twice_example :
    (rebuild_pr_dependencies known described (rebuild_pr_dependencies known described before).0).0
      ≡ (rebuild_pr_dependencies known described before).0
    × (rebuild_pr_dependencies known described
        (rebuild_pr_dependencies known described before).0).1.created
      ≡ 0
    × (rebuild_pr_dependencies known described
        (rebuild_pr_dependencies known described before).0).1.updated
      ≡ 0
    × (rebuild_pr_dependencies known described
        (rebuild_pr_dependencies known described before).0).1.deleted
      ≡ 0
rebuild_pr_dependencies_twice_example = rebuild_pr_dependencies_twice known described before
