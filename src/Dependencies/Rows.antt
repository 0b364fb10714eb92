-- ===== src/Dependencies/Rows.antt =====
-- `rebuild_pr_dependencies`: the rows of a PR's dependencies, a dict by repository and number, which
-- are unique for the PR. No other process writes them meanwhile.
use native.Mathlib.Decide.{ℕ_discrete}
use queueboard_core.Prelude.{
  ◌||◌, ℕ, ◌+◌, Bool, not, ◌&&◌, Option, none, some, List, [], ◌∷◌, leb, if◌then◌else◌, keep,
  length, insert, discard, contains, is_empty, ◌==◌, Eq, nat_eq, discrete_eq,
}
use queueboard_core.Prelude.Text.{Text}
use queueboard_core.Prelude.Dict.{get, put}
use queueboard_core.Prelude.Sorting.{sorted}
use queueboard_core.Dependencies.Description.{parse_dependency_numbers}

-- `(depends_on_repository_id, depends_on_number)`
abbrev pub Key : Type 0
Key = ℕ × ℕ

unfoldable pub Key-discrete : Discrete Key
Key-discrete = hlevel (ℕ_discrete)

instance abbrev pub key_eq : Eq Key
key_eq = discrete_eq Key-discrete

-- `depends_on_pull_request_id`
abbrev pub Target : Type 0
Target = Option ℕ

unfoldable pub Target-discrete : Discrete Target
Target-discrete = hlevel (ℕ_discrete)

instance abbrev pub target_eq : Eq Target
target_eq = discrete_eq Target-discrete

abbrev pub DependencyRows : Type 0
DependencyRows = List (Key × Target)

pub record PullRequest : Type 0 where
  pub repository_id : ℕ
  pub number : ℕ
  pub body : Option Text

pub record Sync : Type 0 where
  pub rows : DependencyRows
  pub created : ℕ
  pub updated : ℕ
  pub resolved : List ℕ
  pub unresolved : List ℕ

-- What the loop does with the row of a number.
unfoldable pub write_row : Key → Target → Option Target → Sync → Sync
write_row key target none s = record s { rows = put key target s.rows; created = s.created + 1 }
write_row key target (some old) s =
    if old == target then s else record s { rows = put key target s.rows; updated = s.updated + 1 }

unfoldable pub note_number : ℕ → Target → Sync → Sync
note_number number none s = record s { unresolved = insert number s.unresolved }
note_number number (some id) s = record s { resolved = insert number s.resolved }

-- `existing` is what the rows were before the loop.
unfoldable pub sync_number : ℕ → (ℕ → Target) → DependencyRows → ℕ → Sync → Sync
unfolding write_row note_number
sync_number repository targets existing number s =
    note_number number (targets number)
      (write_row (repository, number) (targets number) (get (repository, number) existing) s)

unfoldable pub sync_numbers : ℕ → (ℕ → Target) → DependencyRows → List ℕ → Sync → Sync
unfolding sync_number
sync_numbers repository targets existing [] s = s
sync_numbers repository targets existing (n ∷ ns) s =
    sync_numbers repository targets existing ns (sync_number repository targets existing n s)

-- A row that the description does not name.
unfoldable pub is_stale : ℕ → List ℕ → Key → Bool
is_stale repository numbers key =
    is_empty numbers || not (contains key.1 numbers && key.0 == repository)

unfoldable pub is_stale_row : ℕ → List ℕ → Key × Target → Bool
unfolding is_stale
is_stale_row repository numbers row = is_stale repository numbers row.0

pub record DependencyRebuildResult : Type 0 where
  pub created : ℕ
  pub updated : ℕ
  pub deleted : ℕ
  pub parsed_numbers : List ℕ
  pub resolved_numbers : List ℕ
  pub unresolved_numbers : List ℕ

-- `targets` are the ids of the PRs of the repository that are there, by number.
unfoldable pub rebuild_numbers :
    ℕ → (ℕ → Target) → List ℕ → DependencyRows → DependencyRows × DependencyRebuildResult
unfolding sync_numbers is_stale_row
rebuild_numbers repository targets numbers rows =
    let s : Sync =
      sync_numbers repository targets rows numbers
        (record { rows = rows; created = 0; updated = 0; resolved = []; unresolved = [] }) in
    (
      keep (λ r. not (is_stale_row repository numbers r)) s.rows,
      record {
        created = s.created;
        updated = s.updated;
        deleted = length (keep (is_stale_row repository numbers) s.rows);
        parsed_numbers = sorted leb numbers;
        resolved_numbers = sorted leb s.resolved;
        unresolved_numbers = sorted leb s.unresolved;
      },
    )

-- A PR that names itself is passed over.
abbrev pub named_numbers : PullRequest → List ℕ
named_numbers pr = discard pr.number (parse_dependency_numbers pr.body)

unfoldable pub rebuild_pr_dependencies :
    (ℕ → Target) → PullRequest → DependencyRows → DependencyRows × DependencyRebuildResult
unfolding rebuild_numbers parse_dependency_numbers
rebuild_pr_dependencies targets pr rows =
    rebuild_numbers pr.repository_id targets (named_numbers pr) rows
