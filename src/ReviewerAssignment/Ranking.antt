-- ===== src/ReviewerAssignment/Ranking.antt =====
-- `rank_prs_for_assignment` and the default priority.
use queueboard_core.Prelude.{
  ℕ, ◌+◌, Bool, true, false, ◌||◌, Option, none, some, List, [], ◌∷◌, if◌then◌else◌, ltb, map,
  length, ◌==◌, nat_eq, leb,
}
use queueboard_core.Prelude.Sorting.{sorted}
use queueboard_core.Prelude.Dict.{get}
use queueboard_core.Prelude.Text.{Text, text_eq, codes, normalize, or_empty, starts_with}
use queueboard_core.ReviewerAssignment.Profiles.{
  Arithmetic, ReviewerProfile, PrEntry, QueueTime, Loads, queue_age_of,
}
use queueboard_core.ReviewerAssignment.Candidates.{
  request_of, CandidateState, reviewer_candidate_state,
}

-- `all_prs.get(n) or all_prs.get(str(n))`: the entries under numbers, and those under texts.
pub record AllPrs (W : Type 0) : Type 0 where
  pub by_number : List (ℕ × PrEntry W)
  pub by_text : List (ℕ × PrEntry W)

abbrev pub or_else : {A : Type 0} → Option A → Option A → Option A
or_else none o = o
or_else (some a) o = some a

unfoldable pub entry_of : {W : Type 0} → ℕ → AllPrs W → Option (PrEntry W)
entry_of n prs = or_else (get n prs.by_number) (get n prs.by_text)

-- `excluded_by_pr.get(n, set())`
unfoldable pub excluded_for : ℕ → List (ℕ × List Text) → List Text
excluded_for n excluded = get_list (get n excluded)
  where
    get_list : Option (List Text) → List Text
    get_list none = []
    get_list (some l) = l

-- A PR with its key, which is empty where the PR has no entry, and its place in the input.
pub record Ranked (K : Type 0) : Type 0 where
  pub sort_key : Option K
  pub input_index : ℕ
  pub number : ℕ

-- An empty tuple is before every other.
unfoldable pub key_lt : {K : Type 0} → (K → K → Bool) → Option K → Option K → Bool
key_lt lt none none = false
key_lt lt none (some k) = true
key_lt lt (some j) none = false
key_lt lt (some j) (some k) = lt j k

-- `item[0], item[1]` of the second is not below that of the first.
unfoldable pub stays_ahead : {K : Type 0} → (K → K → Bool) → Ranked K → Ranked K → Bool
unfolding key_lt
stays_ahead lt x y =
    if key_lt lt x.sort_key y.sort_key
    then true
    else if key_lt lt y.sort_key x.sort_key
    then false
    else leb x.input_index y.input_index

abbrev pub Scorer : Type 0 → Type 0 → Type 0
Scorer W K = ℕ → PrEntry W → List ReviewerProfile → Loads W → List Text → K

module _ {W K : Type 0} where
  unfoldable pub score :
      Scorer W K
      → List ReviewerProfile
      → Loads W
      → List (ℕ × List Text)
      → ℕ
      → Option (PrEntry W)
      → Option K
  unfolding excluded_for
  score scorer reviewers loads excluded n none = none
  score scorer reviewers loads excluded n (some entry) =
      some (scorer n entry reviewers loads (excluded_for n excluded))

  unfoldable pub ranked_items :
      Scorer W K
      → AllPrs W
      → List ReviewerProfile
      → Loads W
      → List (ℕ × List Text)
      → ℕ
      → List ℕ
      → List (Ranked K)
  unfolding score entry_of
  ranked_items scorer prs reviewers loads excluded index [] = []
  ranked_items scorer prs reviewers loads excluded index (n ∷ ns) =
      record {
        sort_key = score scorer reviewers loads excluded n (entry_of n prs);
        input_index = index;
        number = n;
      }
      ∷ ranked_items scorer prs reviewers loads excluded (index + 1) ns

  unfoldable pub rank_prs_for_assignment :
      (K → K → Bool)
      → Scorer W K
      → AllPrs W
      → List ReviewerProfile
      → Loads W
      → List (ℕ × List Text)
      → List ℕ
      → List ℕ
  unfolding stays_ahead ranked_items
  rank_prs_for_assignment lt scorer prs reviewers loads excluded ns =
      map (λ (r : Ranked K). r.number)
        (sorted (stays_ahead lt) (ranked_items scorer prs reviewers loads excluded 0 ns))

-- `^feat(?:[:( ]|$)`, on what `strip` and `lower` leave.
unfoldable pub title_priority : Option Text → ℕ
title_priority title =
    let t = normalize (or_empty title) in
    if t == codes "feat"
      || starts_with (codes "feat:") t
      || starts_with (codes "feat(") t
      || starts_with (codes "feat ") t
    then 0
    else 1

-- The key of the default priority.
pub record Priority (W : Type 0) : Type 0 where
  pub not_assignable : ℕ
  pub available_reviewer_count : ℕ
  pub total_remaining_capacity : W
  pub queue_age_sort : W
  pub title : ℕ
  pub number : ℕ

abbrev pub lt_then : Bool → Bool → Bool → Bool
lt_then less greater rest = if less then true else if greater then false else rest

module _ {W : Type 0} ⦃a : Arithmetic W⦄ where
  unfoldable pub sum : List W → W
  sum [] = a.of_nat 0
  sum (w ∷ ws) = sum_from (a.add (a.of_nat 0) w) ws
    where
      sum_from : W → List W → W
      sum_from total [] = total
      sum_from total (v ∷ vs) = sum_from (a.add total v) vs

  unfoldable pub queue_age_seconds : Option (QueueTime W) → Option W
  queue_age_seconds none = queue_age_of (record { status = none; value_td = none })
  queue_age_seconds (some t) = queue_age_of t

  unfoldable pub age_or_zero : Option W → W
  age_or_zero none = a.of_nat 0
  age_or_zero (some w) = w

  unfoldable pub priority_of : ℕ → PrEntry W → CandidateState W → Priority W
  unfolding sum queue_age_seconds age_or_zero title_priority
  priority_of n entry s = record {
    not_assignable = if ltb 0 (length s.available) then 0 else 1;
    available_reviewer_count = length s.available;
    total_remaining_capacity = sum s.weights;
    queue_age_sort = a.sub (a.of_nat 0) (age_or_zero (queue_age_seconds entry.total_queue_time));
    title = title_priority entry.title;
    number = n;
  }

  unfoldable pub default_pr_assignment_priority : (Text → Bool) → Scorer W (Priority W)
  unfolding priority_of
  default_pr_assignment_priority fullmatch n entry reviewers loads excluded =
      priority_of n entry
        (reviewer_candidate_state (request_of fullmatch excluded entry) reviewers loads)

  -- Tuples compare item by item.
  unfoldable pub priority_lt : Priority W → Priority W → Bool
  priority_lt p q =
      lt_then (ltb p.not_assignable q.not_assignable) (ltb q.not_assignable p.not_assignable) (
        lt_then (ltb p.available_reviewer_count q.available_reviewer_count)
          (ltb q.available_reviewer_count p.available_reviewer_count)
          (lt_then (a.lt p.total_remaining_capacity q.total_remaining_capacity)
            (a.lt q.total_remaining_capacity p.total_remaining_capacity)
            (lt_then (a.lt p.queue_age_sort q.queue_age_sort)
              (a.lt q.queue_age_sort p.queue_age_sort)
              (lt_then (ltb p.title q.title) (ltb q.title p.title) (ltb p.number q.number)))))
