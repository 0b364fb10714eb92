-- ===== src/ReviewerAssignment/Profiles.antt =====
-- What the engine reads of reviewers, PRs and loads. Python's floats are a type `W` with the
-- operations that the code calls. Explained names the one law of them that is used, and where.
use queueboard_core.Prelude.{
  ◌==◌, ℕ, ◌+◌, Bool, true, false, Option, none, some, List, [], ◌∷◌, if◌then◌else◌, any, contains,
  is_empty, ltb,
}
use queueboard_core.Prelude.Text.{Text, text_eq, codes, lower, normalize, or_empty}
use queueboard_core.Prelude.Dict.{get}

pub record Arithmetic (W : Type 0) : Type 0 where
  pub of_nat : ℕ → W
  pub add : W → W → W
  pub sub : W → W → W
  pub lt : W → W → Bool
  pub le : W → W → Bool

pub record ReviewerProfile : Type 0 where
  pub github_login : Text
  pub maximum_capacity : ℕ
  pub auto_assign : Bool
  pub temporary_break : Bool
  pub preferred_labels_lower : List Text
  pub conflict_of_interest_lower : List Text
  pub weekly_limit : Option ℕ
  pub recent_assignment_count : ℕ
  pub simulated_this_run : ℕ
  pub excluded_labels_lower : List Text

pub record QueueTime (W : Type 0) : Type 0 where
  pub status : Option Text
  pub value_td : Option W

-- The keys of a PR's entry that are read. A label without a name is `none`; a `value_td` that is no
-- number is `none` as well.
pub record PrEntry (W : Type 0) : Type 0 where
  pub labels : List (Option Text)
  pub author : Option Text
  pub title : Option Text
  pub total_queue_time : Option (QueueTime W)

-- What a reviewer holds: the open PRs, their weight, and their number.
pub record Load (W : Type 0) : Type 0 where
  pub open_prs : List ℕ
  pub weight : W
  pub total : ℕ

-- By login.
abbrev pub Loads : Type 0 → Type 0
Loads W = List (Text × Load W)

unfoldable pub normalize_login : Option Text → Text
normalize_login login = normalize (or_empty login)

-- `_match` of `make_topic_label_matcher`, where `fullmatch` is the compiled pattern.
unfoldable pub topic_match : (Text → Bool) → Option Text → Bool
topic_match fullmatch none = false
topic_match fullmatch (some name) = if is_empty name then false else fullmatch name

unfoldable pub topic_labels : (Text → Bool) → List (Option Text) → List Text
unfolding topic_match
topic_labels fullmatch [] = []
topic_labels fullmatch (label ∷ labels) =
    let rest = topic_labels fullmatch labels in
    if topic_match fullmatch label then or_empty label ∷ rest else rest

unfoldable pub all_labels_lower : List (Option Text) → List Text
all_labels_lower [] = []
all_labels_lower (label ∷ labels) =
    let rest = all_labels_lower labels in
    if is_empty (or_empty label) then rest else normalize (or_empty label) ∷ rest

pub data Prefilter : Type 0 where
  conflict_of_interest excluded_label : Prefilter

-- The test of the author, then that of the labels.
unfoldable pub prefilter_reason : ReviewerProfile → Text → List Text → Option Prefilter
prefilter_reason reviewer author labels =
    if contains author (lower reviewer.github_login ∷ reviewer.conflict_of_interest_lower)
    then some Prefilter.conflict_of_interest
    else if any (λ label. contains label labels) reviewer.excluded_labels_lower
    then some Prefilter.excluded_label
    else none

unfoldable pub within_limit : Option ℕ → ℕ → Bool
within_limit none taken = true
within_limit (some limit) taken = ltb taken limit

unfoldable pub within_rate_limit : ReviewerProfile → Bool
unfolding within_limit
within_rate_limit reviewer =
    within_limit reviewer.weekly_limit
      (reviewer.recent_assignment_count + reviewer.simulated_this_run)

module _ {W : Type 0} ⦃a : Arithmetic W⦄ where
  unfoldable pub weight_of : Option (Load W) → W
  weight_of none = a.of_nat 0
  weight_of (some load) = load.weight

  unfoldable pub current_weight : Text → Loads W → W
  unfolding weight_of
  current_weight login loads = weight_of (get login loads)

  -- `maximum_capacity - current_weight`
  unfoldable pub remaining : Loads W → ReviewerProfile → W
  unfolding current_weight
  remaining loads reviewer =
      a.sub (a.of_nat reviewer.maximum_capacity) (current_weight reviewer.github_login loads)

  unfoldable pub is_positive : W → Bool
  is_positive w = a.lt (a.of_nat 0) w

  -- `remaining <= 0`
  unfoldable pub is_used_up : W → Bool
  is_used_up w = a.le w (a.of_nat 0)

  abbrev pub no_load : Load W
  no_load = record { open_prs = []; weight = a.of_nat 0; total = 0 }

  abbrev pub load_of : Option (Load W) → Load W
  load_of none = no_load
  load_of (some load) = load

  -- `float(total_queue_time["value_td"])` of a valid entry.
  unfoldable pub queue_age_of : QueueTime W → Option W
  queue_age_of t = if lower (status_or_valid t.status) == codes "valid" then t.value_td else none
    where
      status_or_valid : Option Text → Text
      status_or_valid none = codes "valid"
      status_or_valid (some s) = if is_empty s then codes "valid" else s
