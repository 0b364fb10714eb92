-- ===== src/ReviewerAssignment/Trace.antt =====
-- `suggest_reviewer_for_pr_with_trace`. The lists of filtered logins are left as they are collected;
-- the code then sorts each, drops its duplicates, and leaves out the empty ones. So are the opt-outs.
use queueboard_core.Prelude.{
  ℕ, Bool, not, Option, none, some, List, [], ◌∷◌, ◌++◌, if◌then◌else◌, is_empty, map, length,
}
use queueboard_core.Prelude.Dict.{get, put}
use queueboard_core.Prelude.Text.{Text, text_eq, or_empty}
use queueboard_core.ReviewerAssignment.Profiles.{
  Arithmetic, ReviewerProfile, PrEntry, Loads, Prefilter, prefilter_reason, within_rate_limit,
  current_weight, remaining, is_used_up,
}
use queueboard_core.ReviewerAssignment.Candidates.{
  Reason, Match, Request, labels_matched, add_match, proposed, Suggestion, no_suggestion, Chooser,
  is_excluded, logins, by_weight, is_available,
}

pub record Filtered : Type 0 where
  pub conflict_of_interest : List Text
  pub excluded_label : List Text
  pub opt_out : List Text
  pub temporary_break : List Text
  pub auto_assign_disabled : List Text
  pub at_capacity : List Text
  pub at_rate_limit : List Text

abbrev pub nothing_filtered : Filtered
nothing_filtered = record {
  conflict_of_interest = [];
  excluded_label = [];
  opt_out = [];
  temporary_break = [];
  auto_assign_disabled = [];
  at_capacity = [];
  at_rate_limit = [];
}

-- `.append(login)` where the test holds.
abbrev pub note_if : Bool → Text → List Text → List Text
note_if test login noted = if test then noted ++ login ∷ [] else noted

unfoldable pub note_prefilter : Option Prefilter → Text → Filtered → Filtered
note_prefilter none login f = f
note_prefilter (some Prefilter.conflict_of_interest) login f = record f {
  conflict_of_interest = f.conflict_of_interest ++ login ∷ [];
}
note_prefilter (some Prefilter.excluded_label) login f = record f {
  excluded_label = f.excluded_label ++ login ∷ [];
}

unfoldable pub match_or_drop :
    Option Prefilter → ReviewerProfile → List Text → List Match → List Match
unfolding add_match
match_or_drop none r labels ms = add_match r labels ms
match_or_drop (some why) r labels ms = ms

unfoldable pub matching_with_trace :
    Request → List ReviewerProfile → Filtered → List Match × Filtered
unfolding note_prefilter match_or_drop labels_matched
matching_with_trace q [] f = ([], f)
matching_with_trace q (r ∷ rs) f =
    let why = prefilter_reason r q.author_norm q.labels_lower in
    let (ms, f') = matching_with_trace q rs (note_prefilter why r.github_login f) in
    (match_or_drop why r (labels_matched q r) ms, f')

pub record Weight (W : Type 0) : Type 0 where
  pub current_weight : W
  pub remaining_capacity : W

pub record Trace (W : Type 0) : Type 0 where
  pub labels : List Text
  pub author : Text
  pub opt_outs : List Text
  pub matching_label : ℕ
  pub after_exclusions : ℕ
  pub available_capacity : ℕ
  pub potential : List Text
  pub available : List Text
  pub weights : List (Text × Weight W)
  pub filtered : Filtered
  pub picked : Option Text
  pub reason : Option Reason

-- What the second loop collects.
pub record Gates (W : Type 0) : Type 0 where
  pub available : List Text
  pub weights : List (Text × Weight W)
  pub filtered : Filtered

abbrev pub reason_of : Option Text → Option Reason
reason_of none = some Reason.no_capacity
reason_of (some login) = none

module _ {W : Type 0} ⦃a : Arithmetic W⦄ where
  unfoldable pub note_gates : Loads W → ReviewerProfile → Filtered → Filtered
  note_gates loads r f = record f {
    at_capacity = note_if (is_used_up (remaining loads r)) r.github_login f.at_capacity;
    auto_assign_disabled = note_if (not r.auto_assign) r.github_login f.auto_assign_disabled;
    temporary_break = note_if r.temporary_break r.github_login f.temporary_break;
    at_rate_limit = note_if (not (within_rate_limit r)) r.github_login f.at_rate_limit;
  }

  unfoldable pub add_available : Loads W → ReviewerProfile → Gates W → Gates W
  add_available loads r g = record g {
    available = g.available ++ r.github_login ∷ [];
    weights =
        put r.github_login
          (record {
            current_weight = current_weight r.github_login loads;
            remaining_capacity = remaining loads r;
          })
          g.weights;
  }

  unfoldable pub take_gates : Request → Loads W → Gates W → ReviewerProfile → Gates W
  unfolding note_gates add_available is_available
  take_gates q loads g r =
      if is_excluded q r
      then record g {
        filtered = record g.filtered { opt_out = g.filtered.opt_out ++ r.github_login ∷ [] };
      }
      else if is_available loads r
      then add_available loads r (record g { filtered = note_gates loads r g.filtered })
      else record g { filtered = note_gates loads r g.filtered }

  unfoldable pub take_all_gates : Request → Loads W → Gates W → List ReviewerProfile → Gates W
  unfolding take_gates
  take_all_gates q loads g [] = g
  take_all_gates q loads g (r ∷ rs) = take_all_gates q loads (take_gates q loads g r) rs

  -- `weights[login]["remaining_capacity"]`
  abbrev pub capacity_of : Option (Weight W) → W
  capacity_of none = a.of_nat 0
  capacity_of (some w) = w.remaining_capacity

  abbrev pub capacities : Gates W → List W
  capacities g = map (λ login. capacity_of (get login g.weights)) g.available

  -- The trace of a PR for which nobody is in the contest.
  abbrev pub no_trace : Request → PrEntry W → List Text → ℕ → Filtered → Reason → Trace W
  no_trace q entry labels matched f why = record {
    labels = labels;
    author = or_empty entry.author;
    opt_outs = q.excluded_lower;
    matching_label = matched;
    after_exclusions = 0;
    available_capacity = 0;
    potential = [];
    available = [];
    weights = [];
    filtered = f;
    picked = none;
    reason = some why;
  }

  unfoldable pub picked_of : Chooser W → ℕ → Gates W → Option Text
  picked_of choose draw g =
      if is_empty g.available then none else some (choose draw g.available (capacities g))

  unfoldable pub suggestion_with : Option Text → List Text → Gates W → Suggestion
  suggestion_with none potential g = no_suggestion potential Reason.no_capacity
  suggestion_with (some login) potential g = record {
    suggested = some login;
    all_potential = potential;
    all_available = g.available;
    reason = none;
  }

  unfoldable pub finish_with_trace :
      Chooser W
      → ℕ
      → Request
      → PrEntry W
      → List Text
      → ℕ
      → List Text
      → Gates W
      → Suggestion × Trace W
  unfolding picked_of suggestion_with
  finish_with_trace choose draw q entry labels matched potential g = (
    suggestion_with (picked_of choose draw g) potential g,
    record {
      labels = labels;
      author = or_empty entry.author;
      opt_outs = q.excluded_lower;
      matching_label = matched;
      after_exclusions = length potential;
      available_capacity = length g.available;
      potential = potential;
      available = g.available;
      weights = g.weights;
      filtered = g.filtered;
      picked = picked_of choose draw g;
      reason = reason_of (picked_of choose draw g);
    },
  )

  unfoldable pub contest_with_trace :
      Chooser W
      → ℕ
      → Request
      → PrEntry W
      → List Text
      → Loads W
      → List Match
      → List Match
      → Filtered
      → Suggestion × Trace W
  unfolding finish_with_trace take_all_gates by_weight
  contest_with_trace choose draw q entry labels loads ms chosen f =
      if is_empty ms
      then (no_suggestion [] Reason.no_match, no_trace q entry labels 0 f Reason.no_match)
      else if is_empty chosen
      then (
        no_suggestion [] Reason.no_matching_labels,
        no_trace q entry labels (length ms) f Reason.no_matching_labels,
      )
      else finish_with_trace choose draw q entry labels (length ms)
          (logins (map (λ (m : Match). m.reviewer) (by_weight loads chosen)))
          (take_all_gates q loads (record { available = []; weights = []; filtered = f })
            (map (λ (m : Match). m.reviewer) (by_weight loads chosen)))

  unfoldable pub suggest_reviewer_for_pr_with_trace :
      Chooser W
      → ℕ
      → Request
      → PrEntry W
      → List Text
      → List ReviewerProfile
      → Loads W
      → Suggestion × Trace W
  unfolding contest_with_trace matching_with_trace proposed
  suggest_reviewer_for_pr_with_trace choose draw q entry labels reviewers loads =
      let (ms, f) = matching_with_trace q reviewers nothing_filtered in
      if is_empty q.topic_lower
      then (
        no_suggestion [] Reason.missing_topic_label,
        no_trace q entry labels 0 nothing_filtered Reason.missing_topic_label,
      )
      else contest_with_trace choose draw q entry labels loads ms (proposed q ms) f
