-- ===== src/ReviewerAssignment/Candidates.antt =====
-- `_reviewer_candidate_state` and `suggest_reviewer_for_pr`.
use queueboard_core.Prelude.{
  ℕ, Bool, not, ◌&&◌, Option, none, some, List, [], ◌∷◌, if◌then◌else◌, contains, is_empty, is_some,
  ltb, map, keep, length, ◌==◌, nat_eq,
}
use queueboard_core.Prelude.Sorting.{sorted}
use queueboard_core.Prelude.Text.{Text, text_eq, lower}
use queueboard_core.ReviewerAssignment.Profiles.{
  Arithmetic, ReviewerProfile, PrEntry, Loads, normalize_login, topic_labels, all_labels_lower,
  prefilter_reason, within_rate_limit, current_weight, remaining, is_positive,
}

pub data Reason : Type 0 where
  missing_topic_label no_match no_matching_labels no_capacity : Reason

-- A reviewer and the topic labels of the PR that the reviewer prefers.
pub record Match : Type 0 where
  pub reviewer : ReviewerProfile
  pub labels : List Text

-- What does not change from one reviewer to the next.
pub record Request : Type 0 where
  pub topic_lower : List Text
  pub author_norm : Text
  pub labels_lower : List Text
  pub excluded_lower : List Text

-- `{_normalize_login(login) for login in excluded_logins if login}`
unfoldable pub excluded_of : List Text → List Text
excluded_of logins = map (λ l. normalize_login (some l)) (keep (λ l. not (is_empty l)) logins)

unfoldable pub request_of : {W : Type 0} → (Text → Bool) → List Text → PrEntry W → Request
unfolding excluded_of
request_of fullmatch excluded entry = record {
  topic_lower = map lower (topic_labels fullmatch entry.labels);
  author_norm = normalize_login entry.author;
  labels_lower = all_labels_lower entry.labels;
  excluded_lower = excluded_of excluded;
}

unfoldable pub labels_matched : Request → ReviewerProfile → List Text
labels_matched q reviewer = keep (λ l. contains l reviewer.preferred_labels_lower) q.topic_lower

unfoldable pub is_dropped : Request → ReviewerProfile → Bool
is_dropped q reviewer = is_some (prefilter_reason reviewer q.author_norm q.labels_lower)

unfoldable pub add_match : ReviewerProfile → List Text → List Match → List Match
add_match reviewer labels matches =
    if is_empty labels then matches else record { reviewer = reviewer; labels = labels } ∷ matches

unfoldable pub matching : Request → List ReviewerProfile → List Match
unfolding add_match labels_matched is_dropped
matching q [] = []
matching q (reviewer ∷ reviewers) =
    let rest = matching q reviewers in
    if is_dropped q reviewer then rest else add_match reviewer (labels_matched q reviewer) rest

-- `max(len(m) for _, m in matching)`
unfoldable pub max_score : List Match → ℕ
max_score [] = 0
max_score (m ∷ ms) =
    let rest = max_score ms in if ltb rest (length m.labels) then length m.labels else rest

unfoldable pub best : List Match → List Match
unfolding max_score
best ms =
    if ltb 1 (max_score ms)
    then keep (λ m. length m.labels == max_score ms) ms
    else keep (λ m. not (is_empty m.labels)) ms

unfoldable pub proposed : Request → List Match → List Match
unfolding best
proposed q ms = if is_empty q.topic_lower then ms else best ms

pub record CandidateState (W : Type 0) : Type 0 where
  pub potential : List Text
  pub available : List Text
  pub weights : List W
  pub reason : Option Reason

abbrev pub nobody : {W : Type 0} → Reason → CandidateState W
nobody reason = record { potential = []; available = []; weights = []; reason = some reason }

pub record Suggestion : Type 0 where
  pub suggested : Option Text
  pub all_potential : List Text
  pub all_available : List Text
  pub reason : Option Reason

-- `random.choices(population, weights, k=1)[0]`, by the number of the draw.
abbrev pub Chooser : Type 0 → Type 0
Chooser W = ℕ → List Text → List W → Text

abbrev pub no_suggestion : List Text → Reason → Suggestion
no_suggestion potential reason = record {
  suggested = none;
  all_potential = potential;
  all_available = [];
  reason = some reason;
}

-- `unavailable_reason or "no-match"`
abbrev pub or_no_match : Option Reason → Reason
or_no_match none = Reason.no_match
or_no_match (some reason) = reason

abbrev pub is_excluded : Request → ReviewerProfile → Bool
is_excluded q reviewer = contains (normalize_login (some reviewer.github_login)) q.excluded_lower

abbrev pub logins : List ReviewerProfile → List Text
logins reviewers = map (λ (r : ReviewerProfile). r.github_login) reviewers

module _ {W : Type 0} ⦃a : Arithmetic W⦄ where
  -- Python's sort is stable.
  unfoldable pub by_weight : Loads W → List Match → List Match
  by_weight loads = sorted λ x y. not (
      a.lt (current_weight y.reviewer.github_login loads)
        (current_weight x.reviewer.github_login loads))

  unfoldable pub is_available : Loads W → ReviewerProfile → Bool
  is_available loads reviewer =
      is_positive (remaining loads reviewer)
      && reviewer.auto_assign
      && not reviewer.temporary_break
      && within_rate_limit reviewer

  unfoldable pub is_candidate : Request → Loads W → ReviewerProfile → Bool
  unfolding is_available
  is_candidate q loads reviewer = not (is_excluded q reviewer) && is_available loads reviewer

  unfoldable pub available : Request → Loads W → List Match → List ReviewerProfile
  unfolding is_candidate
  available q loads ms = keep (is_candidate q loads) (map (λ (m : Match). m.reviewer) ms)

  unfoldable pub contest : Request → Loads W → List Match → List Match → CandidateState W
  unfolding by_weight available
  contest q loads ms chosen =
      if is_empty ms
      then nobody Reason.no_match
      else if is_empty chosen
      then nobody Reason.no_matching_labels
      else record {
        potential = logins (map (λ (m : Match). m.reviewer) (by_weight loads chosen));
        available = logins (available q loads (by_weight loads chosen));
        weights = map (remaining loads) (available q loads (by_weight loads chosen));
        reason = none;
      }

  unfoldable pub reviewer_candidate_state :
      Request → List ReviewerProfile → Loads W → CandidateState W
  unfolding contest matching proposed
  reviewer_candidate_state q reviewers loads =
      if is_empty q.topic_lower
      then nobody Reason.missing_topic_label
      else contest q loads (matching q reviewers) (proposed q (matching q reviewers))

  unfoldable pub suggestion_of : Chooser W → ℕ → CandidateState W → Suggestion
  suggestion_of choose draw s =
      if is_empty s.potential
      then no_suggestion [] (or_no_match s.reason)
      else if is_empty s.available
      then no_suggestion s.potential Reason.no_capacity
      else record {
        suggested = some (choose draw s.available s.weights);
        all_potential = s.potential;
        all_available = s.available;
        reason = none;
      }

  unfoldable pub suggest_reviewer_for_pr :
      Chooser W → ℕ → Request → List ReviewerProfile → Loads W → Suggestion
  unfolding reviewer_candidate_state suggestion_of
  suggest_reviewer_for_pr choose draw q reviewers loads =
      suggestion_of choose draw (reviewer_candidate_state q reviewers loads)
