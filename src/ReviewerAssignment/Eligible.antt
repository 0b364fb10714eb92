-- ===== src/ReviewerAssignment/Eligible.antt =====
-- Who is suggested.
use mathlib.Core.List.{Memᴰ}
use queueboard_core.Prelude.{
  ℕ, ◌≤◌, ◌≡◌, refl, sym, ap, ◌∙◌, subst, inl, inr, true, false, not, none, some, List, [], ◌∷◌,
  contains, is_empty, ltb, map, length, ◌==◌, nat_eq, Memᴰ-keep, Memᴰ-map, Memᴰ_of_contains,
  Bool-cases, arith, nat_beq_iff,
}
use queueboard_core.Prelude.Sorting.{Memᴰ-sorted}
use queueboard_core.Prelude.Text.{Text, text_eq}
use queueboard_core.ReviewerAssignment.Profiles.{
  Arithmetic, ReviewerProfile, Loads, prefilter_reason, within_rate_limit, remaining, is_positive,
}
use queueboard_core.ReviewerAssignment.Candidates.{
  Match, Request, labels_matched, is_dropped, add_match, matching, max_score, best, proposed,
  CandidateState, Chooser, is_excluded, logins, by_weight, is_available, is_candidate, available,
  contest, reviewer_candidate_state, suggestion_of, suggest_reviewer_for_pr,
}

-- A reviewer of the list that is not dropped and prefers some topic label of the PR.
pub record IsMatch (q : Request) (reviewers : List ReviewerProfile) (m : Match) : Type 0 where
  pub listed : Memᴰ m.reviewer reviewers
  pub kept : is_dropped q m.reviewer ≡ false
  pub score : m.labels ≡ labels_matched q m.reviewer
  pub some_label : is_empty m.labels ≡ false

IsMatch-tail :
    (q : Request) (reviewer : ReviewerProfile) (reviewers : List ReviewerProfile) (m : Match)
    → IsMatch q reviewers m
    → IsMatch q (reviewer ∷ reviewers) m
IsMatch-tail q reviewer reviewers m h = record {
  listed = Memᴰ.tail h.listed;
  kept = h.kept;
  score = h.score;
  some_label = h.some_label;
}

pub matching-IsMatch :
    (q : Request) (reviewers : List ReviewerProfile) (m : Match)
    → Memᴰ m (matching q reviewers)
    → IsMatch q reviewers m
unfolding matching add_match
matching-IsMatch q [] m h = elim h [ ]
matching-IsMatch q (r ∷ rs) m h = elim (Bool-cases (is_dropped q r)) [
  | inl p ↦ IsMatch-tail q r rs m (matching-IsMatch q rs m (rw p at h))
  | inr p ↦ elim (Bool-cases (is_empty (labels_matched q r))) [
    | inl e ↦ IsMatch-tail q r rs m (matching-IsMatch q rs m (rw (p, e) at h))
    | inr e ↦ IsMatch_of_cons q r rs m p e (λ n. matching-IsMatch q rs m n) (rw (p, e) at h)
  ]
]
  where
    IsMatch_of_cons :
        (q : Request) (r : ReviewerProfile) (rs : List ReviewerProfile) (m : Match)
        → is_dropped q r ≡ false
        → is_empty (labels_matched q r) ≡ false
        → (Memᴰ m (matching q rs) → IsMatch q rs m)
        → Memᴰ m (record { reviewer = r; labels = labels_matched q r } ∷ matching q rs)
        → IsMatch q (r ∷ rs) m
    IsMatch_of_cons q r rs m p e f (Memᴰ.tail n) = IsMatch-tail q r rs m (f n)
    IsMatch_of_cons q r rs m p e f (Memᴰ.head same) =
        subst (λ k. IsMatch q (r ∷ rs) k) (sym same)
          (record { listed = Memᴰ.head refl; kept = p; score = refl; some_label = e })

le-max_score : (m : Match) (ms : List Match) → Memᴰ m ms → length m.labels ≤ max_score ms
unfolding max_score
le-max_score m [] h = elim h [ ]
le-max_score m (x ∷ ms) (Memᴰ.head e) =
    let same = ap (λ (k : Match). length k.labels) e in ground arith
le-max_score m (x ∷ ms) (Memᴰ.tail h) = ground (arith, le-max_score m ms h)

empty_length : {A : Type 0} (xs : List A) → is_empty xs ≡ false → 1 ≤ length xs
empty_length [] e = cc
empty_length (x ∷ xs) e = omega arith

pub best-max :
    (m : Match) (ms : List Match) → Memᴰ m (best ms) → Memᴰ m ms × (max_score ms ≤ length m.labels)
unfolding best
best-max m ms h = elim (Bool-cases (ltb 1 (max_score ms))) [
  | inl p ↦
      let (n, e) = Memᴰ-keep (λ (k : Match). length k.labels == max_score ms) m ms (rw p at h) in
      (n, let same = (nat_beq_iff (length m.labels) (max_score ms)).0 e in omega arith)
  | inr p ↦
      let (n, e) = Memᴰ-keep (λ (k : Match). not (is_empty k.labels)) m ms (rw p at h) in
      (n, ground (arith, empty_length m.labels))
]

empty_zero : {A : Type 0} (xs : List A) → is_empty xs ≡ true → length xs ≡ 0
empty_zero [] e = refl
empty_zero (x ∷ xs) e = cc

first_le :
    (q : Request) (x : ReviewerProfile) (rs : List ReviewerProfile)
    → is_dropped q x ≡ false
    → length (labels_matched q x) ≤ max_score (matching q (x ∷ rs))
unfolding matching add_match max_score
first_le q x rs k = ground (arith, empty_zero (labels_matched q x))

matched-le :
    (q : Request) (r : ReviewerProfile) (rs : List ReviewerProfile)
    → Memᴰ r rs
    → is_dropped q r ≡ false
    → length (labels_matched q r) ≤ max_score (matching q rs)
unfolding matching add_match max_score
matched-le q r [] h k = elim h [ ]
matched-le q r (x ∷ rs) (Memᴰ.head e) k =
    subst (λ y. length (labels_matched q y) ≤ max_score (matching q (x ∷ rs))) (sym e)
      (first_le q x rs (sym (ap (is_dropped q) e) ∙ k))
matched-le q r (x ∷ rs) (Memᴰ.tail h) k = ground (arith, matched-le q r rs h k)

not_dropped :
    (q : Request) (r : ReviewerProfile)
    → is_dropped q r ≡ false
    → prefilter_reason r q.author_norm q.labels_lower ≡ none
unfolding is_dropped
not_dropped q r h = ground arith

dropped_not :
    (q : Request) (r : ReviewerProfile)
    → prefilter_reason r q.author_norm q.labels_lower ≡ none
    → is_dropped q r ≡ false
unfolding is_dropped
dropped_not q r h = ground arith

module _ {W : Type 0} ⦃a : Arithmetic W⦄ where
  -- All that the engine asks of the reviewer that it suggests.
  pub record IsEligible (q : Request) (loads : Loads W) (reviewers : List ReviewerProfile)
      (r : ReviewerProfile) : Type 0 where
    pub listed : Memᴰ r reviewers
    pub not_prefiltered : prefilter_reason r q.author_norm q.labels_lower ≡ none
    pub not_opted_out : is_excluded q r ≡ false
    pub has_capacity : is_positive (remaining loads r) ≡ true
    pub assigns : r.auto_assign ≡ true
    pub at_work : r.temporary_break ≡ false
    pub in_rate : within_rate_limit r ≡ true
    pub matches : 1 ≤ length (labels_matched q r)
    pub matches_most :
        (s : ReviewerProfile)
        → Memᴰ s reviewers
        → prefilter_reason s q.author_norm q.labels_lower ≡ none
        → length (labels_matched q s) ≤ length (labels_matched q r)

  IsEligible-of :
      (q : Request) (loads : Loads W) (reviewers : List ReviewerProfile) (r : ReviewerProfile)
      (m : Match)
      → IsMatch q reviewers m
      → max_score (matching q reviewers) ≤ length m.labels
      → r ≡ m.reviewer
      → is_candidate q loads r ≡ true
      → IsEligible q loads reviewers r
  unfolding is_candidate is_available
  IsEligible-of q loads reviewers r m h most e c =
      let labels_same = h.score ∙ ap (labels_matched q) (sym e) in
      let score_same = ap length labels_same in
      record {
        listed = subst (λ x. Memᴰ x reviewers) (sym e) h.listed;
        not_prefiltered = not_dropped q r (ap (is_dropped q) e ∙ h.kept);
        not_opted_out = ground arith;
        has_capacity = ground arith;
        assigns = ground arith;
        at_work = ground arith;
        in_rate = ground arith;
        matches = omega (arith, score_same, empty_length m.labels h.some_label);
        matches_most = λ s n k.
            omega (arith, score_same, most, matched-le q s reviewers n (dropped_not q s k));
      }

  available-IsEligible :
      (q : Request) (loads : Loads W) (reviewers : List ReviewerProfile) (r : ReviewerProfile)
      → is_empty q.topic_lower ≡ false
      → Memᴰ r (available q loads (by_weight loads (proposed q (matching q reviewers))))
      → IsEligible q loads reviewers r
  unfolding available proposed by_weight
  available-IsEligible q loads reviewers r topics h =
      let ms = matching q reviewers in
      let (n, c) =
        Memᴰ-keep (is_candidate q loads) r
          (map (λ (m : Match). m.reviewer) (by_weight loads (proposed q ms))) h in
      let (m, k, e) = Memᴰ-map (λ (m : Match). m.reviewer) r (by_weight loads (proposed q ms)) n in
      let chosen = Memᴰ-sorted _ m (proposed q ms) k in
      let (l, most) = best-max m ms (rw topics at chosen) in
      IsEligible-of q loads reviewers r m (matching-IsMatch q reviewers m l) most e c

  -- `random.choices` returns an element of a population that is not empty.
  abbrev pub Chooses : Chooser W → Type 0
  Chooses choose =
      (draw : ℕ) (population : List Text) (weights : List W)
      → is_empty population ≡ false
      → contains (choose draw population weights) population ≡ true

  suggestion_of-some :
      (choose : Chooser W) (draw : ℕ) (s : CandidateState W) (login : Text)
      → (suggestion_of choose draw s).suggested ≡ some login
      → (is_empty s.available ≡ false) × (choose draw s.available s.weights ≡ login)
  unfolding suggestion_of
  suggestion_of-some choose draw s login e = ground arith

  state_available :
      (q : Request) (reviewers : List ReviewerProfile) (loads : Loads W)
      → is_empty (reviewer_candidate_state q reviewers loads).available ≡ false
      → (is_empty q.topic_lower ≡ false)
        × ((reviewer_candidate_state q reviewers loads).available
            ≡ logins (available q loads (by_weight loads (proposed q (matching q reviewers)))))
  unfolding reviewer_candidate_state contest
  state_available q reviewers loads h = ground arith

  -- A suggested login is that of a reviewer whom every rule lets through: not the author, in no
  -- conflict with the author, not excluding a label of the PR, not opted out, with capacity left
  -- under both limits, assigned automatically, not on a break, and with as many of the PR's topic
  -- labels, at least one, as any reviewer whom the first two rules let through.
  pub suggest_reviewer_for_pr-IsEligible :
      (choose : Chooser W) (draw : ℕ) (q : Request) (reviewers : List ReviewerProfile)
      (loads : Loads W) (login : Text)
      → Chooses choose
      → (suggest_reviewer_for_pr choose draw q reviewers loads).suggested ≡ some login
      → (r : ReviewerProfile) × (login ≡ r.github_login) × IsEligible q loads reviewers r
  unfolding suggest_reviewer_for_pr
  suggest_reviewer_for_pr-IsEligible choose draw q reviewers loads login chooses e =
      let s = reviewer_candidate_state q reviewers loads in
      let (some_one, picked) = suggestion_of-some choose draw s login e in
      let (topics, same) = state_available q reviewers loads some_one in
      let chosen =
        subst (λ l. contains l s.available ≡ true) picked
          (chooses draw s.available s.weights some_one) in
      let listed = Memᴰ_of_contains login s.available chosen in
      let (r, n, l) =
        Memᴰ-map (λ (r : ReviewerProfile). r.github_login) login
          (available q loads (by_weight loads (proposed q (matching q reviewers))))
          (rw same at listed) in
      (r, l, available-IsEligible q loads reviewers r topics n)
