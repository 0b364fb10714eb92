-- ===== src/ReviewerAssignment/SameChoice.antt =====
-- The choice with the trace is the choice without.
use mathlib.Core.List.{Memᴰ}
use queueboard_core.Prelude.{
  ℕ, ◌≡◌, refl, sym, ap, ◌∙◌, subst, inl, inr, true, false, ◌&&◌, none, List, [], ◌∷◌,
  if◌then◌else◌, is_empty, map, length, keep, contains, Bool-cases, arith, ◌==◌, Memᴰ-keep,
  Memᴰ-map,
}
use queueboard_core.Prelude.Dict.{get, get-put}
use queueboard_core.Prelude.Text.{Text, text_eq, text_beq_iff}
use queueboard_core.Prelude.Sorting.{Memᴰ-sorted, sorted-nonempty}
use queueboard_core.ReviewerAssignment.Profiles.{
  Arithmetic, ReviewerProfile, PrEntry, Loads, current_weight, remaining,
}
use queueboard_core.ReviewerAssignment.Candidates.{
  Match, Request, matching, proposed, Chooser, logins, by_weight, is_candidate, available, contest,
  reviewer_candidate_state, suggestion_of, suggest_reviewer_for_pr,
}
use queueboard_core.ReviewerAssignment.Eligible.{matching-IsMatch, best-max}
use queueboard_core.ReviewerAssignment.Trace.{
  Filtered, nothing_filtered, matching_with_trace, Gates, add_available, take_gates, take_all_gates,
  capacity_of, capacities, Weight, finish_with_trace, picked_of, contest_with_trace,
  suggest_reviewer_for_pr_with_trace,
}
use queueboard_core.ReviewerAssignment.Explained.{
  matching_with_trace-eq, now_available, take_all-available,
}

map_same :
    {A : Type 0} (f g : Text → A) (ls : List Text)
    → ((l : Text) → contains l ls ≡ true → f l ≡ g l)
    → map f ls ≡ map g ls
unfolding contains
map_same f g [] h = refl
map_same f g (l ∷ ls) h =
    let first = h l (ground (arith, text_beq_iff l l)) in
    ground (arith, first, map_same f g ls (λ k m. h k (ground arith)))

module _ {W : Type 0} ⦃a : Arithmetic W⦄ (q : Request) (loads : Loads W) (capacity : Text → ℕ) where
  -- What is left of the capacity of a login.
  abbrev left : Text → W
  left l = a.sub (a.of_nat (capacity l)) (current_weight l loads)

  abbrev IsWeighed : Gates W → Type 0
  IsWeighed g = (l : Text) → contains l g.available ≡ true → capacity_of (get l g.weights) ≡ left l

  take_gates-weights :
      (l : Text) (g : Gates W) (r : ReviewerProfile)
      → r.maximum_capacity ≡ capacity r.github_login
      → capacity_of (get l (take_gates q loads g r).weights) ≡ (
          if is_candidate q loads r && r.github_login == l
          then left r.github_login
          else capacity_of (get l g.weights))
  unfolding take_gates add_available is_candidate remaining
  take_gates-weights l g r e =
      let w : Weight W = record {
        current_weight = current_weight r.github_login loads;
        remaining_capacity = remaining loads r;
      } in
      ground (
        arith,
        get-put l r.github_login w g.weights,
        ap (λ k. a.sub (a.of_nat k) (current_weight r.github_login loads)) e,
      )

  take_gates-IsWeighed :
      (g : Gates W) (r : ReviewerProfile)
      → r.maximum_capacity ≡ capacity r.github_login
      → IsWeighed g
      → IsWeighed (take_gates q loads g r)
  take_gates-IsWeighed g r e h l m =
      let weight = take_gates-weights l g r e in
      let now = now_available q loads l g r in
      elim (Bool-cases (is_candidate q loads r && r.github_login == l)) [
        | inl p ↦
            let same = (text_beq_iff r.github_login l).0 (ground arith) in
            (rw p at weight) ∙ ap left same
        | inr p ↦
            (rw p at weight)
            ∙ h l
                (ground (arith, now, text_beq_iff r.github_login l, text_beq_iff l r.github_login))
      ]

  take_all-IsWeighed :
      (g : Gates W) (rs : List ReviewerProfile)
      → ((r : ReviewerProfile) → Memᴰ r rs → r.maximum_capacity ≡ capacity r.github_login)
      → IsWeighed g
      → IsWeighed (take_all_gates q loads g rs)
  unfolding take_all_gates
  take_all-IsWeighed g [] e h = h
  take_all-IsWeighed g (r ∷ rs) e h =
      take_all-IsWeighed (take_gates q loads g r) rs (λ s m. e s (Memᴰ.tail m))
        (take_gates-IsWeighed g r (e r (Memᴰ.head refl)) h)

  remaining_left :
      (rs : List ReviewerProfile)
      → ((r : ReviewerProfile) → Memᴰ r rs → r.maximum_capacity ≡ capacity r.github_login)
      → map left (logins rs) ≡ map (remaining loads) rs
  unfolding remaining
  remaining_left [] e = refl
  remaining_left (r ∷ rs) e =
      let first = e r (Memᴰ.head refl) in
      let rest = remaining_left rs (λ s m. e s (Memᴰ.tail m)) in ground (arith, rest, first)

  abbrev no_gates : Filtered → Gates W
  no_gates f = record { available = []; weights = []; filtered = f }

  -- The second loop gives the population and the weights of the choice without the trace.
  gates_same :
      (f : Filtered) (rs : List ReviewerProfile)
      → ((r : ReviewerProfile) → Memᴰ r rs → r.maximum_capacity ≡ capacity r.github_login)
      → ((take_all_gates q loads (no_gates f) rs).available
          ≡ logins (keep (is_candidate q loads) rs))
        × (capacities (take_all_gates q loads (no_gates f) rs)
            ≡ map (remaining loads) (keep (is_candidate q loads) rs))
  unfolding contains
  gates_same f rs e =
      let g = take_all_gates q loads (no_gates f) rs in
      let who = take_all-available q loads (no_gates f) rs in
      let weighed = take_all-IsWeighed (no_gates f) rs e (λ l m. absurd (cc)) in
      (
        who,
        map_same (λ l. capacity_of (get l g.weights)) left g.available weighed
            ∙ ap (map left) who
            ∙ remaining_left (keep (is_candidate q loads) rs)
                (λ r m. e r (Memᴰ-keep (is_candidate q loads) r rs m).0),
      )

nonempty_logins :
    (ms : List Match)
    → is_empty ms ≡ false
    → is_empty (logins (map (λ (m : Match). m.reviewer) ms)) ≡ false
nonempty_logins [] e = e
nonempty_logins (m ∷ ms) e = refl

module _ {W : Type 0} ⦃a : Arithmetic W⦄ where
  finish_same :
      (choose : Chooser W) (draw : ℕ) (q : Request) (entry : PrEntry W) (labels : List Text)
      (matched : ℕ) (potential : List Text) (g : Gates W)
      → is_empty potential ≡ false
      → (finish_with_trace choose draw q entry labels matched potential g).0
        ≡ suggestion_of choose draw (record {
          potential = potential;
          available = g.available;
          weights = capacities g;
          reason = none;
        })
  unfolding finish_with_trace suggestion_of
  finish_same choose draw q entry labels matched potential g e =
      elim (Bool-cases (is_empty g.available)) [
        | inl p ↦ rw (p, picked_of) (ground arith)
        | inr p ↦ rw (p, picked_of) (ground arith)
      ]

  module _ (choose : Chooser W) (draw : ℕ) (q : Request) (entry : PrEntry W) (labels : List Text)
      (loads : Loads W) (capacity : Text → ℕ) where
    contest_same :
        (ms chosen : List Match) (f : Filtered)
        → ((r : ReviewerProfile)
            → Memᴰ r (map (λ (m : Match). m.reviewer) (by_weight loads chosen))
            → r.maximum_capacity ≡ capacity r.github_login)
        → (contest_with_trace choose draw q entry labels loads ms chosen f).0
          ≡ suggestion_of choose draw (contest q loads ms chosen)
    unfolding contest_with_trace contest available suggestion_of
    contest_same [] chosen f e = refl
    contest_same (m ∷ ms) [] f e = refl
    contest_same (m ∷ ms) (k ∷ chosen) f e =
        let rs = map (λ (m : Match). m.reviewer) (by_weight loads (k ∷ chosen)) in
        let g = take_all_gates q loads (no_gates q loads capacity f) rs in
        let (who, weights) = gates_same q loads capacity f rs e in
        let some_one =
          nonempty_logins (by_weight loads (k ∷ chosen))
            (unfold by_weight in sorted-nonempty _ (k ∷ chosen) refl) in
        finish_same choose draw q entry labels (length (m ∷ ms)) (logins rs) g some_one
        ∙ ap
            (λ l. suggestion_of choose draw (record {
              potential = logins rs;
              available = l;
              weights = capacities g;
              reason = none;
            }))
            who
        ∙ ap
            (λ w. suggestion_of choose draw (record {
              potential = logins rs;
              available = logins (keep (is_candidate q loads) rs);
              weights = w;
              reason = none;
            }))
            weights

    chosen_listed :
        (reviewers : List ReviewerProfile) (r : ReviewerProfile)
        → Memᴰ r
            (map (λ (m : Match). m.reviewer) (by_weight loads (proposed q (matching q reviewers))))
        → Memᴰ r reviewers
    unfolding by_weight proposed
    chosen_listed reviewers r h =
        let (m, n, e) = Memᴰ-map (λ (m : Match). m.reviewer) r _ h in
        let chosen = Memᴰ-sorted _ m (proposed q (matching q reviewers)) n in
        let back = λ (k : Memᴰ m (matching q reviewers)).
          subst (λ x. Memᴰ x reviewers) (sym e) (matching-IsMatch q reviewers m k).listed in
        elim (Bool-cases (is_empty q.topic_lower)) [
          | inl p ↦ back (rw p at chosen)
          | inr p ↦ back (best-max m (matching q reviewers) (rw p at chosen)).0
        ]

    -- Where profiles of one login have one capacity, the suggestion with the trace is the suggestion
    -- without it: the same login from the same draw, the same lists and the same reason.
    pub suggest_reviewer_for_pr_with_trace-same :
        (reviewers : List ReviewerProfile)
        → ((r : ReviewerProfile) → Memᴰ r reviewers → r.maximum_capacity ≡ capacity r.github_login)
        → (suggest_reviewer_for_pr_with_trace choose draw q entry labels reviewers loads).0
          ≡ suggest_reviewer_for_pr choose draw q reviewers loads
    unfolding suggest_reviewer_for_pr_with_trace suggest_reviewer_for_pr reviewer_candidate_state
    suggest_reviewer_for_pr_with_trace-same reviewers e =
        let same = matching_with_trace-eq q reviewers nothing_filtered in
        let ms = (matching_with_trace q reviewers nothing_filtered).0 in
        let f = (matching_with_trace q reviewers nothing_filtered).1 in
        let known : (r : ReviewerProfile)
            → Memᴰ r (map (λ (m : Match). m.reviewer) (by_weight loads (proposed q ms)))
            → r.maximum_capacity ≡ capacity r.github_login =
          λ r m. e r (
            chosen_listed reviewers r (
              subst (λ l. Memᴰ r (map (λ (m : Match). m.reviewer) (by_weight loads (proposed q l))))
                same m)) in
        let contested =
          contest_same ms (proposed q ms) f known
          ∙ ap (λ l. suggestion_of choose draw (contest q loads l (proposed q l))) same in
        elim (Bool-cases (is_empty q.topic_lower)) [ inl p ↦ ground arith | inr p ↦ ground arith ]
