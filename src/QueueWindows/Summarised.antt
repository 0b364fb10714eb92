-- ===== src/QueueWindows/Summarised.antt =====
-- The rebuild of the rows of a PR under all its rule sets.
use mathlib.Core.List.{Memᴰ}
use mathlib.Core.List.Memᴰ
use queueboard_core.Prelude.{
  ℕ, ◌≡◌, refl, ◌∙◌, ap, sym, subst, inl, inr, true, false, not, ◌&&◌, Option, none, some, List, [],
  ◌∷◌, if◌then◌else◌, map, contains, get_or, length, Distinct, All, ◌==◌, nat_eq, nat_beq_iff,
  Bool-cases, arith,
}
use queueboard_core.Prelude.Dict.{get, get-put}
use queueboard_core.QueueWindows.Rebuild.{
  Ids, Source, Row, WindowRows, windows_of, lacks_revisions, rebuild_queue_windows_for_ruleset,
}
use queueboard_core.QueueWindows.Rebuilt.{window_rows, rebuild_queue_windows_for_ruleset-rows}
use queueboard_core.QueueWindows.Summary.{
  RuleSet, id_of, Outcome, Progress, add_out_of_bounds, add_rebuilt, out_of_bounds,
  rebuild_in_bounds, rebuild_rule_sets, rebuild_queue_windows_for_pr, or_active, nothing_done,
}

-- The row at a time that a rebuild leaves.
abbrev pub row_at : Ids → Source → ℕ → RuleSet → ℕ → Option Row
row_at ids p as_of r k =
    if p.timeline_backfill_done && not (lacks_revisions p r.rule_set)
    then get k (window_rows ids (windows_of p r.rule_set as_of))
    else none

-- The rows of a rule set afterwards: those that it had, where the PR is out of its bounds.
abbrev pub IsRebuilt :
    Ids → Source → ℕ → RuleSet → Option WindowRows → Option Outcome → Option WindowRows → Type 0
IsRebuilt ids p as_of r before (some why) stored = stored ≡ before
IsRebuilt ids p as_of r before none stored =
    (rows : WindowRows) × (stored ≡ some rows) × ((k : ℕ) → get k rows ≡ row_at ids p as_of r k)

id_listed : (q : RuleSet) (rs : List RuleSet) → Memᴰ q rs → contains (id_of q) (map id_of rs) ≡ true
unfolding contains
id_listed q [] m = elim m [ ]
id_listed q (r ∷ rs) (Memᴰ.head e) =
    let same = (nat_beq_iff (id_of q) (id_of r)).1 (ap id_of e) in ground arith
id_listed q (r ∷ rs) (Memᴰ.tail m) = let rest = id_listed q rs m in ground arith

other_id :
    (r q : RuleSet) (rs : List RuleSet)
    → Memᴰ q rs
    → contains (id_of r) (map id_of rs) ≡ false
    → (id_of r == id_of q) ≡ false
other_id r q rs m absent = elim (Bool-cases (id_of r == id_of q)) [
  | inl same ↦
      let e = (nat_beq_iff (id_of r) (id_of q)).0 same in
      let listed = id_listed q rs m in
      let listed' = subst (λ i. contains i (map id_of rs) ≡ true) (sym e) listed in absurd (cc)
  | inr p ↦ p
]

module _ (ids : Ids) (p : Source) (as_of : ℕ) where
  abbrev bounds : RuleSet → Option Outcome
  bounds r = out_of_bounds p.pr.gh_created_at r.rule_set

  record Step (r : RuleSet) (o : Option Outcome) (b : Progress) : Type 0 where
    next : Progress
    ran : rebuild_in_bounds ids p as_of r o b ≡ some next
    own : IsRebuilt ids p as_of r (get (id_of r) b.rows) o (get (id_of r) next.rows)
    others : (id : ℕ) → (id_of r == id) ≡ false → get id next.rows ≡ get id b.rows

  step :
      (r : RuleSet) (o : Option Outcome) (b : Progress)
      → r.repository_id ≡ p.repository_id
      → Step r o b
  unfolding rebuild_in_bounds
  step r (some why) b e = record {
    next = record b { summary = add_out_of_bounds (id_of r) why b.summary };
    ran = refl;
    own = refl;
    others = λ id ne. refl;
  }
  step r none b e =
      let before = get_or (get (id_of r) b.rows) [] in
      let (stored, result, done, rows) =
        rebuild_queue_windows_for_ruleset-rows ids p r.rule_set as_of before in
      let done' : rebuild_queue_windows_for_ruleset ids p r.repository_id r.rule_set as_of before
          ≡ some (stored, result) =
        ap (λ n. rebuild_queue_windows_for_ruleset ids p n r.rule_set as_of before) e ∙ done in
      record {
        next = add_rebuilt r (stored, result) b;
        ran = rw done' refl;
        own = (
          stored,
          get-put (id_of r) (id_of r) stored b.rows
              ∙ (let s = (nat_beq_iff (id_of r) (id_of r)).1 refl in rw s refl),
          rows,
        );
        others = λ id ne. get-put id (id_of r) stored b.rows ∙ rw ne refl;
      }

  abbrev pub IsOwn : RuleSet → Type 0
  IsOwn r = r.repository_id ≡ p.repository_id

  record IsDone (rs : List RuleSet) (b : Progress) : Type 0 where
    last : Progress
    ran : rebuild_rule_sets ids p as_of rs b ≡ some last
    rebuilt :
        (r : RuleSet)
        → Memᴰ r rs
        → IsRebuilt ids p as_of r (get (id_of r) b.rows) (bounds r) (get (id_of r) last.rows)
    others : (id : ℕ) → contains id (map id_of rs) ≡ false → get id last.rows ≡ get id b.rows

  rebuild_rule_sets_lem :
      (rs : List RuleSet) (b : Progress) → All IsOwn rs → Distinct (map id_of rs) → IsDone rs b
  unfolding rebuild_rule_sets contains
  rebuild_rule_sets_lem [] b o d = record {
    last = b;
    ran = refl;
    rebuilt = λ r m. elim m [ ];
    others = λ id m. refl;
  }
  rebuild_rule_sets_lem (r ∷ rs) b o d =
      let s = step r (bounds r) b o.0 in
      let h = rebuild_rule_sets_lem rs s.next o.1 d.1 in
      record {
        last = h.last;
        ran = rw s.ran h.ran;
        rebuilt = λ q m. elim (Memᴰ.cases_cons m) [
          | inl e ↦
              subst
                (λ x.
                  IsRebuilt ids p as_of x (get (id_of x) b.rows) (bounds x)
                    (get (id_of x) h.last.rows))
                (sym e)
                (subst (IsRebuilt ids p as_of r (get (id_of r) b.rows) (bounds r))
                  (sym (h.others (id_of r) d.0)) s.own)
          | inr n ↦
              subst (λ x. IsRebuilt ids p as_of q x (bounds q) (get (id_of q) h.last.rows))
                (s.others (id_of q) (other_id r q rs n d.0)) (h.rebuilt q n)
        ];
        others = λ id m.
            h.others id (ground arith)
            ∙ s.others id (ground (arith, nat_beq_iff (id_of r) id, nat_beq_iff id (id_of r)));
      }

  -- Where the rule sets have different ids and are of the PR's repository, the rebuild raises nothing.
  -- Of each rule set whose time holds the PR's creation it leaves a row at a time exactly when a
  -- window of the PR under it starts then, with that window's columns, or no row where the rebuild
  -- is skipped; the rows of a rule set whose time does not hold it, and those of any other rule set,
  -- stay as they were.
  pub rebuild_queue_windows_for_pr-rows :
      (rule_sets active : List RuleSet) (rows : List (ℕ × WindowRows))
      → All IsOwn (or_active rule_sets active)
      → Distinct (map id_of (or_active rule_sets active))
      → (b : Progress) × (rebuild_queue_windows_for_pr ids p rule_sets active as_of rows ≡ some b)
        × ((r : RuleSet)
            → Memᴰ r (or_active rule_sets active)
            → IsRebuilt ids p as_of r
                (get (id_of r) rows)
                (out_of_bounds p.pr.gh_created_at r.rule_set)
                (get (id_of r) b.rows))
        × ((id : ℕ)
            → contains id (map id_of (or_active rule_sets active)) ≡ false
            → get id b.rows ≡ get id rows)
  unfolding rebuild_queue_windows_for_pr
  rebuild_queue_windows_for_pr-rows rule_sets active rows own distinct =
      let h =
        rebuild_rule_sets_lem (or_active rule_sets active)
          (record { rows = rows; summary = nothing_done (length (or_active rule_sets active)) }) own
          distinct in
      (h.last, h.ran, h.rebuilt, h.others)
