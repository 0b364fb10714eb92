-- ===== src/QueueWindows/Rebuilt.antt =====
-- The rows of a rebuild are those of the windows.
use queueboard_core.Prelude.{
  ℕ, ◌+◌, ◌<◌, ◌≡◌, refl, sym, subst, inl, inr, Bool, true, false, not, ◌&&◌, Option, none, some,
  List, [], ◌∷◌, if◌then◌else◌, contains, map, Distinct, ◌==◌, nat_eq, nat_beq_iff, Bool-cases,
  Option-cases, arith,
}
use queueboard_core.Prelude.Dict.{get}
use queueboard_core.QueueRules.Rules.{QueueRuleSet, rules_for_rule_set}
use queueboard_core.QueueWindows.Builder.{QueueWindow}
use queueboard_core.QueueWindows.Order.{InOrder}
use queueboard_core.QueueWindows.GatedOrder.{queue_windows_with_rules-InOrder}
use queueboard_core.QueueWindows.Rebuild.{
  Row, row_eq, Run, row_of, duration_seconds, WindowRows, Sync, sync_row, sync_windows, run_of,
  write_windows, Ids, Source, windows_of, lacks_revisions, Result, Status, skipped,
  rebuild_queue_windows_for_ruleset,
}
use queueboard_core.QueueWindows.Written.{
  outcome, IsUntouched, IsSettled, sync_row-IsSettled, sync_row_kept, sync_row-IsUntouched,
  IsSettled-outcome, IsUntouched-outcome,
}

abbrev starts : List QueueWindow → List ℕ
starts ws = map (λ (w : QueueWindow). w.from_ts) ws

-- A row for each window: its place, and the seconds of the closed windows up to it.
abbrev pub rows_from : Run → ℕ → ℕ → List QueueWindow → WindowRows
rows_from run i total [] = []
rows_from run i total (w ∷ ws) =
    (w.from_ts, row_of run i total w) ∷ rows_from run (i + 1) (total + duration_seconds w) ws

module _ (run : Run) (store : WindowRows) (k : ℕ) where
  sync_windows_kept :
      (i total : ℕ) (ws : List QueueWindow) (o : Option Row) (s : Sync)
      → contains k (starts ws) ≡ false
      → IsSettled store k o s
      → IsSettled store k o (sync_windows run i total ws s)
  unfolding sync_windows contains
  sync_windows_kept i total [] o s absent h = h
  sync_windows_kept i total (w ∷ ws) o s absent h =
      sync_windows_kept (i + 1) (total + duration_seconds w) ws o _ (ground arith) (
        sync_row_kept store k w.from_ts (row_of run i total w) s
          (ground (arith, nat_beq_iff w.from_ts k, nat_beq_iff k w.from_ts)) o
          (get w.from_ts s.existing) h)

  sync_windows-outcome :
      (i total : ℕ) (ws : List QueueWindow) (s : Sync)
      → Distinct (starts ws)
      → IsUntouched store k s
      → outcome store k (sync_windows run i total ws s) ≡ get k (rows_from run i total ws)
  unfolding sync_windows get
  sync_windows-outcome i total [] s d u = IsUntouched-outcome store k s u
  sync_windows-outcome i total (w ∷ ws) s d u = elim (Bool-cases (w.from_ts == k)) [
    | inl p ↦
        let same : w.from_ts ≡ k = (nat_beq_iff w.from_ts k).0 p in
        let row = row_of run i total w in
        let next = sync_row w.from_ts row (get w.from_ts s.existing) s in
        let settled : IsSettled store k (some row) next =
          subst (λ j. IsSettled store k (some row) (sync_row j row (get j s.existing) s)) (sym same)
            (sync_row-IsSettled store k row s (get k s.existing) refl u) in
        let absent : contains k (starts ws) ≡ false =
          subst (λ j. contains j (starts ws) ≡ false) same d.0 in
        rw p (
          IsSettled-outcome store k (some row) _ (
            sync_windows_kept (i + 1) (total + duration_seconds w) ws (some row) next absent
              settled))
    | inr p ↦ rw p (
        sync_windows-outcome (i + 1) (total + duration_seconds w) ws _ d.1 (
          sync_row-IsUntouched store k w.from_ts (row_of run i total w) s p
            (get w.from_ts s.existing) u))
  ]

starts_from :
    (lo k : ℕ) (ws : List QueueWindow) → InOrder lo ws → k < lo → contains k (starts ws) ≡ false
unfolding contains
starts_from lo k [] h lt = refl
starts_from lo k (w ∷ ws) h lt = elim (Option-cases w.to_ts) [
  | inl e ↦
      let none_after : ws ≡ [] = rw e at h.1 in
      let rest : contains k (starts ws) ≡ false = rw none_after refl in
      let le = h.0 in ground (arith, nat_beq_iff k w.from_ts)
  | inr (end, e) ↦
      let after = rw e at h.1 in
      let le = h.0 in
      let lt' = after.0 in
      let rest = starts_from end k ws after.1 (omega (arith, le, lt, lt')) in
      ground (arith, nat_beq_iff k w.from_ts)
]

InOrder-Distinct : (lo : ℕ) (ws : List QueueWindow) → InOrder lo ws → Distinct (starts ws)
unfolding contains
InOrder-Distinct lo [] h = tt
InOrder-Distinct lo (w ∷ ws) h = elim (Option-cases w.to_ts) [
  | inl e ↦
      let none_after : ws ≡ [] = rw e at h.1 in
      subst (λ l. Distinct (w.from_ts ∷ starts l)) (sym none_after) (refl, tt)
  | inr (end, e) ↦
      let after = rw e at h.1 in
      (starts_from end w.from_ts ws after.1 after.0, InOrder-Distinct end ws after.1)
]

-- The rows for the windows of a PR under a rule set.
abbrev pub window_rows : Ids → List QueueWindow → WindowRows
window_rows ids windows = rows_from (run_of ids windows) 0 0 windows

write_windows_lem :
    (ids : Ids) (windows : List QueueWindow) (rows : WindowRows) (k : ℕ)
    → InOrder 0 windows
    → get k (write_windows ids windows rows).0 ≡ get k (window_rows ids windows)
unfolding write_windows outcome get
write_windows_lem ids windows rows k h =
    sync_windows-outcome (run_of ids windows) rows k 0 0 windows
      (record { existing = rows; to_create = []; to_update = [] }) (InOrder-Distinct 0 windows h)
      (record { existing_as_stored = refl; not_created = refl; not_updated = refl })

gates_lem :
    (own done lacks : Bool) (a b : Result) (r : WindowRows × Result) (spec : WindowRows)
    → own ≡ true
    → ((k : ℕ) → get k r.0 ≡ get k spec)
    → (stored : WindowRows) × (result : Result) × ((if not own
          then none
          else if not done
          then some ([], a)
          else if lacks
          then some ([], b)
          else some r)
        ≡ some (stored, result))
      × ((k : ℕ) → get k stored ≡ (if done && not lacks then get k spec else none))
unfolding get
gates_lem false done lacks a b r spec e h = absurd (cc)
gates_lem true false lacks a b r spec e h = ([], a, refl, λ k. refl)
gates_lem true true true a b r spec e h = ([], b, refl, λ k. refl)
gates_lem true true false a b r spec e h = (r.0, r.1, refl, h)

-- Where the rule set is of the PR's repository, the rebuild raises nothing, and whatever rows there
-- were before, it leaves a row at a time exactly when a window of the PR under the rules starts
-- then, with the columns of that window, its place, and the seconds of the closed windows up to
-- it; it leaves no row where the timeline is not complete, or where the rules gate on CI and the PR
-- has no revision.
pub rebuild_queue_windows_for_ruleset-rows :
    (ids : Ids) (p : Source) (rule_set : QueueRuleSet) (as_of : ℕ) (rows : WindowRows)
    → (stored : WindowRows) × (result : Result) × (rebuild_queue_windows_for_ruleset ids p
          p.repository_id rule_set as_of rows
        ≡ some (stored, result))
      × ((k : ℕ)
          → get k stored ≡ (
              if p.timeline_backfill_done && not (lacks_revisions p rule_set)
              then get k (window_rows ids (windows_of p rule_set as_of))
              else none))
unfolding rebuild_queue_windows_for_ruleset
rebuild_queue_windows_for_ruleset-rows ids p rule_set as_of rows =
    gates_lem (p.repository_id == p.repository_id) p.timeline_backfill_done
      (lacks_revisions p rule_set) (skipped Status.timeline_backfill_incomplete)
      (skipped Status.missing_pr_revisions_for_ci_ruleset)
      (write_windows ids (windows_of p rule_set as_of) rows)
      (window_rows ids (windows_of p rule_set as_of))
      ((nat_beq_iff p.repository_id p.repository_id).1 refl)
      (λ k. write_windows_lem ids (windows_of p rule_set as_of) rows k (
        queue_windows_with_rules-InOrder p.pr (rules_for_rule_set rule_set) p.revisions p.runs
          p.contexts as_of))
