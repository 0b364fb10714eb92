-- ===== src/Dependencies/Replaced.antt =====
-- The rows of a rebuild are the dependencies that the description names.
use queueboard_core.Prelude.{
  ℕ, ◌≡◌, ◌⊎◌, refl, sym, ap, subst, ◌∙◌, inl, inr, true, false, not, ◌&&◌, Option, none, some,
  List, [], ◌∷◌, if◌then◌else◌, keep, contains, ◌==◌, nat_eq, nat_beq_iff, Bool-cases, arith,
  beq_refl,
}
use queueboard_core.Prelude.Dict.{get, put, get-put}
use queueboard_core.Dependencies.Rows.{
  Key, key_eq, Target, target_eq, DependencyRows, PullRequest, Sync, write_row, note_number,
  sync_number, sync_numbers, is_stale, is_stale_row, rebuild_numbers, named_numbers,
  rebuild_pr_dependencies,
}

note_number-rows : (n : ℕ) (t : Target) (s : Sync) → (note_number n t s).rows ≡ s.rows
unfolding note_number
note_number-rows n none s = refl
note_number-rows n (some id) s = refl

put_own : (key : Key) (t : Target) (rows : DependencyRows) → get key (put key t rows) ≡ some t
put_own key t rows = get-put key key t rows ∙ (let e = beq_refl key in rw e refl)

put_other :
    (k key : Key) (t : Target) (rows : DependencyRows)
    → (key == k) ≡ false
    → get k (put key t rows) ≡ get k rows
put_other k key t rows ne = get-put k key t rows ∙ rw ne refl

-- The row is what it was, or what it is to be.
abbrev IsDue : Option Target → Target → Option Target → Type 0
IsDue before t now = (now ≡ before) ⊎ (now ≡ some t)

write_row-own :
    (key : Key) (t : Target) (f : Option Target) (s : Sync)
    → IsDue f t (get key s.rows)
    → get key (write_row key t f s).rows ≡ some t
unfolding write_row
write_row-own key t none s d = put_own key t s.rows
write_row-own key t (some old) s d = elim (Bool-cases (old == t)) [
  | inl p ↦ rw p (elim d [ inl e ↦ e ∙ ap some ((target_eq.beq_iff old t).0 p) | inr e ↦ e ])
  | inr p ↦ rw p (put_own key t s.rows)
]

write_row-other :
    (k key : Key) (t : Target) (f : Option Target) (s : Sync)
    → (key == k) ≡ false
    → get k (write_row key t f s).rows ≡ get k s.rows
unfolding write_row
write_row-other k key t none s ne = put_other k key t s.rows ne
write_row-other k key t (some old) s ne = elim (Bool-cases (old == t)) [
  | inl p ↦ rw p refl
  | inr p ↦ rw p (put_other k key t s.rows ne)
]

module _ (repository : ℕ) (targets : ℕ → Target) (existing : DependencyRows) where
  abbrev one : ℕ → Sync → Sync
  one = sync_number repository targets existing

  abbrev all_of : List ℕ → Sync → Sync
  all_of = sync_numbers repository targets existing

  abbrev written : ℕ → Sync → Sync
  written m s = write_row (repository, m) (targets m) (get (repository, m) existing) s

  one-rows : (m : ℕ) (k : Key) (s : Sync) → get k (one m s).rows ≡ get k (written m s).rows
  unfolding sync_number
  one-rows m k s = ap (get k) (note_number-rows m (targets m) (written m s))

  one-own :
      (m : ℕ) (s : Sync)
      → IsDue (get (repository, m) existing) (targets m) (get (repository, m) s.rows)
      → get (repository, m) (one m s).rows ≡ some (targets m)
  one-own m s d =
      one-rows m (repository, m) s
      ∙ write_row-own (repository, m) (targets m) (get (repository, m) existing) s d

  one-other :
      (k : Key) (m : ℕ) (s : Sync)
      → ((repository, m) == k) ≡ false
      → get k (one m s).rows ≡ get k s.rows
  one-other k m s ne =
      one-rows m k s
      ∙ write_row-other k (repository, m) (targets m) (get (repository, m) existing) s ne

  module _ (n : ℕ) where
    abbrev key : Key
    key = (repository, n)

    abbrev Due : Sync → Type 0
    Due s = IsDue (get key existing) (targets n) (get key s.rows)

    one-Due : (m : ℕ) (s : Sync) → Due s → Due (one m s)
    one-Due m s d = elim (Bool-cases ((repository, m) == key)) [
      | inl p ↦
          let same = ap (λ (k : Key). k.1) ((key_eq.beq_iff (repository, m) key).0 p) in
          inr (subst (λ j. get key (one j s).rows ≡ some (targets n)) (sym same) (one-own n s d))
      | inr p ↦ subst (IsDue (get key existing) (targets n)) (sym (one-other key m s p)) d
    ]

    one_set :
        (m : ℕ) (s : Sync)
        → get key s.rows ≡ some (targets n)
        → get key (one m s).rows ≡ some (targets n)
    one_set m s e = elim (Bool-cases ((repository, m) == key)) [
      | inl p ↦
          let same = ap (λ (k : Key). k.1) ((key_eq.beq_iff (repository, m) key).0 p) in
          subst (λ j. get key (one j s).rows ≡ some (targets n)) (sym same) (one-own n s (inr e))
      | inr p ↦ one-other key m s p ∙ e
    ]

    all_set :
        (ns : List ℕ) (s : Sync)
        → get key s.rows ≡ some (targets n)
        → get key (all_of ns s).rows ≡ some (targets n)
    unfolding sync_numbers
    all_set [] s e = e
    all_set (m ∷ ns) s e = all_set ns (one m s) (one_set m s e)

    all_named :
        (ns : List ℕ) (s : Sync)
        → contains n ns ≡ true
        → Due s
        → get key (all_of ns s).rows ≡ some (targets n)
    unfolding sync_numbers contains
    all_named [] s m d = absurd (cc)
    all_named (j ∷ ns) s m d = elim (Bool-cases (n == j)) [
      | inl p ↦
          let same = (nat_beq_iff n j).0 p in
          all_set ns (one j s)
            (subst (λ i. get key (one i s).rows ≡ some (targets n)) same (one-own n s d))
      | inr p ↦ all_named ns (one j s) (ground arith) (one-Due j s d)
    ]

get-keep :
    (repository : ℕ) (numbers : List ℕ) (k : Key) (rows : DependencyRows)
    → get k (keep (λ r. not (is_stale_row repository numbers r)) rows)
      ≡ (if is_stale repository numbers k then none else get k rows)
unfolding get keep is_stale_row
get-keep repository numbers k [] = ground arith
get-keep repository numbers k ((j, t) ∷ rows) = elim (Bool-cases (j == k)) [
  | inl p ↦
      let same = (key_eq.beq_iff j k).0 p in
      let as_is = ap (is_stale repository numbers) same in
      ground (arith, get-keep repository numbers k rows)
  | inr p ↦ ground (arith, get-keep repository numbers k rows)
]

-- The row of a key that the description asks for.
abbrev pub named_row : (ℕ → Target) → PullRequest → Key → Option Target
named_row targets pr k =
    if k.0 == pr.repository_id && contains k.1 (named_numbers pr) then some (targets k.1) else none

is_stale_lem :
    (repository : ℕ) (numbers : List ℕ) (k : Key)
    → is_stale repository numbers k ≡ not (k.0 == repository && contains k.1 numbers)
unfolding is_stale contains
is_stale_lem repository [] k = ground arith
is_stale_lem repository (n ∷ ns) k = ground arith

abbrev pub start : DependencyRows → Sync
start rows = record { rows = rows; created = 0; updated = 0; resolved = []; unresolved = [] }

pub rebuild_numbers-rows :
    (repository : ℕ) (targets : ℕ → Target) (numbers : List ℕ) (rows : DependencyRows) (k : Key)
    → get k (rebuild_numbers repository targets numbers rows).0
      ≡ (if k.0 == repository && contains k.1 numbers then some (targets k.1) else none)
unfolding rebuild_numbers
rebuild_numbers-rows repository targets numbers rows k =
    let after = (sync_numbers repository targets rows numbers (start rows)).rows in
    get-keep repository numbers k after
    ∙ ap (λ b. if b then none else get k after) (is_stale_lem repository numbers k)
    ∙ elim (Bool-cases (k.0 == repository && contains k.1 numbers)) [
      | inl p ↦
          let own : k.0 ≡ repository = (nat_beq_iff k.0 repository).0 (ground arith) in
          rw p (
            subst (λ j. get (j, k.1) after ≡ some (targets k.1)) (sym own)
              (all_named repository targets rows k.1 numbers (start rows) (ground arith)
                (inl refl)))
      | inr p ↦ rw p refl
    ]

-- Whatever rows the PR had, a rebuild leaves a row at a repository and a number exactly when the
-- repository is the PR's own and its description names the number, which is not its own; the row
-- points at the PR of that number, where it is there.
pub rebuild_pr_dependencies-rows :
    (targets : ℕ → Target) (pr : PullRequest) (rows : DependencyRows) (k : Key)
    → get k (rebuild_pr_dependencies targets pr rows).0 ≡ named_row targets pr k
unfolding rebuild_pr_dependencies
rebuild_pr_dependencies-rows targets pr rows k =
    rebuild_numbers-rows pr.repository_id targets (named_numbers pr) rows k
