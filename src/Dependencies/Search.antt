-- ===== src/Dependencies/Search.antt =====
-- One turn of the search, and what it keeps.
use queueboard_core.Prelude.{
  Distinct, subst, ◌&&◌, ℕ, suc, ◌+◌, ◌≤◌, ◌<◌, ◌≡◌, inl, inr, ap, ◌∙◌, Bool, true, false, not,
  some, List, [], ◌∷◌, if◌then◌else◌, contains, length, nat_eq, Bool-cases, get_or, arith,
  nat_beq_iff, ◌==◌, ◌||◌,
}
use queueboard_core.Prelude.Dict.{get, has_key}
use mathlib.Core.Path.{subst}
use queueboard_core.Dependencies.Graph.{Graph, Search, offer, scan}

-- What the edges of `a` lead to.
abbrev pub targets : Graph → ℕ → List ℕ
targets g a = get_or (get a g) []

-- There is an edge from `a` to `b`.
abbrev pub leads : Graph → ℕ → ℕ → Bool
leads g a b = contains b (targets g a)

-- By zero or more edges.
pub data Reach (edge : ℕ → ℕ → Bool) (a : ℕ) : ℕ → Type 0 where
  here : Reach edge a a
  next : {b c : ℕ} → Reach edge a b → edge b c ≡ true → Reach edge a c

-- The PRs of `ks` that are not yet seen.
unfoldable pub unseen : List ℕ → List ℕ → ℕ
unseen seen [] = 0
unseen seen (k ∷ ks) = let rest = unseen seen ks in if contains k seen then rest else suc rest

unseen_mono : (n : ℕ) (seen ks : List ℕ) → unseen (n ∷ seen) ks ≤ unseen seen ks
unfolding unseen contains
unseen_mono n seen [] = omega arith
unseen_mono n seen (k ∷ ks) = ground (arith, unseen_mono n seen ks)

pub unseen_falls :
    (n : ℕ) (seen ks : List ℕ)
    → contains n seen ≡ false
    → contains n ks ≡ true
    → unseen (n ∷ seen) ks < unseen seen ks
unfolding unseen contains
unseen_falls n seen [] h m = absurd (cc)
unseen_falls n seen (k ∷ ks) h m = elim (Bool-cases (n == k)) [
  | inl p ↦ let e = (nat_beq_iff n k).0 p in ground (arith, unseen_mono n seen ks)
  | inr p ↦ ground (arith, unseen_falls n seen ks, nat_beq_iff k n, nat_beq_iff n k)
]

module _ (g : Graph) (start : ℕ) where
  -- What the search keeps, at every turn.
  pub record IsSearch (seen queue : List ℕ) : Type 0 where
    pub distinct : Distinct seen
    pub started : contains start seen ≡ true
    pub queued : (x : ℕ) → contains x queue ≡ true → contains x seen ≡ true
    pub known : (x : ℕ) → contains x seen ≡ true → has_key x g ≡ true
    pub sound : (x : ℕ) → contains x seen ≡ true → Reach (leads g) start x
    pub done :
        (x y : ℕ)
        → contains x seen ≡ true
        → contains x queue ≡ false
        → contains y (targets g x) ≡ true
        → contains y seen ≡ true

offer-seen : (n x : ℕ) (s : Search) → contains x (offer s n).seen ≡ (x == n || contains x s.seen)
unfolding offer contains
offer-seen n x s = ground (arith, nat_beq_iff x n)

offer-queue :
    (n x : ℕ) (s : Search)
    → contains x (offer s n).queue ≡ (contains x s.queue || (x == n && not (contains n s.seen)))
unfolding offer contains
offer-queue n x s = ground arith

scan-seen :
    (ns : List ℕ) (x : ℕ) (s : Search)
    → contains x (scan ns s).seen ≡ (contains x s.seen || contains x ns)
unfolding scan contains
scan-seen [] x s = ground arith
scan-seen (n ∷ ns) x s = ground (arith, scan-seen ns x (offer s n), offer-seen n x s)

scan-queue :
    (ns : List ℕ) (x : ℕ) (s : Search)
    → contains x (scan ns s).queue
      ≡ (contains x s.queue || (contains x ns && not (contains x s.seen)))
unfolding scan contains
scan-queue [] x s = ground arith
scan-queue (n ∷ ns) x s = elim (Bool-cases (x == n)) [
  | inl p ↦
      let same = (nat_beq_iff x n).0 p in
      rw same (
        ground (
          arith,
          scan-queue ns n (offer s n),
          offer-queue n n s,
          offer-seen n n s,
          nat_beq_iff n n,
        ))
  | inr p ↦ ground (arith, scan-queue ns x (offer s n), offer-queue n x s, offer-seen n x s)
]

scan-Distinct : (ns : List ℕ) (s : Search) → Distinct s.seen → Distinct (scan ns s).seen
unfolding scan offer
scan-Distinct [] s h = h
scan-Distinct (n ∷ ns) s h = elim (Bool-cases (contains n s.seen)) [
  | inl p ↦ simp p (scan-Distinct ns s h)
  | inr p ↦ simp p (scan-Distinct ns (record { seen = n ∷ s.seen; queue = n ∷ s.queue }) (p, h))
]

-- What is left to do: a PR is pushed once, when it is first seen.
abbrev pub work : List ℕ → List ℕ → List ℕ → ℕ
work ks seen queue = unseen seen ks + length queue

pub scan-work :
    (ks ns : List ℕ) (s : Search)
    → ((x : ℕ) → contains x ns ≡ true → contains x ks ≡ true)
    → work ks (scan ns s).seen (scan ns s).queue ≤ work ks s.seen s.queue
unfolding scan offer contains
scan-work ks [] s h = omega arith
scan-work ks (n ∷ ns) s h = elim (Bool-cases (contains n s.seen)) [
  | inl p ↦ simp p (scan-work ks ns s (λ x m. h x (ground arith)))
  | inr p ↦
      let rest =
        scan-work ks ns (record { seen = n ∷ s.seen; queue = n ∷ s.queue })
          (λ x m. h x (ground arith)) in
      let falls = unseen_falls n s.seen ks p (h n (ground (arith, nat_beq_iff n n))) in
      simp p (omega (arith, rest, falls))
]

-- Every edge leads to a PR that is there.
abbrev pub IsClosed : Graph → Type 0
IsClosed g = (x y : ℕ) → contains y (targets g x) ≡ true → has_key y g ≡ true

pub targets-some : (g : Graph) (c : ℕ) (ns : List ℕ) → get c g ≡ some ns → targets g c ≡ ns
targets-some g c ns e = ap (λ o. get_or o []) e

module _ (g : Graph) (start c : ℕ) (ns seen queue : List ℕ) (closed : IsClosed g)
    (s : IsSearch g start seen (c ∷ queue)) (found : get c g ≡ some ns) where
  abbrev pub after : Search
  after = scan ns (record { seen = seen; queue = queue })

  seen_or : (x : ℕ) → contains x after.seen ≡ (contains x seen || contains x ns)
  seen_or x = scan-seen ns x (record { seen = seen; queue = queue })

  queue_or :
      (x : ℕ)
      → contains x after.queue ≡ (contains x queue || (contains x ns && not (contains x seen)))
  queue_or x = scan-queue ns x (record { seen = seen; queue = queue })

  at_current : contains c seen ≡ true
  unfolding contains
  at_current = s.queued c (ground (arith, nat_beq_iff c c))

  new_edge : (x : ℕ) → contains x ns ≡ true → contains x (targets g c) ≡ true
  new_edge x m = rw (targets-some g c ns found) m

  step-queued : (x : ℕ) → contains x after.queue ≡ true → contains x after.seen ≡ true
  unfolding contains
  step-queued x m = ground (arith, s.queued x, seen_or x, queue_or x)

  step-known : (x : ℕ) → contains x after.seen ≡ true → has_key x g ≡ true
  step-known x m = elim (Bool-cases (contains x seen)) [
    | inl p ↦ s.known x p
    | inr p ↦ closed c x (new_edge x (ground (arith, seen_or x)))
  ]

  step_sound : (x : ℕ) → contains x after.seen ≡ true → Reach (leads g) start x
  step_sound x m = elim (Bool-cases (contains x seen)) [
    | inl p ↦ s.sound x p
    | inr p ↦ Reach.next (s.sound c at_current) (new_edge x (ground (arith, seen_or x)))
  ]

  step-done :
      (x y : ℕ)
      → contains x after.seen ≡ true
      → contains x after.queue ≡ false
      → contains y (targets g x) ≡ true
      → contains y after.seen ≡ true
  unfolding contains
  step-done x y m out edge = elim (Bool-cases (x == c)) [
    | inl p ↦
        let same = ap (targets g) ((nat_beq_iff x c).0 p) ∙ targets-some g c ns found in
        let here = subst (λ l. contains y l ≡ true) same edge in ground (arith, seen_or y)
    | inr p ↦
        let old : contains x seen ≡ true = ground (arith, seen_or x, queue_or x) in
        let rested : contains x (c ∷ queue) ≡ false = ground (arith, queue_or x) in
        let now = s.done x y old rested edge in ground (arith, seen_or y)
  ]

  pub step-IsSearch : IsSearch g start after.seen after.queue
  step-IsSearch = record {
    distinct = scan-Distinct ns (record { seen = seen; queue = queue }) s.distinct;
    started = let h = s.started in ground (arith, seen_or start);
    queued = step-queued;
    known = step-known;
    sound = step_sound;
    done = step-done;
  }
