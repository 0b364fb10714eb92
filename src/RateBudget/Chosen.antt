-- ===== src/RateBudget/Chosen.antt =====
-- `choose_token` chooses a token than which none is better.
use mathlib.Core.List.{Memᴰ}
use queueboard_core.Prelude.{
  ℕ, ◌≡◌, refl, sym, ap, ◌∙◌, inl, inr, Bool, true, false, not, Option, some, List, [], ◌∷◌,
  if◌then◌else◌, is_empty, contains, keep, ◌==◌, Bool-cases, arith, contains-keep,
}
use queueboard_core.Prelude.Int.{pos}
use queueboard_core.Prelude.Text.{Text, text_eq, text_beq_iff}
use queueboard_core.Prelude.Dict.{get, put, get-put, Memᴰ-get, Memᴰ-put}
use queueboard_core.RateBudget.Choose.{
  Snapshot, nothing_found, sort_tokens, pick, by_fingerprint, choose_from, choose_token,
}
use queueboard_core.RateBudget.Budgets.{Budget, budget_of, Holds}
use queueboard_core.RateBudget.Sorted.{IsTrue, sort_tokens-IsTrue, sort_tokens-Holds}
use queueboard_core.RateBudget.Preference.{Draws, is_no_better, pick-IsChoice}

module _ (fingerprint : Text → Text) where
  -- An entry of a token of the list, under its fingerprint.
  abbrev IsEntry : List Text → Text × Text → Type 0
  IsEntry tokens e = (e.0 ≡ fingerprint e.1) × (contains e.1 tokens ≡ true)

  by_fingerprint-IsEntry :
      (tokens ts : List Text) (ids : List (Text × Text))
      → ((t : Text) → contains t ts ≡ true → contains t tokens ≡ true)
      → ((e : Text × Text) → Memᴰ e ids → IsEntry tokens e)
      → (e : Text × Text) → Memᴰ e (by_fingerprint fingerprint ids ts)
      → IsEntry tokens e
  unfolding by_fingerprint contains
  by_fingerprint-IsEntry tokens [] ids h k e m = k e m
  by_fingerprint-IsEntry tokens (t ∷ ts) ids h k e m =
      by_fingerprint-IsEntry tokens ts (put (fingerprint t) t ids) (λ s n. h s (ground arith))
        (λ x n. elim (Memᴰ-put x (fingerprint t) t ids n) [
          | inl p ↦ (
            ap (λ (y : Text × Text). y.0) p ∙ ap (λ (y : Text × Text). fingerprint y.1) (sym p),
            ap (λ (y : Text × Text). contains y.1 tokens) p
                ∙ h t (ground (arith, text_beq_iff t t)),
          )
          | inr l ↦ k x l
        ])
        e m

  module _ (t : Text) where
    abbrev Alone : List Text → Type 0
    Alone ts = (s : Text) → contains s ts ≡ true → fingerprint s ≡ fingerprint t → s ≡ t

    by_fingerprint-kept :
        (ts : List Text) (ids : List (Text × Text))
        → Alone ts
        → get (fingerprint t) ids ≡ some t
        → get (fingerprint t) (by_fingerprint fingerprint ids ts) ≡ some t
    unfolding by_fingerprint contains
    by_fingerprint-kept [] ids h e = e
    by_fingerprint-kept (s ∷ ts) ids h e =
        by_fingerprint-kept ts (put (fingerprint s) s ids) (λ x m. h x (ground arith))
          (get-put (fingerprint t) (fingerprint s) s ids
            ∙ elim (Bool-cases (fingerprint s == fingerprint t)) [
              | inl p ↦ rw p (
                  ap some (
                    h s (ground (arith, text_beq_iff s s))
                      ((text_beq_iff (fingerprint s) (fingerprint t)).0 p)))
              | inr p ↦ rw p e
            ])

    by_fingerprint-get :
        (ts : List Text) (ids : List (Text × Text))
        → Alone ts
        → contains t ts ≡ true
        → get (fingerprint t) (by_fingerprint fingerprint ids ts) ≡ some t
    unfolding by_fingerprint contains
    by_fingerprint-get [] ids h m = absurd (cc)
    by_fingerprint-get (s ∷ ts) ids h m = elim (Bool-cases (t == s)) [
      | inl p ↦
          let same = (text_beq_iff t s).0 p in
          by_fingerprint-kept ts (put (fingerprint s) s ids) (λ x n. h x (ground arith))
            (get-put (fingerprint t) (fingerprint s) s ids ∙ now s _ same)
      | inr p ↦
          by_fingerprint-get ts (put (fingerprint s) s ids) (λ x n. h x (ground arith))
            (ground arith)
    ]
      where
        now :
            (s : Text) (o : Option Text)
            → t ≡ s
            → (if fingerprint s == fingerprint t then some s else o) ≡ some t
        now s o same =
            let test =
              (text_beq_iff (fingerprint s) (fingerprint t)).1 (ap fingerprint (sym same)) in
            rw test (ap some (sym same))

nothing_so : {P : Budget → Text → Type 0} → IsTrue P nothing_found
nothing_so = record {
  ample_so = λ p m. elim m [ ];
  low_so = λ p m. elim m [ ];
  unknown_so = λ p m. elim m [ ];
  exhausted_so = λ p m. elim m [ ];
}

module _ (fingerprint : Text → Text) (snapshots : Text → Option Snapshot)
    (random : List Text → Text) (threshold now : ℕ) where
  abbrev pub budget : Text → Budget
  budget t = budget_of threshold (snapshots (fingerprint t))

  choose_from-IsChoice :
      Draws random
      → (tokens : List Text)
      → ((s t : Text)
          → contains s tokens ≡ true
          → contains t tokens ≡ true
          → fingerprint s ≡ fingerprint t
          → s ≡ t)
      → is_empty tokens ≡ false
      → (t : Text) × ((choose_from fingerprint snapshots random (pos threshold) now tokens ≡ some t)
          × (contains t tokens ≡ true)
          × ((s : Text) → contains s tokens ≡ true → is_no_better (budget s) (budget t) ≡ true))
  unfolding choose_from
  choose_from-IsChoice draws [] alone h = absurd (cc)
  choose_from-IsChoice draws (t0 ∷ ts) alone h =
      let tokens = t0 ∷ ts in
      let ids = by_fingerprint fingerprint [] tokens in
      let f = sort_tokens (pos threshold) now snapshots ids nothing_found in
      let P : Budget → Text → Type 0 = λ b t. (budget t ≡ b) × (contains t tokens ≡ true) in
      let entry =
        by_fingerprint-IsEntry fingerprint tokens tokens [] (λ t m. m) (λ e m. elim m [ ]) in
      let so =
        sort_tokens-IsTrue threshold now snapshots P ids nothing_found
          (λ e m. (ap (λ i. budget_of threshold (snapshots i)) (sym (entry e m).0), (entry e m).1))
          nothing_so in
      let held : (t : Text) → contains t tokens ≡ true → Holds (budget t) t f = λ t m.
        sort_tokens-Holds threshold now snapshots (fingerprint t, t) ids nothing_found
          (Memᴰ-get (fingerprint t) t ids
            (by_fingerprint-get fingerprint t tokens [] (λ s n. alone s t n m) m)) in
      let choice = pick-IsChoice random draws tokens refl budget f so held in
      (pick random tokens f, (refl, choice.0, choice.1))

  -- Where some token is not empty, `random` draws from what it is given and the tokens that are not
  -- empty have different fingerprints, `choose_token` gives a token of the list, not empty, and no
  -- token of the list is better: more left above the threshold, then more left, then nothing known,
  -- then an earlier reset, then the others.
  pub choose_token-is_no_better :
      Draws random
      → (tokens : List Text)
      → ((s t : Text)
          → contains s tokens ≡ true
          → contains t tokens ≡ true
          → is_empty s ≡ false
          → is_empty t ≡ false
          → fingerprint s ≡ fingerprint t
          → s ≡ t)
      → (t0 : Text) → contains t0 tokens ≡ true
      → is_empty t0 ≡ false
      → (t : Text) × ((choose_token fingerprint snapshots random (pos threshold) now tokens
            ≡ some t)
          × (contains t tokens ≡ true)
          × (is_empty t ≡ false)
          × ((s : Text)
              → contains s tokens ≡ true
              → is_empty s ≡ false
              → is_no_better (budget s) (budget t) ≡ true))
  unfolding choose_token contains
  choose_token-is_no_better draws tokens alone t0 m0 full0 =
      let kept = keep nonempty tokens in
      let (t, (e, m, best)) =
        choose_from-IsChoice draws kept
          (λ s t m n. alone s t (of_kept s m).0 (of_kept t n).0 (of_kept s m).1 (of_kept t n).1)
          (some_kept kept (to_kept t0 m0 full0)) in
      (t, (e, (of_kept t m).0, (of_kept t m).1, λ s n full. best s (to_kept s n full)))
    where
      nonempty : Text → Bool
      nonempty t = not (is_empty t)

      of_kept :
          (s : Text)
          → contains s (keep nonempty tokens) ≡ true
          → (contains s tokens ≡ true) × (is_empty s ≡ false)
      of_kept s m = let e = contains-keep nonempty s tokens in ground arith

      to_kept :
          (s : Text)
          → contains s tokens ≡ true
          → is_empty s ≡ false
          → contains s (keep nonempty tokens) ≡ true
      to_kept s m full = let e = contains-keep nonempty s tokens in ground arith

      some_kept : (ts : List Text) → contains t0 ts ≡ true → is_empty ts ≡ false
      some_kept [] m = absurd (cc)
      some_kept (t ∷ ts) m = refl
