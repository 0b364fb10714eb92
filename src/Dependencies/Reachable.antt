-- ===== src/Dependencies/Reachable.antt =====
-- The search ends, never raises, and sees exactly what is reachable.
use queueboard_core.Prelude.{
  Distinct, ℕ, zero, suc, ◌≤◌, ◌≡◌, ◌↔◌, inl, inr, refl, sym, ◌∙◌, subst, true, some, List, [], ◌∷◌,
  contains, length, length-map, nat_eq, Option-cases, arith, nat_beq_iff,
}
use queueboard_core.Prelude.Dict.{get, has_key, keys, has_key-keys}
use queueboard_core.Dependencies.Graph.{Graph, loop, reachable}
use queueboard_core.Dependencies.Search.{
  leads, Reach, unseen, unseen_falls, IsSearch, scan-work, work, IsClosed, targets-some, after,
  step-IsSearch,
}

module _ (g : Graph) (start : ℕ) (closed : IsClosed g) where
  current_known :
      (c : ℕ) (seen queue : List ℕ) → IsSearch g start seen (c ∷ queue) → has_key c g ≡ true
  unfolding contains
  current_known c seen queue s = s.known c (s.queued c (ground (arith, nat_beq_iff c c)))

  in_keys :
      (c : ℕ) (ns : List ℕ)
      → get c g ≡ some ns
      → (x : ℕ) → contains x ns ≡ true
      → contains x (keys g) ≡ true
  in_keys c ns found x m = sym (has_key-keys x g) ∙ closed c x (rw (targets-some g c ns found) m)

  loop_total :
      (fuel : ℕ) (seen queue : List ℕ)
      → IsSearch g start seen queue
      → work (keys g) seen queue ≤ fuel
      → (r : List ℕ) × (loop fuel g seen queue ≡ some r) × IsSearch g start r []
  unfolding loop
  loop_total fuel seen [] s w = (seen, refl, s)
  loop_total zero seen (c ∷ queue) s w = absurd (omega (arith, w))
  loop_total (suc fuel) seen (c ∷ queue) s w = elim (Option-cases (get c g)) [
    | inl missing ↦ absurd (let key = current_known c seen queue s in ground arith)
    | inr (ns, found) ↦
        let s' = step-IsSearch g start c ns seen queue closed s found in
        let after_work =
          scan-work (keys g) ns (record { seen = seen; queue = queue }) (in_keys c ns found) in
        let (r, e, t) =
          loop_total fuel (after g start c ns seen queue closed s found).seen
            (after g start c ns seen queue closed s found).queue s'
            (omega (arith, after_work, w)) in
        (r, rw (found, loop) e, t)
  ]

  unseen-le : (seen ks : List ℕ) → unseen seen ks ≤ length ks
  unfolding unseen
  unseen-le seen [] = omega arith
  unseen-le seen (k ∷ ks) = ground (arith, unseen-le seen ks)

  start-IsSearch : has_key start g ≡ true → IsSearch g start (start ∷ []) (start ∷ [])
  unfolding contains
  start-IsSearch key = record {
    distinct = (refl, tt);
    started = ground (arith, nat_beq_iff start start);
    queued = λ x m. m;
    known = λ x m. subst (λ k. has_key k g ≡ true) (sym (only x m)) key;
    sound = λ x m. subst (λ k. Reach (leads g) start k) (sym (only x m)) Reach.here;
    done = λ x y m out edge. absurd (ground arith);
  }
    where
      only : (x : ℕ) → contains x (start ∷ []) ≡ true → x ≡ start
      only x m = (nat_beq_iff x start).0 (ground arith)

  -- A search that is at its end has seen what is reachable.
  Reach-seen :
      (r : List ℕ) (b : ℕ) → IsSearch g start r [] → Reach (leads g) start b → contains b r ≡ true
  unfolding contains
  Reach-seen r b s Reach.here = s.started
  Reach-seen r c s (Reach.next {b} p edge) = s.done b c (Reach-seen r b s p) refl edge

  -- From a PR that is there, the search ends, and what it has seen is what is reachable, each once.
  pub reachable_lem :
      has_key start g ≡ true
      → (r : List ℕ) × (reachable g start ≡ some r)
        × Distinct r
        × ((b : ℕ) → (contains b r ≡ true) ↔ Reach (leads g) start b)
  unfolding reachable contains
  reachable_lem key =
      let (r, e, s) = loop_total (length g) (start ∷ []) (start ∷ []) (start-IsSearch key) (
        omega (
          arith,
          unseen_falls start [] (keys g) refl (sym (has_key-keys start g) ∙ key),
          unseen-le [] (keys g),
          length-map (λ (e : ℕ × List ℕ). e.0) g,
        )) in
      (r, e, s.distinct, λ b. (s.sound b, Reach-seen r b s))
