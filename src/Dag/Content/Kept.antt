-- ===== src/Dag/Content/Kept.antt =====
-- Which hashes `reachableContentHashes` of src/core/version-dag.ts returns, when no depth is given.
use mathlib.Core.Path.{subst}
use opsblobs_obsidian.Base.{
  ℕ, zero, suc, ◌+◌, ◌<◌, ◌≡◌, ◌↔◌, ◌⊎◌, refl, sym, inl, inr, JsString, Bool, true, false, not,
  ◌||◌, Option, none, List, [], ◌∷◌, arith, ltb, ◌===◌, length, contains,
}
use opsblobs_obsidian.Dag.{VersionDag, truthy, edge_count}
use opsblobs_obsidian.Dag.Walk.{IsIn, unseen_edges, unseen_edges-nil}
use opsblobs_obsidian.Dag.Content.{
  Round, is_past, visit_all, levels, is_empty_list, reachable_content_hashes,
}
use opsblobs_obsidian.Dag.Content.Generation.{
  hash_of, bounds, Kept, start, onward, IsWalk, all-IsWalk, turn-IsWalk, emptied,
}

module _ (dag : VersionDag) (v : JsString) (has : Option (JsString → Bool)) where
  abbrev Finished : List JsString → Type 0
  Finished out =
      (done seen : List JsString) × IsWalk dag v has done []
        (record { out = out; seen = seen; next = [] })
      × IsIn done v

  list_cases : (xs : List JsString) → (xs ≡ []) ⊎ ((is_empty_list xs ≡ false) × (0 < length xs))
  list_cases [] = inl refl
  list_cases (x ∷ xs) = inr (refl, omega arith)

  levels_end :
      (fuel depth : ℕ) (st : Round)
      → st.next ≡ []
      → levels dag (bounds dag v has) (suc fuel) depth st ≡ st.out
  unfolding levels
  levels_end fuel depth st e = ground (arith, e)

  levels_on :
      (fuel depth : ℕ) (st : Round)
      → is_empty_list st.next ≡ false
      → levels dag (bounds dag v has) (suc fuel) depth st
        ≡ levels dag
            (bounds dag v has)
            fuel
            (depth + 1)
            (visit_all dag (bounds dag v has) depth st.next (emptied dag v has st))
  unfolding levels is_past
  levels_on fuel depth st e = ground (arith, e)

  levels-Finished :
      (fuel depth : ℕ) (done : List JsString) (st : Round)
      → IsWalk dag v has done [] st
      → ((u : JsString) → IsIn st.next u → ltb 0 depth ≡ not (u === v))
      → (contains done v || contains st.next v) ≡ true
      → unseen_edges dag done + length st.next < fuel
      → Finished (levels dag (bounds dag v has) fuel depth st)
  levels-Finished zero depth done st w at here less = absurd (omega arith)
  levels-Finished (suc fuel) depth done st w at here less = elim (list_cases st.next) [
    | inl e ↦ (
      done,
      st.seen,
      subst
          (λ (out : List JsString).
            IsWalk dag v has done [] (record { out = out; seen = st.seen; next = [] }))
          (sym (levels_end fuel depth st e))
          (subst (λ (l : List JsString). IsWalk dag v has done l (emptied dag v has st)) e
            (turn-IsWalk dag v has done st w)),
      unfold contains in (ground (arith, e)),
    )
    | inr (some_next, positive) ↦
        let (over, w', both, less') =
          all-IsWalk dag v has depth st.next done (emptied dag v has st)
            (turn-IsWalk dag v has done st w) at in
        subst Finished (sym (levels_on fuel depth st some_next)) (
          levels-Finished fuel (depth + 1) over
            (visit_all dag (bounds dag v has) depth st.next (emptied dag v has st)) w'
            (λ u m.
              let apart = (w'.fresh_next u m).0 in
              let there : contains over v ≡ true = ground (arith, both v) in ground arith)
            (ground (arith, both v)) (omega (arith, less', less, positive)))
  ]

  reached :
      (done seen : List JsString) {out : List JsString}
      → IsWalk dag v has done [] (record { out = out; seen = seen; next = [] })
      → IsIn done v
      → {a : JsString} → Kept dag v has a
      → IsIn done a
  unfolding contains
  reached done seen w here start = here
  reached done seen w here (onward {u} p k d m) =
      ground (arith, w.closed u p (reached done seen w here k) d m, w.split p)

  first_round : Round
  first_round = record { out = []; seen = v ∷ []; next = v ∷ [] }

  first-IsWalk : IsWalk dag v has [] [] first_round
  unfolding first_round contains
  first-IsWalk = record {
    split = λ u. refl;
    fresh = λ u m. cc;
    fresh_next = λ u m. (refl, refl);
    nodup = tt;
    nodup_next = (refl, tt);
    closed = λ u p m d n. cc;
    sound = λ h m. cc;
    complete = λ a m t. cc;
    kept = λ u m. subst (Kept dag v has) (ground arith) start;
  }

  finished : Finished (levels dag (bounds dag v has) (edge_count dag + 2) 0 first_round)
  unfolding first_round contains
  finished =
      levels-Finished (edge_count dag + 2) 0 [] first_round first-IsWalk (λ u m. ground arith)
        (ground arith) (omega (arith, unseen_edges-nil dag))

  -- A hash is returned exactly when it is the non-empty content hash of a version that is kept: the start,
  -- or one that a parent link leads to from a kept version which is the start or whose bytes, as far as
  -- it names any, the bound says are there.
  pub reachable_content_hashes_iff :
      (h : JsString)
      → IsIn (reachable_content_hashes dag v (record { has = has; max_depth = none })) h
        ↔ ((a : JsString) × Kept dag v has a × (hash_of dag a ≡ h) × (truthy h ≡ true))
  unfolding reachable_content_hashes first_round
  reachable_content_hashes_iff h =
      let (done, seen, w, here) = finished in
      (
        λ m.
            let (a, k, e, t) = w.sound h m in
            (a, w.kept a (unfold contains in (ground (arith, w.split a))), e, t),
        λ (a, k, e, t).
            subst (λ (x : JsString). IsIn (reachable_content_hashes dag v (bounds dag v has)) x) e
              (unfold reachable_content_hashes in
                (w.complete a (reached done seen w here k)
                  (subst (λ (x : JsString). truthy x ≡ true) (sym e) t))),
      )
