-- ===== src/Dag/Content/Generation.antt =====
-- One generation of `reachableContentHashes` of src/core/version-dag.ts, when no depth is given.
use mathlib.Core.Path.{subst}
use opsblobs_obsidian.Base.{
  ℕ, ◌+◌, ◌≤◌, ◌≡◌, refl, sym, ap, inl, inr, JsString, Bool, true, false, not, ◌&&◌, ◌||◌, Option,
  none, some, List, [], ◌∷◌, arith, ltb, ◌===◌, if◌then◌else◌, length, contains, add, lookup,
  contains-add, Bool-cases,
}
use opsblobs_obsidian.Dag.{VersionDag, VersionNode, truthy, parents_of}
use opsblobs_obsidian.Dag.Walk.{IsIn, IsIn-add, unseen_edges, unseen_edges-add}
use opsblobs_obsidian.Dag.MergeBase.Pick.{NoDup}
use opsblobs_obsidian.Dag.Content.{
  ReachableBounds, Round, enqueue, misses, is_at, visit_node, visit, visit_all,
}
use opsblobs_obsidian.Dag.Content.Queue.{
  contains-enqueue, out-enqueue, length-enqueue-le, NoDup-enqueue,
}

-- The content hash of a version, empty where it is not recorded.
abbrev pub hash_of : VersionDag → JsString → JsString
hash_of dag u = elim (lookup u dag) [ none ↦ [] | some node ↦ node.content_hash ]

module _ (dag : VersionDag) (v : JsString) (has : Option (JsString → Bool)) where
  abbrev pub bounds : ReachableBounds
  bounds = record { has = has; max_depth = none }

  -- The walk goes on to the parents of the start, and of a version whose bytes are there.
  abbrev pub descends : JsString → Bool
  descends u = u === v || not (misses has (hash_of dag u))

  -- The versions that a path of such versions leads to.
  pub data Kept : JsString → Type 0 where
    start : Kept v
    onward :
        {u : JsString} (p : JsString)
        → Kept u
        → descends u ≡ true
        → IsIn (parents_of dag u) p
        → Kept p

  abbrev noted : JsString → Round → Round
  noted u st = record st {
    out = if truthy (hash_of dag u) then add st.out (hash_of dag u) else st.out;
  }

  abbrev visited : JsString → Round → Round
  visited u st = if descends u then enqueue (parents_of dag u) (noted u st) else noted u st

  visit_lem :
      (depth : ℕ) (u : JsString) (st : Round)
      → ltb 0 depth ≡ not (u === v)
      → visit dag bounds depth u st ≡ visited u st
  unfolding visit visit_node is_at parents_of
  visit_lem depth u st e = node_case (lookup u dag) refl
    where
      node_case :
          (found : Option VersionNode)
          → lookup u dag ≡ found
          → visit dag bounds depth u st ≡ visited u st
      node_case none f = unfold enqueue in (ground (arith, f))
      node_case (some node) f = ground (arith, f)

  pub record IsWalk (done rest : List JsString) (st : Round) : Type 0 where
    pub split :
        (u : JsString)
        → contains st.seen u ≡ (contains done u || contains rest u || contains st.next u)
    pub fresh : (u : JsString) → IsIn rest u → contains done u ≡ false
    pub fresh_next :
        (u : JsString) → IsIn st.next u → (contains done u ≡ false) × (contains rest u ≡ false)
    pub nodup : NoDup rest
    pub nodup_next : NoDup st.next
    pub closed :
        (u p : JsString)
        → IsIn done u
        → descends u ≡ true
        → IsIn (parents_of dag u) p
        → IsIn st.seen p
    pub sound :
        (h : JsString)
        → IsIn st.out h
        → (a : JsString) × IsIn done a × (hash_of dag a ≡ h) × (truthy h ≡ true)
    pub complete :
        (a : JsString) → IsIn done a → truthy (hash_of dag a) ≡ true → IsIn st.out (hash_of dag a)
    pub kept : (u : JsString) → IsIn st.seen u → Kept u

  seen-visited :
      (u : JsString) (st : Round) (x : JsString)
      → (contains (visited u st).seen x
          ≡ ((descends u && contains (parents_of dag u) x) || contains st.seen x))
        × (contains (visited u st).next x ≡ (
            contains st.next x
            || (descends u && contains (parents_of dag u) x && not (contains st.seen x))))
        × ((visited u st).out ≡ (noted u st).out)
  seen-visited u st x = ground (
    arith,
    contains-enqueue (parents_of dag u) (noted u st) x,
    out-enqueue (parents_of dag u) (noted u st),
  )

  nodup-visited :
      (u : JsString) (st : Round)
      → ((x : JsString) → IsIn st.next x → IsIn st.seen x)
      → NoDup st.next
      → NoDup (visited u st).next
  nodup-visited u st sub h = elim (Bool-cases (descends u)) [
    | inl d ↦ rw d (NoDup-enqueue (parents_of dag u) (noted u st) sub h)
    | inr d ↦ rw d h
  ]

  step-IsWalk :
      (done rest : List JsString) (u : JsString) (st : Round)
      → IsWalk done (u ∷ rest) st
      → IsWalk (add done u) rest (visited u st)
  unfolding contains
  step-IsWalk done rest u st w = record {
    split = λ x. ground (arith, w.split x, seen-visited u st x, contains-add done u x);
    fresh = λ x m. ground (arith, w.fresh x, w.nodup.0, contains-add done u x);
    fresh_next = λ x m.
        ground
          (arith, w.split x, w.fresh_next x, w.fresh x, seen-visited u st x, contains-add done u x);
    nodup = w.nodup.1;
    nodup_next = nodup-visited u st (λ x m. ground (arith, w.split x)) w.nodup_next;
    closed = λ x p m d n. elim (IsIn-add done u x m) [
      | inl e ↦
          let n' : IsIn (parents_of dag u) p = rw e at n in
          let d' : descends u ≡ true = rw e at d in ground (arith, seen-visited u st p)
      | inr m' ↦ ground (arith, w.closed x p m' d n, seen-visited u st p)
    ];
    sound = λ h m. elim (Bool-cases (truthy (hash_of dag u) && hash_of dag u === h)) [
      | inl t ↦ (u, ground (arith, contains-add done u u), ground arith, ground arith)
      | inr t ↦
          let old : IsIn st.out h =
            ground (arith, seen-visited u st h, contains-add st.out (hash_of dag u) h) in
          let (a, k, e, q) = w.sound h old in (a, ground (arith, contains-add done u a), e, q)
    ];
    complete = λ a m t. elim (IsIn-add done u a m) [
      | inl e ↦
          let t' : truthy (hash_of dag u) ≡ true = rw e at t in
          rw e (
            ground
              (arith, seen-visited u st u, contains-add st.out (hash_of dag u) (hash_of dag u)))
      | inr m' ↦ ground (
        arith,
        w.complete a m' t,
        seen-visited u st a,
        contains-add st.out (hash_of dag u) (hash_of dag a),
      )
    ];
    kept = λ x m. elim (Bool-cases (contains st.seen x)) [
      | inl old ↦ w.kept x old
      | inr new ↦
          let here_kept : Kept u = w.kept u (ground (arith, w.split u)) in
          onward x here_kept (ground (arith, seen-visited u st x))
            (ground (arith, seen-visited u st x))
    ];
  }

  measure-visited :
      (done rest : List JsString) (u : JsString) (st : Round)
      → IsWalk done (u ∷ rest) st
      → unseen_edges dag (add done u) + length (visited u st).next
        ≤ unseen_edges dag done + length st.next
  unfolding contains
  measure-visited done rest u st w = ground (
    arith,
    unseen_edges-add dag done u (w.fresh u (ground arith)),
    length-enqueue-le (parents_of dag u) (noted u st),
  )

  -- A whole generation.
  pub all-IsWalk :
      (depth : ℕ) (rest done : List JsString) (st : Round)
      → IsWalk done rest st
      → ((u : JsString) → IsIn rest u → ltb 0 depth ≡ not (u === v))
      → (over : List JsString) × IsWalk over [] (visit_all dag bounds depth rest st)
        × ((x : JsString) → contains over x ≡ (contains done x || contains rest x))
        × (unseen_edges dag over + length (visit_all dag bounds depth rest st).next
            ≤ unseen_edges dag done + length st.next)
  unfolding visit_all contains
  all-IsWalk depth [] done st w at = (done, w, λ x. ground arith, omega arith)
  all-IsWalk depth (u ∷ rest) done st w at =
      let (over, w', both, less) =
        all-IsWalk depth rest (add done u) (visited u st) (step-IsWalk done rest u st w)
          (λ x m. at x (ground arith)) in
      let whole : visit_all dag bounds depth rest (visit dag bounds depth u st)
          ≡ visit_all dag bounds depth rest (visited u st) =
        ap (visit_all dag bounds depth rest) (visit_lem depth u st (at u (ground arith))) in
      (
        over,
        subst (λ (s : Round). IsWalk over [] s) (sym whole) w',
        λ x. ground (arith, both x, contains-add done u x),
        omega (
          arith,
          less,
          measure-visited done rest u st w,
          ap (λ (s : Round). length s.next) whole,
        ),
      )

  abbrev pub emptied : Round → Round
  emptied st = record { out = st.out; seen = st.seen; next = [] }

  -- The frontier that a generation leaves is the next one.
  pub turn-IsWalk :
      (done : List JsString) (st : Round) → IsWalk done [] st → IsWalk done st.next (emptied st)
  unfolding contains
  turn-IsWalk done st w = record {
    split = λ x. ground (arith, w.split x);
    fresh = λ x m. (w.fresh_next x m).0;
    fresh_next = λ x m. cc;
    nodup = w.nodup_next;
    nodup_next = tt;
    closed = w.closed;
    sound = w.sound;
    complete = w.complete;
    kept = w.kept;
  }
