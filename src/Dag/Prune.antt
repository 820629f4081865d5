-- ===== src/Dag/Prune.antt =====
-- `prune` of src/core/version-dag.ts: its keep-set against the roots and their ancestors.
pub mod Answers
pub mod Safety
use opsblobs_obsidian.Base.{
  ℕ, zero, suc, ◌+◌, ◌≤◌, ◌<◌, ◌≡◌, ◌≢◌, refl, sym, ◌↔◌, ◌⊎◌, inl, inr, JsString, Bool, true, false,
  not, ◌||◌, ◌&&◌, Option, none, some, List, [], ◌∷◌, arith, ◌===◌, if◌then◌else◌, length, contains,
  add, lookup, contains-add, Bool-cases, str_dec,
}
use opsblobs_obsidian.Dag.{
  VersionNode, VersionDag, truthy, parents_of, edge_count, mark, drop_falsy, sweep, keep_set,
  delete_unkept,
}
use opsblobs_obsidian.Dag.Walk.{
  IsIn, IsIn-cons, IsIn-add, IsIn-head, IsIn-tail, not_in_nil, unseen_edges, unseen_edges-add,
  unseen_edges-nil,
}
use opsblobs_obsidian.Dag.Reach.{Ancestor, here, up, Ancestor-parent, Ancestor-closed}
use opsblobs_obsidian.Dag.MergeBase.Pick.{NoDup}

contains-mark :
    (ps keep stack : List JsString) (v : JsString)
    → (contains (mark ps keep stack).0 v ≡ (contains ps v || contains keep v))
      × (contains (mark ps keep stack).1 v
          ≡ (contains stack v || (contains ps v && not (contains keep v))))
unfolding mark contains
contains-mark [] keep stack v = ground arith
contains-mark (p ∷ ps) keep stack v = elim (Bool-cases (contains keep p)) [
  | inl old ↦ rw (old, mark) (ground (arith, contains-mark ps keep stack v))
  | inr new ↦
      rw (new, mark)
        (ground (arith, contains-mark ps (add keep p) (p ∷ stack) v, contains-add keep p v))
]

length-mark-le :
    (ps keep stack : List JsString) → length (mark ps keep stack).1 ≤ length ps + length stack
unfolding mark
length-mark-le [] keep stack = omega arith
length-mark-le (p ∷ ps) keep stack = elim (Bool-cases (contains keep p)) [
  | inl old ↦ rw (old, mark) (omega (arith, length-mark-le ps keep stack))
  | inr new ↦ rw (new, mark) (omega (arith, length-mark-le ps (add keep p) (p ∷ stack)))
]

IsIn-mark :
    (ps keep stack : List JsString) (v : JsString)
    → IsIn (mark ps keep stack).0 v
    → IsIn ps v ⊎ IsIn keep v
IsIn-mark ps keep stack v m = ground (arith, contains-mark ps keep stack v)

IsIn-mark_stack :
    (ps keep stack : List JsString) (v : JsString)
    → IsIn (mark ps keep stack).1 v
    → IsIn ps v ⊎ IsIn stack v
IsIn-mark_stack ps keep stack v m = ground (arith, contains-mark ps keep stack v)

-- The state of the sweep, with the versions that it has popped as a ghost.
record IsSweep (dag : VersionDag) (done keep stack : List JsString) : Type 0 where
  split : (v : JsString) → contains keep v ≡ (contains done v || contains stack v)
  fresh : (v : JsString) → IsIn stack v → contains done v ≡ false
  nodup : NoDup stack
  closed : (v p : JsString) → IsIn done v → IsIn (parents_of dag v) p → IsIn keep p

mark-NoDup :
    (ps keep stack : List JsString)
    → ((v : JsString) → IsIn stack v → IsIn keep v)
    → NoDup stack
    → NoDup (mark ps keep stack).1
unfolding mark contains
mark-NoDup [] keep stack sub d = d
mark-NoDup (p ∷ ps) keep stack sub d = elim (Bool-cases (contains keep p)) [
  | inl old ↦ rw (old, mark) (mark-NoDup ps keep stack sub d)
  | inr new ↦
      rw (new, mark)
        (mark-NoDup ps (add keep p) (p ∷ stack)
          (λ v m. ground (arith, contains-add keep p v, sub v)) (ground (arith, sub p), d))
]

step_closed :
    (dag : VersionDag) (done keep stack : List JsString) (cur v p : JsString)
    → IsSweep dag done keep (cur ∷ stack)
    → IsIn (add done cur) v
    → IsIn (parents_of dag v) p
    → IsIn (mark (parents_of dag cur) keep stack).0 p
step_closed dag done keep stack cur v p s m n = elim (IsIn-add done cur v m) [
  | inl e ↦
      let n' : IsIn (parents_of dag cur) p = rw e at n in
      ground (arith, contains-mark (parents_of dag cur) keep stack p)
  | inr m' ↦ ground (arith, s.closed v p m' n, contains-mark (parents_of dag cur) keep stack p)
]

step_fresh :
    (dag : VersionDag) (done keep stack : List JsString) (cur v : JsString)
    → IsSweep dag done keep (cur ∷ stack)
    → IsIn (mark (parents_of dag cur) keep stack).1 v
    → contains (add done cur) v ≡ false
unfolding contains
step_fresh dag done keep stack cur v s m = ground (
  arith,
  s.split v,
  s.fresh v,
  s.nodup.0,
  contains-mark (parents_of dag cur) keep stack v,
  contains-add done cur v,
)

step-IsSweep :
    (dag : VersionDag) (done keep stack : List JsString) (cur : JsString)
    → IsSweep dag done keep (cur ∷ stack)
    → IsSweep dag
        (add done cur)
        (mark (parents_of dag cur) keep stack).0
        (mark (parents_of dag cur) keep stack).1
unfolding contains
step-IsSweep dag done keep stack cur s = record {
  split = λ v.
      ground (
        arith,
        s.split v,
        contains-mark (parents_of dag cur) keep stack v,
        contains-add done cur v,
      );
  fresh = λ v m. step_fresh dag done keep stack cur v s m;
  nodup = mark-NoDup (parents_of dag cur) keep stack (λ v m. ground (arith, s.split v)) s.nodup.1;
  closed = λ v p m n. step_closed dag done keep stack cur v p s m n;
}

-- With enough fuel the sweep keeps all that is marked, and its result is closed under parents.
sweep_complete :
    (dag : VersionDag) (fuel : ℕ) (done keep stack : List JsString)
    → IsSweep dag done keep stack
    → length stack + unseen_edges dag done ≤ fuel
    → ((v : JsString) → IsIn keep v → IsIn (sweep dag fuel keep stack) v)
      × ((v p : JsString)
          → IsIn (sweep dag fuel keep stack) v
          → IsIn (parents_of dag v) p
          → IsIn (sweep dag fuel keep stack) p)
unfolding sweep
sweep_complete dag zero done keep [] s w =
    (λ v m. m, λ v p m n. s.closed v p (ground (arith, s.split v, not_in_nil v)) n)
sweep_complete dag zero done keep (x ∷ stack) s w = absurd (omega arith)
sweep_complete dag (suc fuel) done keep [] s w =
    (λ v m. m, λ v p m n. s.closed v p (ground (arith, s.split v, not_in_nil v)) n)
sweep_complete dag (suc fuel) done keep (cur ∷ stack) s w =
    let ps = parents_of dag cur in
    let (covers, closed) =
      sweep_complete dag fuel (add done cur) (mark ps keep stack).0 (mark ps keep stack).1
        (step-IsSweep dag done keep stack cur s)
        (omega (
          arith,
          length-mark-le ps keep stack,
          unseen_edges-add dag done cur (s.fresh cur (IsIn-head cur stack)),
        )) in
    (λ v m. covers v (ground (arith, contains-mark ps keep stack v)), closed)

-- What is marked descends to what the sweep started from.
sweep_keeps {ℓ} :
    (dag : VersionDag) (P : JsString → Type ℓ)
    → ((v p : JsString) → P v → IsIn (parents_of dag v) p → P p)
    → (fuel : ℕ) (keep stack : List JsString) → ((v : JsString) → IsIn keep v → P v)
    → ((v : JsString) → IsIn stack v → P v)
    → (v : JsString) → IsIn (sweep dag fuel keep stack) v
    → P v
unfolding sweep
sweep_keeps dag P above zero keep stack hs hk v m = hs v m
sweep_keeps dag P above (suc fuel) keep [] hs hk v m = hs v m
sweep_keeps dag P above (suc fuel) keep (cur ∷ stack) hs hk v m =
    let ps = parents_of dag cur in
    sweep_keeps dag P above fuel (mark ps keep stack).0 (mark ps keep stack).1
      (λ u n. elim (IsIn-mark ps keep stack u n) [
        | inl n' ↦ above cur u (hk cur (IsIn-head cur stack)) n'
        | inr n' ↦ hs u n'
      ])
      (λ u n. elim (IsIn-mark_stack ps keep stack u n) [
        | inl n' ↦ above cur u (hk cur (IsIn-head cur stack)) n'
        | inr n' ↦ hk u (IsIn-tail cur stack u n')
      ])
      v m

-- A root of the sweep: a non-empty version id of the list.
abbrev pub Root : List JsString → JsString → Type 0
Root roots r = IsIn roots r × (truthy r ≡ true)

IsIn-drop_falsy_iff :
    (roots : List JsString) (r : JsString) → IsIn (drop_falsy roots) r ↔ Root roots r
unfolding contains
IsIn-drop_falsy_iff [] r = ground arith
IsIn-drop_falsy_iff (x ∷ roots) r = ground (arith, IsIn-drop_falsy_iff roots r)

start-IsSweep :
    (dag : VersionDag) (ps : List JsString) → IsSweep dag [] (mark ps [] []).0 (mark ps [] []).1
start-IsSweep dag ps = record {
  split = λ v. ground (arith, contains-mark ps [] [] v, not_in_nil v);
  fresh = λ v m. not_in_nil v;
  nodup = mark-NoDup ps [] [] (λ v m. m) tt;
  closed = λ v p m n. cc (not_in_nil v);
}

marked_first :
    (ps : List JsString) (v : JsString)
    → (IsIn (mark ps [] []).0 v → IsIn ps v)
      × (IsIn (mark ps [] []).1 v → IsIn ps v)
      × (IsIn ps v → IsIn (mark ps [] []).0 v)
marked_first ps v = (
  λ m. ground (arith, contains-mark ps [] [] v, not_in_nil v),
  λ m. ground (arith, contains-mark ps [] [] v, not_in_nil v),
  λ m. ground (arith, contains-mark ps [] [] v),
)

-- Has a root at or below it.
abbrev pub Rooted : VersionDag → List JsString → JsString → Type 0
Rooted dag roots v = (r : JsString) × Root roots r × Ancestor dag v r

root-Rooted :
    (dag : VersionDag) (roots : List JsString) (r : JsString)
    → IsIn (drop_falsy roots) r
    → Rooted dag roots r
root-Rooted dag roots r m = (r, (IsIn-drop_falsy_iff roots r).0 m, here)

-- A version is in the keep-set exactly when it is a root or an ancestor of one.
pub keep_set_iff :
    (dag : VersionDag) (roots : List JsString) (v : JsString)
    → IsIn (keep_set dag roots) v ↔ Rooted dag roots v
unfolding keep_set
keep_set_iff dag roots v =
    let ps = drop_falsy roots in
    let (covers, closed) =
      sweep_complete dag _ [] (mark ps [] []).0 (mark ps [] []).1 (start-IsSweep dag ps)
        (omega (arith, unseen_edges-nil dag)) in
    (
      sweep_keeps dag (Rooted dag roots) (λ u p h m. (h.0, h.1, Ancestor-parent dag u p m h.2)) _
          (mark ps [] []).0 (mark ps [] []).1
          (λ u m. root-Rooted dag roots u ((marked_first ps u).0 m))
          (λ u m. root-Rooted dag roots u ((marked_first ps u).1 m)) v,
      λ (r, k, h).
          Ancestor-closed dag (IsIn (keep_set dag roots)) closed v h
            (covers r ((marked_first ps r).2 ((IsIn-drop_falsy_iff roots r).1 k))),
    )
