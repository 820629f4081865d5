-- ===== src/Dag/Content/Queue.antt =====
-- The queue of `reachableContentHashes` of src/core/version-dag.ts.
use opsblobs_obsidian.Base.{
  ◌+◌, ◌≤◌, ◌≡◌, refl, inl, inr, JsString, false, not, ◌&&◌, ◌||◌, List, [], ◌∷◌, ◌++◌, arith,
  length, contains, add, contains-add, contains-append, length-append, Bool-cases,
}
use opsblobs_obsidian.Dag.Walk.{IsIn}
use opsblobs_obsidian.Dag.MergeBase.Pick.{NoDup}
use opsblobs_obsidian.Dag.Content.{Round, enqueue}

pub contains-enqueue :
    (ps : List JsString) (st : Round) (u : JsString)
    → (contains (enqueue ps st).seen u ≡ (contains ps u || contains st.seen u))
      × (contains (enqueue ps st).next u
          ≡ (contains st.next u || (contains ps u && not (contains st.seen u))))
unfolding enqueue contains
contains-enqueue [] st u = ground arith
contains-enqueue (p ∷ ps) st u = ground (
  arith,
  contains-enqueue ps st u,
  contains-enqueue ps (record { out = st.out; seen = add st.seen p; next = st.next ++ (p ∷ []) }) u,
  contains-add st.seen p u,
  contains-append st.next (p ∷ []) u,
)

pub out-enqueue : (ps : List JsString) (st : Round) → (enqueue ps st).out ≡ st.out
unfolding enqueue
out-enqueue [] st = refl
out-enqueue (p ∷ ps) st = ground (
  arith,
  out-enqueue ps st,
  out-enqueue ps (record { out = st.out; seen = add st.seen p; next = st.next ++ (p ∷ []) }),
)

pub length-enqueue-le :
    (ps : List JsString) (st : Round) → length (enqueue ps st).next ≤ length st.next + length ps
unfolding enqueue
length-enqueue-le [] st = omega arith
length-enqueue-le (p ∷ ps) st = ground (
  arith,
  length-enqueue-le ps st,
  length-enqueue-le ps (record { out = st.out; seen = add st.seen p; next = st.next ++ (p ∷ []) }),
  length-append st.next (p ∷ []),
)

NoDup-snoc :
    (xs : List JsString) (p : JsString) → contains xs p ≡ false → NoDup xs → NoDup (xs ++ (p ∷ []))
unfolding contains
NoDup-snoc [] p n h = (refl, tt)
NoDup-snoc (x ∷ xs) p n h =
    ground (arith, contains-append xs (p ∷ []) x, NoDup-snoc xs p (ground arith) h.1)

pub NoDup-enqueue :
    (ps : List JsString) (st : Round)
    → ((u : JsString) → IsIn st.next u → IsIn st.seen u)
    → NoDup st.next
    → NoDup (enqueue ps st).next
unfolding enqueue
NoDup-enqueue [] st sub h = h
NoDup-enqueue (p ∷ ps) st sub h = elim (Bool-cases (contains st.seen p)) [
  | inl old ↦ rw (old, enqueue) (NoDup-enqueue ps st sub h)
  | inr new ↦
      rw (new, enqueue)
        (NoDup-enqueue ps
          (record { out = st.out; seen = add st.seen p; next = st.next ++ (p ∷ []) })
          (λ u m.
            unfold contains in
            (ground (arith, contains-append st.next (p ∷ []) u, contains-add st.seen p u, sub u)))
          (NoDup-snoc st.next p (ground (arith, sub p)) h))
]
