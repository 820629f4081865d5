-- ===== src/Dag/MergeBase/Pick.antt =====
-- The last loop of `mergeBase` (src/core/version-dag.ts) over a set of common ancestors, which is
-- without repetition since the walk adds each version once.
use opsblobs_obsidian.Base.{
  ℕ, zero, suc, ◌≡◌, refl, inl, inr, JsString, true, false, none, some, List, [], ◌∷◌, arith,
  contains, add, contains-add, Bool-cases,
}
use opsblobs_obsidian.Dag.{
  VersionDag, parents_of, push_all, walk, walk_from, ancestors, base, common_of, pick_base,
}
use opsblobs_obsidian.Dag.Walk.{IsIn, IsIn-cons, IsIn-head, IsIn-tail, not_in_nil}
use opsblobs_obsidian.Dag.MergeBase.{contains-common_of, common}

abbrev pub NoDup : List JsString → Type 0
NoDup [] = Unit
NoDup (x ∷ xs) = (contains xs x ≡ false) × NoDup xs

pub add-NoDup : (xs : List JsString) (k : JsString) → NoDup xs → NoDup (add xs k)
unfolding add contains
add-NoDup [] k h = (refl, tt)
add-NoDup (x ∷ xs) k h = ground (arith, add-NoDup xs k h.1, contains-add xs k x)

walk-NoDup :
    (dag : VersionDag) (fuel : ℕ) (seen stack : List JsString)
    → NoDup seen
    → NoDup (walk dag fuel seen stack)
unfolding walk
walk-NoDup dag zero seen stack h = h
walk-NoDup dag (suc fuel) seen [] h = h
walk-NoDup dag (suc fuel) seen (cur ∷ stack) h = elim (Bool-cases (contains seen cur)) [
  | inl old ↦ rw (old, walk) (walk-NoDup dag fuel seen stack h)
  | inr new ↦
      rw (new, walk)
        (walk-NoDup dag fuel (add seen cur) (push_all (parents_of dag cur) stack)
          (add-NoDup seen cur h))
]

common_of-NoDup : (hs others : List JsString) → NoDup hs → NoDup (common_of hs others)
unfolding common_of
common_of-NoDup [] others h = tt
common_of-NoDup (x ∷ hs) others h =
    ground (arith, common_of-NoDup hs others h.1, contains-common_of hs others x)

pub common-NoDup : (dag : VersionDag) (a b : JsString) → NoDup (common dag a b)
unfolding ancestors walk_from
common-NoDup dag a b = common_of-NoDup _ _ (walk-NoDup dag _ [] (a ∷ []) tt)

module _ (dom : List JsString) where
  -- The members that are not dominated are at most this one.
  abbrev pub OnlyFree : List JsString → JsString → Type 0
  OnlyFree cs m = (c : JsString) → IsIn cs c → contains dom c ≡ false → c ≡ m

  rest_free :
      (x : JsString) (cs : List JsString) (m : JsString) → OnlyFree (x ∷ cs) m → OnlyFree cs m
  rest_free x cs m h c k f = h c (IsIn-tail x cs c k) f

  -- With a base at hand the loop returns it if all that follows is dominated, else `multiple`.
  pick_base-some :
      (cs : List JsString) (b m : JsString)
      → pick_base dom cs (some b) ≡ base m
      → (b ≡ m) × ((c : JsString) → IsIn cs c → contains dom c ≡ true)
  unfolding pick_base
  pick_base-some [] b m h = (cc, λ c k. cc (not_in_nil c))
  pick_base-some (x ∷ cs) b m h = elim (Bool-cases (contains dom x)) [
    | inl d ↦
        let (e, rest) = pick_base-some cs b m (rw (d, pick_base) at h) in
        (e, λ c k. elim (IsIn-cons x cs c k) [ inl same ↦ rw same d | inr k' ↦ rest c k' ])
    | inr free ↦ absurd (ground arith)
  ]

  pub pick_base-none :
      (cs : List JsString) (m : JsString)
      → pick_base dom cs none ≡ base m
      → IsIn cs m × (contains dom m ≡ false) × OnlyFree cs m
  unfolding pick_base
  pick_base-none [] m h = cc
  pick_base-none (x ∷ cs) m h = elim (Bool-cases (contains dom x)) [
    | inl d ↦
        let (k, f, only) = pick_base-none cs m (rw (d, pick_base) at h) in
        (
          IsIn-tail x cs m k,
          f,
          λ c k' f'. elim (IsIn-cons x cs c k') [ inl same ↦ cc | inr n ↦ only c n f' ],
        )
    | inr free ↦
        let (e, rest) = pick_base-some cs x m (rw (free, pick_base) at h) in
        (
          rw (← e) (IsIn-head x cs),
          rw (← e) free,
          λ c k' f'. elim (IsIn-cons x cs c k') [ inl same ↦ cc | inr n ↦ cc (rest c n) ],
        )
  ]

  some-pick_base :
      (cs : List JsString) (b : JsString)
      → contains cs b ≡ false
      → OnlyFree cs b
      → pick_base dom cs (some b) ≡ base b
  unfolding pick_base contains
  some-pick_base [] b h only = refl
  some-pick_base (x ∷ cs) b h only =
      ground (arith, some-pick_base cs b, rest_free x cs b only, only x (IsIn-head x cs))

  pub none-pick_base :
      (cs : List JsString) (m : JsString)
      → NoDup cs
      → IsIn cs m
      → contains dom m ≡ false
      → OnlyFree cs m
      → pick_base dom cs none ≡ base m
  unfolding pick_base contains
  none-pick_base [] m d k f only = cc
  none-pick_base (x ∷ cs) m d k f only = elim (Bool-cases (contains dom x)) [
    | inl gone ↦
        rw (gone, pick_base) (none-pick_base cs m d.1 (ground arith) f (rest_free x cs m only))
    | inr free ↦
        let e : x ≡ m = only x (IsIn-head x cs) free in
        rw (free, pick_base, e) (some-pick_base cs m (rw e at d.0) (rest_free x cs m only))
  ]
