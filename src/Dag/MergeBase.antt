-- ===== src/Dag/MergeBase.antt =====
-- `mergeBase` of src/core/version-dag.ts against its specification: the one maximal common ancestor.
pub mod Pick
pub mod Spec
use opsblobs_obsidian.Base.{
  ℕ, ◌≡◌, ◌≢◌, refl, sym, ◌↔◌, ◌⊎◌, inl, inr, JsString, Bool, true, false, ◌||◌, ◌&&◌, Option, none,
  some, List, [], ◌∷◌, arith, ◌===◌, if◌then◌else◌, contains, add, contains-add, Bool-cases,
  str_dec,
}
use opsblobs_obsidian.Dag.{
  VersionDag, parents_of, push_all, walk_from, ancestors, MergeBaseResult, no_base, multiple, base,
  common_of, push_parents, pick_base, base_among, merge_base,
}
use opsblobs_obsidian.Dag.Walk.{
  IsIn, IsIn-cons, IsIn-head, IsIn-tail, not_in_nil, IsIn-push_all, contains-push_all,
}
use opsblobs_obsidian.Dag.Reach.{Ancestor, here, up}
use opsblobs_obsidian.Dag.Ancestor.{walk_from_sound, walk_from_complete, IsIn-ancestors_iff}

pub contains-common_of :
    (hs others : List JsString) (v : JsString)
    → contains (common_of hs others) v ≡ (contains hs v && contains others v)
unfolding common_of contains
contains-common_of [] others v = refl
contains-common_of (h ∷ hs) others v = ground (arith, contains-common_of hs others v)

pub both : {x y : Bool} → x ≡ true → y ≡ true → (x && y) ≡ true
both h k = ground arith

-- The common ancestors that `mergeBase` collects.
abbrev pub common : VersionDag → JsString → JsString → List JsString
common dag a b = common_of (ancestors dag a) (ancestors dag b)

abbrev pub Common : VersionDag → JsString → JsString → JsString → Type 0
Common dag a b c = Ancestor dag c a × Ancestor dag c b

pub IsIn-common_iff :
    (dag : VersionDag) (a b c : JsString) → IsIn (common dag a b) c ↔ Common dag a b c
IsIn-common_iff dag a b c =
    let e = contains-common_of (ancestors dag a) (ancestors dag b) c in
    (
      λ m. (
        (IsIn-ancestors_iff dag c a).0 (ground (arith, e)),
        (IsIn-ancestors_iff dag c b).0 (ground (arith, e)),
      ),
      λ h. rw e (both ((IsIn-ancestors_iff dag c a).1 h.0) ((IsIn-ancestors_iff dag c b).1 h.1)),
    )

-- A proper ancestor of a common ancestor: reachable from one of its parents.
abbrev pub Dominated : VersionDag → JsString → JsString → JsString → Type 0
Dominated dag a b m =
    (c : JsString) × (p : JsString) × Common dag a b c
    × IsIn (parents_of dag c) p
    × Ancestor dag m p

abbrev pub Maximal : VersionDag → JsString → JsString → JsString → Type 0
Maximal dag a b m = Common dag a b m × ¬ (Dominated dag a b m)

IsIn-push_parents :
    (dag : VersionDag) (cs stack : List JsString) (p : JsString)
    → IsIn (push_parents dag cs stack) p
    → ((c : JsString) × IsIn cs c × IsIn (parents_of dag c) p) ⊎ IsIn stack p
unfolding push_parents
IsIn-push_parents dag [] stack p m = inr m
IsIn-push_parents dag (c ∷ cs) stack p m = elim (IsIn-push_parents dag cs _ p m) [
  | inl (c', k, n) ↦ inl (c', IsIn-tail c cs c' k, n)
  | inr k ↦ elim (IsIn-push_all (parents_of dag c) stack p k) [
    | inl n ↦ inl (c, IsIn-head c cs, n)
    | inr k' ↦ inr k'
  ]
]

IsIn-push_parents_stack :
    (dag : VersionDag) (cs stack : List JsString) (p : JsString)
    → IsIn stack p
    → IsIn (push_parents dag cs stack) p
unfolding push_parents
IsIn-push_parents_stack dag [] stack p m = m
IsIn-push_parents_stack dag (c ∷ cs) stack p m =
    IsIn-push_parents_stack dag cs _ p
      (ground (arith, contains-push_all (parents_of dag c) stack p))

IsIn-push_parents_of :
    (dag : VersionDag) (cs stack : List JsString) (p c : JsString)
    → IsIn cs c
    → IsIn (parents_of dag c) p
    → IsIn (push_parents dag cs stack) p
unfolding push_parents
IsIn-push_parents_of dag [] stack p c k n = cc (not_in_nil c)
IsIn-push_parents_of dag (x ∷ cs) stack p c k n = elim (IsIn-cons x cs c k) [
  | inl e ↦
      let n' : IsIn (parents_of dag x) p = rw e at n in
      IsIn-push_parents_stack dag cs _ p
        (ground (arith, contains-push_all (parents_of dag x) stack p))
  | inr k' ↦ IsIn-push_parents_of dag cs _ p c k' n
]

-- What the dominance walk marks.
abbrev pub dominated : VersionDag → List JsString → List JsString
dominated dag cs = walk_from dag (push_parents dag cs [])

pub IsIn-dominated_iff :
    (dag : VersionDag) (a b m : JsString)
    → IsIn (dominated dag (common dag a b)) m ↔ Dominated dag a b m
IsIn-dominated_iff dag a b m = (
  λ k.
      let (p, n, h) = walk_from_sound dag _ m k in
      elim (IsIn-push_parents dag (common dag a b) [] p n) [
        | inl (c, k', n') ↦ (c, p, (IsIn-common_iff dag a b c).0 k', n', h)
        | inr n' ↦ cc (not_in_nil p)
      ],
  λ (c, p, k, n, h).
      walk_from_complete dag _ m p
        (IsIn-push_parents_of dag (common dag a b) [] p c ((IsIn-common_iff dag a b c).1 k) n) h,
)
