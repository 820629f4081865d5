-- ===== src/Dag/Ancestor.antt =====
-- `ancestors` and `isAncestor` of src/core/version-dag.ts against reachability.
use opsblobs_obsidian.Base.{
  ℕ, zero, suc, ◌+◌, ◌≤◌, ◌≡◌, ◌≢◌, refl, ◌↔◌, str_dec, inl, inr, JsString, true, false, none, some,
  List, [], ◌∷◌, arith, if◌then◌else◌, contains, add, contains-add,
}
use opsblobs_obsidian.Dag.{
  VersionDag, parents_of, push_all, walk, walk_from, ancestors, scan_parents, search_up,
  is_ancestor, edge_count,
}
use opsblobs_obsidian.Dag.Walk.{
  IsIn, IsIn-cons, IsIn-head, not_in_nil, work, work_step, contains-push_all, walk_covers,
  walk_from_covers, walk_from_closed, walk_from_keeps, unseen_edges-nil,
}
use opsblobs_obsidian.Dag.Reach.{Ancestor, here, Ancestor-parent, Ancestor-closed}

-- What a walk from a stack returns: the ancestors of what was on it.
pub walk_from_sound :
    (dag : VersionDag) (stack : List JsString) (v : JsString)
    → IsIn (walk_from dag stack) v
    → (s : JsString) × IsIn stack s × Ancestor dag v s
walk_from_sound dag stack =
    walk_from_keeps dag stack (λ v. (s : JsString) × IsIn stack s × Ancestor dag v s)
      (λ v p h m. (h.0, h.1, Ancestor-parent dag v p m h.2)) (λ v m. (v, m, here))

pub walk_from_complete :
    (dag : VersionDag) (stack : List JsString) (v s : JsString)
    → IsIn stack s
    → Ancestor dag v s
    → IsIn (walk_from dag stack) v
walk_from_complete dag stack v s m h =
    Ancestor-closed dag (IsIn (walk_from dag stack)) (walk_from_closed dag stack) v h
      (walk_from_covers dag stack s m)

pub IsIn-ancestors_iff :
    (dag : VersionDag) (a v : JsString) → IsIn (ancestors dag v) a ↔ Ancestor dag a v
unfolding ancestors
IsIn-ancestors_iff dag a v = (
  λ m.
      let (s, k, h) = walk_from_sound dag (v ∷ []) a m in
      elim (IsIn-cons v [] s k) [ inl e ↦ rw e at h | inr k' ↦ cc (not_in_nil s) ],
  λ h. walk_from_complete dag (v ∷ []) a v (IsIn-head v []) h,
)

-- The inner loop returns early exactly when the target is among the parents.
scan_parents_lem :
    (target : JsString) (ps stack : List JsString)
    → scan_parents target ps stack ≡ (if contains ps target then none else some (push_all ps stack))
unfolding scan_parents contains push_all
scan_parents_lem target [] stack = refl
scan_parents_lem target (p ∷ ps) stack = ground (arith, scan_parents_lem target ps (p ∷ stack))

-- The search agrees with the plain walk, for a target that it has not met yet.
search_up_lem :
    (dag : VersionDag) (target : JsString) (fuel : ℕ) (seen stack : List JsString)
    → work dag seen stack ≤ fuel
    → contains seen target ≡ false
    → contains stack target ≡ false
    → search_up dag target fuel seen stack ≡ contains (walk dag fuel seen stack) target
unfolding search_up walk contains
search_up_lem dag target zero seen stack w hs hk = cc
search_up_lem dag target (suc fuel) seen [] w hs hk = cc
search_up_lem dag target (suc fuel) seen (cur ∷ stack) w hs hk =
    let next = push_all (parents_of dag cur) stack in
    ground (
      arith,
      scan_parents_lem target (parents_of dag cur) stack,
      search_up_lem dag target fuel seen stack,
      search_up_lem dag target fuel (add seen cur) next,
      walk_covers dag fuel (add seen cur) next target,
      work_step dag seen stack cur,
      contains-add seen cur target,
      contains-push_all (parents_of dag cur) stack target,
    )

not_in_one : (a v : JsString) → a ≢ v → contains (v ∷ []) a ≡ false
unfolding contains
not_in_one a v h = ground arith

search_from :
    (dag : VersionDag) (a v : JsString)
    → a ≢ v
    → search_up dag a (1 + edge_count dag) [] (v ∷ []) ≡ contains (ancestors dag v) a
unfolding ancestors walk_from
search_from dag a v h =
    search_up_lem dag a _ [] (v ∷ []) (omega (arith, unseen_edges-nil dag)) (not_in_nil a)
      (not_in_one a v h)

is_ancestor_lem :
    (dag : VersionDag) (a v : JsString) → is_ancestor dag a v ≡ contains (ancestors dag v) a
unfolding is_ancestor
is_ancestor_lem dag a v = elim (str_dec a v) [
  | yes e ↦ rw e (ground (arith, (IsIn-ancestors_iff dag v v).1 here))
  | no n ↦ ground (arith, search_from dag a v n)
]

-- `isAncestor` answers true exactly when the first version is the second or is reachable from it
-- along parent links, on every graph, cyclic ones included.
pub is_ancestor_iff :
    (dag : VersionDag) (a v : JsString) → (is_ancestor dag a v ≡ true) ↔ Ancestor dag a v
is_ancestor_iff dag a v = rw (is_ancestor_lem dag a v) (IsIn-ancestors_iff dag a v)
