-- ===== src/Dag/Walk.antt =====
-- The upward walk of src/core/version-dag.ts: its fuel, and the set that it returns.
use opsblobs_obsidian.Base.{
  ℕ, zero, suc, ◌+◌, ◌≤◌, ◌<◌, ◌≡◌, refl, ◌⊎◌, inl, inr, JsString, true, false, ◌||◌, List, [], ◌∷◌,
  arith, if◌then◌else◌, length, contains, add, lookup, contains-add, Bool-cases,
}
use opsblobs_obsidian.Dag.{VersionDag, parents_of, push_all, walk, edge_count, walk_from}

-- The edges that a walk can still push: those of nodes that it has not seen.
pub unseen_edges : VersionDag → List JsString → ℕ
unseen_edges [] seen = 0
unseen_edges ((k, node) ∷ dag) seen =
    (if contains seen k then 0 else length node.parents) + unseen_edges dag seen

pub unseen_edges-nil : (dag : VersionDag) → unseen_edges dag [] ≡ edge_count dag
unfolding unseen_edges edge_count contains
unseen_edges-nil [] = refl
unseen_edges-nil ((k, node) ∷ dag) = omega (arith, unseen_edges-nil dag)

unseen_edges-add-le :
    (dag : VersionDag) (seen : List JsString) (v : JsString)
    → unseen_edges dag (add seen v) ≤ unseen_edges dag seen
unfolding unseen_edges
unseen_edges-add-le [] seen v = omega arith
unseen_edges-add-le ((k, node) ∷ dag) seen v =
    ground (arith, unseen_edges-add-le dag seen v, contains-add seen v k)

-- Seeing a version pays for the edges that it pushes.
pub unseen_edges-add :
    (dag : VersionDag) (seen : List JsString) (v : JsString)
    → contains seen v ≡ false
    → unseen_edges dag (add seen v) + length (parents_of dag v) ≤ unseen_edges dag seen
unfolding unseen_edges parents_of lookup
unseen_edges-add [] seen v h = omega arith
unseen_edges-add ((k, node) ∷ dag) seen v h =
    ground
      (arith, unseen_edges-add dag seen v h, contains-add seen v k, unseen_edges-add-le dag seen v)

pub length-push_all :
    (ps stack : List JsString) → length (push_all ps stack) ≡ length ps + length stack
unfolding push_all
length-push_all [] stack = omega arith
length-push_all (p ∷ ps) stack = omega (arith, length-push_all ps (p ∷ stack))

pub contains-push_all :
    (ps stack : List JsString) (v : JsString)
    → contains (push_all ps stack) v ≡ (contains ps v || contains stack v)
unfolding push_all contains
contains-push_all [] stack v = refl
contains-push_all (p ∷ ps) stack v = ground (arith, contains-push_all ps (p ∷ stack) v)

-- How many rounds a walk still needs at most.
abbrev pub work : VersionDag → List JsString → List JsString → ℕ
work dag seen stack = length stack + unseen_edges dag seen

pub work_step :
    (dag : VersionDag) (seen stack : List JsString) (cur : JsString)
    → contains seen cur ≡ false
    → work dag (add seen cur) (push_all (parents_of dag cur) stack) < work dag seen (cur ∷ stack)
work_step dag seen stack cur h =
    omega (arith, unseen_edges-add dag seen cur h, length-push_all (parents_of dag cur) stack)

abbrev pub IsIn : List JsString → JsString → Type 0
IsIn xs v = contains xs v ≡ true

pub not_in_nil : (v : JsString) → contains [] v ≡ false
unfolding contains
not_in_nil v = refl

pub IsIn-head : (x : JsString) (xs : List JsString) → IsIn (x ∷ xs) x
unfolding contains
IsIn-head x xs = ground arith

pub IsIn-tail : (x : JsString) (xs : List JsString) (v : JsString) → IsIn xs v → IsIn (x ∷ xs) v
unfolding contains
IsIn-tail x xs v m = ground arith

pub IsIn-cons :
    (x : JsString) (xs : List JsString) (v : JsString) → IsIn (x ∷ xs) v → (v ≡ x) ⊎ IsIn xs v
unfolding contains
IsIn-cons x xs v m = ground arith

pub IsIn-add : (xs : List JsString) (k v : JsString) → IsIn (add xs k) v → (v ≡ k) ⊎ IsIn xs v
IsIn-add xs k v m = ground (arith, contains-add xs k v)

pub IsIn-push_all :
    (ps stack : List JsString) (v : JsString)
    → IsIn (push_all ps stack) v
    → IsIn ps v ⊎ IsIn stack v
IsIn-push_all ps stack v m = ground (arith, contains-push_all ps stack v)

-- What holds of all seen and pending versions, and goes over to parents, holds of the result.
pub walk_keeps {ℓ} :
    (dag : VersionDag) (P : JsString → Type ℓ)
    → ((v p : JsString) → P v → IsIn (parents_of dag v) p → P p)
    → (fuel : ℕ) (seen stack : List JsString) → ((v : JsString) → IsIn seen v → P v)
    → ((v : JsString) → IsIn stack v → P v)
    → (v : JsString) → IsIn (walk dag fuel seen stack) v
    → P v
unfolding walk
walk_keeps dag P up zero seen stack hs hk v m = hs v m
walk_keeps dag P up (suc fuel) seen [] hs hk v m = hs v m
walk_keeps dag P up (suc fuel) seen (cur ∷ stack) hs hk v m =
    elim (Bool-cases (contains seen cur)) [
      | inl old ↦
          walk_keeps dag P up fuel seen stack hs (λ u n. hk u (IsIn-tail cur stack u n)) v
            (rw (old, walk) at m)
      | inr new ↦
          walk_keeps dag P up fuel (add seen cur) (push_all (parents_of dag cur) stack)
            (λ u n. elim (IsIn-add seen cur u n) [
              | inl e ↦ rw e (hk cur (IsIn-head cur stack))
              | inr n' ↦ hs u n'
            ])
            (λ u n. elim (IsIn-push_all (parents_of dag cur) stack u n) [
              | inl n' ↦ up cur u (hk cur (IsIn-head cur stack)) n'
              | inr n' ↦ hk u (IsIn-tail cur stack u n')
            ])
            v (rw (new, walk) at m)
    ]

-- Nothing seen or pending is lost.
pub walk_covers :
    (dag : VersionDag) (fuel : ℕ) (seen stack : List JsString) (v : JsString)
    → work dag seen stack ≤ fuel
    → (contains seen v || contains stack v) ≡ true
    → IsIn (walk dag fuel seen stack) v
unfolding walk contains
walk_covers dag zero seen [] v w m = ground arith
walk_covers dag zero seen (x ∷ stack) v w m = absurd (omega arith)
walk_covers dag (suc fuel) seen [] v w m = ground arith
walk_covers dag (suc fuel) seen (cur ∷ stack) v w m = ground (
  arith,
  walk_covers dag fuel seen stack v,
  walk_covers dag fuel (add seen cur) (push_all (parents_of dag cur) stack) v,
  work_step dag seen stack cur,
  contains-add seen cur v,
  contains-push_all (parents_of dag cur) stack v,
)

-- Parents of seen versions are seen or pending.
abbrev pub IsFrontier : VersionDag → List JsString → List JsString → Type 0
IsFrontier dag seen stack =
    (v p : JsString)
    → IsIn seen v
    → IsIn (parents_of dag v) p
    → (contains seen p || contains stack p) ≡ true

skip-IsFrontier :
    (dag : VersionDag) (seen stack : List JsString) (cur : JsString)
    → IsIn seen cur
    → IsFrontier dag seen (cur ∷ stack)
    → IsFrontier dag seen stack
unfolding contains
skip-IsFrontier dag seen stack cur old f v p m n = ground (arith, f v p m n)

step-IsFrontier :
    (dag : VersionDag) (seen stack : List JsString) (cur : JsString)
    → IsFrontier dag seen (cur ∷ stack)
    → IsFrontier dag (add seen cur) (push_all (parents_of dag cur) stack)
unfolding contains
step-IsFrontier dag seen stack cur f v p m n = elim (IsIn-add seen cur v m) [
  | inl e ↦
      let n' : IsIn (parents_of dag cur) p = rw e at n in
      ground (arith, contains-push_all (parents_of dag cur) stack p)
  | inr m' ↦
      ground
        (arith, f v p m' n, contains-add seen cur p, contains-push_all (parents_of dag cur) stack p)
]

-- With enough fuel the result is closed under parents: the walk ended with nothing pending.
pub walk_closed :
    (dag : VersionDag) (fuel : ℕ) (seen stack : List JsString)
    → work dag seen stack ≤ fuel
    → IsFrontier dag seen stack
    → (v p : JsString) → IsIn (walk dag fuel seen stack) v
    → IsIn (parents_of dag v) p
    → IsIn (walk dag fuel seen stack) p
unfolding walk
walk_closed dag zero seen [] w f v p m n = ground (arith, f v p m n, not_in_nil p)
walk_closed dag zero seen (x ∷ stack) w f v p m n = absurd (omega arith)
walk_closed dag (suc fuel) seen [] w f v p m n = ground (arith, f v p m n, not_in_nil p)
walk_closed dag (suc fuel) seen (cur ∷ stack) w f v p m n = elim (Bool-cases (contains seen cur)) [
  | inl old ↦
      rw (old, walk)
        (walk_closed dag fuel seen stack (omega arith) (skip-IsFrontier dag seen stack cur old f) v
          p (rw (old, walk) at m) n)
  | inr new ↦
      rw (new, walk)
        (walk_closed dag fuel (add seen cur) (push_all (parents_of dag cur) stack)
          (omega (arith, work_step dag seen stack cur new)) (step-IsFrontier dag seen stack cur f) v
          p (rw (new, walk) at m) n)
]

-- The three facts for the walks of the source, which start with nothing seen.
module _ (dag : VersionDag) (stack : List JsString) where
  fuel_enough : work dag [] stack ≤ length stack + edge_count dag
  fuel_enough = omega (arith, unseen_edges-nil dag)

  pub walk_from_covers : (v : JsString) → IsIn stack v → IsIn (walk_from dag stack) v
  unfolding walk_from
  walk_from_covers v m = walk_covers dag _ [] stack v fuel_enough (ground (arith, not_in_nil v))

  pub walk_from_closed :
      (v p : JsString)
      → IsIn (walk_from dag stack) v
      → IsIn (parents_of dag v) p
      → IsIn (walk_from dag stack) p
  unfolding walk_from
  walk_from_closed = walk_closed dag _ [] stack fuel_enough (λ v p m n. cc (not_in_nil v))

  pub walk_from_keeps {ℓ} :
      (P : JsString → Type ℓ)
      → ((v p : JsString) → P v → IsIn (parents_of dag v) p → P p)
      → ((v : JsString) → IsIn stack v → P v)
      → (v : JsString) → IsIn (walk_from dag stack) v
      → P v
  unfolding walk_from
  walk_from_keeps P up hk = walk_keeps dag P up _ [] stack (λ v m. cc (not_in_nil v)) hk
