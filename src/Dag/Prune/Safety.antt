-- ===== src/Dag/Prune/Safety.antt =====
-- The guards of `sweepToRoots` (src/core/version-dag.ts).
use opsblobs_obsidian.Base.{
  ◌+◌, ◌<◌, ◌≡◌, refl, inl, inr, JsString, true, false, List, [], ◌∷◌, arith, Bool-cases,
}
use opsblobs_obsidian.Dag.{
  VersionDag, truthy, has, size, delete_unkept, keep_set, prune, any_present, sweep_to_roots,
}
use opsblobs_obsidian.Dag.Walk.{IsIn, IsIn-head, IsIn-tail}
use opsblobs_obsidian.Dag.Reach.{here}
use opsblobs_obsidian.Dag.Prune.{keep_set_iff}

-- The count that `prune` returns is the number of nodes that the graph has lost.
delete_unkept_count :
    (keep : List JsString) (dag : VersionDag)
    → size (delete_unkept keep dag).0 + (delete_unkept keep dag).1 ≡ size dag
unfolding delete_unkept
delete_unkept_count keep [] = omega arith
delete_unkept_count keep ((k, node) ∷ dag) = ground (arith, delete_unkept_count keep dag)

prune_count :
    (dag : VersionDag) (roots : List JsString)
    → size (prune dag roots).0 + (prune dag roots).1 ≡ size dag
unfolding prune
prune_count dag roots = delete_unkept_count (keep_set dag roots) dag

kept_stays :
    (keep : List JsString) (dag : VersionDag) (v : JsString)
    → has dag v ≡ true
    → IsIn keep v
    → 0 < size (delete_unkept keep dag).0
unfolding delete_unkept has
kept_stays keep [] v h k = cc
kept_stays keep ((j, node) ∷ dag) v h k = ground (arith, kept_stays keep dag v)

find_anchor :
    (dag : VersionDag) (roots : List JsString)
    → any_present dag roots ≡ true
    → (r : JsString) × IsIn roots r × (has dag r ≡ true)
unfolding any_present
find_anchor dag [] h = cc
find_anchor dag (r ∷ roots) h = elim (Bool-cases (has dag r)) [
  | inl here' ↦ (r, IsIn-head r roots, here')
  | inr gone ↦ let (s, m, k) = find_anchor dag roots (ground arith) in (s, IsIn-tail r roots s m, k)
]

has-truthy :
    (dag : VersionDag) (v : JsString) → has dag [] ≡ false → has dag v ≡ true → truthy v ≡ true
has-truthy dag [] n h = cc
has-truthy dag (c ∷ v) n h = refl

anchored_sweep :
    (dag : VersionDag) (roots : List JsString)
    → has dag [] ≡ false
    → any_present dag roots ≡ true
    → 0 < size (prune dag roots).0
unfolding prune
anchored_sweep dag roots n h =
    let (r, m, k) = find_anchor dag roots h in
    kept_stays (keep_set dag roots) dag r k
      ((keep_set_iff dag roots r).1 (r, (m, has-truthy dag r n k), here))

-- A sweep of a graph with nodes, none of them under the empty id, leaves nodes, whatever the roots
-- are; and the count that it returns is the number of nodes that went away.
pub sweep_to_roots_safe :
    (dag : VersionDag) (roots : List JsString)
    → has dag [] ≡ false
    → 0 < size dag
    → (0 < size (sweep_to_roots dag roots).0)
      × (size (sweep_to_roots dag roots).0 + (sweep_to_roots dag roots).1 ≡ size dag)
unfolding sweep_to_roots
sweep_to_roots_safe dag roots n h =
    ground (arith, anchored_sweep dag roots n, prune_count dag roots)
