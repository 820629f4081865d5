-- ===== src/VersionSweep.antt =====
-- `sweepVersionDag` of src/main.ts: the sweep of the graph of versions (src/core/version-dag.ts) to what
-- the registry (src/core/file-registry.ts) and the pending operations name. The second part of the
-- result says whether the graph is saved.
mod Tests
use opsblobs_obsidian.Base.{
  ℕ, ◌+◌, ◌<◌, ◌≡◌, refl, ◌⊎◌, inl, inr, JsString, Bool, true, false, Option, none, some, List, [],
  ◌∷◌, arith, ltb, length, if◌then◌else◌, ◌||◌, contains, lookup, Bool-cases,
}
use opsblobs_obsidian.Dag.{
  VersionDag, truthy, merge_base, sweep_to_roots, prune, delete_unkept, keep_set,
}
use opsblobs_obsidian.Dag.Walk.{IsIn, IsIn-cons, not_in_nil}
use opsblobs_obsidian.Dag.Reach.{here}
use opsblobs_obsidian.Dag.Prune.{Rooted}
use opsblobs_obsidian.Dag.Prune.Answers.{merge_base-prune}
use opsblobs_obsidian.Vault.{FileEntry, Operation}
use opsblobs_obsidian.FileRegistry.{FileRegistry}
use opsblobs_obsidian.FileRegistry.Queries.{
  add_truthy, contains-add_truthy, version_roots, version_roots-Names, Names,
}

unfoldable pub pending_roots : List Operation → List JsString → List JsString
unfolding add_truthy
pending_roots [] roots = roots
pending_roots (op ∷ ops) roots =
    pending_roots ops (add_truthy op.parents (add_truthy (op.id ∷ []) roots))

unfoldable pub sweep_version_dag : FileRegistry → List Operation → VersionDag → VersionDag × Bool
unfolding pending_roots version_roots sweep_to_roots
sweep_version_dag r pending dag =
    let swept = sweep_to_roots dag (pending_roots pending (version_roots r)) in
    (swept.0, ltb 0 swept.1)

-- A pending operation is the version or has it as a parent.
abbrev pub IsPending : List Operation → JsString → Type 0
IsPending [] v = ⊥
IsPending (op ∷ ops) v = (op.id ≡ v) ⊎ IsIn op.parents v ⊎ IsPending ops v

-- An entry names the version as its head or as an open head, or it is pending.
pub data InUse (r : FileRegistry) (pending : List Operation) (v : JsString) : Type 0 where
  by_entry :
      (id : JsString) (e : FileEntry) → lookup id r.entries ≡ some e → Names e v → InUse r pending v
  by_pending : IsPending pending v → InUse r pending v

pending_roots-keeps :
    (ops : List Operation) (roots : List JsString) (v : JsString)
    → truthy v ≡ true
    → IsIn roots v
    → IsIn (pending_roots ops roots) v
unfolding pending_roots
pending_roots-keeps [] roots v t h = h
pending_roots-keeps (op ∷ ops) roots v t h = pending_roots-keeps ops _ v t (
    ground (
      arith,
      contains-add_truthy op.parents (add_truthy (op.id ∷ []) roots) v t,
      contains-add_truthy (op.id ∷ []) roots v t,
    ))

pending_one :
    (op : Operation) (roots : List JsString) (v : JsString)
    → truthy v ≡ true
    → (op.id ≡ v) ⊎ IsIn op.parents v
    → IsIn (add_truthy op.parents (add_truthy (op.id ∷ []) roots)) v
unfolding contains
pending_one op roots v t h = ground (
  arith,
  h,
  contains-add_truthy op.parents (add_truthy (op.id ∷ []) roots) v t,
  contains-add_truthy (op.id ∷ []) roots v t,
)

pending_roots-names :
    (ops : List Operation) (roots : List JsString) (v : JsString)
    → truthy v ≡ true
    → IsPending ops v
    → IsIn (pending_roots ops roots) v
unfolding pending_roots
pending_roots-names [] roots v t h = absurd h
pending_roots-names (op ∷ ops) roots v t (inl e) =
    pending_roots-keeps ops _ v t (pending_one op roots v t (inl e))
pending_roots-names (op ∷ ops) roots v t (inr (inl m)) =
    pending_roots-keeps ops _ v t (pending_one op roots v t (inr m))
pending_roots-names (op ∷ ops) roots v t (inr (inr h)) = pending_roots-names ops _ v t h

roots-InUse :
    (r : FileRegistry) (pending : List Operation) (v : JsString)
    → truthy v ≡ true
    → InUse r pending v
    → IsIn (pending_roots pending (version_roots r)) v
roots-InUse r pending v t (by_entry id e found n) =
    pending_roots-keeps pending (version_roots r) v t (version_roots-Names r id e v found n t)
roots-InUse r pending v t (by_pending h) = pending_roots-names pending (version_roots r) v t h

delete_none :
    (keep : List JsString) (dag : VersionDag)
    → (delete_unkept keep dag).1 ≡ 0
    → (delete_unkept keep dag).0 ≡ dag
unfolding delete_unkept
delete_none keep [] e = refl
delete_none keep ((k, node) ∷ dag) e = ground (arith, delete_none keep dag)

delete_some :
    (keep : List JsString) (dag : VersionDag)
    → length (delete_unkept keep dag).0 + (delete_unkept keep dag).1 ≡ length dag
unfolding delete_unkept
delete_some keep [] = refl
delete_some keep ((k, node) ∷ dag) = ground (arith, delete_some keep dag)

swept_count :
    (dag : VersionDag) (roots : List JsString)
    → length (sweep_to_roots dag roots).0 + (sweep_to_roots dag roots).1 ≡ length dag
unfolding sweep_to_roots prune
swept_count dag roots = ground (arith, delete_some (keep_set dag roots) dag)

unswept :
    (dag : VersionDag) (roots : List JsString)
    → (sweep_to_roots dag roots).1 ≡ 0
    → (sweep_to_roots dag roots).0 ≡ dag
unfolding sweep_to_roots prune
unswept dag roots e = ground (arith, delete_none (keep_set dag roots) dag)

sweep_same :
    (dag : VersionDag) (roots : List JsString) (a b : JsString)
    → truthy a ≡ true
    → truthy b ≡ true
    → IsIn roots a
    → IsIn roots b
    → merge_base (sweep_to_roots dag roots).0 a b ≡ merge_base dag a b
unfolding sweep_to_roots
sweep_same dag roots a b ta tb ma mb =
    ground (arith, merge_base-prune dag roots a b (a, (ma, ta), here) (b, (mb, tb), here))

-- For any two versions in use, which an entry of the registry names as its head or as an open head of a
-- conflict, tombstones included, or a pending operation carries, the scheduled sweep leaves the merge
-- base as it was. It saves the graph exactly when it dropped a version: a graph that is saved has fewer
-- versions than before, and one that is not saved is unchanged.
pub merge_base-sweep_version_dag :
    (r : FileRegistry) (pending : List Operation) (dag : VersionDag) (a b : JsString)
    → truthy a ≡ true
    → truthy b ≡ true
    → InUse r pending a
    → InUse r pending b
    → (merge_base (sweep_version_dag r pending dag).0 a b ≡ merge_base dag a b)
      × ((sweep_version_dag r pending dag).1 ≡ true
          → length (sweep_version_dag r pending dag).0 < length dag)
      × ((sweep_version_dag r pending dag).1 ≡ false → (sweep_version_dag r pending dag).0 ≡ dag)
unfolding sweep_version_dag
merge_base-sweep_version_dag r pending dag a b ta tb ua ub =
    let roots : List JsString = pending_roots pending (version_roots r) in
    (
      sweep_same dag roots a b ta tb (roots-InUse r pending a ta ua)
          (roots-InUse r pending b tb ub),
      λ y. ground (arith, swept_count dag roots),
      λ n. unswept dag roots (ground arith),
    )
