-- ===== src/FileRegistry/KeepSet/Tests.antt =====
-- Concrete runs of `referencedHashes` of src/core/file-registry.ts.
use opsblobs_obsidian.Base.{
  Bool, true, arith, ◌≡◌, ◌↔◌, refl, JsString, false, none, some, [], ◌∷◌, codes, add, contains,
  lookup, str_dec,
}
use opsblobs_obsidian.Hlc.{Hlc}
use opsblobs_obsidian.Dag.{
  VersionDag, fresh_node, merge_base, base, base_among, ancestors, common_of, walk_from, walk,
  push_all, push_parents, parents_of, edge_count, pick_base,
}
use opsblobs_obsidian.Dag.Walk.{IsIn}
use opsblobs_obsidian.Dag.Content.{misses}
use opsblobs_obsidian.Dag.Content.Generation.{hash_of}
use opsblobs_obsidian.Vault.{FileEntry}
use opsblobs_obsidian.FileRegistry.{FileRegistry}
use opsblobs_obsidian.FileRegistry.Mutations.{new_entry}
use opsblobs_obsidian.FileRegistry.KeepSet.{referenced_hashes}
use opsblobs_obsidian.FileRegistry.KeepSet.Needed.{
  Needs, referenced_hashes_iff, referenced_hashes-merge_base,
}

abbrev stamp : Hlc
stamp = record { wall_time = 5; counter = 0; device_id = codes "d" }

abbrev edited : FileEntry
edited = record (new_entry (codes "u1") (codes "n.md") (codes "h2") stamp) {
  head_version_id = some (codes "v2");
}

abbrev tracked : FileRegistry
tracked = record {
  entries = (codes "u1", edited) ∷ [];
  path_index = (codes "n.md", codes "u1") ∷ [];
  defer_save = false;
  dirty_ids = [];
  journal_bytes = 0;
  journal_records = 0;
  snapshot_bytes = 0;
  metadata = [];
}

-- `v2` is ours and `v3` the peer's, both made from `v1`.
abbrev graph : VersionDag
graph =
    (codes "v1", fresh_node (codes "h1") (codes "u1"))
    ∷ (
      codes "v2",
      record { parents = codes "v1" ∷ []; content_hash = codes "h2"; file_id = codes "u1" },
    )
    ∷ (
      codes "v3",
      record { parents = codes "v1" ∷ []; content_hash = codes "h3"; file_id = codes "u1" },
    )
    ∷ []

referenced_hashes_iff_example :
    IsIn
      (referenced_hashes tracked (some graph) (record { has = none; max_depth = none }))
      (codes "h1")
    ↔ ((id : JsString) × (e : FileEntry) × (lookup id tracked.entries ≡ some e)
        × Needs graph none e (codes "h1"))
unfolding lookup
referenced_hashes_iff_example = referenced_hashes_iff graph none tracked (codes "h1") (refl, tt)

is_base : merge_base graph (codes "v2") (codes "v3") ≡ base (codes "v1")
unfolding merge_base base_among ancestors common_of walk_from walk push_all push_parents parents_of
    edge_count pick_base lookup contains add str_dec
is_base = refl

-- The store holds every blob.
abbrev has_stored : JsString → Bool
has_stored hash = true

referenced_hashes-merge_base_example :
    IsIn
      (referenced_hashes tracked (some graph) (record { has = some has_stored; max_depth = none }))
      (hash_of graph (codes "v1"))
unfolding lookup str_dec misses
referenced_hashes-merge_base_example =
    referenced_hashes-merge_base graph (some has_stored) tracked (codes "u1") (codes "v2")
      (codes "v3") (codes "v1") edited (refl, tt) refl refl refl refl is_base refl
      (λ u h k. ground arith)
