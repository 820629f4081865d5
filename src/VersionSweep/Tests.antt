-- ===== src/VersionSweep/Tests.antt =====
-- A concrete run of the scheduled sweep.
use opsblobs_obsidian.Base.{
  length, ◌<◌, true, ◌≡◌, refl, inl, false, some, List, [], ◌∷◌, codes, lookup, str_dec,
}
use opsblobs_obsidian.Hlc.{Hlc}
use opsblobs_obsidian.Dag.{VersionDag, fresh_node, merge_base}
use opsblobs_obsidian.Vault.{FileEntry, Operation, update}
use opsblobs_obsidian.FileRegistry.{FileRegistry}
use opsblobs_obsidian.FileRegistry.Mutations.{new_entry}
use opsblobs_obsidian.VersionSweep.{
  by_entry, by_pending, sweep_version_dag, merge_base-sweep_version_dag,
}

abbrev stamp : Hlc
stamp = record { wall_time = 5; counter = 0; device_id = codes "d" }

abbrev with_head : FileEntry
with_head = record (new_entry (codes "u1") (codes "n.md") (codes "h1") stamp) {
  head_version_id = some (codes "v1");
}

abbrev tracked : FileRegistry
tracked = record {
  entries = (codes "u1", with_head) ∷ [];
  path_index = (codes "n.md", codes "u1") ∷ [];
  defer_save = false;
  dirty_ids = [];
  journal_bytes = 0;
  journal_records = 0;
  snapshot_bytes = 0;
  metadata = [];
}

abbrev pending : List Operation
pending =
    record {
      v = 1;
      id = codes "v2";
      hlc_timestamp = stamp;
      file_id = codes "u1";
      type = update;
      path = codes "n.md";
      content_hash = codes "h2";
      parents = codes "v1" ∷ [];
    }
    ∷ []

-- `v3` is named by nothing.
abbrev graph : VersionDag
graph =
    (codes "v1", fresh_node (codes "h1") (codes "u1"))
    ∷ (
      codes "v2",
      record { parents = codes "v1" ∷ []; content_hash = codes "h2"; file_id = codes "u1" },
    )
    ∷ (codes "v3", fresh_node (codes "h3") (codes "u2"))
    ∷ []

merge_base-sweep_version_dag_example :
    (merge_base (sweep_version_dag tracked pending graph).0 (codes "v1") (codes "v2")
      ≡ merge_base graph (codes "v1") (codes "v2"))
    × ((sweep_version_dag tracked pending graph).1 ≡ true
        → length (sweep_version_dag tracked pending graph).0 < length graph)
    × ((sweep_version_dag tracked pending graph).1 ≡ false
        → (sweep_version_dag tracked pending graph).0 ≡ graph)
unfolding lookup str_dec
merge_base-sweep_version_dag_example =
    merge_base-sweep_version_dag tracked pending graph (codes "v1") (codes "v2") refl refl
      (by_entry (codes "u1") with_head refl (inl refl)) (by_pending (inl refl))
