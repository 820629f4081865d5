-- ===== src/ConflictInventory/Tests.antt =====
-- A run of src/core/conflict-inventory.ts.
use opsblobs_obsidian.Base.{JsString, codes, ◌↔◌, false, Option, none, some, List, [], ◌∷◌}
use opsblobs_obsidian.Vault.{FileEntry}
use opsblobs_obsidian.ConflictInventory.{ConflictListItem, list_two_headed_conflicts}
use opsblobs_obsidian.ConflictInventory.Listing.{
  PathSorted, Listed, Yields, list_two_headed_conflicts_iff,
}

abbrev entry : JsString → JsString → Option (List JsString) → FileEntry
entry id path parents = record {
  id = id;
  path = path;
  content_hash = codes "h";
  hlc_timestamp = record { wall_time = 1; counter = 0; device_id = codes "d" };
  deleted = false;
  last_synced_path = none;
  head_version_id = none;
  conflict_parents = parents;
  mtime = none;
  size = none;
}

abbrev entries : List FileEntry
entries =
    entry (codes "1") (codes "z.md") (some (codes "v1" ∷ codes "v2" ∷ []))
    ∷ entry (codes "2") (codes "m.md") none
    ∷ entry (codes "3") (codes "a.md") (some (codes "v3" ∷ codes "v4" ∷ []))
    ∷ []

list_two_headed_conflicts_iff_example :
    PathSorted (list_two_headed_conflicts entries)
    × ((item : ConflictListItem)
        → Listed item (list_two_headed_conflicts entries) ↔ Yields entries item)
list_two_headed_conflicts_iff_example = list_two_headed_conflicts_iff entries
