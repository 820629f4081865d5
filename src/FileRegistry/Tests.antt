-- ===== src/FileRegistry/Tests.antt =====
-- Concrete runs of the file registry.
use opsblobs_obsidian.Base.{
  ◌≡◌, refl, ◌↔◌, ◌⊎◌, JsString, true, false, none, some, [], ◌∷◌, ◌≤◌, ◌+◌, ◌*◌, codes, contains,
  lookup, insert, add, str_dec,
}
use opsblobs_obsidian.Hlc.{Hlc}
use opsblobs_obsidian.Vault.{FileEntry}
use opsblobs_obsidian.FileRegistry.{
  FileRegistry, TombstoneReclaim, new_registry, flush, load, compact, mark_dirty, suspend_saves,
  save, save_all,
}
use opsblobs_obsidian.FileRegistry.Codec.{codec}
use opsblobs_obsidian.FileRegistry.Mutations.{
  new_entry, deleted_entry, adopt_remote, register_file, indexed_id,
}
use opsblobs_obsidian.FileRegistry.Sessions.{
  interrupted, register_it, suspend_it, delete_it, call, called, Reached, started, stepped,
  RegistryCall,
}
use opsblobs_obsidian.FileRegistry.Reachable.{load-flush, load-crash, call-Safe, Reached-IsGood}
use opsblobs_obsidian.FileRegistry.Tombstones.{retention_days, compact_drops_iff}
use opsblobs_obsidian.FileRegistry.Index.{IsSound}
use opsblobs_obsidian.FileRegistry.Queries.{get_by_path, get_by_id}
use opsblobs_obsidian.FileRegistry.Tracking.{
  Registered, get_by_path-register_file, adopt_remote_unindexes,
}

abbrev stamp : Hlc
stamp = record { wall_time = 5; counter = 0; device_id = codes "d" }

abbrev note : JsString
note = codes "n.md"

-- Saves are suspended and a note is registered: its entry is still to be written.
abbrev register_note : RegistryCall
register_note = register_it (codes "u1") note stamp (codes "h1") none

abbrev first_run : FileRegistry
first_run = record {
  entries = (codes "u1", new_entry (codes "u1") note (codes "h1") stamp) ∷ [];
  path_index = (note, codes "u1") ∷ [];
  defer_save = true;
  dirty_ids = codes "u1" ∷ [];
  journal_bytes = 0;
  journal_records = 0;
  snapshot_bytes = 0;
  metadata = [];
}

abbrev suspended : FileRegistry
suspended = record {
  entries = [];
  path_index = [];
  defer_save = true;
  dirty_ids = [];
  journal_bytes = 0;
  journal_records = 0;
  snapshot_bytes = 0;
  metadata = [];
}

suspends : call codec suspend_it (new_registry []) ≡ some suspended
unfolding call new_registry suspend_saves
suspends = refl

registers : call codec register_note suspended ≡ some first_run
unfolding call register_file indexed_id save save_all mark_dirty lookup insert add
registers = refl

Reached-first_run : Reached codec first_run
unfolding lookup
Reached-first_run =
    stepped (stepped (started (new_registry []) refl) (called suspend_it tt suspends))
      (called register_note refl registers)

load-flush_example :
    (s : FileRegistry) × (load codec (new_registry (flush codec first_run).metadata) ≡ some s)
    × ((id : JsString) → lookup id s.entries ≡ lookup id first_run.entries)
    × (s.dirty_ids ≡ [])
load-flush_example = load-flush codec first_run Reached-first_run

abbrev reclaim_late : TombstoneReclaim
reclaim_late = record { now = 2_592_000_005; pinned = [] }

load-crash_example :
    (s t : FileRegistry) × (load codec (new_registry first_run.metadata) ≡ some s)
    × (load codec (new_registry (interrupted codec (some 7) (some reclaim_late) first_run).metadata)
        ≡ some t)
    × ((id : JsString)
        → contains first_run.dirty_ids id ≡ false
        → (lookup id s.entries ≡ lookup id first_run.entries)
          × ((lookup id t.entries ≡ lookup id first_run.entries)
              ⊎ ((lookup id t.entries ≡ none)
                  × (lookup id (compact codec (some 7) (some reclaim_late) first_run).entries
                      ≡ none))))
load-crash_example = load-crash codec (some 7) (some reclaim_late) first_run Reached-first_run

call-Safe_example :
    ((s : FileRegistry) × (call codec (delete_it note stamp) first_run ≡ some s))
    × ((path id : JsString)
        → lookup path first_run.path_index ≡ some id
        → (e : FileEntry) × (lookup id first_run.entries ≡ some e) × (e.path ≡ path) × (e.id ≡ id))
call-Safe_example = call-Safe codec (delete_it note stamp) first_run Reached-first_run tt

first_run-IsSound : IsSound first_run
first_run-IsSound = (Reached-IsGood codec Reached-first_run).1

abbrev tombstone : FileEntry
tombstone = deleted_entry stamp (new_entry (codes "u1") note (codes "h1") stamp)

abbrev with_tombstone : FileRegistry
with_tombstone = record first_run { entries = (codes "u1", tombstone) ∷ [] }

compact_drops_iff_example :
    ((lookup (codes "u1") (compact codec (some 7) (some reclaim_late) with_tombstone).entries
        ≡ none)
      ↔ ((tombstone.deleted ≡ true)
          × (tombstone.conflict_parents ≡ none)
          × (contains reclaim_late.pinned (codes "u1") ≡ false)
          × (tombstone.hlc_timestamp.wall_time + retention_days (some 7) * 86_400_000
              ≤ reclaim_late.now)))
    × ((lookup (codes "u1") (compact codec (some 7) (some reclaim_late) with_tombstone).entries
          ≡ none)
        ⊎ (lookup (codes "u1") (compact codec (some 7) (some reclaim_late) with_tombstone).entries
            ≡ some tombstone))
unfolding lookup str_dec
compact_drops_iff_example =
    compact_drops_iff codec (some 7) reclaim_late with_tombstone (codes "u1") tombstone (refl, tt)
      refl

get_by_path-register_file_example :
    (e : FileEntry) × (get_by_path
        (register_file codec (codes "u2") note stamp (codes "h2") none first_run).0
        note
      ≡ some e)
    × (get_by_id
          (register_file codec (codes "u2") note stamp (codes "h2") none first_run).0
          (register_file codec (codes "u2") note stamp (codes "h2") none first_run).1
        ≡ some e)
    × Registered codec (codes "u2") note (codes "h2") stamp none (get_by_path first_run note) e
get_by_path-register_file_example =
    get_by_path-register_file codec (codes "u2") note stamp (codes "h2") none first_run refl
      first_run-IsSound

-- A tombstone that a restart left out of the index, and a new file at its path.
abbrev recreated : FileEntry
recreated = new_entry (codes "u2") note (codes "h2") stamp

abbrev two_at_path : FileRegistry
two_at_path = record first_run {
  entries = (codes "u1", tombstone) ∷ (codes "u2", recreated) ∷ [];
  path_index = (note, codes "u2") ∷ [];
}

abbrev elsewhere : JsString
elsewhere = codes "m.md"

adopt_remote_unindexes_example :
    (get_by_id
        (adopt_remote codec (codes "u1") elsewhere (codes "h3") stamp none two_at_path)
        (codes "u2")
      ≡ some recreated)
    × (get_by_path
          (adopt_remote codec (codes "u1") elsewhere (codes "h3") stamp none two_at_path)
          note
        ≡ none)
unfolding lookup str_dec
adopt_remote_unindexes_example =
    adopt_remote_unindexes codec (codes "u1") (codes "u2") note elsewhere (codes "h3") stamp none
      two_at_path tombstone recreated refl refl refl refl refl refl refl
