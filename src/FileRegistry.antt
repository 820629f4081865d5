-- ===== src/FileRegistry.antt =====
-- src/core/file-registry.ts: the registry of file identities and its persistence, a snapshot with an
-- append-only journal. The state is the class's private fields and the injected store. `JSON` on the
-- two kinds of text is a parameter; a text that `JSON.parse` refuses is `none`, and no line of the
-- journal is taken to be the JSON `null`. `ensureDir` changes nothing that the store shows. The
-- performance counters are left out. Each operation is one step: nothing else runs while it awaits the
-- store.
pub mod Json
pub mod Mutations
pub mod Reconcile
pub mod Queries
pub mod Journal
pub mod Durable
pub mod Saving
pub mod Editing
pub mod Syncing
pub mod Sessions
pub mod Calls
pub mod Interrupted
pub mod Reachable
pub mod Tombstones
pub mod Index
pub mod Indexing
pub mod Loading
pub mod Adopting
pub mod Rebuilding
pub mod Tracking
pub mod Torn
pub mod KeepSet
mod Codec
mod Tests
use opsblobs_obsidian.Base.{
  ℕ, ◌+◌, ◌*◌, max, JsString, Bool, true, false, not, ◌&&◌, ◌||◌, Option, none, some, List, [], ◌∷◌,
  ◌++◌, ltb, ◌==◌, ◌===◌, if◌then◌else◌, codes, length, contains, add, lookup, insert, erase,
  map_from,
}
use opsblobs_obsidian.Lines.{split_lf}
use opsblobs_obsidian.Vault.{FileEntry}
use opsblobs_obsidian.Metadata.{
  MetadataStore, read, write, append, remove_existing, text_or_empty, is_some,
}
use opsblobs_obsidian.FileRegistry.Json.{RegistryJson, JournalRecord, deletion, upsert, other_value}

abbrev pub registry_path : JsString
registry_path = codes ".opsblobs/file-registry.json"

abbrev pub registry_journal_path : JsString
registry_journal_path = codes ".opsblobs/file-registry.journal"

-- `deferSave`, `dirtyIds` and the accounting of the journal stand as in the class.
pub record FileRegistry : Type 0 where
  pub entries : List (JsString × FileEntry)
  pub path_index : List (JsString × JsString)
  pub defer_save : Bool
  pub dirty_ids : List JsString
  pub journal_bytes : ℕ
  pub journal_records : ℕ
  pub snapshot_bytes : ℕ
  pub metadata : MetadataStore

-- `MIN_TOMBSTONE_RETENTION_MS`
abbrev pub min_tombstone_retention_ms : ℕ
min_tombstone_retention_ms = 30 * 86_400_000

-- The setting in days; `none` where it is no finite number.
unfoldable pub tombstone_retention_ms : Option ℕ → ℕ
tombstone_retention_ms none = min_tombstone_retention_ms
tombstone_retention_ms (some days) = max (days * 86_400_000) min_tombstone_retention_ms

pub record TombstoneReclaim : Type 0 where
  pub now : ℕ
  pub pinned : List JsString

-- The guards of the loop of `reclaimTombstones`. `wallTime > now - retention` is tested with the
-- retention on the other side, since a difference on ℕ stops at 0.
unfoldable pub reclaimable : Option ℕ → TombstoneReclaim → JsString → FileEntry → Bool
unfolding tombstone_retention_ms
reclaimable days reclaim id e =
    e.deleted
    && not (is_some e.conflict_parents)
    && not (contains reclaim.pinned id)
    && not (ltb reclaim.now (e.hlc_timestamp.wall_time + tombstone_retention_ms days))

-- `if (this.pathIndex.get(path) === id) this.pathIndex.delete(path)`
abbrev pub unindex_own :
    Option JsString → JsString → JsString → List (JsString × JsString) → List (JsString × JsString)
unindex_own none id path index = index
unindex_own (some j) id path index = if j === id then erase path index else index

-- The entries that stay, the index and the count of the dropped ones.
unfoldable pub reclaim_loop :
    Option ℕ
    → TombstoneReclaim
    → List (JsString × FileEntry)
    → List (JsString × JsString)
    → List (JsString × FileEntry) × List (JsString × JsString) × ℕ
unfolding reclaimable
reclaim_loop days reclaim [] index = ([], index, 0)
reclaim_loop days reclaim ((id, e) ∷ entries) index =
    let drop_it : Bool = reclaimable days reclaim id e in
    let rest =
      reclaim_loop days reclaim entries
        (if drop_it then unindex_own (lookup e.path index) id e.path index else index) in
    if drop_it then (rest.0, rest.1, rest.2 + 1) else ((id, e) ∷ rest.0, rest.1, rest.2)

unfoldable pub reclaim_tombstones : Option ℕ → TombstoneReclaim → FileRegistry → FileRegistry × ℕ
unfolding reclaim_loop
reclaim_tombstones days reclaim r =
    let done = reclaim_loop days reclaim r.entries r.path_index in
    (record r { entries = done.0; path_index = done.1 }, done.2)

unfoldable pub should_compact : FileRegistry → Bool
should_compact r =
    ltb r.snapshot_bytes r.journal_bytes || ltb (max 1000 (2 * length r.entries)) r.journal_records

-- `rebuildPathIndex`
unfoldable pub rebuild_loop :
    List (JsString × FileEntry) → List (JsString × JsString) → List (JsString × JsString)
rebuild_loop [] index = index
rebuild_loop ((id, e) ∷ entries) index =
    rebuild_loop entries (if e.deleted then index else insert e.path id index)

unfoldable pub rebuild_path_index : FileRegistry → FileRegistry
unfolding rebuild_loop
rebuild_path_index r = record r { path_index = rebuild_loop r.entries [] }

-- What a journal line does to the entries.
unfoldable pub apply_record :
    Option JournalRecord → List (JsString × FileEntry) → List (JsString × FileEntry)
apply_record none entries = entries
apply_record (some (deletion id)) entries = erase id entries
apply_record (some (upsert e)) entries = insert e.id e entries
apply_record (some other_value) entries = entries

unfoldable pub mark_dirty : JsString → FileRegistry → FileRegistry
mark_dirty id r = record r { dirty_ids = add r.dirty_ids id }

-- What `flush` journals for an id, read off the live entries.
unfoldable pub record_of : List (JsString × FileEntry) → JsString → JournalRecord
record_of entries id = elim (lookup id entries) [ none ↦ deletion id | some e ↦ upsert e ]

-- The constructor.
unfoldable pub new_registry : MetadataStore → FileRegistry
new_registry store = record {
  entries = [];
  path_index = [];
  defer_save = false;
  dirty_ids = [];
  journal_bytes = 0;
  journal_records = 0;
  snapshot_bytes = 0;
  metadata = store;
}

-- `resetAll`
unfoldable pub reset_all : FileRegistry → FileRegistry
reset_all r = record {
  entries = [];
  path_index = [];
  defer_save = r.defer_save;
  dirty_ids = [];
  journal_bytes = 0;
  journal_records = 0;
  snapshot_bytes = 0;
  metadata = remove_existing (remove_existing r.metadata registry_path) registry_journal_path;
}

unfoldable pub suspend_saves : FileRegistry → FileRegistry
suspend_saves r = record r { defer_save = true }

unfoldable pub resume_saves : FileRegistry → FileRegistry
resume_saves r = record r { defer_save = false }

module _ (json : RegistryJson) where
  -- An empty line is skipped before it is parsed.
  unfoldable pub line_record : JsString → Option JournalRecord
  line_record [] = none
  line_record (c ∷ line) = json.parse_line (c ∷ line)

  -- The loop of `load` over the lines, with its count of the records.
  unfoldable pub replay :
      List JsString → List (JsString × FileEntry) → ℕ → List (JsString × FileEntry) × ℕ
  unfolding line_record apply_record
  replay [] entries records = (entries, records)
  replay (line ∷ lines) entries records =
      let rec : Option JournalRecord = line_record line in
      replay lines (apply_record rec entries) (if is_some rec then records + 1 else records)

  -- `snapRaw ? new Map(JSON.parse(snapRaw).entries) : new Map()`
  unfoldable pub snapshot_entries : Option JsString → Option (List (JsString × FileEntry))
  snapshot_entries none = some []
  snapshot_entries (some []) = some []
  snapshot_entries (some (c ∷ raw)) = elim (json.parse_snapshot (c ∷ raw)) [
    | none ↦ none
    | some pairs ↦ some (map_from pairs [])
  ]

  -- The text that `flush` appends: a line for each dirty id.
  unfoldable pub delta_text : List (JsString × FileEntry) → List JsString → JsString
  unfolding record_of
  delta_text entries [] = []
  delta_text entries (id ∷ ids) =
      json.line_text (record_of entries id) ++ (10 ∷ delta_text entries ids)

  -- The first half of the write of `compact`; a crash may come after it.
  unfoldable pub write_snapshot : FileRegistry → FileRegistry
  write_snapshot r = record r {
    metadata = write r.metadata registry_path (json.snapshot_text r.entries);
  }

  -- The second half, and the accounting.
  unfoldable pub truncate_journal : FileRegistry → FileRegistry
  truncate_journal r = record r {
    metadata = write r.metadata registry_journal_path [];
    snapshot_bytes = length (json.snapshot_text r.entries);
    journal_bytes = 0;
    journal_records = 0;
    dirty_ids = [];
  }

  unfoldable pub fold_journal : FileRegistry × ℕ → FileRegistry
  unfolding write_snapshot truncate_journal
  fold_journal (r, dropped) =
      if r.journal_records == 0 && dropped == 0 then r else truncate_journal (write_snapshot r)

  unfoldable pub compact : Option ℕ → Option TombstoneReclaim → FileRegistry → FileRegistry
  unfolding fold_journal reclaim_tombstones
  compact days none r = fold_journal (r, 0)
  compact days (some reclaim) r = fold_journal (reclaim_tombstones days reclaim r)

  -- `flush` up to its last line, when something is dirty.
  unfoldable pub append_delta : FileRegistry → FileRegistry
  unfolding delta_text
  append_delta r =
      let delta : JsString = delta_text r.entries r.dirty_ids in
      record r {
        metadata = append r.metadata registry_journal_path delta;
        journal_bytes = r.journal_bytes + length delta;
        journal_records = r.journal_records + length r.dirty_ids;
        dirty_ids = [];
      }

  unfoldable pub compact_when_due : FileRegistry → FileRegistry
  unfolding should_compact fold_journal
  compact_when_due r = if not r.defer_save && should_compact r then fold_journal (r, 0) else r

  unfoldable pub flush : FileRegistry → FileRegistry
  unfolding append_delta compact_when_due
  flush r = if length r.dirty_ids == 0 then r else compact_when_due (append_delta r)

  -- `save()` and `save(id)`
  unfoldable pub save_all : FileRegistry → FileRegistry
  unfolding flush
  save_all r = if r.defer_save then r else flush r

  unfoldable pub save : JsString → FileRegistry → FileRegistry
  unfolding mark_dirty save_all
  save id r = save_all (mark_dirty id r)

  -- `load` up to its compaction. `none` where the snapshot's text is refused.
  unfoldable pub load_entries : FileRegistry → Option FileRegistry
  unfolding snapshot_entries replay rebuild_path_index
  load_entries r = elim (snapshot_entries (read r.metadata registry_path)) [
    | none ↦ none
    | some entries ↦
        let journal : JsString = text_or_empty (read r.metadata registry_journal_path) in
        let done : List (JsString × FileEntry) × ℕ = replay (split_lf journal) entries 0 in
        some (
          rebuild_path_index (record {
            entries = done.0;
            path_index = r.path_index;
            defer_save = r.defer_save;
            dirty_ids = [];
            journal_bytes = length journal;
            journal_records = done.1;
            snapshot_bytes = length (text_or_empty (read r.metadata registry_path));
            metadata = r.metadata;
          }))
  ]

  unfoldable pub maybe_compact_on_load : FileRegistry → FileRegistry
  unfolding should_compact fold_journal
  maybe_compact_on_load r =
      if ltb 0 r.journal_records && should_compact r then fold_journal (r, 0) else r

  unfoldable pub load : FileRegistry → Option FileRegistry
  unfolding load_entries maybe_compact_on_load
  load r = elim (load_entries r) [ none ↦ none | some loaded ↦ some (maybe_compact_on_load loaded) ]
