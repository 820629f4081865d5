-- ===== src/FileRegistry/Mutations.antt =====
-- The mutations of src/core/file-registry.ts. `none` is the TypeError of an entry that the index names
-- and the map does not hold. The UUID that `randomUuid` returns is an argument.
use opsblobs_obsidian.Base.{
  ℕ, JsString, Bool, true, false, Option, none, some, List, ◌===◌, if◌then◌else◌, lookup, insert,
  erase,
}
use opsblobs_obsidian.Hlc.{Hlc, hlc_compare}
use opsblobs_obsidian.Base.{is_nonneg}
use opsblobs_obsidian.Hlc.Text.{hlc_to_string}
use opsblobs_obsidian.Dag.{truthy}
use opsblobs_obsidian.Vault.{FileEntry}
use opsblobs_obsidian.FileRegistry.{FileRegistry, save, mark_dirty}
use opsblobs_obsidian.FileRegistry.Json.{RegistryJson}

pub record VaultFileStat : Type 0 where
  pub mtime : ℕ
  pub size : ℕ

-- `const id = this.pathIndex.get(path)`, where `''` is no id.
unfoldable pub indexed_id : FileRegistry → JsString → Option JsString
indexed_id r path = elim (lookup path r.path_index) [
  | none ↦ none
  | some id ↦ if truthy id then some id else none
]

-- `this.entries.set(id, entry)`
abbrev pub set_entry : JsString → FileEntry → FileRegistry → FileRegistry
set_entry id e r = record r { entries = insert id e r.entries }

-- `this.pathIndex.set(path, id)`
abbrev pub set_index : JsString → JsString → FileRegistry → FileRegistry
set_index path id r = record r { path_index = insert path id r.path_index }

-- `this.pathIndex.delete(path)`
abbrev pub unset_index : JsString → FileRegistry → FileRegistry
unset_index path r = record r { path_index = erase path r.path_index }

-- `if (stat) { entry.mtime = stat.mtime; entry.size = stat.size; }`
abbrev pub with_stat : Option VaultFileStat → FileEntry → FileEntry
with_stat none e = e
with_stat (some stat) e = record e { mtime = some stat.mtime; size = some stat.size }

-- The entry of a file that is not synced yet.
abbrev pub new_entry : JsString → JsString → JsString → Hlc → FileEntry
new_entry id path content_hash hlc = record {
  id = id;
  path = path;
  content_hash = content_hash;
  hlc_timestamp = hlc;
  deleted = false;
  last_synced_path = none;
  head_version_id = none;
  conflict_parents = none;
  mtime = none;
  size = none;
}

-- The edits that `updatePath`, `updateContentHash`, `recordStat`, `markDeleted` and `markConflicted`
-- make to an entry.
abbrev pub moved_entry : JsString → Hlc → FileEntry → FileEntry
moved_entry path hlc e = record e { path = path; hlc_timestamp = hlc }

abbrev pub updated_entry : JsString → Hlc → Option VaultFileStat → FileEntry → FileEntry
updated_entry content_hash hlc stat e =
    with_stat stat (record e { content_hash = content_hash; hlc_timestamp = hlc })

abbrev pub deleted_entry : Hlc → FileEntry → FileEntry
deleted_entry hlc e = record e { deleted = true; hlc_timestamp = hlc }

abbrev pub conflicted_entry : JsString → Hlc → List JsString → FileEntry → FileEntry
conflicted_entry content_hash hlc parents e = record e {
  content_hash = content_hash;
  hlc_timestamp = hlc;
  conflict_parents = some parents;
}

abbrev pub resurrected_entry : JsString → Hlc → Option VaultFileStat → FileEntry → FileEntry
resurrected_entry content_hash hlc stat e =
    with_stat stat (record e { deleted = false; content_hash = content_hash; hlc_timestamp = hlc })

-- The entry that `adoptRemote` puts.
abbrev pub adopted_entry : JsString → JsString → JsString → Hlc → Option JsString → FileEntry
adopted_entry id path content_hash hlc head = record {
  id = id;
  path = path;
  content_hash = content_hash;
  hlc_timestamp = hlc;
  deleted = false;
  last_synced_path = some path;
  head_version_id = elim head [ none ↦ some (hlc_to_string hlc) | some v ↦ some v ];
  conflict_parents = none;
  mtime = none;
  size = none;
}

-- `existing && hlcCompare(existing.hlcTimestamp, entry.hlcTimestamp) >= 0`
unfoldable pub is_newer_or_equal : Option FileEntry → FileEntry → Bool
unfolding hlc_compare
is_newer_or_equal none e = false
is_newer_or_equal (some existing) e = is_nonneg (hlc_compare existing.hlc_timestamp e.hlc_timestamp)

-- `if (prev && prev.path !== path) this.pathIndex.delete(prev.path)`
unfoldable pub unindex_moved : Option FileEntry → JsString → FileRegistry → FileRegistry
unindex_moved none path r = r
unindex_moved (some prev) path r = if prev.path === path then r else unset_index prev.path r

-- The drop of a divergent duplicate.
unfoldable pub drop_duplicate : Option JsString → JsString → FileRegistry → FileRegistry
unfolding mark_dirty
drop_duplicate none id r = r
drop_duplicate (some existing) id r =
    if existing === id
    then r
    else mark_dirty existing (record r { entries = erase existing r.entries })

module _ (json : RegistryJson) where
  -- The tombstone at a path that is registered again is resurrected.
  unfoldable pub resurrect :
      JsString → JsString → Hlc → Option VaultFileStat → FileRegistry → FileRegistry
  unfolding save
  resurrect existing content_hash hlc stat r = elim (lookup existing r.entries) [
    | none ↦ r
    | some e ↦
        if e.deleted
        then save json existing (set_entry existing (resurrected_entry content_hash hlc stat e) r)
        else r
  ]

  unfoldable pub register_file :
      JsString
      → JsString
      → Hlc
      → JsString
      → Option VaultFileStat
      → FileRegistry
      → FileRegistry × JsString
  unfolding indexed_id resurrect save
  register_file uuid path hlc content_hash stat r = elim (indexed_id r path) [
    | some existing ↦ (resurrect existing content_hash hlc stat r, existing)
    | none ↦ (
      save json uuid (
          set_index path uuid
            (set_entry uuid (with_stat stat (new_entry uuid path content_hash hlc)) r)),
      uuid,
    )
  ]

  -- `if (!id) return; const entry = this.entries.get(id)!`, an edit of the entry, and `save(id)`.
  unfoldable pub edit_at : JsString → (FileEntry → FileEntry) → FileRegistry → Option FileRegistry
  unfolding indexed_id save
  edit_at path change r = elim (indexed_id r path) [
    | none ↦ some r
    | some id ↦ elim (lookup id r.entries) [
      | none ↦ none
      | some e ↦ some (save json id (set_entry id (change e) r))
    ]
  ]

  unfoldable pub update_path : JsString → JsString → Hlc → FileRegistry → Option FileRegistry
  unfolding indexed_id save
  update_path old_path new_path hlc r = elim (indexed_id r old_path) [
    | none ↦ some r
    | some id ↦ elim (lookup id r.entries) [
      | none ↦ none
      | some e ↦ some (
          save json id (
            set_entry id (moved_entry new_path hlc e)
              (set_index new_path id (unset_index old_path r))))
    ]
  ]

  unfoldable pub update_content_hash :
      JsString → JsString → Hlc → Option VaultFileStat → FileRegistry → Option FileRegistry
  unfolding edit_at
  update_content_hash path content_hash hlc stat =
      edit_at path (updated_entry content_hash hlc stat)

  unfoldable pub record_stat : JsString → ℕ → ℕ → FileRegistry → Option FileRegistry
  unfolding edit_at
  record_stat path mtime size =
      edit_at path (with_stat (some (record { mtime = mtime; size = size })))

  unfoldable pub mark_deleted : JsString → Hlc → FileRegistry → Option FileRegistry
  unfolding edit_at
  mark_deleted path hlc = edit_at path (deleted_entry hlc)

  unfoldable pub mark_conflicted :
      JsString → JsString → Hlc → List JsString → FileRegistry → Option FileRegistry
  unfolding edit_at
  mark_conflicted path content_hash hlc parents =
      edit_at path (conflicted_entry content_hash hlc parents)

  unfoldable pub apply_remote_entry : FileEntry → FileRegistry → FileRegistry
  unfolding is_newer_or_equal unindex_moved save
  apply_remote_entry e r =
      let existing : Option FileEntry = lookup e.id r.entries in
      let placed : FileRegistry = set_entry e.id e (unindex_moved existing e.path r) in
      if is_newer_or_equal existing e
      then r
      else save json e.id (if e.deleted then placed else set_index e.path e.id placed)

  unfoldable pub adopt_remote :
      JsString → JsString → JsString → Hlc → Option JsString → FileRegistry → FileRegistry
  unfolding indexed_id drop_duplicate unindex_moved save
  adopt_remote id path content_hash hlc head r =
      let dropped : FileRegistry = drop_duplicate (indexed_id r path) id r in
      let unindexed : FileRegistry = unindex_moved (lookup id dropped.entries) path dropped in
      save json id
        (set_index path id (set_entry id (adopted_entry id path content_hash hlc head) unindexed))

  -- `const entry = this.entries.get(fileId); if (!entry) return;`, an edit of the entry, `save(fileId)`.
  unfoldable pub edit_id : JsString → (FileEntry → FileEntry) → FileRegistry → FileRegistry
  unfolding save
  edit_id id change r = elim (lookup id r.entries) [
    | none ↦ r
    | some e ↦ save json id (set_entry id (change e) r)
  ]

  unfoldable pub set_head_version : JsString → JsString → FileRegistry → FileRegistry
  unfolding edit_id
  set_head_version id version_id =
      edit_id id (λ (e : FileEntry). record e { head_version_id = some version_id })

  unfoldable pub clear_conflict : JsString → FileRegistry → FileRegistry
  unfolding save
  clear_conflict id r = elim (lookup id r.entries) [
    | none ↦ r
    | some e ↦ elim e.conflict_parents [
      | none ↦ r
      | some parents ↦ save json id (set_entry id (record e { conflict_parents = none }) r)
    ]
  ]

  unfoldable pub set_synced_path : JsString → FileRegistry → FileRegistry
  unfolding edit_id
  set_synced_path id = edit_id id (λ (e : FileEntry). record e { last_synced_path = some e.path })
