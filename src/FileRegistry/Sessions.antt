-- ===== src/FileRegistry/Sessions.antt =====
-- The life of a registry of src/core/file-registry.ts: calls of its operations, restarts, and crashes
-- between the two writes of `compact`. An append that a crash cuts is no step (see Torn).
use opsblobs_obsidian.Base.{ℕ, ◌≡◌, JsString, Bool, Option, none, some, List, [], lookup}
use opsblobs_obsidian.Hlc.{Hlc}
use opsblobs_obsidian.Vault.{FileEntry}
use opsblobs_obsidian.FileRegistry.{
  FileRegistry, TombstoneReclaim, new_registry, flush, compact, load, reset_all, suspend_saves,
  resume_saves, write_snapshot, reclaim_tombstones,
}
use opsblobs_obsidian.FileRegistry.Json.{RegistryJson}
use opsblobs_obsidian.FileRegistry.Durable.{IsTracked}
use opsblobs_obsidian.FileRegistry.Index.{IsSound}
use opsblobs_obsidian.FileRegistry.Adopting.{IsFresh}
use opsblobs_obsidian.FileRegistry.Mutations.{
  VaultFileStat, register_file, update_path, update_content_hash, record_stat, mark_deleted,
  mark_conflicted, apply_remote_entry, adopt_remote, set_head_version, clear_conflict,
  set_synced_path,
}
use opsblobs_obsidian.FileRegistry.Reconcile.{reconcile_with_vault}

pub data RegistryCall : Type 0 where
  -- UUID, path, timestamp, content hash, stat
  register_it : JsString → JsString → Hlc → JsString → Option VaultFileStat → RegistryCall
  -- old path, new path, timestamp
  move_it : JsString → JsString → Hlc → RegistryCall
  -- path, content hash, timestamp, stat
  update_it : JsString → JsString → Hlc → Option VaultFileStat → RegistryCall
  -- path, mtime, size
  stat_it : JsString → ℕ → ℕ → RegistryCall
  -- path, timestamp
  delete_it : JsString → Hlc → RegistryCall
  -- path, content hash, timestamp, heads
  conflict_it : JsString → JsString → Hlc → List JsString → RegistryCall
  apply_it : FileEntry → RegistryCall
  -- id, path, content hash, timestamp, head
  adopt_it : JsString → JsString → JsString → Hlc → Option JsString → RegistryCall
  -- id, version
  head_it : JsString → JsString → RegistryCall
  clear_it : JsString → RegistryCall
  synced_it : JsString → RegistryCall
  -- UUIDs, exclusion policy, timestamp, listing
  reconcile_it : (ℕ → JsString) → (JsString → Bool) → Hlc → List JsString → RegistryCall
  flush_it suspend_it resume_it reset_it : RegistryCall
  -- retention setting in days, reclaim
  compact_it : Option ℕ → Option TombstoneReclaim → RegistryCall

-- The UUIDs that a call is handed are not in use.
abbrev pub IsFreshCall : RegistryCall → FileRegistry → Type 0
IsFreshCall (register_it uuid _ _ _ _) r = lookup uuid r.entries ≡ none
IsFreshCall (reconcile_it uuid _ _ _) r = IsFresh uuid 0 r
IsFreshCall _ r = Unit

module _ (json : RegistryJson) where
  unfoldable pub call : RegistryCall → FileRegistry → Option FileRegistry
  unfolding register_file update_path update_content_hash record_stat mark_deleted mark_conflicted
      apply_remote_entry adopt_remote set_head_version clear_conflict set_synced_path
      reconcile_with_vault flush suspend_saves resume_saves reset_all compact
  call (register_it uuid path hlc content_hash stat) r =
      some (register_file json uuid path hlc content_hash stat r).0
  call (move_it old_path new_path hlc) r = update_path json old_path new_path hlc r
  call (update_it path content_hash hlc stat) r =
      update_content_hash json path content_hash hlc stat r
  call (stat_it path mtime size) r = record_stat json path mtime size r
  call (delete_it path hlc) r = mark_deleted json path hlc r
  call (conflict_it path content_hash hlc parents) r =
      mark_conflicted json path content_hash hlc parents r
  call (apply_it e) r = some (apply_remote_entry json e r)
  call (adopt_it id path content_hash hlc head) r =
      some (adopt_remote json id path content_hash hlc head r)
  call (head_it id version_id) r = some (set_head_version json id version_id r)
  call (clear_it id) r = some (clear_conflict json id r)
  call (synced_it id) r = some (set_synced_path json id r)
  call (reconcile_it uuid excluded hlc files) r =
      some (reconcile_with_vault json uuid excluded hlc files r)
  call flush_it r = some (flush json r)
  call suspend_it r = some (suspend_saves r)
  call resume_it r = some (resume_saves r)
  call reset_it r = some (reset_all r)
  call (compact_it days reclaim) r = some (compact json days reclaim r)

  -- The registry and its files when a compaction has written the snapshot and not yet the journal.
  unfoldable pub interrupted : Option ℕ → Option TombstoneReclaim → FileRegistry → FileRegistry
  unfolding write_snapshot reclaim_tombstones
  interrupted days none r = write_snapshot json r
  interrupted days (some reclaim) r = write_snapshot json (reclaim_tombstones days reclaim r).0

  pub data Step : FileRegistry → FileRegistry → Type 0 where
    called :
        {r s : FileRegistry} (c : RegistryCall) → IsFreshCall c r → call c r ≡ some s → Step r s
    restarted : {r s : FileRegistry} → load json (new_registry r.metadata) ≡ some s → Step r s
    -- a restart after a crash between the two writes of `compact`, with or without a reclaim
    crashed :
        {r s : FileRegistry} (days : Option ℕ) (reclaim : Option TombstoneReclaim)
        → load json (new_registry (interrupted days reclaim r).metadata) ≡ some s
        → Step r s

  -- From a device without the two files, by any number of steps.
  pub data Reached : FileRegistry → Type 0 where
    started : (r : FileRegistry) → r ≡ new_registry [] → Reached r
    stepped : {r s : FileRegistry} → Reached r → Step r s → Reached s

  -- What every step keeps.
  abbrev pub IsGood : FileRegistry → Type 0
  IsGood r = IsTracked json r × IsSound r
