-- ===== src/FileRegistry/Reconcile.antt =====
-- `reconcileWithVault` of src/core/file-registry.ts. The listing of the vault, the UUIDs that
-- `randomUuid` hands out (a number for the call) and the exclusion policy are arguments.
use opsblobs_obsidian.Base.{
  ℕ, ◌+◌, JsString, Bool, not, ◌&&◌, ◌||◌, List, [], ◌∷◌, if◌then◌else◌, contains, lookup,
}
use opsblobs_obsidian.Hlc.{Hlc}
use opsblobs_obsidian.Vault.{FileEntry}
use opsblobs_obsidian.Metadata.{is_some}
use opsblobs_obsidian.FileRegistry.{FileRegistry, save_all, mark_dirty}
use opsblobs_obsidian.FileRegistry.Json.{RegistryJson}
use opsblobs_obsidian.FileRegistry.Mutations.{new_entry, deleted_entry, set_entry, set_index}

-- The first loop: a UUID for each file that is not tracked.
unfoldable pub track_files :
    (ℕ → JsString) → ℕ → (JsString → Bool) → Hlc → List JsString → FileRegistry → FileRegistry
unfolding mark_dirty
track_files uuid n excluded hlc [] r = r
track_files uuid n excluded hlc (path ∷ paths) r =
    let skip : Bool = is_some (lookup path r.path_index) || excluded path in
    track_files uuid (if skip then n else n + 1) excluded hlc paths (
      if skip
      then r
      else mark_dirty (uuid n)
          (set_index path (uuid n) (set_entry (uuid n) (new_entry (uuid n) path [] hlc) r)))

abbrev pub is_gone : List JsString → FileEntry → Bool
is_gone vault_paths e = not e.deleted && not (contains vault_paths e.path)

-- The second loop: a tombstone for each live entry whose file is gone.
unfoldable pub bury_missing :
    List JsString → Hlc → List (JsString × FileEntry) → FileRegistry → FileRegistry
unfolding mark_dirty
bury_missing vault_paths hlc [] r = r
bury_missing vault_paths hlc ((id, e) ∷ entries) r =
    bury_missing vault_paths hlc entries
      (if is_gone vault_paths e then mark_dirty id (set_entry id (deleted_entry hlc e) r) else r)

unfoldable pub reconcile_with_vault :
    RegistryJson
    → (ℕ → JsString)
    → (JsString → Bool)
    → Hlc
    → List JsString
    → FileRegistry
    → FileRegistry
unfolding track_files bury_missing save_all
reconcile_with_vault json uuid excluded hlc files r =
    let tracked : FileRegistry = track_files uuid 0 excluded hlc files r in
    save_all json (bury_missing files hlc tracked.entries tracked)
