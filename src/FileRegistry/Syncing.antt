-- ===== src/FileRegistry/Syncing.antt =====
-- The operations of src/core/file-registry.ts that follow the peers and the vault, on the files that the
-- registry keeps.
use opsblobs_obsidian.Base.{
  ℕ, ◌≡◌, refl, JsString, Bool, ◌||◌, Option, none, some, List, [], ◌∷◌, arith, ◌===◌,
  if◌then◌else◌, lookup, lookup-erase, contains-add, HasUniqueKeys, erase-HasUniqueKeys, IsIf,
}
use opsblobs_obsidian.Hlc.{Hlc}
use opsblobs_obsidian.Vault.{FileEntry}
use opsblobs_obsidian.Metadata.{is_some}
use opsblobs_obsidian.FileRegistry.{FileRegistry, mark_dirty}
use opsblobs_obsidian.FileRegistry.Json.{RegistryJson}
use opsblobs_obsidian.FileRegistry.Journal.{IsKeyed, erase-IsKeyed}
use opsblobs_obsidian.FileRegistry.Durable.{IsTracked, changed-IsTracked}
use opsblobs_obsidian.FileRegistry.Saving.{save_all-IsTracked}
use opsblobs_obsidian.FileRegistry.Mutations.{
  indexed_id, set_entry, set_index, new_entry, deleted_entry, adopted_entry, is_newer_or_equal,
  unindex_moved, apply_remote_entry, drop_duplicate, adopt_remote,
}
use opsblobs_obsidian.FileRegistry.Reconcile.{
  track_files, is_gone, bury_missing, reconcile_with_vault,
}
use opsblobs_obsidian.FileRegistry.Editing.{marked-IsTracked, saved-IsTracked}

module _ (json : RegistryJson) where
  -- A change of the index alone.
  unindex_moved_same :
      (prev : Option FileEntry) (path : JsString) (r : FileRegistry)
      → ((unindex_moved prev path r).metadata ≡ r.metadata)
        × ((unindex_moved prev path r).dirty_ids ≡ r.dirty_ids)
        × ((unindex_moved prev path r).entries ≡ r.entries)
  unfolding unindex_moved
  unindex_moved_same none path r = (refl, refl, refl)
  unindex_moved_same (some prev) path r = ground arith

  pub apply_remote_entry-IsTracked :
      (e : FileEntry) (r : FileRegistry)
      → IsTracked json r
      → IsTracked json (apply_remote_entry json e r)
  unfolding apply_remote_entry
  apply_remote_entry-IsTracked e r h =
      let same = unindex_moved_same (lookup e.id r.entries) e.path r in
      IsIf (IsTracked json) (is_newer_or_equal (lookup e.id r.entries) e) r _ (λ n. h)
        (λ n.
          saved-IsTracked json r
            (if e.deleted
              then set_entry e.id e (unindex_moved (lookup e.id r.entries) e.path r)
              else set_index e.path e.id
                  (set_entry e.id e (unindex_moved (lookup e.id r.entries) e.path r)))
            e.id e (ground (arith, same)) (ground (arith, same)) (ground (arith, same)) refl h)

  drop_duplicate-IsTracked :
      (existing : Option JsString) (id : JsString) (r : FileRegistry)
      → IsTracked json r
      → IsTracked json (drop_duplicate existing id r)
  unfolding drop_duplicate mark_dirty
  drop_duplicate-IsTracked none id r h = h
  drop_duplicate-IsTracked (some existing) id r h =
      IsIf (IsTracked json) (existing === id) r _ (λ e. h)
        (λ e.
          changed-IsTracked json r _ refl (erase-HasUniqueKeys existing r.entries h.unique)
            (erase-IsKeyed existing r.entries h.keyed)
            (λ j clean.
              ground
                (arith, contains-add r.dirty_ids existing j, lookup-erase existing j r.entries))
            h)

  pub adopt_remote-IsTracked :
      (id path content_hash : JsString) (hlc : Hlc) (head : Option JsString) (r : FileRegistry)
      → IsTracked json r
      → IsTracked json (adopt_remote json id path content_hash hlc head r)
  unfolding adopt_remote
  adopt_remote-IsTracked id path content_hash hlc head r h =
      let dropped : FileRegistry = drop_duplicate (indexed_id r path) id r in
      let same = unindex_moved_same (lookup id dropped.entries) path dropped in
      saved-IsTracked json dropped
        (set_index path id (
          set_entry id (adopted_entry id path content_hash hlc head)
            (unindex_moved (lookup id dropped.entries) path dropped)))
        id (adopted_entry id path content_hash hlc head) (same.0) (same.1) (ground (arith, same.2))
        refl (drop_duplicate-IsTracked (indexed_id r path) id r h)

  pub track_files-IsTracked :
      (uuid : ℕ → JsString) (excluded : JsString → Bool) (hlc : Hlc) (paths : List JsString) (n : ℕ)
      (r : FileRegistry)
      → IsTracked json r
      → IsTracked json (track_files uuid n excluded hlc paths r)
  unfolding track_files
  track_files-IsTracked uuid excluded hlc [] n r h = h
  track_files-IsTracked uuid excluded hlc (path ∷ paths) n r h =
      track_files-IsTracked uuid excluded hlc paths _ _ (
        IsIf (IsTracked json) (is_some (lookup path r.path_index) || excluded path) r _ (λ e. h)
          (λ e.
            marked-IsTracked json r _ (uuid n) (new_entry (uuid n) path [] hlc) refl refl refl refl
              h))

  -- Each pair of a list of entries holds an entry under its own id.
  abbrev AllKeyed : List (JsString × FileEntry) → Type 0
  AllKeyed [] = Unit
  AllKeyed ((id, e) ∷ entries) = (e.id ≡ id) × AllKeyed entries

  IsKeyed-AllKeyed :
      (entries : List (JsString × FileEntry))
      → HasUniqueKeys entries
      → IsKeyed entries
      → AllKeyed entries
  IsKeyed-AllKeyed [] unique keyed = tt
  IsKeyed-AllKeyed ((id, e) ∷ entries) unique keyed = (
    keyed id e (unfold lookup in (ground arith)),
    IsKeyed-AllKeyed entries unique.1
        (λ j f found. keyed j f (unfold lookup in (ground (arith, unique.0, found)))),
  )

  bury_missing-IsTracked :
      (vault_paths : List JsString) (hlc : Hlc) (entries : List (JsString × FileEntry))
      (r : FileRegistry)
      → AllKeyed entries
      → IsTracked json r
      → IsTracked json (bury_missing vault_paths hlc entries r)
  unfolding bury_missing
  bury_missing-IsTracked vault_paths hlc [] r keyed h = h
  bury_missing-IsTracked vault_paths hlc ((id, e) ∷ entries) r keyed h =
      bury_missing-IsTracked vault_paths hlc entries _ keyed.1 (
        IsIf (IsTracked json) (is_gone vault_paths e) _ r
          (λ g. marked-IsTracked json r _ id (deleted_entry hlc e) refl refl refl keyed.0 h)
          (λ g. h))

  pub reconcile_with_vault-IsTracked :
      (uuid : ℕ → JsString) (excluded : JsString → Bool) (hlc : Hlc) (files : List JsString)
      (r : FileRegistry)
      → IsTracked json r
      → IsTracked json (reconcile_with_vault json uuid excluded hlc files r)
  unfolding reconcile_with_vault
  reconcile_with_vault-IsTracked uuid excluded hlc files r h =
      let tracked : FileRegistry = track_files uuid 0 excluded hlc files r in
      let h' : IsTracked json tracked = track_files-IsTracked uuid excluded hlc files 0 r h in
      save_all-IsTracked json _ (
        bury_missing-IsTracked files hlc tracked.entries tracked
          (IsKeyed-AllKeyed tracked.entries h'.unique h'.keyed) h')
