-- ===== src/FileRegistry/Calls.antt =====
-- Each call of a registry of src/core/file-registry.ts, on its files and its index.
use mathlib.Core.Path.{subst}
use opsblobs_obsidian.Base.{◌≡◌, refl, Option, none, some}
use opsblobs_obsidian.FileRegistry.{FileRegistry, suspend_saves, resume_saves}
use opsblobs_obsidian.FileRegistry.Json.{RegistryJson}
use opsblobs_obsidian.FileRegistry.Durable.{IsTracked, changed-IsTracked}
use opsblobs_obsidian.FileRegistry.Index.{IsSound}
use opsblobs_obsidian.FileRegistry.Indexing.{
  Succeeds, path-with_stat, register_file-IsSound, edit_at-Succeeds, update_path-Succeeds,
  edit_id-IsSound, clear_conflict-IsSound,
}
use opsblobs_obsidian.FileRegistry.Adopting.{
  apply_remote_entry-IsSound, adopt_remote-IsSound, reconcile_with_vault-IsSound,
}
use opsblobs_obsidian.FileRegistry.Rebuilding.{compact-IsSound, reset_all-IsSound}
use opsblobs_obsidian.FileRegistry.Tombstones.{compact-IsTracked, reset_all-IsTracked}
use opsblobs_obsidian.FileRegistry.Saving.{flush-IsTracked, entries-flush, index-flush}
use opsblobs_obsidian.FileRegistry.Editing.{
  OptionAll, with_stat_id, register_file-IsTracked, edit_at-IsTracked, update_path-IsTracked,
  edit_id-IsTracked, clear_conflict-IsTracked,
}
use opsblobs_obsidian.FileRegistry.Syncing.{
  apply_remote_entry-IsTracked, adopt_remote-IsTracked, reconcile_with_vault-IsTracked,
  track_files-IsTracked,
}
use opsblobs_obsidian.FileRegistry.Mutations.{
  with_stat, updated_entry, deleted_entry, conflicted_entry, update_content_hash, record_stat,
  mark_deleted, mark_conflicted, set_head_version, set_synced_path,
}
use opsblobs_obsidian.FileRegistry.Sessions.{
  RegistryCall, register_it, move_it, update_it, stat_it, delete_it, conflict_it, apply_it,
  adopt_it, head_it, clear_it, synced_it, reconcile_it, flush_it, suspend_it, resume_it, reset_it,
  compact_it, IsFreshCall, call, IsGood,
}

abbrev pub Continues : RegistryJson → Option FileRegistry → Type 0
Continues json result = (s : FileRegistry) × (result ≡ some s) × IsGood json s

joined :
    (json : RegistryJson) (result : Option FileRegistry)
    → OptionAll (IsTracked json) result
    → Succeeds result
    → Continues json result
joined json none h (s, e, k) = cc
joined json (some r) h (s, e, k) = (r, refl, (h, subst IsSound (some_injective e) k))
  where
    some_injective : some r ≡ some s → s ≡ r
    some_injective e = cc

module _ (json : RegistryJson) where
  -- A call with unused UUIDs does not throw.
  pub call-Continues :
      (c : RegistryCall) (r : FileRegistry)
      → IsFreshCall c r
      → IsGood json r
      → Continues json (call json c r)
  unfolding call
  call-Continues (register_it uuid path hlc content_hash stat) r fresh (h, k) = (
    _,
    refl,
    (
      register_file-IsTracked json uuid path hlc content_hash stat r h,
      register_file-IsSound json uuid path hlc content_hash stat r fresh k,
    ),
  )
  call-Continues (move_it old_path new_path hlc) r fresh (h, k) =
      joined json _ (update_path-IsTracked json old_path new_path hlc r h)
        (update_path-Succeeds json old_path new_path hlc r k)
  call-Continues (update_it path content_hash hlc stat) r fresh (h, k) =
      unfold update_content_hash in
      (joined json _
        (edit_at-IsTracked json path (updated_entry content_hash hlc stat) r
          (λ e. with_stat_id json stat _) h)
        (edit_at-Succeeds json path (updated_entry content_hash hlc stat) r
          (λ e. path-with_stat json stat _) k))
  call-Continues (stat_it path mtime size) r fresh (h, k) =
      unfold record_stat in
      (joined json _
        (edit_at-IsTracked json path (with_stat (some (record { mtime = mtime; size = size }))) r
          (λ e. refl) h)
        (edit_at-Succeeds json path (with_stat (some (record { mtime = mtime; size = size }))) r
          (λ e. refl) k))
  call-Continues (delete_it path hlc) r fresh (h, k) =
      unfold mark_deleted in
      (joined json _ (edit_at-IsTracked json path (deleted_entry hlc) r (λ e. refl) h)
        (edit_at-Succeeds json path (deleted_entry hlc) r (λ e. refl) k))
  call-Continues (conflict_it path content_hash hlc parents) r fresh (h, k) =
      unfold mark_conflicted in
      (joined json _
        (edit_at-IsTracked json path (conflicted_entry content_hash hlc parents) r (λ e. refl) h)
        (edit_at-Succeeds json path (conflicted_entry content_hash hlc parents) r (λ e. refl) k))
  call-Continues (apply_it e) r fresh (h, k) =
      (_, refl, (apply_remote_entry-IsTracked json e r h, apply_remote_entry-IsSound json e r k))
  call-Continues (adopt_it id path content_hash hlc head) r fresh (h, k) = (
    _,
    refl,
    (
      adopt_remote-IsTracked json id path content_hash hlc head r h,
      adopt_remote-IsSound json id path content_hash hlc head r k,
    ),
  )
  call-Continues (head_it id version_id) r fresh (h, k) =
      unfold set_head_version in
      (
        _,
        refl,
        (edit_id-IsTracked json id _ r (λ e. refl) h, edit_id-IsSound json id _ r (λ e. refl) k),
      )
  call-Continues (clear_it id) r fresh (h, k) =
      (_, refl, (clear_conflict-IsTracked json id r h, clear_conflict-IsSound json id r k))
  call-Continues (synced_it id) r fresh (h, k) =
      unfold set_synced_path in
      (
        _,
        refl,
        (edit_id-IsTracked json id _ r (λ e. refl) h, edit_id-IsSound json id _ r (λ e. refl) k),
      )
  call-Continues (reconcile_it uuid excluded hlc files) r fresh (h, k) = (
    _,
    refl,
    (
      reconcile_with_vault-IsTracked json uuid excluded hlc files r h,
      reconcile_with_vault-IsSound json uuid excluded hlc files r fresh
          ((track_files-IsTracked json uuid excluded hlc files 0 r h).unique) k,
    ),
  )
  call-Continues flush_it r fresh (h, k) =
      (_, refl, (flush-IsTracked json r h, rw (entries-flush json r, index-flush json r) k))
  call-Continues suspend_it r fresh (h, k) = (
    _,
    refl,
    (
      unfold suspend_saves in
          (changed-IsTracked json r _ refl h.unique h.keyed (λ id clean. (clean, refl)) h),
      unfold suspend_saves in k,
    ),
  )
  call-Continues resume_it r fresh (h, k) = (
    _,
    refl,
    (
      unfold resume_saves in
          (changed-IsTracked json r _ refl h.unique h.keyed (λ id clean. (clean, refl)) h),
      unfold resume_saves in k,
    ),
  )
  call-Continues reset_it r fresh h = (_, refl, (reset_all-IsTracked json r, reset_all-IsSound r))
  call-Continues (compact_it days reclaim) r fresh (h, k) = (
    _,
    refl,
    (compact-IsTracked json days reclaim r h, compact-IsSound json days reclaim r h.unique k),
  )
