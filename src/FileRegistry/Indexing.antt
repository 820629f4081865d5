-- ===== src/FileRegistry/Indexing.antt =====
-- The operations of src/core/file-registry.ts that change an entry, on the path index.
use opsblobs_obsidian.Base.{
  ◌≡◌, refl, inl, inr, JsString, Option, none, some, arith, lookup, lookup-erase, IsIf,
  Option-cases,
}
use opsblobs_obsidian.Hlc.{Hlc}
use opsblobs_obsidian.Vault.{FileEntry}
use opsblobs_obsidian.FileRegistry.{FileRegistry, save}
use opsblobs_obsidian.FileRegistry.Json.{RegistryJson}
use opsblobs_obsidian.FileRegistry.Mutations.{
  VaultFileStat, indexed_id, set_entry, set_index, unset_index, with_stat, new_entry, moved_entry,
  resurrected_entry, resurrect, register_file, edit_at, update_path, edit_id, clear_conflict,
}
use opsblobs_obsidian.FileRegistry.Index.{
  IsSound, IsSound-save, IsSound-edit, IsSound-place, IsSound-but, IsSoundBut-unset,
}

abbrev pub Succeeds : Option FileRegistry → Type 0
Succeeds result = (s : FileRegistry) × (result ≡ some s) × IsSound s

module _ (json : RegistryJson) where
  pub path-with_stat :
      (stat : Option VaultFileStat) (e : FileEntry) → (with_stat stat e).path ≡ e.path
  path-with_stat none e = refl
  path-with_stat (some stat) e = refl

  resurrect-IsSound :
      (existing content_hash : JsString) (hlc : Hlc) (stat : Option VaultFileStat)
      (r : FileRegistry)
      → IsSound r
      → IsSound (resurrect json existing content_hash hlc stat r)
  unfolding resurrect lookup
  resurrect-IsSound existing content_hash hlc stat r h =
      elim (Option-cases (lookup existing r.entries)) [
        | inl e ↦ rw (e, resurrect) h
        | inr (f, e) ↦
            rw (e, resurrect)
              (IsIf IsSound f.deleted
                (save json existing
                  (set_entry existing (resurrected_entry content_hash hlc stat f) r))
                r
                (λ d. IsSound-save json existing _ (
                  IsSound-edit r existing f (resurrected_entry content_hash hlc stat f) e
                    (path-with_stat stat _) h))
                (λ d. h))
      ]

  pub register_file-IsSound :
      (uuid path : JsString) (hlc : Hlc) (content_hash : JsString) (stat : Option VaultFileStat)
      (r : FileRegistry)
      → lookup uuid r.entries ≡ none
      → IsSound r
      → IsSound (register_file json uuid path hlc content_hash stat r).0
  unfolding register_file lookup
  register_file-IsSound uuid path hlc content_hash stat r fresh h =
      elim (Option-cases (indexed_id r path)) [
        | inl e ↦
            rw (e, register_file)
              (IsSound-save json uuid _ (
                IsSound-place r uuid path (with_stat stat (new_entry uuid path content_hash hlc))
                  (path-with_stat stat _) (λ p at. let (f, k, w) = h p uuid at in cc (fresh, k))
                  (IsSound-but path r h)))
        | inr (id, e) ↦ rw (e, register_file) (resurrect-IsSound id content_hash hlc stat r h)
      ]

  pub indexed_at :
      (r : FileRegistry) (path id : JsString)
      → indexed_id r path ≡ some id
      → lookup path r.path_index ≡ some id
  unfolding indexed_id
  indexed_at r path id e = ground arith

  pub edit_at-Succeeds :
      (path : JsString) (change : FileEntry → FileEntry) (r : FileRegistry)
      → ((e : FileEntry) → (change e).path ≡ e.path)
      → IsSound r
      → Succeeds (edit_at json path change r)
  unfolding edit_at
  edit_at-Succeeds path change r keeps h = elim (Option-cases (indexed_id r path)) [
    | inl e ↦ (r, rw (e, edit_at) refl, h)
    | inr (id, e) ↦
        let (x, found, own) = h path id (indexed_at r path id e) in
        (
          save json id (set_entry id (change x) r),
          rw (e, found, edit_at) refl,
          IsSound-save json id _ (IsSound-edit r id x (change x) found (keeps x) h),
        )
  ]

  pub update_path-Succeeds :
      (old_path new_path : JsString) (hlc : Hlc) (r : FileRegistry)
      → IsSound r
      → Succeeds (update_path json old_path new_path hlc r)
  unfolding update_path
  update_path-Succeeds old_path new_path hlc r h = elim (Option-cases (indexed_id r old_path)) [
    | inl e ↦ (r, rw (e, update_path) refl, h)
    | inr (id, e) ↦
        let (x, found, own) = h old_path id (indexed_at r old_path id e) in
        (
          save json id (
              set_entry id (moved_entry new_path hlc x)
                (set_index new_path id (unset_index old_path r))),
          rw (e, found, update_path) refl,
          IsSound-save json id _ (
              IsSound-place (unset_index old_path r) id new_path (moved_entry new_path hlc x) refl
                (λ p at.
                  let was : lookup p r.path_index ≡ some id =
                    ground (arith, lookup-erase old_path p r.path_index) in
                  let (y, k, w) = h p id was in
                  ground (arith, found, k, own, lookup-erase old_path p r.path_index))
                (IsSoundBut-unset new_path old_path r (IsSound-but new_path r h))),
        )
  ]

  pub edit_id-IsSound :
      (id : JsString) (change : FileEntry → FileEntry) (r : FileRegistry)
      → ((e : FileEntry) → (change e).path ≡ e.path)
      → IsSound r
      → IsSound (edit_id json id change r)
  unfolding edit_id lookup
  edit_id-IsSound id change r keeps h = elim (Option-cases (lookup id r.entries)) [
    | inl e ↦ rw (e, edit_id) h
    | inr (x, e) ↦
        rw (e, edit_id) (IsSound-save json id _ (IsSound-edit r id x (change x) e (keeps x) h))
  ]

  pub clear_conflict-IsSound :
      (id : JsString) (r : FileRegistry) → IsSound r → IsSound (clear_conflict json id r)
  unfolding clear_conflict lookup
  clear_conflict-IsSound id r h = elim (Option-cases (lookup id r.entries)) [
    | inl e ↦ rw (e, clear_conflict) h
    | inr (x, e) ↦ elim (Option-cases x.conflict_parents) [
      | inl f ↦ rw (e, f, clear_conflict) h
      | inr (parents, f) ↦
          rw (e, f, clear_conflict)
            (IsSound-save json id _
              (IsSound-edit r id x (record x { conflict_parents = none }) e refl h))
    ]
  ]
