-- ===== src/FileRegistry/Editing.antt =====
-- The mutations of src/core/file-registry.ts, on the files that the registry keeps.
use opsblobs_obsidian.Base.{
  ◌≡◌, refl, ◌∙◌, inl, inr, JsString, Option, none, some, arith, add, lookup, insert, lookup-insert,
  contains-add, insert-HasUniqueKeys, IsIf, Option-cases,
}
use opsblobs_obsidian.Hlc.{Hlc}
use opsblobs_obsidian.Vault.{FileEntry}
use opsblobs_obsidian.FileRegistry.{FileRegistry, save, mark_dirty}
use opsblobs_obsidian.FileRegistry.Json.{RegistryJson}
use opsblobs_obsidian.FileRegistry.Journal.{insert-IsKeyed}
use opsblobs_obsidian.FileRegistry.Durable.{IsTracked, changed-IsTracked}
use opsblobs_obsidian.FileRegistry.Saving.{save_all-IsTracked}
use opsblobs_obsidian.FileRegistry.Mutations.{
  VaultFileStat, indexed_id, with_stat, new_entry, moved_entry, resurrected_entry, resurrect,
  register_file, edit_at, update_path, edit_id, clear_conflict,
}

-- Where the operation does not throw, it keeps what is asked.
abbrev pub OptionAll : (FileRegistry → Type 0) → Option FileRegistry → Type 0
OptionAll P none = Unit
OptionAll P (some r) = P r

module _ (json : RegistryJson) where
  -- Putting an entry under its id, with whatever change of the index, and marking the id dirty.
  pub marked-IsTracked :
      (r s : FileRegistry) (id : JsString) (e : FileEntry)
      → s.metadata ≡ r.metadata
      → s.dirty_ids ≡ r.dirty_ids
      → s.entries ≡ insert id e r.entries
      → e.id ≡ id
      → IsTracked json r
      → IsTracked json (mark_dirty id s)
  unfolding mark_dirty
  marked-IsTracked r s id e same dirty put own h =
      changed-IsTracked json r (record s { dirty_ids = add s.dirty_ids id }) same
        (rw put (insert-HasUniqueKeys id e r.entries h.unique))
        (rw put (insert-IsKeyed id e r.entries own h.keyed))
        (λ j clean.
          ground (arith, put, dirty, contains-add s.dirty_ids id j, lookup-insert id j e r.entries))
        h

  pub saved-IsTracked :
      (r s : FileRegistry) (id : JsString) (e : FileEntry)
      → s.metadata ≡ r.metadata
      → s.dirty_ids ≡ r.dirty_ids
      → s.entries ≡ insert id e r.entries
      → e.id ≡ id
      → IsTracked json r
      → IsTracked json (save json id s)
  unfolding save
  saved-IsTracked r s id e same dirty put own h =
      save_all-IsTracked json (mark_dirty id s) (marked-IsTracked r s id e same dirty put own h)

  pub with_stat_id : (stat : Option VaultFileStat) (e : FileEntry) → (with_stat stat e).id ≡ e.id
  with_stat_id none e = refl
  with_stat_id (some stat) e = refl

  -- An edit that keeps the entry's id.
  abbrev pub KeepsId : (FileEntry → FileEntry) → Type 0
  KeepsId change = (e : FileEntry) → (change e).id ≡ e.id

  resurrect-IsTracked :
      (existing content_hash : JsString) (hlc : Hlc) (stat : Option VaultFileStat)
      (r : FileRegistry)
      → IsTracked json r
      → IsTracked json (resurrect json existing content_hash hlc stat r)
  unfolding resurrect
  resurrect-IsTracked existing content_hash hlc stat r h =
      elim (Option-cases (lookup existing r.entries)) [
        | inl e ↦ rw (e, resurrect) h
        | inr (f, e) ↦
            rw (e, resurrect)
              (IsIf (IsTracked json) f.deleted _ r
                (λ d.
                  saved-IsTracked r _ existing (resurrected_entry content_hash hlc stat f) refl refl
                    refl (with_stat_id stat _ ∙ h.keyed existing f e) h)
                (λ d. h))
      ]

  pub register_file-IsTracked :
      (uuid path : JsString) (hlc : Hlc) (content_hash : JsString) (stat : Option VaultFileStat)
      (r : FileRegistry)
      → IsTracked json r
      → IsTracked json (register_file json uuid path hlc content_hash stat r).0
  unfolding register_file
  register_file-IsTracked uuid path hlc content_hash stat r h =
      elim (Option-cases (indexed_id r path)) [
        | inl e ↦
            rw (e, register_file)
              (saved-IsTracked r _ uuid (with_stat stat (new_entry uuid path content_hash hlc)) refl
                refl refl (with_stat_id stat _) h)
        | inr (id, e) ↦ rw (e, register_file) (resurrect-IsTracked id content_hash hlc stat r h)
      ]

  pub edit_at-IsTracked :
      (path : JsString) (change : FileEntry → FileEntry) (r : FileRegistry)
      → KeepsId change
      → IsTracked json r
      → OptionAll (IsTracked json) (edit_at json path change r)
  unfolding edit_at
  edit_at-IsTracked path change r keeps h = elim (Option-cases (indexed_id r path)) [
    | inl e ↦ rw (e, edit_at, OptionAll) h
    | inr (id, e) ↦ elim (Option-cases (lookup id r.entries)) [
      | inl f ↦ rw (e, f, edit_at, OptionAll) tt
      | inr (x, f) ↦
          rw (e, f, edit_at, OptionAll)
            (saved-IsTracked r _ id (change x) refl refl refl (keeps x ∙ h.keyed id x f) h)
    ]
  ]

  pub update_path-IsTracked :
      (old_path new_path : JsString) (hlc : Hlc) (r : FileRegistry)
      → IsTracked json r
      → OptionAll (IsTracked json) (update_path json old_path new_path hlc r)
  unfolding update_path
  update_path-IsTracked old_path new_path hlc r h = elim (Option-cases (indexed_id r old_path)) [
    | inl e ↦ rw (e, update_path, OptionAll) h
    | inr (id, e) ↦ elim (Option-cases (lookup id r.entries)) [
      | inl f ↦ rw (e, f, update_path, OptionAll) tt
      | inr (x, f) ↦
          rw (e, f, update_path, OptionAll)
            (saved-IsTracked r _ id (moved_entry new_path hlc x) refl refl refl (h.keyed id x f) h)
    ]
  ]

  pub edit_id-IsTracked :
      (id : JsString) (change : FileEntry → FileEntry) (r : FileRegistry)
      → KeepsId change
      → IsTracked json r
      → IsTracked json (edit_id json id change r)
  unfolding edit_id
  edit_id-IsTracked id change r keeps h = elim (Option-cases (lookup id r.entries)) [
    | inl e ↦ rw (e, edit_id) h
    | inr (x, e) ↦
        rw (e, edit_id)
          (saved-IsTracked r _ id (change x) refl refl refl (keeps x ∙ h.keyed id x e) h)
  ]

  pub clear_conflict-IsTracked :
      (id : JsString) (r : FileRegistry)
      → IsTracked json r
      → IsTracked json (clear_conflict json id r)
  unfolding clear_conflict
  clear_conflict-IsTracked id r h = elim (Option-cases (lookup id r.entries)) [
    | inl e ↦ rw (e, clear_conflict) h
    | inr (x, e) ↦ elim (Option-cases x.conflict_parents) [
      | inl f ↦ rw (e, f, clear_conflict) h
      | inr (parents, f) ↦
          rw (e, f, clear_conflict)
            (saved-IsTracked r _ id (record x { conflict_parents = none }) refl refl refl
              (h.keyed id x e) h)
    ]
  ]
