-- ===== src/FileRegistry/Index.antt =====
-- The path index of src/core/file-registry.ts against its entries.
use mathlib.Core.Path.{subst}
use opsblobs_obsidian.Base.{
  ◌≡◌, refl, inl, inr, JsString, true, false, Option, none, some, arith, ◌===◌, lookup,
  lookup-insert, lookup-erase, IsIf, Bool-cases,
}
use opsblobs_obsidian.Vault.{FileEntry}
use opsblobs_obsidian.FileRegistry.{FileRegistry, save, save_all, mark_dirty}
use opsblobs_obsidian.FileRegistry.Json.{RegistryJson}
use opsblobs_obsidian.FileRegistry.Saving.{
  entries-save, index-save, entries-save_all, index-save_all,
}
use opsblobs_obsidian.FileRegistry.Mutations.{set_entry, set_index, unset_index, unindex_moved}

-- The path is indexed under an id whose entry stands at the path.
abbrev pub Holds : FileRegistry → JsString → JsString → Type 0
Holds r path id = (e : FileEntry) × (lookup id r.entries ≡ some e) × (e.path ≡ path)

-- Each indexed path leads to an entry at that path.
abbrev pub IsSound : FileRegistry → Type 0
IsSound r = (p id : JsString) → lookup p r.path_index ≡ some id → Holds r p id

-- The same for every path but one.
abbrev pub IsSoundBut : JsString → FileRegistry → Type 0
IsSoundBut path r =
    (p id : JsString) → (p === path) ≡ false → lookup p r.path_index ≡ some id → Holds r p id

pub IsSound-mark : (id : JsString) (r : FileRegistry) → IsSound r → IsSound (mark_dirty id r)
unfolding mark_dirty
IsSound-mark id r h = h

pub IsSound-save_all :
    (json : RegistryJson) (r : FileRegistry) → IsSound r → IsSound (save_all json r)
IsSound-save_all json r h = rw (entries-save_all json r, index-save_all json r) h

pub IsSound-save :
    (json : RegistryJson) (id : JsString) (r : FileRegistry) → IsSound r → IsSound (save json id r)
IsSound-save json id r h = rw (entries-save json id r, index-save json id r) h

-- An edit of an entry that leaves its path.
pub IsSound-edit :
    (r : FileRegistry) (id : JsString) (old e : FileEntry)
    → lookup id r.entries ≡ some old
    → e.path ≡ old.path
    → IsSound r
    → IsSound (set_entry id e r)
IsSound-edit r id old e found same h p j at =
    let (f, k, w) = h p j at in
    elim (Bool-cases (id === j)) [
      | inl t ↦ (e, ground (arith, lookup-insert id j e r.entries), ground (arith, found, k))
      | inr t ↦ (f, ground (arith, lookup-insert id j e r.entries), w)
    ]

-- An entry that is put at a path and indexed there, where its id is indexed nowhere else.
pub IsSound-place :
    (r : FileRegistry) (id path : JsString) (e : FileEntry)
    → e.path ≡ path
    → ((p : JsString) → lookup p r.path_index ≡ some id → (p === path) ≡ true)
    → IsSoundBut path r
    → IsSound (set_index path id (set_entry id e r))
IsSound-place r id path e own only h p j at = elim (Bool-cases (p === path)) [
  | inl here ↦ (
    e,
    ground (arith, lookup-insert path p id r.path_index, lookup-insert id j e r.entries),
    ground arith,
  )
  | inr away ↦
      let old : lookup p r.path_index ≡ some j =
        ground (arith, lookup-insert path p id r.path_index) in
      let (f, k, w) = h p j away old in
      (f, ground (arith, lookup-insert id j e r.entries, only p), w)
]

pub IsSound-but : (path : JsString) (r : FileRegistry) → IsSound r → IsSoundBut path r
IsSound-but path r h p id away at = h p id at

pub IsSoundBut-unset :
    (path gone : JsString) (r : FileRegistry)
    → IsSoundBut path r
    → IsSoundBut path (unset_index gone r)
IsSoundBut-unset path gone r h p id away at =
    h p id away (ground (arith, lookup-erase gone p r.path_index))

pub IsSoundBut-moved :
    (path : JsString) (prev : Option FileEntry) (r : FileRegistry)
    → IsSoundBut path r
    → IsSoundBut path (unindex_moved prev path r)
unfolding unindex_moved
IsSoundBut-moved path none r h = h
IsSoundBut-moved path (some prev) r h =
    IsIf (IsSoundBut path) (prev.path === path) r (unset_index prev.path r) (λ e. h)
      (λ e. IsSoundBut-unset path prev.path r h)

-- After `unindex_moved` an id is indexed at the given path only.
in_old_index :
    (prev : Option FileEntry) (path id : JsString) (r : FileRegistry) (p : JsString)
    → lookup p (unindex_moved prev path r).path_index ≡ some id
    → lookup p r.path_index ≡ some id
unfolding unindex_moved
in_old_index none path id r p at = at
in_old_index (some x) path id r p at = ground (arith, lookup-erase x.path p r.path_index)

not_at_old :
    (x : FileEntry) (path id : JsString) (r : FileRegistry) (p : JsString)
    → x.path ≡ p
    → lookup p (unindex_moved (some x) path r).path_index ≡ some id
    → (p === path) ≡ true
unfolding unindex_moved
not_at_old x path id r p own at = ground (arith, lookup-erase x.path p r.path_index)

-- After `unindex_moved` an id is indexed at the given path only.
pub moved_only :
    (path id : JsString) (r : FileRegistry) (p : JsString)
    → IsSoundBut path r
    → lookup p (unindex_moved (lookup id r.entries) path r).path_index ≡ some id
    → (p === path) ≡ true
moved_only path id r p h at = elim (Bool-cases (p === path)) [
  | inl here ↦ here
  | inr away ↦
      let (x, found, own) = h p id away (in_old_index (lookup id r.entries) path id r p at) in
      not_at_old x path id r p own
        (subst (λ prev. lookup p (unindex_moved prev path r).path_index ≡ some id) found at)
]

pub entries-moved :
    (prev : Option FileEntry) (path : JsString) (r : FileRegistry)
    → (unindex_moved prev path r).entries ≡ r.entries
unfolding unindex_moved
entries-moved none path r = refl
entries-moved (some prev) path r = ground arith

-- An operation that does not throw, and keeps the index sound.
