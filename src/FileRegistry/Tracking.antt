-- ===== src/FileRegistry/Tracking.antt =====
-- What `getByPath` of src/core/file-registry.ts finds after `registerFile` and `adoptRemote`.
use opsblobs_obsidian.Base.{
  ◌≡◌, refl, ap, inl, inr, JsString, true, false, Option, none, some, arith, ◌===◌, if◌then◌else◌,
  lookup, erase, lookup-insert, lookup-erase, Option-cases,
}
use opsblobs_obsidian.Hlc.{Hlc}
use opsblobs_obsidian.Dag.{truthy}
use opsblobs_obsidian.Vault.{FileEntry}
use opsblobs_obsidian.FileRegistry.{FileRegistry, save}
use opsblobs_obsidian.FileRegistry.Json.{RegistryJson}
use opsblobs_obsidian.FileRegistry.Saving.{entries-save, index-save}
use opsblobs_obsidian.FileRegistry.Mutations.{
  VaultFileStat, indexed_id, set_entry, set_index, unset_index, with_stat, new_entry,
  resurrected_entry, adopted_entry, resurrect, register_file, unindex_moved, drop_duplicate,
  adopt_remote,
}
use opsblobs_obsidian.FileRegistry.Queries.{get_by_id, get_by_path}
use opsblobs_obsidian.FileRegistry.Index.{IsSound}

get_by_path-congr :
    (r s : FileRegistry) (path : JsString)
    → r.entries ≡ s.entries
    → r.path_index ≡ s.path_index
    → get_by_path r path ≡ get_by_path s path
unfolding get_by_path indexed_id
get_by_path-congr r s path e f = rw (e, f) refl

get_by_path-at :
    (r : FileRegistry) (path id : JsString)
    → lookup path r.path_index ≡ some id
    → truthy id ≡ true
    → get_by_path r path ≡ lookup id r.entries
unfolding get_by_path indexed_id
get_by_path-at r path id at t = ground arith

indexed_truthy :
    (r : FileRegistry) (path id : JsString)
    → indexed_id r path ≡ some id
    → (lookup path r.path_index ≡ some id) × (truthy id ≡ true)
unfolding indexed_id
indexed_truthy r path id e = (ground arith, ground arith)

module _ (json : RegistryJson) where
  get_by_path-save :
      (id : JsString) (r : FileRegistry) (path : JsString)
      → get_by_path (save json id r) path ≡ get_by_path r path
  get_by_path-save id r path =
      get_by_path-congr (save json id r) r path (entries-save json id r) (index-save json id r)

  -- The entry that a registration leaves at its path: a new one, a tombstone made live again under its
  -- id, or a live one as it was.
  abbrev pub Registered :
      JsString
      → JsString
      → JsString
      → Hlc
      → Option VaultFileStat
      → Option FileEntry
      → FileEntry
      → Type 0
  Registered uuid path content_hash hlc stat none e =
      e ≡ with_stat stat (new_entry uuid path content_hash hlc)
  Registered uuid path content_hash hlc stat (some old) e =
      e ≡ (if old.deleted then resurrected_entry content_hash hlc stat old else old)

  register_new :
      (uuid path : JsString) (hlc : Hlc) (content_hash : JsString) (stat : Option VaultFileStat)
      (r : FileRegistry)
      → truthy uuid ≡ true
      → get_by_path
          (save json uuid (
            set_index path uuid
              (set_entry uuid (with_stat stat (new_entry uuid path content_hash hlc)) r)))
          path
        ≡ some (with_stat stat (new_entry uuid path content_hash hlc))
  register_new uuid path hlc content_hash stat r t =
      let e : FileEntry = with_stat stat (new_entry uuid path content_hash hlc) in
      let placed : FileRegistry = set_index path uuid (set_entry uuid e r) in
      rw (get_by_path-save uuid placed path) (
        ground (
          arith,
          get_by_path-at placed path uuid,
          lookup-insert path path uuid r.path_index,
          lookup-insert uuid uuid e r.entries,
        ))

  resurrected :
      (existing path content_hash : JsString) (hlc : Hlc) (stat : Option VaultFileStat)
      (r : FileRegistry) (old : FileEntry)
      → lookup path r.path_index ≡ some existing
      → truthy existing ≡ true
      → lookup existing r.entries ≡ some old
      → get_by_path (resurrect json existing content_hash hlc stat r) path
        ≡ some (if old.deleted then resurrected_entry content_hash hlc stat old else old)
  unfolding resurrect
  resurrected existing path content_hash hlc stat r old at t found =
      let e : FileEntry = resurrected_entry content_hash hlc stat old in
      ground (
        arith,
        at,
        t,
        found,
        get_by_path-save existing (set_entry existing e r) path,
        get_by_path-at (set_entry existing e r) path existing,
        get_by_path-at r path existing,
        lookup-insert existing existing e r.entries,
      )

  by_new_id :
      (uuid path : JsString) (hlc : Hlc) (content_hash : JsString) (stat : Option VaultFileStat)
      (r : FileRegistry)
      → get_by_id
          (save json uuid (
            set_index path uuid
              (set_entry uuid (with_stat stat (new_entry uuid path content_hash hlc)) r)))
          uuid
        ≡ some (with_stat stat (new_entry uuid path content_hash hlc))
  unfolding get_by_id
  by_new_id uuid path hlc content_hash stat r =
      let e : FileEntry = with_stat stat (new_entry uuid path content_hash hlc) in
      rw (entries-save json uuid (set_index path uuid (set_entry uuid e r)))
        (ground (arith, lookup-insert uuid uuid e r.entries))

  by_old_id :
      (existing content_hash : JsString) (hlc : Hlc) (stat : Option VaultFileStat)
      (r : FileRegistry) (old : FileEntry)
      → lookup existing r.entries ≡ some old
      → get_by_id (resurrect json existing content_hash hlc stat r) existing
        ≡ some (if old.deleted then resurrected_entry content_hash hlc stat old else old)
  unfolding get_by_id resurrect
  by_old_id existing content_hash hlc stat r old found =
      let e : FileEntry = resurrected_entry content_hash hlc stat old in
      ground (
        arith,
        found,
        ap (lookup existing) (entries-save json existing (set_entry existing e r)),
        lookup-insert existing existing e r.entries,
      )

  -- In a registry whose index is sound, registering a path leaves an entry that is found by the path and
  -- by the id that is returned: a new one where the path is not tracked, the tombstone made live again with the new
  -- content where there is one, and the live entry untouched where the path is tracked.
  pub get_by_path-register_file :
      (uuid path : JsString) (hlc : Hlc) (content_hash : JsString) (stat : Option VaultFileStat)
      (r : FileRegistry)
      → truthy uuid ≡ true
      → IsSound r
      → (e : FileEntry) × (get_by_path (register_file json uuid path hlc content_hash stat r).0 path
          ≡ some e)
        × (get_by_id
              (register_file json uuid path hlc content_hash stat r).0
              (register_file json uuid path hlc content_hash stat r).1
            ≡ some e)
        × Registered uuid path content_hash hlc stat (get_by_path r path) e
  unfolding register_file get_by_path
  get_by_path-register_file uuid path hlc content_hash stat r t h =
      elim (Option-cases (indexed_id r path)) [
        | inl n ↦ (
          with_stat stat (new_entry uuid path content_hash hlc),
          rw (n, register_file) (register_new uuid path hlc content_hash stat r t),
          rw (n, register_file) (by_new_id uuid path hlc content_hash stat r),
          rw (n, get_by_path) refl,
        )
        | inr (id, n) ↦
            let (at, own) = indexed_truthy r path id n in
            let (old, found, same) = h path id at in
            (
              (if old.deleted then resurrected_entry content_hash hlc stat old else old),
              rw (n, register_file) (resurrected id path content_hash hlc stat r old at own found),
              rw (n, register_file) (by_old_id id content_hash hlc stat r old found),
              rw (get_by_path-at r path id at own, found) refl,
            )
      ]

  -- The adoption of a known id at a new path that is not tracked.
  abbrev adopted_moved :
      JsString
      → JsString
      → JsString
      → Hlc
      → Option JsString
      → JsString
      → FileRegistry
      → FileRegistry
  adopted_moved id path content_hash hlc head old_path r =
      set_index path id
        (set_entry id (adopted_entry id path content_hash hlc head) (unset_index old_path r))

  adopt_moved :
      (id path content_hash : JsString) (hlc : Hlc) (head : Option JsString) (r : FileRegistry)
      (x : FileEntry)
      → lookup id r.entries ≡ some x
      → indexed_id r path ≡ none
      → (x.path === path) ≡ false
      → adopt_remote json id path content_hash hlc head r
        ≡ save json id (adopted_moved id path content_hash hlc head x.path r)
  unfolding adopt_remote drop_duplicate unindex_moved
  adopt_moved id path content_hash hlc head r x found free away = rw (free, found, away) refl

  not_indexed :
      (r : FileRegistry) (path : JsString)
      → lookup path r.path_index ≡ none
      → (indexed_id r path ≡ none) × (get_by_path r path ≡ none)
  unfolding indexed_id get_by_path
  not_indexed r path e = (ground (arith, e), ground (arith, e))

  -- Adopting a remote identity whose old entry stands at a path that another entry has since taken
  -- removes the other's index: the other file stays in the registry, live, and is not found by its path.
  pub adopt_remote_unindexes :
      (id other old_path path content_hash : JsString) (hlc : Hlc) (head : Option JsString)
      (r : FileRegistry) (x y : FileEntry)
      → lookup id r.entries ≡ some x
      → x.path ≡ old_path
      → lookup other r.entries ≡ some y
      → lookup old_path r.path_index ≡ some other
      → lookup path r.path_index ≡ none
      → (id === other) ≡ false
      → (path === old_path) ≡ false
      → (get_by_id (adopt_remote json id path content_hash hlc head r) other ≡ some y)
        × (get_by_path (adopt_remote json id path content_hash hlc head r) old_path ≡ none)
  unfolding get_by_id
  adopt_remote_unindexes id other old_path path content_hash hlc head r x y found at taken index
        free apart away =
      let placed : FileRegistry = adopted_moved id path content_hash hlc head x.path r in
      let step : adopt_remote json id path content_hash hlc head r ≡ save json id placed =
        adopt_moved id path content_hash hlc head r x found ((not_indexed r path free).0)
          (ground arith) in
      (
        rw (step, entries-save json id placed)
            (ground (
              arith,
              lookup-insert id other (adopted_entry id path content_hash hlc head) r.entries,
            )),
        rw (step, get_by_path-save id placed old_path)
            ((not_indexed placed old_path (
              ground (
                arith,
                lookup-insert path old_path id (erase x.path r.path_index),
                lookup-erase x.path old_path r.path_index,
              ))).1),
      )
