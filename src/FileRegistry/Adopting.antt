-- ===== src/FileRegistry/Adopting.antt =====
-- The path index under `applyRemoteEntry`, `adoptRemote` and `reconcileWithVault` of
-- src/core/file-registry.ts.
use opsblobs_obsidian.Base.{
  ℕ, ◌+◌, ◌≤◌, ◌≡◌, ◌≢◌, refl, sym, inl, inr, JsString, Bool, true, false, ◌||◌, Option, none, some,
  List, [], ◌∷◌, arith, ◌===◌, if◌then◌else◌, lookup, lookup-insert, lookup-erase, IsIf,
  HasUniqueKeys, Bool-cases,
}
use opsblobs_obsidian.Hlc.{Hlc}
use opsblobs_obsidian.Vault.{FileEntry}
use opsblobs_obsidian.Metadata.{is_some}
use opsblobs_obsidian.FileRegistry.{FileRegistry, mark_dirty}
use opsblobs_obsidian.FileRegistry.Json.{RegistryJson}
use opsblobs_obsidian.FileRegistry.Mutations.{
  indexed_id, set_entry, set_index, new_entry, deleted_entry, adopted_entry, is_newer_or_equal,
  unindex_moved, apply_remote_entry, drop_duplicate, adopt_remote,
}
use opsblobs_obsidian.FileRegistry.Reconcile.{
  track_files, is_gone, bury_missing, reconcile_with_vault,
}
use opsblobs_obsidian.FileRegistry.Index.{
  Holds, IsSound, IsSoundBut, IsSound-but, IsSound-place, IsSound-save, IsSound-save_all,
  IsSound-edit, IsSoundBut-moved, moved_only,
}
use opsblobs_obsidian.FileRegistry.Indexing.{indexed_at}

-- A tombstone that is put where its id may still be indexed at its own path.
place_unindexed :
    (r : FileRegistry) (id path : JsString) (e : FileEntry)
    → e.path ≡ path
    → ((p : JsString) → lookup p r.path_index ≡ some id → (p === path) ≡ true)
    → IsSound r
    → IsSound (set_entry id e r)
place_unindexed r id path e own only h p j at =
    let (f, k, w) = h p j at in
    elim (Bool-cases (id === j)) [
      | inl t ↦ (e, ground (arith, lookup-insert id j e r.entries), ground (arith, only p))
      | inr t ↦ (f, ground (arith, lookup-insert id j e r.entries), w)
    ]

IsSound-moved :
    (prev : Option FileEntry) (path : JsString) (r : FileRegistry)
    → IsSound r
    → IsSound (unindex_moved prev path r)
unfolding unindex_moved
IsSound-moved none path r h = h
IsSound-moved (some x) path r h =
    IsIf IsSound (x.path === path) r _ (λ e. h)
      (λ e p id at. h p id (ground (arith, lookup-erase x.path p r.path_index)))

-- The dropped duplicate was indexed at the path alone.
IsSoundBut-drop :
    (found : Option JsString) (id path : JsString) (r : FileRegistry)
    → ((j : JsString) → found ≡ some j → lookup path r.path_index ≡ some j)
    → IsSound r
    → IsSoundBut path (drop_duplicate found id r)
unfolding drop_duplicate mark_dirty
IsSoundBut-drop none id path r at h = IsSound-but path r h
IsSoundBut-drop (some x) id path r at h =
    IsIf (IsSoundBut path) (x === id) r _ (λ e. IsSound-but path r h)
      (λ e p j away here.
        let (f, k, own) = h p j here in
        let (g, l, owns) = h path x (at x refl) in
        (f, ground (arith, lookup-erase x j r.entries), own))

-- The UUIDs from the n-th on are new and differ.
abbrev pub IsFresh : (ℕ → JsString) → ℕ → FileRegistry → Type 0
IsFresh uuid n r =
    ((m : ℕ) → n ≤ m → lookup (uuid m) r.entries ≡ none) × ((a b : ℕ) → uuid a ≡ uuid b → a ≡ b)

module _ (json : RegistryJson) where
  pub apply_remote_entry-IsSound :
      (e : FileEntry) (r : FileRegistry) → IsSound r → IsSound (apply_remote_entry json e r)
  unfolding apply_remote_entry
  apply_remote_entry-IsSound e r h =
      let moved : FileRegistry = unindex_moved (lookup e.id r.entries) e.path r in
      let only : (p : JsString) → lookup p moved.path_index ≡ some e.id → (p === e.path) ≡ true =
        λ p at. moved_only e.path e.id r p (IsSound-but e.path r h) at in
      IsIf IsSound (is_newer_or_equal (lookup e.id r.entries) e) r _ (λ n. h)
        (λ n. IsSound-save json e.id _ (
          IsIf IsSound e.deleted (set_entry e.id e moved) _
            (λ d.
              place_unindexed moved e.id e.path e refl only
                (IsSound-moved (lookup e.id r.entries) e.path r h))
            (λ d.
              IsSound-place moved e.id e.path e refl only
                (IsSoundBut-moved e.path (lookup e.id r.entries) r (IsSound-but e.path r h)))))

  pub adopt_remote-IsSound :
      (id path content_hash : JsString) (hlc : Hlc) (head : Option JsString) (r : FileRegistry)
      → IsSound r
      → IsSound (adopt_remote json id path content_hash hlc head r)
  unfolding adopt_remote
  adopt_remote-IsSound id path content_hash hlc head r h =
      let dropped : FileRegistry = drop_duplicate (indexed_id r path) id r in
      let but : IsSoundBut path dropped =
        IsSoundBut-drop (indexed_id r path) id path r (indexed_at json r path) h in
      IsSound-save json id _ (
        IsSound-place (unindex_moved (lookup id dropped.entries) path dropped) id path
          (adopted_entry id path content_hash hlc head) refl
          (λ p at. moved_only path id dropped p but at)
          (IsSoundBut-moved path (lookup id dropped.entries) dropped but))

  abbrev tracked_one : (ℕ → JsString) → ℕ → Hlc → JsString → FileRegistry → FileRegistry
  tracked_one uuid n hlc path r =
      mark_dirty (uuid n)
        (set_index path (uuid n) (set_entry (uuid n) (new_entry (uuid n) path [] hlc) r))

  track_one :
      (uuid : ℕ → JsString) (n : ℕ) (hlc : Hlc) (path : JsString) (skip : Bool) (r : FileRegistry)
      → IsFresh uuid n r
      → IsSound r
      → IsFresh uuid (if skip then n else n + 1) (if skip then r else tracked_one uuid n hlc path r)
        × IsSound (if skip then r else tracked_one uuid n hlc path r)
  unfolding mark_dirty
  track_one uuid n hlc path true r fresh h = (fresh, h)
  track_one uuid n hlc path false r fresh h = (
    (
      λ m le.
          let apart : uuid n ≢ uuid m =
            λ same. let e : n ≡ m = fresh.1 n m same in absurd (omega arith) in
          ground (
            arith,
            apart,
            lookup-insert (uuid n) (uuid m) (new_entry (uuid n) path [] hlc) r.entries,
            fresh.0 m (omega arith),
          ),
      fresh.1,
    ),
    IsSound-place r (uuid n) path (new_entry (uuid n) path [] hlc) refl
        (λ p at. let (f, k, w) = h p (uuid n) at in cc (fresh.0 n (omega arith), k))
        (IsSound-but path r h),
  )

  track_files-IsSound :
      (uuid : ℕ → JsString) (excluded : JsString → Bool) (hlc : Hlc) (paths : List JsString) (n : ℕ)
      (r : FileRegistry)
      → IsFresh uuid n r
      → IsSound r
      → IsSound (track_files uuid n excluded hlc paths r)
  unfolding track_files
  track_files-IsSound uuid excluded hlc [] n r fresh h = h
  track_files-IsSound uuid excluded hlc (path ∷ paths) n r fresh h =
      let skip : Bool = is_some (lookup path r.path_index) || excluded path in
      let step = track_one uuid n hlc path skip r fresh h in
      track_files-IsSound uuid excluded hlc paths (if skip then n else n + 1)
        (if skip then r else tracked_one uuid n hlc path r) (step.0) (step.1)

  -- Each listed entry is in the registry, at the same path.
  abbrev ArePresent : FileRegistry → List (JsString × FileEntry) → Type 0
  ArePresent r [] = Unit
  ArePresent r ((id, e) ∷ entries) = Holds r e.path id × ArePresent r entries

  present_mono :
      (r s : FileRegistry) (entries : List (JsString × FileEntry))
      → ((p id : JsString) → Holds r p id → Holds s p id)
      → ArePresent r entries
      → ArePresent s entries
  present_mono r s [] mono h = tt
  present_mono r s ((id, e) ∷ entries) mono h =
      (mono e.path id h.0, present_mono r s entries mono h.1)

  abbrev buried_one : JsString → FileEntry → Hlc → FileRegistry → FileRegistry
  buried_one id e hlc r = mark_dirty id (set_entry id (deleted_entry hlc e) r)

  bury_one :
      (id : JsString) (e : FileEntry) (hlc : Hlc) (gone : Bool) (r : FileRegistry)
      → Holds r e.path id
      → IsSound r
      → ((p j : JsString) → Holds r p j → Holds (if gone then buried_one id e hlc r else r) p j)
        × IsSound (if gone then buried_one id e hlc r else r)
  unfolding mark_dirty
  bury_one id e hlc false r at h = ((λ p j k. k), h)
  bury_one id e hlc true r (x, found, own) h = (
    λ p j (f, k, w). elim (Bool-cases (id === j)) [
      | inl t ↦ (
        deleted_entry hlc e,
        ground (arith, lookup-insert id j (deleted_entry hlc e) r.entries),
        ground (arith, found, k),
      )
      | inr t ↦ (f, ground (arith, lookup-insert id j (deleted_entry hlc e) r.entries), w)
    ],
    IsSound-edit r id x (deleted_entry hlc e) found (sym own) h,
  )

  bury_missing-IsSound :
      (vault_paths : List JsString) (hlc : Hlc) (entries : List (JsString × FileEntry))
      (r : FileRegistry)
      → ArePresent r entries
      → IsSound r
      → IsSound (bury_missing vault_paths hlc entries r)
  unfolding bury_missing
  bury_missing-IsSound vault_paths hlc [] r present h = h
  bury_missing-IsSound vault_paths hlc ((id, e) ∷ entries) r present h =
      let gone : Bool = is_gone vault_paths e in
      let step = bury_one id e hlc gone r present.0 h in
      bury_missing-IsSound vault_paths hlc entries (if gone then buried_one id e hlc r else r)
        (present_mono r (if gone then buried_one id e hlc r else r) entries (step.0) present.1)
        (step.1)

  all_present :
      (entries : List (JsString × FileEntry)) (r : FileRegistry)
      → HasUniqueKeys entries
      → ((id : JsString) (e : FileEntry)
          → lookup id entries ≡ some e
          → lookup id r.entries ≡ some e)
      → ArePresent r entries
  all_present [] r unique sub = tt
  all_present ((id, e) ∷ entries) r unique sub = (
    (e, sub id e (unfold lookup in (ground arith)), refl),
    all_present entries r unique.1
        (λ j f found. sub j f (unfold lookup in (ground (arith, unique.0, found)))),
  )

  -- A reconciliation keeps the index sound, where the new UUIDs are unused and differ.
  pub reconcile_with_vault-IsSound :
      (uuid : ℕ → JsString) (excluded : JsString → Bool) (hlc : Hlc) (files : List JsString)
      (r : FileRegistry)
      → IsFresh uuid 0 r
      → HasUniqueKeys (track_files uuid 0 excluded hlc files r).entries
      → IsSound r
      → IsSound (reconcile_with_vault json uuid excluded hlc files r)
  unfolding reconcile_with_vault
  reconcile_with_vault-IsSound uuid excluded hlc files r fresh unique h =
      let tracked : FileRegistry = track_files uuid 0 excluded hlc files r in
      IsSound-save_all json (bury_missing files hlc tracked.entries tracked) (
        bury_missing-IsSound files hlc tracked.entries tracked
          (all_present tracked.entries tracked unique (λ id e found. found))
          (track_files-IsSound uuid excluded hlc files 0 r fresh h))
