-- ===== src/FileRegistry/Tombstones.antt =====
-- `reclaimTombstones` and `compact` of src/core/file-registry.ts.
use opsblobs_obsidian.Base.{
  ℕ, ◌+◌, ◌*◌, ◌≤◌, ◌≡◌, ◌↔◌, ◌⊎◌, refl, inl, inr, JsString, true, false, not, ◌&&◌, Option, none,
  some, List, [], ◌∷◌, arith, ltb, if◌then◌else◌, contains, lookup, HasUniqueKeys, Bool-cases,
}
use opsblobs_obsidian.Vault.{FileEntry}
use opsblobs_obsidian.Metadata.{is_some, read, remove_existing, read-remove}
use opsblobs_obsidian.FileRegistry.{
  FileRegistry, TombstoneReclaim, registry_path, registry_journal_path, tombstone_retention_ms,
  reclaimable, unindex_own, reclaim_loop, reclaim_tombstones, compact, reset_all, snapshot_entries,
}
use opsblobs_obsidian.FileRegistry.Json.{RegistryJson}
use opsblobs_obsidian.FileRegistry.Journal.{IsKeyed, text_effect_nil}
use opsblobs_obsidian.FileRegistry.Durable.{IsTracked, journal_of}
use opsblobs_obsidian.FileRegistry.Saving.{fold_journal-IsTracked, entries-fold}

module _ (days : Option ℕ) (reclaim : TombstoneReclaim) where
  -- What is left of a binding.
  abbrev pub surviving : JsString → Option FileEntry → Option FileEntry
  surviving id none = none
  surviving id (some e) = if reclaimable days reclaim id e then none else some e

  pub lookup-reclaim_loop :
      (entries : List (JsString × FileEntry)) (index : List (JsString × JsString)) (id : JsString)
      → HasUniqueKeys entries
      → lookup id (reclaim_loop days reclaim entries index).0 ≡ surviving id (lookup id entries)
  unfolding reclaim_loop lookup
  lookup-reclaim_loop [] index id unique = refl
  lookup-reclaim_loop ((j, e) ∷ entries) index id unique = ground (
    arith,
    unique.0,
    lookup-reclaim_loop entries
        (if reclaimable days reclaim j e
          then unindex_own (lookup e.path index) j e.path index
          else index)
        id unique.1,
  )

  pub reclaim_loop-HasUniqueKeys :
      (entries : List (JsString × FileEntry)) (index : List (JsString × JsString))
      → HasUniqueKeys entries
      → HasUniqueKeys (reclaim_loop days reclaim entries index).0
  unfolding reclaim_loop
  reclaim_loop-HasUniqueKeys [] index unique = tt
  reclaim_loop-HasUniqueKeys ((j, e) ∷ entries) index unique =
      let next : List (JsString × JsString) =
        if reclaimable days reclaim j e
        then unindex_own (lookup e.path index) j e.path index
        else index in
      ground (
        arith,
        unique.0,
        lookup-reclaim_loop entries next j unique.1,
        reclaim_loop-HasUniqueKeys entries next unique.1,
      )

  pub reclaim_loop-IsKeyed :
      (entries : List (JsString × FileEntry)) (index : List (JsString × JsString))
      → HasUniqueKeys entries
      → IsKeyed entries
      → IsKeyed (reclaim_loop days reclaim entries index).0
  reclaim_loop-IsKeyed entries index unique keyed id e found = kept (lookup id entries) refl
    where
      kept : (old : Option FileEntry) → lookup id entries ≡ old → e.id ≡ id
      kept none k = ground (arith, found, lookup-reclaim_loop entries index id unique)
      kept (some f) k =
          ground (arith, found, lookup-reclaim_loop entries index id unique, keyed id f k)

  -- Nothing is dropped and nothing changes when the count is 0.
  pub reclaim_loop_none :
      (entries : List (JsString × FileEntry)) (index : List (JsString × JsString))
      → (reclaim_loop days reclaim entries index).2 ≡ 0
      → ((reclaim_loop days reclaim entries index).0 ≡ entries)
        × ((reclaim_loop days reclaim entries index).1 ≡ index)
  unfolding reclaim_loop
  reclaim_loop_none [] index e = (refl, refl)
  reclaim_loop_none ((j, f) ∷ entries) index e = elim (Bool-cases (reclaimable days reclaim j f)) [
    | inl t ↦ absurd (ground arith)
    | inr t ↦ ground (arith, reclaim_loop_none entries index)
  ]

  pub reclaim_none :
      (r : FileRegistry)
      → (reclaim_tombstones days reclaim r).1 ≡ 0
      → (reclaim_tombstones days reclaim r).0 ≡ r
  unfolding reclaim_tombstones
  reclaim_none r e = ground (arith, reclaim_loop_none r.entries r.path_index e)

  reclaimable_iff :
      (id : JsString) (e : FileEntry)
      → (reclaimable days reclaim id e ≡ true) ↔ (
          (e.deleted ≡ true)
          × (e.conflict_parents ≡ none)
          × (contains reclaim.pinned id ≡ false)
          × (e.hlc_timestamp.wall_time + tombstone_retention_ms days ≤ reclaim.now))
  unfolding reclaimable
  reclaimable_iff id e = (
    λ h. (ground arith, gone e.conflict_parents refl h, ground arith, ground arith),
    λ h. ground arith,
  )
    where
      gone :
          (c : Option (List JsString))
          → e.conflict_parents ≡ c
          → (e.deleted
              && not (is_some e.conflict_parents)
              && not (contains reclaim.pinned id)
              && not (ltb reclaim.now (e.hlc_timestamp.wall_time + tombstone_retention_ms days)))
            ≡ true
          → e.conflict_parents ≡ none
      gone none k h = k
      gone (some c) k h = ground arith

-- The days of the setting, and thirty where that is less or where there is none.
abbrev pub retention_days : Option ℕ → ℕ
retention_days none = 30
retention_days (some days) = if ltb days 30 then 30 else days

retention_lem : (days : Option ℕ) → tombstone_retention_ms days ≡ retention_days days * 86_400_000
unfolding tombstone_retention_ms
retention_lem none = refl
retention_lem (some days) = ground arith

module _ (json : RegistryJson) where
  pub compact-IsTracked :
      (days : Option ℕ) (reclaim : Option TombstoneReclaim) (r : FileRegistry)
      → IsTracked json r
      → IsTracked json (compact json days reclaim r)
  unfolding compact
  compact-IsTracked days none r h = fold_journal-IsTracked json r 0 h.unique h.keyed (λ e. h)
  compact-IsTracked days (some reclaim) r h =
      let done = reclaim_tombstones days reclaim r in
      fold_journal-IsTracked json done.0 done.1
        (unfold reclaim_tombstones in
          (reclaim_loop-HasUniqueKeys days reclaim r.entries r.path_index h.unique))
        (unfold reclaim_tombstones in
          (reclaim_loop-IsKeyed days reclaim r.entries r.path_index h.unique h.keyed))
        (λ e. rw (reclaim_none days reclaim r e) h)

  pub entries-compact :
      (days : Option ℕ) (reclaim : TombstoneReclaim) (r : FileRegistry) (id : JsString)
      → HasUniqueKeys r.entries
      → lookup id (compact json days (some reclaim) r).entries
        ≡ surviving days reclaim id (lookup id r.entries)
  unfolding compact
  entries-compact days reclaim r id unique =
      rw
        (entries-fold json (reclaim_tombstones days reclaim r).0
          (reclaim_tombstones days reclaim r).1)
        (unfold reclaim_tombstones in
          (lookup-reclaim_loop days reclaim r.entries r.path_index id unique))

  -- A compaction that reclaims drops an entry exactly when the entry is a tombstone without an open
  -- conflict, no pending operation pins its id, and its deletion is at least the retention old, which
  -- is the configured number of days, but thirty where that is less or where no number is set; and it
  -- leaves every other entry as it is.
  pub compact_drops_iff :
      (days : Option ℕ) (reclaim : TombstoneReclaim) (r : FileRegistry) (id : JsString)
      (e : FileEntry)
      → HasUniqueKeys r.entries
      → lookup id r.entries ≡ some e
      → ((lookup id (compact json days (some reclaim) r).entries ≡ none) ↔ (
          (e.deleted ≡ true)
          × (e.conflict_parents ≡ none)
          × (contains reclaim.pinned id ≡ false)
          × (e.hlc_timestamp.wall_time + retention_days days * 86_400_000 ≤ reclaim.now)))
        × ((lookup id (compact json days (some reclaim) r).entries ≡ none)
            ⊎ (lookup id (compact json days (some reclaim) r).entries ≡ some e))
  compact_drops_iff days reclaim r id e unique found =
      let left = entries-compact days reclaim r id unique in
      (
        (
          λ gone.
              let (a, b, c, d) =
                (reclaimable_iff days reclaim id e).0
                  (unfold reclaimable in (ground (arith, left, found))) in
              (a, b, c, omega (arith, d, retention_lem days)),
          λ (a, b, c, d). ground (
            arith,
            left,
            found,
            (reclaimable_iff days reclaim id e).1 (a, b, c, omega (arith, d, retention_lem days)),
          ),
        ),
        unchanged left,
      )
    where
      unchanged :
          lookup id (compact json days (some reclaim) r).entries
            ≡ surviving days reclaim id (lookup id r.entries)
          → (lookup id (compact json days (some reclaim) r).entries ≡ none)
            ⊎ (lookup id (compact json days (some reclaim) r).entries ≡ some e)
      unchanged left = elim (Bool-cases (reclaimable days reclaim id e)) [
        | inl t ↦ inl (ground (arith, left, found, t))
        | inr t ↦ inr (ground (arith, left, found, t))
      ]

  pub reset_all-IsTracked : (r : FileRegistry) → IsTracked json (reset_all r)
  reset_all-IsTracked r = record {
    unique = unfold reset_all in tt;
    keyed = unfold reset_all lookup in (λ id e found. cc);
    whole = inl no_journal;
    base = [];
    snapshot = rw no_snapshot (unfold snapshot_entries in refl);
    base_unique = tt;
    base_keyed = unfold lookup in (λ id e found. cc);
    stored =
        λ id clean. rw no_journal (unfold reset_all in (ground (arith, text_effect_nil json id)));
  }
    where
      no_journal : journal_of (reset_all r).metadata ≡ []
      no_journal =
          unfold reset_all in
          (ground (
            arith,
            read-remove (remove_existing r.metadata registry_path) registry_journal_path
                registry_journal_path,
          ))

      no_snapshot : read (reset_all r).metadata registry_path ≡ none
      no_snapshot =
          unfold reset_all in
          (ground (
            arith,
            read-remove (remove_existing r.metadata registry_path) registry_journal_path
                registry_path,
            read-remove r.metadata registry_path registry_path,
          ))
