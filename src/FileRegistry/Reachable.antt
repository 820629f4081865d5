-- ===== src/FileRegistry/Reachable.antt =====
-- What holds in every reached state of a registry of src/core/file-registry.ts.
use mathlib.Core.Path.{subst}
use opsblobs_obsidian.Base.{
  Option, none, ℕ, ◌≡◌, ◌⊎◌, refl, sym, ◌∙◌, ap, inl, JsString, false, some, List, [], arith,
  contains, lookup,
}
use opsblobs_obsidian.Vault.{FileEntry}
use opsblobs_obsidian.Metadata.{MetadataStore, read}
use opsblobs_obsidian.FileRegistry.{
  FileRegistry, TombstoneReclaim, compact, new_registry, snapshot_entries, flush, load,
}
use opsblobs_obsidian.FileRegistry.Json.{RegistryJson}
use opsblobs_obsidian.FileRegistry.Journal.{text_effect_nil}
use opsblobs_obsidian.FileRegistry.Durable.{IsTracked}
use opsblobs_obsidian.FileRegistry.Saving.{flush-IsTracked, entries-flush, dirty-flush}
use opsblobs_obsidian.FileRegistry.Loading.{load-IsTracked}
use opsblobs_obsidian.FileRegistry.Sessions.{
  interrupted, RegistryCall, IsFreshCall, call, Step, called, restarted, crashed, Reached, started,
  stepped, IsGood,
}
use opsblobs_obsidian.FileRegistry.Interrupted.{
  unsure, unsure-metadata, unsure-IsTracked, interrupted_same,
}
use opsblobs_obsidian.FileRegistry.Calls.{call-Continues}

module _ (json : RegistryJson) where
  start-IsGood : IsGood json (new_registry [])
  unfolding new_registry
  start-IsGood = (
    record {
      unique = tt;
      keyed = unfold lookup in (λ id e found. cc);
      whole = inl (unfold read lookup in refl);
      base = [];
      snapshot = unfold read lookup snapshot_entries in refl;
      base_unique = tt;
      base_keyed = unfold lookup in (λ id e found. cc);
      stored = λ id clean. unfold read lookup in (ground (arith, text_effect_nil json id));
    },
    unfold lookup in (λ p id at. cc),
  )

  loaded-IsGood :
      (r s : FileRegistry)
      → IsTracked json r
      → load json (new_registry r.metadata) ≡ some s
      → IsGood json s
  loaded-IsGood r s h e =
      let (t, loaded, tracked, sound, clean, same) = load-IsTracked json r h in
      subst (IsGood json) (cc (loaded, e)) (tracked, sound)

  Step-IsGood : {r s : FileRegistry} → Step json r s → IsGood json r → IsGood json s
  Step-IsGood {r} {s} (called c fresh e) h =
      let (t, k, good) = call-Continues json c r fresh h in subst (IsGood json) (cc (k, e)) good
  Step-IsGood {r} {s} (restarted e) h = loaded-IsGood r s h.0 e
  Step-IsGood {r} {s} (crashed days reclaim e) h =
      loaded-IsGood (unsure json days reclaim r) s (unsure-IsTracked json days reclaim r h.0) (
        ap (λ (m : MetadataStore). load json (new_registry m))
          (sym (unsure-metadata json days reclaim r))
        ∙ e)

  pub Reached-IsGood : {r : FileRegistry} → Reached json r → IsGood json r
  Reached-IsGood (started r e) = rw e start-IsGood
  Reached-IsGood (stepped h step) = Step-IsGood step (Reached-IsGood h)

  -- On a new device, after any calls, restarts and crashes between the two writes of a compaction, as
  -- long as no append to the journal is cut, the files that a flush leaves load without an error, into
  -- a registry that has every entry of the one in memory, and no other, and nothing left to write.
  pub load-flush :
      (r : FileRegistry)
      → Reached json r
      → (s : FileRegistry) × (load json (new_registry (flush json r).metadata) ≡ some s)
        × ((id : JsString) → lookup id s.entries ≡ lookup id r.entries)
        × (s.dirty_ids ≡ [])
  load-flush r h =
      let good = Reached-IsGood h in
      let (s, loaded, tracked, sound, clean, same) =
        load-IsTracked json (flush json r) (flush-IsTracked json r good.0) in
      (
        s,
        loaded,
        λ id.
            same id (rw (dirty-flush json r) (unfold contains in refl))
            ∙ ap (λ (m : List (JsString × FileEntry)). lookup id m) (entries-flush json r),
        clean,
      )

  -- In every reached state, a restart with no flush before it, and a restart after a crash between the
  -- two writes of a compaction, with or without a reclaim, load without an error. Under each id that was
  -- not still to be written, the first finds what was in memory, and the second as well, or else nothing
  -- where the whole compaction leaves nothing: an entry that is to be reclaimed may come back as it was.
  pub load-crash :
      (days : Option ℕ) (reclaim : Option TombstoneReclaim) (r : FileRegistry)
      → Reached json r
      → (s t : FileRegistry) × (load json (new_registry r.metadata) ≡ some s)
        × (load json (new_registry (interrupted json days reclaim r).metadata) ≡ some t)
        × ((id : JsString)
            → contains r.dirty_ids id ≡ false
            → (lookup id s.entries ≡ lookup id r.entries)
              × ((lookup id t.entries ≡ lookup id r.entries)
                  ⊎ ((lookup id t.entries ≡ none)
                      × (lookup id (compact json days reclaim r).entries ≡ none))))
  load-crash days reclaim r h =
      let good = Reached-IsGood h in
      let (s, loaded, tracked, sound, clean, same) = load-IsTracked json r good.0 in
      let (t, loaded', tracked', sound', clean', same') =
        load-IsTracked json (unsure json days reclaim r)
          (unsure-IsTracked json days reclaim r good.0) in
      (
        s,
        t,
        loaded,
        ap (λ (m : MetadataStore). load json (new_registry m)) (unsure-metadata json days reclaim r)
            ∙ loaded',
        λ id k. (same id k, interrupted_same json days reclaim r t id good.0 loaded' k),
      )

  -- In every reached state, each operation that is handed unused UUIDs ends without a TypeError; and
  -- each indexed path leads to an entry that stands at that path, whose id is the entry's own.
  pub call-Safe :
      (c : RegistryCall) (r : FileRegistry)
      → Reached json r
      → IsFreshCall c r
      → ((s : FileRegistry) × (call json c r ≡ some s))
        × ((path id : JsString)
            → lookup path r.path_index ≡ some id
            → (e : FileEntry) × (lookup id r.entries ≡ some e) × (e.path ≡ path) × (e.id ≡ id))
  call-Safe c r h fresh =
      let good = Reached-IsGood h in
      let (s, e, next) = call-Continues json c r fresh good in
      ((s, e), λ path id at. let (f, k, w) = good.1 path id at in (f, k, w, good.0.keyed id f k))
