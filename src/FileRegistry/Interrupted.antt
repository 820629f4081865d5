-- ===== src/FileRegistry/Interrupted.antt =====
-- `compact` of src/core/file-registry.ts, cut off between its two writes.
use opsblobs_obsidian.Base.{
  ℕ, ◌≡◌, ◌⊎◌, refl, ap, ◌∙◌, inl, inr, JsString, false, Option, none, some, List, [], ◌∷◌, ◌++◌,
  arith, contains, contains-append, lookup, HasUniqueKeys, Option-cases, Bool-cases,
}
use opsblobs_obsidian.Vault.{FileEntry}
use opsblobs_obsidian.FileRegistry.{
  FileRegistry, TombstoneReclaim, new_registry, reclaimable, reclaim_tombstones, compact, load,
  write_snapshot,
}
use opsblobs_obsidian.FileRegistry.Json.{RegistryJson}
use opsblobs_obsidian.FileRegistry.Journal.{IsKeyed, after, text_effect}
use opsblobs_obsidian.FileRegistry.Durable.{IsTracked, journal_of, journal-write, snapshot-write}
use opsblobs_obsidian.FileRegistry.Saving.{entries-fold}
use opsblobs_obsidian.FileRegistry.Tombstones.{
  surviving, lookup-reclaim_loop, reclaim_loop-HasUniqueKeys, reclaim_loop-IsKeyed, entries-compact,
}
use opsblobs_obsidian.FileRegistry.Loading.{load_effect}
use opsblobs_obsidian.FileRegistry.Sessions.{interrupted}

abbrev keys : List (JsString × FileEntry) → List JsString
keys [] = []
keys ((id, e) ∷ entries) = id ∷ keys entries

no_key :
    (entries : List (JsString × FileEntry)) (id : JsString)
    → contains (keys entries) id ≡ false
    → lookup id entries ≡ none
unfolding contains lookup
no_key [] id h = refl
no_key ((j, e) ∷ entries) id h = ground (arith, no_key entries id)

module _ (json : RegistryJson) (days : Option ℕ) where
  -- What the snapshot keeps of a binding.
  abbrev left : Option TombstoneReclaim → JsString → Option FileEntry → Option FileEntry
  left none id o = o
  left (some reclaim) id o = surviving days reclaim id o

  abbrev reduced : Option TombstoneReclaim → FileRegistry → FileRegistry
  reduced none r = r
  reduced (some reclaim) r = (reclaim_tombstones days reclaim r).0

  interrupted_lem :
      (reclaim : Option TombstoneReclaim) (r : FileRegistry)
      → interrupted json days reclaim r ≡ write_snapshot json (reduced reclaim r)
  unfolding interrupted
  interrupted_lem none r = refl
  interrupted_lem (some reclaim) r = refl

  lookup-reduced :
      (reclaim : Option TombstoneReclaim) (r : FileRegistry) (id : JsString)
      → HasUniqueKeys r.entries
      → lookup id (reduced reclaim r).entries ≡ left reclaim id (lookup id r.entries)
  unfolding reclaim_tombstones
  lookup-reduced none r id unique = refl
  lookup-reduced (some reclaim) r id unique =
      lookup-reclaim_loop days reclaim r.entries r.path_index id unique

  reduced-HasUniqueKeys :
      (reclaim : Option TombstoneReclaim) (r : FileRegistry)
      → HasUniqueKeys r.entries
      → HasUniqueKeys (reduced reclaim r).entries
  unfolding reclaim_tombstones
  reduced-HasUniqueKeys none r unique = unique
  reduced-HasUniqueKeys (some reclaim) r unique =
      reclaim_loop-HasUniqueKeys days reclaim r.entries r.path_index unique

  reduced-IsKeyed :
      (reclaim : Option TombstoneReclaim) (r : FileRegistry)
      → HasUniqueKeys r.entries
      → IsKeyed r.entries
      → IsKeyed (reduced reclaim r).entries
  unfolding reclaim_tombstones
  reduced-IsKeyed none r unique keyed = keyed
  reduced-IsKeyed (some reclaim) r unique keyed =
      reclaim_loop-IsKeyed days reclaim r.entries r.path_index unique keyed

  reduced_metadata :
      (reclaim : Option TombstoneReclaim) (r : FileRegistry)
      → (reduced reclaim r).metadata ≡ r.metadata
  unfolding reclaim_tombstones
  reduced_metadata none r = refl
  reduced_metadata (some reclaim) r = refl

  -- The registry after the first write, with every id that had an entry counted as dirty.
  abbrev pub unsure : Option TombstoneReclaim → FileRegistry → FileRegistry
  unsure reclaim r = record (write_snapshot json (reduced reclaim r)) {
    dirty_ids = keys r.entries ++ r.dirty_ids;
  }

  pub unsure-metadata :
      (reclaim : Option TombstoneReclaim) (r : FileRegistry)
      → (interrupted json days reclaim r).metadata ≡ (unsure reclaim r).metadata
  unsure-metadata reclaim r = rw (interrupted_lem reclaim r) refl

  left-none : (reclaim : Option TombstoneReclaim) (id : JsString) → left reclaim id none ≡ none
  left-none none id = refl
  left-none (some reclaim) id = refl

  pub unsure-IsTracked :
      (reclaim : Option TombstoneReclaim) (r : FileRegistry)
      → IsTracked json r
      → IsTracked json (unsure reclaim r)
  unsure-IsTracked reclaim r h = record {
    unique = unfold write_snapshot in (reduced-HasUniqueKeys reclaim r h.unique);
    keyed = unfold write_snapshot in (reduced-IsKeyed reclaim r h.unique h.keyed);
    whole = rw (journal-write json (reduced reclaim r), reduced_metadata reclaim r) h.whole;
    base = (reduced reclaim r).entries;
    snapshot = snapshot-write json (reduced reclaim r) (reduced-HasUniqueKeys reclaim r h.unique);
    base_unique = reduced-HasUniqueKeys reclaim r h.unique;
    base_keyed = reduced-IsKeyed reclaim r h.unique h.keyed;
    stored = λ id clean.
        rw (journal-write json (reduced reclaim r), reduced_metadata reclaim r)
          (unfold write_snapshot in
            (still id (clean_parts id clean) (h.stored id (clean_parts id clean).1)));
  }
    where
      clean_parts :
          (id : JsString)
          → contains (keys r.entries ++ r.dirty_ids) id ≡ false
          → (contains (keys r.entries) id ≡ false) × (contains r.dirty_ids id ≡ false)
      clean_parts id clean = (
        ground (arith, clean, contains-append (keys r.entries) r.dirty_ids id),
        ground (arith, clean, contains-append (keys r.entries) r.dirty_ids id),
      )

      still :
          (id : JsString)
          → (contains (keys r.entries) id ≡ false) × (contains r.dirty_ids id ≡ false)
          → after (text_effect json (journal_of r.metadata) id) (lookup id h.base)
            ≡ lookup id r.entries
          → after
              (text_effect json (journal_of r.metadata) id)
              (lookup id (reduced reclaim r).entries)
            ≡ lookup id (reduced reclaim r).entries
      still id (k, d) e =
          let gone : lookup id r.entries ≡ none = no_key r.entries id k in
          let gone' : lookup id (reduced reclaim r).entries ≡ none =
            lookup-reduced reclaim r id h.unique
            ∙ ap (left reclaim id) gone
            ∙ left-none reclaim id in
          rw gone' (ground (arith, e, gone))

  entries_compacted :
      (reclaim : Option TombstoneReclaim) (r : FileRegistry) (id : JsString)
      → HasUniqueKeys r.entries
      → lookup id (compact json days reclaim r).entries ≡ left reclaim id (lookup id r.entries)
  unfolding compact
  entries_compacted none r id unique = rw (entries-fold json r 0) refl
  entries_compacted (some reclaim) r id unique = entries-compact json days reclaim r id unique

  left-cases :
      (reclaim : Option TombstoneReclaim) (id : JsString) (o : Option FileEntry)
      → (left reclaim id o ≡ o) ⊎ (left reclaim id o ≡ none)
  left-cases none id o = inl refl
  left-cases (some reclaim) id none = inl refl
  left-cases (some reclaim) id (some e) = elim (Bool-cases (reclaimable days reclaim id e)) [
    | inl t ↦ inr (ground arith)
    | inr t ↦ inl (ground arith)
  ]

  -- Under a clean id the restart finds what was there, or else what the whole compaction leaves: nothing.
  pub interrupted_same :
      (reclaim : Option TombstoneReclaim) (r : FileRegistry) (t : FileRegistry) (id : JsString)
      → IsTracked json r
      → load json (new_registry (unsure reclaim r).metadata) ≡ some t
      → contains r.dirty_ids id ≡ false
      → (lookup id t.entries ≡ lookup id r.entries)
        ⊎ ((lookup id t.entries ≡ none) × (lookup id (compact json days reclaim r).entries ≡ none))
  interrupted_same reclaim r t id h loaded clean =
      let effect = text_effect json (journal_of r.metadata) id in
      let kept : lookup id t.entries ≡ after effect (left reclaim id (lookup id r.entries)) =
        load_effect json (unsure reclaim r).metadata (reduced reclaim r).entries t
          (snapshot-write json (reduced reclaim r) (reduced-HasUniqueKeys reclaim r h.unique))
          loaded id
        ∙ ap
            (λ (text : JsString).
              after (text_effect json text id) (lookup id (reduced reclaim r).entries))
            same_journal
        ∙ ap (after effect) (lookup-reduced reclaim r id h.unique) in
      let before = h.stored id clean in
      elim (left-cases reclaim id (lookup id r.entries)) [
        | inl same ↦ inl (ground (arith, kept, same, before))
        | inr gone ↦ elim (Option-cases effect) [
          | inl quiet ↦
              inr
                (ground (arith, kept, gone, quiet), entries_compacted reclaim r id h.unique ∙ gone)
          | inr (x, says) ↦ inl (ground (arith, kept, says, before))
        ]
      ]
    where
      same_journal : journal_of (unsure reclaim r).metadata ≡ journal_of r.metadata
      same_journal =
          journal-write json (reduced reclaim r) ∙ ap journal_of (reduced_metadata reclaim r)
