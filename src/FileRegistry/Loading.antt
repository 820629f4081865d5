-- ===== src/FileRegistry/Loading.antt =====
-- `load` of src/core/file-registry.ts, by a new instance, on the files of another one.
use opsblobs_obsidian.Base.{
  ℕ, ◌≡◌, refl, sym, ap, ◌∙◌, Option, JsString, Bool, false, some, List, [], ◌&&◌, arith, ltb,
  if◌then◌else◌, length, contains, lookup, IsIf,
}
use opsblobs_obsidian.Lines.{split_lf}
use opsblobs_obsidian.Vault.{FileEntry}
use opsblobs_obsidian.Metadata.{MetadataStore, read, text_or_empty}
use opsblobs_obsidian.FileRegistry.{
  FileRegistry, registry_path, snapshot_entries, replay, fold_journal, should_compact,
  rebuild_path_index, load_entries, maybe_compact_on_load, load, new_registry,
}
use opsblobs_obsidian.FileRegistry.Json.{RegistryJson}
use opsblobs_obsidian.FileRegistry.Journal.{
  after, text_effect, lookup-replay, replay-HasUniqueKeys, replay-IsKeyed,
}
use opsblobs_obsidian.FileRegistry.Saving.{entries-fold, dirty-fold, index-fold, fold-IsTracked}
use opsblobs_obsidian.FileRegistry.Index.{IsSound}
use opsblobs_obsidian.FileRegistry.Rebuilding.{rebuild-IsSound}
use opsblobs_obsidian.FileRegistry.Durable.{IsTracked, journal_of}

module _ (json : RegistryJson) where
  -- What `load` makes of the two texts.
  abbrev unindexed : MetadataStore → List (JsString × FileEntry) → FileRegistry
  unindexed store base =
      let journal : JsString = journal_of store in
      let done : List (JsString × FileEntry) × ℕ = replay json (split_lf journal) base 0 in
      record {
        entries = done.0;
        path_index = [];
        defer_save = false;
        dirty_ids = [];
        journal_bytes = length journal;
        journal_records = done.1;
        snapshot_bytes = length (text_or_empty (read store registry_path));
        metadata = store;
      }

  abbrev reread : MetadataStore → List (JsString × FileEntry) → FileRegistry
  reread store base = rebuild_path_index (unindexed store base)

  load_entries_lem :
      (store : MetadataStore) (base : List (JsString × FileEntry))
      → snapshot_entries json (read store registry_path) ≡ some base
      → load_entries json (new_registry store) ≡ some (reread store base)
  unfolding load_entries new_registry
  load_entries_lem store base e = rw (e, load_entries) refl

  reread-IsTracked :
      (r : FileRegistry) (h : IsTracked json r) → IsTracked json (reread r.metadata (h.base))
  unfolding rebuild_path_index
  reread-IsTracked r h = record {
    unique = replay-HasUniqueKeys json (split_lf (journal_of r.metadata)) h.base 0 h.base_unique;
    keyed = replay-IsKeyed json (split_lf (journal_of r.metadata)) h.base 0 h.base_keyed;
    whole = h.whole;
    base = h.base;
    snapshot = h.snapshot;
    base_unique = h.base_unique;
    base_keyed = h.base_keyed;
    stored = λ id clean. sym (lookup-replay json (split_lf (journal_of r.metadata)) h.base 0 id);
  }

  lookup-reread :
      (r : FileRegistry) (h : IsTracked json r) (id : JsString)
      → contains r.dirty_ids id ≡ false
      → lookup id (reread r.metadata (h.base)).entries ≡ lookup id r.entries
  unfolding rebuild_path_index
  lookup-reread r h id clean =
      lookup-replay json (split_lf (journal_of r.metadata)) h.base 0 id ∙ h.stored id clean

  -- What the loaded registry has under an id: the last word of the journal, or else the snapshot.
  pub load_effect :
      (store : MetadataStore) (base : List (JsString × FileEntry)) (s : FileRegistry)
      → snapshot_entries json (read store registry_path) ≡ some base
      → load json (new_registry store) ≡ some s
      → (id : JsString)
      → lookup id s.entries ≡ after (text_effect json (journal_of store) id) (lookup id base)
  unfolding load maybe_compact_on_load new_registry
  load_effect store base s snapshot loaded id =
      let t : FileRegistry = reread store base in
      let go : Bool = ltb 0 t.journal_records && should_compact t in
      let u : FileRegistry = if go then fold_journal json (t, 0) else t in
      let kept : u.entries ≡ t.entries = ground (arith, entries-fold json t 0) in
      let found : load json (new_registry store) ≡ some u =
        rw (load_entries_lem store base snapshot, load) refl in
      ap (λ (x : FileRegistry). lookup id x.entries) (same_registry (sym loaded ∙ found))
      ∙ ap (lookup id) kept
      ∙ (unfold rebuild_path_index in (lookup-replay json (split_lf (journal_of store)) base 0 id))
    where
      same_registry : {x y : FileRegistry} → ◌≡◌ {A = Option FileRegistry} (some x) (some y) → x ≡ y
      same_registry e = cc

  -- Loading the files of a tracked registry succeeds and gives a tracked registry that has nothing
  -- dirty, with every entry that is not dirty in the first one as it is there.
  pub load-IsTracked :
      (r : FileRegistry)
      → IsTracked json r
      → (s : FileRegistry) × (load json (new_registry r.metadata) ≡ some s)
        × IsTracked json s
        × IsSound s
        × (s.dirty_ids ≡ [])
        × ((id : JsString)
            → contains r.dirty_ids id ≡ false
            → lookup id s.entries ≡ lookup id r.entries)
  unfolding load maybe_compact_on_load new_registry
  load-IsTracked r h =
      let t : FileRegistry = reread r.metadata h.base in
      let go : Bool = ltb 0 t.journal_records && should_compact t in
      let s : FileRegistry = if go then fold_journal json (t, 0) else t in
      let kept : s.entries ≡ t.entries = ground (arith, entries-fold json t 0) in
      (
        s,
        rw (load_entries_lem r.metadata h.base h.snapshot, load) refl,
        IsIf (IsTracked json) go (fold_journal json (t, 0)) t
            (λ e. fold-IsTracked json t (reread-IsTracked r h)) (λ e. reread-IsTracked r h),
        IsIf IsSound go (fold_journal json (t, 0)) t
            (λ e. rw (entries-fold json t 0, index-fold json t 0) sound) (λ e. sound),
        IsIf (λ (x : FileRegistry). x.dirty_ids ≡ []) go (fold_journal json (t, 0)) t
            (λ e. dirty-fold json t 0 clean_start) (λ e. clean_start),
        λ id clean. rw kept (lookup-reread r h id clean),
      )
    where
      clean_start : (reread r.metadata h.base).dirty_ids ≡ []
      clean_start = unfold rebuild_path_index in refl

      sound : IsSound (reread r.metadata h.base)
      sound =
          rebuild-IsSound (unindexed r.metadata h.base)
            (replay-HasUniqueKeys json (split_lf (journal_of r.metadata)) h.base 0 h.base_unique)
