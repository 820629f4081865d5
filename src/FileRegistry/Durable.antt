-- ===== src/FileRegistry/Durable.antt =====
-- What src/core/file-registry.ts has on disk, against what it holds in memory.
use opsblobs_obsidian.Base.{
  ◌≡◌, refl, sym, ◌∙◌, inl, JsString, false, none, some, List, [], ◌∷◌, ◌++◌, arith, ◌===◌,
  if◌then◌else◌, contains, lookup, HasUniqueKeys, str_dec, map_from_same,
}
use opsblobs_obsidian.Vault.{FileEntry}
use opsblobs_obsidian.Metadata.{MetadataStore, read, append, text_or_empty, read-write, read-append}
use opsblobs_obsidian.Lines.{IsWhole}
use opsblobs_obsidian.FileRegistry.{
  FileRegistry, registry_path, registry_journal_path, snapshot_entries, delta_text, write_snapshot,
  truncate_journal, append_delta,
}
use opsblobs_obsidian.FileRegistry.Json.{RegistryJson}
use opsblobs_obsidian.FileRegistry.Journal.{
  IsKeyed, after, later, text_effect, text_effect-whole, text_effect-delta_text, delta_text-IsWhole,
  IsWhole-append, text_effect_nil,
}

abbrev pub journal_of : MetadataStore → JsString
journal_of store = text_or_empty (read store registry_journal_path)

-- The registry's two files hold a readable snapshot and a whole journal, and apart from the dirty ids
-- the two together give the entries in memory.
pub record IsTracked (json : RegistryJson) (r : FileRegistry) : Type 0 where
  pub unique : HasUniqueKeys r.entries
  pub keyed : IsKeyed r.entries
  pub whole : IsWhole (journal_of r.metadata)
  pub base : List (JsString × FileEntry)
  pub snapshot : snapshot_entries json (read r.metadata registry_path) ≡ some base
  pub base_unique : HasUniqueKeys base
  pub base_keyed : IsKeyed base
  pub stored :
      (id : JsString)
      → contains r.dirty_ids id ≡ false
      → after (text_effect json (journal_of r.metadata) id) (lookup id base) ≡ lookup id r.entries

pub paths_differ : (registry_path === registry_journal_path) ≡ false
unfolding str_dec
paths_differ = refl

module _ (json : RegistryJson) where
  -- A change in memory only, at ids that are dirty after it.
  pub changed-IsTracked :
      (r s : FileRegistry)
      → s.metadata ≡ r.metadata
      → HasUniqueKeys s.entries
      → IsKeyed s.entries
      → ((id : JsString)
          → contains s.dirty_ids id ≡ false
          → (contains r.dirty_ids id ≡ false) × (lookup id s.entries ≡ lookup id r.entries))
      → IsTracked json r
      → IsTracked json s
  changed-IsTracked r s same unique keyed only h = record {
    unique = unique;
    keyed = keyed;
    whole = rw same h.whole;
    base = h.base;
    snapshot = rw same h.snapshot;
    base_unique = h.base_unique;
    base_keyed = h.base_keyed;
    stored = λ id clean. rw same (h.stored id (only id clean).0 ∙ sym (only id clean).1);
  }

  read_snapshot-append :
      (store : MetadataStore) (text : JsString)
      → read (append store registry_journal_path text) registry_path ≡ read store registry_path
  read_snapshot-append store text =
      ground (arith, read-append store registry_journal_path registry_path text, paths_differ)

  pub journal_of-append :
      (store : MetadataStore) (text : JsString)
      → journal_of (append store registry_journal_path text) ≡ journal_of store ++ text
  journal_of-append store text =
      ground (arith, read-append store registry_journal_path registry_journal_path text)

  pub append_delta-IsTracked :
      (r : FileRegistry) → IsTracked json r → IsTracked json (append_delta json r)
  unfolding append_delta
  append_delta-IsTracked r h = record {
    unique = h.unique;
    keyed = h.keyed;
    whole = rw (journal_of-append r.metadata delta) (
        IsWhole-append (journal_of r.metadata) delta h.whole
          (delta_text-IsWhole json r.entries r.dirty_ids));
    base = h.base;
    snapshot = rw (read_snapshot-append r.metadata delta) h.snapshot;
    base_unique = h.base_unique;
    base_keyed = h.base_keyed;
    stored = λ id clean. rw (journal_of-append r.metadata delta) (
        rw (text_effect-whole json (journal_of r.metadata) delta id h.whole)
          (rw (text_effect-delta_text json r.entries r.dirty_ids id h.keyed) (appended id)));
  }
    where
      delta : JsString
      delta = delta_text json r.entries r.dirty_ids

      appended :
          (id : JsString)
          → after
              (later
                (if contains r.dirty_ids id then some (lookup id r.entries) else none)
                (text_effect json (journal_of r.metadata) id))
              (lookup id h.base)
            ≡ lookup id r.entries
      appended id = ground (arith, h.stored id)

  read_written :
      (entries : List (JsString × FileEntry))
      → HasUniqueKeys entries
      → snapshot_entries json (some (json.snapshot_text entries)) ≡ some entries
  read_written entries h = text_case (json.snapshot_text entries) refl
    where
      text_case :
          (text : JsString)
          → json.snapshot_text entries ≡ text
          → snapshot_entries json (some text) ≡ some entries
      text_case [] e = absurd (json.snapshot_text_nonempty entries e)
      text_case (c ∷ text) e =
          unfold snapshot_entries in
          (ground (arith, json.parse_snapshot-snapshot_text entries, map_from_same entries h))

  pub snapshot-write :
      (r : FileRegistry)
      → HasUniqueKeys r.entries
      → snapshot_entries json (read (write_snapshot json r).metadata registry_path) ≡ some r.entries
  unfolding write_snapshot
  snapshot-write r h =
      rw (read-write r.metadata registry_path registry_path (json.snapshot_text r.entries))
        (ground (arith, read_written r.entries h))

  pub journal-write :
      (r : FileRegistry) → journal_of (write_snapshot json r).metadata ≡ journal_of r.metadata
  unfolding write_snapshot
  journal-write r = ground (
    arith,
    read-write r.metadata registry_path registry_journal_path (json.snapshot_text r.entries),
    paths_differ,
  )

  pub truncate-IsTracked :
      (r : FileRegistry)
      → HasUniqueKeys r.entries
      → IsKeyed r.entries
      → IsTracked json (truncate_journal json (write_snapshot json r))
  truncate-IsTracked r unique keyed = record {
    unique = unfold truncate_journal write_snapshot in unique;
    keyed = unfold truncate_journal write_snapshot in keyed;
    whole = inl emptied;
    base = r.entries;
    snapshot = rw untouched (snapshot-write r unique);
    base_unique = unique;
    base_keyed = keyed;
    stored = λ id clean.
        rw emptied
          (unfold truncate_journal write_snapshot in (ground (arith, text_effect_nil json id)));
  }
    where
      emptied : journal_of (truncate_journal json (write_snapshot json r)).metadata ≡ []
      emptied =
          unfold truncate_journal in
          (ground (
            arith,
            read-write (write_snapshot json r).metadata registry_journal_path registry_journal_path
                [],
          ))

      untouched :
          read (truncate_journal json (write_snapshot json r)).metadata registry_path
          ≡ read (write_snapshot json r).metadata registry_path
      untouched =
          unfold truncate_journal in
          (ground (
            arith,
            read-write (write_snapshot json r).metadata registry_journal_path registry_path [],
            paths_differ,
          ))
