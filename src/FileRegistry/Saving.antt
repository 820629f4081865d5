-- ===== src/FileRegistry/Saving.antt =====
-- `flush`, `compact`, `save` and `load` of src/core/file-registry.ts, on the files and on the entries.
use opsblobs_obsidian.Base.{
  ℕ, ◌≡◌, JsString, true, [], ◌&&◌, arith, ◌==◌, lookup, HasUniqueKeys, IsIf,
}
use opsblobs_obsidian.FileRegistry.{
  FileRegistry, write_snapshot, truncate_journal, fold_journal, append_delta, compact_when_due,
  flush, save_all, save, mark_dirty,
}
use opsblobs_obsidian.FileRegistry.Json.{RegistryJson}
use opsblobs_obsidian.FileRegistry.Journal.{IsKeyed, after, text_effect}
use opsblobs_obsidian.FileRegistry.Durable.{
  IsTracked, journal_of, append_delta-IsTracked, truncate-IsTracked, snapshot-write, journal-write,
}

module _ (json : RegistryJson) where
  -- A crash between the two writes of `compact` leaves files that give the same entries as before,
  -- apart from the ids that are dirty.
  pub write_snapshot-IsTracked :
      (r : FileRegistry) → IsTracked json r → IsTracked json (write_snapshot json r)
  write_snapshot-IsTracked r h = record {
    unique = unfold write_snapshot in h.unique;
    keyed = unfold write_snapshot in h.keyed;
    whole = rw (journal-write json r) h.whole;
    base = r.entries;
    snapshot = snapshot-write json r h.unique;
    base_unique = h.unique;
    base_keyed = h.keyed;
    stored = λ id clean.
        rw (journal-write json r)
          (unfold write_snapshot in (again id (h.stored id (unfold write_snapshot in clean))));
  }
    where
      again :
          (id : JsString)
          → after (text_effect json (journal_of r.metadata) id) (lookup id h.base)
            ≡ lookup id r.entries
          → after (text_effect json (journal_of r.metadata) id) (lookup id r.entries)
            ≡ lookup id r.entries
      again id e = ground arith

  pub fold_journal-IsTracked :
      (r : FileRegistry) (dropped : ℕ)
      → HasUniqueKeys r.entries
      → IsKeyed r.entries
      → (dropped ≡ 0 → IsTracked json r)
      → IsTracked json (fold_journal json (r, dropped))
  unfolding fold_journal
  fold_journal-IsTracked r dropped unique keyed h =
      IsIf (IsTracked json) _ r (truncate_journal json (write_snapshot json r))
        (λ e. h (same_count e)) (λ e. truncate-IsTracked json r unique keyed)
    where
      same_count : (r.journal_records == 0 && dropped == 0) ≡ true → dropped ≡ 0
      same_count e = ground arith

  pub fold-IsTracked :
      (r : FileRegistry) → IsTracked json r → IsTracked json (fold_journal json (r, 0))
  fold-IsTracked r h = fold_journal-IsTracked r 0 h.unique h.keyed (λ e. h)

  compact_when_due-IsTracked :
      (r : FileRegistry) → IsTracked json r → IsTracked json (compact_when_due json r)
  unfolding compact_when_due
  compact_when_due-IsTracked r h =
      IsIf (IsTracked json) _ (fold_journal json (r, 0)) r (λ e. fold-IsTracked r h) (λ e. h)

  pub flush-IsTracked : (r : FileRegistry) → IsTracked json r → IsTracked json (flush json r)
  unfolding flush
  flush-IsTracked r h =
      IsIf (IsTracked json) _ r (compact_when_due json (append_delta json r)) (λ e. h)
        (λ e. compact_when_due-IsTracked (append_delta json r) (append_delta-IsTracked json r h))

  pub save_all-IsTracked : (r : FileRegistry) → IsTracked json r → IsTracked json (save_all json r)
  unfolding save_all
  save_all-IsTracked r h =
      IsIf (IsTracked json) _ r (flush json r) (λ e. h) (λ e. flush-IsTracked r h)

  pub entries-fold : (r : FileRegistry) (n : ℕ) → (fold_journal json (r, n)).entries ≡ r.entries
  unfolding fold_journal truncate_journal write_snapshot
  entries-fold r n = ground arith

  pub dirty-fold :
      (r : FileRegistry) (n : ℕ) → r.dirty_ids ≡ [] → (fold_journal json (r, n)).dirty_ids ≡ []
  unfolding fold_journal truncate_journal write_snapshot
  dirty-fold r n e = ground arith

  pub index-fold : (r : FileRegistry) (n : ℕ) → (fold_journal json (r, n)).path_index ≡ r.path_index
  unfolding fold_journal truncate_journal write_snapshot
  index-fold r n = ground arith

  pub entries-flush : (r : FileRegistry) → (flush json r).entries ≡ r.entries
  unfolding flush compact_when_due append_delta
  entries-flush r = ground (arith, entries-fold (append_delta json r) 0)

  pub index-flush : (r : FileRegistry) → (flush json r).path_index ≡ r.path_index
  unfolding flush compact_when_due append_delta
  index-flush r = ground (arith, index-fold (append_delta json r) 0)

  pub dirty-flush : (r : FileRegistry) → (flush json r).dirty_ids ≡ []
  unfolding flush compact_when_due append_delta
  dirty-flush r = ground (arith, dirty-fold (append_delta json r) 0)

  pub entries-save_all : (r : FileRegistry) → (save_all json r).entries ≡ r.entries
  unfolding save_all
  entries-save_all r = ground (arith, entries-flush r)

  pub index-save_all : (r : FileRegistry) → (save_all json r).path_index ≡ r.path_index
  unfolding save_all
  index-save_all r = ground (arith, index-flush r)

  pub entries-save : (id : JsString) (r : FileRegistry) → (save json id r).entries ≡ r.entries
  unfolding save mark_dirty
  entries-save id r = ground (arith, entries-save_all (mark_dirty id r))

  pub index-save : (id : JsString) (r : FileRegistry) → (save json id r).path_index ≡ r.path_index
  unfolding save mark_dirty
  index-save id r = ground (arith, index-save_all (mark_dirty id r))
