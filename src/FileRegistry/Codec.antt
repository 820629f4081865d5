-- ===== src/FileRegistry/Codec.antt =====
-- The encoding of the texts of src/core/file-registry.ts for concrete runs.
mod Tests
use opsblobs_obsidian.Base.{
  ℕ, zero, suc, ◌+◌, ◌-◌, ◌≡◌, ◌≢◌, refl, sym, ap, JsString, Bool, true, false, Option, none, some,
  List, [], ◌∷◌, ◌++◌, append_assoc, append-nil, arith, if◌then◌else◌, length, take, drop,
  take-append, drop-append,
}
use opsblobs_obsidian.Lines.{split_lf}
use opsblobs_obsidian.Formats.{
  Format, numbers, texts, pairs, options, lists, via, mapped, write_text, read_text, shift,
  split_lf-shift, text_law, text_nonempty,
}
use opsblobs_obsidian.Hlc.{Hlc}
use opsblobs_obsidian.Vault.{FileEntry}
use opsblobs_obsidian.FileRegistry.Json.{RegistryJson, JournalRecord, deletion, upsert, other_value}

to_bool : ℕ → Bool
to_bool zero = false
to_bool (suc n) = true

bools : Format Bool
unfolding to_bool
bools = via numbers to_bool (λ b. if b then 1 else 0) (λ b. ground arith)

abbrev HlcFields : Type 0
HlcFields = ℕ × (ℕ × JsString)

hlcs : Format Hlc
hlcs =
    via (pairs numbers (pairs numbers texts))
      (λ (f : HlcFields). record { wall_time = f.0; counter = f.1.0; device_id = f.1.1 })
      (λ h. (h.wall_time, (h.counter, h.device_id))) (λ h. refl)

abbrev EntryFields : Type 0
EntryFields =
    (JsString × (JsString × JsString))
    × ((Hlc × Bool)
        × ((Option JsString × Option JsString) × (Option (List JsString) × (Option ℕ × Option ℕ))))

abbrev of_fields : EntryFields → FileEntry
of_fields ((id, (path, hash)), ((hlc, deleted), ((synced, head), (parents, (mtime, size))))) =
    record {
      id = id;
      path = path;
      content_hash = hash;
      hlc_timestamp = hlc;
      deleted = deleted;
      last_synced_path = synced;
      head_version_id = head;
      conflict_parents = parents;
      mtime = mtime;
      size = size;
    }

abbrev to_fields : FileEntry → EntryFields
to_fields e = (
  (e.id, (e.path, e.content_hash)),
  (
    (e.hlc_timestamp, e.deleted),
    ((e.last_synced_path, e.head_version_id), (e.conflict_parents, (e.mtime, e.size))),
  ),
)

entries_format : Format FileEntry
entries_format =
    via
      (pairs (pairs texts (pairs texts texts)) (
        pairs (pairs hlcs bools) (
          pairs (pairs (options texts) (options texts))
            (pairs (options (lists texts)) (pairs (options numbers) (options numbers))))))
      of_fields to_fields (λ e. refl)

parse_record : List ℕ → Option (JournalRecord × List ℕ)
parse_record [] = none
parse_record (zero ∷ rest) = mapped deletion (texts.parse rest)
parse_record (suc zero ∷ rest) = mapped upsert (entries_format.parse rest)
parse_record (suc (suc n) ∷ rest) = some (other_value, rest)

print_record : JournalRecord → List ℕ
print_record (deletion id) = 0 ∷ texts.print id
print_record (upsert e) = 1 ∷ entries_format.print e
print_record other_value = 2 ∷ []

record_back :
    (r : JournalRecord) (rest : List ℕ) → parse_record (print_record r ++ rest) ≡ some (r, rest)
unfolding parse_record print_record mapped
record_back (deletion id) rest = rw (texts.parse-print id rest) refl
record_back (upsert e) rest = rw (entries_format.parse-print e rest) refl
record_back other_value rest = refl

records : Format JournalRecord
records = record { print = print_record; parse = parse_record; parse-print = record_back }

pub codec : RegistryJson
unfolding write_text records print_record
codec = record {
  line_text = write_text records;
  parse_line = read_text records;
  snapshot_text = write_text (lists (pairs texts entries_format));
  parse_snapshot = read_text (lists (pairs texts entries_format));
  parse_line-line_text = text_law records;
  one_line = λ r. split_lf-shift (0 ∷ print_record r);
  line_text_nonempty = text_nonempty records;
  parse_snapshot-snapshot_text = text_law (lists (pairs texts entries_format));
  snapshot_text_nonempty = text_nonempty (lists (pairs texts entries_format));
}
