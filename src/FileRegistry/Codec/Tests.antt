-- ===== src/FileRegistry/Codec/Tests.antt =====
-- A concrete run of the journal of src/core/file-registry.ts after a cut append.
use opsblobs_obsidian.Base.{◌≡◌, refl, JsString, true, [], ◌∷◌, codes, lookup, str_dec}
use opsblobs_obsidian.Lines.{split_lf}
use opsblobs_obsidian.Hlc.{Hlc}
use opsblobs_obsidian.Metadata.{read}
use opsblobs_obsidian.FileRegistry.{
  FileRegistry, registry_journal_path, record_of, replay, append_delta,
}
use opsblobs_obsidian.FileRegistry.Mutations.{new_entry}
use opsblobs_obsidian.FileRegistry.Durable.{journal_of}
use opsblobs_obsidian.FileRegistry.Torn.{append_delta_torn}
use opsblobs_obsidian.FileRegistry.Codec.{
  codec, records, print_record, parse_record, entries_format, hlcs, bools,
}
use opsblobs_obsidian.Formats.{
  write_text, read_text, shift, lists, pairs, texts, unshift, whole_text, parse_body, numbers,
  options, via, mapped, parse_then, parse_text, parse_number, print_items, print_option,
}

abbrev stamp : Hlc
stamp = record { wall_time = 5; counter = 0; device_id = codes "d" }

-- The journal ends in a line of which a crash kept the first character.
abbrev cut : JsString
cut = 11 ∷ []

abbrev torn : FileRegistry
torn = record {
  entries = (codes "u1", new_entry (codes "u1") (codes "n.md") (codes "h1") stamp) ∷ [];
  path_index = (codes "n.md", codes "u1") ∷ [];
  defer_save = true;
  dirty_ids = codes "u1" ∷ [];
  journal_bytes = 3;
  journal_records = 1;
  snapshot_bytes = 0;
  metadata = (registry_journal_path, 12 ∷ 10 ∷ cut) ∷ [];
}

append_delta_torn_example :
    ((j : JsString)
      → lookup j (replay codec (split_lf (journal_of (append_delta codec torn).metadata)) [] 0).0
        ≡ lookup j (replay codec (split_lf (journal_of torn.metadata)) [] 0).0)
    × ((append_delta codec torn).dirty_ids ≡ [])
unfolding codec write_text records print_record read_text shift lists pairs texts entries_format
    parse_record unshift whole_text parse_body numbers options hlcs bools via mapped parse_then
    parse_text parse_number print_items print_option lookup str_dec split_lf read record_of
append_delta_torn_example =
    append_delta_torn codec torn (codes "u1") (12 ∷ []) cut [] refl refl (λ e. cc) refl refl refl
      refl
