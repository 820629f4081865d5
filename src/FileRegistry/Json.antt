-- ===== src/FileRegistry/Json.antt =====
-- `JSON.stringify` and `JSON.parse` on the two kinds of text that src/core/file-registry.ts writes.
use opsblobs_obsidian.Base.{◌≡◌, ◌≢◌, JsString, Option, some, List, [], ◌∷◌}
use opsblobs_obsidian.Lines.{split_lf}
use opsblobs_obsidian.Vault.{FileEntry}

-- A parsed journal line: an object with a string `del`, one with a string `id`, or another value.
pub data JournalRecord : Type 0 where
  deletion : JsString → JournalRecord
  upsert : FileEntry → JournalRecord
  other_value : JournalRecord

-- A text of `JSON.stringify` without indentation is not empty, holds no line feed and is read back.
pub record RegistryJson : Type 0 where
  pub line_text : JournalRecord → JsString
  pub parse_line : JsString → Option JournalRecord
  pub snapshot_text : List (JsString × FileEntry) → JsString
  pub parse_snapshot : JsString → Option (List (JsString × FileEntry))
  pub parse_line-line_text : (r : JournalRecord) → parse_line (line_text r) ≡ some r
  pub one_line : (r : JournalRecord) → split_lf (line_text r) ≡ line_text r ∷ []
  pub line_text_nonempty : (r : JournalRecord) → line_text r ≢ []
  pub parse_snapshot-snapshot_text :
      (entries : List (JsString × FileEntry))
      → parse_snapshot (snapshot_text entries) ≡ some entries
  pub snapshot_text_nonempty : (entries : List (JsString × FileEntry)) → snapshot_text entries ≢ []
