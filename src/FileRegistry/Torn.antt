-- ===== src/FileRegistry/Torn.antt =====
-- The append of `flush` of src/core/file-registry.ts after an append that a crash has cut.
use opsblobs_obsidian.Base.{
  ◌≡◌, ◌≢◌, refl, JsString, none, List, [], ◌∷◌, ◌++◌, append_assoc, arith, lookup,
}
use opsblobs_obsidian.Lines.{split_lf}
use opsblobs_obsidian.Vault.{FileEntry}
use opsblobs_obsidian.FileRegistry.{
  FileRegistry, record_of, line_record, replay, delta_text, append_delta,
}
use opsblobs_obsidian.FileRegistry.Json.{RegistryJson}
use opsblobs_obsidian.FileRegistry.Journal.{
  text_effect, text_effect-append, text_effect_nil, lookup-replay,
}
use opsblobs_obsidian.FileRegistry.Durable.{journal_of, journal_of-append}

module _ (json : RegistryJson) where
  refused_line :
      (line id : JsString)
      → split_lf line ≡ line ∷ []
      → line ≢ []
      → json.parse_line line ≡ none
      → text_effect json line id ≡ none
  refused_line [] id one n e = absurd (n refl)
  refused_line (c ∷ line) id one n e = rw one (unfold line_record in (rw e refl))

  glued : (part line : JsString) → part ≢ [] → part ++ line ≢ []
  glued [] line n = absurd (n refl)
  glued (c ∷ part) line n = λ e. cc

  -- After an append that a crash cut inside a line, the append of a flush of one id adds its record to
  -- the cut line. Where neither the cut line nor the two together are JSON text, replaying the journal
  -- finds for every id what it found before the append, while the registry has nothing left to write.
  pub append_delta_torn :
      (r : FileRegistry) (id body part : JsString) (base : List (JsString × FileEntry))
      → r.dirty_ids ≡ id ∷ []
      → journal_of r.metadata ≡ body ++ (10 ∷ part)
      → part ≢ []
      → split_lf part ≡ part ∷ []
      → split_lf (part ++ json.line_text (record_of r.entries id))
        ≡ (part ++ json.line_text (record_of r.entries id)) ∷ []
      → json.parse_line part ≡ none
      → json.parse_line (part ++ json.line_text (record_of r.entries id)) ≡ none
      → ((j : JsString)
          → lookup j (replay json (split_lf (journal_of (append_delta json r).metadata)) base 0).0
            ≡ lookup j (replay json (split_lf (journal_of r.metadata)) base 0).0)
        × ((append_delta json r).dirty_ids ≡ [])
  unfolding append_delta delta_text
  append_delta_torn r id body part base dirty journal n one one' torn torn' = (
    λ j.
        rw
          (
            lookup-replay json (split_lf (journal_of (append_delta json r).metadata)) base 0 j,
            lookup-replay json (split_lf (journal_of r.metadata)) base 0 j,
          )
          (ground (arith, new_text j, old_text j)),
    refl,
  )
    where
      line : JsString
      line = json.line_text (record_of r.entries id)

      old_text :
          (j : JsString) → text_effect json (journal_of r.metadata) j ≡ text_effect json body j
      old_text j =
          rw journal
            (rw (text_effect-append json body part j) (rw (refused_line part j one n torn) refl))

      appended :
          journal_of (append_delta json r).metadata ≡ body ++ (10 ∷ ((part ++ line) ++ (10 ∷ [])))
      appended =
          unfold append_delta delta_text in
          (rw (journal_of-append json r.metadata (delta_text json r.entries r.dirty_ids)) (
            rw (dirty, journal)
              (rw (append_assoc body (10 ∷ part) (line ++ (10 ∷ [])))
                (rw (append_assoc part line (10 ∷ [])) refl))))

      new_text :
          (j : JsString)
          → text_effect json (journal_of (append_delta json r).metadata) j ≡ text_effect json body j
      new_text j = rw appended (
          rw (text_effect-append json body ((part ++ line) ++ (10 ∷ [])) j) (
            rw (text_effect-append json (part ++ line) [] j) (
              rw
                (
                  text_effect_nil json j,
                  refused_line (part ++ line) j one' (glued part line n) torn',
                )
                refl)))
