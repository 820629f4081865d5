-- ===== src/FileRegistry/Journal.antt =====
-- The journal of src/core/file-registry.ts as a text: what replaying it does to the entries.
use opsblobs_obsidian.Base.{
  ℕ, ◌+◌, ◌≡◌, refl, sym, inl, inr, JsString, Option, none, some, List, [], ◌∷◌, ◌++◌, append-nil,
  append_assoc, arith, ◌===◌, if◌then◌else◌, contains, lookup, insert, erase, lookup-insert,
  lookup-erase, HasUniqueKeys, insert-HasUniqueKeys, erase-HasUniqueKeys,
}
use opsblobs_obsidian.Lines.{IsWhole, split_lf, split_lf-append}
use opsblobs_obsidian.Vault.{FileEntry}
use opsblobs_obsidian.Metadata.{is_some}
use opsblobs_obsidian.FileRegistry.{apply_record, record_of, line_record, replay, delta_text}
use opsblobs_obsidian.FileRegistry.Json.{RegistryJson, JournalRecord, deletion, upsert, other_value}

-- Each entry stands under its own id.
abbrev pub IsKeyed : List (JsString × FileEntry) → Type 0
IsKeyed entries = (id : JsString) (e : FileEntry) → lookup id entries ≡ some e → e.id ≡ id

-- What a record does to one id: nothing, or a new binding.
abbrev pub effect : Option JournalRecord → JsString → Option (Option FileEntry)
effect none id = none
effect (some (deletion j)) id = if j === id then some none else none
effect (some (upsert e)) id = if e.id === id then some (some e) else none
effect (some other_value) id = none

abbrev pub after : Option (Option FileEntry) → Option FileEntry → Option FileEntry
after none old = old
after (some new) old = new

abbrev pub later : Option (Option FileEntry) → Option (Option FileEntry) → Option (Option FileEntry)
later none old = old
later (some new) old = some new

lookup-apply_record :
    (rec : Option JournalRecord) (entries : List (JsString × FileEntry)) (id : JsString)
    → lookup id (apply_record rec entries) ≡ after (effect rec id) (lookup id entries)
unfolding apply_record
lookup-apply_record none entries id = refl
lookup-apply_record (some (deletion j)) entries id = ground (arith, lookup-erase j id entries)
lookup-apply_record (some (upsert e)) entries id = ground (arith, lookup-insert e.id id e entries)
lookup-apply_record (some other_value) entries id = refl

apply_record-HasUniqueKeys :
    (rec : Option JournalRecord) (entries : List (JsString × FileEntry))
    → HasUniqueKeys entries
    → HasUniqueKeys (apply_record rec entries)
unfolding apply_record
apply_record-HasUniqueKeys none entries h = h
apply_record-HasUniqueKeys (some (deletion j)) entries h = erase-HasUniqueKeys j entries h
apply_record-HasUniqueKeys (some (upsert e)) entries h = insert-HasUniqueKeys e.id e entries h
apply_record-HasUniqueKeys (some other_value) entries h = h

pub insert-IsKeyed :
    (id : JsString) (e : FileEntry) (entries : List (JsString × FileEntry))
    → e.id ≡ id
    → IsKeyed entries
    → IsKeyed (insert id e entries)
insert-IsKeyed id e entries own h j f k = ground (arith, lookup-insert id j e entries, h j f)

pub erase-IsKeyed :
    (id : JsString) (entries : List (JsString × FileEntry))
    → IsKeyed entries
    → IsKeyed (erase id entries)
erase-IsKeyed id entries h j f k = ground (arith, lookup-erase id j entries, h j f)

apply_record-IsKeyed :
    (rec : Option JournalRecord) (entries : List (JsString × FileEntry))
    → IsKeyed entries
    → IsKeyed (apply_record rec entries)
unfolding apply_record
apply_record-IsKeyed none entries h = h
apply_record-IsKeyed (some (deletion j)) entries h = erase-IsKeyed j entries h
apply_record-IsKeyed (some (upsert e)) entries h = insert-IsKeyed e.id e entries refl h
apply_record-IsKeyed (some other_value) entries h = h

module _ (json : RegistryJson) where
  -- The last binding that a list of lines gives an id.
  abbrev pub last_effect : List JsString → JsString → Option (Option FileEntry)
  last_effect [] id = none
  last_effect (line ∷ lines) id = later (last_effect lines id) (effect (line_record json line) id)

  pub lookup-replay :
      (lines : List JsString) (entries : List (JsString × FileEntry)) (n : ℕ) (id : JsString)
      → lookup id (replay json lines entries n).0 ≡ after (last_effect lines id) (lookup id entries)
  unfolding replay
  lookup-replay [] entries n id = refl
  lookup-replay (line ∷ lines) entries n id = ground (
    arith,
    lookup-replay lines (apply_record (line_record json line) entries)
        (if is_some (line_record json line) then n + 1 else n) id,
    lookup-apply_record (line_record json line) entries id,
  )

  pub replay-HasUniqueKeys :
      (lines : List JsString) (entries : List (JsString × FileEntry)) (n : ℕ)
      → HasUniqueKeys entries
      → HasUniqueKeys (replay json lines entries n).0
  unfolding replay
  replay-HasUniqueKeys [] entries n h = h
  replay-HasUniqueKeys (line ∷ lines) entries n h =
      replay-HasUniqueKeys lines (apply_record (line_record json line) entries) _
        (apply_record-HasUniqueKeys (line_record json line) entries h)

  pub replay-IsKeyed :
      (lines : List JsString) (entries : List (JsString × FileEntry)) (n : ℕ)
      → IsKeyed entries
      → IsKeyed (replay json lines entries n).0
  unfolding replay
  replay-IsKeyed [] entries n h = h
  replay-IsKeyed (line ∷ lines) entries n h =
      replay-IsKeyed lines (apply_record (line_record json line) entries) _
        (apply_record-IsKeyed (line_record json line) entries h)

  last_effect-append :
      (xs ys : List JsString) (id : JsString)
      → last_effect (xs ++ ys) id ≡ later (last_effect ys id) (last_effect xs id)
  last_effect-append [] ys id = ground arith
  last_effect-append (x ∷ xs) ys id = ground (arith, last_effect-append xs ys id)

  -- The bindings of a journal text.
  abbrev pub text_effect : JsString → JsString → Option (Option FileEntry)
  text_effect text id = last_effect (split_lf text) id

  pub text_effect-append :
      (a b id : JsString)
      → text_effect (a ++ (10 ∷ b)) id ≡ later (text_effect b id) (text_effect a id)
  text_effect-append a b id =
      rw (split_lf-append a b) (last_effect-append (split_lf a) (split_lf b) id)

  pub text_effect_nil : (id : JsString) → text_effect [] id ≡ none
  unfolding split_lf line_record
  text_effect_nil id = refl

  -- After a whole journal, an append counts line by line.
  pub text_effect-whole :
      (text delta id : JsString)
      → IsWhole text
      → text_effect (text ++ delta) id ≡ later (text_effect delta id) (text_effect text id)
  text_effect-whole text delta id (inl e) = rw e (ground (arith, text_effect_nil id))
  text_effect-whole text delta id (inr (body, e)) = rw e (
      rw (append_assoc body (10 ∷ []) delta) (
        ground (
          arith,
          text_effect-append body delta id,
          text_effect-append body [] id,
          text_effect_nil id,
        )))

  line_effect :
      (rec : JournalRecord) (id : JsString)
      → last_effect (json.line_text rec ∷ []) id ≡ effect (some rec) id
  line_effect rec id = line_case (json.line_text rec) refl
    where
      line_case :
          (line : JsString)
          → json.line_text rec ≡ line
          → last_effect (line ∷ []) id ≡ effect (some rec) id
      line_case [] e = absurd (json.line_text_nonempty rec e)
      line_case (c ∷ line) e = unfold line_record in (ground (arith, json.parse_line-line_text rec))

  -- The text that `flush` appends binds each of its ids to the live entry.
  pub text_effect-delta_text :
      (entries : List (JsString × FileEntry)) (ids : List JsString) (id : JsString)
      → IsKeyed entries
      → text_effect (delta_text json entries ids) id
        ≡ (if contains ids id then some (lookup id entries) else none)
  unfolding delta_text
  text_effect-delta_text entries [] id keyed = unfold contains in (text_effect_nil id)
  text_effect-delta_text entries (j ∷ ids) id keyed =
      rw
        (text_effect-append (json.line_text (record_of entries j)) (delta_text json entries ids) id)
        (rw (json.one_line (record_of entries j)) (
          rw (line_effect (record_of entries j) id)
            (delta_case (text_effect-delta_text entries ids id keyed) (lookup j entries) refl)))
    where
      delta_case :
          (text_effect (delta_text json entries ids) id
            ≡ (if contains ids id then some (lookup id entries) else none))
          → (found : Option FileEntry) → lookup j entries ≡ found
          → later
              (text_effect (delta_text json entries ids) id)
              (effect (some (record_of entries j)) id)
            ≡ (if contains (j ∷ ids) id then some (lookup id entries) else none)
      delta_case ih none e = unfold record_of contains in (ground (arith, e, ih))
      delta_case ih (some f) e = unfold record_of contains in (ground (arith, e, keyed j f e, ih))

  pub delta_text-IsWhole :
      (entries : List (JsString × FileEntry)) (ids : List JsString)
      → IsWhole (delta_text json entries ids)
  unfolding delta_text
  delta_text-IsWhole entries [] = inl refl
  delta_text-IsWhole entries (j ∷ ids) = elim (delta_text-IsWhole entries ids) [
    | inl e ↦ inr (json.line_text (record_of entries j), rw e refl)
    | inr (body, e) ↦ inr (
      json.line_text (record_of entries j) ++ (10 ∷ body),
      rw e (sym (append_assoc (json.line_text (record_of entries j)) (10 ∷ body) (10 ∷ []))),
    )
  ]

pub IsWhole-append : (a b : JsString) → IsWhole a → IsWhole b → IsWhole (a ++ b)
IsWhole-append a b (inl e) h = rw e h
IsWhole-append a b (inr (body, e)) (inl f) = rw f (rw (append-nil a) (inr (body, e)))
IsWhole-append a b h (inr (body, e)) = inr (a ++ body, rw e (sym (append_assoc a body (10 ∷ []))))
