-- ===== src/Operations/Tests.antt =====
-- Runs of src/core/operations.ts.
use opsblobs_obsidian.Base.{◌≡◌, JsString, codes, some, [], ◌∷◌}
use opsblobs_obsidian.Hlc.{Hlc}
use opsblobs_obsidian.Vault.{Bytes, Operation}
use opsblobs_obsidian.Operations.{create_op, update_op, dedupe_ops_by_id}
use opsblobs_obsidian.Operations.Dedupe.{find_op, Once, dedupe_ops_by_id_first}

-- In place of SHA-256.
abbrev plain_digest : JsString → Bytes
plain_digest text = text

abbrev at : Hlc
at = record { wall_time = 7; counter = 0; device_id = codes "d" }

abbrev next : Hlc
next = record { wall_time = 7; counter = 1; device_id = codes "d" }

abbrev made : Operation
made = create_op (codes "f") (codes "a.md") (codes "h1") at

abbrev edited : Operation
edited = update_op (codes "f") (codes "a.md") (codes "h2") next (some (codes "v"))

dedupe_ops_by_id_first_example :
    Once (dedupe_ops_by_id (made ∷ edited ∷ made ∷ []))
    × ((id : JsString)
        → find_op id (dedupe_ops_by_id (made ∷ edited ∷ made ∷ []))
          ≡ find_op id (made ∷ edited ∷ made ∷ []))
dedupe_ops_by_id_first_example = dedupe_ops_by_id_first (made ∷ edited ∷ made ∷ [])
