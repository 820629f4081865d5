-- ===== src/Operations/MergeId.antt =====
-- `mergeVersionId` (src/core/operations.ts) and the order of the two parents.
use opsblobs_obsidian.Base.{
  ◌≡◌, refl, JsString, [], ◌∷◌, arith, str_lt_total, str_lt_asymm, str_lt_irrefl,
}
use opsblobs_obsidian.Vault.{Bytes}
use opsblobs_obsidian.Operations.{insert_string, sort_strings, merge_version_id}

sort_pair : (a b : JsString) → sort_strings (a ∷ b ∷ []) ≡ sort_strings (b ∷ a ∷ [])
unfolding sort_strings insert_string
sort_pair a b =
    ground (arith, str_lt_total a b, str_lt_asymm a b, str_lt_asymm b a, str_lt_irrefl a)

-- The two devices that merge one pair of heads into one content give the merge node one id, whichever
-- head is local; and for every digest.
pub merge_version_id_comm :
    (digest : JsString → Bytes) (content_hash a b : JsString)
    → merge_version_id digest content_hash (a ∷ b ∷ [])
      ≡ merge_version_id digest content_hash (b ∷ a ∷ [])
unfolding merge_version_id
merge_version_id_comm digest content_hash a b = rw (sort_pair a b) refl
