-- ===== src/Operations.antt =====
-- src/core/operations.ts: the operation factories, the content-addressed id of a merge node and the
-- filter of repeated ids. The digest (`crypto.subtle.digest` of the UTF-8 bytes, SHA-256) is a
-- parameter: a function from the canonical text to the bytes of its hash.
pub mod MergeId
pub mod Dedupe
mod Tests
use opsblobs_obsidian.Base.{
  ℕ, zero, suc, ◌+◌, ◌/◌, ◌%◌, JsString, Bool, true, false, Option, none, some, List, [], ◌∷◌, ◌++◌,
  ltb, if◌then◌else◌, codes, contains, add, str_lt,
}
use opsblobs_obsidian.Hlc.{Hlc}
use opsblobs_obsidian.Hlc.Text.{hlc_to_string}
use opsblobs_obsidian.Dag.{truthy}
use opsblobs_obsidian.Vault.{Bytes, Operation, OperationType, create, update, delete, move}

abbrev pub op_format_version : ℕ
op_format_version = 1

-- `[...strings].sort()`: by code units, stable.
unfoldable pub insert_string : JsString → List JsString → List JsString
insert_string s [] = s ∷ []
insert_string s (t ∷ ts) = if str_lt t s then t ∷ insert_string s ts else s ∷ t ∷ ts

unfoldable pub sort_strings : List JsString → List JsString
unfolding insert_string
sort_strings [] = []
sort_strings (s ∷ ss) = insert_string s (sort_strings ss)

-- `strings.join(' ')`
unfoldable pub join_space : List JsString → JsString
join_space [] = []
join_space (s ∷ []) = s
join_space (s ∷ t ∷ ss) = s ++ (32 ∷ join_space (t ∷ ss))

-- A digit of base 16, in lower case.
abbrev pub hex_digit : ℕ → ℕ
hex_digit d = if ltb d 10 then 48 + d else 87 + d

unfoldable pub to_hex : Bytes → JsString
to_hex [] = []
to_hex (b ∷ bs) = hex_digit (b / 16) ∷ hex_digit (b % 16) ∷ to_hex bs

module _ (digest : JsString → Bytes) where
  unfoldable pub merge_version_id : JsString → List JsString → JsString
  unfolding sort_strings join_space to_hex
  merge_version_id content_hash parents =
      codes "m-"
      ++ to_hex
          (digest (join_space (codes "merge" ∷ (sort_strings parents ++ (content_hash ∷ [])))))

-- The fields that every operation shares.
unfoldable pub stamp :
    Hlc → JsString → OperationType → JsString → JsString → List JsString → Operation
unfolding hlc_to_string
stamp hlc file_id type path content_hash parents = record {
  v = op_format_version;
  id = hlc_to_string hlc;
  hlc_timestamp = hlc;
  file_id = file_id;
  type = type;
  path = path;
  content_hash = content_hash;
  parents = parents;
}

-- `parentVersion ? [parentVersion] : []`
abbrev pub sole_parent : Option JsString → List JsString
sole_parent none = []
sole_parent (some p) = if truthy p then p ∷ [] else []

unfoldable pub create_op : JsString → JsString → JsString → Hlc → Operation
unfolding stamp
create_op file_id path content_hash hlc = stamp hlc file_id create path content_hash []

unfoldable pub update_op : JsString → JsString → JsString → Hlc → Option JsString → Operation
unfolding stamp
update_op file_id path content_hash hlc parent_version =
    stamp hlc file_id update path content_hash (sole_parent parent_version)

unfoldable pub delete_op : JsString → JsString → JsString → Hlc → Option JsString → Operation
unfolding stamp
delete_op file_id path content_hash hlc parent_version =
    stamp hlc file_id delete path content_hash (sole_parent parent_version)

unfoldable pub move_op : JsString → JsString → JsString → Hlc → Option JsString → Operation
unfolding stamp
move_op file_id path content_hash hlc parent_version =
    stamp hlc file_id move path content_hash (sole_parent parent_version)

unfoldable pub merge_op :
    JsString → JsString → JsString → Hlc → List JsString → JsString → Operation
merge_op file_id path content_hash hlc parents id = record {
  v = op_format_version;
  id = id;
  hlc_timestamp = hlc;
  file_id = file_id;
  type = update;
  path = path;
  content_hash = content_hash;
  parents = parents;
}

unfoldable pub merge_delete_op :
    JsString → JsString → JsString → Hlc → List JsString → JsString → Operation
merge_delete_op file_id path content_hash hlc parents id = record {
  v = op_format_version;
  id = id;
  hlc_timestamp = hlc;
  file_id = file_id;
  type = delete;
  path = path;
  content_hash = content_hash;
  parents = parents;
}

-- The operations whose id is not in `seen`, each id once.
unfoldable pub unseen_ops : List Operation → List JsString → List Operation
unseen_ops [] seen = []
unseen_ops (op ∷ ops) seen =
    if contains seen op.id then unseen_ops ops seen else op ∷ unseen_ops ops (add seen op.id)

unfoldable pub dedupe_ops_by_id : List Operation → List Operation
unfolding unseen_ops
dedupe_ops_by_id ops = unseen_ops ops []
