-- ===== src/StateMerge/Heads.antt =====
-- The small helpers of src/merge/state-merge.ts over entries, heads and the version graph.
use opsblobs_obsidian.Base.{
  JsString, Bool, true, false, not, ◌&&◌, ◌||◌, Option, none, some, List, [], ◌∷◌, ◌==◌, ◌===◌,
  if◌then◌else◌, length, take, str_lt, ℤ, is_nonneg, is_neg, is_zero, sub_ℕ,
}
use opsblobs_obsidian.Hlc.{hlc_compare}
use opsblobs_obsidian.Dag.{
  VersionDag, truthy, is_ancestor, is_merge_node, content_hash_of, merge_base, MergeBaseResult,
  no_base, multiple, base,
}
use opsblobs_obsidian.Diff3.{ThreeWayMergeResult}
use opsblobs_obsidian.Lines.{normalize_lines}
use opsblobs_obsidian.Vault.{Bytes, FileEntry, MergeAction, move_local, no_op, write_local}

-- `a ?? b`
abbrev pub or_else {ℓ} : {A : Type ℓ} → Option A → Option A → Option A
or_else none o = o
or_else (some a) o = some a

-- A head as a condition: `null` and `''` are falsy.
abbrev pub known_head : Option JsString → Option JsString
known_head none = none
known_head (some h) = if truthy h then some h else none

-- Both heads, where both are known.
unfoldable pub both_heads : FileEntry → FileEntry → Option (JsString × JsString)
both_heads le re = elim (known_head le.head_version_id) [
  | none ↦ none
  | some a ↦ elim (known_head re.head_version_id) [ none ↦ none | some b ↦ some (a, b) ]
]

pub record Linked : Type 0 where
  pub graph : VersionDag
  pub local_head : JsString
  pub remote_head : JsString

-- `dag && le.headVersionId && re.headVersionId`
unfoldable pub linked : Option VersionDag → FileEntry → FileEntry → Option Linked
unfolding both_heads
linked none le re = none
linked (some dag) le re = elim (both_heads le re) [
  | none ↦ none
  | some (a, b) ↦ some (record { graph = dag; local_head = a; remote_head = b })
]

-- The pair of conflicting heads that an action carries (`deleteParents`, `conflictParents`).
unfoldable pub delete_parents : FileEntry → FileEntry → Option (List JsString)
unfolding both_heads
delete_parents le re = elim (both_heads le re) [ none ↦ none | some (a, b) ↦ some (a ∷ b ∷ []) ]

abbrev pub same_hash : Option JsString → JsString → Bool
same_hash none h = false
same_hash (some g) h = g === h

-- Is the local content that of its head?
abbrev pub local_at_head : Linked → FileEntry → Bool
local_at_head k le = same_hash (content_hash_of k.graph k.local_head) le.content_hash

-- A merge node that descends from our head: a peer's resolution.
abbrev pub is_resolution : Linked → Bool
is_resolution k =
    is_merge_node k.graph k.remote_head && is_ancestor k.graph k.local_head k.remote_head

pub record ThreeWayBase : Type 0 where
  pub base_hash : Option JsString
  pub ambiguous : Bool
  pub has_known_ancestor : Bool

abbrev pub disconnected : ThreeWayBase
disconnected = record { base_hash = none; ambiguous = false; has_known_ancestor = false }

unfoldable pub resolve_three_way_base : Option Linked → ThreeWayBase
resolve_three_way_base none = disconnected
resolve_three_way_base (some k) = elim (merge_base k.graph k.local_head k.remote_head) [
  | multiple ↦ record { base_hash = none; ambiguous = true; has_known_ancestor = false }
  | base mb ↦ record {
    base_hash = content_hash_of k.graph mb;
    ambiguous = false;
    has_known_ancestor = true;
  }
  | no_base ↦ disconnected
]

abbrev pub base_hash_of : VersionDag → MergeBaseResult → Option JsString
base_hash_of dag no_base = none
base_hash_of dag multiple = none
base_hash_of dag (base b) = content_hash_of dag b

abbrev pub renamed_since : Option JsString → JsString → Bool
renamed_since none path = false
renamed_since (some synced) path = not (path === synced)

unfoldable pub is_unchanged_since_base : FileEntry → FileEntry → Option VersionDag → Bool
unfolding linked
is_unchanged_since_base survivor other dag =
    if renamed_since (or_else survivor.last_synced_path other.last_synced_path) survivor.path
    then false
    else elim (linked dag survivor other) [
      | none ↦ false
      | some k ↦
          same_hash (base_hash_of k.graph (merge_base k.graph k.local_head k.remote_head))
            survivor.content_hash
    ]

abbrev pub has_zero : Bytes → Bool
has_zero [] = false
has_zero (b ∷ bs) = b == 0 || has_zero bs

-- A zero byte among the first 8192.
unfoldable pub is_binary : Bytes → Bool
is_binary content = has_zero (take 8192 content)

unfoldable pub whole_file_conflict : JsString → JsString → ThreeWayMergeResult
unfolding normalize_lines
whole_file_conflict local_text remote_text =
    let local_lines = normalize_lines local_text in
    record {
      merged = local_lines;
      conflicts =
          record {
            start_line = 0;
            end_line = sub_ℕ (length local_lines) 1;
            ancestor = [];
            local = local_lines;
            remote = normalize_lines remote_text;
          }
          ∷ [];
      has_conflicts = true;
    }

unfoldable pub resolve_rename_conflict : JsString → FileEntry → FileEntry → MergeAction
resolve_rename_conflict file_id le re =
    if is_nonneg (hlc_compare le.hlc_timestamp re.hlc_timestamp)
    then no_op file_id
    else move_local file_id le.path re.path

-- Which entry wins a create/create collision: true for the local one.
unfoldable pub local_wins_collision : FileEntry → FileEntry → Bool
local_wins_collision le re =
    let cmp : ℤ = hlc_compare le.hlc_timestamp re.hlc_timestamp in
    if is_neg cmp then false else if is_zero cmp then str_lt re.id le.id else true

unfoldable pub pick_collision_winner : FileEntry → FileEntry → FileEntry
unfolding local_wins_collision
pick_collision_winner le re = if local_wins_collision le re then le else re

-- Adopt the remote version, if its bytes are at hand.
abbrev pub adopt_remote : JsString → FileEntry → Option Bytes → MergeAction
adopt_remote file_id re none = no_op file_id
adopt_remote file_id re (some content) =
    write_local file_id re.path content re.hlc_timestamp re.head_version_id
