-- ===== src/StateMerge/Content.antt =====
-- `resolveContentConflict` of src/merge/state-merge.ts, in the order of its stages.
use opsblobs_obsidian.Base.{
  JsString, Bool, true, false, not, ◌&&◌, ◌||◌, Option, none, some, List, [], ◌∷◌, leb, ◌===◌,
  if◌then◌else◌, length, is_nonneg,
}
use opsblobs_obsidian.Hlc.{hlc_compare, hlc_max}
use opsblobs_obsidian.Dag.{VersionDag, is_ancestor, is_merge_node}
use opsblobs_obsidian.Lines.{join_lf}
use opsblobs_obsidian.Diff3.{ThreeWayMergeResult, Result, ok, ◌>>=◌}
use opsblobs_obsidian.Diff3.Merge.{three_way_merge}
use opsblobs_obsidian.Vault.{
  Bytes, FileEntry, VaultState, MergeAction, write_local, write_merge, conflict, binary_conflict,
  no_op, stored,
}
use opsblobs_obsidian.StateMerge.{TextCodec}
use opsblobs_obsidian.StateMerge.Heads.{
  or_else, known_head, both_heads, Linked, linked, delete_parents, local_at_head, ThreeWayBase,
  resolve_three_way_base, is_binary, whole_file_conflict, adopt_remote,
}

-- The open heads of a two-headed file.
abbrev pub open_heads : Option (List JsString) → Option (List JsString)
open_heads none = none
open_heads (some hs) = if leb 2 (length hs) then some hs else none

abbrev pub all_ancestors : VersionDag → List JsString → JsString → Bool
all_ancestors dag [] v = true
all_ancestors dag (h ∷ hs) v = is_ancestor dag h v && all_ancestors dag hs v

-- Has a peer resolved the conflict? Its head is a merge node that descends from all open heads.
unfoldable pub peer_resolved : Option VersionDag → Option JsString → List JsString → Bool
peer_resolved none head heads = false
peer_resolved (some dag) head heads = elim (known_head head) [
  | none ↦ false
  | some v ↦ is_merge_node dag v && all_ancestors dag heads v
]

-- The stage for a file that is two-headed already.
unfoldable pub hold_or_adopt :
    JsString → FileEntry → VaultState → VaultState → Option VersionDag → List JsString → MergeAction
unfolding peer_resolved
hold_or_adopt file_id re local remote dag heads =
    if peer_resolved dag re.head_version_id heads
    then adopt_remote file_id re
        (or_else (stored remote re.content_hash) (stored local re.content_hash))
    else no_op file_id

-- The stage for linear histories; `none` when the histories have diverged, or are unknown.
unfoldable pub fast_forward :
    JsString → FileEntry → FileEntry → VaultState → VaultState → Option Linked → Option MergeAction
fast_forward file_id le re local remote none = none
fast_forward file_id le re local remote (some k) =
    if local_at_head k le && is_ancestor k.graph k.local_head k.remote_head
    then some (
        adopt_remote file_id re
          (or_else (stored remote re.content_hash) (stored local re.content_hash)))
    else if is_ancestor k.graph k.remote_head k.local_head
    then some (no_op file_id)
    else none

-- The stage for missing bytes: the entry with the later timestamp, if its own bytes are there.
unfoldable pub defer_to_later :
    JsString → FileEntry → FileEntry → Option Bytes → Option Bytes → MergeAction
defer_to_later file_id le re local_content remote_content =
    if is_nonneg (hlc_compare le.hlc_timestamp re.hlc_timestamp)
    then adopt_remote file_id le local_content
    else adopt_remote file_id re remote_content

abbrev pub hash_differs : Option JsString → JsString → Bool
hash_differs none h = true
hash_differs (some b) h = not (h === b)

-- The stage for binary content.
unfoldable pub resolve_binary :
    JsString
    → FileEntry
    → FileEntry
    → Bytes
    → Bytes
    → ThreeWayBase
    → Option (List JsString)
    → MergeAction
resolve_binary file_id le re local_content remote_content b parents =
    let clash : MergeAction =
      binary_conflict file_id le.path re.path local_content remote_content le.hlc_timestamp
        re.hlc_timestamp parents in
    if b.ambiguous then clash else elim b.base_hash [
      | none ↦ clash
      | some base ↦
          if not (re.content_hash === base) && le.content_hash === base
          then adopt_remote file_id re (some remote_content)
          else if not (le.content_hash === base) && re.content_hash === base
          then no_op file_id
          else clash
    ]

module _ (codec : TextCodec) where
  open codec use {decode, encode}

  -- The action for the result of the three-way merge.
  unfoldable pub merged_action :
      JsString → FileEntry → FileEntry → JsString → JsString → ThreeWayMergeResult → MergeAction
  unfolding both_heads
  merged_action file_id le re local_text remote_text result =
      if result.has_conflicts
      then conflict file_id le.path re.path result local_text remote_text (delete_parents le re)
      else let content = encode (join_lf result.merged) in
        let path : JsString =
          if is_nonneg (hlc_compare le.hlc_timestamp re.hlc_timestamp) then le.path else re.path in
        elim (both_heads le re) [
          | some (a, b) ↦ write_merge file_id path content (a ∷ b ∷ [])
          | none ↦ write_local file_id path content (hlc_max le.hlc_timestamp re.hlc_timestamp) none
        ]

  abbrev pub whole_conflict : JsString → FileEntry → FileEntry → JsString → JsString → MergeAction
  whole_conflict file_id le re local_text remote_text =
      conflict file_id le.path re.path (whole_file_conflict local_text remote_text) local_text
        remote_text (delete_parents le re)

  -- The bytes of the base, in either store.
  abbrev pub base_bytes : VaultState → VaultState → Option JsString → Option Bytes
  base_bytes local remote none = none
  base_bytes local remote (some hash) = or_else (stored local hash) (stored remote hash)

  abbrev pub text_or_empty : Option Bytes → JsString
  text_or_empty none = []
  text_or_empty (some bytes) = decode bytes

  abbrev pub is_missing : Option Bytes → Bool
  is_missing none = true
  is_missing (some bytes) = false

  -- The last stages: both contents are at hand and the histories have diverged.
  unfoldable pub reconcile :
      JsString
      → FileEntry
      → FileEntry
      → VaultState
      → VaultState
      → Option Linked
      → Bytes
      → Bytes
      → Result MergeAction
  unfolding resolve_binary merged_action resolve_three_way_base is_binary
  reconcile file_id le re local remote k local_content remote_content =
      let local_text = decode local_content in
      let remote_text = decode remote_content in
      let b = resolve_three_way_base k in
      let ancestor = base_bytes local remote b.base_hash in
      if is_binary local_content || is_binary remote_content
      then ok (resolve_binary file_id le re local_content remote_content b (delete_parents le re))
      else if b.ambiguous
      then ok (whole_conflict file_id le re local_text remote_text)
      else if b.has_known_ancestor && is_missing ancestor
      then ok (whole_conflict file_id le re local_text remote_text)
      else do
        result ← three_way_merge (text_or_empty ancestor) local_text remote_text
        ok (merged_action file_id le re local_text remote_text result)

  unfoldable pub with_contents :
      JsString
      → FileEntry
      → FileEntry
      → VaultState
      → VaultState
      → Option Linked
      → Option Bytes
      → Option Bytes
      → Result MergeAction
  unfolding reconcile defer_to_later
  with_contents file_id le re local remote k (some lc) (some rc) =
      reconcile file_id le re local remote k lc rc
  with_contents file_id le re local remote k none rc = ok (defer_to_later file_id le re none rc)
  with_contents file_id le re local remote k (some lc) none =
      ok (defer_to_later file_id le re (some lc) none)

  unfoldable pub resolve_content_conflict :
      JsString
      → FileEntry
      → FileEntry
      → VaultState
      → VaultState
      → Option VersionDag
      → Result MergeAction
  unfolding hold_or_adopt fast_forward linked with_contents
  resolve_content_conflict file_id le re local remote dag = elim (open_heads le.conflict_parents) [
    | some heads ↦ ok (hold_or_adopt file_id re local remote dag heads)
    | none ↦ elim (fast_forward file_id le re local remote (linked dag le re)) [
      | some action ↦ ok action
      | none ↦
          with_contents file_id le re local remote (linked dag le re) (stored local le.content_hash)
            (stored remote re.content_hash)
    ]
  ]
