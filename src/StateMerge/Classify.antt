-- ===== src/StateMerge/Classify.antt =====
-- `classifyAndResolve` and `mergeVaultStates` of src/merge/state-merge.ts.
use opsblobs_obsidian.Base.{
  JsString, Bool, true, false, not, ◌&&◌, ◌||◌, Option, none, some, List, [], ◌∷◌, ◌===◌,
  if◌then◌else◌, lookup, insert, add,
}
use opsblobs_obsidian.Hlc.{hlc_max}
use opsblobs_obsidian.Dag.{VersionDag, is_ancestor}
use opsblobs_obsidian.Diff3.{Result, ok, err, type_error, ◌>>=◌}
use opsblobs_obsidian.Vault.{
  FileEntry, VaultState, StateMergeResult, MergeAction, write_local, write_merge, send_remote,
  delete_local, delete_remote, delete_conflict, local_deleted, remote_deleted, no_op, stored,
}
use opsblobs_obsidian.StateMerge.{TextCodec}
use opsblobs_obsidian.StateMerge.Heads.{
  or_else, Linked, linked, delete_parents, local_at_head, is_resolution, is_unchanged_since_base,
  resolve_rename_conflict, adopt_remote,
}
use opsblobs_obsidian.StateMerge.Content.{resolve_content_conflict}
use opsblobs_obsidian.StateMerge.Collision.{resolve_create_collision}

-- path → id over the live entries; a later entry of a path replaces an earlier one.
unfoldable pub live_by_path :
    List (JsString × FileEntry) → List (JsString × JsString) → List (JsString × JsString)
live_by_path [] index = index
live_by_path ((id, entry) ∷ entries) index =
    live_by_path entries (if entry.deleted then index else insert entry.path id index)

-- The heads of two entries with the same content, where they differ.
unfoldable pub converge_heads :
    JsString → FileEntry → FileEntry → VaultState → VaultState → Linked → MergeAction
converge_heads file_id le re local remote k =
    let content = or_else (stored local le.content_hash) (stored remote re.content_hash) in
    if k.local_head === k.remote_head || is_ancestor k.graph k.remote_head k.local_head
    then no_op file_id
    else if not (local_at_head k le)
    then no_op file_id
    else if is_ancestor k.graph k.local_head k.remote_head
    then elim content [
      | none ↦ no_op file_id
      | some bytes ↦ write_local file_id re.path bytes re.hlc_timestamp (some k.remote_head)
    ]
    else elim content [
      | none ↦ no_op file_id
      | some bytes ↦ write_merge file_id le.path bytes (k.local_head ∷ k.remote_head ∷ [])
    ]

unfoldable pub resolve_same_content :
    JsString → FileEntry → FileEntry → VaultState → VaultState → Option VersionDag → MergeAction
unfolding converge_heads resolve_rename_conflict
resolve_same_content file_id le re local remote dag =
    if not (le.path === re.path)
    then resolve_rename_conflict file_id le re
    else elim (linked dag le re) [
      | none ↦ no_op file_id
      | some k ↦ converge_heads file_id le re local remote k
    ]

abbrev pub resolved_by_peer : Option Linked → Bool
resolved_by_peer none = false
resolved_by_peer (some k) = is_resolution k

-- Local deleted, remote present.
unfoldable pub resolve_local_deleted :
    JsString → FileEntry → FileEntry → VaultState → VaultState → Option VersionDag → MergeAction
unfolding linked is_unchanged_since_base
resolve_local_deleted file_id le re local remote dag =
    let content = or_else (stored remote re.content_hash) (stored local re.content_hash) in
    let propagate : MergeAction =
      if is_unchanged_since_base re le dag then delete_remote file_id re.path else elim content [
        | none ↦ no_op file_id
        | some bytes ↦ delete_conflict file_id re.path local_deleted bytes (delete_parents le re)
      ] in
    if resolved_by_peer (linked dag le re)
    then elim content [ some bytes ↦ adopt_remote file_id re (some bytes) | none ↦ propagate ]
    else propagate

-- Local present, remote deleted.
unfoldable pub resolve_remote_deleted :
    JsString → FileEntry → FileEntry → VaultState → VaultState → Option VersionDag → MergeAction
unfolding linked is_unchanged_since_base
resolve_remote_deleted file_id le re local remote dag =
    if resolved_by_peer (linked dag le re)
    then delete_local file_id le.path
    else if is_unchanged_since_base le re dag
    then delete_local file_id le.path
    else elim (or_else (stored local le.content_hash) (stored remote le.content_hash)) [
      | none ↦ no_op file_id
      | some bytes ↦ delete_conflict file_id le.path remote_deleted bytes (delete_parents le re)
    ]

-- A different live id that holds a path.
unfoldable pub colliding : JsString → Option JsString → Option JsString
colliding file_id none = none
colliding file_id (some other) = if other === file_id then none else some other

-- The ids of both states, each once, the local ones first.
unfoldable pub add_ids : List JsString → List (JsString × FileEntry) → List JsString
add_ids ids [] = ids
add_ids ids ((id, _) ∷ entries) = add_ids (add ids id) entries

module _ (codec : TextCodec) where
  unfoldable pub resolve_both :
      JsString
      → FileEntry
      → FileEntry
      → VaultState
      → VaultState
      → Option VersionDag
      → Result MergeAction
  unfolding resolve_same_content resolve_local_deleted resolve_remote_deleted
      resolve_content_conflict
  resolve_both file_id le re local remote dag =
      if le.deleted && re.deleted
      then ok (no_op file_id)
      else if not le.deleted && not re.deleted && le.content_hash === re.content_hash
      then ok (resolve_same_content file_id le re local remote dag)
      else if le.deleted && not re.deleted
      then ok (resolve_local_deleted file_id le re local remote dag)
      else if not le.deleted && re.deleted
      then ok (resolve_remote_deleted file_id le re local remote dag)
      else resolve_content_conflict codec file_id le re local remote dag

  -- Only the remote side knows the file.
  unfoldable pub resolve_remote_only :
      JsString
      → FileEntry
      → VaultState
      → VaultState
      → List (JsString × JsString)
      → Option VersionDag
      → Result MergeAction
  unfolding colliding resolve_create_collision
  resolve_remote_only file_id re local remote local_live dag =
      if re.deleted
      then ok (no_op file_id)
      else elim (colliding file_id (lookup re.path local_live)) [
        | some other ↦ elim (lookup other local.file_entries) [
          | none ↦ err type_error
          | some le ↦ ok (resolve_create_collision codec le re local remote true dag)
        ]
        | none ↦ ok (adopt_remote file_id re (stored remote re.content_hash))
      ]

  -- Only the local side knows the file.
  unfoldable pub resolve_local_only :
      JsString
      → FileEntry
      → VaultState
      → VaultState
      → List (JsString × JsString)
      → Option VersionDag
      → Result MergeAction
  unfolding colliding resolve_create_collision
  resolve_local_only file_id le local remote remote_live dag =
      if le.deleted
      then ok (no_op file_id)
      else elim (colliding file_id (lookup le.path remote_live)) [
        | some other ↦ elim (lookup other remote.file_entries) [
          | none ↦ err type_error
          | some re ↦ ok (resolve_create_collision codec le re local remote false dag)
        ]
        | none ↦ ok (send_remote file_id le.path le.hlc_timestamp)
      ]

  unfoldable pub classify_and_resolve :
      JsString
      → Option FileEntry
      → Option FileEntry
      → VaultState
      → VaultState
      → List (JsString × JsString)
      → List (JsString × JsString)
      → Option VersionDag
      → Result MergeAction
  unfolding resolve_both resolve_remote_only resolve_local_only
  classify_and_resolve file_id none (some re) local remote local_live remote_live dag =
      resolve_remote_only file_id re local remote local_live dag
  classify_and_resolve file_id (some le) none local remote local_live remote_live dag =
      resolve_local_only file_id le local remote remote_live dag
  classify_and_resolve file_id (some le) (some re) local remote local_live remote_live dag =
      resolve_both file_id le re local remote dag
  classify_and_resolve file_id none none local remote local_live remote_live dag = err type_error

  unfoldable pub actions_for :
      List JsString
      → VaultState
      → VaultState
      → List (JsString × JsString)
      → List (JsString × JsString)
      → Option VersionDag
      → Result (List MergeAction)
  unfolding classify_and_resolve
  actions_for [] local remote local_live remote_live dag = ok []
  actions_for (id ∷ ids) local remote local_live remote_live dag = do
    action ←
        classify_and_resolve id (lookup id local.file_entries) (lookup id remote.file_entries) local
          remote local_live remote_live dag
    rest ← actions_for ids local remote local_live remote_live dag
    ok (action ∷ rest)

  unfoldable pub merge_vault_states :
      VaultState → VaultState → Option VersionDag → Result StateMergeResult
  unfolding live_by_path add_ids actions_for
  merge_vault_states local remote dag = do
    actions ←
        actions_for (add_ids (add_ids [] local.file_entries) remote.file_entries) local remote
          (live_by_path local.file_entries []) (live_by_path remote.file_entries []) dag
    ok (record { actions = actions; merged_hlc = hlc_max local.hlc remote.hlc })
