-- ===== src/StateMerge/MergeNodes/Branches.antt =====
-- The branches of src/merge/state-merge.ts that mint merge nodes, for a file of both sides.
use opsblobs_obsidian.Base.{
  ◌≡◌, JsString, not, ◌&&◌, ◌||◌, Option, none, some, ◌===◌, arith, is_nonneg,
}
use opsblobs_obsidian.Hlc.{hlc_compare}
use opsblobs_obsidian.Dag.{VersionDag, is_ancestor}
use opsblobs_obsidian.Diff3.{ThreeWayMergeResult, ok}
use opsblobs_obsidian.Diff3.Merge.{three_way_merge}
use opsblobs_obsidian.Vault.{Bytes, FileEntry, VaultState, MergeAction, no_op, stored}
use opsblobs_obsidian.StateMerge.{TextCodec}
use opsblobs_obsidian.StateMerge.Heads.{
  or_else, Linked, linked, both_heads, delete_parents, local_at_head, resolve_three_way_base,
  is_binary,
}
use opsblobs_obsidian.StateMerge.Content.{
  open_heads, peer_resolved, hold_or_adopt, fast_forward, defer_to_later, merged_action, reconcile,
  with_contents, resolve_content_conflict, text_or_empty, base_bytes, whole_conflict, is_missing,
}
use opsblobs_obsidian.StateMerge.Classify.{
  resolve_local_deleted, resolve_remote_deleted, resolve_both,
}
use opsblobs_obsidian.StateMerge.MergeNodes.{
  NotBehind, Unites, if-Unites, option-Unites, heads-parents, fast_forward-NotBehind, adopt-Unites,
  same_content-Unites, UnitesResult, if-UnitesResult, option-UnitesResult, then-UnitesResult,
  binary-Unites, if_some-Unites, no_merge-Unites,
}

module _ (le re : FileEntry) (dag : Option VersionDag) (codec : TextCodec)
    (local remote : VaultState) where
  open codec use {decode, encode}

  merged-Unites :
      (id : JsString) (lt rt : JsString) (result : ThreeWayMergeResult)
      → NotBehind (linked dag le re)
      → Unites le re dag (merged_action codec id le re lt rt result)
  unfolding merged_action
  merged-Unites id lt rt result n =
      if-Unites le re dag result.has_conflicts _ _ (λ _. tt)
        (λ _.
          option-Unites le re dag (both_heads le re) _ _ (λ _. tt)
            (λ (a, b) e. (heads-parents le re dag a b e, n)))

  contents-Unites :
      (id : JsString) (lc rc : Option Bytes)
      → NotBehind (linked dag le re)
      → UnitesResult le re dag (with_contents codec id le re local remote (linked dag le re) lc rc)
  unfolding with_contents reconcile defer_to_later
  contents-Unites id none rc n =
      if-Unites le re dag (is_nonneg (hlc_compare le.hlc_timestamp re.hlc_timestamp)) _ _
        (λ _. adopt-Unites le re dag id le none) (λ _. adopt-Unites le re dag id re rc)
  contents-Unites id (some lc) none n =
      if-Unites le re dag (is_nonneg (hlc_compare le.hlc_timestamp re.hlc_timestamp)) _ _
        (λ _. adopt-Unites le re dag id le (some lc)) (λ _. adopt-Unites le re dag id re none)
  contents-Unites id (some lc) (some rc) n =
      let b = resolve_three_way_base (linked dag le re) in
      let ancestor = base_bytes codec local remote b.base_hash in
      let whole = whole_conflict codec id le re (decode lc) (decode rc) in
      if-UnitesResult le re dag (is_binary lc || is_binary rc) _ _
        (binary-Unites le re dag id lc rc b (delete_parents le re))
        (if-UnitesResult le re dag b.ambiguous (ok whole) _ tt (
          if-UnitesResult le re dag (b.has_known_ancestor && is_missing codec ancestor) (ok whole) _
            tt
            (then-UnitesResult le re dag
              (three_way_merge (text_or_empty codec ancestor) (decode lc) (decode rc)) _
              (λ m. merged-Unites id (decode lc) (decode rc) m n))))

  forward-Unites :
      (id : JsString) (k : Option Linked) (a : MergeAction)
      → fast_forward id le re local remote k ≡ some a
      → Unites le re dag a
  unfolding fast_forward
  forward-Unites id none a e = cc
  forward-Unites id (some k) a e =
      if_some-Unites le re dag
        (local_at_head k le && is_ancestor k.graph k.local_head k.remote_head)
        (is_ancestor k.graph k.remote_head k.local_head) id
        (or_else (stored remote re.content_hash) (stored local re.content_hash)) a e

  local_deleted-Unites :
      (id : JsString) → Unites le re dag (resolve_local_deleted id le re local remote dag)
  unfolding resolve_local_deleted
  local_deleted-Unites id = no_merge-Unites le re dag _ (ground arith)

  remote_deleted-Unites :
      (id : JsString) → Unites le re dag (resolve_remote_deleted id le re local remote dag)
  unfolding resolve_remote_deleted
  remote_deleted-Unites id = no_merge-Unites le re dag _ (ground arith)

  content_conflict-Unites :
      (id : JsString)
      → UnitesResult le re dag (resolve_content_conflict codec id le re local remote dag)
  unfolding resolve_content_conflict hold_or_adopt
  content_conflict-Unites id =
      option-UnitesResult le re dag (open_heads le.conflict_parents) _ _
        (λ _.
          option-UnitesResult le re dag (fast_forward id le re local remote (linked dag le re)) _ _
            (λ e.
              contents-Unites id (stored local le.content_hash) (stored remote re.content_hash)
                (fast_forward-NotBehind le re dag id local remote (linked dag le re) e))
            (λ a e. forward-Unites id (linked dag le re) a e))
        (λ heads _.
          if-Unites le re dag (peer_resolved dag re.head_version_id heads) _ _
            (λ _. adopt-Unites le re dag id re _) (λ _. tt))

  -- A merge node that `classifyAndResolve` mints for a file of both sides has exactly the two heads of
  -- its entries as parents, the local one first; and where a version graph is given, the local head
  -- does not descend from the remote one in it.
  pub resolve_both-Unites :
      (id : JsString) → UnitesResult le re dag (resolve_both codec id le re local remote dag)
  unfolding resolve_both
  resolve_both-Unites id =
      if-UnitesResult le re dag (le.deleted && re.deleted) (ok (no_op id)) _ tt (
        if-UnitesResult le re dag
          (not le.deleted && not re.deleted && le.content_hash === re.content_hash) _ _
          (same_content-Unites le re dag id local remote)
          (if-UnitesResult le re dag (le.deleted && not re.deleted) _ _ (local_deleted-Unites id) (
            if-UnitesResult le re dag (not le.deleted && re.deleted) _ _ (remote_deleted-Unites id)
              (content_conflict-Unites id))))
