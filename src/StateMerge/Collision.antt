-- ===== src/StateMerge/Collision.antt =====
-- `resolveCreateCollision` of src/merge/state-merge.ts: one path under two ids.
use opsblobs_obsidian.Base.{
  JsString, Bool, true, false, not, Option, none, some, ◌===◌, if◌then◌else◌,
}
use opsblobs_obsidian.Dag.{VersionDag, is_ancestor}
use opsblobs_obsidian.Vault.{Bytes, FileEntry, VaultState, MergeAction, conflict, no_op, stored}
use opsblobs_obsidian.StateMerge.{TextCodec}
use opsblobs_obsidian.StateMerge.Heads.{
  or_else, Linked, linked, delete_parents, local_wins_collision, pick_collision_winner,
  adopt_remote, whole_file_conflict,
}

-- The id whose branch is processed.
abbrev pub self_id : Bool → FileEntry → FileEntry → JsString
self_id true le re = re.id
self_id false le re = le.id

-- Only the branch of the remote id writes.
abbrev pub adopt_remote_id :
    Bool → FileEntry → FileEntry → Option Bytes → Option Bytes → MergeAction
adopt_remote_id true le re local_content remote_content =
    adopt_remote re.id re (or_else remote_content local_content)
adopt_remote_id false le re local_content remote_content = no_op le.id

-- What a peer has settled: the descendant of the two heads; `none` when there is none.
unfoldable pub settled_collision :
    Option Linked → Bool → FileEntry → FileEntry → Option Bytes → Option Bytes → Option MergeAction
settled_collision none self_is_remote le re lc rc = none
settled_collision (some k) self_is_remote le re lc rc =
    if is_ancestor k.graph k.local_head k.remote_head
    then some (adopt_remote_id self_is_remote le re lc rc)
    else if is_ancestor k.graph k.remote_head k.local_head
    then some (no_op (self_id self_is_remote le re))
    else none

-- Is the processed branch the winner's?
abbrev pub self_wins : Bool → FileEntry → FileEntry → Bool
self_wins true le re = not (local_wins_collision le re)
self_wins false le re = local_wins_collision le re

module _ (codec : TextCodec) where
  open codec use {decode}

  -- The genuine conflict of two different contents, which only the winner's branch raises.
  unfoldable pub raise_collision :
      Bool → FileEntry → FileEntry → Option Bytes → Option Bytes → MergeAction
  unfolding local_wins_collision pick_collision_winner delete_parents whole_file_conflict
  raise_collision self_is_remote le re (some lc) (some rc) =
      if self_wins self_is_remote le re
      then conflict (pick_collision_winner le re).id le.path re.path
          (whole_file_conflict (decode lc) (decode rc)) (decode lc) (decode rc)
          (delete_parents le re)
      else no_op (self_id self_is_remote le re)
  raise_collision self_is_remote le re none rc = no_op (self_id self_is_remote le re)
  raise_collision self_is_remote le re (some lc) none = no_op (self_id self_is_remote le re)

  unfoldable pub resolve_create_collision :
      FileEntry → FileEntry → VaultState → VaultState → Bool → Option VersionDag → MergeAction
  unfolding settled_collision raise_collision linked
  resolve_create_collision le re local remote self_is_remote dag =
      let lc = stored local le.content_hash in
      let rc = stored remote re.content_hash in
      elim (settled_collision (linked dag le re) self_is_remote le re lc rc) [
        | some action ↦ action
        | none ↦
            if le.content_hash === re.content_hash
            then (if local_wins_collision le re
                then no_op (self_id self_is_remote le re)
                else adopt_remote_id self_is_remote le re lc rc)
            else raise_collision self_is_remote le re lc rc
      ]
