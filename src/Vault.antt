-- ===== src/Vault.antt =====
-- src/types.ts: the records that the components exchange. A `Map` is a list of entries in insertion
-- order; `null` and an absent field are both `none`; a `Uint8Array` is the list of its bytes.
use opsblobs_obsidian.Base.{ℕ, JsString, Bool, true, false, Option, List, lookup}
use opsblobs_obsidian.Hlc.{Hlc}
use opsblobs_obsidian.Diff3.{ThreeWayMergeResult}

abbrev pub Bytes : Type 0
Bytes = List ℕ

pub record FileEntry : Type 0 where
  pub id : JsString
  pub path : JsString
  pub content_hash : JsString
  pub hlc_timestamp : Hlc
  pub deleted : Bool
  pub last_synced_path : Option JsString
  pub head_version_id : Option JsString
  pub conflict_parents : Option (List JsString)
  pub mtime : Option ℕ
  pub size : Option ℕ

pub data OperationType : Type 0 where
  create update delete move : OperationType

pub record Operation : Type 0 where
  pub v : ℕ
  pub id : JsString
  pub hlc_timestamp : Hlc
  pub file_id : JsString
  pub type : OperationType
  pub path : JsString
  pub content_hash : JsString
  pub parents : List JsString

pub record VaultState : Type 0 where
  pub device_id : JsString
  pub hlc : Hlc
  pub file_entries : List (JsString × FileEntry)
  pub pending_ops : List Operation
  pub content_store : List (JsString × Bytes)

pub data DeletedSide : Type 0 where
  local_deleted remote_deleted : DeletedSide

-- The fields stand in the order of the source's variants.
pub data MergeAction : Type 0 where
  -- file id, path, content, timestamp, adopted head
  write_local : JsString → JsString → Bytes → Hlc → Option JsString → MergeAction
  -- file id, path, content, the two reconciled heads
  write_merge : JsString → JsString → Bytes → List JsString → MergeAction
  -- file id, path, timestamp
  send_remote : JsString → JsString → Hlc → MergeAction
  delete_local : JsString → JsString → MergeAction
  delete_remote : JsString → JsString → MergeAction
  -- file id, old path, new path
  move_local : JsString → JsString → JsString → MergeAction
  -- file id, local and remote path, merge result, local and remote text, conflicting heads
  conflict :
      JsString
      → JsString
      → JsString
      → ThreeWayMergeResult
      → JsString
      → JsString
      → Option (List JsString)
      → MergeAction
  -- file id, path, side, surviving content, conflicting heads
  delete_conflict : JsString → JsString → DeletedSide → Bytes → Option (List JsString) → MergeAction
  -- file id, local and remote path, local and remote content, local and remote timestamp, heads
  binary_conflict :
      JsString
      → JsString
      → JsString
      → Bytes
      → Bytes
      → Hlc
      → Hlc
      → Option (List JsString)
      → MergeAction
  no_op : JsString → MergeAction

unfoldable pub affects_local_vault : MergeAction → Bool
affects_local_vault (write_local _ _ _ _ _) = true
affects_local_vault (write_merge _ _ _ _) = true
affects_local_vault (delete_local _ _) = true
affects_local_vault (move_local _ _ _) = true
affects_local_vault (conflict _ _ _ _ _ _ _) = true
affects_local_vault (delete_conflict _ _ _ _ _) = true
affects_local_vault (binary_conflict _ _ _ _ _ _ _ _) = true
affects_local_vault (send_remote _ _ _) = false
affects_local_vault (delete_remote _ _) = false
affects_local_vault (no_op _) = false

pub record StateMergeResult : Type 0 where
  pub actions : List MergeAction
  pub merged_hlc : Hlc

-- `state.contentStore.get(hash)`
abbrev pub stored : VaultState → JsString → Option Bytes
stored state hash = lookup hash state.content_store
