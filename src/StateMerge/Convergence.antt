-- ===== src/StateMerge/Convergence.antt =====
-- The decisions of src/merge/state-merge.ts as both devices of a merge take them, and the file that
-- waits for its user.
use opsblobs_obsidian.Base.{
  ◌≡◌, ◌≢◌, refl, JsString, true, false, Option, none, some, List, [], ◌∷◌, ◌⊎◌, inl, inr, arith,
  Bool-cases,
}
use opsblobs_obsidian.Hlc.Order.{hlc_compare_antisym, hlc_compare-zero_iff}
use opsblobs_obsidian.Dag.{VersionDag, is_merge_node}
use opsblobs_obsidian.Dag.Reach.{Ancestor}
use opsblobs_obsidian.Dag.Ancestor.{is_ancestor_iff}
use opsblobs_obsidian.Diff3.{ok}
use opsblobs_obsidian.Vault.{
  Bytes, FileEntry, VaultState, MergeAction, write_local, write_merge, send_remote, delete_local,
  delete_remote, move_local, conflict, delete_conflict, binary_conflict, no_op, stored,
}
use opsblobs_obsidian.StateMerge.{TextCodec}
use opsblobs_obsidian.StateMerge.Heads.{or_else, resolve_rename_conflict, adopt_remote}
use opsblobs_obsidian.StateMerge.Content.{
  all_ancestors, peer_resolved, hold_or_adopt, resolve_content_conflict,
}
use opsblobs_obsidian.StateMerge.Classify.{resolve_both}

-- The path of a file after the action on it.
abbrev pub path_after : JsString → MergeAction → JsString
path_after path (move_local _ _ new_path) = new_path
path_after path (conflict _ _ _ _ _ _ _) = path
path_after path (write_local _ p _ _ _) = p
path_after path (write_merge _ p _ _) = p
path_after path (delete_conflict _ _ _ _ _) = path
path_after path (binary_conflict _ _ _ _ _ _ _ _) = path
path_after path (send_remote _ _ _) = path
path_after path (delete_local _ _) = path
path_after path (delete_remote _ _) = path
path_after path (no_op _) = path

-- Two renames of one file with different timestamps leave it at one path on both devices.
pub path_after-resolve_rename_conflict :
    (file_id : JsString) (le re : FileEntry)
    → le.hlc_timestamp ≢ re.hlc_timestamp
    → path_after le.path (resolve_rename_conflict file_id le re)
      ≡ path_after re.path (resolve_rename_conflict file_id re le)
unfolding resolve_rename_conflict
path_after-resolve_rename_conflict file_id le re n = ground (
  arith,
  hlc_compare_antisym le.hlc_timestamp re.hlc_timestamp,
  (hlc_compare-zero_iff le.hlc_timestamp re.hlc_timestamp).0,
)

-- Every open head is an ancestor.
abbrev pub AllAncestors : VersionDag → List JsString → JsString → Type 0
AllAncestors dag [] v = Unit
AllAncestors dag (h ∷ hs) v = Ancestor dag h v × AllAncestors dag hs v

all_ancestors-AllAncestors :
    (dag : VersionDag) (hs : List JsString) (v : JsString)
    → all_ancestors dag hs v ≡ true
    → AllAncestors dag hs v
all_ancestors-AllAncestors dag [] v h = tt
all_ancestors-AllAncestors dag (a ∷ hs) v h =
    ((is_ancestor_iff dag a v).0 (ground arith), all_ancestors-AllAncestors dag hs v (ground arith))

-- The remote head is a merge node of the graph that descends from every open head, and the action
-- adopts it with the remote path and bytes.
abbrev pub Adopts : JsString → FileEntry → Option VersionDag → List JsString → MergeAction → Type 0
Adopts file_id re dag heads action =
    (graph : VersionDag) × (v : JsString) × (bytes : Bytes) × (dag ≡ some graph)
    × (re.head_version_id ≡ some v)
    × (is_merge_node graph v ≡ true)
    × AllAncestors graph heads v
    × (action ≡ write_local file_id re.path bytes re.hlc_timestamp (some v))

peer_resolved-parts :
    (dag : Option VersionDag) (head : Option JsString) (heads : List JsString)
    → peer_resolved dag head heads ≡ true
    → (graph : VersionDag) × (v : JsString) × (dag ≡ some graph)
      × (head ≡ some v)
      × (is_merge_node graph v ≡ true)
      × AllAncestors graph heads v
unfolding peer_resolved
peer_resolved-parts none head heads h = cc
peer_resolved-parts (some graph) none heads h = cc
peer_resolved-parts (some graph) (some v) heads h =
    (graph, v, refl, refl, ground arith, all_ancestors-AllAncestors graph heads v (ground arith))

option_adopt :
    (file_id : JsString) (re : FileEntry) (c : Option Bytes) (v : JsString)
    → re.head_version_id ≡ some v
    → (adopt_remote file_id re c ≡ no_op file_id)
      ⊎ ((bytes : Bytes) × (adopt_remote file_id re c
            ≡ write_local file_id re.path bytes re.hlc_timestamp (some v)))
option_adopt file_id re none v e = inl refl
option_adopt file_id re (some b) v e = inr (b, rw e refl)

hold-Adopts :
    (file_id : JsString) (re : FileEntry) (local remote : VaultState) (dag : Option VersionDag)
    (heads : List JsString)
    → (hold_or_adopt file_id re local remote dag heads ≡ no_op file_id)
      ⊎ Adopts file_id re dag heads (hold_or_adopt file_id re local remote dag heads)
unfolding hold_or_adopt
hold-Adopts file_id re local remote dag heads =
    elim (Bool-cases (peer_resolved dag re.head_version_id heads)) [
      | inr e ↦ rw e (inl refl)
      | inl e ↦
          let (graph, v, g, h, m, a) = peer_resolved-parts dag re.head_version_id heads e in
          rw e
            (elim (option_adopt file_id re
              (or_else (stored remote re.content_hash) (stored local re.content_hash)) v h) [
                | inl q ↦ inl q
                | inr (bytes, q) ↦ inr (graph, v, bytes, g, h, m, a, q)
              ])
    ]

-- A file with two open heads, live on both sides with different contents, waits: the merge succeeds
-- without a new conflict, and it leaves the file alone or adopts a remote merge node that descends
-- from all the open heads.
pub two_headed-Adopts :
    (codec : TextCodec) (file_id : JsString) (le re : FileEntry) (local remote : VaultState)
    (dag : Option VersionDag) (a b : JsString) (heads : List JsString)
    → le.conflict_parents ≡ some (a ∷ b ∷ heads)
    → le.deleted ≡ false
    → re.deleted ≡ false
    → le.content_hash ≢ re.content_hash
    → (action : MergeAction) × (resolve_both codec file_id le re local remote dag ≡ ok action)
      × ((action ≡ no_op file_id) ⊎ Adopts file_id re dag (a ∷ b ∷ heads) action)
unfolding resolve_both resolve_content_conflict
two_headed-Adopts codec file_id le re local remote dag a b heads h k l n = (
  hold_or_adopt file_id re local remote dag (a ∷ b ∷ heads),
  ground arith,
  hold-Adopts file_id re local remote dag (a ∷ b ∷ heads),
)
