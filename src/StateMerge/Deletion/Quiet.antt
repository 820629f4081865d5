-- ===== src/StateMerge/Deletion/Quiet.antt =====
-- The branches of src/merge/state-merge.ts that delete nothing.
use opsblobs_obsidian.Base.{
  ◌≡◌, refl, JsString, Bool, true, false, ◌&&◌, ◌||◌, Option, none, some, List, if◌then◌else◌,
  arith,
}
use opsblobs_obsidian.Dag.{VersionDag}
use opsblobs_obsidian.Diff3.{ThreeWayMergeResult, Result, ok, err, ◌>>=◌}
use opsblobs_obsidian.Diff3.Merge.{three_way_merge}
use opsblobs_obsidian.Vault.{
  Bytes, FileEntry, VaultState, MergeAction, write_local, write_merge, send_remote, delete_local,
  delete_remote, move_local, conflict, delete_conflict, binary_conflict, no_op,
}
use opsblobs_obsidian.StateMerge.{TextCodec}
use opsblobs_obsidian.StateMerge.Heads.{
  Linked, linked, delete_parents, ThreeWayBase, resolve_three_way_base, is_binary,
  resolve_rename_conflict,
}
use opsblobs_obsidian.StateMerge.Content.{
  whole_conflict, is_missing, hold_or_adopt, fast_forward, defer_to_later, resolve_binary,
  merged_action, reconcile, with_contents, resolve_content_conflict, text_or_empty, base_bytes,
}
use opsblobs_obsidian.StateMerge.Collision.{
  settled_collision, raise_collision, resolve_create_collision,
}
use opsblobs_obsidian.StateMerge.Classify.{converge_heads, resolve_same_content}

-- Does the action delete a file on a side?
abbrev pub deletes : MergeAction → Bool
deletes (delete_local _ _) = true
deletes (delete_remote _ _) = true
deletes (write_local _ _ _ _ _) = false
deletes (write_merge _ _ _ _) = false
deletes (delete_conflict _ _ _ _ _) = false
deletes (binary_conflict _ _ _ _ _ _ _ _) = false
deletes (conflict _ _ _ _ _ _ _) = false
deletes (send_remote _ _ _) = false
deletes (move_local _ _ _) = false
deletes (no_op _) = false

abbrev pub result_deletes : Result MergeAction → Bool
result_deletes (ok action) = deletes action
result_deletes (err e) = false

abbrev option_deletes : Option MergeAction → Bool
option_deletes none = false
option_deletes (some a) = deletes a

-- No branch but those for a one-sided deletion deletes.
pub same_content-Quiet :
    (id : JsString) (le re : FileEntry) (local remote : VaultState) (dag : Option VersionDag)
    → deletes (resolve_same_content id le re local remote dag) ≡ false
unfolding resolve_same_content converge_heads resolve_rename_conflict
same_content-Quiet id le re local remote dag = ground arith

hold-Quiet :
    (id : JsString) (re : FileEntry) (local remote : VaultState) (dag : Option VersionDag)
    (heads : List JsString)
    → deletes (hold_or_adopt id re local remote dag heads) ≡ false
unfolding hold_or_adopt
hold-Quiet id re local remote dag heads = ground arith

fast_forward-Quiet :
    (id : JsString) (le re : FileEntry) (local remote : VaultState) (k : Option Linked)
    → option_deletes (fast_forward id le re local remote k) ≡ false
unfolding fast_forward
fast_forward-Quiet id le re local remote k = ground arith

defer-Quiet :
    (id : JsString) (le re : FileEntry) (lc rc : Option Bytes)
    → deletes (defer_to_later id le re lc rc) ≡ false
unfolding defer_to_later
defer-Quiet id le re lc rc = ground arith

binary-Quiet :
    (id : JsString) (le re : FileEntry) (lc rc : Bytes) (b : ThreeWayBase)
    (parents : Option (List JsString))
    → deletes (resolve_binary id le re lc rc b parents) ≡ false
unfolding resolve_binary
binary-Quiet id le re lc rc b parents = ground arith

if-Quiet :
    (b : Bool) (x y : Result MergeAction)
    → result_deletes x ≡ false
    → result_deletes y ≡ false
    → result_deletes (if b then x else y) ≡ false
if-Quiet true x y h k = h
if-Quiet false x y h k = k

then-Quiet :
    (r : Result ThreeWayMergeResult) (f : ThreeWayMergeResult → MergeAction)
    → ((m : ThreeWayMergeResult) → deletes (f m) ≡ false)
    → result_deletes (do m ← r; ok (f m)) ≡ false
then-Quiet (ok m) f h = h m
then-Quiet (err e) f h = refl

module _ (codec : TextCodec) where
  open codec use {decode}

  merged-Quiet :
      (id : JsString) (le re : FileEntry) (lt rt : JsString) (result : ThreeWayMergeResult)
      → deletes (merged_action codec id le re lt rt result) ≡ false
  unfolding merged_action
  merged-Quiet id le re lt rt result = ground arith

  reconcile-Quiet :
      (id : JsString) (le re : FileEntry) (local remote : VaultState) (k : Option Linked)
      (lc rc : Bytes)
      → result_deletes (reconcile codec id le re local remote k lc rc) ≡ false
  unfolding reconcile
  reconcile-Quiet id le re local remote k lc rc =
      let b = resolve_three_way_base k in
      let ancestor = base_bytes codec local remote b.base_hash in
      if-Quiet (is_binary lc || is_binary rc) _ _
        (binary-Quiet id le re lc rc b (delete_parents le re))
        (if-Quiet b.ambiguous (ok (whole_conflict codec id le re (decode lc) (decode rc))) _ refl (
          if-Quiet (b.has_known_ancestor && is_missing codec ancestor)
            (ok (whole_conflict codec id le re (decode lc) (decode rc))) _ refl
            (then-Quiet (three_way_merge (text_or_empty codec ancestor) (decode lc) (decode rc)) _
              (merged-Quiet id le re (decode lc) (decode rc)))))

  pub content_conflict-Quiet :
      (id : JsString) (le re : FileEntry) (local remote : VaultState) (dag : Option VersionDag)
      → result_deletes (resolve_content_conflict codec id le re local remote dag) ≡ false
  unfolding resolve_content_conflict with_contents
  content_conflict-Quiet id le re local remote dag = grind (
    arith,
    hold-Quiet,
    fast_forward-Quiet id le re local remote (linked dag le re),
    reconcile-Quiet,
    defer-Quiet,
  )

  pub collision-Quiet :
      (le re : FileEntry) (local remote : VaultState) (self_is_remote : Bool)
      (dag : Option VersionDag)
      → deletes (resolve_create_collision codec le re local remote self_is_remote dag) ≡ false
  unfolding resolve_create_collision settled_collision raise_collision
  collision-Quiet le re local remote self_is_remote dag = ground arith
