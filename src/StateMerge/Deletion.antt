-- ===== src/StateMerge/Deletion.antt =====
-- When `mergeVaultStates` (src/merge/state-merge.ts) deletes a file.
mod Quiet
pub mod Grounds
use opsblobs_obsidian.Base.{
  ℕ, ◌≡◌, refl, JsString, Bool, true, false, not, ◌&&◌, ◌||◌, Option, none, some, List, [], ◌∷◌,
  ◌⊎◌, inl, inr, ◌===◌, if◌then◌else◌, lookup, arith, Option-cases, Bool-cases, is_nonneg,
}
use opsblobs_obsidian.Dag.{VersionDag, is_ancestor}
use opsblobs_obsidian.Diff3.{ThreeWayMergeResult, Result, ok, err, ◌>>=◌}
use opsblobs_obsidian.Vault.{
  Bytes, FileEntry, VaultState, StateMergeResult, MergeAction, write_local, write_merge,
  send_remote, delete_local, delete_remote, move_local, conflict, delete_conflict, binary_conflict,
  no_op, stored, local_deleted, remote_deleted,
}
use opsblobs_obsidian.StateMerge.{TextCodec}
use opsblobs_obsidian.StateMerge.Heads.{or_else, linked, is_unchanged_since_base, delete_parents}
use opsblobs_obsidian.StateMerge.Classify.{
  resolve_same_content, resolve_local_deleted, resolve_remote_deleted, resolve_both,
  resolve_remote_only, resolve_local_only, classify_and_resolve, actions_for, merge_vault_states,
  resolved_by_peer, colliding,
}
use opsblobs_obsidian.StateMerge.Deletion.Grounds.{
  Resolved, Unchanged, is_unchanged_since_base-Unchanged, resolved_by_peer-Resolved,
}
use opsblobs_obsidian.StateMerge.Heads.{adopt_remote}
use opsblobs_obsidian.StateMerge.Content.{resolve_content_conflict}
use opsblobs_obsidian.StateMerge.Collision.{resolve_create_collision}
use opsblobs_obsidian.StateMerge.Deletion.Quiet.{
  deletes, result_deletes, same_content-Quiet, content_conflict-Quiet, collision-Quiet,
}

module _ (codec : TextCodec) (local remote : VaultState) (dag : Option VersionDag) where
  -- The two entries of one id, of which one is deleted.
  abbrev pub Known : JsString → FileEntry → FileEntry → Bool → Bool → Type 0
  Known id le re local_gone remote_gone =
      (lookup id local.file_entries ≡ some le)
      × (lookup id remote.file_entries ≡ some re)
      × (le.deleted ≡ local_gone)
      × (re.deleted ≡ remote_gone)

  -- A local deletion follows one of the remote side, whose tombstone is a resolution that descends
  -- from our head or meets a file unchanged since the common base; a remote one likewise.
  abbrev pub Justified : MergeAction → Type 0
  Justified (delete_local id path) =
      (le : FileEntry) × (re : FileEntry) × Known id le re false true
      × (path ≡ le.path)
      × (Resolved dag le re ⊎ Unchanged dag le re)
  Justified (delete_remote id path) =
      (le : FileEntry) × (re : FileEntry) × Known id le re true false
      × (path ≡ re.path)
      × Unchanged dag re le
  Justified (write_local _ _ _ _ _) = Unit
  Justified (write_merge _ _ _ _) = Unit
  Justified (delete_conflict _ _ _ _ _) = Unit
  Justified (binary_conflict _ _ _ _ _ _ _ _) = Unit
  Justified (conflict _ _ _ _ _ _ _) = Unit
  Justified (send_remote _ _ _) = Unit
  Justified (move_local _ _ _) = Unit
  Justified (no_op _) = Unit

  Quiet-Justified : (a : MergeAction) → deletes a ≡ false → Justified a
  Quiet-Justified (delete_local id path) h = cc
  Quiet-Justified (delete_remote id path) h = cc
  Quiet-Justified (write_local _ _ _ _ _) h = tt
  Quiet-Justified (write_merge _ _ _ _) h = tt
  Quiet-Justified (delete_conflict _ _ _ _ _) h = tt
  Quiet-Justified (binary_conflict _ _ _ _ _ _ _ _) h = tt
  Quiet-Justified (conflict _ _ _ _ _ _ _) h = tt
  Quiet-Justified (send_remote _ _ _) h = tt
  Quiet-Justified (move_local _ _ _) h = tt
  Quiet-Justified (no_op _) h = tt

  abbrev JustifiedResult : Result MergeAction → Type 0
  JustifiedResult (ok action) = Justified action
  JustifiedResult (err e) = Unit

  quiet-JustifiedResult : (r : Result MergeAction) → result_deletes r ≡ false → JustifiedResult r
  quiet-JustifiedResult (ok a) h = Quiet-Justified a h
  quiet-JustifiedResult (err e) h = tt

  if-JustifiedResult :
      (b : Bool) (x y : Result MergeAction)
      → (b ≡ true → JustifiedResult x)
      → (b ≡ false → JustifiedResult y)
      → JustifiedResult (if b then x else y)
  if-JustifiedResult true x y h k = h refl
  if-JustifiedResult false x y h k = k refl

  if-Justified :
      (b : Bool) (x y : MergeAction)
      → (b ≡ true → Justified x)
      → (b ≡ false → Justified y)
      → Justified (if b then x else y)
  if-Justified true x y h k = h refl
  if-Justified false x y h k = k refl

  local_deleted-Justified :
      (id : JsString) (le re : FileEntry)
      → Known id le re true false
      → Justified (resolve_local_deleted id le re local remote dag)
  unfolding resolve_local_deleted
  local_deleted-Justified id le re known =
      let c = or_else (stored remote re.content_hash) (stored local re.content_hash) in
      let rest : Justified (
          if is_unchanged_since_base re le dag then delete_remote id re.path else elim c [
            | none ↦ no_op id
            | some bytes ↦ delete_conflict id re.path local_deleted bytes (delete_parents le re)
          ]) =
        if-Justified (is_unchanged_since_base re le dag) _ _
          (λ u. (le, re, known, refl, is_unchanged_since_base-Unchanged dag re le u))
          (λ _. Quiet-Justified _ (ground arith)) in
      if-Justified (resolved_by_peer (linked dag le re)) _ _
        (λ _. elim (Option-cases c) [ inl e ↦ rw e rest | inr (b, e) ↦ rw e tt ]) (λ _. rest)

  remote_deleted-Justified :
      (id : JsString) (le re : FileEntry)
      → Known id le re false true
      → Justified (resolve_remote_deleted id le re local remote dag)
  unfolding resolve_remote_deleted
  remote_deleted-Justified id le re known =
      if-Justified (resolved_by_peer (linked dag le re)) _ _
        (λ p. (le, re, known, refl, inl (resolved_by_peer-Resolved dag le re p)))
        (λ _.
          if-Justified (is_unchanged_since_base le re dag) _ _
            (λ u. (le, re, known, refl, inr (is_unchanged_since_base-Unchanged dag le re u)))
            (λ _. Quiet-Justified _ (ground arith)))

  both-Justified :
      (id : JsString) (le re : FileEntry)
      → lookup id local.file_entries ≡ some le
      → lookup id remote.file_entries ≡ some re
      → JustifiedResult (resolve_both codec id le re local remote dag)
  unfolding resolve_both
  both-Justified id le re h k =
      if-JustifiedResult (le.deleted && re.deleted) (ok (no_op id)) _ (λ _. tt)
        (λ _.
          if-JustifiedResult
            (not le.deleted && not re.deleted && le.content_hash === re.content_hash) _ _
            (λ _. Quiet-Justified _ (same_content-Quiet id le re local remote dag))
            (λ _.
              if-JustifiedResult (le.deleted && not re.deleted) _ _
                (λ e. local_deleted-Justified id le re (h, k, ground arith, ground arith))
                (λ _.
                  if-JustifiedResult (not le.deleted && re.deleted) _ _
                    (λ e. remote_deleted-Justified id le re (h, k, ground arith, ground arith))
                    (λ _.
                      quiet-JustifiedResult _
                        (content_conflict-Quiet codec id le re local remote dag)))))

  remote_only-Justified :
      (id : JsString) (re : FileEntry) (live : List (JsString × JsString))
      → JustifiedResult (resolve_remote_only codec id re local remote live dag)
  unfolding resolve_remote_only
  remote_only-Justified id re live = quiet-JustifiedResult _ (grind (arith, collision-Quiet))

  local_only-Justified :
      (id : JsString) (le : FileEntry) (live : List (JsString × JsString))
      → JustifiedResult (resolve_local_only codec id le local remote live dag)
  unfolding resolve_local_only
  local_only-Justified id le live = quiet-JustifiedResult _ (grind (arith, collision-Quiet))

  classify-Justified :
      (id : JsString) (le re : Option FileEntry) (ll rl : List (JsString × JsString))
      → lookup id local.file_entries ≡ le
      → lookup id remote.file_entries ≡ re
      → JustifiedResult (classify_and_resolve codec id le re local remote ll rl dag)
  unfolding classify_and_resolve
  classify-Justified id none (some re) ll rl h k = remote_only-Justified id re ll
  classify-Justified id (some le) none ll rl h k = local_only-Justified id le rl
  classify-Justified id (some le) (some re) ll rl h k = both-Justified id le re h k
  classify-Justified id none none ll rl h k = tt

  abbrev pub AllJustified : List MergeAction → Type 0
  AllJustified [] = Unit
  AllJustified (a ∷ actions) = Justified a × AllJustified actions

  abbrev JustifiedActions : Result (List MergeAction) → Type 0
  JustifiedActions (ok actions) = AllJustified actions
  JustifiedActions (err e) = Unit

  cons-JustifiedActions :
      (r : Result MergeAction) (rs : Result (List MergeAction))
      → JustifiedResult r
      → JustifiedActions rs
      → JustifiedActions (do action ← r; rest ← rs; ok (action ∷ rest))
  cons-JustifiedActions (ok a) (ok rest) h k = (h, k)
  cons-JustifiedActions (ok a) (err e) h k = tt
  cons-JustifiedActions (err e) rs h k = tt

  actions-Justified :
      (ids : List JsString) (ll rl : List (JsString × JsString))
      → JustifiedActions (actions_for codec ids local remote ll rl dag)
  unfolding actions_for
  actions-Justified [] ll rl = tt
  actions-Justified (id ∷ ids) ll rl =
      cons-JustifiedActions
        (classify_and_resolve codec id (lookup id local.file_entries)
          (lookup id remote.file_entries) local remote ll rl dag)
        (actions_for codec ids local remote ll rl dag) (classify-Justified id _ _ ll rl refl refl)
        (actions-Justified ids ll rl)

  abbrev pub JustifiedMerge : Result StateMergeResult → Type 0
  JustifiedMerge (ok result) = AllJustified result.actions
  JustifiedMerge (err e) = Unit

  then-JustifiedMerge :
      (r : Result (List MergeAction)) (f : List MergeAction → StateMergeResult)
      → ((actions : List MergeAction) → (f actions).actions ≡ actions)
      → JustifiedActions r
      → JustifiedMerge (do actions ← r; ok (f actions))
  then-JustifiedMerge (ok actions) f e h = rw (e actions) h
  then-JustifiedMerge (err e) f h k = tt

  -- Each deletion in the actions of a merge that succeeds is one side's own: `delete_local` stands for
  -- an id that is live here and deleted on the remote side, at the local path, where the remote head
  -- is a merge node that descends from the local head or the local file is unchanged; `delete_remote`
  -- for an id that is deleted here and live there, at the remote path, unchanged there. Unchanged means
  -- that the two heads have a single maximal common ancestor in the version graph, that the file has
  -- the content of that version, and that its path is the one of the last sync, where one is known.
  pub merge_vault_states-Justified : JustifiedMerge (merge_vault_states codec local remote dag)
  unfolding merge_vault_states
  merge_vault_states-Justified = then-JustifiedMerge _ _ (λ actions. refl) (actions-Justified _ _ _)
