-- ===== src/StateMerge/Adoption/Actions.antt =====
-- The bytes in the actions of `mergeVaultStates` (src/merge/state-merge.ts).
use opsblobs_obsidian.Base.{
  ◌≡◌, refl, JsString, Bool, true, false, not, ◌&&◌, Option, none, some, List, [], ◌∷◌, ◌===◌,
  if◌then◌else◌, lookup,
}
use opsblobs_obsidian.Dag.{VersionDag, is_ancestor}
use opsblobs_obsidian.Diff3.{Result, ok, err, ◌>>=◌}
use opsblobs_obsidian.Vault.{Bytes, FileEntry, VaultState, StateMergeResult, MergeAction, no_op}
use opsblobs_obsidian.StateMerge.{TextCodec}
use opsblobs_obsidian.StateMerge.Heads.{Linked, linked, local_wins_collision}
use opsblobs_obsidian.StateMerge.Collision.{
  settled_collision, raise_collision, resolve_create_collision, adopt_remote_id, self_id, self_wins,
}
use opsblobs_obsidian.StateMerge.Classify.{
  resolve_both, resolve_remote_only, resolve_local_only, classify_and_resolve, actions_for,
  merge_vault_states, colliding,
}
use opsblobs_obsidian.StateMerge.Adoption.{
  Sourced, HeldOption, local-HeldOption, remote-HeldOption, or_else-HeldOption, if-Sourced,
  adopt-Sourced, same_content-Sourced, local_deleted-Sourced, remote_deleted-Sourced,
}
use opsblobs_obsidian.StateMerge.Adoption.Contents.{
  SourcedResult, content_conflict-Sourced, if-SourcedResult, option-SourcedResult,
}

module _ (codec : TextCodec) (local remote : VaultState) where
  open codec use {decode, encode}

  adopt_id-Sourced :
      (self_is_remote : Bool) (le re : FileEntry) (lc rc : Option Bytes)
      → HeldOption codec local remote lc
      → HeldOption codec local remote rc
      → Sourced codec local remote (adopt_remote_id self_is_remote le re lc rc)
  adopt_id-Sourced true le re lc rc h k =
      adopt-Sourced codec local remote re.id re _ (or_else-HeldOption codec local remote rc lc k h)
  adopt_id-Sourced false le re lc rc h k = tt

  abbrev SettledSourced : Option MergeAction → Type 0
  SettledSourced none = Unit
  SettledSourced (some a) = Sourced codec local remote a

  if-SettledSourced :
      (b : Bool) (x y : Option MergeAction)
      → SettledSourced x
      → SettledSourced y
      → SettledSourced (if b then x else y)
  if-SettledSourced true x y h k = h
  if-SettledSourced false x y h k = k

  settled-Sourced :
      (k : Option Linked) (self_is_remote : Bool) (le re : FileEntry) (lc rc : Option Bytes)
      → HeldOption codec local remote lc
      → HeldOption codec local remote rc
      → SettledSourced (settled_collision k self_is_remote le re lc rc)
  unfolding settled_collision
  settled-Sourced none self_is_remote le re lc rc h g = tt
  settled-Sourced (some k) self_is_remote le re lc rc h g =
      if-SettledSourced (is_ancestor k.graph k.local_head k.remote_head) _ _
        (adopt_id-Sourced self_is_remote le re lc rc h g)
        (if-SettledSourced (is_ancestor k.graph k.remote_head k.local_head)
          (some (no_op (self_id self_is_remote le re))) none tt tt)

  raise-Sourced :
      (self_is_remote : Bool) (le re : FileEntry) (lc rc : Option Bytes)
      → HeldOption codec local remote lc
      → HeldOption codec local remote rc
      → Sourced codec local remote (raise_collision codec self_is_remote le re lc rc)
  unfolding raise_collision
  raise-Sourced self_is_remote le re (some lc) (some rc) h g =
      if-Sourced codec local remote (self_wins self_is_remote le re) _ _
        ((lc, h, refl), (rc, g, refl)) tt
  raise-Sourced self_is_remote le re none rc h g = tt
  raise-Sourced self_is_remote le re (some lc) none h g = tt

  settled_or-Sourced :
      (o : Option MergeAction) (x : MergeAction)
      → SettledSourced o
      → Sourced codec local remote x
      → Sourced codec local remote (elim o [ some action ↦ action | none ↦ x ])
  settled_or-Sourced none x h k = k
  settled_or-Sourced (some a) x h k = h

  collision-Sourced :
      (le re : FileEntry) (self_is_remote : Bool) (dag : Option VersionDag)
      → Sourced codec local remote
          (resolve_create_collision codec le re local remote self_is_remote dag)
  unfolding resolve_create_collision
  collision-Sourced le re self_is_remote dag =
      let h = local-HeldOption codec local remote le.content_hash in
      let g = remote-HeldOption codec local remote re.content_hash in
      settled_or-Sourced (settled_collision (linked dag le re) self_is_remote le re _ _) _
        (settled-Sourced (linked dag le re) self_is_remote le re _ _ h g)
        (if-Sourced codec local remote (le.content_hash === re.content_hash) _ _
          (if-Sourced codec local remote (local_wins_collision le re) _ _ tt
            (adopt_id-Sourced self_is_remote le re _ _ h g))
          (raise-Sourced self_is_remote le re _ _ h g))

  both-Sourced :
      (id : JsString) (le re : FileEntry) (dag : Option VersionDag)
      → SourcedResult codec local remote (resolve_both codec id le re local remote dag)
  unfolding resolve_both
  both-Sourced id le re dag =
      if-SourcedResult codec local remote (le.deleted && re.deleted) (ok (no_op id)) _ tt (
        if-SourcedResult codec local remote
          (not le.deleted && not re.deleted && le.content_hash === re.content_hash) _ _
          (same_content-Sourced codec local remote id le re dag)
          (if-SourcedResult codec local remote (le.deleted && not re.deleted) _ _
            (local_deleted-Sourced codec local remote id le re dag)
            (if-SourcedResult codec local remote (not le.deleted && re.deleted) _ _
              (remote_deleted-Sourced codec local remote id le re dag)
              (content_conflict-Sourced codec local remote id le re dag))))

  remote_only-Sourced :
      (id : JsString) (re : FileEntry) (live : List (JsString × JsString)) (dag : Option VersionDag)
      → SourcedResult codec local remote (resolve_remote_only codec id re local remote live dag)
  unfolding resolve_remote_only
  remote_only-Sourced id re live dag =
      if-SourcedResult codec local remote re.deleted (ok (no_op id)) _ tt (
        option-SourcedResult codec local remote (colliding id (lookup re.path live)) _ _
          (λ _.
            adopt-Sourced codec local remote id re _
              (remote-HeldOption codec local remote re.content_hash))
          (λ other _.
            option-SourcedResult codec local remote (lookup other local.file_entries) _ _ (λ _. tt)
              (λ le _. collision-Sourced le re true dag)))

  local_only-Sourced :
      (id : JsString) (le : FileEntry) (live : List (JsString × JsString)) (dag : Option VersionDag)
      → SourcedResult codec local remote (resolve_local_only codec id le local remote live dag)
  unfolding resolve_local_only
  local_only-Sourced id le live dag =
      if-SourcedResult codec local remote le.deleted (ok (no_op id)) _ tt (
        option-SourcedResult codec local remote (colliding id (lookup le.path live)) _ _ (λ _. tt)
          (λ other _.
            option-SourcedResult codec local remote (lookup other remote.file_entries) _ _ (λ _. tt)
              (λ re _. collision-Sourced le re false dag)))

  classify-Sourced :
      (id : JsString) (le re : Option FileEntry) (ll rl : List (JsString × JsString))
      (dag : Option VersionDag)
      → SourcedResult codec local remote
          (classify_and_resolve codec id le re local remote ll rl dag)
  unfolding classify_and_resolve
  classify-Sourced id none (some re) ll rl dag = remote_only-Sourced id re ll dag
  classify-Sourced id (some le) none ll rl dag = local_only-Sourced id le rl dag
  classify-Sourced id (some le) (some re) ll rl dag = both-Sourced id le re dag
  classify-Sourced id none none ll rl dag = tt

  abbrev pub AllSourced : List MergeAction → Type 0
  AllSourced [] = Unit
  AllSourced (a ∷ actions) = Sourced codec local remote a × AllSourced actions

  abbrev SourcedActions : Result (List MergeAction) → Type 0
  SourcedActions (ok actions) = AllSourced actions
  SourcedActions (err e) = Unit

  cons-SourcedActions :
      (r : Result MergeAction) (rs : Result (List MergeAction))
      → SourcedResult codec local remote r
      → SourcedActions rs
      → SourcedActions (do action ← r; rest ← rs; ok (action ∷ rest))
  cons-SourcedActions (ok a) (ok rest) h k = (h, k)
  cons-SourcedActions (ok a) (err e) h k = tt
  cons-SourcedActions (err e) rs h k = tt

  actions-Sourced :
      (ids : List JsString) (ll rl : List (JsString × JsString)) (dag : Option VersionDag)
      → SourcedActions (actions_for codec ids local remote ll rl dag)
  unfolding actions_for
  actions-Sourced [] ll rl dag = tt
  actions-Sourced (id ∷ ids) ll rl dag =
      cons-SourcedActions
        (classify_and_resolve codec id (lookup id local.file_entries)
          (lookup id remote.file_entries) local remote ll rl dag)
        (actions_for codec ids local remote ll rl dag)
        (classify-Sourced id (lookup id local.file_entries) (lookup id remote.file_entries) ll rl
          dag)
        (actions-Sourced ids ll rl dag)

  abbrev pub SourcedMerge : Result StateMergeResult → Type 0
  SourcedMerge (ok result) = AllSourced result.actions
  SourcedMerge (err e) = Unit

  then-SourcedMerge :
      (r : Result (List MergeAction)) (f : List MergeAction → StateMergeResult)
      → ((actions : List MergeAction) → (f actions).actions ≡ actions)
      → SourcedActions r
      → SourcedMerge (do actions ← r; ok (f actions))
  then-SourcedMerge (ok actions) f e h = rw (e actions) h
  then-SourcedMerge (err e) f h k = tt

  -- A merge of two states that succeeds never makes up content: the bytes of each of its actions are
  -- in one of the two content stores or are the encoding of a clean three-way merge of two stored
  -- contents, and the texts of each content conflict decode from stored bytes.
  pub merge_vault_states-Sourced :
      (dag : Option VersionDag) → SourcedMerge (merge_vault_states codec local remote dag)
  unfolding merge_vault_states
  merge_vault_states-Sourced dag =
      then-SourcedMerge _ _ (λ actions. refl) (actions-Sourced _ _ _ dag)
