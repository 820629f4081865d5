-- ===== src/StateMerge/Adoption.antt =====
-- Where the bytes of the actions of `mergeVaultStates` (src/merge/state-merge.ts) come from.
mod Contents
pub mod Actions
use opsblobs_obsidian.Base.{
  ℕ, ◌≡◌, refl, JsString, Bool, true, false, not, ◌&&◌, ◌||◌, Option, none, some, List, [], ◌∷◌,
  ◌⊎◌, inl, inr, ◌===◌, if◌then◌else◌, lookup, arith, Option-cases, Bool-cases, is_nonneg,
}
use mathlib.Core.Path.{subst}
use opsblobs_obsidian.Hlc.{hlc_compare}
use opsblobs_obsidian.Dag.{VersionDag, is_ancestor}
use opsblobs_obsidian.Lines.{join_lf}
use opsblobs_obsidian.Diff3.{ThreeWayMergeResult, Result, ok, err, ◌>>=◌}
use opsblobs_obsidian.Diff3.Merge.{three_way_merge}
use opsblobs_obsidian.Vault.{
  Bytes, FileEntry, VaultState, StateMergeResult, MergeAction, write_local, write_merge,
  send_remote, delete_local, delete_remote, move_local, conflict, delete_conflict, binary_conflict,
  no_op, stored, local_deleted, remote_deleted,
}
use opsblobs_obsidian.StateMerge.{TextCodec}
use opsblobs_obsidian.StateMerge.Heads.{
  or_else, Linked, linked, both_heads, delete_parents, local_at_head, ThreeWayBase,
  resolve_three_way_base, is_binary, is_resolution, is_unchanged_since_base,
  resolve_rename_conflict, adopt_remote, local_wins_collision,
}
use opsblobs_obsidian.StateMerge.Content.{
  open_heads, peer_resolved, whole_conflict, is_missing, hold_or_adopt, fast_forward,
  defer_to_later, resolve_binary, merged_action, reconcile, with_contents, resolve_content_conflict,
  text_or_empty, base_bytes,
}
use opsblobs_obsidian.StateMerge.Collision.{
  settled_collision, raise_collision, resolve_create_collision, adopt_remote_id, self_id,
}
use opsblobs_obsidian.StateMerge.Classify.{
  converge_heads, resolve_same_content, resolve_local_deleted, resolve_remote_deleted, resolve_both,
  resolve_remote_only, resolve_local_only, classify_and_resolve, actions_for, merge_vault_states,
  resolved_by_peer, colliding,
}

some-eq : {a b : Bytes} → ◌≡◌ {A = Option Bytes} (some a) (some b) → a ≡ b
some-eq e = cc

module _ (codec : TextCodec) (local remote : VaultState) where
  open codec use {decode, encode}

  -- The bytes are in one of the two content stores.
  abbrev pub Held : Bytes → Type 0
  Held bytes = (h : JsString) × ((stored local h ≡ some bytes) ⊎ (stored remote h ≡ some bytes))

  -- The bytes are a clean three-way merge of two stored contents.
  abbrev pub CleanlyMerged : Bytes → Type 0
  CleanlyMerged bytes =
      (ancestor : JsString) × (lc : Bytes) × (rc : Bytes) × (result : ThreeWayMergeResult) × Held lc
      × Held rc
      × (three_way_merge ancestor (decode lc) (decode rc) ≡ ok result)
      × (result.has_conflicts ≡ false)
      × (bytes ≡ encode (join_lf result.merged))

  -- What an action carries is stored, decoded from stored bytes, or a clean merge of stored bytes.
  abbrev pub Sourced : MergeAction → Type 0
  Sourced (write_local _ _ bytes _ _) = Held bytes ⊎ CleanlyMerged bytes
  Sourced (write_merge _ _ bytes _) = Held bytes ⊎ CleanlyMerged bytes
  Sourced (delete_conflict _ _ _ bytes _) = Held bytes
  Sourced (binary_conflict _ _ _ lc rc _ _ _) = Held lc × Held rc
  Sourced (conflict _ _ _ _ lt rt _) =
      ((lc : Bytes) × Held lc × (lt ≡ decode lc)) × ((rc : Bytes) × Held rc × (rt ≡ decode rc))
  Sourced (send_remote _ _ _) = Unit
  Sourced (delete_local _ _) = Unit
  Sourced (delete_remote _ _) = Unit
  Sourced (move_local _ _ _) = Unit
  Sourced (no_op _) = Unit

  abbrev pub HeldOption : Option Bytes → Type 0
  HeldOption none = Unit
  HeldOption (some bytes) = Held bytes

  pub Held-some : (c : Option Bytes) (b : Bytes) → c ≡ some b → HeldOption c → Held b
  Held-some none b e h = cc
  Held-some (some a) b e h = rw (← some-eq e) h

  pub local-HeldOption : (h : JsString) → HeldOption (stored local h)
  local-HeldOption h = elim (Option-cases (stored local h)) [
    | inl e ↦ rw e tt
    | inr (b, e) ↦ rw e (h, inl e)
  ]

  pub remote-HeldOption : (h : JsString) → HeldOption (stored remote h)
  remote-HeldOption h = elim (Option-cases (stored remote h)) [
    | inl e ↦ rw e tt
    | inr (b, e) ↦ rw e (h, inr e)
  ]

  pub or_else-HeldOption :
      (a b : Option Bytes) → HeldOption a → HeldOption b → HeldOption (or_else a b)
  or_else-HeldOption none b h k = k
  or_else-HeldOption (some a) b h k = h

  pub if-Sourced :
      (b : Bool) (x y : MergeAction) → Sourced x → Sourced y → Sourced (if b then x else y)
  if-Sourced true x y h k = h
  if-Sourced false x y h k = k

  pub adopt-Sourced :
      (id : JsString) (re : FileEntry) (c : Option Bytes)
      → HeldOption c
      → Sourced (adopt_remote id re c)
  adopt-Sourced id re none h = tt
  adopt-Sourced id re (some b) h = inl h

  rename-Sourced : (id : JsString) (le re : FileEntry) → Sourced (resolve_rename_conflict id le re)
  unfolding resolve_rename_conflict
  rename-Sourced id le re =
      if-Sourced (is_nonneg (hlc_compare le.hlc_timestamp re.hlc_timestamp)) (no_op id)
        (move_local id le.path re.path) tt tt

  -- The first content that either order of the stores yields.
  pub either-HeldOption :
      (h k : JsString)
      → HeldOption (or_else (stored local h) (stored remote k))
        × HeldOption (or_else (stored remote h) (stored local k))
  either-HeldOption h k = (
    or_else-HeldOption (stored local h) (stored remote k) (local-HeldOption h)
        (remote-HeldOption k),
    or_else-HeldOption (stored remote h) (stored local k) (remote-HeldOption h)
        (local-HeldOption k),
  )

  pub content-Sourced :
      (c : Option Bytes) (id : JsString) (f : Bytes → MergeAction)
      → HeldOption c
      → ((b : Bytes) → Held b → Sourced (f b))
      → Sourced (elim c [ none ↦ no_op id | some b ↦ f b ])
  content-Sourced none id f h k = tt
  content-Sourced (some b) id f h k = k b h

  converge-Sourced :
      (id : JsString) (le re : FileEntry) (k : Linked)
      → Sourced (converge_heads id le re local remote k)
  unfolding converge_heads
  converge-Sourced id le re k =
      let c = or_else (stored local le.content_hash) (stored remote re.content_hash) in
      let held = (either-HeldOption le.content_hash re.content_hash).0 in
      if-Sourced (k.local_head === k.remote_head || is_ancestor k.graph k.remote_head k.local_head)
        _ _ tt
        (if-Sourced (not (local_at_head k le)) _ _ tt (
          if-Sourced (is_ancestor k.graph k.local_head k.remote_head) _ _
            (content-Sourced c id
              (λ b. write_local id re.path b re.hlc_timestamp (some k.remote_head)) held
              (λ b h. inl h))
            (content-Sourced c id
              (λ b. write_merge id le.path b (k.local_head ∷ k.remote_head ∷ [])) held
              (λ b h. inl h))))

  pub same_content-Sourced :
      (id : JsString) (le re : FileEntry) (dag : Option VersionDag)
      → Sourced (resolve_same_content id le re local remote dag)
  unfolding resolve_same_content
  same_content-Sourced id le re dag =
      if-Sourced (not (le.path === re.path)) _ _ (rename-Sourced id le re)
        (elim (Option-cases (linked dag le re)) [
          | inl e ↦ rw e tt
          | inr (k, e) ↦ rw e (converge-Sourced id le re k)
        ])

  pub local_deleted-Sourced :
      (id : JsString) (le re : FileEntry) (dag : Option VersionDag)
      → Sourced (resolve_local_deleted id le re local remote dag)
  unfolding resolve_local_deleted
  local_deleted-Sourced id le re dag =
      let c = or_else (stored remote re.content_hash) (stored local re.content_hash) in
      let held = (either-HeldOption re.content_hash re.content_hash).1 in
      let propagate : MergeAction =
        if is_unchanged_since_base re le dag then delete_remote id re.path else elim c [
          | none ↦ no_op id
          | some bytes ↦ delete_conflict id re.path local_deleted bytes (delete_parents le re)
        ] in
      let propagated : Sourced propagate = if-Sourced (is_unchanged_since_base re le dag) _ _ tt (
        content-Sourced c id
          (λ bytes. delete_conflict id re.path local_deleted bytes (delete_parents le re)) held
          (λ b h. h)) in
      if-Sourced (resolved_by_peer (linked dag le re)) _ _
        (elim (Option-cases c) [
          | inl e ↦ rw e propagated
          | inr (b, e) ↦ rw e (inl (Held-some c b e held))
        ])
        propagated

  pub remote_deleted-Sourced :
      (id : JsString) (le re : FileEntry) (dag : Option VersionDag)
      → Sourced (resolve_remote_deleted id le re local remote dag)
  unfolding resolve_remote_deleted
  remote_deleted-Sourced id le re dag =
      let c = or_else (stored local le.content_hash) (stored remote le.content_hash) in
      if-Sourced (resolved_by_peer (linked dag le re)) _ _ tt (
        if-Sourced (is_unchanged_since_base le re dag) _ _ tt (
          content-Sourced c id
            (λ bytes. delete_conflict id le.path remote_deleted bytes (delete_parents le re))
            (either-HeldOption le.content_hash le.content_hash).0 (λ b h. h)))
