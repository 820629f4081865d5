-- ===== src/StateMerge/MergeNodes.antt =====
-- The merge nodes of src/merge/state-merge.ts: the heads that a `write_merge` action unites.
pub mod Branches
use opsblobs_obsidian.Base.{
  ℕ, ◌≡◌, refl, JsString, Bool, true, false, not, ◌&&◌, ◌||◌, Option, none, some, List, [], ◌∷◌,
  ◌===◌, if◌then◌else◌, arith, Option-cases, Bool-cases, inl, inr, is_nonneg,
}
use mathlib.Core.Path.{subst}
use opsblobs_obsidian.Hlc.{hlc_compare}
use opsblobs_obsidian.Dag.{VersionDag, is_ancestor}
use opsblobs_obsidian.Lines.{join_lf}
use opsblobs_obsidian.Diff3.{ThreeWayMergeResult, Result, ok, err, ◌>>=◌}
use opsblobs_obsidian.Diff3.Merge.{three_way_merge}
use opsblobs_obsidian.Vault.{
  Bytes, FileEntry, VaultState, MergeAction, write_local, write_merge, send_remote, delete_local,
  delete_remote, move_local, conflict, delete_conflict, binary_conflict, no_op, stored,
}
use opsblobs_obsidian.StateMerge.{TextCodec}
use opsblobs_obsidian.StateMerge.Heads.{
  or_else, Linked, linked, both_heads, delete_parents, local_at_head, ThreeWayBase,
  resolve_three_way_base, is_binary, resolve_rename_conflict, adopt_remote,
}
use opsblobs_obsidian.StateMerge.Content.{
  open_heads, peer_resolved, hold_or_adopt, fast_forward, defer_to_later, resolve_binary,
  merged_action, reconcile, with_contents, resolve_content_conflict, text_or_empty, base_bytes,
  whole_conflict, is_missing,
}
use opsblobs_obsidian.StateMerge.Classify.{
  converge_heads, resolve_same_content, resolve_local_deleted, resolve_remote_deleted, resolve_both,
}

-- The remote head is not one that the local head descends from already.
abbrev pub NotBehind : Option Linked → Type 0
NotBehind none = Unit
NotBehind (some k) = is_ancestor k.graph k.remote_head k.local_head ≡ false

-- A merge node unites the two heads, of which the remote one is new here.
abbrev pub Unites : FileEntry → FileEntry → Option VersionDag → MergeAction → Type 0
Unites le re dag (write_merge _ _ _ parents) =
    (delete_parents le re ≡ some parents) × NotBehind (linked dag le re)
Unites le re dag (write_local _ _ _ _ _) = Unit
Unites le re dag (delete_conflict _ _ _ _ _) = Unit
Unites le re dag (binary_conflict _ _ _ _ _ _ _ _) = Unit
Unites le re dag (conflict _ _ _ _ _ _ _) = Unit
Unites le re dag (send_remote _ _ _) = Unit
Unites le re dag (delete_local _ _) = Unit
Unites le re dag (delete_remote _ _) = Unit
Unites le re dag (move_local _ _ _) = Unit
Unites le re dag (no_op _) = Unit

abbrev is_merge : MergeAction → Bool
is_merge (write_merge _ _ _ _) = true
is_merge (write_local _ _ _ _ _) = false
is_merge (delete_conflict _ _ _ _ _) = false
is_merge (binary_conflict _ _ _ _ _ _ _ _) = false
is_merge (conflict _ _ _ _ _ _ _) = false
is_merge (send_remote _ _ _) = false
is_merge (delete_local _ _) = false
is_merge (delete_remote _ _) = false
is_merge (move_local _ _ _) = false
is_merge (no_op _) = false

module _ (le re : FileEntry) (dag : Option VersionDag) where
  pub if-Unites :
      (b : Bool) (x y : MergeAction)
      → (b ≡ true → Unites le re dag x)
      → (b ≡ false → Unites le re dag y)
      → Unites le re dag (if b then x else y)
  if-Unites true x y h k = h refl
  if-Unites false x y h k = k refl

  pub option-Unites :
      {A : Type 0} (o : Option A) (x : MergeAction) (f : A → MergeAction)
      → (o ≡ none → Unites le re dag x)
      → ((a : A) → o ≡ some a → Unites le re dag (f a))
      → Unites le re dag (elim o [ none ↦ x | some a ↦ f a ])
  option-Unites none x f h k = h refl
  option-Unites (some a) x f h k = k a refl

  linked-parents :
      (k : Linked)
      → linked dag le re ≡ some k
      → delete_parents le re ≡ some (k.local_head ∷ k.remote_head ∷ [])
  unfolding linked delete_parents
  linked-parents k e = ground (arith, e)

  pub heads-parents :
      (a b : JsString) → both_heads le re ≡ some (a, b) → delete_parents le re ≡ some (a ∷ b ∷ [])
  unfolding delete_parents
  heads-parents a b e = ground (arith, e)

  converge-Unites :
      (id : JsString) (local remote : VaultState) (k : Linked)
      → linked dag le re ≡ some k
      → Unites le re dag (converge_heads id le re local remote k)
  unfolding converge_heads
  converge-Unites id local remote k e =
      let c = or_else (stored local le.content_hash) (stored remote re.content_hash) in
      if-Unites (k.local_head === k.remote_head || is_ancestor k.graph k.remote_head k.local_head)
        (no_op id) _ (λ _. tt)
        (λ n.
          if-Unites (not (local_at_head k le)) (no_op id) _ (λ _. tt)
            (λ _.
              if-Unites (is_ancestor k.graph k.local_head k.remote_head) _ _
                (λ _. option-Unites c (no_op id) _ (λ _. tt) (λ b _. tt))
                (λ _.
                  option-Unites c (no_op id)
                    (λ bytes. write_merge id le.path bytes (k.local_head ∷ k.remote_head ∷ []))
                    (λ _. tt) (λ b _. (linked-parents k e, rw e (ground (arith, n)))))))

  pub fast_forward-NotBehind :
      (id : JsString) (local remote : VaultState) (k : Option Linked)
      → fast_forward id le re local remote k ≡ none
      → NotBehind k
  unfolding fast_forward
  fast_forward-NotBehind id local remote none e = tt
  fast_forward-NotBehind id local remote (some k) e = ground (arith, e)

  pub adopt-Unites :
      (id : JsString) (entry : FileEntry) (c : Option Bytes)
      → Unites le re dag (adopt_remote id entry c)
  adopt-Unites id entry none = tt
  adopt-Unites id entry (some b) = tt

  pub same_content-Unites :
      (id : JsString) (local remote : VaultState)
      → Unites le re dag (resolve_same_content id le re local remote dag)
  unfolding resolve_same_content resolve_rename_conflict
  same_content-Unites id local remote =
      if-Unites (not (le.path === re.path)) _ _
        (λ _.
          if-Unites (is_nonneg (hlc_compare le.hlc_timestamp re.hlc_timestamp)) (no_op id)
            (move_local id le.path re.path) (λ _. tt) (λ _. tt))
        (λ _.
          option-Unites (linked dag le re) (no_op id) _ (λ _. tt)
            (λ k e. converge-Unites id local remote k e))

  abbrev pub UnitesResult : Result MergeAction → Type 0
  UnitesResult (ok a) = Unites le re dag a
  UnitesResult (err e) = Unit

  pub if-UnitesResult :
      (b : Bool) (x y : Result MergeAction)
      → UnitesResult x
      → UnitesResult y
      → UnitesResult (if b then x else y)
  if-UnitesResult true x y h k = h
  if-UnitesResult false x y h k = k

  pub option-UnitesResult :
      {A : Type 0} (o : Option A) (x : Result MergeAction) (f : A → Result MergeAction)
      → (o ≡ none → UnitesResult x)
      → ((a : A) → o ≡ some a → UnitesResult (f a))
      → UnitesResult (elim o [ none ↦ x | some a ↦ f a ])
  option-UnitesResult none x f h k = h refl
  option-UnitesResult (some a) x f h k = k a refl

  pub then-UnitesResult :
      (r : Result ThreeWayMergeResult) (f : ThreeWayMergeResult → MergeAction)
      → ((m : ThreeWayMergeResult) → Unites le re dag (f m))
      → UnitesResult (do m ← r; ok (f m))
  then-UnitesResult (ok m) f h = h m
  then-UnitesResult (err e) f h = tt

  pub binary-Unites :
      (id : JsString) (lc rc : Bytes) (b : ThreeWayBase) (parents : Option (List JsString))
      → Unites le re dag (resolve_binary id le re lc rc b parents)
  unfolding resolve_binary
  binary-Unites id lc rc b parents =
      if-Unites b.ambiguous _ _ (λ _. tt)
        (λ _.
          option-Unites b.base_hash
            (binary_conflict id le.path re.path lc rc le.hlc_timestamp re.hlc_timestamp parents) _
            (λ _. tt)
            (λ g _.
              if-Unites (not (re.content_hash === g) && le.content_hash === g) _ _ (λ _. tt)
                (λ _.
                  if-Unites (not (le.content_hash === g) && re.content_hash === g) (no_op id) _
                    (λ _. tt) (λ _. tt))))

  some_action : {a b : MergeAction} → ◌≡◌ {A = Option MergeAction} (some a) (some b) → a ≡ b
  some_action e = cc

  pub if_some-Unites :
      (x y : Bool) (id : JsString) (c : Option Bytes) (a : MergeAction)
      → (if x then some (adopt_remote id re c) else if y then some (no_op id) else none) ≡ some a
      → Unites le re dag a
  if_some-Unites true y id c a e =
      subst (λ b. Unites le re dag b) (some_action e) (adopt-Unites id re c)
  if_some-Unites false true id c a e = subst (λ b. Unites le re dag b) (some_action e) tt
  if_some-Unites false false id c a e = cc

  pub no_merge-Unites : (a : MergeAction) → is_merge a ≡ false → Unites le re dag a
  no_merge-Unites (write_merge _ _ _ _) h = cc
  no_merge-Unites (write_local _ _ _ _ _) h = tt
  no_merge-Unites (delete_conflict _ _ _ _ _) h = tt
  no_merge-Unites (binary_conflict _ _ _ _ _ _ _ _) h = tt
  no_merge-Unites (conflict _ _ _ _ _ _ _) h = tt
  no_merge-Unites (send_remote _ _ _) h = tt
  no_merge-Unites (delete_local _ _) h = tt
  no_merge-Unites (delete_remote _ _) h = tt
  no_merge-Unites (move_local _ _ _) h = tt
  no_merge-Unites (no_op _) h = tt
