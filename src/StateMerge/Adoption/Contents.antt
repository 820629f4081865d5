-- ===== src/StateMerge/Adoption/Contents.antt =====
-- The bytes that `resolveContentConflict` of src/merge/state-merge.ts puts into its actions.
use opsblobs_obsidian.Base.{
  ◌≡◌, refl, JsString, Bool, true, false, not, ◌&&◌, ◌||◌, Option, none, some, List, inl, inr,
  ◌===◌, if◌then◌else◌, Option-cases, Bool-cases, is_nonneg,
}
use mathlib.Core.Path.{subst}
use opsblobs_obsidian.Hlc.{hlc_compare}
use opsblobs_obsidian.Dag.{VersionDag, is_ancestor}
use opsblobs_obsidian.Lines.{join_lf}
use opsblobs_obsidian.Diff3.{ThreeWayMergeResult, Result, ok, err, ◌>>=◌}
use opsblobs_obsidian.Diff3.Merge.{three_way_merge}
use opsblobs_obsidian.Vault.{Bytes, FileEntry, VaultState, MergeAction, no_op}
use opsblobs_obsidian.StateMerge.{TextCodec}
use opsblobs_obsidian.StateMerge.Heads.{
  Linked, linked, both_heads, delete_parents, local_at_head, ThreeWayBase, resolve_three_way_base,
  is_binary,
}
use opsblobs_obsidian.StateMerge.Content.{
  open_heads, peer_resolved, whole_conflict, is_missing, hold_or_adopt, fast_forward,
  defer_to_later, resolve_binary, merged_action, reconcile, with_contents, resolve_content_conflict,
  text_or_empty, base_bytes,
}
use opsblobs_obsidian.StateMerge.Adoption.{
  Held, CleanlyMerged, Sourced, HeldOption, local-HeldOption, remote-HeldOption, if-Sourced,
  adopt-Sourced, either-HeldOption,
}

module _ (codec : TextCodec) (local remote : VaultState) where
  open codec use {decode, encode}

  hold-Sourced :
      (id : JsString) (re : FileEntry) (dag : Option VersionDag) (heads : List JsString)
      → Sourced codec local remote (hold_or_adopt id re local remote dag heads)
  unfolding hold_or_adopt
  hold-Sourced id re dag heads =
      if-Sourced codec local remote (peer_resolved dag re.head_version_id heads) _ _
        (adopt-Sourced codec local remote id re _
          (either-HeldOption codec local remote re.content_hash re.content_hash).1)
        tt

  abbrev SourcedOption : Option MergeAction → Type 0
  SourcedOption none = Unit
  SourcedOption (some a) = Sourced codec local remote a

  SourcedOption-some :
      {o : Option MergeAction} (a : MergeAction)
      → o ≡ some a
      → SourcedOption o
      → Sourced codec local remote a
  SourcedOption-some a e h = subst (λ o. SourcedOption o) e h

  if-SourcedOption :
      (b : Bool) (x y : Option MergeAction)
      → SourcedOption x
      → SourcedOption y
      → SourcedOption (if b then x else y)
  if-SourcedOption true x y h k = h
  if-SourcedOption false x y h k = k

  fast_forward-Sourced :
      (id : JsString) (le re : FileEntry) (k : Option Linked)
      → SourcedOption (fast_forward id le re local remote k)
  unfolding fast_forward
  fast_forward-Sourced id le re none = tt
  fast_forward-Sourced id le re (some k) =
      if-SourcedOption (local_at_head k le && is_ancestor k.graph k.local_head k.remote_head) _ _
        (adopt-Sourced codec local remote id re _
          (either-HeldOption codec local remote re.content_hash re.content_hash).1)
        (if-SourcedOption (is_ancestor k.graph k.remote_head k.local_head) (some (no_op id)) none tt
          tt)

  defer-Sourced :
      (id : JsString) (le re : FileEntry) (lc rc : Option Bytes)
      → HeldOption codec local remote lc
      → HeldOption codec local remote rc
      → Sourced codec local remote (defer_to_later id le re lc rc)
  unfolding defer_to_later
  defer-Sourced id le re lc rc h k =
      if-Sourced codec local remote (is_nonneg (hlc_compare le.hlc_timestamp re.hlc_timestamp)) _ _
        (adopt-Sourced codec local remote id le lc h) (adopt-Sourced codec local remote id re rc k)

  binary-Sourced :
      (id : JsString) (le re : FileEntry) (lc rc : Bytes) (b : ThreeWayBase)
      (parents : Option (List JsString))
      → Held codec local remote lc
      → Held codec local remote rc
      → Sourced codec local remote (resolve_binary id le re lc rc b parents)
  unfolding resolve_binary
  binary-Sourced id le re lc rc b parents h k =
      if-Sourced codec local remote b.ambiguous _ _ (h, k)
        (elim (Option-cases b.base_hash) [
          | inl e ↦ rw e (h, k)
          | inr (g, e) ↦ rw e (
              if-Sourced codec local remote (not (re.content_hash === g) && le.content_hash === g) _
                _ (inl k)
                (if-Sourced codec local remote
                  (not (le.content_hash === g) && re.content_hash === g) _ _ tt (h, k)))
        ])

  merged-Sourced :
      (id : JsString) (le re : FileEntry) (ancestor : JsString) (lc rc : Bytes)
      (result : ThreeWayMergeResult)
      → Held codec local remote lc
      → Held codec local remote rc
      → three_way_merge ancestor (decode lc) (decode rc) ≡ ok result
      → Sourced codec local remote (merged_action codec id le re (decode lc) (decode rc) result)
  unfolding merged_action
  merged-Sourced id le re ancestor lc rc result h k e = elim (Bool-cases result.has_conflicts) [
    | inl c ↦ rw c ((lc, h, refl), (rc, k, refl))
    | inr c ↦ rw c (
        let m : CleanlyMerged codec local remote (encode (join_lf result.merged)) =
          (ancestor, lc, rc, result, h, k, e, c, refl) in
        elim (Option-cases (both_heads le re)) [
          | inl e ↦ rw e (inr m)
          | inr ((a, b), e) ↦ rw e (inr m)
        ])
  ]

  abbrev pub SourcedResult : Result MergeAction → Type 0
  SourcedResult (ok action) = Sourced codec local remote action
  SourcedResult (err e) = Unit

  pub if-SourcedResult :
      (b : Bool) (x y : Result MergeAction)
      → SourcedResult x
      → SourcedResult y
      → SourcedResult (if b then x else y)
  if-SourcedResult true x y h k = h
  if-SourcedResult false x y h k = k

  then-SourcedResult :
      (r : Result ThreeWayMergeResult) (f : ThreeWayMergeResult → MergeAction)
      → ((m : ThreeWayMergeResult) → r ≡ ok m → Sourced codec local remote (f m))
      → SourcedResult (do m ← r; ok (f m))
  then-SourcedResult (ok m) f h = h m refl
  then-SourcedResult (err e) f h = tt

  reconcile-Sourced :
      (id : JsString) (le re : FileEntry) (k : Option Linked) (lc rc : Bytes)
      → Held codec local remote lc
      → Held codec local remote rc
      → SourcedResult (reconcile codec id le re local remote k lc rc)
  unfolding reconcile
  reconcile-Sourced id le re k lc rc h g =
      let b = resolve_three_way_base k in
      let ancestor = base_bytes codec local remote b.base_hash in
      let whole : SourcedResult (ok (whole_conflict codec id le re (decode lc) (decode rc))) =
        ((lc, h, refl), (rc, g, refl)) in
      if-SourcedResult (is_binary lc || is_binary rc) _ _
        (binary-Sourced id le re lc rc b (delete_parents le re) h g)
        (if-SourcedResult b.ambiguous _ _ whole (
          if-SourcedResult (b.has_known_ancestor && is_missing codec ancestor) _ _ whole (
            then-SourcedResult
              (three_way_merge (text_or_empty codec ancestor) (decode lc) (decode rc))
              (merged_action codec id le re (decode lc) (decode rc))
              (λ m e. merged-Sourced id le re (text_or_empty codec ancestor) lc rc m h g e))))

  with_contents-Sourced :
      (id : JsString) (le re : FileEntry) (k : Option Linked) (lc rc : Option Bytes)
      → HeldOption codec local remote lc
      → HeldOption codec local remote rc
      → SourcedResult (with_contents codec id le re local remote k lc rc)
  unfolding with_contents
  with_contents-Sourced id le re k (some lc) (some rc) h g = reconcile-Sourced id le re k lc rc h g
  with_contents-Sourced id le re k none rc h g = defer-Sourced id le re none rc h g
  with_contents-Sourced id le re k (some lc) none h g = defer-Sourced id le re (some lc) none h g

  pub option-SourcedResult :
      {A : Type 0} (o : Option A) (x : Result MergeAction) (f : A → Result MergeAction)
      → (o ≡ none → SourcedResult x)
      → ((a : A) → o ≡ some a → SourcedResult (f a))
      → SourcedResult (elim o [ none ↦ x | some a ↦ f a ])
  option-SourcedResult none x f h k = h refl
  option-SourcedResult (some a) x f h k = k a refl

  pub content_conflict-Sourced :
      (id : JsString) (le re : FileEntry) (dag : Option VersionDag)
      → SourcedResult (resolve_content_conflict codec id le re local remote dag)
  unfolding resolve_content_conflict
  content_conflict-Sourced id le re dag =
      option-SourcedResult (open_heads le.conflict_parents) _ _
        (λ _.
          option-SourcedResult (fast_forward id le re local remote (linked dag le re)) _ _
            (λ _.
              with_contents-Sourced id le re (linked dag le re) _ _
                (local-HeldOption codec local remote le.content_hash)
                (remote-HeldOption codec local remote re.content_hash))
            (λ a f. SourcedOption-some a f (fast_forward-Sourced id le re (linked dag le re))))
        (λ heads _. hold-Sourced id re dag heads)
