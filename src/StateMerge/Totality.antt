-- ===== src/StateMerge/Totality.antt =====
-- When `mergeVaultStates` (src/merge/state-merge.ts) fails.
pub mod Actions
use opsblobs_obsidian.Base.{
  ℕ, ◌≡◌, refl, JsString, Bool, true, false, not, ◌&&◌, ◌||◌, Option, none, some, List, [], ◌∷◌,
  ◌⊎◌, inl, inr, ◌===◌, if◌then◌else◌, lookup, insert, lookup-insert, add, contains, contains-add,
  sym, ◌∙◌, length, arith, Option-cases, Bool-cases, is_nonneg,
}
use mathlib.Core.Path.{subst}
use opsblobs_obsidian.Hlc.{hlc_compare}
use opsblobs_obsidian.Dag.{VersionDag, is_ancestor}
use opsblobs_obsidian.Lines.{join_lf}
use opsblobs_obsidian.Diff3.{ThreeWayMergeResult, Result, DiffError, ok, err, type_error, ◌>>=◌}
use opsblobs_obsidian.Diff3.Merge.{three_way_merge}
use opsblobs_obsidian.Vault.{
  Bytes, FileEntry, VaultState, StateMergeResult, MergeAction, write_local, write_merge,
  send_remote, delete_local, delete_remote, move_local, conflict, delete_conflict, binary_conflict,
  no_op, stored, local_deleted, remote_deleted,
}
use opsblobs_obsidian.StateMerge.{TextCodec}
use opsblobs_obsidian.StateMerge.Heads.{
  or_else, Linked, linked, both_heads, delete_parents, local_at_head, ThreeWayBase,
  resolve_three_way_base, is_binary, is_resolution, is_unchanged_since_base,
  resolve_rename_conflict, adopt_remote, local_wins_collision,
}
use opsblobs_obsidian.StateMerge.Content.{
  open_heads, peer_resolved, whole_conflict, is_missing, hold_or_adopt, fast_forward,
  defer_to_later, resolve_binary, merged_action, reconcile, with_contents, resolve_content_conflict,
  text_or_empty, base_bytes,
}
use opsblobs_obsidian.StateMerge.Collision.{
  settled_collision, raise_collision, resolve_create_collision, adopt_remote_id, self_id, self_wins,
}
use opsblobs_obsidian.StateMerge.Classify.{
  converge_heads, resolve_same_content, resolve_local_deleted, resolve_remote_deleted, resolve_both,
  resolve_remote_only, resolve_local_only, classify_and_resolve, live_by_path, add_ids, actions_for,
  merge_vault_states, resolved_by_peer, colliding,
}

-- The id is live on both sides and the bytes of both contents are stored.
abbrev pub Contents :
    VaultState → VaultState → JsString → FileEntry → FileEntry → Bytes → Bytes → Type 0
Contents local remote id le re lc rc =
    (lookup id local.file_entries ≡ some le)
    × (lookup id remote.file_entries ≡ some re)
    × (le.deleted ≡ false)
    × (re.deleted ≡ false)
    × (stored local le.content_hash ≡ some lc)
    × (stored remote re.content_hash ≡ some rc)

-- An error of the three-way merge of the two stored contents of an id that is live on both sides, against
-- the base that `resolveThreeWayBase` names for its heads.
abbrev pub MergeError : TextCodec → VaultState → VaultState → Option VersionDag → DiffError → Type 0
MergeError codec local remote dag e =
    (id : JsString) × (le : FileEntry) × (re : FileEntry) × (lc : Bytes) × (rc : Bytes) × Contents
      local remote id le re lc rc
    × (three_way_merge
          (text_or_empty codec
            (base_bytes codec local remote (resolve_three_way_base (linked dag le re)).base_hash))
          (codec.decode lc) (codec.decode rc)
        ≡ err e)

-- The code returns, or its error is one of the given ones.
abbrev pub FailsInMerge {ℓ} : {A : Type ℓ} → (DiffError → Type 0) → Result A → Type 0
FailsInMerge P (ok a) = Unit
FailsInMerge P (err e) = P e

pub if-FailsInMerge {ℓ} :
    {A : Type ℓ} (P : DiffError → Type 0) (b : Bool) (x y : Result A)
    → (b ≡ true → FailsInMerge P x)
    → (b ≡ false → FailsInMerge P y)
    → FailsInMerge P (if b then x else y)
if-FailsInMerge P true x y h k = h refl
if-FailsInMerge P false x y h k = k refl

pub option-FailsInMerge :
    {A B : Type 0} (P : DiffError → Type 0) (o : Option A) (x : Result B) (f : A → Result B)
    → (o ≡ none → FailsInMerge P x)
    → ((a : A) → o ≡ some a → FailsInMerge P (f a))
    → FailsInMerge P (elim o [ none ↦ x | some a ↦ f a ])
option-FailsInMerge P none x f h k = h refl
option-FailsInMerge P (some a) x f h k = k a refl

pub then-FailsInMerge {ℓ ℓ'} :
    {A : Type ℓ} {B : Type ℓ'} (P : DiffError → Type 0) (r : Result A) (f : A → Result B)
    → FailsInMerge P r
    → ((a : A) → FailsInMerge P (f a))
    → FailsInMerge P (r >>= f)
then-FailsInMerge P (ok a) f h k = k a
then-FailsInMerge P (err e) f h k = h

pub any-FailsInMerge {ℓ} :
    {A : Type ℓ} (P : DiffError → Type 0) (r : Result A)
    → ((e : DiffError) → r ≡ err e → P e)
    → FailsInMerge P r
any-FailsInMerge P (ok a) h = tt
any-FailsInMerge P (err e) h = h e refl

-- The id has an entry.
abbrev pub Known : List (JsString × FileEntry) → JsString → Type 0
Known entries id = (e : FileEntry) × (lookup id entries ≡ some e)

pub lookup_first :
    (id : JsString) (e : FileEntry) (es : List (JsString × FileEntry)) → Known ((id, e) ∷ es) id
unfolding lookup
lookup_first id e es = (e, ground arith)

pub Known-weaken :
    (id : JsString) (e : FileEntry) (es : List (JsString × FileEntry)) (j : JsString)
    → Known es j
    → Known ((id, e) ∷ es) j
unfolding lookup
Known-weaken id e es j (f, h) = elim (Bool-cases (id === j)) [
  | inl q ↦ (e, ground arith)
  | inr q ↦ (f, ground arith)
]

-- An index names ids that have an entry.
abbrev pub Indexes : List (JsString × FileEntry) → List (JsString × JsString) → Type 0
Indexes all index = (p id : JsString) → lookup p index ≡ some id → Known all id

some_eq : {a b : JsString} → ◌≡◌ {A = Option JsString} (some a) (some b) → a ≡ b
some_eq e = cc

insert-Indexes :
    (all : List (JsString × FileEntry)) (index : List (JsString × JsString)) (path id : JsString)
    → Known all id
    → Indexes all index
    → Indexes all (insert path id index)
insert-Indexes all index path id k h p j e =
    let q : (if path === p then some id else lookup p index) ≡ some j =
      sym (lookup-insert path p id index) ∙ e in
    elim (Bool-cases (path === p)) [
      | inl t ↦ let same : id ≡ j = ground (arith, q, t) in rw (← same) k
      | inr f ↦ h p j (ground (arith, q, f))
    ]

pub live-Indexes :
    (all es : List (JsString × FileEntry)) (index : List (JsString × JsString))
    → ((id : JsString) → Known es id → Known all id)
    → Indexes all index
    → Indexes all (live_by_path es index)
unfolding live_by_path
live-Indexes all [] index sub h = h
live-Indexes all ((id, e) ∷ es) index sub h =
    live-Indexes all es _ (λ j k. sub j (Known-weaken id e es j k))
      (elim (Bool-cases e.deleted) [
        | inl d ↦ rw d h
        | inr d ↦ rw d (insert-Indexes all index e.path id (sub id (lookup_first id e es)) h)
      ])
