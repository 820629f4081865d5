-- ===== src/StateMerge/Totality/Actions.antt =====
-- The error path of `mergeVaultStates` (src/merge/state-merge.ts), from its branches upwards.
use opsblobs_obsidian.Base.{
  ◌≡◌, refl, JsString, false, true, not, ◌&&◌, ◌||◌, Option, none, some, List, [], ◌∷◌, ◌⊎◌, inl,
  inr, ◌===◌, lookup, add, contains, contains-add, sym, ◌∙◌, arith, Bool-cases,
}
use opsblobs_obsidian.Dag.{VersionDag}
use opsblobs_obsidian.Diff3.{ok, DiffError, ◌>>=◌}
use opsblobs_obsidian.Diff3.Merge.{three_way_merge}
use opsblobs_obsidian.Vault.{Bytes, FileEntry, VaultState, stored}
use opsblobs_obsidian.StateMerge.{TextCodec}
use opsblobs_obsidian.StateMerge.Heads.{linked, delete_parents, resolve_three_way_base, is_binary}
use opsblobs_obsidian.StateMerge.Content.{
  open_heads, whole_conflict, is_missing, fast_forward, resolve_binary, merged_action, reconcile,
  with_contents, resolve_content_conflict, text_or_empty, base_bytes,
}
use opsblobs_obsidian.StateMerge.Classify.{
  resolve_both, resolve_remote_only, resolve_local_only, classify_and_resolve, add_ids, actions_for,
  merge_vault_states, colliding,
}
use opsblobs_obsidian.StateMerge.Totality.{
  FailsInMerge, if-FailsInMerge, option-FailsInMerge, then-FailsInMerge, any-FailsInMerge,
  MergeError, Contents, Known, lookup_first, Known-weaken, Indexes, live-Indexes,
}

add_ids-Known :
    (es : List (JsString × FileEntry)) (ids : List JsString) (id : JsString)
    → contains (add_ids ids es) id ≡ true
    → (contains ids id ≡ true) ⊎ Known es id
unfolding add_ids
add_ids-Known [] ids id h = inl h
add_ids-Known ((j, e) ∷ es) ids id h = elim (add_ids-Known es (add ids j) id h) [
  | inr k ↦ inr (Known-weaken j e es id k)
  | inl k ↦
      let q : j === id || contains ids id ≡ true = sym (contains-add ids j id) ∙ k in
      elim (Bool-cases (j === id)) [
        | inl s ↦ let same : j ≡ id = ground (arith, s) in inr (rw (← same) (lookup_first j e es))
        | inr d ↦ inl (ground (arith, q, d))
      ]
]

colliding_lem :
    (id other : JsString) (o : Option JsString) → colliding id o ≡ some other → o ≡ some other
unfolding colliding
colliding_lem id other none h = h
colliding_lem id other (some j) h = ground arith

module _ (codec : TextCodec) (local remote : VaultState) (dag : Option VersionDag) where
  open codec use {decode}

  abbrev E : DiffError → Type 0
  E = MergeError codec local remote dag

  abbrev IsLive : JsString → FileEntry → FileEntry → Type 0
  IsLive id le re =
      (lookup id local.file_entries ≡ some le)
      × (lookup id remote.file_entries ≡ some re)
      × (le.deleted ≡ false)
      × (re.deleted ≡ false)

  reconcile-FailsInMerge :
      (id : JsString) (le re : FileEntry) (lc rc : Bytes)
      → Contents local remote id le re lc rc
      → FailsInMerge E (reconcile codec id le re local remote (linked dag le re) lc rc)
  unfolding reconcile
  reconcile-FailsInMerge id le re lc rc h =
      let b = resolve_three_way_base (linked dag le re) in
      let ancestor = base_bytes codec local remote b.base_hash in
      let whole = whole_conflict codec id le re (decode lc) (decode rc) in
      if-FailsInMerge E (is_binary lc || is_binary rc)
        (ok (resolve_binary id le re lc rc b (delete_parents le re))) _ (λ _. tt)
        (λ _.
          if-FailsInMerge E b.ambiguous (ok whole) _ (λ _. tt)
            (λ _.
              if-FailsInMerge E (b.has_known_ancestor && is_missing codec ancestor) (ok whole)
                (do
                  result ← three_way_merge (text_or_empty codec ancestor) (decode lc) (decode rc)
                  ok (merged_action codec id le re (decode lc) (decode rc) result))
                (λ _. tt)
                (λ _.
                  then-FailsInMerge E
                    (three_way_merge (text_or_empty codec ancestor) (decode lc) (decode rc)) _
                    (any-FailsInMerge E
                      (three_way_merge (text_or_empty codec ancestor) (decode lc) (decode rc))
                      (λ e q. (id, le, re, lc, rc, h, q)))
                    (λ m. tt))))

  with_contents-FailsInMerge :
      (id : JsString) (le re : FileEntry) (lc rc : Option Bytes)
      → IsLive id le re
      → stored local le.content_hash ≡ lc
      → stored remote re.content_hash ≡ rc
      → FailsInMerge E (with_contents codec id le re local remote (linked dag le re) lc rc)
  unfolding with_contents
  with_contents-FailsInMerge id le re (some lc) (some rc) (a, b, c, d) x y =
      reconcile-FailsInMerge id le re lc rc (a, b, c, d, x, y)
  with_contents-FailsInMerge id le re none rc live x y = tt
  with_contents-FailsInMerge id le re (some lc) none live x y = tt

  content_conflict-FailsInMerge :
      (id : JsString) (le re : FileEntry)
      → IsLive id le re
      → FailsInMerge E (resolve_content_conflict codec id le re local remote dag)
  unfolding resolve_content_conflict
  content_conflict-FailsInMerge id le re live =
      option-FailsInMerge E (open_heads le.conflict_parents) _ (λ h. ok _)
        (λ _.
          option-FailsInMerge E (fast_forward id le re local remote (linked dag le re)) _
            (λ a. ok a)
            (λ _.
              with_contents-FailsInMerge id le re (stored local le.content_hash)
                (stored remote re.content_hash) live refl refl)
            (λ a _. tt))
        (λ h _. tt)

  both-FailsInMerge :
      (id : JsString) (le re : FileEntry)
      → lookup id local.file_entries ≡ some le
      → lookup id remote.file_entries ≡ some re
      → FailsInMerge E (resolve_both codec id le re local remote dag)
  unfolding resolve_both
  both-FailsInMerge id le re h k =
      if-FailsInMerge E (le.deleted && re.deleted) (ok _) _ (λ _. tt)
        (λ n.
          if-FailsInMerge E
            (not le.deleted && not re.deleted && le.content_hash === re.content_hash) (ok _) _
            (λ _. tt)
            (λ _.
              if-FailsInMerge E (le.deleted && not re.deleted) (ok _) _ (λ _. tt)
                (λ n2.
                  if-FailsInMerge E (not le.deleted && re.deleted) (ok _) _ (λ _. tt)
                    (λ n3.
                      content_conflict-FailsInMerge id le re (h, k, ground arith, ground arith)))))

  remote_only-FailsInMerge :
      (id : JsString) (re : FileEntry) (live : List (JsString × JsString))
      → Indexes local.file_entries live
      → FailsInMerge E (resolve_remote_only codec id re local remote live dag)
  unfolding resolve_remote_only
  remote_only-FailsInMerge id re live h =
      if-FailsInMerge E re.deleted (ok _) _ (λ _. tt)
        (λ _.
          option-FailsInMerge E (colliding id (lookup re.path live)) (ok _) _ (λ _. tt)
            (λ other e. let (le, k) = h re.path other (colliding_lem id other _ e) in rw k tt))

  local_only-FailsInMerge :
      (id : JsString) (le : FileEntry) (live : List (JsString × JsString))
      → Indexes remote.file_entries live
      → FailsInMerge E (resolve_local_only codec id le local remote live dag)
  unfolding resolve_local_only
  local_only-FailsInMerge id le live h =
      if-FailsInMerge E le.deleted (ok _) _ (λ _. tt)
        (λ _.
          option-FailsInMerge E (colliding id (lookup le.path live)) (ok _) _ (λ _. tt)
            (λ other e. let (re, k) = h le.path other (colliding_lem id other _ e) in rw k tt))

  classify-FailsInMerge :
      (id : JsString) (le re : Option FileEntry) (ll rl : List (JsString × JsString))
      → Indexes local.file_entries ll
      → Indexes remote.file_entries rl
      → ((e : FileEntry) × (le ≡ some e)) ⊎ ((e : FileEntry) × (re ≡ some e))
      → lookup id local.file_entries ≡ le
      → lookup id remote.file_entries ≡ re
      → FailsInMerge E (classify_and_resolve codec id le re local remote ll rl dag)
  unfolding classify_and_resolve
  classify-FailsInMerge id none (some re) ll rl h k m x y = remote_only-FailsInMerge id re ll h
  classify-FailsInMerge id (some le) none ll rl h k m x y = local_only-FailsInMerge id le rl k
  classify-FailsInMerge id (some le) (some re) ll rl h k m x y = both-FailsInMerge id le re x y
  classify-FailsInMerge id none none ll rl h k (inl (e, q)) x y = cc
  classify-FailsInMerge id none none ll rl h k (inr (e, q)) x y = cc

  actions-FailsInMerge :
      (ids : List JsString) (ll rl : List (JsString × JsString))
      → Indexes local.file_entries ll
      → Indexes remote.file_entries rl
      → ((id : JsString)
          → contains ids id ≡ true
          → Known local.file_entries id ⊎ Known remote.file_entries id)
      → FailsInMerge E (actions_for codec ids local remote ll rl dag)
  unfolding actions_for contains
  actions-FailsInMerge [] ll rl h k known = tt
  actions-FailsInMerge (id ∷ ids) ll rl h k known =
      then-FailsInMerge E _ _
        (classify-FailsInMerge id _ _ ll rl h k (known id (ground arith)) refl refl)
        (λ action.
          then-FailsInMerge E _ _
            (actions-FailsInMerge ids ll rl h k (λ j m. known j (ground arith))) (λ rest. tt))

  union-Known :
      (id : JsString)
      → contains (add_ids (add_ids [] local.file_entries) remote.file_entries) id ≡ true
      → Known local.file_entries id ⊎ Known remote.file_entries id
  unfolding contains
  union-Known id h = elim (add_ids-Known remote.file_entries (add_ids [] local.file_entries) id h) [
    | inr k ↦ inr k
    | inl k ↦ elim (add_ids-Known local.file_entries [] id k) [ inl m ↦ cc | inr m ↦ inl m ]
  ]

  no_index : (all : List (JsString × FileEntry)) → Indexes all []
  unfolding lookup
  no_index all p id e = cc

  -- The merge of two vault states fails only where the three-way merge fails on the two stored contents of
  -- an id that is live on both sides, against the base of its heads, and with that error: each id that
  -- the merge visits has an entry, and so has each id that it finds at a colliding path.
  pub merge_vault_states-FailsInMerge : FailsInMerge E (merge_vault_states codec local remote dag)
  unfolding merge_vault_states
  merge_vault_states-FailsInMerge =
      then-FailsInMerge E _ _
        (actions-FailsInMerge _ _ _
          (live-Indexes local.file_entries local.file_entries [] (λ id k. k) (no_index _))
          (live-Indexes remote.file_entries remote.file_entries [] (λ id k. k) (no_index _))
          union-Known)
        (λ actions. tt)
