-- ===== src/Dag/Prune/Answers.antt =====
-- What `prune` of src/core/version-dag.ts does to the answers of the graph.
use mathlib.Core.Path.{subst}
use opsblobs_obsidian.Base.{
  ◌≡◌, refl, ◌↔◌, inl, inr, JsString, none, List, [], ◌∷◌, arith, if◌then◌else◌, contains, lookup,
  Bool-cases, iff_eq,
}
use opsblobs_obsidian.Dag.{
  VersionDag, parents_of, delete_unkept, keep_set, prune, is_ancestor, merge_base, no_base,
}
use opsblobs_obsidian.Dag.Walk.{IsIn, not_in_nil}
use opsblobs_obsidian.Dag.Reach.{Ancestor, here, up, Ancestor-parent, Ancestor-trans}
use opsblobs_obsidian.Dag.Ancestor.{is_ancestor_iff}
use opsblobs_obsidian.Dag.MergeBase.{Common, Dominated}
use opsblobs_obsidian.Dag.MergeBase.Spec.{merge_base_congr, merge_base-no_base_iff}
use opsblobs_obsidian.Dag.Prune.{Rooted, keep_set_iff}

lookup-delete_unkept :
    (keep : List JsString) (dag : VersionDag) (v : JsString)
    → lookup v (delete_unkept keep dag).0 ≡ (if contains keep v then lookup v dag else none)
unfolding lookup delete_unkept
lookup-delete_unkept keep [] v = ground arith
lookup-delete_unkept keep ((k, node) ∷ dag) v = ground (arith, lookup-delete_unkept keep dag v)

parents_of-delete_unkept :
    (keep : List JsString) (dag : VersionDag) (v : JsString)
    → parents_of (delete_unkept keep dag).0 v ≡ (if contains keep v then parents_of dag v else [])
unfolding parents_of
parents_of-delete_unkept keep dag v = ground (arith, lookup-delete_unkept keep dag v)

module _ (dag : VersionDag) (roots : List JsString) where
  abbrev pruned : VersionDag
  pruned = (delete_unkept (keep_set dag roots) dag).0

  kept_parents : (v : JsString) → Rooted dag roots v → parents_of pruned v ≡ parents_of dag v
  kept_parents v k =
      ground
        (arith, parents_of-delete_unkept (keep_set dag roots) dag v, (keep_set_iff dag roots v).1 k)

  pruned_parent : (v p : JsString) → IsIn (parents_of pruned v) p → IsIn (parents_of dag v) p
  pruned_parent v p m =
      ground (arith, parents_of-delete_unkept (keep_set dag roots) dag v, not_in_nil p)

  Rooted-parent :
      (v p : JsString) → Rooted dag roots v → IsIn (parents_of dag v) p → Rooted dag roots p
  Rooted-parent v p (r, k, h) m = (r, k, Ancestor-parent dag v p m h)

  Ancestor-pruned : (a : JsString) {v : JsString} → Ancestor pruned a v → Ancestor dag a v
  Ancestor-pruned a here = here
  Ancestor-pruned a (up {v} p m h) = up p (pruned_parent v p m) (Ancestor-pruned a h)

  pruned-Ancestor :
      (a : JsString) {v : JsString} → Ancestor dag a v → Rooted dag roots v → Ancestor pruned a v
  pruned-Ancestor a here k = here
  pruned-Ancestor a (up {v} p m h) k =
      up p (rw (kept_parents v k) m) (pruned-Ancestor a h (Rooted-parent v p k m))

  Common-pruned_iff :
      (a b c : JsString)
      → Rooted dag roots a
      → Rooted dag roots b
      → Common pruned a b c ↔ Common dag a b c
  Common-pruned_iff a b c ka kb = (
    λ (h, k). (Ancestor-pruned c h, Ancestor-pruned c k),
    λ (h, k). (pruned-Ancestor c h ka, pruned-Ancestor c k kb),
  )

  Rooted-Ancestor : (a v : JsString) → Rooted dag roots v → Ancestor dag a v → Rooted dag roots a
  Rooted-Ancestor a v (r, k, h) g = (r, k, Ancestor-trans dag a g h)

  Dominated-pruned_iff :
      (a b m : JsString)
      → Rooted dag roots a
      → Rooted dag roots b
      → Dominated pruned a b m ↔ Dominated dag a b m
  Dominated-pruned_iff a b m ka kb = (
    λ (c, p, k, n, h).
        (c, p, (Common-pruned_iff a b c ka kb).0 k, pruned_parent c p n, Ancestor-pruned m h),
    λ (c, p, k, n, h).
        let kc = Rooted-Ancestor c a ka k.0 in
        (
          c,
          p,
          (Common-pruned_iff a b c ka kb).1 k,
          rw (kept_parents c kc) n,
          pruned-Ancestor m h (Rooted-parent c p kc n),
        ),
  )

  -- For a version that is a root or an ancestor of one, `prune` changes no answer of `isAncestor`.
  pub is_ancestor-prune :
      (a v : JsString)
      → Rooted dag roots v
      → is_ancestor (prune dag roots).0 a v ≡ is_ancestor dag a v
  unfolding prune
  is_ancestor-prune a v k =
      iff_eq _ _
        (λ h. (is_ancestor_iff dag a v).1 (Ancestor-pruned a ((is_ancestor_iff pruned a v).0 h)))
        (λ h. (is_ancestor_iff pruned a v).1 (pruned-Ancestor a ((is_ancestor_iff dag a v).0 h) k))

  -- For two heads that are both kept, `prune` does not change the merge base.
  pub merge_base-prune :
      (a b : JsString)
      → Rooted dag roots a
      → Rooted dag roots b
      → merge_base (prune dag roots).0 a b ≡ merge_base dag a b
  unfolding prune
  merge_base-prune a b ka kb =
      merge_base_congr pruned dag a b a b (λ c. Common-pruned_iff a b c ka kb)
        (λ m. Dominated-pruned_iff a b m ka kb)

  dropped_parents : (b : JsString) → ¬ (Rooted dag roots b) → parents_of pruned b ≡ []
  dropped_parents b n = elim (Bool-cases (contains (keep_set dag roots) b)) [
    | inl kept ↦ absurd (n ((keep_set_iff dag roots b).0 kept))
    | inr gone ↦ ground (arith, parents_of-delete_unkept (keep_set dag roots) dag b)
  ]

  dropped_alone :
      (c : JsString) {b : JsString} → ¬ (Rooted dag roots b) → Ancestor pruned c b → c ≡ b
  dropped_alone c n here = refl
  dropped_alone c n (up {v} p m h) =
      cc (not_in_nil p, subst (λ ps. IsIn ps p) (dropped_parents v n) m)

  -- For a head that is recorded but neither a root nor an ancestor of one, `prune` loses the merge
  -- base with every kept head: `mergeBase` then answers `null`, whatever it answered before.
  pub merge_base-prune_dropped :
      (a b : JsString)
      → Rooted dag roots a
      → ¬ (Rooted dag roots b)
      → merge_base (prune dag roots).0 a b ≡ no_base
  unfolding prune
  merge_base-prune_dropped a b ka nb = (merge_base-no_base_iff pruned a b).1 (λ c (h, k).
      let e : c ≡ b = dropped_alone c nb k in
      nb (Rooted-Ancestor b a ka (rw (← e) (Ancestor-pruned c h))))
