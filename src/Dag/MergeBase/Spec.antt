-- ===== src/Dag/MergeBase/Spec.antt =====
-- What `mergeBase` of src/core/version-dag.ts answers, in terms of reachability alone.
use opsblobs_obsidian.Base.{
  ◌≡◌, ◌≢◌, refl, sym, ◌↔◌, inl, inr, JsString, false, Option, none, some, List, [], ◌∷◌, arith,
  contains, Bool-cases,
}
use opsblobs_obsidian.Dag.{
  VersionDag, MergeBaseResult, no_base, multiple, base, pick_base, base_among, merge_base,
}
use opsblobs_obsidian.Dag.Walk.{IsIn, IsIn-head, not_in_nil}
use opsblobs_obsidian.Dag.MergeBase.{
  Common, Dominated, Maximal, common, dominated, IsIn-common_iff, IsIn-dominated_iff,
}
use opsblobs_obsidian.Dag.MergeBase.Pick.{
  NoDup, OnlyFree, common-NoDup, pick_base-none, none-pick_base,
}

merge_base-base :
    (dag : VersionDag) (cs : List JsString) (m : JsString)
    → NoDup cs
    → (base_among dag cs ≡ base m)
      ↔ (IsIn cs m × (contains (dominated dag cs) m ≡ false) × OnlyFree (dominated dag cs) cs m)
unfolding base_among
merge_base-base dag [] m d = (λ h. cc, λ (k, _, _). cc (not_in_nil m))
merge_base-base dag (c ∷ cs) m d =
    (pick_base-none _ (c ∷ cs) m, λ (k, f, only). none-pick_base _ (c ∷ cs) m d k f only)

-- Not marked is not dominated, and the other way round.
free_iff :
    (dag : VersionDag) (a b c : JsString)
    → (contains (dominated dag (common dag a b)) c ≡ false) ↔ (¬ (Dominated dag a b c))
free_iff dag a b c = (
  λ f d. cc ((IsIn-dominated_iff dag a b c).1 d),
  λ n. elim (Bool-cases (contains (dominated dag (common dag a b)) c)) [
    | inl marked ↦ absurd (n ((IsIn-dominated_iff dag a b c).0 marked))
    | inr f ↦ f
  ],
)

-- `mergeBase` returns a version exactly when that version is the only maximal common ancestor: it is
-- an ancestor of both heads, no common ancestor has a parent that descends from it or is it, and
-- every other common ancestor has such a descendant.
pub merge_base_iff :
    (dag : VersionDag) (a b m : JsString)
    → (merge_base dag a b ≡ base m)
      ↔ (Maximal dag a b m × ((c : JsString) → Maximal dag a b c → c ≡ m))
unfolding merge_base
merge_base_iff dag a b m =
    let lem = merge_base-base dag (common dag a b) m (common-NoDup dag a b) in
    (
      λ h.
          let (k, f, only) = lem.0 h in
          (
            ((IsIn-common_iff dag a b m).0 k, (free_iff dag a b m).0 f),
            λ c (k', n). only c ((IsIn-common_iff dag a b c).1 k') ((free_iff dag a b c).1 n),
          ),
      λ ((k, n), only). lem.1 (
        (IsIn-common_iff dag a b m).1 k,
        (free_iff dag a b m).1 n,
        λ c k' f. only c ((IsIn-common_iff dag a b c).0 k', (free_iff dag a b c).0 f),
      ),
    )

pick_base-ne-no_base : (dom cs : List JsString) (o : Option JsString) → pick_base dom cs o ≢ no_base
unfolding pick_base
pick_base-ne-no_base dom [] none h = cc
pick_base-ne-no_base dom [] (some b) h = cc
pick_base-ne-no_base dom (c ∷ cs) none h =
    ground (arith, pick_base-ne-no_base dom cs none, pick_base-ne-no_base dom cs (some c))
pick_base-ne-no_base dom (c ∷ cs) (some b) h = ground (arith, pick_base-ne-no_base dom cs (some b))

base_among-no_base :
    (dag : VersionDag) (cs : List JsString)
    → (base_among dag cs ≡ no_base) ↔ ((c : JsString) → ¬ (IsIn cs c))
unfolding base_among
base_among-no_base dag [] = (λ h c k. cc (not_in_nil c), λ n. refl)
base_among-no_base dag (c ∷ cs) =
    (λ h. absurd (pick_base-ne-no_base _ (c ∷ cs) none h), λ n. absurd (n c (IsIn-head c cs)))

-- `mergeBase` returns `null` exactly when the two versions have no common ancestor.
pub merge_base-no_base_iff :
    (dag : VersionDag) (a b : JsString)
    → (merge_base dag a b ≡ no_base) ↔ ((c : JsString) → ¬ (Common dag a b c))
unfolding merge_base
merge_base-no_base_iff dag a b =
    let lem = base_among-no_base dag (common dag a b) in
    (
      λ h c k. lem.0 h c ((IsIn-common_iff dag a b c).1 k),
      λ n. lem.1 (λ c k. n c ((IsIn-common_iff dag a b c).0 k)),
    )

-- Any two answers with the same characterisations are the same.
result_eq :
    (r s : MergeBaseResult)
    → ((r ≡ no_base) ↔ (s ≡ no_base))
    → ((m : JsString) → (r ≡ base m) ↔ (s ≡ base m))
    → r ≡ s
result_eq no_base s h k = sym (h.0 refl)
result_eq (base m) s h k = sym ((k m).0 refl)
result_eq multiple no_base h k = h.1 refl
result_eq multiple (base m) h k = (k m).1 refl
result_eq multiple multiple h k = refl

-- Two graphs and pairs of versions whose common ancestors and dominated versions agree have one base.
pub merge_base_congr :
    (dag dag' : VersionDag) (a b a' b' : JsString)
    → ((c : JsString) → Common dag a b c ↔ Common dag' a' b' c)
    → ((c : JsString) → Dominated dag a b c ↔ Dominated dag' a' b' c)
    → merge_base dag a b ≡ merge_base dag' a' b'
merge_base_congr dag dag' a b a' b' same dom =
    let there = λ (m : JsString) (x : Maximal dag a b m).
      let y : Maximal dag' a' b' m = ((same m).0 x.0, λ d. x.1 ((dom m).1 d)) in y in
    let back = λ (m : JsString) (x : Maximal dag' a' b' m).
      let y : Maximal dag a b m = ((same m).1 x.0, λ d. x.1 ((dom m).0 d)) in y in
    result_eq _ _
      (
        λ h.
            (merge_base-no_base_iff dag' a' b').1
              (λ c k. (merge_base-no_base_iff dag a b).0 h c ((same c).1 k)),
        λ h.
            (merge_base-no_base_iff dag a b).1
              (λ c k. (merge_base-no_base_iff dag' a' b').0 h c ((same c).0 k)),
      )
      (λ m. (
        λ h.
            let (x, only) = (merge_base_iff dag a b m).0 h in
            (merge_base_iff dag' a' b' m).1 (there m x, λ c y. only c (back c y)),
        λ h.
            let (x, only) = (merge_base_iff dag' a' b' m).0 h in
            (merge_base_iff dag a b m).1 (back m x, λ c y. only c (there c y)),
      ))

-- The merge base does not depend on the order of the two heads.
pub merge_base_comm : (dag : VersionDag) (a b : JsString) → merge_base dag a b ≡ merge_base dag b a
merge_base_comm dag a b =
    merge_base_congr dag dag a b b a (λ c. (λ k. (k.1, k.0), λ k. (k.1, k.0)))
      (λ m.
        (λ (c, p, k, n, h). (c, p, (k.1, k.0), n, h), λ (c, p, k, n, h). (c, p, (k.1, k.0), n, h)))
