-- ===== src/Dag/Leaves.antt =====
-- `leaves` and `leavesByFile` of src/core/version-dag.ts.
use opsblobs_obsidian.Base.{
  ◌≡◌, refl, inl, inr, JsString, true, not, ◌||◌, ◌&&◌, Option, none, some, List, [], ◌∷◌, ◌++◌,
  append_assoc, append-nil, ap, ◌∙◌, arith, ◌===◌, if◌then◌else◌, contains, lookup, Bool-cases,
}
use opsblobs_obsidian.Dag.{
  VersionNode, VersionDag, truthy, has_child, leaves_among, leaves, bucket, bucket_leaves,
  leaves_by_file,
}

-- What the map holds for a file with these leaves: no entry when there are none.
abbrev pub entry_for : List JsString → Option (List JsString)
entry_for [] = none
entry_for (x ∷ xs) = some (x ∷ xs)

append-entry :
    (xs : List JsString) (id : JsString) → entry_for (xs ++ (id ∷ [])) ≡ some (xs ++ (id ∷ []))
append-entry [] id = refl
append-entry (x ∷ xs) id = refl

lookup-bucket :
    (f g id : JsString) (out : List (JsString × List JsString)) (xs : List JsString)
    → lookup f out ≡ entry_for xs
    → lookup f (bucket g id out) ≡ (if g === f then some (xs ++ (id ∷ [])) else entry_for xs)
unfolding lookup bucket
lookup-bucket f g id [] [] h = refl
lookup-bucket f g id [] (x ∷ xs) h = cc
lookup-bucket f g id ((k, ids) ∷ out) [] h = ground (arith, lookup-bucket f g id out [])
lookup-bucket f g id ((k, ids) ∷ out) (x ∷ xs) h = ground (arith, lookup-bucket f g id out (x ∷ xs))

-- One round of the bucketing loop, seen from one file.
bucket_step :
    (parents : List JsString) (f id : JsString) (node : VersionNode)
    (out : List (JsString × List JsString)) (xs : List JsString)
    → truthy f ≡ true
    → lookup f out ≡ entry_for xs
    → lookup f (
        if not (truthy node.file_id) || contains parents id
        then out
        else bucket node.file_id id out)
      ≡ entry_for (if node.file_id === f && not (contains parents id) then xs ++ (id ∷ []) else xs)
bucket_step parents f id node out xs t h =
    ground (arith, lookup-bucket f node.file_id id out xs h, append-entry xs id)

bucket_leaves_lem :
    (parents : List JsString) (f : JsString) (dag : VersionDag)
    (out : List (JsString × List JsString)) (xs : List JsString)
    → truthy f ≡ true
    → lookup f out ≡ entry_for xs
    → lookup f (bucket_leaves parents dag out) ≡ entry_for (xs ++ leaves_among parents f dag)
unfolding bucket_leaves leaves_among
bucket_leaves_lem parents f [] out xs t h = rw (append-nil xs) h
bucket_leaves_lem parents f ((id, node) ∷ dag) out xs t h =
    let step = bucket_step parents f id node out xs t h in
    elim (Bool-cases (node.file_id === f && not (contains parents id))) [
      | inl mine ↦ rw mine (
          bucket_leaves_lem parents f dag _ (xs ++ (id ∷ [])) t (rw mine at step)
          ∙ ap entry_for (append_assoc xs (id ∷ []) (leaves_among parents f dag)))
      | inr other ↦ rw other (bucket_leaves_lem parents f dag _ xs t (rw other at step))
    ]

-- For every file, `leavesByFile` holds exactly what `leaves` computes, and no entry for a file
-- without leaves.
pub leaves_by_file-leaves :
    (dag : VersionDag) (f : JsString)
    → truthy f ≡ true
    → lookup f (leaves_by_file dag) ≡ entry_for (leaves dag f)
unfolding leaves_by_file leaves lookup
leaves_by_file-leaves dag f t = bucket_leaves_lem (has_child dag []) f dag [] [] t refl
