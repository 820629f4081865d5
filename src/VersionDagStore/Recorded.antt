-- ===== src/VersionDagStore/Recorded.antt =====
-- The graphs that `addVersion` of src/core/version-dag.ts builds, and their edges (`toJSON`, `fromJSON`).
use opsblobs_obsidian.Base.{
  ◌≡◌, ◌⊎◌, refl, sym, ap, ◌∙◌, inl, inr, JsString, Bool, true, false, not, ◌&&◌, none, some, List,
  [], ◌∷◌, ◌++◌, append-nil, append_assoc, arith, ◌===◌, contains, add, contains-add,
  contains-append, lookup, insert, lookup-append, append_key, HasUniqueKeys, insert-HasUniqueKeys,
  Bool-cases, Option-cases,
}
use opsblobs_obsidian.Dag.{
  VersionNode, VersionDag, add_parents, backfill, start_node, link_parents, add_version,
}
use opsblobs_obsidian.Dag.MergeBase.Pick.{NoDup, add-NoDup}
use opsblobs_obsidian.VersionDagStore.{
  RawEdge, raw_edge, map_raw, all_some, to_json, strings_only, parents_or_none, string_or_empty,
  add_edge, add_edges,
}

-- No parent is listed twice, and no version is its own parent.
abbrev pub IsClean : JsString → VersionNode → Type 0
IsClean v node = NoDup node.parents × (contains node.parents v ≡ false)

abbrev pub AreClean : VersionDag → Type 0
AreClean [] = Unit
AreClean ((v, node) ∷ dag) = IsClean v node × AreClean dag

abbrev pub IsRecorded : VersionDag → Type 0
IsRecorded dag = HasUniqueKeys dag × AreClean dag

add_parents-IsClean :
    (v : JsString) (ps known : List JsString) (changed : Bool)
    → NoDup known
    → contains known v ≡ false
    → NoDup (add_parents v ps known changed).0
      × (contains (add_parents v ps known changed).0 v ≡ false)
unfolding add_parents
add_parents-IsClean v [] known changed d n = (d, n)
add_parents-IsClean v (q ∷ ps) known changed d n =
    elim (Bool-cases (not (q === v) && not (contains known q))) [
      | inl fresh ↦
          rw (fresh, add_parents)
            (add_parents-IsClean v ps (add known q) true (add-NoDup known q d)
              (ground (arith, contains-add known q v)))
      | inr old ↦ rw (old, add_parents) (add_parents-IsClean v ps known changed d n)
    ]

link_parents-IsClean :
    (v : JsString) (ps : List JsString) (start : VersionNode × Bool)
    → IsClean v start.0
    → IsClean v (link_parents v ps start).0
unfolding link_parents
link_parents-IsClean v ps (node, changed) h = add_parents-IsClean v ps node.parents changed h.0 h.1

lookup-IsClean :
    (dag : VersionDag) (v : JsString) (node : VersionNode)
    → AreClean dag
    → lookup v dag ≡ some node
    → IsClean v node
unfolding lookup
lookup-IsClean [] v node h e = cc
lookup-IsClean ((k, n) ∷ dag) v node h e = elim (Bool-cases (k === v)) [
  | inl t ↦
      let same : n ≡ node = ground arith in let at : k ≡ v = ground arith in rw (← same, ← at) h.0
  | inr t ↦ lookup-IsClean dag v node h.1 (ground arith)
]

start_node-IsClean :
    (dag : VersionDag) (v : JsString) (h f : JsString)
    → AreClean dag
    → IsClean v (start_node (lookup v dag) h f).0
unfolding start_node backfill contains
start_node-IsClean dag v h f clean = elim (Option-cases (lookup v dag)) [
  | inl e ↦ rw (e, start_node) (tt, refl)
  | inr (node, e) ↦ rw (e, start_node) (lookup-IsClean dag v node clean e)
]

insert-AreClean :
    (dag : VersionDag) (v : JsString) (node : VersionNode)
    → IsClean v node
    → AreClean dag
    → AreClean (insert v node dag)
unfolding insert
insert-AreClean [] v node h clean = (h, tt)
insert-AreClean ((k, n) ∷ dag) v node h clean = elim (Bool-cases (k === v)) [
  | inl t ↦ let at : k ≡ v = ground arith in rw (t, insert) ((rw at h), clean.1)
  | inr t ↦ rw (t, insert) (clean.0, insert-AreClean dag v node h clean.1)
]

pub add_version-IsRecorded :
    (dag : VersionDag) (v : JsString) (ps : List JsString) (h f : JsString)
    → IsRecorded dag
    → IsRecorded (add_version dag v ps h f).0
unfolding add_version
add_version-IsRecorded dag v ps h f (unique, clean) = (
  insert-HasUniqueKeys v _ dag unique,
  insert-AreClean dag v _
      (link_parents-IsClean v ps (start_node (lookup v dag) h f)
        (start_node-IsClean dag v h f clean))
      clean,
)

pub add_edge-IsRecorded :
    (rec : RawEdge) (dag : VersionDag) → IsRecorded dag → IsRecorded (add_edge rec dag)
unfolding add_edge
add_edge-IsRecorded rec dag h = elim (Option-cases rec.v) [
  | inl e ↦ rw (e, add_edge) h
  | inr (v, e) ↦
      rw (e, add_edge)
        (add_version-IsRecorded dag v (parents_or_none rec.p) (string_or_empty rec.c)
          (string_or_empty rec.f) h)
]

pub add_edges-IsRecorded :
    (recs : List RawEdge) (dag : VersionDag) → IsRecorded dag → IsRecorded (add_edges recs dag)
unfolding add_edges
add_edges-IsRecorded [] dag h = h
add_edges-IsRecorded (rec ∷ recs) dag h =
    add_edges-IsRecorded recs (add_edge rec dag) (add_edge-IsRecorded rec dag h)

strings_only-all_some : (ss : List JsString) → strings_only (all_some ss) ≡ ss
unfolding strings_only
strings_only-all_some [] = refl
strings_only-all_some (s ∷ ss) = ap (◌∷◌ s) (strings_only-all_some ss)

add_new : (xs : List JsString) (p : JsString) → contains xs p ≡ false → add xs p ≡ xs ++ (p ∷ [])
unfolding add contains
add_new [] p n = refl
add_new (x ∷ xs) p n = ground (arith, add_new xs p)

-- The parents of a fresh node are the given ones, in their order.
add_parents_all :
    (v : JsString) (ps known : List JsString) (changed : Bool)
    → NoDup ps
    → contains ps v ≡ false
    → ((p : JsString) → contains ps p ≡ true → contains known p ≡ false)
    → (add_parents v ps known changed).0 ≡ known ++ ps
unfolding add_parents contains
add_parents_all v [] known changed d n apart = sym (append-nil known)
add_parents_all v (q ∷ ps) known changed d n apart =
    let fresh : (not (q === v) && not (contains known q)) ≡ true =
      ground (arith, apart q (ground arith)) in
    rw (fresh, add_parents)
      (rw (add_new known q (apart q (ground arith))) (
        add_parents_all v ps (known ++ (q ∷ [])) true d.1 (ground arith)
          (λ p m. ground (arith, contains-append known (q ∷ []) p, apart p (ground arith), d.0))
        ∙ append_assoc known (q ∷ []) ps))

fresh_record :
    (dag : VersionDag) (v : JsString) (node : VersionNode)
    → lookup v dag ≡ none
    → IsClean v node
    → (add_version dag v node.parents node.content_hash node.file_id).0 ≡ dag ++ ((v, node) ∷ [])
unfolding add_version start_node link_parents
fresh_record dag v node e clean = rw e (
    rw (add_parents_all v node.parents [] true clean.0 clean.1 (λ p m. unfold contains in refl))
      (append_key v node dag e))

edge_back :
    (dag : VersionDag) (v : JsString) (node : VersionNode)
    → lookup v dag ≡ none
    → IsClean v node
    → add_edge
        (raw_edge (record { v = v; p = node.parents; c = node.content_hash; f = node.file_id }))
        dag
      ≡ dag ++ ((v, node) ∷ [])
unfolding add_edge
edge_back dag v node e clean =
    rw (strings_only-all_some node.parents) (fresh_record dag v node e clean)

back_append :
    (dag acc : VersionDag)
    → IsRecorded dag
    → ((j : JsString) → (lookup j dag ≡ none) ⊎ (lookup j acc ≡ none))
    → add_edges (map_raw (to_json dag)) acc ≡ acc ++ dag
unfolding to_json add_edges add_edge
back_append [] acc h apart = sym (append-nil acc)
back_append ((v, node) ∷ dag) acc ((fresh, unique), (clean, cleans)) apart =
    ap (add_edges (map_raw (to_json dag))) (edge_back acc v node (head_fresh (apart v)) clean)
    ∙ back_append dag (acc ++ ((v, node) ∷ [])) (unique, cleans) apart'
    ∙ append_assoc acc ((v, node) ∷ []) dag
  where
    head_fresh : (lookup v ((v, node) ∷ dag) ≡ none) ⊎ (lookup v acc ≡ none) → lookup v acc ≡ none
    head_fresh = unfold lookup in (ground arith)

    apart' : (j : JsString) → (lookup j dag ≡ none) ⊎ (lookup j (acc ++ ((v, node) ∷ [])) ≡ none)
    apart' j =
        unfold lookup in (ground (arith, apart j, fresh, lookup-append j acc ((v, node) ∷ [])))

-- A recorded graph comes back from its edges, its order included.
pub from_json-to_json :
    (dag : VersionDag) → IsRecorded dag → add_edges (map_raw (to_json dag)) [] ≡ dag
unfolding lookup
from_json-to_json dag h = back_append dag [] h (λ j. inr refl)
