-- ===== src/Dag/Record.antt =====
-- `addVersion` of src/core/version-dag.ts: what it records, and when it reports a change.
use opsblobs_obsidian.Base.{
  ◌≡◌, refl, inl, inr, JsString, Bool, true, false, not, ◌||◌, ◌&&◌, Option, none, some, List, [],
  ◌∷◌, arith, ◌===◌, contains, contains-add, add, lookup, insert, lookup-insert, Bool-cases,
}
use opsblobs_obsidian.Dag.{
  VersionNode, VersionDag, add_parents, backfill, add_version, start_node, link_parents, parents_of,
}
use opsblobs_obsidian.Dag.Reach.{Ancestor, here, up}

pub contains-add_parents :
    (v : JsString) (ps known : List JsString) (changed : Bool) (p : JsString)
    → contains (add_parents v ps known changed).0 p
      ≡ (contains known p || (contains ps p && not (p === v)))
unfolding add_parents contains
contains-add_parents v [] known changed p = ground arith
contains-add_parents v (q ∷ ps) known changed p =
    elim (Bool-cases (not (q === v) && not (contains known q))) [
      | inl fresh ↦
          rw (fresh, add_parents)
            (ground (arith, contains-add_parents v ps (add known q) true p, contains-add known q p))
      | inr old ↦ rw (old, add_parents) (ground (arith, contains-add_parents v ps known changed p))
    ]

-- No change reported means that no parent was added.
add_parents_unchanged :
    (v : JsString) (ps known : List JsString) (changed : Bool)
    → (add_parents v ps known changed).1 ≡ false
    → ((add_parents v ps known changed).0 ≡ known) × (changed ≡ false)
unfolding add_parents
add_parents_unchanged v [] known changed h = (refl, h)
add_parents_unchanged v (q ∷ ps) known changed h =
    elim (Bool-cases (not (q === v) && not (contains known q))) [
      | inl fresh ↦ ground (arith, add_parents_unchanged v ps (add known q) true)
      | inr old ↦ ground (arith, add_parents_unchanged v ps known changed)
    ]

pub insert_same :
    (k : JsString) (node : VersionNode) (dag : VersionDag)
    → lookup k dag ≡ some node
    → insert k node dag ≡ dag
unfolding insert lookup
insert_same k node [] h = cc
insert_same k node ((j, n) ∷ dag) h = ground (arith, insert_same k node dag)

backfill_unchanged :
    (node : VersionNode) (h f : JsString)
    → (backfill node h f).1 ≡ false
    → (backfill node h f).0 ≡ node
unfolding backfill
backfill_unchanged node h f e = ground arith

link_parents_unchanged :
    (v : JsString) (ps : List JsString) (start : VersionNode × Bool)
    → (link_parents v ps start).1 ≡ false
    → ((link_parents v ps start).0 ≡ start.0) × (start.1 ≡ false)
unfolding link_parents
link_parents_unchanged v ps (node, changed) e =
    ground (arith, add_parents_unchanged v ps node.parents changed e)

start_node_unchanged :
    (o : Option VersionNode) (h f : JsString)
    → (start_node o h f).1 ≡ false
    → o ≡ some (start_node o h f).0
unfolding start_node
start_node_unchanged none h f e = cc
start_node_unchanged (some node) h f e = cc (backfill_unchanged node h f e)

-- When `addVersion` reports no change, the graph is the same as before.
pub add_version_unchanged :
    (dag : VersionDag) (v : JsString) (ps : List JsString) (h f : JsString)
    → (add_version dag v ps h f).1 ≡ false
    → (add_version dag v ps h f).0 ≡ dag
unfolding add_version
add_version_unchanged dag v ps h f e =
    let start = start_node (lookup v dag) h f in
    let (same, quiet) = link_parents_unchanged v ps start e in
    insert_same v (link_parents v ps start).0 dag
      (cc (start_node_unchanged (lookup v dag) h f quiet))

pub contains-start_node :
    (o : Option VersionNode) (h f p : JsString)
    → contains (start_node o h f).0.parents p
      ≡ contains (elim o [ none ↦ [] | some node ↦ node.parents ]) p
unfolding start_node backfill
contains-start_node none h f p = refl
contains-start_node (some node) h f p = refl

pub contains-link_parents :
    (v : JsString) (ps : List JsString) (start : VersionNode × Bool) (p : JsString)
    → contains (link_parents v ps start).0.parents p
      ≡ (contains start.0.parents p || (contains ps p && not (p === v)))
unfolding link_parents
contains-link_parents v ps (node, changed) p = contains-add_parents v ps node.parents changed p

-- After `addVersion` the version has the parents that it had and the given ones but itself, and the
-- parents of every other version are the same.
pub parents_of-add_version :
    (dag : VersionDag) (v : JsString) (ps : List JsString) (h f u p : JsString)
    → contains (parents_of (add_version dag v ps h f).0 u) p
      ≡ (contains (parents_of dag u) p || (u === v && contains ps p && not (p === v)))
unfolding parents_of add_version
parents_of-add_version dag v ps h f u p = ground (
  arith,
  lookup-insert v u (link_parents v ps (start_node (lookup v dag) h f)).0 dag,
  contains-link_parents v ps (start_node (lookup v dag) h f) p,
  contains-start_node (lookup v dag) h f p,
)

-- Recording a version never removes an ancestor.
pub Ancestor-add_version :
    (dag : VersionDag) (v : JsString) (ps : List JsString) (h f a : JsString) {u : JsString}
    → Ancestor dag a u
    → Ancestor (add_version dag v ps h f).0 a u
Ancestor-add_version dag v ps h f a here = here
Ancestor-add_version dag v ps h f a (up {v = u} p m k) =
    up p (ground (arith, parents_of-add_version dag v ps h f u p))
      (Ancestor-add_version dag v ps h f a k)
