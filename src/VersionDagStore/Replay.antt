-- ===== src/VersionDagStore/Replay.antt =====
-- Replaying edges (`fromJSON` of src/core/version-dag.ts, `load` of src/network/version-dag-store.ts):
-- what a graph absorbs, and the graphs that come back from their edges.
use opsblobs_obsidian.Base.{
  ◌≡◌, refl, sym, ap, ◌∙◌, inl, inr, JsString, Bool, true, false, not, ◌&&◌, Option, none, some,
  List, [], ◌∷◌, arith, ◌===◌, if◌then◌else◌, contains, lookup, lookup-insert, Bool-cases,
  Option-cases,
}
use opsblobs_obsidian.Dag.{
  VersionNode, VersionDag, truthy, add_parents, backfill, start_node, link_parents, add_version,
}
use opsblobs_obsidian.Dag.Record.{insert_same, contains-link_parents, contains-start_node}
use opsblobs_obsidian.VersionDagStore.{RawEdge, parents_or_none, string_or_empty, add_edge}

-- The node that `addVersion` leaves.
abbrev recorded_node : VersionDag → JsString → List JsString → JsString → JsString → VersionNode
recorded_node dag v ps h f = (link_parents v ps (start_node (lookup v dag) h f)).0

-- The graph has the version with all that the edge tells of it.
pub record Knows (dag : VersionDag) (v : JsString) (ps : List JsString) (h f : JsString)
    : Type 0 where
  pub node : VersionNode
  pub found : lookup v dag ≡ some node
  pub has_parents :
      (p : JsString) → contains ps p ≡ true → (p === v) ≡ false → contains node.parents p ≡ true
  pub has_hash : truthy h ≡ true → truthy node.content_hash ≡ true
  pub has_file : truthy f ≡ true → truthy node.file_id ≡ true

add_parents_known :
    (v : JsString) (ps known : List JsString) (changed : Bool)
    → ((p : JsString) → contains ps p ≡ true → (p === v) ≡ false → contains known p ≡ true)
    → (add_parents v ps known changed).0 ≡ known
unfolding add_parents contains
add_parents_known v [] known changed h = refl
add_parents_known v (q ∷ ps) known changed h =
    elim (Bool-cases (not (q === v) && not (contains known q))) [
      | inl fresh ↦ absurd (ground (arith, h q))
      | inr old ↦
          rw (old, add_parents) (add_parents_known v ps known changed (λ p m. h p (ground arith)))
    ]

backfill_known :
    (node : VersionNode) (h f : JsString)
    → (truthy h ≡ true → truthy node.content_hash ≡ true)
    → (truthy f ≡ true → truthy node.file_id ≡ true)
    → (backfill node h f).0 ≡ node
unfolding backfill
backfill_known node h f k l = ground arith

link_known :
    (node : VersionNode) (v : JsString) (ps : List JsString) (h f : JsString)
    → ((p : JsString) → contains ps p ≡ true → (p === v) ≡ false → contains node.parents p ≡ true)
    → (backfill node h f).0 ≡ node
    → (link_parents v ps (backfill node h f)).0 ≡ node
unfolding link_parents
link_known node v ps h f k e =
    ground (arith, e, add_parents_known v ps node.parents (backfill node h f).1 k)

-- A graph that knows an edge is not changed by it.
Knows-same :
    (dag : VersionDag) (v : JsString) (ps : List JsString) (h f : JsString)
    → Knows dag v ps h f
    → (add_version dag v ps h f).0 ≡ dag
unfolding add_version start_node
Knows-same dag v ps h f k = rw k.found (
    insert_same v (link_parents v ps (backfill k.node h f)).0 dag (
      k.found
      ∙ ap some (
          sym (
            link_known k.node v ps h f k.has_parents
              (backfill_known k.node h f k.has_hash k.has_file)))))

hash-link :
    (v : JsString) (ps : List JsString) (start : VersionNode × Bool)
    → ((link_parents v ps start).0.content_hash ≡ start.0.content_hash)
      × ((link_parents v ps start).0.file_id ≡ start.0.file_id)
unfolding link_parents
hash-link v ps (node, changed) = (refl, refl)

-- Recording a version leaves it with the hash and the file of the edge or of the old node, in so far as
-- these are not empty.
start_node_has :
    (o : Option VersionNode) (h f : JsString)
    → (truthy h ≡ true → truthy (start_node o h f).0.content_hash ≡ true)
      × (truthy f ≡ true → truthy (start_node o h f).0.file_id ≡ true)
unfolding start_node backfill
start_node_has none h f = (λ t. t, λ t. t)
start_node_has (some node) h f = (λ t. ground arith, λ t. ground arith)

start_node_keeps :
    (node : VersionNode) (h f : JsString)
    → (truthy node.content_hash ≡ true → truthy (start_node (some node) h f).0.content_hash ≡ true)
      × (truthy node.file_id ≡ true → truthy (start_node (some node) h f).0.file_id ≡ true)
unfolding start_node backfill
start_node_keeps node h f = (λ t. ground arith, λ t. ground arith)

module _ (dag : VersionDag) (v : JsString) (ps : List JsString) (h f : JsString) where
  abbrev start : VersionNode × Bool
  start = start_node (lookup v dag) h f

  added_at :
      (u : JsString)
      → lookup u (add_version dag v ps h f).0
        ≡ (if v === u then some (recorded_node dag v ps h f) else lookup u dag)
  unfolding add_version
  added_at u = lookup-insert v u (recorded_node dag v ps h f) dag

  Knows-added : Knows (add_version dag v ps h f).0 v ps h f
  Knows-added = record {
    node = recorded_node dag v ps h f;
    found = ground (arith, added_at v);
    has_parents = λ p m away. ground (arith, contains-link_parents v ps start p);
    has_hash = λ t. ground (arith, hash-link v ps start, (start_node_has (lookup v dag) h f).0 t);
    has_file = λ t. ground (arith, hash-link v ps start, (start_node_has (lookup v dag) h f).1 t);
  }

  Knows-kept :
      (u : JsString) (qs : List JsString) (g k : JsString)
      → Knows dag u qs g k
      → Knows (add_version dag v ps h f).0 u qs g k
  Knows-kept u qs g k w = elim (Bool-cases (v === u)) [
    | inl same ↦
        let here : lookup v dag ≡ some w.node = ground (arith, w.found, same) in
        record {
          node = recorded_node dag v ps h f;
          found = ground (arith, added_at u, same);
          has_parents = λ p m away. ground (
            arith,
            contains-link_parents v ps start p,
            contains-start_node (lookup v dag) h f p,
            here,
            w.has_parents p m away,
          );
          has_hash = λ t.
              ground
                (arith, here, hash-link v ps start, (start_node_keeps w.node h f).0 (w.has_hash t));
          has_file = λ t.
              ground
                (arith, here, hash-link v ps start, (start_node_keeps w.node h f).1 (w.has_file t));
        }
    | inr other ↦ record {
      node = w.node;
      found = ground (arith, added_at u, other, w.found);
      has_parents = w.has_parents;
      has_hash = w.has_hash;
      has_file = w.has_file;
    }
  ]

-- The graph knows what a parsed record says; a record without a version says nothing.
abbrev pub KnowsRaw : VersionDag → RawEdge → Type 0
KnowsRaw dag rec =
    (v : JsString)
    → rec.v ≡ some v
    → Knows dag v (parents_or_none rec.p) (string_or_empty rec.c) (string_or_empty rec.f)

pub KnowsRaw-same : (dag : VersionDag) (rec : RawEdge) → KnowsRaw dag rec → add_edge rec dag ≡ dag
unfolding add_edge
KnowsRaw-same dag rec k = elim (Option-cases rec.v) [
  | inl e ↦ rw (e, add_edge) refl
  | inr (v, e) ↦ rw (e, add_edge) (Knows-same dag v _ _ _ (k v e))
]

pub KnowsRaw-added : (dag : VersionDag) (rec : RawEdge) → KnowsRaw (add_edge rec dag) rec
unfolding add_edge
KnowsRaw-added dag rec v e =
    rw (e, add_edge)
      (Knows-added dag v (parents_or_none rec.p) (string_or_empty rec.c) (string_or_empty rec.f))

pub KnowsRaw-kept :
    (dag : VersionDag) (rec other : RawEdge) → KnowsRaw dag rec → KnowsRaw (add_edge other dag) rec
unfolding add_edge
KnowsRaw-kept dag rec other k v e = elim (Option-cases other.v) [
  | inl f ↦ rw (f, add_edge) (k v e)
  | inr (u, f) ↦
      rw (f, add_edge)
        (Knows-kept dag u (parents_or_none other.p) (string_or_empty other.c)
          (string_or_empty other.f) v (parents_or_none rec.p) (string_or_empty rec.c)
          (string_or_empty rec.f) (k v e))
]
