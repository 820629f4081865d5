-- ===== src/Dag.antt =====
-- src/core/version-dag.ts: the graph of versions. `nodes` is a map in insertion order, a set of
-- parents is a list without repetition. The walks take fuel: a walk pops each pushed version once
-- and pushes the parents of a recorded version once, so the number of edges and of versions at the
-- start is enough.
pub mod Walk
pub mod Reach
pub mod Ancestor
pub mod MergeBase
pub mod Prune
pub mod Leaves
pub mod Record
pub mod Content
mod Tests
use opsblobs_obsidian.Base.{
  ℕ, zero, suc, ◌+◌, ◌-◌, JsString, Bool, true, false, not, ◌&&◌, ◌||◌, Option, none, some, List,
  [], ◌∷◌, ◌++◌, leb, ltb, ◌==◌, ◌===◌, if◌then◌else◌, length, contains, add, lookup, insert,
}

pub record VersionNode : Type 0 where
  pub parents : List JsString
  pub content_hash : JsString
  pub file_id : JsString

abbrev pub VersionDag : Type 0
VersionDag = List (JsString × VersionNode)

-- A string as a condition: `''` is falsy.
abbrev pub truthy : JsString → Bool
truthy [] = false
truthy (c ∷ s) = true

-- The loop over `parents` of `addVersion`, with its `changed` flag.
unfoldable pub add_parents : JsString → List JsString → List JsString → Bool → List JsString × Bool
add_parents version_id [] known changed = (known, changed)
add_parents version_id (p ∷ ps) known changed =
    let fresh : Bool = not (p === version_id) && not (contains known p) in
    add_parents version_id ps (if fresh then add known p else known)
      (if fresh then true else changed)

-- The blob address and the file of a stub, filled in once its own op arrives.
unfoldable pub backfill : VersionNode → JsString → JsString → VersionNode × Bool
backfill node content_hash file_id =
    let hash : Bool = not (truthy node.content_hash) && truthy content_hash in
    let file : Bool = not (truthy node.file_id) && truthy file_id in
    (
      record {
        parents = node.parents;
        content_hash = if hash then content_hash else node.content_hash;
        file_id = if file then file_id else node.file_id;
      },
      hash || file,
    )

abbrev pub fresh_node : JsString → JsString → VersionNode
fresh_node content_hash file_id = record {
  parents = [];
  content_hash = content_hash;
  file_id = file_id;
}

-- The node that `addVersion` goes on with, and whether it is changed so far.
unfoldable pub start_node : Option VersionNode → JsString → JsString → VersionNode × Bool
start_node none content_hash file_id = (fresh_node content_hash file_id, true)
start_node (some node) content_hash file_id = backfill node content_hash file_id

unfoldable pub link_parents : JsString → List JsString → VersionNode × Bool → VersionNode × Bool
link_parents version_id parents (node, changed) =
    let linked : List JsString × Bool = add_parents version_id parents node.parents changed in
    (
      record { parents = linked.0; content_hash = node.content_hash; file_id = node.file_id },
      linked.1,
    )

unfoldable pub add_version :
    VersionDag → JsString → List JsString → JsString → JsString → VersionDag × Bool
unfolding add_parents backfill start_node link_parents
add_version dag version_id parents content_hash file_id =
    let start : VersionNode × Bool = start_node (lookup version_id dag) content_hash file_id in
    let next : VersionNode × Bool = link_parents version_id parents start in
    (insert version_id next.0 dag, next.1)

unfoldable pub has : VersionDag → JsString → Bool
has [] v = false
has ((k, _) ∷ dag) v = k === v || has dag v

abbrev pub size : VersionDag → ℕ
size dag = length dag

-- Every version that some node lists as a parent.
unfoldable pub add_all : List JsString → List JsString → List JsString
add_all seen [] = seen
add_all seen (p ∷ ps) = add_all (add seen p) ps

unfoldable pub has_child : VersionDag → List JsString → List JsString
unfolding add_all
has_child [] seen = seen
has_child ((_, node) ∷ dag) seen = has_child dag (add_all seen node.parents)

unfoldable pub leaves_among : List JsString → JsString → VersionDag → List JsString
leaves_among parents file_id [] = []
leaves_among parents file_id ((id, node) ∷ dag) =
    let rest = leaves_among parents file_id dag in
    if node.file_id === file_id && not (contains parents id) then id ∷ rest else rest

unfoldable pub leaves : VersionDag → JsString → List JsString
unfolding has_child leaves_among
leaves dag file_id = leaves_among (has_child dag []) file_id dag

-- One step of the bucketing loop of `leavesByFile`.
unfoldable pub bucket :
    JsString → JsString → List (JsString × List JsString) → List (JsString × List JsString)
bucket file_id id [] = (file_id, id ∷ []) ∷ []
bucket file_id id ((f, ids) ∷ out) =
    if f === file_id then (f, ids ++ (id ∷ [])) ∷ out else (f, ids) ∷ bucket file_id id out

unfoldable pub bucket_leaves :
    List JsString → VersionDag → List (JsString × List JsString) → List (JsString × List JsString)
unfolding bucket
bucket_leaves parents [] out = out
bucket_leaves parents ((id, node) ∷ dag) out =
    bucket_leaves parents dag
      (if not (truthy node.file_id) || contains parents id then out else bucket node.file_id id out)

unfoldable pub leaves_by_file : VersionDag → List (JsString × List JsString)
unfolding has_child bucket_leaves
leaves_by_file dag = bucket_leaves (has_child dag []) dag []

-- The parents that a walk pushes: none for a version that is not recorded.
unfoldable pub parents_of : VersionDag → JsString → List JsString
parents_of dag v = elim (lookup v dag) [ none ↦ [] | some node ↦ node.parents ]

unfoldable pub is_merge_node : VersionDag → JsString → Bool
is_merge_node dag v = leb 2 (length (parents_of dag v))

unfoldable pub content_hash_of : VersionDag → JsString → Option JsString
content_hash_of dag v = elim (lookup v dag) [
  | none ↦ none
  | some node ↦ if truthy node.content_hash then some node.content_hash else none
]

-- The stack has its top first.
unfoldable pub push_all : List JsString → List JsString → List JsString
push_all [] stack = stack
push_all (p ∷ ps) stack = push_all ps (p ∷ stack)

-- The loop of `ancestors`, and of the dominance walk of `mergeBase`.
unfoldable pub walk : VersionDag → ℕ → List JsString → List JsString → List JsString
walk dag zero seen stack = seen
walk dag (suc fuel) seen [] = seen
walk dag (suc fuel) seen (cur ∷ stack) = elim (contains seen cur) [
  | true ↦ walk dag fuel seen stack
  | false ↦ walk dag fuel (add seen cur) (push_all (parents_of dag cur) stack)
]

unfoldable pub edge_count : VersionDag → ℕ
edge_count [] = 0
edge_count ((_, node) ∷ dag) = length node.parents + edge_count dag

unfoldable pub walk_from : VersionDag → List JsString → List JsString
unfolding walk edge_count parents_of push_all
walk_from dag stack = walk dag (length stack + edge_count dag) [] stack

unfoldable pub ancestors : VersionDag → JsString → List JsString
unfolding walk_from
ancestors dag v = walk_from dag (v ∷ [])

-- The inner loop of `isAncestor`: `none` when it returns early, else the new stack.
unfoldable pub scan_parents : JsString → List JsString → List JsString → Option (List JsString)
scan_parents target [] stack = some stack
scan_parents target (p ∷ ps) stack =
    if p === target then none else scan_parents target ps (p ∷ stack)

unfoldable pub search_up : VersionDag → JsString → ℕ → List JsString → List JsString → Bool
search_up dag target zero seen stack = false
search_up dag target (suc fuel) seen [] = false
search_up dag target (suc fuel) seen (cur ∷ stack) = elim (contains seen cur) [
  | true ↦ search_up dag target fuel seen stack
  | false ↦ elim (scan_parents target (parents_of dag cur) stack) [
    | none ↦ true
    | some next ↦ search_up dag target fuel (add seen cur) next
  ]
]

unfoldable pub is_ancestor : VersionDag → JsString → JsString → Bool
unfolding search_up scan_parents parents_of edge_count
is_ancestor dag maybe_ancestor descendant =
    if maybe_ancestor === descendant
    then true
    else search_up dag maybe_ancestor (1 + edge_count dag) [] (descendant ∷ [])

pub data MergeBaseResult : Type 0 where
  no_base : MergeBaseResult
  multiple : MergeBaseResult
  base : JsString → MergeBaseResult

unfoldable pub common_of : List JsString → List JsString → List JsString
common_of [] others = []
common_of (h ∷ hs) others =
    let rest = common_of hs others in if contains others h then h ∷ rest else rest

-- The parents of all common ancestors, where the dominance walk starts.
unfoldable pub push_parents : VersionDag → List JsString → List JsString → List JsString
push_parents dag [] stack = stack
push_parents dag (c ∷ cs) stack = push_parents dag cs (push_all (parents_of dag c) stack)

-- The last loop: the base so far is `some` once the count is 1.
unfoldable pub pick_base : List JsString → List JsString → Option JsString → MergeBaseResult
pick_base dominated [] none = multiple
pick_base dominated [] (some b) = base b
pick_base dominated (c ∷ cs) so_far = elim (contains dominated c) [
  | true ↦ pick_base dominated cs so_far
  | false ↦ elim so_far [ none ↦ pick_base dominated cs (some c) | some b ↦ multiple ]
]

unfoldable pub base_among : VersionDag → List JsString → MergeBaseResult
unfolding push_parents push_all parents_of walk_from pick_base
base_among dag [] = no_base
base_among dag (c ∷ cs) = pick_base (walk_from dag (push_parents dag (c ∷ cs) [])) (c ∷ cs) none

unfoldable pub merge_base : VersionDag → JsString → JsString → MergeBaseResult
unfolding ancestors common_of base_among
merge_base dag a b = base_among dag (common_of (ancestors dag a) (ancestors dag b))

-- `prune` marks a version when it is pushed.
unfoldable pub mark : List JsString → List JsString → List JsString → List JsString × List JsString
mark [] keep stack = (keep, stack)
mark (p ∷ ps) keep stack =
    let old : Bool = contains keep p in
    mark ps (if old then keep else add keep p) (if old then stack else p ∷ stack)

abbrev pub drop_falsy : List JsString → List JsString
drop_falsy [] = []
drop_falsy (r ∷ rs) = let rest = drop_falsy rs in if truthy r then r ∷ rest else rest

unfoldable pub sweep : VersionDag → ℕ → List JsString → List JsString → List JsString
sweep dag zero keep stack = keep
sweep dag (suc fuel) keep [] = keep
sweep dag (suc fuel) keep (cur ∷ stack) =
    let marked : List JsString × List JsString = mark (parents_of dag cur) keep stack in
    sweep dag fuel marked.0 marked.1

-- The nodes that stay, and how many are deleted.
unfoldable pub delete_unkept : List JsString → VersionDag → VersionDag × ℕ
delete_unkept keep [] = ([], 0)
delete_unkept keep ((id, node) ∷ dag) =
    let rest = delete_unkept keep dag in
    if contains keep id then ((id, node) ∷ rest.0, rest.1) else (rest.0, rest.1 + 1)

unfoldable pub keep_set : VersionDag → List JsString → List JsString
unfolding mark sweep parents_of edge_count
keep_set dag roots =
    let marked : List JsString × List JsString = mark (drop_falsy roots) [] [] in
    sweep dag (length marked.1 + edge_count dag) marked.0 marked.1

unfoldable pub prune : VersionDag → List JsString → VersionDag × ℕ
unfolding keep_set delete_unkept
prune dag roots = delete_unkept (keep_set dag roots) dag

unfoldable pub any_present : VersionDag → List JsString → Bool
unfolding has
any_present dag [] = false
any_present dag (r ∷ rs) = has dag r || any_present dag rs

unfoldable pub sweep_to_roots : VersionDag → List JsString → VersionDag × ℕ
unfolding prune any_present
sweep_to_roots dag roots =
    if size dag == 0 || length roots == 0
    then (dag, 0)
    else if not (any_present dag roots)
    then (dag, 0)
    else prune dag roots
