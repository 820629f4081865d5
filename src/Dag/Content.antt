-- ===== src/Dag/Content.antt =====
-- `reachableContentHashes` of src/core/version-dag.ts: the walk by generations, with its bounds. A
-- generation that is not empty holds versions that no earlier one held, so the number of edges and two
-- more rounds are enough fuel.
mod Queue
pub mod Generation
pub mod Kept
use opsblobs_obsidian.Base.{
  ℕ, zero, suc, ◌+◌, JsString, Bool, true, false, not, ◌&&◌, ◌||◌, Option, none, some, List, [],
  ◌∷◌, ◌++◌, ltb, ◌==◌, if◌then◌else◌, contains, add, lookup,
}
use opsblobs_obsidian.Dag.{VersionDag, VersionNode, truthy, edge_count}

pub record ReachableBounds : Type 0 where
  pub has : Option (JsString → Bool)
  pub max_depth : Option ℕ

-- What a round carries: the hashes, the versions seen, the next frontier.
pub record Round : Type 0 where
  pub out : List JsString
  pub seen : List JsString
  pub next : List JsString

-- `if (!seen.has(p)) { seen.add(p); next.push(p); }` for each parent.
unfoldable pub enqueue : List JsString → Round → Round
enqueue [] st = st
enqueue (p ∷ ps) st = enqueue ps (
    if contains st.seen p
    then st
    else record { out = st.out; seen = add st.seen p; next = st.next ++ (p ∷ []) })

-- The bytes of the version are gone.
unfoldable pub misses : Option (JsString → Bool) → JsString → Bool
misses none hash = false
misses (some has) hash = truthy hash && not (has hash)

unfoldable pub is_at : ℕ → Option ℕ → Bool
is_at depth none = false
is_at depth (some n) = depth == n

unfoldable pub is_past : ℕ → Option ℕ → Bool
is_past depth none = false
is_past depth (some n) = ltb n depth

unfoldable pub visit_node : ReachableBounds → ℕ → VersionNode → Round → Round
unfolding enqueue misses is_at
visit_node bounds depth node st =
    let noted : Round = record st {
      out = if truthy node.content_hash then add st.out node.content_hash else st.out;
    } in
    if (ltb 0 depth && misses bounds.has node.content_hash) || is_at depth bounds.max_depth
    then noted
    else enqueue node.parents noted

unfoldable pub visit : VersionDag → ReachableBounds → ℕ → JsString → Round → Round
unfolding visit_node
visit dag bounds depth cur st = elim (lookup cur dag) [
  | none ↦ st
  | some node ↦ visit_node bounds depth node st
]

-- `for (const cur of frontier)`
unfoldable pub visit_all : VersionDag → ReachableBounds → ℕ → List JsString → Round → Round
unfolding visit
visit_all dag bounds depth [] st = st
visit_all dag bounds depth (cur ∷ frontier) st =
    visit_all dag bounds depth frontier (visit dag bounds depth cur st)

abbrev pub is_empty_list : List JsString → Bool
is_empty_list [] = true
is_empty_list (x ∷ xs) = false

-- The `while` loop, on the frontier that the last round left as `next`.
unfoldable pub levels : VersionDag → ReachableBounds → ℕ → ℕ → Round → List JsString
unfolding visit_all is_past
levels dag bounds zero depth st = st.out
levels dag bounds (suc fuel) depth st =
    let rest =
      levels dag bounds fuel (depth + 1)
        (visit_all dag bounds depth st.next (record { out = st.out; seen = st.seen; next = [] })) in
    if is_empty_list st.next || is_past depth bounds.max_depth then st.out else rest

unfoldable pub reachable_content_hashes : VersionDag → JsString → ReachableBounds → List JsString
unfolding levels edge_count
reachable_content_hashes dag v bounds =
    levels dag bounds (edge_count dag + 2) 0 (record { out = []; seen = v ∷ []; next = v ∷ [] })
