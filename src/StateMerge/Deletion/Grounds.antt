-- ===== src/StateMerge/Deletion/Grounds.antt =====
-- The grounds on which `mergeVaultStates` (src/merge/state-merge.ts) may delete a file, told by the graph
-- of versions.
use opsblobs_obsidian.Base.{
  ◌≡◌, ◌≤◌, ◌⊎◌, ◌∙◌, refl, inl, inr, JsString, true, false, Option, none, some, arith, length,
}
use opsblobs_obsidian.Dag.{
  VersionDag, is_merge_node, content_hash_of, merge_base, MergeBaseResult, no_base, multiple, base,
  parents_of,
}
use opsblobs_obsidian.Dag.Reach.{Ancestor}
use opsblobs_obsidian.Dag.Ancestor.{is_ancestor_iff}
use opsblobs_obsidian.Dag.MergeBase.{Maximal}
use opsblobs_obsidian.Dag.MergeBase.Spec.{merge_base_iff}
use opsblobs_obsidian.Vault.{FileEntry}
use opsblobs_obsidian.StateMerge.Heads.{
  or_else, known_head, both_heads, Linked, linked, same_hash, base_hash_of, renamed_since,
  is_unchanged_since_base,
}
use opsblobs_obsidian.StateMerge.Classify.{resolved_by_peer}

-- A graph that both heads of which are known, one of the entry and one of the other.
abbrev pub Heads :
    Option VersionDag → FileEntry → FileEntry → VersionDag → JsString → JsString → Type 0
Heads dag e other graph a b =
    (dag ≡ some graph) × (e.head_version_id ≡ some a) × (other.head_version_id ≡ some b)

-- The path at the last sync, of the entry or else of the other one, is the entry's path, if known.
abbrev pub NotRenamed : FileEntry → FileEntry → Type 0
NotRenamed e other =
    (e.last_synced_path ≡ some e.path)
    ⊎ ((e.last_synced_path ≡ none)
        × ((other.last_synced_path ≡ none) ⊎ (other.last_synced_path ≡ some e.path)))

-- The two heads have one maximal common ancestor, and the entry has its content and was not renamed.
abbrev pub Unchanged : Option VersionDag → FileEntry → FileEntry → Type 0
Unchanged dag e other =
    (graph : VersionDag) × (a : JsString) × (b : JsString) × (m : JsString) × Heads dag e other
      graph a b
    × Maximal graph a b m
    × ((c : JsString) → Maximal graph a b c → c ≡ m)
    × (content_hash_of graph m ≡ some e.content_hash)
    × NotRenamed e other

-- The other head is a merge node and descends from the entry's.
abbrev pub Resolved : Option VersionDag → FileEntry → FileEntry → Type 0
Resolved dag e other =
    (graph : VersionDag) × (a : JsString) × (b : JsString) × Heads dag e other graph a b
    × (2 ≤ length (parents_of graph b))
    × Ancestor graph a b

known_head_lem : (o : Option JsString) (h : JsString) → known_head o ≡ some h → o ≡ some h
known_head_lem none h e = cc
known_head_lem (some g) h e = ground arith

pub linked-Heads :
    (dag : Option VersionDag) (e other : FileEntry) (k : Linked)
    → linked dag e other ≡ some k
    → Heads dag e other k.graph k.local_head k.remote_head
unfolding linked both_heads
linked-Heads none e other k h = cc
linked-Heads (some graph) e other k h =
    heads_case (known_head e.head_version_id) (known_head other.head_version_id) refl refl
  where
    heads_case :
        (x y : Option JsString)
        → known_head e.head_version_id ≡ x
        → known_head other.head_version_id ≡ y
        → Heads (some graph) e other k.graph k.local_head k.remote_head
    heads_case none y p q = absurd (ground arith)
    heads_case (some a) none p q = absurd (ground arith)
    heads_case (some a) (some b) p q =
        let found : k ≡ record { graph = graph; local_head = a; remote_head = b } =
          linked_eq (ground arith) in
        (
          cc found,
          known_head_lem e.head_version_id a p ∙ cc found,
          known_head_lem other.head_version_id b q ∙ cc found,
        )
      where
        linked_eq : {x y : Linked} → ◌≡◌ {A = Option Linked} (some x) (some y) → y ≡ x
        linked_eq h = cc

not_renamed :
    (e other : FileEntry)
    → renamed_since (or_else e.last_synced_path other.last_synced_path) e.path ≡ false
    → NotRenamed e other
not_renamed e other h = paths_case e.last_synced_path other.last_synced_path refl refl
  where
    paths_case :
        (x y : Option JsString)
        → e.last_synced_path ≡ x
        → other.last_synced_path ≡ y
        → NotRenamed e other
    paths_case (some p) y k l = inl (ground arith)
    paths_case none (some q) k l = inr (k, inr (ground arith))
    paths_case none none k l = inr (k, inl l)

same_hash_lem : (o : Option JsString) (h : JsString) → same_hash o h ≡ true → o ≡ some h
same_hash_lem none h e = cc
same_hash_lem (some g) h e = ground arith

based :
    (k : Linked) (hash : JsString) (r : MergeBaseResult)
    → same_hash (base_hash_of k.graph r) hash ≡ true
    → (m : JsString) × (r ≡ base m) × (content_hash_of k.graph m ≡ some hash)
based k hash no_base h = cc
based k hash multiple h = cc
based k hash (base m) h = (m, refl, same_hash_lem (content_hash_of k.graph m) hash h)

pub is_unchanged_since_base-Unchanged :
    (dag : Option VersionDag) (e other : FileEntry)
    → is_unchanged_since_base e other dag ≡ true
    → Unchanged dag e other
unfolding is_unchanged_since_base
is_unchanged_since_base-Unchanged dag e other h = link_case (linked dag e other) refl
  where
    link_case : (o : Option Linked) → linked dag e other ≡ o → Unchanged dag e other
    link_case none l = absurd (ground arith)
    link_case (some k) l =
        let (m, found, hash) =
          based k e.content_hash (merge_base k.graph k.local_head k.remote_head) (ground arith) in
        let (most, only) = (merge_base_iff k.graph k.local_head k.remote_head m).0 found in
        (
          k.graph,
          k.local_head,
          k.remote_head,
          m,
          linked-Heads dag e other k l,
          most,
          only,
          hash,
          not_renamed e other (ground arith),
        )

pub resolved_by_peer-Resolved :
    (dag : Option VersionDag) (e other : FileEntry)
    → resolved_by_peer (linked dag e other) ≡ true
    → Resolved dag e other
unfolding is_merge_node
resolved_by_peer-Resolved dag e other h = link_case (linked dag e other) refl h
  where
    link_case :
        (o : Option Linked)
        → linked dag e other ≡ o
        → resolved_by_peer o ≡ true
        → Resolved dag e other
    link_case none l h = cc
    link_case (some k) l h = (
      k.graph,
      k.local_head,
      k.remote_head,
      linked-Heads dag e other k l,
      ground arith,
      (is_ancestor_iff k.graph k.local_head k.remote_head).0 (ground arith),
    )
