-- ===== src/FileRegistry/Queries.antt =====
-- The queries of src/core/file-registry.ts, and what its roots keep in the graph of versions
-- (src/core/version-dag.ts).
use opsblobs_obsidian.Base.{
  ◌≡◌, refl, ◌⊎◌, inl, inr, JsString, true, Option, none, some, List, [], ◌∷◌, arith, ◌===◌, ◌||◌,
  if◌then◌else◌, contains, add, contains-add, lookup, Bool-cases,
}
use opsblobs_obsidian.Dag.{truthy}
use opsblobs_obsidian.Dag.Walk.{IsIn}
use opsblobs_obsidian.Vault.{FileEntry}
use opsblobs_obsidian.FileRegistry.{FileRegistry}
use opsblobs_obsidian.FileRegistry.Mutations.{indexed_id}

unfoldable pub get_by_id : FileRegistry → JsString → Option FileEntry
get_by_id r id = lookup id r.entries

unfoldable pub get_by_path : FileRegistry → JsString → Option FileEntry
unfolding indexed_id
get_by_path r path = elim (indexed_id r path) [ none ↦ none | some id ↦ lookup id r.entries ]

unfoldable pub live_entries : List (JsString × FileEntry) → List FileEntry
live_entries [] = []
live_entries ((id, e) ∷ entries) =
    let rest = live_entries entries in if e.deleted then rest else e ∷ rest

unfoldable pub get_active_entries : FileRegistry → List FileEntry
unfolding live_entries
get_active_entries r = live_entries r.entries

-- `for (const p of entry.conflictParents) if (p) roots.add(p)`
unfoldable pub add_truthy : List JsString → List JsString → List JsString
add_truthy [] roots = roots
add_truthy (p ∷ ps) roots = add_truthy ps (if truthy p then add roots p else roots)

abbrev pub heads_of : FileEntry → List JsString
heads_of e = elim e.head_version_id [ none ↦ [] | some v ↦ v ∷ [] ]

abbrev pub parents_in : FileEntry → List JsString
parents_in e = elim e.conflict_parents [ none ↦ [] | some ps ↦ ps ]

unfoldable pub roots_loop : List (JsString × FileEntry) → List JsString → List JsString
unfolding add_truthy
roots_loop [] roots = roots
roots_loop ((id, e) ∷ entries) roots =
    roots_loop entries (add_truthy (parents_in e) (add_truthy (heads_of e) roots))

unfoldable pub version_roots : FileRegistry → List JsString
unfolding roots_loop
version_roots r = roots_loop r.entries []

-- The version is the head of the entry or one of its open heads.
abbrev pub Names : FileEntry → JsString → Type 0
Names e v = (e.head_version_id ≡ some v) ⊎ IsIn (parents_in e) v

pub contains-add_truthy :
    (ps roots : List JsString) (v : JsString)
    → truthy v ≡ true
    → contains (add_truthy ps roots) v ≡ (contains ps v || contains roots v)
unfolding add_truthy contains
contains-add_truthy [] roots v h = refl
contains-add_truthy (p ∷ ps) roots v h = elim (Bool-cases (p === v)) [
  | inl same ↦ ground (
    arith,
    contains-add_truthy ps (if truthy p then add roots p else roots) v h,
    contains-add roots p v,
  )
  | inr other ↦ ground (
    arith,
    contains-add_truthy ps (if truthy p then add roots p else roots) v h,
    contains-add roots p v,
  )
]

roots_loop-keeps :
    (entries : List (JsString × FileEntry)) (roots : List JsString) (v : JsString)
    → truthy v ≡ true
    → IsIn roots v
    → IsIn (roots_loop entries roots) v
unfolding roots_loop
roots_loop-keeps [] roots v t h = h
roots_loop-keeps ((id, e) ∷ entries) roots v t h = roots_loop-keeps entries _ v t (
    ground (
      arith,
      contains-add_truthy (parents_in e) (add_truthy (heads_of e) roots) v t,
      contains-add_truthy (heads_of e) roots v t,
    ))

head_in :
    (e : FileEntry) (v : JsString) → e.head_version_id ≡ some v → contains (heads_of e) v ≡ true
unfolding contains
head_in e v h = ground arith

roots_loop-Names :
    (entries : List (JsString × FileEntry)) (roots : List JsString) (id : JsString) (e : FileEntry)
    (v : JsString)
    → lookup id entries ≡ some e
    → Names e v
    → truthy v ≡ true
    → IsIn (roots_loop entries roots) v
unfolding roots_loop lookup
roots_loop-Names [] roots id e v found n t = cc
roots_loop-Names ((j, f) ∷ entries) roots id e v found n t = elim (Bool-cases (j === id)) [
  | inl found_here ↦
      let same : f ≡ e = ground arith in
      roots_loop-keeps entries _ v t (
        rw same (
          ground (
            arith,
            n,
            head_in e v,
            contains-add_truthy (parents_in e) (add_truthy (heads_of e) roots) v t,
            contains-add_truthy (heads_of e) roots v t,
          )))
  | inr away ↦ roots_loop-Names entries _ id e v (ground arith) n t
]

-- Each version that an entry names, live or not, is a root.
pub version_roots-Names :
    (r : FileRegistry) (id : JsString) (e : FileEntry) (v : JsString)
    → lookup id r.entries ≡ some e
    → Names e v
    → truthy v ≡ true
    → IsIn (version_roots r) v
unfolding version_roots
version_roots-Names r id e v = roots_loop-Names r.entries [] id e v
