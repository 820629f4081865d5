-- ===== src/FileRegistry/Rebuilding.antt =====
-- The path index under `compact`, `load` and `resetAll` of src/core/file-registry.ts.
use opsblobs_obsidian.Base.{
  ℕ, ◌≡◌, refl, inl, inr, JsString, true, false, Option, none, some, List, [], ◌∷◌, arith, ◌===◌,
  if◌then◌else◌, lookup, insert, lookup-insert, lookup-erase, HasUniqueKeys, Bool-cases,
}
use opsblobs_obsidian.Vault.{FileEntry}
use opsblobs_obsidian.FileRegistry.{
  FileRegistry, TombstoneReclaim, reclaimable, unindex_own, reclaim_loop, reclaim_tombstones,
  compact, rebuild_loop, rebuild_path_index, reset_all,
}
use opsblobs_obsidian.FileRegistry.Json.{RegistryJson}
use opsblobs_obsidian.FileRegistry.Saving.{entries-fold, index-fold}
use opsblobs_obsidian.FileRegistry.Tombstones.{lookup-reclaim_loop}
use opsblobs_obsidian.FileRegistry.Index.{IsSound}

-- A path that is still indexed was indexed, and its id is not among the dropped ones.
lookup-unindex_own :
    (id path p : JsString) (index : List (JsString × JsString)) (j : JsString)
    → lookup p (unindex_own (lookup path index) id path index) ≡ some j
    → (lookup p index ≡ some j) × ((p === path) ≡ true → (id === j) ≡ false)
lookup-unindex_own id path p index j at = own_case (lookup path index) refl at
  where
    own_case :
        (o : Option JsString)
        → lookup path index ≡ o
        → lookup p (unindex_own o id path index) ≡ some j
        → (lookup p index ≡ some j) × ((p === path) ≡ true → (id === j) ≡ false)
    own_case none e k = ground arith
    own_case (some i) e k = ground (arith, lookup-erase path p index)

module _ (days : Option ℕ) (reclaim : TombstoneReclaim) where
  -- Indexed ids stand at their paths in the entries that the loop has left to do.
  abbrev AtPaths : List (JsString × FileEntry) → List (JsString × JsString) → Type 0
  AtPaths entries index =
      (p id : JsString) (e : FileEntry)
      → lookup p index ≡ some id
      → lookup id entries ≡ some e
      → e.path ≡ p

  abbrev next_index : JsString → FileEntry → List (JsString × JsString) → List (JsString × JsString)
  next_index id e index =
      if reclaimable days reclaim id e
      then unindex_own (lookup e.path index) id e.path index
      else index

  in_index :
      (id : JsString) (e : FileEntry) (index : List (JsString × JsString)) (p j : JsString)
      → lookup p (next_index id e index) ≡ some j
      → lookup p index ≡ some j
  in_index id e index p j at = ground (arith, lookup-unindex_own id e.path p index j)

  head_kept :
      (k : JsString) (f : FileEntry) (index : List (JsString × JsString)) (p id : JsString)
      → k ≡ id
      → f.path ≡ p
      → lookup p (next_index k f index) ≡ some id
      → reclaimable days reclaim k f ≡ false
  head_kept k f index p id same own at = elim (Bool-cases (reclaimable days reclaim k f)) [
    | inl t ↦
        let (was, not_own) = lookup-unindex_own k f.path p index id (ground (arith, at, t)) in
        ground (arith, not_own)
    | inr t ↦ t
  ]

  index-reclaim_loop :
      (entries : List (JsString × FileEntry)) (index : List (JsString × JsString)) (p id : JsString)
      → HasUniqueKeys entries
      → AtPaths entries index
      → lookup p (reclaim_loop days reclaim entries index).1 ≡ some id
      → (lookup p index ≡ some id)
        × ((e : FileEntry) → lookup id entries ≡ some e → reclaimable days reclaim id e ≡ false)
  unfolding reclaim_loop
  index-reclaim_loop [] index p id unique at_paths at = (at, unfold lookup in (λ e found. cc))
  index-reclaim_loop ((k, f) ∷ entries) index p id unique at_paths at =
      let tail =
        index-reclaim_loop entries (next_index k f index) p id unique.1
          (λ q j e here found.
            at_paths q j e (in_index k f index q j here)
              (unfold lookup in (ground (arith, unique.0, found))))
          (ground (arith, at)) in
      (
        in_index k f index p id tail.0,
        λ e found. elim (Bool-cases (k === id)) [
          | inl t ↦
              let same : f ≡ e = unfold lookup in (ground (arith, found, t)) in
              let own : k ≡ id = ground arith in
              let at_p : f.path ≡ p =
                at_paths p id f (in_index k f index p id tail.0)
                  (unfold lookup in (ground (arith, t))) in
              let kept = head_kept k f index p id own at_p (tail.0) in cc (kept, same, own)
          | inr t ↦ tail.1 e (unfold lookup in (ground (arith, found, t)))
        ],
      )

pub compact-IsSound :
    (json : RegistryJson) (days : Option ℕ) (reclaim : Option TombstoneReclaim) (r : FileRegistry)
    → HasUniqueKeys r.entries
    → IsSound r
    → IsSound (compact json days reclaim r)
unfolding compact
compact-IsSound json days none r unique h = rw (entries-fold json r 0, index-fold json r 0) h
compact-IsSound json days (some reclaim) r unique h =
    rw (entries-fold json done.0 done.1, index-fold json done.0 done.1)
      (unfold reclaim_tombstones in
        (λ p id at.
          let (was, kept) =
            index-reclaim_loop days reclaim r.entries r.path_index p id unique
              (λ q j e here found. let (f, k, w) = h q j here in cc (found, k, w)) at in
          let (e, found, own) = h p id was in
          (
            e,
            ground (
              arith,
              lookup-reclaim_loop days reclaim r.entries r.path_index id unique,
              found,
              kept e found,
            ),
            own,
          )))
  where
    done : FileRegistry × ℕ
    done = reclaim_tombstones days reclaim r

-- The ids of the index are in the entries, or in the list that is still to be indexed.
rebuild_loop-Holds :
    (entries all : List (JsString × FileEntry)) (index : List (JsString × JsString))
    → ((p id : JsString)
        → lookup p index ≡ some id
        → (e : FileEntry) × (lookup id all ≡ some e) × (e.path ≡ p))
    → ((id : JsString) (e : FileEntry) → lookup id entries ≡ some e → lookup id all ≡ some e)
    → HasUniqueKeys entries
    → (p id : JsString) → lookup p (rebuild_loop entries index) ≡ some id
    → (e : FileEntry) × (lookup id all ≡ some e) × (e.path ≡ p)
unfolding rebuild_loop
rebuild_loop-Holds [] all index h sub unique p id at = h p id at
rebuild_loop-Holds ((k, f) ∷ entries) all index h sub unique p id at =
    rebuild_loop-Holds entries all (if f.deleted then index else insert f.path k index)
      (λ q j here. elim (Bool-cases f.deleted) [
        | inl d ↦ h q j (ground (arith, here, d))
        | inr d ↦ elim (Bool-cases (f.path === q)) [
          | inl t ↦ (
            f,
            ground (
              arith,
              here,
              d,
              lookup-insert f.path q k index,
              sub k f (unfold lookup in (ground arith)),
            ),
            ground arith,
          )
          | inr t ↦ h q j (ground (arith, here, d, lookup-insert f.path q k index))
        ]
      ])
      (λ j e found. sub j e (unfold lookup in (ground (arith, unique.0, found)))) unique.1 p id at

pub rebuild-IsSound : (r : FileRegistry) → HasUniqueKeys r.entries → IsSound (rebuild_path_index r)
unfolding rebuild_path_index
rebuild-IsSound r unique =
    rebuild_loop-Holds r.entries r.entries [] (unfold lookup in (λ p id at. cc))
      (λ id e found. found) unique

pub reset_all-IsSound : (r : FileRegistry) → IsSound (reset_all r)
unfolding reset_all lookup
reset_all-IsSound r p id at = cc
