-- ===== src/FileRegistry/KeepSet.antt =====
-- `referencedHashes` of src/core/file-registry.ts: the hashes that the garbage collection of the content
-- store keeps. The fields of `ReachableBounds` are `none` where they are not given.
pub mod Needed
mod Tests
use mathlib.Core.Path.{subst}
use opsblobs_obsidian.Base.{
  ◌≡◌, ◌↔◌, ◌⊎◌, ◌≢◌, refl, sym, inl, inr, JsString, Bool, true, false, not, ◌&&◌, ◌||◌, Option,
  none, some, List, [], ◌∷◌, arith, ◌===◌, if◌then◌else◌, contains, add, contains-add, lookup,
  HasUniqueKeys, Bool-cases, Option-cases,
}
use opsblobs_obsidian.Dag.{VersionDag, truthy, add_all, merge_base, base}
use opsblobs_obsidian.Dag.Walk.{IsIn}
use opsblobs_obsidian.Dag.Reach.{Ancestor, here, up, Ancestor-trans}
use opsblobs_obsidian.Dag.MergeBase.Spec.{merge_base_iff}
use opsblobs_obsidian.Dag.Content.{ReachableBounds, misses, reachable_content_hashes}
use opsblobs_obsidian.Dag.Content.Generation.{Kept, start, onward, descends, hash_of}
use opsblobs_obsidian.Dag.Content.Kept.{reachable_content_hashes_iff}
use opsblobs_obsidian.Vault.{FileEntry}
use opsblobs_obsidian.FileRegistry.{FileRegistry}

-- `if (dag && entry.headVersionId)`
unfoldable pub keep_history :
    Option VersionDag → ReachableBounds → Option JsString → List JsString → List JsString
unfolding reachable_content_hashes add_all
keep_history none bounds head keep = keep
keep_history (some dag) bounds none keep = keep
keep_history (some dag) bounds (some head) keep =
    if truthy head then add_all keep (reachable_content_hashes dag head bounds) else keep

unfoldable pub keep_entry :
    Option VersionDag → ReachableBounds → FileEntry → List JsString → List JsString
unfolding keep_history
keep_entry dag bounds e keep =
    if e.deleted
    then keep
    else keep_history dag bounds e.head_version_id
        (if truthy e.content_hash then add keep e.content_hash else keep)

unfoldable pub keep_loop :
    Option VersionDag
    → ReachableBounds
    → List (JsString × FileEntry)
    → List JsString
    → List JsString
unfolding keep_entry
keep_loop dag bounds [] keep = keep
keep_loop dag bounds ((id, e) ∷ entries) keep =
    keep_loop dag bounds entries (keep_entry dag bounds e keep)

unfoldable pub referenced_hashes :
    FileRegistry → Option VersionDag → ReachableBounds → List JsString
unfolding keep_loop
referenced_hashes r dag bounds = keep_loop dag bounds r.entries []
