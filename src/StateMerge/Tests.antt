-- ===== src/StateMerge/Tests.antt =====
-- Runs of src/merge/state-merge.ts on two vaults, with a codec of one byte for each code unit.
use opsblobs_obsidian.Base.{
  ◌≡◌, ◌≢◌, ◌⊎◌, refl, JsString, Bool, true, false, none, some, codes, List, [], ◌∷◌, arith,
  str_dec, ◌===◌, contains, lookup, add, insert,
}
use opsblobs_obsidian.Hlc.{Hlc, hlc_compare, hlc_max}
use opsblobs_obsidian.Dag.{
  VersionDag, VersionNode, content_hash_of, is_ancestor, is_merge_node, merge_base,
}
use opsblobs_obsidian.Diff3.{ok, err, type_error}
use opsblobs_obsidian.Diff3.Merge.{three_way_merge}
use opsblobs_obsidian.Dag.Reach.{Ancestor}
use opsblobs_obsidian.Dag.Ancestor.{is_ancestor_iff}
use mathlib.Core.Path.{subst}
use opsblobs_obsidian.Vault.{
  FileEntry, VaultState, MergeAction, write_local, write_merge, delete_local, no_op, send_remote,
}
use opsblobs_obsidian.StateMerge.{TextCodec}
use opsblobs_obsidian.StateMerge.Collision.{resolve_create_collision}
use opsblobs_obsidian.StateMerge.Classify.{resolve_both, merge_vault_states}
use opsblobs_obsidian.StateMerge.Adoption.Actions.{SourcedMerge, merge_vault_states-Sourced}
use opsblobs_obsidian.StateMerge.Deletion.{JustifiedMerge, merge_vault_states-Justified}
use opsblobs_obsidian.StateMerge.MergeNodes.{UnitesResult}
use opsblobs_obsidian.StateMerge.MergeNodes.Branches.{resolve_both-Unites}
use opsblobs_obsidian.StateMerge.Totality.{FailsInMerge, MergeError}
use opsblobs_obsidian.StateMerge.Totality.Actions.{merge_vault_states-FailsInMerge}
use opsblobs_obsidian.StateMerge.Convergence.{Adopts, two_headed-Adopts}
use opsblobs_obsidian.StateMerge.Collisions.{AsksOnce, Unsettled, resolve_create_collision-AsksOnce}

abbrev plain_codec : TextCodec
plain_codec = record { decode = λ bytes. bytes; encode = λ text. text }

abbrev earlier : Hlc
earlier = record { wall_time = 10; counter = 0; device_id = codes "laptop" }

abbrev later : Hlc
later = record { wall_time = 20; counter = 0; device_id = codes "phone" }

abbrev entry : JsString → JsString → JsString → Hlc → Bool → JsString → FileEntry
entry id path hash hlc deleted head = record {
  id = id;
  path = path;
  content_hash = hash;
  hlc_timestamp = hlc;
  deleted = deleted;
  last_synced_path = some path;
  head_version_id = some head;
  conflict_parents = none;
  mtime = none;
  size = none;
}

abbrev node : List JsString → JsString → VersionNode
node parents hash = record { parents = parents; content_hash = hash; file_id = codes "f" }

-- The remote side deleted the first file and edited the second; the third is only here.
abbrev graph : VersionDag
graph =
    (codes "v1", node [] (codes "h1"))
    ∷ (codes "v2", node (codes "v1" ∷ []) (codes "h1"))
    ∷ (codes "w1", node [] (codes "h2"))
    ∷ (codes "w2", node (codes "w1" ∷ []) (codes "h3"))
    ∷ []

abbrev local_vault : VaultState
local_vault = record {
  device_id = codes "laptop";
  hlc = earlier;
  file_entries =
      (codes "f", entry (codes "f") (codes "a.md") (codes "h1") earlier false (codes "v1"))
      ∷ (codes "g", entry (codes "g") (codes "b.md") (codes "h2") earlier false (codes "w1"))
      ∷ (codes "k", entry (codes "k") (codes "c.md") (codes "h2") earlier false (codes "w1"))
      ∷ [];
  pending_ops = [];
  content_store = (codes "h1", codes "one") ∷ (codes "h2", codes "two") ∷ [];
}

abbrev remote_vault : VaultState
remote_vault = record {
  device_id = codes "phone";
  hlc = later;
  file_entries =
      (codes "f", entry (codes "f") (codes "a.md") (codes "h1") later true (codes "v2"))
      ∷ (codes "g", entry (codes "g") (codes "b.md") (codes "h3") later false (codes "w2"))
      ∷ [];
  pending_ops = [];
  content_store = (codes "h3", codes "two and three") ∷ [];
}

merged_run :
    merge_vault_states plain_codec local_vault remote_vault (some graph)
    ≡ ok (record {
      actions =
          delete_local (codes "f") (codes "a.md")
          ∷ write_local (codes "g") (codes "b.md") (codes "two and three") later (some (codes "w2"))
          ∷ send_remote (codes "k") (codes "c.md") earlier
          ∷ [];
      merged_hlc = later;
    })
unfolding merge_vault_states str_dec contains lookup add insert hlc_max hlc_compare content_hash_of
    is_ancestor is_merge_node merge_base
merged_run = refl

merge_vault_states-Sourced_example :
    SourcedMerge plain_codec local_vault remote_vault
      (merge_vault_states plain_codec local_vault remote_vault (some graph))
merge_vault_states-Sourced_example =
    merge_vault_states-Sourced plain_codec local_vault remote_vault (some graph)

merge_vault_states-Justified_example :
    JustifiedMerge plain_codec local_vault remote_vault
      (some graph)
      (merge_vault_states plain_codec local_vault remote_vault (some graph))
merge_vault_states-Justified_example =
    merge_vault_states-Justified plain_codec local_vault remote_vault (some graph)

-- Two devices edited the same file after `v1`.
abbrev forked : VersionDag
forked =
    (codes "v1", node [] (codes "h1"))
    ∷ (codes "v2", node (codes "v1" ∷ []) (codes "h2"))
    ∷ (codes "v3", node (codes "v1" ∷ []) (codes "h3"))
    ∷ []

abbrev edited_here : FileEntry
edited_here = entry (codes "f") (codes "a.md") (codes "h2") earlier false (codes "v2")

abbrev edited_there : FileEntry
edited_there = entry (codes "f") (codes "a.md") (codes "h3") later false (codes "v3")

abbrev vault : JsString → FileEntry → List (JsString × JsString) → VaultState
vault device e contents = record {
  device_id = device;
  hlc = later;
  file_entries = (codes "f", e) ∷ [];
  pending_ops = [];
  content_store = contents;
}

abbrev laptop_vault : JsString → JsString → VaultState
laptop_vault old new =
    vault (codes "laptop") edited_here ((codes "h1", old) ∷ (codes "h2", new) ∷ [])

abbrev phone_vault : JsString → VaultState
phone_vault new = vault (codes "phone") edited_there ((codes "h3", new) ∷ [])

-- The first line was moved to the end here.
abbrev rotated_vault : VaultState
rotated_vault = laptop_vault (codes "x\ny\nz") (codes "y\nz\nx")

abbrev extended_vault : VaultState
extended_vault = phone_vault (codes "x\ny\nz\nw")

failing_run :
    merge_vault_states plain_codec rotated_vault extended_vault (some forked) ≡ err type_error
unfolding merge_vault_states str_dec contains lookup add insert hlc_max hlc_compare content_hash_of
    is_ancestor is_merge_node merge_base three_way_merge
failing_run = refl

merge_vault_states-FailsInMerge_example :
    FailsInMerge
      (MergeError plain_codec rotated_vault extended_vault (some forked))
      (merge_vault_states plain_codec rotated_vault extended_vault (some forked))
merge_vault_states-FailsInMerge_example =
    merge_vault_states-FailsInMerge plain_codec rotated_vault extended_vault (some forked)

abbrev mine : FileEntry
mine = entry (codes "f") (codes "a.md") (codes "h1") earlier false (codes "v1")

abbrev yours : FileEntry
yours = entry (codes "g") (codes "b.md") (codes "h3") later false (codes "w2")

unequal : (s t : JsString) → (s === t) ≡ false → s ≢ t
unequal s t h e = ground (arith, h, e)

ids_differ : codes "f" ≢ codes "g"
unfolding str_dec
ids_differ = unequal (codes "f") (codes "g") refl

hashes_differ : codes "h1" ≢ codes "h3"
unfolding str_dec
hashes_differ = unequal (codes "h1") (codes "h3") refl

stores : List (JsString × JsString) → VaultState
stores contents = record {
  device_id = [];
  hlc = later;
  file_entries = [];
  pending_ops = [];
  content_store = contents;
}

abbrev mine_here : VaultState
mine_here = stores ((codes "h1", codes "one") ∷ [])

abbrev yours_here : VaultState
yours_here = stores ((codes "h3", codes "two") ∷ [])

-- `v1` and `w2` are in different histories.
unsettled : Unsettled (some graph) mine yours
unfolding is_ancestor str_dec lookup contains add
unsettled g a b (e, h, k) = (
  λ anc.
      absurd (apart_heads ((is_ancestor_iff graph (codes "v1") (codes "w2")).1 (moved e h k anc))),
  λ anc.
      absurd (apart_back ((is_ancestor_iff graph (codes "w2") (codes "v1")).1 (moved' e h k anc))),
)
  where
    apart_heads : is_ancestor graph (codes "v1") (codes "w2") ≡ true → ⊥
    apart_heads q = cc

    apart_back : is_ancestor graph (codes "w2") (codes "v1") ≡ true → ⊥
    apart_back q = cc

    graphs : some graph ≡ some g → g ≡ graph
    graphs q = cc

    heads : {x y : JsString} → some x ≡ some y → y ≡ x
    heads q = cc

    moved :
        some graph ≡ some g
        → some (codes "v1") ≡ some a
        → some (codes "w2") ≡ some b
        → Ancestor g a b
        → Ancestor graph (codes "v1") (codes "w2")
    moved e h k anc =
        subst (λ (x : VersionDag). Ancestor x (codes "v1") (codes "w2")) (graphs e)
          (subst (λ (x : JsString). Ancestor g x (codes "w2")) (heads h)
            (subst (λ (x : JsString). Ancestor g a x) (heads k) anc))

    moved' :
        some graph ≡ some g
        → some (codes "v1") ≡ some a
        → some (codes "w2") ≡ some b
        → Ancestor g b a
        → Ancestor graph (codes "w2") (codes "v1")
    moved' e h k anc =
        subst (λ (x : VersionDag). Ancestor x (codes "w2") (codes "v1")) (graphs e)
          (subst (λ (x : JsString). Ancestor g x (codes "v1")) (heads k)
            (subst (λ (x : JsString). Ancestor g b x) (heads h) anc))

resolve_create_collision-AsksOnce_example :
    (winner : JsString) × AsksOnce
      (resolve_create_collision plain_codec mine yours mine_here yours_here true (some graph))
      (resolve_create_collision plain_codec mine yours mine_here yours_here false (some graph))
      winner
    × AsksOnce
        (resolve_create_collision plain_codec yours mine yours_here mine_here true (some graph))
        (resolve_create_collision plain_codec yours mine yours_here mine_here false (some graph))
        winner
unfolding lookup str_dec stores
resolve_create_collision-AsksOnce_example =
    resolve_create_collision-AsksOnce plain_codec mine yours mine_here yours_here yours_here
      mine_here (some graph) (codes "one") (codes "two") ids_differ hashes_differ unsettled refl
      refl refl refl

abbrev two_headed : FileEntry
two_headed = record mine { conflict_parents = some (codes "v1" ∷ codes "w1" ∷ []) }

two_headed-Adopts_example :
    (action : MergeAction) × (resolve_both plain_codec
        (codes "f")
        two_headed
        yours
        local_vault
        remote_vault
        (some graph)
      ≡ ok action)
    × ((action ≡ no_op (codes "f"))
        ⊎ Adopts (codes "f") yours (some graph) (codes "v1" ∷ codes "w1" ∷ []) action)
two_headed-Adopts_example =
    two_headed-Adopts plain_codec (codes "f") two_headed yours local_vault remote_vault (some graph)
      (codes "v1") (codes "w1") [] refl refl refl hashes_differ

-- One line was added in front here, and one at the end there.
abbrev front_vault : VaultState
front_vault = laptop_vault (codes "a\nb") (codes "0\na\nb")

abbrev back_vault : VaultState
back_vault = phone_vault (codes "a\nb\nc")

minted :
    resolve_both plain_codec
      (codes "f")
      edited_here
      edited_there
      front_vault
      back_vault
      (some forked)
    ≡ ok
        (write_merge (codes "f") (codes "a.md") (codes "0\na\nb\nc") (codes "v2" ∷ codes "v3" ∷ []))
unfolding resolve_both str_dec contains lookup add insert hlc_compare content_hash_of is_ancestor
    is_merge_node merge_base three_way_merge
minted = refl

resolve_both-Unites_example : UnitesResult edited_here edited_there (some forked) (
    resolve_both plain_codec
      (codes "f")
      edited_here
      edited_there
      front_vault
      back_vault
      (some forked))
resolve_both-Unites_example =
    resolve_both-Unites edited_here edited_there (some forked) plain_codec front_vault back_vault
      (codes "f")
