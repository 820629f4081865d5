-- ===== src/Dag/Tests.antt =====
-- Runs of src/core/version-dag.ts on the histories of two edited files.
use opsblobs_obsidian.Base.{
  ◌≡◌, ◌≢◌, sym, ◌∙◌, ◌↔◌, ◌+◌, ◌<◌, refl, JsString, codes, true, false, List, [], ◌∷◌, contains,
  lookup, add, str_dec, arith,
}
use opsblobs_obsidian.Dag.{
  VersionNode, VersionDag, has, size, parents_of, is_ancestor, merge_base, base, no_base, prune,
  sweep_to_roots, keep_set,
}
use opsblobs_obsidian.Dag.Reach.{Ancestor, here, up}
use opsblobs_obsidian.Dag.Ancestor.{is_ancestor_iff}
use opsblobs_obsidian.Dag.MergeBase.{Maximal}
use opsblobs_obsidian.Dag.MergeBase.Spec.{merge_base_iff}
use opsblobs_obsidian.Dag.Prune.{Rooted, keep_set_iff}
use opsblobs_obsidian.Dag.Prune.Answers.{merge_base-prune, merge_base-prune_dropped}
use opsblobs_obsidian.Dag.Prune.Safety.{sweep_to_roots_safe}

abbrev node : List JsString → JsString → VersionNode
node parents file_id = record { parents = parents; content_hash = codes "hash"; file_id = file_id }

abbrev r : JsString
r = codes "r"

abbrev a : JsString
a = codes "a"

abbrev b : JsString
b = codes "b"

abbrev c : JsString
c = codes "c"

abbrev note : JsString
note = codes "note"

-- `a` and `b` are concurrent edits of `r`; `c` is an edit of `b`.
abbrev forked : VersionDag
forked =
    (r, node [] note)
    ∷ (a, node (r ∷ []) note)
    ∷ (b, node (r ∷ []) note)
    ∷ (c, node (b ∷ []) note)
    ∷ []

forked_base : merge_base forked a c ≡ base r
unfolding merge_base str_dec contains lookup add
forked_base = refl

merge_base_iff_example :
    (merge_base forked a c ≡ base r)
    ↔ (Maximal forked a c r × ((d : JsString) → Maximal forked a c d → d ≡ r))
merge_base_iff_example = merge_base_iff forked a c r

is_ancestor_iff_example : (is_ancestor forked r c ≡ true) ↔ Ancestor forked r c
is_ancestor_iff_example = is_ancestor_iff forked r c

c-Rooted : Rooted forked (c ∷ []) c
unfolding contains str_dec
c-Rooted = (c, (refl, refl), here)

b-Rooted : Rooted forked (c ∷ []) b
unfolding contains str_dec parents_of lookup
b-Rooted = (c, (refl, refl), up b refl here)

merge_base-prune_example : merge_base (prune forked (c ∷ [])).0 b c ≡ merge_base forked b c
merge_base-prune_example = merge_base-prune forked (c ∷ []) b c b-Rooted c-Rooted

a-unkept : contains (keep_set forked (c ∷ [])) a ≡ false
unfolding keep_set contains str_dec add lookup
a-unkept = refl

true-false : true ≢ false
true-false e = cc

a-unrooted : ¬ (Rooted forked (c ∷ []) a)
a-unrooted h = true-false (sym ((keep_set_iff forked (c ∷ []) a).1 h) ∙ a-unkept)

merge_base-prune_dropped_example : merge_base (prune forked (c ∷ [])).0 c a ≡ no_base
merge_base-prune_dropped_example = merge_base-prune_dropped forked (c ∷ []) c a c-Rooted a-unrooted

sweep_to_roots_safe_example :
    (0 < size (sweep_to_roots forked (b ∷ [])).0)
    × (size (sweep_to_roots forked (b ∷ [])).0 + (sweep_to_roots forked (b ∷ [])).1 ≡ size forked)
unfolding has lookup str_dec
sweep_to_roots_safe_example = sweep_to_roots_safe forked (b ∷ []) refl (omega arith)
