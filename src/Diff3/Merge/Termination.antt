-- ===== src/Diff3/Merge/Termination.antt =====
-- The fuel of the three-way merge of src/merge/diff3.ts.
use opsblobs_obsidian.Base.{JsString, List, Bool, true, false, if◌then◌else◌, ◌===◌}
use opsblobs_obsidian.Lines.{normalize_lines, join_lf}
use opsblobs_obsidian.Diff3.{Result, DiffOp, ThreeWayMergeResult, ok, err, type_error, out_of_fuel}
use opsblobs_obsidian.Diff3.Diff.{diff_lines}
use opsblobs_obsidian.Diff3.Diff.Fuel.{RunsAny, diff_lines-Runs}
use opsblobs_obsidian.Diff3.Merge.{clean, merge_diffs, three_way_lines, three_way_merge}

if-RunsAny :
    (b : Bool) (x y : Result ThreeWayMergeResult)
    → RunsAny x
    → RunsAny y
    → RunsAny (if b then x else y)
if-RunsAny true x y h k = h
if-RunsAny false x y h k = k

merge_diffs-RunsAny :
    (anc : List JsString) (ld rd : Result (List DiffOp))
    → RunsAny ld
    → RunsAny rd
    → RunsAny (merge_diffs anc ld rd)
unfolding merge_diffs
merge_diffs-RunsAny anc (ok l) (ok r) h k = tt
merge_diffs-RunsAny anc (ok l) (err type_error) h k = tt
merge_diffs-RunsAny anc (ok l) (err out_of_fuel) h k = k
merge_diffs-RunsAny anc (err type_error) rd h k = tt
merge_diffs-RunsAny anc (err out_of_fuel) rd h k = h

-- The merge of any three texts ends within the fuel of the model: it returns, or the engine throws.
pub three_way_merge-RunsAny : (a l r : JsString) → RunsAny (three_way_merge a l r)
unfolding three_way_merge three_way_lines
three_way_merge-RunsAny a l r =
    let anc = normalize_lines a in
    let ls = normalize_lines l in
    let rs = normalize_lines r in
    if-RunsAny (join_lf ls === join_lf rs) (ok (clean ls)) _ tt (
      if-RunsAny (join_lf ls === join_lf anc) (ok (clean rs)) _ tt (
        if-RunsAny (join_lf rs === join_lf anc) (ok (clean ls)) _ tt (
          merge_diffs-RunsAny anc (diff_lines anc ls) (diff_lines anc rs) (diff_lines-Runs anc ls)
            (diff_lines-Runs anc rs))))
