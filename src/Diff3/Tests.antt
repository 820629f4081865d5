-- ===== src/Diff3/Tests.antt =====
-- Runs of src/merge/diff3.ts.
use opsblobs_obsidian.Base.{
  ℕ, ◌≡◌, refl, JsString, true, false, Option, some, codes, [], ◌∷◌, str_dec, pos, arith,
}
use opsblobs_obsidian.Lines.{AreLines, join_lf, normalize_lines}
use opsblobs_obsidian.Diff3.{
  ok, err, type_error, equal, insert, delete, ThreeWayMergeResult, ConflictChunk,
}
use opsblobs_obsidian.Diff3.Patience.{longest_increasing_subsequence}
use opsblobs_obsidian.Diff3.Patience.Lis.{longest_increasing_subsequence_throws}
use opsblobs_obsidian.Diff3.Diff.Fuel.{RunsAny}
use opsblobs_obsidian.Diff3.Merge.Termination.{three_way_merge-RunsAny}
use opsblobs_obsidian.Diff3.Diff.{diff_lines, op}
use opsblobs_obsidian.Diff3.Merge.{three_way_merge, clean, merge_from_diffs, same_lines}
use opsblobs_obsidian.Diff3.Merge.Anchored.{ResultInPlace, three_way_merge-Layout}
use opsblobs_obsidian.Diff3.Merge.Agreement.{conflict_count, three_way_merge-conflict_count}
use opsblobs_obsidian.Diff3.Merge.OneSided.{old_lines, new_lines, merge_from_diffs_one_sided}
use opsblobs_obsidian.Diff3.Merge.Appends.{merge_appends}
use opsblobs_obsidian.Diff3.Markers.{
  ConflictResolution, both, mark_ours, mark_base, mark_sep, mark_theirs,
  resolve_conflict_chunk_lines, starts_with, render_markers_from_result, resolve_marked_text,
}
use opsblobs_obsidian.Diff3.Markers.Parsing.{IsContent, AllContent}
use opsblobs_obsidian.Diff3.Markers.Rendering.{Layout, done, line, chunk}
use opsblobs_obsidian.Diff3.Markers.RoundTrip.{ChunksContent, ChunksLines, resolve-render_markers}

abbrev x : JsString
x = codes "x"

abbrev y : JsString
y = codes "y"

abbrev z : JsString
z = codes "z"

-- Moving the first of three lines to the end.
rotated : diff_lines (x ∷ y ∷ z ∷ []) (y ∷ z ∷ x ∷ []) ≡ err type_error
unfolding diff_lines str_dec
rotated = refl

edited :
    diff_lines (x ∷ y ∷ z ∷ []) (x ∷ z ∷ y ∷ z ∷ [])
    ≡ ok (op equal (x ∷ []) ∷ op insert (z ∷ []) ∷ op equal (y ∷ z ∷ []) ∷ [])
unfolding diff_lines str_dec
edited = refl

appended :
    three_way_merge (codes "a\nb") (codes "a\nb\nc") (codes "0\na\nb")
    ≡ ok (clean (codes "0" ∷ codes "a" ∷ codes "b" ∷ codes "c" ∷ []))
unfolding three_way_merge str_dec
appended = refl

-- Both sides rewrite the second of three lines.
abbrev two : JsString
two = codes "two"

abbrev deux : JsString
deux = codes "deux"

abbrev zwei : JsString
zwei = codes "zwei"

abbrev clash : ConflictChunk
clash = record {
  start_line = 1;
  end_line = pos 1;
  ancestor = two ∷ [];
  local = deux ∷ [];
  remote = zwei ∷ [];
}

abbrev clashing : ThreeWayMergeResult
clashing = record { merged = x ∷ deux ∷ z ∷ []; conflicts = clash ∷ []; has_conflicts = true }

clashing_run :
    three_way_merge (codes "x\ntwo\nz") (codes "x\ndeux\nz") (codes "x\nzwei\nz") ≡ ok clashing
unfolding three_way_merge str_dec
clashing_run = refl

abbrev clashing_layout : Layout 0 (x ∷ deux ∷ z ∷ []) (clash ∷ [])
clashing_layout = line x (chunk clash (z ∷ []) refl refl refl (line z done))

content :
    {l : JsString}
    → starts_with l mark_ours ≡ false
    → starts_with l mark_base ≡ false
    → starts_with l mark_sep ≡ false
    → starts_with l mark_theirs ≡ false
    → IsContent l
content a b c d = record { no_ours = a; no_base = b; no_sep = c; no_theirs = d }

clashing-content : AllContent (x ∷ deux ∷ z ∷ [])
unfolding starts_with
clashing-content =
    (content refl refl refl refl, (content refl refl refl refl, (content refl refl refl refl, tt)))

clashing_sides : ChunksContent (clash ∷ [])
unfolding starts_with
clashing_sides = (
  (
    (content refl refl refl refl, tt),
    (content refl refl refl refl, tt),
    (content refl refl refl refl, tt),
  ),
  tt,
)

abbrev take_both : ℕ → Option ConflictResolution
take_both n = some both

clashing_lines : AreLines (x ∷ deux ∷ z ∷ [])
clashing_lines = ground arith

clashing_side_lines : ChunksLines (clash ∷ [])
clashing_side_lines = ground arith

resolve-render_markers_example :
    resolve_marked_text (render_markers_from_result clashing) take_both
    ≡ join_lf (x ∷ deux ∷ zwei ∷ z ∷ [])
unfolding resolve_conflict_chunk_lines
resolve-render_markers_example =
    resolve-render_markers clashing clashing_layout clashing-content clashing_sides clashing_lines
      clashing_side_lines take_both

three_way_merge-Layout_example :
    ResultInPlace (three_way_merge (codes "x\ntwo\nz") (codes "x\ndeux\nz") (codes "x\nzwei\nz"))
three_way_merge-Layout_example =
    three_way_merge-Layout (codes "x\ntwo\nz") (codes "x\ndeux\nz") (codes "x\nzwei\nz")

three_way_merge-conflict_count_example :
    conflict_count (three_way_merge (codes "x\ntwo\nz") (codes "x\ndeux\nz") (codes "x\nzwei\nz"))
    ≡ conflict_count (three_way_merge (codes "x\ntwo\nz") (codes "x\nzwei\nz") (codes "x\ndeux\nz"))
three_way_merge-conflict_count_example =
    three_way_merge-conflict_count (codes "x\ntwo\nz") (codes "x\ndeux\nz") (codes "x\nzwei\nz")

merge_from_diffs_one_sided_example :
    merge_from_diffs
      (x ∷ y ∷ [])
      (op equal (x ∷ []) ∷ op delete (y ∷ []) ∷ op insert (two ∷ z ∷ []) ∷ [])
      (op equal (x ∷ y ∷ []) ∷ [])
    ≡ clean (x ∷ two ∷ z ∷ [])
unfolding old_lines new_lines
merge_from_diffs_one_sided_example =
    merge_from_diffs_one_sided (x ∷ y ∷ [])
      (op equal (x ∷ []) ∷ op delete (y ∷ []) ∷ op insert (two ∷ z ∷ []) ∷ [])
      (op equal (x ∷ y ∷ []) ∷ []) refl (refl, tt)

merge_appends_example :
    (three_way_merge (codes "x") (codes "x\ny") (codes "x\nz") ≡ ok (clean (x ∷ y ∷ z ∷ [])))
    × (three_way_merge (codes "x") (codes "x\nz") (codes "x\ny") ≡ ok (clean (x ∷ z ∷ y ∷ [])))
unfolding same_lines str_dec diff_lines normalize_lines join_lf
merge_appends_example =
    merge_appends (codes "x") (codes "x\ny") (codes "x\nz") (y ∷ []) (z ∷ []) refl refl refl refl
      refl refl refl

longest_increasing_subsequence_throws_example :
    longest_increasing_subsequence ((0, 2) ∷ (1, 0) ∷ (2, 1) ∷ []) ≡ err type_error
longest_increasing_subsequence_throws_example =
    longest_increasing_subsequence_throws (0, 2) (1, 0) (2, 1) [] (omega arith)

three_way_merge-RunsAny_example :
    RunsAny (three_way_merge (codes "x\ntwo\nz") (codes "z\nx\ntwo") (codes "x\ntwo\nz\nz"))
three_way_merge-RunsAny_example =
    three_way_merge-RunsAny (codes "x\ntwo\nz") (codes "z\nx\ntwo") (codes "x\ntwo\nz\nz")
