-- ===== src/Diff3/Merge/Appends.antt =====
-- Two devices that append to the same text at once (src/merge/diff3.ts).
use opsblobs_obsidian.Base.{
  ℕ, ◌+◌, ◌≡◌, refl, ap, ◌∙◌, JsString, true, false, List, [], ◌∷◌, ◌++◌, append-nil, arith, length,
  ◌===◌, ◌==◌, ◌&&◌, min, slice, slice_empty, slice_end,
}
use opsblobs_obsidian.Diff3.{ok, equal, insert, DiffOp}
use opsblobs_obsidian.Diff3.Diff.{op, diff_lines}
use opsblobs_obsidian.Lines.{join_lf, normalize_lines}
use opsblobs_obsidian.Diff3.Merge.{
  Hunk, MergeState, emit_to, join_hunks, merge_hunks, to_hunks, hunks_from, hunks_interact,
  is_insert, three_way_merge, three_way_lines, merge_diffs, same_lines, blank, clean, result_of,
  merge_from_diffs,
}
use opsblobs_obsidian.Diff3.Merge.Agreement.{same_lines_comm, merge_meet, merge_none}
use opsblobs_obsidian.Diff3.Merge.OneSided.{emit_to-merged, emit_to-pos, emit_to-conflicts}

-- The diff of a text and the text with `x` appended.
abbrev pub append_diff : List JsString → List JsString → List DiffOp
append_diff anc x = op equal anc ∷ op insert x ∷ []

-- The hunk at the end of the ancestor.
abbrev gap : ℕ → List JsString → Hunk
gap n x = record { anc_start = n; anc_end = n; lines = x }

to_hunks-append_diff :
    (anc x : List JsString) → to_hunks (append_diff anc x) ≡ gap (0 + length anc) x ∷ []
unfolding to_hunks hunks_from
to_hunks-append_diff anc x = refl

gaps_meet : (n : ℕ) (x y : List JsString) → hunks_interact (gap n x) (gap n y) ≡ true
unfolding hunks_interact
gaps_meet n x y = ground arith

gaps_insert :
    (n : ℕ) (x y : List JsString) → (is_insert (gap n x) && is_insert (gap n y) && n == n) ≡ true
gaps_insert n x y = ground arith

join_gaps :
    (anc : List JsString) (n : ℕ) (x y : List JsString) (s : MergeState)
    → same_lines x y ≡ false
    → join_hunks anc (gap n x) (gap n y) s
      ≡ record { merged = s.merged ++ (x ++ y); conflicts = s.conflicts; pos = s.pos }
unfolding join_hunks
join_gaps anc n x y s h = rw (gaps_insert n x y, join_hunks) (rw h)

-- The ancestor lines before the gap are all of them.
before_gap :
    (anc : List JsString) (n : ℕ)
    → n ≡ length anc
    → ((emit_to anc n blank).merged ≡ anc)
      × ((emit_to anc n blank).pos ≡ length anc)
      × ((emit_to anc n blank).conflicts ≡ [])
before_gap anc n e = (
  emit_to-merged anc n blank ∙ ap (slice anc 0) e ∙ slice_end anc 0,
  omega (arith, emit_to-pos anc n blank),
  emit_to-conflicts anc n blank,
)

finish :
    (anc : List JsString) (t : MergeState)
    → t.pos ≡ length anc
    → t.conflicts ≡ []
    → result_of (emit_to anc (length anc) t) ≡ clean t.merged
finish anc t p c =
    let lines =
      emit_to-merged anc (length anc) t
      ∙ ap (◌++◌ t.merged) (slice_empty anc t.pos (length anc) (omega arith))
      ∙ append-nil t.merged in
    cc (lines, emit_to-conflicts anc (length anc) t)

loop_appends :
    (anc x y : List JsString) (n : ℕ)
    → same_lines x y ≡ false
    → n ≡ length anc
    → result_of (emit_to anc (length anc) (merge_hunks anc (gap n x ∷ []) (gap n y ∷ []) blank))
      ≡ clean (anc ++ (x ++ y))
loop_appends anc x y n h e =
    let s = emit_to anc (min n n) blank in
    let (lines, place, none_yet) = before_gap anc (min n n) (omega arith) in
    let t : MergeState = record {
      merged = s.merged ++ (x ++ y);
      conflicts = s.conflicts;
      pos = s.pos;
    } in
    ap (λ (u : MergeState). result_of (emit_to anc (length anc) u))
      (merge_meet anc (gap n x) (gap n y) [] [] blank (gaps_meet n x y)
        ∙ merge_none anc (join_hunks anc (gap n x) (gap n y) s)
        ∙ join_gaps anc n x y s h)
    ∙ finish anc t place none_yet
    ∙ ap (λ (ls : List JsString). clean (ls ++ (x ++ y))) lines

appends :
    (anc x y : List JsString)
    → same_lines x y ≡ false
    → merge_from_diffs anc (append_diff anc x) (append_diff anc y) ≡ clean (anc ++ (x ++ y))
unfolding merge_from_diffs
appends anc x y h =
    rw (to_hunks-append_diff anc x, to_hunks-append_diff anc y)
      (loop_appends anc x y (0 + length anc) h (omega arith))

lines_merged :
    (anc l r x y : List JsString)
    → (join_lf l === join_lf r) ≡ false
    → (join_lf l === join_lf anc) ≡ false
    → (join_lf r === join_lf anc) ≡ false
    → diff_lines anc l ≡ ok (append_diff anc x)
    → diff_lines anc r ≡ ok (append_diff anc y)
    → same_lines x y ≡ false
    → three_way_lines anc l r ≡ ok (clean (anc ++ (x ++ y)))
unfolding three_way_lines merge_diffs
lines_merged anc l r x y a b c d e h = rw (a, b, c, d, e, appends anc x y h) refl

-- Two devices append lines to one text at once: their texts and the ancestor all differ, and `diffLines`
-- tells each text from the ancestor by one insertion after all its lines, of different lines on the
-- two sides. Then the three-way merge is clean, and puts the local lines before the remote ones, so
-- each of the two devices, with its own text as the local one, puts its own lines first.
pub merge_appends :
    (ancestor local remote : JsString) (x y : List JsString)
    → (join_lf (normalize_lines local) === join_lf (normalize_lines remote)) ≡ false
    → (join_lf (normalize_lines remote) === join_lf (normalize_lines local)) ≡ false
    → (join_lf (normalize_lines local) === join_lf (normalize_lines ancestor)) ≡ false
    → (join_lf (normalize_lines remote) === join_lf (normalize_lines ancestor)) ≡ false
    → diff_lines (normalize_lines ancestor) (normalize_lines local)
      ≡ ok (append_diff (normalize_lines ancestor) x)
    → diff_lines (normalize_lines ancestor) (normalize_lines remote)
      ≡ ok (append_diff (normalize_lines ancestor) y)
    → same_lines x y ≡ false
    → (three_way_merge ancestor local remote ≡ ok (clean (normalize_lines ancestor ++ (x ++ y))))
      × (three_way_merge ancestor remote local ≡ ok (clean (normalize_lines ancestor ++ (y ++ x))))
unfolding three_way_merge
merge_appends ancestor local remote x y a a' b c d e h =
    let anc : List JsString = normalize_lines ancestor in
    let l : List JsString = normalize_lines local in
    let r : List JsString = normalize_lines remote in
    (
      lines_merged anc l r x y a b c d e h,
      lines_merged anc r l y x a' c b e d (same_lines_comm y x ∙ h),
    )
