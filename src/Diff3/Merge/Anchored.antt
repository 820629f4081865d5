-- ===== src/Diff3/Merge/Anchored.antt =====
-- Where the conflicts of `mergeFromDiffs` and `threeWayMerge` (src/merge/diff3.ts) lie.
use mathlib.Core.Path.{subst}
use opsblobs_obsidian.Base.{
  ℕ, suc, ◌+◌, ◌≡◌, refl, ap, sym, ◌∙◌, JsString, List, [], ◌∷◌, ◌++◌, append_assoc, append-nil,
  arith, length, length-append, ltb, ◌==◌, ◌===◌, ◌&&◌, sub_ℕ, Bool-cases, inl, inr, min,
}
use opsblobs_obsidian.Lines.{normalize_lines, join_lf}
use opsblobs_obsidian.Diff3.{ConflictChunk, ThreeWayMergeResult, DiffOp, ok, err, Result}
use opsblobs_obsidian.Diff3.Diff.{diff_lines}
use opsblobs_obsidian.Diff3.Merge.{
  Hunk, MergeState, emit_to, take_hunk, join_hunks, merge_hunks, hunks_interact, takes_local,
  to_hunks, blank, merge_from_diffs, merge_diffs, three_way_lines, three_way_merge, is_insert,
  same_lines,
}
use opsblobs_obsidian.Diff3.Markers.Rendering.{Layout, done, line, chunk}

plain : (i : ℕ) (ls : List JsString) → Layout i ls []
plain i [] = done
plain i (l ∷ ls) = line l (plain (suc i) ls)

Layout-append :
    {i : ℕ} {m : List JsString} {cs : List ConflictChunk} (ls : List JsString)
    → Layout i m cs
    → Layout i (m ++ ls) cs
Layout-append ls (done {i}) = plain i ls
Layout-append ls (line l d) = line l (Layout-append ls d)
Layout-append ls (chunk c ls' s e w d) =
    chunk c (ls' ++ ls) s e (rw w (append_assoc c.local ls' ls)) (Layout-append ls d)

-- A chunk whose local lines are put at the end.
Layout-snoc :
    {i : ℕ} {m : List JsString} {cs : List ConflictChunk} (c : ConflictChunk) (k : ℕ)
    → Layout i m cs
    → k ≡ i + length m
    → c.start_line ≡ k
    → c.end_line ≡ sub_ℕ (k + length c.local) 1
    → Layout i (m ++ c.local) (cs ++ (c ∷ []))
Layout-snoc c k (done {i}) n s e =
    let here : k ≡ i = omega arith in
    chunk c [] (s ∙ here) (subst (λ x. c.end_line ≡ sub_ℕ (x + length c.local) 1) here e)
      (sym (append-nil c.local)) done
Layout-snoc c k (line l d) n s e = line l (Layout-snoc c k d (omega arith) s e)
Layout-snoc c k (chunk c' ls' s' e' w d) n s e =
    chunk c' (ls' ++ c.local) s' e' (rw w (append_assoc c'.local ls' c.local))
      (Layout-snoc c k d (omega (arith, ap length w, length-append c'.local ls')) s e)

-- The conflicts so far lie in the merged lines so far.
abbrev InPlace : MergeState → Type 0
InPlace s = Layout 0 s.merged s.conflicts

emit_to-InPlace :
    (anc : List JsString) (n : ℕ) (s : MergeState) → InPlace s → InPlace (emit_to anc n s)
unfolding emit_to
emit_to-InPlace anc n s h = elim (Bool-cases (ltb s.pos n)) [
  | inl go ↦ rw (go, emit_to) (Layout-append _ h)
  | inr stay ↦ rw (stay, emit_to) h
]

join_hunks-InPlace :
    (anc : List JsString) (l r : Hunk) (s : MergeState) → InPlace s → InPlace (join_hunks anc l r s)
unfolding join_hunks
join_hunks-InPlace anc l r s h =
    elim (Bool-cases (is_insert l && is_insert r && l.anc_start == r.anc_start)) [
      | inl appends ↦ rw (appends, join_hunks) (Layout-append _ h)
      | inr other ↦ elim (Bool-cases (same_lines l.lines r.lines)) [
        | inl same ↦ rw (other, join_hunks) (rw (same, join_hunks) (Layout-append _ h))
        | inr differ ↦
            rw (other, join_hunks)
              (rw (differ, join_hunks)
                (Layout-snoc _ (length s.merged) h (omega arith) refl
                  (ap (λ n. sub_ℕ n 1) (length-append s.merged l.lines))))
      ]
    ]

take_hunk-InPlace : (h : Hunk) (s : MergeState) → InPlace s → InPlace (take_hunk h s)
unfolding take_hunk
take_hunk-InPlace h s p = Layout-append h.lines p

merge_hunks-InPlace :
    (anc : List JsString) (ls rs : List Hunk) (s : MergeState)
    → InPlace s
    → InPlace (merge_hunks anc ls rs s)
unfolding merge_hunks
merge_hunks-InPlace anc [] [] s h = h
merge_hunks-InPlace anc [] (r ∷ rs) s h =
    merge_hunks-InPlace anc [] rs (take_hunk r (emit_to anc r.anc_start s))
      (take_hunk-InPlace r (emit_to anc r.anc_start s) (emit_to-InPlace anc r.anc_start s h))
merge_hunks-InPlace anc (l ∷ ls) [] s h =
    merge_hunks-InPlace anc ls [] (take_hunk l (emit_to anc l.anc_start s))
      (take_hunk-InPlace l (emit_to anc l.anc_start s) (emit_to-InPlace anc l.anc_start s h))
merge_hunks-InPlace anc (l ∷ ls) (r ∷ rs) s h =
    let s' = emit_to anc (min l.anc_start r.anc_start) s in
    let h' = emit_to-InPlace anc (min l.anc_start r.anc_start) s h in
    elim (Bool-cases (hunks_interact l r)) [
      | inl meet ↦
          rw (meet, merge_hunks)
            (merge_hunks-InPlace anc ls rs (join_hunks anc l r s')
              (join_hunks-InPlace anc l r s' h'))
      | inr apart ↦ elim (Bool-cases (takes_local l r)) [
        | inl first ↦
            rw (apart, merge_hunks)
              (rw (first, merge_hunks)
                (merge_hunks-InPlace anc ls (r ∷ rs) (take_hunk l s') (take_hunk-InPlace l s' h')))
        | inr second ↦
            rw (apart, merge_hunks)
              (rw (second, merge_hunks)
                (merge_hunks-InPlace anc (l ∷ ls) rs (take_hunk r s') (take_hunk-InPlace r s' h')))
      ]
    ]

pub merge_from_diffs-Layout :
    (anc : List JsString) (ld rd : List DiffOp)
    → Layout 0 (merge_from_diffs anc ld rd).merged (merge_from_diffs anc ld rd).conflicts
unfolding merge_from_diffs
merge_from_diffs-Layout anc ld rd =
    emit_to-InPlace anc (length anc) (merge_hunks anc (to_hunks ld) (to_hunks rd) blank)
      (merge_hunks-InPlace anc (to_hunks ld) (to_hunks rd) blank done)

-- A result is in place.
abbrev pub ResultInPlace : Result ThreeWayMergeResult → Type 0
ResultInPlace (ok r) = Layout 0 r.merged r.conflicts
ResultInPlace (err e) = Unit

merge_diffs-InPlace :
    (anc : List JsString) (ld rd : Result (List DiffOp)) → ResultInPlace (merge_diffs anc ld rd)
unfolding merge_diffs
merge_diffs-InPlace anc (ok a) (ok b) = merge_from_diffs-Layout anc a b
merge_diffs-InPlace anc (ok a) (err e) = tt
merge_diffs-InPlace anc (err e) rd = tt

three_way_lines-InPlace : (a l r : List JsString) → ResultInPlace (three_way_lines a l r)
unfolding three_way_lines
three_way_lines-InPlace a l r = elim (Bool-cases (join_lf l === join_lf r)) [
  | inl same ↦ rw (same, three_way_lines) (plain 0 l)
  | inr p ↦ elim (Bool-cases (join_lf l === join_lf a)) [
    | inl same ↦ rw (p, three_way_lines) (rw (same, three_way_lines) (plain 0 r))
    | inr q ↦ elim (Bool-cases (join_lf r === join_lf a)) [
      | inl same ↦
          rw (p, three_way_lines) (rw (q, three_way_lines) (rw (same, three_way_lines) (plain 0 l)))
      | inr s ↦
          rw (p, three_way_lines)
            (rw (q, three_way_lines)
              (rw (s, three_way_lines) (merge_diffs-InPlace a (diff_lines a l) (diff_lines a r))))
    ]
  ]
]

-- Whatever the three texts are, the conflicts of a three-way merge that returns lie in the merged
-- lines: they are in order, each starts at its start line with its local lines, and ends at its end
-- line.
pub three_way_merge-Layout : (a l r : JsString) → ResultInPlace (three_way_merge a l r)
unfolding three_way_merge
three_way_merge-Layout a l r =
    three_way_lines-InPlace (normalize_lines a) (normalize_lines l) (normalize_lines r)
