-- ===== src/Diff3/Merge/Agreement.antt =====
-- Both orders of a three-way merge (src/merge/diff3.ts), as the two devices of a merge run it.
use native.Mathlib.Nat.{min_comm}
use opsblobs_obsidian.Base.{
  ℕ, ◌+◌, ◌≤◌, ◌≡◌, refl, ap, ◌∙◌, JsString, true, false, not, List, [], ◌∷◌, arith, length,
  length-append, ◌==◌, ◌&&◌, Bool-cases, inl, inr, min, Option, none, some,
}
use opsblobs_obsidian.Lines.{normalize_lines}
use opsblobs_obsidian.Diff3.{ThreeWayMergeResult, DiffOp, ok, err, Result, DiffType-cases}
use opsblobs_obsidian.Diff3.Diff.{diff_lines}
use opsblobs_obsidian.Diff3.Merge.{
  Hunk, MergeState, emit_to, take_hunk, join_hunks, merge_hunks, hunks_interact, takes_local,
  to_hunks, hunks_from, inserted, deleted, current_or_new, close_hunk, blank, merge_from_diffs,
  merge_diffs, three_way_lines, three_way_merge, is_insert, same_lines,
}

-- A hunk does not end before it starts.
abbrev IsForward : Hunk → Type 0
IsForward h = h.anc_start ≤ h.anc_end

abbrev AllForward : List Hunk → Type 0
AllForward [] = Unit
AllForward (h ∷ hs) = IsForward h × AllForward hs

abbrev OpenForward : Option Hunk → ℕ → Type 0
OpenForward none ai = Unit
OpenForward (some h) ai = (h.anc_start ≤ h.anc_end) × (h.anc_end ≤ ai)

insert-OpenForward :
    (cur : Option Hunk) (ai : ℕ)
    → OpenForward cur ai
    → ((current_or_new cur ai).anc_start ≤ (current_or_new cur ai).anc_end)
      × ((current_or_new cur ai).anc_end ≤ ai)
insert-OpenForward none ai h = omega arith
insert-OpenForward (some c) ai h = h

delete-OpenForward :
    (o : DiffOp) (cur : Option Hunk) (ai : ℕ)
    → OpenForward cur ai
    → ((current_or_new cur ai).anc_start ≤ ai + length o.lines)
      × (ai + length o.lines ≤ ai + length o.lines)
delete-OpenForward o none ai h = omega arith
delete-OpenForward o (some c) ai h = omega arith

close-AllForward :
    (cur : Option Hunk) (ai : ℕ) (hs : List Hunk)
    → OpenForward cur ai
    → AllForward hs
    → AllForward (close_hunk cur hs)
close-AllForward none ai hs h k = k
close-AllForward (some c) ai hs h k = (h.0, k)

hunks_from-AllForward :
    (diff : List DiffOp) (ai : ℕ) (cur : Option Hunk)
    → OpenForward cur ai
    → AllForward (hunks_from diff ai cur)
unfolding hunks_from
hunks_from-AllForward [] ai none h = tt
hunks_from-AllForward [] ai (some c) h = (h.0, tt)
hunks_from-AllForward (o ∷ diff) ai cur h = elim (DiffType-cases o.type) [
  | inl e ↦
      rw (e, hunks_from)
        (close-AllForward cur ai _ h (hunks_from-AllForward diff (ai + length o.lines) none tt))
  | inr (inl e) ↦
      rw (e, hunks_from)
        (hunks_from-AllForward diff ai (some (inserted o cur ai)) (insert-OpenForward cur ai h))
  | inr (inr e) ↦
      rw (e, hunks_from)
        (hunks_from-AllForward diff (ai + length o.lines) (some (deleted o cur ai))
          (delete-OpenForward o cur ai h))
]

interact_comm : (l r : Hunk) → hunks_interact l r ≡ hunks_interact r l
unfolding hunks_interact
interact_comm l r = ground arith

pub same_lines_comm : (xs ys : List JsString) → same_lines xs ys ≡ same_lines ys xs
unfolding same_lines
same_lines_comm [] [] = refl
same_lines_comm [] (y ∷ ys) = refl
same_lines_comm (x ∷ xs) [] = refl
same_lines_comm (x ∷ xs) (y ∷ ys) = ground (arith, same_lines_comm xs ys)

takes_local_flip :
    (l r : Hunk)
    → IsForward l
    → IsForward r
    → hunks_interact l r ≡ false
    → takes_local r l ≡ not (takes_local l r)
unfolding takes_local hunks_interact
takes_local_flip l r hl hr h = ground arith

-- Two states of the merges of the two devices: as many conflicts, and the same position.
record Agree (s t : MergeState) : Type 0 where
  counts : length s.conflicts ≡ length t.conflicts
  positions : s.pos ≡ t.pos

emit_to-Agree :
    (anc : List JsString) (n : ℕ) (s t : MergeState)
    → Agree s t
    → Agree (emit_to anc n s) (emit_to anc n t)
unfolding emit_to
emit_to-Agree anc n s t h = ground arith

take_hunk-Agree : (x : Hunk) (s t : MergeState) → Agree s t → Agree (take_hunk x s) (take_hunk x t)
unfolding take_hunk
take_hunk-Agree x s t h = ground arith

both_insert_comm :
    (l r : Hunk)
    → (is_insert r && is_insert l && r.anc_start == l.anc_start)
      ≡ (is_insert l && is_insert r && l.anc_start == r.anc_start)
both_insert_comm l r = ground arith

join_hunks-Agree :
    (anc : List JsString) (l r : Hunk) (s t : MergeState)
    → Agree s t
    → Agree (join_hunks anc l r s) (join_hunks anc r l t)
unfolding join_hunks
join_hunks-Agree anc l r s t h =
    rw (both_insert_comm l r, same_lines_comm r.lines l.lines, join_hunks)
      (elim (Bool-cases (is_insert l && is_insert r && l.anc_start == r.anc_start)) [
        | inl appends ↦
            rw (appends, join_hunks) (record { counts = h.counts; positions = h.positions })
        | inr other ↦ elim (Bool-cases (same_lines l.lines r.lines)) [
          | inl same ↦
              rw (other, join_hunks)
                (rw (same, join_hunks)
                  (record { counts = h.counts; positions = omega (arith, h.positions) }))
          | inr apart ↦
              rw (other, join_hunks)
                (rw (apart, join_hunks)
                  (record {
                    counts = omega (
                      arith,
                      length-append {0} s.conflicts,
                      length-append {0} t.conflicts,
                      h.counts,
                    );
                    positions = omega (arith, h.positions);
                  }))
        ]
      ])

-- The turns of the loop.
pub merge_none : (anc : List JsString) (s : MergeState) → merge_hunks anc [] [] s ≡ s
unfolding merge_hunks
merge_none anc s = refl

merge_remote :
    (anc : List JsString) (r : Hunk) (rs : List Hunk) (s : MergeState)
    → merge_hunks anc [] (r ∷ rs) s
      ≡ merge_hunks anc [] rs (take_hunk r (emit_to anc r.anc_start s))
unfolding merge_hunks
merge_remote anc r rs s = refl

merge_local :
    (anc : List JsString) (l : Hunk) (ls : List Hunk) (s : MergeState)
    → merge_hunks anc (l ∷ ls) [] s
      ≡ merge_hunks anc ls [] (take_hunk l (emit_to anc l.anc_start s))
unfolding merge_hunks
merge_local anc l ls s = refl

module _ (anc : List JsString) (l r : Hunk) (ls rs : List Hunk) (s : MergeState) where
  abbrev pub up_to : MergeState
  up_to = emit_to anc (min l.anc_start r.anc_start) s

  pub merge_meet :
      hunks_interact l r ≡ true
      → merge_hunks anc (l ∷ ls) (r ∷ rs) s ≡ merge_hunks anc ls rs (join_hunks anc l r up_to)
  unfolding merge_hunks
  merge_meet meet = rw (meet, merge_hunks)

  merge_left :
      hunks_interact l r ≡ false
      → takes_local l r ≡ true
      → merge_hunks anc (l ∷ ls) (r ∷ rs) s ≡ merge_hunks anc ls (r ∷ rs) (take_hunk l up_to)
  unfolding merge_hunks
  merge_left apart first = rw (apart, merge_hunks) (rw (first, merge_hunks))

  merge_right :
      hunks_interact l r ≡ false
      → takes_local l r ≡ false
      → merge_hunks anc (l ∷ ls) (r ∷ rs) s ≡ merge_hunks anc (l ∷ ls) rs (take_hunk r up_to)
  unfolding merge_hunks
  merge_right apart second = rw (apart, merge_hunks) (rw (second, merge_hunks))

merge_hunks-Agree :
    (anc : List JsString) (ls rs : List Hunk) (s t : MergeState)
    → AllForward ls
    → AllForward rs
    → Agree s t
    → Agree (merge_hunks anc ls rs s) (merge_hunks anc rs ls t)
merge_hunks-Agree anc [] [] s t hl hr h = rw (merge_none anc s, merge_none anc t) h
merge_hunks-Agree anc [] (r ∷ rs) s t hl hr h =
    rw (merge_remote anc r rs s, merge_local anc r rs t)
      (merge_hunks-Agree anc [] rs (take_hunk r (emit_to anc r.anc_start s))
        (take_hunk r (emit_to anc r.anc_start t)) tt hr.1
        (take_hunk-Agree r _ _ (emit_to-Agree anc r.anc_start s t h)))
merge_hunks-Agree anc (l ∷ ls) [] s t hl hr h =
    rw (merge_local anc l ls s, merge_remote anc l ls t)
      (merge_hunks-Agree anc ls [] (take_hunk l (emit_to anc l.anc_start s))
        (take_hunk l (emit_to anc l.anc_start t)) hl.1 tt
        (take_hunk-Agree l _ _ (emit_to-Agree anc l.anc_start s t h)))
merge_hunks-Agree anc (l ∷ ls) (r ∷ rs) s t hl hr h =
    let s' = emit_to anc (min l.anc_start r.anc_start) s in
    let t' = emit_to anc (min l.anc_start r.anc_start) t in
    let h' = emit_to-Agree anc (min l.anc_start r.anc_start) s t h in
    let e = min_comm r.anc_start l.anc_start in
    elim (Bool-cases (hunks_interact l r)) [
      | inl meet ↦
          rw
            (
              merge_meet anc l r ls rs s meet,
              merge_meet anc r l rs ls t (interact_comm r l ∙ meet),
              e,
            )
            (merge_hunks-Agree anc ls rs (join_hunks anc l r s') (join_hunks anc r l t') hl.1 hr.1
              (join_hunks-Agree anc l r s' t' h'))
      | inr apart ↦
          let flip = takes_local_flip l r hl.0 hr.0 apart in
          elim (Bool-cases (takes_local l r)) [
            | inl first ↦
                rw
                  (
                    merge_left anc l r ls rs s apart first,
                    merge_right anc r l rs ls t (interact_comm r l ∙ apart) (flip ∙ ap not first),
                    e,
                  )
                  (merge_hunks-Agree anc ls (r ∷ rs) (take_hunk l s') (take_hunk l t') hl.1 hr
                    (take_hunk-Agree l s' t' h'))
            | inr second ↦
                rw
                  (
                    merge_right anc l r ls rs s apart second,
                    merge_left anc r l rs ls t (interact_comm r l ∙ apart) (flip ∙ ap not second),
                    e,
                  )
                  (merge_hunks-Agree anc (l ∷ ls) rs (take_hunk r s') (take_hunk r t') hl hr.1
                    (take_hunk-Agree r s' t' h'))
          ]
    ]

merge_from_diffs-Agree :
    (anc : List JsString) (ld rd : List DiffOp)
    → length (merge_from_diffs anc ld rd).conflicts ≡ length (merge_from_diffs anc rd ld).conflicts
unfolding merge_from_diffs to_hunks
merge_from_diffs-Agree anc ld rd =
    (emit_to-Agree anc (length anc) _ _ (
      merge_hunks-Agree anc (to_hunks ld) (to_hunks rd) blank blank
        (hunks_from-AllForward ld 0 none tt) (hunks_from-AllForward rd 0 none tt)
        (record { counts = refl; positions = refl }))).counts

-- The number of conflicts, if the merge returns.
abbrev pub conflict_count : Result ThreeWayMergeResult → Option ℕ
conflict_count (ok r) = some (length r.conflicts)
conflict_count (err e) = none

merge_diffs-Agree :
    (anc : List JsString) (ld rd : Result (List DiffOp))
    → conflict_count (merge_diffs anc ld rd) ≡ conflict_count (merge_diffs anc rd ld)
unfolding merge_diffs
merge_diffs-Agree anc (ok a) (ok b) = ap some (merge_from_diffs-Agree anc a b)
merge_diffs-Agree anc (ok a) (err e) = refl
merge_diffs-Agree anc (err e) (ok b) = refl
merge_diffs-Agree anc (err e) (err e') = refl

three_way_lines-Agree :
    (a l r : List JsString)
    → conflict_count (three_way_lines a l r) ≡ conflict_count (three_way_lines a r l)
unfolding three_way_lines
three_way_lines-Agree a l r = ground (arith, merge_diffs-Agree a (diff_lines a l) (diff_lines a r))

-- The two devices of a merge, each with its own text as the local one, agree on how many conflicts it
-- has, and on whether it returns.
pub three_way_merge-conflict_count :
    (a l r : JsString)
    → conflict_count (three_way_merge a l r) ≡ conflict_count (three_way_merge a r l)
unfolding three_way_merge
three_way_merge-conflict_count a l r =
    three_way_lines-Agree (normalize_lines a) (normalize_lines l) (normalize_lines r)
