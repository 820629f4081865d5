-- ===== src/Diff3/Merge.antt =====
-- The three-way merge of src/merge/diff3.ts: `toHunks`, `hunksInteract`, `mergeFromDiffs` and
-- `threeWayMerge`.
pub mod Agreement
pub mod OneSided
pub mod Appends
pub mod Termination
pub mod Anchored
use opsblobs_obsidian.Base.{
  ℕ, zero, suc, ◌+◌, ◌-◌, max, min, JsString, Bool, true, false, not, ◌&&◌, ◌||◌, Option, none,
  some, List, [], ◌∷◌, ◌++◌, ltb, ◌==◌, ◌===◌, if◌then◌else◌, length, slice, sub_ℕ,
}
use opsblobs_obsidian.Lines.{normalize_lines, join_lf}
use opsblobs_obsidian.Diff3.{
  DiffType, equal, insert, delete, DiffOp, Result, ok, err, ◌>>=◌, ConflictChunk,
  ThreeWayMergeResult,
}
use opsblobs_obsidian.Diff3.Diff.{diff_lines}

pub record Hunk : Type 0 where
  pub anc_start : ℕ
  pub anc_end : ℕ
  pub lines : List JsString

-- `cur`, or the zero-width hunk that is opened at `ai`.
abbrev pub current_or_new : Option Hunk → ℕ → Hunk
current_or_new none ai = record { anc_start = ai; anc_end = ai; lines = [] }
current_or_new (some h) ai = h

abbrev pub close_hunk : Option Hunk → List Hunk → List Hunk
close_hunk none hunks = hunks
close_hunk (some h) hunks = h ∷ hunks

-- The open hunk after an insertion, and after a deletion.
abbrev pub inserted : DiffOp → Option Hunk → ℕ → Hunk
inserted o cur ai = record {
  anc_start = (current_or_new cur ai).anc_start;
  anc_end = (current_or_new cur ai).anc_end;
  lines = (current_or_new cur ai).lines ++ o.lines;
}

abbrev pub deleted : DiffOp → Option Hunk → ℕ → Hunk
deleted o cur ai = record {
  anc_start = (current_or_new cur ai).anc_start;
  anc_end = ai + length o.lines;
  lines = (current_or_new cur ai).lines;
}

-- The loop of `toHunks`; the hunks that it pushes are returned.
unfoldable pub hunks_from : List DiffOp → ℕ → Option Hunk → List Hunk
hunks_from [] ai cur = close_hunk cur []
hunks_from (o ∷ diff) ai cur = elim o.type [
  | equal ↦ close_hunk cur (hunks_from diff (ai + length o.lines) none)
  | delete ↦ hunks_from diff (ai + length o.lines) (some (deleted o cur ai))
  | insert ↦ hunks_from diff ai (some (inserted o cur ai))
]

unfoldable pub to_hunks : List DiffOp → List Hunk
unfolding hunks_from
to_hunks diff = hunks_from diff 0 none

abbrev pub is_insert : Hunk → Bool
is_insert h = h.anc_start == h.anc_end

unfoldable pub same_lines : List JsString → List JsString → Bool
same_lines [] [] = true
same_lines (x ∷ xs) (y ∷ ys) = x === y && same_lines xs ys
same_lines _ _ = false

unfoldable pub hunks_interact : Hunk → Hunk → Bool
hunks_interact a b =
    if ltb (max a.anc_start b.anc_start) (min a.anc_end b.anc_end)
    then true
    else if is_insert a && is_insert b && a.anc_start == b.anc_start
    then true
    else if is_insert a
        && not (is_insert b)
        && ltb b.anc_start a.anc_start
        && ltb a.anc_start b.anc_end
    then true
    else if is_insert b
        && not (is_insert a)
        && ltb a.anc_start b.anc_start
        && ltb b.anc_start a.anc_end
    then true
    else false

pub record MergeState : Type 0 where
  pub merged : List JsString
  pub conflicts : List ConflictChunk
  pub pos : ℕ

-- The unchanged ancestor lines before the next change.
unfoldable pub emit_to : List JsString → ℕ → MergeState → MergeState
emit_to ancestor next s =
    if ltb s.pos next
    then record {
      merged = s.merged ++ slice ancestor s.pos next;
      conflicts = s.conflicts;
      pos = next;
    }
    else s

-- A one-sided change.
unfoldable pub take_hunk : Hunk → MergeState → MergeState
take_hunk h s = record {
  merged = s.merged ++ h.lines;
  conflicts = s.conflicts;
  pos = max s.pos h.anc_end;
}

-- The block for two hunks that interact.
unfoldable pub join_hunks : List JsString → Hunk → Hunk → MergeState → MergeState
unfolding same_lines
join_hunks ancestor lh rh s =
    let past : ℕ = max s.pos (max lh.anc_end rh.anc_end) in
    if is_insert lh && is_insert rh && lh.anc_start == rh.anc_start
    then record {
      merged =
          s.merged ++ (if same_lines lh.lines rh.lines then lh.lines else lh.lines ++ rh.lines);
      conflicts = s.conflicts;
      pos = s.pos;
    }
    else if same_lines lh.lines rh.lines
    then record { merged = s.merged ++ lh.lines; conflicts = s.conflicts; pos = past }
    else record {
      merged = s.merged ++ lh.lines;
      conflicts =
          s.conflicts
          ++ (record {
            start_line = length s.merged;
            end_line = sub_ℕ (length (s.merged ++ lh.lines)) 1;
            ancestor = slice ancestor (min lh.anc_start rh.anc_start) (max lh.anc_end rh.anc_end);
            local = lh.lines;
            remote = rh.lines;
          }
              ∷ []);
      pos = past;
    }

abbrev pub differ : Bool → Bool → Bool
differ true b = not b
differ false b = b

-- Which hunk goes first when they do not interact.
unfoldable pub takes_local : Hunk → Hunk → Bool
takes_local lh rh =
    if not (lh.anc_start == rh.anc_start)
    then ltb lh.anc_start rh.anc_start
    else if differ (is_insert lh) (is_insert rh)
    then is_insert lh
    else true

-- The loop over the two lists of hunks. A side that has run out starts at infinity.
unfoldable pub merge_hunks : List JsString → List Hunk → List Hunk → MergeState → MergeState
unfolding emit_to take_hunk join_hunks hunks_interact takes_local
merge_hunks ancestor [] [] s = s
merge_hunks ancestor [] (rh ∷ remote) s =
    merge_hunks ancestor [] remote (take_hunk rh (emit_to ancestor rh.anc_start s))
merge_hunks ancestor (lh ∷ local) [] s =
    merge_hunks ancestor local [] (take_hunk lh (emit_to ancestor lh.anc_start s))
merge_hunks ancestor (lh ∷ local) (rh ∷ remote) s =
    let s' = emit_to ancestor (min lh.anc_start rh.anc_start) s in
    elim (hunks_interact lh rh) [
      | true ↦ merge_hunks ancestor local remote (join_hunks ancestor lh rh s')
      | false ↦ elim (takes_local lh rh) [
        | true ↦ merge_hunks ancestor local (rh ∷ remote) (take_hunk lh s')
        | false ↦ merge_hunks ancestor (lh ∷ local) remote (take_hunk rh s')
      ]
    ]

abbrev pub blank : MergeState
blank = record { merged = []; conflicts = []; pos = 0 }

abbrev pub is_some_chunk : List ConflictChunk → Bool
is_some_chunk [] = false
is_some_chunk (c ∷ cs) = true

abbrev pub result_of : MergeState → ThreeWayMergeResult
result_of s = record {
  merged = s.merged;
  conflicts = s.conflicts;
  has_conflicts = is_some_chunk s.conflicts;
}

unfoldable pub merge_from_diffs : List JsString → List DiffOp → List DiffOp → ThreeWayMergeResult
unfolding to_hunks merge_hunks
merge_from_diffs ancestor local_diff remote_diff = result_of (
    emit_to ancestor (length ancestor)
      (merge_hunks ancestor (to_hunks local_diff) (to_hunks remote_diff) blank))

abbrev pub clean : List JsString → ThreeWayMergeResult
clean lines = record { merged = lines; conflicts = []; has_conflicts = false }

unfoldable pub merge_diffs :
    List JsString → Result (List DiffOp) → Result (List DiffOp) → Result ThreeWayMergeResult
unfolding merge_from_diffs
merge_diffs ancestor local_result remote_result = do
  local_diff ← local_result
  remote_diff ← remote_result
  ok (merge_from_diffs ancestor local_diff remote_diff)

-- `threeWayMerge` on the normalised lines of its texts.
unfoldable pub three_way_lines :
    List JsString → List JsString → List JsString → Result ThreeWayMergeResult
unfolding join_lf diff_lines merge_diffs
three_way_lines ancestor local remote =
    if join_lf local === join_lf remote
    then ok (clean local)
    else if join_lf local === join_lf ancestor
    then ok (clean remote)
    else if join_lf remote === join_lf ancestor
    then ok (clean local)
    else merge_diffs ancestor (diff_lines ancestor local) (diff_lines ancestor remote)

unfoldable pub three_way_merge : JsString → JsString → JsString → Result ThreeWayMergeResult
unfolding normalize_lines three_way_lines
three_way_merge ancestor_text local_text remote_text =
    three_way_lines (normalize_lines ancestor_text) (normalize_lines local_text)
      (normalize_lines remote_text)
