-- ===== src/Diff3/Merge/OneSided.antt =====
-- Three-way merges (src/merge/diff3.ts) in which only one side has changed.
use opsblobs_obsidian.Base.{
  ℕ, ◌+◌, ◌≤◌, ◌≡◌, refl, ap, sym, ◌∙◌, JsString, List, [], ◌∷◌, ◌++◌, append_assoc, append-nil,
  arith, length, ltb, Bool-cases, inl, inr, max, Option, none, some, drop, slice, slice_empty,
  slice_end, slice_extend, drop-slice, drop-drop, drop-append,
}
use opsblobs_obsidian.Diff3.{equal, insert, delete, DiffOp, DiffType-cases}
use opsblobs_obsidian.Diff3.Merge.{
  Hunk, MergeState, emit_to, take_hunk, merge_hunks, to_hunks, hunks_from, inserted, deleted,
  close_hunk, blank, clean, merge_from_diffs,
}

-- The two texts that a diff relates.
unfoldable pub old_lines : List DiffOp → List JsString
old_lines [] = []
old_lines (o ∷ diff) = elim o.type [
  | equal ↦ o.lines ++ old_lines diff
  | delete ↦ o.lines ++ old_lines diff
  | insert ↦ old_lines diff
]

unfoldable pub new_lines : List DiffOp → List JsString
new_lines [] = []
new_lines (o ∷ diff) = elim o.type [
  | equal ↦ o.lines ++ new_lines diff
  | insert ↦ o.lines ++ new_lines diff
  | delete ↦ new_lines diff
]

-- The ancestor from `pos` on with its hunks applied.
apply_hunks : List JsString → ℕ → List Hunk → List JsString
apply_hunks anc pos [] = drop pos anc
apply_hunks anc pos (h ∷ hs) =
    slice anc pos h.anc_start
    ++ (h.lines ++ apply_hunks anc (max (max pos h.anc_start) h.anc_end) hs)

pub emit_to-merged :
    (anc : List JsString) (n : ℕ) (s : MergeState)
    → (emit_to anc n s).merged ≡ s.merged ++ slice anc s.pos n
unfolding emit_to
emit_to-merged anc n s = elim (Bool-cases (ltb s.pos n)) [
  | inl go ↦ rw (go, emit_to)
  | inr stay ↦
      rw (stay, emit_to)
        (sym (ap (◌++◌ s.merged) (slice_empty anc s.pos n (ground arith)) ∙ append-nil s.merged))
]

pub emit_to-pos :
    (anc : List JsString) (n : ℕ) (s : MergeState) → (emit_to anc n s).pos ≡ max s.pos n
unfolding emit_to
emit_to-pos anc n s = ground arith

pub emit_to-conflicts :
    (anc : List JsString) (n : ℕ) (s : MergeState) → (emit_to anc n s).conflicts ≡ s.conflicts
unfolding emit_to
emit_to-conflicts anc n s = ground arith

take_hunk-merged : (h : Hunk) (s : MergeState) → (take_hunk h s).merged ≡ s.merged ++ h.lines
unfolding take_hunk
take_hunk-merged h s = refl

take_hunk-pos : (h : Hunk) (s : MergeState) → (take_hunk h s).pos ≡ max s.pos h.anc_end
unfolding take_hunk
take_hunk-pos h s = refl

take_hunk-conflicts : (h : Hunk) (s : MergeState) → (take_hunk h s).conflicts ≡ s.conflicts
unfolding take_hunk
take_hunk-conflicts h s = refl

-- With the local hunks alone the loop applies them, and finds no conflict.
local_only :
    (anc : List JsString) (hs : List Hunk) (s : MergeState)
    → ((emit_to anc (length anc) (merge_hunks anc hs [] s)).merged
        ≡ s.merged ++ apply_hunks anc s.pos hs)
      × ((emit_to anc (length anc) (merge_hunks anc hs [] s)).conflicts ≡ s.conflicts)
unfolding merge_hunks apply_hunks
local_only anc [] s = (
  emit_to-merged anc (length anc) s ∙ ap (◌++◌ s.merged) (slice_end anc s.pos),
  emit_to-conflicts anc (length anc) s,
)
local_only anc (h ∷ hs) s =
    let s' = emit_to anc h.anc_start s in
    let next = local_only anc hs (take_hunk h s') in
    (
      next.0 ∙ simp (emit_to-merged anc h.anc_start s, emit_to-pos anc h.anc_start s, append_assoc),
      next.1 ∙ take_hunk-conflicts h s' ∙ emit_to-conflicts anc h.anc_start s,
    )

-- The open hunk of `toHunks` ends at the index that the loop has reached.
abbrev Reached : Option Hunk → ℕ → ℕ → Type 0
Reached none ai pos = pos ≤ ai
Reached (some h) ai pos = (pos ≤ h.anc_start) × (h.anc_start ≤ h.anc_end) × (h.anc_end ≡ ai)

-- What the lines before the rest of a diff come to.
abbrev before_rest : List JsString → Option Hunk → ℕ → ℕ → List JsString
before_rest anc none ai pos = slice anc pos ai
before_rest anc (some h) ai pos = slice anc pos h.anc_start ++ h.lines

close_lem :
    (anc : List JsString) (cur : Option Hunk) (ai pos : ℕ) (hs : List Hunk) (rest : List JsString)
    → Reached cur ai pos
    → ((p : ℕ) → p ≤ ai → apply_hunks anc p hs ≡ slice anc p ai ++ rest)
    → apply_hunks anc pos (close_hunk cur hs) ≡ before_rest anc cur ai pos ++ rest
unfolding apply_hunks
close_lem anc none ai pos hs rest r h = h pos r
close_lem anc (some c) ai pos hs rest r h =
    let e : max (max pos c.anc_start) c.anc_end ≡ ai = omega arith in
    rw (e, h ai (omega arith), slice_empty anc ai ai (omega arith))
      (sym (append_assoc (slice anc pos c.anc_start) c.lines rest))

inserted_before :
    (anc : List JsString) (o : DiffOp) (cur : Option Hunk) (ai pos : ℕ) (rest : List JsString)
    → before_rest anc (some (inserted o cur ai)) ai pos ++ rest
      ≡ before_rest anc cur ai pos ++ (o.lines ++ rest)
inserted_before anc o none ai pos rest = append_assoc (slice anc pos ai) o.lines rest
inserted_before anc o (some c) ai pos rest = simp append_assoc

deleted_before :
    (anc : List JsString) (o : DiffOp) (cur : Option Hunk) (ai k pos : ℕ) (rest : List JsString)
    → before_rest anc (some (deleted o cur ai)) k pos ++ rest ≡ before_rest anc cur ai pos ++ rest
deleted_before anc o none ai k pos rest = rw (append-nil (slice anc pos ai))
deleted_before anc o (some c) ai k pos rest = refl

inserted-Reached :
    (o : DiffOp) (cur : Option Hunk) (ai pos : ℕ)
    → Reached cur ai pos
    → Reached (some (inserted o cur ai)) ai pos
inserted-Reached o none ai pos r = omega arith
inserted-Reached o (some c) ai pos r = r

deleted-Reached :
    (o : DiffOp) (cur : Option Hunk) (ai pos : ℕ)
    → Reached cur ai pos
    → Reached (some (deleted o cur ai)) (ai + length o.lines) pos
deleted-Reached o none ai pos r = omega arith
deleted-Reached o (some c) ai pos r = omega arith

past_lines :
    (anc ls rest : List JsString) (ai : ℕ)
    → drop ai anc ≡ ls ++ rest
    → drop (ai + length ls) anc ≡ rest
past_lines anc ls rest ai d =
    sym (drop-drop (length ls) ai (ai + length ls) anc refl)
    ∙ ap (drop (length ls)) d
    ∙ drop-append ls rest

-- Applying the hunks of a diff of the ancestor gives the new text of the diff.
hunks_from_lem :
    (anc : List JsString) (diff : List DiffOp) (ai pos : ℕ) (cur : Option Hunk)
    → drop ai anc ≡ old_lines diff
    → Reached cur ai pos
    → apply_hunks anc pos (hunks_from diff ai cur) ≡ before_rest anc cur ai pos ++ new_lines diff
unfolding hunks_from old_lines new_lines
hunks_from_lem anc [] ai pos cur d r =
    close_lem anc cur ai pos [] [] r
      (λ p h. unfold apply_hunks in (drop-slice anc p ai h ∙ ap (◌++◌ (slice anc p ai)) d))
hunks_from_lem anc (o ∷ diff) ai pos cur d r = elim (DiffType-cases o.type) [
  | inl e ↦
      let d' : drop ai anc ≡ o.lines ++ old_lines diff = rw (e, old_lines) at d in
      rw (e, hunks_from, new_lines)
        (close_lem anc cur ai pos (hunks_from diff (ai + length o.lines) none)
          (o.lines ++ new_lines diff) r
          (λ p h.
            hunks_from_lem anc diff (ai + length o.lines) p none
              (past_lines anc o.lines (old_lines diff) ai d') (omega arith)
            ∙ ap (λ ls. ls ++ new_lines diff)
                (slice_extend anc o.lines (old_lines diff) p ai (ai + length o.lines) h refl d')
            ∙ append_assoc (slice anc p ai) o.lines (new_lines diff)))
  | inr (inl e) ↦
      let d' : drop ai anc ≡ old_lines diff = rw (e, old_lines) at d in
      rw (e, hunks_from, new_lines)
        (hunks_from_lem anc diff ai pos (some (inserted o cur ai)) d'
            (inserted-Reached o cur ai pos r)
          ∙ inserted_before anc o cur ai pos (new_lines diff))
  | inr (inr e) ↦
      let d' : drop ai anc ≡ o.lines ++ old_lines diff = rw (e, old_lines) at d in
      rw (e, hunks_from, new_lines)
        (hunks_from_lem anc diff (ai + length o.lines) pos (some (deleted o cur ai))
            (past_lines anc o.lines (old_lines diff) ai d') (deleted-Reached o cur ai pos r)
          ∙ deleted_before anc o cur ai (ai + length o.lines) pos (new_lines diff))
]

-- A diff that changes nothing.
abbrev pub IsUnchanged : List DiffOp → Type 0
IsUnchanged [] = Unit
IsUnchanged (o ∷ diff) = (o.type ≡ equal) × IsUnchanged diff

no_hunks : (diff : List DiffOp) (ai : ℕ) → IsUnchanged diff → hunks_from diff ai none ≡ []
unfolding hunks_from
no_hunks [] ai h = refl
no_hunks (o ∷ diff) ai h = rw (h.0, hunks_from) (no_hunks diff (ai + length o.lines) h.1)

-- Merging a diff of the ancestor with one that changes nothing gives the new text of the first, with
-- no conflict.
pub merge_from_diffs_one_sided :
    (anc : List JsString) (ld rd : List DiffOp)
    → old_lines ld ≡ anc
    → IsUnchanged rd
    → merge_from_diffs anc ld rd ≡ clean (new_lines ld)
unfolding merge_from_diffs to_hunks
merge_from_diffs_one_sided anc ld rd h k =
    let only = local_only anc (hunks_from ld 0 none) blank in
    let lines = only.0 ∙ hunks_from_lem anc ld 0 0 none (sym h) (omega arith) in
    rw (no_hunks rd 0 k) (cc (lines, only.1))
