-- ===== src/Diff3/Diff.antt =====
-- The line diff of src/merge/diff3.ts: `diffRecurse`, `emitFromLCS`, `coalesceOps` and `diffLines`.
-- What the source pushes to `ops` is returned.
pub mod Fuel
use opsblobs_obsidian.Base.{
  ℕ, zero, suc, ◌+◌, JsString, Bool, true, false, none, some, List, [], ◌∷◌, ◌++◌, ltb, ◌==◌,
  if◌then◌else◌, length, get_elem?, slice,
}
use opsblobs_obsidian.Diff3.{
  DiffType, equal, insert, delete, DiffOp, Result, ok, err, out_of_fuel, ◌>>=◌,
}
use opsblobs_obsidian.Diff3.Patience.{Anchor, patience_anchors, myers_lcs}

abbrev pub op : DiffType → List JsString → DiffOp
op type lines = record { type = type; lines = lines }

-- `[a[i]!]`: the anchors name lines that are there.
abbrev pub line_at : List JsString → ℕ → List JsString
line_at a i = elim (get_elem? a i) [ none ↦ [] | some l ↦ l ∷ [] ]

abbrev pub op_if : Bool → DiffType → List JsString → List DiffOp
op_if true type lines = op type lines ∷ []
op_if false type lines = []

unfoldable pub emit_from_lcs :
    List JsString → ℕ → ℕ → List JsString → ℕ → ℕ → List Anchor → List DiffOp
emit_from_lcs a ai a_hi b bi b_hi [] =
    op_if (ltb ai a_hi) delete (slice a ai a_hi) ++ op_if (ltb bi b_hi) insert (slice b bi b_hi)
emit_from_lcs a ai a_hi b bi b_hi ((la, lb) ∷ lcs) =
    op_if (ltb ai la) delete (slice a ai la)
    ++ (op_if (ltb bi lb) insert (slice b bi lb)
        ++ (op equal (line_at a la) ∷ emit_from_lcs a (la + 1) a_hi b (lb + 1) b_hi lcs))

-- The loop over the anchors; `recurse` is the recursive call.
unfoldable pub between_anchors :
    (ℕ → ℕ → ℕ → ℕ → Result (List DiffOp))
    → List JsString
    → ℕ
    → ℕ
    → ℕ
    → ℕ
    → List Anchor
    → Result (List DiffOp)
between_anchors recurse a prev_ai a_hi prev_bi b_hi [] = recurse prev_ai a_hi prev_bi b_hi
between_anchors recurse a prev_ai a_hi prev_bi b_hi ((ai, bi) ∷ anchors) = do
  before ← recurse prev_ai ai prev_bi bi
  after ← between_anchors recurse a (ai + 1) a_hi (bi + 1) b_hi anchors
  ok (before ++ (op equal (line_at a ai) ∷ after))

-- The body of `diffRecurse` after its base cases.
unfoldable pub diff_range :
    (ℕ → ℕ → ℕ → ℕ → Result (List DiffOp))
    → List JsString
    → List JsString
    → ℕ
    → ℕ
    → ℕ
    → ℕ
    → List Anchor
    → Result (List DiffOp)
unfolding between_anchors emit_from_lcs myers_lcs
diff_range recurse a b a_lo a_hi b_lo b_hi [] =
    ok (emit_from_lcs a a_lo a_hi b b_lo b_hi (myers_lcs a a_lo a_hi b b_lo b_hi))
diff_range recurse a b a_lo a_hi b_lo b_hi (anchor ∷ anchors) =
    between_anchors recurse a a_lo a_hi b_lo b_hi (anchor ∷ anchors)

unfoldable pub diff_recurse :
    List JsString → List JsString → ℕ → ℕ → ℕ → ℕ → ℕ → Result (List DiffOp)
unfolding diff_range patience_anchors
diff_recurse a b zero a_lo a_hi b_lo b_hi = err out_of_fuel
diff_recurse a b (suc fuel) a_lo a_hi b_lo b_hi = elim (a_lo == a_hi) [
  | true ↦ if b_lo == b_hi then ok [] else ok (op insert (slice b b_lo b_hi) ∷ [])
  | false ↦ elim (b_lo == b_hi) [
    | true ↦ ok (op delete (slice a a_lo a_hi) ∷ [])
    | false ↦ do
      anchors ← patience_anchors a a_lo a_hi b b_lo b_hi
      diff_range (diff_recurse a b fuel) a b a_lo a_hi b_lo b_hi anchors
  ]
]

abbrev pub same_type : DiffType → DiffType → Bool
same_type equal equal = true
same_type insert insert = true
same_type delete delete = true
same_type _ _ = false

-- `coalesceOps`, with the last operation of the result apart.
unfoldable pub coalesce_from : DiffOp → List DiffOp → List DiffOp
coalesce_from last [] = last ∷ []
coalesce_from last (o ∷ ops) = elim (length o.lines == 0) [
  | true ↦ coalesce_from last ops
  | false ↦ elim (same_type last.type o.type) [
    | true ↦ coalesce_from (op last.type (last.lines ++ o.lines)) ops
    | false ↦ last ∷ coalesce_from o ops
  ]
]

unfoldable pub coalesce_ops : List DiffOp → List DiffOp
unfolding coalesce_from
coalesce_ops [] = []
coalesce_ops (o ∷ ops) = elim (length o.lines == 0) [
  | true ↦ coalesce_ops ops
  | false ↦ coalesce_from o ops
]

-- Each level of the recursion fixes an anchor line of `a`, so as many levels as `a` has lines, and
-- one more, are enough.
unfoldable pub diff_lines : List JsString → List JsString → Result (List DiffOp)
unfolding diff_recurse coalesce_ops
diff_lines a b = do
  ops ← diff_recurse a b (length a + 1) 0 (length a) 0 (length b)
  ok (coalesce_ops ops)
