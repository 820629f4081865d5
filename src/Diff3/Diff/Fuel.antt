-- ===== src/Diff3/Diff/Fuel.antt =====
-- The fuel of the recursion of `diffRecurse` (src/merge/diff3.ts).
use opsblobs_obsidian.Base.{
  ℕ, zero, suc, ◌+◌, ◌-◌, ◌<◌, JsString, Bool, true, false, List, [], ◌∷◌, length, ◌==◌,
  if◌then◌else◌, arith, Bool-cases, inl, inr,
}
use opsblobs_obsidian.Diff3.{Result, DiffOp, ok}
use opsblobs_obsidian.Diff3.Patience.{Anchor, patience_anchors}
use opsblobs_obsidian.Diff3.Patience.Range.{Runs, then-Runs, InRange}
use opsblobs_obsidian.Diff3.Patience.Fuel.{patience_anchors-Runs}
use opsblobs_obsidian.Diff3.Diff.{between_anchors, diff_range, diff_recurse, diff_lines}

abbrev pub RunsAny {ℓ} : {A : Type ℓ} → Result A → Type 0
RunsAny r = Runs (λ a. Unit) r

-- The recursive call returns on every range of `a` that is shorter than the bound.
abbrev RunsBelow : ℕ → (ℕ → ℕ → ℕ → ℕ → Result (List DiffOp)) → Type 0
RunsBelow n recurse =
    (a_lo a_hi b_lo b_hi : ℕ) → a_hi - a_lo < n → RunsAny (recurse a_lo a_hi b_lo b_hi)

between-Runs :
    (recurse : ℕ → ℕ → ℕ → ℕ → Result (List DiffOp)) (a : List JsString)
    (lo hi prev b_prev b_hi : ℕ) (anchors : List Anchor)
    → RunsBelow (hi - lo) recurse
    → InRange lo hi anchors
    → lo < prev
    → lo < hi
    → RunsAny (between_anchors recurse a prev hi b_prev b_hi anchors)
unfolding between_anchors
between-Runs recurse a lo hi prev b_prev b_hi [] h r k l =
    h prev hi b_prev b_hi (omega (arith, k, l))
between-Runs recurse a lo hi prev b_prev b_hi ((ai, bi) ∷ anchors) h r k l =
    then-Runs (λ x. Unit) (λ x. Unit) (recurse prev ai b_prev bi) _
      (h prev ai b_prev bi (omega (arith, k, l, r.0, r.1)))
      (λ before _.
        then-Runs (λ x. Unit) (λ x. Unit)
          (between_anchors recurse a (ai + 1) hi (bi + 1) b_hi anchors) _
          (between-Runs recurse a lo hi (ai + 1) (bi + 1) b_hi anchors h r.2 (omega (arith, r.0)) l)
          (λ after _. tt))

range-Runs :
    (recurse : ℕ → ℕ → ℕ → ℕ → Result (List DiffOp)) (a b : List JsString) (lo hi b_lo b_hi : ℕ)
    (anchors : List Anchor)
    → RunsBelow (hi - lo) recurse
    → InRange lo hi anchors
    → RunsAny (diff_range recurse a b lo hi b_lo b_hi anchors)
unfolding diff_range between_anchors
range-Runs recurse a b lo hi b_lo b_hi [] h r = tt
range-Runs recurse a b lo hi b_lo b_hi ((ai, bi) ∷ anchors) h r =
    then-Runs (λ x. Unit) (λ x. Unit) (recurse lo ai b_lo bi) _
      (h lo ai b_lo bi (omega (arith, r.0, r.1)))
      (λ before _.
        then-Runs (λ x. Unit) (λ x. Unit)
          (between_anchors recurse a (ai + 1) hi (bi + 1) b_hi anchors) _
          (between-Runs recurse a lo hi (ai + 1) (bi + 1) b_hi anchors h r.2 (omega (arith, r.0))
            (omega (arith, r.0, r.1)))
          (λ after _. tt))

if-Runs : (b : Bool) (x y : List DiffOp) → RunsAny (if b then ok x else ok y)
if-Runs true x y = tt
if-Runs false x y = tt

recurse-Runs :
    (a b : List JsString) (fuel lo hi b_lo b_hi : ℕ)
    → hi - lo < fuel
    → RunsAny (diff_recurse a b fuel lo hi b_lo b_hi)
unfolding diff_recurse
recurse-Runs a b zero lo hi b_lo b_hi h = ground (arith, h)
recurse-Runs a b (suc fuel) lo hi b_lo b_hi h = elim (Bool-cases (lo == hi)) [
  | inl e ↦ rw (e, diff_recurse) (if-Runs (b_lo == b_hi) _ _)
  | inr e ↦
      rw (e, diff_recurse)
        (elim (Bool-cases (b_lo == b_hi)) [
          | inl f ↦ rw (f, diff_recurse) tt
          | inr f ↦
              rw (f, diff_recurse)
                (then-Runs (InRange lo hi) (λ x. Unit) (patience_anchors a lo hi b b_lo b_hi) _
                  (patience_anchors-Runs a b lo hi b_lo b_hi)
                  (λ anchors r.
                    range-Runs (diff_recurse a b fuel) a b lo hi b_lo b_hi anchors
                      (λ l i m n k. recurse-Runs a b fuel l i m n (omega (arith, h, k))) r))
        ])
]

-- The diff of two lists of lines ends within its fuel: it returns, or the engine throws.
pub diff_lines-Runs : (a b : List JsString) → RunsAny (diff_lines a b)
unfolding diff_lines
diff_lines-Runs a b =
    then-Runs (λ x. Unit) (λ x. Unit) (diff_recurse a b (length a + 1) 0 (length a) 0 (length b)) _
      (recurse-Runs a b (length a + 1) 0 (length a) 0 (length b) (omega arith)) (λ ops _. tt)
