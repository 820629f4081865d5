-- ===== src/Diff3/Patience.antt =====
-- The anchors of the diff in src/merge/diff3.ts: `patienceAnchors`,
-- `longestIncreasingSubsequence` and `myersLCS`.
pub mod Lis
pub mod Range
pub mod Fuel
use opsblobs_obsidian.Base.{
  ℕ, zero, suc, ◌+◌, ◌-◌, ◌/◌, max, JsString, Bool, true, false, Option, none, some, List, [], ◌∷◌,
  ◌++◌, leb, ltb, ◌===◌, if◌then◌else◌, length, get_elem?, drop, slice, lookup,
}
use opsblobs_obsidian.Diff3.{Result, ok, err, type_error, out_of_fuel, ◌>>=◌}

-- An index into `a` with the index of the same line in `b`.
abbrev pub Anchor : Type 0
Anchor = ℕ × ℕ

-- A number of a row, and a row of a table; both are in range where the code reads them.
abbrev pub cell : List ℕ → ℕ → ℕ
cell [] j = 0
cell (n ∷ row) zero = n
cell (n ∷ row) (suc j) = cell row j

abbrev pub row_at : List (List ℕ) → ℕ → List ℕ
row_at [] i = []
row_at (row ∷ rows) zero = row
row_at (row ∷ rows) (suc i) = row_at rows i

unfoldable pub push_index : JsString → ℕ → List (JsString × List ℕ) → List (JsString × List ℕ)
push_index line i [] = (line, i ∷ []) ∷ []
push_index line i ((l, is) ∷ m) =
    if l === line then (l, is ++ (i ∷ [])) ∷ m else (l, is) ∷ push_index line i m

-- The counting loop over a range whose first index is `i`.
unfoldable pub count_lines : List JsString → ℕ → List (JsString × List ℕ) → List (JsString × List ℕ)
unfolding push_index
count_lines [] i m = m
count_lines (l ∷ ls) i m = count_lines ls (i + 1) (push_index l i m)

abbrev pub single_pair : List ℕ → Option (List ℕ) → List Anchor
single_pair (i ∷ []) (some (j ∷ [])) = (i, j) ∷ []
single_pair _ _ = []

-- The lines that occur exactly once in both ranges.
unfoldable pub unique_pairs : List (JsString × List ℕ) → List (JsString × List ℕ) → List Anchor
unfolding lookup
unique_pairs [] b_count = []
unique_pairs ((line, is) ∷ m) b_count =
    single_pair is (lookup line b_count) ++ unique_pairs m b_count

unfoldable pub insert_pair : Anchor → List Anchor → List Anchor
insert_pair p [] = p ∷ []
insert_pair p (q ∷ qs) = if leb p.0 q.0 then p ∷ q ∷ qs else q ∷ insert_pair p qs

-- `pairs.sort((x, y) => x[0] - y[0])`, a stable sort.
unfoldable pub sort_pairs : List Anchor → List Anchor
unfolding insert_pair
sort_pairs [] = []
sort_pairs (p ∷ ps) = insert_pair p (sort_pairs ps)

-- `xs[i] = v` for `i` up to the length.
unfoldable pub put {ℓ} : {A : Type ℓ} → List A → ℕ → A → List A
put [] i v = v ∷ []
put (x ∷ xs) zero v = v ∷ xs
put (x ∷ xs) (suc i) v = x ∷ put xs i v

-- The binary search. The code indexes `piles` by an element of `pileTop`; where there is no such
-- pile, the read of its b-index throws.
unfoldable pub find_pile : List Anchor → List ℕ → ℕ → ℕ → ℕ → ℕ → Result ℕ
find_pile piles pile_top b_val zero lo hi = if ltb lo hi then err out_of_fuel else ok lo
find_pile piles pile_top b_val (suc fuel) lo hi = elim (ltb lo hi) [
  | false ↦ ok lo
  | true ↦ elim (get_elem? pile_top ((lo + hi) / 2)) [
    | none ↦ err type_error
    | some top ↦ elim (get_elem? piles top) [
      | none ↦ err type_error
      | some (_, b) ↦ elim (ltb b b_val) [
        | true ↦ find_pile piles pile_top b_val fuel ((lo + hi) / 2 + 1) hi
        | false ↦ find_pile piles pile_top b_val fuel lo ((lo + hi) / 2)
      ]
    ]
  ]
]

-- `prev` holds the entries of the indices done so far; `none` is the -1 of the source.
pub record Piles : Type 0 where
  pub piles : List Anchor
  pub prev : List (Option ℕ)
  pub pile_top : List ℕ

abbrev pub predecessor : List ℕ → ℕ → Option ℕ
predecessor pile_top zero = none
predecessor pile_top (suc lo) = get_elem? pile_top lo

unfoldable pub place : Piles → ℕ → Anchor → Result Piles
unfolding find_pile put
place s i p = do
  lo ← find_pile s.piles s.pile_top p.1 (length s.piles) 0 (length s.piles)
  ok (record {
    piles = put s.piles lo p;
    prev = s.prev ++ (predecessor s.pile_top lo ∷ []);
    pile_top = put s.pile_top lo i;
  })

unfoldable pub place_all : Piles → ℕ → List Anchor → Result Piles
unfolding place
place_all s i [] = ok s
place_all s i (p ∷ ps) = do s' ← place s i p; place_all s' (i + 1) ps

-- The chain of `prev` links from `k`, put in front of the result so far.
unfoldable pub follow :
    List Anchor → List (Option ℕ) → ℕ → Option ℕ → List Anchor → Result (List Anchor)
follow pairs prev fuel none result = ok result
follow pairs prev zero (some k) result = err out_of_fuel
follow pairs prev (suc fuel) (some k) result = elim (get_elem? pairs k) [
  | none ↦ err type_error
  | some p ↦ elim (get_elem? prev k) [
    | none ↦ err type_error
    | some before ↦ follow pairs prev fuel before (p ∷ result)
  ]
]

abbrev pub no_piles : Piles
no_piles = record { piles = []; prev = []; pile_top = [] }

unfoldable pub longest_increasing_subsequence : List Anchor → Result (List Anchor)
unfolding place_all follow
longest_increasing_subsequence [] = ok []
longest_increasing_subsequence (p ∷ ps) = do
  s ← place_all no_piles 0 (p ∷ ps)
  follow (p ∷ ps) s.prev (length (p ∷ ps)) (get_elem? s.pile_top (length s.piles - 1)) []

unfoldable pub patience_anchors :
    List JsString → ℕ → ℕ → List JsString → ℕ → ℕ → Result (List Anchor)
unfolding count_lines unique_pairs sort_pairs longest_increasing_subsequence
patience_anchors a a_lo a_hi b b_lo b_hi = longest_increasing_subsequence (
    sort_pairs (
      unique_pairs (count_lines (slice a a_lo a_hi) a_lo [])
        (count_lines (slice b b_lo b_hi) b_lo [])))

-- Row `i` of the table of `myersLCS`, for the line `x` of index `i`, from row `i + 1`; filled from
-- the right.
unfoldable pub dp_row : JsString → List JsString → List ℕ → List ℕ
dp_row x [] below = 0 ∷ []
dp_row x (y ∷ ys) below =
    let row = dp_row x ys (drop 1 below) in
    (if x === y then cell below 1 + 1 else max (cell below 0) (cell row 0)) ∷ row

abbrev pub zeros : List JsString → List ℕ
zeros [] = 0 ∷ []
zeros (y ∷ ys) = 0 ∷ zeros ys

-- The rows from `i = 0` on; the last one is the row of zeros.
unfoldable pub dp_table : List JsString → List JsString → List (List ℕ)
unfolding dp_row
dp_table [] ys = zeros ys ∷ []
dp_table (x ∷ xs) ys = let below = dp_table xs ys in dp_row x ys (row_at below 0) ∷ below

-- The walk through the table: the suffixes of the two slices from `i` and `j` on, and the offsets of
-- the slices.
unfoldable pub lcs_walk :
    List (List ℕ) → ℕ → ℕ → List JsString → List JsString → ℕ → ℕ → List Anchor
lcs_walk dp a_lo b_lo [] ys i j = []
lcs_walk dp a_lo b_lo (x ∷ xs) [] i j = []
lcs_walk dp a_lo b_lo (x ∷ xs) (y ∷ ys) i j = elim (x === y) [
  | true ↦ (a_lo + i, b_lo + j) ∷ lcs_walk dp a_lo b_lo xs ys (i + 1) (j + 1)
  | false ↦ elim (leb (cell (row_at dp i) (j + 1)) (cell (row_at dp (i + 1)) j)) [
    | true ↦ lcs_walk dp a_lo b_lo xs (y ∷ ys) (i + 1) j
    | false ↦ lcs_walk dp a_lo b_lo (x ∷ xs) ys i (j + 1)
  ]
]

unfoldable pub myers_lcs : List JsString → ℕ → ℕ → List JsString → ℕ → ℕ → List Anchor
unfolding dp_table lcs_walk
myers_lcs a a_lo a_hi b b_lo b_hi =
    let xs = slice a a_lo a_hi in
    let ys = slice b b_lo b_hi in lcs_walk (dp_table xs ys) a_lo b_lo xs ys 0 0
