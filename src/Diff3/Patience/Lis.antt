-- ===== src/Diff3/Patience/Lis.antt =====
-- `longestIncreasingSubsequence` of src/merge/diff3.ts.
use opsblobs_obsidian.Base.{◌≤◌, ◌≡◌, List, ◌∷◌, arith}
use opsblobs_obsidian.Diff3.{err, type_error}
use opsblobs_obsidian.Diff3.Patience.{
  Anchor, find_pile, put, place, place_all, longest_increasing_subsequence,
}

-- Where the first two of at least three pairs are not in increasing order of their b-indices, the
-- search reads a pile by an index past the last pile, and throws.
pub longest_increasing_subsequence_throws :
    (p q r : Anchor) (rest : List Anchor)
    → q.1 ≤ p.1
    → longest_increasing_subsequence (p ∷ q ∷ r ∷ rest) ≡ err type_error
unfolding longest_increasing_subsequence place_all place find_pile put
longest_increasing_subsequence_throws p q r rest h = ground (arith, h)
