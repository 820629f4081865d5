-- ===== src/Diff3/Markers/Rendering.antt =====
-- `renderMarkersFromResult` of src/merge/diff3.ts on results whose conflicts lie in the merged lines.
use native.Mathlib.Numerals.{add-one}
use opsblobs_obsidian.Base.{
  ℕ, zero, suc, ◌+◌, ◌≤◌, ◌≡◌, refl, ap, ◌∙◌, JsString, Option, List, [], ◌∷◌, ◌++◌, arith, length,
  drop, sub_ℕ,
}
use opsblobs_obsidian.Diff3.{ConflictChunk}
use opsblobs_obsidian.Diff3.Markers.{
  ConflictResolution, or_local, render_marker_block, resolve_conflict_chunk_lines, span,
  insert_chunk, sort_chunks, render_loop,
}

-- The merged lines from index `i` on, with the chunks that lie in them: each begins at its start line
-- with its local lines, and ends at its end line.
pub data Layout : ℕ → List JsString → List ConflictChunk → Type 0 where
  done : {i : ℕ} → Layout i [] []
  line :
      {i : ℕ} {ls : List JsString} {cs : List ConflictChunk} (l : JsString)
      → Layout (suc i) ls cs
      → Layout i (l ∷ ls) cs
  chunk :
      {i : ℕ} {m : List JsString} {cs : List ConflictChunk} (c : ConflictChunk) (ls : List JsString)
      → c.start_line ≡ i
      → c.end_line ≡ sub_ℕ (i + length c.local) 1
      → m ≡ c.local ++ ls
      → Layout (i + length c.local) ls cs
      → Layout i m (c ∷ cs)

unfoldable pub rendered :
    {i : ℕ} {m : List JsString} {cs : List ConflictChunk} → Layout i m cs → List JsString
rendered done = []
rendered (line l d) = l ∷ rendered d
rendered (chunk c ls s e w d) = render_marker_block c ++ rendered d

-- The merged lines, with the lines that a resolution selects in place of each chunk.
abbrev pub resolved :
    (ℕ → Option ConflictResolution)
    → ℕ
    → {i : ℕ} {m : List JsString} {cs : List ConflictChunk} → Layout i m cs
    → List JsString
resolved r n done = []
resolved r n (line l d) = l ∷ resolved r n d
resolved r n (chunk c ls s e w d) =
    resolve_conflict_chunk_lines c (or_local (r n)) ++ resolved r (n + 1) d

start-le :
    (c : ConflictChunk) {i : ℕ} {m : List JsString} {cs : List ConflictChunk}
    → Layout i m (c ∷ cs)
    → i ≤ c.start_line
start-le c (line l d) = omega (arith, start-le c d)
start-le c (chunk c' ls s e w d) = omega arith

insert_first :
    (c : ConflictChunk) {i : ℕ} {m : List JsString} {cs : List ConflictChunk}
    → Layout i m cs
    → c.start_line ≤ i
    → insert_chunk c cs ≡ c ∷ cs
unfolding insert_chunk
insert_first c done h = refl
insert_first c (line l d) h = insert_first c d (omega arith)
insert_first c (chunk c' ls s e w d) h = ground arith

-- The chunks of a layout are in order already.
pub sort_chunks-Layout :
    {i : ℕ} {m : List JsString} {cs : List ConflictChunk} → Layout i m cs → sort_chunks cs ≡ cs
unfolding sort_chunks
sort_chunks-Layout done = refl
sort_chunks-Layout (line l d) = sort_chunks-Layout d
sort_chunks-Layout (chunk c ls s e w d) = rw (sort_chunks-Layout d) (insert_first c d (omega arith))

-- A chunk spans its local lines.
span-eq :
    (c : ConflictChunk) (i : ℕ)
    → c.start_line ≡ i
    → c.end_line ≡ sub_ℕ (i + length c.local) 1
    → span c ≡ length c.local
span-eq c i s e = ground arith

drop-nil : (n : ℕ) → drop {A = JsString} n [] ≡ []
drop-nil zero = refl
drop-nil (suc n) = refl

drop-append : (xs ys : List JsString) → drop (length xs) (xs ++ ys) ≡ ys
drop-append [] ys = refl
drop-append (x ∷ xs) ys = drop-append xs ys

render_chunk :
    (c : ConflictChunk) (cs : List ConflictChunk) (i : ℕ) (m : List JsString)
    → c.start_line ≡ i
    → render_loop (c ∷ cs) i m
      ≡ render_marker_block c ++ render_loop cs (i + span c) (drop (span c) m)
unfolding render_loop
render_chunk c cs i [] s = ground (arith, drop-nil (span c))
render_chunk c cs i (l ∷ m) s = ground arith

render_line :
    (cs : List ConflictChunk) (i : ℕ) (l : JsString) {m : List JsString}
    → Layout (suc i) m cs
    → render_loop cs i (l ∷ m) ≡ l ∷ render_loop cs (suc i) m
unfolding render_loop
render_line [] i l d = rw add-one
render_line (c ∷ cs) i l d = ground (arith, start-le c d)

-- The loop renders the merged lines with a block in place of each chunk.
pub render_loop-Layout :
    {i : ℕ} {m : List JsString} {cs : List ConflictChunk} (d : Layout i m cs)
    → render_loop cs i m ≡ rendered d
unfolding rendered render_loop
render_loop-Layout done = refl
render_loop-Layout (line {i} {cs} l d) = render_line cs i l d ∙ ap (◌∷◌ l) (render_loop-Layout d)
render_loop-Layout (chunk {i} {m} {cs} c ls s e w d) =
    render_chunk c cs i m s
    ∙ ap (◌++◌ (render_marker_block c))
        (rw (w, span-eq c i s e, drop-append c.local ls) (render_loop-Layout d))
