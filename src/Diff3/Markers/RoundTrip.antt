-- ===== src/Diff3/Markers/RoundTrip.antt =====
-- Rendering and resolving conflict markers (src/merge/diff3.ts) together.
use mathlib.Core.Path.{subst}
use opsblobs_obsidian.Base.{
  ℕ, ◌+◌, ◌≡◌, refl, ap, ◌∙◌, JsString, Option, none, List, [], ◌∷◌, ◌++◌, append_assoc, arith,
}
use opsblobs_obsidian.Lines.{
  join_lf, AreLines, AreLines-append, append-AreLines, normalize_lines-join_lf,
}
use opsblobs_obsidian.Diff3.{ConflictChunk, ThreeWayMergeResult}
use opsblobs_obsidian.Diff3.Markers.{
  ConflictResolution, keep_local, keep_remote, both, custom, or_local, render_marker_block,
  resolve_conflict_chunk_lines, chunk_of, render_markers_from_result, parse_loop, outside,
  resolve_segments, resolve_marked_text,
}
use opsblobs_obsidian.Diff3.Markers.Parsing.{
  AllContent, AllContent-append, ChunkContent, block_of, parse-render_marker_block,
  resolve-flush_clean,
}
use opsblobs_obsidian.Diff3.Markers.Rendering.{
  Layout, done, line, chunk, rendered, resolved, sort_chunks-Layout, render_loop-Layout,
}

-- The sides of every chunk are lines without a marker.
abbrev pub ChunksContent : List ConflictChunk → Type 0
ChunksContent [] = Unit
ChunksContent (c ∷ cs) = ChunkContent c × ChunksContent cs

-- Only the three sides of a chunk decide what a resolution selects.
resolve-chunk_of :
    (c : ConflictChunk) (x : ConflictResolution)
    → resolve_conflict_chunk_lines (chunk_of (block_of c)) x ≡ resolve_conflict_chunk_lines c x
unfolding resolve_conflict_chunk_lines
resolve-chunk_of c keep_local = refl
resolve-chunk_of c keep_remote = refl
resolve-chunk_of c both = refl
resolve-chunk_of c (custom ls) = refl

resolve-rendered :
    (r : ℕ → Option ConflictResolution) (n : ℕ) (acc : List JsString) {i : ℕ} {m : List JsString}
    {cs : List ConflictChunk} (d : Layout i m cs)
    → AllContent m
    → ChunksContent cs
    → resolve_segments r n (parse_loop (rendered d) (outside acc)) ≡ acc ++ resolved r n d
unfolding rendered parse_loop resolve_segments
resolve-rendered r n acc done h k = resolve-flush_clean r n acc []
resolve-rendered r n acc (line l d) h k =
    rw (h.0.no_ours, parse_loop)
      (resolve-rendered r n (acc ++ (l ∷ [])) d h.1 k ∙ append_assoc acc (l ∷ []) (resolved r n d))
resolve-rendered r n acc (chunk c ls s e w d) h k =
    let rest : AllContent ls = (AllContent-append c.local ls (subst AllContent w h)).1 in
    rw (parse-render_marker_block c (rendered d) acc k.0, resolve-flush_clean r n acc)
      (rw (resolve-rendered r (n + 1) [] d rest k.1) (rw (resolve-chunk_of c (or_local (r n)))))

-- The sides of every chunk are lists of lines.
abbrev pub ChunksLines : List ConflictChunk → Type 0
ChunksLines [] = Unit
ChunksLines (c ∷ cs) = AreLines c.local × AreLines c.ancestor × AreLines c.remote × ChunksLines cs

render_marker_block-AreLines :
    (c : ConflictChunk)
    → AreLines c.local
    → AreLines c.ancestor
    → AreLines c.remote
    → AreLines (render_marker_block c)
unfolding render_marker_block
render_marker_block-AreLines c hl ha hr = (
  omega arith,
  AreLines-append c.local _ hl (
    omega arith,
    AreLines-append c.ancestor _ ha (omega arith, AreLines-append c.remote _ hr (omega arith, tt)),
  ),
)

pub rendered-AreLines :
    {i : ℕ} {m : List JsString} {cs : List ConflictChunk} (d : Layout i m cs)
    → AreLines m
    → ChunksLines cs
    → AreLines (rendered d)
unfolding rendered
rendered-AreLines done h k = tt
rendered-AreLines (line l d) h k = (h.0, rendered-AreLines d h.1 k)
rendered-AreLines (chunk c ls s e w d) h k =
    AreLines-append (render_marker_block c) (rendered d)
      (render_marker_block-AreLines c k.0 k.1 k.2)
      (rendered-AreLines d (append-AreLines c.local ls (subst AreLines w h)) k.3)

-- Going through the text of the lines changes nothing but the split of an empty text.
through_text :
    (r : ℕ → Option ConflictResolution) (ls : List JsString)
    → AreLines ls
    → resolve_marked_text (join_lf ls) r
      ≡ join_lf (resolve_segments r 0 (parse_loop ls (outside [])))
unfolding resolve_marked_text
through_text r [] h = refl
through_text r (l ∷ ls) h = rw (normalize_lines-join_lf l ls h)

module _ (result : ThreeWayMergeResult) (layout : Layout 0 result.merged result.conflicts)
    (content : AllContent result.merged) (sides : ChunksContent result.conflicts)
    (lines : AreLines result.merged) (side_lines : ChunksLines result.conflicts) where
  -- Rendering a merge result with its conflicts in place, and resolving the marked text, gives the
  -- merged text with the lines that each resolution selects in place of each conflict, if no line of
  -- the result begins with a marker token or holds a line break.
  pub resolve-render_markers :
      (r : ℕ → Option ConflictResolution)
      → resolve_marked_text (render_markers_from_result result) r ≡ join_lf (resolved r 0 layout)
  unfolding render_markers_from_result
  resolve-render_markers r =
      rw (sort_chunks-Layout layout, render_loop-Layout layout)
        (through_text r (rendered layout) (rendered-AreLines layout lines side_lines)
          ∙ ap join_lf (resolve-rendered r 0 [] layout content sides))

resolved-local :
    {i : ℕ} {m : List JsString} {cs : List ConflictChunk} (n : ℕ) (d : Layout i m cs)
    → resolved (λ _. none) n d ≡ m
unfolding resolve_conflict_chunk_lines
resolved-local n done = refl
resolved-local n (line l d) = ap (◌∷◌ l) (resolved-local n d)
resolved-local n (chunk c ls s e w d) = rw (w, resolved-local (n + 1) d)
