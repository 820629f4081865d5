-- ===== src/Diff3/Markers/Recognition.antt =====
-- `hasConflictMarkers` of src/merge/diff3.ts on what `renderMarkersFromResult` writes.
use opsblobs_obsidian.Base.{
  ℕ, ◌≡◌, refl, ◌∙◌, JsString, Bool, true, false, List, [], ◌∷◌, ◌++◌, append_assoc,
}
use opsblobs_obsidian.Lines.{join_lf, AreLines, normalize_lines-join_lf}
use opsblobs_obsidian.Diff3.{ConflictChunk, ThreeWayMergeResult}
use opsblobs_obsidian.Diff3.Merge.{is_some_chunk}
use opsblobs_obsidian.Diff3.Markers.{
  starts_with, render_marker_block, render_markers_from_result, sees_markers, has_conflict_markers,
}
use opsblobs_obsidian.Diff3.Markers.Parsing.{AllContent, ChunkContent}
use opsblobs_obsidian.Diff3.Markers.Rendering.{
  Layout, done, line, chunk, rendered, sort_chunks-Layout, render_loop-Layout,
}
use opsblobs_obsidian.Diff3.Markers.RoundTrip.{ChunksContent, ChunksLines, rendered-AreLines}

-- Content lines leave the flags alone.
sees_content :
    (xs rest : List JsString) (o : Bool)
    → AllContent xs
    → sees_markers (xs ++ rest) o false ≡ sees_markers rest o false
unfolding sees_markers
sees_content [] rest o h = refl
sees_content (x ∷ xs) rest true h =
    rw (h.0.no_ours, h.0.no_theirs, sees_markers) (sees_content xs rest true h.1)
sees_content (x ∷ xs) rest false h =
    rw (h.0.no_ours, h.0.no_theirs, sees_markers) (sees_content xs rest false h.1)

sees_block :
    (c : ConflictChunk) (rest : List JsString)
    → ChunkContent c
    → sees_markers (render_marker_block c ++ rest) false false ≡ true
unfolding sees_markers render_marker_block starts_with
sees_block c rest (hl, ha, hr) =
    rw (append_assoc c.local, sees_content c.local _ true hl)
      (rw (append_assoc c.ancestor, sees_content c.ancestor _ true ha)
        (rw (append_assoc c.remote, sees_content c.remote _ true hr)))

sees_rendered :
    {i : ℕ} {m : List JsString} {cs : List ConflictChunk} (d : Layout i m cs)
    → AllContent m
    → ChunksContent cs
    → sees_markers (rendered d) false false ≡ is_some_chunk cs
unfolding rendered sees_markers
sees_rendered done h k = refl
sees_rendered (line l d) h k = rw (h.0.no_ours, h.0.no_theirs, sees_markers) (sees_rendered d h.1 k)
sees_rendered (chunk c ls s e w d) h k = sees_block c (rendered d) k.0

sees_text :
    (ls : List JsString)
    → AreLines ls
    → has_conflict_markers (join_lf ls) ≡ sees_markers ls false false
unfolding has_conflict_markers join_lf
sees_text [] h = refl
sees_text (l ∷ ls) h = rw (normalize_lines-join_lf l ls h)

module _ (result : ThreeWayMergeResult) (layout : Layout 0 result.merged result.conflicts)
    (content : AllContent result.merged) (sides : ChunksContent result.conflicts)
    (lines : AreLines result.merged) (side_lines : ChunksLines result.conflicts) where
  -- A rendered merge result is recognised as marked exactly when it has a conflict, if no line of the
  -- result begins with a marker token or holds a line break.
  pub has_conflict_markers-render :
      has_conflict_markers (render_markers_from_result result) ≡ is_some_chunk result.conflicts
  unfolding render_markers_from_result
  has_conflict_markers-render =
      rw (sort_chunks-Layout layout, render_loop-Layout layout)
        (sees_text (rendered layout) (rendered-AreLines layout lines side_lines)
          ∙ sees_rendered layout content sides)
