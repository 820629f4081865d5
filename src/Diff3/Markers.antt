-- ===== src/Diff3/Markers.antt =====
-- The conflict markers of src/merge/diff3.ts: rendering a merge result, recognising and parsing marked
-- text, and resolving it.
pub mod Parsing
pub mod Rendering
pub mod RoundTrip
pub mod Recognition
use opsblobs_obsidian.Base.{
  ℕ, zero, suc, ◌+◌, ◌-◌, JsString, codes, Bool, true, false, ◌&&◌, ◌||◌, Option, none, some, List,
  [], ◌∷◌, ◌++◌, map, ltb, leb, ◌==◌, if◌then◌else◌, length, drop, ℤ, pos, negsuc,
}
use opsblobs_obsidian.Lines.{normalize_lines, join_lf}
use opsblobs_obsidian.Diff3.{ConflictChunk, ThreeWayMergeResult, Result, ok, ◌>>=◌}
use opsblobs_obsidian.Diff3.Merge.{three_way_merge}

pub data ConflictResolution : Type 0 where
  keep_local : ConflictResolution
  keep_remote : ConflictResolution
  both : ConflictResolution
  custom : List JsString → ConflictResolution

unfoldable pub resolve_conflict_chunk_lines : ConflictChunk → ConflictResolution → List JsString
resolve_conflict_chunk_lines chunk keep_local = chunk.local
resolve_conflict_chunk_lines chunk keep_remote = chunk.remote
resolve_conflict_chunk_lines chunk both = chunk.local ++ chunk.remote
resolve_conflict_chunk_lines chunk (custom text) = text

abbrev pub mark_ours : JsString
mark_ours = codes "<<<<<<<"

abbrev pub mark_base : JsString
mark_base = codes "|||||||"

abbrev pub mark_sep : JsString
mark_sep = codes "======="

abbrev pub mark_theirs : JsString
mark_theirs = codes ">>>>>>>"

unfoldable pub starts_with : JsString → JsString → Bool
starts_with s [] = true
starts_with [] (p ∷ ps) = false
starts_with (c ∷ s) (p ∷ ps) = c == p && starts_with s ps

unfoldable pub render_marker_block : ConflictChunk → List JsString
render_marker_block chunk =
    (codes "<<<<<<< Mine" ∷ [])
    ++ (chunk.local
        ++ ((codes "||||||| Original" ∷ [])
            ++ (chunk.ancestor
                ++ ((mark_sep ∷ []) ++ (chunk.remote ++ (codes ">>>>>>> Theirs" ∷ []))))))

-- `Math.max(0, c.endLine - c.startLine + 1)`
abbrev pub span : ConflictChunk → ℕ
span c = elim c.end_line [ pos e ↦ (e + 1) - c.start_line | negsuc n ↦ 0 ]

unfoldable pub insert_chunk : ConflictChunk → List ConflictChunk → List ConflictChunk
insert_chunk c [] = c ∷ []
insert_chunk c (d ∷ ds) =
    if leb c.start_line d.start_line then c ∷ d ∷ ds else d ∷ insert_chunk c ds

-- `[...conflicts].sort((a, b) => a.startLine - b.startLine)`, a stable sort.
unfoldable pub sort_chunks : List ConflictChunk → List ConflictChunk
unfolding insert_chunk
sort_chunks [] = []
sort_chunks (c ∷ cs) = insert_chunk c (sort_chunks cs)

-- The loop of `renderMarkersFromResult`: the chunks from `ci` on, `i`, and the merged lines from `i`.
unfoldable pub render_loop : List ConflictChunk → ℕ → List JsString → List JsString
unfolding render_marker_block
render_loop [] i [] = []
render_loop [] i (l ∷ merged) = l ∷ render_loop [] (i + 1) merged
render_loop (c ∷ cs) i [] = elim (c.start_line == i) [
  | true ↦ render_marker_block c ++ render_loop cs (i + span c) []
  | false ↦ []
]
render_loop (c ∷ cs) i (l ∷ merged) = elim (c.start_line == i) [
  | true ↦ render_marker_block c ++ render_loop cs (i + span c) (drop (span c) (l ∷ merged))
  | false ↦ l ∷ render_loop (c ∷ cs) (i + 1) merged
]

unfoldable pub render_markers_from_result : ThreeWayMergeResult → JsString
unfolding sort_chunks render_loop join_lf
render_markers_from_result result =
    join_lf (render_loop (sort_chunks result.conflicts) 0 result.merged)

unfoldable pub render_conflict_markers : JsString → JsString → JsString → Result JsString
unfolding three_way_merge render_markers_from_result
render_conflict_markers base ours theirs = do
  result ← three_way_merge base ours theirs
  ok (render_markers_from_result result)

-- The loop of `hasConflictMarkers` with its two flags.
unfoldable pub sees_markers : List JsString → Bool → Bool → Bool
unfolding starts_with
sees_markers [] has_ours has_theirs = false
sees_markers (l ∷ lines) has_ours has_theirs =
    let ours : Bool = if starts_with l mark_ours then true else has_ours in
    let theirs : Bool =
      if starts_with l mark_ours
      then has_theirs
      else if starts_with l mark_theirs
      then true
      else has_theirs in
    let rest = sees_markers lines ours theirs in if ours && theirs then true else rest

unfoldable pub has_conflict_markers : JsString → Bool
unfolding sees_markers normalize_lines
has_conflict_markers text = sees_markers (normalize_lines text) false false

pub record Block : Type 0 where
  pub ours : List JsString
  pub base : List JsString
  pub theirs : List JsString

pub data Segment : Type 0 where
  clean : List JsString → Segment
  conflict : Block → Segment

pub data Section : Type 0 where
  ours_section base_section theirs_section : Section

-- `state` with `cur`, which is there exactly when the state is not `clean`.
pub data ParseState : Type 0 where
  outside : List JsString → ParseState
  inside : Section → Block → ParseState

abbrev pub flush_clean : List JsString → List Segment → List Segment
flush_clean [] rest = rest
flush_clean (l ∷ lines) rest = clean (l ∷ lines) ∷ rest

abbrev pub empty_block : Block
empty_block = record { ours = []; base = []; theirs = [] }

unfoldable pub collect : Section → JsString → Block → Block
collect ours_section l b = record { ours = b.ours ++ (l ∷ []); base = b.base; theirs = b.theirs }
collect base_section l b = record { ours = b.ours; base = b.base ++ (l ∷ []); theirs = b.theirs }
collect theirs_section l b = record { ours = b.ours; base = b.base; theirs = b.theirs ++ (l ∷ []) }

-- The loop of `parseConflictMarkers`; the segments that it pushes are returned.
unfoldable pub parse_loop : List JsString → ParseState → List Segment
unfolding starts_with collect
parse_loop [] (outside lines) = flush_clean lines []
parse_loop [] (inside section cur) = conflict cur ∷ []
parse_loop (l ∷ rest) (outside lines) = elim (starts_with l mark_ours) [
  | true ↦ flush_clean lines (parse_loop rest (inside ours_section empty_block))
  | false ↦ parse_loop rest (outside (lines ++ (l ∷ [])))
]
parse_loop (l ∷ rest) (inside section cur) = elim (starts_with l mark_base) [
  | true ↦ parse_loop rest (inside base_section cur)
  | false ↦ elim (starts_with l mark_sep) [
    | true ↦ parse_loop rest (inside theirs_section cur)
    | false ↦ elim (starts_with l mark_theirs) [
      | true ↦ conflict cur ∷ parse_loop rest (outside [])
      | false ↦ parse_loop rest (inside section (collect section l cur))
    ]
  ]
]

unfoldable pub parse_conflict_markers : JsString → List Segment
unfolding parse_loop normalize_lines
parse_conflict_markers text = parse_loop (normalize_lines text) (outside [])

unfoldable pub count_conflicts : List Segment → ℕ
count_conflicts [] = 0
count_conflicts (clean lines ∷ segments) = count_conflicts segments
count_conflicts (conflict b ∷ segments) = count_conflicts segments + 1

unfoldable pub count_marker_conflicts : JsString → ℕ
unfolding count_conflicts parse_conflict_markers
count_marker_conflicts text = count_conflicts (parse_conflict_markers text)

abbrev pub chunk_of : Block → ConflictChunk
chunk_of b = record {
  start_line = 0;
  end_line = pos 0;
  ancestor = b.base;
  local = b.ours;
  remote = b.theirs;
}

abbrev pub or_local : Option ConflictResolution → ConflictResolution
or_local none = keep_local
or_local (some r) = r

-- The loop of `resolveMarkedText`, with the ordinal of the next block.
unfoldable pub resolve_segments : (ℕ → Option ConflictResolution) → ℕ → List Segment → List JsString
unfolding resolve_conflict_chunk_lines
resolve_segments resolutions ci [] = []
resolve_segments resolutions ci (clean lines ∷ segments) =
    lines ++ resolve_segments resolutions ci segments
resolve_segments resolutions ci (conflict b ∷ segments) =
    resolve_conflict_chunk_lines (chunk_of b) (or_local (resolutions ci))
    ++ resolve_segments resolutions (ci + 1) segments

unfoldable pub resolve_marked_text : JsString → (ℕ → Option ConflictResolution) → JsString
unfolding resolve_segments parse_conflict_markers join_lf
resolve_marked_text text resolutions =
    join_lf (resolve_segments resolutions 0 (parse_conflict_markers text))
