-- ===== src/Diff3/Markers/Parsing.antt =====
-- `parseConflictMarkers` and `resolveMarkedText` of src/merge/diff3.ts on lines that are no markers.
use opsblobs_obsidian.Base.{
  ℕ, ◌≡◌, refl, JsString, false, Option, List, [], ◌∷◌, ◌++◌, append_assoc, append-nil,
}
use opsblobs_obsidian.Diff3.{ConflictChunk}
use opsblobs_obsidian.Diff3.Markers.{
  ConflictResolution, mark_ours, mark_base, mark_sep, mark_theirs, starts_with, render_marker_block,
  Block, Segment, conflict, Section, ours_section, base_section, theirs_section, outside, inside,
  flush_clean, empty_block, collect, parse_loop, resolve_segments,
}

-- A line that no marker token begins.
pub record IsContent (l : JsString) : Type 0 where
  pub no_ours : starts_with l mark_ours ≡ false
  pub no_base : starts_with l mark_base ≡ false
  pub no_sep : starts_with l mark_sep ≡ false
  pub no_theirs : starts_with l mark_theirs ≡ false

abbrev pub AllContent : List JsString → Type 0
AllContent [] = Unit
AllContent (l ∷ ls) = IsContent l × AllContent ls

pub AllContent-append :
    (xs ys : List JsString) → AllContent (xs ++ ys) → AllContent xs × AllContent ys
AllContent-append [] ys h = (tt, h)
AllContent-append (x ∷ xs) ys h = let (p, q) = AllContent-append xs ys h.1 in ((h.0, p), q)

collect_all : Section → List JsString → Block → Block
collect_all section [] b = b
collect_all section (l ∷ ls) b = collect_all section ls (collect section l b)

parse_content :
    (section : Section) (ls rest : List JsString) (b : Block)
    → AllContent ls
    → parse_loop (ls ++ rest) (inside section b)
      ≡ parse_loop rest (inside section (collect_all section ls b))
unfolding parse_loop collect_all
parse_content section [] rest b h = refl
parse_content section (l ∷ ls) rest b h =
    rw (h.0.no_base, h.0.no_sep, h.0.no_theirs, parse_loop)
      (parse_content section ls rest (collect section l b) h.1)

collect_all_lem :
    (section : Section) (ls : List JsString) (b : Block)
    → collect_all section ls b ≡ (
        let x : Block = elim section [
          | ours_section ↦ record { ours = b.ours ++ ls; base = b.base; theirs = b.theirs }
          | base_section ↦ record { ours = b.ours; base = b.base ++ ls; theirs = b.theirs }
          | theirs_section ↦ record { ours = b.ours; base = b.base; theirs = b.theirs ++ ls }
        ] in
        x)
unfolding collect_all collect
collect_all_lem ours_section [] b = cc (append-nil b.ours)
collect_all_lem base_section [] b = cc (append-nil b.base)
collect_all_lem theirs_section [] b = cc (append-nil b.theirs)
collect_all_lem ours_section (l ∷ ls) b =
    cc (collect_all_lem ours_section ls (collect ours_section l b), append_assoc b.ours (l ∷ []) ls)
collect_all_lem base_section (l ∷ ls) b =
    cc (collect_all_lem base_section ls (collect base_section l b), append_assoc b.base (l ∷ []) ls)
collect_all_lem theirs_section (l ∷ ls) b = cc (
  collect_all_lem theirs_section ls (collect theirs_section l b),
  append_assoc b.theirs (l ∷ []) ls,
)

abbrev pub block_of : ConflictChunk → Block
block_of c = record { ours = c.local; base = c.ancestor; theirs = c.remote }

-- The three sides of a chunk hold no marker lines.
abbrev pub ChunkContent : ConflictChunk → Type 0
ChunkContent c = AllContent c.local × AllContent c.ancestor × AllContent c.remote

-- A rendered block is parsed to the sides of its chunk.
pub parse-render_marker_block :
    (c : ConflictChunk) (rest acc : List JsString)
    → ChunkContent c
    → parse_loop (render_marker_block c ++ rest) (outside acc)
      ≡ flush_clean acc (conflict (block_of c) ∷ parse_loop rest (outside []))
unfolding parse_loop render_marker_block starts_with
parse-render_marker_block c rest acc (hl, ha, hr) =
    rw
      (
        append_assoc c.local,
        parse_content ours_section c.local _ _ hl,
        collect_all_lem ours_section c.local empty_block,
      )
      (rw
        (
          append_assoc c.ancestor,
          parse_content base_section c.ancestor _ _ ha,
          collect_all_lem base_section c.ancestor,
        )
        (rw (
          append_assoc c.remote,
          parse_content theirs_section c.remote _ _ hr,
          collect_all_lem theirs_section c.remote,
        )))

pub resolve-flush_clean :
    (r : ℕ → Option ConflictResolution) (n : ℕ) (acc : List JsString) (rest : List Segment)
    → resolve_segments r n (flush_clean acc rest) ≡ acc ++ resolve_segments r n rest
unfolding resolve_segments
resolve-flush_clean r n [] rest = refl
resolve-flush_clean r n (x ∷ acc) rest = refl
