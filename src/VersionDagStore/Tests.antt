-- ===== src/VersionDagStore/Tests.antt =====
-- Concrete runs of the store of the version graph.
use opsblobs_obsidian.Base.{
  ◌≡◌, refl, inl, JsString, Option, none, some, List, [], ◌∷◌, codes, contains, str_dec, lookup,
}
use opsblobs_obsidian.Lines.{IsWhole}
use opsblobs_obsidian.Dag.{VersionDag, fresh_node}
use opsblobs_obsidian.Metadata.{MetadataStore, read}
use opsblobs_obsidian.Formats.{
  Format, texts, pairs, lists, via, write_text, read_text, split_lf-shift, text_law, text_nonempty,
}
use opsblobs_obsidian.VersionDagStore.{
  EdgeRecord, RawEdge, DagJson, raw_edge, map_raw, to_json, journal_path, add_edges, load,
  append_edges, compact, write_snapshot,
}
use opsblobs_obsidian.VersionDagStore.Files.{journal_of, load-append_edges, load-compact}
use opsblobs_obsidian.VersionDagStore.Crash.{load-write_snapshot}

abbrev EdgeFields : Type 0
EdgeFields = (JsString × List JsString) × (JsString × JsString)

edges_format : Format EdgeRecord
edges_format =
    via (pairs (pairs texts (lists texts)) (pairs texts texts))
      (λ (q : EdgeFields). record { v = q.0.0; p = q.0.1; c = q.1.0; f = q.1.1 })
      (λ e. ((e.v, e.p), (e.c, e.f))) (λ e. refl)

parsed_edge : Option EdgeRecord → Option RawEdge
parsed_edge none = none
parsed_edge (some e) = some (raw_edge e)

parsed_edges : Option (List EdgeRecord) → Option (List RawEdge)
parsed_edges none = none
parsed_edges (some es) = some (map_raw es)

edge_law :
    (e : EdgeRecord)
    → parsed_edge (read_text edges_format (write_text edges_format e)) ≡ some (raw_edge e)
unfolding parsed_edge
edge_law e = rw (text_law edges_format e) refl

snapshot_law :
    (es : List EdgeRecord)
    → parsed_edges (read_text (lists edges_format) (write_text (lists edges_format) es))
      ≡ some (map_raw es)
unfolding parsed_edges
snapshot_law es = rw (text_law (lists edges_format) es) refl

json : DagJson
unfolding write_text
json = record {
  edge_text = write_text edges_format;
  parse_edge = λ s. parsed_edge (read_text edges_format s);
  snapshot_text = write_text (lists edges_format);
  parse_snapshot = λ s. parsed_edges (read_text (lists edges_format) s);
  parse_edge-edge_text = edge_law;
  one_line = λ e. split_lf-shift (0 ∷ edges_format.print e);
  edge_text_nonempty = text_nonempty edges_format;
  parse_snapshot-snapshot_text = λ dag unique. snapshot_law (to_json dag);
}

abbrev first_edge : EdgeRecord
first_edge = record { v = codes "v1"; p = []; c = codes "h1"; f = codes "u1" }

abbrev second_edge : EdgeRecord
second_edge = record { v = codes "v2"; p = codes "v1" ∷ []; c = codes "h2"; f = codes "u1" }

load-append_edges_example :
    (load json (append_edges json (first_edge ∷ second_edge ∷ []) [])
      ≡ add_edges (map_raw (first_edge ∷ second_edge ∷ [])) (load json []))
    × IsWhole (journal_of (append_edges json (first_edge ∷ second_edge ∷ []) []))
unfolding read lookup
load-append_edges_example = load-append_edges json (first_edge ∷ second_edge ∷ []) [] (inl refl)

abbrev graph : VersionDag
graph =
    (codes "v1", fresh_node (codes "h1") (codes "u1"))
    ∷ (
      codes "v2",
      record { parents = codes "v1" ∷ []; content_hash = codes "h2"; file_id = codes "u1" },
    )
    ∷ []

-- An old journal is there.
abbrev old_files : MetadataStore
old_files = (journal_path, 65 ∷ 10 ∷ []) ∷ []

load-compact_example : load json (compact json graph old_files) ≡ graph
unfolding lookup str_dec contains
load-compact_example =
    load-compact json graph old_files ((refl, (refl, tt)), ((tt, refl), (((refl, tt), refl), tt)))

load-write_snapshot_example :
    load json (write_snapshot json (load json old_files) old_files) ≡ load json old_files
load-write_snapshot_example = load-write_snapshot json old_files
