-- ===== src/VersionDagStore.antt =====
-- src/network/version-dag-store.ts with `toJSON` and `fromJSON` of src/core/version-dag.ts: the graph as
-- a snapshot and an append-only journal of edges. `JSON` on the two kinds of text is a parameter; a text
-- that `JSON.parse` refuses is `none`. A field of a parsed object that has not the type that the code
-- tests for is `none`. An object lists its keys in the order in which they were set, as JavaScript does
-- for keys that are no array indices. `ensureDir` changes nothing that the store shows.
pub mod Replay
pub mod Recorded
pub mod Files
pub mod Crash
mod Tests
use opsblobs_obsidian.Base.{
  ℕ, ◌+◌, ◌≡◌, ◌≢◌, JsString, Bool, true, false, Option, none, some, List, [], ◌∷◌, ◌++◌, leb,
  if◌then◌else◌, codes, HasUniqueKeys,
}
use opsblobs_obsidian.Lines.{split_lf}
use opsblobs_obsidian.Dag.{VersionDag, VersionNode, add_version}
use opsblobs_obsidian.Metadata.{MetadataStore, read, write, append, remove_existing}

abbrev pub snapshot_path : JsString
snapshot_path = codes ".opsblobs/version-dag.json"

abbrev pub journal_path : JsString
journal_path = codes ".opsblobs/version-dag.log"

abbrev pub compact_threshold : ℕ
compact_threshold = 500

pub record EdgeRecord : Type 0 where
  pub v : JsString
  pub p : List JsString
  pub c : JsString
  pub f : JsString

-- A parsed journal line, or a parsed node of the snapshot, whose `v` is its key.
pub record RawEdge : Type 0 where
  pub v : Option JsString
  pub p : Option (List (Option JsString))
  pub c : Option JsString
  pub f : Option JsString

abbrev pub all_some : List JsString → List (Option JsString)
all_some [] = []
all_some (s ∷ ss) = some s ∷ all_some ss

abbrev pub raw_edge : EdgeRecord → RawEdge
raw_edge e = record { v = some e.v; p = some (all_some e.p); c = some e.c; f = some e.f }

-- `toJSON`: an edge for each node.
unfoldable pub to_json : VersionDag → List EdgeRecord
to_json [] = []
to_json ((v, node) ∷ dag) =
    record { v = v; p = node.parents; c = node.content_hash; f = node.file_id } ∷ to_json dag

abbrev pub map_raw : List EdgeRecord → List RawEdge
map_raw [] = []
map_raw (e ∷ es) = raw_edge e ∷ map_raw es

-- `JSON.stringify` and `JSON.parse` on an edge and on a snapshot.
pub record DagJson : Type 0 where
  pub edge_text : EdgeRecord → JsString
  pub parse_edge : JsString → Option RawEdge
  pub snapshot_text : List EdgeRecord → JsString
  pub parse_snapshot : JsString → Option (List RawEdge)
  pub parse_edge-edge_text : (e : EdgeRecord) → parse_edge (edge_text e) ≡ some (raw_edge e)
  pub one_line : (e : EdgeRecord) → split_lf (edge_text e) ≡ edge_text e ∷ []
  pub edge_text_nonempty : (e : EdgeRecord) → edge_text e ≢ []
  -- on the objects that `toJSON` builds
  pub parse_snapshot-snapshot_text :
      (dag : VersionDag)
      → HasUniqueKeys dag
      → parse_snapshot (snapshot_text (to_json dag)) ≡ some (map_raw (to_json dag))

unfoldable pub strings_only : List (Option JsString) → List JsString
strings_only [] = []
strings_only (none ∷ ss) = strings_only ss
strings_only (some s ∷ ss) = s ∷ strings_only ss

abbrev pub parents_or_none : Option (List (Option JsString)) → List JsString
parents_or_none none = []
parents_or_none (some ss) = strings_only ss

abbrev pub string_or_empty : Option JsString → JsString
string_or_empty none = []
string_or_empty (some s) = s

-- `if (rec && typeof rec.v === 'string') dag.addVersion(…)`
unfoldable pub add_edge : RawEdge → VersionDag → VersionDag
unfolding strings_only add_version
add_edge rec dag = elim rec.v [
  | none ↦ dag
  | some v ↦
      (add_version dag v (parents_or_none rec.p) (string_or_empty rec.c) (string_or_empty rec.f)).0
]

-- `fromJSON`
unfoldable pub add_edges : List RawEdge → VersionDag → VersionDag
unfolding add_edge
add_edges [] dag = dag
add_edges (rec ∷ recs) dag = add_edges recs (add_edge rec dag)

module _ (json : DagJson) where
  unfoldable pub load_snapshot : MetadataStore → VersionDag
  unfolding add_edges
  load_snapshot store = elim (read store snapshot_path) [
    | none ↦ []
    | some raw ↦ elim (json.parse_snapshot raw) [ none ↦ [] | some recs ↦ add_edges recs [] ]
  ]

  -- One line of the journal.
  unfoldable pub replay_line : JsString → VersionDag → VersionDag
  unfolding add_edge
  replay_line [] dag = dag
  replay_line (c ∷ line) dag = elim (json.parse_edge (c ∷ line)) [
    | none ↦ dag
    | some rec ↦ add_edge rec dag
  ]

  unfoldable pub replay_lines : List JsString → VersionDag → VersionDag
  unfolding replay_line
  replay_lines [] dag = dag
  replay_lines (line ∷ lines) dag = replay_lines lines (replay_line line dag)

  -- An absent journal and an empty one are passed over alike.
  unfoldable pub load : MetadataStore → VersionDag
  unfolding load_snapshot replay_lines
  load store = elim (read store journal_path) [
    | none ↦ load_snapshot store
    | some journal ↦ replay_lines (split_lf journal) (load_snapshot store)
  ]

  -- `records.map(r => JSON.stringify(r)).join('\n') + '\n'`
  unfoldable pub edge_lines : List EdgeRecord → JsString
  edge_lines [] = []
  edge_lines (e ∷ es) = json.edge_text e ++ (10 ∷ edge_lines es)

  unfoldable pub append_edges : List EdgeRecord → MetadataStore → MetadataStore
  unfolding edge_lines
  append_edges [] store = store
  append_edges (e ∷ es) store = append store journal_path (edge_lines (e ∷ es))

  -- The first half of `compact`, and the whole of it.
  unfoldable pub write_snapshot : VersionDag → MetadataStore → MetadataStore
  unfolding to_json
  write_snapshot dag store = write store snapshot_path (json.snapshot_text (to_json dag))

  unfoldable pub compact : VersionDag → MetadataStore → MetadataStore
  unfolding write_snapshot
  compact dag store = remove_existing (write_snapshot dag store) journal_path

-- `if (line && ++lines >= COMPACT_THRESHOLD) return true`
unfoldable pub reaches : ℕ → List JsString → ℕ → Bool
reaches threshold [] lines = false
reaches threshold ([] ∷ rest) lines = reaches threshold rest lines
reaches threshold ((c ∷ line) ∷ rest) lines =
    let more = reaches threshold rest (lines + 1) in
    if leb threshold (lines + 1) then true else more

unfoldable pub should_compact : MetadataStore → Bool
unfolding reaches
should_compact store = elim (read store journal_path) [
  | none ↦ false
  | some journal ↦ reaches compact_threshold (split_lf journal) 0
]

unfoldable pub clear : MetadataStore → MetadataStore
clear store = remove_existing (remove_existing store snapshot_path) journal_path
