-- ===== src/VersionDagStore/Files.antt =====
-- The two files of src/network/version-dag-store.ts against the graph that `load` makes of them.
use opsblobs_obsidian.Base.{
  append-nil, ◌≡◌, refl, sym, ap, ◌∙◌, inl, inr, JsString, false, List, [], ◌∷◌, ◌++◌, append_assoc,
  arith, ◌===◌, str_dec, Option-cases,
}
use opsblobs_obsidian.Lines.{IsWhole, split_lf, split_lf-append}
use opsblobs_obsidian.Dag.{VersionDag}
use opsblobs_obsidian.Metadata.{
  MetadataStore, read, append, remove_existing, text_or_empty, read-write, read-append, read-remove,
}
use opsblobs_obsidian.VersionDagStore.{
  snapshot_path, journal_path, EdgeRecord, DagJson, raw_edge, map_raw, to_json, add_edge, add_edges,
  load_snapshot, replay_line, replay_lines, load, edge_lines, append_edges, write_snapshot, compact,
}
use opsblobs_obsidian.VersionDagStore.Recorded.{IsRecorded, from_json-to_json}

paths_differ :
    ((snapshot_path === journal_path) ≡ false) × ((journal_path === snapshot_path) ≡ false)
unfolding str_dec
paths_differ = (refl, refl)

abbrev pub journal_of : MetadataStore → JsString
journal_of store = text_or_empty (read store journal_path)

module _ (json : DagJson) where
  replay_lines-append :
      (xs ys : List JsString) (dag : VersionDag)
      → replay_lines json (xs ++ ys) dag ≡ replay_lines json ys (replay_lines json xs dag)
  unfolding replay_lines
  replay_lines-append [] ys dag = refl
  replay_lines-append (x ∷ xs) ys dag = replay_lines-append xs ys (replay_line json x dag)

  abbrev pub replay_text : JsString → VersionDag → VersionDag
  replay_text text dag = replay_lines json (split_lf text) dag

  replay_text-append :
      (a b : JsString) (dag : VersionDag)
      → replay_text (a ++ (10 ∷ b)) dag ≡ replay_text b (replay_text a dag)
  replay_text-append a b dag =
      rw (split_lf-append a b) (replay_lines-append (split_lf a) (split_lf b) dag)

  replay_text_nil : (dag : VersionDag) → replay_text [] dag ≡ dag
  unfolding split_lf replay_lines replay_line
  replay_text_nil dag = refl

  replay_text-whole :
      (a b : JsString) (dag : VersionDag)
      → IsWhole a
      → replay_text (a ++ b) dag ≡ replay_text b (replay_text a dag)
  replay_text-whole a b dag (inl e) = rw e (rw (replay_text_nil dag) refl)
  replay_text-whole a b dag (inr (body, e)) = rw e (
      rw (append_assoc body (10 ∷ []) b) (
        rw (replay_text-append body b dag, replay_text-append body [] dag)
          (rw (replay_text_nil (replay_text body dag)) refl)))

  pub load_lem :
      (store : MetadataStore)
      → load json store ≡ replay_text (journal_of store) (load_snapshot json store)
  unfolding load
  load_lem store = elim (Option-cases (read store journal_path)) [
    | inl e ↦ rw (e, load) (sym (replay_text_nil (load_snapshot json store)))
    | inr (journal, e) ↦ rw (e, load) refl
  ]

  replay_edge :
      (e : EdgeRecord) (dag : VersionDag)
      → replay_lines json (json.edge_text e ∷ []) dag ≡ add_edge (raw_edge e) dag
  unfolding replay_lines
  replay_edge e dag = text_case (json.edge_text e) refl
    where
      text_case :
          (text : JsString)
          → json.edge_text e ≡ text
          → replay_line json text dag ≡ add_edge (raw_edge e) dag
      text_case [] q = absurd (json.edge_text_nonempty e q)
      text_case (c ∷ text) q = unfold replay_line in (ground (arith, json.parse_edge-edge_text e))

  replay-edge_lines :
      (es : List EdgeRecord) (dag : VersionDag)
      → replay_text (edge_lines json es) dag ≡ add_edges (map_raw es) dag
  unfolding edge_lines add_edges
  replay-edge_lines [] dag = replay_text_nil dag
  replay-edge_lines (e ∷ es) dag =
      rw (replay_text-append (json.edge_text e) (edge_lines json es) dag) (
        rw (json.one_line e)
          (rw (replay_edge e dag) (replay-edge_lines es (add_edge (raw_edge e) dag))))

  snapshot_congr :
      (s t : MetadataStore)
      → read s snapshot_path ≡ read t snapshot_path
      → load_snapshot json s ≡ load_snapshot json t
  unfolding load_snapshot
  snapshot_congr s t e = rw (e, load_snapshot) refl

  snapshot-append :
      (store : MetadataStore) (text : JsString)
      → load_snapshot json (append store journal_path text) ≡ load_snapshot json store
  snapshot-append store text =
      snapshot_congr (append store journal_path text) store
        (ground (arith, read-append store journal_path snapshot_path text, paths_differ))

  journal-append :
      (store : MetadataStore) (text : JsString)
      → journal_of (append store journal_path text) ≡ journal_of store ++ text
  journal-append store text = ground (arith, read-append store journal_path journal_path text)

  edge_lines-IsWhole : (es : List EdgeRecord) → IsWhole (edge_lines json es)
  unfolding edge_lines
  edge_lines-IsWhole [] = inl refl
  edge_lines-IsWhole (e ∷ es) = elim (edge_lines-IsWhole es) [
    | inl q ↦ inr (json.edge_text e, rw q refl)
    | inr (body, q) ↦ inr (
      json.edge_text e ++ (10 ∷ body),
      rw q (sym (append_assoc (json.edge_text e) (10 ∷ body) (10 ∷ []))),
    )
  ]

  IsWhole-append : (a b : JsString) → IsWhole a → IsWhole b → IsWhole (a ++ b)
  IsWhole-append a b h (inl q) = rw (q, append-nil a) h
  IsWhole-append a b h (inr (body, q)) = inr (a ++ body, rw q (sym (append_assoc a body (10 ∷ []))))

  append_edges-IsWhole :
      (es : List EdgeRecord) (store : MetadataStore)
      → IsWhole (journal_of store)
      → IsWhole (journal_of (append_edges json es store))
  unfolding append_edges
  append_edges-IsWhole [] store whole = whole
  append_edges-IsWhole (e ∷ es) store whole = rw (journal-append store (edge_lines json (e ∷ es))) (
      IsWhole-append (journal_of store) (edge_lines json (e ∷ es)) whole
        (edge_lines-IsWhole (e ∷ es)))

  load_appended :
      (es : List EdgeRecord) (store : MetadataStore)
      → IsWhole (journal_of store)
      → load json (append_edges json es store) ≡ add_edges (map_raw es) (load json store)
  unfolding append_edges
  load_appended [] store whole = unfold add_edges in refl
  load_appended (e ∷ es) store whole =
      let text : JsString = edge_lines json (e ∷ es) in
      rw
        (
          load_lem (append store journal_path text),
          load_lem store,
          snapshot-append store text,
          journal-append store text,
        )
        (replay_text-whole (journal_of store) text (load_snapshot json store) whole
          ∙ replay-edge_lines (e ∷ es) (replay_text (journal_of store) (load_snapshot json store)))

  -- After a journal that is empty or ends with a line feed, loading what `appendEdges` leaves gives the
  -- graph that was on disk with each edge recorded in it, in their order; and the journal then is empty
  -- or ends with a line feed again, so that the next append is read as well.
  pub load-append_edges :
      (es : List EdgeRecord) (store : MetadataStore)
      → IsWhole (journal_of store)
      → (load json (append_edges json es store) ≡ add_edges (map_raw es) (load json store))
        × IsWhole (journal_of (append_edges json es store))
  load-append_edges es store whole =
      (load_appended es store whole, append_edges-IsWhole es store whole)

  pub load_snapshot-written :
      (dag : VersionDag) (store : MetadataStore)
      → IsRecorded dag
      → load_snapshot json (write_snapshot json dag store) ≡ dag
  unfolding load_snapshot write_snapshot
  load_snapshot-written dag store h =
      rw
        (
          read-write store snapshot_path snapshot_path (json.snapshot_text (to_json dag)),
          load_snapshot,
        )
        (ground (arith, json.parse_snapshot-snapshot_text dag h.0, from_json-to_json dag h))

  pub journal-written :
      (dag : VersionDag) (store : MetadataStore)
      → journal_of (write_snapshot json dag store) ≡ journal_of store
  unfolding write_snapshot
  journal-written dag store = ground (
    arith,
    read-write store snapshot_path journal_path (json.snapshot_text (to_json dag)),
    paths_differ,
  )

  -- What `compact` has written is what a later `load` returns, nodes, parents and order, for a graph in
  -- which no version is listed twice, none is its own parent and no parent is listed twice.
  pub load-compact :
      (dag : VersionDag) (store : MetadataStore)
      → IsRecorded dag
      → load json (compact json dag store) ≡ dag
  unfolding compact
  load-compact dag store h =
      let written : MetadataStore = write_snapshot json dag store in
      let emptied : MetadataStore = remove_existing written journal_path in
      let no_journal : journal_of emptied ≡ [] =
        ground (arith, read-remove written journal_path journal_path) in
      let same : load_snapshot json emptied ≡ load_snapshot json written =
        snapshot_congr emptied written
          (ground (arith, read-remove written journal_path snapshot_path, paths_differ)) in
      load_lem emptied
      ∙ ap (λ (text : JsString). replay_text text (load_snapshot json emptied)) no_journal
      ∙ replay_text_nil (load_snapshot json emptied)
      ∙ same
      ∙ load_snapshot-written dag store h
