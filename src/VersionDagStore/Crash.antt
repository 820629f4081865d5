-- ===== src/VersionDagStore/Crash.antt =====
-- A crash in `compact` of src/network/version-dag-store.ts.
use mathlib.Core.Path.{subst}
use opsblobs_obsidian.Base.{
  ◌≡◌, refl, sym, ap, ◌∙◌, inl, inr, JsString, Option, none, some, List, [], ◌∷◌, Option-cases,
}
use opsblobs_obsidian.Lines.{split_lf}
use opsblobs_obsidian.Dag.{VersionDag}
use opsblobs_obsidian.Metadata.{MetadataStore, read}
use opsblobs_obsidian.VersionDagStore.{
  snapshot_path, RawEdge, DagJson, add_edge, load_snapshot, replay_line, replay_lines, load,
  write_snapshot,
}
use opsblobs_obsidian.VersionDagStore.Replay.{
  KnowsRaw, KnowsRaw-same, KnowsRaw-added, KnowsRaw-kept,
}
use opsblobs_obsidian.VersionDagStore.Recorded.{
  IsRecorded, add_edge-IsRecorded, add_edges-IsRecorded,
}
use opsblobs_obsidian.VersionDagStore.Files.{
  journal_of, load_lem, replay_text, load_snapshot-written, journal-written,
}

module _ (json : DagJson) where
  load_snapshot-IsRecorded : (store : MetadataStore) → IsRecorded (load_snapshot json store)
  unfolding load_snapshot
  load_snapshot-IsRecorded store = elim (Option-cases (read store snapshot_path)) [
    | inl e ↦ rw (e, load_snapshot) (tt, tt)
    | inr (raw, e) ↦ elim (Option-cases (json.parse_snapshot raw)) [
      | inl f ↦ rw (e, f, load_snapshot) (tt, tt)
      | inr (recs, f) ↦ rw (e, f, load_snapshot) (add_edges-IsRecorded recs [] (tt, tt))
    ]
  ]

  -- The record that a line holds, if any.
  line_edge : JsString → Option RawEdge
  line_edge [] = none
  line_edge (c ∷ line) = json.parse_edge (c ∷ line)

  replay_line_lem :
      (line : JsString) (dag : VersionDag)
      → replay_line json line dag
        ≡ elim (line_edge line) as (λ _. VersionDag) [ none ↦ dag | some rec ↦ add_edge rec dag ]
  unfolding replay_line line_edge
  replay_line_lem [] dag = refl
  replay_line_lem (c ∷ line) dag = refl

  replay_lines-IsRecorded :
      (lines : List JsString) (dag : VersionDag)
      → IsRecorded dag
      → IsRecorded (replay_lines json lines dag)
  unfolding replay_lines
  replay_lines-IsRecorded [] dag h = h
  replay_lines-IsRecorded (line ∷ lines) dag h =
      replay_lines-IsRecorded lines (replay_line json line dag) (one (line_edge line) refl)
    where
      one : (o : Option RawEdge) → line_edge line ≡ o → IsRecorded (replay_line json line dag)
      one none e = rw (replay_line_lem line dag, e) h
      one (some rec) e = rw (replay_line_lem line dag, e) (add_edge-IsRecorded rec dag h)

  pub load-IsRecorded : (store : MetadataStore) → IsRecorded (load json store)
  load-IsRecorded store = rw (load_lem json store) (
      replay_lines-IsRecorded (split_lf (journal_of store)) (load_snapshot json store)
        (load_snapshot-IsRecorded store))

  -- The graph knows what each of the lines says.
  abbrev KnowsLine : VersionDag → JsString → Type 0
  KnowsLine dag line = (rec : RawEdge) → line_edge line ≡ some rec → KnowsRaw dag rec

  abbrev KnowsAll : VersionDag → List JsString → Type 0
  KnowsAll dag [] = Unit
  KnowsAll dag (line ∷ lines) = KnowsLine dag line × KnowsAll dag lines

  KnowsLine-replay :
      (lines : List JsString) (dag : VersionDag) (line : JsString)
      → KnowsLine dag line
      → KnowsLine (replay_lines json lines dag) line
  unfolding replay_lines
  KnowsLine-replay [] dag line k = k
  KnowsLine-replay (other ∷ lines) dag line k =
      KnowsLine-replay lines (replay_line json other dag) line (one (line_edge other) refl)
    where
      one : (o : Option RawEdge) → line_edge other ≡ o → KnowsLine (replay_line json other dag) line
      one none e = rw (replay_line_lem other dag, e) k
      one (some rec) e =
          rw (replay_line_lem other dag, e) (λ mine f. KnowsRaw-kept dag mine rec (k mine f))

  KnowsLine-own : (line : JsString) (dag : VersionDag) → KnowsLine (replay_line json line dag) line
  KnowsLine-own line dag rec e = rw (replay_line_lem line dag, e) (KnowsRaw-added dag rec)

  KnowsAll-replay :
      (lines : List JsString) (dag : VersionDag) → KnowsAll (replay_lines json lines dag) lines
  unfolding replay_lines
  KnowsAll-replay [] dag = tt
  KnowsAll-replay (line ∷ lines) dag = (
    KnowsLine-replay lines (replay_line json line dag) line (KnowsLine-own line dag),
    KnowsAll-replay lines (replay_line json line dag),
  )

  replay_known :
      (lines : List JsString) (dag : VersionDag)
      → KnowsAll dag lines
      → replay_lines json lines dag ≡ dag
  unfolding replay_lines
  replay_known [] dag k = refl
  replay_known (line ∷ lines) dag k =
      ap (replay_lines json lines) (one (line_edge line) refl) ∙ replay_known lines dag k.1
    where
      one : (o : Option RawEdge) → line_edge line ≡ o → replay_line json line dag ≡ dag
      one none e = rw (replay_line_lem line dag, e) refl
      one (some rec) e = replay_line_lem line dag ∙ (rw e (KnowsRaw-same dag rec (k.0 rec e)))

  -- Whatever the two files hold, a crash of `compact` after it has written the loaded graph as the
  -- snapshot and before it has removed the journal leaves files that load as the same graph: replaying
  -- the journal once more changes nothing.
  pub load-write_snapshot :
      (store : MetadataStore)
      → load json (write_snapshot json (load json store) store) ≡ load json store
  load-write_snapshot store =
      let dag : VersionDag = load json store in
      let lines : List JsString = split_lf (journal_of store) in
      let known : KnowsAll dag lines =
        subst (λ (d : VersionDag). KnowsAll d lines) (sym (load_lem json store))
          (KnowsAll-replay lines (load_snapshot json store)) in
      load_lem json (write_snapshot json dag store)
      ∙ ap
          (λ (text : JsString).
            replay_text json text (load_snapshot json (write_snapshot json dag store)))
          (journal-written json dag store)
      ∙ ap (replay_lines json lines) (load_snapshot-written json dag store (load-IsRecorded store))
      ∙ replay_known lines dag known
