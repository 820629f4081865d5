-- ===== src/Lib.antt =====
-- A verification library for the sync plugin in src/: its decision logic, from clocks and version
-- history to the merge of two vaults, with the theorems that make it correct.
--
-- The program. Each device keeps a vault of files and records every change as an operation with a
-- hybrid logical timestamp (src/core/hlc.ts, src/core/operations.ts). The ids of the operations are
-- the versions of a file, and their parent links form a graph (src/core/version-dag.ts). A sync round
-- pulls the peers' operations, builds a local and a remote vault state (src/types.ts), and asks
-- src/merge/state-merge.ts for one action for each file: adopt, merge, delete, move, keep, or ask the
-- user. Two edited texts are merged line by line against their common base (src/merge/diff3.ts); what
-- overlaps is written into the file with conflict markers, which the user edits away or resolves in a
-- panel (src/core/conflict-inventory.ts lists the files that wait).
--
-- The files.
--   Base        strings as UTF-16 code units, lists over native numbers, `Set` and `Map` as lists in
--               insertion order, signed integers.
--   Hlc         src/core/hlc.ts. Order: `hlcCompare`. Clock: histories of a clock. Text: the string
--               form and its parser.
--   Dag         src/core/version-dag.ts, a list of nodes by id. Walk: what the walks visit. Reach:
--               ancestry as a relation. Ancestor, MergeBase, Prune, Leaves, Record: the operations.
--               Content: `reachableContentHashes`. Queue, Generation, Kept: what it returns.
--   Lines       the lines of a text.
--   Diff3       src/merge/diff3.ts. Patience and Diff: the line diff. Merge: the three-way merge.
--               Markers: rendering, recognising, parsing and resolving conflict markers.
--   Vault       the records and actions of src/types.ts.
--   StateMerge  src/merge/state-merge.ts. Heads: the helpers. Content: `resolveContentConflict`.
--               Collision: `resolveCreateCollision`. Classify: `classifyAndResolve` and
--               `mergeVaultStates`. Adoption, Deletion, MergeNodes, Convergence, Collisions,
--               Totality: proofs.
--   Operations  src/core/operations.ts.
--   Metadata    the store of texts under `.opsblobs` (the port src/ports/metadata-store.ts).
--   FileRegistry  src/core/file-registry.ts. The parent has the state, the journal, load, flush and
--               compact; Mutations, Reconcile and Queries the other operations. Journal, Durable,
--               Saving, Editing, Syncing, Loading: the files against the memory. Index, Indexing,
--               Adopting, Rebuilding: the path index. Sessions, Calls, Interrupted, Reachable:
--               calls, restarts and crashes as steps. Tombstones, Tracking, Torn: single
--               operations. KeepSet: `referencedHashes`, and in Needed what it keeps. Codec: a
--               concrete JSON for the runs.
--   VersionSweep  `sweepVersionDag` of src/main.ts.
--   VersionDagStore  src/network/version-dag-store.ts, with `toJSON` and `fromJSON` of the graph.
--               Replay: what replaying edges does. Recorded: graphs and their edges. Files: the two
--               files against the graph. Crash: a compaction that is cut off.
--   FakeServer  src/network/fake-server.ts, with the server's types of src/network/server-sync.ts.
--               Log: numbering and blobs. Retry: requests in any order, appends sent again.
--   ServerSync  `pullAll` of src/network/server-sync.ts. Pages: the log in pages. Pull: the
--               loop against the log.
--   Formats     texts made of texts, pairs and lists, as a concrete JSON for the runs.
--   ConflictInventory, PackCheckpoint, ExclusionPolicy: the files of those names in src/core.
--
-- Correspondence. A function, method or branch has the source's name in snake_case. A mutable object
-- is a record that its methods take and return; a `Map` is an association list; `null`, `undefined`
-- and a missing field are `none`, and the places that test a string as a condition treat the empty
-- string as the source does. A `TypeError` of the engine is `err type_error`.
--
-- Fuel. A walk of the version graph pops a version once for each time it was pushed, so the length of
-- the stack and the number of edges are enough. The digits of a number take fuel above the number.
-- The recursion of the line diff takes one more than the number of lines of the old text, since each
-- anchor line shortens its ranges, and the searches of the patience diff the length of the list that
-- they search; running out would be the error `out_of_fuel`, apart from `type_error`. The generations of
-- `reachableContentHashes` take two more than the number of edges, since each one that is not empty has
-- versions that no earlier one had. The pages of `pullAll` take one more than the operations to pull.
--
-- Parameters: the wall clock's reading; the codec between bytes and text; the digest of a merge id;
-- the content store and the caller's writes of a pack checkpoint; `JSON` on the texts of the registry;
-- the new UUIDs, the listing of the vault and the time of a compaction; `JSON` on the edges and the
-- snapshot of the graph; the transport, the decryption and the cancellation token of `pullAll`.
--
-- Not modelled: numbers beyond 2 ^ 53; what runs while an operation of the registry awaits the store;
-- the operation logger, the content store, the rest of the sync round with its applicator and
-- coordinator, and the stores of the cursor, the clock, the binding and the sync state; HTTP,
-- encryption, the host application's API and the user interface, which are input and output.
pub mod Base
pub mod Hlc
pub mod Dag
pub mod Lines
pub mod Diff3
pub mod Vault
pub mod StateMerge
pub mod Operations
pub mod ConflictInventory
pub mod PackCheckpoint
pub mod Metadata
pub mod Formats
pub mod FileRegistry
pub mod FakeServer
pub mod ServerSync
pub mod VersionSweep
pub mod VersionDagStore
pub mod ExclusionPolicy
