-- ===== src/FakeServer.antt =====
-- src/network/fake-server.ts: the in-memory sync server, the contract that the client relies on. The
-- state is the class's private fields; `Map`s are association lists. A thrown `MissingBlobError` is an
-- error value that comes with the state that the throw leaves. `clientOpId`, `ciphertext` and hashes are
-- strings, blobs lists of bytes.
pub mod Log
pub mod Retry
mod Tests
use opsblobs_obsidian.Base.{
  ℕ, ◌+◌, ◌*◌, JsString, Bool, true, false, not, Option, none, some, List, [], ◌∷◌, ◌++◌, ltb, leb,
  if◌then◌else◌, length, take, lookup, insert,
}
use opsblobs_obsidian.Dag.{truthy}
use opsblobs_obsidian.Vault.{Bytes}
use opsblobs_obsidian.Metadata.{is_some}

pub record OpRecord : Type 0 where
  pub seq : ℕ
  pub device_id : JsString
  pub ts : ℕ
  pub ciphertext : JsString
  pub blob_refs : List JsString

pub record AppendOp : Type 0 where
  pub client_op_id : JsString
  pub ciphertext : JsString
  pub blob_refs : List JsString

pub record BlobUpload : Type 0 where
  pub hash : JsString
  pub bytes : Bytes

pub record FakeSyncServer : Type 0 where
  pub log : List OpRecord
  pub blobs : List (JsString × Bytes)
  pub by_client_op_id : List (JsString × ℕ)
  pub seq : ℕ
  pub claimed : Bool

-- The initial values of the fields.
abbrev pub new_server : FakeSyncServer
new_server = record { log = []; blobs = []; by_client_op_id = []; seq = 0; claimed = false }

unfoldable pub claim : FakeSyncServer → FakeSyncServer
claim s = record s { claimed = true }

pub record PullOpsResult : Type 0 where
  pub ops : List OpRecord
  pub next_cursor : ℕ
  pub has_more : Bool

-- `this.log.filter(o => o.seq > since)`
unfoldable pub after_seq : ℕ → List OpRecord → List OpRecord
after_seq since [] = []
after_seq since (o ∷ log) =
    let rest = after_seq since log in if ltb since o.seq then o ∷ rest else rest

unfoldable pub last_seq : ℕ → List OpRecord → ℕ
last_seq since [] = since
last_seq since (o ∷ ops) = last_seq o.seq ops

unfoldable pub pull_ops : ℕ → ℕ → FakeSyncServer → FakeSyncServer × PullOpsResult
unfolding after_seq last_seq claim
pull_ops since limit s =
    let after : List OpRecord = after_seq since s.log in
    let ops : List OpRecord = take limit after in
    (
      claim s,
      record {
        ops = ops;
        next_cursor = last_seq since ops;
        has_more = ltb (length ops) (length after);
      },
    )

pub data AppendResult : Type 0 where
  -- the assigned sequence numbers, the head cursor
  appended : List (JsString × ℕ) → ℕ → AppendResult
  missing_blob : JsString → AppendResult

-- The first blob reference that is not stored.
unfoldable pub first_missing : List (JsString × Bytes) → List JsString → Option JsString
first_missing blobs [] = none
first_missing blobs (ref ∷ refs) =
    let rest = first_missing blobs refs in if is_some (lookup ref blobs) then rest else some ref

-- A new op under the next sequence number.
unfoldable pub push_op : AppendOp → FakeSyncServer → FakeSyncServer
push_op op s = record s {
  seq = s.seq + 1;
  log =
      s.log
      ++ (record {
        seq = s.seq + 1;
        device_id = [];
        ts = 0;
        ciphertext = op.ciphertext;
        blob_refs = op.blob_refs;
      }
          ∷ []);
  by_client_op_id = insert op.client_op_id (s.seq + 1) s.by_client_op_id;
}

-- The loop of `appendOps`, with what is assigned so far.
unfoldable pub append_loop :
    List AppendOp → List (JsString × ℕ) → FakeSyncServer → FakeSyncServer × AppendResult
unfolding first_missing push_op
append_loop [] assigned s = (s, appended assigned s.seq)
append_loop (op ∷ ops) assigned s = elim (lookup op.client_op_id s.by_client_op_id) [
  | some prior ↦ append_loop ops (assigned ++ ((op.client_op_id, prior) ∷ [])) s
  | none ↦ elim (first_missing s.blobs op.blob_refs) [
    | some ref ↦ (s, missing_blob ref)
    | none ↦ append_loop ops (assigned ++ ((op.client_op_id, s.seq + 1) ∷ [])) (push_op op s)
  ]
]

unfoldable pub append_ops : List AppendOp → FakeSyncServer → FakeSyncServer × AppendResult
unfolding append_loop claim
append_ops ops s = append_loop ops [] (claim s)

unfoldable pub missing_hashes : List (JsString × Bytes) → List JsString → List JsString
missing_hashes blobs [] = []
missing_hashes blobs (h ∷ hashes) =
    let rest = missing_hashes blobs hashes in if is_some (lookup h blobs) then rest else h ∷ rest

unfoldable pub check_blobs : List JsString → FakeSyncServer → FakeSyncServer × List JsString
unfolding missing_hashes claim
check_blobs hashes s = (claim s, missing_hashes s.blobs hashes)

-- `if (!this.blobs.has(hash)) this.blobs.set(hash, bytes)`
unfoldable pub store_blob : BlobUpload → List (JsString × Bytes) → List (JsString × Bytes)
store_blob b blobs = if is_some (lookup b.hash blobs) then blobs else insert b.hash b.bytes blobs

unfoldable pub store_blobs : List BlobUpload → List (JsString × Bytes) → List (JsString × Bytes)
unfolding store_blob
store_blobs [] blobs = blobs
store_blobs (b ∷ bs) blobs = store_blobs bs (store_blob b blobs)

unfoldable pub put_blob : JsString → Bytes → FakeSyncServer → FakeSyncServer
unfolding store_blob claim
put_blob hash bytes s = record (claim s) {
  blobs = store_blob (record { hash = hash; bytes = bytes }) s.blobs;
}

unfoldable pub put_blob_batch : List BlobUpload → FakeSyncServer → FakeSyncServer
unfolding store_blobs claim
put_blob_batch bs s = record (claim s) { blobs = store_blobs bs s.blobs }

unfoldable pub get_blob : JsString → FakeSyncServer → FakeSyncServer × Option Bytes
unfolding claim
get_blob hash s = (claim s, lookup hash s.blobs)

-- The held blobs, each once, and the other hashes in the order of the request. An array of bytes is a
-- true value, the empty one too.
unfoldable pub collect_blobs :
    List (JsString × Bytes)
    → List JsString
    → List (JsString × Bytes)
    → List (JsString × Bytes) × List JsString
collect_blobs blobs [] held = (held, [])
collect_blobs blobs (h ∷ hashes) held =
    let found : Option Bytes = lookup h blobs in
    let rest = collect_blobs blobs hashes (elim found [ none ↦ held | some b ↦ insert h b held ]) in
    (rest.0, if is_some found then rest.1 else h ∷ rest.1)

unfoldable pub get_blob_batch :
    List JsString → FakeSyncServer → FakeSyncServer × (List (JsString × Bytes) × List JsString)
unfolding collect_blobs claim
get_blob_batch hashes s = (claim s, collect_blobs s.blobs hashes [])

abbrev pub keycheck_inline_cap : ℕ
keycheck_inline_cap = 64 * 1024

unfoldable pub inlined : Option Bytes → Option Bytes
inlined none = none
inlined (some bytes) = if leb (length bytes) keycheck_inline_cap then some bytes else none

-- The verdict on the ownership and the key-check record.
unfoldable pub preflight : JsString → FakeSyncServer → Bool × Option Bytes
unfolding inlined
preflight key s =
    if s.claimed
    then (true, inlined (if truthy key then lookup key s.blobs else none))
    else (false, none)
