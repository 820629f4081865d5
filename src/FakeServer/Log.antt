-- ===== src/FakeServer/Log.antt =====
-- The log of src/network/fake-server.ts: its numbering, its blobs, and repeated appends.
use opsblobs_obsidian.Base.{
  ℕ, suc, ◌+◌, ◌≡◌, refl, inl, inr, JsString, true, none, List, [], ◌∷◌, ◌++◌, arith, length,
  length-append, lookup, lookup-insert, Option-cases,
}
use opsblobs_obsidian.Vault.{Bytes}
use opsblobs_obsidian.Metadata.{is_some}
use opsblobs_obsidian.FakeServer.{
  OpRecord, AppendOp, BlobUpload, FakeSyncServer, new_server, claim, first_missing, push_op,
  append_loop, append_ops, store_blob, store_blobs, put_blob, put_blob_batch,
}

-- The sequence numbers go up by one from the given one.
abbrev pub NumberedFrom : ℕ → List OpRecord → Type 0
NumberedFrom n [] = Unit
NumberedFrom n (o ∷ log) = (o.seq ≡ suc n) × NumberedFrom (suc n) log

abbrev pub AreStored : List (JsString × Bytes) → List JsString → Type 0
AreStored blobs [] = Unit
AreStored blobs (ref ∷ refs) = (is_some (lookup ref blobs) ≡ true) × AreStored blobs refs

-- Each blob that a logged operation names is there.
abbrev pub HasBlobs : List (JsString × Bytes) → List OpRecord → Type 0
HasBlobs blobs [] = Unit
HasBlobs blobs (o ∷ log) = AreStored blobs o.blob_refs × HasBlobs blobs log

pub record IsServer (s : FakeSyncServer) : Type 0 where
  pub numbered : NumberedFrom 0 s.log
  pub count : length s.log ≡ s.seq
  pub stored : HasBlobs s.blobs s.log

NumberedFrom-snoc :
    (n m : ℕ) (log : List OpRecord) (o : OpRecord)
    → NumberedFrom n log
    → n + length log ≡ m
    → o.seq ≡ suc m
    → NumberedFrom n (log ++ (o ∷ []))
NumberedFrom-snoc n m [] o h e k = (omega arith, tt)
NumberedFrom-snoc n m (x ∷ log) o h e k =
    (h.0, NumberedFrom-snoc (suc n) m log o h.1 (omega arith) k)

HasBlobs-snoc :
    (blobs : List (JsString × Bytes)) (log : List OpRecord) (o : OpRecord)
    → HasBlobs blobs log
    → AreStored blobs o.blob_refs
    → HasBlobs blobs (log ++ (o ∷ []))
HasBlobs-snoc blobs [] o h k = (k, tt)
HasBlobs-snoc blobs (x ∷ log) o h k = (h.0, HasBlobs-snoc blobs log o h.1 k)

first_missing-none :
    (blobs : List (JsString × Bytes)) (refs : List JsString)
    → first_missing blobs refs ≡ none
    → AreStored blobs refs
unfolding first_missing
first_missing-none blobs [] e = tt
first_missing-none blobs (ref ∷ refs) e = ground (arith, first_missing-none blobs refs)

push_op-IsServer :
    (op : AppendOp) (s : FakeSyncServer)
    → first_missing s.blobs op.blob_refs ≡ none
    → IsServer s
    → IsServer (push_op op s)
unfolding push_op
push_op-IsServer op s e h = record {
  numbered = NumberedFrom-snoc 0 s.seq s.log _ h.numbered (omega (arith, h.count)) (omega arith);
  count = omega (
    arith,
    h.count,
    length-append {A = OpRecord} s.log (
        record {
          seq = s.seq + 1;
          device_id = [];
          ts = 0;
          ciphertext = op.ciphertext;
          blob_refs = op.blob_refs;
        }
        ∷ []),
  );
  stored = HasBlobs-snoc s.blobs s.log _ h.stored (first_missing-none s.blobs op.blob_refs e);
}

append_loop-IsServer :
    (ops : List AppendOp) (assigned : List (JsString × ℕ)) (s : FakeSyncServer)
    → IsServer s
    → IsServer (append_loop ops assigned s).0
unfolding append_loop
append_loop-IsServer [] assigned s h = h
append_loop-IsServer (op ∷ ops) assigned s h =
    elim (Option-cases (lookup op.client_op_id s.by_client_op_id)) [
      | inr (prior, e) ↦
          rw (e, append_loop)
            (append_loop-IsServer ops (assigned ++ ((op.client_op_id, prior) ∷ [])) s h)
      | inl e ↦ elim (Option-cases (first_missing s.blobs op.blob_refs)) [
        | inr (ref, f) ↦ rw (e, f, append_loop) h
        | inl f ↦
            rw (e, f, append_loop)
              (append_loop-IsServer ops (assigned ++ ((op.client_op_id, s.seq + 1) ∷ []))
                (push_op op s) (push_op-IsServer op s f h))
      ]
    ]

pub append_ops-IsServer :
    (ops : List AppendOp) (s : FakeSyncServer) → IsServer s → IsServer (append_ops ops s).0
unfolding append_ops claim
append_ops-IsServer ops s h =
    append_loop-IsServer ops [] (claim s)
      (record { numbered = h.numbered; count = h.count; stored = h.stored })

-- A stored blob is never dropped.
abbrev pub KeepsBlobs : List (JsString × Bytes) → List (JsString × Bytes) → Type 0
KeepsBlobs old new = (h : JsString) → is_some (lookup h old) ≡ true → lookup h new ≡ lookup h old

pub store_blob-KeepsBlobs :
    (b : BlobUpload) (blobs : List (JsString × Bytes)) → KeepsBlobs blobs (store_blob b blobs)
unfolding store_blob
store_blob-KeepsBlobs b blobs h e = ground (arith, lookup-insert b.hash h b.bytes blobs)

pub store_blobs-KeepsBlobs :
    (bs : List BlobUpload) (blobs : List (JsString × Bytes))
    → KeepsBlobs blobs (store_blobs bs blobs)
unfolding store_blobs
store_blobs-KeepsBlobs [] blobs h e = refl
store_blobs-KeepsBlobs (b ∷ bs) blobs h e =
    let one = store_blob-KeepsBlobs b blobs h e in
    ground (arith, one, store_blobs-KeepsBlobs bs (store_blob b blobs) h)

AreStored-mono :
    (old new : List (JsString × Bytes)) (refs : List JsString)
    → KeepsBlobs old new
    → AreStored old refs
    → AreStored new refs
AreStored-mono old new [] k h = tt
AreStored-mono old new (ref ∷ refs) k h = (ground (arith, k ref), AreStored-mono old new refs k h.1)

HasBlobs-mono :
    (old new : List (JsString × Bytes)) (log : List OpRecord)
    → KeepsBlobs old new
    → HasBlobs old log
    → HasBlobs new log
HasBlobs-mono old new [] k h = tt
HasBlobs-mono old new (o ∷ log) k h =
    (AreStored-mono old new o.blob_refs k h.0, HasBlobs-mono old new log k h.1)

pub put_blob_batch-IsServer :
    (bs : List BlobUpload) (s : FakeSyncServer) → IsServer s → IsServer (put_blob_batch bs s)
unfolding put_blob_batch claim
put_blob_batch-IsServer bs s h = record {
  numbered = h.numbered;
  count = h.count;
  stored =
      HasBlobs-mono s.blobs (store_blobs bs s.blobs) s.log (store_blobs-KeepsBlobs bs s.blobs)
        h.stored;
}

pub put_blob-IsServer :
    (hash : JsString) (bytes : Bytes) (s : FakeSyncServer)
    → IsServer s
    → IsServer (put_blob hash bytes s)
unfolding put_blob claim
put_blob-IsServer hash bytes s h =
    let b : BlobUpload = record { hash = hash; bytes = bytes } in
    record {
      numbered = h.numbered;
      count = h.count;
      stored =
          HasBlobs-mono s.blobs (store_blob b s.blobs) s.log (store_blob-KeepsBlobs b s.blobs)
            h.stored;
    }

pub new_server-IsServer : IsServer new_server
new_server-IsServer = record { numbered = tt; count = refl; stored = tt }
