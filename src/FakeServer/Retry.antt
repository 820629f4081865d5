-- ===== src/FakeServer/Retry.antt =====
-- Requests to src/network/fake-server.ts, and appends that are sent again.
use mathlib.Core.Path.{subst}
use opsblobs_obsidian.Base.{
  ℕ, ◌+◌, ◌≡◌, refl, ◌∙◌, inl, inr, JsString, none, some, List, [], ◌∷◌, ◌++◌, arith, length,
  lookup, lookup-insert, Option-cases,
}
use opsblobs_obsidian.Vault.{Bytes}
use opsblobs_obsidian.FakeServer.{
  AppendOp, BlobUpload, FakeSyncServer, AppendResult, appended, missing_blob, new_server, claim,
  first_missing, push_op, append_loop, append_ops, pull_ops, check_blobs, put_blob, put_blob_batch,
  get_blob, get_blob_batch,
}
use opsblobs_obsidian.FakeServer.Log.{
  IsServer, NumberedFrom, HasBlobs, append_ops-IsServer, put_blob-IsServer, put_blob_batch-IsServer,
  new_server-IsServer,
}

pub data Request : Type 0 where
  pull : ℕ → ℕ → Request
  send_ops : List AppendOp → Request
  check : List JsString → Request
  put : JsString → Bytes → Request
  put_batch : List BlobUpload → Request
  get : JsString → Request
  get_batch : List JsString → Request
  ask_preflight : JsString → Request

-- The state that a request leaves.
unfoldable pub serve : Request → FakeSyncServer → FakeSyncServer
unfolding pull_ops append_ops check_blobs put_blob put_blob_batch get_blob get_blob_batch
serve (pull since limit) s = (pull_ops since limit s).0
serve (send_ops ops) s = (append_ops ops s).0
serve (check hashes) s = (check_blobs hashes s).0
serve (put hash bytes) s = put_blob hash bytes s
serve (put_batch bs) s = put_blob_batch bs s
serve (get hash) s = (get_blob hash s).0
serve (get_batch hashes) s = (get_blob_batch hashes s).0
serve (ask_preflight key) s = s

unfoldable pub serve_all : List Request → FakeSyncServer → FakeSyncServer
unfolding serve
serve_all [] s = s
serve_all (q ∷ qs) s = serve_all qs (serve q s)

serve-IsServer : (q : Request) (s : FakeSyncServer) → IsServer s → IsServer (serve q s)
unfolding serve pull_ops check_blobs get_blob get_blob_batch claim
serve-IsServer (pull since limit) s h = record {
  numbered = h.numbered;
  count = h.count;
  stored = h.stored;
}
serve-IsServer (send_ops ops) s h = append_ops-IsServer ops s h
serve-IsServer (check hashes) s h = record {
  numbered = h.numbered;
  count = h.count;
  stored = h.stored;
}
serve-IsServer (put hash bytes) s h = put_blob-IsServer hash bytes s h
serve-IsServer (put_batch bs) s h = put_blob_batch-IsServer bs s h
serve-IsServer (get hash) s h = record { numbered = h.numbered; count = h.count; stored = h.stored }
serve-IsServer (get_batch hashes) s h = record {
  numbered = h.numbered;
  count = h.count;
  stored = h.stored;
}
serve-IsServer (ask_preflight key) s h = h

serve_all-IsServer :
    (qs : List Request) (s : FakeSyncServer) → IsServer s → IsServer (serve_all qs s)
unfolding serve_all
serve_all-IsServer [] s h = h
serve_all-IsServer (q ∷ qs) s h = serve_all-IsServer qs (serve q s) (serve-IsServer q s h)

-- After any requests to a new server, appends that failed on a missing blob included, the operations of
-- the log are numbered from 1 without a gap, the counter is the number of the last one, and each blob
-- that a logged operation names is stored.
pub serve_all-Consistent :
    (qs : List Request)
    → NumberedFrom 0 (serve_all qs new_server).log
      × (length (serve_all qs new_server).log ≡ (serve_all qs new_server).seq)
      × HasBlobs (serve_all qs new_server).blobs (serve_all qs new_server).log
serve_all-Consistent qs =
    let h = serve_all-IsServer qs new_server new_server-IsServer in (h.numbered, h.count, h.stored)

-- Ids that have a sequence number keep it.
abbrev KeepsIds : FakeSyncServer → FakeSyncServer → Type 0
KeepsIds s t =
    (id : JsString) (n : ℕ)
    → lookup id s.by_client_op_id ≡ some n
    → lookup id t.by_client_op_id ≡ some n

push_op-KeepsIds :
    (op : AppendOp) (s : FakeSyncServer)
    → lookup op.client_op_id s.by_client_op_id ≡ none
    → KeepsIds s (push_op op s)
unfolding push_op
push_op-KeepsIds op s fresh id n e =
    ground (arith, lookup-insert op.client_op_id id (s.seq + 1) s.by_client_op_id)

append_loop-KeepsIds :
    (ops : List AppendOp) (assigned : List (JsString × ℕ)) (s : FakeSyncServer)
    → KeepsIds s (append_loop ops assigned s).0
unfolding append_loop
append_loop-KeepsIds [] assigned s id n e = e
append_loop-KeepsIds (op ∷ ops) assigned s id n e =
    elim (Option-cases (lookup op.client_op_id s.by_client_op_id)) [
      | inr (prior, f) ↦
          rw (f, append_loop)
            (append_loop-KeepsIds ops (assigned ++ ((op.client_op_id, prior) ∷ [])) s id n e)
      | inl f ↦ elim (Option-cases (first_missing s.blobs op.blob_refs)) [
        | inr (ref, g) ↦ rw (f, g, append_loop) e
        | inl g ↦
            rw (f, g, append_loop)
              (append_loop-KeepsIds ops (assigned ++ ((op.client_op_id, s.seq + 1) ∷ []))
                (push_op op s) id n (push_op-KeepsIds op s f id n e))
      ]
    ]

module _ (op : AppendOp) (ops : List AppendOp) (assigned : List (JsString × ℕ))
    (s : FakeSyncServer) where
  step_prior :
      (prior : ℕ)
      → lookup op.client_op_id s.by_client_op_id ≡ some prior
      → append_loop (op ∷ ops) assigned s
        ≡ append_loop ops (assigned ++ ((op.client_op_id, prior) ∷ [])) s
  unfolding append_loop
  step_prior prior f = rw (f, append_loop) refl

  step_missing :
      (ref : JsString)
      → lookup op.client_op_id s.by_client_op_id ≡ none
      → first_missing s.blobs op.blob_refs ≡ some ref
      → append_loop (op ∷ ops) assigned s ≡ (s, missing_blob ref)
  unfolding append_loop
  step_missing ref f g = rw (f, g, append_loop) refl

  step_new :
      lookup op.client_op_id s.by_client_op_id ≡ none
      → first_missing s.blobs op.blob_refs ≡ none
      → append_loop (op ∷ ops) assigned s
        ≡ append_loop ops (assigned ++ ((op.client_op_id, s.seq + 1) ∷ [])) (push_op op s)
  unfolding append_loop
  step_new f g = rw (f, g, append_loop) refl

-- The run of an append that succeeded, and a later state that still knows its ids.
abbrev Succeeded : FakeSyncServer × AppendResult → List (JsString × ℕ) → ℕ → FakeSyncServer → Type 0
Succeeded run done head t = (run.1 ≡ appended done head) × KeepsIds run.0 t

own_id :
    (op : AppendOp) (s : FakeSyncServer)
    → lookup op.client_op_id (push_op op s).by_client_op_id ≡ some (s.seq + 1)
unfolding push_op
own_id op s =
    ground (arith, lookup-insert op.client_op_id op.client_op_id (s.seq + 1) s.by_client_op_id)

append_loop_again :
    (ops : List AppendOp) (assigned done : List (JsString × ℕ)) (head : ℕ) (s t : FakeSyncServer)
    → Succeeded (append_loop ops assigned s) done head t
    → append_loop ops assigned t ≡ (t, appended done t.seq)
append_loop_again [] assigned done head s t h =
    unfold append_loop in (last (unfold append_loop in h.0))
  where
    last :
        appended assigned s.seq ≡ appended done head
        → ◌≡◌ {A = FakeSyncServer × AppendResult}
            (t, appended assigned t.seq)
            (t, appended done t.seq)
    last e = cc
append_loop_again (op ∷ ops) assigned done head s t h =
    elim (Option-cases (lookup op.client_op_id s.by_client_op_id)) [
      | inr (prior, f) ↦
          let known =
            h.1 op.client_op_id prior
              (append_loop-KeepsIds (op ∷ ops) assigned s op.client_op_id prior f) in
          step_prior op ops assigned t prior known
          ∙ append_loop_again ops (assigned ++ ((op.client_op_id, prior) ∷ [])) done head s t
              (subst (λ run. Succeeded run done head t) (step_prior op ops assigned s prior f) h)
      | inl f ↦ elim (Option-cases (first_missing s.blobs op.blob_refs)) [
        | inr (ref, g) ↦ absurd (
            clash ref (
              (subst (λ run. Succeeded run done head t) (step_missing op ops assigned s ref f g)
                h).0))
        | inl g ↦
            let h' = subst (λ run. Succeeded run done head t) (step_new op ops assigned s f g) h in
            let next : List (JsString × ℕ) = assigned ++ ((op.client_op_id, s.seq + 1) ∷ []) in
            let known = h'.1 op.client_op_id (s.seq + 1) (
              append_loop-KeepsIds ops next (push_op op s) op.client_op_id (s.seq + 1)
                (own_id op s)) in
            step_prior op ops assigned t (s.seq + 1) known
            ∙ append_loop_again ops next done head (push_op op s) t h'
      ]
    ]
  where
    clash : (ref : JsString) → missing_blob ref ≡ appended done head → ⊥
    clash ref e = cc

serve-KeepsIds : (q : Request) (s : FakeSyncServer) → KeepsIds s (serve q s)
unfolding serve pull_ops check_blobs get_blob get_blob_batch put_blob put_blob_batch append_ops
    claim
serve-KeepsIds (send_ops ops) s id n e = append_loop-KeepsIds ops [] (claim s) id n e
serve-KeepsIds (pull since limit) s id n e = e
serve-KeepsIds (check hashes) s id n e = e
serve-KeepsIds (put hash bytes) s id n e = e
serve-KeepsIds (put_batch bs) s id n e = e
serve-KeepsIds (get hash) s id n e = e
serve-KeepsIds (get_batch hashes) s id n e = e
serve-KeepsIds (ask_preflight key) s id n e = e

serve_all-KeepsIds : (qs : List Request) (s : FakeSyncServer) → KeepsIds s (serve_all qs s)
unfolding serve_all
serve_all-KeepsIds [] s id n e = e
serve_all-KeepsIds (q ∷ qs) s id n e =
    serve_all-KeepsIds qs (serve q s) id n (serve-KeepsIds q s id n e)

-- An append whose answer was lost can be sent again, at once or after any other requests: it assigns the
-- same sequence numbers as the first time, and the log, the blobs and the ids stay as they are.
pub append_ops_again :
    (ops : List AppendOp) (qs : List Request) (done : List (JsString × ℕ)) (head : ℕ)
    (s : FakeSyncServer)
    → (append_ops ops s).1 ≡ appended done head
    → append_ops ops (serve_all qs (append_ops ops s).0) ≡ (
      claim (serve_all qs (append_ops ops s).0),
      appended done (serve_all qs (append_ops ops s).0).seq,
    )
unfolding append_ops claim
append_ops_again ops qs done head s e =
    append_loop_again ops [] done head (claim s) (claim (serve_all qs (append_ops ops s).0))
      (e, serve_all-KeepsIds qs (append_ops ops s).0)
