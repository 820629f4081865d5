-- ===== src/FakeServer/Tests.antt =====
-- Concrete runs of src/network/fake-server.ts.
use opsblobs_obsidian.Base.{◌≡◌, refl, false, List, [], ◌∷◌, length, codes, lookup, insert, str_dec}
use opsblobs_obsidian.FakeServer.{
  AppendOp, FakeSyncServer, appended, missing_blob, new_server, claim, first_missing, push_op,
  append_loop, append_ops,
}
use opsblobs_obsidian.FakeServer.Log.{NumberedFrom, HasBlobs}
use opsblobs_obsidian.FakeServer.Retry.{
  Request, pull, send_ops, put, serve_all, serve_all-Consistent, append_ops_again,
}

abbrev first_op : AppendOp
first_op = record { client_op_id = codes "a"; ciphertext = codes "x"; blob_refs = codes "h" ∷ [] }

abbrev second_op : AppendOp
second_op = record { client_op_id = codes "b"; ciphertext = codes "y"; blob_refs = [] }

abbrev unbacked_op : AppendOp
unbacked_op = record {
  client_op_id = codes "c";
  ciphertext = codes "z";
  blob_refs = codes "g" ∷ [];
}

abbrev stocked : FakeSyncServer
stocked = record {
  log = [];
  blobs = (codes "h", 7 ∷ []) ∷ [];
  by_client_op_id = [];
  seq = 0;
  claimed = false;
}

-- An append that stops in the middle keeps the operations before the missing blob.
abbrev requests : List Request
requests =
    put (codes "h") (7 ∷ []) ∷ send_ops (first_op ∷ unbacked_op ∷ second_op ∷ []) ∷ pull 0 10 ∷ []

serve_all-Consistent_example :
    NumberedFrom 0 (serve_all requests new_server).log
    × (length (serve_all requests new_server).log ≡ (serve_all requests new_server).seq)
    × HasBlobs (serve_all requests new_server).blobs (serve_all requests new_server).log
serve_all-Consistent_example = serve_all-Consistent requests

stops : (append_ops (first_op ∷ unbacked_op ∷ second_op ∷ []) stocked).1 ≡ missing_blob (codes "g")
unfolding append_ops append_loop first_missing push_op claim lookup insert str_dec
stops = refl

numbers :
    (append_ops (first_op ∷ second_op ∷ first_op ∷ []) stocked).1
    ≡ appended ((codes "a", 1) ∷ (codes "b", 2) ∷ (codes "a", 1) ∷ []) 2
unfolding append_ops append_loop first_missing push_op claim lookup insert str_dec
numbers = refl

append_ops_again_example :
    append_ops
      (first_op ∷ second_op ∷ first_op ∷ [])
      (serve_all requests (append_ops (first_op ∷ second_op ∷ first_op ∷ []) stocked).0)
    ≡ (
      claim (serve_all requests (append_ops (first_op ∷ second_op ∷ first_op ∷ []) stocked).0),
      appended
          ((codes "a", 1) ∷ (codes "b", 2) ∷ (codes "a", 1) ∷ [])
          (serve_all requests (append_ops (first_op ∷ second_op ∷ first_op ∷ []) stocked).0).seq,
    )
append_ops_again_example =
    append_ops_again (first_op ∷ second_op ∷ first_op ∷ []) requests
      ((codes "a", 1) ∷ (codes "b", 2) ∷ (codes "a", 1) ∷ []) 2 stocked numbers
