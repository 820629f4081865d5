-- ===== src/ServerSync/Tests.antt =====
-- A concrete run of `pullAll` of src/network/server-sync.ts: three operations in pages of two.
use opsblobs_obsidian.Base.{
  ℕ, ◌<◌, ◌≡◌, refl, JsString, true, false, Option, some, [], ◌∷◌, arith, length, codes, suc,
}
use opsblobs_obsidian.FakeServer.{OpRecord, FakeSyncServer, after_seq, last_seq, pull_ops}
use opsblobs_obsidian.ServerSync.{pulled, pull_all}
use opsblobs_obsidian.ServerSync.Pull.{opened, pull_all-Drains}

abbrev logged : ℕ → JsString → OpRecord
logged n text = record { seq = n; device_id = []; ts = 0; ciphertext = text; blob_refs = [] }

abbrev server : FakeSyncServer
server = record {
  log =
      logged 1 (codes "a")
      ∷ logged 2 (codes "b")
      ∷ logged 3 (codes "c")
      ∷ logged 4 (codes "d")
      ∷ [];
  blobs = [];
  by_client_op_id = [];
  seq = 4;
  claimed = true;
}

-- A cipher that shifts each code unit.
abbrev shift : JsString → JsString
shift [] = []
shift (c ∷ cs) = suc c ∷ shift cs

abbrev decrypt : JsString → Option JsString
decrypt text = some (shift text)

abbrev plain : OpRecord → JsString
plain o = shift o.ciphertext

three_left : length (after_seq 1 server.log) < 4
unfolding after_seq
three_left = omega arith

pull_all-Drains_example :
    pull_all pull_ops decrypt (λ n. false) 2 4 1 server
    ≡ pulled (opened decrypt plain (after_seq 1 server.log)) (last_seq 1 (after_seq 1 server.log))
pull_all-Drains_example =
    pull_all-Drains decrypt plain (λ n. false) 2 (λ n. refl) (omega arith) 4 1 server
      (refl, (refl, (refl, (refl, tt)))) (refl, (refl, (refl, (refl, tt)))) three_left
