-- ===== src/ServerSync.antt =====
-- `pullAll` of src/network/server-sync.ts: the loop that pulls the log page by page. The transport, the
-- decryption and the cancellation token (asked before each page, by its number) are parameters. The loop
-- takes fuel, one for each page; running out of it is a result of its own.
mod Pages
pub mod Pull
mod Tests
use opsblobs_obsidian.Base.{
  ℕ, zero, suc, ◌+◌, JsString, Bool, true, false, not, ◌||◌, Option, none, some, List, [], ◌∷◌,
  ◌++◌, if◌then◌else◌,
}
use opsblobs_obsidian.FakeServer.{OpRecord, PullOpsResult}

-- An operation with its sequence number.
pub record PulledOp (Op : Type 0) : Type 0 where
  pub seq : ℕ
  pub op : Op

pub data PullResult (Op : Type 0) : Type 0 where
  -- the operations, the cursor
  pulled : List (PulledOp Op) → ℕ → PullResult Op
  sync_cancelled : PullResult Op
  decrypt_failed : PullResult Op
  out_of_fuel : PullResult Op

abbrev pub no_ops : List OpRecord → Bool
no_ops [] = true
no_ops (o ∷ ops) = false

module _ {S Op : Type 0} (pull : ℕ → ℕ → S → S × PullOpsResult) (decrypt : JsString → Option Op)
    (cancelled : ℕ → Bool) (ops_limit : ℕ) where
  -- The loop over one page, `none` where the decryption fails.
  unfoldable pub decrypt_page : List OpRecord → List (PulledOp Op) → Option (List (PulledOp Op))
  decrypt_page [] ops = some ops
  decrypt_page (rec ∷ recs) ops = elim (decrypt rec.ciphertext) [
    | none ↦ none
    | some op ↦ decrypt_page recs (ops ++ (record { seq = rec.seq; op = op } ∷ []))
  ]

  unfoldable pub pull_loop : ℕ → ℕ → ℕ → List (PulledOp Op) → S → PullResult Op
  unfolding decrypt_page
  pull_loop zero page_number cursor ops s = out_of_fuel
  pull_loop (suc fuel) page_number cursor ops s =
      let answer : S × PullOpsResult = pull cursor ops_limit s in
      let page : PullOpsResult = answer.1 in
      elim (cancelled page_number) [
        | true ↦ sync_cancelled
        | false ↦ elim (decrypt_page page.ops ops) [
          | none ↦ decrypt_failed
          | some all ↦ elim (not page.has_more || no_ops page.ops) [
            | true ↦ pulled all page.next_cursor
            | false ↦ pull_loop fuel (page_number + 1) page.next_cursor all answer.0
          ]
        ]
      ]

  unfoldable pub pull_all : ℕ → ℕ → S → PullResult Op
  unfolding pull_loop
  pull_all fuel start_cursor s = pull_loop fuel 0 start_cursor [] s
