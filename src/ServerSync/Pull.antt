-- ===== src/ServerSync/Pull.antt =====
-- `pullAll` of src/network/server-sync.ts against the log of src/network/fake-server.ts.
use opsblobs_obsidian.Base.{
  ℕ, zero, suc, ◌+◌, ◌<◌, ◌≡◌, ◌≢◌, refl, sym, ap, ◌∙◌, inl, inr, JsString, Bool, true, false, not,
  ◌||◌, Option, some, List, [], ◌∷◌, ◌++◌, append_assoc, append-nil, arith, ltb, length, take, drop,
  Bool-cases,
}
use opsblobs_obsidian.FakeServer.{OpRecord, FakeSyncServer, after_seq, last_seq, pull_ops, claim}
use opsblobs_obsidian.FakeServer.Log.{NumberedFrom}
use opsblobs_obsidian.ServerSync.{PulledOp, pulled, no_ops, decrypt_page, pull_loop, pull_all}
use opsblobs_obsidian.ServerSync.Pages.{
  IsAscending, after_seq-IsAscending, NumberedFrom-IsAscending, after_seq-after_seq, last_seq-ge,
  after_page, last_seq-last_seq, take_or_all, length-drop_less, IsAscending-drop,
}

module _ {Op : Type 0} (decrypt : JsString → Option Op) (plain : OpRecord → Op) where
  abbrev pub opened : List OpRecord → List (PulledOp Op)
  opened [] = []
  opened (o ∷ log) = record { seq = o.seq; op = plain o } ∷ opened log

  -- Each operation can be decrypted.
  abbrev pub AreReadable : List OpRecord → Type 0
  AreReadable [] = Unit
  AreReadable (o ∷ log) = (decrypt o.ciphertext ≡ some (plain o)) × AreReadable log

  opened_pages :
      (n : ℕ) (log : List OpRecord) → opened (take n log) ++ opened (drop n log) ≡ opened log
  opened_pages zero log = refl
  opened_pages (suc n) [] = refl
  opened_pages (suc n) (o ∷ log) =
      ap (◌∷◌ (record { seq = o.seq; op = plain o })) (opened_pages n log)

  AreReadable-take : (n : ℕ) (log : List OpRecord) → AreReadable log → AreReadable (take n log)
  AreReadable-take zero log h = tt
  AreReadable-take (suc n) [] h = tt
  AreReadable-take (suc n) (o ∷ log) h = (h.0, AreReadable-take n log h.1)

  AreReadable-drop : (n : ℕ) (log : List OpRecord) → AreReadable log → AreReadable (drop n log)
  AreReadable-drop zero log h = h
  AreReadable-drop (suc n) [] h = tt
  AreReadable-drop (suc n) (o ∷ log) h = AreReadable-drop n log h.1

  AreReadable-after_seq :
      (since : ℕ) (log : List OpRecord) → AreReadable log → AreReadable (after_seq since log)
  unfolding after_seq
  AreReadable-after_seq since [] h = tt
  AreReadable-after_seq since (o ∷ log) h = ground (arith, AreReadable-after_seq since log h.1)

  module _ (cancelled : ℕ → Bool) (limit : ℕ) (never : (n : ℕ) → cancelled n ≡ false)
      (positive : limit ≢ 0) where
    decrypt_page_all :
        (recs : List OpRecord) (ops : List (PulledOp Op))
        → AreReadable recs
        → decrypt_page pull_ops decrypt cancelled limit recs ops ≡ some (ops ++ opened recs)
    unfolding decrypt_page
    decrypt_page_all [] ops h = ap some (sym (append-nil ops))
    decrypt_page_all (o ∷ recs) ops h =
        rw (h.0, decrypt_page)
          (decrypt_page_all recs (ops ++ (record { seq = o.seq; op = plain o } ∷ [])) h.1
            ∙ ap some (append_assoc ops (record { seq = o.seq; op = plain o } ∷ []) (opened recs)))

    abbrev after : ℕ → FakeSyncServer → List OpRecord
    after cursor s = after_seq cursor s.log

    abbrev ends : List OpRecord → Bool
    ends log = not (ltb (length (take limit log)) (length log)) || no_ops (take limit log)

    last_page :
        (fuel page_number cursor : ℕ) (ops : List (PulledOp Op)) (s : FakeSyncServer)
        → AreReadable (after cursor s)
        → ends (after cursor s) ≡ true
        → pull_loop pull_ops decrypt cancelled limit (suc fuel) page_number cursor ops s
          ≡ pulled (ops ++ opened (after cursor s)) (last_seq cursor (after cursor s))
    unfolding pull_loop pull_ops
    last_page fuel page_number cursor ops s h e =
        let whole = (take_or_all limit (after cursor s) positive e).0 in
        rw
          (
            never page_number,
            decrypt_page_all (take limit (after cursor s)) ops
                (AreReadable-take limit (after cursor s) h),
            e,
            pull_loop,
          )
          (ap (λ (page : List OpRecord). pulled (ops ++ opened page) (last_seq cursor page)) whole)

    abbrev next_cursor_of : ℕ → FakeSyncServer → ℕ
    next_cursor_of cursor s = last_seq cursor (take limit (after cursor s))

    next_page :
        (fuel page_number cursor : ℕ) (ops : List (PulledOp Op)) (s : FakeSyncServer)
        → AreReadable (after cursor s)
        → ends (after cursor s) ≡ false
        → pull_loop pull_ops decrypt cancelled limit (suc fuel) page_number cursor ops s
          ≡ pull_loop pull_ops decrypt cancelled limit fuel
              (page_number + 1)
              (next_cursor_of cursor s)
              (ops ++ opened (take limit (after cursor s)))
              (claim s)
    unfolding pull_loop pull_ops
    next_page fuel page_number cursor ops s h e =
        rw
          (
            never page_number,
            decrypt_page_all (take limit (after cursor s)) ops
                (AreReadable-take limit (after cursor s) h),
            e,
            pull_loop,
          )
          refl

    -- What the next page starts from is what this one left.
    rest_after :
        (cursor : ℕ) (s : FakeSyncServer)
        → IsAscending cursor (after cursor s)
        → after (next_cursor_of cursor s) (claim s) ≡ drop limit (after cursor s)
    unfolding claim
    rest_after cursor s h =
        sym (
          after_seq-after_seq cursor (next_cursor_of cursor s) s.log
            (last_seq-ge cursor limit (after cursor s) h))
        ∙ after_page cursor limit (after cursor s) h

    pull_loop_lem :
        (fuel page_number cursor : ℕ) (ops : List (PulledOp Op)) (s : FakeSyncServer)
        → length (after cursor s) < fuel
        → IsAscending cursor (after cursor s)
        → AreReadable (after cursor s)
        → pull_loop pull_ops decrypt cancelled limit fuel page_number cursor ops s
          ≡ pulled (ops ++ opened (after cursor s)) (last_seq cursor (after cursor s))
    pull_loop_lem zero page_number cursor ops s less asc h = absurd (omega arith)
    pull_loop_lem (suc fuel) page_number cursor ops s less asc h =
        elim (Bool-cases (ends (after cursor s))) [
          | inl e ↦ last_page fuel page_number cursor ops s h e
          | inr e ↦
              let rest = rest_after cursor s asc in
              let page : List OpRecord = take limit (after cursor s) in
              next_page fuel page_number cursor ops s h e
              ∙ pull_loop_lem fuel (page_number + 1) (next_cursor_of cursor s) (ops ++ opened page)
                  (claim s)
                  (omega (
                    arith,
                    ap (λ (l : List OpRecord). length l) rest,
                    length-drop_less limit (after cursor s) positive e,
                    less,
                  ))
                  (rw rest (IsAscending-drop cursor limit (after cursor s) asc))
                  (rw rest (AreReadable-drop limit (after cursor s) h))
              ∙ ap
                  (λ (l : List OpRecord).
                    pulled ((ops ++ opened page) ++ opened l)
                      (last_seq (next_cursor_of cursor s) l))
                  rest
              ∙ joined cursor ops s
        ]
      where
        joined :
            (cursor : ℕ) (ops : List (PulledOp Op)) (s : FakeSyncServer)
            → pulled
                ((ops ++ opened (take limit (after cursor s)))
                  ++ opened (drop limit (after cursor s)))
                (last_seq (next_cursor_of cursor s) (drop limit (after cursor s)))
              ≡ pulled (ops ++ opened (after cursor s)) (last_seq cursor (after cursor s))
        joined cursor ops s =
            rw
              (
                append_assoc ops (opened (take limit (after cursor s)))
                    (opened (drop limit (after cursor s))),
                opened_pages limit (after cursor s),
                last_seq-last_seq cursor limit (after cursor s),
              )
              refl

    -- From a server whose log is numbered from 1, with pages of any positive size, a token that is never
    -- cancelled and a key that reads every operation, the loop ends within one page more than there are
    -- operations after the cursor. It returns exactly those operations, each once and in the order of the
    -- log, and the number of the last one as the new cursor.
    pub pull_all-Drains :
        (fuel start_cursor : ℕ) (s : FakeSyncServer)
        → NumberedFrom 0 s.log
        → AreReadable s.log
        → length (after_seq start_cursor s.log) < fuel
        → pull_all pull_ops decrypt cancelled limit fuel start_cursor s
          ≡ pulled
              (opened (after_seq start_cursor s.log))
              (last_seq start_cursor (after_seq start_cursor s.log))
    unfolding pull_all
    pull_all-Drains fuel start_cursor s numbered h less =
        pull_loop_lem fuel 0 start_cursor [] s less
          (after_seq-IsAscending start_cursor 0 s.log (NumberedFrom-IsAscending 0 s.log numbered))
          (AreReadable-after_seq start_cursor s.log h)
