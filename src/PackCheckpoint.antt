-- ===== src/PackCheckpoint.antt =====
-- src/core/pack-checkpoint.ts: the cadence at which a bulk pass flushes its packs. The content store
-- and the caller's `persistReferrers` are the parameters: they act on a state of the caller's, and
-- answer false where the source's call rejects, which ends the flush there.
pub mod BlobBeforeOp
mod Tests
use opsblobs_obsidian.Base.{
  ℕ, suc, Bool, true, false, Option, none, some, List, [], ◌∷◌, ltb, if◌then◌else◌,
}

pub record PackFlushTarget (S : Type 0) : Type 0 where
  pub flush_pack : S → S × Bool
  pub clear_mem_cache : S → S

pub record PackCheckpoint : Type 0 where
  pub since : ℕ

abbrev pub pack_checkpoint_every : ℕ
pack_checkpoint_every = 200

module _ {S : Type 0} (target : PackFlushTarget S) (every : ℕ)
    (persist_referrers : Option (S → S × Bool)) where
  open target use {flush_pack, clear_mem_cache}

  unfoldable pub persist : S → S × Bool
  persist s = elim persist_referrers [ none ↦ (s, true) | some run ↦ run s ]

  -- The new counter, the state, and whether the calls succeeded.
  unfoldable pub flush : Bool → PackCheckpoint → S → PackCheckpoint × S × Bool
  unfolding persist
  flush keep_warm checkpoint s =
      let (flushed, flush_ok) = flush_pack s in
      let (persisted, persist_ok) = persist flushed in
      if flush_ok
      then (if persist_ok
          then (
            record { since = 0 },
            if keep_warm then persisted else clear_mem_cache persisted,
            true,
          )
          else (checkpoint, persisted, false))
      else (checkpoint, flushed, false)

  unfoldable pub tick : PackCheckpoint → S → PackCheckpoint × S × Bool
  unfolding flush
  tick checkpoint s =
      let next : PackCheckpoint = record { since = suc checkpoint.since } in
      if ltb next.since every then (next, s, true) else flush false next s
