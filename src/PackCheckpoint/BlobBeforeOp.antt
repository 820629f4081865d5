-- ===== src/PackCheckpoint/BlobBeforeOp.antt =====
-- What the cadence of src/core/pack-checkpoint.ts guarantees to a pass that puts blobs between its
-- ticks.
use opsblobs_obsidian.Base.{ℕ, suc, ◌<◌, ◌≡◌, refl, Bool, true, false, Option, List, [], ◌∷◌, arith}
use opsblobs_obsidian.PackCheckpoint.{PackFlushTarget, PackCheckpoint, persist, flush, tick}

-- What a pass does: put a blob and its operation, record an item, flush the tail.
pub data PassEvent (S : Type 0) : Type 0 where
  put : (S → S) → PassEvent S
  item : PassEvent S
  tail : Bool → PassEvent S

module _ {S : Type 0} (target : PackFlushTarget S) (every : ℕ)
    (persist_referrers : Option (S → S × Bool)) where
  open target use {flush_pack, clear_mem_cache}

  abbrev pub pass_step : PassEvent S → PackCheckpoint × S → PackCheckpoint × S
  pass_step (put f) (c, s) = (c, f s)
  pass_step item (c, s) = let r = tick target every persist_referrers c s in (r.0, r.1)
  pass_step (tail warm) (c, s) = let r = flush target every persist_referrers warm c s in (r.0, r.1)

  abbrev pub run_pass : List (PassEvent S) → PackCheckpoint × S → PackCheckpoint × S
  run_pass [] p = p
  run_pass (e ∷ es) p = run_pass es (pass_step e p)

  -- The store and the referrers keep a state safe, the referrers only where all blobs are flushed.
  pub record Discipline (Safe Flushed : S → Type 0) : Type 0 where
    pub flush_safe : (s : S) → Safe s → Safe (flush_pack s).0
    pub flush_flushes : (s : S) → (flush_pack s).1 ≡ true → Flushed (flush_pack s).0
    pub persist_safe :
        (s : S) → Safe s → Flushed s → Safe (persist target every persist_referrers s).0
    pub clear_safe : (s : S) → Safe s → Safe (clear_mem_cache s)

  abbrev pub PutsSafe : (S → Type 0) → List (PassEvent S) → Type 0
  PutsSafe Safe [] = Unit
  PutsSafe Safe (put f ∷ es) = ((s : S) → Safe s → Safe (f s)) × PutsSafe Safe es
  PutsSafe Safe (item ∷ es) = PutsSafe Safe es
  PutsSafe Safe (tail warm ∷ es) = PutsSafe Safe es

  flush-since :
      (warm : Bool) (c : PackCheckpoint) (s : S)
      → (flush_pack s).1 ≡ true
      → (persist target every persist_referrers (flush_pack s).0).1 ≡ true
      → (flush target every persist_referrers warm c s).0.since ≡ 0
  unfolding flush
  flush-since warm c s h k = rw (h, k) refl

  -- Where no flush fails, fewer than `every` items are pending after any pass that starts with fewer.
  pub run_pass_bound :
      (es : List (PassEvent S)) (p : PackCheckpoint × S)
      → ((s : S) → (flush_pack s).1 ≡ true)
      → ((s : S) → (persist target every persist_referrers s).1 ≡ true)
      → p.0.since < every
      → (run_pass es p).0.since < every
  unfolding tick
  run_pass_bound [] p h k b = b
  run_pass_bound (put f ∷ es) (c, s) h k b = run_pass_bound es (c, f s) h k b
  run_pass_bound (item ∷ es) (c, s) h k b = run_pass_bound es (pass_step item (c, s)) h k (
      ground
        (arith, flush-since false (record { since = suc c.since }) s (h s) (k (flush_pack s).0)))
  run_pass_bound (tail warm ∷ es) (c, s) h k b =
      run_pass_bound es (pass_step (tail warm) (c, s)) h k
        (ground (arith, flush-since warm c s (h s) (k (flush_pack s).0)))
