-- ===== src/PackCheckpoint/Tests.antt =====
-- A pass of src/core/pack-checkpoint.ts over a store that counts its blobs.
use opsblobs_obsidian.Base.{ℕ, suc, ◌≤◌, ◌≡◌, Bool, true, List, [], ◌∷◌}
use opsblobs_obsidian.PackCheckpoint.{PackFlushTarget, PackCheckpoint}
use opsblobs_obsidian.PackCheckpoint.BlobBeforeOp.{PassEvent, put, item, tail}

-- How many blobs were put, are flushed, and are named by a durable operation.
record Store : Type 0 where
  buffered : ℕ
  flushed : ℕ
  referred : ℕ

abbrev flush_all : Store → Store × Bool
flush_all s = (record s { flushed = s.buffered }, true)

abbrev refer_all : Store → Store × Bool
refer_all s = (record s { referred = s.buffered }, true)

abbrev add_blob : Store → Store
add_blob s = record s { buffered = suc s.buffered }

abbrev counting : PackFlushTarget Store
counting = record { flush_pack = flush_all; clear_mem_cache = λ s. s }

abbrev IsSafe : Store → Type 0
IsSafe s = (s.referred ≤ s.flushed) × (s.flushed ≤ s.buffered)

abbrev AllFlushed : Store → Type 0
AllFlushed s = s.flushed ≡ s.buffered

abbrev pass : List (PassEvent Store)
pass = put add_blob ∷ item ∷ put add_blob ∷ item ∷ put add_blob ∷ item ∷ tail true ∷ []

abbrev empty : PackCheckpoint × Store
empty = (record { since = 0 }, record { buffered = 0; flushed = 0; referred = 0 })
