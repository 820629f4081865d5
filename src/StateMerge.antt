-- ===== src/StateMerge.antt =====
-- src/merge/state-merge.ts: the merge of two vault states into one action for each file. The text
-- codec of the platform (`TextDecoder`, `TextEncoder`) is a parameter. A three-way merge that throws
-- makes the whole merge throw.
pub mod Heads
pub mod Content
pub mod Collision
pub mod Classify
pub mod Adoption
pub mod Deletion
pub mod Convergence
pub mod Collisions
pub mod Totality
pub mod MergeNodes
mod Tests
use opsblobs_obsidian.Base.{JsString, List, ℕ}
use opsblobs_obsidian.Vault.{Bytes}

pub record TextCodec : Type 0 where
  pub decode : Bytes → JsString
  pub encode : JsString → Bytes
