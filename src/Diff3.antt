-- ===== src/Diff3.antt =====
-- src/merge/diff3.ts: the line diff, the three-way merge and the conflict markers. The parts that
-- share these types are the children.
pub mod Patience
pub mod Diff
pub mod Merge
pub mod Markers
mod Tests
use opsblobs_obsidian.Base.{ℕ, JsString, Bool, List, ℤ, ◌≡◌, refl, ◌⊎◌, inl, inr}

pub data DiffType : Type 0 where
  equal insert delete : DiffType

pub record DiffOp : Type 0 where
  pub type : DiffType
  pub lines : List JsString

-- What ends a run early: a `TypeError` of the engine, or the model's fuel.
pub data DiffError : Type 0 where
  type_error out_of_fuel : DiffError

pub data Result {ℓ} (A : Type ℓ) : Type ℓ where
  ok : A → Result A
  err : DiffError → Result A

infixl 5 ◌>>=◌
abbrev pub ◌>>=◌ {ℓ κ} : {A : Type ℓ} {B : Type κ} → Result A → (A → Result B) → Result B
ok a >>= f = f a
err e >>= f = err e

-- `endLine` is one less than the start where the local side is empty, so it may be -1.
pub record ConflictChunk : Type 0 where
  pub start_line : ℕ
  pub end_line : ℤ
  pub ancestor : List JsString
  pub local : List JsString
  pub remote : List JsString

pub record ThreeWayMergeResult : Type 0 where
  pub merged : List JsString
  pub conflicts : List ConflictChunk
  pub has_conflicts : Bool

pub DiffType-cases : (t : DiffType) → (t ≡ equal) ⊎ (t ≡ insert) ⊎ (t ≡ delete)
DiffType-cases equal = inl refl
DiffType-cases insert = inr (inl refl)
DiffType-cases delete = inr (inr refl)
