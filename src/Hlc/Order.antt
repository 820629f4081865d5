-- ===== src/Hlc/Order.antt =====
-- The order of `hlcCompare` and the equality of `hlcEqual` (src/core/hlc.ts).
use opsblobs_obsidian.Base.{
  ◌≡◌, ◌↔◌, ◌⊎◌, inl, inr, true, arith, str_lt_irrefl, str_lt_asymm, str_lt_trans, str_lt_total,
  pos, neg, is_nonneg, is_neg,
}
use opsblobs_obsidian.Hlc.{Hlc, hlc_compare, hlc_max, hlc_equal}

-- Swapping the arguments of `hlcCompare` negates its result.
pub hlc_compare_antisym : (a b : Hlc) → hlc_compare b a ≡ neg (hlc_compare a b)
unfolding hlc_compare
hlc_compare_antisym a b =
    ground (arith, str_lt_asymm a.device_id b.device_id, str_lt_asymm b.device_id a.device_id)

-- `hlcCompare` is 0 exactly when `hlcEqual` holds, and exactly when the timestamps are the same.
pub hlc_compare-zero_iff :
    (a b : Hlc) → ((hlc_compare a b ≡ pos 0) ↔ (a ≡ b)) × ((hlc_equal a b ≡ true) ↔ (a ≡ b))
unfolding hlc_compare hlc_equal
hlc_compare-zero_iff a b =
    ground (arith, str_lt_total a.device_id b.device_id, str_lt_irrefl a.device_id)

-- Earlier than: `hlcCompare` is negative.
abbrev pub Before : Hlc → Hlc → Type 0
Before a b = is_neg (hlc_compare a b) ≡ true

-- A timestamp earlier than a second one, which is earlier than a third, is earlier than the third.
pub Before-trans : (a b c : Hlc) → Before a b → Before b c → Before a c
unfolding hlc_compare
Before-trans a b c h k = ground (arith, str_lt_trans a.device_id b.device_id c.device_id)

-- No later than.
abbrev pub AtMost : Hlc → Hlc → Type 0
AtMost a b = is_nonneg (hlc_compare b a) ≡ true

pub AtMost-refl : (a : Hlc) → AtMost a a
unfolding hlc_compare
AtMost-refl a = ground (arith, str_lt_irrefl a.device_id)

pub Before-AtMost : (a b : Hlc) → Before a b → AtMost a b
unfolding hlc_compare
Before-AtMost a b h = ground (arith, str_lt_asymm a.device_id b.device_id)

AtMost-cases : (a b : Hlc) → AtMost a b → Before a b ⊎ (a ≡ b)
unfolding hlc_compare
AtMost-cases a b h =
    ground (arith, str_lt_asymm b.device_id a.device_id, str_lt_total a.device_id b.device_id)

pub AtMost-Before_trans : (a b c : Hlc) → AtMost a b → Before b c → Before a c
AtMost-Before_trans a b c h k = elim (AtMost-cases a b h) [
  | inl earlier ↦ Before-trans a b c earlier k
  | inr same ↦ rw same k
]

pub AtMost-trans : (a b c : Hlc) → AtMost a b → AtMost b c → AtMost a c
AtMost-trans a b c h k = elim (AtMost-cases b c k) [
  | inl earlier ↦ Before-AtMost a c (AtMost-Before_trans a b c h earlier)
  | inr same ↦ rw (← same) h
]

pub hlc_max_bounds :
    (a b : Hlc)
    → (is_nonneg (hlc_compare (hlc_max a b) a) ≡ true)
      × (is_nonneg (hlc_compare (hlc_max a b) b) ≡ true)
unfolding hlc_max hlc_compare
hlc_max_bounds a b = ground (
  arith,
  str_lt_irrefl a.device_id,
  str_lt_irrefl b.device_id,
  str_lt_asymm a.device_id b.device_id,
  str_lt_asymm b.device_id a.device_id,
)

-- The later of two timestamps does not depend on their order.
pub hlc_max_comm : (a b : Hlc) → hlc_max a b ≡ hlc_max b a
unfolding hlc_max hlc_compare
hlc_max_comm a b = ground (
  arith,
  str_lt_total a.device_id b.device_id,
  str_lt_asymm a.device_id b.device_id,
  str_lt_asymm b.device_id a.device_id,
)
