-- ===== src/Hlc.antt =====
-- src/core/hlc.ts: the hybrid logical clock, the order of its timestamps and their equality.
-- `wallTime` and `counter` are non-negative integers. The reading of the injected `wallClock` is an
-- argument. A method returns the new clock with its result.
pub mod Order
pub mod Clock
pub mod Text
mod Tests
use opsblobs_obsidian.Base.{
  ℕ, ◌+◌, max, JsString, Bool, true, false, ◌&&◌, ltb, ◌==◌, ◌===◌, str_lt, if◌then◌else◌, ℤ, pos,
  negsuc, sub_ℕ, is_nonneg,
}

pub record Hlc : Type 0 where
  pub wall_time : ℕ
  pub counter : ℕ
  pub device_id : JsString

pub record HybridLogicalClock : Type 0 where
  pub current : Hlc

-- The constructor with no `initial`.
abbrev pub new_clock : JsString → HybridLogicalClock
new_clock device_id = record {
  current = record { wall_time = 0; counter = 0; device_id = device_id };
}

unfoldable pub now : ℕ → HybridLogicalClock → HybridLogicalClock × Hlc
now wall c =
    let next : Hlc =
      if ltb c.current.wall_time wall
      then record { wall_time = wall; counter = 0; device_id = c.current.device_id }
      else record {
        wall_time = c.current.wall_time;
        counter = c.current.counter + 1;
        device_id = c.current.device_id;
      } in
    (record { current = next }, next)

unfoldable pub merge_counter : ℕ → Hlc → Hlc → ℕ
merge_counter max_wall current remote =
    if max_wall == current.wall_time && max_wall == remote.wall_time
    then max current.counter remote.counter + 1
    else if max_wall == current.wall_time
    then current.counter + 1
    else if max_wall == remote.wall_time
    then remote.counter + 1
    else 0

unfoldable pub merge : ℕ → Hlc → HybridLogicalClock → HybridLogicalClock × Hlc
unfolding merge_counter
merge wall remote c =
    let max_wall : ℕ = max wall (max c.current.wall_time remote.wall_time) in
    let next : Hlc = record {
      wall_time = max_wall;
      counter = merge_counter max_wall c.current remote;
      device_id = c.current.device_id;
    } in
    (record { current = next }, next)

unfoldable pub set_current : Hlc → HybridLogicalClock → HybridLogicalClock
set_current hlc c = record {
  current = record {
    wall_time = hlc.wall_time;
    counter = hlc.counter;
    device_id = c.current.device_id;
  };
}

unfoldable pub hlc_compare : Hlc → Hlc → ℤ
hlc_compare a b =
    if a.wall_time == b.wall_time
    then if a.counter == b.counter
      then if str_lt a.device_id b.device_id
        then negsuc 0
        else if str_lt b.device_id a.device_id
        then pos 1
        else pos 0
      else sub_ℕ a.counter b.counter
    else sub_ℕ a.wall_time b.wall_time

unfoldable pub hlc_max : Hlc → Hlc → Hlc
hlc_max a b = if is_nonneg (hlc_compare a b) then a else b

unfoldable pub hlc_equal : Hlc → Hlc → Bool
hlc_equal a b = a.wall_time == b.wall_time && a.counter == b.counter && a.device_id === b.device_id
