-- ===== src/Hlc/Tests.antt =====
-- Runs of src/core/hlc.ts.
use opsblobs_obsidian.Base.{◌≡◌, refl, inl, arith, codes, List, [], ◌∷◌, some}
use opsblobs_obsidian.Hlc.{Hlc, HybridLogicalClock, now, merge}
use opsblobs_obsidian.Hlc.Clock.{
  ClockEvent, local_event, receive, fast_forward, issued, AllAfter, IsIncreasing,
  issued-IsIncreasing, clock_step,
}
use opsblobs_obsidian.Hlc.Text.{hlc_to_string, hlc_from_string}
use opsblobs_obsidian.Hlc.Text.RoundTrip.{hlc_from_string-hlc_to_string}

abbrev at_laptop : Hlc
at_laptop = record { wall_time = 100; counter = 2; device_id = codes "laptop-1" }

abbrev at_phone : Hlc
at_phone = record { wall_time = 100; counter = 3; device_id = codes "phone" }

abbrev much_later : Hlc
much_later = record { wall_time = 250; counter = 0; device_id = codes "phone" }

abbrev laptop_clock : HybridLogicalClock
laptop_clock = record { current = at_laptop }

abbrev busy_history : List ClockEvent
busy_history = local_event 90 ∷ receive 95 at_phone ∷ fast_forward much_later ∷ local_event 240 ∷ []

issued-IsIncreasing_example :
    AllAfter at_laptop (issued laptop_clock busy_history)
    × IsIncreasing (issued laptop_clock busy_history)
unfolding clock_step now merge
issued-IsIncreasing_example =
    issued-IsIncreasing laptop_clock busy_history (tt, (tt, (inl (ground arith), (tt, tt))))

hlc_from_string-hlc_to_string_example : hlc_from_string (hlc_to_string at_laptop) ≡ some at_laptop
hlc_from_string-hlc_to_string_example = hlc_from_string-hlc_to_string at_laptop

written : hlc_to_string at_laptop ≡ codes "000000000000100-00000002-laptop-1"
unfolding hlc_to_string
written = refl
