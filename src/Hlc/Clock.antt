-- ===== src/Hlc/Clock.antt =====
-- The clock of src/core/hlc.ts over whole histories of its events.
use opsblobs_obsidian.Base.{
  ℕ, ◌≡◌, ◌<◌, ◌≤◌, ◌⊎◌, Option, none, some, List, [], ◌∷◌, arith, str_lt_irrefl, Option-cases, inl,
  inr,
}
use opsblobs_obsidian.Hlc.{Hlc, HybridLogicalClock, now, merge, set_current, hlc_compare, hlc_max}
use opsblobs_obsidian.Hlc.Order.{
  Before, AtMost, AtMost-refl, AtMost-trans, Before-AtMost, AtMost-Before_trans,
}

-- A timestamp of `now` is later than the clock was, and names the clock's own device.
pub now_later :
    (wall : ℕ) (c : HybridLogicalClock)
    → Before c.current (now wall c).1
      × ((now wall c).0.current ≡ (now wall c).1)
      × ((now wall c).1.device_id ≡ c.current.device_id)
unfolding now hlc_compare
now_later wall c = ground arith

-- `merge` yields a timestamp later than the clock and than the remote timestamp, whatever the wall
-- clock reads, and it names the clock's own device.
pub merge_later :
    (wall : ℕ) (remote : Hlc) (c : HybridLogicalClock)
    → Before c.current (merge wall remote c).1
      × Before remote (merge wall remote c).1
      × ((merge wall remote c).0.current ≡ (merge wall remote c).1)
      × ((merge wall remote c).1.device_id ≡ c.current.device_id)
unfolding merge hlc_compare
merge_later wall remote c = ground arith

-- What happens to a clock: a local event, a received timestamp, or `setCurrent`.
pub data ClockEvent : Type 0 where
  local_event : ℕ → ClockEvent
  receive : ℕ → Hlc → ClockEvent
  fast_forward : Hlc → ClockEvent

unfoldable pub clock_step : ClockEvent → HybridLogicalClock → HybridLogicalClock × Option Hlc
clock_step (local_event wall) c = let (c', t) = now wall c in (c', some t)
clock_step (receive wall remote) c = let (c', t) = merge wall remote c in (c', some t)
clock_step (fast_forward merged) c = (set_current merged c, none)

prepend : Option Hlc → List Hlc → List Hlc
prepend none ts = ts
prepend (some t) ts = t ∷ ts

-- The timestamps that a history of events issues, oldest first.
unfoldable pub issued : HybridLogicalClock → List ClockEvent → List Hlc
unfolding prepend
issued c [] = []
issued c (e ∷ es) = prepend (clock_step e c).1 (issued (clock_step e c).0 es)

-- `setCurrent` is not called with a wall time and counter below those of the clock.
abbrev pub IsForward : ClockEvent → HybridLogicalClock → Type 0
IsForward (local_event wall) c = Unit
IsForward (receive wall remote) c = Unit
IsForward (fast_forward h) c =
    (c.current.wall_time < h.wall_time)
    ⊎ ((c.current.wall_time ≡ h.wall_time) × (c.current.counter ≤ h.counter))

-- The same for each event of a history.
abbrev pub AllForward : HybridLogicalClock → List ClockEvent → Type 0
AllForward c [] = Unit
AllForward c (e ∷ es) = IsForward e c × AllForward (clock_step e c).0 es

set_current-AtMost :
    (a h : Hlc)
    → (a.wall_time < h.wall_time) ⊎ ((a.wall_time ≡ h.wall_time) × (a.counter ≤ h.counter))
    → AtMost a (record h { device_id = a.device_id })
unfolding hlc_compare
set_current-AtMost a h f = ground (arith, f, str_lt_irrefl a.device_id)

-- Such a step does not move the clock back.
step-AtMost :
    (e : ClockEvent) (c : HybridLogicalClock)
    → IsForward e c
    → AtMost c.current (clock_step e c).0.current
unfolding clock_step now merge set_current
step-AtMost (local_event wall) c f = Before-AtMost _ _ (now_later wall c).0
step-AtMost (receive wall remote) c f = Before-AtMost _ _ (merge_later wall remote c).0
step-AtMost (fast_forward h) c f = set_current-AtMost c.current h f

-- What a step issues is the new reading of the clock, and later than the old one.
step_issues :
    (e : ClockEvent) (c : HybridLogicalClock) (t : Hlc)
    → (clock_step e c).1 ≡ some t
    → Before c.current t × (t ≡ (clock_step e c).0.current)
unfolding clock_step
step_issues (local_event wall) c t h = ground (arith, now_later wall c)
step_issues (receive wall remote) c t h = ground (arith, merge_later wall remote c)
step_issues (fast_forward m) c t h = cc

abbrev pub AllAfter : Hlc → List Hlc → Type 0
AllAfter a [] = Unit
AllAfter a (t ∷ ts) = Before a t × AllAfter a ts

abbrev pub IsIncreasing : List Hlc → Type 0
IsIncreasing [] = Unit
IsIncreasing (t ∷ ts) = AllAfter t ts × IsIncreasing ts

issued_after :
    (a : Hlc) (c : HybridLogicalClock) (es : List ClockEvent)
    → AllForward c es
    → AtMost a c.current
    → AllAfter a (issued c es)
unfolding issued
issued_after a c [] f h = tt
issued_after a c (e ∷ es) f h = elim (Option-cases (clock_step e c).1) [
  | inl quiet ↦
      rw (quiet, prepend)
        (issued_after a (clock_step e c).0 es f.1 (AtMost-trans _ _ _ h (step-AtMost e c f.0)))
  | inr (t, issues) ↦
      rw (issues, prepend)
        (
          AtMost-Before_trans a _ t h (step_issues e c t issues).0,
          issued_after a (clock_step e c).0 es f.1 (AtMost-trans _ _ _ h (step-AtMost e c f.0)),
        )
]

-- Over any history of local events, received timestamps and calls of `setCurrent`, of which none is
-- with a wall time and counter below the clock's, every timestamp that the clock issues is later, in
-- the order of `hlcCompare`, than the clock was at the start and than all that it issued before.
pub issued-IsIncreasing :
    (c : HybridLogicalClock) (es : List ClockEvent)
    → AllForward c es
    → AllAfter c.current (issued c es) × IsIncreasing (issued c es)
unfolding issued
issued-IsIncreasing c es f = (issued_after c.current c es f (AtMost-refl c.current), go c es f)
  where
    go :
        (c : HybridLogicalClock) (es : List ClockEvent)
        → AllForward c es
        → IsIncreasing (issued c es)
    go c [] f = tt
    go c (e ∷ es) f = elim (Option-cases (clock_step e c).1) [
      | inl quiet ↦ rw (quiet, prepend) (go (clock_step e c).0 es f.1)
      | inr (t, issues) ↦
          rw (issues, prepend)
            (
              issued_after t (clock_step e c).0 es f.1
                  (rw (step_issues e c t issues).1 (AtMost-refl _)),
              go (clock_step e c).0 es f.1,
            )
    ]

-- A round reads the clock, and the clock issues a timestamp before the round calls `setCurrent` with the
-- later of that reading and the remote one, as after a merge. Where the remote reading was not later,
-- and the wall clock has not passed the clock's wall time, the next timestamp is the same one again.
pub now-set_current :
    (c : HybridLogicalClock) (remote : Hlc) (wall wall' : ℕ)
    → AtMost remote c.current
    → wall ≤ c.current.wall_time
    → wall' ≤ c.current.wall_time
    → (now wall' (set_current (hlc_max c.current remote) (now wall c).0)).1 ≡ (now wall c).1
unfolding now set_current hlc_max
now-set_current c remote wall wall' h k k' = ground arith
