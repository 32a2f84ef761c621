-- ===== src/Transfer/Streams.antt =====
-- crates/localtrans-core/src/transfer/adapt.rs and source_probe.rs: how many streams a transfer uses,
-- and when the probe of a sender gives up. Whether more than five percent are lost is an argument.
use localtrans.Base.{
  ℕ, ◌+◌, ◌-◌, ◌*◌, ◌/◌, ◌%◌, ◌^◌, ◌≤◌, Bool, true, false, List, [], ◌∷◌, ◌||◌, if◌then◌else◌, ltb,
  leb, ◌==◌, min, max, arith,
}

pub record AdaptiveStreams : Type 0 where
  pub current : ℕ
  pub last_bps : ℕ

unfoldable pub new_streams : AdaptiveStreams
new_streams = record { current = 4; last_bps = 0 }

unfoldable pub next_current : AdaptiveStreams → ℕ → Bool → ℕ
next_current a bps_now true = max (a.current - 2) 2
next_current a bps_now false =
    if a.last_bps == 0 || ltb (a.last_bps * 105 % 2 ^ 64 / 100) bps_now
    then min (a.current + 1) 32
    else a.current

unfoldable pub on_probe : AdaptiveStreams → ℕ → Bool → AdaptiveStreams
unfolding next_current
on_probe a bps_now lossy = record { current = next_current a bps_now lossy; last_bps = bps_now }

unfoldable pub on_probes : List (ℕ × Bool) → AdaptiveStreams → AdaptiveStreams
unfolding on_probe
on_probes [] a = a
on_probes ((bps_now, lossy) ∷ more) a = on_probes more (on_probe a bps_now lossy)

on_probe-bounds :
    (a : AdaptiveStreams) (bps_now : ℕ) (lossy : Bool)
    → (2 ≤ a.current) × (a.current ≤ 32)
    → (2 ≤ (on_probe a bps_now lossy).current) × ((on_probe a bps_now lossy).current ≤ 32)
unfolding on_probe next_current
on_probe-bounds a bps_now true between = (omega (arith, between.0), omega (arith, between.1))
on_probe-bounds a bps_now false between = (ground (arith, between.0), ground (arith, between.1))

on_probes-between :
    (probes : List (ℕ × Bool)) (a : AdaptiveStreams)
    → (2 ≤ a.current) × (a.current ≤ 32)
    → (2 ≤ (on_probes probes a).current) × ((on_probes probes a).current ≤ 32)
unfolding on_probes
on_probes-between [] a between = between
on_probes-between ((bps_now, lossy) ∷ more) a between =
    on_probes-between more (on_probe a bps_now lossy) (on_probe-bounds a bps_now lossy between)

-- Whatever is measured, a transfer uses at least 2 and at most 32 streams.
pub on_probes-bounds :
    (probes : List (ℕ × Bool))
    → (2 ≤ (on_probes probes new_streams).current) × ((on_probes probes new_streams).current ≤ 32)
unfolding new_streams
on_probes-bounds probes = on_probes-between probes new_streams (omega arith, omega arith)

-- The ticks without progress after one more tick, and whether the probe ends.
unfoldable pub idle_tick_step : ℕ → Bool → ℕ × Bool
idle_tick_step idle_ticks byte_idle =
    if byte_idle then (idle_ticks + 1, leb 120 (idle_ticks + 1)) else (0, false)
