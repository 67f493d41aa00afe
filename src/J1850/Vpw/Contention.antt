-- ===== src/J1850/Vpw/Contention.antt =====
-- The contention monitor: the pulses that it derives are those that are sent, and it looks only
-- where its margins allow.
use opendiag_firmware.Base.{All, [], arith, length, min, ℕ, ◌+◌, ◌<◌, ◌≡◌, ◌≤◌, ◌⊎◌}
use opendiag_firmware.J1850.Vpw.{VpwPulse, j1850_vpw_watch_offsets, vpw_passive}

-- An offset lies behind the head margin and before the tail margin of the pulse.
abbrev pub InMargins : VpwPulse → ℕ → ℕ → ℕ → Type 0
InMargins p head_us tail_us t = (head_us ≤ t) × (t + tail_us < p.us)

-- Every offset at which the monitor looks lies inside both margins of a passive pulse; there are at
-- most two, and never more than there is room for. A pulse lasts less than 65536 microseconds.
pub j1850_vpw_watch_offsets_bounds :
    (p : VpwPulse) (head_us tail_us cap : ℕ)
    → p.us < 65536
    → let offsets = j1850_vpw_watch_offsets p head_us tail_us cap in
      All (InMargins p head_us tail_us) offsets
      × (length offsets ≤ min cap 2)
      × ((offsets ≡ []) ⊎ (p.level ≡ vpw_passive))
unfolding j1850_vpw_watch_offsets
j1850_vpw_watch_offsets_bounds p head_us tail_us cap h = ground arith
