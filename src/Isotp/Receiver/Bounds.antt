-- ===== src/Isotp/Receiver/Bounds.antt =====
-- What `isotp_rx_feed` stores stays inside the buffer.
use opendiag_firmware.Base.{
  All-get_or, Bool, Bool-cases, arith, drop, false, inl, inr, length, length-drop, length-take, not,
  true, ℕ, ◌%◌, ◌*◌, ◌+◌, ◌-◌, ◌/◌, ◌<◌, ◌==◌, ◌||◌, ◌≡◌, ◌≤◌, ◌⊎◌,
}
use opendiag_firmware.Isotp.Config.{address_len, byte_at, is_rx_cf, matches}
use opendiag_firmware.Isotp.Receiver.{
  cf_size, copy_consecutive, feed_advance, feed_consecutive, feed_first, feed_frame, feed_single,
  feed_start, isotp_rx_check_timeout, isotp_rx_feed, segment_copy,
}
use opendiag_firmware.Isotp.Receiver.Invariant.{IsFrame, IsOpen, IsValidRx, cf_size_bounds}
use opendiag_firmware.Isotp.Types.{
  CanFrame, IsotpConfig, IsotpResult, IsotpRx, IsotpSegment, complete, frame,
}

-- The segment of an accepted frame: it ends where the receiver goes on, and fits the capacity.
abbrev InBounds : IsotpRx → IsotpResult → IsotpRx → IsotpSegment → Type 0
InBounds rx rc rx' s =
    (rc ≡ frame) ⊎ (rc ≡ complete)
    → (s.offset + s.len ≡ rx'.offset)
      × (s.offset + s.len ≤ rx.capacity)
      × (length s.bytes ≡ s.len)
      × (0 < s.len)

feed_start-InBounds :
    (first : Bool) (size : ℕ) (rx : IsotpRx) (f : CanFrame) (now : ℕ)
    → length f.bytes ≡ 8
    → 0 < size
    → size ≤ 4095
    → (first ≡ true → 7 - address_len rx.config < size)
    → (first ≡ false → size ≤ 7 - address_len rx.config)
    → let (rc, rx', s) = feed_start first size rx f now in InBounds rx rc rx' s
unfolding feed_start segment_copy
feed_start-InBounds true size rx f now e p h k m =
    let a = address_len rx.config in
    ground (arith, k, length-take (6 - a) (drop (a + 2) f.bytes), length-drop (a + 2) f.bytes)
feed_start-InBounds false size rx f now e p h k m =
    let a = address_len rx.config in
    ground (arith, m, length-take size (drop (a + 1) f.bytes), length-drop (a + 1) f.bytes)

cf_size_fits : (rx : IsotpRx) → cf_size rx ≤ 7 - address_len rx.config
unfolding cf_size
cf_size_fits rx = ground arith

matches_dlc : (c : IsotpConfig) (f : CanFrame) → matches c f ≡ true → f.dlc ≤ 8
unfolding matches
matches_dlc c f h = ground arith

feed_consecutive-InBounds :
    (rx : IsotpRx) (f : CanFrame) (now : ℕ)
    → length f.bytes ≡ 8
    → IsOpen rx
    → rx.total ≤ 4095
    → let (rc, rx', s) = feed_consecutive rx f now in InBounds rx rc rx' s
unfolding feed_consecutive feed_advance copy_consecutive segment_copy
feed_consecutive-InBounds rx f now e o h =
    let a = address_len rx.config in
    ground (
      arith,
      cf_size_bounds rx o.part h,
      cf_size_fits rx,
      length-take (cf_size rx) (drop (a + 1) f.bytes),
      length-drop (a + 1) f.bytes,
    )

feed_single-InBounds :
    (rx : IsotpRx) (f : CanFrame) (now : ℕ)
    → length f.bytes ≡ 8
    → f.dlc ≤ 8
    → let (rc, rx', s) = feed_single rx f now in InBounds rx rc rx' s
unfolding feed_single
feed_single-InBounds rx f now e d =
    ground (arith, feed_start-InBounds false (byte_at f (address_len rx.config) % 16) rx f now e)

feed_first-InBounds :
    (rx : IsotpRx) (f : CanFrame) (now : ℕ)
    → IsFrame f
    → let (rc, rx', s) = feed_first rx f now in InBounds rx rc rx' s
unfolding feed_first
feed_first-InBounds rx f now w =
    let a = address_len rx.config in
    ground (
      arith,
      All-get_or f.bytes (a + 1) w.bytes,
      feed_start-InBounds true (byte_at f a % 16 * 256 + byte_at f (a + 1)) rx f now w.eight,
    )

feed_frame-InBounds :
    (rx : IsotpRx) (f : CanFrame) (now : ℕ)
    → IsFrame f
    → IsValidRx rx
    → f.dlc ≤ 8
    → let (rc, rx', s) = feed_frame rx f now in InBounds rx rc rx' s
unfolding feed_frame
feed_frame-InBounds rx f now w v d =
    let type = byte_at f (address_len rx.config) / 16 in
    elim (Bool-cases (type == 0)) [
      | inl e ↦ rw e (feed_single-InBounds rx f now w.eight d)
      | inr e ↦ rw e (elim (Bool-cases (type == 1)) [
        | inl k ↦ rw k (feed_first-InBounds rx f now w)
        | inr k ↦ rw k (elim (Bool-cases (not (type == 2) || not (is_rx_cf rx.state))) [
          | inl n ↦ rw n (ground arith)
          | inr n ↦
              rw n (feed_consecutive-InBounds rx f now w.eight (v.cf_open (ground arith)) v.small)
        ])
      ])
    ]

-- A frame of eight bytes that a valid receiver accepts stores a non-empty segment that ends at the
-- receiver's new offset and lies within the capacity, so the copy never leaves the caller's buffer.
pub isotp_rx_feed_in_bounds :
    (rx : IsotpRx) (f : CanFrame) (now : ℕ)
    → IsValidRx rx
    → IsFrame f
    → ((isotp_rx_feed rx f now).0 ≡ frame) ⊎ ((isotp_rx_feed rx f now).0 ≡ complete)
    → let (_, rx', s) = isotp_rx_feed rx f now in
      (s.offset + s.len ≡ rx'.offset)
      × (s.offset + s.len ≤ rx.capacity)
      × (length s.bytes ≡ s.len)
      × (0 < s.len)
unfolding isotp_rx_feed isotp_rx_check_timeout
isotp_rx_feed_in_bounds rx f now v w =
    ground (arith, feed_frame-InBounds rx f now w v, matches_dlc rx.config f)
