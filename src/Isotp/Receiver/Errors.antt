-- ===== src/Isotp/Receiver/Errors.antt =====
-- What a receiver does on each error, and that an accepted frame stays inside the buffer.
use opendiag_firmware.Base.{Bool, arith, false, true, ℕ, ◌%◌, ◌*◌, ◌+◌, ◌≡◌, ◌⊎◌}
use opendiag_firmware.Isotp.Config.{address_len, byte_at, is_error}
use opendiag_firmware.Isotp.Receiver.{
  feed_advance, feed_consecutive, feed_first, feed_frame, feed_single, feed_start,
  isotp_rx_check_timeout, isotp_rx_feed,
}
use opendiag_firmware.Isotp.Types.{
  CanFrame, IsotpResult, IsotpRx, err_overflow, rx_fc_ready, rx_idle,
}

-- The result of a call, as the errors below describe it.
abbrev Closed : IsotpResult → IsotpRx → Type 0
Closed rc rx =
    (is_error rc ≡ true)
    → (rx.state ≡ rx_idle) ⊎ (rc ≡ err_overflow) × (rx.state ≡ rx_fc_ready) × (rx.flow_status ≡ 2)

feed_start-Closed :
    (first : Bool) (size : ℕ) (rx : IsotpRx) (f : CanFrame) (now : ℕ)
    → Closed (feed_start first size rx f now).0 (feed_start first size rx f now).1
unfolding feed_start
feed_start-Closed first size rx f now = ground arith

feed_consecutive-Closed :
    (rx : IsotpRx) (f : CanFrame) (now : ℕ)
    → Closed (feed_consecutive rx f now).0 (feed_consecutive rx f now).1
unfolding feed_consecutive feed_advance
feed_consecutive-Closed rx f now = ground arith

feed_frame-Closed :
    (rx : IsotpRx) (f : CanFrame) (now : ℕ) → Closed (feed_frame rx f now).0 (feed_frame rx f now).1
unfolding feed_frame feed_single feed_first
feed_frame-Closed rx f now =
    let a = address_len rx.config in
    ground (
      arith,
      feed_start-Closed false (byte_at f a % 16) rx f now,
      feed_start-Closed true (byte_at f a % 16 * 256 + byte_at f (a + 1)) rx f now,
      feed_consecutive-Closed rx f now,
    )

-- After an error no message is open: the receiver is idle, or it owes the peer the flow control
-- frame that refuses a message that is too long.
pub isotp_rx_feed_error :
    (rx : IsotpRx) (f : CanFrame) (now : ℕ)
    → is_error (isotp_rx_feed rx f now).0 ≡ true
    → let (rc, rx', _) = isotp_rx_feed rx f now in
      (rx'.state ≡ rx_idle)
      ⊎ (rc ≡ err_overflow) × (rx'.state ≡ rx_fc_ready) × (rx'.flow_status ≡ 2)
unfolding isotp_rx_feed isotp_rx_check_timeout
isotp_rx_feed_error rx f now =
    ground (arith, feed_frame-Closed (isotp_rx_check_timeout rx now).1 f now)
