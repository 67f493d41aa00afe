-- ===== src/Isotp/Receiver/Runs.antt =====
-- Whole lives of a receiver: any calls of its functions, in any order, at any times.
use opendiag_firmware.Base.{All, Bool, List, Option, [], some, ℕ, ◌<◌, ◌∷◌, ◌≡◌}
use opendiag_firmware.Isotp.Receiver.{
  isotp_rx_check_timeout, isotp_rx_confirm, isotp_rx_feed, isotp_rx_flow_control, isotp_rx_init,
}
use opendiag_firmware.Isotp.Receiver.Invariant.{
  Fits, IsFrame, IsValidRx, isotp_rx_check_timeout-IsValidRx, isotp_rx_confirm-IsValidRx,
  isotp_rx_feed-IsValidRx, isotp_rx_flow_control-IsValidRx, isotp_rx_init-IsValidRx,
}
use opendiag_firmware.Isotp.Types.{CanFrame, IsotpConfig, IsotpRx}

pub data RxCall : Type 0 where
  feed : CanFrame → ℕ → RxCall
  take_flow_control : ℕ → RxCall
  confirm : Bool → ℕ → RxCall
  check_timeout : ℕ → RxCall

pub rx_call : IsotpRx → RxCall → IsotpRx
rx_call rx (feed f now) = (isotp_rx_feed rx f now).1
rx_call rx (take_flow_control now) = (isotp_rx_flow_control rx now).1
rx_call rx (confirm success now) = (isotp_rx_confirm rx success now).1
rx_call rx (check_timeout now) = (isotp_rx_check_timeout rx now).1

pub rx_calls : IsotpRx → List RxCall → IsotpRx
rx_calls rx [] = rx
rx_calls rx (c ∷ cs) = rx_calls (rx_call rx c) cs

-- The frames that are fed are eight bytes each.
abbrev pub FedFrame : RxCall → Type 0
FedFrame (feed f now) = IsFrame f
FedFrame _ = Unit

rx_call-IsValidRx :
    (rx : IsotpRx) (c : RxCall) → IsValidRx rx → FedFrame c → IsValidRx (rx_call rx c)
unfolding rx_call
rx_call-IsValidRx rx (feed f now) v w = isotp_rx_feed-IsValidRx rx f now v w
rx_call-IsValidRx rx (take_flow_control now) v w = isotp_rx_flow_control-IsValidRx rx now v
rx_call-IsValidRx rx (confirm success now) v w = isotp_rx_confirm-IsValidRx rx success now v
rx_call-IsValidRx rx (check_timeout now) v w = isotp_rx_check_timeout-IsValidRx rx now v

rx_calls-keep :
    (rx : IsotpRx) (cs : List RxCall) → IsValidRx rx → All FedFrame cs → IsValidRx (rx_calls rx cs)
unfolding rx_calls
rx_calls-keep rx [] v w = v
rx_calls-keep rx (c ∷ cs) v w = rx_calls-keep (rx_call rx c) cs (rx_call-IsValidRx rx c v w.0) w.1

-- A receiver that `isotp_rx_init` accepts satisfies its invariant after any sequence of calls, in
-- any order and at any times: its offset stays within the message, an open message fits the
-- buffer, and its counters stay within their bounds. The buffer holds the capacity, and the frames
-- are eight bytes each.
pub rx_calls-IsValidRx :
    (c : IsotpConfig) (b : Option (List ℕ)) (capacity : ℕ) (cs : List RxCall) {rx : IsotpRx}
    → Fits b capacity
    → c.block_size < 256
    → isotp_rx_init c b capacity ≡ some rx
    → All FedFrame cs
    → IsValidRx (rx_calls rx cs)
rx_calls-IsValidRx c b capacity cs {rx} f k e w =
    rx_calls-keep rx cs (isotp_rx_init-IsValidRx c b capacity f k e) w
