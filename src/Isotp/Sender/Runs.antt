-- ===== src/Isotp/Sender/Runs.antt =====
-- Whole lives of a sender: any calls of its functions, in any order, at any times.
use opendiag_firmware.Base.{All, Bool, List, [], length, some, ℕ, ◌∷◌, ◌≡◌, ◌≤◌}
use opendiag_firmware.Isotp.Receiver.Invariant.{IsFrame}
use opendiag_firmware.Isotp.Sender.{
  isotp_tx_check_timeout, isotp_tx_confirm, isotp_tx_flow_control, isotp_tx_init, isotp_tx_next,
  isotp_tx_start,
}
use opendiag_firmware.Isotp.Sender.Invariant.{
  IsValidTx, isotp_tx_check_timeout-IsValidTx, isotp_tx_confirm-IsValidTx,
  isotp_tx_flow_control-IsValidTx, isotp_tx_init-IsValidTx, isotp_tx_next-IsValidTx,
  isotp_tx_start-IsValidTx,
}
use opendiag_firmware.Isotp.Types.{CanFrame, IsotpConfig, IsotpTx}

pub data TxCall : Type 0 where
  start : List ℕ → ℕ → ℕ → TxCall
  give_flow_control : CanFrame → ℕ → TxCall
  next_frame : ℕ → TxCall
  confirm_frame : Bool → ℕ → TxCall
  check_tx_timeout : ℕ → TxCall

pub tx_call : IsotpTx → TxCall → IsotpTx
tx_call tx (start payload len now) = (isotp_tx_start tx payload len now).1
tx_call tx (give_flow_control f now) = (isotp_tx_flow_control tx f now).1
tx_call tx (next_frame now) = (isotp_tx_next tx now).1
tx_call tx (confirm_frame success now) = (isotp_tx_confirm tx success now).1
tx_call tx (check_tx_timeout now) = (isotp_tx_check_timeout tx now).1

pub tx_calls : IsotpTx → List TxCall → IsotpTx
tx_calls tx [] = tx
tx_calls tx (c ∷ cs) = tx_calls (tx_call tx c) cs

-- The lengths given do not pass the payload, and flow control frames are eight bytes each.
abbrev pub FairCall : TxCall → Type 0
FairCall (start payload len now) = len ≤ length payload
FairCall (give_flow_control f now) = IsFrame f
FairCall _ = Unit

tx_call-IsValidTx :
    (tx : IsotpTx) (c : TxCall) → IsValidTx tx → FairCall c → IsValidTx (tx_call tx c)
unfolding tx_call
tx_call-IsValidTx tx (start payload len now) v w = isotp_tx_start-IsValidTx tx payload len now v w
tx_call-IsValidTx tx (give_flow_control f now) v w = isotp_tx_flow_control-IsValidTx tx f now v w
tx_call-IsValidTx tx (next_frame now) v w = isotp_tx_next-IsValidTx tx now v
tx_call-IsValidTx tx (confirm_frame success now) v w = isotp_tx_confirm-IsValidTx tx success now v
tx_call-IsValidTx tx (check_tx_timeout now) v w = isotp_tx_check_timeout-IsValidTx tx now v

tx_calls-keep :
    (tx : IsotpTx) (cs : List TxCall) → IsValidTx tx → All FairCall cs → IsValidTx (tx_calls tx cs)
unfolding tx_calls
tx_calls-keep tx [] v w = v
tx_calls-keep tx (c ∷ cs) v w = tx_calls-keep (tx_call tx c) cs (tx_call-IsValidTx tx c v w.0) w.1

-- A sender that `isotp_tx_init` accepts satisfies its invariant after any sequence of calls, in any
-- order and at any times: it never reads past the payload, a frame is handed out only while bytes
-- are left, and its sequence and block counters stay within their bounds.
pub tx_calls-IsValidTx :
    (c : IsotpConfig) (cs : List TxCall) {tx : IsotpTx}
    → isotp_tx_init c ≡ some tx
    → All FairCall cs
    → IsValidTx (tx_calls tx cs)
tx_calls-IsValidTx c cs {tx} e w = tx_calls-keep tx cs (isotp_tx_init-IsValidTx c e) w
