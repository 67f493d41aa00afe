-- ===== src/Transmit/Control.antt =====
-- main/bus_tx.c: who decides first, the owner that cancels a message or the driver that admits it. The
-- atomic accesses of `bus_tx_admit` are definitions of their own, so that others can come in between.
use opendiag_firmware.Base.{Bool, false, if◌then◌else◌, inl, inr, not, true, ℕ, ◌&&◌, ◌==◌, ◌⊎◌}

pub data TxState : Type 0 where
  queued : TxState
  active : TxState
  withdrawn : TxState

abbrev pub same_state : TxState → TxState → Bool
same_state queued queued = true
same_state active active = true
same_state withdrawn withdrawn = true
same_state _ _ = false

-- The `BUS_ERR_*` codes that this code returns, 0, and those of the drivers.
pub data BusResult : Type 0 where
  bus_ok : BusResult
  timed_out : BusResult
  no_space : BusResult
  not_ready : BusResult
  bad_arg : BusResult
  cancelled : BusResult
  rx_pending : BusResult
  driver_error : ℕ → BusResult

abbrev pub is_ok : BusResult → Bool
is_ok bus_ok = true
is_ok _ = false

-- `struct bus_tx_control`.
pub record Control : Type 0 where
  pub state : TxState
  pub check_rx : Bool
  pub rx_sequence : ℕ
  pub started_us : ℕ
  pub ended_us : ℕ
  pub ended : Bool

abbrev pub bus_tx_prepare : ℕ → Control
bus_tx_prepare rx_sequence = record {
  state = queued;
  check_rx = false;
  rx_sequence = rx_sequence;
  started_us = 0;
  ended_us = 0;
  ended = false;
}

-- A compare-and-exchange of the state.
unfoldable pub exchange_state : Control → TxState → TxState → Control × Bool
exchange_state control expected desired =
    if same_state control.state expected
    then (record control { state = desired }, true)
    else (control, false)

unfoldable pub bus_tx_cancel : Control → Control × Bool
unfolding exchange_state
bus_tx_cancel control = exchange_state control queued withdrawn

abbrev pub bus_tx_cancelled : Control → Bool
bus_tx_cancelled control = same_state control.state withdrawn

-- The first access of `bus_tx_admit`: the result where it returns at once, or the state it has loaded.
unfoldable pub admit_load : Control → ℕ → BusResult ⊎ TxState
admit_load control rx_sequence =
    if same_state control.state withdrawn
    then inl cancelled
    else if same_state control.state active
    then inl bus_ok
    else if control.check_rx && not (control.rx_sequence == rx_sequence)
    then inl rx_pending
    else inr control.state

-- The last one: the state becomes active, unless it is no longer the one that was loaded.
unfoldable pub admit_exchange : Control → TxState → Control × BusResult
unfolding exchange_state
admit_exchange control loaded =
    let (control', ok) = exchange_state control loaded active in
    (control', if ok then bus_ok else cancelled)

-- `bus_tx_admit` where nobody comes in between.
unfoldable pub bus_tx_admit : Control → ℕ → ℕ → Control × BusResult
unfolding admit_load admit_exchange
bus_tx_admit control rx_sequence timestamp_us = elim (admit_load control rx_sequence) [
  | inl r ↦ (control, r)
  | inr loaded ↦ admit_exchange (record control { started_us = timestamp_us }) loaded
]

abbrev pub bus_tx_end : Control → ℕ → Control
bus_tx_end control timestamp_us = record control { ended_us = timestamp_us; ended = true }
