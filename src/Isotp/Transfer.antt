-- ===== src/Isotp/Transfer.antt =====
-- A sender and a receiver of main/isotp.c on a bus that loses nothing: what one hands out the
-- other is fed, and each transmission is confirmed.
pub mod Sync
pub mod Handover
pub mod Rounds
pub mod Advance
pub mod Delivery
pub mod Start
pub mod Single
pub mod First
pub mod Whole
use opendiag_firmware.Base.{
  Bool, List, Option, false, if◌then◌else◌, length, none, some, suc, true, zero, ℕ,
}
use opendiag_firmware.Isotp.Config.{is_error, is_tx_cf}
use opendiag_firmware.Isotp.Receiver.{isotp_rx_confirm, isotp_rx_feed, isotp_rx_flow_control}
use opendiag_firmware.Isotp.Sender.{
  isotp_tx_confirm, isotp_tx_flow_control, isotp_tx_next, isotp_tx_start,
}
use opendiag_firmware.Isotp.Types.{IsotpResult, IsotpRx, IsotpTx, complete}

-- `now` is the clock that both ends read.
pub record Link : Type 0 where
  pub tx : IsotpTx
  pub rx : IsotpRx
  pub now : ℕ

-- After a round the message is under way or delivered; `stuck` where the sender has no frame.
pub data Progress : Type 0 where
  running : Link → Progress
  delivered : Link → Progress
  stuck : Link → Progress

-- The next moment of interest: a consecutive frame is due after the separation time.
abbrev pub due : IsotpTx → ℕ → ℕ
due tx now = if is_tx_cf tx.state then tx.next_us else now

-- The flow control that the receiver owes, if it owes one, and its confirmation.
unfoldable pub exchange_flow_control : IsotpTx → IsotpRx → ℕ → Progress
exchange_flow_control tx rx now =
    let (_, rx', g) = isotp_rx_flow_control rx now in
    elim g [
      | none ↦ running (record { tx = tx; rx = rx'; now = due tx now })
      | some f ↦
          (let tx' = (isotp_tx_flow_control tx f now).1 in
            running
              (record { tx = tx'; rx = (isotp_rx_confirm rx' true now).1; now = due tx' now }))
    ]

abbrev pub is_complete : IsotpResult → Bool
is_complete complete = true
is_complete _ = false

-- One frame of the message, from the sender through the bus.
unfoldable pub round : Link → Progress
round l =
    let (_, tx, g) = isotp_tx_next l.tx l.now in
    elim g [
      | none ↦ stuck l
      | some f ↦
          (let rx = (isotp_rx_feed l.rx f l.now).1 in
            let (rc, tx') = isotp_tx_confirm tx true l.now in
            if is_complete rc
            then delivered (record { tx = tx'; rx = rx; now = l.now })
            else exchange_flow_control tx' rx l.now)
    ]

-- Rounds until the message is delivered; `none` where the sender is stuck or the rounds run out.
unfoldable pub rounds : ℕ → Progress → Option Link
rounds n (delivered l) = some l
rounds n (stuck l) = none
rounds zero (running l) = none
rounds (suc n) (running l) = rounds n (round l)

-- A message of `payload` from an idle sender to an idle receiver.
unfoldable pub transfer : Link → List ℕ → Option Link
transfer l payload =
    let (rc, tx) = isotp_tx_start l.tx payload (length payload) l.now in
    if is_error rc then none else rounds (suc (length payload)) (running (record l { tx = tx }))
