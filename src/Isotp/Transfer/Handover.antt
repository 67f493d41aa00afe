-- ===== src/Isotp/Transfer/Handover.antt =====
-- The exchange of one flow control frame between a receiver that owes it and a sender that waits.
use opendiag_firmware.Base.{
  List, arith, false, ltb, refl, some, true, u32, ℕ, ◌+◌, ◌||◌, ◌∙◌, ◌≡◌, ◌≤◌,
}
use opendiag_firmware.Isotp.Config.{address_len, byte_at, expired, isotp_stmin_us, matches}
use opendiag_firmware.Isotp.Receiver.{
  flow_control_frame, isotp_rx_check_timeout, isotp_rx_confirm, isotp_rx_flow_control,
}
use opendiag_firmware.Isotp.Sender.{
  fc_continue, fc_status, isotp_tx_check_timeout, isotp_tx_flow_control,
}
use opendiag_firmware.Isotp.Sender.Frames.{IsPeer}
use opendiag_firmware.Isotp.Transfer.{Link, due, exchange_flow_control, running}
use opendiag_firmware.Isotp.Transfer.Sync.{InSync, IsHandover, not-expired, not-expired_now}
use opendiag_firmware.Isotp.Types.{
  CanFrame, IsotpConfig, IsotpRx, IsotpTx, frame, ignored, rx_cf, rx_fc_confirm, rx_fc_ready, tx_fc,
}

-- What the sender reads in the flow control frame of a receiver that goes on.
module _ (rx : IsotpRx) where
  pub flow_control_frame_bytes :
      rx.flow_status ≡ 0
      → let g = flow_control_frame rx in
        let a = address_len rx.config in
        (byte_at g a ≡ 48)
        × (byte_at g (a + 1) ≡ rx.config.block_size)
        × (byte_at g (a + 2) ≡ rx.config.stmin)
        × (a + 3 ≤ g.dlc)
  unfolding flow_control_frame
  flow_control_frame_bytes h = ground arith

  pub matches-flow_control_frame :
      {ct : IsotpConfig} → IsPeer rx.config ct → matches ct (flow_control_frame rx) ≡ true
  unfolding flow_control_frame matches
  matches-flow_control_frame p = ground arith

  pub isotp_rx_flow_control_ready :
      (now : ℕ)
      → rx.state ≡ rx_fc_ready
      → expired now rx.deadline_us ≡ false
      → isotp_rx_flow_control rx now ≡ (
        frame,
        record rx { state = rx_fc_confirm; deadline_us = u32 (now + rx.config.timeout_a_us) },
        some (flow_control_frame rx),
      )
  unfolding isotp_rx_flow_control isotp_rx_check_timeout
  isotp_rx_flow_control_ready now s t = ground arith

  pub isotp_rx_confirm_going :
      (now : ℕ)
      → rx.state ≡ rx_fc_confirm
      → expired now rx.deadline_us ≡ false
      → rx.flow_status ≡ 0
      → isotp_rx_confirm rx true now
        ≡ (ignored, record rx { state = rx_cf; deadline_us = u32 (now + rx.config.timeout_cr_us) })
  unfolding isotp_rx_confirm isotp_rx_check_timeout
  isotp_rx_confirm_going now s t h = ground arith

-- A sender that waits takes a matching flow control frame with status 0.
pub isotp_tx_flow_control_continue :
    (tx : IsotpTx) (f : CanFrame) (now : ℕ)
    → tx.state ≡ tx_fc
    → expired now tx.deadline_us ≡ false
    → matches tx.config f ≡ true
    → address_len tx.config + 3 ≤ f.dlc
    → byte_at f (address_len tx.config) ≡ 48
    → isotp_tx_flow_control tx f now ≡ (
      frame,
      fc_continue
          (record tx { padding_error = tx.padding_error || ltb f.dlc 8 })
          (byte_at f (address_len tx.config + 1))
          (byte_at f (address_len tx.config + 2))
          now,
    )
unfolding isotp_tx_flow_control isotp_tx_check_timeout fc_status
isotp_tx_flow_control_continue tx f now s t m l k = ground arith

-- The receiver once its flow control frame is taken, and once that is confirmed.
abbrev taken : IsotpRx → ℕ → IsotpRx
taken rx now = record rx { state = rx_fc_confirm; deadline_us = u32 (now + rx.config.timeout_a_us) }

abbrev pub granted : IsotpRx → ℕ → IsotpRx
granted rx now = record rx { state = rx_cf; deadline_us = u32 (now + rx.config.timeout_cr_us) }

-- The sender once it may go on.
abbrev pub resumed : IsotpTx → IsotpRx → CanFrame → ℕ → IsotpTx
resumed tx rx g now =
    fc_continue (record tx { padding_error = tx.padding_error || ltb g.dlc 8 }) rx.config.block_size
      rx.config.stmin now

-- Both ends after the exchange.
abbrev pub resumed_link : IsotpTx → IsotpRx → ℕ → Link
resumed_link tx rx now =
    let tx' = resumed tx rx (flow_control_frame rx) now in
    record { tx = tx'; rx = granted rx now; now = due tx' now }

module _ {payload : List ℕ} (tx : IsotpTx) (rx : IsotpRx) (now : ℕ) where
  tx_takes_flow_control :
      IsHandover payload tx rx now
      → isotp_tx_flow_control tx (flow_control_frame rx) now
        ≡ (frame, resumed tx rx (flow_control_frame rx) now)
  tx_takes_flow_control h =
      let conn = h.shared.conn in
      let g = flow_control_frame rx in
      let bytes = flow_control_frame_bytes rx h.shared.going in
      let same : address_len tx.config ≡ address_len rx.config = rw conn.forth.same in
      let alive : expired now tx.deadline_us ≡ false =
        rw h.tx_deadline
          (not-expired_now now tx.config.timeout_bs_us h.word conn.tx_bs.0 conn.tx_bs.1) in
      isotp_tx_flow_control_continue tx g now h.tx_state alive
        (matches-flow_control_frame rx conn.back) (rw same bytes.3) (rw same bytes.0)
      ∙ rw (same, bytes.1, bytes.2)

  pub exchange_lem :
      IsHandover payload tx rx now
      → exchange_flow_control tx rx now ≡ running (resumed_link tx rx now)
  unfolding exchange_flow_control
  exchange_lem h =
      let conn = h.shared.conn in
      let alive : expired now rx.deadline_us ≡ false =
        rw h.rx_deadline
          (not-expired_now now rx.config.timeout_a_us h.word conn.rx_a.0 conn.rx_a.1) in
      let confirmed =
        isotp_rx_confirm_going (taken rx now) now refl
          (not-expired_now now rx.config.timeout_a_us h.word conn.rx_a.0 conn.rx_a.1)
          h.shared.going in
      let ready = isotp_rx_flow_control_ready rx now h.rx_state alive in
      rw (ready, exchange_flow_control) (rw (tx_takes_flow_control h, ready, confirmed))

  pub resumed-InSync : IsHandover payload tx rx now → InSync payload (resumed_link tx rx now)
  unfolding fc_continue
  resumed-InSync h = record {
    shared = ground arith;
    word = ground arith;
    tx_state = refl;
    rx_state = refl;
    next = refl;
    alive = ground (
      arith,
      not-expired_now now rx.config.timeout_cr_us h.word,
      not-expired now (isotp_stmin_us rx.config.stmin) rx.config.timeout_cr_us h.word,
    );
    block_size = refl;
    block = ground arith;
    separation = ground arith;
  }
