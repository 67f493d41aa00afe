-- ===== src/Isotp/Transfer/Rounds.antt =====
-- One round from two ends in step: a consecutive frame goes over, and the message is delivered or
-- both ends are in step further on.
use opendiag_firmware.Base.{
  List, ap, ap₂, arith, bit_or_consecutive, drop, false, length, ltb, some, sym, take, true, ℕ, ◌%◌,
  ◌+◌, ◌<◌, ◌==◌, ◌||◌, ◌∙◌, ◌≡◌, ◌≤◌,
}
use opendiag_firmware.Isotp.Config.{address_len, byte_at, matches}
use opendiag_firmware.Isotp.Receiver.{cf_size, copy_consecutive, feed_advance, isotp_rx_feed, store}
use opendiag_firmware.Isotp.Receiver.Invariant.{Fits, copy_consecutive-complete, store-Fits}
use opendiag_firmware.Isotp.Receiver.Stored.{
  HasPrefix, copy_consecutive_lem, feed_consecutive_accepts, isotp_rx_feed_consecutive,
  store-HasPrefix,
}
use opendiag_firmware.Isotp.Sender.{
  Chunk, after_chunk, after_confirm, chunk_frame, isotp_tx_check_timeout, isotp_tx_confirm,
  isotp_tx_next, next_chunk,
}
use opendiag_firmware.Isotp.Sender.Frames.{
  control-one_control, matches-one_control, one_control, payload-one_control,
}
use opendiag_firmware.Isotp.Transfer.{Link, delivered, exchange_flow_control, round}
use opendiag_firmware.Isotp.Transfer.Sync.{InSync, expired_self, not-expired_now}
use opendiag_firmware.Isotp.Types.{
  CanFrame, IsotpRx, IsotpTx, complete, frame, ignored, rx_idle, tx_idle,
}

module _ {payload : List ℕ} (l : Link) (h : InSync payload l) where
  -- The number of bytes that the next frame carries, as the receiver counts them.
  abbrev pub cf_step : ℕ
  cf_step = cf_size l.rx

  abbrev pub cf_chunk : Chunk
  cf_chunk = one_control (32 + l.tx.sequence) cf_step

  pub step_bounds :
      (0 < cf_step)
      × (l.tx.offset + cf_step ≤ length payload)
      × (address_len l.tx.config + 1 + cf_step ≤ 8)
  unfolding cf_size
  step_bounds = let s = h.shared in let conn = s.conn in ground (arith, conn.forth.same)

  next_chunk-eq-chunk : next_chunk l.tx ≡ cf_chunk
  unfolding next_chunk cf_size
  next_chunk-eq-chunk =
      let s = h.shared in
      let conn = s.conn in ground (arith, conn.forth.same, bit_or_consecutive l.tx.sequence s.digit)

  abbrev pub cf_sent : IsotpTx
  cf_sent = after_chunk l.tx cf_chunk l.now

  abbrev pub cf_frame : CanFrame
  cf_frame = chunk_frame l.tx cf_chunk

  sends : isotp_tx_next l.tx l.now ≡ (frame, cf_sent, some cf_frame)
  unfolding isotp_tx_next isotp_tx_check_timeout
  sends = ground (arith, next_chunk-eq-chunk, expired_self l.now h.word)

  same_address : address_len l.tx.config ≡ address_len l.rx.config
  same_address = rw h.shared.conn.forth.same

  control_byte : byte_at cf_frame (address_len l.rx.config) ≡ 32 + l.tx.sequence
  control_byte = rw (← same_address) (control-one_control l.tx (32 + l.tx.sequence) cf_step)

  long_enough : address_len l.rx.config + 1 + cf_step ≤ cf_frame.dlc
  unfolding chunk_frame
  long_enough = ground (arith, step_bounds, same_address)

  accepts : matches l.rx.config cf_frame ≡ true
  accepts = matches-one_control l.tx (32 + l.tx.sequence) cf_step h.shared.conn.forth step_bounds.2

  -- The frame's payload is the next part of the message.
  carries :
      take cf_step (drop (address_len l.rx.config + 1) cf_frame.bytes)
      ≡ take cf_step (drop l.rx.offset payload)
  carries =
      let s = h.shared in
      ap (λ k. take cf_step (drop (k + 1) cf_frame.bytes)) (sym same_address)
      ∙ payload-one_control l.tx (32 + l.tx.sequence) cf_step step_bounds.2
          (rw s.buffer step_bounds.1)
      ∙ ap₂ (λ o b. take cf_step (drop o b)) (sym s.offset) s.buffer

  abbrev pub cf_copied : IsotpRx
  cf_copied = record l.rx {
    buffer =
        store l.rx.buffer l.rx.offset
          (take cf_step (drop (address_len l.rx.config + 1) cf_frame.bytes));
    offset = l.rx.offset + cf_step;
    sequence = (l.rx.sequence + 1) % 16;
    padding_error = l.rx.padding_error || ltb cf_frame.dlc 8;
  }

  copied_lem : (copy_consecutive l.rx cf_frame).0 ≡ cf_copied
  copied_lem =
      let s = h.shared in
      copy_consecutive_lem l.rx cf_frame (omega (arith, step_bounds, s.offset, s.small))

  receives :
      (isotp_rx_feed l.rx cf_frame l.now).1
      ≡ (feed_advance cf_copied l.now (cf_copied.offset == cf_copied.total)).1
  receives =
      let s = h.shared in
      let taken =
        isotp_rx_feed_consecutive l.rx cf_frame l.now h.rx_state h.alive accepts
          (omega (arith, control_byte, s.digit))
        ∙ feed_consecutive_accepts l.rx cf_frame l.now long_enough
            (omega (arith, control_byte, s.digit, s.sequence)) in
      rw (taken, copy_consecutive-complete l.rx cf_frame, copied_lem)

  -- The copy leaves the receiver with the message up to the new offset.
  pub cf_copied-HasPrefix : HasPrefix cf_copied.buffer cf_copied.offset payload
  cf_copied-HasPrefix =
      let s = h.shared in
      store-HasPrefix l.rx.buffer l.rx.capacity l.rx.offset cf_step payload
        (take cf_step (drop (address_len l.rx.config + 1) cf_frame.bytes)) s.fits
        (omega (arith, step_bounds, s.offset, s.room)) (omega (arith, step_bounds, s.offset))
        carries s.stored

  pub cf_copied-Fits : Fits cf_copied.buffer cf_copied.capacity
  cf_copied-Fits =
      store-Fits l.rx.buffer l.rx.capacity l.rx.offset
        (take cf_step (drop (address_len l.rx.config + 1) cf_frame.bytes)) h.shared.fits

  confirm_last :
      l.tx.offset + cf_step ≡ length payload
      → isotp_tx_confirm cf_sent true l.now ≡ (complete, record cf_sent { state = tx_idle })
  unfolding isotp_tx_confirm isotp_tx_check_timeout after_chunk
  confirm_last e =
      let s = h.shared in
      ground
        (arith, not-expired_now l.now l.tx.config.timeout_a_us h.word, s.conn.tx_a, step_bounds)

  confirm_more :
      l.tx.offset + cf_step < length payload
      → isotp_tx_confirm cf_sent true l.now ≡ (ignored, after_confirm cf_sent l.now)
  unfolding isotp_tx_confirm isotp_tx_check_timeout after_chunk
  confirm_more e =
      let s = h.shared in
      ground
        (arith, not-expired_now l.now l.tx.config.timeout_a_us h.word, s.conn.tx_a, step_bounds)

  pub round_last :
      l.tx.offset + cf_step ≡ length payload
      → round l
        ≡ delivered (record {
          tx = record cf_sent { state = tx_idle };
          rx = record cf_copied { state = rx_idle };
          now = l.now;
        })
  unfolding round feed_advance
  round_last e =
      let s = h.shared in
      let all : (cf_copied.offset == cf_copied.total) ≡ true =
        ground (arith, s.offset, s.rx_total) in
      rw (sends, round) (rw (sends, confirm_last e, receives, all))

  pub round_more :
      l.tx.offset + cf_step < length payload
      → round l
        ≡ exchange_flow_control
            (after_confirm cf_sent l.now)
            (feed_advance cf_copied l.now false).1
            l.now
  unfolding round
  round_more e =
      let s = h.shared in
      let part : (cf_copied.offset == cf_copied.total) ≡ false =
        ground (arith, s.offset, s.rx_total) in
      rw (sends, round) (rw (sends, confirm_more e, receives, part))
