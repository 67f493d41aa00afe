-- ===== src/Isotp/Transfer/Advance.antt =====
-- What follows a consecutive frame that does not end the message: the next one, or flow control.
use opendiag_firmware.Base.{
  List, arith, dec_lt, false, inl, inr, length, refl, true, u32, u8, ℕ, ℕ_discrete, ◌+◌, ◌<◌, ◌∙◌,
  ◌≡◌, ◌≢◌, ◌⊎◌,
}
use opendiag_firmware.Isotp.Config.{expired, isotp_stmin_us}
use opendiag_firmware.Isotp.Receiver.{feed_advance, isotp_rx_check_timeout, isotp_rx_flow_control}
use opendiag_firmware.Isotp.Sender.{after_chunk, after_confirm, fc_continue}
use opendiag_firmware.Isotp.Transfer.{Link, due, exchange_flow_control, round, running}
use opendiag_firmware.Isotp.Transfer.Handover.{exchange_lem, resumed-InSync, resumed_link}
use opendiag_firmware.Isotp.Transfer.Rounds.{
  cf_copied, cf_copied-Fits, cf_copied-HasPrefix, cf_sent, cf_step, round_more,
}
use opendiag_firmware.Isotp.Transfer.Sync.{
  InSync, IsHandover, IsShared, not-expired, not-expired_now,
}
use opendiag_firmware.Isotp.Types.{
  IsotpRx, IsotpTx, RxState, TxState, rx_cf, rx_fc_ready, tx_cf, tx_fc,
}

-- A receiver that waits for a consecutive frame owes no flow control.
exchange_none :
    (tx : IsotpTx) (rx : IsotpRx) (now : ℕ)
    → rx.state ≡ rx_cf
    → expired now rx.deadline_us ≡ false
    → exchange_flow_control tx rx now ≡ running (record { tx = tx; rx = rx; now = due tx now })
unfolding exchange_flow_control isotp_rx_flow_control isotp_rx_check_timeout
exchange_none tx rx now s t = ground arith

module _ {payload : List ℕ} (l : Link) (h : InSync payload l)
    (more : l.tx.offset + cf_step l h < length payload) where
  -- The sender after a frame that leaves the block open, or ends it.
  abbrev counted : IsotpTx
  counted = record (cf_sent l h) {
    sent_cf = true;
    last_cf_us = l.now;
    block_count = u8 (l.tx.block_count + 1);
  }

  abbrev tx_on : IsotpTx
  tx_on = record counted { state = tx_cf; next_us = u32 (l.now + l.tx.separation_us) }

  abbrev tx_wait : IsotpTx
  tx_wait = record counted { state = tx_fc; deadline_us = u32 (l.now + l.tx.config.timeout_bs_us) }

  -- The receiver likewise, with the frames of the block that it has counted.
  abbrev rx_on : ℕ → IsotpRx
  rx_on n = record (cf_copied l h) {
    deadline_us = u32 (l.now + l.rx.config.timeout_cr_us);
    block_count = n;
  }

  abbrev rx_wait : IsotpRx
  rx_wait = record (cf_copied l h) {
    block_count = 0;
    state = rx_fc_ready;
    deadline_us = u32 (l.now + l.rx.config.timeout_a_us);
  }

  -- Whatever states and timers they are left in, the two ends agree.
  IsShared-after :
      (ts : TxState) (rs : RxState) (td tn rd n : ℕ)
      → IsShared payload
          (record counted { state = ts; deadline_us = td; next_us = tn })
          (record (cf_copied l h) { state = rs; deadline_us = rd; block_count = n })
  unfolding after_chunk
  IsShared-after ts rs td tn rd n =
      let s = h.shared in
      record {
        conn = s.conn;
        buffer = s.buffer;
        tx_total = s.tx_total;
        rx_total = s.rx_total;
        small = s.small;
        offset = omega (arith, s.offset, s.small, more);
        begun = omega (arith, s.begun, s.small, more);
        more = omega (arith, s.small, more);
        sequence = rw s.sequence (ground (arith, s.begun));
        digit = ground (arith, s.digit);
        fits = cf_copied-Fits l h;
        room = s.room;
        stored = cf_copied-HasPrefix l h;
        going = s.going;
        defined = s.defined;
      }

  -- The block goes on, or there are no blocks.
  abbrev InBlock : ℕ → Type 0
  InBlock n =
      (l.tx.block_size ≡ 0)
      ⊎ (n ≡ u8 (l.tx.block_count + 1)) × (u8 (l.tx.block_count + 1) < l.tx.block_size)

  on-InSync :
      (n : ℕ)
      → InBlock n
      → InSync payload (record { tx = tx_on; rx = rx_on n; now = due tx_on l.now })
  unfolding after_chunk
  on-InSync n b =
      let conn = h.shared.conn in
      record {
        shared =
            IsShared-after tx_cf l.rx.state tx_on.deadline_us tx_on.next_us (rx_on n).deadline_us n;
        word = omega arith;
        tx_state = refl;
        rx_state = h.rx_state;
        next = refl;
        alive = rw h.separation (
            not-expired l.now (isotp_stmin_us l.rx.config.stmin) l.rx.config.timeout_cr_us h.word
              conn.rx_cr.0 conn.rx_cr.1);
        block_size = h.block_size;
        block = b;
        separation = h.separation;
      }

  wait-IsHandover : IsHandover payload tx_wait rx_wait l.now
  unfolding after_chunk
  wait-IsHandover = record {
    shared =
        IsShared-after tx_fc rx_fc_ready tx_wait.deadline_us l.tx.next_us rx_wait.deadline_us 0;
    word = h.word;
    tx_state = refl;
    rx_state = refl;
    tx_deadline = refl;
    rx_deadline = refl;
    counted = refl;
    last = inr refl;
  }

  -- Which of the two comes after the frame.
  after_on :
      (l.tx.block_size ≡ 0) ⊎ (u8 (l.tx.block_count + 1) < l.tx.block_size)
      → (n : ℕ) × InBlock n
        × (after_confirm (cf_sent l h) l.now ≡ tx_on)
        × ((feed_advance (cf_copied l h) l.now false).1 ≡ rx_on n)
  unfolding after_confirm feed_advance after_chunk
  after_on b = elim (ℕ_discrete l.tx.block_size 0) [
    | yes e ↦
        (l.rx.block_count, inl e, ground (arith, h.shared.begun), ground (arith, h.block_size))
    | no n ↦ (
      u8 (l.tx.block_count + 1),
      inr (refl, omega arith),
      ground (arith, h.shared.begun),
      ground (arith, h.block_size, h.block),
    )
  ]

  after_wait :
      u8 (l.tx.block_count + 1) ≡ l.tx.block_size
      → l.tx.block_size ≢ 0
      → (after_confirm (cf_sent l h) l.now ≡ tx_wait)
        × ((feed_advance (cf_copied l h) l.now false).1 ≡ rx_wait)
  unfolding after_confirm feed_advance after_chunk
  after_wait e n = ground (arith, h.shared.begun, h.block, h.block_size)

  -- The frame ends the block exactly where the count reaches the block size.
  block_cases :
      ((l.tx.block_size ≡ 0) ⊎ (u8 (l.tx.block_count + 1) < l.tx.block_size))
      ⊎ (u8 (l.tx.block_count + 1) ≡ l.tx.block_size) × (l.tx.block_size ≢ 0)
  block_cases =
      let byte = h.shared.conn.block_byte in
      elim (ℕ_discrete l.tx.block_size 0) [
        | yes e ↦ inl (inl e)
        | no n ↦ elim (dec_lt (u8 (l.tx.block_count + 1)) l.tx.block_size) [
          | yes k ↦ inl (inr k)
          | no k ↦ inr (omega (arith, h.block, h.block_size, byte), n)
        ]
      ]

  offset_after :
      (tx_on.offset ≡ l.tx.offset + cf_step l h)
      × ((resumed_link tx_wait rx_wait l.now).tx.offset ≡ l.tx.offset + cf_step l h)
  unfolding after_chunk fc_continue
  offset_after =
      let small = h.shared.small in (omega (arith, small, more), omega (arith, small, more))

  -- A round that does not end the message leaves both ends in step, further on.
  pub round_advances :
      (l' : Link) × (round l ≡ running l')
      × InSync payload l'
      × (l'.tx.offset ≡ l.tx.offset + cf_step l h)
  round_advances =
      let conn = h.shared.conn in
      elim block_cases [
        | inl b ↦
            (let (n, i, p, q) = after_on b in
              let alive : expired l.now (rx_on n).deadline_us ≡ false =
                not-expired_now l.now l.rx.config.timeout_cr_us h.word (omega (arith, conn.rx_cr.0))
                  conn.rx_cr.1 in
              (
                record { tx = tx_on; rx = rx_on n; now = due tx_on l.now },
                round_more l h more
                    ∙ rw (p, q) (exchange_none tx_on (rx_on n) l.now h.rx_state alive),
                on-InSync n i,
                offset_after.0,
              ))
        | inr (e, n) ↦
            (let (p, q) = after_wait e n in
              (
                resumed_link tx_wait rx_wait l.now,
                round_more l h more
                    ∙ rw (p, q) (exchange_lem tx_wait rx_wait l.now wait-IsHandover),
                resumed-InSync tx_wait rx_wait l.now wait-IsHandover,
                offset_after.1,
              ))
      ]
