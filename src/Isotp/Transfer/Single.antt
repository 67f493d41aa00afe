-- ===== src/Isotp/Transfer/Single.antt =====
-- A message that fits a single frame is delivered by it.
use opendiag_firmware.Base.{
  List, ap, arith, drop, length, refl, sym, take, true, ℕ, ◌+◌, ◌-◌, ◌∙◌, ◌≡◌, ◌≤◌,
}
use opendiag_firmware.Isotp.Config.{address_len, byte_at}
use opendiag_firmware.Isotp.Receiver.{isotp_rx_feed}
use opendiag_firmware.Isotp.Receiver.Stored.{
  feed_single_accepts, isotp_rx_feed_single, single_stored, store_start-HasPrefix,
}
use opendiag_firmware.Isotp.Sender.{
  Chunk, after_chunk, chunk_frame, isotp_tx_check_timeout, isotp_tx_confirm, next_chunk,
}
use opendiag_firmware.Isotp.Sender.Frames.{
  control-one_control, matches-one_control, one_control, payload-one_control,
}
use opendiag_firmware.Isotp.Transfer.{Link, delivered, round}
use opendiag_firmware.Isotp.Transfer.Delivery.{IsDelivered}
use opendiag_firmware.Isotp.Transfer.Start.{IsReady, alive, same_address, sends_first, started}
use opendiag_firmware.Isotp.Types.{IsotpRx, IsotpTx, complete, tx_idle}

module _ {payload : List ℕ} (l : Link) (h : IsReady payload l)
    (short : length payload ≤ 7 - address_len l.tx.config) where
  abbrev single : Chunk
  single = one_control (length payload) (length payload)

  next_chunk-eq-single : next_chunk (started l h) ≡ single
  unfolding next_chunk
  next_chunk-eq-single = ground arith

  abbrev single_sent : IsotpTx
  single_sent = after_chunk (started l h) single l.now

  confirm_single :
      isotp_tx_confirm single_sent true l.now ≡ (complete, record single_sent { state = tx_idle })
  unfolding isotp_tx_confirm isotp_tx_check_timeout after_chunk
  confirm_single = ground (arith, (alive l h), h.small)

  abbrev single_end : IsotpRx
  single_end = single_stored l.rx (chunk_frame (started l h) single) l.now (length payload)

  single_fits :
      address_len l.rx.config + 1 + length payload ≤ (chunk_frame (started l h) single).dlc
  unfolding chunk_frame
  single_fits = ground (arith, (same_address l h), short, h.some_bytes)

  receives_single : (isotp_rx_feed l.rx (chunk_frame (started l h) single) l.now).1 ≡ single_end
  receives_single =
      let f = chunk_frame (started l h) single in
      let n = length payload in
      let control : byte_at f (address_len l.rx.config) ≡ n =
        rw (← (same_address l h)) (control-one_control (started l h) n n) in
      let taken =
        isotp_rx_feed_single l.rx f l.now h.rx_state
          (matches-one_control (started l h) n n h.conn.forth (omega (arith, short, h.some_bytes)))
          (omega (arith, control, short)) in
      rw taken
        (feed_single_accepts l.rx f l.now n control h.some_bytes (omega arith) single_fits h.room)

  single_carries :
      take
        (length payload)
        (drop (address_len l.rx.config + 1) (chunk_frame (started l h) single).bytes)
      ≡ take (length payload) payload
  single_carries =
      ap (λ k. take (length payload) (drop (k + 1) (chunk_frame (started l h) single).bytes))
        (sym (same_address l h))
      ∙ payload-one_control (started l h) (length payload) (length payload)
          (omega (arith, short, h.some_bytes)) (omega arith)

  round_single :
      round (record l { tx = (started l h) })
      ≡ delivered
          (record { tx = record single_sent { state = tx_idle }; rx = single_end; now = l.now })
  unfolding round
  round_single =
      let sends = rw next_chunk-eq-single at (sends_first l h) in
      rw (sends, round) (rw (sends, confirm_single, receives_single))

  single-IsDelivered :
      IsDelivered payload
        (record { tx = record single_sent { state = tx_idle }; rx = single_end; now = l.now })
  single-IsDelivered = record {
    sender_idle = refl;
    receiver_idle = refl;
    complete = refl;
    holds =
        store_start-HasPrefix l.rx.buffer l.rx.capacity (length payload) payload
          (take (length payload)
            (drop (address_len l.rx.config + 1) (chunk_frame (started l h) single).bytes))
          h.fits h.buffered h.room (omega arith) single_carries;
  }

  pub deliver_single :
      (l' : Link) × (round (record l { tx = (started l h) }) ≡ delivered l')
      × IsDelivered payload l'
  deliver_single = (
    record { tx = record single_sent { state = tx_idle }; rx = single_end; now = l.now },
    round_single,
    single-IsDelivered,
  )
