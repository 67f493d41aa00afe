-- ===== src/Isotp/Transfer/First.antt =====
-- The first frame of a longer message, and the flow control that answers it.
use opendiag_firmware.Base.{
  List, arith, bit_or_first, drop, false, inl, length, refl, subst, take, true, u32, ℕ, ◌%◌, ◌+◌,
  ◌-◌, ◌/◌, ◌<◌, ◌≡◌,
}
use opendiag_firmware.Isotp.Config.{address_len, byte_at}
use opendiag_firmware.Isotp.Receiver.{isotp_rx_feed}
use opendiag_firmware.Isotp.Receiver.Invariant.{store-Fits}
use opendiag_firmware.Isotp.Receiver.Stored.{
  feed_first_accepts, first_stored, isotp_rx_feed_first, store_start-HasPrefix,
}
use opendiag_firmware.Isotp.Sender.{
  Chunk, after_chunk, after_confirm, chunk_frame, isotp_tx_check_timeout, isotp_tx_confirm,
  next_chunk,
}
use opendiag_firmware.Isotp.Sender.Frames.{
  control-two_controls, matches-two_controls, payload-two_controls, two_controls,
}
use opendiag_firmware.Isotp.Transfer.{Link, round, running}
use opendiag_firmware.Isotp.Transfer.Handover.{exchange_lem, resumed_link}
use opendiag_firmware.Isotp.Transfer.Start.{IsReady, alive, same_address, sends_first, started}
use opendiag_firmware.Isotp.Transfer.Sync.{IsHandover}
use opendiag_firmware.Isotp.Types.{IsotpRx, IsotpTx, ignored, tx_fc}

module _ {payload : List ℕ} (l : Link) (h : IsReady payload l)
    (long : 7 - address_len l.tx.config < length payload) where
  abbrev pub first_chunk : Chunk
  first_chunk =
      two_controls (16 + length payload / 256) (length payload % 256) (6 - address_len l.tx.config)

  next_chunk-eq-first : next_chunk (started l h) ≡ first_chunk
  unfolding next_chunk
  next_chunk-eq-first = ground (arith, bit_or_first (length payload / 256) (omega (arith, h.small)))

  abbrev pub first_sent : IsotpTx
  first_sent = after_chunk (started l h) first_chunk l.now

  abbrev pub first_wait : IsotpTx
  first_wait = record first_sent {
    state = tx_fc;
    deadline_us = u32 (l.now + l.tx.config.timeout_bs_us);
  }

  confirm_first : isotp_tx_confirm first_sent true l.now ≡ (ignored, first_wait)
  unfolding isotp_tx_confirm isotp_tx_check_timeout after_chunk after_confirm
  confirm_first = ground (arith, (alive l h), h.small)

  abbrev pub first_end : IsotpRx
  first_end = first_stored l.rx (chunk_frame (started l h) first_chunk) l.now (length payload)

  first_dlc : (chunk_frame (started l h) first_chunk).dlc ≡ 8
  unfolding chunk_frame
  first_dlc = ground arith

  receives_segments : l.rx.config.functional ≡ false
  receives_segments = ground (arith, h.allowed)

  receives_first : (isotp_rx_feed l.rx (chunk_frame (started l h) first_chunk) l.now).1 ≡ first_end
  receives_first =
      let f = chunk_frame (started l h) first_chunk in
      let n = length payload in
      let controls =
        control-two_controls (started l h) (16 + n / 256) (n % 256) (6 - address_len l.tx.config) in
      let k : byte_at f (address_len l.rx.config) ≡ 16 + n / 256 =
        rw (← (same_address l h)) controls.0 in
      let j : byte_at f (address_len l.rx.config + 1) ≡ n % 256 =
        rw (← (same_address l h)) controls.1 in
      let taken =
        isotp_rx_feed_first l.rx f l.now h.rx_state
          (matches-two_controls (started l h) (16 + n / 256) (n % 256) (6 - address_len l.tx.config)
            h.conn.forth (ground arith))
          (omega (arith, k, h.small)) in
      rw taken (
        feed_first_accepts l.rx f l.now n (omega (arith, k, j, h.small))
          (omega (arith, (same_address l h), long)) h.small first_dlc receives_segments h.room)

  first_carries :
      take
        (6 - address_len l.rx.config)
        (drop (address_len l.rx.config + 2) (chunk_frame (started l h) first_chunk).bytes)
      ≡ take (6 - address_len l.rx.config) payload
  first_carries =
      subst
        (λ a.
          take (6 - a) (drop (a + 2) (chunk_frame (started l h) first_chunk).bytes)
          ≡ take (6 - a) payload)
        (same_address l h)
        (payload-two_controls (started l h) (16 + length payload / 256) (length payload % 256)
          (6 - address_len l.tx.config) (ground arith) (ground arith))

  pub first-IsHandover : IsHandover payload first_wait first_end l.now
  unfolding after_chunk
  first-IsHandover = record {
    shared = record {
      conn = h.conn;
      buffer = refl;
      tx_total = refl;
      rx_total = refl;
      small = h.small;
      offset = ground (arith, (same_address l h));
      begun = ground arith;
      more = ground arith;
      sequence = refl;
      digit = omega arith;
      fits =
          store-Fits l.rx.buffer l.rx.capacity 0
            (take (6 - address_len l.rx.config)
              (drop (address_len l.rx.config + 2) (chunk_frame (started l h) first_chunk).bytes))
            h.fits;
      room = h.room;
      stored =
          store_start-HasPrefix l.rx.buffer l.rx.capacity (6 - address_len l.rx.config) payload
            (take (6 - address_len l.rx.config)
              (drop (address_len l.rx.config + 2) (chunk_frame (started l h) first_chunk).bytes))
            h.fits h.buffered (ground (arith, (same_address l h), h.room))
            (ground (arith, (same_address l h))) first_carries;
      going = refl;
      defined = refl;
    };
    word = h.word;
    tx_state = refl;
    rx_state = refl;
    tx_deadline = refl;
    rx_deadline = refl;
    counted = refl;
    last = inl refl;
  }

  pub round_first :
      round (record l { tx = (started l h) }) ≡ running (resumed_link first_wait first_end l.now)
  unfolding round
  round_first =
      let sends = rw next_chunk-eq-first at (sends_first l h) in
      rw (sends, round)
        (rw (sends, confirm_first, receives_first)
          (exchange_lem first_wait first_end l.now first-IsHandover))
