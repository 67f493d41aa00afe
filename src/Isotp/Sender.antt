-- ===== src/Isotp/Sender.antt =====
-- main/isotp.c, the sending half: isotp_tx_init, isotp_tx_start, isotp_tx_flow_control,
-- isotp_tx_next, isotp_tx_confirm, isotp_tx_check_timeout. A function that updates `*tx` returns
-- the new record behind its result code, and the frame that it fills in behind that.
pub mod Frames
pub mod Invariant
pub mod Pacing
pub mod Runs
use opendiag_firmware.Base.{
  Bool, List, Option, [], bit_or, drop, false, if◌then◌else◌, leb, length, ltb, none, not, some,
  sub32, take, true, u16, u32, u8, write_at, ℕ, ◌%◌, ◌&&◌, ◌+◌, ◌-◌, ◌/◌, ◌==◌, ◌||◌, ◌∷◌,
}
use opendiag_firmware.Isotp.Config.{
  address_len, byte_at, expired, is_error, is_tx_cf, is_tx_confirm, is_tx_fc, is_tx_idle,
  is_tx_ready, isotp_max_payload, isotp_stmin_us, matches, prepare, valid_config,
}
use opendiag_firmware.Isotp.Types.{
  CanFrame, IsotpConfig, IsotpResult, IsotpTx, complete, err_argument, err_busy, err_flow_status,
  err_overflow, err_send, err_timeout_a, err_timeout_bs, err_wait_limit, frame, ignored, tx_cf,
  tx_confirm, tx_fc, tx_idle, tx_ready,
}

-- The sender that `isotp_tx_init` writes, all other fields zero.
unfoldable pub isotp_tx_init : IsotpConfig → Option IsotpTx
isotp_tx_init config = if valid_config config then some fresh else none
  where
    fresh : IsotpTx
    fresh = record {
      config = config;
      buffer = [];
      state = tx_idle;
      deadline_us = 0;
      next_us = 0;
      last_cf_us = 0;
      separation_us = 0;
      total = 0;
      offset = 0;
      wait_count = 0;
      sequence = 0;
      block_size = 0;
      block_count = 0;
      sent_cf = false;
      pending_cf = false;
      reserved_stmin = false;
      padding_error = false;
    }

-- `payload` is what `data` points to, `len` the length argument.
unfoldable pub isotp_tx_start : IsotpTx → List ℕ → ℕ → ℕ → IsotpResult × IsotpTx
isotp_tx_start tx payload len now =
    if len == 0
      || (ltb isotp_max_payload len
          || (tx.config.functional && ltb (7 - address_len tx.config) len))
    then (err_argument, tx)
    else if not (is_tx_idle tx.state)
    then (err_busy, tx)
    else (
      ignored,
      record tx {
        buffer = payload;
        total = u16 len;
        offset = 0;
        sequence = 1;
        wait_count = 0;
        block_count = 0;
        sent_cf = false;
        reserved_stmin = false;
        padding_error = false;
        state = tx_ready;
        deadline_us = u32 (now + tx.config.timeout_a_us);
      },
    )

unfoldable pub isotp_tx_check_timeout : IsotpTx → ℕ → IsotpResult × IsotpTx
isotp_tx_check_timeout tx now =
    if is_tx_idle tx.state || (is_tx_cf tx.state || not (expired now tx.deadline_us))
    then (ignored, tx)
    else (
      if is_tx_fc tx.state then err_timeout_bs else err_timeout_a,
      record tx { state = tx_idle },
    )

-- `stmin > 0x7f && (stmin < 0xf1 || stmin > 0xf9)`.
unfoldable pub is_reserved_stmin : ℕ → Bool
is_reserved_stmin stmin = ltb 0x7f stmin && (ltb stmin 0xf1 || ltb 0xf9 stmin)

-- Flow status 0, continue to send.
unfoldable pub fc_continue : IsotpTx → ℕ → ℕ → ℕ → IsotpTx
unfolding is_reserved_stmin
fc_continue tx size stmin now =
    let reserved = tx.reserved_stmin || is_reserved_stmin stmin in
    let separation = if reserved then 127000 else isotp_stmin_us stmin in
    let earliest = u32 (tx.last_cf_us + separation) in
    record tx {
      block_size = size;
      reserved_stmin = reserved;
      separation_us = separation;
      block_count = 0;
      wait_count = 0;
      next_us = if tx.sent_cf && not (expired now earliest) then earliest else now;
      state = tx_cf;
    }

-- Flow status 1, wait: within the limit the timer is restarted.
unfoldable pub fc_wait : IsotpTx → ℕ → IsotpResult × IsotpTx
fc_wait tx now =
    let waits = u16 (tx.wait_count + 1) in
    if leb waits tx.config.wait_limit
    then (
      frame,
      record tx { wait_count = waits; deadline_us = u32 (now + tx.config.timeout_bs_us) },
    )
    else (err_wait_limit, record tx { wait_count = waits; state = tx_idle })

-- The flow status, for a flow control frame that the sender waits for.
unfoldable pub fc_status : IsotpTx → CanFrame → ℕ → IsotpResult × IsotpTx
fc_status tx f now =
    let a = address_len tx.config in
    let fs = byte_at f a % 16 in
    let noted = record tx { padding_error = tx.padding_error || ltb f.dlc 8 } in
    if fs == 0
    then (frame, fc_continue noted (byte_at f (a + 1)) (byte_at f (a + 2)) now)
    else if fs == 1
    then fc_wait noted now
    else (if fs == 2 then err_overflow else err_flow_status, record noted { state = tx_idle })

unfoldable pub isotp_tx_flow_control : IsotpTx → CanFrame → ℕ → IsotpResult × IsotpTx
isotp_tx_flow_control tx f now =
    let (rc, tx') = isotp_tx_check_timeout tx now in
    let a = address_len tx'.config in
    if is_error rc
    then (rc, tx')
    else if not (is_tx_fc tx'.state)
        || (not (matches tx'.config f) || (ltb f.dlc (a + 3) || not (byte_at f a / 16 == 3)))
    then (ignored, tx')
    else fc_status tx' f now

-- What `isotp_tx_next` puts into a frame: its first bytes behind the address, and the number of
-- payload bytes after them.
pub record Chunk : Type 0 where
  pub control : List ℕ
  pub size : ℕ

unfoldable pub next_chunk : IsotpTx → Chunk
next_chunk tx =
    let a = address_len tx.config in
    let remaining = sub32 tx.total tx.offset in
    if tx.offset == 0 && leb tx.total (7 - a)
    then record { control = tx.total ∷ []; size = tx.total }
    else if tx.offset == 0
    then record { control = bit_or 0x10 (tx.total / 256) ∷ tx.total % 256 ∷ []; size = 6 - a }
    else record {
      control = bit_or 0x20 tx.sequence ∷ [];
      size = if ltb (7 - a) remaining then 7 - a else remaining;
    }

-- The frame: the prepared one with the control bytes at `a` and the payload bytes at `start`.
unfoldable pub chunk_frame : IsotpTx → Chunk → CanFrame
unfolding prepare
chunk_frame tx c =
    let a = address_len tx.config in
    let start = a + length c.control in
    let blank = prepare tx.config in
    record blank {
      bytes =
          write_at (write_at blank.bytes a c.control) start
            (take c.size (drop tx.offset tx.buffer));
      dlc = if tx.config.pad then 8 else start + c.size;
    }

-- The sender once the frame is handed out.
unfoldable pub after_chunk : IsotpTx → Chunk → ℕ → IsotpTx
after_chunk tx c now = record tx {
  pending_cf = not (tx.offset == 0);
  sequence = if tx.offset == 0 then tx.sequence else (tx.sequence + 1) % 16;
  offset = u16 (tx.offset + c.size);
  state = tx_confirm;
  deadline_us = u32 (now + tx.config.timeout_a_us);
}

-- The option is the frame, where one is due.
unfoldable pub isotp_tx_next : IsotpTx → ℕ → IsotpResult × IsotpTx × Option CanFrame
isotp_tx_next tx now =
    let (rc, tx') = isotp_tx_check_timeout tx now in
    if is_error rc
    then (rc, tx', none)
    else if not (is_tx_ready tx'.state) && not (is_tx_cf tx'.state)
    then (ignored, tx', none)
    else if is_tx_cf tx'.state && not (expired now tx'.next_us)
    then (ignored, tx', none)
    else (frame, after_chunk tx' (next_chunk tx') now, some (chunk_frame tx' (next_chunk tx')))

-- What a confirmed frame that does not end the message leads to.
unfoldable pub after_confirm : IsotpTx → ℕ → IsotpTx
after_confirm tx now =
    let count = u8 (tx.block_count + 1) in
    let counted =
      if tx.pending_cf
      then record tx { sent_cf = true; last_cf_us = now; block_count = count }
      else tx in
    if not tx.pending_cf || (not (tx.block_size == 0) && counted.block_count == tx.block_size)
    then record counted { state = tx_fc; deadline_us = u32 (now + tx.config.timeout_bs_us) }
    else record counted { state = tx_cf; next_us = u32 (now + tx.separation_us) }

unfoldable pub isotp_tx_confirm : IsotpTx → Bool → ℕ → IsotpResult × IsotpTx
isotp_tx_confirm tx success now =
    let (rc, tx') = isotp_tx_check_timeout tx now in
    if not (is_tx_confirm tx.state)
    then (err_argument, tx)
    else if is_error rc
    then (rc, tx')
    else if not success
    then (err_send, record tx' { state = tx_idle })
    else if tx'.offset == tx'.total
    then (complete, record tx' { state = tx_idle })
    else (ignored, after_confirm tx' now)
