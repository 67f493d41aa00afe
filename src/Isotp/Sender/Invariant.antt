-- ===== src/Isotp/Sender/Invariant.antt =====
-- The invariant of a sender, and that every operation of isotp_tx_t keeps it.
use opendiag_firmware.Base.{
  All-get_or, Bool, List, arith, length, ltb, some, true, ℕ, ◌+◌, ◌<◌, ◌||◌, ◌≡◌, ◌≤◌, ◌⊎◌,
}
use opendiag_firmware.Isotp.Config.{address_len, byte_at}
use opendiag_firmware.Isotp.Receiver.Invariant.{IsFrame}
use opendiag_firmware.Isotp.Sender.{
  after_chunk, after_confirm, fc_continue, fc_status, fc_wait, isotp_tx_check_timeout,
  isotp_tx_confirm, isotp_tx_flow_control, isotp_tx_init, isotp_tx_next, isotp_tx_start, next_chunk,
}
use opendiag_firmware.Isotp.Types.{
  CanFrame, IsotpConfig, IsotpTx, tx_cf, tx_confirm, tx_fc, tx_ready,
}

-- A message that is partly sent.
pub record IsPartial (tx : IsotpTx) : Type 0 where
  pub begun : 0 < tx.offset
  pub more : tx.offset < tx.total

-- With a block size, the frames of the block that are sent leave room for the next.
abbrev pub BlockRoom : IsotpTx → Type 0
BlockRoom tx = (tx.block_size ≡ 0) ⊎ (tx.block_count < tx.block_size)

pub record IsValidTx (tx : IsotpTx) : Type 0 where
  pub payload : tx.total ≤ length tx.buffer
  pub small : tx.total ≤ 4095
  pub within : tx.offset ≤ tx.total
  pub digit : tx.sequence < 16
  pub block_byte : tx.block_size < 256
  pub ready_fresh : tx.state ≡ tx_ready → (tx.offset ≡ 0) × (0 < tx.total)
  pub confirm_begun : tx.state ≡ tx_confirm → 0 < tx.offset
  pub confirm_block : tx.state ≡ tx_confirm → tx.pending_cf ≡ true → BlockRoom tx
  pub fc_partial : tx.state ≡ tx_fc → IsPartial tx
  pub cf_partial : tx.state ≡ tx_cf → IsPartial tx
  pub cf_block : tx.state ≡ tx_cf → BlockRoom tx

pub isotp_tx_check_timeout-IsValidTx :
    (tx : IsotpTx) (now : ℕ) → IsValidTx tx → IsValidTx (isotp_tx_check_timeout tx now).1
unfolding isotp_tx_check_timeout
isotp_tx_check_timeout-IsValidTx tx now v = ground arith

pub isotp_tx_init-IsValidTx :
    (c : IsotpConfig) {tx : IsotpTx} → isotp_tx_init c ≡ some tx → IsValidTx tx
unfolding isotp_tx_init
isotp_tx_init-IsValidTx c e = ground arith

pub isotp_tx_start-IsValidTx :
    (tx : IsotpTx) (payload : List ℕ) (len now : ℕ)
    → IsValidTx tx
    → len ≤ length payload
    → IsValidTx (isotp_tx_start tx payload len now).1
unfolding isotp_tx_start
isotp_tx_start-IsValidTx tx payload len now v h = ground arith

fc_continue-IsValidTx :
    (tx : IsotpTx) (size stmin now : ℕ)
    → IsValidTx tx
    → IsPartial tx
    → size < 256
    → IsValidTx (fc_continue tx size stmin now)
unfolding fc_continue
fc_continue-IsValidTx tx size stmin now v p h = record {
  payload = v.payload;
  small = v.small;
  within = v.within;
  digit = v.digit;
  block_byte = h;
  ready_fresh = λ e. absurd (cc);
  confirm_begun = λ e. absurd (cc);
  confirm_block = λ e. absurd (cc);
  fc_partial = λ e. absurd (cc);
  cf_partial = λ e. record { begun = p.begun; more = p.more };
  cf_block = λ e. ground arith;
}

fc_wait-IsValidTx : (tx : IsotpTx) (now : ℕ) → IsValidTx tx → IsValidTx (fc_wait tx now).1
unfolding fc_wait
fc_wait-IsValidTx tx now v = ground arith

fc_status-IsValidTx :
    (tx : IsotpTx) (f : CanFrame) (now : ℕ)
    → IsValidTx tx
    → tx.state ≡ tx_fc
    → IsFrame f
    → IsValidTx (fc_status tx f now).1
unfolding fc_status
fc_status-IsValidTx tx f now v e w =
    let a = address_len tx.config in
    let noted = record tx { padding_error = tx.padding_error || ltb f.dlc 8 } in
    ground (
      arith,
      v.fc_partial e,
      All-get_or f.bytes (a + 1) w.bytes,
      fc_continue-IsValidTx noted (byte_at f (a + 1)) (byte_at f (a + 2)) now,
      fc_wait-IsValidTx noted now,
    )

pub isotp_tx_flow_control-IsValidTx :
    (tx : IsotpTx) (f : CanFrame) (now : ℕ)
    → IsValidTx tx
    → IsFrame f
    → IsValidTx (isotp_tx_flow_control tx f now).1
unfolding isotp_tx_flow_control
isotp_tx_flow_control-IsValidTx tx f now v w =
    let tx' = (isotp_tx_check_timeout tx now).1 in
    ground (
      arith,
      isotp_tx_check_timeout-IsValidTx tx now v,
      fc_status-IsValidTx tx' f now (isotp_tx_check_timeout-IsValidTx tx now v),
    )

-- What `isotp_tx_next` takes from the payload: at least one byte, what is left at most, and never
-- more than the frame holds behind the control bytes.
pub next_chunk_bounds :
    (tx : IsotpTx)
    → IsValidTx tx
    → (tx.state ≡ tx_ready) ⊎ (tx.state ≡ tx_cf)
    → let c = next_chunk tx in
      (0 < c.size)
      × (tx.offset + c.size ≤ tx.total)
      × (address_len tx.config + length c.control + c.size ≤ 8)
unfolding next_chunk
next_chunk_bounds tx v e = ground arith

pub isotp_tx_next-IsValidTx :
    (tx : IsotpTx) (now : ℕ) → IsValidTx tx → IsValidTx (isotp_tx_next tx now).1
unfolding isotp_tx_next after_chunk
isotp_tx_next-IsValidTx tx now v =
    let tx' = (isotp_tx_check_timeout tx now).1 in
    ground (
      arith,
      isotp_tx_check_timeout-IsValidTx tx now v,
      next_chunk_bounds tx' (isotp_tx_check_timeout-IsValidTx tx now v),
    )

after_confirm-IsValidTx :
    (tx : IsotpTx) (now : ℕ)
    → IsValidTx tx
    → tx.state ≡ tx_confirm
    → tx.offset < tx.total
    → IsValidTx (after_confirm tx now)
unfolding after_confirm
after_confirm-IsValidTx tx now v e h = ground arith

pub isotp_tx_confirm-IsValidTx :
    (tx : IsotpTx) (success : Bool) (now : ℕ)
    → IsValidTx tx
    → IsValidTx (isotp_tx_confirm tx success now).1
unfolding isotp_tx_confirm isotp_tx_check_timeout
isotp_tx_confirm-IsValidTx tx success now v = ground (arith, after_confirm-IsValidTx tx now v)
