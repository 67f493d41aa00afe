-- ===== src/Isotp/Sender/Frames.antt =====
-- The frames that a sender builds, as the receiver reads them.
use opendiag_firmware.Base.{
  List, [], arith, bit_and, bit_or, bit_xor, drop, length, length-drop, length-take, replicate,
  take, take-overwrite_of_length, true, ℕ, ◌+◌, ◌∷◌, ◌≡◌, ◌≤◌,
}
use opendiag_firmware.Isotp.Config.{address_len, byte_at, can_eff_flag, matches, valid_id}
use opendiag_firmware.Isotp.Sender.{Chunk, chunk_frame}
use opendiag_firmware.Isotp.Types.{IsotpConfig, IsotpTx}

-- The frames of `ct` are addressed to `cr`.
pub record IsPeer (ct cr : IsotpConfig) : Type 0 where
  pub same : ct.extended_address ≡ cr.extended_address
  pub id : valid_id ct.tx_id ≡ true
  pub accepted : bit_and (bit_xor ct.tx_id cr.rx_id) (bit_or cr.rx_mask can_eff_flag) ≡ 0
  pub address : ct.tx_address ≡ cr.rx_address

pub length-slice :
    (payload : List ℕ) (offset n : ℕ)
    → offset + n ≤ length payload
    → length (take n (drop offset payload)) ≡ n
length-slice payload offset n h =
    omega (arith, length-take n (drop offset payload), length-drop offset payload)

-- A single or consecutive frame: one control byte `k`, then `n` payload bytes.
abbrev pub one_control : ℕ → ℕ → Chunk
one_control k n = record { control = k ∷ []; size = n }

-- A first frame: two control bytes.
abbrev pub two_controls : ℕ → ℕ → ℕ → Chunk
two_controls k j n = record { control = k ∷ j ∷ []; size = n }

module _ (tx : IsotpTx) where
  pub control-one_control :
      (k n : ℕ) → byte_at (chunk_frame tx (one_control k n)) (address_len tx.config) ≡ k
  unfolding chunk_frame
  control-one_control k n = ground arith

  pub payload-one_control :
      (k n : ℕ)
      → address_len tx.config + 1 + n ≤ 8
      → tx.offset + n ≤ length tx.buffer
      → take n (drop (address_len tx.config + 1) (chunk_frame tx (one_control k n)).bytes)
        ≡ take n (drop tx.offset tx.buffer)
  unfolding chunk_frame
  payload-one_control k n h l =
      let slice = take n (drop tx.offset tx.buffer) in
      let full = length-slice tx.buffer tx.offset n l in
      ground (
        arith,
        take-overwrite_of_length n (replicate 7 tx.config.pad_value) slice full,
        take-overwrite_of_length n (replicate 6 tx.config.pad_value) slice full,
      )

  pub matches-one_control :
      (k n : ℕ) {cr : IsotpConfig}
      → IsPeer tx.config cr
      → address_len tx.config + 1 + n ≤ 8
      → matches cr (chunk_frame tx (one_control k n)) ≡ true
  unfolding chunk_frame matches
  matches-one_control k n p h = ground arith

  pub control-two_controls :
      (k j n : ℕ)
      → let f = chunk_frame tx (two_controls k j n) in
        (byte_at f (address_len tx.config) ≡ k) × (byte_at f (address_len tx.config + 1) ≡ j)
  unfolding chunk_frame
  control-two_controls k j n = ground arith

  pub payload-two_controls :
      (k j n : ℕ)
      → address_len tx.config + 2 + n ≤ 8
      → tx.offset + n ≤ length tx.buffer
      → take n (drop (address_len tx.config + 2) (chunk_frame tx (two_controls k j n)).bytes)
        ≡ take n (drop tx.offset tx.buffer)
  unfolding chunk_frame
  payload-two_controls k j n h l =
      let slice = take n (drop tx.offset tx.buffer) in
      let full = length-slice tx.buffer tx.offset n l in
      ground (
        arith,
        take-overwrite_of_length n (replicate 6 tx.config.pad_value) slice full,
        take-overwrite_of_length n (replicate 5 tx.config.pad_value) slice full,
      )

  pub matches-two_controls :
      (k j n : ℕ) {cr : IsotpConfig}
      → IsPeer tx.config cr
      → address_len tx.config + 2 + n ≤ 8
      → matches cr (chunk_frame tx (two_controls k j n)) ≡ true
  unfolding chunk_frame matches
  matches-two_controls k j n p h = ground arith
