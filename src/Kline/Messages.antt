-- ===== src/Kline/Messages.antt =====
-- Message lengths and key bytes.
use opendiag_firmware.Base.{
  All, All-get_or, List, and_comm, and_false, arith, false, get_or-append_left, length-append, refl,
  ℕ, ◌++◌, ◌<◌, ◌≡◌, ◌≢◌, ◌≤◌,
}
use opendiag_firmware.Kline.{
  decode_capability, is_iso9141_pair, kline_decode_keybytes, kline_max_msg, kline_min_msg,
  kline_msg_len, kline_odd_parity,
}

-- A length that is known stays what it is when more bytes arrive.
pub kline_msg_len_prefix :
    (buf more : List ℕ) → kline_msg_len buf ≢ 0 → kline_msg_len (buf ++ more) ≡ kline_msg_len buf
unfolding kline_msg_len
kline_msg_len_prefix buf more h = ground (
  arith,
  length-append buf more,
  get_or-append_left buf more 0 0,
  get_or-append_left buf more 1 0,
  get_or-append_left buf more 3 0,
)

-- A known length covers at least a format byte, one data byte and the checksum, and never exceeds
-- the buffer size that the driver reserves.
pub kline_msg_len_bounds :
    (buf : List ℕ)
    → All (λ b. b < 256) buf
    → kline_msg_len buf ≢ 0
    → (kline_min_msg ≤ kline_msg_len buf) × (kline_msg_len buf ≤ kline_max_msg)
unfolding kline_msg_len
kline_msg_len_bounds buf a h = ground (arith, All-get_or buf 1 a, All-get_or buf 3 a)

kwp_no_iso9141 : (b : ℕ) → is_iso9141_pair b 0x8F ≡ false
unfolding is_iso9141_pair
kwp_no_iso9141 b = rw (and_false, and_false) refl

-- Which key byte carries the capabilities and which the KWP mark makes no difference to what is
-- decoded, but for the record of the bytes themselves.
pub kline_decode_keybytes_comm :
    (b : ℕ)
    → let (rc, k) = kline_decode_keybytes b 0x8F in
      kline_decode_keybytes 0x8F b ≡ (rc, record k { kb1 = 0x8F; kb2 = b })
unfolding kline_decode_keybytes decode_capability
kline_decode_keybytes_comm b =
    let other : is_iso9141_pair 0x8F b ≡ false = unfold is_iso9141_pair in refl in
    ground (arith, kwp_no_iso9141 b, other, and_comm (kline_odd_parity 0x8F) (kline_odd_parity b))
