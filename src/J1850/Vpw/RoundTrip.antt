-- ===== src/J1850/Vpw/RoundTrip.antt =====
-- What the encoder lays out, the decoder reads back.
use opendiag_firmware.Base.{
  All, List, [], ap, append_assoc, arith, false, length, length-set, ltb, refl, replicate, set, suc,
  sym, take, take-write_at, true, write_at, zero, ℕ, ◌%◌, ◌*◌, ◌++◌, ◌+◌, ◌<◌, ◌∙◌, ◌∷◌, ◌≡◌, ◌≤◌,
}
use opendiag_firmware.J1850.Crc.{j1850_crc_check}
use opendiag_firmware.J1850.Vpw.{SymbolWord, VpwPulse, j1850_vpw_encode, tv3_nom, vpw_max_frame}
use opendiag_firmware.J1850.Vpw.Bits.{decode_byte, with_field}
use opendiag_firmware.J1850.Vpw.Decode.{
  VpwDecoder, VpwRx, blank_rx, classify, conclude, decode_pulse, decode_pulses, ended, finish,
  j1850_vpw_decode, opened, rx_ok,
}
use opendiag_firmware.J1850.Vpw.Encoded.{
  bit_pulses, byte_pulses, j1850_vpw_encode_pulses, level_of, pulse,
}

write_at-set :
    (buf : List ℕ) (len byte : ℕ) (bytes : List ℕ)
    → write_at (set buf len byte) (len + 1) bytes ≡ write_at buf len (byte ∷ bytes)
write_at-set [] zero byte bytes = refl
write_at-set [] (suc len) byte bytes = rw (let e : suc len + 1 ≡ suc (len + 1) = omega arith in e)
write_at-set (x ∷ buf) zero byte bytes = refl
write_at-set (x ∷ buf) (suc len) byte bytes =
    rw (let e : suc len + 1 ≡ suc (len + 1) = omega arith in e)
      (ap (λ r. x ∷ r) (write_at-set buf len byte bytes))

write_at_none : (buf : List ℕ) (len : ℕ) → write_at buf len [] ≡ buf
write_at_none [] zero = refl
write_at_none (x ∷ buf) zero = refl
write_at_none [] (suc len) = refl
write_at_none (x ∷ buf) (suc len) = ap (λ r. x ∷ r) (write_at_none buf len)

-- The pulses of the bytes of a frame store them one behind the other.
decode_bytes :
    (d : VpwDecoder) (rest : List VpwPulse) (bytes buf : List ℕ) (len i : ℕ)
    → d.in_ifr ≡ false
    → d.need_nb ≡ false
    → All (λ b. b < 256) bytes
    → length buf ≡ vpw_max_frame
    → len + length bytes ≤ vpw_max_frame
    → decode_pulses (byte_pulses bytes i ++ rest) (with_field d i buf len 0)
      ≡ decode_pulses rest
          (with_field d (i + 8 * length bytes) (write_at buf len bytes) (len + length bytes) 0)
decode_bytes d rest [] buf len i p q a e h =
    rw
      (
        write_at_none buf len,
        let f : i + 8 * 0 ≡ i = omega arith in f,
        let f : len + 0 ≡ len = omega arith in f,
      )
      refl
decode_bytes d rest (byte ∷ bytes) buf len i p q a e h =
    ap (λ t. decode_pulses t (with_field d i buf len 0))
      (append_assoc (bit_pulses 8 byte i) (byte_pulses bytes (i + 8)) rest)
    ∙ decode_byte d buf len byte (byte_pulses bytes (i + 8) ++ rest) p q a.0 (omega arith) i
        (omega arith)
    ∙ decode_bytes d rest bytes (set buf len byte) (len + 1) (i + 8) p q a.1
        (length-set buf len byte ∙ e) (omega arith)
    ∙ rw
        (
          write_at-set buf len byte bytes,
          let f : i + 8 + 8 * length bytes ≡ i + 8 * length (byte ∷ bytes) = omega arith in f,
          let f : len + 1 + length bytes ≡ len + length (byte ∷ bytes) = omega arith in f,
        )
        refl

-- The decoder behind the start of a frame.
abbrev start : VpwDecoder
start = opened (record blank_rx { status = rx_ok }) false

-- What the decoder makes of a whole frame.
abbrev pub frame_rx : List ℕ → VpwRx
frame_rx bytes = record blank_rx {
  status = rx_ok;
  bytes = write_at (replicate 12 0) 0 bytes;
  len = length bytes;
  eod = true;
}

decode_end :
    (d : VpwDecoder) (i : ℕ)
    → i % 2 ≡ 1
    → d.expect ≡ level_of i
    → d.in_ifr ≡ false
    → d.nbits ≡ 0
    → decode_pulses (pulse i tv3_nom ∷ []) d
      ≡ ended (record d {
        expect = 1;
        in_ifr = true;
        need_nb = true;
        out = record (d.out) { eod = true };
      })
unfolding decode_pulses decode_pulse
decode_end d i h e p n = ground arith

decode_frame_pulses :
    (bytes : List ℕ)
    → All (λ b. b < 256) bytes
    → 2 ≤ length bytes
    → length bytes ≤ vpw_max_frame
    → j1850_crc_check bytes ≡ true
    → conclude
        (decode_pulses (byte_pulses bytes 1 ++ (pulse (1 + 8 * length bytes) tv3_nom ∷ [])) start)
      ≡ frame_rx bytes
unfolding finish
decode_frame_pulses bytes a m h c =
    let i = 1 + 8 * length bytes in
    let body =
      decode_bytes start (pulse i tv3_nom ∷ []) bytes (replicate 12 0) 0 1 refl refl a refl
        (omega arith) in
    let d = with_field start i (write_at (replicate 12 0) 0 bytes) (0 + length bytes) 0 in
    let closed = decode_end d i (omega arith) refl refl refl in
    let stored =
      take-write_at (replicate 12 0) 0 (length bytes) bytes (omega arith) (omega arith) in
    let same_len : 0 + length bytes ≡ length bytes = omega arith in
    let long : ltb (length bytes) 2 ≡ false = ground arith in
    ap conclude (body ∙ closed) ∙ rw (same_len, long, stored, c) refl

-- A message with a good CRC that is encoded into any large enough array and decoded again comes
-- back byte for byte, with its length, status ok and the end-of-data mark, and with no response
-- bytes.
pub j1850_vpw_decode-encode :
    (bytes : List ℕ) (out : List SymbolWord)
    → All (λ b. b < 256) bytes
    → 2 ≤ length bytes
    → length bytes ≤ vpw_max_frame
    → 4 * length bytes + 1 ≤ length out
    → j1850_crc_check bytes ≡ true
    → let (n, sym) = j1850_vpw_encode bytes out in
      (j1850_vpw_decode sym n ≡ frame_rx bytes)
      × (take (frame_rx bytes).len (frame_rx bytes).bytes ≡ bytes)
unfolding j1850_vpw_decode classify
j1850_vpw_decode-encode bytes out a m h k c =
    let (n, pulses) = j1850_vpw_encode_pulses bytes out (omega arith) h k in
    (
      rw (pulses, j1850_vpw_decode) (decode_frame_pulses bytes a m h c),
      take-write_at (replicate 12 0) 0 (length bytes) bytes (omega arith) (omega arith),
    )
