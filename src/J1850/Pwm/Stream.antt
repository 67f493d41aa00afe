-- ===== src/J1850/Pwm/Stream.antt =====
-- main/j1850_pwm_codec.c: the streaming decoder that decides on in-frame responses.
pub mod Checked
use opendiag_firmware.Base.{
  Bool, List, false, if◌then◌else◌, leb, ltb, not, set, true, u8, ℕ, ◌&&◌, ◌*◌, ◌+◌, ◌==◌, ◌||◌,
}
use opendiag_firmware.J1850.Crc.{crc_byte, j1850_crc_residue}
use opendiag_firmware.J1850.Pwm.{pwm_bit_split, pwm_max_frame}

-- `j1850_pwm_stream_t`.
pub record PwmStream : Type 0 where
  pub bytes : List ℕ
  pub len : ℕ
  pub bits : ℕ
  pub byte : ℕ
  pub crc : ℕ
  pub valid : Bool
  pub first : Bool

-- A pulse that no bit has, a spacing that no bit has, or a byte too many.
unfoldable pub stream_rejects : PwmStream → ℕ → ℕ → Bool
stream_rejects s active_us edge_us =
    ltb active_us 4
    || (ltb 18 active_us
        || (ltb edge_us (if s.first then 42 else 21)
            || (ltb (if s.first then 54 else 27) edge_us || leb pwm_max_frame s.len)))

-- The eighth bit: the byte is stored and taken into the CRC.
unfoldable pub stream_byte : PwmStream → ℕ → Bool × PwmStream
stream_byte s byte =
    let len = s.len + 1 in
    let crc = crc_byte s.crc byte in
    (
      leb 4 len && (ltb len pwm_max_frame && crc == j1850_crc_residue),
      record s { bytes = set s.bytes s.len byte; len = len; crc = crc; byte = 0; bits = 0 },
    )

unfoldable pub stream_bit : PwmStream → ℕ → Bool × PwmStream
unfolding stream_byte
stream_bit s active_us =
    let byte = u8 (s.byte * 2 + (if ltb active_us pwm_bit_split then 1 else 0)) in
    let bits = u8 (s.bits + 1) in
    let next = record s { first = false; byte = byte; bits = bits } in
    if not (bits == 8) then (false, next) else stream_byte next byte

-- The result, and the updated stream.
unfoldable pub j1850_pwm_stream_pulse : PwmStream → ℕ → ℕ → Bool × PwmStream
j1850_pwm_stream_pulse s active_us edge_us =
    let restarted = record s {
      len = 0;
      bits = 0;
      byte = 0;
      crc = 0xFF;
      valid = true;
      first = true;
    } in
    if leb 27 active_us && leb active_us 34
    then (false, restarted)
    else if not s.valid
    then (false, s)
    else if stream_rejects s active_us edge_us
    then (false, record s { valid = false })
    else stream_bit s active_us
