-- ===== src/Tests/Widths.antt =====
-- Pulse width modulated messages: a response of a module to the tester at 0xF1.
use opendiag_firmware.Base.{
  List, [], arith, false, refl, replicate, sym, take, true, ℕ, ◌++◌, ◌<◌, ◌∷◌, ◌≡◌, ◌≤◌,
}
use opendiag_firmware.J1850.Crc.{crc_bits, crc_byte, crc_register, j1850_crc, j1850_crc_check}
use opendiag_firmware.J1850.Pwm.{
  classify_active, j1850_pwm_encode, j1850_pwm_quick_decode, put_cell, tp4_nom, tp7_nom,
}
use opendiag_firmware.J1850.Pwm.Decode.{
  j1850_pwm_decode, pwm_bit, pwm_finish, pwm_gap, pwm_ok, pwm_pulses, pwm_push_bit, pwm_turn,
}
use opendiag_firmware.J1850.Pwm.Decode.Sound.{IsGoodFrame, j1850_pwm_decode-IsGoodFrame}
use opendiag_firmware.J1850.Pwm.Echo.{bit_cells, j1850_pwm_quick_decode-encode}
use opendiag_firmware.J1850.Pwm.Response.{
  is_target, j1850_hdr_is_three_byte, j1850_hdr_wants_ifr, j1850_pwm_ifr_cfg_default,
  j1850_pwm_ifr_wanted,
}
use opendiag_firmware.J1850.Pwm.Stream.{
  PwmStream, j1850_pwm_stream_pulse, stream_bit, stream_byte, stream_rejects,
}
use opendiag_firmware.J1850.Pwm.Stream.Checked.{stream_acknowledges_checked, stream_pulses}
use opendiag_firmware.J1850.Vpw.{SymbolWord}
use opendiag_firmware.J1850.Vpw.Decode.{push_field, skip_idle}

abbrev reply : List ℕ
reply = 0x41 ∷ 0x6B ∷ 0x10 ∷ []

abbrev empty_word : SymbolWord
empty_word = record { level0 = 0; duration0 = 0; level1 = 0; duration1 = 0 }

abbrev room : List SymbolWord
room = replicate 30 empty_word

j1850_pwm_quick_decode-encode_example :
    let (n, sym) = j1850_pwm_encode reply true room in j1850_pwm_quick_decode sym n 12 ≡ reply
j1850_pwm_quick_decode-encode_example =
    j1850_pwm_quick_decode-encode reply room 12 (ground arith) (omega arith) (omega arith)
      (omega arith) (omega arith)

reply_wanted : j1850_pwm_ifr_wanted reply j1850_pwm_ifr_cfg_default ≡ true
unfolding j1850_pwm_ifr_wanted j1850_pwm_ifr_cfg_default j1850_hdr_wants_ifr j1850_hdr_is_three_byte
    is_target
reply_wanted = refl

-- The words of a message of two bytes, the second of them its CRC.
abbrev capture : List SymbolWord
capture = put_cell tp7_nom tp4_nom ∷ bit_cells 8 0x41 ++ bit_cells 8 0x35

capture_ok : (j1850_pwm_decode capture 17).status ≡ pwm_ok
unfolding j1850_pwm_decode skip_idle pwm_pulses pwm_finish pwm_push_bit push_field pwm_turn pwm_gap
    pwm_bit classify_active j1850_crc_check j1850_crc crc_register crc_byte crc_bits
capture_ok = refl

j1850_pwm_decode-IsGoodFrame_example : IsGoodFrame (j1850_pwm_decode capture 17)
j1850_pwm_decode-IsGoodFrame_example = j1850_pwm_decode-IsGoodFrame capture 17 capture_ok

abbrev fresh_stream : PwmStream
fresh_stream = record {
  bytes = replicate 12 0;
  len = 0;
  bits = 0;
  byte = 0;
  crc = 0;
  valid = false;
  first = false;
}

-- The start of frame, then all bits but the last of four bytes.
abbrev pulses_seen : List (ℕ × ℕ)
pulses_seen =
    (31, 200)
    ∷ (15, 48)
    ∷ (7, 24)
    ∷ (15, 24)
    ∷ (15, 24)
    ∷ (15, 24)
    ∷ (15, 24)
    ∷ (15, 24)
    ∷ (7, 24)
    ∷ (15, 24)
    ∷ (7, 24)
    ∷ (7, 24)
    ∷ (15, 24)
    ∷ (7, 24)
    ∷ (15, 24)
    ∷ (7, 24)
    ∷ (7, 24)
    ∷ (15, 24)
    ∷ (15, 24)
    ∷ (15, 24)
    ∷ (7, 24)
    ∷ (15, 24)
    ∷ (15, 24)
    ∷ (15, 24)
    ∷ (15, 24)
    ∷ (7, 24)
    ∷ (7, 24)
    ∷ (15, 24)
    ∷ (15, 24)
    ∷ (15, 24)
    ∷ (15, 24)
    ∷ (7, 24)
    ∷ []

last_pulse : (j1850_pwm_stream_pulse (stream_pulses fresh_stream pulses_seen) 15 24).0 ≡ true
unfolding j1850_pwm_stream_pulse stream_pulses stream_rejects stream_bit stream_byte crc_byte
    crc_bits
last_pulse = refl

stream_acknowledges_checked_example :
    let s' = (j1850_pwm_stream_pulse (stream_pulses fresh_stream pulses_seen) 15 24).1 in
    (j1850_crc_check (take s'.len s'.bytes) ≡ true) × (4 ≤ s'.len) × (s'.len < 12)
stream_acknowledges_checked_example =
    stream_acknowledges_checked fresh_stream pulses_seen 15 24 refl (ground arith) refl refl
      last_pulse
