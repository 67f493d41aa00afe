-- ===== src/Slcan/Channel/Session.antt =====
-- The specification of the front-end: a session that has no buffers and is given whole lines.
use opendiag_firmware.Base.{
  Bool, List, [], false, get_or, if◌then◌else◌, length, ltb, none, some, true, ℕ, ◌++◌, ◌==◌, ◌∷◌,
}
use opendiag_firmware.Slcan.Channel.{
  Bus, Command, acceptance, c_string, close_channel, command, flags_text, open_channel,
  serial_number, serial_text, set_bit_rate, slcan_bitrate, status_flags, transmit, unknown, version,
  version_text,
}
use opendiag_firmware.Slcan.Frames.{slcan_parse_frame}

-- The bit rate, the bus and all that has been said: what a front-end without a buffer keeps.
pub record Session (d : Bus) : Type 0 where
  pub rate : ℕ
  pub bus : d.State
  pub said : List ℕ

module _ {d : Bus} where
  abbrev pub say : Session d → List ℕ → Session d
  say s bytes = record s { said = s.said ++ bytes }

  abbrev pub answer : Session d → Bool → Session d
  answer s ok = say s ((if ok then 0x0D else 0x07) ∷ [])

  -- What each command does in a session.
  unfoldable pub perform : Command → Session d → List ℕ → Session d
  perform open_channel s buf =
      let (bus, ok) = d.open_at s.bus s.rate in
      if d.is_open s.bus then answer s true else answer (record s { bus = bus }) ok
  perform close_channel s buf =
      let (bus, ok) = d.close s.bus in
      if d.is_current s.bus then answer (record s { bus = bus }) ok else answer s true
  perform (transmit rtr ext) s buf =
      if d.is_open s.bus
      then elim (slcan_parse_frame buf rtr ext) [
        | none ↦ answer s false
        | some f ↦ (let (bus, ok) = d.send_frame s.bus f in answer (record s { bus = bus }) ok)
      ]
      else answer s false
  perform set_bit_rate s buf =
      let rate = slcan_bitrate (get_or buf 1 0) in
      let (bus, ok) = d.open_at s.bus rate in
      if rate == 0
      then answer s false
      else if d.is_open s.bus
      then answer (record s { rate = rate; bus = bus }) ok
      else answer (record s { rate = rate }) true
  perform acceptance s buf = answer s true
  perform status_flags s buf = answer (say s flags_text) true
  perform version s buf = answer (say s version_text) true
  perform serial_number s buf = answer (say s serial_text) true
  perform unknown s buf = answer s false

  -- A whole line: one of more than 30 characters is refused, an empty one is not answered.
  unfoldable pub take_line : Session d → List ℕ → Session d
  unfolding perform
  take_line s line =
      let buf = c_string line in
      if ltb 30 (length line)
      then answer s false
      else if ltb 0 (length line)
      then perform (command (get_or buf 0 0)) s buf
      else s

  -- The characters that arrive, after those of an unfinished line.
  unfoldable pub take_input : Session d → List ℕ → List ℕ → Session d × List ℕ
  unfolding take_line
  take_input s line [] = (s, line)
  take_input s line (b ∷ bs) =
      let ended = take_input (take_line s line) [] bs in
      let open_yet = take_input s (line ++ (b ∷ [])) bs in if b == 0x0D then ended else open_yet
