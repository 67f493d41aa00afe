-- ===== src/Slcan/Channel.antt =====
-- main/slcan.c: commands, answers and received frames. `txbuf` is the part of the array in use; `link`
-- is the calls of the link, oldest first. The bus of the vehicle interface manager is a parameter.
pub mod Session
pub mod Output
pub mod Commands
pub mod Lines
pub mod Relay
use opendiag_firmware.Base.{
  Bool, List, Option, [], false, get_or, if◌then◌else◌, length, ltb, none, some, suc, true, zero, ℕ,
  ◌++◌, ◌+◌, ◌-◌, ◌==◌, ◌||◌, ◌∷◌,
}
use opendiag_firmware.Isotp.Types.{CanFrame}
use opendiag_firmware.Slcan.Frames.{frame_line, slcan_parse_frame}

-- The bus that the front-end opens, sends to and reads; `true` stands for success.
pub record Bus : Type 1 where
  pub State : Type 0
  pub is_open : State → Bool
  pub is_current : State → Bool
  pub open_at : State → ℕ → State × Bool
  pub close : State → State × Bool
  pub send_frame : State → CanFrame → State × Bool
  pub receive : State → State × Option CanFrame

pub data LinkCall : Type 0 where
  link_write : List ℕ → LinkCall
  link_flush : LinkCall

abbrev pub slcan_cmd_max : ℕ
slcan_cmd_max = 32

abbrev pub slcan_rx_burst : ℕ
slcan_rx_burst = 32

abbrev pub slcan_tx_buf : ℕ
slcan_tx_buf = 512

-- `slcan_ctx_t`, the bus and the link; `cmdbuf` is the part of the array before `cmdidx`.
pub record Slcan (d : Bus) : Type 0 where
  pub bitrate : ℕ
  pub cmdbuf : List ℕ
  pub discard : Bool
  pub txbuf : List ℕ
  pub bus : d.State
  pub link : List LinkCall

-- The bit rate of a digit; 0 where it is refused.
unfoldable pub slcan_bitrate : ℕ → ℕ
slcan_bitrate digit =
    if digit == 0x32
    then 50000
    else if digit == 0x34
    then 125000
    else if digit == 0x35
    then 250000
    else if digit == 0x36
    then 500000
    else if digit == 0x38
    then 1000000
    else 0

-- The cases of `slcan_parse_command`.
pub data Command : Type 0 where
  open_channel : Command
  close_channel : Command
  transmit : (rtr ext : Bool) → Command
  set_bit_rate : Command
  acceptance : Command
  status_flags : Command
  version : Command
  serial_number : Command
  unknown : Command

unfoldable pub command : ℕ → Command
command c =
    if c == 0x4F
    then open_channel
    else if c == 0x43
    then close_channel
    else if c == 0x74
    then transmit false false
    else if c == 0x54
    then transmit false true
    else if c == 0x72
    then transmit true false
    else if c == 0x52
    then transmit true true
    else if c == 0x53
    then set_bit_rate
    else if c == 0x4D || c == 0x6D
    then acceptance
    else if c == 0x46
    then status_flags
    else if c == 0x56
    then version
    else if c == 0x4E
    then serial_number
    else unknown

-- The string in a buffer: its characters before a NUL.
unfoldable pub c_string : List ℕ → List ℕ
c_string [] = []
c_string (b ∷ bs) = let rest = c_string bs in if b == 0 then [] else b ∷ rest

-- "F00", "V-082021" and "N2208".
abbrev pub flags_text : List ℕ
flags_text = 0x46 ∷ 0x30 ∷ 0x30 ∷ []

abbrev pub version_text : List ℕ
version_text = 0x56 ∷ 0x2D ∷ 0x30 ∷ 0x38 ∷ 0x32 ∷ 0x30 ∷ 0x32 ∷ 0x31 ∷ []

abbrev pub serial_text : List ℕ
serial_text = 0x4E ∷ 0x32 ∷ 0x32 ∷ 0x30 ∷ 0x38 ∷ []

module _ {d : Bus} where
  unfoldable pub slcan_flush : Slcan d → Slcan d
  slcan_flush c =
      if ltb 0 (length c.txbuf)
      then record c { txbuf = []; link = c.link ++ (link_write c.txbuf ∷ link_flush ∷ []) }
      else record c { link = c.link ++ (link_flush ∷ []) }

  unfoldable pub slcan_write : Slcan d → List ℕ → Slcan d
  unfolding slcan_flush
  slcan_write c s =
      let room = if ltb (slcan_tx_buf - length c.txbuf) (length s) then slcan_flush c else c in
      if ltb slcan_tx_buf (length s) then c else record room { txbuf = room.txbuf ++ s }

  abbrev pub slcan_ack : Slcan d → Slcan d
  slcan_ack c = slcan_write c (0x0D ∷ [])

  abbrev pub slcan_nack : Slcan d → Slcan d
  slcan_nack c = slcan_write c (0x07 ∷ [])

  -- The answer to a step that succeeds or fails.
  abbrev pub slcan_answer : Slcan d → Bool → Slcan d
  slcan_answer c ok = if ok then slcan_ack c else slcan_nack c

  unfoldable pub slcan_send_frame : Slcan d → List ℕ → Bool → Bool → Slcan d
  unfolding slcan_write slcan_parse_frame
  slcan_send_frame c buf rtr ext =
      if d.is_open c.bus
      then elim (slcan_parse_frame buf rtr ext) [
        | none ↦ slcan_nack c
        | some f ↦
            (let (bus, ok) = d.send_frame c.bus f in slcan_answer (record c { bus = bus }) ok)
      ]
      else slcan_nack c

  unfoldable pub slcan_open_bus : Slcan d → Slcan d
  unfolding slcan_write
  slcan_open_bus c =
      let (bus, ok) = d.open_at c.bus c.bitrate in
      if d.is_open c.bus then slcan_ack c else slcan_answer (record c { bus = bus }) ok

  unfoldable pub slcan_close_bus : Slcan d → Slcan d
  unfolding slcan_write
  slcan_close_bus c =
      let (bus, ok) = d.close c.bus in
      if d.is_current c.bus then slcan_answer (record c { bus = bus }) ok else slcan_ack c

  -- The case of the bit rate.
  unfoldable pub slcan_set_rate : Slcan d → ℕ → Slcan d
  unfolding slcan_write
  slcan_set_rate c rate =
      let (bus, ok) = d.open_at c.bus rate in
      if rate == 0
      then slcan_nack c
      else if d.is_open c.bus
      then slcan_answer (record c { bitrate = rate; bus = bus }) ok
      else slcan_ack (record c { bitrate = rate })

  unfoldable pub run_command : Command → Slcan d → List ℕ → Slcan d
  unfolding slcan_open_bus slcan_close_bus slcan_send_frame slcan_set_rate
  run_command open_channel c buf = slcan_open_bus c
  run_command close_channel c buf = slcan_close_bus c
  run_command (transmit rtr ext) c buf = slcan_send_frame c buf rtr ext
  run_command set_bit_rate c buf = slcan_set_rate c (slcan_bitrate (get_or buf 1 0))
  run_command acceptance c buf = slcan_ack c
  run_command status_flags c buf = slcan_ack (slcan_write c flags_text)
  run_command version c buf = slcan_ack (slcan_write c version_text)
  run_command serial_number c buf = slcan_ack (slcan_write c serial_text)
  run_command unknown c buf = slcan_nack c

  abbrev pub slcan_parse_command : Slcan d → List ℕ → Slcan d
  slcan_parse_command c buf = run_command (command (get_or buf 0 0)) c buf

  unfoldable pub slcan_print_frame : Slcan d → CanFrame → Slcan d
  slcan_print_frame c f = slcan_write c (frame_line f ++ (0x0D ∷ []))

  -- `slcan_fe_start`, with the bus and the link as they are.
  abbrev pub slcan_fe_start : Slcan d → Slcan d
  slcan_fe_start c = record c { bitrate = 500000; cmdbuf = []; discard = false; txbuf = [] }

  -- What a carriage return does, before the buffer is reset and the output sent.
  unfoldable pub end_line : Slcan d → Slcan d
  unfolding run_command
  end_line c =
      if c.discard
      then slcan_nack (record c { discard = false })
      else if ltb 0 (length c.cmdbuf)
      then slcan_parse_command c (c_string c.cmdbuf)
      else c

  -- One turn of the loop of `slcan_fe_feed`.
  unfoldable pub feed_char : Slcan d → ℕ → Slcan d
  unfolding end_line
  feed_char c val =
      if val == 0x0D
      then slcan_flush (record (end_line c) { cmdbuf = [] })
      else if c.discard
      then c
      else if length c.cmdbuf + 1 == slcan_cmd_max - 1
      then record c { discard = true; cmdbuf = [] }
      else record c { cmdbuf = c.cmdbuf ++ (val ∷ []) }

  unfoldable pub slcan_fe_feed : Slcan d → List ℕ → Slcan d
  unfolding feed_char
  slcan_fe_feed c [] = c
  slcan_fe_feed c (b ∷ bs) = slcan_fe_feed (feed_char c b) bs

  -- The loop of `slcan_fe_poll`, with the turns that are left, and the number of frames forwarded.
  unfoldable pub forward : ℕ → Slcan d → Slcan d × ℕ
  unfolding slcan_print_frame
  forward zero c = (c, 0)
  forward (suc n) c =
      let (bus, got) = d.receive c.bus in
      elim got [
        | none ↦ (record c { bus = bus }, 0)
        | some f ↦
            (let (c', forwarded) = forward n (slcan_print_frame (record c { bus = bus }) f) in
              (c', suc forwarded))
      ]

  unfoldable pub slcan_fe_poll : Slcan d → Slcan d
  unfolding forward
  slcan_fe_poll c =
      let (c', forwarded) = forward slcan_rx_burst c in
      if d.is_open c.bus then if ltb 0 forwarded then slcan_flush c' else c' else c

  abbrev pub slcan_fe_stop : Slcan d → Slcan d
  slcan_fe_stop c = slcan_flush c
