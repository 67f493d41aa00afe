-- ===== src/Slcan/Channel/Commands.antt =====
-- Every command does what it does in a session without buffers.
use opendiag_firmware.Base.{
  Bool, Bool-cases, List, [], ap, arith, false, get_or, inl, inr, length, none, some, true, ℕ, ◌==◌,
  ◌∙◌, ◌∷◌, ◌≡◌, ◌≤◌,
}
use opendiag_firmware.Slcan.Channel.{
  Bus, Command, Slcan, acceptance, close_channel, flags_text, open_channel, run_command,
  serial_number, serial_text, set_bit_rate, slcan_ack, slcan_answer, slcan_bitrate, slcan_close_bus,
  slcan_nack, slcan_open_bus, slcan_send_frame, slcan_set_rate, slcan_write, status_flags, transmit,
  unknown, version, version_text,
}
use opendiag_firmware.Slcan.Channel.Output.{session, slcan_write_lem}
use opendiag_firmware.Slcan.Channel.Session.{Session, answer, perform, say}
use opendiag_firmware.Slcan.Frames.{slcan_parse_frame}

module _ {d : Bus} where
  abbrev pub Does : Slcan d → Slcan d → Session d → Type 0
  Does c c' s = (session c' ≡ s) × (c'.discard ≡ c.discard)

  pub slcan_answer_lem :
      (c : Slcan d) (ok : Bool) → Does c (slcan_answer c ok) (answer (session c) ok)
  slcan_answer_lem c true = slcan_write_lem c (0x0D ∷ []) (omega arith)
  slcan_answer_lem c false = slcan_write_lem c (0x07 ∷ []) (omega arith)

  text_lem :
      (c : Slcan d) (text : List ℕ)
      → length text ≤ 512
      → Does c (slcan_ack (slcan_write c text)) (answer (say (session c) text) true)
  text_lem c text h =
      let (e, f) = slcan_write_lem c text h in
      let (e', f') = slcan_answer_lem (slcan_write c text) true in
      (e' ∙ ap (λ t. answer t true) e, f' ∙ f)

  slcan_open_bus_lem :
      (c : Slcan d) → Does c (slcan_open_bus c) (perform open_channel (session c) [])
  unfolding slcan_open_bus perform
  slcan_open_bus_lem c = elim (Bool-cases (d.is_open c.bus)) [
    | inl e ↦ rw e (slcan_answer_lem c true)
    | inr e ↦ rw e (
        slcan_answer_lem (record c { bus = (d.open_at c.bus c.bitrate).0 })
          (d.open_at c.bus c.bitrate).1)
  ]

  slcan_close_bus_lem :
      (c : Slcan d) → Does c (slcan_close_bus c) (perform close_channel (session c) [])
  unfolding slcan_close_bus perform
  slcan_close_bus_lem c = elim (Bool-cases (d.is_current c.bus)) [
    | inl e ↦ rw e (slcan_answer_lem (record c { bus = (d.close c.bus).0 }) (d.close c.bus).1)
    | inr e ↦ rw e (slcan_answer_lem c true)
  ]

  slcan_send_frame_lem :
      (c : Slcan d) (buf : List ℕ) (rtr ext : Bool)
      → Does c (slcan_send_frame c buf rtr ext) (perform (transmit rtr ext) (session c) buf)
  unfolding slcan_send_frame perform
  slcan_send_frame_lem c buf rtr ext = elim (Bool-cases (d.is_open c.bus)) [
    | inl e ↦
        rw e
          (elim (slcan_parse_frame buf rtr ext)
            as (λ r.
              Does c
                (elim r [
                  | none ↦ slcan_nack c
                  | some f ↦
                      slcan_answer (record c { bus = (d.send_frame c.bus f).0 })
                        (d.send_frame c.bus f).1
                ])
                (elim r [
                  | none ↦ answer (session c) false
                  | some f ↦
                      answer (record (session c) { bus = (d.send_frame c.bus f).0 })
                        (d.send_frame c.bus f).1
                ])) [
                  | none ↦ slcan_answer_lem c false
                  | some f ↦
                      slcan_answer_lem (record c { bus = (d.send_frame c.bus f).0 })
                        (d.send_frame c.bus f).1
                ])
    | inr e ↦ rw e (slcan_answer_lem c false)
  ]

  slcan_set_rate_lem :
      (c : Slcan d) (buf : List ℕ)
      → Does c
          (slcan_set_rate c (slcan_bitrate (get_or buf 1 0)))
          (perform set_bit_rate (session c) buf)
  unfolding slcan_set_rate perform
  slcan_set_rate_lem c buf =
      let rate = slcan_bitrate (get_or buf 1 0) in
      elim (Bool-cases (rate == 0)) [
        | inl e ↦ rw e (slcan_answer_lem c false)
        | inr e ↦ elim (Bool-cases (d.is_open c.bus)) [
          | inl f ↦
              rw (e, f)
                (slcan_answer_lem (record c { bitrate = rate; bus = (d.open_at c.bus rate).0 })
                  (d.open_at c.bus rate).1)
          | inr f ↦ rw (e, f) (slcan_answer_lem (record c { bitrate = rate }) true)
        ]
      ]

  pub run_command_lem :
      (k : Command) (c : Slcan d) (buf : List ℕ)
      → Does c (run_command k c buf) (perform k (session c) buf)
  unfolding run_command perform
  run_command_lem open_channel c buf = slcan_open_bus_lem c
  run_command_lem close_channel c buf = slcan_close_bus_lem c
  run_command_lem (transmit rtr ext) c buf = slcan_send_frame_lem c buf rtr ext
  run_command_lem set_bit_rate c buf = slcan_set_rate_lem c buf
  run_command_lem acceptance c buf = slcan_answer_lem c true
  run_command_lem status_flags c buf = text_lem c flags_text (omega arith)
  run_command_lem version c buf = text_lem c version_text (omega arith)
  run_command_lem serial_number c buf = text_lem c serial_text (omega arith)
  run_command_lem unknown c buf = slcan_answer_lem c false
