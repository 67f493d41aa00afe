-- ===== src/Slcan/Channel/Relay.antt =====
-- A line that one front-end prints for a received frame makes another one send that frame.
use opendiag_firmware.Base.{
  All, All-append, Bool, List, [], above_test, ap, append-nil, append_assoc, arith, false, get_or,
  if◌then◌else◌, length, length-append, length-take, le→not_ltb, lt→ltb, min, refl, suc, take, true,
  zero, ℕ, ◌%◌, ◌++◌, ◌/◌, ◌<◌, ◌^◌, ◌∙◌, ◌∷◌, ◌≡◌, ◌≤◌,
}
use opendiag_firmware.Isotp.Types.{CanFrame}
use opendiag_firmware.Slcan.Channel.{Bus, Slcan, c_string, command, slcan_fe_feed, transmit}
use opendiag_firmware.Slcan.Channel.Lines.{slcan_fe_feed-take_input}
use opendiag_firmware.Slcan.Channel.Output.{session}
use opendiag_firmware.Slcan.Channel.Session.{Session, answer, perform, take_input, take_line}
use opendiag_firmware.Slcan.Frames.{eff_id, frame_letter, frame_line, is_eff, is_rtr, sff_id}
use opendiag_firmware.Slcan.Frames.RoundTrip.{
  IsCanonical, length-hex_id, length-hex_string, slcan_parse_frame-frame_line,
}
use opendiag_firmware.Slcan.Hex.{hex_id, hex_string, hexval}

-- Characters that end neither a line nor a string.
abbrev IsText : ℕ → Type 0
IsText b = 0x30 ≤ b

hexval-IsText : (v : ℕ) → IsText (hexval v)
unfolding hexval
hexval-IsText v = ground arith

hex_string-IsText : (bytes : List ℕ) → All IsText (hex_string bytes)
unfolding hex_string
hex_string-IsText [] = tt
hex_string-IsText (b ∷ bs) =
    (hexval-IsText (b / 16), (hexval-IsText (b % 16), hex_string-IsText bs))

hex_id-IsText : (n id : ℕ) → All IsText (hex_id n id)
unfolding hex_id
hex_id-IsText zero id = tt
hex_id-IsText (suc n) id = (hexval-IsText (id / 16 ^ n % 16), hex_id-IsText n id)

letter-IsText : (rtr ext : Bool) → IsText (frame_letter rtr ext)
letter-IsText true true = omega arith
letter-IsText true false = omega arith
letter-IsText false true = omega arith
letter-IsText false false = omega arith

shown_payload-IsText :
    (rtr : Bool) (bytes : List ℕ) → All IsText (if rtr then [] else hex_string bytes)
shown_payload-IsText true bytes = tt
shown_payload-IsText false bytes = hex_string-IsText bytes

shown_id-IsText : (ext : Bool) (n m : ℕ) → All IsText (if ext then hex_id 8 n else hex_id 3 m)
shown_id-IsText true n m = hex_id-IsText 8 n
shown_id-IsText false n m = hex_id-IsText 3 m

frame_line-IsText : (f : CanFrame) → All IsText (frame_line f)
unfolding frame_line
frame_line-IsText f =
    let rtr = is_rtr f.id in
    let ext = is_eff f.id in
    (
      letter-IsText rtr ext,
      All-append IsText (if ext then hex_id 8 (eff_id f.id) else hex_id 3 (sff_id f.id)) _
          (shown_id-IsText ext (eff_id f.id) (sff_id f.id))
          (hexval-IsText (f.dlc % 16), shown_payload-IsText rtr (take (min f.dlc 8) f.bytes)),
    )

c_string-IsText : (line : List ℕ) → All IsText line → c_string line ≡ line
unfolding c_string
c_string-IsText [] h = refl
c_string-IsText (b ∷ bs) h = rw (above_test b 0 (omega (arith, h.0)), c_string-IsText bs h.1) refl

shown_payload-length :
    (rtr : Bool) (bytes : List ℕ)
    → length bytes ≤ 8
    → length (if rtr then [] else hex_string bytes) ≤ 16
shown_payload-length true bytes h = omega arith
shown_payload-length false bytes h = omega (arith, h, length-hex_string bytes)

shown_id-length : (ext : Bool) (n m : ℕ) → length (if ext then hex_id 8 n else hex_id 3 m) ≤ 8
shown_id-length true n m = omega (arith, length-hex_id 8 n)
shown_id-length false n m = omega (arith, length-hex_id 3 m)

frame_line-length : (f : CanFrame) → length (frame_line f) ≤ 26
unfolding frame_line
frame_line-length f =
    let rtr = is_rtr f.id in
    let ids = if is_eff f.id then hex_id 8 (eff_id f.id) else hex_id 3 (sff_id f.id) in
    let cut = take (min f.dlc 8) f.bytes in
    let rest = hexval (f.dlc % 16) ∷ (if rtr then [] else hex_string cut) in
    omega (
      arith,
      length-append ids rest,
      shown_id-length (is_eff f.id) (eff_id f.id) (sff_id f.id),
      shown_payload-length rtr cut (omega (arith, length-take (min f.dlc 8) f.bytes)),
    )

command-frame_letter : (rtr ext : Bool) → command (frame_letter rtr ext) ≡ transmit rtr ext
unfolding command
command-frame_letter true true = refl
command-frame_letter true false = refl
command-frame_letter false true = refl
command-frame_letter false false = refl

module _ {d : Bus} where
  take_input-line :
      (s : Session d) (line bytes : List ℕ)
      → All IsText bytes
      → take_input s line (bytes ++ (0x0D ∷ [])) ≡ (take_line s (line ++ bytes), [])
  unfolding take_input
  take_input-line s line [] h = rw (append-nil line) refl
  take_input-line s line (b ∷ bs) h = rw (above_test b 0x0D (omega (arith, h.0))) (
      take_input-line s (line ++ (b ∷ [])) bs h.1
      ∙ ap (λ l. (take_line s l, [])) (append_assoc line (b ∷ []) bs))

  take_line-frame_line :
      (s : Session d) (f : CanFrame)
      → IsCanonical f
      → d.is_open s.bus ≡ true
      → take_line s (frame_line f)
        ≡ answer (record s { bus = (d.send_frame s.bus f).0 }) (d.send_frame s.bus f).1
  unfolding take_line perform
  take_line-frame_line s f h e =
      let short = frame_line-length f in
      let some_text : 0 < length (frame_line f) = unfold frame_line in omega arith in
      let letter : command (get_or (frame_line f) 0 0) ≡ transmit (is_rtr f.id) (is_eff f.id) =
        unfold frame_line in command-frame_letter (is_rtr f.id) (is_eff f.id) in
      rw
        (
          le→not_ltb 30 (length (frame_line f)) (omega (arith, short)),
          lt→ltb 0 (length (frame_line f)) some_text,
          c_string-IsText (frame_line f) (frame_line-IsText f),
          letter,
          e,
          slcan_parse_frame-frame_line f h,
        )
        refl

  -- A front-end with its channel open that is given the line another one prints for a canonical frame
  -- sends that frame, once, and answers with what the bus said: the bus is in the state after sending
  -- it, and a carriage return or a bell has been added to the output.
  pub slcan_fe_feed-frame_line :
      (c : Slcan d) (f : CanFrame)
      → c.cmdbuf ≡ []
      → c.discard ≡ false
      → d.is_open c.bus ≡ true
      → IsCanonical f
      → session (slcan_fe_feed c (frame_line f ++ (0x0D ∷ [])))
        ≡ answer (record (session c) { bus = (d.send_frame c.bus f).0 }) (d.send_frame c.bus f).1
  slcan_fe_feed-frame_line c f e k o h =
      slcan_fe_feed-take_input c (frame_line f ++ (0x0D ∷ [])) e k
      ∙ ap (λ r. r.0) (take_input-line (session c) [] (frame_line f) (frame_line-IsText f))
      ∙ take_line-frame_line (session c) f h o
