-- ===== src/Tests/Lines.antt =====
-- The SLCAN front-end at concrete lines.
use opendiag_firmware.Base.{List, [], arith, false, length, none, refl, true, ◌++◌, ◌∷◌, ◌≡◌, ◌≤◌}
use opendiag_firmware.Isotp.Types.{CanFrame}
use opendiag_firmware.Slcan.Channel.{Bus, Slcan, slcan_fe_feed}
use opendiag_firmware.Slcan.Channel.Lines.{slcan_fe_feed_refines}
use opendiag_firmware.Slcan.Channel.Output.{session}
use opendiag_firmware.Slcan.Channel.Relay.{slcan_fe_feed-frame_line}
use opendiag_firmware.Slcan.Channel.Session.{answer, take_input}
use opendiag_firmware.Slcan.Frames.{frame_line}
use opendiag_firmware.Slcan.Frames.RoundTrip.{IsCanonical}

-- A bus that is always open and keeps what it is given.
abbrev recorder : Bus
recorder = record {
  State = List CanFrame;
  is_open = λ s. true;
  is_current = λ s. true;
  open_at = λ s rate. (s, true);
  close = λ s. (s, true);
  send_frame = λ s f. (s ++ (f ∷ []), true);
  receive = λ s. (s, none);
}

abbrev fresh : Slcan recorder
fresh = record { bitrate = 500000; cmdbuf = []; discard = false; txbuf = []; bus = []; link = [] }

abbrev extended : CanFrame
extended = record { id = 0x98DAF110; dlc = 2; bytes = 0x3E ∷ 0x80 ∷ 0 ∷ 0 ∷ 0 ∷ 0 ∷ 0 ∷ 0 ∷ [] }

extended-IsCanonical : IsCanonical extended
extended-IsCanonical = record {
  id_canonical = refl;
  short = omega arith;
  are_bytes = (
    omega arith,
    (
      omega arith,
      (omega arith, (omega arith, (omega arith, (omega arith, (omega arith, (omega arith, tt)))))),
    ),
  );
  size = refl;
  clear = refl;
}

slcan_fe_feed_refines_example :
    (session (slcan_fe_feed fresh (0x53 ∷ 0x36 ∷ 0x0D ∷ 0x4F ∷ []))
      ≡ (take_input (session fresh) [] (0x53 ∷ 0x36 ∷ 0x0D ∷ 0x4F ∷ [])).0)
    × (length (slcan_fe_feed fresh (0x53 ∷ 0x36 ∷ 0x0D ∷ 0x4F ∷ [])).cmdbuf ≤ 30)
slcan_fe_feed_refines_example =
    slcan_fe_feed_refines fresh (0x53 ∷ 0x36 ∷ 0x0D ∷ 0x4F ∷ []) refl refl

slcan_fe_feed-frame_line_example :
    session (slcan_fe_feed fresh (frame_line extended ++ (0x0D ∷ [])))
    ≡ answer (record (session fresh) { bus = extended ∷ [] }) true
slcan_fe_feed-frame_line_example =
    slcan_fe_feed-frame_line fresh extended refl refl refl extended-IsCanonical
