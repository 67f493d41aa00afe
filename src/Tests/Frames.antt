-- ===== src/Tests/Frames.antt =====
-- The wire protocol at concrete inputs.
use opendiag_firmware.Base.{List, [], arith, inl, length, refl, replicate, true, ℕ, ◌+◌, ◌∷◌, ◌≡◌}
use opendiag_firmware.Wire.{Core, Wire, agrees, cleared, feed, feed_bytes}
use opendiag_firmware.Wire.Bounds.{IsValidWire, feed-IsValidWire}
use opendiag_firmware.Wire.Delivery.{feed_bytes-request_frames, request_frames}
use opendiag_firmware.Wire.Fetch.{fetch_frames, fetch_response, response_frames, slices}

-- A server that counts the bytes of the requests and answers each with one byte.
abbrev counter : Core
counter = record {
  State = ℕ;
  request = λ s op bytes. (s + length bytes, op ∷ []);
  fits = λ s op bytes. omega arith;
}

abbrev fresh_wire : Wire counter
fresh_wire = cleared counter 5 []

fresh_wire-IsValidWire : IsValidWire fresh_wire
fresh_wire-IsValidWire = record {
  partial_frame = record { aligned = (unfold agrees in refl); short = inl (omega arith) };
  request_fits = omega arith;
  response_fits = omega arith;
}

feed-IsValidWire_example : IsValidWire (feed fresh_wire 3000000 (0x4A ∷ 0x32 ∷ 0x11 ∷ 0x4A ∷ []))
feed-IsValidWire_example =
    feed-IsValidWire fresh_wire 3000000 (0x4A ∷ 0x32 ∷ 0x11 ∷ 0x4A ∷ []) fresh_wire-IsValidWire

abbrev two_chunks : List (List ℕ)
two_chunks = (1 ∷ 2 ∷ []) ∷ (3 ∷ []) ∷ []

feed_bytes-request_frames_example :
    let w' = feed_bytes fresh_wire (request_frames 7 9 0 two_chunks) in
    (w'.core ≡ 8) × (w'.response ≡ 7 ∷ []) × (w'.response_ready ≡ true) × (w'.frame ≡ [])
feed_bytes-request_frames_example =
    feed_bytes-request_frames fresh_wire 7 9 two_chunks refl (omega arith)
      (omega arith, omega arith, omega arith) (omega arith)

-- A response of two fragments that waits to be fetched.
abbrev answered : Wire counter
answered = record (cleared counter 5 []) {
  response = replicate 200 7;
  sequence = 9;
  operation = 3;
  response_ready = true;
}

fetch_response_example :
    (feed_bytes answered (fetch_frames 3 9 0 2)
      ≡ record answered { sent = response_frames 3 9 (replicate 200 7) 0 2 })
    × (slices (replicate 200 7) 0 2 ≡ replicate 200 7)
fetch_response_example =
    fetch_response answered 2 refl refl (omega arith) (omega arith) (omega arith) (omega arith)
