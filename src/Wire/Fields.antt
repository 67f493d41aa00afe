-- ===== src/Wire/Fields.antt =====
-- Processing a frame that carries a fragment of a request.
use opendiag_firmware.Base.{
  List, ap, arith, below_test, drop, equal_test, get_or, length, length-drop, le→not_ltb, refl, sym,
  take, take-append, ℕ, ◌%◌, ◌*◌, ◌++◌, ◌+◌, ◌/◌, ◌<◌, ◌∙◌, ◌≡◌, ◌≤◌,
}
use opendiag_firmware.Wire.{
  Core, Wire, crc32, fragment_max, frame_crc, get_le16, get_le32, le32, process_frame,
  take_fragment, wire_frame, wire_header, wire_header_size,
}
use opendiag_firmware.Wire.Bytes.{crc32-lt, drop-append_left, get_le32-le32, take-append_left}

pub le16_lem : (v : ℕ) → v < 65536 → v % 256 + v / 256 % 256 * 256 ≡ v
le16_lem v h = omega arith

pub le32_lem :
    (v : ℕ)
    → v < 4294967296
    → v % 256 + v / 256 % 256 * 256 + v / 65536 % 256 * 65536 + v / 16777216 % 256 * 16777216 ≡ v
le32_lem v h = omega arith

-- The CRC behind a frame is the one that its bytes have.
pub crc_agrees :
    (body : List ℕ) (n : ℕ)
    → length body ≡ wire_header_size + n
    → get_le32 (body ++ le32 (frame_crc body n)) (wire_header_size + n)
      ≡ frame_crc (body ++ le32 (frame_crc body n)) n
unfolding frame_crc
crc_agrees body n h =
    let value = crc32 (take (12 + n) (drop 4 body)) in
    get_le32-le32 body (16 + n) value (omega (arith, h)) (crc32-lt (take (12 + n) (drop 4 body)))
    ∙ ap crc32 (
        sym (
          ap (λ bs. take (12 + n) bs) (drop-append_left 4 body (le32 value) (omega (arith, h)))
          ∙ take-append_left (12 + n) (drop 4 body) (le32 value)
              (omega (arith, h, length-drop 4 body))))

module _ {c : Core} where
  process_fields :
      (w : Wire c) (operation flags sequence offset : ℕ) (payload : List ℕ)
      → flags ≤ 1
      → get_or w.frame 5 0 ≡ operation
      → get_le16 w.frame 6 ≡ flags
      → get_le32 w.frame 8 ≡ sequence
      → get_le16 w.frame 12 ≡ offset
      → get_le16 w.frame 14 ≡ length payload
      → get_le32 w.frame (wire_header_size + length payload) ≡ frame_crc w.frame (length payload)
      → take (length payload) (drop wire_header_size w.frame) ≡ payload
      → process_frame w ≡ take_fragment w flags operation sequence offset payload
  unfolding process_frame
  process_fields w operation flags sequence offset payload h e₁ e₂ e₃ e₄ e₅ e₆ e₇ =
      rw
        (
          e₅,
          equal_test _ _ e₆,
          e₂,
          below_test flags 2 (omega (arith, h)),
          le→not_ltb 1 flags h,
          e₁,
          e₃,
          e₄,
          e₇,
        )
        refl

  -- A frame that `wire_frame` builds is taken apart into what it was built from.
  pub process_frame-wire_frame :
      (w : Wire c) (operation flags sequence offset : ℕ) (payload : List ℕ)
      → flags ≤ 1
      → sequence < 4294967296
      → offset < 65536
      → length payload ≤ fragment_max
      → let w' = record w { frame = wire_frame operation flags sequence offset payload } in
        process_frame w' ≡ take_fragment w' flags operation sequence offset payload
  unfolding wire_frame
  process_frame-wire_frame w operation flags sequence offset payload h s o p =
      let n = length payload in
      let body = wire_header operation flags sequence offset n ++ payload in
      process_fields (record w { frame = wire_frame operation flags sequence offset payload })
        operation flags sequence offset payload h refl (le16_lem flags (omega arith))
        (le32_lem sequence s) (le16_lem offset o) (le16_lem n (omega arith))
        (crc_agrees body n (omega arith)) (take-append payload (le32 (frame_crc body n)))
