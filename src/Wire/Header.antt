-- ===== src/Wire/Header.antt =====
-- A well-formed frame is collected byte by byte and processed as a whole.
use opendiag_firmware.Base.{
  List, [], ap, append_assoc, arith, dec_lt, equal_test, false, get_or, get_or-append_left, length,
  length-append, le→not_ltb, ltb, lt→ltb, refl, subst, sym, true, ℕ, ◌++◌, ◌+◌, ◌<◌, ◌==◌, ◌∙◌, ◌∷◌,
  ◌≡◌, ◌≤◌,
}
use opendiag_firmware.Wire.{
  Core, Wire, agrees, check_frame, feed_byte, feed_bytes, fragment_max, frame_crc, get_le16, le32,
  magic, process_frame, wire_crc_size, wire_frame, wire_header, wire_header_size,
}
use opendiag_firmware.Wire.Resync.{agrees-prefix, resync_id}

-- What makes the bytes of a frame go through the tests of `feed`.
pub record IsWhole (f : List ℕ) : Type 0 where
  pub aligned : agrees magic f ≡ true
  pub version : get_or f 4 0 ≡ 1
  pub small : get_le16 f 14 ≤ fragment_max
  pub size : length f ≡ wire_header_size + get_le16 f 14 + wire_crc_size

-- Every frame that `wire_frame` builds is one.
pub wire_frame-IsWhole :
    (operation flags sequence offset : ℕ) (payload : List ℕ)
    → length payload ≤ fragment_max
    → IsWhole (wire_frame operation flags sequence offset payload)
unfolding wire_frame
wire_frame-IsWhole operation flags sequence offset payload h = record {
  aligned = (unfold agrees in refl);
  version = refl;
  small = omega arith;
  size = omega (
    arith,
    length-append payload (
        le32 (
          frame_crc (wire_header operation flags sequence offset (length payload) ++ payload)
            (length payload))),
  );
}

is_short :
    (n m k len len' : ℕ)
    → m ≡ wire_header_size + len' + wire_crc_size
    → m ≡ n + k
    → 0 < k
    → len ≡ len'
    → (n == wire_header_size + len + wire_crc_size) ≡ false
is_short n m k len len' e f p g = ground arith

module _ {c : Core} where
  -- The fields of a frame that is there in part are those of the whole frame.
  check_frame-partial :
      (w : Wire c) (more : List ℕ) → IsWhole (w.frame ++ more) → 0 < length more → check_frame w ≡ w
  unfolding check_frame
  check_frame-partial w more h p = elim (dec_lt (length w.frame) wire_header_size) [
    | yes l ↦ rw (lt→ltb _ _ l) refl
    | no l ↦
        (let f = w.frame in
          let total = length-append f more in
          let long : ltb (length f) wire_header_size ≡ false = ground arith in
          let version : get_or f 4 0 ≡ 1 =
            omega (arith, h.version, get_or-append_left f more 4 0) in
          let length_field : get_le16 f 14 ≡ get_le16 (f ++ more) 14 =
            omega (arith, get_or-append_left f more 14 0, get_or-append_left f more 15 0) in
          let small : ltb fragment_max (get_le16 f 14) ≡ false =
            le→not_ltb fragment_max _ (omega (arith, length_field, h.small)) in
          let open_yet : (length f == wire_header_size + get_le16 f 14 + wire_crc_size) ≡ false =
            is_short (length f) (length (f ++ more)) (length more) _ _ h.size total p
              length_field in
          rw (long, version, small, open_yet) refl)
  ]

  check_frame-whole :
      (w : Wire c) → IsWhole w.frame → check_frame w ≡ record (process_frame w) { frame = [] }
  unfolding check_frame
  check_frame-whole w h =
      let long : ltb (length w.frame) wire_header_size ≡ false =
        le→not_ltb _ _ (omega (arith, h.size)) in
      let small : ltb fragment_max (get_le16 w.frame 14) ≡ false =
        le→not_ltb fragment_max _ h.small in
      let done : (length w.frame == wire_header_size + get_le16 w.frame 14 + wire_crc_size) ≡ true =
        equal_test _ _ h.size in
      rw (long, h.version, small, done) refl

  -- The bytes of a whole frame, one after the other, from any split of it on.
  pub feed_bytes-whole :
      (w : Wire c) (b : ℕ) (bs : List ℕ)
      → IsWhole (w.frame ++ (b ∷ bs))
      → feed_bytes w (b ∷ bs)
        ≡ record (process_frame (record w { frame = w.frame ++ (b ∷ bs) })) { frame = [] }
  unfolding feed_bytes feed_byte
  feed_bytes-whole w b [] h =
      rw (resync_id (w.frame ++ (b ∷ [])) h.aligned)
        (check_frame-whole (record w { frame = w.frame ++ (b ∷ []) }) h)
  feed_bytes-whole w b (b' ∷ bs) h =
      let grown = w.frame ++ (b ∷ []) in
      let regroup : grown ++ (b' ∷ bs) ≡ w.frame ++ (b ∷ (b' ∷ bs)) =
        append_assoc w.frame (b ∷ []) (b' ∷ bs) in
      let whole : IsWhole (grown ++ (b' ∷ bs)) = subst IsWhole (sym regroup) h in
      let kept = resync_id grown (agrees-prefix magic grown (b' ∷ bs) whole.aligned) in
      rw (kept, check_frame-partial (record w { frame = grown }) (b' ∷ bs) whole (omega arith))
        (feed_bytes-whole (record w { frame = grown }) b' bs whole
          ∙ ap (λ f. record (process_frame (record w { frame = f })) { frame = [] }) regroup)
