-- ===== src/Wire/Bounds.antt =====
-- The buffers of the wire protocol never overflow, whatever bytes arrive.
use opendiag_firmware.Base.{
  Bool-cases, List, [], ap, arith, dec_lt, drop, false, get_or, get_or-append_left, inl, inr,
  length, length-append, ltb, ltb→lt, not, refl, sub32, take, true, ℕ, ◌++◌, ◌+◌, ◌<◌, ◌==◌, ◌||◌,
  ◌∷◌, ◌≡◌, ◌≤◌, ◌⊎◌,
}
use opendiag_firmware.Wire.{
  Core, Wire, agrees, begin_request, check_frame, complete_request, feed, feed_byte, feed_bytes,
  fragment_max, get_le16, get_le32, magic, process_frame, reject_request, resync, rpc_max,
  send_fragment, send_response_fragment, store_fragment, take_fragment, wire_crc_size,
  wire_header_size, wire_timeout_us,
}
use opendiag_firmware.Wire.Resync.{agrees-longer, agrees-resync, length-resync, resync_id}

-- A frame that is not complete yet: it agrees with the magic, and once its header is there, it is
-- shorter than the header says.
pub record IsPartial (frame : List ℕ) : Type 0 where
  pub aligned : agrees magic frame ≡ true
  pub short :
      (length frame < wire_header_size)
      ⊎ (get_le16 frame 14 ≤ fragment_max)
        × (length frame < wire_header_size + get_le16 frame 14 + wire_crc_size)

-- A partial frame leaves room for the next byte in the 212 bytes of the frame buffer, and requests and
-- responses fit theirs.
pub record IsValidWire {c : Core} (w : Wire c) : Type 0 where
  pub partial_frame : IsPartial w.frame
  pub request_fits : length w.request ≤ rpc_max
  pub response_fits : length w.response ≤ rpc_max

-- The part of the invariant that does not speak of the frame buffer.
record HasRoom {c : Core} (w : Wire c) : Type 0 where
  request_fits : length w.request ≤ rpc_max
  response_fits : length w.response ≤ rpc_max

module _ {c : Core} where
  send_response_fragment-HasRoom :
      (w : Wire c) (offset : ℕ) → HasRoom w → HasRoom (send_response_fragment w offset)
  unfolding send_response_fragment send_fragment
  send_response_fragment-HasRoom w offset h = ground arith

  reject_request-HasRoom : (w : Wire c) → HasRoom w → HasRoom (reject_request w)
  unfolding reject_request
  reject_request-HasRoom w h =
      send_response_fragment-HasRoom
        (record w { assembling_request = false; response = 8 ∷ 10 ∷ []; response_ready = true }) 0
        (record { request_fits = h.request_fits; response_fits = omega arith })

  complete_request-HasRoom : (w : Wire c) → HasRoom w → HasRoom (complete_request w)
  unfolding complete_request
  complete_request-HasRoom w h = send_response_fragment-HasRoom _ 0 (record {
    request_fits = h.request_fits;
    response_fits = c.fits w.core w.operation w.request;
  })

  store_fragment-HasRoom :
      (w : Wire c) (flags : ℕ) (payload : List ℕ)
      → HasRoom w
      → HasRoom (store_fragment w flags payload)
  unfolding store_fragment send_fragment
  store_fragment-HasRoom w flags payload h =
      let w' = record w { request = w.request ++ payload } in
      ground (
        arith,
        reject_request-HasRoom w h,
        complete_request-HasRoom w',
        length-append w.request payload,
      )

  take_fragment-HasRoom :
      (w : Wire c) (flags operation sequence offset : ℕ) (payload : List ℕ)
      → HasRoom w
      → HasRoom (take_fragment w flags operation sequence offset payload)
  unfolding take_fragment begin_request
  take_fragment-HasRoom w flags operation sequence offset payload h = ground (
    arith,
    store_fragment-HasRoom (begin_request w operation sequence) flags payload,
    store_fragment-HasRoom w flags payload h,
  )

  process_frame-HasRoom : (w : Wire c) → HasRoom w → HasRoom (process_frame w)
  unfolding process_frame
  process_frame-HasRoom w h =
      let f = w.frame in
      let payload = take (get_le16 f 14) (drop wire_header_size f) in
      ground (
        arith,
        send_response_fragment-HasRoom w (get_le16 f 12) h,
        take_fragment-HasRoom w (get_le16 f 6) (get_or f 5 0) (get_le32 f 8) (get_le16 f 12) payload
            h,
      )

get_le16-append :
    (xs ys : List ℕ) (i : ℕ) → i + 1 < length xs → get_le16 (xs ++ ys) i ≡ get_le16 xs i
get_le16-append xs ys i h =
    omega (arith, get_or-append_left xs ys i 0 (omega arith), get_or-append_left xs ys (i + 1) 0 h)

-- Appending a byte to a frame whose header is there changes neither its start nor its length field.
grown_frame :
    (frame : List ℕ) (b : ℕ)
    → IsPartial frame
    → let grown = resync (frame ++ (b ∷ [])) in
      (agrees magic grown ≡ true)
      × ((length grown ≤ wire_header_size)
          ⊎ (get_le16 grown 14 ≤ fragment_max)
            × (length grown ≤ wire_header_size + get_le16 grown 14 + wire_crc_size))
grown_frame frame b h = (
  agrees-resync (frame ++ (b ∷ [])),
  elim (dec_lt (length frame) 16) [
    | yes l ↦ inl (omega (arith, length-resync (frame ++ (b ∷ [])), length-append frame (b ∷ [])))
    | no l ↦
        (let kept =
            resync_id (frame ++ (b ∷ [])) (agrees-longer frame (b ∷ []) (omega arith) h.aligned) in
          rw kept (
            inr (
              ground
                (arith, h.short, get_le16-append frame (b ∷ []) 14, length-append frame (b ∷ [])))))
  ],
)

no_bytes-IsPartial : IsPartial []
no_bytes-IsPartial = record { aligned = (unfold agrees in refl); short = inl (omega arith) }

still_short :
    (n len version : ℕ)
    → (n ≤ wire_header_size) ⊎ (len ≤ fragment_max) × (n ≤ wire_header_size + len + wire_crc_size)
    → ltb n wire_header_size ≡ false
    → (not (version == 1) || ltb fragment_max len) ≡ false
    → (n == wire_header_size + len + wire_crc_size) ≡ false
    → (n < wire_header_size) ⊎ (len ≤ fragment_max) × (n < wire_header_size + len + wire_crc_size)
still_short n len version h e f k = ground arith

module _ {c : Core} where
  check_frame-IsPartial :
      (w : Wire c)
      → agrees magic w.frame ≡ true
      → (length w.frame ≤ wire_header_size)
        ⊎ (get_le16 w.frame 14 ≤ fragment_max)
          × (length w.frame ≤ wire_header_size + get_le16 w.frame 14 + wire_crc_size)
      → IsPartial (check_frame w).frame
  unfolding check_frame
  check_frame-IsPartial w a h =
      let len = get_le16 w.frame 14 in
      elim (Bool-cases (ltb (length w.frame) wire_header_size)) [
        | inl e ↦ rw e (record { aligned = a; short = inl (ltb→lt _ _ e) })
        | inr e ↦ elim (Bool-cases (not (get_or w.frame 4 0 == 1) || ltb fragment_max len)) [
          | inl f ↦ rw (e, f) no_bytes-IsPartial
          | inr f ↦ elim (Bool-cases (length w.frame == wire_header_size + len + wire_crc_size)) [
            | inl k ↦ rw (e, f, k) no_bytes-IsPartial
            | inr k ↦ rw (e, f, k) (record { aligned = a; short = still_short _ len _ h e f k })
          ]
        ]
      ]

  check_frame-HasRoom : (w : Wire c) → HasRoom w → HasRoom (check_frame w)
  unfolding check_frame
  check_frame-HasRoom w h = ground (arith, process_frame-HasRoom w h)

  feed_byte-IsValidWire : (w : Wire c) (b : ℕ) → IsValidWire w → IsValidWire (feed_byte w b)
  unfolding feed_byte
  feed_byte-IsValidWire w b v =
      let w' = record w { frame = resync (w.frame ++ (b ∷ [])) } in
      let grown = grown_frame w.frame b v.partial_frame in
      let room : HasRoom w' = record {
        request_fits = v.request_fits;
        response_fits = v.response_fits;
      } in
      let kept = check_frame-HasRoom w' room in
      record {
        partial_frame = check_frame-IsPartial w' grown.0 grown.1;
        request_fits = kept.request_fits;
        response_fits = kept.response_fits;
      }

  feed_bytes-IsValidWire :
      (w : Wire c) (bs : List ℕ) → IsValidWire w → IsValidWire (feed_bytes w bs)
  unfolding feed_bytes
  feed_bytes-IsValidWire w [] v = v
  feed_bytes-IsValidWire w (b ∷ bs) v =
      feed_bytes-IsValidWire (feed_byte w b) bs (feed_byte-IsValidWire w b v)

  -- Whatever bytes arrive and whenever, the buffers of the protocol do not overflow: the frame under
  -- way stays shorter than its header allows, and requests and responses fit 4608 bytes.
  pub feed-IsValidWire :
      (w : Wire c) (now : ℕ) (bytes : List ℕ) → IsValidWire w → IsValidWire (feed w now bytes)
  unfolding feed
  feed-IsValidWire w now bytes v =
      let valid : (w' : Wire c)
          → IsPartial w'.frame
          → (w'.request ≡ w.request)
          → (w'.response ≡ w.response)
          → IsValidWire (feed_bytes w' bytes) =
        λ w' p e f. feed_bytes-IsValidWire w' bytes (record {
          partial_frame = p;
          request_fits = omega (arith, v.request_fits, ap length e);
          response_fits = omega (arith, v.response_fits, ap length f);
        }) in
      elim (Bool-cases (ltb wire_timeout_us (sub32 now w.last_input_us))) [
        | inl e ↦ rw e (valid _ no_bytes-IsPartial refl refl)
        | inr e ↦ rw e (valid _ v.partial_frame refl refl)
      ]
