-- ===== src/Wire.antt =====
-- main/j2534_wire.c: requests and responses of the J2534 server, cut into fragments with a header and
-- a CRC. An array and the count of its used bytes are one list; `sent` is what `vif_link_write` has
-- been given, oldest first. The server behind the frames, `j2534_core_request`, is a parameter.
pub mod Bytes
pub mod Resync
pub mod Bounds
pub mod Header
pub mod Fields
pub mod Fragments
pub mod Delivery
pub mod Fetch
use opendiag_firmware.Base.{
  Bool, List, [], bit_xor, drop, false, get_or, if◌then◌else◌, length, ltb, not, sub32, suc, take,
  true, zero, ℕ, ◌%◌, ◌&&◌, ◌*◌, ◌++◌, ◌+◌, ◌-◌, ◌/◌, ◌==◌, ◌||◌, ◌∷◌, ◌≤◌,
}

abbrev pub wire_header_size : ℕ
wire_header_size = 16

abbrev pub wire_crc_size : ℕ
wire_crc_size = 4

abbrev pub fragment_max : ℕ
fragment_max = 192

abbrev pub rpc_max : ℕ
rpc_max = 4608

abbrev pub wire_timeout_us : ℕ
wire_timeout_us = 2000000

-- `j2534_core_request`: the state of the server, what it makes of a request, and that the response
-- fits the array that it is given.
pub record Core : Type 1 where
  pub State : Type 0
  pub request : State → ℕ → List ℕ → State × List ℕ
  pub fits : (s : State) (op : ℕ) (bytes : List ℕ) → length (request s op bytes).1 ≤ rpc_max

-- `wire`, the server's state and the link.
pub record Wire (c : Core) : Type 0 where
  pub frame : List ℕ
  pub request : List ℕ
  pub response : List ℕ
  pub sequence : ℕ
  pub last_input_us : ℕ
  pub operation : ℕ
  pub assembling_request : Bool
  pub response_ready : Bool
  pub core : c.State
  pub sent : List (List ℕ)

-- `get_le16`, and `j2534_u32`, at an index.
abbrev pub get_le16 : List ℕ → ℕ → ℕ
get_le16 bytes i = get_or bytes i 0 + get_or bytes (i + 1) 0 * 256

abbrev pub get_le32 : List ℕ → ℕ → ℕ
get_le32 bytes i =
    get_or bytes i 0
    + get_or bytes (i + 1) 0 * 256
    + get_or bytes (i + 2) 0 * 65536
    + get_or bytes (i + 3) 0 * 16777216

-- `put_le16` and `j2534_put32`.
abbrev pub le16 : ℕ → List ℕ
le16 v = v % 256 ∷ v / 256 % 256 ∷ []

abbrev pub le32 : ℕ → List ℕ
le32 v = v % 256 ∷ v / 256 % 256 ∷ v / 65536 % 256 ∷ v / 16777216 % 256 ∷ []

-- One turn of the inner loop of `crc32`; the mask is all ones where a bit falls out.
abbrev pub crc32_bit : ℕ → ℕ
crc32_bit crc = if crc % 2 == 0 then crc / 2 else bit_xor (crc / 2) 0xEDB88320

unfoldable pub crc32_bits : ℕ → ℕ → ℕ
crc32_bits zero crc = crc
crc32_bits (suc n) crc = crc32_bits n (crc32_bit crc)

unfoldable pub crc32_register : ℕ → List ℕ → ℕ
crc32_register crc [] = crc
crc32_register crc (b ∷ bs) = crc32_register (crc32_bits 8 (bit_xor crc b)) bs

unfoldable pub crc32 : List ℕ → ℕ
crc32 bytes = 0xFFFFFFFF - crc32_register 0xFFFFFFFF bytes

-- `frame_crc`: the header behind the magic, and the payload.
unfoldable pub frame_crc : List ℕ → ℕ → ℕ
frame_crc frame payload_len = crc32 (take (12 + payload_len) (drop 4 frame))

-- The header that a frame with these fields has.
abbrev pub wire_header : ℕ → ℕ → ℕ → ℕ → ℕ → List ℕ
wire_header operation flags sequence offset len =
    0x4A ∷ 0x32 ∷ 0x35 ∷ 0x33 ∷ 1 ∷ operation ∷ []
    ++ (le16 flags ++ (le32 sequence ++ (le16 offset ++ le16 len)))

-- A frame with its CRC.
unfoldable pub wire_frame : ℕ → ℕ → ℕ → ℕ → List ℕ → List ℕ
wire_frame operation flags sequence offset payload =
    let body = wire_header operation flags sequence offset (length payload) ++ payload in
    body ++ le32 (frame_crc body (length payload))

-- Does a buffer agree with the magic as far as it goes?
unfoldable pub agrees : List ℕ → List ℕ → Bool
agrees [] bytes = true
agrees (m ∷ ms) [] = true
agrees (m ∷ ms) (b ∷ bs) = let rest = agrees ms bs in m == b && rest

abbrev pub magic : List ℕ
magic = 0x4A ∷ 0x32 ∷ 0x35 ∷ 0x33 ∷ []

-- The `while` of `feed`: bytes are dropped until the rest agrees.
unfoldable pub resync : List ℕ → List ℕ
resync [] = []
resync (b ∷ bs) = let rest = resync bs in if agrees magic (b ∷ bs) then b ∷ bs else rest

module _ {c : Core} where
  -- `send_fragment`, with the bytes of its pointer and length.
  unfoldable pub send_fragment : Wire c → ℕ → ℕ → List ℕ → Wire c
  send_fragment w flags offset payload = record w {
    sent = w.sent ++ (wire_frame w.operation (128 + flags) w.sequence offset payload ∷ []);
  }

  unfoldable pub send_response_fragment : Wire c → ℕ → Wire c
  send_response_fragment w offset =
      let rest = length w.response - offset in
      let len = if ltb fragment_max rest then fragment_max else rest in
      let flags = if ltb (offset + len) (length w.response) then 1 else 0 in
      if ltb (length w.response) offset
      then w
      else send_fragment w flags offset (take len (drop offset w.response))

  -- `reject_request`: the response is field 1 with the error J2534_MSG.
  unfoldable pub reject_request : Wire c → Wire c
  unfolding send_response_fragment
  reject_request w =
      send_response_fragment
        (record w { assembling_request = false; response = 8 ∷ 10 ∷ []; response_ready = true }) 0

  -- The last fragment: the server is asked.
  unfoldable pub complete_request : Wire c → Wire c
  unfolding send_response_fragment
  complete_request w =
      let (core, response) = c.request w.core w.operation w.request in
      send_response_fragment
        (record w {
          assembling_request = false;
          core = core;
          response = response;
          response_ready = true;
        })
        0

  -- A first fragment begins a new request.
  unfoldable pub begin_request : Wire c → ℕ → ℕ → Wire c
  begin_request w operation sequence = record w {
    request = [];
    sequence = sequence;
    operation = operation;
    assembling_request = true;
    response_ready = false;
  }

  -- A fragment that does not fit, one that more are to follow, and the last one.
  unfoldable pub store_fragment : Wire c → ℕ → List ℕ → Wire c
  unfolding complete_request reject_request send_fragment
  store_fragment w flags payload =
      let w' = record w { request = w.request ++ payload } in
      if ltb (rpc_max - length w.request) (length payload) || flags == 1 && length payload == 0
      then reject_request w
      else if flags == 1
      then send_fragment w' 4 (length w'.request) []
      else complete_request w'

  -- The test that a fragment is the next one of the request under way.
  unfoldable pub follows : Wire c → ℕ → ℕ → ℕ → Bool
  follows w operation sequence offset =
      w.assembling_request
      && (sequence == w.sequence && (operation == w.operation && offset == length w.request))

  -- A fragment of a request at `offset`.
  unfoldable pub take_fragment : Wire c → ℕ → ℕ → ℕ → ℕ → List ℕ → Wire c
  unfolding begin_request store_fragment follows
  take_fragment w flags operation sequence offset payload =
      let w' = if offset == 0 then begin_request w operation sequence else w in
      if follows w' operation sequence offset then store_fragment w' flags payload else w'

  -- `process_frame`; of the flags of a request only WIRE_MORE is allowed.
  unfoldable pub process_frame : Wire c → Wire c
  unfolding take_fragment send_response_fragment
  process_frame w =
      let f = w.frame in
      let flags = get_le16 f 6 in
      let offset = get_le16 f 12 in
      let len = get_le16 f 14 in
      let sequence = get_le32 f 8 in
      let operation = get_or f 5 0 in
      if not (get_le32 f (wire_header_size + len) == frame_crc f len)
      then w
      else if flags == 2
      then (if len == 0
            && (w.response_ready && (sequence == w.sequence && operation == w.operation))
          then send_response_fragment w offset
          else w)
      else if ltb 1 flags
      then w
      else take_fragment w flags operation sequence offset (take len (drop wire_header_size f))

  -- The tests on the bytes collected so far, and the frame where it is complete.
  unfoldable pub check_frame : Wire c → Wire c
  unfolding process_frame
  check_frame w =
      let len = get_le16 w.frame 14 in
      if ltb (length w.frame) wire_header_size
      then w
      else if not (get_or w.frame 4 0 == 1) || ltb fragment_max len
      then record w { frame = [] }
      else if length w.frame == wire_header_size + len + wire_crc_size
      then record (process_frame w) { frame = [] }
      else w

  -- One turn of the loop of `feed`.
  unfoldable pub feed_byte : Wire c → ℕ → Wire c
  unfolding check_frame resync
  feed_byte w b = check_frame (record w { frame = resync (w.frame ++ (b ∷ [])) })

  unfoldable pub feed_bytes : Wire c → List ℕ → Wire c
  unfolding feed_byte
  feed_bytes w [] = w
  feed_bytes w (b ∷ bs) = feed_bytes (feed_byte w b) bs

  -- `feed`, at the time `now`.
  unfoldable pub feed : Wire c → ℕ → List ℕ → Wire c
  unfolding feed_bytes
  feed w now bytes =
      let late = ltb wire_timeout_us (sub32 now w.last_input_us) in
      let w₁ = if late then record w { frame = []; assembling_request = false } else w in
      feed_bytes (record w₁ { last_input_us = now }) bytes

-- What `start` and `stop` leave of the protocol, around the server's state; the link is not theirs.
abbrev pub cleared : (c : Core) → c.State → List (List ℕ) → Wire c
cleared c core sent = record {
  frame = [];
  request = [];
  response = [];
  sequence = 0;
  last_input_us = 0;
  operation = 0;
  assembling_request = false;
  response_ready = false;
  core = core;
  sent = sent;
}
