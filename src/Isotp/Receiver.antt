-- ===== src/Isotp/Receiver.antt =====
-- main/isotp.c, the receiving half: isotp_rx_init, isotp_rx_feed, isotp_rx_flow_control,
-- isotp_rx_confirm, isotp_rx_check_timeout. A function that updates `*rx` returns the new record
-- behind its result code, and the frame or segment that it fills in behind that.
pub mod Invariant
pub mod Stored
pub mod Errors
pub mod Bounds
pub mod Runs
use opendiag_firmware.Base.{
  Bool, List, Option, [], bit_or, drop, false, if◌then◌else◌, leb, ltb, none, not, set, some, sub32,
  take, true, u16, u32, u8, write_at, ℕ, ◌%◌, ◌*◌, ◌+◌, ◌-◌, ◌/◌, ◌==◌, ◌||◌,
}
use opendiag_firmware.Isotp.Config.{
  address_len, byte_at, expired, is_error, is_rx_cf, is_rx_fc_confirm, is_rx_fc_ready, is_rx_idle,
  matches, prepare, valid_config,
}
use opendiag_firmware.Isotp.Types.{
  CanFrame, IsotpConfig, IsotpResult, IsotpRx, IsotpSegment, complete, err_argument, err_overflow,
  err_send, err_sequence, err_timeout_a, err_timeout_cr, frame, ignored, rx_cf, rx_fc_confirm,
  rx_fc_ready, rx_idle,
}

-- The receiver that `isotp_rx_init` writes, all other fields zero.
unfoldable pub isotp_rx_init : IsotpConfig → Option (List ℕ) → ℕ → Option IsotpRx
isotp_rx_init config buffer capacity = if valid_config config then some fresh else none
  where
    fresh : IsotpRx
    fresh = record {
      config = config;
      buffer = buffer;
      capacity = capacity;
      state = rx_idle;
      deadline_us = 0;
      total = 0;
      offset = 0;
      sequence = 0;
      block_count = 0;
      flow_status = 0;
      padding_error = false;
    }

unfoldable pub isotp_rx_check_timeout : IsotpRx → ℕ → IsotpResult × IsotpRx
isotp_rx_check_timeout rx now =
    if is_rx_idle rx.state || not (expired now rx.deadline_us) then (ignored, rx) else (
      if is_rx_cf rx.state then err_timeout_cr else err_timeout_a,
      record rx { state = rx_idle },
    )

-- `*s = (isotp_segment_t){0}`.
abbrev pub empty_segment : IsotpSegment
empty_segment = record {
  bytes = [];
  len = 0;
  offset = 0;
  total = 0;
  started = false;
  complete = false;
  replaced = false;
  padding_error = false;
}

-- The copy into the buffer, where there is one.
abbrev pub store : Option (List ℕ) → ℕ → List ℕ → Option (List ℕ)
store none offset bytes = none
store (some buf) offset bytes = some (write_at buf offset bytes)

-- `segment_copy`, with the bytes that its pointer and length name.
unfoldable pub segment_copy : IsotpRx → IsotpSegment → List ℕ → ℕ → IsotpRx × IsotpSegment
segment_copy rx s bytes len =
    let offset = u16 (rx.offset + len) in
    (
      record rx { buffer = store rx.buffer rx.offset bytes; offset = offset },
      record s {
        bytes = bytes;
        len = len;
        offset = rx.offset;
        total = rx.total;
        padding_error = rx.padding_error;
        complete = offset == rx.total;
      },
    )

-- A single or first frame of `size` bytes, from the line that drops the earlier message on.
unfoldable pub feed_start : Bool → ℕ → IsotpRx → CanFrame → ℕ → IsotpResult × IsotpRx × IsotpSegment
feed_start first size rx f now =
    let a = address_len rx.config in
    let s = record empty_segment { replaced = not (is_rx_idle rx.state) } in
    let opened = record rx {
      state = rx_idle;
      offset = 0;
      total = u16 size;
      padding_error = ltb f.dlc 8;
    } in
    let refused = record opened {
      flow_status = 2;
      state = rx_fc_ready;
      deadline_us = u32 (now + rx.config.timeout_a_us);
    } in
    let accepted = record opened {
      sequence = 1;
      block_count = 0;
      flow_status = 0;
      state = rx_fc_ready;
      deadline_us = u32 (now + rx.config.timeout_a_us);
    } in
    let s' = record s { started = true } in
    if ltb rx.capacity size
    then (err_overflow, if first then refused else opened, s)
    else if first
    then (let (rx', t) = segment_copy accepted s' (take (6 - a) (drop (a + 2) f.bytes)) (6 - a) in
        (frame, rx', t))
    else (let (rx', t) = segment_copy opened s' (take size (drop (a + 1) f.bytes)) size in
        (complete, rx', t))

-- `type == 0`. `matches` has shown `a < dlc`, so the differences do not wrap.
unfoldable pub feed_single : IsotpRx → CanFrame → ℕ → IsotpResult × IsotpRx × IsotpSegment
feed_single rx f now =
    let a = address_len rx.config in
    let size = byte_at f a % 16 in
    if size == 0 || ltb (f.dlc - a - 1) size
    then (ignored, rx, empty_segment)
    else feed_start false size rx f now

-- `type == 1`. `(x & 0x0f) << 8 | y` on bytes is the sum.
unfoldable pub feed_first : IsotpRx → CanFrame → ℕ → IsotpResult × IsotpRx × IsotpSegment
feed_first rx f now =
    let a = address_len rx.config in
    let size = byte_at f a % 16 * 256 + byte_at f (a + 1) in
    if rx.config.functional || not (f.dlc == 8)
    then (ignored, rx, empty_segment)
    else if leb size (7 - a)
    then (ignored, rx, empty_segment)
    else feed_start true size rx f now

-- What follows the last copy of a consecutive frame: the end, or the next deadline and block.
unfoldable pub feed_advance : IsotpRx → ℕ → Bool → IsotpResult × IsotpRx
feed_advance rx now done =
    let count = u8 (rx.block_count + 1) in
    let waiting = record rx { deadline_us = u32 (now + rx.config.timeout_cr_us) } in
    if done
    then (complete, record rx { state = rx_idle })
    else if rx.config.block_size == 0
    then (frame, waiting)
    else if count == rx.config.block_size
    then (
      frame,
      record rx {
        block_count = 0;
        state = rx_fc_ready;
        deadline_us = u32 (now + rx.config.timeout_a_us);
      },
    )
    else (frame, record waiting { block_count = count })

-- The bytes that a consecutive frame carries: what is left of the message, or all that fit.
unfoldable pub cf_size : IsotpRx → ℕ
cf_size rx =
    let a = address_len rx.config in
    let remaining = sub32 rx.total rx.offset in if ltb remaining (7 - a) then remaining else 7 - a

-- The padding flag, the copy and the next sequence number of a consecutive frame.
unfoldable pub copy_consecutive : IsotpRx → CanFrame → IsotpRx × IsotpSegment
unfolding cf_size segment_copy
copy_consecutive rx f =
    let noted = record rx { padding_error = rx.padding_error || ltb f.dlc 8 } in
    let payload = take (cf_size rx) (drop (address_len rx.config + 1) f.bytes) in
    let (copied, s) = segment_copy noted empty_segment payload (cf_size rx) in
    (record copied { sequence = (copied.sequence + 1) % 16 }, s)

-- `type == 2` in ISOTP_RX_CF.
unfoldable pub feed_consecutive : IsotpRx → CanFrame → ℕ → IsotpResult × IsotpRx × IsotpSegment
feed_consecutive rx f now =
    let a = address_len rx.config in
    if ltb f.dlc (a + 1 + cf_size rx)
    then (ignored, rx, empty_segment)
    else if not (byte_at f a % 16 == rx.sequence)
    then (err_sequence, record rx { state = rx_idle }, empty_segment)
    else (let (copied, s) = copy_consecutive rx f in
        let (rc, rx') = feed_advance copied now s.complete in (rc, rx', s))

-- The frame types, for a frame that matches a receiver whose timer runs.
unfoldable pub feed_frame : IsotpRx → CanFrame → ℕ → IsotpResult × IsotpRx × IsotpSegment
feed_frame rx f now =
    let type = byte_at f (address_len rx.config) / 16 in
    if type == 0
    then feed_single rx f now
    else if type == 1
    then feed_first rx f now
    else if not (type == 2) || not (is_rx_cf rx.state)
    then (ignored, rx, empty_segment)
    else feed_consecutive rx f now

unfoldable pub isotp_rx_feed : IsotpRx → CanFrame → ℕ → IsotpResult × IsotpRx × IsotpSegment
isotp_rx_feed rx f now =
    let (rc, rx') = isotp_rx_check_timeout rx now in
    if is_error rc
    then (rc, rx', empty_segment)
    else if not (matches rx'.config f)
    then (ignored, rx', empty_segment)
    else feed_frame rx' f now

-- The flow control frame that `isotp_rx_flow_control` fills in.
unfoldable pub flow_control_frame : IsotpRx → CanFrame
unfolding prepare
flow_control_frame rx =
    let a = address_len rx.config in
    let blank = prepare rx.config in
    record blank {
      bytes =
          set (set (set blank.bytes a (bit_or 0x30 rx.flow_status)) (a + 1) rx.config.block_size)
            (a + 2) rx.config.stmin;
      dlc = if rx.config.pad then 8 else a + 3;
    }

-- The option is the frame, where one is taken.
unfoldable pub isotp_rx_flow_control : IsotpRx → ℕ → IsotpResult × IsotpRx × Option CanFrame
isotp_rx_flow_control rx now =
    let (rc, rx') = isotp_rx_check_timeout rx now in
    if is_error rc || not (is_rx_fc_ready rx'.state) then (rc, rx', none) else (
      frame,
      record rx' { state = rx_fc_confirm; deadline_us = u32 (now + rx'.config.timeout_a_us) },
      some (flow_control_frame rx'),
    )

unfoldable pub isotp_rx_confirm : IsotpRx → Bool → ℕ → IsotpResult × IsotpRx
isotp_rx_confirm rx success now =
    let (rc, rx') = isotp_rx_check_timeout rx now in
    if not (is_rx_fc_confirm rx.state)
    then (err_argument, rx)
    else if is_error rc
    then (rc, rx')
    else if not success || rx'.flow_status == 2
    then (if success then ignored else err_send, record rx' { state = rx_idle })
    else (ignored, record rx' { state = rx_cf; deadline_us = u32 (now + rx'.config.timeout_cr_us) })
