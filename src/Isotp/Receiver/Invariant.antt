-- ===== src/Isotp/Receiver/Invariant.antt =====
-- The invariant of a receiver, and that every operation of isotp_rx_t keeps it.
use opendiag_firmware.Base.{
  All, All-get_or, Bool, List, Option, arith, drop, false, length, length-write_at, none, refl,
  some, take, true, ℕ, ◌%◌, ◌*◌, ◌+◌, ◌-◌, ◌<◌, ◌==◌, ◌≡◌, ◌≤◌, ◌⊎◌,
}
use opendiag_firmware.Isotp.Config.{address_len, byte_at}
use opendiag_firmware.Isotp.Receiver.{
  cf_size, copy_consecutive, feed_advance, feed_consecutive, feed_first, feed_frame, feed_single,
  feed_start, isotp_rx_check_timeout, isotp_rx_confirm, isotp_rx_feed, isotp_rx_flow_control,
  isotp_rx_init, segment_copy, store,
}
use opendiag_firmware.Isotp.Types.{
  CanFrame, IsotpConfig, IsotpRx, rx_cf, rx_fc_confirm, rx_fc_ready,
}

-- A caller's buffer holds `capacity` bytes; a null pointer holds nothing.
abbrev pub Fits : Option (List ℕ) → ℕ → Type 0
Fits none capacity = Unit
Fits (some buf) capacity = capacity ≤ length buf

-- A frame as the CAN driver delivers it: eight bytes.
pub record IsFrame (f : CanFrame) : Type 0 where
  pub eight : length f.bytes ≡ 8
  pub bytes : All (λ b. b < 256) f.bytes

-- A message that is still open: part of it is stored, all of it fits, and the peer may go on.
pub record IsOpen (rx : IsotpRx) : Type 0 where
  pub going : rx.flow_status ≡ 0
  pub part : rx.offset < rx.total
  pub room : rx.total ≤ rx.capacity

pub record IsValidRx (rx : IsotpRx) : Type 0 where
  pub buffer : Fits rx.buffer rx.capacity
  pub within : rx.offset ≤ rx.total
  pub small : rx.total ≤ 4095
  pub digit : rx.sequence < 16
  pub block_byte : rx.config.block_size < 256
  pub counted : (rx.block_count ≡ 0) ⊎ (rx.block_count < rx.config.block_size)
  pub cf_open : rx.state ≡ rx_cf → IsOpen rx
  pub ready_open : rx.state ≡ rx_fc_ready → (rx.flow_status ≡ 2) ⊎ IsOpen rx
  pub confirm_open : rx.state ≡ rx_fc_confirm → (rx.flow_status ≡ 2) ⊎ IsOpen rx

pub isotp_rx_check_timeout-IsValidRx :
    (rx : IsotpRx) (now : ℕ) → IsValidRx rx → IsValidRx (isotp_rx_check_timeout rx now).1
unfolding isotp_rx_check_timeout
isotp_rx_check_timeout-IsValidRx rx now v = ground arith

pub store-Fits :
    (b : Option (List ℕ)) (capacity offset : ℕ) (bytes : List ℕ)
    → Fits b capacity
    → Fits (store b offset bytes) capacity
store-Fits none capacity offset bytes h = tt
store-Fits (some buf) capacity offset bytes h = omega (arith, length-write_at buf offset bytes)

feed_start-IsValidRx :
    (first : Bool) (size : ℕ) (rx : IsotpRx) (f : CanFrame) (now : ℕ)
    → IsValidRx rx
    → size ≤ 4095
    → (first ≡ true → 7 - address_len rx.config < size)
    → IsValidRx (feed_start first size rx f now).1
unfolding feed_start segment_copy
feed_start-IsValidRx true size rx f now v h k = ground (
  arith,
  k,
  store-Fits rx.buffer rx.capacity 0
      (take (6 - address_len rx.config) (drop (address_len rx.config + 2) f.bytes)),
)
feed_start-IsValidRx false size rx f now v h k = ground (
  arith,
  store-Fits rx.buffer rx.capacity 0 (take size (drop (address_len rx.config + 1) f.bytes)),
)

feed_single-IsValidRx :
    (rx : IsotpRx) (f : CanFrame) (now : ℕ) → IsValidRx rx → IsValidRx (feed_single rx f now).1
unfolding feed_single
feed_single-IsValidRx rx f now v =
    let size = byte_at f (address_len rx.config) % 16 in
    ground (arith, feed_start-IsValidRx false size rx f now v)

feed_first-IsValidRx :
    (rx : IsotpRx) (f : CanFrame) (now : ℕ)
    → IsValidRx rx
    → IsFrame f
    → IsValidRx (feed_first rx f now).1
unfolding feed_first
feed_first-IsValidRx rx f now v w =
    let a = address_len rx.config in
    let size = byte_at f a % 16 * 256 + byte_at f (a + 1) in
    ground (arith, All-get_or f.bytes (a + 1) w.bytes, feed_start-IsValidRx true size rx f now v)

-- A receiver in the middle of a consecutive frame: the copy is made, the rest is not.
record IsCopied (rx : IsotpRx) : Type 0 where
  buffer : Fits rx.buffer rx.capacity
  within : rx.offset ≤ rx.total
  small : rx.total ≤ 4095
  digit : rx.sequence < 16
  block_byte : rx.config.block_size < 256
  counted : (rx.block_count ≡ 0) ⊎ (rx.block_count < rx.config.block_size)
  going : rx.flow_status ≡ 0
  room : rx.total ≤ rx.capacity
  in_cf : rx.state ≡ rx_cf

feed_advance-IsValidRx :
    (rx : IsotpRx) (now : ℕ) (done : Bool)
    → IsCopied rx
    → (done ≡ false → rx.offset < rx.total)
    → IsValidRx (feed_advance rx now done).1
unfolding feed_advance
feed_advance-IsValidRx rx now true v h = ground arith
feed_advance-IsValidRx rx now false v h = ground (arith, h)

pub cf_size_bounds :
    (rx : IsotpRx)
    → rx.offset < rx.total
    → rx.total ≤ 4095
    → (0 < cf_size rx) × (cf_size rx ≤ 7) × (rx.offset + cf_size rx ≤ rx.total)
unfolding cf_size
cf_size_bounds rx h k = ground arith

copy_consecutive-IsCopied :
    (rx : IsotpRx) (f : CanFrame)
    → IsValidRx rx
    → rx.state ≡ rx_cf
    → IsCopied (copy_consecutive rx f).0
unfolding segment_copy copy_consecutive
copy_consecutive-IsCopied rx f v e =
    let o = v.cf_open e in
    ground (
      arith,
      cf_size_bounds rx o.part v.small,
      store-Fits rx.buffer rx.capacity rx.offset
          (take (cf_size rx) (drop (address_len rx.config + 1) f.bytes)),
    )

pub copy_consecutive-complete :
    (rx : IsotpRx) (f : CanFrame)
    → (copy_consecutive rx f).1.complete ≡ ((copy_consecutive rx f).0.offset == rx.total)
unfolding copy_consecutive segment_copy
copy_consecutive-complete rx f = refl

total-copy_consecutive : (rx : IsotpRx) (f : CanFrame) → (copy_consecutive rx f).0.total ≡ rx.total
unfolding copy_consecutive segment_copy
total-copy_consecutive rx f = refl

feed_consecutive-IsValidRx :
    (rx : IsotpRx) (f : CanFrame) (now : ℕ)
    → IsValidRx rx
    → rx.state ≡ rx_cf
    → IsValidRx (feed_consecutive rx f now).1
unfolding feed_consecutive
feed_consecutive-IsValidRx rx f now v e =
    let (copied, s) = copy_consecutive rx f in
    ground (
      arith,
      copy_consecutive-complete rx f,
      total-copy_consecutive rx f,
      copy_consecutive-IsCopied rx f v e,
      feed_advance-IsValidRx copied now s.complete,
    )

feed_frame-IsValidRx :
    (rx : IsotpRx) (f : CanFrame) (now : ℕ)
    → IsValidRx rx
    → IsFrame f
    → IsValidRx (feed_frame rx f now).1
unfolding feed_frame
feed_frame-IsValidRx rx f now v w = ground (
  arith,
  feed_single-IsValidRx rx f now v,
  feed_first-IsValidRx rx f now v w,
  feed_consecutive-IsValidRx rx f now v,
)

-- `isotp_rx_feed` keeps the receiver's invariant, whatever eight-byte frame arrives and whenever.
pub isotp_rx_feed-IsValidRx :
    (rx : IsotpRx) (f : CanFrame) (now : ℕ)
    → IsValidRx rx
    → IsFrame f
    → IsValidRx (isotp_rx_feed rx f now).1
unfolding isotp_rx_feed
isotp_rx_feed-IsValidRx rx f now v w =
    let rx' = (isotp_rx_check_timeout rx now).1 in
    ground (
      arith,
      isotp_rx_check_timeout-IsValidRx rx now v,
      feed_frame-IsValidRx rx' f now (isotp_rx_check_timeout-IsValidRx rx now v) w,
    )

pub isotp_rx_init-IsValidRx :
    (c : IsotpConfig) (b : Option (List ℕ)) (capacity : ℕ) {rx : IsotpRx}
    → Fits b capacity
    → c.block_size < 256
    → isotp_rx_init c b capacity ≡ some rx
    → IsValidRx rx
unfolding isotp_rx_init
isotp_rx_init-IsValidRx c b capacity h k e = ground arith

pub isotp_rx_flow_control-IsValidRx :
    (rx : IsotpRx) (now : ℕ) → IsValidRx rx → IsValidRx (isotp_rx_flow_control rx now).1
unfolding isotp_rx_flow_control
isotp_rx_flow_control-IsValidRx rx now v = ground (arith, isotp_rx_check_timeout-IsValidRx rx now v)

pub isotp_rx_confirm-IsValidRx :
    (rx : IsotpRx) (success : Bool) (now : ℕ)
    → IsValidRx rx
    → IsValidRx (isotp_rx_confirm rx success now).1
unfolding isotp_rx_confirm isotp_rx_check_timeout
isotp_rx_confirm-IsValidRx rx success now v = ground arith
