-- ===== src/Isotp/Receiver/Stored.antt =====
-- What a receiver stores: each accepted segment extends the part of the message in the buffer.
use opendiag_firmware.Base.{
  List, Option, arith, drop, false, length, length-drop, length-take, ltb, none, refl, some, take,
  take-append-slice, take-write_at, true, u32, ℕ, ◌%◌, ◌*◌, ◌+◌, ◌-◌, ◌/◌, ◌<◌, ◌||◌, ◌≡◌, ◌≢◌, ◌≤◌,
}
use opendiag_firmware.Isotp.Config.{address_len, byte_at, expired, matches}
use opendiag_firmware.Isotp.Receiver.{
  cf_size, copy_consecutive, feed_advance, feed_consecutive, feed_first, feed_frame, feed_single,
  feed_start, isotp_rx_check_timeout, isotp_rx_feed, segment_copy, store,
}
use opendiag_firmware.Isotp.Receiver.Invariant.{Fits}
use opendiag_firmware.Isotp.Types.{CanFrame, IsotpRx, rx_cf, rx_fc_ready, rx_idle}

-- The buffer starts with the first `n` bytes of the message.
abbrev pub HasPrefix : Option (List ℕ) → ℕ → List ℕ → Type 0
HasPrefix none n message = ⊥
HasPrefix (some buf) n message = take n buf ≡ take n message

pub store-HasPrefix :
    (b : Option (List ℕ)) (capacity offset n : ℕ) (message bytes : List ℕ)
    → Fits b capacity
    → offset + n ≤ capacity
    → offset + n ≤ length message
    → bytes ≡ take n (drop offset message)
    → HasPrefix b offset message
    → HasPrefix (store b offset bytes) (offset + n) message
store-HasPrefix none capacity offset n message bytes f r l e h = h
store-HasPrefix (some buf) capacity offset n message bytes f r l e h =
    rw
      (
        take-write_at buf offset (offset + n) bytes
            (rw e (omega (arith, length-take n (drop offset message), length-drop offset message)))
            (omega arith),
        h,
        e,
      )
      (take-append-slice message offset n)

-- Writing at the start needs nothing of what the buffer held.
pub store_start-HasPrefix :
    (b : Option (List ℕ)) (capacity n : ℕ) (message bytes : List ℕ)
    → Fits b capacity
    → b ≢ none
    → n ≤ capacity
    → n ≤ length message
    → bytes ≡ take n message
    → HasPrefix (store b 0 bytes) n message
store_start-HasPrefix none capacity n message bytes f p r l e = absurd (p refl)
store_start-HasPrefix (some buf) capacity n message bytes f p r l e =
    rw (take-write_at buf 0 n bytes (rw e (omega (arith, length-take n message))) (omega arith), e)
      refl

-- Which branch of `isotp_rx_feed` a frame of the peer takes, while the timer runs.
module _ (rx : IsotpRx) (f : CanFrame) (now : ℕ) where
  pub isotp_rx_feed_consecutive :
      rx.state ≡ rx_cf
      → expired now rx.deadline_us ≡ false
      → matches rx.config f ≡ true
      → byte_at f (address_len rx.config) / 16 ≡ 2
      → isotp_rx_feed rx f now ≡ feed_consecutive rx f now
  unfolding isotp_rx_feed isotp_rx_check_timeout feed_frame
  isotp_rx_feed_consecutive s t m k = ground arith

  pub isotp_rx_feed_first :
      rx.state ≡ rx_idle
      → matches rx.config f ≡ true
      → byte_at f (address_len rx.config) / 16 ≡ 1
      → isotp_rx_feed rx f now ≡ feed_first rx f now
  unfolding isotp_rx_feed isotp_rx_check_timeout feed_frame
  isotp_rx_feed_first s m k = ground arith

  pub isotp_rx_feed_single :
      rx.state ≡ rx_idle
      → matches rx.config f ≡ true
      → byte_at f (address_len rx.config) / 16 ≡ 0
      → isotp_rx_feed rx f now ≡ feed_single rx f now
  unfolding isotp_rx_feed isotp_rx_check_timeout feed_frame
  isotp_rx_feed_single s m k = ground arith

  -- A consecutive frame that is long enough and has the next number is copied.
  pub feed_consecutive_accepts :
      address_len rx.config + 1 + cf_size rx ≤ f.dlc
      → byte_at f (address_len rx.config) % 16 ≡ rx.sequence
      → feed_consecutive rx f now ≡ (
          let (copied, s) = copy_consecutive rx f in
          let (rc, rx') = feed_advance copied now s.complete in (rc, rx', s))
  unfolding feed_consecutive
  feed_consecutive_accepts l e = ground arith

-- What the copy of an accepted consecutive frame changes.
module _ (rx : IsotpRx) (f : CanFrame) where
  pub copy_consecutive_lem :
      rx.offset + cf_size rx ≤ 4095
      → let copied = (copy_consecutive rx f).0 in
        copied ≡ record rx {
          buffer =
              store rx.buffer rx.offset
                (take (cf_size rx) (drop (address_len rx.config + 1) f.bytes));
          offset = rx.offset + cf_size rx;
          sequence = (rx.sequence + 1) % 16;
          padding_error = rx.padding_error || ltb f.dlc 8;
        }
  unfolding copy_consecutive segment_copy
  copy_consecutive_lem h = ground arith

-- A single or first frame that the receiver takes replaces whatever it had.
module _ (rx : IsotpRx) (f : CanFrame) (now size : ℕ) where
  abbrev emptied : IsotpRx
  emptied = record rx { state = rx_idle; total = size; padding_error = ltb f.dlc 8 }

  abbrev pub single_stored : IsotpRx
  single_stored = record emptied {
    buffer = store rx.buffer 0 (take size (drop (address_len rx.config + 1) f.bytes));
    offset = size;
  }

  abbrev pub first_stored : IsotpRx
  first_stored =
      let a = address_len rx.config in
      record emptied {
        buffer = store rx.buffer 0 (take (6 - a) (drop (a + 2) f.bytes));
        offset = 6 - a;
        sequence = 1;
        block_count = 0;
        flow_status = 0;
        state = rx_fc_ready;
        deadline_us = u32 (now + rx.config.timeout_a_us);
      }

  pub feed_single_accepts :
      byte_at f (address_len rx.config) ≡ size
      → 0 < size
      → size < 16
      → address_len rx.config + 1 + size ≤ f.dlc
      → size ≤ rx.capacity
      → (feed_single rx f now).1 ≡ single_stored
  unfolding feed_single feed_start segment_copy
  feed_single_accepts e p w l c = ground arith

  pub feed_first_accepts :
      byte_at f (address_len rx.config) % 16 * 256 + byte_at f (address_len rx.config + 1) ≡ size
      → 7 - address_len rx.config < size
      → size ≤ 4095
      → f.dlc ≡ 8
      → rx.config.functional ≡ false
      → size ≤ rx.capacity
      → (feed_first rx f now).1 ≡ first_stored
  unfolding feed_first feed_start segment_copy
  feed_first_accepts e p w l s c = ground arith
