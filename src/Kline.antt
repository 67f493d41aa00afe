-- ===== src/Kline.antt =====
-- main/kline_codec.c and main/kline_codec.h: the grammar of ISO 9141-2 and ISO 14230 messages, key
-- bytes and the 5-baud synchronisation byte. A buffer and its length are one list; the null
-- pointer tests have no counterpart.
pub mod Checksum
pub mod Messages
pub mod Timing
pub mod Rate
use opendiag_firmware.Base.{
  Bool, List, [], bit_and, bit_or, false, get_or, if◌then◌else◌, leb, length, ltb, not, sub32, suc,
  sum, take, true, u32, u8, zero, ℕ, ◌%◌, ◌&&◌, ◌*◌, ◌+◌, ◌-◌, ◌/◌, ◌==◌, ◌^◌, ◌||◌, ◌∷◌,
}

abbrev pub kline_max_msg : ℕ
kline_max_msg = 260

abbrev pub kline_min_msg : ℕ
kline_min_msg = 3

abbrev pub kline_sync_edge_count : ℕ
kline_sync_edge_count = 10

-- KLINE_BAUD_MIN and KLINE_BAUD_MAX, six per cent wider each way.
abbrev pub min_baud : ℕ
min_baud = 1200 * (100 - 6) / 100

abbrev pub max_baud : ℕ
max_baud = 10400 * (100 + 6) / 100

-- The interval before an edge is within twenty per cent of the mean.
abbrev pub is_even : ℕ → ℕ → Bool
is_even mean interval =
    not (ltb (interval * 100) (mean * (100 - 20)) || ltb (mean * (100 + 20)) (interval * 100))

-- The loop over the intervals: `n` are left, from the one that ends at edge `i` on.
unfoldable pub all_even : List ℕ → ℕ → ℕ → ℕ → Bool
all_even edges mean zero i = true
all_even edges mean (suc n) i =
    let rest = all_even edges mean n (i + 1) in
    if is_even mean (sub32 (get_or edges i 0) (get_or edges (i - 1) 0)) then rest else false

unfoldable pub kline_sync_baud_from_edges : List ℕ → ℕ
kline_sync_baud_from_edges edges =
    let last = kline_sync_edge_count - 1 in
    let span = sub32 (get_or edges last 0) (get_or edges 0 0) in
    let mean = u32 (span + last / 2) / last in
    let baud = (9000000 + span / 2) / span in
    if ltb (length edges) kline_sync_edge_count
    then 0
    else if span == 0
    then 0
    else if mean == 0
    then 0
    else if all_even edges mean last 1
    then (if leb min_baud baud && leb baud max_baud then baud else 0)
    else 0

-- `kline_addr_mode_t` is 0 without addresses, 1 for the CARB exception, 2 and 3 with addresses.
abbrev pub kline_addr_mode : ℕ → ℕ
kline_addr_mode fmt = fmt / 2 ^ 6 % 4

unfoldable pub kline_header_len : ℕ → ℕ
kline_header_len fmt = if kline_addr_mode fmt == 0 then 1 else 3

abbrev pub kline_is_carb_fmt : ℕ → Bool
kline_is_carb_fmt fmt = kline_addr_mode fmt == 1

-- `fmt & 0x3F` is the rest by 64.
unfoldable pub kline_msg_len : List ℕ → ℕ
kline_msg_len buf =
    let fmt = get_or buf 0 0 in
    let hdr = if kline_addr_mode fmt == 0 then 1 else 3 in
    let inline_len = fmt % 64 in
    if ltb (length buf) 1
    then 0
    else if kline_is_carb_fmt fmt
    then 0
    else if inline_len == 0
    then (if ltb (length buf) (hdr + 1)
        then 0
        else if get_or buf hdr 0 == 0
        then 0
        else hdr + 1 + get_or buf hdr 0 + 1)
    else hdr + inline_len + 1

-- The loop of `kline_checksum`, with the sum so far.
unfoldable pub checksum_from : ℕ → List ℕ → ℕ
checksum_from sum [] = sum
checksum_from sum (b ∷ bs) = checksum_from (u8 (sum + b)) bs

unfoldable pub kline_checksum : List ℕ → ℕ
kline_checksum bytes = checksum_from 0 bytes

unfoldable pub kline_frame_ok : List ℕ → Bool
kline_frame_ok buf =
    let len = length buf in
    if ltb len kline_min_msg || ltb kline_max_msg len
    then false
    else kline_checksum (take (len - 1) buf) == get_or buf (len - 1) 0

-- The loop of `kline_odd_parity` over the `n` bits from bit `i` on, with the ones so far.
unfoldable pub count_ones : ℕ → ℕ → ℕ → ℕ → ℕ
count_ones zero i ones b = ones
count_ones (suc n) i ones b = count_ones n (i + 1) (u8 (ones + b / 2 ^ i % 2)) b

unfoldable pub kline_odd_parity : ℕ → Bool
unfolding count_ones
kline_odd_parity b = not (count_ones 8 0 0 b % 2 == 0)

-- `kline_variant_t`.
pub data KlineVariant : Type 0 where
  unknown iso9141 kwp : KlineVariant

-- `kline_keybytes_t`.
pub record KlineKeybytes : Type 0 where
  pub variant : KlineVariant
  pub kb1 : ℕ
  pub kb2 : ℕ
  pub len_in_format : Bool
  pub extra_len_byte : Bool
  pub hdr_1byte : Bool
  pub hdr_address : Bool
  pub extended_timing : Bool
  pub code : ℕ
  pub parity_ok : Bool

-- A bit of the capability byte is set.
abbrev pub has_bit : ℕ → ℕ → Bool
has_bit cap bit = not (bit_and cap bit == 0)

-- What the capability key byte of a KWP link says.
unfoldable pub decode_capability : KlineKeybytes → ℕ → KlineKeybytes
decode_capability k cap = record k {
  variant = kwp;
  len_in_format = has_bit cap 0x01;
  extra_len_byte = has_bit cap 0x02;
  hdr_1byte = has_bit cap 0x04;
  hdr_address = has_bit cap 0x08;
  extended_timing = has_bit cap 0x10 && bit_and cap 0x20 == 0;
  code = bit_or (bit_and 0x8F 0x7F * 2 ^ 7) (bit_and cap 0x7F);
}

-- The decoded record before anything is known but the bytes and their parity.
abbrev pub blank_keybytes : ℕ → ℕ → KlineKeybytes
blank_keybytes b1 b2 = record {
  variant = unknown;
  kb1 = b1;
  kb2 = b2;
  len_in_format = false;
  extra_len_byte = false;
  hdr_1byte = false;
  hdr_address = false;
  extended_timing = false;
  code = 0;
  parity_ok = kline_odd_parity b1 && kline_odd_parity b2;
}

unfoldable pub is_iso9141_pair : ℕ → ℕ → Bool
is_iso9141_pair b1 b2 = b1 == 0x08 && b2 == 0x08 || b1 == 0x94 && b2 == 0x94

-- The result of the function beside what it writes.
unfoldable pub kline_decode_keybytes : ℕ → ℕ → Bool × KlineKeybytes
kline_decode_keybytes b1 b2 =
    let k = blank_keybytes b1 b2 in
    if is_iso9141_pair b1 b2
    then (true, record k { variant = iso9141; hdr_address = true })
    else if b2 == 0x8F
    then (true, decode_capability k b1)
    else if b1 == 0x8F
    then (true, decode_capability k b2)
    else (false, k)

-- `kline_timing_t`.
pub record KlineTiming : Type 0 where
  pub p1_max : ℕ
  pub p2_min : ℕ
  pub p2_max : ℕ
  pub p3_min : ℕ
  pub p3_max : ℕ
  pub p4_min : ℕ

unfoldable pub kline_timing_normal : KlineTiming
kline_timing_normal = record {
  p1_max = 20;
  p2_min = 25;
  p2_max = 50;
  p3_min = 55;
  p3_max = 5000;
  p4_min = 5;
}

unfoldable pub kline_timing_extended : KlineTiming
kline_timing_extended = record {
  p1_max = 20;
  p2_min = 0;
  p2_max = 1000;
  p3_min = 0;
  p3_max = 5000;
  p4_min = 5;
}

unfoldable pub kline_p2max_from_byte : ℕ → ℕ
kline_p2max_from_byte v = if v == 0 then 0 else if leb v 0xF0 then v * 25 else v % 16 * 256 * 25

unfoldable pub kline_is_response_pending : List ℕ → Bool
unfolding kline_header_len
kline_is_response_pending buf =
    let len = length buf in
    let fmt = get_or buf 0 0 in
    let base = kline_header_len fmt in
    let hdr =
      if not (kline_addr_mode fmt == 1) && (fmt % 64 == 0 && ltb base len)
      then base + 1
      else base in
    if ltb len kline_min_msg
    then false
    else if ltb len (hdr + 3 + 1)
    then false
    else get_or buf hdr 0 == 0x7F && get_or buf (hdr + 2) 0 == 0x78

abbrev pub wakeup : KlineVariant → List ℕ
wakeup kwp = 0xC1 ∷ 0x33 ∷ 0xF1 ∷ 0x3E ∷ []
wakeup _ = 0x68 ∷ 0x6A ∷ 0xF1 ∷ 0x01 ∷ 0x00 ∷ []

-- The bytes that are copied out, and none where the caller's space is too small.
unfoldable pub kline_default_wakeup : KlineVariant → ℕ → List ℕ
kline_default_wakeup v cap = let src = wakeup v in if ltb cap (length src) then [] else src
