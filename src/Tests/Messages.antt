-- ===== src/Tests/Messages.antt =====
-- K-line messages: a start communication request, key bytes and synchronisation edges.
use opendiag_firmware.Base.{
  List, [], arith, false, if◌then◌else◌, refl, set, true, ℕ, ◌*◌, ◌+◌, ◌<◌, ◌==◌, ◌++◌, ◌∷◌, ◌≡◌,
  ◌≢◌, ◌≤◌,
}
use opendiag_firmware.Kline.{
  checksum_from, kline_checksum, kline_decode_keybytes, kline_frame_ok, kline_msg_len,
  kline_sync_baud_from_edges, max_baud, min_baud,
}
use opendiag_firmware.Kline.Checksum.{kline_frame_ok_single_error}
use opendiag_firmware.Kline.Messages.{
  kline_decode_keybytes_comm, kline_msg_len_bounds, kline_msg_len_prefix,
}
use opendiag_firmware.Kline.Rate.{Near, edges_at, kline_sync_baud_measures}
use opendiag_firmware.Kline.Timing.{Times, kline_sync_baud_shift, shifted}

abbrev request : List ℕ
request = 0xC1 ∷ 0x33 ∷ 0xF1 ∷ 0x81 ∷ []

abbrev framed : List ℕ
framed = 0xC1 ∷ 0x33 ∷ 0xF1 ∷ 0x81 ∷ 0x66 ∷ []

-- The edges of the byte 0x55 at 10400 baud, across the wrap of the clock.
abbrev edges : List ℕ
edges = 4294967200 ∷ 0 ∷ 96 ∷ 192 ∷ 288 ∷ 384 ∷ 480 ∷ 576 ∷ 672 ∷ 768 ∷ []

framed_ok : kline_frame_ok framed ≡ true
unfolding kline_frame_ok kline_checksum checksum_from
framed_ok = refl

kline_frame_ok_single_error_example : kline_frame_ok (set framed 2 0xF2) ≡ false
kline_frame_ok_single_error_example =
    kline_frame_ok_single_error framed 2 0xF2 (ground arith) framed_ok (omega arith) (omega arith)
      (omega arith)

framed_len : kline_msg_len framed ≢ 0
unfolding kline_msg_len
framed_len = omega arith

kline_msg_len_prefix_example : kline_msg_len (framed ++ request) ≡ kline_msg_len framed
kline_msg_len_prefix_example = kline_msg_len_prefix framed request framed_len

kline_msg_len_bounds_example : (3 ≤ kline_msg_len framed) × (kline_msg_len framed ≤ 260)
kline_msg_len_bounds_example = kline_msg_len_bounds framed (ground arith) framed_len

kline_decode_keybytes_comm_example :
    let (rc, k) = kline_decode_keybytes 0xEF 0x8F in
    kline_decode_keybytes 0x8F 0xEF ≡ (rc, record k { kb1 = 0x8F; kb2 = 0xEF })
kline_decode_keybytes_comm_example = kline_decode_keybytes_comm 0xEF

edges-Times : Times edges
edges-Times = ground arith

kline_sync_baud_shift_example :
    kline_sync_baud_from_edges (shifted 4294967000 edges) ≡ kline_sync_baud_from_edges edges
kline_sync_baud_shift_example = kline_sync_baud_shift 4294967000 edges edges-Times

-- Edges at 10417 baud whose third one is late.
abbrev late_third : ℕ → ℕ
late_third i = if i == 2 then 200 else i * 96

late_third-Near : (i : ℕ) → i < 10 → Near 96 late_third i
late_third-Near i h = ground arith

kline_sync_baud_measures_example :
    let b = kline_sync_baud_from_edges (edges_at 4294967200 late_third 10 0) in
    (2000000 ≤ 2 * b * 96 + 96) × (2 * b * 96 ≤ 2000000 + 96) × (min_baud ≤ b) × (b ≤ max_baud)
kline_sync_baud_measures_example =
    kline_sync_baud_measures 4294967200 96 late_third (omega arith) (omega arith) refl refl
      late_third-Near
