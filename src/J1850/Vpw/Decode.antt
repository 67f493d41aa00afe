-- ===== src/J1850/Vpw/Decode.antt =====
-- main/j1850_vpw_codec.c: the decoder of a capture.
use opendiag_firmware.Base.{
  Bool, List, Option, [], bit_or, false, get_or, if◌then◌else◌, leb, ltb, none, not, replicate, set,
  some, sym, take, true, ℕ, ◌&&◌, ◌+◌, ◌-◌, ◌==◌, ◌^◌, ◌∷◌,
}
use opendiag_firmware.J1850.Crc.{j1850_crc_check}
use opendiag_firmware.J1850.Vpw.{SymbolWord, VpwPulse, vpw_active, vpw_max_frame, vpw_passive}

-- `j1850_vpw_rx_status_t`.
pub data VpwRxStatus : Type 0 where
  rx_ok rx_ifr_only rx_break rx_empty rx_no_sof : VpwRxStatus
  rx_bad_symbol rx_framing rx_too_long rx_short rx_bad_crc : VpwRxStatus

-- `j1850_vpw_rx_t`.
pub record VpwRx : Type 0 where
  pub status : VpwRxStatus
  pub bytes : List ℕ
  pub len : ℕ
  pub ifr : List ℕ
  pub ifr_len : ℕ
  pub eod : Bool
  pub nb : Bool
  pub nb_long : Bool

-- `pulse_iter_t` is the list of the pulses that are left of a capture.
abbrev pub halves : List SymbolWord → List VpwPulse
halves [] = []
halves (s ∷ ss) =
    record { level = s.level0; us = s.duration0 }
    ∷ (record { level = s.level1; us = s.duration1 } ∷ halves ss)

-- The first active pulse and what follows it; a zero width ends the capture.
unfoldable pub skip_idle : List VpwPulse → Option (VpwPulse × List VpwPulse)
skip_idle [] = none
skip_idle (p ∷ ps) =
    let rest = skip_idle ps in
    if p.us == 0 then none else if p.level == vpw_active then some (p, ps) else rest

-- `width_t` and `classify`.
pub data PulseWidth : Type 0 where
  w_invalid w_short w_long w_tv3 w_tv4 : PulseWidth

unfoldable pub classify : ℕ → PulseWidth
classify us =
    if ltb us 35
    then w_invalid
    else if leb us 96
    then w_short
    else if leb us 163
    then w_long
    else if leb us 239
    then w_tv3
    else w_tv4

abbrev pub is_short : PulseWidth → Bool
is_short w_short = true
is_short _ = false

abbrev pub is_long : PulseWidth → Bool
is_long w_long = true
is_long _ = false

abbrev pub bit_value : ℕ → PulseWidth → Bool
bit_value level w = if level == vpw_active then is_short w else is_long w

-- `push_bit` on one of the two fields: its bytes and length, and the bits of the next byte.
unfoldable pub push_field : List ℕ → ℕ → Bool → ℕ → Option (List ℕ × ℕ × ℕ)
push_field buf len one nbits =
    let cleared = if nbits == 0 then set buf len 0 else buf in
    let filled =
      if one then set cleared len (bit_or (get_or cleared len 0) (2 ^ (7 - nbits))) else cleared in
    if nbits == 0 && leb vpw_max_frame len
    then none
    else if nbits + 1 == 8
    then some (filled, len + 1, 0)
    else some (filled, len, nbits + 1)

-- The variables of the loop of `j1850_vpw_decode`.
pub record VpwDecoder : Type 0 where
  pub out : VpwRx
  pub nbits : ℕ
  pub expect : ℕ
  pub in_ifr : Bool
  pub need_nb : Bool

-- A turn of the loop goes on, reaches `ended`, or returns a status.
pub data VpwStep : Type 0 where
  go : VpwDecoder → VpwStep
  ended : VpwDecoder → VpwStep
  failed : VpwRxStatus → VpwRx → VpwStep

-- `push_bit`, and what the loop makes of its result.
unfoldable pub push_bit : VpwDecoder → Bool → VpwStep
unfolding push_field
push_bit d one =
    if d.in_ifr
    then elim (push_field d.out.ifr d.out.ifr_len one d.nbits) [
      | none ↦ failed rx_too_long d.out
      | some (buf, len, n) ↦
          go (record d { out = record (d.out) { ifr = buf; ifr_len = len }; nbits = n })
    ]
    else elim (push_field d.out.bytes d.out.len one d.nbits) [
      | none ↦ failed rx_too_long d.out
      | some (buf, len, n) ↦
          go (record d { out = record (d.out) { bytes = buf; len = len }; nbits = n })
    ]

-- A short or long pulse: the normalization bit where one is due, and a bit of data otherwise.
abbrev pub on_bit : PulseWidth → ℕ → VpwDecoder → VpwStep
on_bit w level d =
    if d.need_nb
    then go (record d { need_nb = false; out = record (d.out) { nb = true; nb_long = is_long w } })
    else push_bit d (bit_value level w)

-- The `switch` of the loop.
abbrev pub on_width : PulseWidth → ℕ → VpwDecoder → VpwStep
on_width w_invalid level d = failed rx_bad_symbol d.out
on_width w_tv4 level d = if level == vpw_active then failed rx_break d.out else ended d
on_width w_tv3 level d =
    if level == vpw_active
    then failed rx_bad_symbol d.out
    else if d.in_ifr
    then ended d
    else if not (d.nbits == 0)
    then failed rx_framing d.out
    else go (record d { in_ifr = true; need_nb = true; out = record (d.out) { eod = true } })
on_width w_short level d = on_bit w_short level d
on_width w_long level d = on_bit w_long level d

-- One turn of the loop, on a pulse that `pulse_next` loaded: the alternation rule, then the width.
unfoldable pub decode_pulse : VpwPulse → VpwDecoder → VpwStep
unfolding classify
decode_pulse p d =
    if not (p.level == d.expect)
    then failed rx_bad_symbol d.out
    else on_width (classify p.us) p.level (record d { expect = if d.expect == 0 then 1 else 0 })

unfoldable pub decode_pulses : List VpwPulse → VpwDecoder → VpwStep
decode_pulses [] d = ended d
decode_pulses (p ∷ ps) d = if p.us == 0 then ended d else elim (decode_pulse p d) [
  | go d' ↦ decode_pulses ps d'
  | ended d' ↦ ended d'
  | failed st out ↦ failed st out
]

abbrev pub is_ifr_only : VpwRxStatus → Bool
is_ifr_only rx_ifr_only = true
is_ifr_only _ = false

-- What follows the label `ended`.
unfoldable pub finish : VpwDecoder → VpwRx
finish d =
    let out = d.out in
    if not (d.nbits == 0)
    then record out { status = rx_framing }
    else if is_ifr_only out.status
    then (if out.ifr_len == 0 then record out { status = rx_empty } else out)
    else if ltb out.len 2
    then record out { status = rx_short }
    else if not (j1850_crc_check (take out.len out.bytes))
    then record out { status = rx_bad_crc }
    else out

abbrev pub conclude : VpwStep → VpwRx
conclude (go d) = finish d
conclude (ended d) = finish d
conclude (failed st out) = record out { status = st }

-- `memset`, with the first status.
abbrev pub blank_rx : VpwRx
blank_rx = record {
  status = rx_empty;
  bytes = replicate 12 0;
  len = 0;
  ifr = replicate 12 0;
  ifr_len = 0;
  eod = false;
  nb = false;
  nb_long = false;
}

-- The decoder behind the opening pulse.
abbrev pub opened : VpwRx → Bool → VpwDecoder
opened out in_ifr = record {
  out = out;
  nbits = 0;
  expect = vpw_passive;
  in_ifr = in_ifr;
  need_nb = false;
}

-- The `switch` on the opening pulse.
abbrev pub on_opening : PulseWidth → List VpwPulse → VpwRx
on_opening w_tv3 ps =
    conclude (decode_pulses ps (opened (record blank_rx { status = rx_ok }) false))
on_opening w_tv4 ps = record blank_rx { status = rx_break }
on_opening w_invalid ps = record blank_rx { status = rx_no_sof }
on_opening w_short ps = conclude (
    decode_pulses ps
      (opened (record blank_rx { status = rx_ifr_only; nb = true; nb_long = false }) true))
on_opening w_long ps = conclude (
    decode_pulses ps
      (opened (record blank_rx { status = rx_ifr_only; nb = true; nb_long = true }) true))

unfoldable pub j1850_vpw_decode : List SymbolWord → ℕ → VpwRx
unfolding skip_idle finish decode_pulses
j1850_vpw_decode sym n = elim (skip_idle (halves (take n sym))) [
  | none ↦ blank_rx
  | some (p, ps) ↦ on_opening (classify p.us) ps
]
