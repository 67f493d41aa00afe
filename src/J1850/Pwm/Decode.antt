-- ===== src/J1850/Pwm/Decode.antt =====
-- main/j1850_pwm_codec.c: the full decoder of a capture.
pub mod Sound
use opendiag_firmware.Base.{
  Bool, List, Option, [], false, if◌then◌else◌, leb, ltb, none, not, replicate, some, sym, take,
  true, u16, ℕ, ◌+◌, ◌==◌, ◌||◌, ◌∷◌,
}
use opendiag_firmware.J1850.Crc.{j1850_crc_check}
use opendiag_firmware.J1850.Pwm.{
  ActiveSym, classify_active, sym_brk, sym_invalid, sym_one, sym_sof, sym_zero,
}
use opendiag_firmware.J1850.Vpw.{SymbolWord, VpwPulse}
use opendiag_firmware.J1850.Vpw.Decode.{halves, push_field, skip_idle}

-- `j1850_pwm_rx_status_t`.
pub data PwmRxStatus : Type 0 where
  pwm_ok pwm_ifr_only pwm_break pwm_empty pwm_no_sof pwm_bad_symbol : PwmRxStatus
  pwm_bad_timing pwm_framing pwm_too_long pwm_short pwm_bad_crc : PwmRxStatus

-- `j1850_pwm_rx_t`.
pub record PwmRx : Type 0 where
  pub status : PwmRxStatus
  pub bytes : List ℕ
  pub len : ℕ
  pub ifr : List ℕ
  pub ifr_len : ℕ
  pub ifr_one_min_us : ℕ
  pub ifr_one_max_us : ℕ
  pub ifr_zero_min_us : ℕ
  pub ifr_zero_max_us : ℕ
  pub eod : Bool
  pub eod_gap_us : ℕ
  pub last_active_us : ℕ

-- The variables of the loop of `j1850_pwm_decode`.
pub record PwmDecoder : Type 0 where
  pub out : PwmRx
  pub nbits : ℕ
  pub in_ifr : Bool
  pub after_sof : Bool
  pub prev_active : ℕ

-- A turn of the loop goes on, leaves the loop, or returns a status.
pub data PwmStep : Type 0 where
  pwm_go : PwmDecoder → PwmStep
  pwm_ended : PwmDecoder → PwmStep
  pwm_failed : PwmRxStatus → PwmRx → PwmStep

-- What the loop makes of the result of `push_bit` on the response, and on the data.
abbrev pub pushed_ifr : PwmDecoder → Option (List ℕ × ℕ × ℕ) → PwmStep
pushed_ifr d none = pwm_failed pwm_too_long d.out
pushed_ifr d (some (buf, len, n)) =
    pwm_go (record d { out = record (d.out) { ifr = buf; ifr_len = len }; nbits = n })

abbrev pub pushed_bytes : PwmDecoder → Option (List ℕ × ℕ × ℕ) → PwmStep
pushed_bytes d none = pwm_failed pwm_too_long d.out
pushed_bytes d (some (buf, len, n)) =
    pwm_go (record d { out = record (d.out) { bytes = buf; len = len }; nbits = n })

-- `push_bit`.
unfoldable pub pwm_push_bit : PwmDecoder → Bool → PwmStep
unfolding push_field
pwm_push_bit d one =
    if d.in_ifr
    then pushed_ifr d (push_field d.out.ifr d.out.ifr_len one d.nbits)
    else pushed_bytes d (push_field d.out.bytes d.out.len one d.nbits)

abbrev pub least : ℕ → ℕ → ℕ
least bound us = if bound == 0 || ltb us bound then u16 us else bound

abbrev pub greatest : ℕ → ℕ → ℕ
greatest bound us = if ltb bound us then u16 us else bound

-- The widths of the response's pulses, ones and zeros apart.
abbrev pub note_width : Bool → ℕ → PwmRx → PwmRx
note_width one us out =
    if one
    then record out {
      ifr_one_min_us = least out.ifr_one_min_us us;
      ifr_one_max_us = greatest out.ifr_one_max_us us;
    }
    else record out {
      ifr_zero_min_us = least out.ifr_zero_min_us us;
      ifr_zero_max_us = greatest out.ifr_zero_max_us us;
    }

-- What a turn does behind the bit that it has pushed.
abbrev pub note_active : ℕ → PwmStep → PwmStep
note_active us (pwm_go d) =
    pwm_go (record d { out = record (d.out) { last_active_us = u16 us }; prev_active = us })
note_active us (pwm_ended d) = pwm_ended d
note_active us (pwm_failed st out) = pwm_failed st out

-- A one or a zero.
unfoldable pub pwm_bit : Bool → ℕ → PwmDecoder → PwmStep
pwm_bit one us d =
    let noted = if d.in_ifr then record d { out = note_width one us d.out } else d in
    note_active us (pwm_push_bit noted one)

-- The active pulse of a turn.
abbrev pub pwm_symbol : ActiveSym → ℕ → PwmDecoder → PwmStep
pwm_symbol sym_one us d = pwm_bit true us d
pwm_symbol sym_zero us d = pwm_bit false us d
pwm_symbol sym_invalid us d = pwm_failed pwm_bad_symbol d.out
pwm_symbol _ us d = pwm_failed pwm_bad_timing d.out

-- The distance of two rising edges, below that of an end of frame.
unfoldable pub pwm_gap : ℕ → PwmDecoder → PwmStep
pwm_gap gap d =
    if d.after_sof
    then (if ltb gap 42 || ltb 54 gap
        then pwm_failed pwm_bad_timing d.out
        else pwm_go (record d { after_sof = false }))
    else if leb 42 gap
    then (if d.in_ifr
        then pwm_ended d
        else if not (d.nbits == 0)
        then pwm_failed pwm_framing d.out
        else pwm_go
            (record d { in_ifr = true; out = record (d.out) { eod = true; eod_gap_us = u16 gap } }))
    else if ltb gap 21 || ltb 27 gap
    then pwm_failed pwm_bad_timing d.out
    else pwm_go d

-- The active pulse, where the distance lets the turn go on.
abbrev pub after_gap : PwmStep → ℕ → PwmStep
after_gap (pwm_go d) active = pwm_symbol (classify_active active) active d
after_gap (pwm_ended d) active = pwm_ended d
after_gap (pwm_failed st out) active = pwm_failed st out

-- What a turn does with a passive and an active pulse.
unfoldable pub pwm_turn : ℕ → ℕ → PwmDecoder → PwmStep
unfolding classify_active
pwm_turn passive active d =
    let gap = d.prev_active + passive in
    if leb 63 gap then pwm_ended d else after_gap (pwm_gap gap d) active

-- The loop, two pulses a turn; a zero width ends the capture.
unfoldable pub pwm_pulses : List VpwPulse → PwmDecoder → PwmStep
pwm_pulses [] d = pwm_ended d
pwm_pulses (p ∷ []) d =
    if p.us == 0
    then pwm_ended d
    else if not (p.level == 0)
    then pwm_failed pwm_bad_symbol d.out
    else pwm_ended d
pwm_pulses (p ∷ (q ∷ qs)) d =
    if p.us == 0
    then pwm_ended d
    else if not (p.level == 0)
    then pwm_failed pwm_bad_symbol d.out
    else if q.us == 0
    then pwm_ended d
    else elim (pwm_turn p.us q.us d) [
      | pwm_go d' ↦ pwm_pulses qs d'
      | pwm_ended d' ↦ pwm_ended d'
      | pwm_failed st out ↦ pwm_failed st out
    ]

abbrev pub is_pwm_ifr_only : PwmRxStatus → Bool
is_pwm_ifr_only pwm_ifr_only = true
is_pwm_ifr_only _ = false

-- What follows the loop.
unfoldable pub pwm_finish : PwmDecoder → PwmRx
pwm_finish d =
    let out = d.out in
    if not (d.nbits == 0)
    then record out { status = pwm_framing }
    else if is_pwm_ifr_only out.status
    then (if out.ifr_len == 0 then record out { status = pwm_empty } else out)
    else if ltb out.len 2
    then record out { status = pwm_short }
    else if not (j1850_crc_check (take out.len out.bytes))
    then record out { status = pwm_bad_crc }
    else out

abbrev pub pwm_conclude : PwmStep → PwmRx
pwm_conclude (pwm_go d) = pwm_finish d
pwm_conclude (pwm_ended d) = pwm_finish d
pwm_conclude (pwm_failed st out) = record out { status = st }

-- `memset`, with the first status.
abbrev pub blank_pwm_rx : PwmRx
blank_pwm_rx = record {
  status = pwm_empty;
  bytes = replicate 12 0;
  len = 0;
  ifr = replicate 12 0;
  ifr_len = 0;
  ifr_one_min_us = 0;
  ifr_one_max_us = 0;
  ifr_zero_min_us = 0;
  ifr_zero_max_us = 0;
  eod = false;
  eod_gap_us = 0;
  last_active_us = 0;
}

-- The decoder before the first pulse of a frame, and of a response without one.
abbrev pub pwm_frame : PwmDecoder
pwm_frame = record {
  out = record blank_pwm_rx { status = pwm_ok };
  nbits = 0;
  in_ifr = false;
  after_sof = true;
  prev_active = 0;
}

abbrev pub pwm_response : PwmDecoder
pwm_response = record {
  out = record blank_pwm_rx { status = pwm_ifr_only };
  nbits = 0;
  in_ifr = true;
  after_sof = false;
  prev_active = 0;
}

-- The loop behind the opening pulse; the push of its bit always finds room.
abbrev pub pwm_run : List VpwPulse → PwmStep → PwmRx
pwm_run ps (pwm_go d) = pwm_conclude (pwm_pulses ps d)
pwm_run ps step = pwm_conclude step

-- The `switch` on the opening pulse.
abbrev pub pwm_opening : ActiveSym → ℕ → List VpwPulse → PwmRx
pwm_opening sym_sof us ps = pwm_run ps (note_active us (pwm_go pwm_frame))
pwm_opening sym_brk us ps = record blank_pwm_rx { status = pwm_break }
pwm_opening sym_one us ps = pwm_run ps (note_active us (pwm_push_bit pwm_response true))
pwm_opening sym_zero us ps = pwm_run ps (note_active us (pwm_push_bit pwm_response false))
pwm_opening sym_invalid us ps = record blank_pwm_rx { status = pwm_no_sof }

-- Nothing but idle, or an opening pulse and what follows it.
abbrev pub pwm_from : Option (VpwPulse × List VpwPulse) → PwmRx
pwm_from none = blank_pwm_rx
pwm_from (some (p, ps)) = pwm_opening (classify_active p.us) p.us ps

unfoldable pub j1850_pwm_decode : List SymbolWord → ℕ → PwmRx
unfolding skip_idle pwm_pulses pwm_finish pwm_push_bit
j1850_pwm_decode sym n = pwm_from (skip_idle (halves (take n sym)))
