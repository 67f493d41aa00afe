-- ===== src/J1850/Pwm/Decode/Sound.antt =====
-- A capture is called a good frame only if it is one.
use opendiag_firmware.Base.{
  Bool, Bool-cases, List, Option, [], arith, false, if◌then◌else◌, inl, inr, leb, none, not, some,
  sym, take, true, ℕ, ◌+◌, ◌==◌, ◌∷◌, ◌≡◌, ◌≢◌, ◌≤◌,
}
use opendiag_firmware.J1850.Crc.{j1850_crc_check}
use opendiag_firmware.J1850.Pwm.{
  ActiveSym, classify_active, sym_brk, sym_invalid, sym_one, sym_sof, sym_zero,
}
use opendiag_firmware.J1850.Pwm.Decode.{
  PwmDecoder, PwmRx, PwmStep, after_gap, j1850_pwm_decode, note_active, pushed_bytes, pushed_ifr,
  pwm_bad_symbol, pwm_bit, pwm_conclude, pwm_ended, pwm_failed, pwm_finish, pwm_frame, pwm_from,
  pwm_gap, pwm_go, pwm_ok, pwm_opening, pwm_pulses, pwm_push_bit, pwm_response, pwm_run, pwm_symbol,
  pwm_turn,
}
use opendiag_firmware.J1850.Vpw.{SymbolWord, VpwPulse}
use opendiag_firmware.J1850.Vpw.Decode.{halves, skip_idle}

-- No turn of the loop fails with the status of a good frame.
abbrev IsRefusal : PwmStep → Type 0
IsRefusal (pwm_failed st out) = st ≢ pwm_ok
IsRefusal _ = Unit

pushed_ifr-IsRefusal : (d : PwmDecoder) (r : Option (List ℕ × ℕ × ℕ)) → IsRefusal (pushed_ifr d r)
pushed_ifr-IsRefusal d none = λ e. cc
pushed_ifr-IsRefusal d (some (buf, len, n)) = tt

pushed_bytes-IsRefusal :
    (d : PwmDecoder) (r : Option (List ℕ × ℕ × ℕ)) → IsRefusal (pushed_bytes d r)
pushed_bytes-IsRefusal d none = λ e. cc
pushed_bytes-IsRefusal d (some (buf, len, n)) = tt

if-IsRefusal :
    (b : Bool) (s t : PwmStep) → IsRefusal s → IsRefusal t → IsRefusal (if b then s else t)
if-IsRefusal true s t h k = h
if-IsRefusal false s t h k = k

pwm_push_bit-IsRefusal : (d : PwmDecoder) (one : Bool) → IsRefusal (pwm_push_bit d one)
unfolding pwm_push_bit
pwm_push_bit-IsRefusal d one =
    if-IsRefusal d.in_ifr _ _ (pushed_ifr-IsRefusal d _) (pushed_bytes-IsRefusal d _)

note_active-IsRefusal : (us : ℕ) (s : PwmStep) → IsRefusal s → IsRefusal (note_active us s)
note_active-IsRefusal us (pwm_go d) h = tt
note_active-IsRefusal us (pwm_ended d) h = tt
note_active-IsRefusal us (pwm_failed st out) h = h

pwm_bit-IsRefusal : (one : Bool) (us : ℕ) (d : PwmDecoder) → IsRefusal (pwm_bit one us d)
unfolding pwm_bit
pwm_bit-IsRefusal one us d = note_active-IsRefusal us _ (pwm_push_bit-IsRefusal _ one)

pwm_symbol-IsRefusal : (s : ActiveSym) (us : ℕ) (d : PwmDecoder) → IsRefusal (pwm_symbol s us d)
pwm_symbol-IsRefusal sym_one us d = pwm_bit-IsRefusal true us d
pwm_symbol-IsRefusal sym_zero us d = pwm_bit-IsRefusal false us d
pwm_symbol-IsRefusal sym_sof us d = λ e. cc
pwm_symbol-IsRefusal sym_brk us d = λ e. cc
pwm_symbol-IsRefusal sym_invalid us d = λ e. cc

after_gap-IsRefusal : (s : PwmStep) (active : ℕ) → IsRefusal s → IsRefusal (after_gap s active)
after_gap-IsRefusal (pwm_go d) active h = pwm_symbol-IsRefusal (classify_active active) active d
after_gap-IsRefusal (pwm_ended d) active h = tt
after_gap-IsRefusal (pwm_failed st out) active h = h

pwm_gap-IsRefusal : (gap : ℕ) (d : PwmDecoder) → IsRefusal (pwm_gap gap d)
unfolding pwm_gap
pwm_gap-IsRefusal gap d = ground arith

pwm_turn-IsRefusal : (passive active : ℕ) (d : PwmDecoder) → IsRefusal (pwm_turn passive active d)
unfolding pwm_turn
pwm_turn-IsRefusal passive active d =
    if-IsRefusal (leb 63 (d.prev_active + passive)) (pwm_ended d) _ tt
      (after_gap-IsRefusal _ active (pwm_gap-IsRefusal (d.prev_active + passive) d))

pwm_pulses-IsRefusal : (ps : List VpwPulse) (d : PwmDecoder) → IsRefusal (pwm_pulses ps d)
unfolding pwm_pulses
pwm_pulses-IsRefusal [] d = tt
pwm_pulses-IsRefusal (p ∷ []) d =
    if-IsRefusal (p.us == 0) (pwm_ended d) _ tt (
      if-IsRefusal (not (p.level == 0)) (pwm_failed pwm_bad_symbol d.out) (pwm_ended d) (λ e. cc)
        tt)
pwm_pulses-IsRefusal (p ∷ (q ∷ qs)) d = elim (Bool-cases (p.us == 0)) [
  | inl e ↦ rw e tt
  | inr e ↦ elim (Bool-cases (p.level == 0)) [
    | inl f ↦ elim (Bool-cases (q.us == 0)) [
      | inl g ↦ rw (e, f, g) tt
      | inr g ↦
          rw (e, f, g)
            (next (pwm_turn p.us q.us d) (pwm_turn-IsRefusal p.us q.us d)
              (λ d'. pwm_pulses-IsRefusal qs d'))
    ]
    | inr f ↦ rw (e, f) (λ x. cc)
  ]
]
  where
    next :
        (s : PwmStep)
        → IsRefusal s
        → ((d' : PwmDecoder) → IsRefusal (pwm_pulses qs d'))
        → IsRefusal (elim s [
          | pwm_go d' ↦ pwm_pulses qs d'
          | pwm_ended d' ↦ pwm_ended d'
          | pwm_failed st out ↦ pwm_failed st out
        ])
    next (pwm_go d') h k = k d'
    next (pwm_ended d') h k = tt
    next (pwm_failed st out) h k = h

-- What a good frame has.
abbrev pub IsGoodFrame : PwmRx → Type 0
IsGoodFrame out = (2 ≤ out.len) × (j1850_crc_check (take out.len out.bytes) ≡ true)

pwm_finish-IsGoodFrame :
    (d : PwmDecoder) → (pwm_finish d).status ≡ pwm_ok → IsGoodFrame (pwm_finish d)
unfolding pwm_finish
pwm_finish-IsGoodFrame d e = ground arith

pwm_conclude-IsGoodFrame :
    (s : PwmStep) → IsRefusal s → (pwm_conclude s).status ≡ pwm_ok → IsGoodFrame (pwm_conclude s)
pwm_conclude-IsGoodFrame (pwm_go d) h e = pwm_finish-IsGoodFrame d e
pwm_conclude-IsGoodFrame (pwm_ended d) h e = pwm_finish-IsGoodFrame d e
pwm_conclude-IsGoodFrame (pwm_failed st out) h e = absurd (h e)

pwm_run-IsGoodFrame :
    (ps : List VpwPulse) (s : PwmStep)
    → IsRefusal s
    → (pwm_run ps s).status ≡ pwm_ok
    → IsGoodFrame (pwm_run ps s)
pwm_run-IsGoodFrame ps (pwm_go d) h e = pwm_conclude-IsGoodFrame _ (pwm_pulses-IsRefusal ps d) e
pwm_run-IsGoodFrame ps (pwm_ended d) h e = pwm_conclude-IsGoodFrame (pwm_ended d) tt e
pwm_run-IsGoodFrame ps (pwm_failed st out) h e = pwm_conclude-IsGoodFrame (pwm_failed st out) h e

pwm_opening-IsGoodFrame :
    (s : ActiveSym) (us : ℕ) (ps : List VpwPulse)
    → (pwm_opening s us ps).status ≡ pwm_ok
    → IsGoodFrame (pwm_opening s us ps)
pwm_opening-IsGoodFrame sym_sof us ps e =
    pwm_run-IsGoodFrame ps (note_active us (pwm_go pwm_frame)) tt e
pwm_opening-IsGoodFrame sym_brk us ps e = absurd (cc)
pwm_opening-IsGoodFrame sym_one us ps e =
    pwm_run-IsGoodFrame ps _ (note_active-IsRefusal us _ (pwm_push_bit-IsRefusal pwm_response true))
      e
pwm_opening-IsGoodFrame sym_zero us ps e =
    pwm_run-IsGoodFrame ps _
      (note_active-IsRefusal us _ (pwm_push_bit-IsRefusal pwm_response false)) e
pwm_opening-IsGoodFrame sym_invalid us ps e = absurd (cc)

pwm_from-IsGoodFrame :
    (o : Option (VpwPulse × List VpwPulse))
    → (pwm_from o).status ≡ pwm_ok
    → IsGoodFrame (pwm_from o)
pwm_from-IsGoodFrame none e = absurd (cc)
pwm_from-IsGoodFrame (some (p, ps)) e = pwm_opening-IsGoodFrame (classify_active p.us) p.us ps e

-- Whatever the capture holds, noise included: a decoder that reports a good frame has at least two
-- bytes, and the last of them is the CRC of the others.
pub j1850_pwm_decode-IsGoodFrame :
    (sym : List SymbolWord) (n : ℕ)
    → (j1850_pwm_decode sym n).status ≡ pwm_ok
    → IsGoodFrame (j1850_pwm_decode sym n)
unfolding j1850_pwm_decode
j1850_pwm_decode-IsGoodFrame sym n e = pwm_from-IsGoodFrame (skip_idle (halves (take n sym))) e
