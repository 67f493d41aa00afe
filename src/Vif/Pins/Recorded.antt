-- ===== src/Vif/Pins/Recorded.antt =====
-- What is recorded of the pins against what the board drives, through calibrations too.
use opendiag_firmware.Base.{
  Bool, ap, arith, false, refl, some, subst, sym, true, ◌&&◌, ◌||◌, ◌∙◌, ◌≡◌,
}
use opendiag_firmware.Vif.Claims.{Owner, same_owner}
use opendiag_firmware.Vif.Pins.{Pins, cal_hs_pin, is_pin, is_taken}
use opendiag_firmware.Vif.Pins.Calls.{IsCall, IsUntouched}
use opendiag_firmware.Vif.Pins.Connector.{
  Connector, Phase, reserved, cleared, driving, is_busy, quiet, restored,
}
use opendiag_firmware.Vif.Pins.Driven.{IsDriven}

-- A calibration of the owner has its pin recorded.
pub record IsHeld (o : Owner) (s : Pins) : Type 0 where
  pub pin : s.hs_pin ≡ some cal_hs_pin
  pub owner : s.hs_owner ≡ o
  pub calibrating : s.calibrating ≡ true

-- What holds in each phase: the recorded high side pin is driven but at the edges of a calibration.
abbrev pub AtPhase : Phase → Bool → Pins → Type 0
AtPhase quiet lb s = IsDriven true lb s
AtPhase (reserved o) lb s = IsHeld o s × IsDriven false lb s
AtPhase (cleared o) lb s = IsHeld o s × IsDriven false lb s
AtPhase (driving o) lb s = IsHeld o s × IsDriven true lb s
AtPhase (restored o) lb s = IsHeld o s × IsDriven false lb s

-- The recorded low side pin is driven if `lb`; if not, a calibration has overrun it.
pub record IsRecorded (c : Connector) : Type 0 where
  pub lb : Bool
  pub explained : (lb || c.overrun) ≡ true
  pub at_phase : AtPhase c.phase lb c.pins

-- A call of the other owner, while a calibration holds the high side.
module _ {s s' : Pins} {o owner : Owner} (call : IsCall owner s s')
    (other : same_owner o owner ≡ false) where
  respected : IsHeld o s → IsUntouched s s'
  respected h = call.respects cal_hs_pin h.pin (ap (λ w. same_owner w owner) h.owner ∙ other)

  respected-IsHeld : IsHeld o s → IsHeld o s'
  respected-IsHeld h =
      let u = respected h in
      record {
        pin = u.same_pin ∙ h.pin;
        owner = u.same_owner ∙ h.owner;
        calibrating = u.same_calibrating ∙ h.calibrating;
      }

  respected-IsDriven :
      (hb lb : Bool)
      → IsHeld o s × IsDriven hb lb s
      → (y : Bool) × (IsHeld o s' × IsDriven hb (y || lb) s')
  respected-IsDriven hb lb (h, d) =
      let u = respected h in
      let (x, y, d') = call.keeps hb lb d in
      (
        y,
        (
          respected-IsHeld h,
          record {
            hs_as_held =
                λ p. u.same_on p ∙ d.hs_as_held p ∙ ap (λ o. hb && is_pin o p) (sym u.same_pin);
            ls_as_held = d'.ls_as_held;
            apart = d'.apart;
            boosted = u.same_boost ∙ d.boosted ∙ ap (λ o. hb && is_taken o) (sym u.same_pin);
          },
        ),
      )

pub or_true : (x : Bool) → (x || true) ≡ true
or_true true = refl
or_true false = refl

call_AtPhase :
    (phase : Phase) (lb : Bool) {s s' : Pins} {owner : Owner}
    → IsCall owner s s'
    → is_busy phase owner ≡ false
    → AtPhase phase lb s
    → (y : Bool) × AtPhase phase (y || lb) s'
call_AtPhase quiet lb {s} {s'} call other h =
    let (x, y, d) = call.keeps true lb h in (y, subst (λ b. IsDriven b (y || lb) s') (or_true x) d)
call_AtPhase (reserved o) lb call other h = respected-IsDriven call other false lb h
call_AtPhase (cleared o) lb call other h = respected-IsDriven call other false lb h
call_AtPhase (driving o) lb call other h = respected-IsDriven call other true lb h
call_AtPhase (restored o) lb call other h = respected-IsDriven call other false lb h

or_true_later : (y lb o : Bool) → (lb || o) ≡ true → ((y || lb) || o) ≡ true
or_true_later true lb o e = refl
or_true_later false lb o e = e

pub call-IsRecorded :
    {c : Connector} {s' : Pins} {owner : Owner}
    → IsCall owner c.pins s'
    → is_busy c.phase owner ≡ false
    → IsRecorded c
    → IsRecorded (record c { pins = s' })
call-IsRecorded {c} call other h =
    let (y, a) = call_AtPhase c.phase h.lb call other h.at_phase in
    record { lb = y || h.lb; explained = or_true_later y h.lb c.overrun h.explained; at_phase = a }

-- The K-line's reservation is no part of the relation.
reserve_IsDriven :
    {hb lb : Bool} {s : Pins} {v : Bool}
    → IsDriven hb lb s
    → IsDriven hb lb (record s { l_line_reserved = v })
reserve_IsDriven h = record {
  hs_as_held = h.hs_as_held;
  ls_as_held = h.ls_as_held;
  apart = h.apart;
  boosted = h.boosted;
}

pub reserve_AtPhase :
    (phase : Phase) (lb : Bool) (s : Pins) (v : Bool)
    → AtPhase phase lb s
    → AtPhase phase lb (record s { l_line_reserved = v })
reserve_AtPhase quiet lb s v h = reserve_IsDriven h
reserve_AtPhase (reserved o) lb s v (h, d) = (ground (arith, h), reserve_IsDriven d)
reserve_AtPhase (cleared o) lb s v (h, d) = (ground (arith, h), reserve_IsDriven d)
reserve_AtPhase (driving o) lb s v (h, d) = (ground (arith, h), reserve_IsDriven d)
reserve_AtPhase (restored o) lb s v (h, d) = (ground (arith, h), reserve_IsDriven d)
