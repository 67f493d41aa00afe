-- ===== src/Vif/Pins/Calibration.antt =====
-- What the parts of vif_calibrate_hs in main/vif.c leave of the relation between what is recorded of the
-- pins and what the board drives.
use opendiag_firmware.Base.{
  Bool, Bool-cases, Option, and_false, ap, ap₂, arith, false, inl, inr, none, refl, some, subst,
  sym, true, ℕ, ◌&&◌, ◌==◌, ◌||◌, ◌∙◌, ◌≡◌,
}
use opendiag_firmware.Vif.Claims.{Owner, link, same_owner, shell}
use opendiag_firmware.Vif.Pins.{
  Pins, board_hs_ls_reset_state, cal_hs_pin, drive_for_calibration, esp_ok, invalid_state,
  hold_for_calibration, hs_release_locked, is_calibration_refused, is_pin, is_taken,
  ls_release_locked, pins_claim_for_calibration, pins_drop_after_calibration, release_hs_from,
  release_ls_from,
}
use opendiag_firmware.Vif.Pins.Recorded.{AtPhase, IsHeld, or_true}
use opendiag_firmware.Vif.Pins.Connector.{Phase, reserved, cleared, driving, quiet, restored}
use opendiag_firmware.Vif.Pins.Driven.{IsDriven, release_hs, release_ls}

-- What a calibration starts from: neither side is held.
hs_release-none : (o : Option ℕ) (s : Pins) → s.hs_pin ≡ o → (release_hs_from o s).hs_pin ≡ none
hs_release-none none s e = e
hs_release-none (some pin) s e = refl

ls_release-none :
    (o : Option ℕ) (s : Pins)
    → s.ls_pin ≡ o
    → ((release_ls_from o s).ls_pin ≡ none) × ((release_ls_from o s).hs_pin ≡ s.hs_pin)
ls_release-none none s e = (e, refl)
ls_release-none (some pin) s e = (refl, refl)

-- Recording the pin of the calibration where nothing is held.
hold-IsDriven :
    {lb : Bool} (s : Pins) (owner : Owner)
    → s.hs_pin ≡ none
    → s.ls_pin ≡ none
    → IsDriven true lb s
    → IsDriven false lb (hold_for_calibration s owner)
hold-IsDriven s owner e f h = record {
  hs_as_held = λ p. h.hs_as_held p ∙ ap (λ o. is_pin o p) e;
  ls_as_held = h.ls_as_held;
  apart = λ p. ap (λ o. (cal_hs_pin == p) && is_pin o p) f ∙ and_false (cal_hs_pin == p);
  boosted = h.boosted ∙ ap is_taken e;
}

claim-IsDriven :
    {lb : Bool} (s : Pins) (owner : Owner)
    → IsDriven true lb s
    → IsDriven false lb (hold_for_calibration (ls_release_locked (hs_release_locked s)) owner)
claim-IsDriven s owner h =
    let s₁ = hs_release_locked s in
    let (e, f) = ls_release-none s₁.ls_pin s₁ refl in
    hold-IsDriven (ls_release_locked s₁) owner (f ∙ hs_release-none s.hs_pin s refl) e
      (release_ls s₁.ls_pin s₁ refl (release_hs s.hs_pin s refl h))

claim_free :
    (s : Pins) (owner : Owner)
    → (pins_claim_for_calibration s owner).1 ≡ esp_ok
    → (s.calibrating ≡ false)
      × ((pins_claim_for_calibration s owner).0
          ≡ hold_for_calibration (ls_release_locked (hs_release_locked s)) owner)
unfolding pins_claim_for_calibration
claim_free s owner e = elim (Bool-cases (is_calibration_refused s owner)) [
  | inl g ↦ absurd (let h : invalid_state ≡ esp_ok = rw g at e in cc)
  | inr g ↦ (ground (arith, g), rw g refl)
]

pub claim_AtPhase :
    (phase : Phase) (lb : Bool) (s : Pins) (owner : Owner)
    → (pins_claim_for_calibration s owner).1 ≡ esp_ok
    → AtPhase phase lb s
    → AtPhase (reserved owner) lb (pins_claim_for_calibration s owner).0
claim_AtPhase quiet lb s owner e h =
    subst (AtPhase (reserved owner) lb) (sym (claim_free s owner e).1)
      (record { pin = refl; owner = refl; calibrating = refl }, claim-IsDriven s owner h)
claim_AtPhase (reserved o) lb s owner e (h, d) =
    absurd (cc ((claim_free s owner e).0, h.calibrating))
claim_AtPhase (cleared o) lb s owner e (h, d) =
    absurd (cc ((claim_free s owner e).0, h.calibrating))
claim_AtPhase (driving o) lb s owner e (h, d) =
    absurd (cc ((claim_free s owner e).0, h.calibrating))
claim_AtPhase (restored o) lb s owner e (h, d) =
    absurd (cc ((claim_free s owner e).0, h.calibrating))

-- A reset leaves the low side off, which overruns a pin that is recorded.
pub reset_ls :
    (o : Option ℕ) (over : Bool)
    → (lb : Bool) × ((lb || (over || is_taken o)) ≡ true) × ((p : ℕ) → false ≡ (lb && is_pin o p))
reset_ls none over = (true, refl, λ p. refl)
reset_ls (some pin) over = (false, or_true over, λ p. refl)

pub reset-IsDriven :
    {hb lb lb' : Bool} (s : Pins)
    → ((p : ℕ) → false ≡ (lb' && is_pin s.ls_pin p))
    → IsDriven hb lb s
    → IsDriven false lb' (board_hs_ls_reset_state s)
reset-IsDriven s e h = record {
  hs_as_held = λ p. refl;
  ls_as_held = e;
  apart = h.apart;
  boosted = refl;
}

pub drive-IsDriven :
    {lb : Bool} {o : Owner} (s : Pins) (mv : ℕ)
    → IsHeld o s
    → IsDriven false lb s
    → IsDriven true lb (drive_for_calibration s mv)
drive-IsDriven s mv h d = record {
  hs_as_held = λ p. (elim (Bool-cases (cal_hs_pin == p)) [
    | inl g ↦ rw (h.pin, g) refl
    | inr g ↦ rw (h.pin, g) (d.hs_as_held p)
  ]);
  ls_as_held = d.ls_as_held;
  apart = d.apart;
  boosted = sym (ap is_taken h.pin);
}

same_owner_self : (o : Owner) → same_owner o o ≡ true
same_owner_self link = refl
same_owner_self shell = refl

pub drop-IsDriven :
    {lb : Bool} (o : Owner) (s : Pins)
    → IsHeld o s
    → IsDriven false lb s
    → IsDriven true lb (pins_drop_after_calibration s o)
unfolding pins_drop_after_calibration
drop-IsDriven {lb} o s h d =
    let g : (is_taken s.hs_pin && same_owner s.hs_owner o) ≡ true =
      ap₂ (λ w v. is_taken w && same_owner v o) h.pin h.owner ∙ same_owner_self o in
    rw g (record {
      hs_as_held = d.hs_as_held;
      ls_as_held = d.ls_as_held;
      apart = λ p. refl;
      boosted = d.boosted;
    })
