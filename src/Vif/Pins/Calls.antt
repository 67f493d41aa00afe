-- ===== src/Vif/Pins/Calls.antt =====
-- vif_pin_set and vif_pin_release_all of main/vif.c: what a call of one owner does to the pins of the other.
use opendiag_firmware.Base.{
  Bool, Bool-cases, Option, and_false, arith, false, if◌then◌else◌, inl, inr, none, not, some, true,
  ℕ, ◌&&◌, ◌≡◌,
}
use opendiag_firmware.Vif.Claims.{Owner, same_owner}
use opendiag_firmware.Vif.Pins.{
  EspErr, PinMode, Pins, esp_ok, ground_pin, has_no_driver, invalid_arg, invalid_state, is_pin,
  is_taken, ls_release_locked, off, pin_ground, pin_off, pin_voltage, release_ls_from, switch_mode,
  vif_pin_release_all, vif_pin_set, voltage,
}
use opendiag_firmware.Vif.Pins.Driven.{
  IsDriven, Keeps, vif_pin_release_all-IsDriven, vif_pin_set-Keeps,
}

-- The high side is as it was.
pub record IsUntouched (s s' : Pins) : Type 0 where
  pub same_pin : s'.hs_pin ≡ s.hs_pin
  pub same_owner : s'.hs_owner ≡ s.hs_owner
  pub same_on : (p : ℕ) → s'.hs_on p ≡ s.hs_on p
  pub same_boost : s'.boost ≡ s.boost
  pub same_calibrating : s'.calibrating ≡ s.calibrating

release_ls-IsUntouched : (o : Option ℕ) (s : Pins) → IsUntouched s (release_ls_from o s)
release_ls-IsUntouched none s = ground arith
release_ls-IsUntouched (some pin) s = ground arith

untouched : (s : Pins) → IsUntouched s s
untouched s = ground arith

may_release_ls-IsUntouched :
    (b : Bool) (s : Pins) → IsUntouched s (if b then ls_release_locked s else s)
may_release_ls-IsUntouched true s = release_ls-IsUntouched s.ls_pin s
may_release_ls-IsUntouched false s = untouched s

guarded-IsUntouched :
    (b : Bool) (s : Pins) (r : EspErr) (next : Pins × EspErr)
    → IsUntouched s next.0
    → IsUntouched s (if b then (s, r) else next).0
guarded-IsUntouched true s r next h = untouched s
guarded-IsUntouched false s r next h = h

-- A call of one owner, and what it may do to the pin of the other.
pub record IsCall (owner : Owner) (s s' : Pins) : Type 0 where
  pub keeps : (hb lb : Bool) → IsDriven hb lb s → Keeps hb lb s'
  pub respects :
      (k : ℕ) → s.hs_pin ≡ some k → same_owner s.hs_owner owner ≡ false → IsUntouched s s'

module _ (s : Pins) (owner : Owner) (pin k : ℕ) (e : s.hs_pin ≡ some k)
    (f : same_owner s.hs_owner owner ≡ false) where
  pin_off-IsUntouched : IsUntouched s (pin_off s owner pin).0
  unfolding pin_off
  pin_off-IsUntouched = elim (Bool-cases (is_pin s.hs_pin pin)) [
    | inl g ↦ rw (g, f) (untouched s)
    | inr g ↦ rw g (
        guarded-IsUntouched (is_pin s.ls_pin pin && not (same_owner s.ls_owner owner)) s
          invalid_state (if is_pin s.ls_pin pin then ls_release_locked s else s, esp_ok)
          (may_release_ls-IsUntouched (is_pin s.ls_pin pin) s))
  ]

  pin_voltage-IsUntouched : (mv : ℕ) → IsUntouched s (pin_voltage s owner pin mv).0
  unfolding pin_voltage
  pin_voltage-IsUntouched mv = ground (arith, e, f)

  pin_ground-IsUntouched : IsUntouched s (pin_ground s owner pin).0
  unfolding pin_ground
  pin_ground-IsUntouched = ground (arith, e, f)

  switch_mode-IsUntouched :
      (mode : PinMode) (mv : ℕ) → IsUntouched s (switch_mode s owner pin mode mv).0
  unfolding switch_mode
  switch_mode-IsUntouched off mv = pin_off-IsUntouched
  switch_mode-IsUntouched voltage mv = pin_voltage-IsUntouched mv
  switch_mode-IsUntouched ground_pin mv = pin_ground-IsUntouched

pub vif_pin_set-IsCall :
    (ls9 : Bool) (s : Pins) (owner : Owner) (pin : ℕ) (mode : PinMode) (mv : ℕ)
    → IsCall owner s (vif_pin_set ls9 s owner pin mode mv).0
unfolding vif_pin_set
vif_pin_set-IsCall ls9 s owner pin mode mv = record {
  keeps = λ hb lb h. vif_pin_set-Keeps s owner pin h ls9 mode mv;
  respects = λ k e f.
      guarded-IsUntouched (has_no_driver ls9 pin mode) s invalid_arg
        (switch_mode s owner pin mode mv) (switch_mode-IsUntouched s owner pin k e f mode mv);
}

pub vif_pin_release_all-IsCall :
    (s : Pins) (owner : Owner) → IsCall owner s (vif_pin_release_all s owner)
unfolding vif_pin_release_all
vif_pin_release_all-IsCall s owner = record {
  keeps = λ hb lb h. (false, false, vif_pin_release_all-IsDriven s owner h);
  respects = λ k e f.
      (let g : (is_taken s.hs_pin && same_owner s.hs_owner owner) ≡ false =
          rw f (and_false (is_taken s.hs_pin)) in
        rw g (may_release_ls-IsUntouched (is_taken s.ls_pin && same_owner s.ls_owner owner) s));
}
