-- ===== src/Vif/Pins/Driven.antt =====
-- What a call of vif_pin_set or vif_pin_release_all leaves of the relation between what is recorded of the
-- pins and what the board drives.
use opendiag_firmware.Base.{
  Bool, Bool-cases, Option, and_comm, and_false, ap, arith, false, if◌then◌else◌, inl, inr, none,
  not, refl, some, sym, true, ℕ, ◌&&◌, ◌==◌, ◌||◌, ◌∙◌, ◌≡◌,
}
use opendiag_firmware.Vif.Claims.{Owner, same_owner}
use opendiag_firmware.Vif.Pins.{
  EspErr, PinMode, Pins, drive_hs, drive_ls, esp_ok, ground_pin, has_no_driver, hs_release_locked,
  invalid_arg, invalid_state, is_pin, is_taken, ls_release_locked, off, pin_ground, pin_off,
  pin_voltage, release_hs_from, release_ls_from, switch_mode, switch_pin, vif_pin_release_all,
  vif_pin_set, voltage,
}

-- The recorded high side pin is driven if `hb`, the low side one if `lb`; no other pin is driven.
pub record IsDriven (hb lb : Bool) (s : Pins) : Type 0 where
  pub hs_as_held : (p : ℕ) → s.hs_on p ≡ (hb && is_pin s.hs_pin p)
  pub ls_as_held : (p : ℕ) → s.ls_on p ≡ (lb && is_pin s.ls_pin p)
  pub apart : (p : ℕ) → (is_pin s.hs_pin p && is_pin s.ls_pin p) ≡ false
  pub boosted : s.boost ≡ (hb && is_taken s.hs_pin)

-- A call may have switched on what was recorded and off.
abbrev pub Keeps : Bool → Bool → Pins → Type 0
Keeps hb lb s = (x : Bool) × (y : Bool) × IsDriven (x || hb) (y || lb) s

-- Switching off the pin that is on leaves none on.
switched_off :
    (on : ℕ → Bool) (b : Bool) (pin p : ℕ)
    → on p ≡ (b && (pin == p))
    → switch_pin on pin false p ≡ (b && false)
switched_off on b pin p e = elim (Bool-cases (pin == p)) [
  | inl f ↦ rw f (sym (and_false b))
  | inr f ↦ rw f (e ∙ ap (λ c. b && c) f)
]

module _ {hb lb : Bool} where
  pub release_hs :
      (o : Option ℕ) (s : Pins)
      → s.hs_pin ≡ o
      → IsDriven hb lb s
      → IsDriven hb lb (release_hs_from o s)
  release_hs none s e h = h
  release_hs (some pin) s e h = record {
    hs_as_held = λ p. switched_off s.hs_on hb pin p (h.hs_as_held p ∙ ap (λ o. hb && is_pin o p) e);
    ls_as_held = h.ls_as_held;
    apart = λ p. refl;
    boosted = sym (and_false hb);
  }

  pub release_ls :
      (o : Option ℕ) (s : Pins)
      → s.ls_pin ≡ o
      → IsDriven hb lb s
      → IsDriven hb lb (release_ls_from o s)
  release_ls none s e h = h
  release_ls (some pin) s e h = record {
    hs_as_held = h.hs_as_held;
    ls_as_held = λ p. switched_off s.ls_on lb pin p (h.ls_as_held p ∙ ap (λ o. lb && is_pin o p) e);
    apart = λ p. and_false (is_pin s.hs_pin p);
    boosted = h.boosted;
  }

-- The pin that may be driven is the one that is held, if any is.
same_pin :
    (o : Option ℕ) (pin p : ℕ) (x : Bool)
    → (is_taken o && (not (is_pin o pin) || x)) ≡ false
    → (pin == p) ≡ false
    → is_pin o p ≡ false
same_pin none pin p x e f = refl
same_pin (some k) pin p x e f = ground (arith, e, f)

switched_on :
    (on : ℕ → Bool) (b : Bool) (o : Option ℕ) (pin p : ℕ) (x : Bool)
    → on p ≡ (b && is_pin o p)
    → (is_taken o && (not (is_pin o pin) || x)) ≡ false
    → switch_pin on pin true p ≡ (pin == p)
switched_on on b o pin p x e f = elim (Bool-cases (pin == p)) [
  | inl g ↦ rw g refl
  | inr g ↦ rw g (e ∙ ap (λ c. b && c) (same_pin o pin p x f g) ∙ and_false b)
]

not_both : (o : Option ℕ) (pin p : ℕ) → is_pin o pin ≡ false → ((pin == p) && is_pin o p) ≡ false
not_both none pin p e = and_false (pin == p)
not_both (some k) pin p e = ground (arith, e)

module _ {hb lb : Bool} (s : Pins) (owner : Owner) (pin : ℕ) (x : Bool) (h : IsDriven hb lb s) where
  drives_hs :
      (mv : ℕ)
      → is_pin s.ls_pin pin ≡ false
      → (is_taken s.hs_pin && (not (is_pin s.hs_pin pin) || x)) ≡ false
      → IsDriven true lb (drive_hs s owner pin mv)
  drives_hs mv e f = record {
    hs_as_held = λ p. switched_on s.hs_on hb s.hs_pin pin p x (h.hs_as_held p) f;
    ls_as_held = h.ls_as_held;
    apart = λ p. not_both s.ls_pin pin p e;
    boosted = refl;
  }

  drives_ls :
      is_pin s.hs_pin pin ≡ false
      → (is_taken s.ls_pin && (not (is_pin s.ls_pin pin) || x)) ≡ false
      → IsDriven hb true (drive_ls s owner pin)
  drives_ls e f = record {
    hs_as_held = h.hs_as_held;
    ls_as_held = λ p. switched_on s.ls_on lb s.ls_pin pin p x (h.ls_as_held p) f;
    apart = λ p. and_comm (is_pin s.hs_pin p) (pin == p) ∙ not_both s.hs_pin pin p e;
    boosted = h.boosted;
  }

module _ {hb lb : Bool} where
  -- A release that depends on a test.
  may_release_hs :
      (b : Bool) (s : Pins)
      → IsDriven hb lb s
      → IsDriven hb lb (if b then hs_release_locked s else s)
  may_release_hs true s h = release_hs s.hs_pin s refl h
  may_release_hs false s h = h

  may_release_ls :
      (b : Bool) (s : Pins)
      → IsDriven hb lb s
      → IsDriven hb lb (if b then ls_release_locked s else s)
  may_release_ls true s h = release_ls s.ls_pin s refl h
  may_release_ls false s h = h

  -- A result that depends on a test, as a guard has it.
  guarded :
      (b : Bool) (s : Pins) (r : EspErr) (next : Pins × EspErr)
      → IsDriven hb lb s
      → (b ≡ false → Keeps hb lb next.0)
      → Keeps hb lb (if b then (s, r) else next).0
  guarded true s r next h k = (false, false, h)
  guarded false s r next h k = k refl

module _ {hb lb : Bool} (s : Pins) (owner : Owner) (pin : ℕ) (h : IsDriven hb lb s) where
  pin_off-Keeps : Keeps hb lb (pin_off s owner pin).0
  unfolding pin_off
  pin_off-Keeps =
      let s₁ = if is_pin s.hs_pin pin then hs_release_locked s else s in
      let s₂ = if is_pin s₁.ls_pin pin then ls_release_locked s₁ else s₁ in
      let released : IsDriven hb lb s₂ =
        may_release_ls (is_pin s₁.ls_pin pin) s₁ (may_release_hs (is_pin s.hs_pin pin) s h) in
      guarded
        (is_pin s.hs_pin pin && not (same_owner s.hs_owner owner)
          || is_pin s.ls_pin pin && not (same_owner s.ls_owner owner))
        s invalid_state (s₂, esp_ok) h (λ e. (false, false, released))

  pin_voltage-Keeps : (mv : ℕ) → Keeps hb lb (pin_voltage s owner pin mv).0
  unfolding pin_voltage
  pin_voltage-Keeps mv =
      let other = not (same_owner s.hs_owner owner) in
      let taken = is_taken s.hs_pin && (not (is_pin s.hs_pin pin) || other) in
      let driven : Pins × EspErr = (drive_hs s owner pin mv, esp_ok) in
      guarded (is_pin s.ls_pin pin) s invalid_state (if taken then (s, invalid_state) else driven) h
        (λ e.
          guarded taken s invalid_state driven h
            (λ f. (true, false, drives_hs s owner pin other h mv e f)))

  pin_ground-Keeps : Keeps hb lb (pin_ground s owner pin).0
  unfolding pin_ground
  pin_ground-Keeps =
      let other = not (same_owner s.ls_owner owner) in
      let taken = is_taken s.ls_pin && (not (is_pin s.ls_pin pin) || other) in
      let driven : Pins × EspErr = (drive_ls s owner pin, esp_ok) in
      let not_held : Pins × EspErr = if taken then (s, invalid_state) else driven in
      guarded (pin == 15 && s.l_line_reserved) s invalid_state
        (if is_pin s.hs_pin pin then (s, invalid_state) else not_held) h
        (λ e. guarded (is_pin s.hs_pin pin) s invalid_state not_held h (λ f.
          guarded taken s invalid_state driven h
            (λ g. (false, true, drives_ls s owner pin other h f g))))

  switch_mode-Keeps : (mode : PinMode) (mv : ℕ) → Keeps hb lb (switch_mode s owner pin mode mv).0
  unfolding switch_mode
  switch_mode-Keeps off mv = pin_off-Keeps
  switch_mode-Keeps voltage mv = pin_voltage-Keeps mv
  switch_mode-Keeps ground_pin mv = pin_ground-Keeps

  pub vif_pin_set-Keeps :
      (ls9 : Bool) (mode : PinMode) (mv : ℕ) → Keeps hb lb (vif_pin_set ls9 s owner pin mode mv).0
  unfolding vif_pin_set
  vif_pin_set-Keeps ls9 mode mv =
      guarded (has_no_driver ls9 pin mode) s invalid_arg (switch_mode s owner pin mode mv) h
        (λ e. switch_mode-Keeps mode mv)

pub vif_pin_release_all-IsDriven :
    {hb lb : Bool} (s : Pins) (owner : Owner)
    → IsDriven hb lb s
    → IsDriven hb lb (vif_pin_release_all s owner)
unfolding vif_pin_release_all
vif_pin_release_all-IsDriven s owner h =
    let mine = is_taken s.hs_pin && same_owner s.hs_owner owner in
    let s₁ = if mine then hs_release_locked s else s in
    may_release_ls (is_taken s₁.ls_pin && same_owner s₁.ls_owner owner) s₁ (may_release_hs mine s h)
