-- ===== src/Vif/Pins.antt =====
-- main/vif.c: the pins of the vehicle connector that the adapter drives. The board's drivers are kept as
-- they were last switched; `ls9` is OPENDIAG_HW_LS_OBD_9, whether pin 9 has a low side driver.
pub mod Driven
pub mod Connector
pub mod Recorded
pub mod Calls
pub mod Calibration
pub mod Safety
use opendiag_firmware.Base.{
  Bool, Option, false, if◌then◌else◌, none, not, some, true, ℕ, ◌&&◌, ◌==◌, ◌||◌,
}
use opendiag_firmware.Vif.Claims.{Owner, same_owner}

-- `hs_pin` and `ls_pin`, where `none` stands for -1, with their owners; whether the K-line has reserved
-- pin 15; `pins_calibrating`; and the drivers, the boost converter and its voltage.
pub record Pins : Type 0 where
  pub hs_pin : Option ℕ
  pub ls_pin : Option ℕ
  pub hs_owner : Owner
  pub ls_owner : Owner
  pub l_line_reserved : Bool
  pub calibrating : Bool
  pub hs_on : ℕ → Bool
  pub ls_on : ℕ → Bool
  pub boost : Bool
  pub voltage_mv : ℕ

-- `vif_pin_mode_t`.
pub data PinMode : Type 0 where
  off : PinMode
  voltage : PinMode
  ground_pin : PinMode

-- ESP_OK, ESP_ERR_INVALID_ARG and ESP_ERR_INVALID_STATE.
pub data EspErr : Type 0 where
  esp_ok : EspErr
  invalid_arg : EspErr
  invalid_state : EspErr

abbrev pub is_pin : Option ℕ → ℕ → Bool
is_pin none pin = false
is_pin (some held) pin = held == pin

abbrev pub is_taken : Option ℕ → Bool
is_taken none = false
is_taken (some _) = true

abbrev pub switch_pin : (ℕ → Bool) → ℕ → Bool → ℕ → Bool
switch_pin on pin v pin' = if pin == pin' then v else on pin'

abbrev pub is_high_side : ℕ → Bool
is_high_side pin = pin == 6 || pin == 9 || pin == 11 || pin == 12 || pin == 13 || pin == 14

abbrev pub is_low_side : Bool → ℕ → Bool
is_low_side ls9 pin = pin == 15 || ls9 && pin == 9

-- `hs_release_locked` and `ls_release_locked`, by the pin that is held.
abbrev pub release_hs_from : Option ℕ → Pins → Pins
release_hs_from none s = s
release_hs_from (some pin) s = record s {
  hs_on = switch_pin s.hs_on pin false;
  boost = false;
  voltage_mv = 0;
  hs_pin = none;
}

abbrev pub hs_release_locked : Pins → Pins
hs_release_locked s = release_hs_from s.hs_pin s

abbrev pub release_ls_from : Option ℕ → Pins → Pins
release_ls_from none s = s
release_ls_from (some pin) s = record s { ls_on = switch_pin s.ls_on pin false; ls_pin = none }

abbrev pub ls_release_locked : Pins → Pins
ls_release_locked s = release_ls_from s.ls_pin s

-- The three cases of the `switch` in `vif_pin_set`.
unfoldable pub pin_off : Pins → Owner → ℕ → Pins × EspErr
pin_off s owner pin =
    let s₁ = if is_pin s.hs_pin pin then hs_release_locked s else s in
    let s₂ = if is_pin s₁.ls_pin pin then ls_release_locked s₁ else s₁ in
    if is_pin s.hs_pin pin && not (same_owner s.hs_owner owner)
      || is_pin s.ls_pin pin && not (same_owner s.ls_owner owner)
    then (s, invalid_state)
    else (s₂, esp_ok)

abbrev pub drive_hs : Pins → Owner → ℕ → ℕ → Pins
drive_hs s owner pin mv = record s {
  voltage_mv = mv;
  boost = true;
  hs_on = switch_pin s.hs_on pin true;
  hs_pin = some pin;
  hs_owner = owner;
}

abbrev pub drive_ls : Pins → Owner → ℕ → Pins
drive_ls s owner pin = record s {
  ls_on = switch_pin s.ls_on pin true;
  ls_pin = some pin;
  ls_owner = owner;
}

unfoldable pub pin_voltage : Pins → Owner → ℕ → ℕ → Pins × EspErr
pin_voltage s owner pin mv =
    if is_pin s.ls_pin pin
    then (s, invalid_state)
    else if is_taken s.hs_pin && (not (is_pin s.hs_pin pin) || not (same_owner s.hs_owner owner))
    then (s, invalid_state)
    else (drive_hs s owner pin mv, esp_ok)

unfoldable pub pin_ground : Pins → Owner → ℕ → Pins × EspErr
pin_ground s owner pin =
    if pin == 15 && s.l_line_reserved
    then (s, invalid_state)
    else if is_pin s.hs_pin pin
    then (s, invalid_state)
    else if is_taken s.ls_pin && (not (is_pin s.ls_pin pin) || not (same_owner s.ls_owner owner))
    then (s, invalid_state)
    else (drive_ls s owner pin, esp_ok)

unfoldable pub switch_mode : Pins → Owner → ℕ → PinMode → ℕ → Pins × EspErr
unfolding pin_off pin_voltage pin_ground
switch_mode s owner pin off mv = pin_off s owner pin
switch_mode s owner pin voltage mv = pin_voltage s owner pin mv
switch_mode s owner pin ground_pin mv = pin_ground s owner pin

-- The modes that a pin without such a driver has not.
abbrev pub has_no_driver : Bool → ℕ → PinMode → Bool
has_no_driver ls9 pin off = not (is_high_side pin) && not (is_low_side ls9 pin)
has_no_driver ls9 pin voltage = not (is_high_side pin)
has_no_driver ls9 pin ground_pin = not (is_low_side ls9 pin)

-- `vif_pin_set`.
unfoldable pub vif_pin_set : Bool → Pins → Owner → ℕ → PinMode → ℕ → Pins × EspErr
unfolding switch_mode
vif_pin_set ls9 s owner pin mode mv =
    if has_no_driver ls9 pin mode then (s, invalid_arg) else switch_mode s owner pin mode mv

-- `vif_pin_release_all`.
unfoldable pub vif_pin_release_all : Pins → Owner → Pins
vif_pin_release_all s owner =
    let s₁ = if is_taken s.hs_pin && same_owner s.hs_owner owner then hs_release_locked s else s in
    if is_taken s₁.ls_pin && same_owner s₁.ls_owner owner then ls_release_locked s₁ else s₁

abbrev pub vif_any_pin_active : Pins → Bool
vif_any_pin_active s = is_taken s.hs_pin || is_taken s.ls_pin

-- `VIF_CAL_HS_PIN`.
abbrev pub cal_hs_pin : ℕ
cal_hs_pin = 12

-- What keeps `vif_calibrate_hs` from starting.
abbrev pub is_calibration_refused : Pins → Owner → Bool
is_calibration_refused s owner =
    s.l_line_reserved
    || s.calibrating
    || (is_taken s.hs_pin && not (same_owner s.hs_owner owner)
        || is_taken s.ls_pin && not (same_owner s.ls_owner owner))

-- What a calibration records.
abbrev pub hold_for_calibration : Pins → Owner → Pins
hold_for_calibration s owner = record s {
  hs_owner = owner;
  hs_pin = some cal_hs_pin;
  calibrating = true;
}

unfoldable pub pins_claim_for_calibration : Pins → Owner → Pins × EspErr
pins_claim_for_calibration s owner =
    if is_calibration_refused s owner
    then (s, invalid_state)
    else (hold_for_calibration (ls_release_locked (hs_release_locked s)) owner, esp_ok)

-- `board_hs_ls_reset_state`: all drivers off, whatever is recorded.
abbrev pub board_hs_ls_reset_state : Pins → Pins
board_hs_ls_reset_state s = record s {
  boost = false;
  voltage_mv = 0;
  hs_on = λ p. false;
  ls_on = λ p. false;
}

-- What `board_calibrate_hs` switches on between two resets; `mv` is what its duty cycle gives.
abbrev pub drive_for_calibration : Pins → ℕ → Pins
drive_for_calibration s mv = record s {
  voltage_mv = mv;
  boost = true;
  hs_on = switch_pin s.hs_on cal_hs_pin true;
}

unfoldable pub pins_drop_after_calibration : Pins → Owner → Pins
pins_drop_after_calibration s owner =
    let s₁ = record s { calibrating = false } in
    if is_taken s.hs_pin && same_owner s.hs_owner owner then record s₁ { hs_pin = none } else s₁
