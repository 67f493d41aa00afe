-- ===== src/Vif/Pins/Connector.antt =====
-- The connector as both owners' threads use it: their calls of vif_pin_set, vif_pin_release_all and
-- vif_calibrate_hs in main/vif.c, in any order. A region under the lock is one step, and so is each reset
-- and each setting of the drivers that board_calibrate_hs in main/board.c makes without it. A thread that is
-- inside a calibration makes no other call. The K-line reserves pin 15 and gives it back at
-- any time; what its own driver does to the pin is not the board's low side driver.
use opendiag_firmware.Base.{Bool, false, none, ℕ, ◌||◌, ◌≡◌}
use opendiag_firmware.Vif.Claims.{Owner, link, same_owner}
use opendiag_firmware.Vif.Pins.{
  PinMode, Pins, board_hs_ls_reset_state, drive_for_calibration, esp_ok, is_taken,
  pins_claim_for_calibration, pins_drop_after_calibration, vif_pin_release_all, vif_pin_set,
}

-- How far a calibration is, and whose thread is inside it.
pub data Phase : Type 0 where
  quiet : Phase
  reserved : Owner → Phase
  cleared : Owner → Phase
  driving : Owner → Phase
  restored : Owner → Phase

-- Is the owner's thread inside a calibration?
abbrev pub is_busy : Phase → Owner → Bool
is_busy quiet owner = false
is_busy (reserved o) owner = same_owner o owner
is_busy (cleared o) owner = same_owner o owner
is_busy (driving o) owner = same_owner o owner
is_busy (restored o) owner = same_owner o owner

-- `overrun` is kept beside the state, and no step reads it: a calibration has reset the drivers while a
-- low side pin was recorded.
pub record Connector : Type 0 where
  pub pins : Pins
  pub phase : Phase
  pub overrun : Bool

abbrev pub with_pins : Connector → Pins → Connector
with_pins c s = record c { pins = s }

-- `board_hs_ls_reset_state` inside a calibration.
abbrev pub board_reset : Connector → Phase → Connector
board_reset c phase = record {
  pins = board_hs_ls_reset_state c.pins;
  phase = phase;
  overrun = c.overrun || is_taken c.pins.ls_pin;
}

pub data Step (ls9 : Bool) (c : Connector) : Connector → Type 0 where
  set_pin :
      (owner : Owner) (pin : ℕ) (mode : PinMode) (mv : ℕ)
      → is_busy c.phase owner ≡ false
      → Step ls9 c (with_pins c (vif_pin_set ls9 c.pins owner pin mode mv).0)
  release_pins :
      (owner : Owner)
      → is_busy c.phase owner ≡ false
      → Step ls9 c (with_pins c (vif_pin_release_all c.pins owner))
  reserve_l_line : (v : Bool) → Step ls9 c (with_pins c (record c.pins { l_line_reserved = v }))
  -- The parts of `vif_calibrate_hs`.
  calibration_claims :
      (owner : Owner)
      → is_busy c.phase owner ≡ false
      → (pins_claim_for_calibration c.pins owner).1 ≡ esp_ok
      → Step ls9 c
          (record c { pins = (pins_claim_for_calibration c.pins owner).0; phase = reserved owner })
  board_clears : (o : Owner) → c.phase ≡ reserved o → Step ls9 c (board_reset c (cleared o))
  board_drives :
      (o : Owner) (mv : ℕ)
      → c.phase ≡ cleared o
      → Step ls9 c (record c { pins = drive_for_calibration c.pins mv; phase = driving o })
  board_adjusts :
      (o : Owner) (mv : ℕ)
      → c.phase ≡ driving o
      → Step ls9 c (with_pins c (record c.pins { voltage_mv = mv }))
  board_restores : (o : Owner) → c.phase ≡ driving o → Step ls9 c (board_reset c (restored o))
  calibration_drops :
      (o : Owner)
      → c.phase ≡ restored o
      → Step ls9 c (record c { pins = pins_drop_after_calibration c.pins o; phase = quiet })

-- No pin is driven.
abbrev pub all_off : Pins
all_off = record {
  hs_pin = none;
  ls_pin = none;
  hs_owner = link;
  ls_owner = link;
  l_line_reserved = false;
  calibrating = false;
  hs_on = λ p. false;
  ls_on = λ p. false;
  boost = false;
  voltage_mv = 0;
}

-- What `vif_init` leaves.
abbrev pub at_rest : Connector
at_rest = record { pins = all_off; phase = quiet; overrun = false }

pub data Reach (ls9 : Bool) : Connector → Type 0 where
  start : Reach ls9 at_rest
  later : {c d : Connector} → Reach ls9 c → Step ls9 c d → Reach ls9 d
