-- ===== src/Tests/Connector.antt =====
-- Calls that drive the pins of the connector, and a calibration that the link grounds a pin under.
use opendiag_firmware.Base.{false, refl, some, ◌≡◌}
use opendiag_firmware.Vif.Claims.{link, shell}
use opendiag_firmware.Vif.Pins.{
  drive_for_calibration, esp_ok, ground_pin, pins_claim_for_calibration,
  pins_drop_after_calibration, vif_pin_set, voltage,
}
use opendiag_firmware.Vif.Pins.Connector.{
  Connector, Reach, all_off, at_rest, board_clears, board_drives, board_reset, board_restores,
  calibration_claims, reserved, cleared, driving, later, quiet, restored, set_pin, start, with_pins,
}

claim_succeeds : (pins_claim_for_calibration all_off shell).1 ≡ esp_ok
unfolding pins_claim_for_calibration
claim_succeeds = refl

abbrev claimed_state : Connector
claimed_state = record at_rest {
  pins = (pins_claim_for_calibration all_off shell).0;
  phase = reserved shell;
}

abbrev cleared_state : Connector
cleared_state = board_reset claimed_state (cleared shell)

abbrev driving_state : Connector
driving_state = record cleared_state {
  pins = drive_for_calibration cleared_state.pins 5000;
  phase = driving shell;
}

driving-Reach : Reach false driving_state
driving-Reach =
    later
      (later (later start (calibration_claims shell refl claim_succeeds)) (board_clears shell refl))
      (board_drives shell 5000 refl)

-- The link pulls pin 15 to ground meanwhile.
abbrev grounded_state : Connector
grounded_state =
    with_pins driving_state (vif_pin_set false driving_state.pins link 15 ground_pin 0).0

grounded-Reach : Reach false grounded_state
grounded-Reach = later driving-Reach (set_pin link 15 ground_pin 0 refl)

-- The calibration ends, and leaves pin 15 recorded and off.
abbrev overrun_state : Connector
overrun_state = board_reset grounded_state (restored shell)

overrun-Reach : Reach false overrun_state
overrun-Reach = later grounded-Reach (board_restores shell refl)

overrun_pin : (overrun_state.pins.ls_pin ≡ some 15) × (overrun_state.pins.ls_on 15 ≡ false)
unfolding pins_claim_for_calibration vif_pin_set
overrun_pin = (refl, refl)

-- A calibration by itself, and a pin that is driven after it.
abbrev restored_state : Connector
restored_state = board_reset driving_state (restored shell)

abbrev calibrated_state : Connector
calibrated_state = record restored_state {
  pins = pins_drop_after_calibration restored_state.pins shell;
  phase = quiet;
}

abbrev powered_state : Connector
powered_state =
    with_pins calibrated_state (vif_pin_set false calibrated_state.pins link 6 voltage 12000).0
