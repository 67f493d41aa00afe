-- ===== src/Vif/Pins/Safety.antt =====
-- The pins of the connector in every reachable state, through calibrations too.
use opendiag_firmware.Vif.Pins.{Pins}
use opendiag_firmware.Vif.Pins.Connector.{Connector}
