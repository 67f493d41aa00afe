-- ===== src/Vif.antt =====
-- The vehicle interface manager, main/vif.c: who holds which wiring.
pub mod Claims
pub mod Pins
