-- ===== src/Tests.antt =====
-- The theorems at concrete inputs: configurations, frames, messages and schedules.
mod Transport
mod Pulses
mod Frames
mod Lines
mod Messages
mod Widths
mod Schedules
mod Interleavings
mod Callbacks
mod Claims
mod Connector
