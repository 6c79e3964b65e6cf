-- ===== src/Examples.antt =====
-- Concrete runs of the programs that the other modules model.
mod Session
mod Policy
mod Adaptation
mod Streams
mod Display
mod Slots
mod Discovery
mod Devices
mod Monitors
mod Sessions
mod Frames
mod Displays
mod Preparations
mod Recoveries
