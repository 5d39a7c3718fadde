-- ===== src/Tests.antt =====
-- Runs of the model, and the theorems at concrete inputs.
mod Script
mod Rounds
mod ShuttingDown
mod Mounts
mod Shutdown
mod Net
mod Order
mod Phases
mod Seat
mod Held
mod Ui
mod Boot
mod Signals
mod Host
mod Build
mod Strings
mod Environment
