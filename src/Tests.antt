-- ===== src/Tests.antt =====
-- Runs of the model on concrete inputs.
mod Tasks
mod Files
mod Devices
mod Calls
mod Printing
mod Typing
mod Starting
mod Loading
