-- ===== src/Tests.antt =====
-- The theorems at concrete inputs, and runs of the definitions.
mod Texts
mod Evidence
mod Devices
mod Machines
mod Drives
mod Joins
mod Memories
