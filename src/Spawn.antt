-- ===== src/Spawn.antt =====
-- _spawn_contract.py: the commands that an app reads, and how its loop over them ends.
pub mod Commands
pub mod Exits
pub mod Pump
pub mod Reads
pub mod Sentinel
pub mod Stops
pub mod Url
pub mod Watch
