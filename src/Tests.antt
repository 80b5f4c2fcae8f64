-- ===== src/Tests.antt =====
-- Concrete inputs for the theorems of the other modules, and the test vectors of the sources.
pub mod LineCode
pub mod Checks
pub mod Kisses
pub mod Frames
pub mod Lora
pub mod Queues
pub mod Streams
pub mod Codes
pub mod Coding
pub mod Shadows
pub mod Spawns
pub mod Reed
pub mod SnetWords
pub mod Stubs
