-- ===== src/Tests.antt =====
-- The theorems at concrete inputs.
pub mod Setup
pub mod Encoding
pub mod Config
pub mod Commands
pub mod Kernel
pub mod Tools
mod Quick
