-- ===== src/Config.antt =====
-- The parser of configuration files and of the arguments of `wg set`:
-- android/tunnel/tools/amneziawg-tools/src/config.c and config.h. An allocation is taken to succeed.
pub mod Host
pub mod Values
pub mod Endpoint
pub mod Address
pub mod Line
pub mod Clean
pub mod Read
pub mod Cmd
