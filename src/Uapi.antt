-- ===== src/Uapi.antt =====
-- The user space protocol: android/tunnel/tools/amneziawg-tools/src/ipc-uapi.h. An allocation is taken
-- to succeed.
pub mod Print
pub mod Wire
pub mod Set
pub mod Steps
pub mod Entries
pub mod Get
