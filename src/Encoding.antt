-- ===== src/Encoding.antt =====
-- Keys and their texts: android/tunnel/tools/amneziawg-tools/src/encoding.c and encoding.h. A key is
-- the list of its bytes, a text the list of its characters before the terminating NUL.
pub mod Flags
pub mod Base64
pub mod Hex
pub mod Zero
