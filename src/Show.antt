-- ===== src/Show.antt =====
-- android/tunnel/tools/amneziawg-tools/src/show.c: the texts of a device.
pub mod Format
pub mod Sort
pub mod Pretty
pub mod Dump
pub mod Ugly
pub mod Main
