-- ===== src/Misc.antt =====
-- misc.c: the string helpers, and the two functions that only call the system.
pub mod System
pub mod Strip
pub mod Rot13
pub mod Cut
pub mod Delete
pub mod Split
pub mod Fmtsub
pub mod Lines
