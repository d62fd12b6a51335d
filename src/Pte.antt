-- ===== src/Pte.antt =====
-- Page-table entries, pte.cpp and pte.h.
pub mod Pte32
pub mod Pte64
pub mod Ppn
pub mod Flags
