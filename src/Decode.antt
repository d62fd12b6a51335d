-- ===== src/Decode.antt =====
-- The instruction decoders, `GetCode32` and `GetCode16` of RISCV_cpu.cc.
pub mod Code32
pub mod Code16
pub mod Encodings
pub mod Laws
