-- ===== src/Encdec/RType.antt =====
-- `RType` of instruction_encdec.cc.
use m99_riscv_emulator.Prelude.{ℕ, ◌+◌, ◌*◌, ◌^◌, ◌<◌, ◌≡◌, arith, bit_or, u32, ◌<<<◌}
use m99_riscv_emulator.Prelude.Bits.{bit_or_sum, zero-bit_or}
use m99_riscv_emulator.BitTools.{bitcrop}
use m99_riscv_emulator.BitTools.Fields.{bitcrop_lem}
use m99_riscv_emulator.Encdec.{BitField}
use m99_riscv_emulator.Encdec.Immediates.{slice}

pub record RType : Type 0 where
  pub base : BitField
  pub funct7 : ℕ

unfoldable pub get_value : RType → ℕ
get_value f =
    bit_or
      (bit_or (0) (bit_or (bit_or (u32 (f.funct7 <<< 25)) (f.base.rs2 <<< 20)) (f.base.rs1 <<< 15)))
      (bit_or (bit_or (f.base.funct3 <<< 12) (f.base.rd <<< 7)) (f.base.opcode))

-- The fields that the function does not write keep their value.
unfoldable pub set_value : RType → ℕ → RType
set_value old value = record {
  base = record {
    opcode = bitcrop value 7 0;
    rd = bitcrop value 5 7;
    rs2 = bitcrop value 5 20;
    rs1 = bitcrop value 5 15;
    funct3 = bitcrop value 3 12;
  };
  funct7 = bitcrop value 7 25;
}

-- Every word below `2 ^ 32` is the encoding of the fields that are read from it, whatever the
-- object held.
get_value-set_value_rtype :
    (old : RType) (value : ℕ) → value < 2 ^ 32 → get_value (set_value old value) ≡ value
unfolding get_value set_value
get_value-set_value_rtype old value h =
    rw
      (
        bitcrop_lem value 7 25 (omega arith),
        bitcrop_lem value 5 20 (omega arith),
        bitcrop_lem value 5 15 (omega arith),
        bitcrop_lem value 3 12 (omega arith),
        bitcrop_lem value 5 7 (omega arith),
        bitcrop_lem value 7 0 (omega arith),
      )
      (rw
        (
          bit_or_sum 25 (u32 (slice value 7 25 * 2 ^ 25)) (slice value 5 20 * 2 ^ 20) (omega arith)
              (omega arith),
          bit_or_sum 20 (u32 (slice value 7 25 * 2 ^ 25) + slice value 5 20 * 2 ^ 20)
              (slice value 5 15 * 2 ^ 15) (omega arith) (omega arith),
          zero-bit_or (
              u32 (slice value 7 25 * 2 ^ 25)
              + slice value 5 20 * 2 ^ 20
              + slice value 5 15 * 2 ^ 15),
          bit_or_sum 12 (slice value 3 12 * 2 ^ 12) (slice value 5 7 * 2 ^ 7) (omega arith)
              (omega arith),
          bit_or_sum 7 (slice value 3 12 * 2 ^ 12 + slice value 5 7 * 2 ^ 7) (slice value 7 0)
              (omega arith) (omega arith),
          bit_or_sum 15
              (u32 (slice value 7 25 * 2 ^ 25)
                + slice value 5 20 * 2 ^ 20
                + slice value 5 15 * 2 ^ 15)
              (slice value 3 12 * 2 ^ 12 + slice value 5 7 * 2 ^ 7 + slice value 7 0) (omega arith)
              (omega arith),
        )
        (omega arith))
