-- ===== src/Encdec/UType.antt =====
-- `UType` of instruction_encdec.cc.
use m99_riscv_emulator.Prelude.{
  ℕ, ◌+◌, ◌*◌, ◌%◌, ◌^◌, ◌<◌, ◌≡◌, ◌∙◌, arith, bit_or, bit_and, u32, ◌<<<◌,
}
use m99_riscv_emulator.Prelude.Bits.{bit_and_mask, bit_or_sum, zero-bit_or}
use m99_riscv_emulator.BitTools.{bitcrop}
use m99_riscv_emulator.BitTools.Fields.{bitcrop_lem}
use m99_riscv_emulator.Encdec.{BitField, get_imm20}
use m99_riscv_emulator.Encdec.Immediates.{slice, signed, get_imm20_lem}

pub record UType : Type 0 where
  pub base : BitField
  pub imm20 : ℕ

unfoldable pub get_value : UType → ℕ
get_value f =
    bit_or (bit_or (0) (u32 (bit_and f.imm20 0xFFFFF <<< 12)))
      (bit_or (f.base.rd <<< 7) (f.base.opcode))

-- The fields that the function does not write keep their value.
unfoldable pub set_value : UType → ℕ → UType
set_value old value = record {
  base = record {
    opcode = bitcrop value 7 0;
    rd = bitcrop value 5 7;
    rs2 = old.base.rs2;
    rs1 = old.base.rs1;
    funct3 = old.base.funct3;
  };
  imm20 = get_imm20 value % 2 ^ 24;
}

-- The encoder's mask drops the copies of the sign.
u20 : (value : ℕ) → bit_and (get_imm20 value % 2 ^ 24) 0xFFFFF ≡ slice value 20 12
u20 value =
    rw (get_imm20_lem value)
      (bit_and_mask 20 (signed 20 (slice value 20 12) % 2 ^ 24) ∙ ground arith)

-- Every word below `2 ^ 32` is the encoding of the fields that are read from it, whatever the
-- object held.
get_value-set_value_utype :
    (old : UType) (value : ℕ) → value < 2 ^ 32 → get_value (set_value old value) ≡ value
unfolding get_value set_value
get_value-set_value_utype old value h =
    rw (u20 value, bitcrop_lem value 5 7 (omega arith), bitcrop_lem value 7 0 (omega arith))
      (rw
        (
          zero-bit_or (u32 (slice value 20 12 * 2 ^ 12)),
          bit_or_sum 7 (slice value 5 7 * 2 ^ 7) (slice value 7 0) (omega arith) (omega arith),
          bit_or_sum 12 (u32 (slice value 20 12 * 2 ^ 12))
              (slice value 5 7 * 2 ^ 7 + slice value 7 0) (omega arith) (omega arith),
        )
        (omega arith))
