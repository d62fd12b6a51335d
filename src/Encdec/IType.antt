-- ===== src/Encdec/IType.antt =====
-- `IType` of instruction_encdec.cc.
use m99_riscv_emulator.Prelude.{
  ℕ, ◌%◌, ◌^◌, bit_or, bit_and, u32, ◌<<<◌, ◌==◌, ◌&&◌, ◌||◌, Bool, if◌then◌else◌,
}
use m99_riscv_emulator.BitTools.{bitcrop, sign_extend}
use m99_riscv_emulator.Encdec.{BitField, get_imm12}
use m99_riscv_emulator.Isa.Opcodes.{opcode_arithlog_i, opcode_arithlog_i64, func3_sr, func3_sl}

pub record IType : Type 0 where
  pub base : BitField
  pub imm12 : ℕ

unfoldable pub get_value : IType → ℕ
get_value f =
    bit_or (bit_or (0) (bit_or (u32 (sign_extend 32 f.imm12 12 <<< 20)) (f.base.rs1 <<< 15)))
      (bit_or (bit_or (f.base.funct3 <<< 12) (f.base.rd <<< 7)) (f.base.opcode))

-- The opcode and `funct3` of the shifts by an immediate.
unfoldable pub is_shift : ℕ → Bool
is_shift value =
    (bitcrop value 7 0 == opcode_arithlog_i || bitcrop value 7 0 == opcode_arithlog_i64)
    && (bitcrop value 3 12 == func3_sr || bitcrop value 3 12 == func3_sl)

-- `rs2`, which the function does not write, keeps its value.
unfoldable pub set_value : IType → ℕ → IType
set_value old value =
    let imm12 = get_imm12 value % 2 ^ 12 in
    record {
      base = record {
        opcode = bitcrop value 7 0;
        rd = bitcrop value 5 7;
        rs2 = old.base.rs2;
        rs1 = bitcrop value 5 15;
        funct3 = bitcrop value 3 12;
      };
      imm12 = (if is_shift value then bit_and imm12 0b0111111 else imm12);
    }
