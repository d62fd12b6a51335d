-- ===== src/Disassembler.antt =====
-- The disassembler, Disassembler.cpp: texts as lists of character codes.
pub mod Text
pub mod Names
pub mod Compressed
pub mod Hex
pub mod Mnemonics
pub mod Instructions
pub mod Fallthrough
use mathlib.Core.List.{List, ◌++◌}
use m99_riscv_emulator.Prelude.{
  ℕ, ◌+◌, ◌-◌, ◌^◌, ◌%◌, Bool, true, false, ◌&&◌, not, bit_and, ltb, ◌==◌, if◌then◌else◌, u8, u16,
  ◌>>>◌,
}
use m99_riscv_emulator.Prelude.Text.{codes}
use m99_riscv_emulator.BitTools.{bitcrop}
use m99_riscv_emulator.Isa.Opcodes
use m99_riscv_emulator.Encdec.{
  get_rd, get_rs1, get_rs2, get_imm12, get_csr, get_imm13, get_imm21, get_stype_imm12, get_imm20,
}
use m99_riscv_emulator.Disassembler.Text.{get_reg_name, number_to_hex}
use m99_riscv_emulator.Disassembler.Names.{
  name_arithlog, name_arithlog_64, name_arithlog_i, name_arithlog_i64, name_b, name_ld, name_s,
  name_system, name_csr, name_fence, name_amo,
}
use m99_riscv_emulator.Disassembler.Compressed.{disassemble16}

-- A value of 32 bits after it was kept in an `int16_t`.
abbrev int16 : ℕ → ℕ
int16 x = if ltb (u16 x) (2 ^ 15) then u16 x else u16 x + (2 ^ 32 - 2 ^ 16)

-- " a, b, c".
abbrev three : List ℕ → List ℕ → List ℕ → List ℕ
three a b c = codes " " ++ (a ++ (codes ", " ++ (b ++ (codes ", " ++ c))))

-- " a, n(b)".
abbrev indexed : List ℕ → List ℕ → List ℕ → List ℕ
indexed a n b = codes " " ++ (a ++ (codes ", " ++ (n ++ (codes "(" ++ (b ++ codes ")")))))

unfoldable pub disassemble : ℕ → ℕ → List ℕ
disassemble ir mxl =
    let opcode = u16 (bitcrop ir 7 0) in
    let funct3 = u8 (bitcrop ir 3 12) in
    let funct7 = u8 (bitcrop ir 7 25) in
    let funct5 = funct7 >>> 2 in
    let rd = get_reg_name (get_rd ir) in
    let rs1 = get_reg_name (get_rs1 ir) in
    let rs2 = get_reg_name (get_rs2 ir) in
    let imm12 = int16 (get_imm12 ir) in
    if not (bit_and opcode 0b11 == 0b11)
    then disassemble16 ir mxl
    else if opcode == Opcodes.opcode_arithlog
    then name_arithlog funct3 funct7 ++ three rd rs1 rs2
    else if opcode == Opcodes.opcode_arithlog_64
    then name_arithlog_64 funct3 funct7 ++ three rd rs1 rs2
    else if opcode == Opcodes.opcode_arithlog_i
    then name_arithlog_i funct3 funct7 ++ three rd rs1 (number_to_hex imm12)
    else if opcode == Opcodes.opcode_arithlog_i64
    then name_arithlog_i64 funct3 funct7 ++ three rd rs1 (number_to_hex imm12)
    else if opcode == Opcodes.opcode_b
    then name_b funct3 ++ three rs1 rs2 (number_to_hex (int16 (get_imm13 ir)))
    else if opcode == Opcodes.opcode_j
    then codes "JAL " ++ (rd ++ (codes ", " ++ number_to_hex (get_imm21 ir)))
    else if opcode == Opcodes.opcode_jalr
    then if funct3 == Opcodes.func3_jalr
      then codes "JALR" ++ indexed rd (number_to_hex imm12) rs1
      else codes "UNDEF"
    else if opcode == Opcodes.opcode_ld
    then name_ld funct3 ++ indexed rd (number_to_hex imm12) rs1
    else if opcode == Opcodes.opcode_s
    then name_s funct3 ++ indexed rs2 (number_to_hex (int16 (get_stype_imm12 ir))) rs1
    else if opcode == Opcodes.opcode_lui
    then codes "LUI"
      ++ (codes " " ++ (rd ++ (codes ", " ++ (number_to_hex (get_imm20 ir) ++ codes " << 12"))))
    else if opcode == Opcodes.opcode_auipc
    then codes "AUIPC"
      ++ (codes " " ++ (rd ++ (codes ", " ++ (number_to_hex (get_imm20 ir) ++ codes " << 12"))))
    else if opcode == Opcodes.opcode_system
    then if funct3 == Opcodes.func3_system
      then name_system imm12 (get_rd ir)
      else name_csr funct3 ++ three rd (number_to_hex (int16 (get_csr ir))) rs1
    else if opcode == Opcodes.opcode_fence
    then name_fence funct3
    else if opcode == Opcodes.opcode_amo
    then name_amo funct3 funct5 ++ three rd rs2 (codes "(" ++ (rs1 ++ codes ")"))
    else codes "Undefined instruction"
