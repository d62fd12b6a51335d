-- ===== src/Encdec.antt =====
-- The encoders and decoders of instruction_encdec.cc. A field of `k` bits is its bit pattern, also
-- where the source declares it signed; an `int32_t` or `uint32_t` is a pattern of 32 bits.
pub mod Immediates
pub mod RType
pub mod IType
pub mod SType
pub mod BType
pub mod UType
pub mod JType
use m99_riscv_emulator.Prelude.{
  ℕ, ◌%◌, ◌^◌, ◌&&◌, ◌||◌, bit_and, bit_or, ◌==◌, if◌then◌else◌, u32, ◌<<<◌,
}
use m99_riscv_emulator.BitTools.{bit_shift, bitcrop, sign_extend}
use m99_riscv_emulator.Isa.Opcodes.{
  opcode_arithlog_i, opcode_arithlog_i64, opcode_b, opcode_lui, opcode_auipc, opcode_j, opcode_s,
  func3_sl, func3_sr,
}

unfoldable pub get_imm12 : ℕ → ℕ
get_imm12 ir = sign_extend 32 (bitcrop ir 12 20) 12

unfoldable pub get_csr : ℕ → ℕ
get_csr ir = bitcrop ir 12 20

unfoldable pub get_imm13 : ℕ → ℕ
get_imm13 ir =
    sign_extend 32
      (bit_or (bit_or (bit_shift 32 ir 1 31 12) (bit_shift 32 ir 6 25 5))
        (bit_or (bit_shift 32 ir 4 8 1) (bit_shift 32 ir 1 7 11)))
      13

unfoldable pub get_imm21 : ℕ → ℕ
get_imm21 ir =
    let offset19_12 = bitcrop ir 8 12 in
    let offset11 = bitcrop ir 1 20 in
    let offset10_1 = bitcrop ir 10 21 in
    let offset20 = bitcrop ir 1 31 in
    sign_extend 32
      (bit_or (bit_or (bit_or (offset20 <<< 20) (offset19_12 <<< 12)) (offset11 <<< 11))
        (offset10_1 <<< 1))
      21

unfoldable pub get_stype_imm12 : ℕ → ℕ
get_stype_imm12 ir = sign_extend 32 (bit_or (bitcrop ir 7 25 <<< 5) (bitcrop ir 5 7)) 12

unfoldable pub get_shamt : ℕ → ℕ
get_shamt ir = bitcrop ir 6 20

unfoldable pub get_imm20 : ℕ → ℕ
get_imm20 ir = sign_extend 32 (bitcrop ir 20 12) 20

unfoldable pub get_opcode : ℕ → ℕ
get_opcode ir = bitcrop ir 7 0

unfoldable pub get_rd : ℕ → ℕ
get_rd ir = bitcrop ir 5 7

unfoldable pub get_rs1 : ℕ → ℕ
get_rs1 ir = bitcrop ir 5 15

unfoldable pub get_rs2 : ℕ → ℕ
get_rs2 ir = bitcrop ir 5 20

unfoldable pub get_imm : ℕ → ℕ
get_imm ir =
    let opcode = bitcrop ir 7 0 in
    let funct3 = bitcrop ir 3 12 in
    let imm = get_imm12 ir in
    if opcode == opcode_arithlog_i || opcode == opcode_arithlog_i64
    then if funct3 == func3_sl || funct3 == func3_sr then bit_and imm 0b111111 else imm
    else if opcode == opcode_b
    then get_imm13 ir
    else if opcode == opcode_lui || opcode == opcode_auipc
    then u32 (get_imm20 ir <<< 12)
    else if opcode == opcode_j
    then get_imm21 ir
    else if opcode == opcode_s
    then get_stype_imm12 ir
    else imm

-- The fields that the formats share.
pub record BitField : Type 0 where
  pub opcode : ℕ
  pub rd : ℕ
  pub rs2 : ℕ
  pub rs1 : ℕ
  pub funct3 : ℕ
