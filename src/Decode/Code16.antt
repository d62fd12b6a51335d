-- ===== src/Decode/Code16.antt =====
-- `GetCode16` of RISCV_cpu.cc: the compressed instructions, one function for each opcode that has
-- more than one form. An immediate is the bit pattern of an `int32_t`.
pub mod WellFormed
use m99_riscv_emulator.Prelude.{
  ℕ, ◌+◌, ◌*◌, ◌^◌, Bool, ◌&&◌, ◌||◌, bit_and, bit_or, ◌==◌, if◌then◌else◌, ◌<<<◌, ◌>>>◌,
}
use m99_riscv_emulator.BitTools.{bitcrop, sign_extend}
use m99_riscv_emulator.Isa.{Instruction}

-- The five results.
pub record Decoded : Type 0 where
  pub instruction : Instruction
  pub rd : ℕ
  pub rs1 : ℕ
  pub rs2 : ℕ
  pub imm : ℕ

abbrev pub decoded : Instruction → ℕ → ℕ → ℕ → ℕ → Decoded
decoded instruction rd rs1 rs2 imm = record {
  instruction = instruction;
  rd = rd;
  rs1 = rs1;
  rs2 = rs2;
  imm = imm;
}

-- The results as they are initialised.
abbrev pub undecoded : Decoded
undecoded = decoded Instruction.error 0 0 0 0

module _ (ir : ℕ) where
  -- A three-bit register field.
  abbrev short_reg : ℕ → ℕ
  short_reg offset = bitcrop ir 3 offset + 8

  c_addi4spn : Decoded
  c_addi4spn =
      if bitcrop ir 8 5 == 0
      then undecoded
      else decoded Instruction.addi (short_reg 2) 2 0 (
          bit_or
            (bit_or (bit_or (bitcrop ir 2 11 <<< 4) (bitcrop ir 4 7 <<< 6)) (bitcrop ir 1 6 <<< 2))
            (bitcrop ir 1 5 <<< 3))

  -- The offset of `c.j` and `c.jal`.
  jump_offset : ℕ
  jump_offset =
      sign_extend 32
        (bit_or
          (bit_or
            (bit_or
              (bit_or
                (bit_or
                  (bit_or (bit_or (bitcrop ir 1 12 <<< 11) (bitcrop ir 1 11 <<< 4))
                    (bitcrop ir 2 9 <<< 8))
                  (bitcrop ir 1 8 <<< 10))
                (bitcrop ir 1 7 <<< 6))
              (bitcrop ir 1 6 <<< 7))
            (bitcrop ir 3 3 <<< 1))
          (bitcrop ir 1 2 <<< 5))
        12

  -- The six-bit immediate of `c.addi`, `c.addiw` and `c.li`.
  imm6 : ℕ
  imm6 = sign_extend 32 (bit_or (bitcrop ir 1 12 <<< 5) (bitcrop ir 5 2)) 6

  c_addi : ℕ → ℕ → Decoded
  c_addi opcode mxl =
      if opcode == 0b00101 && mxl == 1
      then decoded Instruction.jal 1 0 0 jump_offset
      else decoded (if opcode >>> 2 == 0 then Instruction.addi else Instruction.addiw)
          (bitcrop ir 5 7) (bitcrop ir 5 7) 0 imm6

  c_lw : Decoded
  c_lw =
      decoded Instruction.lw (short_reg 2) (short_reg 7) 0
        (bit_or (bit_or (bitcrop ir 3 10 <<< 3) (bitcrop ir 1 6 <<< 2)) (bitcrop ir 1 5 <<< 6))

  c_lwsp : Decoded
  c_lwsp =
      decoded Instruction.lw (bitcrop ir 5 7) 2 0
        (bit_or (bit_or (bitcrop ir 1 12 <<< 5) (bitcrop ir 3 4 <<< 2)) (bitcrop ir 2 2 <<< 6))

  c_ld : Decoded
  c_ld =
      decoded Instruction.ld (short_reg 2) (short_reg 7) 0
        (bit_or (bitcrop ir 3 10 <<< 3) (bitcrop ir 2 5 <<< 6))

  c_ldsp : Decoded
  c_ldsp =
      decoded Instruction.ld (bitcrop ir 5 7) 2 0
        (bit_or (bit_or (bitcrop ir 1 12 <<< 5) (bitcrop ir 2 5 <<< 3)) (bitcrop ir 3 2 <<< 6))

  c_lui : Decoded
  c_lui =
      let rd = bitcrop ir 5 7 in
      let upper = sign_extend 32 (bit_or (bitcrop ir 1 12 <<< 17) (bitcrop ir 5 2 <<< 12)) 18 in
      let stack =
        sign_extend 32
          (bit_or
            (bit_or
              (bit_or (bit_or (bitcrop ir 1 12 <<< 9) (bitcrop ir 1 6 <<< 4))
                (bitcrop ir 1 5 <<< 6))
              (bitcrop ir 2 3 <<< 7))
            (bitcrop ir 1 2 <<< 5))
          10 in
      if rd == 2
      then decoded (if stack == 0 then Instruction.error else Instruction.addi) rd 2 0 stack
      else decoded (if upper == 0 then Instruction.error else Instruction.lui) rd 0 0 upper

  c_add : Decoded
  c_add =
      if bitcrop ir 1 12 == 1
      then if bitcrop ir 5 2 == 0 && bitcrop ir 5 7 == 0
        then decoded Instruction.system 0 0 0 1
        else if bitcrop ir 5 2 == 0
        then decoded Instruction.jalr 1 (bitcrop ir 5 7) 0 0
        else if bitcrop ir 5 7 == 0
        then undecoded
        else decoded Instruction.add (bitcrop ir 5 7) (bitcrop ir 5 7) (bitcrop ir 5 2) 0
      else if bitcrop ir 5 2 == 0
      then decoded Instruction.jalr 0 (bitcrop ir 5 7) 0 0
      else decoded Instruction.add (bitcrop ir 5 7) 0 (bitcrop ir 5 2) 0

  -- The forms with two short registers.
  c_pair : Instruction → Decoded
  c_pair instruction = decoded instruction (short_reg 7) (short_reg 7) (short_reg 2) 0

  c_arith : Decoded
  c_arith =
      if bitcrop ir 3 10 == 0b011 && bitcrop ir 2 5 == 0b11
      then c_pair Instruction.and
      else if bitcrop ir 3 10 == 0b011 && bitcrop ir 2 5 == 0b01
      then c_pair Instruction.xor
      else if bitcrop ir 3 10 == 0b011 && bitcrop ir 2 5 == 0b00
      then c_pair Instruction.sub
      else if bitcrop ir 3 10 == 0b011 && bitcrop ir 2 5 == 0b10
      then c_pair Instruction.or
      else if bitcrop ir 3 10 == 0b111 && bitcrop ir 2 5 == 0b01
      then c_pair Instruction.addw
      else if bitcrop ir 3 10 == 0b111 && bitcrop ir 2 5 == 0b00
      then c_pair Instruction.subw
      else if bitcrop ir 1 11 == 0
      then decoded (if bitcrop ir 1 10 == 1 then Instruction.srai else Instruction.srli)
          (short_reg 7) (short_reg 7) 0 ((bitcrop ir 1 12 <<< 5) + bitcrop ir 5 2)
      else if bitcrop ir 1 10 == 0
      then decoded Instruction.andi (short_reg 7) (short_reg 7) 0
          (sign_extend 32 ((bitcrop ir 1 12 <<< 5) + bitcrop ir 5 2) 6)
      else undecoded

  c_sw : Decoded
  c_sw =
      decoded Instruction.sw 0 (short_reg 7) (short_reg 2)
        (bit_or (bit_or (bitcrop ir 3 10 <<< 3) (bitcrop ir 1 6 <<< 2)) (bitcrop ir 1 5 <<< 6))

  c_sd : Decoded
  c_sd =
      decoded Instruction.sd 0 (short_reg 7) (short_reg 2)
        (bit_or (bitcrop ir 3 10 <<< 3) (bitcrop ir 2 5 <<< 6))

  c_branch : ℕ → Decoded
  c_branch opcode =
      decoded (if opcode == 0b11001 then Instruction.beq else Instruction.bne) 0 (short_reg 7) 0 (
        sign_extend 32
          (bit_or
            (bit_or
              (bit_or (bit_or (bitcrop ir 1 12 <<< 8) (bitcrop ir 2 10 <<< 3))
                (bitcrop ir 2 5 <<< 6))
              (bitcrop ir 2 3 <<< 1))
            (bitcrop ir 1 2 <<< 5))
          9)

  c_swsp : Decoded
  c_swsp =
      decoded Instruction.sw 0 2 (bitcrop ir 5 2)
        (bit_or (bitcrop ir 4 9 <<< 2) (bitcrop ir 2 7 <<< 6))

  c_sdsp : Decoded
  c_sdsp =
      decoded Instruction.sd 0 2 (bitcrop ir 5 2)
        (bit_or (bitcrop ir 3 10 <<< 3) (bitcrop ir 3 7 <<< 6))

  c_opcode : ℕ
  c_opcode = bit_or (bit_and (ir >>> 13) 0b111 <<< 2) (bit_and ir 0b11)

  -- The switch on the opcode of five bits.
  dispatch16 : ℕ → ℕ → Decoded
  dispatch16 mxl opcode =
      if opcode == 0b00000
      then c_addi4spn
      else if opcode == 0b00001 || opcode == 0b00101
      then c_addi opcode mxl
      else if opcode == 0b00010
      then decoded Instruction.slli (bitcrop ir 5 7) (bitcrop ir 5 7) 0
          (bit_or (bitcrop ir 1 12 <<< 5) (bitcrop ir 5 2))
      else if opcode == 0b01000
      then c_lw
      else if opcode == 0b01001
      then decoded Instruction.addi (bitcrop ir 5 7) 0 0 imm6
      else if opcode == 0b01010
      then c_lwsp
      else if opcode == 0b01100
      then c_ld
      else if opcode == 0b01110
      then c_ldsp
      else if opcode == 0b01101
      then c_lui
      else if opcode == 0b10010
      then c_add
      else if opcode == 0b10001
      then c_arith
      else if opcode == 0b10101
      then decoded Instruction.jal 0 0 0 jump_offset
      else if opcode == 0b11000
      then c_sw
      else if opcode == 0b11100
      then c_sd
      else if opcode == 0b11001 || opcode == 0b11101
      then c_branch opcode
      else if opcode == 0b11010
      then c_swsp
      else if opcode == 0b11110
      then c_sdsp
      else undecoded

unfoldable pub get_code16 : ℕ → ℕ → Decoded
unfolding c_addi4spn jump_offset imm6 c_addi c_lw c_lwsp c_ld c_ldsp c_lui c_add c_pair c_arith c_sw
    c_sd c_branch c_swsp c_sdsp c_opcode dispatch16
get_code16 ir mxl = dispatch16 ir mxl (c_opcode ir)
