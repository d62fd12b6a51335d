-- ===== src/Disassembler/Compressed.antt =====
-- `Disassemble16`: the text of a compressed instruction.
use mathlib.Core.List.{List, ◌++◌}
use m99_riscv_emulator.Prelude.{ℕ, not, ◌&&◌, bit_or, ◌==◌, if◌then◌else◌, u16, ◌<<<◌}
use m99_riscv_emulator.Prelude.Text.{codes}
use m99_riscv_emulator.BitTools.{bitcrop, sign_extend}
use m99_riscv_emulator.Decode.Code16.{Decoded, get_code16}
use m99_riscv_emulator.Disassembler.Text.{get_reg_name, number_to_hex}

-- The text before the switch.
abbrev unsupported : List ℕ
unsupported = codes "Unsupported C Instruction"

-- Case 0b10010.
text_add : ℕ → Decoded → List ℕ
unfolding get_reg_name
text_add ir d =
    if bitcrop ir 1 12 == 1
    then (if bitcrop ir 5 2 == 0 && bitcrop ir 5 7 == 0
        then codes "C.EBREAK"
        else if bitcrop ir 5 2 == 0
        then codes "C.JALR " ++ (get_reg_name d.rs1)
        else if not (bitcrop ir 5 7 == 0)
        then codes "C.ADD " ++ (get_reg_name d.rd ++ (codes ", " ++ (get_reg_name d.rs2)))
        else unsupported)
    else if bitcrop ir 5 2 == 0
    then codes "C.JR " ++ (get_reg_name d.rs1)
    else codes "C.MV " ++ (get_reg_name d.rd ++ (codes ", " ++ (get_reg_name d.rs2)))

-- Case 0b10001.
text_arith : ℕ → Decoded → List ℕ
unfolding get_reg_name number_to_hex
text_arith ir d =
    if bitcrop ir 3 10 == 0b011 && bitcrop ir 2 5 == 0b11
    then codes "C.AND " ++ (get_reg_name d.rd ++ (codes ", " ++ (get_reg_name d.rs2)))
    else if bitcrop ir 3 10 == 0b011 && bitcrop ir 2 5 == 0b01
    then codes "C.XOR " ++ (get_reg_name d.rd ++ (codes ", " ++ (get_reg_name d.rs2)))
    else if bitcrop ir 3 10 == 0b011 && bitcrop ir 2 5 == 0b00
    then codes "C.SUB " ++ (get_reg_name d.rd ++ (codes ", " ++ (get_reg_name d.rs2)))
    else if bitcrop ir 3 10 == 0b011 && bitcrop ir 2 5 == 0b10
    then codes "C.OR " ++ (get_reg_name d.rd ++ (codes ", " ++ (get_reg_name d.rs2)))
    else if bitcrop ir 3 10 == 0b111 && bitcrop ir 2 5 == 0b01
    then codes "C.ADDW " ++ (get_reg_name d.rd ++ (codes ", " ++ (get_reg_name d.rs2)))
    else if bitcrop ir 3 10 == 0b111 && bitcrop ir 2 5 == 0b00
    then codes "C.SUBW " ++ (get_reg_name d.rd ++ (codes ", " ++ (get_reg_name d.rs2)))
    else if bitcrop ir 2 10 == 0b01
    then codes "C.SRAI " ++ (get_reg_name d.rd ++ (codes ", " ++ (number_to_hex d.imm)))
    else if bitcrop ir 2 10 == 0b00
    then codes "C.SRLI " ++ (get_reg_name d.rd ++ (codes ", " ++ (number_to_hex d.imm)))
    else if bitcrop ir 2 10 == 0b10
    then codes "C.ANDI "
      ++ (get_reg_name d.rd ++ (codes ", " ++ (number_to_hex (sign_extend 32 d.imm 6))))
    else unsupported

-- Case 0b11001, which case 0b11000 falls into: the text that it made for `C.SW` is lost.
text_beqz : Decoded → List ℕ
unfolding get_reg_name number_to_hex
text_beqz d =
    codes "C.BEQZ "
    ++ (get_reg_name d.rs1 ++ (codes ", " ++ (number_to_hex (sign_extend 32 d.imm 9))))

-- The switch.
text16 : ℕ → ℕ → ℕ → Decoded → List ℕ
unfolding text_add text_arith text_beqz get_reg_name number_to_hex
text16 ir mxl opcode d =
    if opcode == 0b00000
    then codes "C.ADDI4SPN " ++ (get_reg_name d.rd ++ (codes ", SP, " ++ (number_to_hex d.imm)))
    else if opcode == 0b00001
    then codes "C.ADDI " ++ (get_reg_name d.rd ++ (codes ", " ++ (number_to_hex d.imm)))
    else if opcode == 0b00010
    then codes "C.SLLI " ++ (get_reg_name d.rd ++ (codes ", " ++ (number_to_hex d.imm)))
    else if opcode == 0b00101
    then (if mxl == 1
        then codes "C.JAL " ++ (number_to_hex (sign_extend 32 d.imm 12))
        else codes "C.ADDIW " ++ (get_reg_name d.rd ++ (codes ", " ++ (number_to_hex d.imm))))
    else if opcode == 0b01000
    then codes "C.LW "
      ++ (get_reg_name d.rd
          ++ (codes ", "
              ++ (number_to_hex d.imm ++ (codes "(" ++ (get_reg_name d.rs1 ++ (codes ")"))))))
    else if opcode == 0b01001
    then codes "C.LI " ++ (get_reg_name d.rd ++ (codes ", " ++ (number_to_hex d.imm)))
    else if opcode == 0b01010
    then codes "C.LWSP "
      ++ (get_reg_name d.rd ++ (codes ", " ++ (number_to_hex d.imm ++ (codes "(SP)"))))
    else if opcode == 0b01100
    then codes "C.LD "
      ++ (get_reg_name d.rd
          ++ (codes ", "
              ++ (number_to_hex d.imm ++ (codes "(" ++ (get_reg_name d.rs1 ++ (codes ")"))))))
    else if opcode == 0b01101
    then (if bitcrop ir 5 7 == 0b00010
        then codes "C.ADDI16SP SP, SP, " ++ (number_to_hex d.imm)
        else codes "C.LUI " ++ (get_reg_name d.rd ++ (codes ", " ++ (number_to_hex d.imm))))
    else if opcode == 0b01110
    then codes "C.LDSP "
      ++ (get_reg_name d.rd ++ (codes ", " ++ (number_to_hex d.imm ++ (codes "(SP)"))))
    else if opcode == 0b10010
    then text_add ir d
    else if opcode == 0b10001
    then text_arith ir d
    else if opcode == 0b10101
    then codes "C.J " ++ (number_to_hex (sign_extend 32 d.imm 12))
    else if opcode == 0b11000
    then text_beqz d
    else if opcode == 0b11001
    then text_beqz d
    else if opcode == 0b11010
    then codes "C.SWSP "
      ++ (get_reg_name d.rs2 ++ (codes ", " ++ (number_to_hex d.imm ++ (codes "(SP)"))))
    else if opcode == 0b11100
    then codes "C.SD "
      ++ (get_reg_name d.rs2
          ++ (codes ", "
              ++ (number_to_hex d.imm ++ (codes "(" ++ (get_reg_name d.rs1 ++ (codes ")"))))))
    else if opcode == 0b11101
    then codes "C.BNEZ "
      ++ (get_reg_name d.rs1 ++ (codes ", " ++ (number_to_hex (sign_extend 32 d.imm 9))))
    else if opcode == 0b11110
    then codes "C.SDSP "
      ++ (get_reg_name d.rs2 ++ (codes ", " ++ (number_to_hex d.imm ++ (codes "(SP)"))))
    else unsupported

unfoldable pub disassemble16 : ℕ → ℕ → List ℕ
unfolding text16
disassemble16 ir mxl =
    text16 ir mxl (u16 (bit_or (bitcrop ir 3 13 <<< 2) (bitcrop ir 2 0))) (get_code16 ir mxl)
