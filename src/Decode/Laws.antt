-- ===== src/Decode/Laws.antt =====
-- `GetCode32` against the encodings of the manual.
use m99_riscv_emulator.Prelude.{ℕ, ◌≡◌, ◌∙◌, ◌%◌, ◌/◌, ◌^◌, arith, true}
use m99_riscv_emulator.BitTools.{bitcrop}
use m99_riscv_emulator.BitTools.Fields.{bitcrop_lem}
use m99_riscv_emulator.Isa.{Instruction}
use m99_riscv_emulator.Decode.Encodings.{encodes}
use m99_riscv_emulator.Decode.Code32.{code_of, get_code32}

complete :
    (i : Instruction) (opcode funct3 funct7 : ℕ)
    → encodes i opcode funct3 funct7 ≡ true
    → code_of opcode funct3 funct7 ≡ i
unfolding code_of encodes
complete Instruction.error opcode funct3 funct7 h = cc
complete _ opcode funct3 funct7 h = ground arith

-- A word whose opcode, funct3 and funct7 are those of an instruction in the manual's table is
-- decoded as that instruction, for each of the 89 instructions.
pub get_code32_complete :
    (i : Instruction) (ir : ℕ)
    → encodes i (ir % 2 ^ 7) (ir / 2 ^ 12 % 2 ^ 3) (ir / 2 ^ 25 % 2 ^ 7) ≡ true
    → get_code32 ir ≡ i
unfolding get_code32
get_code32_complete i ir h =
    rw (opcode, bitcrop_lem ir 3 12 (omega arith), bitcrop_lem ir 7 25 (omega arith))
      (complete i (ir % 2 ^ 7) (ir / 2 ^ 12 % 2 ^ 3) (ir / 2 ^ 25 % 2 ^ 7) h)
  where
    opcode : bitcrop ir 7 0 ≡ ir % 2 ^ 7
    opcode = bitcrop_lem ir 7 0 (omega arith) ∙ omega arith
