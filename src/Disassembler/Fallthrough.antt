-- ===== src/Disassembler/Fallthrough.antt =====
-- The case of `Disassemble16` that has no `break`.
use m99_riscv_emulator.Prelude.{ℕ, ◌/◌, ◌%◌, ◌^◌, ◌≡◌, refl, ◌∙◌, arith, bit_and, u16}
use m99_riscv_emulator.Prelude.Text.{codes}
use m99_riscv_emulator.Prelude.Bits.{bit_and_mask}
use m99_riscv_emulator.BitTools.{bitcrop}
use m99_riscv_emulator.BitTools.Fields.{bitcrop_lem}
use m99_riscv_emulator.Disassembler.{disassemble}
use m99_riscv_emulator.Disassembler.Compressed.{disassemble16}
use m99_riscv_emulator.Disassembler.Instructions.{Begins}

-- Every word with the opcode of `C.SW`, 110 above and 00 below, is printed as a `C.BEQZ`.
pub disassemble-c_sw :
    (ir mxl : ℕ) → ir % 4 ≡ 0 → ir / 2 ^ 13 % 8 ≡ 6 → Begins (disassemble ir mxl) (codes "C.BEQZ ")
unfolding disassemble disassemble16
disassemble-c_sw ir mxl low high =
    let short : bit_and (u16 (bitcrop ir 7 0)) 3 ≡ 0 =
      bit_and_mask 2 (u16 (bitcrop ir 7 0)) ∙ omega (arith, bitcrop_lem ir 7 0 (omega arith)) in
    let upper : bitcrop ir 3 13 ≡ 6 = bitcrop_lem ir 3 13 (omega arith) ∙ high in
    let lower : bitcrop ir 2 0 ≡ 0 = bitcrop_lem ir 2 0 (omega arith) ∙ omega arith in
    rw (short, upper, lower) (_, refl)
