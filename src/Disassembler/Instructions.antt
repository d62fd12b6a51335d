-- ===== src/Disassembler/Instructions.antt =====
-- The texts of the 32-bit instructions begin with their names.
use mathlib.Core.List.{List, [], ◌++◌, append-nil}
use m99_riscv_emulator.Prelude.{
  ℕ, ◌≡◌, ◌≢◌, ◌%◌, refl, sym, ap, ◌∙◌, arith, Bool, true, false, ◌==◌, if◌then◌else◌, ◌>>>◌,
  Bool-cases, inl, inr, u8, u16, bit_and,
}
use m99_riscv_emulator.Prelude.Text.{codes}
use m99_riscv_emulator.Prelude.Bits.{bit_and_mask}
use m99_riscv_emulator.BitTools.{bitcrop}
use m99_riscv_emulator.BitTools.Fields.{bitcrop_lem}
use m99_riscv_emulator.Isa.{Instruction}
use m99_riscv_emulator.Isa.Opcodes
use m99_riscv_emulator.Decode.Code32.{code_system, code_amo, get_code32}
use m99_riscv_emulator.Disassembler.{disassemble}
use m99_riscv_emulator.Disassembler.Names.{name_csr, name_fence, name_amo}
use m99_riscv_emulator.Disassembler.Mnemonics.{
  mnemonic, arithlog_lem, arithlog_64_lem, arithlog_i_lem, arithlog_i64_lem, b_lem, ld_lem, s_lem,
  csr_lem, amo_lem,
}

-- A text that begins with a name.
abbrev pub Begins : List ℕ → List ℕ → Type 0
Begins text name = (rest : List ℕ) × (text ≡ name ++ rest)

-- What holds of the text of each instruction: it begins with the name, but for those that have none
-- or a wrong one.
record Named (text : List ℕ) (i : Instruction) : Type 0 where
  begins :
      i ≢ Instruction.error
      → i ≢ Instruction.system
      → i ≢ Instruction.amominuw
      → Begins text (mnemonic i)

pick :
    (b : Bool) {text text' : List ℕ} {i j : Instruction}
    → Named text i
    → Named text' j
    → Named (if b then text else text') (if b then i else j)
pick true p q = p
pick false p q = q

by_name :
    {name : List ℕ} (i : Instruction) (rest : List ℕ) → name ≡ mnemonic i → Named (name ++ rest) i
by_name i rest e = record { begins = λ p q r. (rest, ap (λ n. n ++ rest) e) }

whole : {name : List ℕ} (i : Instruction) → name ≡ mnemonic i → Named name i
whole i e = record { begins = λ p q r. ([], e ∙ sym (append-nil _)) }

undefined : (text : List ℕ) → Named text Instruction.error
undefined text = record { begins = λ p q r. absurd (p refl) }

system-Named :
    (funct3 : ℕ) (text rest : List ℕ)
    → Named
        (if funct3 == Opcodes.func3_system then text else name_csr funct3 ++ rest)
        (code_system funct3)
system-Named funct3 text rest = elim (Bool-cases (funct3 == Opcodes.func3_system)) [
  | inl e ↦ record { begins = λ p q r. absurd (q (unfold code_system in rw e refl)) }
  | inr e ↦ rw e (by_name (code_system funct3) rest (csr_lem funct3 e))
]

fence-Named :
    (funct3 : ℕ)
    → Named (name_fence funct3) (
        if funct3 == Opcodes.func3_fencei
        then Instruction.fencei
        else if funct3 == Opcodes.func3_fence
        then Instruction.fence
        else Instruction.error)
unfolding name_fence mnemonic
fence-Named funct3 =
    pick (funct3 == Opcodes.func3_fencei) (whole Instruction.fencei refl)
      (pick (funct3 == Opcodes.func3_fence) (whole Instruction.fence refl) (undefined _))

amo-Named :
    (funct3 funct5 : ℕ) (rest : List ℕ)
    → Named (name_amo funct3 funct5 ++ rest) (code_amo funct3 funct5)
amo-Named funct3 funct5 rest = record {
  begins = λ p q r. (rest, ap (λ n. n ++ rest) (amo_lem funct3 funct5 r));
}

jal-Named : (rest : List ℕ) → Named (codes "JAL " ++ rest) Instruction.jal
unfolding mnemonic
jal-Named rest = record { begins = λ p q r. (codes " " ++ rest, refl) }

jalr-Named : (rest : List ℕ) → Named (codes "JALR" ++ rest) Instruction.jalr
unfolding mnemonic
jalr-Named rest = by_name Instruction.jalr rest refl

lui-Named : (rest : List ℕ) → Named (codes "LUI" ++ rest) Instruction.lui
unfolding mnemonic
lui-Named rest = by_name Instruction.lui rest refl

auipc-Named : (rest : List ℕ) → Named (codes "AUIPC" ++ rest) Instruction.auipc
unfolding mnemonic
auipc-Named rest = by_name Instruction.auipc rest refl

fields :
    (ir : ℕ)
    → (u16 (bitcrop ir 7 0) ≡ bitcrop ir 7 0)
      × (u8 (bitcrop ir 3 12) ≡ bitcrop ir 3 12)
      × (u8 (bitcrop ir 7 25) ≡ bitcrop ir 7 25)
fields ir = (
  omega (arith, bitcrop_lem ir 7 0 (omega arith)),
  omega (arith, bitcrop_lem ir 3 12 (omega arith)),
  omega (arith, bitcrop_lem ir 7 25 (omega arith)),
)

disassemble-Named :
    (ir mxl : ℕ)
    → (bit_and (bitcrop ir 7 0) 0b11 == 0b11) ≡ true
    → Named (disassemble ir mxl) (get_code32 ir)
unfolding disassemble get_code32
disassemble-Named ir mxl h = rw (fields ir).0 (
    rw (fields ir).1 (
      rw (fields ir).2 (
        rw h (
          pick (bitcrop ir 7 0 == Opcodes.opcode_arithlog)
            (by_name _ _ (arithlog_lem (bitcrop ir 3 12) (bitcrop ir 7 25)))
            (pick (bitcrop ir 7 0 == Opcodes.opcode_arithlog_64)
              (by_name _ _ (arithlog_64_lem (bitcrop ir 3 12) (bitcrop ir 7 25)))
              (pick (bitcrop ir 7 0 == Opcodes.opcode_arithlog_i)
                (by_name _ _ (arithlog_i_lem (bitcrop ir 3 12) (bitcrop ir 7 25)))
                (pick (bitcrop ir 7 0 == Opcodes.opcode_arithlog_i64)
                  (by_name _ _ (arithlog_i64_lem (bitcrop ir 3 12) (bitcrop ir 7 25)))
                  (pick (bitcrop ir 7 0 == Opcodes.opcode_b) (by_name _ _ (b_lem (bitcrop ir 3 12)))
                    (pick (bitcrop ir 7 0 == Opcodes.opcode_j) (jal-Named _) (
                      pick (bitcrop ir 7 0 == Opcodes.opcode_jalr)
                        (pick ((bitcrop ir 3 12) == Opcodes.func3_jalr) (jalr-Named _)
                          (undefined _))
                        (pick (bitcrop ir 7 0 == Opcodes.opcode_ld)
                          (by_name _ _ (ld_lem (bitcrop ir 3 12)))
                          (pick (bitcrop ir 7 0 == Opcodes.opcode_s)
                            (by_name _ _ (s_lem (bitcrop ir 3 12)))
                            (pick (bitcrop ir 7 0 == Opcodes.opcode_lui) (lui-Named _) (
                              pick (bitcrop ir 7 0 == Opcodes.opcode_auipc) (auipc-Named _) (
                                pick (bitcrop ir 7 0 == Opcodes.opcode_system)
                                  (system-Named (bitcrop ir 3 12) _ _)
                                  (pick (bitcrop ir 7 0 == Opcodes.opcode_fence)
                                    (fence-Named (bitcrop ir 3 12))
                                    (pick (bitcrop ir 7 0 == Opcodes.opcode_amo)
                                      (amo-Named (bitcrop ir 3 12) ((bitcrop ir 7 25) >>> 2) _)
                                      (undefined _))))))))))))))))))

-- The text of a 32-bit instruction begins with the name of the instruction that `GetCode32` finds for
-- it, whatever the width: for every word that ends in the digits 11 and for which it finds one, but
-- the system instructions, which have names of their own, and the 32-bit AMOMINU.
pub disassemble-mnemonic :
    (ir mxl : ℕ)
    → ir % 4 ≡ 3
    → get_code32 ir ≢ Instruction.error
    → get_code32 ir ≢ Instruction.system
    → get_code32 ir ≢ Instruction.amominuw
    → Begins (disassemble ir mxl) (mnemonic (get_code32 ir))
disassemble-mnemonic ir mxl long =
    (disassemble-Named ir mxl (
      let low : bit_and (bitcrop ir 7 0) 3 ≡ 3 =
        bit_and_mask 2 (bitcrop ir 7 0) ∙ omega (arith, bitcrop_lem ir 7 0 (omega arith)) in
      rw low refl)).begins
