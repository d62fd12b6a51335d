-- ===== src/Cpu/Registers.antt =====
-- The register operations on words of 32 bits, against their meaning on the low halves.
use m99_riscv_emulator.Prelude.{
  ℕ, ◌+◌, ◌-◌, ◌*◌, ◌/◌, ◌%◌, ◌^◌, ◌<◌, ◌≡◌, refl, sym, ap, ◌∙◌, arith, ltb, if◌then◌else◌,
}
use m99_riscv_emulator.Prelude.Bits.{bit_and_mask, bit_or_high}
use native.Mathlib.Nat.{div-add-mod', add-mul-mod_self_right}
use m99_riscv_emulator.Isa.{Instruction}
use m99_riscv_emulator.Cpu.{sext32bit}

-- The word of 64 bits with the value of a signed word of 32.
abbrev pub sign_copy : ℕ → ℕ
sign_copy v = if ltb v (2 ^ 31) then v else v + (2 ^ 64 - 2 ^ 32)

pub sext32bit_lem : (d : ℕ) → d < 2 ^ 64 → sext32bit d ≡ sign_copy (d % 2 ^ 32)
unfolding sext32bit
sext32bit_lem d h =
    ground (arith, bit_and_mask 1 (d / 2 ^ 31), bit_and_mask 32 d, bit_or_high 32 32 d h)

pub sext_of : (d v : ℕ) → d < 2 ^ 64 → d % 2 ^ 32 ≡ v → sext32bit d ≡ sign_copy v
sext_of d v h e = rw (sext32bit_lem d h, e) refl

-- The operation of each W instruction on two words of 32 bits.
unfoldable pub word_operation : Instruction → ℕ → ℕ → ℕ
word_operation Instruction.addw a b = (a + b) % 2 ^ 32
word_operation Instruction.subw a b = (a + (2 ^ 32 - b)) % 2 ^ 32
word_operation Instruction.sllw a b = a * 2 ^ (b % 32) % 2 ^ 32
word_operation Instruction.srlw a b = a / 2 ^ (b % 32)
word_operation Instruction.sraw a b =
    a / 2 ^ (b % 32) + (if ltb a (2 ^ 31) then 0 else 2 ^ 32 - 2 ^ (32 - b % 32))
word_operation _ a b = 0

-- Multiplying the low half multiplies the low half of the product.
pub low_mul : (a p : ℕ) → a * p % 2 ^ 32 ≡ a % 2 ^ 32 * p % 2 ^ 32
low_mul a p =
    let cut : a * p ≡ a % 2 ^ 32 * p + a / 2 ^ 32 * p * 2 ^ 32 =
      ap (λ (t : ℕ). t * p) (sym (div-add-mod' a (2 ^ 32)))
      ∙ distributed (a / 2 ^ 32) (a % 2 ^ 32) in
    rw cut (add-mul-mod_self_right (a % 2 ^ 32 * p) (a / 2 ^ 32 * p) (2 ^ 32))
  where
    distributed : (h l : ℕ) → (h * 2 ^ 32 + l) * p ≡ l * p + h * p * 2 ^ 32
    distributed h l = omega arith

module _ (a b : ℕ) (ha : a < 2 ^ 64) where
  abbrev place : ℕ
  place = b % 2 ^ 32 % 32
