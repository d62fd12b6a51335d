-- ===== src/Encdec/JType.antt =====
-- `JType` of instruction_encdec.cc.
use m99_riscv_emulator.Prelude.{
  ℕ, ◌+◌, ◌-◌, ◌*◌, ◌/◌, ◌%◌, ◌^◌, ◌<◌, ◌≤◌, ◌≡◌, ap, ◌∙◌, arith, bit_or, u32, ◌<<<◌, ◌==◌,
  if◌then◌else◌,
}
use m99_riscv_emulator.Prelude.Bits.{bit_or_sum, zero-bit_or}
use m99_riscv_emulator.BitTools.{bitcrop, sign_extend}
use m99_riscv_emulator.BitTools.Fields.{bitcrop_lem, sign_extend_lem}
use m99_riscv_emulator.Encdec.{BitField, get_imm21}
use m99_riscv_emulator.Encdec.Immediates.{slice, get_imm21_lem}

pub record JType : Type 0 where
  pub base : BitField
  pub imm21 : ℕ

unfoldable pub get_value : JType → ℕ
get_value f =
    let imm20_1 = bitcrop (sign_extend 32 f.imm21 21) 1 20 in
    let imm10_1_10 = bitcrop (sign_extend 32 f.imm21 21) 10 1 in
    let imm11_1 = bitcrop (sign_extend 32 f.imm21 21) 1 11 in
    let imm19_12 = bitcrop (sign_extend 32 f.imm21 21) 8 12 in
    bit_or
      (bit_or (0) (
        bit_or (bit_or (bit_or (u32 (imm20_1 <<< 31)) (u32 (imm10_1_10 <<< 21))) (imm11_1 <<< 20))
          (imm19_12 <<< 12)))
      (bit_or (f.base.rd <<< 7) (f.base.opcode))

-- The fields that the function does not write keep their value.
unfoldable pub set_value : JType → ℕ → JType
set_value old value = record {
  base = record {
    opcode = bitcrop value 7 0;
    rd = bitcrop value 5 7;
    rs2 = old.base.rs2;
    rs1 = old.base.rs1;
    funct3 = old.base.funct3;
  };
  imm21 = get_imm21 value % 2 ^ 21;
}

-- The fields of the immediate that the object holds, of 21 digits.
held :
    (v width offset : ℕ)
    → v < 2 ^ 21
    → width ≤ 64
    → bitcrop (sign_extend 32 v 21) width offset
      ≡ slice (v + (if v / 2 ^ (21 - 1) == 0 then 0 else 2 ^ 32 - 2 ^ 21)) width offset
held v width offset h fits =
    bitcrop_lem _ width offset fits
    ∙ ap (λ (t : ℕ). slice t width offset)
        (ground
          (arith, sign_extend_lem 32 v 21 (omega arith) (omega arith) (omega arith) (omega arith)))

module _ (value : ℕ) where
  j20 : bitcrop (sign_extend 32 (get_imm21 value % 2 ^ 21) 21) 1 20 ≡ slice value 1 31
  j20 =
      rw (held (get_imm21 value % 2 ^ 21) 1 20 (omega arith) (omega arith), get_imm21_lem value)
        (ground arith)

  j10 : bitcrop (sign_extend 32 (get_imm21 value % 2 ^ 21) 21) 10 1 ≡ slice value 10 21
  j10 =
      rw (held (get_imm21 value % 2 ^ 21) 10 1 (omega arith) (omega arith), get_imm21_lem value)
        (ground arith)

  j11 : bitcrop (sign_extend 32 (get_imm21 value % 2 ^ 21) 21) 1 11 ≡ slice value 1 20
  j11 =
      rw (held (get_imm21 value % 2 ^ 21) 1 11 (omega arith) (omega arith), get_imm21_lem value)
        (ground arith)

  j19 : bitcrop (sign_extend 32 (get_imm21 value % 2 ^ 21) 21) 8 12 ≡ slice value 8 12
  j19 =
      rw (held (get_imm21 value % 2 ^ 21) 8 12 (omega arith) (omega arith), get_imm21_lem value)
        (ground arith)

-- Every word below `2 ^ 32` is the encoding of the fields that are read from it, whatever the
-- object held.
get_value-set_value_jtype :
    (old : JType) (value : ℕ) → value < 2 ^ 32 → get_value (set_value old value) ≡ value
unfolding get_value set_value
get_value-set_value_jtype old value h =
    rw
      (
        j20 value,
        j10 value,
        j11 value,
        j19 value,
        bitcrop_lem value 5 7 (omega arith),
        bitcrop_lem value 7 0 (omega arith),
      )
      (rw
        (
          bit_or_sum 31 (u32 (slice value 1 31 * 2 ^ 31)) (u32 (slice value 10 21 * 2 ^ 21))
              (omega arith) (omega arith),
          bit_or_sum 21 (u32 (slice value 1 31 * 2 ^ 31) + u32 (slice value 10 21 * 2 ^ 21))
              (slice value 1 20 * 2 ^ 20) (omega arith) (omega arith),
          bit_or_sum 20
              (u32 (slice value 1 31 * 2 ^ 31)
                + u32 (slice value 10 21 * 2 ^ 21)
                + slice value 1 20 * 2 ^ 20)
              (slice value 8 12 * 2 ^ 12) (omega arith) (omega arith),
          zero-bit_or (
              u32 (slice value 1 31 * 2 ^ 31)
              + u32 (slice value 10 21 * 2 ^ 21)
              + slice value 1 20 * 2 ^ 20
              + slice value 8 12 * 2 ^ 12),
          bit_or_sum 7 (slice value 5 7 * 2 ^ 7) (slice value 7 0) (omega arith) (omega arith),
          bit_or_sum 12
              (u32 (slice value 1 31 * 2 ^ 31)
                + u32 (slice value 10 21 * 2 ^ 21)
                + slice value 1 20 * 2 ^ 20
                + slice value 8 12 * 2 ^ 12)
              (slice value 5 7 * 2 ^ 7 + slice value 7 0) (omega arith) (omega arith),
        )
        (omega arith))
