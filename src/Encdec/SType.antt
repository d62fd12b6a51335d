-- ===== src/Encdec/SType.antt =====
-- `SType` of instruction_encdec.cc.
use m99_riscv_emulator.Prelude.{
  ℕ, ◌+◌, ◌-◌, ◌*◌, ◌/◌, ◌%◌, ◌^◌, ◌<◌, ◌≤◌, ◌≡◌, ap, ◌∙◌, arith, bit_or, u32, ◌<<<◌, ◌==◌,
  if◌then◌else◌,
}
use m99_riscv_emulator.Prelude.Bits.{bit_or_sum, zero-bit_or}
use m99_riscv_emulator.BitTools.{bitcrop, sign_extend}
use m99_riscv_emulator.BitTools.Fields.{bitcrop_lem, sign_extend_lem}
use m99_riscv_emulator.Encdec.{BitField, get_stype_imm12}
use m99_riscv_emulator.Encdec.Immediates.{slice, get_stype_imm12_lem}

pub record SType : Type 0 where
  pub base : BitField
  pub imm12 : ℕ

unfoldable pub get_value : SType → ℕ
get_value f =
    let imm11_5_7 = bitcrop (sign_extend 16 f.imm12 12) 7 5 in
    let imm4_0_5 = bitcrop (sign_extend 16 f.imm12 12) 5 0 in
    bit_or
      (bit_or (0)
        (bit_or (bit_or (u32 (imm11_5_7 <<< 25)) (f.base.rs2 <<< 20)) (f.base.rs1 <<< 15)))
      (bit_or (bit_or (f.base.funct3 <<< 12) (imm4_0_5 <<< 7)) (f.base.opcode))

-- The fields that the function does not write keep their value.
unfoldable pub set_value : SType → ℕ → SType
set_value old value = record {
  base = record {
    opcode = bitcrop value 7 0;
    rd = old.base.rd;
    rs2 = bitcrop value 5 20;
    rs1 = bitcrop value 5 15;
    funct3 = bitcrop value 3 12;
  };
  imm12 = get_stype_imm12 value % 2 ^ 12;
}

-- The fields of the immediate that the object holds, of 12 digits.
held :
    (v width offset : ℕ)
    → v < 2 ^ 12
    → width ≤ 64
    → bitcrop (sign_extend 16 v 12) width offset
      ≡ slice (v + (if v / 2 ^ (12 - 1) == 0 then 0 else 2 ^ 16 - 2 ^ 12)) width offset
held v width offset h fits =
    bitcrop_lem _ width offset fits
    ∙ ap (λ (t : ℕ). slice t width offset)
        (ground
          (arith, sign_extend_lem 16 v 12 (omega arith) (omega arith) (omega arith) (omega arith)))

module _ (value : ℕ) where
  s7 : bitcrop (sign_extend 16 (get_stype_imm12 value % 2 ^ 12) 12) 7 5 ≡ slice value 7 25
  s7 =
      rw
        (
          held (get_stype_imm12 value % 2 ^ 12) 7 5 (omega arith) (omega arith),
          get_stype_imm12_lem value,
        )
        (ground arith)

  s5 : bitcrop (sign_extend 16 (get_stype_imm12 value % 2 ^ 12) 12) 5 0 ≡ slice value 5 7
  s5 =
      rw
        (
          held (get_stype_imm12 value % 2 ^ 12) 5 0 (omega arith) (omega arith),
          get_stype_imm12_lem value,
        )
        (ground arith)

-- Every word below `2 ^ 32` is the encoding of the fields that are read from it, whatever the
-- object held.
get_value-set_value_stype :
    (old : SType) (value : ℕ) → value < 2 ^ 32 → get_value (set_value old value) ≡ value
unfolding get_value set_value
get_value-set_value_stype old value h =
    rw
      (
        s7 value,
        s5 value,
        bitcrop_lem value 5 20 (omega arith),
        bitcrop_lem value 5 15 (omega arith),
        bitcrop_lem value 3 12 (omega arith),
        bitcrop_lem value 7 0 (omega arith),
      )
      (rw
        (
          bit_or_sum 25 (u32 (slice value 7 25 * 2 ^ 25)) (slice value 5 20 * 2 ^ 20) (omega arith)
              (omega arith),
          bit_or_sum 20 (u32 (slice value 7 25 * 2 ^ 25) + slice value 5 20 * 2 ^ 20)
              (slice value 5 15 * 2 ^ 15) (omega arith) (omega arith),
          zero-bit_or (
              u32 (slice value 7 25 * 2 ^ 25)
              + slice value 5 20 * 2 ^ 20
              + slice value 5 15 * 2 ^ 15),
          bit_or_sum 12 (slice value 3 12 * 2 ^ 12) (slice value 5 7 * 2 ^ 7) (omega arith)
              (omega arith),
          bit_or_sum 7 (slice value 3 12 * 2 ^ 12 + slice value 5 7 * 2 ^ 7) (slice value 7 0)
              (omega arith) (omega arith),
          bit_or_sum 15
              (u32 (slice value 7 25 * 2 ^ 25)
                + slice value 5 20 * 2 ^ 20
                + slice value 5 15 * 2 ^ 15)
              (slice value 3 12 * 2 ^ 12 + slice value 5 7 * 2 ^ 7 + slice value 7 0) (omega arith)
              (omega arith),
        )
        (omega arith))
