-- ===== src/Encdec/BType.antt =====
-- `BType` of instruction_encdec.cc.
use m99_riscv_emulator.Prelude.{
  ℕ, ◌+◌, ◌-◌, ◌*◌, ◌/◌, ◌%◌, ◌^◌, ◌<◌, ◌≤◌, ◌≡◌, ap, ◌∙◌, arith, bit_or, u32, ◌<<<◌, ◌==◌,
  if◌then◌else◌,
}
use m99_riscv_emulator.Prelude.Bits.{bit_or_sum, zero-bit_or}
use m99_riscv_emulator.BitTools.{bitcrop, sign_extend}
use m99_riscv_emulator.BitTools.Fields.{bitcrop_lem, sign_extend_lem}
use m99_riscv_emulator.Encdec.{BitField, get_imm13}
use m99_riscv_emulator.Encdec.Immediates.{slice, get_imm13_lem}

pub record BType : Type 0 where
  pub base : BitField
  pub imm13 : ℕ

unfoldable pub get_value : BType → ℕ
get_value f =
    let imm12_1 = bitcrop (sign_extend 16 f.imm13 13) 1 12 in
    let imm10_5_6 = bitcrop (sign_extend 16 f.imm13 13) 6 5 in
    let imm4_1_4 = bitcrop (sign_extend 16 f.imm13 13) 4 1 in
    let imm11_1 = bitcrop (sign_extend 16 f.imm13 13) 1 11 in
    bit_or
      (bit_or (bit_or (0) (bit_or (u32 (imm12_1 <<< 31)) (u32 (imm10_5_6 <<< 25))))
        (bit_or (f.base.rs2 <<< 20) (f.base.rs1 <<< 15)))
      (bit_or (bit_or (bit_or (f.base.funct3 <<< 12) (imm4_1_4 <<< 8)) (imm11_1 <<< 7))
        (f.base.opcode))

-- The fields that the function does not write keep their value.
unfoldable pub set_value : BType → ℕ → BType
set_value old value = record {
  base = record {
    opcode = bitcrop value 7 0;
    rd = old.base.rd;
    rs2 = bitcrop value 5 20;
    rs1 = bitcrop value 5 15;
    funct3 = bitcrop value 3 12;
  };
  imm13 = get_imm13 value % 2 ^ 13;
}

-- The fields of the immediate that the object holds, of 13 digits.
held :
    (v width offset : ℕ)
    → v < 2 ^ 13
    → width ≤ 64
    → bitcrop (sign_extend 16 v 13) width offset
      ≡ slice (v + (if v / 2 ^ (13 - 1) == 0 then 0 else 2 ^ 16 - 2 ^ 13)) width offset
held v width offset h fits =
    bitcrop_lem _ width offset fits
    ∙ ap (λ (t : ℕ). slice t width offset)
        (ground
          (arith, sign_extend_lem 16 v 13 (omega arith) (omega arith) (omega arith) (omega arith)))

module _ (value : ℕ) where
  b12 : bitcrop (sign_extend 16 (get_imm13 value % 2 ^ 13) 13) 1 12 ≡ slice value 1 31
  b12 =
      rw (held (get_imm13 value % 2 ^ 13) 1 12 (omega arith) (omega arith), get_imm13_lem value)
        (ground arith)

  b10 : bitcrop (sign_extend 16 (get_imm13 value % 2 ^ 13) 13) 6 5 ≡ slice value 6 25
  b10 =
      rw (held (get_imm13 value % 2 ^ 13) 6 5 (omega arith) (omega arith), get_imm13_lem value)
        (ground arith)

  b4 : bitcrop (sign_extend 16 (get_imm13 value % 2 ^ 13) 13) 4 1 ≡ slice value 4 8
  b4 =
      rw (held (get_imm13 value % 2 ^ 13) 4 1 (omega arith) (omega arith), get_imm13_lem value)
        (ground arith)

  b11 : bitcrop (sign_extend 16 (get_imm13 value % 2 ^ 13) 13) 1 11 ≡ slice value 1 7
  b11 =
      rw (held (get_imm13 value % 2 ^ 13) 1 11 (omega arith) (omega arith), get_imm13_lem value)
        (ground arith)

-- Every word below `2 ^ 32` is the encoding of the fields that are read from it, whatever the
-- object held.
get_value-set_value_btype :
    (old : BType) (value : ℕ) → value < 2 ^ 32 → get_value (set_value old value) ≡ value
unfolding get_value set_value
get_value-set_value_btype old value h =
    rw
      (
        b12 value,
        b10 value,
        b4 value,
        b11 value,
        bitcrop_lem value 5 20 (omega arith),
        bitcrop_lem value 5 15 (omega arith),
        bitcrop_lem value 3 12 (omega arith),
        bitcrop_lem value 7 0 (omega arith),
      )
      (rw
        (
          bit_or_sum 31 (u32 (slice value 1 31 * 2 ^ 31)) (u32 (slice value 6 25 * 2 ^ 25))
              (omega arith) (omega arith),
          zero-bit_or (u32 (slice value 1 31 * 2 ^ 31) + u32 (slice value 6 25 * 2 ^ 25)),
          bit_or_sum 20 (slice value 5 20 * 2 ^ 20) (slice value 5 15 * 2 ^ 15) (omega arith)
              (omega arith),
          bit_or_sum 25 (u32 (slice value 1 31 * 2 ^ 31) + u32 (slice value 6 25 * 2 ^ 25))
              (slice value 5 20 * 2 ^ 20 + slice value 5 15 * 2 ^ 15) (omega arith) (omega arith),
          bit_or_sum 12 (slice value 3 12 * 2 ^ 12) (slice value 4 8 * 2 ^ 8) (omega arith)
              (omega arith),
          bit_or_sum 8 (slice value 3 12 * 2 ^ 12 + slice value 4 8 * 2 ^ 8)
              (slice value 1 7 * 2 ^ 7) (omega arith) (omega arith),
          bit_or_sum 7
              (slice value 3 12 * 2 ^ 12 + slice value 4 8 * 2 ^ 8 + slice value 1 7 * 2 ^ 7)
              (slice value 7 0) (omega arith) (omega arith),
          bit_or_sum 15
              (u32 (slice value 1 31 * 2 ^ 31)
                + u32 (slice value 6 25 * 2 ^ 25)
                + (slice value 5 20 * 2 ^ 20 + slice value 5 15 * 2 ^ 15))
              (slice value 3 12 * 2 ^ 12
                + slice value 4 8 * 2 ^ 8
                + slice value 1 7 * 2 ^ 7
                + slice value 7 0)
              (omega arith) (omega arith),
        )
        (omega arith))
