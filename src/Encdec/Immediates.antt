-- ===== src/Encdec/Immediates.antt =====
-- The immediates as sums of their fields.
use m99_riscv_emulator.Prelude.{
  ℕ, ◌+◌, ◌-◌, ◌*◌, ◌/◌, ◌%◌, ◌^◌, ◌≤◌, ◌<◌, ◌≡◌, refl, ◌∙◌, ap, arith, ◌==◌, ◌||◌, if◌then◌else◌,
  bit_or, bit_and, ◌<<<◌, u32,
}
use m99_riscv_emulator.Prelude.Bits.{
  bit_or_sum, bit_or_fields, bit_or-zero, bit_or_comm, bit_and_mask,
}
use m99_riscv_emulator.BitTools.{bitcrop, bit_shift}
use m99_riscv_emulator.BitTools.Fields.{bitcrop_lem, sign_extend_lem, mask_lem}
use m99_riscv_emulator.Isa.Opcodes.{
  opcode_arithlog_i, opcode_arithlog_i64, opcode_b, opcode_lui, opcode_auipc, opcode_j, opcode_s,
  func3_sl, func3_sr,
}
use m99_riscv_emulator.Encdec.{get_imm, get_imm12, get_imm13, get_imm20, get_imm21, get_stype_imm12}

-- `width` digits of `ir` from `offset` on.
abbrev pub slice : ℕ → ℕ → ℕ → ℕ
slice ir width offset = ir / 2 ^ offset % 2 ^ width

-- A pattern of `width` digits, read as a signed number and written with 32 digits.
abbrev pub signed : ℕ → ℕ → ℕ
signed width v = v + (if v / 2 ^ (width - 1) == 0 then 0 else 2 ^ 32 - 2 ^ width)

pub get_imm12_lem : (ir : ℕ) → get_imm12 ir ≡ signed 12 (slice ir 12 20)
unfolding get_imm12
get_imm12_lem ir = ground (
  arith,
  bitcrop_lem ir 12 20 (omega arith),
  sign_extend_lem 32 (bitcrop ir 12 20) 12 (omega arith) (omega arith) (omega arith)
      (omega (arith, bitcrop_lem ir 12 20 (omega arith))),
)

pub get_stype_imm12_lem :
    (ir : ℕ) → get_stype_imm12 ir ≡ signed 12 (slice ir 7 25 * 2 ^ 5 + slice ir 5 7)
unfolding get_stype_imm12
get_stype_imm12_lem ir =
    rw
      (
        bitcrop_lem ir 7 25 (omega arith),
        bitcrop_lem ir 5 7 (omega arith),
        bit_or_sum 5 (slice ir 7 25 <<< 5) (slice ir 5 7) (omega arith) (omega arith),
      )
      (ground (
        arith,
        sign_extend_lem 32 (slice ir 7 25 * 2 ^ 5 + slice ir 5 7) 12 (omega arith) (omega arith)
            (omega arith) (omega arith),
      ))

pub get_imm20_lem : (ir : ℕ) → get_imm20 ir ≡ signed 20 (slice ir 20 12)
unfolding get_imm20
get_imm20_lem ir = rw (bitcrop_lem ir 20 12 (omega arith)) (
    ground (
      arith,
      sign_extend_lem 32 (slice ir 20 12) 20 (omega arith) (omega arith) (omega arith)
          (omega arith),
    ))

-- The offset of a branch, a multiple of 2.
abbrev pub branch_field : ℕ → ℕ
branch_field ir =
    slice ir 1 31 * 2 ^ 12 + slice ir 1 7 * 2 ^ 11 + slice ir 6 25 * 2 ^ 5 + slice ir 4 8 * 2

bit_shift_lem :
    (ir width offset distpos : ℕ)
    → width ≤ 64
    → bit_shift 32 ir width offset distpos ≡ slice ir width offset * 2 ^ distpos % 2 ^ 32
unfolding bit_shift
bit_shift_lem ir width offset distpos h =
    rw (mask_lem width h, bit_and_mask width (ir / 2 ^ offset)) refl

join_branch :
    (a b c d : ℕ)
    → a < 2
    → b < 64
    → c < 16
    → d < 2
    → bit_or (bit_or (a * 2 ^ 12) (b * 2 ^ 5)) (bit_or (c * 2) (d * 2 ^ 11))
      ≡ a * 2 ^ 12 + d * 2 ^ 11 + b * 2 ^ 5 + c * 2
join_branch a b c d ha hb hc hd =
    rw
      (
        bit_or_sum 12 (a * 2 ^ 12) (b * 2 ^ 5) (omega arith) (omega arith),
        bit_or_comm (c * 2) (d * 2 ^ 11),
        bit_or_sum 11 (d * 2 ^ 11) (c * 2) (omega arith) (omega arith),
      )
      (ap (bit_or (a * 2 ^ 12 + b * 2 ^ 5)) {y = 0 * 2 ^ 12 + (d * 2 ^ 11 + c * 2)} (omega arith)
        ∙ bit_or_fields 12 a 0 (b * 2 ^ 5) (d * 2 ^ 11 + c * 2) (omega arith) (omega arith)
        ∙ rw (bit_or-zero a, bit_or_comm (b * 2 ^ 5) (d * 2 ^ 11 + c * 2))
            (ap (λ (t : ℕ). a * 2 ^ 12 + t) inner ∙ omega arith))
  where
    inner : bit_or (d * 2 ^ 11 + c * 2) (b * 2 ^ 5) ≡ d * 2 ^ 11 + (b * 2 ^ 5 + c * 2)
    inner =
        ap (bit_or (d * 2 ^ 11 + c * 2)) {y = 0 * 2 ^ 11 + b * 2 ^ 5} (omega arith)
        ∙ bit_or_fields 11 d 0 (c * 2) (b * 2 ^ 5) (omega arith) (omega arith)
        ∙ rw
            (
              bit_or-zero d,
              bit_or_comm (c * 2) (b * 2 ^ 5),
              bit_or_sum 5 (b * 2 ^ 5) (c * 2) (omega arith) (omega arith),
            )
            refl

pub get_imm13_lem : (ir : ℕ) → get_imm13 ir ≡ signed 13 (branch_field ir)
unfolding get_imm13
get_imm13_lem ir =
    let shifted : (w o p : ℕ)
        → w ≤ 64
        → slice ir w o * 2 ^ p < 2 ^ 32
        → bit_shift 32 ir w o p ≡ slice ir w o * 2 ^ p =
      λ w o p h below. bit_shift_lem ir w o p h ∙ omega arith in
    rw
      (
        shifted 1 31 12 (omega arith) (omega arith),
        shifted 6 25 5 (omega arith) (omega arith),
        shifted 4 8 1 (omega arith) (omega arith),
        shifted 1 7 11 (omega arith) (omega arith),
        join_branch (slice ir 1 31) (slice ir 6 25) (slice ir 4 8) (slice ir 1 7) (omega arith)
            (omega arith) (omega arith) (omega arith),
      )
      (ground (
        arith,
        sign_extend_lem 32 (branch_field ir) 13 (omega arith) (omega arith) (omega arith)
            (omega arith),
      ))

-- The offset of a jump, a multiple of 2.
abbrev pub jump_field : ℕ → ℕ
jump_field ir =
    slice ir 1 31 * 2 ^ 20 + slice ir 8 12 * 2 ^ 12 + slice ir 1 20 * 2 ^ 11 + slice ir 10 21 * 2

pub get_imm21_lem : (ir : ℕ) → get_imm21 ir ≡ signed 21 (jump_field ir)
unfolding get_imm21
get_imm21_lem ir =
    rw
      (
        bitcrop_lem ir 1 31 (omega arith),
        bitcrop_lem ir 8 12 (omega arith),
        bitcrop_lem ir 1 20 (omega arith),
        bitcrop_lem ir 10 21 (omega arith),
      )
      (rw
        (
          bit_or_sum 20 (slice ir 1 31 * 2 ^ 20) (slice ir 8 12 * 2 ^ 12) (omega arith)
              (omega arith),
          bit_or_sum 12 (slice ir 1 31 * 2 ^ 20 + slice ir 8 12 * 2 ^ 12) (slice ir 1 20 * 2 ^ 11)
              (omega arith) (omega arith),
          bit_or_sum 11 (slice ir 1 31 * 2 ^ 20 + slice ir 8 12 * 2 ^ 12 + slice ir 1 20 * 2 ^ 11)
              (slice ir 10 21 * 2) (omega arith) (omega arith),
        )
        (ground (
          arith,
          sign_extend_lem 32 (jump_field ir) 21 (omega arith) (omega arith) (omega arith)
              (omega arith),
        )))

-- The immediate that the instruction's format puts in the word.
abbrev pub immediate : ℕ → ℕ
immediate ir =
    let opcode = slice ir 7 0 in
    let funct3 = slice ir 3 12 in
    if opcode == opcode_arithlog_i || opcode == opcode_arithlog_i64
    then if funct3 == func3_sl || funct3 == func3_sr
      then slice ir 6 20
      else signed 12 (slice ir 12 20)
    else if opcode == opcode_b
    then signed 13 (branch_field ir)
    else if opcode == opcode_lui || opcode == opcode_auipc
    then slice ir 20 12 * 2 ^ 12
    else if opcode == opcode_j
    then signed 21 (jump_field ir)
    else if opcode == opcode_s
    then signed 12 (slice ir 7 25 * 2 ^ 5 + slice ir 5 7)
    else signed 12 (slice ir 12 20)

-- For every word, `get_imm` is the immediate of the word's format: the fields that the format
-- scatters over the word in their places, with the sign copied (the upper immediate of LUI and
-- AUIPC shifted by 12, the shift amounts six digits without a sign).
pub get_imm_lem : (ir : ℕ) → get_imm ir ≡ immediate ir
unfolding get_imm
get_imm_lem ir =
    let shifted : bit_and (signed 12 (slice ir 12 20)) 0b111111 ≡ slice ir 6 20 =
      bit_and_mask 6 (signed 12 (slice ir 12 20)) ∙ ground arith in
    let upper : u32 (signed 20 (slice ir 20 12) <<< 12) ≡ slice ir 20 12 * 2 ^ 12 = ground arith in
    rw
      (
        bitcrop_lem ir 7 0 (omega arith),
        bitcrop_lem ir 3 12 (omega arith),
        get_imm12_lem ir,
        get_imm13_lem ir,
        get_imm20_lem ir,
        get_imm21_lem ir,
        get_stype_imm12_lem ir,
      )
      (rw (shifted, upper) refl)
