-- ===== src/BitTools.antt =====
-- The bit helpers of bit_tools.h. A template's type `T` is its width `w` in bits, and a value is
-- its bit pattern below `2 ^ w`. The two tables are copied entry by entry.
pub mod Fields
pub mod Bits
use m99_riscv_emulator.Prelude.{
  ℕ, zero, suc, ◌+◌, ◌-◌, ◌%◌, ◌^◌, List, [], ◌∷◌, bit_and, bit_or, ◌==◌, if◌then◌else◌, u64, ◌<<<◌,
  ◌>>>◌, complement,
}
use m99_riscv_emulator.Prelude.Tables.{get_or}

-- The rounds left of the loop in `GenMask`.
gen_mask_loop : ℕ → ℕ → ℕ → ℕ
gen_mask_loop w zero mask = mask
gen_mask_loop w (suc n) mask = gen_mask_loop w n (bit_or (mask <<< 1 % 2 ^ w) 1)

unfoldable pub gen_mask : ℕ → ℕ → ℕ → ℕ
unfolding gen_mask_loop
gen_mask w size shift = gen_mask_loop w size 0 <<< shift % 2 ^ w

unfoldable pub set_bit : ℕ → ℕ → ℕ → ℕ → ℕ
set_bit w data' value pos =
    if value == 0
    then bit_and data' (complement w (1 <<< pos % 2 ^ w))
    else bit_or data' (1 <<< pos % 2 ^ w)

mask_table : List ℕ
mask_table =
    0x0 ∷ 0x01 ∷ 0x03 ∷ 0x07 ∷ 0x0F ∷ 0x01F ∷ 0x03F ∷ 0x07F ∷ 0x0FF ∷ 0x01FF ∷ 0x03FF ∷ 0x07FF
    ∷ 0x0FFF ∷ 0x01FFF ∷ 0x03FFF ∷ 0x07FFF ∷ 0x0FFFF ∷ 0x01FFFF ∷ 0x03FFFF ∷ 0x07FFFF ∷ 0x0FFFFF
    ∷ 0x01FFFFF ∷ 0x03FFFFF ∷ 0x07FFFFF ∷ 0x0FFFFFF ∷ 0x01FFFFFF ∷ 0x03FFFFFF ∷ 0x07FFFFFF
    ∷ 0x0FFFFFFF ∷ 0x01FFFFFFF ∷ 0x03FFFFFFF ∷ 0x07FFFFFFF ∷ 0x0FFFFFFFF ∷ 0x01FFFFFFFF
    ∷ 0x03FFFFFFFF ∷ 0x07FFFFFFFF ∷ 0x0FFFFFFFFF ∷ 0x01FFFFFFFFF ∷ 0x03FFFFFFFFF ∷ 0x07FFFFFFFFF
    ∷ 0x0FFFFFFFFFF ∷ 0x01FFFFFFFFFF ∷ 0x03FFFFFFFFFF ∷ 0x07FFFFFFFFFF ∷ 0x0FFFFFFFFFFF
    ∷ 0x01FFFFFFFFFFF ∷ 0x03FFFFFFFFFFF ∷ 0x07FFFFFFFFFFF ∷ 0x0FFFFFFFFFFFF ∷ 0x01FFFFFFFFFFFF
    ∷ 0x03FFFFFFFFFFFF ∷ 0x07FFFFFFFFFFFF ∷ 0x0FFFFFFFFFFFFF ∷ 0x01FFFFFFFFFFFFF ∷ 0x03FFFFFFFFFFFFF
    ∷ 0x07FFFFFFFFFFFFF ∷ 0x0FFFFFFFFFFFFFF ∷ 0x01FFFFFFFFFFFFFF ∷ 0x03FFFFFFFFFFFFFF
    ∷ 0x07FFFFFFFFFFFFFF ∷ 0x0FFFFFFFFFFFFFFF ∷ 0x01FFFFFFFFFFFFFFF ∷ 0x03FFFFFFFFFFFFFFF
    ∷ 0x07FFFFFFFFFFFFFFF ∷ 0xFFFFFFFFFFFFFFFF ∷ []

sign_mask_table : List ℕ
sign_mask_table =
    0xFFFFFFFFFFFFFFFE ∷ 0xFFFFFFFFFFFFFFFC ∷ 0xFFFFFFFFFFFFFFF8 ∷ 0xFFFFFFFFFFFFFFF0
    ∷ 0xFFFFFFFFFFFFFFE0 ∷ 0xFFFFFFFFFFFFFFC0 ∷ 0xFFFFFFFFFFFFFF80 ∷ 0xFFFFFFFFFFFFFF00
    ∷ 0xFFFFFFFFFFFFFE00 ∷ 0xFFFFFFFFFFFFFC00 ∷ 0xFFFFFFFFFFFFF800 ∷ 0xFFFFFFFFFFFFF000
    ∷ 0xFFFFFFFFFFFFE000 ∷ 0xFFFFFFFFFFFFC000 ∷ 0xFFFFFFFFFFFF8000 ∷ 0xFFFFFFFFFFFF0000
    ∷ 0xFFFFFFFFFFFE0000 ∷ 0xFFFFFFFFFFFC0000 ∷ 0xFFFFFFFFFFF80000 ∷ 0xFFFFFFFFFFF00000
    ∷ 0xFFFFFFFFFFE00000 ∷ 0xFFFFFFFFFFC00000 ∷ 0xFFFFFFFFFF800000 ∷ 0xFFFFFFFFFF000000
    ∷ 0xFFFFFFFFFE000000 ∷ 0xFFFFFFFFFC000000 ∷ 0xFFFFFFFFF8000000 ∷ 0xFFFFFFFFF0000000
    ∷ 0xFFFFFFFFE0000000 ∷ 0xFFFFFFFFC0000000 ∷ 0xFFFFFFFF80000000 ∷ 0xFFFFFFFF00000000
    ∷ 0xFFFFFFFE00000000 ∷ 0xFFFFFFFC00000000 ∷ 0xFFFFFFF800000000 ∷ 0xFFFFFFF000000000
    ∷ 0xFFFFFFE000000000 ∷ 0xFFFFFFC000000000 ∷ 0xFFFFFF8000000000 ∷ 0xFFFFFF0000000000
    ∷ 0xFFFFFE0000000000 ∷ 0xFFFFFC0000000000 ∷ 0xFFFFF80000000000 ∷ 0xFFFFF00000000000
    ∷ 0xFFFFE00000000000 ∷ 0xFFFFC00000000000 ∷ 0xFFFF800000000000 ∷ 0xFFFF000000000000
    ∷ 0xFFFE000000000000 ∷ 0xFFFC000000000000 ∷ 0xFFF8000000000000 ∷ 0xFFF0000000000000
    ∷ 0xFFE0000000000000 ∷ 0xFFC0000000000000 ∷ 0xFF80000000000000 ∷ 0xFF00000000000000
    ∷ 0xFE00000000000000 ∷ 0xFC00000000000000 ∷ 0xF800000000000000 ∷ 0xF000000000000000
    ∷ 0xE000000000000000 ∷ 0xC000000000000000 ∷ 0x8000000000000000 ∷ 0x0000000000000000 ∷ []

-- The program reads the tables below their ends, 65 and 64.
unfoldable pub mask : ℕ → ℕ
unfolding mask_table
mask i = get_or mask_table i 0

unfoldable pub sign_mask : ℕ → ℕ
unfolding sign_mask_table
sign_mask i = get_or sign_mask_table i 0

unfoldable pub bit_shift : ℕ → ℕ → ℕ → ℕ → ℕ → ℕ
unfolding mask
bit_shift w val width offset distpos = bit_and (val >>> offset) (mask width) <<< distpos % 2 ^ w

unfoldable pub bitcrop : ℕ → ℕ → ℕ → ℕ
bitcrop val width offset = bit_and (val >>> offset) (mask width)

-- The mask, a `uint64_t`, is cut to `T` by the compound assignment.
unfoldable pub sign_extend : ℕ → ℕ → ℕ → ℕ
sign_extend w value width =
    if bit_and (value >>> (width - 1)) 1 == 0
    then bit_and value (complement 64 (sign_mask (width - 1)) % 2 ^ w)
    else bit_or value (sign_mask (width - 1) % 2 ^ w)

-- `bitset` at its one instance, `uint64_t`.
unfoldable pub bitset : ℕ → ℕ → ℕ → ℕ → ℕ
bitset reg width offset val =
    let new_reg = bit_and reg (bit_or (complement 64 (mask (width + offset))) (mask offset)) in
    bit_or new_reg (u64 (bit_and val (mask width) <<< offset))
