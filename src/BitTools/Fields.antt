-- ===== src/BitTools/Fields.antt =====
-- What the bit helpers of bit_tools.h compute, as arithmetic.
use m99_riscv_emulator.Prelude.{
  ℕ, ◌+◌, ◌-◌, ◌*◌, ◌/◌, ◌%◌, ◌^◌, ◌≤◌, ◌<◌, ◌≡◌, refl, ◌∙◌, u64, ◌<<<◌, arith, bit_and, bit_or,
  Bool, true, Bool-cases, inl, inr, ◌&&◌, complement, ◌==◌, ==_iff, if◌then◌else◌,
}
use m99_riscv_emulator.Prelude.Tables.{all_below, all_below_sound}
use native.Mathlib.Nat.{mod-lt, mod-eq_of_lt, le_trans, mul-lt-mul_of_pos_right, pow-le-pow_right}
use m99_riscv_emulator.Prelude.Bits.{
  bit_or-lt, bit_and-lt, bit_and_mask, bit_or_high, pow_pos, pow_add, upper-fields, replace_field,
  lower-fields,
}
use m99_riscv_emulator.BitTools.{mask, sign_mask, bitcrop, sign_extend, bitset}

mask_checked : all_below 65 (λ k. mask k == 2 ^ k - 1) ≡ true
unfolding all_below mask
mask_checked = refl

sign_mask_checked : all_below 64 (λ k. sign_mask k == 2 ^ 64 - 2 ^ (k + 1)) ≡ true
unfolding all_below sign_mask
sign_mask_checked = refl

-- Entry `k` of the first table is `k` ones.
pub mask_lem : (k : ℕ) → k ≤ 64 → mask k ≡ 2 ^ k - 1
mask_lem k h = (==_iff _ _).0 (all_below_sound 65 _ k mask_checked (omega arith))

-- Entry `k` of the second table clears the low `k + 1` of 64 digits.
pub sign_mask_lem : (k : ℕ) → k < 64 → sign_mask k ≡ 2 ^ 64 - 2 ^ (k + 1)
sign_mask_lem k h = (==_iff _ _).0 (all_below_sound 64 _ k sign_mask_checked h)

-- `bitcrop` is the field of `width` digits at `offset`.
pub bitcrop_lem :
    (val width offset : ℕ) → width ≤ 64 → bitcrop val width offset ≡ val / 2 ^ offset % 2 ^ width
unfolding bitcrop
bitcrop_lem val width offset h = rw (mask_lem width h) (bit_and_mask width (val / 2 ^ offset))

-- The two masks of `SignExtend`, cut to a type of `w` digits, at every width up to 64.
cut_masks : (w k : ℕ) → Bool
cut_masks w k =
    ((2 ^ 64 - 2 ^ k) % 2 ^ w == 2 ^ w - 2 ^ k)
    && (complement 64 (2 ^ 64 - 2 ^ k) % 2 ^ w == 2 ^ k - 1)

cut_masks_checked : all_below 65 (λ w. all_below (w + 1) (cut_masks w)) ≡ true
unfolding all_below cut_masks
cut_masks_checked = refl

cut_masks_lem :
    (w k : ℕ)
    → w ≤ 64
    → k ≤ w
    → ((2 ^ 64 - 2 ^ k) % 2 ^ w ≡ 2 ^ w - 2 ^ k)
      × (complement 64 (2 ^ 64 - 2 ^ k) % 2 ^ w ≡ 2 ^ k - 1)
unfolding cut_masks
cut_masks_lem w k hw hk = ground (arith, all_below_sound (w + 1) (cut_masks w) k row (omega arith))
  where
    row : all_below (w + 1) (cut_masks w) ≡ true
    row =
        all_below_sound 65 (λ v. all_below (v + 1) (cut_masks v)) w cut_masks_checked (omega arith)

-- For a type of at most 64 digits, a value of it and a width inside it that is not zero:
-- `SignExtend` keeps the low `width` digits, and makes the digits above zeros or, where the highest
-- of the low digits is set, ones.
pub sign_extend_lem :
    (w value width : ℕ)
    → 0 < width
    → width ≤ w
    → w ≤ 64
    → value < 2 ^ w
    → sign_extend w value width
      ≡ value % 2 ^ width + (if value / 2 ^ (width - 1) % 2 == 0 then 0 else 2 ^ w - 2 ^ width)
unfolding sign_extend
sign_extend_lem w value width hw hv hl hb =
    rw (bit_and_mask 1 (value / 2 ^ (width - 1)), entry, cut.0, cut.1)
      (elim (Bool-cases (value / 2 ^ (width - 1) % 2 == 0)) [
        | inl plain ↦ rw plain (bit_and_mask width value ∙ omega arith)
        | inr signed ↦
            rw signed
              (let high = bit_or_high (w - width) width value in rw sum at high hb ∙ omega arith)
      ])
  where
    cut :
        ((2 ^ 64 - 2 ^ width) % 2 ^ w ≡ 2 ^ w - 2 ^ width)
        × (complement 64 (2 ^ 64 - 2 ^ width) % 2 ^ w ≡ 2 ^ width - 1)
    cut = cut_masks_lem w width hl hv

    sum : w - width + width ≡ w
    sum = omega arith

    entry : sign_mask (width - 1) ≡ 2 ^ 64 - 2 ^ width
    entry =
        let back : width - 1 + 1 ≡ width = omega arith in
        rw back at (sign_mask_lem (width - 1) (omega arith))

-- The digits that `bitset` keeps: those above the field and those below it.
kept_ones : (offset width : ℕ) → Bool
kept_ones offset width =
    bit_or (complement 64 (2 ^ (width + offset) - 1)) (2 ^ offset - 1)
    == (2 ^ (64 - (width + offset)) - 1) * 2 ^ width * 2 ^ offset + (2 ^ offset - 1)

kept_ones_checked : all_below 65 (λ o. all_below (65 - o) (kept_ones o)) ≡ true
unfolding all_below kept_ones
kept_ones_checked = refl

kept_ones_lem : (offset width : ℕ) → width + offset ≤ 64 → kept_ones offset width ≡ true
kept_ones_lem offset width h =
    all_below_sound (65 - offset) (kept_ones offset) width
      (all_below_sound 65 (λ o. all_below (65 - o) (kept_ones o)) offset kept_ones_checked
        (omega arith))
      (omega arith)

module _ (reg width offset val : ℕ) (fits : width + offset ≤ 64) (word : reg < 2 ^ 64) where
  rest : ℕ
  rest = 64 - (width + offset)

  kept_mask :
      bit_or (complement 64 (mask (width + offset))) (mask offset)
      ≡ (2 ^ rest - 1) * 2 ^ width * 2 ^ offset + (2 ^ offset - 1)
  unfolding kept_ones rest
  kept_mask =
      rw (mask_lem (width + offset) fits, mask_lem offset (omega arith))
        ((==_iff _ _).0 (kept_ones_lem offset width fits))

  written : u64 (bit_and val (mask width) <<< offset) ≡ val % 2 ^ width * 2 ^ offset
  written = rw (mask_lem width (omega arith), bit_and_mask width val) (mod-eq_of_lt small)
    where
      small : val % 2 ^ width * 2 ^ offset < 2 ^ 64
      small =
          le_trans (mul-lt-mul_of_pos_right (mod-lt val (pow_pos width)) (pow_pos offset))
            (let e = pow_add width offset in rw (← e) (pow-le-pow_right (omega arith) fits))

  -- `bitset` replaces the field of `width` digits at `offset` by the low digits of `val`.
  pub bitset_lem :
      bitset reg width offset val
      ≡ (reg / 2 ^ offset / 2 ^ width * 2 ^ width + val % 2 ^ width) * 2 ^ offset + reg % 2 ^ offset
  unfolding bitset
  bitset_lem =
      rw (kept_mask, written)
        (replace_field rest width offset reg (val % 2 ^ width)
          (let all : rest + width + offset ≡ 64 = unfold rest in omega arith in rw all word)
          (mod-lt val (pow_pos width)))

  -- For a word of 64 digits and a field inside it: after `bitset` the digits above the field and
  -- those below it are as before, and `bitcrop` at the same place reads the low digits of `val`.
  pub bitcrop-bitset :
      (bitset reg width offset val / 2 ^ offset / 2 ^ width ≡ reg / 2 ^ offset / 2 ^ width)
      × (bitcrop (bitset reg width offset val) width offset ≡ val % 2 ^ width)
      × (bitset reg width offset val % 2 ^ offset ≡ reg % 2 ^ offset)
  bitcrop-bitset = (
    rw (bitset_lem, upper)
        (upper-fields width above (val % 2 ^ width) (mod-lt val (pow_pos width))),
    rw (bitcrop_lem (bitset reg width offset val) width offset (omega arith), bitset_lem, upper)
        (lower-fields width above (val % 2 ^ width) (mod-lt val (pow_pos width))),
    rw bitset_lem
        (lower-fields offset (above * 2 ^ width + val % 2 ^ width) (reg % 2 ^ offset) below),
  )
    where
      above : ℕ
      above = reg / 2 ^ offset / 2 ^ width

      below : reg % 2 ^ offset < 2 ^ offset
      below = mod-lt reg (pow_pos offset)

      upper :
          ((above * 2 ^ width + val % 2 ^ width) * 2 ^ offset + reg % 2 ^ offset) / 2 ^ offset
          ≡ above * 2 ^ width + val % 2 ^ width
      upper = upper-fields offset (above * 2 ^ width + val % 2 ^ width) (reg % 2 ^ offset) below

  -- The result is a word again.
  pub bitset-lt : bitset reg width offset val < 2 ^ 64
  unfolding bitset
  bitset-lt =
      let kept = bit_or (complement 64 (mask (width + offset))) (mask offset) in
      bit_or-lt 64 (bit_and reg kept) (u64 (bit_and val (mask width) <<< offset))
        (bit_and-lt 64 reg kept word (
          bit_or-lt 64 (complement 64 (mask (width + offset))) (mask offset) (omega arith)
            (omega (arith, mask_lem offset (omega arith), small, pow_pos offset))))
        (omega arith)
    where
      small : 2 ^ offset ≤ 2 ^ 64
      small = pow-le-pow_right (omega arith) (let h : offset ≤ 64 = omega arith in h)
