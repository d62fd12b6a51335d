-- ===== src/BitTools/Bits.antt =====
-- Single bits: what `SetBit` and `GenMask` of bit_tools.h compute.
use native.Mathlib.Nat.{mod-lt, mod-eq_of_lt, div-add-mod', pow-le-pow_right, pow-suc}
use m99_riscv_emulator.Prelude.{
  ℕ, zero, suc, ◌+◌, ◌-◌, ◌*◌, ◌/◌, ◌%◌, ◌^◌, ◌≤◌, ◌<◌, ◌≡◌, refl, sym, ap₂, ◌∙◌, arith, bit_and,
  bit_or, Bool, true, inl, inr, ◌&&◌, ◌==◌, Bool-cases, if◌then◌else◌, complement, ◌<<<◌,
}
use m99_riscv_emulator.Prelude.Tables.{all_below, all_below_sound}
use m99_riscv_emulator.Prelude.Digits.{bit_or_step}
use m99_riscv_emulator.Prelude.Bits.{
  bit_and_ones, bit_and_fields, bit_or_fields, bit_or_disjoint, bit_or-zero, bit_and_high, pow_pos,
  high_ones, high-lt,
}
use m99_riscv_emulator.BitTools.{gen_mask_loop, gen_mask, set_bit}

pow-le : (w n : ℕ) → n ≤ w → 2 ^ n ≤ 2 ^ w
pow-le w n h = pow-le-pow_right (omega arith) h

gen_mask_loop_lem : (w n m : ℕ) → m + n ≤ w → gen_mask_loop w n (2 ^ m - 1) ≡ 2 ^ (m + n) - 1
unfolding gen_mask_loop
gen_mask_loop_lem w zero m h = let e : m + 0 ≡ m = omega arith in rw e
gen_mask_loop_lem w (suc n) m h =
    let e : m + suc n ≡ suc m + n = omega arith in
    rw (e, round) (gen_mask_loop_lem w n (suc m) (omega arith))
  where
    round : bit_or ((2 ^ m - 1) <<< 1 % 2 ^ w) 1 ≡ 2 ^ suc m - 1
    round =
        rw
          (mod-eq_of_lt {n = (2 ^ m - 1) * 2} {m = 2 ^ w}
            (omega (arith, pow_pos m, pow-suc 2 m, pow-le w (suc m) (omega arith))))
          (bit_or_disjoint 1 (2 ^ m - 1) 1 (omega arith) ∙ omega (arith, pow_pos m, pow-suc 2 m))

-- `GenMask` makes `size` ones above `shift` zeros, where they fit the type.
gen_mask_lem :
    (w size shift : ℕ) → size + shift ≤ w → gen_mask w size shift ≡ (2 ^ size - 1) * 2 ^ shift
unfolding gen_mask
gen_mask_lem w size shift h = rw loop (
    mod-eq_of_lt (
      omega (
        arith,
        high_ones size shift,
        pow_pos shift,
        pow_pos (size + shift),
        pow-le w (size + shift) h,
      )))
  where
    loop : gen_mask_loop w size 0 ≡ 2 ^ size - 1
    loop =
        let e : 0 + size ≡ size = omega arith in rw e at (gen_mask_loop_lem w size 0 (omega arith))

bit_or-one : (a : ℕ) → bit_or a 1 ≡ a / 2 * 2 + 1
bit_or-one a = bit_or_step a 1 ∙ omega (arith, bit_or-zero (a / 2))

-- The masks of `SetBit` at every place of every width up to 64.
one_off : ℕ → ℕ → Bool
one_off w pos =
    (1 <<< pos % 2 ^ w == 1 * 2 ^ pos + 0)
    && (complement w (1 <<< pos % 2 ^ w)
        == (2 ^ (w - pos - 1 + 1) - 2 ^ 1) * 2 ^ pos + (2 ^ pos - 1))

one_off_checked : all_below 65 (λ w. all_below w (one_off w)) ≡ true
unfolding all_below one_off
one_off_checked = refl

module _ (w data' value pos : ℕ) (wide : w ≤ 64) (inside : pos < w) (word : data' < 2 ^ w) where
  masks :
      (1 <<< pos % 2 ^ w ≡ 1 * 2 ^ pos + 0)
      × (complement w (1 <<< pos % 2 ^ w)
          ≡ (2 ^ (w - pos - 1 + 1) - 2 ^ 1) * 2 ^ pos + (2 ^ pos - 1))
  unfolding one_off
  masks = ground (arith, all_below_sound w (one_off w) pos row inside)
    where
      row : all_below w (one_off w) ≡ true
      row = all_below_sound 65 (λ v. all_below v (one_off v)) w one_off_checked (omega arith)

  upper : data' / 2 ^ pos < 2 ^ (w - pos - 1 + 1)
  upper =
      high-lt (w - pos - 1 + 1) pos data'
        (let e : w - pos - 1 + 1 + pos ≡ w = omega arith in rw e word)

  -- For a value of a type of at most 64 digits and a position in it, `SetBit` writes the one digit
  -- at `pos`, and leaves the digits above and below.
  pub set_bit_lem :
      set_bit w data' value pos
      ≡ (data' / 2 ^ pos / 2 * 2 + (if value == 0 then 0 else 1)) * 2 ^ pos + data' % 2 ^ pos
  unfolding set_bit
  set_bit_lem = elim (Bool-cases (value == 0)) [
    | inl clear ↦ rw clear (
        ap₂ bit_and (sym (div-add-mod' data' (2 ^ pos))) masks.1
        ∙ bit_and_fields pos (data' / 2 ^ pos) (2 ^ (w - pos - 1 + 1) - 2 ^ 1) (data' % 2 ^ pos)
            (2 ^ pos - 1) (mod-lt data' (pow_pos pos)) (omega (arith, pow_pos pos))
        ∙ rw
            (
              bit_and_high (w - pos - 1) 1 (data' / 2 ^ pos) upper,
              bit_and_ones pos (data' % 2 ^ pos) (mod-lt data' (pow_pos pos)),
            )
            (omega arith))
    | inr keep ↦ rw keep (
        ap₂ bit_or (sym (div-add-mod' data' (2 ^ pos))) masks.0
        ∙ bit_or_fields pos (data' / 2 ^ pos) 1 (data' % 2 ^ pos) 0 (mod-lt data' (pow_pos pos))
            (pow_pos pos)
        ∙ rw (bit_or-one (data' / 2 ^ pos), bit_or-zero (data' % 2 ^ pos)) refl)
  ]
