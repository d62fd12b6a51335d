-- ===== src/Pte/Flags.antt =====
-- Pointers and leaves, by the four lowest flags of an entry.
use m99_riscv_emulator.Prelude.{ℕ, ◌/◌, ◌%◌, ◌^◌, ◌≡◌, refl, ◌∙◌, arith, true, false}
use m99_riscv_emulator.BitTools.{bitcrop}
use m99_riscv_emulator.BitTools.Fields.{bitcrop_lem}
use m99_riscv_emulator.Pte.Pte32
use m99_riscv_emulator.Pte.Pte64

module _ (pte : ℕ) where
  v : bitcrop pte 1 0 ≡ pte % 2
  v = bitcrop_lem pte 1 0 (omega arith) ∙ omega arith

  r : bitcrop pte 1 1 ≡ pte / 2 % 2
  r = bitcrop_lem pte 1 1 (omega arith) ∙ omega arith

  w : bitcrop pte 1 2 ≡ pte / 4 % 2
  w = bitcrop_lem pte 1 2 (omega arith) ∙ omega arith

  x : bitcrop pte 1 3 ≡ pte / 8 % 2
  x = bitcrop_lem pte 1 3 (omega arith) ∙ omega arith

  module _ (flags : pte % 2 ^ 4 ≡ 1) where
    pub pointer_flags32 : (Pte32.is_valid pte ≡ true) × (Pte32.is_leaf pte ≡ false)
    unfolding Pte32.is_valid Pte32.is_leaf
    pointer_flags32 =
        let v0 : bitcrop pte 1 0 ≡ 1 = omega (arith, v) in
        let r0 : bitcrop pte 1 1 ≡ 0 = omega (arith, r) in
        let w0 : bitcrop pte 1 2 ≡ 0 = omega (arith, w) in
        let x0 : bitcrop pte 1 3 ≡ 0 = omega (arith, x) in
        (rw (v0, r0, w0) refl, rw (r0, w0, x0) refl)

    pub pointer_flags64 : (Pte64.is_valid pte ≡ true) × (Pte64.is_leaf pte ≡ false)
    unfolding Pte64.is_valid Pte64.is_leaf
    pointer_flags64 =
        let v0 : bitcrop pte 1 0 ≡ 1 = omega (arith, v) in
        let r0 : bitcrop pte 1 1 ≡ 0 = omega (arith, r) in
        let w0 : bitcrop pte 1 2 ≡ 0 = omega (arith, w) in
        let x0 : bitcrop pte 1 3 ≡ 0 = omega (arith, x) in
        (rw (v0, r0, w0) refl, rw (r0, w0, x0) refl)

  module _ (flags : pte % 2 ^ 4 ≡ 15) where
    pub leaf_flags32 : (Pte32.is_valid pte ≡ true) × (Pte32.is_leaf pte ≡ true)
    unfolding Pte32.is_valid Pte32.is_leaf
    leaf_flags32 =
        let v0 : bitcrop pte 1 0 ≡ 1 = omega (arith, v) in
        let r0 : bitcrop pte 1 1 ≡ 1 = omega (arith, r) in (rw (v0, r0) refl, rw r0 refl)

    pub leaf_flags64 : (Pte64.is_valid pte ≡ true) × (Pte64.is_leaf pte ≡ true)
    unfolding Pte64.is_valid Pte64.is_leaf
    leaf_flags64 =
        let v0 : bitcrop pte 1 0 ≡ 1 = omega (arith, v) in
        let r0 : bitcrop pte 1 1 ≡ 1 = omega (arith, r) in (rw (v0, r0) refl, rw r0 refl)
