-- ===== src/Emulator/Flags.antt =====
-- The flags that the default tables' entries get.
use m99_riscv_emulator.Prelude.{ℕ, ◌+◌, ◌%◌, ◌^◌, ◌<◌, ◌≡◌, refl, ◌∙◌, arith}
use m99_riscv_emulator.BitTools.{set_bit}
use m99_riscv_emulator.BitTools.Bits.{set_bit_lem}
use m99_riscv_emulator.Pte.Pte32

pub valid_flag : (Pte32.set_v 0 1 % 2 ^ 10 ≡ 1) × (Pte32.set_v 0 1 < 2 ^ 32)
unfolding Pte32.set_v set_bit
valid_flag = (refl, omega arith)

pub leaf_flags :
    (pte : ℕ)
    → pte % 2 ^ 10 ≡ 1
    → pte < 2 ^ 32
    → (Pte32.set_r (Pte32.set_w (Pte32.set_x pte 1) 1) 1 % 2 ^ 10 ≡ 15)
      × (Pte32.set_r (Pte32.set_w (Pte32.set_x pte 1) 1) 1 < 2 ^ 32)
unfolding Pte32.set_r Pte32.set_w Pte32.set_x
leaf_flags pte h fits =
    let x : set_bit 32 pte 1 3 ≡ pte + 8 =
      set_bit_lem 32 pte 1 3 (omega arith) (omega arith) fits ∙ omega arith in
    let w : set_bit 32 (pte + 8) 1 2 ≡ pte + 12 =
      set_bit_lem 32 (pte + 8) 1 2 (omega arith) (omega arith) (omega arith) ∙ omega arith in
    let r : set_bit 32 (pte + 12) 1 1 ≡ pte + 14 =
      set_bit_lem 32 (pte + 12) 1 1 (omega arith) (omega arith) (omega arith) ∙ omega arith in
    rw (x, w, r) (omega arith, omega arith)

pub valid_again :
    (pte : ℕ)
    → pte % 2 ^ 10 ≡ 1
    → pte < 2 ^ 32
    → (Pte32.set_v pte 1 % 2 ^ 10 ≡ 1) × (Pte32.set_v pte 1 < 2 ^ 32)
unfolding Pte32.set_v
valid_again pte h fits =
    let v : set_bit 32 pte 1 0 ≡ pte =
      set_bit_lem 32 pte 1 0 (omega arith) (omega arith) fits ∙ omega arith in
    rw v (h, fits)
