-- ===== src/Pte/Pte32.antt =====
-- `Pte32` of pte.cpp: a page-table entry of 32 bits, given by its value `pte_`.
use m99_riscv_emulator.Prelude.{
  ℕ, Bool, true, false, not, ◌&&◌, ◌||◌, bit_and, bit_or, ◌==◌, if◌then◌else◌, u16, u32, ◌<<<◌,
  complement,
}
use m99_riscv_emulator.BitTools.{bitcrop, gen_mask, set_bit}

unfoldable pub get_ppn : ℕ → ℕ
get_ppn pte = bitcrop pte 22 10

unfoldable pub get_ppn1 : ℕ → ℕ
get_ppn1 pte = bitcrop pte 12 20

unfoldable pub get_ppn0 : ℕ → ℕ
get_ppn0 pte = bitcrop pte 10 10

unfoldable pub get_rsw : ℕ → ℕ
get_rsw pte = bitcrop pte 2 8

unfoldable pub get_d : ℕ → ℕ
get_d pte = bitcrop pte 1 7

unfoldable pub get_a : ℕ → ℕ
get_a pte = bitcrop pte 1 6

unfoldable pub get_g : ℕ → ℕ
get_g pte = bitcrop pte 1 5

unfoldable pub get_u : ℕ → ℕ
get_u pte = bitcrop pte 1 4

unfoldable pub get_x : ℕ → ℕ
get_x pte = bitcrop pte 1 3

unfoldable pub get_w : ℕ → ℕ
get_w pte = bitcrop pte 1 2

unfoldable pub get_r : ℕ → ℕ
get_r pte = bitcrop pte 1 1

unfoldable pub get_v : ℕ → ℕ
get_v pte = bitcrop pte 1 0

unfoldable pub set_ppn : ℕ → ℕ → ℕ
set_ppn pte ppn = bit_or (bit_and pte (complement 32 (gen_mask 32 22 10))) (u32 (ppn <<< 10))

unfoldable pub set_rsw : ℕ → ℕ → ℕ
set_rsw pte rsw = bit_or (bit_and pte (complement 32 (gen_mask 32 2 8))) (u32 (rsw <<< 8))

unfoldable pub set_d : ℕ → ℕ → ℕ
set_d pte value = set_bit 32 pte value 7

unfoldable pub set_a : ℕ → ℕ → ℕ
set_a pte value = set_bit 32 pte value 6

unfoldable pub set_g : ℕ → ℕ → ℕ
set_g pte value = set_bit 32 pte value 5

unfoldable pub set_u : ℕ → ℕ → ℕ
set_u pte value = set_bit 32 pte value 4

unfoldable pub set_x : ℕ → ℕ → ℕ
set_x pte value = set_bit 32 pte value 3

unfoldable pub set_w : ℕ → ℕ → ℕ
set_w pte value = set_bit 32 pte value 2

unfoldable pub set_r : ℕ → ℕ → ℕ
set_r pte value = set_bit 32 pte value 1

unfoldable pub set_v : ℕ → ℕ → ℕ
set_v pte value = set_bit 32 pte value 0

unfoldable pub is_valid : ℕ → Bool
unfolding get_v get_r get_w
is_valid pte = if get_v pte == 0 || (get_r pte == 0 && u16 (get_w pte) == 1) then false else true

unfoldable pub is_leaf : ℕ → Bool
unfolding get_r get_w get_x
is_leaf pte = not (get_r pte == 0) || not (get_w pte == 0) || not (get_x pte == 0)
