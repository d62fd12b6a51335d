-- ===== src/Cpu/Width.antt =====
-- How an access that crosses a doubleword is cut in two.
use m99_riscv_emulator.Prelude.{ℕ, ◌+◌, ◌%◌, ◌≤◌, ◌<◌, ◌≡◌, ◌⊎◌, arith}
use m99_riscv_emulator.Prelude.Bits.{bit_and_mask}
use m99_riscv_emulator.Cpu.{get_access_width}

-- For an access of 1, 2, 4 or 8 bytes at any address: the first part is not empty, is no longer
-- than the access and ends inside the doubleword of the address; it is the whole access, or the
-- second part starts at a doubleword and ends inside it.
pub get_access_width_lem :
    (width address : ℕ)
    → (width ≡ 1) ⊎ (width ≡ 2) ⊎ (width ≡ 4) ⊎ (width ≡ 8)
    → (0 < get_access_width width address)
      × (get_access_width width address ≤ width)
      × (address % 8 + get_access_width width address ≤ 8)
      × ((get_access_width width address ≡ width)
          ⊎ ((address + get_access_width width address) % 8 ≡ 0))
unfolding get_access_width
get_access_width_lem width address h = ground (
  arith,
  bit_and_mask 3 address,
  bit_and_mask 2 address,
  bit_and_mask 1 address,
  bit_and_mask 0 address,
)
