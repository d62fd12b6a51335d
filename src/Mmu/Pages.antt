-- ===== src/Mmu/Pages.antt =====
-- Translations that find a page at the lowest level, by the entries that the walk reads.
use m99_riscv_emulator.Prelude.{
  ℕ, ◌+◌, ◌*◌, ◌/◌, ◌%◌, ◌^◌, ◌<◌, ◌≡◌, ◌≢◌, refl, ap, ◌∙◌, arith, Bool, true, false, some, ◌==◌,
  u32,
}
use m99_riscv_emulator.Prelude.Options.{bind_to}
use m99_riscv_emulator.BitTools.{bitcrop}
use m99_riscv_emulator.BitTools.Fields.{bitcrop_lem}
use m99_riscv_emulator.Pte.Pte32
use m99_riscv_emulator.Pte.Pte64
use m99_riscv_emulator.Memory.{MemoryWrapper, read32, read64, write64}
use m99_riscv_emulator.Memory.Word.{stored, index_of, write32_total}
use m99_riscv_emulator.Mmu.{
  walk64, vpn64, finish64, mark64, misaligned64, pte_address64, PrivilegeMode, machine_mode,
  user_mode, supervisor_mode, virtual_to_physical, virtual_to_physical64, Mmu, leaf, walk32, vpn32,
  finish32, mark32, misaligned32, virtual_to_physical32, pte_address32,
}
use m99_riscv_emulator.Mmu.Sv32.{compose32_lem}
use m99_riscv_emulator.Mmu.Sv39.{compose64_lem}

pub vpn32_lem :
    (address : ℕ)
    → address < 2 ^ 32
    → (vpn32 address 1 ≡ address / 2 ^ 22) × (vpn32 address 0 ≡ address / 2 ^ 12 % 2 ^ 10)
unfolding vpn32
vpn32_lem address h = (
  omega (arith, bitcrop_lem address 10 22 (omega arith)),
  omega (arith, bitcrop_lem address 10 12 (omega arith)),
)

-- Outside machine mode the width decides which walk is done.
module _ (u : Mmu) (m : MemoryWrapper) (address satp : ℕ) (write_access : Bool)
    (mode : u.privilege ≢ machine_mode) where
  translated_mode {ℓ} :
      {A : Type ℓ} (privilege : PrivilegeMode) (x y : A)
      → privilege ≢ machine_mode
      → (elim privilege [ machine_mode ↦ x | _ ↦ y ]) ≡ y
  translated_mode user_mode x y h = refl
  translated_mode supervisor_mode x y h = refl
  translated_mode machine_mode x y h = absurd (h refl)

  pub virtual_to_physical_narrow :
      u.mxl ≡ 1
      → virtual_to_physical u m address satp write_access
        ≡ virtual_to_physical32
            (record u { page_fault = false; faulting_address = 0 })
            m
            address
            satp
            write_access
  unfolding virtual_to_physical
  virtual_to_physical_narrow width =
      let test : (u.mxl == 1) ≡ true = rw width refl in
      translated_mode u.privilege _ _ mode ∙ rw test refl

  pub virtual_to_physical_wide :
      u.mxl ≡ 2
      → virtual_to_physical u m address satp write_access
        ≡ virtual_to_physical64
            (record u { page_fault = false; faulting_address = 0 })
            m
            address
            satp
            write_access
  unfolding virtual_to_physical
  virtual_to_physical_wide width =
      let test : (u.mxl == 1) ≡ false = rw width refl in
      translated_mode u.privilege _ _ mode ∙ rw test refl

-- A page of 4 KiB, found through a pointer in the upper level.
module _ (u : Mmu) (m : MemoryWrapper) (address satp root pointer entry : ℕ) (write_access : Bool)
    (on : bitcrop satp 1 31 ≡ 1) (rooted : u32 (bitcrop satp 22 0) ≡ root) (fits : entry < 2 ^ 32)
    (first : read32 m (pte_address32 root (vpn32 address 1)) ≡ some pointer)
    (goes_on : (Pte32.is_valid pointer ≡ true) × (Pte32.is_leaf pointer ≡ false))
    (second : read32 m (pte_address32 (Pte32.get_ppn pointer) (vpn32 address 0)) ≡ some entry)
    (ends : (Pte32.is_valid entry ≡ true) × (Pte32.is_leaf entry ≡ true)) where
  at : ℕ
  at = pte_address32 (Pte32.get_ppn pointer) (vpn32 address 0)

  walked : walk32 m (vpn32 address) 1 root ≡ some (leaf 0 entry at)
  unfolding walk32 at
  walked = bind_to _ first (rw (goes_on.0, goes_on.1) (bind_to _ second (rw (ends.0, ends.1) refl)))

  pub page32 :
      virtual_to_physical32 u m address satp write_access
      ≡ some (
        (entry / 2 ^ 10 * 2 ^ 12 + address % 2 ^ 12) % 2 ^ 32,
        u,
        stored m
            (index_of (pte_address32 (Pte32.get_ppn pointer) (vpn32 address 0)))
            (mark32 write_access entry),
      )
  unfolding virtual_to_physical32 finish32 misaligned32 at
  page32 =
      rw (on, rooted)
        (bind_to _ walked (
          bind_to _ (write32_total m at (mark32 write_access entry) (omega arith)) (
            ap (λ (t : ℕ). some (t, u, stored m (index_of at) (mark32 write_access entry)))
              (unfold misaligned32 in
                compose32_lem address entry write_access fits 0 (omega arith) refl))))

pub vpn64_lem :
    (address : ℕ)
    → address < 2 ^ 32
    → (vpn64 address 2 ≡ address / 2 ^ 30)
      × (vpn64 address 1 ≡ address / 2 ^ 21 % 2 ^ 9)
      × (vpn64 address 0 ≡ address / 2 ^ 12 % 2 ^ 9)
unfolding vpn64
vpn64_lem address h = (
  omega (arith, bitcrop_lem address 9 30 (omega arith)),
  omega (arith, bitcrop_lem address 9 21 (omega arith)),
  omega (arith, bitcrop_lem address 9 12 (omega arith)),
)

-- A page of 4 KiB, found through pointers in the two upper levels.
module _ (u : Mmu) (m : MemoryWrapper) (address satp root upper lower entry : ℕ)
    (write_access : Bool) (on : bitcrop satp 4 60 ≡ 8) (rooted : bitcrop satp 44 0 ≡ root)
    (fits : entry < 2 ^ 64) (first : read64 m (pte_address64 (vpn64 address) 2 root) ≡ some upper)
    (goes_on : (Pte64.is_valid upper ≡ true) × (Pte64.is_leaf upper ≡ false))
    (second : read64 m (pte_address64 (vpn64 address) 1 (Pte64.get_ppn upper)) ≡ some lower)
    (goes_down : (Pte64.is_valid lower ≡ true) × (Pte64.is_leaf lower ≡ false))
    (third : read64 m (pte_address64 (vpn64 address) 0 (Pte64.get_ppn lower)) ≡ some entry)
    (ends : (Pte64.is_valid entry ≡ true) × (Pte64.is_leaf entry ≡ true)) where
  at64 : ℕ
  at64 = pte_address64 (vpn64 address) 0 (Pte64.get_ppn lower)

  walked64 : walk64 m (vpn64 address) 2 root ≡ some (leaf 0 entry at64)
  unfolding walk64 at64
  walked64 = bind_to _ first (
      rw (goes_on.0, goes_on.1)
        (bind_to _ second
          (rw (goes_down.0, goes_down.1) (bind_to _ third (rw (ends.0, ends.1) refl)))))

  pub page64 :
      {m' : MemoryWrapper}
      → write64 m
          (pte_address64 (vpn64 address) 0 (Pte64.get_ppn lower))
          (mark64 write_access entry)
        ≡ some m'
      → virtual_to_physical64 u m address satp write_access
        ≡ some (entry / 2 ^ 10 % 2 ^ 44 * 2 ^ 12 + address % 2 ^ 12, u, m')
  unfolding virtual_to_physical64 finish64 at64 misaligned64
  page64 {m'} wrote =
      rw (on, rooted)
        (bind_to _ walked64 (
          bind_to _ wrote (
            ap (λ (t : ℕ). some (t, u, m'))
              (compose64_lem address entry write_access fits 0 (omega arith) refl))))
