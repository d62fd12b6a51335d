-- ===== src/Emulator/Table32/Translation.antt =====
-- Translating over the identity mapping of 32 bits.
use m99_riscv_emulator.Prelude.{
  ℕ, ◌+◌, ◌*◌, ◌/◌, ◌%◌, ◌^◌, ◌<◌, ◌≡◌, ◌≢◌, ◌⊎◌, refl, ap, ap₂, ◌∙◌, arith, Bool, true, false,
  some,
}
use m99_riscv_emulator.BitTools.Fields.{bitcrop_lem}
use m99_riscv_emulator.Pte.Pte32
use m99_riscv_emulator.Pte.Flags.{pointer_flags32, leaf_flags32}
use m99_riscv_emulator.Memory.{MemoryWrapper, read32}
use m99_riscv_emulator.Memory.Word.{word, index_of, stored, word-stored, read32_lem}
use m99_riscv_emulator.Memory.Bytes.{stored-IsWords}
use m99_riscv_emulator.Mmu.{
  Mmu, machine_mode, vpn32, mark32, virtual_to_physical32, virtual_to_physical, pte_address32,
}
use m99_riscv_emulator.Mmu.Mark.{mark32_lem, mark32-lt, dirty}
use m99_riscv_emulator.Mmu.Pages.{page32, vpn32_lem, virtual_to_physical_narrow}
use m99_riscv_emulator.Emulator.{initial_satp}
use m99_riscv_emulator.Emulator.Table32.Fill.{first1, first0}
use m99_riscv_emulator.Emulator.Table32.Identity.{IsIdentity32}

module _ (m : MemoryWrapper) (identity : IsIdentity32 m) where
  -- Marking a page's entry as accessed or written keeps the mapping.
  marked-IsIdentity32 :
      (page : ℕ) (write_access : Bool)
      → page < 2 ^ 20
      → IsIdentity32 (stored m (first0 + page) (mark32 write_access (word m (first0 + page))))
  marked-IsIdentity32 page write_access h =
      let fits = identity.words (first0 + page) in
      let value = mark32_lem write_access (word m (first0 + page)) fits in
      let dirty_cases : (dirty write_access (word m (first0 + page)) ≡ 0)
          ⊎ (dirty write_access (word m (first0 + page)) ≡ 128) =
        ground arith in
      let high : mark32 write_access (word m (first0 + page)) / 2 ^ 10 ≡ page =
        omega (arith, value, dirty_cases, identity.pages page h) in
      let low : mark32 write_access (word m (first0 + page)) % 2 ^ 4 ≡ 15 =
        omega (arith, value, dirty_cases, identity.flags page h) in
      let at = word-stored m (first0 + page) (mark32 write_access (word m (first0 + page))) in
      record {
        words =
            stored-IsWords m (first0 + page) (mark32 write_access (word m (first0 + page)))
              identity.words (mark32-lt write_access (word m (first0 + page)) fits);
        pointers = λ q l. ground (arith, at (first1 + q), identity.pointers q l);
        pages = λ p l. ground (arith, at (first0 + p), identity.pages p l);
        flags = λ p l. ground (arith, at (first0 + p), identity.flags p l);
      }

  module _ (u : Mmu) (address : ℕ) (write_access : Bool) (small : address < 2 ^ 32) where
    pointer : ℕ
    pointer = (0xC0001 + address / 2 ^ 22) * 2 ^ 10 + 1

    next_table : Pte32.get_ppn pointer ≡ 0xC0001 + address / 2 ^ 22
    unfolding Pte32.get_ppn pointer
    next_table =
        omega (arith, bitcrop_lem ((0xC0001 + address / 2 ^ 22) * 2 ^ 10 + 1) 22 10 (omega arith))

    entry : ℕ
    entry = word m (first0 + address / 2 ^ 12)

    place :
        index_of (pte_address32 (Pte32.get_ppn pointer) (vpn32 address 0))
        ≡ first0 + address / 2 ^ 12
    place = omega (arith, next_table, (vpn32_lem address small).1)

    first_read : read32 m (pte_address32 0xC0000 (vpn32 address 1)) ≡ some pointer
    unfolding pointer
    first_read =
        let at : index_of (pte_address32 0xC0000 (vpn32 address 1)) ≡ first1 + address / 2 ^ 22 =
          omega (arith, (vpn32_lem address small).0) in
        let aligned : pte_address32 0xC0000 (vpn32 address 1) % 4 ≡ 0 = omega arith in
        read32_lem m _
        ∙ rw (aligned, at) (ap some (identity.pointers (address / 2 ^ 22) (omega arith)))

    second_read : read32 m (pte_address32 (Pte32.get_ppn pointer) (vpn32 address 0)) ≡ some entry
    unfolding entry
    second_read =
        let aligned : pte_address32 (Pte32.get_ppn pointer) (vpn32 address 0) % 4 ≡ 0 =
          omega arith in
        read32_lem m _ ∙ rw (aligned, place) refl

    -- What a translation leaves in the table.
    after : MemoryWrapper
    after = stored m (first0 + address / 2 ^ 12) (mark32 write_access entry)

    translated32 :
        virtual_to_physical32 u m address (initial_satp false true) write_access
        ≡ some (address, u, after)
    unfolding entry after
    translated32 =
        page32 u m address (initial_satp false true) 0xC0000 pointer entry write_access
          (bitcrop_lem (initial_satp false true) 1 31 (omega arith))
          (omega (arith, bitcrop_lem (initial_satp false true) 22 0 (omega arith)))
          (identity.words (first0 + address / 2 ^ 12)) first_read
          (pointer_flags32 pointer (unfold pointer in omega arith)) second_read
          (leaf_flags32 entry (identity.flags (address / 2 ^ 12) (omega arith)))
        ∙ ap₂ (λ (t k : ℕ). some (t, u, stored m k (mark32 write_access entry)))
            (omega (arith, identity.pages (address / 2 ^ 12) (omega arith))) place

-- Over the identity mapping of 32 bits, with the value of SATP that `run` sets for `-p`: outside
-- machine mode every translation of a 32-bit address succeeds, gives the address itself with no
-- fault recorded, and leaves a memory that has the identity mapping again.
pub virtual_to_physical-IsIdentity32 :
    (u : Mmu) (m : MemoryWrapper) (address : ℕ) (write_access : Bool)
    → IsIdentity32 m
    → address < 2 ^ 32
    → u.mxl ≡ 1
    → u.privilege ≢ machine_mode
    → (m' : MemoryWrapper) × (virtual_to_physical u m address (initial_satp false true) write_access
        ≡ some (address, record u { page_fault = false; faulting_address = 0 }, m'))
      × IsIdentity32 m'
virtual_to_physical-IsIdentity32 u m address write_access identity small narrow mode = (
  after m identity v address write_access small,
  virtual_to_physical_narrow u m address (initial_satp false true) write_access mode narrow
      ∙ translated32 m identity v address write_access small,
  unfold after entry in
      marked-IsIdentity32 m identity (address / 2 ^ 12) write_access (omega arith),
)
  where
    v : Mmu
    v = record u { page_fault = false; faulting_address = 0 }
