-- ===== src/Emulator/Table64/Translation.antt =====
-- Translating 32-bit addresses over the identity mapping of 64 bits.
use m99_riscv_emulator.Prelude.{
  ℕ, ◌+◌, ◌*◌, ◌/◌, ◌%◌, ◌^◌, ◌<◌, ◌≡◌, ◌≢◌, ◌⊎◌, refl, ap, ◌∙◌, arith, Bool, true, false, some,
  ◌==◌,
}
use m99_riscv_emulator.BitTools.Fields.{bitcrop_lem}
use m99_riscv_emulator.Pte.Pte64
use m99_riscv_emulator.Pte.Flags.{pointer_flags64, leaf_flags64}
use m99_riscv_emulator.Memory.{MemoryWrapper, read64}
use m99_riscv_emulator.Memory.Word.{word, index_of}
use m99_riscv_emulator.Memory.Wide.{read64_lem, next_word}
use m99_riscv_emulator.Memory.Bytes.{IsWords}
use m99_riscv_emulator.Mmu.{
  Mmu, machine_mode, vpn64, mark64, virtual_to_physical64, virtual_to_physical, pte_address64,
}
use m99_riscv_emulator.Mmu.Mark.{mark64_lem, dirty}
use m99_riscv_emulator.Mmu.Pages.{page64, vpn64_lem, virtual_to_physical_wide}
use m99_riscv_emulator.Emulator.{initial_satp}
use m99_riscv_emulator.Emulator.Table64.Fill.{
  first2, first1, first0, entered, write64_entry, word-entered, entered-IsWords,
}
use m99_riscv_emulator.Emulator.Table64.Identity.{IsIdentity64}

-- An entry of 32 bits, read as a doubleword.
read64_entry :
    (m : MemoryWrapper) (address k value : ℕ)
    → IsWords m
    → address ≡ k * 4
    → k % 2 ≡ 0
    → k < 2 ^ 30
    → word m k ≡ value
    → word m (k + 1) ≡ 0
    → read64 m address ≡ some value
read64_entry m address k value words e even h low high =
    let aligned : (address % 8 == 0) ≡ true = ground arith in
    let first : index_of address ≡ k = omega arith in
    let second : next_word address ≡ k + 1 = omega arith in
    read64_lem m address words ∙ rw (aligned, first, second, low, high) (ap some (omega arith))

module _ (m : MemoryWrapper) (identity : IsIdentity64 m) where
  module _ (page : ℕ) (write_access : Bool) (h : page < 2 ^ 20) where
    value :
        mark64 write_access (word m (first0 + page * 2))
        ≡ word m (first0 + page * 2) / 256 * 256
          + dirty write_access (word m (first0 + page * 2))
          + 64
          + word m (first0 + page * 2) % 64
    value =
        mark64_lem write_access (word m (first0 + page * 2))
          (omega (arith, identity.words (first0 + page * 2)))

    dirty_cases :
        (dirty write_access (word m (first0 + page * 2)) ≡ 0)
        ⊎ (dirty write_access (word m (first0 + page * 2)) ≡ 128)
    dirty_cases = ground arith

    marked-lt : mark64 write_access (word m (first0 + page * 2)) < 2 ^ 32
    marked-lt = omega (arith, value, dirty_cases, identity.pages page h)

    -- Marking a page's entry as accessed or written keeps the mapping.
    marked-IsIdentity64 :
        IsIdentity64
          (entered m (first0 + page * 2) (mark64 write_access (word m (first0 + page * 2))))
    marked-IsIdentity64 =
        let high : mark64 write_access (word m (first0 + page * 2)) / 2 ^ 10 ≡ page =
          omega (arith, value, dirty_cases, (identity.pages page h).0) in
        let low : mark64 write_access (word m (first0 + page * 2)) % 2 ^ 4 ≡ 15 =
          omega (arith, value, dirty_cases, (identity.pages page h).1) in
        let at =
          word-entered m (first0 + page * 2) (mark64 write_access (word m (first0 + page * 2))) in
        record {
          words = entered-IsWords m (first0 + page * 2) _ identity.words marked-lt;
          roots = λ i l.
              ground (arith, at (first2 + i * 2), at (first2 + i * 2 + 1), identity.roots i l);
          pointers = λ q l.
              ground (arith, at (first1 + q * 2), at (first1 + q * 2 + 1), identity.pointers q l);
          pages = λ p l.
              ground (arith, at (first0 + p * 2), at (first0 + p * 2 + 1), identity.pages p l);
        }

  module _ (u : Mmu) (address : ℕ) (write_access : Bool) (small : address < 2 ^ 32) where
    upper : ℕ
    upper = (0xC0001 + address / 2 ^ 30) * 2 ^ 10 + 1

    lower : ℕ
    lower = (0xC0005 + address / 2 ^ 21) * 2 ^ 10 + 1

    entry : ℕ
    entry = word m (first0 + address / 2 ^ 12 * 2)

    upper_table : Pte64.get_ppn upper ≡ 0xC0001 + address / 2 ^ 30
    unfolding Pte64.get_ppn upper
    upper_table =
        omega (arith, bitcrop_lem ((0xC0001 + address / 2 ^ 30) * 2 ^ 10 + 1) 44 10 (omega arith))

    lower_table : Pte64.get_ppn lower ≡ 0xC0005 + address / 2 ^ 21
    unfolding Pte64.get_ppn lower
    lower_table =
        omega (arith, bitcrop_lem ((0xC0005 + address / 2 ^ 21) * 2 ^ 10 + 1) 44 10 (omega arith))

    first_read : read64 m (pte_address64 (vpn64 address) 2 0xC0000) ≡ some upper
    unfolding upper
    first_read =
        let r = identity.roots (address / 2 ^ 30) (omega arith) in
        read64_entry m _ (first2 + address / 2 ^ 30 * 2) _ identity.words
          (omega (arith, (vpn64_lem address small).0)) (omega arith) (omega arith) r.0 r.1

    second_read : read64 m (pte_address64 (vpn64 address) 1 (Pte64.get_ppn upper)) ≡ some lower
    unfolding lower
    second_read =
        let r = identity.pointers (address / 2 ^ 21) (omega arith) in
        read64_entry m _ (first1 + address / 2 ^ 21 * 2) _ identity.words
          (omega (arith, upper_table, (vpn64_lem address small).1)) (omega arith) (omega arith) r.0
          r.1

    place :
        pte_address64 (vpn64 address) 0 (Pte64.get_ppn lower) ≡ (first0 + address / 2 ^ 12 * 2) * 4
    place = omega (arith, lower_table, (vpn64_lem address small).2)

    third_read : read64 m (pte_address64 (vpn64 address) 0 (Pte64.get_ppn lower)) ≡ some entry
    unfolding entry
    third_read =
        let r = identity.pages (address / 2 ^ 12) (omega arith) in
        read64_entry m _ (first0 + address / 2 ^ 12 * 2) _ identity.words place (omega arith)
          (omega arith) refl r.2

    translated64 :
        virtual_to_physical64 u m address (initial_satp true true) write_access
        ≡ some (address, u, entered m (first0 + address / 2 ^ 12 * 2) (mark64 write_access entry))
    unfolding entry
    translated64 =
        let r = identity.pages (address / 2 ^ 12) (omega arith) in
        page64 u m address (initial_satp true true) 0xC0000 upper lower entry write_access
          (bitcrop_lem (initial_satp true true) 4 60 (omega arith))
          (bitcrop_lem (initial_satp true true) 44 0 (omega arith))
          (omega (arith, identity.words (first0 + address / 2 ^ 12 * 2))) first_read
          (pointer_flags64 upper (unfold upper in omega arith)) second_read
          (pointer_flags64 lower (unfold lower in omega arith)) third_read (leaf_flags64 entry r.1)
          (write64_entry m _ (first0 + address / 2 ^ 12 * 2) (mark64 write_access entry) place
            (omega arith) (omega arith) (marked-lt (address / 2 ^ 12) write_access (omega arith)))
        ∙ ap
            (λ (t : ℕ).
              some (t, u, entered m (first0 + address / 2 ^ 12 * 2) (mark64 write_access entry)))
            (omega (arith, r.0, identity.words (first0 + address / 2 ^ 12 * 2)))

-- Over the identity mapping of 64 bits, with the value of SATP that `run` sets for `-64 -p`: outside
-- machine mode every translation of a 32-bit address succeeds, gives the address itself with no
-- fault recorded, and leaves a memory that has the identity mapping again.
pub virtual_to_physical-IsIdentity64 :
    (u : Mmu) (m : MemoryWrapper) (address : ℕ) (write_access : Bool)
    → IsIdentity64 m
    → address < 2 ^ 32
    → u.mxl ≡ 2
    → u.privilege ≢ machine_mode
    → (m' : MemoryWrapper) × (virtual_to_physical u m address (initial_satp true true) write_access
        ≡ some (address, record u { page_fault = false; faulting_address = 0 }, m'))
      × IsIdentity64 m'
unfolding entry
virtual_to_physical-IsIdentity64 u m address write_access identity small wide mode = (
  entered m (first0 + address / 2 ^ 12 * 2)
      (mark64 write_access (word m (first0 + address / 2 ^ 12 * 2))),
  virtual_to_physical_wide u m address (initial_satp true true) write_access mode wide
      ∙ translated64 m identity (record u { page_fault = false; faulting_address = 0 }) address
          write_access small,
  marked-IsIdentity64 m identity (address / 2 ^ 12) write_access (omega arith),
)
