-- ===== src/Mmu/Sv32.antt =====
-- The 32-bit translation against its specification. Its result is cut to 32 bits.
use mathlib.Core.Path.{subst}
use native.Mathlib.Nat.{mod-eq_of_lt}
use m99_riscv_emulator.Prelude.{
  ℕ, zero, suc, ◌+◌, ◌*◌, ◌/◌, ◌%◌, ◌^◌, ◌≤◌, ◌<◌, ◌≡◌, ◌≢◌, sym, refl, ◌⊎◌, ◌∙◌, ap, arith, Bool,
  true, false, some, Bool-cases, inl, inr, u64, u32, u16, bit_or, bit_and, ◌<<<◌,
}
use m99_riscv_emulator.Prelude.Bits.{bit_and_mask, bit_or_disjoint}
use m99_riscv_emulator.BitTools.{bitcrop}
use m99_riscv_emulator.BitTools.Fields.{bitcrop_lem}
use m99_riscv_emulator.Memory.{MemoryWrapper, write32}
use m99_riscv_emulator.Memory.Word.{write32_total, stored, index_of}
use m99_riscv_emulator.Memory.Bytes.{IsWords}
use m99_riscv_emulator.Pte.Pte32
use m99_riscv_emulator.Mmu.{
  Mmu, Translated, faulted, WalkEnd, fault, leaf, misaligned32, mark32, compose32, vpn32, finish32,
  virtual_to_physical32,
}
use m99_riscv_emulator.Mmu.Mark.{mark32_lem, dirty}
use m99_riscv_emulator.Mmu.Sv39.{marked_entry}
use m99_riscv_emulator.Mmu.Tables.{Walks32}
use m99_riscv_emulator.Mmu.Walks32.{walks32_lem}
use m99_riscv_emulator.Mmu.Walk32.{Ends32, walk32_total}

join :
    (p1 p0 offset : ℕ)
    → p1 < 2 ^ 12
    → p0 < 2 ^ 10
    → offset < 2 ^ 12
    → bit_and (bit_or (bit_or (u64 (p1 <<< 22)) (u64 (p0 <<< 12))) offset) 0xFFFFFFFF
      ≡ (p1 * 2 ^ 22 + p0 * 2 ^ 12 + offset) % 2 ^ 32
join p1 p0 offset h1 h0 ho =
    let two : p1 * 2 ^ 22 + p0 * 2 ^ 12 ≡ (p1 * 2 ^ 10 + p0) * 2 ^ 12 = omega arith in
    rw
      (
        mod-eq_of_lt {n = p1 * 2 ^ 22} {m = 2 ^ 64} (omega arith),
        mod-eq_of_lt {n = p0 * 2 ^ 12} {m = 2 ^ 64} (omega arith),
        bit_or_disjoint 22 p1 (p0 * 2 ^ 12) (omega arith),
        two,
        bit_or_disjoint 12 (p1 * 2 ^ 10 + p0) offset ho,
      )
      (bit_and_mask 32 ((p1 * 2 ^ 10 + p0) * 2 ^ 12 + offset))

-- As `Outcome64`, for the two levels and the 22-bit page numbers of 32-bit entries.
pub data Outcome32 (u : Mmu) (m : MemoryWrapper) (address : ℕ) (write_access : Bool)
    : WalkEnd → Translated → Type 0 where
  no_entry : Outcome32 u m address write_access fault (faulted u m address)
  misplaced :
      {level pte pte_address : ℕ}
      → pte / 2 ^ 10 % 2 ^ (10 * level) ≢ 0
      → Outcome32 u m address write_access (leaf level pte pte_address) (faulted u m address)
  mapped :
      {level pte pte_address : ℕ} {m' : MemoryWrapper}
      → level ≤ 1
      → pte_address % 4 ≡ 0
      → pte < 2 ^ 32
      → pte / 2 ^ 10 % 2 ^ (10 * level) ≡ 0
      → write32 m pte_address (marked_entry write_access pte) ≡ some m'
      → Outcome32 u m address write_access
          (leaf level pte pte_address)
          ((pte / 2 ^ 10 * 2 ^ 12 + address % 2 ^ (12 + 10 * level)) % 2 ^ 32, u, m')

module _ (address pte : ℕ) (write_access : Bool) (hp : pte < 2 ^ 32) where
  marked :
      (Pte32.get_ppn1 (mark32 write_access pte) ≡ pte / 2 ^ 20)
      × (Pte32.get_ppn0 (mark32 write_access pte) ≡ pte / 2 ^ 10 % 2 ^ 10)
  unfolding Pte32.get_ppn1 Pte32.get_ppn0
  marked =
      let value = mark32_lem write_access pte hp in
      let two : (dirty write_access pte ≡ 0) ⊎ (dirty write_access pte ≡ 128) = ground arith in
      (
        bitcrop_lem (mark32 write_access pte) 12 20 (omega arith) ∙ omega (arith, value, two),
        bitcrop_lem (mark32 write_access pte) 10 10 (omega arith) ∙ omega (arith, value, two),
      )

  parts :
      (u16 (bitcrop address 12 0) ≡ address % 2 ^ 12)
      × (vpn32 address 0 ≡ address / 2 ^ 12 % 2 ^ 10)
  unfolding vpn32
  parts = (
    omega (arith, bitcrop_lem address 12 0 (omega arith)),
    omega (arith, bitcrop_lem address 10 12 (omega arith)),
  )

  ppn0_lem : Pte32.get_ppn0 pte ≡ pte / 2 ^ 10 % 2 ^ 10
  unfolding Pte32.get_ppn0
  ppn0_lem = bitcrop_lem pte 10 10 (omega arith)

  misplaced32 :
      (level : ℕ) → level ≤ 1 → misaligned32 level pte ≡ true → pte / 2 ^ 10 % 2 ^ (10 * level) ≢ 0
  unfolding misaligned32
  misplaced32 zero h bad = absurd cc
  misplaced32 (suc zero) h bad = λ e. ground (arith, ppn0_lem, bad, e)
  misplaced32 (suc (suc level)) h bad = absurd (omega arith)

  well_placed32 :
      (level : ℕ) → level ≤ 1 → misaligned32 level pte ≡ false → pte / 2 ^ 10 % 2 ^ (10 * level) ≡ 0
  unfolding misaligned32
  well_placed32 zero h good = omega arith
  well_placed32 (suc zero) h good = ground (arith, ppn0_lem, good)
  well_placed32 (suc (suc level)) h good = absurd (omega arith)

  pub compose32_lem :
      (level : ℕ)
      → level ≤ 1
      → misaligned32 level pte ≡ false
      → compose32 (vpn32 address) (u16 (bitcrop address 12 0)) level (mark32 write_access pte)
        ≡ (pte / 2 ^ 10 * 2 ^ 12 + address % 2 ^ (12 + 10 * level)) % 2 ^ 32
  unfolding compose32 misaligned32
  compose32_lem zero h aligned =
      rw (marked.0, marked.1, parts.0)
        (join (pte / 2 ^ 20) (pte / 2 ^ 10 % 2 ^ 10) (address % 2 ^ 12) (omega arith) (omega arith)
            (omega arith)
          ∙ omega arith)
  compose32_lem (suc zero) h aligned =
      rw (marked.0, parts.0, parts.1)
        (join (pte / 2 ^ 20) (address / 2 ^ 12 % 2 ^ 10) (address % 2 ^ 12) (omega arith)
            (omega arith) (omega arith)
          ∙ ground (arith, ppn0_lem))
  compose32_lem (suc (suc level)) h aligned = absurd (omega arith)

module _ (u : Mmu) (m : MemoryWrapper) (address : ℕ) (write_access : Bool) where
  finish32_lem :
      (e : WalkEnd)
      → Ends32 m 1 e
      → (r : Translated) × (finish32 u m address write_access e ≡ some r)
        × Outcome32 u m address write_access e r
  unfolding finish32
  finish32_lem fault ok = (faulted u m address, refl, no_entry)
  finish32_lem (leaf level pte a) ok = elim (Bool-cases (misaligned32 level pte)) [
    | inl bad ↦ (
      faulted u m address,
      rw bad,
      misplaced (misplaced32 address pte write_access ok.fits level ok.level_le bad),
    )
    | inr good ↦
        let m' : MemoryWrapper = stored m (index_of a) (mark32 write_access pte) in
        let written = write32_total m a (mark32 write_access pte) ok.aligned in
        (
          ((pte / 2 ^ 10 * 2 ^ 12 + address % 2 ^ (12 + 10 * level)) % 2 ^ 32, u, m'),
          rw (good, written)
              (ap (λ (t : ℕ). some (t, u, m'))
                (compose32_lem address pte write_access ok.fits level ok.level_le good)),
          mapped ok.level_le ok.aligned ok.fits
              (well_placed32 address pte write_access ok.fits level ok.level_le good)
              (rw (sym (mark32_lem write_access pte ok.fits)) written),
        )
  ]

  -- With translation on, in a memory of words: the walk through the tables (`Walks32`), from the
  -- page in SATP over at most two levels, comes to an end, and the translation returns what that end
  -- calls for (`Outcome32`). It is a fault where the walk met an entry that is not valid or a pointer
  -- at the lowest level, or where the leaf's page number is not a multiple of its level's pages. Else
  -- the entry is written back with its flags, and the address is that of the leaf's page at the offset
  -- that the given one has in a page of the leaf's level, cut to 32 bits.
  pub virtual_to_physical32_outcome :
      (satp : ℕ)
      → IsWords m
      → bitcrop satp 1 31 ≡ 1
      → (e : WalkEnd) × (r : Translated) × Walks32 m address 1 (satp % 2 ^ 22) e
        × (virtual_to_physical32 u m address satp write_access ≡ some r)
        × Outcome32 u m address write_access e r
  unfolding virtual_to_physical32
  virtual_to_physical32_outcome satp words on =
      let (e, walked, ok) = walk32_total m (vpn32 address) words 1 (u32 (bitcrop satp 22 0)) in
      let (r, finished, outcome) = finish32_lem e ok in
      let root : u32 (bitcrop satp 22 0) ≡ satp % 2 ^ 22 =
        omega (arith, bitcrop_lem satp 22 0 (omega arith)) in
      (
        e,
        r,
        subst (λ n. Walks32 m address 1 n e) root
            (walks32_lem m address 1 (u32 (bitcrop satp 22 0)) e (omega arith) walked),
        rw (on, walked) finished,
        outcome,
      )
