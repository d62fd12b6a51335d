-- ===== src/Mmu/Sv39.antt =====
-- The 64-bit translation against its specification: the leaf's page, at the offset of the address
-- in a page of the leaf's level.
use mathlib.Core.Path.{subst}
use native.Mathlib.Nat.{mod-eq_of_lt}
use m99_riscv_emulator.Prelude.{
  ℕ, zero, suc, ◌+◌, ◌*◌, ◌/◌, ◌%◌, ◌^◌, ◌≤◌, ◌<◌, ◌≡◌, ◌≢◌, sym, refl, ◌∙◌, ap, arith, Bool, true,
  false, some, Bool-cases, inl, inr, u64, u16, bit_or, bit_and, ◌<<<◌,
}
use m99_riscv_emulator.Prelude.Bits.{bit_and_mask, bit_or_disjoint}
use m99_riscv_emulator.BitTools.{bitcrop}
use m99_riscv_emulator.BitTools.Fields.{bitcrop_lem}
use m99_riscv_emulator.Memory.{MemoryWrapper, write64}
use m99_riscv_emulator.Memory.Bytes.{IsWords}
use m99_riscv_emulator.Memory.Wide.{write64_total}
use m99_riscv_emulator.Pte.Pte64
use m99_riscv_emulator.Mmu.{
  Mmu, Translated, faulted, WalkEnd, fault, leaf, misaligned64, mark64, compose64, vpn64, finish64,
  virtual_to_physical64,
}
use m99_riscv_emulator.Mmu.Mark.{mark64_fields, mark64_lem, dirty}
use m99_riscv_emulator.Mmu.Tables.{Walks64}
use m99_riscv_emulator.Mmu.Walks64.{walks64_lem}
use m99_riscv_emulator.Mmu.Walk64.{Ends64, walk64_total}

-- Joining four fields in place is their sum.
join :
    (p2 p1 p0 offset : ℕ)
    → p2 < 2 ^ 26
    → p1 < 2 ^ 9
    → p0 < 2 ^ 9
    → offset < 2 ^ 12
    → bit_and
        (bit_or (bit_or (bit_or (u64 (p2 <<< 30)) (u64 (p1 <<< 21))) (u64 (p0 <<< 12))) offset)
        0x00FFFFFFFFFFFFFF
      ≡ p2 * 2 ^ 30 + p1 * 2 ^ 21 + p0 * 2 ^ 12 + offset
join p2 p1 p0 offset h2 h1 h0 ho =
    let two : p2 * 2 ^ 30 + p1 * 2 ^ 21 ≡ (p2 * 2 ^ 9 + p1) * 2 ^ 21 = omega arith in
    let three : (p2 * 2 ^ 9 + p1) * 2 ^ 21 + p0 * 2 ^ 12
        ≡ ((p2 * 2 ^ 9 + p1) * 2 ^ 9 + p0) * 2 ^ 12 =
      omega arith in
    rw
      (
        mod-eq_of_lt {n = p2 * 2 ^ 30} {m = 2 ^ 64} (omega arith),
        mod-eq_of_lt {n = p1 * 2 ^ 21} {m = 2 ^ 64} (omega arith),
        mod-eq_of_lt {n = p0 * 2 ^ 12} {m = 2 ^ 64} (omega arith),
        bit_or_disjoint 30 p2 (p1 * 2 ^ 21) (omega arith),
        two,
        bit_or_disjoint 21 (p2 * 2 ^ 9 + p1) (p0 * 2 ^ 12) (omega arith),
        three,
        bit_or_disjoint 12 ((p2 * 2 ^ 9 + p1) * 2 ^ 9 + p0) offset ho,
      )
      (bit_and_mask 56 (((p2 * 2 ^ 9 + p1) * 2 ^ 9 + p0) * 2 ^ 12 + offset) ∙ omega arith)

-- The entry with the accessed flag set, and on a write the dirty flag.
abbrev pub marked_entry : Bool → ℕ → ℕ
marked_entry write_access pte = pte / 256 * 256 + dirty write_access pte + 64 + pte % 64

-- What the walk's end makes of the translation: a fault, which returns the address as it came and
-- records it, or the mapped address and the entry written back with its flags.
pub data Outcome64 (u : Mmu) (m : MemoryWrapper) (address : ℕ) (write_access : Bool)
    : WalkEnd → Translated → Type 0 where
  no_entry : Outcome64 u m address write_access fault (faulted u m address)
  misplaced :
      {level pte pte_address : ℕ}
      → pte / 2 ^ 10 % 2 ^ (9 * level) ≢ 0
      → Outcome64 u m address write_access (leaf level pte pte_address) (faulted u m address)
  mapped :
      {level pte pte_address : ℕ} {m' : MemoryWrapper}
      → level ≤ 2
      → pte_address % 8 ≡ 0
      → pte < 2 ^ 64
      → pte / 2 ^ 10 % 2 ^ (9 * level) ≡ 0
      → write64 m pte_address (marked_entry write_access pte) ≡ some m'
      → Outcome64 u m address write_access
          (leaf level pte pte_address)
          (pte / 2 ^ 10 % 2 ^ 44 * 2 ^ 12 + address % 2 ^ (12 + 9 * level), u, m')

module _ (address pte : ℕ) (write_access : Bool) (hp : pte < 2 ^ 64) where
  fields :
      (Pte64.get_ppn2 pte ≡ pte / 2 ^ 28 % 2 ^ 26)
      × (Pte64.get_ppn1 pte ≡ pte / 2 ^ 19 % 2 ^ 9)
      × (Pte64.get_ppn0 pte ≡ pte / 2 ^ 10 % 2 ^ 9)
  unfolding Pte64.get_ppn2 Pte64.get_ppn1 Pte64.get_ppn0
  fields = (
    bitcrop_lem pte 26 28 (omega arith),
    bitcrop_lem pte 9 19 (omega arith),
    bitcrop_lem pte 9 10 (omega arith),
  )

  parts :
      (u16 (bitcrop address 12 0) ≡ address % 2 ^ 12)
      × (vpn64 address 0 ≡ address / 2 ^ 12 % 2 ^ 9)
      × (vpn64 address 1 ≡ address / 2 ^ 21 % 2 ^ 9)
  unfolding vpn64
  parts = (
    omega (arith, bitcrop_lem address 12 0 (omega arith)),
    bitcrop_lem address 9 12 (omega arith),
    bitcrop_lem address 9 21 (omega arith),
  )

  marked :
      (Pte64.get_ppn2 (mark64 write_access pte) ≡ pte / 2 ^ 28 % 2 ^ 26)
      × (Pte64.get_ppn1 (mark64 write_access pte) ≡ pte / 2 ^ 19 % 2 ^ 9)
      × (Pte64.get_ppn0 (mark64 write_access pte) ≡ pte / 2 ^ 10 % 2 ^ 9)
  marked =
      let f = mark64_fields write_access pte hp in (f.2 ∙ fields.0, f.3 ∙ fields.1, f.4 ∙ fields.2)

  misplaced64 :
      (level : ℕ) → level ≤ 2 → misaligned64 level pte ≡ true → pte / 2 ^ 10 % 2 ^ (9 * level) ≢ 0
  unfolding misaligned64
  misplaced64 zero h bad = absurd cc
  misplaced64 (suc zero) h bad = λ e. ground (arith, fields.2, bad, e)
  misplaced64 (suc (suc zero)) h bad = λ e. ground (arith, fields.1, fields.2, bad, e)
  misplaced64 (suc (suc (suc level))) h bad = absurd (omega arith)

  well_placed64 :
      (level : ℕ) → level ≤ 2 → misaligned64 level pte ≡ false → pte / 2 ^ 10 % 2 ^ (9 * level) ≡ 0
  unfolding misaligned64
  well_placed64 zero h good = omega arith
  well_placed64 (suc zero) h good = ground (arith, fields.2, good)
  well_placed64 (suc (suc zero)) h good = ground (arith, fields.1, fields.2, good)
  well_placed64 (suc (suc (suc level))) h good = absurd (omega arith)

  pub compose64_lem :
      (level : ℕ)
      → level ≤ 2
      → misaligned64 level pte ≡ false
      → compose64 (vpn64 address) (u16 (bitcrop address 12 0)) level (mark64 write_access pte)
        ≡ pte / 2 ^ 10 % 2 ^ 44 * 2 ^ 12 + address % 2 ^ (12 + 9 * level)
  unfolding compose64 misaligned64
  compose64_lem zero h aligned =
      rw (marked.0, marked.1, marked.2, parts.0)
        (join (pte / 2 ^ 28 % 2 ^ 26) (pte / 2 ^ 19 % 2 ^ 9) (pte / 2 ^ 10 % 2 ^ 9)
            (address % 2 ^ 12) (omega arith) (omega arith) (omega arith) (omega arith)
          ∙ omega arith)
  compose64_lem (suc zero) h aligned =
      rw (marked.0, marked.1, parts.0, parts.1)
        (join (pte / 2 ^ 28 % 2 ^ 26) (pte / 2 ^ 19 % 2 ^ 9) (address / 2 ^ 12 % 2 ^ 9)
            (address % 2 ^ 12) (omega arith) (omega arith) (omega arith) (omega arith)
          ∙ ground (arith, fields.2))
  compose64_lem (suc (suc zero)) h aligned =
      rw (marked.0, parts.0, parts.1, parts.2)
        (join (pte / 2 ^ 28 % 2 ^ 26) (address / 2 ^ 21 % 2 ^ 9) (address / 2 ^ 12 % 2 ^ 9)
            (address % 2 ^ 12) (omega arith) (omega arith) (omega arith) (omega arith)
          ∙ ground (arith, fields.1, fields.2))
  compose64_lem (suc (suc (suc level))) h aligned = absurd (omega arith)

module _ (u : Mmu) (m : MemoryWrapper) (address : ℕ) (write_access : Bool) where
  finish64_lem :
      (e : WalkEnd)
      → Ends64 m 2 e
      → (r : Translated) × (finish64 u m address write_access e ≡ some r)
        × Outcome64 u m address write_access e r
  unfolding finish64
  finish64_lem fault ok = (faulted u m address, refl, no_entry)
  finish64_lem (leaf level pte a) ok = elim (Bool-cases (misaligned64 level pte)) [
    | inl bad ↦ (
      faulted u m address,
      rw bad,
      misplaced (misplaced64 address pte write_access ok.fits level ok.level_le bad),
    )
    | inr good ↦
        let (m', written, _) = write64_total m a (mark64 write_access pte) ok.aligned in
        (
          (pte / 2 ^ 10 % 2 ^ 44 * 2 ^ 12 + address % 2 ^ (12 + 9 * level), u, m'),
          rw (good, written)
              (ap (λ (t : ℕ). some (t, u, m'))
                (compose64_lem address pte write_access ok.fits level ok.level_le good)),
          mapped ok.level_le ok.aligned ok.fits
              (well_placed64 address pte write_access ok.fits level ok.level_le good)
              (rw (sym (mark64_lem write_access pte ok.fits)) written),
        )
  ]

  -- With translation on, in a memory of words: the walk through the tables (`Walks64`), from the
  -- page in SATP over at most three levels, comes to an end, and the translation returns what that end
  -- calls for (`Outcome64`). It is a fault where the walk met an entry that is not valid or a pointer
  -- at the lowest level, or where the leaf's page number is not a multiple of its level's pages. Else
  -- the entry is written back with its flags, and the address is that of the leaf's page at the offset
  -- that the given one has in a page of the leaf's level.
  pub virtual_to_physical64_outcome :
      (satp : ℕ)
      → IsWords m
      → bitcrop satp 4 60 ≡ 8
      → (e : WalkEnd) × (r : Translated) × Walks64 m address 2 (satp % 2 ^ 44) e
        × (virtual_to_physical64 u m address satp write_access ≡ some r)
        × Outcome64 u m address write_access e r
  unfolding virtual_to_physical64
  virtual_to_physical64_outcome satp words on =
      let (e, walked, ok) = walk64_total m (vpn64 address) words 2 (bitcrop satp 44 0) in
      let (r, finished, outcome) = finish64_lem e ok in
      let root : bitcrop satp 44 0 ≡ satp % 2 ^ 44 =
        bitcrop_lem satp 44 0 (omega arith) ∙ omega arith in
      (
        e,
        r,
        subst (λ n. Walks64 m address 2 n e) root
            (walks64_lem m address 2 (bitcrop satp 44 0) e (omega arith) walked),
        rw (on, walked) finished,
        outcome,
      )
