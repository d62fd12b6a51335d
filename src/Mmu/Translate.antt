-- ===== src/Mmu/Translate.antt =====
-- `VirtualToPhysical`, over both widths and every mode.
use mathlib.Core.Path.{subst}
use m99_riscv_emulator.Prelude.{
  ℕ, zero, suc, ◌+◌, ◌*◌, ◌/◌, ◌%◌, ◌^◌, ◌≤◌, ◌<◌, ◌≡◌, refl, sym, ◌⊎◌, ◌∙◌, arith, Bool, true,
  false, ◌==◌, ==_iff, if◌then◌else◌, some, Bool-cases, inl, inr,
}
use m99_riscv_emulator.BitTools.{bitcrop}
use m99_riscv_emulator.BitTools.Fields.{bitcrop_lem}
use m99_riscv_emulator.Memory.{MemoryWrapper, write64, write32}
use m99_riscv_emulator.Memory.Word.{write32_total, index_of}
use m99_riscv_emulator.Memory.Bytes.{IsWords, stored-IsWords}
use m99_riscv_emulator.Memory.Wide.{write64_total}
use m99_riscv_emulator.Mmu.{
  Mmu, Translated, faulted, PrivilegeMode, user_mode, supervisor_mode, machine_mode,
  virtual_to_physical, virtual_to_physical32, virtual_to_physical64, WalkEnd,
}
use m99_riscv_emulator.Mmu.Mark.{mark32_lem, mark32-lt}
use m99_riscv_emulator.Mmu.Sv39
use m99_riscv_emulator.Mmu.Sv39.{Outcome64, marked_entry, virtual_to_physical64_outcome}
use m99_riscv_emulator.Mmu.Sv32
use m99_riscv_emulator.Mmu.Sv32.{Outcome32, virtual_to_physical32_outcome}

-- A translation that faulted: the address unchanged, recorded, and the memory as it was.
pub record IsFault (m : MemoryWrapper) (address : ℕ) (r : Translated) : Type 0 where
  pub flagged : r.1.page_fault ≡ true
  pub recorded : r.1.faulting_address ≡ address
  pub returned : r.0 ≡ address
  pub untouched : r.2 ≡ m

-- A translation that succeeded: no fault is recorded, and the place in the page is the address's.
pub record IsMapped (address : ℕ) (r : Translated) : Type 0 where
  pub unflagged : r.1.page_fault ≡ false
  pub cleared : r.1.faulting_address ≡ 0
  pub same_offset : r.0 % 2 ^ 12 ≡ address % 2 ^ 12

abbrev pub IsTranslation : MemoryWrapper → ℕ → Translated → Type 0
IsTranslation m address r = IsWords r.2 × (IsFault m address r ⊎ IsMapped address r)

some_inj : {a b : MemoryWrapper} → some a ≡ some b → a ≡ b
some_inj e = cc

kept64 :
    (m : MemoryWrapper) {m' : MemoryWrapper} (a v : ℕ)
    → a % 8 ≡ 0
    → write64 m a v ≡ some m'
    → IsWords m
    → IsWords m'
kept64 m a v aligned e h =
    let (m'', made, keeps) = write64_total m a v aligned in
    subst IsWords (some_inj (sym made ∙ e)) (keeps h)

kept32 :
    (m : MemoryWrapper) {m' : MemoryWrapper} (a v : ℕ)
    → a % 4 ≡ 0
    → v < 2 ^ 32
    → write32 m a v ≡ some m'
    → IsWords m
    → IsWords m'
kept32 m a v aligned fits e h =
    subst IsWords (some_inj (sym (write32_total m a v aligned) ∙ e))
      (stored-IsWords m (index_of a) v h fits)

same_offset64 :
    (page address level : ℕ)
    → level ≤ 2
    → (page * 2 ^ 12 + address % 2 ^ (12 + 9 * level)) % 2 ^ 12 ≡ address % 2 ^ 12
same_offset64 page address zero h = omega arith
same_offset64 page address (suc zero) h = omega arith
same_offset64 page address (suc (suc zero)) h = omega arith
same_offset64 page address (suc (suc (suc level))) h = absurd (omega arith)

same_offset32 :
    (page address level : ℕ)
    → level ≤ 1
    → (page * 2 ^ 12 + address % 2 ^ (12 + 10 * level)) % 2 ^ 32 % 2 ^ 12 ≡ address % 2 ^ 12
same_offset32 page address zero h = omega arith
same_offset32 page address (suc zero) h = omega arith
same_offset32 page address (suc (suc level)) h = absurd (omega arith)

module _ (u : Mmu) (m : MemoryWrapper) (address : ℕ) (write_access : Bool) (words : IsWords m)
    (clean : (u.page_fault ≡ false) × (u.faulting_address ≡ 0)) where
  faulted_lem : IsTranslation m address (faulted u m address)
  faulted_lem =
      (words, inl (record { flagged = refl; recorded = refl; returned = refl; untouched = refl }))

  identity_lem : IsTranslation m address (address, u, m)
  identity_lem =
      (words, inr (record { unflagged = clean.0; cleared = clean.1; same_offset = refl }))

  outcome64_lem :
      {e : WalkEnd} {r : Translated}
      → Outcome64 u m address write_access e r
      → IsTranslation m address r
  outcome64_lem Sv39.no_entry = faulted_lem
  outcome64_lem (Sv39.misplaced bad) = faulted_lem
  outcome64_lem (Sv39.mapped {level} {pte} {pte_address} {m'} low aligned fits good written) = (
    kept64 m pte_address (marked_entry write_access pte) aligned written words,
    inr (record {
      unflagged = clean.0;
      cleared = clean.1;
      same_offset = same_offset64 (pte / 2 ^ 10 % 2 ^ 44) address level low;
    }),
  )

  outcome32_lem :
      {e : WalkEnd} {r : Translated}
      → Outcome32 u m address write_access e r
      → IsTranslation m address r
  outcome32_lem Sv32.no_entry = faulted_lem
  outcome32_lem (Sv32.misplaced bad) = faulted_lem
  outcome32_lem (Sv32.mapped {level} {pte} {pte_address} {m'} low aligned fits good written) = (
    kept32 m pte_address (marked_entry write_access pte) aligned
        (omega (arith, mark32_lem write_access pte fits, mark32-lt write_access pte fits)) written
        words,
    inr (record {
      unflagged = clean.0;
      cleared = clean.1;
      same_offset = same_offset32 (pte / 2 ^ 10) address level low;
    }),
  )

  -- The two widths, in every mode of `satp`.
  total64 :
      (satp : ℕ)
      → (r : Translated) × (virtual_to_physical64 u m address satp write_access ≡ some r)
        × IsTranslation m address r
  unfolding virtual_to_physical64
  total64 satp = elim (Bool-cases (bitcrop satp 4 60 == 0)) [
    | inl bare ↦ ((address, u, m), rw bare, identity_lem)
    | inr paged ↦ elim (Bool-cases (bitcrop satp 4 60 == 8)) [
      | inl on ↦
          let (_, r, _, e, outcome) =
            virtual_to_physical64_outcome u m address write_access satp words ((==_iff _ _).0 on) in
          (r, e, outcome64_lem outcome)
      | inr unknown ↦ (faulted u m address, rw (paged, unknown), faulted_lem)
    ]
  ]

  total32 :
      (satp : ℕ)
      → (r : Translated) × (virtual_to_physical32 u m address satp write_access ≡ some r)
        × IsTranslation m address r
  unfolding virtual_to_physical32
  total32 satp = elim (Bool-cases (bitcrop satp 1 31 == 0)) [
    | inl bare ↦ ((address, u, m), rw bare, identity_lem)
    | inr paged ↦
        let on : bitcrop satp 1 31 ≡ 1 = ground (arith, bitcrop_lem satp 1 31 (omega arith)) in
        let (_, r, _, e, outcome) =
          virtual_to_physical32_outcome u m address write_access satp words on in
        (r, e, outcome32_lem outcome)
  ]

-- Every translation in a memory of words returns, whatever the mode and the tables: no assertion
-- fails. It leaves a memory of words, and either records a fault at the address, which it returns
-- with the memory untouched, or clears the fault and keeps the address's place in its page.
pub virtual_to_physical_total :
    (u : Mmu) (m : MemoryWrapper) (address satp : ℕ) (write_access : Bool)
    → IsWords m
    → (r : Translated) × (virtual_to_physical u m address satp write_access ≡ some r)
      × IsTranslation m address r
unfolding virtual_to_physical
virtual_to_physical_total u m address satp write_access words = by_mode u.privilege refl
  where
    v : Mmu
    v = record u { page_fault = false; faulting_address = 0 }

    translated :
        (r : Translated) × ((if u.mxl == 1
            then virtual_to_physical32 v m address satp write_access
            else virtual_to_physical64 v m address satp write_access)
          ≡ some r)
        × IsTranslation m address r
    translated = elim (Bool-cases (u.mxl == 1)) [
      | inl narrow ↦ rw narrow (total32 v m address write_access words (refl, refl) satp)
      | inr wide ↦ rw wide (total64 v m address write_access words (refl, refl) satp)
    ]

    by_mode :
        (mode : PrivilegeMode)
        → u.privilege ≡ mode
        → (r : Translated) × (virtual_to_physical u m address satp write_access ≡ some r)
          × IsTranslation m address r
    by_mode user_mode e = rw (e, virtual_to_physical) translated
    by_mode supervisor_mode e = rw (e, virtual_to_physical) translated
    by_mode machine_mode e = (
      (address, v, m),
      simp (e, virtual_to_physical),
      identity_lem v m address write_access words (refl, refl),
    )

-- In machine mode an address is not translated.
pub untranslated :
    (u : Mmu) (m : MemoryWrapper) (address satp : ℕ) (write_access : Bool)
    → u.privilege ≡ machine_mode
    → virtual_to_physical u m address satp write_access
      ≡ some (address, record u { page_fault = false; faulting_address = 0 }, m)
unfolding virtual_to_physical
untranslated u m address satp write_access mode = rw mode refl
