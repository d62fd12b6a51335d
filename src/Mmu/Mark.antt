-- ===== src/Mmu/Mark.antt =====
-- The accessed and dirty flags that a translation writes back.
use m99_riscv_emulator.Prelude.{
  ℕ, ◌+◌, ◌*◌, ◌/◌, ◌%◌, ◌^◌, ◌≤◌, ◌<◌, ◌≡◌, refl, sym, ◌⊎◌, ◌∙◌, arith, Bool, true, false,
  if◌then◌else◌,
}
use m99_riscv_emulator.BitTools.{bitcrop}
use m99_riscv_emulator.BitTools.Fields.{bitcrop_lem}
use m99_riscv_emulator.BitTools.Bits.{set_bit_lem}
use m99_riscv_emulator.Memory.Bytes.{four}
use m99_riscv_emulator.Pte.Pte64
use m99_riscv_emulator.Pte.Pte32
use m99_riscv_emulator.Mmu.{mark64, mark32}

abbrev pub dirty : Bool → ℕ → ℕ
dirty write_access pte = if write_access then 128 else pte / 128 % 2 * 128

pub mark64_lem :
    (write_access : Bool) (pte : ℕ)
    → pte < 2 ^ 64
    → mark64 write_access pte ≡ pte / 256 * 256 + dirty write_access pte + 64 + pte % 64
unfolding mark64 Pte64.set_a Pte64.set_d
mark64_lem true pte h = rw (set_bit_lem 64 pte 1 6 (omega arith) (omega arith) h) (
    set_bit_lem 64 ((pte / 64 / 2 * 2 + 1) * 64 + pte % 64) 1 7 (omega arith) (omega arith)
      (omega arith)
    ∙ omega arith)
mark64_lem false pte h = set_bit_lem 64 pte 1 6 (omega arith) (omega arith) h ∙ omega arith

pub mark32_lem :
    (write_access : Bool) (pte : ℕ)
    → pte < 2 ^ 32
    → mark32 write_access pte ≡ pte / 256 * 256 + dirty write_access pte + 64 + pte % 64
unfolding mark32 Pte32.set_a Pte32.set_d
mark32_lem true pte h = rw (set_bit_lem 32 pte 1 6 (omega arith) (omega arith) h) (
    set_bit_lem 32 ((pte / 64 / 2 * 2 + 1) * 64 + pte % 64) 1 7 (omega arith) (omega arith)
      (omega arith)
    ∙ omega arith)
mark32_lem false pte h = set_bit_lem 32 pte 1 6 (omega arith) (omega arith) h ∙ omega arith

pub mark64-lt : (write_access : Bool) (pte : ℕ) → pte < 2 ^ 64 → mark64 write_access pte < 2 ^ 64
mark64-lt true pte h = omega (arith, mark64_lem true pte h)
mark64-lt false pte h = omega (arith, mark64_lem false pte h)

pub mark32-lt : (write_access : Bool) (pte : ℕ) → pte < 2 ^ 32 → mark32 write_access pte < 2 ^ 32
mark32-lt true pte h = omega (arith, mark32_lem true pte h)
mark32-lt false pte h = omega (arith, mark32_lem false pte h)

-- A field that a marked entry has as before.
kept :
    (p q width offset : ℕ)
    → width ≤ 64
    → p / 2 ^ offset % 2 ^ width ≡ q / 2 ^ offset % 2 ^ width
    → bitcrop p width offset ≡ bitcrop q width offset
kept p q width offset h e = bitcrop_lem p width offset h ∙ e ∙ sym (bitcrop_lem q width offset h)

module _ (write_access : Bool) (pte : ℕ) (h : pte < 2 ^ 64) where
  value : mark64 write_access pte ≡ pte / 256 * 256 + dirty write_access pte + 64 + pte % 64
  value = mark64_lem write_access pte h

  dirty_cases : (dirty write_access pte ≡ 0) ⊎ (dirty write_access pte ≡ 128)
  dirty_cases = ground arith

  low :
      (offset : ℕ) → offset < 4 → bitcrop (mark64 write_access pte) 1 offset ≡ bitcrop pte 1 offset
  low offset h =
      four (λ o. bitcrop (mark64 write_access pte) 1 o ≡ bitcrop pte 1 o)
        (at 0 (omega (arith, value, dirty_cases))) (at 1 (omega (arith, value, dirty_cases)))
        (at 2 (omega (arith, value, dirty_cases))) (at 3 (omega (arith, value, dirty_cases))) offset
        h
    where
      at :
          (o : ℕ)
          → mark64 write_access pte / 2 ^ o % 2 ≡ pte / 2 ^ o % 2
          → bitcrop (mark64 write_access pte) 1 o ≡ bitcrop pte 1 o
      at o e = kept (mark64 write_access pte) pte 1 o (omega arith) e

  -- Marking a 64-bit entry sets its accessed flag, and its dirty flag where the access writes
  -- (else that flag stays), and leaves its three page numbers, its validity and its being a leaf.
  pub mark64_fields :
      (Pte64.get_a (mark64 write_access pte) ≡ 1)
      × (Pte64.get_d (mark64 write_access pte) ≡ (if write_access then 1 else Pte64.get_d pte))
      × (Pte64.get_ppn2 (mark64 write_access pte) ≡ Pte64.get_ppn2 pte)
      × (Pte64.get_ppn1 (mark64 write_access pte) ≡ Pte64.get_ppn1 pte)
      × (Pte64.get_ppn0 (mark64 write_access pte) ≡ Pte64.get_ppn0 pte)
      × (Pte64.is_valid (mark64 write_access pte) ≡ Pte64.is_valid pte)
      × (Pte64.is_leaf (mark64 write_access pte) ≡ Pte64.is_leaf pte)
  unfolding Pte64.get_a Pte64.get_d Pte64.get_ppn2 Pte64.get_ppn1 Pte64.get_ppn0 Pte64.is_valid
      Pte64.is_leaf
  mark64_fields = (
    bitcrop_lem (mark64 write_access pte) 1 6 (omega arith) ∙ omega (arith, value, dirty_cases),
    ground (
      arith,
      value,
      bitcrop_lem (mark64 write_access pte) 1 7 (omega arith),
      bitcrop_lem pte 1 7 (omega arith),
    ),
    kept (mark64 write_access pte) pte 26 28 (omega arith) (omega (arith, value, dirty_cases)),
    kept (mark64 write_access pte) pte 9 19 (omega arith) (omega (arith, value, dirty_cases)),
    kept (mark64 write_access pte) pte 9 10 (omega arith) (omega (arith, value, dirty_cases)),
    rw (low 0 (omega arith), low 1 (omega arith), low 2 (omega arith)) refl,
    rw (low 1 (omega arith), low 2 (omega arith), low 3 (omega arith)) refl,
  )
