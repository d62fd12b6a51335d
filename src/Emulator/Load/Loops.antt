-- ===== src/Emulator/Load/Loops.antt =====
-- The two byte loops of the loader: the copy of a segment, and the clearing of `.bss`.
use m99_riscv_emulator.Prelude.{
  ℕ, zero, suc, ◌+◌, ◌-◌, ◌%◌, ◌^◌, ◌≤◌, ◌<◌, ◌≡◌, refl, ap, ◌∙◌, arith, ◌&&◌, Option, some, ltb,
  leb, Bool-cases, inl, inr, if◌then◌else◌, u32,
}
use m99_riscv_emulator.Prelude.Tables.{get_elem?, get_elem?-some, get_or, length}
use m99_riscv_emulator.Prelude.Options.{bind_to}
use m99_riscv_emulator.Memory.{MemoryWrapper}
use m99_riscv_emulator.Memory.Bytes.{byte, IsWords, write_byte_total}
use m99_riscv_emulator.Emulator.{max_binary_size}
use m99_riscv_emulator.Emulator.Elf.{Program, Phdr, Class, elf32, elf64}
use m99_riscv_emulator.Emulator.Load.{bits, copy_loop, zero_loop}

-- How far an address lies behind another, where addresses wrap at 2 ^ 32.
abbrev pub behind : ℕ → ℕ → ℕ
behind start j = (j % 2 ^ 32 + 2 ^ 32 - start % 2 ^ 32) % 2 ^ 32

narrower : (class : Class) (x : ℕ) → x % 2 ^ bits class % 2 ^ 32 ≡ x % 2 ^ 32
narrower elf32 x = omega arith
narrower elf64 x = omega arith

pub in_width : (class : Class) (x : ℕ) → x < 2 ^ 32 → x % 2 ^ bits class ≡ x
in_width elf32 x h = omega arith
in_width elf64 x h = omega arith

-- The bytes of a file that `ReadFile` accepts.
pub record IsFile (program : Program) : Type 0 where
  pub size_le : length program ≤ max_binary_size
  pub bytes : (k : ℕ) → get_or program k 0 < 2 ^ 8

module _ (class : Class) (program : Program) (file : IsFile program) (phdr : Phdr)
    (inside : phdr.p_offset + phdr.p_filesz ≤ length program) where
  abbrev pub Copied : ℕ → ℕ → MemoryWrapper → MemoryWrapper → Type 0
  Copied n i m m' =
      (j : ℕ)
      → byte m' j ≡ (
          if leb i (behind phdr.p_vaddr j) && ltb (behind phdr.p_vaddr j) (i + n)
          then get_or program (phdr.p_offset + behind phdr.p_vaddr j) 0
          else byte m j)

  pub copy_loop_lem :
      (n i : ℕ) (m : MemoryWrapper)
      → i + n ≤ phdr.p_filesz
      → IsWords m
      → (m' : MemoryWrapper) × (copy_loop class program phdr n i m ≡ some m')
        × IsWords m'
        × Copied n i m m'
  unfolding copy_loop
  copy_loop_lem zero i m h words = (m, refl, words, λ j. ground arith)
  copy_loop_lem (suc n) i m h words =
      let place = in_width class (phdr.p_offset + i) (omega (arith, file.size_le)) in
      let found = get_elem?-some program (phdr.p_offset + i) 0 (omega (arith, file.size_le)) in
      let (m1, wrote, words1, now) =
        write_byte_total m ((phdr.p_vaddr + i) % 2 ^ bits class)
          (get_or program (phdr.p_offset + i) 0) words (file.bytes (phdr.p_offset + i)) in
      let (m2, rest, words2, then') = copy_loop_lem n (suc i) m1 (omega arith) words1 in
      (
        m2,
        bind_to _ (ap (get_elem? program) place ∙ found) (bind_to _ wrote rest),
        words2,
        λ j. ground (arith, now j, then' j, narrower class (phdr.p_vaddr + i), file.size_le),
      )

-- The memory that a step of the loader leaves, by its bytes.
abbrev pub Leaves : Option MemoryWrapper → (ℕ → ℕ) → Type 0
Leaves o f = (m : MemoryWrapper) × (o ≡ some m) × IsWords m × ((j : ℕ) → byte m j ≡ f j)

pub zero_loop_lem :
    (fuel i end : ℕ) (m : MemoryWrapper)
    → end < 2 ^ 32
    → i ≤ end
    → end - i < fuel
    → IsWords m
    → Leaves
        (zero_loop fuel i end m)
        (λ j. if leb i (j % 2 ^ 32) && ltb (j % 2 ^ 32) end then 0 else byte m j)
unfolding zero_loop
zero_loop_lem zero i end m he hi enough words = absurd (omega arith)
zero_loop_lem (suc fuel) i end m he hi enough words = elim (Bool-cases (ltb i end)) [
  | inr done ↦ (m, rw done refl, words, λ j. ground arith)
  | inl more ↦
      let (m1, wrote, words1, now) = write_byte_total m i 0 words (omega arith) in
      let next : u32 (i + 1) ≡ i + 1 = ground arith in
      let (m2, rest, words2, later) =
        zero_loop_lem fuel (i + 1) end m1 he (ground arith) (ground arith) words1 in
      (m2, rw more (bind_to _ wrote (rw next rest)), words2, λ j. ground (arith, now j, later j))
]
