-- ===== src/Emulator/Load/Image.antt =====
-- What loading a file leaves in memory, byte by byte.
use m99_riscv_emulator.Prelude.{
  ℕ, zero, suc, ◌+◌, ◌*◌, ◌^◌, ◌≤◌, ◌<◌, ◌≡◌, refl, ap, ◌∙◌, arith, ◌&&◌, Option, none, some, ltb,
  ◌==◌, ==_iff, Bool-cases, inl, inr, if◌then◌else◌, u32,
}
use mathlib.Core.Path.{fun_ext}
use m99_riscv_emulator.Prelude.Tables.{get_or, length}
use m99_riscv_emulator.Prelude.Options.{bind_to}
use m99_riscv_emulator.Prelude.Text.{codes}
use m99_riscv_emulator.Memory.{MemoryWrapper}
use m99_riscv_emulator.Memory.Bytes.{byte, IsWords}
use m99_riscv_emulator.Emulator.Elf.{
  Program, Ehdr, Shdr, Phdr, Class, ElfHeaders, get_ehdr, search_by_name,
}
use m99_riscv_emulator.Emulator.Load.{load_segment, load_segments, clear_bss, load_class}
use m99_riscv_emulator.Emulator.Load.Loops.{
  behind, in_width, IsFile, copy_loop_lem, Leaves, zero_loop_lem,
}

-- A segment over the bytes `f` that were there.
pub segment_image : ElfHeaders → Program → Phdr → (ℕ → ℕ) → ℕ → ℕ
segment_image h program phdr f j =
    if (phdr.p_type == h.pt_load) && ltb (behind phdr.p_vaddr j) phdr.p_filesz
    then get_or program (phdr.p_offset + behind phdr.p_vaddr j) 0
    else f j

-- The segments from the `i`th, in their order.
pub segments_image : ElfHeaders → Program → (ℕ → Phdr) → ℕ → ℕ → (ℕ → ℕ) → ℕ → ℕ
segments_image h program phdrs zero i f = f
segments_image h program phdrs (suc n) i f =
    segments_image h program phdrs n (suc i) (segment_image h program (phdrs i) f)

-- A cleared section over the bytes that were there.
pub bss_image : Option Shdr → (ℕ → ℕ) → ℕ → ℕ
bss_image none f j = f j
bss_image (some shdr) f j = if ltb (behind shdr.sh_addr j) shdr.sh_size then 0 else f j

abbrev pub BssFits : Option Shdr → Type 0
BssFits none = Unit
BssFits (some shdr) = shdr.sh_addr + shdr.sh_size < 2 ^ 32

-- A file that can be loaded: its headers can be read, its segments lie in it, and its `.bss` ends
-- below the end of the 32-bit addresses.
pub record IsLoadable (h : ElfHeaders) (class : Class) (program : Program) (ehdr : Ehdr)
    (phdrs : ℕ → Phdr) (bss : Option Shdr) : Type 0 where
  pub file : IsFile program
  pub header : get_ehdr h class program ≡ some ehdr
  pub readable :
      (i : ℕ)
      → i < ehdr.e_phnum
      → h.phdr_at class program (ehdr.e_phoff + ehdr.e_phentsize * i) ≡ some (phdrs i)
  pub inside :
      (i : ℕ)
      → i < ehdr.e_phnum
      → (phdrs i).p_type ≡ h.pt_load
      → (phdrs i).p_offset + (phdrs i).p_filesz ≤ length program
  pub searched : search_by_name h class program (codes ".bss") ≡ some bss
  pub bss_fits : BssFits bss

clear_bss_lem :
    (class : Class) (shdr : Shdr) (m : MemoryWrapper)
    → shdr.sh_addr + shdr.sh_size < 2 ^ 32
    → IsWords m
    → Leaves (clear_bss class shdr m) (bss_image (some shdr) (byte m))
unfolding clear_bss bss_image
clear_bss_lem class shdr m h words =
    let (m', cleared, words', now) =
      zero_loop_lem (2 ^ 32) shdr.sh_addr (shdr.sh_addr + shdr.sh_size) m h (omega arith)
        (omega arith) words in
    let start : u32 shdr.sh_addr ≡ shdr.sh_addr = omega arith in
    let stop = in_width class (shdr.sh_addr + shdr.sh_size) h in
    (m', rw (start, stop) cleared, words', λ j. ground (arith, now j))

module _ (h : ElfHeaders) (class : Class) (program : Program) (file : IsFile program) where
  load_segment_lem :
      (phdr : Phdr) (m : MemoryWrapper)
      → (phdr.p_type ≡ h.pt_load → phdr.p_offset + phdr.p_filesz ≤ length program)
      → IsWords m
      → Leaves (load_segment h class program phdr m) (segment_image h program phdr (byte m))
  unfolding load_segment segment_image
  load_segment_lem phdr m inside words = elim (Bool-cases (phdr.p_type == h.pt_load)) [
    | inr other ↦ (m, rw other refl, words, λ j. rw other refl)
    | inl loads ↦
        let (m', copied, words', now) =
          copy_loop_lem class program file phdr (inside ((==_iff _ _).0 loads)) phdr.p_filesz 0 m
            (omega arith) words in
        (m', rw loads copied, words', λ j. ground (arith, now j))
  ]

  load_segments_lem :
      (ehdr : Ehdr) (phdrs : ℕ → Phdr) (n i : ℕ) (m : MemoryWrapper)
      → ((k : ℕ)
          → k < i + n
          → h.phdr_at class program (ehdr.e_phoff + ehdr.e_phentsize * k) ≡ some (phdrs k))
      → ((k : ℕ)
          → k < i + n
          → (phdrs k).p_type ≡ h.pt_load
          → (phdrs k).p_offset + (phdrs k).p_filesz ≤ length program)
      → IsWords m
      → Leaves
          (load_segments h class program ehdr n i m)
          (segments_image h program phdrs n i (byte m))
  unfolding load_segments segments_image
  load_segments_lem ehdr phdrs zero i m readable inside words = (m, refl, words, λ j. refl)
  load_segments_lem ehdr phdrs (suc n) i m readable inside words =
      let (m1, loaded, words1, now) = load_segment_lem (phdrs i) m (inside i (omega arith)) words in
      let (m2, rest, words2, later) =
        load_segments_lem ehdr phdrs n (suc i) m1 (λ k l. readable k (omega arith))
          (λ k l. inside k (omega arith)) words1 in
      (
        m2,
        bind_to _ (readable i (omega arith)) (bind_to _ loaded rest),
        words2,
        λ j. later j ∙ ap (λ f. segments_image h program phdrs n (suc i) f j) (fun_ext now),
      )

-- The memory of a file by its headers: the segments in their order, and `.bss` last.
pub file_image : ElfHeaders → Program → Ehdr → (ℕ → Phdr) → Option Shdr → (ℕ → ℕ) → ℕ → ℕ
file_image h program ehdr phdrs bss f =
    bss_image bss (segments_image h program phdrs ehdr.e_phnum 0 f)

-- Loading a file whose headers can be read, whose segments lie in it and whose `.bss` ends below
-- 2 ^ 32, into a memory of words: the load succeeds, and every byte of the memory is then the one
-- that the file's headers call for. The segments of the type to load are laid over the memory in
-- their order, the `.bss` section is zero after that, and any other byte is as it was.
pub load_class_lem :
    (h : ElfHeaders) (class : Class) (program : Program) (ehdr : Ehdr) (phdrs : ℕ → Phdr)
    (bss : Option Shdr) (m : MemoryWrapper)
    → IsLoadable h class program ehdr phdrs bss
    → IsWords m
    → (m' : MemoryWrapper) × (load_class h class program m ≡ some m')
      × IsWords m'
      × ((j : ℕ) → byte m' j ≡ file_image h program ehdr phdrs bss (byte m) j)
unfolding load_class file_image
load_class_lem h class program ehdr phdrs none m ok words =
    let (m1, loaded, words1, now) =
      load_segments_lem h class program ok.file ehdr phdrs ehdr.e_phnum 0 m
        (λ k l. ok.readable k (omega arith)) (λ k l. ok.inside k (omega arith)) words in
    (
      m1,
      bind_to _ ok.header (bind_to _ loaded (bind_to _ ok.searched refl)),
      words1,
      unfold bss_image in now,
    )
load_class_lem h class program ehdr phdrs (some shdr) m ok words =
    let (m1, loaded, words1, now) =
      load_segments_lem h class program ok.file ehdr phdrs ehdr.e_phnum 0 m
        (λ k l. ok.readable k (omega arith)) (λ k l. ok.inside k (omega arith)) words in
    let (m2, cleared, words2, later) = clear_bss_lem class shdr m1 ok.bss_fits words1 in
    (
      m2,
      bind_to _ ok.header (bind_to _ loaded (bind_to _ ok.searched cleared)),
      words2,
      λ j. later j ∙ ap (λ f. bss_image (some shdr) f j) (fun_ext now),
    )
