-- ===== src/Cpu/Transfer/Machine.antt =====
-- Loads and stores in machine mode, where addresses are not translated.
use native.Mathlib.Nat.{mod-eq_of_lt, mul-le-mul_right, pow-le-pow_right}
use m99_riscv_emulator.Prelude.{
  ℕ, ◌+◌, ◌-◌, ◌*◌, ◌^◌, ◌<◌, ◌≤◌, ◌≡◌, ◌⊎◌, refl, ◌∙◌, ap, arith, Bool, true, false, some,
  if◌then◌else◌, bit_or, ltb, u64, ◌<<<◌,
}
use m99_riscv_emulator.Prelude.Options.{bind_to}
use m99_riscv_emulator.Prelude.Bits.{pow_add, pow_pos, bit_or_comm, bit_or_disjoint}
use m99_riscv_emulator.BitTools.{bitcrop}
use m99_riscv_emulator.Memory.{MemoryWrapper}
use m99_riscv_emulator.Memory.Bytes.{byte, IsWords}
use m99_riscv_emulator.Mmu.{machine_mode, set_mxl, set_privilege}
use m99_riscv_emulator.Mmu.Translate.{untranslated}
use m99_riscv_emulator.Isa.Csrs
use m99_riscv_emulator.Cpu.{RiscvCpu, get_access_width}
use m99_riscv_emulator.Cpu.Width.{get_access_width_lem}
use m99_riscv_emulator.Cpu.Access.{virtual_to_physical, access_privilege, note_translation}
use m99_riscv_emulator.Cpu.Access.Load.{
  little_endian, load_wd_lem, little_endian-same, little_endian-lt, little_endian_split,
}
use m99_riscv_emulator.Cpu.Transfer.{load_parts, load_upper}

-- Machine mode, with MPRV clear and no fault noted.
pub record IsPlain (cpu : RiscvCpu) : Type 0 where
  pub mode : cpu.privilege ≡ machine_mode
  pub mprv : bitcrop (cpu.csrs Csrs.mstatus) 1 17 ≡ 0
  pub calm : cpu.page_fault ≡ false
  pub words : IsWords cpu.memory

-- The processor after an access: the unit for translation has been asked, and found no fault.
unfoldable pub asked : RiscvCpu → RiscvCpu
asked cpu = record cpu {
  mmu = record (set_privilege (set_mxl cpu.mmu cpu.mxl) machine_mode) {
    page_fault = false;
    faulting_address = 0;
  };
}

machine_access : (cpu : RiscvCpu) → IsPlain cpu → access_privilege cpu ≡ some machine_mode
unfolding access_privilege
machine_access cpu plain = rw (plain.mprv, plain.mode) refl

pub virtual_to_physical_machine :
    (cpu : RiscvCpu) (a : ℕ) (w : Bool)
    → IsPlain cpu
    → virtual_to_physical cpu a w ≡ some (a, asked cpu)
unfolding virtual_to_physical note_translation asked set_mxl set_privilege
virtual_to_physical_machine cpu a w plain = bind_to _ (machine_access cpu plain) (
    bind_to _
      (untranslated (set_privilege (set_mxl cpu.mmu cpu.mxl) machine_mode) cpu.memory a
        (cpu.csrs Csrs.satp) w refl)
      refl)

pub asked-IsPlain : (cpu : RiscvCpu) → IsPlain cpu → IsPlain (asked cpu)
unfolding asked
asked-IsPlain cpu plain = record {
  mode = plain.mode;
  mprv = plain.mprv;
  calm = plain.calm;
  words = plain.words;
}

-- Two parts of a load, put together.
parts_join :
    (m : MemoryWrapper) (a i j : ℕ)
    → i + j ≤ 8
    → bit_or (little_endian (byte m) a i) (u64 (little_endian (byte m) (a + i) j <<< (i * 8)))
      ≡ little_endian (byte m) a (i + j)
parts_join m a i j few =
    let low = little_endian (byte m) a i in
    let high = little_endian (byte m) (a + i) j in
    let place : 2 ^ (j * 8) * 2 ^ (i * 8) ≤ 2 ^ 64 =
      (let e = pow_add (j * 8) (i * 8) in
        rw (← e)
          (pow-le-pow_right (omega arith) (let t : j * 8 + i * 8 ≤ 64 = omega arith in t))) in
    let fits : high * 2 ^ (i * 8) < 2 ^ 64 = omega (
      arith,
      place,
      pow_pos (i * 8),
      mul-le-mul_right (2 ^ (i * 8)) (little_endian-lt m (a + i) j),
    ) in
    ap (bit_or low) (mod-eq_of_lt fits)
    ∙ bit_or_comm low (high * 2 ^ (i * 8))
    ∙ bit_or_disjoint (i * 8) high low (little_endian-lt m a i)
    ∙ omega (arith, little_endian_split (byte m) a i j)

load_upper_machine :
    (cpu : RiscvCpu) (a i j : ℕ)
    → IsPlain cpu
    → i + j ≤ 8
    → 1 ≤ j
    → load_upper cpu a i j (little_endian (byte cpu.memory) a i)
      ≡ some (little_endian (byte cpu.memory) a (i + j), asked cpu)
unfolding load_upper asked
load_upper_machine cpu a i j plain few one =
    bind_to _ (virtual_to_physical_machine cpu (u64 (a + i)) false plain) (
      rw (plain.calm) (
        bind_to _ (load_wd_lem cpu.memory (u64 (a + i)) j plain.words one (omega arith)) (
          ap (λ (t : ℕ). some (t, record (asked cpu) { page_fault = false }))
            (ap (λ (s : ℕ). bit_or (little_endian (byte cpu.memory) a i) (u64 (s <<< (i * 8))))
                (little_endian-same cpu.memory (u64 (a + i)) (a + i) j (omega arith))
              ∙ parts_join cpu.memory a i j few))))

-- The widths of the accesses.
abbrev pub IsWidth : ℕ → Type 0
IsWidth width = (width ≡ 1) ⊎ (width ≡ 2) ⊎ (width ≡ 4) ⊎ (width ≡ 8)

-- Whether there was a second part.
unfoldable pub asked_if : Bool → RiscvCpu → RiscvCpu
asked_if true cpu = asked cpu
asked_if false cpu = cpu

abbrev pub is_split : ℕ → ℕ → Bool
is_split width a = ltb 0 (width - get_access_width width a)

pub load_parts_machine :
    (cpu : RiscvCpu) (a width : ℕ)
    → IsPlain cpu
    → IsWidth width
    → load_parts cpu a width
      ≡ some (little_endian (byte cpu.memory) a width, asked_if (is_split width a) cpu)
unfolding load_parts asked_if
load_parts_machine cpu a width plain wide =
    let i = get_access_width width a in
    let (one, less, _, _) = get_access_width_lem width a wide in
    let few : width ≤ 8 = ground arith in
    bind_to _ (load_wd_lem cpu.memory a i plain.words one (omega arith))
      (by_split i one less few (ltb 0 (width - i)) refl)
  where
    by_split :
        (i : ℕ)
        → 0 < i
        → i ≤ width
        → width ≤ 8
        → (t : Bool) → ltb 0 (width - i) ≡ t
        → (if t
            then load_upper cpu a i (width - i) (little_endian (byte cpu.memory) a i)
            else some (little_endian (byte cpu.memory) a i, cpu))
          ≡ some (little_endian (byte cpu.memory) a width, asked_if t cpu)
    by_split i one less few true e =
        let sum : i + (width - i) ≡ width = omega arith in
        load_upper_machine cpu a i (width - i) plain (omega arith) (ground (arith, e))
        ∙ ap (λ (n : ℕ). some (little_endian (byte cpu.memory) a n, asked cpu)) sum
    by_split i one less few false e =
        let same : i ≡ width = ground (arith, e, less) in
        ap (λ (n : ℕ). some (little_endian (byte cpu.memory) a n, cpu)) same
