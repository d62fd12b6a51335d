-- ===== src/Mmu.antt =====
-- Virtual memory, Mmu.cpp and Mmu.h, over riscv_cpu_common.h. The memory that the `Mmu` shares with
-- the processor is handed in and out. `none` is a failed assertion of the memory.
pub mod Tables
pub mod Walks64
pub mod Walks32
pub mod Walk64
pub mod Walk32
pub mod Sv39
pub mod Mark
pub mod Sv32
pub mod Translate
pub mod Pages
use m99_riscv_emulator.Prelude.{
  ℕ, zero, suc, ◌+◌, ◌*◌, ◌%◌, ◌^◌, Bool, true, false, Option, none, some, ◌||◌, ◌&&◌, not, bit_or,
  bit_and, ltb, ◌==◌, if◌then◌else◌, ◌>>=◌, u16, u32, u64, ◌<<<◌,
}
use m99_riscv_emulator.BitTools.{bitcrop}
use m99_riscv_emulator.Memory.{MemoryWrapper, read32, read64, write32, write64}
use m99_riscv_emulator.Pte.Pte32
use m99_riscv_emulator.Pte.Pte64

pub data PrivilegeMode : Type 0 where
  user_mode supervisor_mode machine_mode : PrivilegeMode

pub record Mmu : Type 0 where
  pub mxl : ℕ
  pub page_fault : Bool
  pub faulting_address : ℕ
  pub privilege : PrivilegeMode

abbrev pub initial : Mmu
initial = record {
  mxl = 0;
  page_fault = false;
  faulting_address = 0;
  privilege = PrivilegeMode.machine_mode;
}

unfoldable pub set_mxl : Mmu → ℕ → Mmu
set_mxl u mxl = record u { mxl = mxl }

unfoldable pub set_privilege : Mmu → PrivilegeMode → Mmu
set_privilege u privilege = record u { privilege = privilege }

abbrev pub page_size : ℕ
page_size = 1 <<< 12

-- How the loop over the levels ends: with a page fault, or at a leaf that it found at `level` and
-- read from `pte_address`.
pub data WalkEnd : Type 0 where
  fault : WalkEnd
  leaf : (level pte pte_address : ℕ) → WalkEnd

-- What a translation returns: the address and what it leaves behind.
abbrev pub Translated : Type 0
Translated = ℕ × Mmu × MemoryWrapper

-- The error returns: the address as it came, and the fault recorded.
abbrev pub faulted : Mmu → MemoryWrapper → ℕ → Translated
faulted u mem virtual_address =
    (virtual_address, record u { page_fault = true; faulting_address = virtual_address }, mem)

abbrev pub pte_address64 : (ℕ → ℕ) → ℕ → ℕ → ℕ
pte_address64 vpn level ppn = u64 (u64 (ppn * page_size) + vpn level * 8)

-- The loop from `level` down, with the page number of the table at that level.
pub walk64 : MemoryWrapper → (ℕ → ℕ) → ℕ → ℕ → Option WalkEnd
walk64 mem vpn zero ppn = do
  pte ← read64 mem (pte_address64 vpn 0 ppn)
  some (
      if Pte64.is_valid pte && Pte64.is_leaf pte
      then leaf 0 pte (pte_address64 vpn 0 ppn)
      else fault)
walk64 mem vpn (suc level) ppn = do
  pte ← read64 mem (pte_address64 vpn (suc level) ppn)
  elim (Pte64.is_valid pte) [
    | false ↦ some fault
    | true ↦ elim (Pte64.is_leaf pte) [
      | true ↦ some (leaf (suc level) pte (pte_address64 vpn (suc level) ppn))
      | false ↦ walk64 mem vpn level (Pte64.get_ppn pte)
    ]
  ]

pub misaligned64 : ℕ → ℕ → Bool
misaligned64 level pte =
    (ltb 0 level && not (Pte64.get_ppn0 pte == 0)) || (ltb 1 level && not (Pte64.get_ppn1 pte == 0))

-- The accessed flag, and the dirty flag of a write.
pub mark64 : Bool → ℕ → ℕ
mark64 write_access pte =
    let pte = Pte64.set_a pte 1 in if write_access then Pte64.set_d pte 1 else pte

pub compose64 : (ℕ → ℕ) → ℕ → ℕ → ℕ → ℕ
compose64 vpn offset level pte =
    let ppn2 = Pte64.get_ppn2 pte in
    let ppn1 = if ltb 1 level then vpn 1 else Pte64.get_ppn1 pte in
    let ppn0 = if ltb 0 level then vpn 0 else Pte64.get_ppn0 pte in
    bit_and
      (bit_or (bit_or (bit_or (u64 (ppn2 <<< 30)) (u64 (ppn1 <<< 21))) (u64 (ppn0 <<< 12))) offset)
      0x00FFFFFFFFFFFFFF

-- `vpn[level]` of the virtual address.
pub vpn64 : ℕ → ℕ → ℕ
vpn64 virtual_address zero = bitcrop virtual_address 9 12
vpn64 virtual_address (suc zero) = bitcrop virtual_address 9 21
vpn64 virtual_address (suc (suc level)) = bitcrop virtual_address 9 30

-- What follows the loop.
pub finish64 : Mmu → MemoryWrapper → ℕ → Bool → WalkEnd → Option Translated
finish64 u mem virtual_address write_access fault = some (faulted u mem virtual_address)
finish64 u mem virtual_address write_access (leaf level pte pte_address) =
    if misaligned64 level pte then some (faulted u mem virtual_address) else do
      mem ← write64 mem pte_address (mark64 write_access pte)
      some (
        compose64 (vpn64 virtual_address) (u16 (bitcrop virtual_address 12 0)) level
            (mark64 write_access pte),
        u,
        mem,
      )

pub virtual_to_physical64 : Mmu → MemoryWrapper → ℕ → ℕ → Bool → Option Translated
virtual_to_physical64 u mem virtual_address satp write_access =
    let mode = bitcrop satp 4 60 in
    if mode == 0
    then some (virtual_address, u, mem)
    else if not (mode == 8)
    then some (faulted u mem virtual_address)
    else (walk64 mem (vpn64 virtual_address) 2 (bitcrop satp 44 0)
        >>= finish64 u mem virtual_address write_access)

-- The 32-bit walk computes in `uint32_t`.
abbrev pub pte_address32 : ℕ → ℕ → ℕ
pte_address32 ppn vpn = u32 (u32 (ppn * page_size) + u32 (vpn * 4))

pub walk32 : MemoryWrapper → (ℕ → ℕ) → ℕ → ℕ → Option WalkEnd
walk32 mem vpn zero ppn = do
  pte ← read32 mem (pte_address32 ppn (vpn 0))
  some (
      if Pte32.is_valid pte && Pte32.is_leaf pte
      then leaf 0 pte (pte_address32 ppn (vpn 0))
      else fault)
walk32 mem vpn (suc level) ppn = do
  pte ← read32 mem (pte_address32 ppn (vpn (suc level)))
  elim (Pte32.is_valid pte) [
    | false ↦ some fault
    | true ↦ elim (Pte32.is_leaf pte) [
      | true ↦ some (leaf (suc level) pte (pte_address32 ppn (vpn (suc level))))
      | false ↦ walk32 mem vpn level (Pte32.get_ppn pte)
    ]
  ]

pub misaligned32 : ℕ → ℕ → Bool
misaligned32 level pte = ltb 0 level && not (Pte32.get_ppn0 pte == 0)

pub mark32 : Bool → ℕ → ℕ
mark32 write_access pte =
    let pte = Pte32.set_a pte 1 in if write_access then Pte32.set_d pte 1 else pte

pub vpn32 : ℕ → ℕ → ℕ
vpn32 virtual_address zero = u16 (bitcrop virtual_address 10 12)
vpn32 virtual_address (suc level) = u16 (bitcrop virtual_address 10 22)

pub compose32 : (ℕ → ℕ) → ℕ → ℕ → ℕ → ℕ
compose32 vpn offset level pte =
    let ppn1 = Pte32.get_ppn1 pte in
    let ppn0 = if level == 1 then vpn 0 else Pte32.get_ppn0 pte in
    bit_and (bit_or (bit_or (u64 (ppn1 <<< 22)) (u64 (ppn0 <<< 12))) offset) 0xFFFFFFFF

pub finish32 : Mmu → MemoryWrapper → ℕ → Bool → WalkEnd → Option Translated
finish32 u mem virtual_address write_access fault = some (faulted u mem virtual_address)
finish32 u mem virtual_address write_access (leaf level pte pte_address) =
    if misaligned32 level pte then some (faulted u mem virtual_address) else do
      mem ← write32 mem pte_address (mark32 write_access pte)
      some (
        compose32 (vpn32 virtual_address) (u16 (bitcrop virtual_address 12 0)) level
            (mark32 write_access pte),
        u,
        mem,
      )

pub virtual_to_physical32 : Mmu → MemoryWrapper → ℕ → ℕ → Bool → Option Translated
virtual_to_physical32 u mem virtual_address satp write_access =
    if bitcrop satp 1 31 == 0
    then some (virtual_address, u, mem)
    else (walk32 mem (vpn32 virtual_address) 1 (u32 (bitcrop satp 22 0))
        >>= finish32 u mem virtual_address write_access)

unfoldable pub virtual_to_physical : Mmu → MemoryWrapper → ℕ → ℕ → Bool → Option Translated
virtual_to_physical u mem virtual_address satp write_access =
    let u = record u { page_fault = false; faulting_address = 0 } in
    elim u.privilege [
      | machine_mode ↦ some (virtual_address, u, mem)
      | _ ↦
          if u.mxl == 1
          then virtual_to_physical32 u mem virtual_address satp write_access
          else virtual_to_physical64 u mem virtual_address satp write_access
    ]
