-- ===== src/Cpu/Access.antt =====
-- The processor's way to memory, RISCV_cpu.cc: addresses, instruction fetch, and accesses of up to
-- eight bytes. `none` is a failed assertion, or the exception for a privilege level of 2.
pub mod Kept
pub mod Load
pub mod Store
pub mod RoundTrip
use m99_riscv_emulator.Prelude.{
  ℕ, zero, suc, ◌+◌, ◌*◌, ◌/◌, ◌%◌, ◌^◌, Bool, true, false, not, Option, none, some, ◌>>=◌, ◌>>◌,
  assert, ◌||◌, ◌&&◌, bit_and, bit_or, leb, ◌==◌, if◌then◌else◌, u32, u64, ◌<<<◌, ◌>>>◌,
}
use m99_riscv_emulator.BitTools.{bitcrop}
use m99_riscv_emulator.Memory.{
  MemoryWrapper, read32, read64, read_byte, write32, write64, write_byte,
}
use m99_riscv_emulator.Mmu
use m99_riscv_emulator.Mmu.{PrivilegeMode, Translated, set_mxl, set_privilege}
use m99_riscv_emulator.Isa.Csrs
use m99_riscv_emulator.Cpu.{RiscvCpu}
use m99_riscv_emulator.Cpu.Trap.{int_to_privilege_mode, is_machine}

-- The mode that an access is made in: MPRV hands machine mode's accesses to the saved mode.
unfoldable pub access_privilege : RiscvCpu → Option PrivilegeMode
access_privilege cpu =
    if is_machine cpu.privilege && bitcrop (cpu.csrs Csrs.mstatus) 1 17 == 1
    then int_to_privilege_mode (bitcrop (cpu.csrs Csrs.mstatus) 2 11)
    else some cpu.privilege

-- What the processor keeps of a translation. A fault that is already noted stays.
unfoldable pub note_translation : RiscvCpu → Translated → ℕ × RiscvCpu
note_translation cpu (physical_address, mmu, memory) = (
  physical_address,
  record cpu {
    mmu = mmu;
    memory = memory;
    page_fault = mmu.page_fault || cpu.page_fault;
    faulting_address = if mmu.page_fault then mmu.faulting_address else cpu.faulting_address;
  },
)

unfoldable pub virtual_to_physical : RiscvCpu → ℕ → Bool → Option (ℕ × RiscvCpu)
unfolding access_privilege note_translation
virtual_to_physical cpu virtual_address write_access = do
  privilege ← access_privilege cpu
  translated ←
      Mmu.virtual_to_physical (set_privilege (set_mxl cpu.mmu cpu.mxl) privilege) cpu.memory
        virtual_address (cpu.csrs Csrs.satp) write_access
  some (note_translation cpu translated)

-- The second half of an instruction of 32 bits that starts in the middle of a word.
fetch_upper : RiscvCpu → ℕ → ℕ → Option (ℕ × RiscvCpu)
unfolding virtual_to_physical
fetch_upper cpu pc cmd = do
  upper ← virtual_to_physical cpu (u64 (pc + 2)) false
  cmd_upper ← read32 upper.1.memory (upper.0 >>> 2 <<< 2)
  some (bit_or (bit_and cmd 0xFFFF) (u32 (bit_and cmd_upper 0xFFFF <<< 16)), upper.1)

-- The instruction that starts with `cmd`.
fetch_whole : RiscvCpu → ℕ → ℕ → Option (ℕ × RiscvCpu)
unfolding fetch_upper
fetch_whole cpu pc cmd =
    if not cpu.page_fault && bit_and pc 0b10 == 0b10 && bit_and cmd 0b11 == 0b11
    then fetch_upper cpu pc cmd
    else some (cmd, cpu)

unfoldable pub load_cmd : RiscvCpu → ℕ → Option (ℕ × RiscvCpu)
unfolding fetch_whole virtual_to_physical
load_cmd cpu pc = do
  fetched ← virtual_to_physical cpu pc false
  word ← read32 fetched.1.memory (fetched.0 >>> 2 <<< 2)
  let cmd = if bit_and pc 0b10 == 0b10 then bit_and (word >>> 16) 0xFFFF else word
  whole ← fetch_whole fetched.1 pc cmd
  some (if bit_and whole.0 0b11 == 0b11 then whole.0 else bit_and whole.0 0xFFFF, whole.1)

-- The rounds left of the loop of `LoadWd`.
unfoldable pub load_bytes : MemoryWrapper → ℕ → ℕ → ℕ → ℕ → Option ℕ
load_bytes mem physical_address zero offset result = some result
load_bytes mem physical_address (suc n) offset result =
    read_byte mem (u64 (physical_address + offset)) >>= λ loaded_byte.
    load_bytes mem physical_address n (suc offset)
      (bit_or result (u64 (loaded_byte <<< (offset * 8))))

unfoldable pub load_wd : MemoryWrapper → ℕ → ℕ → Option ℕ
load_wd mem physical_address width =
    assert (leb 1 width && leb width 8)
    >> (if width == 4 && bit_and physical_address 0b11 == 0
        then read32 mem physical_address
        else if width == 8 && bit_and physical_address 0b111 == 0
        then read64 mem physical_address
        else load_bytes mem physical_address width 0 0)

-- The rounds left of the loop of `StoreWd`.
unfoldable pub store_bytes : MemoryWrapper → ℕ → ℕ → ℕ → ℕ → Option MemoryWrapper
store_bytes mem physical_address data' zero offset = some mem
store_bytes mem physical_address data' (suc n) offset =
    write_byte mem (u64 (physical_address + offset)) (bit_and (data' >>> (offset * 8)) 0xFF)
    >>= λ mem. store_bytes mem physical_address data' n (suc offset)

unfoldable pub store_wd : MemoryWrapper → ℕ → ℕ → ℕ → Option MemoryWrapper
store_wd mem physical_address data' width =
    assert (leb 1 width && leb width 8)
    >> (if width == 4 && bit_and physical_address 0b11 == 0
        then write32 mem physical_address (u32 data')
        else if width == 8 && bit_and physical_address 0b111 == 0
        then write64 mem physical_address data'
        else store_bytes mem physical_address data' width 0)
