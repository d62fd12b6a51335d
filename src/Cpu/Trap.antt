-- ===== src/Cpu/Trap.antt =====
-- Traps and returns of RISCV_cpu.cc. `none` is the failed assertion on the cause, or the exception
-- for a privilege level of 2.
pub mod Return
pub mod Supervisor
pub mod Kept
use m99_riscv_emulator.Prelude.{
  ℕ, ◌+◌, ◌-◌, ◌*◌, ◌%◌, ◌^◌, Bool, true, false, not, Option, none, some, ◌>>=◌, ◌>>◌, assert, ◌||◌,
  ◌&&◌, bit_and, bit_or, ◌==◌, if◌then◌else◌, u64, ◌<<<◌, complement,
}
use m99_riscv_emulator.BitTools.{bitcrop, bitset, gen_mask}
use m99_riscv_emulator.Mmu.{PrivilegeMode, user_mode, supervisor_mode, machine_mode}
use m99_riscv_emulator.Isa.Csrs
use m99_riscv_emulator.Isa.Causes
use m99_riscv_emulator.Cpu.{RiscvCpu}
use m99_riscv_emulator.Cpu.Csr.{set_csr, apply_mstatus_to_csr, clear_interrupt_pending}

unfoldable pub int_to_privilege_mode : ℕ → Option PrivilegeMode
int_to_privilege_mode value =
    if value == 0
    then some user_mode
    else if value == 1
    then some supervisor_mode
    else if value == 3
    then some machine_mode
    else none

unfoldable pub priviledge_to_int : PrivilegeMode → ℕ
priviledge_to_int user_mode = 0
priviledge_to_int supervisor_mode = 1
priviledge_to_int machine_mode = 3

abbrev pub is_machine : PrivilegeMode → Bool
is_machine machine_mode = true
is_machine _ = false

abbrev is_supervisor : PrivilegeMode → Bool
is_supervisor supervisor_mode = true
is_supervisor _ = false

abbrev is_user : PrivilegeMode → Bool
is_user user_mode = true
is_user _ = false

-- What the assertion lets through.
abbrev pub is_page_fault : ℕ → Bool
is_page_fault cause =
    cause == Causes.instruction_page_fault
    || cause == Causes.load_page_fault
    || cause == Causes.store_page_fault

abbrev pub is_supported : ℕ → Bool → Bool
is_supported cause true =
    cause == Causes.machine_timer_interrupt
    || cause == Causes.supervisor_softwarre_interrupt
    || cause == Causes.supervisor_external_interrupt
is_supported cause false =
    is_page_fault cause
    || cause == Causes.ecall_umode
    || cause == Causes.ecall_smode
    || cause == Causes.ecall_mmode

abbrev pub as_bit : Bool → ℕ
as_bit true = 1
as_bit false = 0

-- Whether machine and supervisor interrupts are enabled in the mode of the processor.
unfoldable pub global_mie : RiscvCpu → Bool
global_mie cpu =
    (is_machine cpu.privilege && bitcrop cpu.mstatus 1 3 == 1) || not (is_machine cpu.privilege)

unfoldable pub global_sie : RiscvCpu → Bool
global_sie cpu =
    (is_supervisor cpu.privilege && bitcrop cpu.mstatus 1 1 == 1) || is_user cpu.privilege

-- The bookkeeping of a page fault: a second one at the same address ends the run.
pub record_fault : RiscvCpu → RiscvCpu
record_fault cpu = record cpu {
  error_flag =
      cpu.error_flag || (cpu.prev_page_fault && cpu.prev_faulting_address == cpu.faulting_address);
  prev_page_fault = cpu.page_fault;
  prev_faulting_address = cpu.faulting_address;
  page_fault = false;
}

unfoldable pub sv_delegation : RiscvCpu → ℕ → Bool → Bool
sv_delegation cpu cause interrupt =
    let mask = if cpu.disable_machine_interrupt_delegation then 0x666 else 0xfff in
    let delegated =
      if interrupt then bit_and (cpu.csrs Csrs.mideleg) mask else cpu.csrs Csrs.medeleg in
    (is_user cpu.privilege || is_supervisor cpu.privilege) && bitcrop delegated 1 cause == 1

-- The word for MCAUSE or SCAUSE.
cause_word : RiscvCpu → ℕ → Bool → ℕ
cause_word cpu cause interrupt = bit_or cause (if interrupt then u64 (1 <<< (cpu.xlen - 1)) else 0)

-- The handler's address.
handler : RiscvCpu → ℕ → ℕ → Bool → ℕ
handler cpu tvec cause interrupt =
    let base = bit_and tvec (complement 64 0b11) in
    if bit_and tvec 0b11 == 0 || interrupt
    then base
    else u64 (base + 4 * bit_and cause (gen_mask 64 (cpu.xlen - 1) 0))

-- The two branches of `Trap`, over the word for `tval`.
trap_to_supervisor : RiscvCpu → ℕ → Bool → ℕ → RiscvCpu
unfolding cause_word handler
trap_to_supervisor cpu cause interrupt tval =
    let word = cause_word cpu cause interrupt in
    let saved = set_csr (set_csr cpu Csrs.scause word) Csrs.sepc cpu.pc in
    let mstatus = bitset (bitset cpu.mstatus 1 5 (as_bit (global_sie cpu))) 1 1 0 in
    record (apply_mstatus_to_csr (record (set_csr saved Csrs.stval tval) {
      next_pc = handler cpu (saved.csrs Csrs.stvec) word interrupt;
      mstatus = bitset mstatus 1 8 (priviledge_to_int cpu.privilege);
    })) { privilege = supervisor_mode }

trap_to_machine : RiscvCpu → ℕ → Bool → ℕ → RiscvCpu
unfolding cause_word handler
trap_to_machine cpu cause interrupt tval =
    let word = cause_word cpu cause interrupt in
    let saved = set_csr (set_csr cpu Csrs.mcause word) Csrs.mepc cpu.pc in
    let mstatus = bitset (bitset cpu.mstatus 1 7 (as_bit (global_mie cpu))) 1 3 0 in
    record (apply_mstatus_to_csr (record (set_csr saved Csrs.mtval tval) {
      next_pc = handler cpu (saved.csrs Csrs.mtvec) word interrupt;
      mstatus = bitset mstatus 2 11 (priviledge_to_int cpu.privilege);
    })) { privilege = machine_mode }

-- The trap after its assertion, in three steps. The modes of the two enable bits are read before the
-- fault is recorded, which does not change them.
pub prepared : RiscvCpu → ℕ → Bool → RiscvCpu
unfolding record_fault
prepared cpu cause interrupt =
    if not interrupt && is_page_fault cause then record_fault cpu else cpu

pub delivered : RiscvCpu → ℕ → Bool → RiscvCpu
unfolding sv_delegation trap_to_supervisor trap_to_machine
delivered cpu cause interrupt =
    let tval =
      if not interrupt && is_page_fault cause
      then cpu.faulting_address
      else if not interrupt && cause == Causes.illegal_instruction
      then cpu.ir
      else 0 in
    if sv_delegation cpu cause interrupt
    then trap_to_supervisor cpu cause interrupt tval
    else trap_to_machine cpu cause interrupt tval

pub settled : RiscvCpu → ℕ → Bool → RiscvCpu
settled cpu cause interrupt =
    let cpu =
      if interrupt
        && not (cause == Causes.supervisor_softwarre_interrupt)
        && not (cause == Causes.machine_software_interrupt)
      then clear_interrupt_pending cpu cause
      else cpu in
    apply_mstatus_to_csr cpu

taken : RiscvCpu → ℕ → Bool → RiscvCpu
unfolding prepared delivered settled
taken cpu cause interrupt =
    settled (delivered (prepared cpu cause interrupt) cause interrupt) cause interrupt

unfoldable pub trap : RiscvCpu → ℕ → Bool → Option RiscvCpu
unfolding taken
trap cpu cause interrupt = assert (is_supported cause interrupt) >> some (taken cpu cause interrupt)

-- The cause of an environment call.
unfoldable pub ecall_cause : PrivilegeMode → ℕ
ecall_cause machine_mode = Causes.ecall_mmode
ecall_cause supervisor_mode = Causes.ecall_smode
ecall_cause user_mode = Causes.ecall_umode

unfoldable pub ecall : RiscvCpu → Option RiscvCpu
ecall cpu = trap cpu (ecall_cause cpu.privilege) false

unfoldable pub mret : RiscvCpu → Option RiscvCpu
mret cpu = do
  privilege ← int_to_privilege_mode (bitcrop cpu.mstatus 2 11)
  let mstatus = bitset cpu.mstatus 1 3 (bitcrop cpu.mstatus 1 7)
  let mstatus = bitset (bitset mstatus 1 7 1) 2 11 0
  let cpu = apply_mstatus_to_csr (record cpu { privilege = privilege; mstatus = mstatus })
  some (record cpu { next_pc = cpu.csrs Csrs.mepc })

unfoldable pub sret : RiscvCpu → Option RiscvCpu
sret cpu = do
  privilege ← int_to_privilege_mode (bitcrop cpu.mstatus 1 8)
  let mstatus = bitset cpu.mstatus 1 1 (bitcrop cpu.mstatus 1 5)
  let mstatus = bitset (bitset mstatus 1 5 1) 2 8 0
  let cpu =
      apply_mstatus_to_csr
        (set_csr (record cpu { privilege = privilege; mstatus = mstatus }) Csrs.mstatus mstatus)
  some (record cpu { next_pc = cpu.csrs Csrs.sepc })

-- The interrupt that is taken, the supervisor's and the machine's in turn.
pending_cause : Bool → Bool → ℕ → Option ℕ
pending_cause mstatus_sie mstatus_mie status =
    if mstatus_sie && bitcrop status 1 1 == 1
    then some Causes.supervisor_softwarre_interrupt
    else if mstatus_mie && bitcrop status 1 3 == 1
    then some Causes.machine_software_interrupt
    else if mstatus_sie && bitcrop status 1 5 == 1
    then some Causes.supervior_timer_interrupt
    else if mstatus_mie && bitcrop status 1 7 == 1
    then some Causes.machine_timer_interrupt
    else if mstatus_sie && bitcrop status 1 9 == 1
    then some Causes.supervisor_external_interrupt
    else if mstatus_mie && bitcrop status 1 11 == 1
    then some Causes.machine_external_interrupt
    else none

interrupted : RiscvCpu → Option ℕ → Option (RiscvCpu × Bool)
interrupted cpu none = some (cpu, false)
interrupted cpu (some cause) = trap cpu cause true >>= λ cpu. some (cpu, true)

unfoldable pub check_pending_interrupt : RiscvCpu → Option (RiscvCpu × Bool)
unfolding pending_cause interrupted
check_pending_interrupt cpu =
    let mstatus_mie = not (is_machine cpu.privilege) || bitcrop cpu.mstatus 1 3 == 1 in
    let mstatus_sie =
      is_user cpu.privilege || (is_supervisor cpu.privilege && bitcrop cpu.mstatus 1 1 == 1) in
    interrupted cpu (pending_cause mstatus_sie mstatus_mie (bit_and cpu.mip cpu.mie))
