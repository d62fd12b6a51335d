-- ===== src/Cpu/Trap/Return.antt =====
-- A return undoes a trap: the mode, the place in the program and the enable bit.
use m99_riscv_emulator.Prelude.{
  ℕ, ◌%◌, ◌^◌, ◌<◌, ◌≡◌, refl, ◌∙◌, arith, Bool, true, false, Bool-cases, ◌⊎◌, inl, inr, not, ◌&&◌,
  some, ◌==◌, if◌then◌else◌,
}
use m99_riscv_emulator.BitTools.{bitcrop, bitset}
use m99_riscv_emulator.BitTools.Fields.{bitcrop_lem, bitcrop-bitset, bitset-lt}
use m99_riscv_emulator.Mmu.{PrivilegeMode, user_mode, supervisor_mode, machine_mode}
use m99_riscv_emulator.Isa.Csrs
use m99_riscv_emulator.Isa.Causes
use m99_riscv_emulator.Cpu.{RiscvCpu}
use m99_riscv_emulator.Cpu.Csr.{
  set_csr, apply_mstatus_to_csr, clear_interrupt_pending, apply_interrupt_pending,
}
use m99_riscv_emulator.Cpu.Trap.{
  int_to_privilege_mode, priviledge_to_int, as_bit, global_mie, is_supported, is_page_fault,
  record_fault, prepared, delivered, settled, sv_delegation, trap_to_machine, taken, trap, mret,
}

pub as_bit-lt : (b : Bool) → as_bit b < 2
as_bit-lt true = omega arith
as_bit-lt false = omega arith

mode_back : (p : PrivilegeMode) → int_to_privilege_mode (priviledge_to_int p % 2 ^ 2) ≡ some p
unfolding int_to_privilege_mode priviledge_to_int
mode_back user_mode = refl
mode_back supervisor_mode = refl
mode_back machine_mode = refl

-- The status words that the two traps leave.
abbrev to_machine : ℕ → ℕ → ℕ → ℕ
to_machine m g p = bitset (bitset (bitset m 1 7 g) 1 3 0) 2 11 p

abbrev pub to_supervisor : ℕ → ℕ → ℕ → ℕ
to_supervisor m g p = bitset (bitset (bitset m 1 5 g) 1 1 0) 1 8 p

-- What the return reads of it.
module _ (m g p : ℕ) (fits : m < 2 ^ 64) (one : g < 2) where
  to_machine-mpp : bitcrop (to_machine m g p) 2 11 ≡ p % 2 ^ 2
  to_machine-mpp =
      (bitcrop-bitset (bitset (bitset m 1 7 g) 1 3 0) 2 11 p (omega arith)
        (bitset-lt (bitset m 1 7 g) 1 3 0 (omega arith) (bitset-lt m 1 7 g (omega arith) fits))).1

  to_machine-mpie : bitcrop (to_machine m g p) 1 7 ≡ g
  to_machine-mpie =
      let m1 = bitset m 1 7 g in
      let m2 = bitset m1 1 3 0 in
      let m1_lt = bitset-lt m 1 7 g (omega arith) fits in
      let m2_lt = bitset-lt m1 1 3 0 (omega arith) m1_lt in
      let (_, field, _) = bitcrop-bitset m 1 7 g (omega arith) fits in
      let (upper, _, _) = bitcrop-bitset m1 1 3 0 (omega arith) m1_lt in
      let (_, _, lower) = bitcrop-bitset m2 2 11 p (omega arith) m2_lt in
      omega (
        arith,
        field,
        upper,
        lower,
        bitcrop_lem m1 1 7 (omega arith),
        bitcrop_lem (to_machine m g p) 1 7 (omega arith),
      )

-- What a step keeps: all that the return reads.
pub record SameReturn (c d : RiscvCpu) : Type 0 where
  pub mode : d.privilege ≡ c.privilege
  pub status : d.mstatus ≡ c.mstatus
  pub mepc : d.csrs Csrs.mepc ≡ c.csrs Csrs.mepc
  pub sepc : d.csrs Csrs.sepc ≡ c.csrs Csrs.sepc

pub settled_same :
    (c : RiscvCpu) (cause : ℕ) (interrupt : Bool) → SameReturn c (settled c cause interrupt)
unfolding settled
settled_same c cause interrupt = by_clear (
    interrupt
    && not (cause == Causes.supervisor_softwarre_interrupt)
    && not (cause == Causes.machine_software_interrupt))
  where
    by_clear :
        (clear : Bool)
        → SameReturn c (apply_mstatus_to_csr (if clear then clear_interrupt_pending c cause else c))
    by_clear true =
        unfold apply_mstatus_to_csr clear_interrupt_pending apply_interrupt_pending set_csr in
        record { mode = refl; status = refl; mepc = refl; sepc = refl }
    by_clear false =
        unfold apply_mstatus_to_csr set_csr in
        record { mode = refl; status = refl; mepc = refl; sepc = refl }

pub prepared-cases :
    (cpu : RiscvCpu) (cause : ℕ) (interrupt : Bool)
    → (prepared cpu cause interrupt ≡ record_fault cpu) ⊎ (prepared cpu cause interrupt ≡ cpu)
unfolding prepared
prepared-cases cpu cause interrupt = elim (Bool-cases (not interrupt && is_page_fault cause)) [
  | inl fault ↦ inl (rw fault refl)
  | inr quiet ↦ inr (rw quiet refl)
]

-- The state after a branch: the status word, the address of the trapped instruction, the old mode.
pub record IsTrapped (cpu d : RiscvCpu) (word : ℕ) (csr : ℕ) (mode : PrivilegeMode) : Type 0 where
  pub status : d.mstatus ≡ word
  pub place : d.csrs csr ≡ cpu.pc
  pub entered : d.privilege ≡ mode

machine_word : RiscvCpu → ℕ
machine_word cpu =
    to_machine cpu.mstatus (as_bit (global_mie cpu)) (priviledge_to_int cpu.privilege)

delivered_machine :
    (cpu : RiscvCpu) (cause : ℕ) (interrupt : Bool)
    → sv_delegation cpu cause interrupt ≡ false
    → IsTrapped cpu (delivered cpu cause interrupt) (machine_word cpu) Csrs.mepc machine_mode
unfolding delivered trap_to_machine machine_word apply_mstatus_to_csr set_csr
delivered_machine cpu cause interrupt h =
    rw h (record { status = refl; place = refl; entered = refl })

prepared_machine :
    (cpu : RiscvCpu) (cause : ℕ) (interrupt : Bool)
    → sv_delegation cpu cause interrupt ≡ false
    → IsTrapped cpu
        (delivered (prepared cpu cause interrupt) cause interrupt)
        (machine_word cpu)
        Csrs.mepc
        machine_mode
unfolding record_fault sv_delegation machine_word global_mie
prepared_machine cpu cause interrupt h = elim (prepared-cases cpu cause interrupt) [
  | inl e ↦
      let d = delivered_machine (record_fault cpu) cause interrupt h in
      rw e (record { status = d.status; place = d.place; entered = d.entered })
  | inr e ↦ rw e (delivered_machine cpu cause interrupt h)
]

-- The enable bit that the return of each mode restores.
mret_status : ℕ → ℕ
mret_status t = bitset (bitset (bitset t 1 3 (bitcrop t 1 7)) 1 7 1) 2 11 0

mret_status-mie : (t : ℕ) → t < 2 ^ 64 → bitcrop (mret_status t) 1 3 ≡ bitcrop t 1 7
unfolding mret_status
mret_status-mie t fits =
    let m1 = bitset t 1 3 (bitcrop t 1 7) in
    let m2 = bitset m1 1 7 1 in
    let m1_lt = bitset-lt t 1 3 (bitcrop t 1 7) (omega arith) fits in
    let m2_lt = bitset-lt m1 1 7 1 (omega arith) m1_lt in
    let (_, field, _) = bitcrop-bitset t 1 3 (bitcrop t 1 7) (omega arith) fits in
    let (_, _, low1) = bitcrop-bitset m1 1 7 1 (omega arith) m1_lt in
    let (_, _, low2) = bitcrop-bitset m2 2 11 0 (omega arith) m2_lt in
    omega (
      arith,
      field,
      low1,
      low2,
      bitcrop_lem t 1 7 (omega arith),
      bitcrop_lem m1 1 3 (omega arith),
      bitcrop_lem (bitset m2 2 11 0) 1 3 (omega arith),
    )

unfoldable pub sret_status : ℕ → ℕ
sret_status t = bitset (bitset (bitset t 1 1 (bitcrop t 1 5)) 1 5 1) 2 8 0

pub sret_status-sie : (t : ℕ) → t < 2 ^ 64 → bitcrop (sret_status t) 1 1 ≡ bitcrop t 1 5
unfolding sret_status
sret_status-sie t fits =
    let m1 = bitset t 1 1 (bitcrop t 1 5) in
    let m2 = bitset m1 1 5 1 in
    let m1_lt = bitset-lt t 1 1 (bitcrop t 1 5) (omega arith) fits in
    let m2_lt = bitset-lt m1 1 5 1 (omega arith) m1_lt in
    let (_, field, _) = bitcrop-bitset t 1 1 (bitcrop t 1 5) (omega arith) fits in
    let (_, _, low1) = bitcrop-bitset m1 1 5 1 (omega arith) m1_lt in
    let (_, _, low2) = bitcrop-bitset m2 2 8 0 (omega arith) m2_lt in
    omega (
      arith,
      field,
      low1,
      low2,
      bitcrop_lem t 1 5 (omega arith),
      bitcrop_lem m1 1 1 (omega arith),
      bitcrop_lem (bitset m2 2 8 0) 1 1 (omega arith),
    )

to_machine-lt : (m g p : ℕ) → m < 2 ^ 64 → to_machine m g p < 2 ^ 64
to_machine-lt m g p h =
    bitset-lt (bitset (bitset m 1 7 g) 1 3 0) 2 11 p (omega arith)
      (bitset-lt (bitset m 1 7 g) 1 3 0 (omega arith) (bitset-lt m 1 7 g (omega arith) h))

-- `mret` on any state whose status word, saved address and mode field are known.
mret_of :
    (t : RiscvCpu) (word pc : ℕ) (mode : PrivilegeMode)
    → t.mstatus ≡ word
    → t.csrs Csrs.mepc ≡ pc
    → int_to_privilege_mode (bitcrop word 2 11) ≡ some mode
    → (r : RiscvCpu) × (mret t ≡ some r)
      × (r.privilege ≡ mode)
      × (r.next_pc ≡ pc)
      × (r.mstatus ≡ mret_status word)
unfolding mret mret_status apply_mstatus_to_csr set_csr
mret_of t word pc mode status place back = (
  record (apply_mstatus_to_csr (record t { privilege = mode; mstatus = mret_status word })) {
    next_pc = pc;
  },
  rw (status, back, place) refl,
  refl,
  refl,
  refl,
)

-- The interrupt enable of before a trap to the machine: MIE, bit 3 of the status word, in machine
-- mode, and 1 in the lower modes, in which interrupts for the machine are always enabled.
abbrev pub enabled_before : PrivilegeMode → ℕ → ℕ
enabled_before machine_mode status = bitcrop status 1 3
enabled_before user_mode status = 1
enabled_before supervisor_mode status = 1

global_mie_lem :
    (cpu : RiscvCpu) → as_bit (global_mie cpu) ≡ enabled_before cpu.privilege cpu.mstatus
unfolding global_mie
global_mie_lem cpu = by_mode cpu.privilege refl
  where
    by_mode :
        (p : PrivilegeMode)
        → cpu.privilege ≡ p
        → as_bit (global_mie cpu) ≡ enabled_before cpu.privilege cpu.mstatus
    by_mode user_mode e = rw e refl
    by_mode supervisor_mode e = rw e refl
    by_mode machine_mode e = rw e (ground (arith, bitcrop_lem cpu.mstatus 1 3 (omega arith)))

-- From a status word of 64 bits, a supported trap that is not delegated returns, in machine mode.
-- MRET then returns to the mode and the address of before the trap, and MIE, bit 3 of the status
-- word, is again what it was if the trap came from machine mode, and 1 if it came from a lower mode.
pub mret-trap :
    (cpu : RiscvCpu) (cause : ℕ) (interrupt : Bool)
    → cpu.mstatus < 2 ^ 64
    → is_supported cause interrupt ≡ true
    → sv_delegation cpu cause interrupt ≡ false
    → (t r : RiscvCpu) × (trap cpu cause interrupt ≡ some t)
      × (t.privilege ≡ machine_mode)
      × (mret t ≡ some r)
      × (r.privilege ≡ cpu.privilege)
      × (r.next_pc ≡ cpu.pc)
      × (bitcrop r.mstatus 1 3 ≡ enabled_before cpu.privilege cpu.mstatus)
unfolding trap taken machine_word
mret-trap cpu cause interrupt fits ok machine =
    let g = as_bit (global_mie cpu) in
    let p = priviledge_to_int cpu.privilege in
    let d = prepared_machine cpu cause interrupt machine in
    let s =
      settled_same (delivered (prepared cpu cause interrupt) cause interrupt) cause interrupt in
    let mpp = to_machine-mpp cpu.mstatus g p fits (as_bit-lt (global_mie cpu)) in
    let back : int_to_privilege_mode (bitcrop (to_machine cpu.mstatus g p) 2 11)
        ≡ some cpu.privilege =
      rw mpp (mode_back cpu.privilege) in
    let (r, e, mode, place, status) =
      mret_of (taken cpu cause interrupt) (machine_word cpu) cpu.pc cpu.privilege
        (s.status ∙ d.status) (s.mepc ∙ d.place) back in
    (
      taken cpu cause interrupt,
      r,
      rw ok refl,
      s.mode ∙ d.entered,
      e,
      mode,
      place,
      rw status (
          mret_status-mie (machine_word cpu) (to_machine-lt cpu.mstatus g p fits)
          ∙ to_machine-mpie cpu.mstatus g p fits (as_bit-lt (global_mie cpu))
          ∙ global_mie_lem cpu),
    )
