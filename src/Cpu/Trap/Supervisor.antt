-- ===== src/Cpu/Trap/Supervisor.antt =====
-- The return from a trap that is delegated to the supervisor.
use m99_riscv_emulator.Prelude.{ℕ, ◌%◌, ◌^◌, ◌<◌, ◌≡◌, refl, ◌∙◌, arith, Bool, true, inl, inr, some}
use m99_riscv_emulator.BitTools.{bitcrop, bitset}
use m99_riscv_emulator.BitTools.Fields.{bitcrop_lem, bitcrop-bitset, bitset-lt}
use m99_riscv_emulator.Mmu.{PrivilegeMode, user_mode, supervisor_mode, machine_mode}
use m99_riscv_emulator.Isa.Csrs
use m99_riscv_emulator.Cpu.{RiscvCpu}
use m99_riscv_emulator.Cpu.Csr.{set_csr, apply_mstatus_to_csr}
use m99_riscv_emulator.Cpu.Trap.{
  int_to_privilege_mode, priviledge_to_int, as_bit, global_sie, is_supported, record_fault,
  prepared, delivered, sv_delegation, trap_to_supervisor, taken, trap, sret,
}
use m99_riscv_emulator.Cpu.Trap.Return.{
  as_bit-lt, to_supervisor, sret_status, sret_status-sie, IsTrapped, prepared-cases, settled_same,
}

module _ (m g p : ℕ) (fits : m < 2 ^ 64) (one : g < 2) where
  to_supervisor-spp : bitcrop (to_supervisor m g p) 1 8 ≡ p % 2 ^ 1
  to_supervisor-spp =
      (bitcrop-bitset (bitset (bitset m 1 5 g) 1 1 0) 1 8 p (omega arith)
        (bitset-lt (bitset m 1 5 g) 1 1 0 (omega arith) (bitset-lt m 1 5 g (omega arith) fits))).1

  to_supervisor-spie : bitcrop (to_supervisor m g p) 1 5 ≡ g
  to_supervisor-spie =
      let m1 = bitset m 1 5 g in
      let m2 = bitset m1 1 1 0 in
      let m1_lt = bitset-lt m 1 5 g (omega arith) fits in
      let m2_lt = bitset-lt m1 1 1 0 (omega arith) m1_lt in
      let (_, field, _) = bitcrop-bitset m 1 5 g (omega arith) fits in
      let (upper, _, _) = bitcrop-bitset m1 1 1 0 (omega arith) m1_lt in
      let (_, _, lower) = bitcrop-bitset m2 1 8 p (omega arith) m2_lt in
      omega (
        arith,
        field,
        upper,
        lower,
        bitcrop_lem m1 1 5 (omega arith),
        bitcrop_lem (to_supervisor m g p) 1 5 (omega arith),
      )

  to_supervisor-lt : to_supervisor m g p < 2 ^ 64
  to_supervisor-lt =
      bitset-lt (bitset (bitset m 1 5 g) 1 1 0) 1 8 p (omega arith)
        (bitset-lt (bitset m 1 5 g) 1 1 0 (omega arith) (bitset-lt m 1 5 g (omega arith) fits))

supervisor_word : RiscvCpu → ℕ
supervisor_word cpu =
    to_supervisor cpu.mstatus (as_bit (global_sie cpu)) (priviledge_to_int cpu.privilege)

delivered_supervisor :
    (cpu : RiscvCpu) (cause : ℕ) (interrupt : Bool)
    → sv_delegation cpu cause interrupt ≡ true
    → IsTrapped cpu (delivered cpu cause interrupt) (supervisor_word cpu) Csrs.sepc supervisor_mode
unfolding delivered trap_to_supervisor supervisor_word apply_mstatus_to_csr set_csr
delivered_supervisor cpu cause interrupt h =
    rw h (record { status = refl; place = refl; entered = refl })

prepared_supervisor :
    (cpu : RiscvCpu) (cause : ℕ) (interrupt : Bool)
    → sv_delegation cpu cause interrupt ≡ true
    → IsTrapped cpu
        (delivered (prepared cpu cause interrupt) cause interrupt)
        (supervisor_word cpu)
        Csrs.sepc
        supervisor_mode
unfolding record_fault sv_delegation supervisor_word global_sie
prepared_supervisor cpu cause interrupt h = elim (prepared-cases cpu cause interrupt) [
  | inl e ↦
      let d = delivered_supervisor (record_fault cpu) cause interrupt h in
      rw e (record { status = d.status; place = d.place; entered = d.entered })
  | inr e ↦ rw e (delivered_supervisor cpu cause interrupt h)
]

-- A delegated trap comes from a lower mode, which one digit holds.
mode_back :
    (cpu : RiscvCpu) (cause : ℕ) (interrupt : Bool)
    → sv_delegation cpu cause interrupt ≡ true
    → int_to_privilege_mode (priviledge_to_int cpu.privilege % 2 ^ 1) ≡ some cpu.privilege
unfolding sv_delegation int_to_privilege_mode priviledge_to_int
mode_back cpu cause interrupt h = by_mode cpu.privilege refl
  where
    by_mode :
        (p : PrivilegeMode)
        → cpu.privilege ≡ p
        → int_to_privilege_mode (priviledge_to_int cpu.privilege % 2 ^ 1) ≡ some cpu.privilege
    by_mode user_mode e = rw e refl
    by_mode supervisor_mode e = rw e refl
    by_mode machine_mode e = absurd (let f = rw e at h in cc)

sret_of :
    (t : RiscvCpu) (word pc : ℕ) (mode : PrivilegeMode)
    → t.mstatus ≡ word
    → t.csrs Csrs.sepc ≡ pc
    → int_to_privilege_mode (bitcrop word 1 8) ≡ some mode
    → (r : RiscvCpu) × (sret t ≡ some r)
      × (r.privilege ≡ mode)
      × (r.next_pc ≡ pc)
      × (r.mstatus ≡ sret_status word)
unfolding sret sret_status apply_mstatus_to_csr set_csr
sret_of t word pc mode status place back = (
  record (apply_mstatus_to_csr (
      set_csr (record t { privilege = mode; mstatus = sret_status word }) Csrs.mstatus
        (sret_status word))) { next_pc = pc },
  rw (status, back, place) refl,
  refl,
  refl,
  refl,
)

-- The supervisor's interrupt enable of before a delegated trap: SIE, bit 1 of the status word, in
-- supervisor mode, and 1 in user mode, in which interrupts for the supervisor are always enabled.
abbrev pub supervisor_enabled_before : PrivilegeMode → ℕ → ℕ
supervisor_enabled_before supervisor_mode status = bitcrop status 1 1
supervisor_enabled_before user_mode status = 1
supervisor_enabled_before machine_mode status = 0

global_sie_lem :
    (cpu : RiscvCpu) → as_bit (global_sie cpu) ≡ supervisor_enabled_before cpu.privilege cpu.mstatus
unfolding global_sie
global_sie_lem cpu = by_mode cpu.privilege refl
  where
    by_mode :
        (p : PrivilegeMode)
        → cpu.privilege ≡ p
        → as_bit (global_sie cpu) ≡ supervisor_enabled_before cpu.privilege cpu.mstatus
    by_mode user_mode e = rw e refl
    by_mode machine_mode e = rw e refl
    by_mode supervisor_mode e = rw e (ground (arith, bitcrop_lem cpu.mstatus 1 1 (omega arith)))

-- From a status word of 64 bits, a supported trap that is delegated returns, in supervisor mode. SRET
-- then returns to the mode and the address of before the trap, and SIE, bit 1 of the status word, is
-- again what it was if the trap came from supervisor mode, and 1 if it came from user mode.
pub sret-trap :
    (cpu : RiscvCpu) (cause : ℕ) (interrupt : Bool)
    → cpu.mstatus < 2 ^ 64
    → is_supported cause interrupt ≡ true
    → sv_delegation cpu cause interrupt ≡ true
    → (t r : RiscvCpu) × (trap cpu cause interrupt ≡ some t)
      × (t.privilege ≡ supervisor_mode)
      × (sret t ≡ some r)
      × (r.privilege ≡ cpu.privilege)
      × (r.next_pc ≡ cpu.pc)
      × (bitcrop r.mstatus 1 1 ≡ supervisor_enabled_before cpu.privilege cpu.mstatus)
unfolding trap taken supervisor_word
sret-trap cpu cause interrupt fits ok delegated =
    let g = as_bit (global_sie cpu) in
    let p = priviledge_to_int cpu.privilege in
    let one = as_bit-lt (global_sie cpu) in
    let d = prepared_supervisor cpu cause interrupt delegated in
    let s =
      settled_same (delivered (prepared cpu cause interrupt) cause interrupt) cause interrupt in
    let spp = to_supervisor-spp cpu.mstatus g p fits one in
    let back : int_to_privilege_mode (bitcrop (to_supervisor cpu.mstatus g p) 1 8)
        ≡ some cpu.privilege =
      rw spp (mode_back cpu cause interrupt delegated) in
    let (r, e, mode, place, status) =
      sret_of (taken cpu cause interrupt) (supervisor_word cpu) cpu.pc cpu.privilege
        (s.status ∙ d.status) (s.sepc ∙ d.place) back in
    (
      taken cpu cause interrupt,
      r,
      rw ok refl,
      s.mode ∙ d.entered,
      e,
      mode,
      place,
      rw status (
          sret_status-sie (supervisor_word cpu) (to_supervisor-lt cpu.mstatus g p fits one)
          ∙ to_supervisor-spie cpu.mstatus g p fits one
          ∙ global_sie_lem cpu),
    )
