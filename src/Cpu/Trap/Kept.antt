-- ===== src/Cpu/Trap/Kept.antt =====
-- Traps and interrupts leave the registers as they are.
use m99_riscv_emulator.Prelude.{
  ℕ, ◌≡◌, refl, sym, ◌∙◌, ap, Bool, true, not, ◌&&◌, Option, none, some, ◌==◌, Bool-cases, inl, inr,
}
use m99_riscv_emulator.Prelude.Options.{bind_some, some_injective, assert-some}
use m99_riscv_emulator.Isa.Causes
use m99_riscv_emulator.Cpu.{RiscvCpu}
use m99_riscv_emulator.Cpu.Csr.{
  set_csr, apply_mstatus_to_csr, clear_interrupt_pending, apply_interrupt_pending,
}
use m99_riscv_emulator.Cpu.Trap.{
  is_supported, is_page_fault, record_fault, prepared, delivered, settled, sv_delegation,
  trap_to_machine, trap_to_supervisor, taken, trap, interrupted, check_pending_interrupt,
}

abbrev pub SameReg : RiscvCpu → RiscvCpu → Type 0
SameReg c d = d.reg ≡ c.reg

prepared-reg : (c : RiscvCpu) (cause : ℕ) (i : Bool) → SameReg c (prepared c cause i)
unfolding prepared record_fault
prepared-reg c cause i = elim (Bool-cases (not i && is_page_fault cause)) [
  | inl e ↦ rw e refl
  | inr e ↦ rw e refl
]

delivered-reg : (c : RiscvCpu) (cause : ℕ) (i : Bool) → SameReg c (delivered c cause i)
unfolding delivered trap_to_machine trap_to_supervisor apply_mstatus_to_csr set_csr
delivered-reg c cause i = elim (Bool-cases (sv_delegation c cause i)) [
  | inl e ↦ rw e refl
  | inr e ↦ rw e refl
]

settled-reg : (c : RiscvCpu) (cause : ℕ) (i : Bool) → SameReg c (settled c cause i)
unfolding settled clear_interrupt_pending apply_interrupt_pending apply_mstatus_to_csr set_csr
settled-reg c cause i =
    elim (Bool-cases (
      i
      && not (cause == Causes.supervisor_softwarre_interrupt)
      && not (cause == Causes.machine_software_interrupt))) [
        | inl e ↦ rw e refl
        | inr e ↦ rw e refl
      ]

taken-reg : (c : RiscvCpu) (cause : ℕ) (i : Bool) → SameReg c (taken c cause i)
unfolding taken
taken-reg c cause i =
    settled-reg (delivered (prepared c cause i) cause i) cause i
    ∙ delivered-reg (prepared c cause i) cause i
    ∙ prepared-reg c cause i

pub trap-reg :
    (c : RiscvCpu) {d : RiscvCpu} (cause : ℕ) (i : Bool) → trap c cause i ≡ some d → SameReg c d
unfolding trap
trap-reg c cause i e =
    let (_, made) = assert-some (is_supported cause i) (some (taken c cause i)) e in
    ap (λ (d : RiscvCpu). d.reg) (sym (some_injective made)) ∙ taken-reg c cause i

interrupted-reg :
    (c : RiscvCpu) {d : RiscvCpu} {hit : Bool} (cause : Option ℕ)
    → interrupted c cause ≡ some (d, hit)
    → SameReg c d
unfolding interrupted
interrupted-reg c none e = ap (λ (d : RiscvCpu × Bool). d.0.reg) (sym (some_injective e))
interrupted-reg c (some cause) e =
    let (d, made, rest) = bind_some (trap c cause true) (λ (d : RiscvCpu). some (d, true)) e in
    ap (λ (d : RiscvCpu × Bool). d.0.reg) (sym (some_injective rest)) ∙ trap-reg c cause true made

pub check_pending_interrupt-reg :
    (c : RiscvCpu) {d : RiscvCpu} {hit : Bool}
    → check_pending_interrupt c ≡ some (d, hit)
    → SameReg c d
unfolding check_pending_interrupt
check_pending_interrupt-reg c e = interrupted-reg c _ e
