-- ===== src/Cpu/Run/Invariant.antt =====
-- What every round keeps: register 0.
use m99_riscv_emulator.Prelude.{
  ℕ, ◌≡◌, refl, sym, ◌∙◌, ap, Bool, true, false, ◌||◌, some, Bool-cases, inl, inr, if◌then◌else◌,
}
use m99_riscv_emulator.Prelude.Options.{bind_some, some_injective}
use m99_riscv_emulator.Screen.{Terminal}
use m99_riscv_emulator.SystemCall.{Host}
use m99_riscv_emulator.Memory.{MemoryWrapper}
use m99_riscv_emulator.Isa.Causes
use m99_riscv_emulator.Peripheral
use m99_riscv_emulator.Peripheral.{PeripheralEmulator, clear_timer_interrupt}
use m99_riscv_emulator.Peripheral.Cycle.{emulation}
use m99_riscv_emulator.Cpu.{RiscvCpu, set_register}
use m99_riscv_emulator.Cpu.Csr.{set_interrupt_pending, apply_interrupt_enable, set_csr}
use m99_riscv_emulator.Cpu.Trap.{trap, check_pending_interrupt}
use m99_riscv_emulator.Cpu.Trap.Kept.{SameReg, trap-reg, check_pending_interrupt-reg}
use m99_riscv_emulator.Cpu.Access.{load_cmd}
use m99_riscv_emulator.Cpu.Access.Kept.{load_cmd-reg}
use m99_riscv_emulator.Cpu.Step.{
  timer_tick, interrupt_check, disk_interrupt_check, uart_interrupt_check,
}
use m99_riscv_emulator.Cpu.Run.{
  reported, peripheral_emulations, concluded, run_fetched, run_instruction, run_round, decode,
  dispatched,
}
use m99_riscv_emulator.Cpu.Run.Loop.{Runs, last, next}

timer_tick-reg : (c : RiscvCpu) {d : RiscvCpu} → timer_tick c ≡ some d → SameReg c d
unfolding timer_tick set_interrupt_pending apply_interrupt_enable set_csr
timer_tick-reg c e =
    let (p, made, rest) = bind_some (Peripheral.timer_tick c.peripheral c.memory) _ e in
    ap (λ (d : RiscvCpu). d.reg) (sym (some_injective rest)) ∙ by_interrupt p p.timer_interrupt
  where
    by_interrupt :
        (p : PeripheralEmulator) (i : Bool)
        → SameReg c (
            if i
            then set_interrupt_pending
                (record c { peripheral = clear_timer_interrupt p })
                Causes.machine_timer_interrupt
            else record c { peripheral = p })
    by_interrupt p true = unfold set_interrupt_pending apply_interrupt_enable set_csr in refl
    by_interrupt p false = refl

interrupt_check-reg : (c : RiscvCpu) → SameReg c (interrupt_check c)
unfolding interrupt_check disk_interrupt_check uart_interrupt_check set_interrupt_pending
    apply_interrupt_enable set_csr
interrupt_check-reg c = elim (Bool-cases c.virtio_interrupt) [
  | inl e ↦ elim (Bool-cases c.uart_interrupt) [ inl f ↦ rw (e, f) refl | inr f ↦ rw (e, f) refl ]
  | inr e ↦ elim (Bool-cases c.uart_interrupt) [ inl f ↦ rw (e, f) refl | inr f ↦ rw (e, f) refl ]
]

concluded-zero : (c : RiscvCpu) → (concluded c).reg 0 ≡ 0
unfolding concluded set_register
concluded-zero c = refl

reported-zero :
    (c : RiscvCpu) (p : PeripheralEmulator) (m : MemoryWrapper)
    → c.reg 0 ≡ 0
    → (reported c p m).reg 0 ≡ 0
unfolding reported set_register
reported-zero c p m h = elim (Bool-cases p.end_flag) [ inl e ↦ rw e h | inr e ↦ rw e h ]

peripheral_emulations-zero :
    (terminal : Terminal) (c : RiscvCpu) {d : RiscvCpu}
    → c.reg 0 ≡ 0
    → peripheral_emulations terminal c ≡ some d
    → d.reg 0 ≡ 0
unfolding peripheral_emulations
peripheral_emulations-zero terminal c zero e =
    let (p, _, made) = bind_some (emulation terminal c.peripheral c.memory) _ e in
    ap (λ (d : RiscvCpu). d.reg 0) (sym (some_injective made)) ∙ reported-zero c p.0 p.1 zero

run_fetched-zero :
    (host : Host) (terminal : Terminal) (c : RiscvCpu) {d : RiscvCpu}
    → run_fetched host terminal c ≡ some d
    → d.reg 0 ≡ 0
unfolding run_fetched
run_fetched-zero host terminal c e =
    let (x, _, rest) = bind_some (dispatched host c (decode c)) _ e in
    by_devices x (x.host_emulation || x.peripheral_emulation) rest
  where
    by_devices :
        (x : RiscvCpu) (devices : Bool) {d : RiscvCpu}
        → (if devices then peripheral_emulations terminal (concluded x) else some (concluded x))
          ≡ some d
        → d.reg 0 ≡ 0
    by_devices x true e = peripheral_emulations-zero terminal (concluded x) (concluded-zero x) e
    by_devices x false e =
        ap (λ (d : RiscvCpu). d.reg 0) (sym (some_injective e)) ∙ concluded-zero x

run_instruction-zero :
    (host : Host) (terminal : Terminal) (c : RiscvCpu) {d : RiscvCpu}
    → c.reg 0 ≡ 0
    → run_instruction host terminal c ≡ some d
    → d.reg 0 ≡ 0
unfolding run_instruction
run_instruction-zero host terminal c zero e =
    let (f, got, rest) = bind_some (load_cmd c c.pc) _ e in
    by_fault f (ap (λ r. r 0) (load_cmd-reg c c.pc got) ∙ zero) f.1.page_fault rest
  where
    by_fault :
        (f : ℕ × RiscvCpu) {d : RiscvCpu}
        → f.1.reg 0 ≡ 0
        → (fault : Bool)
        → (if fault
            then trap (record f.1 { ir = f.0 }) Causes.instruction_page_fault false
            else run_fetched host terminal (record f.1 { ir = f.0 }))
          ≡ some d
        → d.reg 0 ≡ 0
    by_fault f zero true e =
        ap (λ r. r 0) (trap-reg (record f.1 { ir = f.0 }) Causes.instruction_page_fault false e)
        ∙ zero
    by_fault f zero false e = run_fetched-zero host terminal (record f.1 { ir = f.0 }) e

pub run_round-zero :
    (host : Host) (terminal : Terminal) (c : RiscvCpu) {d : RiscvCpu}
    → c.reg 0 ≡ 0
    → run_round host terminal c ≡ some d
    → d.reg 0 ≡ 0
unfolding run_round
run_round-zero host terminal c zero e =
    let (t, ticked, rest) = bind_some (timer_tick (record c { pc = c.next_pc })) _ e in
    let (p, checked, rest) = bind_some (check_pending_interrupt (interrupt_check t)) _ rest in
    let kept =
      ap (λ r. r 0)
        (check_pending_interrupt-reg (interrupt_check t) checked
          ∙ interrupt_check-reg t
          ∙ timer_tick-reg (record c { pc = c.next_pc }) ticked)
      ∙ zero in
    by_hit p.0 kept p.1 rest
  where
    by_hit :
        (c : RiscvCpu) {d : RiscvCpu}
        → c.reg 0 ≡ 0
        → (hit : Bool) → (if hit then some c else run_instruction host terminal c) ≡ some d
        → d.reg 0 ≡ 0
    by_hit c zero true e = ap (λ (d : RiscvCpu). d.reg 0) (sym (some_injective e)) ∙ zero
    by_hit c zero false e = run_instruction-zero host terminal c zero e

-- Register 0 is 0 at the end of every run that starts with it 0: interrupts, page faults, system
-- calls and the devices do not change that.
pub Runs-zero :
    (hosts : ℕ → Host) (terminals : ℕ → Terminal) {n round : ℕ} {c d : RiscvCpu}
    → c.reg 0 ≡ 0
    → Runs hosts terminals n round c d
    → d.reg 0 ≡ 0
Runs-zero hosts terminals {round = round} {c} zero (last e halt) =
    run_round-zero (hosts round) (terminals round) c zero e
Runs-zero hosts terminals {round = round} {c} zero (next e on runs) =
    Runs-zero hosts terminals (run_round-zero (hosts round) (terminals round) c zero e) runs
