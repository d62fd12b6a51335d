-- ===== src/Cpu/Run/Round.antt =====
-- One round of `RunCpu` as a step relation: the ways in which a round goes.
use mathlib.Core.Path.{subst}
use m99_riscv_emulator.Prelude.{
  ℕ, ◌≡◌, ◌⊎◌, ◌↔◌, inl, inr, refl, sym, ◌∙◌, arith, Bool, true, false, some, ◌||◌, ◌==◌,
  if◌then◌else◌, Bool-cases,
}
use m99_riscv_emulator.Prelude.Options.{bind_some, bind_to, some_injective}
use m99_riscv_emulator.Memory.{update}
use m99_riscv_emulator.Screen.{Terminal}
use m99_riscv_emulator.SystemCall.{Host}
use m99_riscv_emulator.Cpu.{RiscvCpu, set_register}
use m99_riscv_emulator.Cpu.Access.{load_cmd}
use m99_riscv_emulator.Cpu.Step.{timer_tick, interrupt_check}
use m99_riscv_emulator.Cpu.Trap.{trap, check_pending_interrupt}
use m99_riscv_emulator.Cpu.Run.{
  run_round, run_instruction, run_fetched, decode, dispatched, concluded, peripheral_emulations,
}

-- The state after an instruction: register 0 is 0 again, and a jump to itself is an error.
abbrev pub after_instruction : RiscvCpu → RiscvCpu
after_instruction cpu = record cpu {
  reg = update cpu.reg 0 0;
  error_flag = cpu.error_flag || cpu.pc == cpu.next_pc;
}

-- The state with the word that was fetched.
abbrev pub fetched : ℕ → RiscvCpu → RiscvCpu
fetched word cpu = record cpu { ir = word }

-- What a round makes of `cpu`, after the timer and with the interrupts looked at (`ready`): an
-- interrupt ends it; else the word at the program counter is fetched, a page fault there is trap 12
-- and ends it; else the instruction is executed, and the devices get their turn where one is emulated.
pub data Round (host : Host) (terminal : Terminal) (cpu : RiscvCpu) : RiscvCpu → Type 0 where
  interrupted :
      {ticked end : RiscvCpu}
      → timer_tick (record cpu { pc = cpu.next_pc }) ≡ some ticked
      → check_pending_interrupt (interrupt_check ticked) ≡ some (end, true)
      → Round host terminal cpu end
  no_page :
      {ticked ready found end : RiscvCpu} {word : ℕ}
      → timer_tick (record cpu { pc = cpu.next_pc }) ≡ some ticked
      → check_pending_interrupt (interrupt_check ticked) ≡ some (ready, false)
      → load_cmd ready ready.pc ≡ some (word, found)
      → found.page_fault ≡ true
      → trap (fetched word found) 12 false ≡ some end
      → Round host terminal cpu end
  executed :
      {ticked ready found done : RiscvCpu} {word : ℕ}
      → timer_tick (record cpu { pc = cpu.next_pc }) ≡ some ticked
      → check_pending_interrupt (interrupt_check ticked) ≡ some (ready, false)
      → load_cmd ready ready.pc ≡ some (word, found)
      → found.page_fault ≡ false
      → dispatched host (fetched word found) (decode (fetched word found)) ≡ some done
      → (done.host_emulation ≡ false) × (done.peripheral_emulation ≡ false)
      → Round host terminal cpu (after_instruction done)
  served :
      {ticked ready found done end : RiscvCpu} {word : ℕ}
      → timer_tick (record cpu { pc = cpu.next_pc }) ≡ some ticked
      → check_pending_interrupt (interrupt_check ticked) ≡ some (ready, false)
      → load_cmd ready ready.pc ≡ some (word, found)
      → found.page_fault ≡ false
      → dispatched host (fetched word found) (decode (fetched word found)) ≡ some done
      → (done.host_emulation ≡ true) ⊎ (done.peripheral_emulation ≡ true)
      → peripheral_emulations terminal (after_instruction done) ≡ some end
      → Round host terminal cpu end

if_yes {ℓ} : {A : Type ℓ} (t : Bool) (x y : A) → t ≡ true → (if t then x else y) ≡ x
if_yes true x y e = refl
if_yes false x y e = absurd cc

if_no {ℓ} : {A : Type ℓ} (t : Bool) (x y : A) → t ≡ false → (if t then x else y) ≡ y
if_no true x y e = absurd cc
if_no false x y e = refl

module _ (host : Host) (terminal : Terminal) (cpu : RiscvCpu) where
  complete : {end : RiscvCpu} → Round host terminal cpu end → run_round host terminal cpu ≡ some end
  unfolding run_round run_instruction run_fetched concluded set_register
  complete (interrupted ticks checks) = bind_to _ ticks (bind_to _ checks refl)
  complete (no_page {found} ticks checks loads faults traps) =
      bind_to _ ticks
        (bind_to _ checks (bind_to _ loads (if_yes found.page_fault _ _ faults ∙ traps)))
  complete (executed {found} {done} ticks checks loads calm runs quiet) =
      let off : (done.host_emulation || done.peripheral_emulation) ≡ false = ground arith in
      bind_to _ ticks (
        bind_to _ checks
          (bind_to _ loads (if_no found.page_fault _ _ calm ∙ bind_to _ runs (if_no _ _ _ off))))
  complete (served {found} {done} ticks checks loads calm runs busy serves) =
      let on : (done.host_emulation || done.peripheral_emulation) ≡ true = ground arith in
      bind_to _ ticks (
        bind_to _ checks (
          bind_to _ loads
            (if_no found.page_fault _ _ calm ∙ bind_to _ runs (if_yes _ _ _ on ∙ serves))))

  -- What a round does, by its three tests.
  module _ (ticked : RiscvCpu)
      (ticks : timer_tick (record cpu { pc = cpu.next_pc }) ≡ some ticked) where
    by_emulation :
        (ready found done end : RiscvCpu) (word : ℕ)
        → check_pending_interrupt (interrupt_check ticked) ≡ some (ready, false)
        → load_cmd ready ready.pc ≡ some (word, found)
        → found.page_fault ≡ false
        → dispatched host (fetched word found) (decode (fetched word found)) ≡ some done
        → (if done.host_emulation || done.peripheral_emulation
            then peripheral_emulations terminal (concluded done)
            else some (concluded done))
          ≡ some end
        → Round host terminal cpu end
    unfolding concluded set_register
    by_emulation ready found done end word checks loads calm runs rest =
        elim (Bool-cases (done.host_emulation || done.peripheral_emulation)) [
          | inl on ↦
              served ticks checks loads calm runs (ground arith) (sym (if_yes _ _ _ on) ∙ rest)
          | inr off ↦
              subst (Round host terminal cpu) (some_injective (sym (if_no _ _ _ off) ∙ rest))
                (executed ticks checks loads calm runs (ground arith, ground arith))
        ]

    by_fault :
        (ready found end : RiscvCpu) (word : ℕ)
        → check_pending_interrupt (interrupt_check ticked) ≡ some (ready, false)
        → load_cmd ready ready.pc ≡ some (word, found)
        → (if found.page_fault
            then trap (fetched word found) 12 false
            else run_fetched host terminal (fetched word found))
          ≡ some end
        → Round host terminal cpu end
    unfolding run_fetched
    by_fault ready found end word checks loads rest = elim (Bool-cases found.page_fault) [
      | inl faults ↦ no_page ticks checks loads faults (sym (if_yes _ _ _ faults) ∙ rest)
      | inr calm ↦
          let (done, runs, e) = bind_some _ _ (sym (if_no _ _ _ calm) ∙ rest) in
          by_emulation ready found done end word checks loads calm runs e
    ]

    by_interrupt :
        (ready end : RiscvCpu) (pending : Bool)
        → check_pending_interrupt (interrupt_check ticked) ≡ some (ready, pending)
        → (if pending then some ready else run_instruction host terminal ready) ≡ some end
        → Round host terminal cpu end
    unfolding run_instruction
    by_interrupt ready end true checks rest =
        subst (Round host terminal cpu) (some_injective rest) (interrupted ticks checks)
    by_interrupt ready end false checks rest =
        let (loaded, loads, e) = bind_some _ _ rest in
        by_fault ready loaded.1 end loaded.0 checks loads e

  sound : {end : RiscvCpu} → run_round host terminal cpu ≡ some end → Round host terminal cpu end
  unfolding run_round
  sound {end} e =
      let (ticked, ticks, e1) = bind_some _ _ e in
      let (pending, checks, e2) = bind_some _ _ e1 in
      by_interrupt ticked ticks pending.0 end pending.1 checks e2

  -- A round returns a state exactly when one of its ways leads there.
  pub run_round-Round :
      (end : RiscvCpu) → (run_round host terminal cpu ≡ some end) ↔ Round host terminal cpu end
  run_round-Round end = (sound, complete)
