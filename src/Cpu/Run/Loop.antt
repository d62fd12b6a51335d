-- ===== src/Cpu/Run/Loop.antt =====
-- The loop of `RunCpu` against its rounds: a run as a chain of rounds.
use mathlib.Core.Path.{subst}
use m99_riscv_emulator.Prelude.{
  ℕ, zero, suc, ◌≤◌, ◌≡◌, ◌↔◌, refl, sym, ◌∙◌, arith, true, false, Option, some, Bool-cases, inl,
  inr,
}
use m99_riscv_emulator.Prelude.Options.{bind_some, bind_to, some_injective}
use m99_riscv_emulator.Screen.{Terminal}
use m99_riscv_emulator.SystemCall.{Host}
use m99_riscv_emulator.Cpu.{RiscvCpu}
use m99_riscv_emulator.Cpu.Run.{run_round, run_loop, is_halted}

-- A run of a number of rounds, from the given one on, of which only the last one halts.
pub data Runs (hosts : ℕ → Host) (terminals : ℕ → Terminal)
    : ℕ → ℕ → RiscvCpu → RiscvCpu → Type 0 where
  last :
      {round : ℕ} {cpu cpu' : RiscvCpu}
      → run_round (hosts round) (terminals round) cpu ≡ some cpu'
      → is_halted cpu' ≡ true
      → Runs hosts terminals 1 round cpu cpu'
  next :
      {n round : ℕ} {cpu cpu' cpu'' : RiscvCpu}
      → run_round (hosts round) (terminals round) cpu ≡ some cpu'
      → is_halted cpu' ≡ false
      → Runs hosts terminals n (suc round) cpu' cpu''
      → Runs hosts terminals (suc n) round cpu cpu''

module _ (hosts : ℕ → Host) (terminals : ℕ → Terminal) where
  -- What follows a round, by whether it halted.
  after : ℕ → ℕ → RiscvCpu → Option RiscvCpu
  unfolding run_loop
  after fuel round c = elim (is_halted c) [
    | true ↦ some c
    | false ↦ run_loop hosts terminals fuel (suc round) c
  ]

  after_halt : (fuel round : ℕ) (c : RiscvCpu) → is_halted c ≡ true → after fuel round c ≡ some c
  unfolding after
  after_halt fuel round c h = rw (h, after) refl

  after_on :
      (fuel round : ℕ) (c : RiscvCpu)
      → is_halted c ≡ false
      → after fuel round c ≡ run_loop hosts terminals fuel (suc round) c
  unfolding after
  after_on fuel round c h = rw (h, after) refl

  pub loop_sound :
      (fuel round : ℕ) (cpu : RiscvCpu) {cpu' : RiscvCpu}
      → run_loop hosts terminals fuel round cpu ≡ some cpu'
      → (n : ℕ) × (n ≤ fuel) × Runs hosts terminals n round cpu cpu'
  unfolding run_loop after
  loop_sound zero round cpu e = absurd cc
  loop_sound (suc fuel) round cpu {cpu'} e =
      let (c, made, rest) =
        bind_some (run_round (hosts round) (terminals round) cpu) (after fuel round) e in
      elim (Bool-cases (is_halted c)) [
        | inl halt ↦
            let same : c ≡ cpu' = some_injective (sym (after_halt fuel round c halt) ∙ rest) in
            (
              1,
              omega arith,
              subst (λ d. Runs hosts terminals 1 round cpu d) same (Runs.last made halt),
            )
        | inr on ↦
            let (n, few, runs) =
              loop_sound fuel (suc round) c (sym (after_on fuel round c on) ∙ rest) in
            (suc n, omega arith, Runs.next made on runs)
      ]

  pub loop_complete :
      {n fuel round : ℕ} {cpu cpu' : RiscvCpu}
      → n ≤ fuel
      → Runs hosts terminals n round cpu cpu'
      → run_loop hosts terminals fuel round cpu ≡ some cpu'
  unfolding run_loop after
  loop_complete {fuel = zero} h (last e halt) = absurd (omega arith)
  loop_complete {fuel = suc fuel} {round} {cpu' = cpu'} h (last e halt) =
      bind_to (after fuel round) e (after_halt fuel round cpu' halt)
  loop_complete {fuel = zero} h (next e on runs) = absurd (omega arith)
  loop_complete {fuel = suc fuel} {round} h (next {cpu' = c} e on runs) =
      bind_to (after fuel round) e (after_on fuel round c on ∙ loop_complete (omega arith) runs)

  -- With fuel for `fuel` rounds, the loop returns a state exactly when a run of at most so many
  -- rounds, of which only the last one halts, ends in that state.
  pub run_loop-Runs :
      (fuel round : ℕ) (cpu cpu' : RiscvCpu)
      → (run_loop hosts terminals fuel round cpu ≡ some cpu')
        ↔ ((n : ℕ) × (n ≤ fuel) × Runs hosts terminals n round cpu cpu')
  run_loop-Runs fuel round cpu cpu' =
      (loop_sound fuel round cpu, λ (n, few, runs). loop_complete few runs)
