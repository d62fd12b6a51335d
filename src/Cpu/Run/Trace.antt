-- ===== src/Cpu/Run/Trace.antt =====
-- `RunCpu` against the sequence of the states that it goes through.
use mathlib.Core.Path.{subst}
use m99_riscv_emulator.Prelude.{
  ℕ, zero, suc, ◌+◌, ◌≤◌, ◌<◌, ◌≡◌, ◌⊎◌, ◌↔◌, refl, ◌∙◌, ap, arith, true, false, some,
}
use m99_riscv_emulator.Screen.{Terminal}
use m99_riscv_emulator.SystemCall.{Host}
use m99_riscv_emulator.Cpu.{RiscvCpu}
use m99_riscv_emulator.Cpu.Run.{run_round, run_cpu, is_halted}
use m99_riscv_emulator.Cpu.Run.Round.{Round, run_round-Round}
use m99_riscv_emulator.Cpu.Run.Loop.{Runs, last, next, run_loop-Runs}

-- The states `states 0` to `states n` of a run from the given round on: each comes from the one before
-- in one of the ways of a round (`Round`), with the answers of that round; neither flag is set between two rounds; and the last
-- state, after at least one round, has one of them set.
pub record IsTrace (hosts : ℕ → Host) (terminals : ℕ → Terminal) (round n : ℕ)
    (states : ℕ → RiscvCpu) : Type 0 where
  pub rounds :
      (k : ℕ)
      → k < n
      → Round (hosts (round + k)) (terminals (round + k)) (states k) (states (suc k))
  pub going :
      (k : ℕ) → 0 < k → k < n → ((states k).error_flag ≡ false) × ((states k).end_flag ≡ false)
  pub not_empty : 0 < n
  pub halted : ((states n).error_flag ≡ true) ⊎ ((states n).end_flag ≡ true)

halted_flags : (c : RiscvCpu) → is_halted c ≡ true → (c.error_flag ≡ true) ⊎ (c.end_flag ≡ true)
unfolding is_halted
halted_flags c h = ground arith

flags_halted : (c : RiscvCpu) → (c.error_flag ≡ true) ⊎ (c.end_flag ≡ true) → is_halted c ≡ true
unfolding is_halted
flags_halted c h = ground arith

going_flags : (c : RiscvCpu) → is_halted c ≡ false → (c.error_flag ≡ false) × (c.end_flag ≡ false)
unfolding is_halted
going_flags c h = (ground arith, ground arith)

flags_going : (c : RiscvCpu) → (c.error_flag ≡ false) × (c.end_flag ≡ false) → is_halted c ≡ false
unfolding is_halted
flags_going c (e, f) = ground arith

prepend : RiscvCpu → (ℕ → RiscvCpu) → ℕ → RiscvCpu
prepend c states zero = c
prepend c states (suc k) = states k

module _ (hosts : ℕ → Host) (terminals : ℕ → Terminal) where
  Rounds : ℕ → RiscvCpu → RiscvCpu → Type 0
  Rounds i c d = Round (hosts i) (terminals i) c d

  was : (i : ℕ) (c d : RiscvCpu) → run_round (hosts i) (terminals i) c ≡ some d → Rounds i c d
  unfolding Rounds
  was i c d e = (run_round-Round (hosts i) (terminals i) c d).0 e

  is : (i : ℕ) (c d : RiscvCpu) → Rounds i c d → run_round (hosts i) (terminals i) c ≡ some d
  unfolding Rounds
  is i c d r = (run_round-Round (hosts i) (terminals i) c d).1 r

  Runs-IsTrace :
      {n round : ℕ} {cpu cpu' : RiscvCpu}
      → Runs hosts terminals n round cpu cpu'
      → (states : ℕ → RiscvCpu) × IsTrace hosts terminals round n states
        × (states 0 ≡ cpu)
        × (states n ≡ cpu')
  unfolding prepend Rounds
  Runs-IsTrace {round} {cpu} {cpu'} (last e halt) = (
    prepend cpu (λ k. cpu'),
    record {
      rounds = λ k h.
          let first : k ≡ 0 = omega arith in
          let at : round ≡ round + k = omega arith in
          rw first (subst (λ i. Rounds i cpu cpu') (at ∙ ap (λ j. round + j) first) (was _ _ _ e));
      going = λ k low high. absurd (omega arith);
      not_empty = omega arith;
      halted = halted_flags cpu' halt;
    },
    refl,
    refl,
  )
  Runs-IsTrace {round} {cpu} {cpu'} (next {n} {cpu' = c} e on runs) =
      let (states, trace, first, end) = Runs-IsTrace runs in
      (
        prepend cpu states,
        record {
          rounds = by_round states trace first;
          going = by_going states trace first;
          not_empty = omega arith;
          halted = trace.halted;
        },
        refl,
        end,
      )
    where
      by_round :
          (states : ℕ → RiscvCpu)
          → IsTrace hosts terminals (suc round) n states
          → states 0 ≡ c
          → (k : ℕ) → k < suc n
          → Rounds (round + k) (prepend cpu states k) (states k)
      by_round states trace first zero h =
          let at : round ≡ round + 0 = omega arith in
          rw first (subst (λ i. Rounds i cpu c) at (was _ _ _ e))
      by_round states trace first (suc k) h =
          let at : suc round + k ≡ round + suc k = omega arith in
          subst (λ i. Rounds i (states k) (states (suc k))) at (trace.rounds k (omega arith))

      by_going :
          (states : ℕ → RiscvCpu)
          → IsTrace hosts terminals (suc round) n states
          → states 0 ≡ c
          → (k : ℕ) → 0 < k
          → k < suc n
          → ((prepend cpu states k).error_flag ≡ false) × ((prepend cpu states k).end_flag ≡ false)
      by_going states trace first zero low high = absurd (omega arith)
      by_going states trace first (suc zero) low high = rw first (going_flags c on)
      by_going states trace first (suc (suc k)) low high =
          trace.going (suc k) (omega arith) (omega arith)

  IsTrace-Runs :
      (n round : ℕ) (states : ℕ → RiscvCpu)
      → IsTrace hosts terminals round n states
      → Runs hosts terminals n round (states 0) (states n)
  unfolding Rounds
  IsTrace-Runs zero round states trace = absurd (let h = trace.not_empty in omega arith)
  IsTrace-Runs (suc zero) round states trace =
      let at : round + 0 ≡ round = omega arith in
      last
        (is _ _ _ (subst (λ i. Rounds i (states 0) (states 1)) at (trace.rounds 0 (omega arith))))
        (flags_halted (states 1) trace.halted)
  IsTrace-Runs (suc (suc n)) round states trace =
      let at : round + 0 ≡ round = omega arith in
      next
        (is _ _ _ (subst (λ i. Rounds i (states 0) (states 1)) at (trace.rounds 0 (omega arith))))
        (flags_going (states 1) (trace.going 1 (omega arith) (omega arith)))
        (IsTrace-Runs (suc n) (suc round) (λ k. states (suc k))
          (record {
            rounds = λ k h.
                let at : round + suc k ≡ suc round + k = omega arith in
                subst (λ i. Rounds i (states (suc k)) (states (suc (suc k)))) at
                  (trace.rounds (suc k) (omega arith));
            going = λ k low high. trace.going (suc k) (omega arith) (omega arith);
            not_empty = omega arith;
            halted = trace.halted;
          }))

  -- With fuel for `fuel` rounds, RunCpu returns a state exactly when a run of 1 to `fuel` rounds ends
  -- in it. The run starts with both flags clear at the given address; the rounds get the answers of
  -- the host and the keyboard in their order; it goes on as long as neither the error flag nor the end
  -- flag is set, and stops after the first round that sets one.
  pub run_cpu-IsTrace :
      (fuel start_pc : ℕ) (cpu cpu' : RiscvCpu)
      → (run_cpu hosts terminals fuel cpu start_pc ≡ some cpu') ↔ (
          (n : ℕ) × (n ≤ fuel)
          × (states : ℕ → RiscvCpu) × IsTrace hosts terminals 0 n states
          × (states 0 ≡ record cpu { error_flag = false; end_flag = false; next_pc = start_pc })
          × (states n ≡ cpu'))
  unfolding run_cpu
  run_cpu-IsTrace fuel start_pc cpu cpu' =
      let start = record cpu { error_flag = false; end_flag = false; next_pc = start_pc } in
      let by_runs = run_loop-Runs hosts terminals fuel 0 start cpu' in
      (
        λ e.
            let (n, few, runs) = by_runs.0 e in
            let (states, trace, first, end) = Runs-IsTrace runs in
            (n, few, states, trace, first, end),
        λ (n, few, states, trace, first, end). by_runs.1 (
          n,
          few,
          subst (λ c. Runs hosts terminals n 0 c cpu') first
              (subst (λ c. Runs hosts terminals n 0 (states 0) c) end
                (IsTrace-Runs n 0 states trace)),
        ),
      )
