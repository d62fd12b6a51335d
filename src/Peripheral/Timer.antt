-- ===== src/Peripheral/Timer.antt =====
-- When the timer fires, and what the host interface can ask for.
use m99_riscv_emulator.Prelude.{
  ℕ, zero, suc, ◌+◌, ◌/◌, ◌^◌, ◌≤◌, ◌<◌, ◌≡◌, refl, ◌∙◌, arith, false, Option, some, ◌>>=◌, ◌||◌,
  leb, ltb, ◌&&◌, ◌==◌, u64,
}
use m99_riscv_emulator.Prelude.Bits.{bit_and_mask}
use m99_riscv_emulator.Memory.{MemoryWrapper}
use m99_riscv_emulator.Peripheral.{
  PeripheralEmulator, timer_tick, comparator, host_device, host_command,
}

-- `n` ticks with no write to the comparator between them.
pub ticks : ℕ → PeripheralEmulator → MemoryWrapper → Option PeripheralEmulator
ticks zero p mem = some p
ticks (suc n) p mem = timer_tick p mem >>= λ p. ticks n p mem

-- One tick, where the comparator is not read anew.
abbrev ticked : PeripheralEmulator → PeripheralEmulator
ticked p = record p {
  elapsed_cycles = p.elapsed_cycles + 1;
  timercmp_update = false;
  timer_interrupt = p.timer_interrupt || (p.elapsed_cycles + 1 == p.next_cycle);
}

ticks_step :
    (n : ℕ) (p : PeripheralEmulator) (mem : MemoryWrapper)
    → p.timercmp_update ≡ false
    → p.elapsed_cycles + 1 < 2 ^ 64
    → ticks (suc n) p mem ≡ ticks n (ticked p) mem
unfolding ticks timer_tick comparator
ticks_step n p mem read room =
    let e : u64 (p.elapsed_cycles + 1) ≡ p.elapsed_cycles + 1 = omega arith in rw (read, e) refl

-- While the comparator stays as it was read and the cycle count does not wrap, `n` ticks return. They
-- count `n` cycles, and leave the interrupt pending if it was, or if the count has come to the
-- comparator from below, and not otherwise.
pub ticks_lem :
    (n : ℕ) (p : PeripheralEmulator) (mem : MemoryWrapper)
    → p.timercmp_update ≡ false
    → p.elapsed_cycles + n < 2 ^ 64
    → (p' : PeripheralEmulator) × (ticks n p mem ≡ some p')
      × (p'.elapsed_cycles ≡ p.elapsed_cycles + n)
      × (p'.timer_interrupt ≡ (
          p.timer_interrupt
          || (ltb p.elapsed_cycles p.next_cycle && leb p.next_cycle (p.elapsed_cycles + n))))
unfolding ticks
ticks_lem zero p mem read room = (p, refl, omega arith, ground arith)
ticks_lem (suc n) p mem read room =
    let (p', e, count, fired) = ticks_lem n (ticked p) mem refl (omega arith) in
    (p', ticks_step n p mem read (omega arith) ∙ e, omega (arith, count), fired ∙ ground arith)

-- A request of the host's console, device 1, never has the command 0 or 1: the command is cut from
-- the word with the device's number in it, so that the test for the command that prints fails.
pub host_command_of_console :
    (payload : ℕ) → payload < 2 ^ 64 → host_device payload ≡ 1 → 2 ^ 8 ≤ host_command payload
unfolding host_device host_command
host_command_of_console payload h console =
    omega (arith, bit_and_mask 8 (payload / 2 ^ 56), bit_and_mask 18 (payload / 2 ^ 48))
