-- ===== src/Cpu/Amo/Machine.antt =====
-- `AmoInstruction` in machine mode, against the bytes of the memory.
use m99_riscv_emulator.Prelude.{
  ℕ, zero, suc, ◌*◌, ◌%◌, ◌^◌, ◌<◌, ◌≤◌, ◌≡◌, ◌⊎◌, inl, inr, refl, sym, ◌∙◌, ap, arith, some, false,
  true,
}
use m99_riscv_emulator.Prelude.Options.{bind_to}
use m99_riscv_emulator.Memory.{MemoryWrapper, update}
use m99_riscv_emulator.Memory.Bytes.{byte}
use m99_riscv_emulator.Isa.{Instruction}
use m99_riscv_emulator.Cpu.{RiscvCpu, set_register}
use m99_riscv_emulator.Cpu.Access.Load.{little_endian, little_endian-lt, load_wd_lem}
use m99_riscv_emulator.Cpu.Access.Store.{digit, Wrote, store_wd_lem}
use m99_riscv_emulator.Cpu.Transfer.Machine.{
  IsPlain, asked, asked-IsPlain, virtual_to_physical_machine,
}
use m99_riscv_emulator.Cpu.Amo.{amo_instruction}
use m99_riscv_emulator.Cpu.Amo.Operations.{Operation, combine, IsAtomic, as_read}
use m99_riscv_emulator.Cpu.Amo.Value.{width_lem, amo_value_lem}

-- What an atomic leaves, where `old` is the word that it read.
pub record Swapped (cpu : RiscvCpu) (op : Operation) (rd rs1 rs2 width old : ℕ) (d : RiscvCpu)
    : Type 0 where
  pub memory :
      Wrote cpu.memory
        (cpu.reg rs1)
        (combine op (width * 8) old (cpu.reg rs2 % 2 ^ (width * 8)))
        0
        width
        d.memory
  pub registers : d.reg ≡ update cpu.reg rd (as_read width old)
  pub place : (d.pc ≡ cpu.pc) × (d.next_pc ≡ cpu.next_pc)
  pub calm : d.page_fault ≡ false

-- The low digits of a number are those of the number cut to them.
cut4 : (v k : ℕ) → k < 4 → digit (v % 2 ^ 32) k ≡ digit v k
cut4 v zero below = omega arith
cut4 v (suc zero) below = omega arith
cut4 v (suc (suc zero)) below = omega arith
cut4 v (suc (suc (suc zero))) below = omega arith
cut4 v (suc (suc (suc (suc k)))) below = absurd (omega arith)

cut8 : (v k : ℕ) → k < 8 → digit (v % 2 ^ 64) k ≡ digit v k
cut8 v zero below = omega arith
cut8 v (suc zero) below = omega arith
cut8 v (suc (suc zero)) below = omega arith
cut8 v (suc (suc (suc zero))) below = omega arith
cut8 v (suc (suc (suc (suc zero)))) below = omega arith
cut8 v (suc (suc (suc (suc (suc zero))))) below = omega arith
cut8 v (suc (suc (suc (suc (suc (suc zero)))))) below = omega arith
cut8 v (suc (suc (suc (suc (suc (suc (suc zero))))))) below = omega arith
cut8 v (suc (suc (suc (suc (suc (suc (suc (suc k)))))))) below = absurd (omega arith)

cut_digit :
    (v width k : ℕ)
    → (width ≡ 4) ⊎ (width ≡ 8)
    → k < width
    → digit (v % 2 ^ (width * 8)) k ≡ digit v k
cut_digit v width k (inl e) below = rw e (cut4 v k (omega arith))
cut_digit v width k (inr e) below = rw e (cut8 v k (omega arith))

-- A memory with the low bytes of a number written is one with those of what it is cut to.
cut-Wrote :
    (m m' : MemoryWrapper) (a v x width : ℕ)
    → (width ≡ 4) ⊎ (width ≡ 8)
    → v % 2 ^ (width * 8) ≡ x
    → Wrote m a v 0 width m'
    → Wrote m a x 0 width m'
cut-Wrote m m' a v x width wide e wrote = record {
  words = wrote.words;
  inside = λ k low below.
      wrote.inside k low below ∙ sym (cut_digit v width k wide below) ∙ ap (λ (t : ℕ). digit t k) e;
  outside = wrote.outside;
}

-- In machine mode with MPRV clear, no fault noted, a memory of words and a register rs2 of 64 bits,
-- each of the 18 atomics succeeds. The bytes from the address in rs1 on become the result of the
-- operation on the word they made before and the low half, or the whole, of rs2; every byte at
-- another address modulo 2 ^ 32 stays; rd gets the word from before, with its sign copied where it has
-- 32 bits; the other registers and the program counters stay, and no fault is noted.
pub amo_instruction_machine :
    (cpu : RiscvCpu) (instruction : Instruction) (op : Operation) (rd rs1 rs2 width : ℕ)
    → IsPlain cpu
    → IsAtomic instruction op width
    → cpu.reg rs2 < 2 ^ 64
    → (d : RiscvCpu) × (amo_instruction cpu instruction rd rs1 rs2 ≡ some d)
      × Swapped cpu op rd rs1 rs2 width (little_endian (byte cpu.memory) (cpu.reg rs1) width) d
unfolding amo_instruction asked set_register
amo_instruction_machine cpu instruction op rd rs1 rs2 width plain atomic fits =
    let a = cpu.reg rs1 in
    let old = little_endian (byte cpu.memory) a width in
    let (sized, wide) = width_lem instruction op width atomic in
    let few : width ≤ 8 = ground arith in
    let one : 1 ≤ width = ground arith in
    let (v, made, value) =
      amo_value_lem instruction op width old (cpu.reg rs2) atomic
        (little_endian-lt cpu.memory a width) fits in
    let (m, stored, wrote) = store_wd_lem cpu.memory a v width plain.words one few in
    (
      set_register (record (asked (asked cpu)) { memory = m }) rd (as_read width old),
      rw sized (
          bind_to _ (virtual_to_physical_machine cpu a false plain) (
            bind_to _ (load_wd_lem cpu.memory a width plain.words one few) (
              bind_to _ made (
                bind_to _ (virtual_to_physical_machine (asked cpu) a true (asked-IsPlain cpu plain))
                  (bind_to _ stored refl))))),
      record {
        memory = cut-Wrote cpu.memory m a v _ width wide value wrote;
        registers = refl;
        place = (refl, refl);
        calm = plain.calm;
      },
    )
