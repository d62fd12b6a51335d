-- ===== src/Cpu/Transfer/Store.antt =====
-- `StoreInstruction` in machine mode, against the bytes of the memory.
use mathlib.Core.Path.{subst}
use native.Mathlib.Nat.{div-div-eq-div-mul}
use m99_riscv_emulator.Prelude.{
  ℕ, zero, suc, ◌+◌, ◌-◌, ◌*◌, ◌/◌, ◌%◌, ◌^◌, ◌<◌, ◌≤◌, ◌≡◌, refl, ◌∙◌, ap, arith, Bool, true,
  false, some, if◌then◌else◌, bit_and, ltb, u64, of_int32, ◌>>>◌,
}
use m99_riscv_emulator.Prelude.Options.{bind_to}
use m99_riscv_emulator.Prelude.Bits.{bit_and_mask, pow_add}
use m99_riscv_emulator.Memory.{MemoryWrapper, generate_bit_mask}
use m99_riscv_emulator.Memory.Bytes.{byte}
use m99_riscv_emulator.Isa.{Instruction}
use m99_riscv_emulator.Peripheral.{check_device_write}
use m99_riscv_emulator.Cpu.{RiscvCpu, get_store_width, get_access_width}
use m99_riscv_emulator.Cpu.Width.{get_access_width_lem}
use m99_riscv_emulator.Cpu.Access.Load.{byte_same}
use m99_riscv_emulator.Cpu.Access.Store.{digit, Wrote, store_wd_lem}
use m99_riscv_emulator.Cpu.Transfer.{store_instruction, store_at, store_parts, store_upper}
use m99_riscv_emulator.Cpu.Transfer.Machine.{
  IsPlain, IsWidth, asked, asked-IsPlain, virtual_to_physical_machine,
}

-- The bytes that the mask of a part keeps.
abbrev masked : ℕ → ℕ → ℕ
masked v i = bit_and v (of_int32 (generate_bit_mask (i * 8)))

low_digits : (v k : ℕ) (n : ℕ) → n ≤ 3 → k < n → digit (v % 2 ^ (n * 8)) k ≡ digit v k
low_digits v k zero few below = absurd (omega arith)
low_digits v zero (suc zero) few below = omega arith
low_digits v (suc k) (suc zero) few below = absurd (omega arith)
low_digits v zero (suc (suc zero)) few below = omega arith
low_digits v (suc zero) (suc (suc zero)) few below = omega arith
low_digits v (suc (suc k)) (suc (suc zero)) few below = absurd (omega arith)
low_digits v zero (suc (suc (suc zero))) few below = omega arith
low_digits v (suc zero) (suc (suc (suc zero))) few below = omega arith
low_digits v (suc (suc zero)) (suc (suc (suc zero))) few below = omega arith
low_digits v (suc (suc (suc k))) (suc (suc (suc zero))) few below = absurd (omega arith)
low_digits v k (suc (suc (suc (suc n)))) few below = absurd (omega arith)

-- From four bytes on the mask, an `int`, is -1.
full : (v : ℕ) → v < 2 ^ 64 → bit_and v (2 ^ 64 - 1) ≡ v
full v h = bit_and_mask 64 v ∙ omega arith

digit-masked : (v i k : ℕ) → v < 2 ^ 64 → i ≤ 8 → k < i → digit (masked v i) k ≡ digit v k
unfolding generate_bit_mask
digit-masked v zero k h few below = absurd (omega arith)
digit-masked v (suc zero) k h few below =
    ap (λ (t : ℕ). digit t k) (bit_and_mask 8 v) ∙ low_digits v k 1 (omega arith) below
digit-masked v (suc (suc zero)) k h few below =
    ap (λ (t : ℕ). digit t k) (bit_and_mask 16 v) ∙ low_digits v k 2 (omega arith) below
digit-masked v (suc (suc (suc zero))) k h few below =
    ap (λ (t : ℕ). digit t k) (bit_and_mask 24 v) ∙ low_digits v k 3 (omega arith) below
digit-masked v (suc (suc (suc (suc i)))) k h few below =
    ap (λ (t : ℕ). digit t k) (wide i (omega arith) ∙ full v h)
  where
    wide : (i : ℕ) → i ≤ 4 → masked v (suc (suc (suc (suc i)))) ≡ bit_and v (2 ^ 64 - 1)
    wide zero few = unfold generate_bit_mask in refl
    wide (suc zero) few = unfold generate_bit_mask in refl
    wide (suc (suc zero)) few = unfold generate_bit_mask in refl
    wide (suc (suc (suc zero))) few = unfold generate_bit_mask in refl
    wide (suc (suc (suc (suc zero)))) few = unfold generate_bit_mask in refl
    wide (suc (suc (suc (suc (suc i))))) few = absurd (omega arith)

later_digit : (v i k : ℕ) → digit (v / 2 ^ (i * 8)) k ≡ digit v (i + k)
later_digit v i k =
    let e : (i + k) * 8 ≡ i * 8 + k * 8 = omega arith in
    rw (e, pow_add (i * 8) (k * 8), div-div-eq-div-mul v (2 ^ (i * 8)) (2 ^ (k * 8))) refl

-- Two parts of a store, one after the other.
module _ (m m1 m2 : MemoryWrapper) (a v i j : ℕ) (fits : v < 2 ^ 64) (few : i + j ≤ 8) where
  join_parts :
      Wrote m a (masked v i) 0 i m1
      → Wrote m1 (u64 (a + i)) (v >>> (i * 8)) 0 j m2
      → Wrote m a v 0 (i + j) m2
  join_parts low high = record {
    words = high.words;
    inside = λ k _ below. by_part k below (ltb k i) refl;
    outside = λ n apart.
        high.outside n (λ k _ below e. apart (i + k) (omega arith) (omega arith) (omega arith))
        ∙ low.outside n (λ k _ below. apart k (omega arith) (omega arith));
  }
    where
      by_part : (k : ℕ) → k < i + j → (t : Bool) → ltb k i ≡ t → byte m2 (a + k) ≡ digit v k
      by_part k below true e =
          let first : k < i = ground arith in
          high.outside (a + k) (λ n _ less f. omega arith)
          ∙ low.inside k (omega arith) first
          ∙ digit-masked v i k fits (omega arith) first
      by_part k below false e =
          let past : i ≤ k = ground arith in
          let sum : i + (k - i) ≡ k = omega arith in
          byte_same m2 (a + k) (u64 (a + i) + (k - i)) (omega arith)
          ∙ high.inside (k - i) (omega arith) (omega arith)
          ∙ later_digit v i (k - i)
          ∙ ap (digit v) sum

-- What a store leaves besides the memory.
pub record Kept (cpu d : RiscvCpu) : Type 0 where
  pub registers : d.reg ≡ cpu.reg
  pub place : (d.pc ≡ cpu.pc) × (d.next_pc ≡ cpu.next_pc)
  pub calm : d.page_fault ≡ false

-- A test for a fault that was not noted.
no_fault {ℓ} : {A : Type ℓ} (t : Bool) (x y : A) → t ≡ false → (if t then x else y) ≡ y
no_fault true x y e = absurd cc
no_fault false x y e = refl

store_upper_machine :
    (cpu : RiscvCpu) (m : MemoryWrapper) (a v i j : ℕ)
    → IsPlain cpu
    → v < 2 ^ 64
    → i + j ≤ 8
    → 1 ≤ j
    → Wrote m a (masked v i) 0 i cpu.memory
    → (d : RiscvCpu) × (store_upper cpu a i j v ≡ some d)
      × Wrote m a v 0 (i + j) d.memory
      × Kept cpu d
unfolding store_upper asked
store_upper_machine cpu m a v i j plain fits few one low =
    let (m2, made, high) =
      store_wd_lem cpu.memory (u64 (a + i)) (v >>> (i * 8)) j plain.words one (omega arith) in
    (
      record (asked cpu) { memory = m2 },
      bind_to _ (virtual_to_physical_machine cpu (u64 (a + i)) true plain)
          (no_fault cpu.page_fault _ _ plain.calm ∙ bind_to _ made refl),
      join_parts m cpu.memory m2 a v i j fits few low high,
      record { registers = refl; place = (refl, refl); calm = plain.calm },
    )

store_parts_machine :
    (cpu : RiscvCpu) (a width v : ℕ)
    → IsPlain cpu
    → IsWidth width
    → v < 2 ^ 64
    → (d : RiscvCpu) × (store_parts cpu a a width v ≡ some d)
      × Wrote cpu.memory a v 0 width d.memory
      × Kept cpu d
unfolding store_parts
store_parts_machine cpu a width v plain wide fits =
    let i = get_access_width width a in
    let (one, less, _, _) = get_access_width_lem width a wide in
    let few : width ≤ 8 = ground arith in
    let (m1, made, low) = store_wd_lem cpu.memory a (masked v i) i plain.words one (omega arith) in
    let (d, rest, wrote, kept) = by_split i one less few m1 low (ltb 0 (width - i)) refl in
    (d, bind_to _ made rest, wrote, kept)
  where
    by_split :
        (i : ℕ)
        → 0 < i
        → i ≤ width
        → width ≤ 8
        → (m1 : MemoryWrapper) → Wrote cpu.memory a (masked v i) 0 i m1
        → (t : Bool) → ltb 0 (width - i) ≡ t
        → (d : RiscvCpu) × ((if t
              then store_upper (record cpu { memory = m1 }) a i (width - i) v
              else some (record cpu { memory = m1 }))
            ≡ some d)
          × Wrote cpu.memory a v 0 width d.memory
          × Kept cpu d
    by_split i one less few m1 low true e =
        let c = record cpu { memory = m1 } in
        let plain' : IsPlain c = record {
          mode = plain.mode;
          mprv = plain.mprv;
          calm = plain.calm;
          words = low.words;
        } in
        let (d, made, wrote, kept) =
          store_upper_machine c cpu.memory a v i (width - i) plain' fits (omega arith)
            (ground (arith, e)) low in
        let sum : i + (width - i) ≡ width = omega arith in
        (
          d,
          made,
          subst (λ (n : ℕ). Wrote cpu.memory a v 0 n d.memory) sum wrote,
          record { registers = kept.registers; place = kept.place; calm = kept.calm },
        )
    by_split i one less few m1 low false e =
        let same : i ≡ width = ground (arith, e, less) in
        let wrote : Wrote cpu.memory a v 0 i m1 = record {
          words = low.words;
          inside =
              λ k low' below. low.inside k low' below ∙ digit-masked v i k fits (omega arith) below;
          outside = low.outside;
        } in
        (
          record cpu { memory = m1 },
          refl,
          subst (λ (n : ℕ). Wrote cpu.memory a v 0 n m1) same wrote,
          record { registers = refl; place = (refl, refl); calm = plain.calm },
        )

-- In machine mode with MPRV clear, no fault noted, a memory of words and a register of 64 bits, a
-- store succeeds. The bytes from the address on become the low bytes of the register, the lowest
-- first, also where the access crosses a doubleword; every byte at another address modulo 2 ^ 32, the
-- registers and the program counters stay, and no fault is noted.
pub store_instruction_machine :
    (cpu : RiscvCpu) (instruction : Instruction) (rs1 rs2 imm12 width : ℕ)
    → IsPlain cpu
    → get_store_width instruction ≡ some width
    → IsWidth width
    → cpu.reg rs2 < 2 ^ 64
    → (d : RiscvCpu) × (store_instruction cpu instruction rs1 rs2 imm12 ≡ some d)
      × Wrote cpu.memory (u64 (cpu.reg rs1 + of_int32 imm12)) (cpu.reg rs2) 0 width d.memory
      × Kept cpu d
unfolding store_instruction store_at asked
store_instruction_machine cpu instruction rs1 rs2 imm12 width plain sized wide fits =
    let a = u64 (cpu.reg rs1 + of_int32 imm12) in
    let v = cpu.reg rs2 in
    let (d, made, wrote, kept) =
      store_parts_machine (asked cpu) a width v (asked-IsPlain cpu plain) wide fits in
    (
      record d { peripheral = check_device_write d.peripheral a width v },
      bind_to _ (virtual_to_physical_machine cpu a true plain) (
          no_fault cpu.page_fault _ _ plain.calm
          ∙ bind_to _ sized (bind_to _ made (no_fault d.page_fault _ _ kept.calm))),
      wrote,
      record { registers = kept.registers; place = kept.place; calm = kept.calm },
    )
