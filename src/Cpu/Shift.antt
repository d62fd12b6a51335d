-- ===== src/Cpu/Shift.antt =====
-- The shifts by an immediate, `ImmediateShiftInstruction` of RISCV_cpu.cc.
use native.Mathlib.Nat.{div-le_self}
use m99_riscv_emulator.Prelude.{
  ℕ, ◌+◌, ◌-◌, ◌*◌, ◌/◌, ◌%◌, ◌^◌, ◌<◌, ◌≡◌, refl, ap, arith, Bool, true, false, Option, some, none,
  ◌>>=◌, ◌>>◌, assert, ltb, ◌==◌, ◌||◌, not, if◌then◌else◌, bit_and, u64, ◌<<<◌, ◌>>>◌, complement,
  of_int32,
}
use m99_riscv_emulator.Prelude.Bits.{bit_and_mask}
use m99_riscv_emulator.Isa.{Instruction}
use m99_riscv_emulator.Cpu.{RiscvCpu, set_register, sext32bit, shift_right_int64}
use m99_riscv_emulator.Cpu.Registers.{sign_copy, sext_of, low_mul}

unfoldable pub is_word_shift : Instruction → Bool
is_word_shift Instruction.slliw = true
is_word_shift Instruction.srliw = true
is_word_shift Instruction.sraiw = true
is_word_shift _ = false

-- Whether the shift amount is reported as too large; the instruction has written its result then.
check_shift_sign : ℕ → ℕ → Instruction → Bool
unfolding is_word_shift
check_shift_sign xlen shamt instruction =
    if xlen == 32 || is_word_shift instruction then not (shamt >>> 5 == 0) else false

-- `static_cast<int32_t>(x) >> s`, for `s` below 32.
abbrev shift_right_int32 : ℕ → ℕ → ℕ
shift_right_int32 x s =
    ((x % 2 ^ 32) >>> s) + (if ltb (x % 2 ^ 32) (2 ^ 31) then 0 else 2 ^ 32 - 2 ^ (32 - s))

-- The value for `rd`, from the register. C++ leaves a shift undefined from the width of its operand
-- on, 64 digits or, for SRAIW, 32.
shift_value : ℕ → Instruction → ℕ → ℕ → Option ℕ
shift_value xlen Instruction.slli a shamt = do
  assert (ltb shamt 64)
  let temp64 = u64 (a <<< shamt)
  some (if xlen == 32 then sext32bit temp64 else temp64)
shift_value xlen Instruction.slliw a shamt = do
  assert (ltb shamt 64)
  some (sext32bit (bit_and (u64 (a <<< shamt)) 0xFFFFFFFF))
shift_value xlen Instruction.srli a shamt = do
  assert (ltb shamt 64)
  let temp64 = (if xlen == 32 then bit_and a (complement 64 0xFFFFFFFF00000000) else a) >>> shamt
  some (if xlen == 32 then sext32bit temp64 else temp64)
shift_value xlen Instruction.srliw a shamt = do
  assert (ltb shamt 64)
  some (sext32bit (bit_and a 0xFFFFFFFF >>> shamt))
shift_value xlen Instruction.srai a shamt = do
  assert (ltb shamt 64)
  some (shift_right_int64 a shamt)
shift_value xlen Instruction.sraiw a shamt = do
  assert (ltb shamt 32)
  some (of_int32 (shift_right_int32 a shamt))
shift_value _ _ _ _ = none

is_shift_instruction : Instruction → Bool
is_shift_instruction Instruction.slli = true
is_shift_instruction Instruction.srli = true
is_shift_instruction Instruction.srai = true
is_shift_instruction Instruction.slliw = true
is_shift_instruction Instruction.srliw = true
is_shift_instruction Instruction.sraiw = true
is_shift_instruction _ = false

-- Any other instruction falls through the switch.
pub immediate_shift_instruction : RiscvCpu → Instruction → ℕ → ℕ → ℕ → Option RiscvCpu
unfolding shift_value is_shift_instruction
immediate_shift_instruction cpu instruction rd rs1 shamt =
    if is_shift_instruction instruction
    then (shift_value cpu.xlen instruction (cpu.reg rs1) shamt >>= λ temp64.
        some (set_register cpu rd temp64))
    else some cpu

-- The shift of a word of 32 bits that each W instruction stands for.
word_shift : Instruction → ℕ → ℕ → ℕ
word_shift Instruction.slliw a s = a * 2 ^ s % 2 ^ 32
word_shift Instruction.srliw a s = a / 2 ^ s
word_shift Instruction.sraiw a s = a / 2 ^ s + (if ltb a (2 ^ 31) then 0 else 2 ^ 32 - 2 ^ (32 - s))
word_shift _ a s = 0

-- On a hart whose register is a word of 64 bits, each of SLLIW, SRLIW and SRAIW by fewer than 32
-- places returns: it writes to `rd` the shift of the low half with the sign copied to the upper
-- half, whatever the upper half is and whatever `xlen` is.
immediate_shift_instruction-word_shift :
    (cpu : RiscvCpu) (instruction : Instruction) (rd rs1 shamt : ℕ)
    → cpu.reg rs1 < 2 ^ 64
    → shamt < 32
    → is_word_shift instruction ≡ true
    → immediate_shift_instruction cpu instruction rd rs1 shamt
      ≡ some (set_register cpu rd (sign_copy (word_shift instruction (cpu.reg rs1 % 2 ^ 32) shamt)))
unfolding immediate_shift_instruction shift_value is_shift_instruction is_word_shift word_shift
immediate_shift_instruction-word_shift cpu Instruction.slliw rd rs1 shamt ha hs h =
    let fits : ltb shamt 64 ≡ true = ground arith in
    let a = cpu.reg rs1 in
    rw (fits, bit_and_mask 32 (u64 (a * 2 ^ shamt)))
      (ap (λ (v : ℕ). some (set_register cpu rd v))
        (sext_of (u64 (a * 2 ^ shamt) % 2 ^ 32) (a % 2 ^ 32 * 2 ^ shamt % 2 ^ 32) (omega arith)
          (omega (arith, low_mul a (2 ^ shamt)))))
immediate_shift_instruction-word_shift cpu Instruction.srliw rd rs1 shamt ha hs h =
    let fits : ltb shamt 64 ≡ true = ground arith in
    let a = cpu.reg rs1 in
    let small = div-le_self (a % 2 ^ 32) (2 ^ shamt) in
    rw (fits, bit_and_mask 32 a)
      (ap (λ (v : ℕ). some (set_register cpu rd v))
        (sext_of (a % 2 ^ 32 / 2 ^ shamt) (a % 2 ^ 32 / 2 ^ shamt) (omega arith) (omega arith)))
immediate_shift_instruction-word_shift cpu Instruction.sraiw rd rs1 shamt ha hs h =
    let fits : ltb shamt 32 ≡ true = ground arith in rw fits refl
immediate_shift_instruction-word_shift cpu _ rd rs1 shamt ha hs h = cc
