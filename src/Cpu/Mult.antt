-- ===== src/Cpu/Mult.antt =====
-- Multiplication and division of RISCV_cpu.cc, on bit patterns: an `int64_t` is its pattern of 64
-- bits. `none` is a division that the language leaves undefined, or the failed assertion on another
-- instruction.
pub mod High
pub mod Signed
pub mod Division
use m99_riscv_emulator.Prelude.{
  ℕ, ◌+◌, ◌-◌, ◌*◌, ◌/◌, ◌%◌, ◌^◌, Bool, true, false, not, Option, none, some, ◌>>=◌, ◌||◌, ◌&&◌,
  bit_and, ltb, ◌==◌, if◌then◌else◌, u64, ◌<<<◌, ◌>>>◌,
}
use m99_riscv_emulator.BitTools.{sign_extend}
use m99_riscv_emulator.Isa.{Instruction}
use m99_riscv_emulator.Cpu.{RiscvCpu, set_register, sext32bit, shift_right_int64}

-- The sum that ends the three of them, over the four partial products. The two cross products are
-- shifted as their types say.
unfoldable pub upper_half : (ℕ → ℕ) → (ℕ → ℕ) → ℕ → ℕ → ℕ → ℕ → ℕ
upper_half shift_ad shift_bc ac ad bc bd =
    let d32 = u64 (u64 (bit_and ad 0xFFFFFFFF + bit_and bc 0xFFFFFFFF) + (bd >>> 32)) in
    u64 (u64 (u64 (ac + shift_ad ad) + shift_bc bc) + (d32 >>> 32))

abbrev pub shift_unsigned : ℕ → ℕ
shift_unsigned x = x >>> 32

abbrev pub shift_signed : ℕ → ℕ
shift_signed x = shift_right_int64 x 32

unfoldable pub get_mulh64 : ℕ → ℕ → ℕ
unfolding upper_half
get_mulh64 op1 op2 =
    let a = shift_signed op1 in
    let b = bit_and op1 0xFFFFFFFF in
    let c = shift_signed op2 in
    let d = bit_and op2 0xFFFFFFFF in
    upper_half shift_signed shift_signed (u64 (a * c)) (u64 (a * d)) (u64 (b * c)) (u64 (b * d))

unfoldable pub get_mulhsu64 : ℕ → ℕ → ℕ
unfolding upper_half
get_mulhsu64 op1 op2 =
    let a = shift_signed op1 in
    let b = bit_and op1 0xFFFFFFFF in
    let c = op2 >>> 32 in
    let d = bit_and op2 0xFFFFFFFF in
    upper_half shift_signed shift_unsigned (u64 (a * c)) (u64 (a * d)) (u64 (b * c)) (u64 (b * d))

unfoldable pub get_mulhu64 : ℕ → ℕ → ℕ
unfolding upper_half
get_mulhu64 op1 op2 =
    let a = op1 >>> 32 in
    let b = bit_and op1 0xFFFFFFFF in
    let c = op2 >>> 32 in
    let d = bit_and op2 0xFFFFFFFF in
    upper_half shift_unsigned shift_unsigned (u64 (a * c)) (u64 (a * d)) (u64 (b * c)) (u64 (b * d))

-- `/` and `%` on `int64_t`, which round to zero.
abbrev pub is_negative : ℕ → Bool
is_negative x = not (ltb x (2 ^ 63))

abbrev pub magnitude : ℕ → ℕ
magnitude x = if ltb x (2 ^ 63) then x else 2 ^ 64 - x

abbrev pub negated : ℕ → ℕ
negated x = u64 (2 ^ 64 - x)

-- Division by zero, and a quotient that does not fit.
abbrev pub is_undefined : ℕ → ℕ → Bool
is_undefined a b = b == 0 || (a == 2 ^ 63 && b == 2 ^ 64 - 1)

unfoldable pub quotient_int64 : ℕ → ℕ → ℕ
quotient_int64 a b =
    let q = magnitude a / magnitude b in
    if (if is_negative a then is_negative b else not (is_negative b)) then q else negated q

unfoldable pub remainder_int64 : ℕ → ℕ → ℕ
remainder_int64 a b = let r = magnitude a % magnitude b in if is_negative a then negated r else r

unfoldable pub divide_int64 : ℕ → ℕ → Option ℕ
unfolding quotient_int64
divide_int64 a b = if is_undefined a b then none else some (quotient_int64 a b)

unfoldable pub modulo_int64 : ℕ → ℕ → Option ℕ
unfolding remainder_int64
modulo_int64 a b = if is_undefined a b then none else some (remainder_int64 a b)

unfoldable pub divide_uint64 : ℕ → ℕ → Option ℕ
divide_uint64 a b = if b == 0 then none else some (a / b)

unfoldable pub modulo_uint64 : ℕ → ℕ → Option ℕ
modulo_uint64 a b = if b == 0 then none else some (a % b)

abbrev pub minus_one : ℕ
minus_one = 2 ^ 64 - 1

abbrev pub low_half : ℕ → ℕ
low_half x = bit_and x 0xFFFFFFFF

-- The switch of `MultInstruction`, over the two registers.
unfoldable pub mult_value : ℕ → Instruction → ℕ → ℕ → Option ℕ
unfolding get_mulh64 get_mulhsu64 get_mulhu64 divide_int64 modulo_int64 divide_uint64 modulo_uint64
mult_value xlen Instruction.mul a b = some (u64 (a * b))
mult_value xlen Instruction.mulw a b = some (u64 (a * b))
mult_value xlen Instruction.mulh a b =
    some (if xlen == 32 then shift_signed (u64 (a * b)) else get_mulh64 a b)
mult_value xlen Instruction.mulhsu a b =
    some (if xlen == 32 then u64 (a * low_half b) >>> 32 else get_mulhsu64 a b)
mult_value xlen Instruction.mulhu a b =
    some (if xlen == 32 then u64 (low_half a * low_half b) >>> 32 else get_mulhu64 a b)
mult_value xlen Instruction.div a b =
    let largest_negative = 1 <<< (xlen - 1) in
    if b == 0
    then some minus_one
    else if b == minus_one && a == largest_negative
    then some largest_negative
    else divide_int64 a b
mult_value xlen Instruction.divu a b =
    if b == 0
    then some minus_one
    else if xlen == 32
    then divide_uint64 (low_half a) (low_half b)
    else divide_uint64 a b
mult_value xlen Instruction.divuw a b =
    if b == 0 then some minus_one else divide_uint64 (low_half a) (low_half b)
mult_value xlen Instruction.divw a b =
    if b == 0
    then some minus_one
    else if b == minus_one && a == 1 <<< 31
    then some (1 <<< 31)
    else divide_int64 (sign_extend 64 a 32) (sign_extend 64 b 32)
mult_value xlen Instruction.rem a b =
    if b == 0
    then some a
    else if b == minus_one && a == 1 <<< (xlen - 1)
    then some 0
    else modulo_int64 a b
mult_value xlen Instruction.remu a b =
    if b == 0
    then some a
    else if xlen == 32
    then modulo_uint64 (low_half a) (low_half b)
    else modulo_uint64 a b
mult_value xlen Instruction.remuw a b =
    if b == 0 then some a else modulo_uint64 (low_half a) (low_half b)
mult_value xlen Instruction.remw a b =
    if b == 0
    then some a
    else if b == minus_one && a == 1 <<< 31
    then some 0
    else modulo_int64 (sign_extend 64 a 32) (sign_extend 64 b 32)
mult_value _ _ _ _ = none

unfoldable pub is_word_mult : Instruction → Bool
is_word_mult Instruction.mulw = true
is_word_mult Instruction.divuw = true
is_word_mult Instruction.divw = true
is_word_mult Instruction.remuw = true
is_word_mult Instruction.remw = true
is_word_mult _ = false

unfoldable pub mult_instruction : RiscvCpu → Instruction → ℕ → ℕ → ℕ → Option RiscvCpu
unfolding mult_value is_word_mult
mult_instruction cpu instruction rd rs1 rs2 = do
  temp64 ← mult_value cpu.xlen instruction (cpu.reg rs1) (cpu.reg rs2)
  some (
      set_register cpu rd
        (if cpu.xlen == 32 || is_word_mult instruction then sext32bit temp64 else temp64))
