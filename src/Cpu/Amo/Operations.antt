-- ===== src/Cpu/Amo/Operations.antt =====
-- The operations of the atomics on words of `n` bits, and which instruction is which.
use m99_riscv_emulator.Prelude.{
  ℕ, ◌+◌, ◌-◌, ◌%◌, ◌^◌, ◌<◌, ◌≡◌, arith, Bool, true, false, bit_and, bit_or, bit_xor, ltb, ◌==◌,
  if◌then◌else◌, ltb_int64,
}
use m99_riscv_emulator.Isa.{Instruction}
use m99_riscv_emulator.Cpu.Amo.{maximum, minimum, ltb_int32, sext}

-- The operations of the manual, without their width.
pub data Operation : Type 0 where
  swap : Operation
  add : Operation
  conjoin : Operation
  disjoin : Operation
  exclude : Operation
  greatest : Operation
  least : Operation
  greatest_unsigned : Operation
  least_unsigned : Operation

-- The order of the two's complement of `n` bits: of two words of different signs, the one at or above
-- half of the range is the smaller.
unfoldable pub signed_less : ℕ → ℕ → ℕ → Bool
signed_less n a b =
    if ltb a (2 ^ (n - 1))
    then (if ltb b (2 ^ (n - 1)) then ltb a b else false)
    else if ltb b (2 ^ (n - 1))
    then true
    else ltb a b

-- What an operation makes of the word in memory and the low bits of the register.
unfoldable pub combine : Operation → ℕ → ℕ → ℕ → ℕ
unfolding signed_less
combine Operation.swap n old given = given
combine Operation.add n old given = (old + given) % 2 ^ n
combine Operation.conjoin n old given = bit_and old given
combine Operation.disjoin n old given = bit_or old given
combine Operation.exclude n old given = bit_xor old given
combine Operation.greatest n old given = if signed_less n old given then given else old
combine Operation.least n old given = if signed_less n old given then old else given
combine Operation.greatest_unsigned n old given = if ltb old given then given else old
combine Operation.least_unsigned n old given = if ltb old given then old else given

-- The atomics of the manual: the operation and the number of bytes.
pub data IsAtomic : Instruction → Operation → ℕ → Type 0 where
  swap_w : IsAtomic Instruction.amoswapw Operation.swap 4
  add_w : IsAtomic Instruction.amoaddw Operation.add 4
  and_w : IsAtomic Instruction.amoandw Operation.conjoin 4
  or_w : IsAtomic Instruction.amoorw Operation.disjoin 4
  xor_w : IsAtomic Instruction.amoxorw Operation.exclude 4
  max_w : IsAtomic Instruction.amomaxw Operation.greatest 4
  min_w : IsAtomic Instruction.amominw Operation.least 4
  maxu_w : IsAtomic Instruction.amomaxuw Operation.greatest_unsigned 4
  minu_w : IsAtomic Instruction.amominuw Operation.least_unsigned 4
  swap_d : IsAtomic Instruction.amoswapd Operation.swap 8
  add_d : IsAtomic Instruction.amoaddd Operation.add 8
  and_d : IsAtomic Instruction.amoandd Operation.conjoin 8
  or_d : IsAtomic Instruction.amoord Operation.disjoin 8
  xor_d : IsAtomic Instruction.amoxord Operation.exclude 8
  max_d : IsAtomic Instruction.amomaxd Operation.greatest 8
  min_d : IsAtomic Instruction.amomind Operation.least 8
  maxu_d : IsAtomic Instruction.amomaxud Operation.greatest_unsigned 8
  minu_d : IsAtomic Instruction.amominud Operation.least_unsigned 8

-- What the switch reads: the word with its sign copied.
abbrev pub as_read : ℕ → ℕ → ℕ
as_read width old = if width == 4 then sext old else old

-- A comparison with a bias of half of the range is the signed one.
pub greatest32 :
    (a b : ℕ) → a < 2 ^ 32 → b < 2 ^ 32 → maximum ltb_int32 a b ≡ combine Operation.greatest 32 a b
unfolding signed_less combine
greatest32 a b ha hb = ground arith

pub least32 :
    (a b : ℕ) → a < 2 ^ 32 → b < 2 ^ 32 → minimum ltb_int32 a b ≡ combine Operation.least 32 a b
unfolding signed_less combine
least32 a b ha hb = ground arith

pub greatest64 :
    (a b : ℕ) → a < 2 ^ 64 → b < 2 ^ 64 → maximum ltb_int64 a b ≡ combine Operation.greatest 64 a b
unfolding signed_less combine
greatest64 a b ha hb = ground arith

pub least64 :
    (a b : ℕ) → a < 2 ^ 64 → b < 2 ^ 64 → minimum ltb_int64 a b ≡ combine Operation.least 64 a b
unfolding signed_less combine
least64 a b ha hb = ground arith

pub greatest_plain : (n a b : ℕ) → maximum ltb a b ≡ combine Operation.greatest_unsigned n a b
unfolding combine
greatest_plain n a b = ground arith

pub least_plain : (n a b : ℕ) → minimum ltb a b ≡ combine Operation.least_unsigned n a b
unfolding combine
least_plain n a b = ground arith
