-- ===== src/Cpu/Amo/Value.antt =====
-- The switch of `AmoInstruction` against the operations of the atomics.
use m99_riscv_emulator.Prelude.{
  ℕ, ◌+◌, ◌*◌, ◌%◌, ◌^◌, ◌<◌, ◌≡◌, ◌⊎◌, inl, inr, refl, arith, Bool, true, false, some, bit_and,
  bit_or, bit_xor, ltb, if◌then◌else◌, u64, ltb_int64,
}
use m99_riscv_emulator.Prelude.Bits.{bit_and-lt, bit_or-lt, bit_xor-lt}
use m99_riscv_emulator.Isa.{Instruction}
use m99_riscv_emulator.Cpu.Amo.{amo_width, amo_value, maximum, minimum}
use m99_riscv_emulator.Cpu.Amo.Operations.{
  Operation, combine, IsAtomic, as_read, greatest64, least64, greatest_plain, least_plain,
}
use m99_riscv_emulator.Cpu.Amo.Word.{
  word_swap, word_add, word_and, word_or, word_xor, word_max, word_min, word_maxu, word_minu,
}

-- The same on words of 64 bits.
module _ (old b : ℕ) (small : old < 2 ^ 64) (fits : b < 2 ^ 64) where
  -- A result that is a word, of an operation on the register itself.
  whole :
      (op : Operation) (x : ℕ)
      → x ≡ combine op 64 old b
      → x < 2 ^ 64
      → x % 2 ^ 64 ≡ combine op 64 old (b % 2 ^ 64)
  whole op x e h = let same : b % 2 ^ 64 ≡ b = omega arith in rw same (omega (arith, e))

  chosen64 : (t : Bool) → (if t then old else b) < 2 ^ 64
  chosen64 true = small
  chosen64 false = fits

  wide_swap : b % 2 ^ 64 ≡ combine Operation.swap 64 old (b % 2 ^ 64)
  unfolding combine
  wide_swap = refl

  wide_add : u64 (old + b) % 2 ^ 64 ≡ combine Operation.add 64 old (b % 2 ^ 64)
  unfolding combine
  wide_add = omega arith

  wide_and : bit_and old b % 2 ^ 64 ≡ combine Operation.conjoin 64 old (b % 2 ^ 64)
  wide_and = whole Operation.conjoin _ (unfold combine in refl) (bit_and-lt 64 old b small fits)

  wide_or : bit_or old b % 2 ^ 64 ≡ combine Operation.disjoin 64 old (b % 2 ^ 64)
  wide_or = whole Operation.disjoin _ (unfold combine in refl) (bit_or-lt 64 old b small fits)

  wide_xor : bit_xor old b % 2 ^ 64 ≡ combine Operation.exclude 64 old (b % 2 ^ 64)
  wide_xor = whole Operation.exclude _ (unfold combine in refl) (bit_xor-lt 64 old b small fits)

  wide_max : maximum ltb_int64 old b % 2 ^ 64 ≡ combine Operation.greatest 64 old (b % 2 ^ 64)
  wide_max =
      whole Operation.greatest (maximum ltb_int64 old b) (greatest64 old b small fits)
        (chosen64 (ltb_int64 b old))

  wide_min : minimum ltb_int64 old b % 2 ^ 64 ≡ combine Operation.least 64 old (b % 2 ^ 64)
  wide_min =
      whole Operation.least (minimum ltb_int64 old b) (least64 old b small fits)
        (chosen64 (ltb_int64 old b))

  wide_maxu : maximum ltb old b % 2 ^ 64 ≡ combine Operation.greatest_unsigned 64 old (b % 2 ^ 64)
  wide_maxu =
      whole Operation.greatest_unsigned (maximum ltb old b) (greatest_plain 64 old b)
        (chosen64 (ltb b old))

  wide_minu : minimum ltb old b % 2 ^ 64 ≡ combine Operation.least_unsigned 64 old (b % 2 ^ 64)
  wide_minu =
      whole Operation.least_unsigned (minimum ltb old b) (least_plain 64 old b)
        (chosen64 (ltb old b))

-- The widths of the atomics.
pub width_lem :
    (instruction : Instruction) (op : Operation) (width : ℕ)
    → IsAtomic instruction op width
    → (amo_width instruction ≡ width) × ((width ≡ 4) ⊎ (width ≡ 8))
unfolding amo_width
width_lem _ _ _ IsAtomic.swap_w = (refl, inl refl)
width_lem _ _ _ IsAtomic.add_w = (refl, inl refl)
width_lem _ _ _ IsAtomic.and_w = (refl, inl refl)
width_lem _ _ _ IsAtomic.or_w = (refl, inl refl)
width_lem _ _ _ IsAtomic.xor_w = (refl, inl refl)
width_lem _ _ _ IsAtomic.max_w = (refl, inl refl)
width_lem _ _ _ IsAtomic.min_w = (refl, inl refl)
width_lem _ _ _ IsAtomic.maxu_w = (refl, inl refl)
width_lem _ _ _ IsAtomic.minu_w = (refl, inl refl)
width_lem _ _ _ IsAtomic.swap_d = (refl, inr refl)
width_lem _ _ _ IsAtomic.add_d = (refl, inr refl)
width_lem _ _ _ IsAtomic.and_d = (refl, inr refl)
width_lem _ _ _ IsAtomic.or_d = (refl, inr refl)
width_lem _ _ _ IsAtomic.xor_d = (refl, inr refl)
width_lem _ _ _ IsAtomic.max_d = (refl, inr refl)
width_lem _ _ _ IsAtomic.min_d = (refl, inr refl)
width_lem _ _ _ IsAtomic.maxu_d = (refl, inr refl)
width_lem _ _ _ IsAtomic.minu_d = (refl, inr refl)

-- The switch stores the result of the operation, by its low bytes.
pub amo_value_lem :
    (instruction : Instruction) (op : Operation) (width old b : ℕ)
    → IsAtomic instruction op width
    → old < 2 ^ (width * 8)
    → b < 2 ^ 64
    → (v : ℕ) × (amo_value instruction (as_read width old) b ≡ some v)
      × (v % 2 ^ (width * 8) ≡ combine op (width * 8) old (b % 2 ^ (width * 8)))
unfolding amo_value
amo_value_lem _ _ _ old b IsAtomic.swap_w small fits = (_, refl, word_swap old b small fits)
amo_value_lem _ _ _ old b IsAtomic.add_w small fits = (_, refl, word_add old b small fits)
amo_value_lem _ _ _ old b IsAtomic.and_w small fits = (_, refl, word_and old b small fits)
amo_value_lem _ _ _ old b IsAtomic.or_w small fits = (_, refl, word_or old b small fits)
amo_value_lem _ _ _ old b IsAtomic.xor_w small fits = (_, refl, word_xor old b small fits)
amo_value_lem _ _ _ old b IsAtomic.max_w small fits = (_, refl, word_max old b small fits)
amo_value_lem _ _ _ old b IsAtomic.min_w small fits = (_, refl, word_min old b small fits)
amo_value_lem _ _ _ old b IsAtomic.maxu_w small fits = (_, refl, word_maxu old b small fits)
amo_value_lem _ _ _ old b IsAtomic.minu_w small fits = (_, refl, word_minu old b small fits)
amo_value_lem _ _ _ old b IsAtomic.swap_d small fits = (_, refl, wide_swap old b small fits)
amo_value_lem _ _ _ old b IsAtomic.add_d small fits = (_, refl, wide_add old b small fits)
amo_value_lem _ _ _ old b IsAtomic.and_d small fits = (_, refl, wide_and old b small fits)
amo_value_lem _ _ _ old b IsAtomic.or_d small fits = (_, refl, wide_or old b small fits)
amo_value_lem _ _ _ old b IsAtomic.xor_d small fits = (_, refl, wide_xor old b small fits)
amo_value_lem _ _ _ old b IsAtomic.max_d small fits = (_, refl, wide_max old b small fits)
amo_value_lem _ _ _ old b IsAtomic.min_d small fits = (_, refl, wide_min old b small fits)
amo_value_lem _ _ _ old b IsAtomic.maxu_d small fits = (_, refl, wide_maxu old b small fits)
amo_value_lem _ _ _ old b IsAtomic.minu_d small fits = (_, refl, wide_minu old b small fits)
