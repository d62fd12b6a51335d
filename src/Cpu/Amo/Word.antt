-- ===== src/Cpu/Amo/Word.antt =====
-- The switch of `AmoInstruction` on words of 32 bits.
use m99_riscv_emulator.Prelude.{
  ℕ, ◌+◌, ◌%◌, ◌^◌, ◌<◌, ◌≡◌, refl, ◌∙◌, ap, arith, Bool, true, false, bit_and, bit_or, bit_xor,
  ltb, if◌then◌else◌, u32, u64, of_int32,
}
use m99_riscv_emulator.Prelude.Bits.{
  bit_and_split, bit_or_split, bit_xor_split, bit_and-lt, bit_or-lt, bit_xor-lt, lower-fields,
}
use m99_riscv_emulator.BitTools.Fields.{sign_extend_lem}
use m99_riscv_emulator.Cpu.Amo.{maximum, minimum, ltb_int32, sext}
use m99_riscv_emulator.Cpu.Amo.Operations.{
  Operation, combine, greatest32, least32, greatest_plain, least_plain,
}

-- The low half of a word stays, and is a word.
sext_low : (x : ℕ) → x < 2 ^ 64 → (sext x % 2 ^ 32 ≡ x % 2 ^ 32) × (sext x < 2 ^ 64)
sext_low x h =
    let form = sign_extend_lem 64 x 32 (omega arith) (omega arith) (omega arith) h in
    (ground (arith, form), ground (arith, form))

and_low : (a b : ℕ) → bit_and a b % 2 ^ 32 ≡ bit_and (a % 2 ^ 32) (b % 2 ^ 32)
and_low a b =
    ap (λ (t : ℕ). t % 2 ^ 32) (bit_and_split 32 a b)
    ∙ lower-fields 32 _ _ (bit_and-lt 32 (a % 2 ^ 32) (b % 2 ^ 32) (omega arith) (omega arith))

or_low : (a b : ℕ) → bit_or a b % 2 ^ 32 ≡ bit_or (a % 2 ^ 32) (b % 2 ^ 32)
or_low a b =
    ap (λ (t : ℕ). t % 2 ^ 32) (bit_or_split 32 a b)
    ∙ lower-fields 32 _ _ (bit_or-lt 32 (a % 2 ^ 32) (b % 2 ^ 32) (omega arith) (omega arith))

xor_low : (a b : ℕ) → bit_xor a b % 2 ^ 32 ≡ bit_xor (a % 2 ^ 32) (b % 2 ^ 32)
xor_low a b =
    ap (λ (t : ℕ). t % 2 ^ 32) (bit_xor_split 32 a b)
    ∙ lower-fields 32 _ _ (bit_xor-lt 32 (a % 2 ^ 32) (b % 2 ^ 32) (omega arith) (omega arith))

-- What a comparison of two words chooses stays what it is when it is made an `int32_t`, then a word of
-- 64 bits by its sign.
chosen32 : (x : ℕ) → x < 2 ^ 32 → sext (of_int32 x) % 2 ^ 32 ≡ x
chosen32 x h = (sext_low (of_int32 x) (ground arith)).0 ∙ ground arith

chosen-lt : (t : Bool) (a b : ℕ) → a < 2 ^ 32 → b < 2 ^ 32 → (if t then a else b) < 2 ^ 32
chosen-lt true a b ha hb = ha
chosen-lt false a b ha hb = hb

-- The words that are compared: those read, and the low half of the register.
module _ (old b : ℕ) (small : old < 2 ^ 32) (fits : b < 2 ^ 64) where
  low_t : u32 (sext old) ≡ old
  low_t = (sext_low old (omega arith)).0 ∙ omega arith

  low_tt : u32 (sext (sext old)) ≡ old
  low_tt = (sext_low (sext old) (sext_low old (omega arith)).1).0 ∙ low_t

  low_b : u32 (sext b) ≡ b % 2 ^ 32
  low_b = (sext_low b fits).0

  -- A result with its sign copied, by its low half.
  stored : (x v : ℕ) → x < 2 ^ 64 → x % 2 ^ 32 ≡ v → sext x % 2 ^ 32 ≡ v
  stored x v h e = (sext_low x h).0 ∙ e

  pub word_add : sext (u64 (sext old + b)) % 2 ^ 32 ≡ combine Operation.add 32 old (b % 2 ^ 32)
  unfolding combine
  word_add = stored (u64 (sext old + b)) _ (omega arith) (omega (arith, low_t))

  pub word_and :
      sext (bit_and (sext old) b) % 2 ^ 32 ≡ combine Operation.conjoin 32 old (b % 2 ^ 32)
  unfolding combine
  word_and =
      stored (bit_and (sext old) b) _
        (bit_and-lt 64 (sext old) b (sext_low old (omega arith)).1 fits)
        (and_low (sext old) b ∙ ap (λ (t : ℕ). bit_and t (b % 2 ^ 32)) low_t)

  pub word_or : sext (bit_or (sext old) b) % 2 ^ 32 ≡ combine Operation.disjoin 32 old (b % 2 ^ 32)
  unfolding combine
  word_or =
      stored (bit_or (sext old) b) _ (bit_or-lt 64 (sext old) b (sext_low old (omega arith)).1 fits)
        (or_low (sext old) b ∙ ap (λ (t : ℕ). bit_or t (b % 2 ^ 32)) low_t)

  pub word_xor :
      sext (bit_xor (sext old) b) % 2 ^ 32 ≡ combine Operation.exclude 32 old (b % 2 ^ 32)
  unfolding combine
  word_xor =
      stored (bit_xor (sext old) b) _
        (bit_xor-lt 64 (sext old) b (sext_low old (omega arith)).1 fits)
        (xor_low (sext old) b ∙ ap (λ (t : ℕ). bit_xor t (b % 2 ^ 32)) low_t)

  -- The larger or the smaller of two words is a word.
  chosen : (t : Bool) → (if t then old else b % 2 ^ 32) < 2 ^ 32
  chosen t = chosen-lt t old (b % 2 ^ 32) small (omega arith)

  pub word_max :
      sext (of_int32 (maximum ltb_int32 (u32 (sext (sext old))) (u32 (sext b)))) % 2 ^ 32
      ≡ combine Operation.greatest 32 old (b % 2 ^ 32)
  word_max =
      rw (low_tt, low_b)
        (chosen32 (maximum ltb_int32 old (b % 2 ^ 32)) (chosen (ltb_int32 (b % 2 ^ 32) old))
          ∙ greatest32 old (b % 2 ^ 32) small (omega arith))

  pub word_min :
      sext (of_int32 (minimum ltb_int32 (u32 (sext (sext old))) (u32 (sext b)))) % 2 ^ 32
      ≡ combine Operation.least 32 old (b % 2 ^ 32)
  word_min =
      rw (low_tt, low_b)
        (chosen32 (minimum ltb_int32 old (b % 2 ^ 32)) (chosen (ltb_int32 old (b % 2 ^ 32)))
          ∙ least32 old (b % 2 ^ 32) small (omega arith))

  -- The same without a sign.
  unsigned : (x v : ℕ) → x < 2 ^ 32 → x ≡ v → sext x % 2 ^ 32 ≡ v
  unsigned x v h e = (sext_low x (omega arith)).0 ∙ omega arith

  pub word_maxu :
      sext (maximum ltb (u32 (sext old)) (u32 b)) % 2 ^ 32
      ≡ combine Operation.greatest_unsigned 32 old (b % 2 ^ 32)
  word_maxu = rw low_t (
      unsigned (maximum ltb old (b % 2 ^ 32))
        (combine Operation.greatest_unsigned 32 old (b % 2 ^ 32)) (chosen (ltb (b % 2 ^ 32) old))
        (greatest_plain 32 old (b % 2 ^ 32)))

  pub word_minu :
      sext (minimum ltb (u32 (sext old)) (u32 b)) % 2 ^ 32
      ≡ combine Operation.least_unsigned 32 old (b % 2 ^ 32)
  word_minu = rw low_t (
      unsigned (minimum ltb old (b % 2 ^ 32)) (combine Operation.least_unsigned 32 old (b % 2 ^ 32))
        (chosen (ltb old (b % 2 ^ 32))) (least_plain 32 old (b % 2 ^ 32)))

  -- The register's low half, stored by a swap.
  pub word_swap : b % 2 ^ 32 ≡ combine Operation.swap 32 old (b % 2 ^ 32)
  unfolding combine
  word_swap = refl
