-- ===== src/Cpu/Mult/Division.antt =====
-- Division and remainder belong together: the quotient times the divisor, and the remainder.
use native.Mathlib.Nat.{add-mul, div-add-mod', mod-lt, div-le_self}
use m99_riscv_emulator.Prelude.{
  ℕ, ◌+◌, ◌-◌, ◌*◌, ◌/◌, ◌%◌, ◌^◌, ◌<◌, ◌≤◌, ◌≡◌, ◌≢◌, ◌↔◌, refl, sym, ◌∙◌, ap, arith, Bool, true,
  false, not, ◌||◌, ◌&&◌, ◌⊎◌, some, none, Bool-cases, inl, inr, ◌==◌, ==_iff, ltb, if◌then◌else◌,
  u64,
}
use m99_riscv_emulator.Prelude.Bits.{bit_and_mask}
use m99_riscv_emulator.Isa.{Instruction}
use m99_riscv_emulator.Cpu.Mult.{
  mult_value, divide_int64, modulo_int64, quotient_int64, remainder_int64, is_negative, magnitude,
  negated, is_undefined, minus_one, divide_uint64, modulo_uint64, low_half,
}
use m99_riscv_emulator.BitTools.{sign_extend}
use m99_riscv_emulator.BitTools.Fields.{sign_extend_lem}

-- A number and its negation, as words: both zero, or together a whole turn.
Opposite : ℕ → ℕ → Type 0
Opposite x y = ((x ≡ 0) × (y ≡ 0)) ⊎ (x + y ≡ 2 ^ 64)

negated-Opposite : (n : ℕ) → n < 2 ^ 64 → Opposite (negated n) n
unfolding Opposite
negated-Opposite n h = elim (Bool-cases (n == 0)) [
  | inl e ↦ inl (ground (arith, e))
  | inr e ↦ inr (ground (arith, e))
]

-- Products of opposite numbers cancel.
Opposite-times : (x y z : ℕ) → Opposite x y → (x * z + y * z) % 2 ^ 64 ≡ 0
unfolding Opposite
Opposite-times x y z (inl (e, f)) = rw (e, f) (omega arith)
Opposite-times x y z (inr e) =
    let whole : x * z + y * z ≡ 2 ^ 64 * z = sym (add-mul x y z) ∙ ap (λ (t : ℕ). t * z) e in
    omega (arith, whole)

-- The four signs, over the magnitudes `m` and `d`, their quotient `n` and remainder `r`.
signs :
    (s t : Bool) (m d n r a b c e : ℕ)
    → n * d + r ≡ m
    → Opposite c n
    → Opposite e r
    → (if s then Opposite a m else (a ≡ m))
    → (if t then Opposite b d else (b ≡ d))
    → a < 2 ^ 64
    → ((if (if s then t else not t) then n else c) * b + (if s then e else r)) % 2 ^ 64 ≡ a
unfolding Opposite
signs true true m d n r a b c e sum cn er am bd ha = ground (arith, Opposite-times b d n bd)
signs true false m d n r a b c e sum cn er am bd ha =
    rw bd (ground (arith, Opposite-times c n d cn))
signs false true m d n r a b c e sum cn er am bd ha =
    ground (arith, Opposite-times c n b cn, Opposite-times b d n bd)
signs false false m d n r a b c e sum cn er am bd ha = rw bd (omega arith)

Signed : ℕ → Type 0
Signed x = if is_negative x then Opposite x (magnitude x) else (x ≡ magnitude x)

magnitude_lem : (x : ℕ) → x < 2 ^ 64 → Signed x
unfolding Signed Opposite
magnitude_lem x h = by_sign (ltb x (2 ^ 63)) refl
  where
    by_sign :
        (t : Bool)
        → ltb x (2 ^ 63) ≡ t
        → if not t
          then Opposite x (if t then x else 2 ^ 64 - x)
          else (x ≡ (if t then x else 2 ^ 64 - x))
    by_sign true e = refl
    by_sign false e = unfold Opposite in inr (ground (arith, e))

-- Whatever the signs are, the quotient and the remainder make the dividend.
quotient_remainder :
    (a b : ℕ)
    → a < 2 ^ 64
    → b < 2 ^ 64
    → b ≢ 0
    → u64 (quotient_int64 a b * b + remainder_int64 a b) ≡ a
unfolding quotient_int64 remainder_int64 Signed
quotient_remainder a b ha hb nonzero =
    let m = magnitude a in
    let d = magnitude b in
    let positive : 0 < d = ground arith in
    let small : m < 2 ^ 64 = ground arith in
    let less : m / d ≤ m = div-le_self m d in
    let below : m % d < d = mod-lt m positive in
    let short : d < 2 ^ 64 = ground arith in
    signs (is_negative a) (is_negative b) m d (m / d) (m % d) a b (negated (m / d))
      (negated (m % d)) (div-add-mod' m d) (negated-Opposite (m / d) (omega arith))
      (negated-Opposite (m % d) (omega arith)) (magnitude_lem a ha) (magnitude_lem b hb) ha

magnitude_signed :
    (s : Bool) (r d : ℕ) → r < d → d ≤ 2 ^ 63 → magnitude (if s then negated r else r) < d
magnitude_signed true r d below fits = ground (arith, below, fits)
magnitude_signed false r d below fits = ground (arith, below, fits)

remainder-lt : (a b : ℕ) → b < 2 ^ 64 → b ≢ 0 → magnitude (remainder_int64 a b) < magnitude b
unfolding remainder_int64
remainder-lt a b hb nonzero =
    let d = magnitude b in
    let positive : 0 < d = ground arith in
    let fits : d ≤ 2 ^ 63 = ground arith in
    magnitude_signed (is_negative a) (magnitude a % d) d (mod-lt (magnitude a) positive) fits

-- On a 64-bit processor DIV and REM always give a result, also on division by zero and on the one
-- quotient that does not fit, and the quotient times the divisor and the remainder make up the
-- dividend as words of 64 bits. Unless the divisor is
-- zero, REM's result is below it in magnitude.
pub div_rem :
    (a b : ℕ)
    → a < 2 ^ 64
    → b < 2 ^ 64
    → (q : ℕ) × (r : ℕ) × (mult_value 64 Instruction.div a b ≡ some q)
      × (mult_value 64 Instruction.rem a b ≡ some r)
      × (u64 (q * b + r) ≡ a)
      × ((b ≡ 0) ⊎ (magnitude r < magnitude b))
unfolding mult_value divide_int64 modulo_int64
div_rem a b ha hb = by_zero (b == 0) refl (b == minus_one && a == 2 ^ 63) refl
  where
    by_zero :
        (z : Bool)
        → (b == 0) ≡ z
        → (o : Bool) → (b == minus_one && a == 2 ^ 63) ≡ o
        → (q : ℕ) × (r : ℕ) × ((if z
              then some minus_one
              else if o
              then some (2 ^ 63)
              else if z || (a == 2 ^ 63 && b == 2 ^ 64 - 1)
              then none
              else some (quotient_int64 a b))
            ≡ some q)
          × ((if z
                then some a
                else if o
                then some 0
                else if z || (a == 2 ^ 63 && b == 2 ^ 64 - 1)
                then none
                else some (remainder_int64 a b))
              ≡ some r)
          × (u64 (q * b + r) ≡ a)
          × ((b ≡ 0) ⊎ (magnitude r < magnitude b))
    by_zero true e o f =
        let zero' : b ≡ 0 = (==_iff _ _).0 e in
        (minus_one, a, refl, refl, rw zero' (omega arith), inl zero')
    by_zero false e true f = (2 ^ 63, 0, refl, refl, ground (arith, f), inr (ground (arith, f)))
    by_zero false e false f =
        let fits : (a == 2 ^ 63 && b == 2 ^ 64 - 1) ≡ false = ground (arith, f) in
        (
          quotient_int64 a b,
          remainder_int64 a b,
          rw fits refl,
          rw fits refl,
          quotient_remainder a b ha hb (ground (arith, e)),
          inr (remainder-lt a b hb (ground (arith, e))),
        )

unfoldable pub is_word_division : Instruction → Bool
is_word_division Instruction.divuw = true
is_word_division Instruction.remuw = true
is_word_division Instruction.divw = true
is_word_division Instruction.remw = true
is_word_division _ = false

-- What the four word divisions have in common: `x` on a zero register, `w` on an overflow.
fails_lem :
    (b x w y : ℕ) (over : Bool)
    → (over ≡ true → b % 2 ^ 32 ≢ 0)
    → ((if b == 0
          then some x
          else if over
          then some w
          else if b % 2 ^ 32 == 0
          then none
          else some y)
        ≡ none)
      ↔ ((b ≢ 0) × (b % 2 ^ 32 ≡ 0))
fails_lem b x w y over safe = by_case (b == 0) refl over refl (b % 2 ^ 32 == 0) refl
  where
    by_case :
        (z : Bool)
        → (b == 0) ≡ z
        → (o : Bool) → over ≡ o
        → (l : Bool) → (b % 2 ^ 32 == 0) ≡ l
        → ((if z then some x else if o then some w else if l then none else some y) ≡ none)
          ↔ ((b ≢ 0) × (b % 2 ^ 32 ≡ 0))
    by_case true e o f l g = (λ p. absurd cc, λ (n, _). absurd (n ((==_iff _ _).0 e)))
    by_case false e true f l g = (λ p. absurd cc, λ (_, n). absurd (safe f n))
    by_case false e false f true g = (λ p. (ground (arith, e), (==_iff _ _).0 g), λ _. refl)
    by_case false e false f false g = (λ p. absurd cc, λ (_, n). ground (arith, n, g))

sign_extend-zero : (b : ℕ) → b < 2 ^ 64 → (sign_extend 64 b 32 == 0) ≡ (b % 2 ^ 32 == 0)
sign_extend-zero b h =
    rw (sign_extend_lem 64 b 32 (omega arith) (omega arith) (omega arith) h) (ground arith)

-- The division of two words whose signs were copied never overflows.
sign_extend-fits :
    (a b : ℕ)
    → a < 2 ^ 64
    → b < 2 ^ 64
    → is_undefined (sign_extend 64 a 32) (sign_extend 64 b 32) ≡ (b % 2 ^ 32 == 0)
sign_extend-fits a b ha hb =
    let whole : (sign_extend 64 a 32 == 2 ^ 63) ≡ false =
      rw (sign_extend_lem 64 a 32 (omega arith) (omega arith) (omega arith) ha) (ground arith) in
    rw (whole, sign_extend-zero b hb) (ground arith)

-- DIVUW, REMUW, DIVW and REMW fail, by a division that the language leaves undefined, exactly when
-- the divisor's register is not zero and its low half is: the test for zero reads the register, the
-- division its low half.
pub word_division_fails :
    (xlen a b : ℕ) (instruction : Instruction)
    → a < 2 ^ 64
    → b < 2 ^ 64
    → is_word_division instruction ≡ true
    → (mult_value xlen instruction a b ≡ none) ↔ ((b ≢ 0) × (b % 2 ^ 32 ≡ 0))
unfolding mult_value divide_uint64 modulo_uint64 divide_int64 modulo_int64 is_word_division
word_division_fails xlen a b Instruction.divuw ha hb word =
    rw (bit_and_mask 32 b)
      (fails_lem b minus_one 0 (low_half a / (b % 2 ^ 32)) false (λ p. absurd cc))
word_division_fails xlen a b Instruction.remuw ha hb word =
    rw (bit_and_mask 32 b) (fails_lem b a 0 (low_half a % (b % 2 ^ 32)) false (λ p. absurd cc))
word_division_fails xlen a b Instruction.divw ha hb word = rw (sign_extend-fits a b ha hb) (
    fails_lem b minus_one (2 ^ 31) (quotient_int64 (sign_extend 64 a 32) (sign_extend 64 b 32))
      (b == minus_one && a == 2 ^ 31) (λ p. ground (arith, p)))
word_division_fails xlen a b Instruction.remw ha hb word = rw (sign_extend-fits a b ha hb) (
    fails_lem b a 0 (remainder_int64 (sign_extend 64 a 32) (sign_extend 64 b 32))
      (b == minus_one && a == 2 ^ 31) (λ p. ground (arith, p)))
word_division_fails xlen a b _ ha hb word = absurd cc
