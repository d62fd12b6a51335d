-- ===== src/Disassembler/Hex.antt =====
-- What `NumberToHex` prints is read back as the number.
use mathlib.Core.List.{List, [], ◌∷◌, ◌++◌}
use m99_riscv_emulator.Prelude.{
  ℕ, zero, suc, ◌+◌, ◌-◌, ◌*◌, ◌/◌, ◌%◌, ◌<◌, ◌≡◌, refl, ap, arith, Option, none, some, ltb, ◌&&◌,
  ◌==◌, if◌then◌else◌, u32, Bool-cases, inl, inr,
}
use m99_riscv_emulator.Disassembler.Text.{hex_digit, hex_digits, number_to_hex}

digit_value : ℕ → ℕ
digit_value c = if ltb c b'a' then c - b'0' else c - b'a' + 10

value_of : ℕ → List ℕ → ℕ
value_of acc [] = acc
value_of acc (c ∷ cs) = value_of (acc * 16 + digit_value c) cs

-- The number after "0x", with any number of digits of either kind.
pub read_hex : List ℕ → Option ℕ
read_hex (a ∷ b ∷ digits) = if a == b'0' && b == b'x' then some (value_of 0 digits) else none
read_hex _ = none

digit_value-hex_digit : (d : ℕ) → d < 16 → digit_value (hex_digit d) ≡ d
unfolding digit_value
digit_value-hex_digit d h = ground arith

value_of-append :
    (acc : ℕ) (xs : List ℕ) (d : ℕ)
    → value_of acc (xs ++ (d ∷ [])) ≡ value_of acc xs * 16 + digit_value d
unfolding value_of
value_of-append acc [] d = refl
value_of-append acc (x ∷ xs) d = value_of-append (acc * 16 + digit_value x) xs d

-- `fuel` digits are enough for `num`.
abbrev Fits : ℕ → ℕ → Type 0
Fits zero num = num ≡ 0
Fits (suc fuel) num = Fits fuel (num / 16)

value_of-hex_digits : (fuel num : ℕ) → Fits fuel num → value_of 0 (hex_digits fuel num) ≡ num
unfolding hex_digits
value_of-hex_digits zero num h = unfold value_of in omega arith
value_of-hex_digits (suc fuel) num h = elim (Bool-cases (ltb num 16)) [
  | inl one ↦ rw one (unfold value_of in ground (arith, digit_value-hex_digit num))
  | inr more ↦
      rw
        (
          more,
          value_of-append 0 (hex_digits fuel (num / 16)) (hex_digit (num % 16)),
          value_of-hex_digits fuel (num / 16) h,
          digit_value-hex_digit (num % 16) (omega arith),
        )
        (omega arith)
]

-- Reading what `NumberToHex` prints gives the number, cut to the 32 bits that it is passed in: no
-- digit is lost, and two numbers that differ are printed differently.
pub read_hex-number_to_hex : (num : ℕ) → read_hex (number_to_hex num) ≡ some (u32 num)
unfolding read_hex number_to_hex
read_hex-number_to_hex num = ap some (value_of-hex_digits 8 (u32 num) (omega arith))
