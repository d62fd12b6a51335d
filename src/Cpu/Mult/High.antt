-- ===== src/Cpu/Mult/High.antt =====
-- The high halves of unsigned products, which the program adds up from four products of halves.
use native.Mathlib.Nat.{mul-le-mul}
use m99_riscv_emulator.Prelude.{
  ℕ, ◌+◌, ◌-◌, ◌*◌, ◌/◌, ◌%◌, ◌^◌, ◌<◌, ◌≤◌, ◌≡◌, ◌∙◌, ap₂, arith, u64,
}
use m99_riscv_emulator.Prelude.Bits.{bit_and_mask}
use m99_riscv_emulator.Cpu.Mult.{upper_half, shift_unsigned, get_mulhu64}

abbrev pub half : ℕ
half = 2 ^ 32

pub product-le : (x y : ℕ) → x < half → y < half → x * y ≤ (half - 1) * (half - 1)
product-le x y hx hy = mul-le-mul {n₂ = half - 1} {m₂ = half - 1} (omega arith) (omega arith)

-- The sum, in plain arithmetic.
halves_sum :
    (a b c d : ℕ)
    → a < half
    → b < half
    → c < half
    → d < half
    → upper_half shift_unsigned shift_unsigned
        (u64 (a * c))
        (u64 (a * d))
        (u64 (b * c))
        (u64 (b * d))
      ≡ (a * half + b) * (c * half + d) / 2 ^ 64
unfolding upper_half
halves_sum a b c d ha hb hc hd =
    rw (bit_and_mask 32 (u64 (a * d)), bit_and_mask 32 (u64 (b * c)))
      (omega (
        arith,
        product-le a c ha hc,
        product-le a d ha hd,
        product-le b c hb hc,
        product-le b d hb hd,
      ))

-- `GetMulhu64` gives the upper half of the product of two words of 64 bits.
pub get_mulhu64_lem : (a b : ℕ) → a < 2 ^ 64 → b < 2 ^ 64 → get_mulhu64 a b ≡ a * b / 2 ^ 64
unfolding get_mulhu64
get_mulhu64_lem a b ha hb =
    let e : a / half * half + a % half ≡ a = omega arith in
    let f : b / half * half + b % half ≡ b = omega arith in
    rw (bit_and_mask 32 a, bit_and_mask 32 b)
      (halves_sum (a / half) (a % half) (b / half) (b % half) (omega arith) (omega arith)
          (omega arith) (omega arith)
        ∙ ap₂ (λ (s t : ℕ). s * t / 2 ^ 64) e f)
