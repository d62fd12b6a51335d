-- ===== src/Cpu/Mult/Signed.antt =====
-- The high halves of the products of signed words.
use native.Mathlib.Nat.{mul-le-mul, mul-le-mul_right}
use m99_riscv_emulator.Prelude.{
  ℕ, ◌+◌, ◌-◌, ◌*◌, ◌/◌, ◌%◌, ◌^◌, ◌<◌, ◌≤◌, ◌≡◌, ◌∙◌, ap, ap₂, arith, Bool, true, false, not,
  Bool-cases, inl, inr, ◌==◌, ==_iff, ltb, if◌then◌else◌, u64,
}
use m99_riscv_emulator.Prelude.Bits.{bit_and_mask}
use m99_riscv_emulator.Cpu.Mult.{upper_half, shift_signed, get_mulh64, get_mulhsu64}
use m99_riscv_emulator.Cpu.Mult.High.{half, product-le}

-- A word of 64 bits as one of 128 that stands for the same signed number.
abbrev pub extend : ℕ → ℕ
extend x = if ltb x (2 ^ 63) then x else x + (2 ^ 128 - 2 ^ 64)

-- A product of signed and unsigned halves: `a * d` with `a` below zero, as it is shifted.
abbrev neg : ℕ
neg = 2 ^ 64 - 2 ^ 32

-- A signed half by an unsigned one: what is shifted off and what is left make up the product, less
-- a word for the sign; `e` is the borrow.
cross :
    (x d : ℕ)
    → 2 ^ 31 ≤ x
    → x < half
    → d < half
    → (e : ℕ) × (e < 2)
      × (shift_signed (u64 ((x + neg) * d)) * half + u64 ((x + neg) * d) % half + half * d
          ≡ x * d + e * 2 ^ 96)
cross x d low hx hd = elim (Bool-cases (d == 0)) [
  | inl none' ↦
      let zero' : d ≡ 0 = (==_iff _ _).0 none' in (0, omega arith, rw zero' (ground arith))
  | inr some' ↦
      (1, omega arith, ground (arith, some', mul-le-mul_right d low, mul-le-mul_right d hx))
]

-- What a sign adds.
abbrev on : Bool → ℕ → ℕ
on g x = if g then x else 0

-- The upper half of a word has the word's sign.
abbrev Signed : Bool → ℕ → Type 0
Signed g x = ltb x (2 ^ 31) ≡ not g

piece :
    (g : Bool) (x d : ℕ)
    → Signed g x
    → x < half
    → d < half
    → (e : ℕ) × (e < 2)
      × (shift_signed (u64 ((x + on g neg) * d)) * half
            + u64 ((x + on g neg) * d) % half
            + on g (half * d)
          ≡ x * d + e * 2 ^ 96)
piece true x d sign hx hd = cross x d (ground (arith, sign)) hx hd
piece false x d sign hx hd =
    let positive : x < 2 ^ 31 = ground (arith, sign) in
    let small : x * d ≤ (2 ^ 31 - 1) * (half - 1) =
      mul-le-mul {n₂ = 2 ^ 31 - 1} {m₂ = half - 1} (omega arith) (omega arith) in
    (0, omega arith, ground (arith, small))

signed_sum :
    (g h : Bool) (a b c d ac ad bc bd sx lx sy ly e f : ℕ)
    → a < half
    → b < half
    → c < half
    → d < half
    → bd ≤ (half - 1) * (half - 1)
    → lx < half
    → ly < half
    → e < 2
    → f < 2
    → sx * half + lx + on g (half * d) ≡ ad + e * 2 ^ 96
    → sy * half + ly + on h (half * b) ≡ bc + f * 2 ^ 96
    → u64 (
        u64 (u64 (u64 (ac + on g (neg * c) + on h (neg * a) + on g (on h (neg * neg))) + sx) + sy)
        + u64 (u64 (lx + ly) + u64 bd / half) / half)
      ≡ (ac * 2 ^ 64
          + (ad + bc) * half
          + bd
          + on g ((2 ^ 128 - 2 ^ 64) * (c * half + d))
          + on h ((2 ^ 128 - 2 ^ 64) * (a * half + b))
          + on g (on h ((2 ^ 128 - 2 ^ 64) * (2 ^ 128 - 2 ^ 64))))
        % 2 ^ 128
        / 2 ^ 64
signed_sum true true a b c d ac ad bc bd sx lx sy ly e f ha hb hc hd hbd hx hy he hf xs ys =
    omega arith
signed_sum true false a b c d ac ad bc bd sx lx sy ly e f ha hb hc hd hbd hx hy he hf xs ys =
    omega arith
signed_sum false true a b c d ac ad bc bd sx lx sy ly e f ha hb hc hd hbd hx hy he hf xs ys =
    omega arith
signed_sum false false a b c d ac ad bc bd sx lx sy ly e f ha hb hc hd hbd hx hy he hf xs ys =
    omega arith

-- Products of signed numbers, as sums over the signs.
spread :
    (g h : Bool) (k x y : ℕ)
    → (x + on g k) * (y + on h k) ≡ x * y + on g (k * y) + on h (k * x) + on g (on h (k * k))
spread true true k x y = omega arith
spread true false k x y = omega arith
spread false true k x y = omega arith
spread false false k x y = omega arith

abbrev negative : ℕ → Bool
negative x = not (ltb x (2 ^ 63))

sign_of : (x : ℕ) → x < 2 ^ 64 → Signed (negative x) (x / half)
sign_of x h = ground arith

shift_signed_lem : (x : ℕ) → shift_signed x ≡ x / half + on (negative x) neg
shift_signed_lem x = ground arith

extend_lem : (x : ℕ) → extend x ≡ x + on (negative x) (2 ^ 128 - 2 ^ 64)
extend_lem x = ground arith

-- The sum over signed halves, where the two shifts make up their products.
signed_high :
    (g h : Bool) (a b c d sx lx sy ly e f : ℕ)
    → a < half
    → b < half
    → c < half
    → d < half
    → lx < half
    → ly < half
    → e < 2
    → f < 2
    → sx * half + lx + on g (half * d) ≡ a * d + e * 2 ^ 96
    → sy * half + ly + on h (half * b) ≡ c * b + f * 2 ^ 96
    → u64 (
        u64 (u64 (u64 ((a + on g neg) * (c + on h neg)) + sx) + sy)
        + u64 (u64 (lx + ly) + u64 (b * d) / half) / half)
      ≡ (a * half + b + on g (2 ^ 128 - 2 ^ 64))
        * (c * half + d + on h (2 ^ 128 - 2 ^ 64))
        % 2 ^ 128
        / 2 ^ 64
signed_high g h a b c d sx lx sy ly e f ha hb hc hd hx hy he hf xs ys =
    rw (spread g h neg a c, spread g h (2 ^ 128 - 2 ^ 64) (a * half + b) (c * half + d))
      (signed_sum g h a b c d (a * c) (a * d) (c * b) (b * d) sx lx sy ly e f ha hb hc hd
          (product-le b d hb hd) hx hy he hf xs ys
        ∙ ap
            (λ (t : ℕ).
              (t
                + on g ((2 ^ 128 - 2 ^ 64) * (c * half + d))
                + on h ((2 ^ 128 - 2 ^ 64) * (a * half + b))
                + on g (on h ((2 ^ 128 - 2 ^ 64) * (2 ^ 128 - 2 ^ 64))))
              % 2 ^ 128
              / 2 ^ 64)
            (omega arith))

-- `GetMulh64` gives the upper half of the signed product of two words of 64 bits.
pub get_mulh64_lem :
    (x y : ℕ) → x < 2 ^ 64 → y < 2 ^ 64 → get_mulh64 x y ≡ extend x * extend y % 2 ^ 128 / 2 ^ 64
unfolding get_mulh64 upper_half
get_mulh64_lem x y hx hy =
    let g = negative x in
    let h = negative y in
    let a = x / half in
    let b = x % half in
    let c = y / half in
    let d = y % half in
    let p = (a + on g neg) * d in
    let q = (c + on h neg) * b in
    let (e, he, xs) = piece g a d (sign_of x hx) (omega arith) (omega arith) in
    let (f, hf, ys) = piece h c b (sign_of y hy) (omega arith) (omega arith) in
    let swap : b * (c + on h neg) ≡ q = omega arith in
    let one : a * half + b ≡ x = omega arith in
    let two : c * half + d ≡ y = omega arith in
    rw
      (
        bit_and_mask 32 x,
        bit_and_mask 32 y,
        shift_signed_lem x,
        shift_signed_lem y,
        swap,
        bit_and_mask 32 (u64 p),
        bit_and_mask 32 (u64 q),
        extend_lem x,
        extend_lem y,
      )
      (signed_high g h a b c d (shift_signed (u64 p)) (u64 p % half) (shift_signed (u64 q))
          (u64 q % half) e f (omega arith) (omega arith) (omega arith) (omega arith) (omega arith)
          (omega arith) he hf xs ys
        ∙ ap₂
            (λ (s t : ℕ).
              (s + on g (2 ^ 128 - 2 ^ 64)) * (t + on h (2 ^ 128 - 2 ^ 64)) % 2 ^ 128 / 2 ^ 64)
            one two)

-- `GetMulhsu64` gives the upper half of the product of a signed and an unsigned word of 64 bits.
pub get_mulhsu64_lem :
    (x y : ℕ) → x < 2 ^ 64 → y < 2 ^ 64 → get_mulhsu64 x y ≡ extend x * y % 2 ^ 128 / 2 ^ 64
unfolding get_mulhsu64 upper_half
get_mulhsu64_lem x y hx hy =
    let g = negative x in
    let a = x / half in
    let b = x % half in
    let c = y / half in
    let d = y % half in
    let p = (a + on g neg) * d in
    let q = b * c in
    let (e, he, xs) = piece g a d (sign_of x hx) (omega arith) (omega arith) in
    let fits : q ≤ (half - 1) * (half - 1) = product-le b c (omega arith) (omega arith) in
    let ys : u64 q / half * half + u64 q % half + on false (half * b) ≡ c * b + 0 * 2 ^ 96 =
      omega (arith, fits) in
    let one : a * half + b + on g (2 ^ 128 - 2 ^ 64) ≡ x + on g (2 ^ 128 - 2 ^ 64) = omega arith in
    let two : c * half + d + on false (2 ^ 128 - 2 ^ 64) ≡ y = omega arith in
    let zero' : c ≡ c + on false neg = omega arith in
    rw
      (
        bit_and_mask 32 x,
        bit_and_mask 32 y,
        shift_signed_lem x,
        bit_and_mask 32 (u64 p),
        bit_and_mask 32 (u64 q),
        extend_lem x,
      )
      (ap
          (λ (t : ℕ). u64 (
            u64 (u64 (u64 ((a + on g neg) * t) + shift_signed (u64 p)) + u64 q / half)
            + u64 (u64 (u64 p % half + u64 q % half) + u64 (b * d) / half) / half))
          zero'
        ∙ signed_high g false a b c d (shift_signed (u64 p)) (u64 p % half) (u64 q / half)
            (u64 q % half) e 0 (omega arith) (omega arith) (omega arith) (omega arith) (omega arith)
            (omega arith) he (omega arith) xs ys
        ∙ ap₂ (λ (s t : ℕ). s * t % 2 ^ 128 / 2 ^ 64) one two)
