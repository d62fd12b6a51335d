-- ===== src/Prelude/Bits.antt =====
-- Masks and fields as arithmetic, at every width: what `&`, `|` and `^` do to words that are
-- written as `high * 2 ^ k + low`.
use Prim.Native.Nat.{
  ℕ, zero, suc, ◌+◌, ◌-◌, ◌*◌, ◌/◌, ◌%◌, ◌^◌, ◌≤◌, ◌<◌, min, max, differ, bit_and, bit_or, bit_xor,
  bit_and-bitwise, bit_or-bitwise,
}
use mathlib.Core.Path.{◌≡◌, refl, ap, ap₂, ◌∙◌, sym}
use native.Mathlib.Nat.{
  pow-suc, one-le-pow, div-add-mod', mod-lt, div-eq_of_lt, mod-eq_of_lt, div-lt_iff_lt-mul, suc-mul,
  mul-add-div_right, mul-add-mod_self_right,
}
use native.Mathlib.Omega.{arith}
use m99_riscv_emulator.Prelude.Digits.{bit_and_step, bit_or_step, bit_xor_step}

double_pow : (q k : ℕ) → q * 2 ^ suc k ≡ q * 2 ^ k * 2
double_pow q k = omega (arith, ap (λ (t : ℕ). q * t) (pow-suc 2 k))

pub pow_pos : (k : ℕ) → 0 < 2 ^ k
pow_pos k = one-le-pow k 2 (omega arith)

-- An operation that works digit by digit works field by field.
module _ (op f : ℕ → ℕ → ℕ) (none_set : op 0 0 ≡ 0)
    (step : (a b : ℕ) → op a b ≡ op (a / 2) (b / 2) * 2 + f (a % 2) (b % 2)) where
  fields :
      (k a c b d : ℕ)
      → b < 2 ^ k
      → d < 2 ^ k
      → op (a * 2 ^ k + b) (c * 2 ^ k + d) ≡ op a c * 2 ^ k + op b d
  fields zero a c b d hb hd =
      let left : a * 2 ^ 0 + b ≡ a = omega arith in
      let right : c * 2 ^ 0 + d ≡ c = omega arith in
      let low : op b d ≡ op 0 0 = ap₂ op (omega arith) (omega arith) in
      ap₂ op left right ∙ omega (arith, low, none_set)
  fields (suc k) a c b d hb hd =
      step (a * 2 ^ suc k + b) (c * 2 ^ suc k + d)
      ∙ ap₂ (λ (s t : ℕ). s * 2 + t)
          (ap₂ op (half a b) (half c d)
            ∙ fields k a c (b / 2) (d / 2) (omega (arith, pow-suc 2 k))
                (omega (arith, pow-suc 2 k)))
          (ap₂ f (parity a b) (parity c d))
      ∙ omega (arith, double_pow (op a c) k, step b d)
    where
      half : (q r : ℕ) → (q * 2 ^ suc k + r) / 2 ≡ q * 2 ^ k + r / 2
      half q r = omega (arith, double_pow q k)

      parity : (q r : ℕ) → (q * 2 ^ suc k + r) % 2 ≡ r % 2
      parity q r = omega (arith, double_pow q k)

  split : (k a b : ℕ) → op a b ≡ op (a / 2 ^ k) (b / 2 ^ k) * 2 ^ k + op (a % 2 ^ k) (b % 2 ^ k)
  split k a b =
      ap₂ op (sym (div-add-mod' a (2 ^ k))) (sym (div-add-mod' b (2 ^ k)))
      ∙ fields k (a / 2 ^ k) (b / 2 ^ k) (a % 2 ^ k) (b % 2 ^ k) (mod-lt a (pow_pos k))
          (mod-lt b (pow_pos k))

  -- The result fits where both numbers fit.
  stays_below :
      ((s t : ℕ) → s < 2 → t < 2 → f s t < 2) → (k b d : ℕ) → b < 2 ^ k → d < 2 ^ k → op b d < 2 ^ k
  stays_below digit zero b d hb hd =
      let eb : b ≡ 0 = omega arith in
      let ed : d ≡ 0 = omega arith in rw (eb, ed, none_set) (omega arith)
  stays_below digit (suc k) b d hb hd = omega (
    arith,
    step b d,
    pow-suc 2 k,
    digit (b % 2) (d % 2) (omega arith) (omega arith),
    stays_below digit k (b / 2) (d / 2) (omega (arith, pow-suc 2 k)) (omega (arith, pow-suc 2 k)),
  )

  -- A law of one digit is a law of numbers.
  swapped : ((s t : ℕ) → s < 2 → t < 2 → f s t ≡ f t s) → (n a b : ℕ) → a + b ≤ n → op a b ≡ op b a
  swapped law zero a b h = ap₂ op (omega arith) (omega arith)
  swapped law (suc n) a b h = omega (
    arith,
    step a b,
    step b a,
    law (a % 2) (b % 2) (omega arith) (omega arith),
    swapped law n (a / 2) (b / 2) (omega arith),
  )

pub bit_and_fields :
    (k a c b d : ℕ)
    → b < 2 ^ k
    → d < 2 ^ k
    → bit_and (a * 2 ^ k + b) (c * 2 ^ k + d) ≡ bit_and a c * 2 ^ k + bit_and b d
bit_and_fields = fields bit_and min refl bit_and_step

pub bit_or_fields :
    (k a c b d : ℕ)
    → b < 2 ^ k
    → d < 2 ^ k
    → bit_or (a * 2 ^ k + b) (c * 2 ^ k + d) ≡ bit_or a c * 2 ^ k + bit_or b d
bit_or_fields = fields bit_or max refl bit_or_step

pub bit_xor_fields :
    (k a c b d : ℕ)
    → b < 2 ^ k
    → d < 2 ^ k
    → bit_xor (a * 2 ^ k + b) (c * 2 ^ k + d) ≡ bit_xor a c * 2 ^ k + bit_xor b d
bit_xor_fields = fields bit_xor differ refl bit_xor_step

pub bit_and_split :
    (k a b : ℕ)
    → bit_and a b ≡ bit_and (a / 2 ^ k) (b / 2 ^ k) * 2 ^ k + bit_and (a % 2 ^ k) (b % 2 ^ k)
bit_and_split = split bit_and min refl bit_and_step

pub bit_or_split :
    (k a b : ℕ)
    → bit_or a b ≡ bit_or (a / 2 ^ k) (b / 2 ^ k) * 2 ^ k + bit_or (a % 2 ^ k) (b % 2 ^ k)
bit_or_split = split bit_or max refl bit_or_step

pub bit_xor_split :
    (k a b : ℕ)
    → bit_xor a b ≡ bit_xor (a / 2 ^ k) (b / 2 ^ k) * 2 ^ k + bit_xor (a % 2 ^ k) (b % 2 ^ k)
bit_xor_split = split bit_xor differ refl bit_xor_step

pub bit_and-lt : (k a b : ℕ) → a < 2 ^ k → b < 2 ^ k → bit_and a b < 2 ^ k
bit_and-lt = stays_below bit_and min refl bit_and_step λ s t hs ht. omega arith

pub bit_or-lt : (k a b : ℕ) → a < 2 ^ k → b < 2 ^ k → bit_or a b < 2 ^ k
bit_or-lt = stays_below bit_or max refl bit_or_step λ s t hs ht. omega arith

digits_differ : (s t : ℕ) → s < 2 → t < 2 → differ s t ≡ (s + t) % 2
digits_differ zero zero hs ht = refl
digits_differ zero (suc zero) hs ht = refl
digits_differ zero (suc (suc t)) hs ht = absurd (omega arith)
digits_differ (suc zero) zero hs ht = refl
digits_differ (suc zero) (suc zero) hs ht = refl
digits_differ (suc zero) (suc (suc t)) hs ht = absurd (omega arith)
digits_differ (suc (suc s)) t hs ht = absurd (omega arith)

pub bit_xor-lt : (k a b : ℕ) → a < 2 ^ k → b < 2 ^ k → bit_xor a b < 2 ^ k
bit_xor-lt =
    stays_below bit_xor differ refl bit_xor_step λ s t hs ht. omega (arith, digits_differ s t hs ht)

pub bit_and_comm : (a b : ℕ) → bit_and a b ≡ bit_and b a
bit_and_comm a b =
    swapped bit_and min refl bit_and_step (λ s t hs ht. omega arith) (a + b) a b (omega arith)

pub bit_or_comm : (a b : ℕ) → bit_or a b ≡ bit_or b a
bit_or_comm a b =
    swapped bit_or max refl bit_or_step (λ s t hs ht. omega arith) (a + b) a b (omega arith)

pub zero-bit_and : (a : ℕ) → bit_and 0 a ≡ 0
zero-bit_and a = bit_and-bitwise 0 a

pub zero-bit_or : (a : ℕ) → bit_or 0 a ≡ a
zero-bit_or a = bit_or-bitwise 0 a

pub bit_and-zero : (a : ℕ) → bit_and a 0 ≡ 0
bit_and-zero a = bit_and_comm a 0 ∙ zero-bit_and a

pub bit_or-zero : (a : ℕ) → bit_or a 0 ≡ a
bit_or-zero a = bit_or_comm a 0 ∙ zero-bit_or a

ones-half : (k : ℕ) → (2 ^ suc k - 1) / 2 ≡ 2 ^ k - 1
ones-half k = omega (arith, pow-suc 2 k, pow_pos k)

ones_odd : (k : ℕ) → (2 ^ suc k - 1) % 2 ≡ 1
ones_odd k = omega (arith, pow-suc 2 k, pow_pos k)

-- `k` ones keep the low digits under `&`, set them under `|` and flip them under `^`.
pub bit_and_ones : (k a : ℕ) → a < 2 ^ k → bit_and a (2 ^ k - 1) ≡ a
bit_and_ones zero a h = omega (arith, bit_and-zero a)
bit_and_ones (suc k) a h =
    let below : a / 2 < 2 ^ k = omega (arith, pow-suc 2 k) in
    bit_and_step a (2 ^ suc k - 1)
    ∙ rw (ones-half k, ones_odd k, bit_and_ones k (a / 2) below) (omega arith)

pub bit_or_ones : (k a : ℕ) → a < 2 ^ k → bit_or a (2 ^ k - 1) ≡ 2 ^ k - 1
bit_or_ones zero a h = omega (arith, bit_or-zero a)
bit_or_ones (suc k) a h =
    let below : a / 2 < 2 ^ k = omega (arith, pow-suc 2 k) in
    bit_or_step a (2 ^ suc k - 1)
    ∙ rw (ones-half k, ones_odd k, bit_or_ones k (a / 2) below)
        (omega (arith, pow-suc 2 k, pow_pos k))

pub bit_and_mask : (k a : ℕ) → bit_and a (2 ^ k - 1) ≡ a % 2 ^ k
bit_and_mask k a =
    bit_and_split k a (2 ^ k - 1)
    ∙ rw
        (
          div-eq_of_lt small,
          mod-eq_of_lt small,
          bit_and-zero,
          bit_and_ones k (a % 2 ^ k) (mod-lt a (pow_pos k)),
        )
        (omega arith)
  where
    small : 2 ^ k - 1 < 2 ^ k
    small = omega (arith, pow_pos k)

pub pow_add : (a b : ℕ) → 2 ^ (a + b) ≡ 2 ^ a * 2 ^ b
pow_add a zero = let same : a + 0 ≡ a = omega arith in rw same (omega arith)
pow_add a (suc b) =
    let out : a + suc b ≡ suc (a + b) = omega arith in
    rw out (
      omega (
        arith,
        pow-suc 2 (a + b),
        ap (λ (t : ℕ). t * 2) (pow_add a b),
        ap (λ (t : ℕ). 2 ^ a * t) (pow-suc 2 b),
      ))

-- A value in place, over low digits or under high ones.
pub bit_or_disjoint : (k q r : ℕ) → r < 2 ^ k → bit_or (q * 2 ^ k) r ≡ q * 2 ^ k + r
bit_or_disjoint k q r h =
    ap₂ bit_or (omega arith) (omega arith)
    ∙ bit_or_fields k q 0 0 r (pow_pos k) h
    ∙ rw (bit_or-zero, zero-bit_or) refl

pub high_ones : (h k : ℕ) → 2 ^ (h + k) - 2 ^ k ≡ (2 ^ h - 1) * 2 ^ k + 0
high_ones h k = rw (pow_add h k) (pred_mul (2 ^ h) (2 ^ k) (pow_pos h))
  where
    pred_mul : (p q : ℕ) → 0 < p → p * q - q ≡ (p - 1) * q + 0
    pred_mul zero q pos = elim pos [ ]
    pred_mul (suc p) q pos =
        let less : suc p - 1 ≡ p = omega arith in rw (less, suc-mul p q) (omega arith)

pub high-lt : (h k a : ℕ) → a < 2 ^ (h + k) → a / 2 ^ k < 2 ^ h
high-lt h k a below = (div-lt_iff_lt-mul (pow_pos k)).1 (let e = pow_add h k in rw e at below)

-- A mask of `h` ones over `k` zeros.
pub bit_or_high :
    (h k a : ℕ) → a < 2 ^ (h + k) → bit_or a (2 ^ (h + k) - 2 ^ k) ≡ 2 ^ (h + k) - 2 ^ k + a % 2 ^ k
bit_or_high h k a below =
    ap₂ bit_or (sym (div-add-mod' a (2 ^ k))) (high_ones h k)
    ∙ bit_or_fields k (a / 2 ^ k) (2 ^ h - 1) (a % 2 ^ k) 0 (mod-lt a (pow_pos k)) (pow_pos k)
    ∙ rw (bit_or_ones h (a / 2 ^ k) (high-lt h k a below), bit_or-zero (a % 2 ^ k))
        (omega (arith, high_ones h k))

pub bit_and_high :
    (h k a : ℕ) → a < 2 ^ (h + k) → bit_and a (2 ^ (h + k) - 2 ^ k) ≡ a / 2 ^ k * 2 ^ k
bit_and_high h k a below =
    ap₂ bit_and (sym (div-add-mod' a (2 ^ k))) (high_ones h k)
    ∙ bit_and_fields k (a / 2 ^ k) (2 ^ h - 1) (a % 2 ^ k) 0 (mod-lt a (pow_pos k)) (pow_pos k)
    ∙ rw (bit_and_ones h (a / 2 ^ k) (high-lt h k a below), bit_and-zero (a % 2 ^ k)) (omega arith)

-- The two halves of a word that is written as `q * 2 ^ k + r`.
pub upper-fields : (k q r : ℕ) → r < 2 ^ k → (q * 2 ^ k + r) / 2 ^ k ≡ q
upper-fields k q r h = mul-add-div_right (pow_pos k) q r ∙ rw (div-eq_of_lt h) (omega arith)

pub lower-fields : (k q r : ℕ) → r < 2 ^ k → (q * 2 ^ k + r) % 2 ^ k ≡ r
lower-fields k q r h = mul-add-mod_self_right q (2 ^ k) r ∙ mod-eq_of_lt h

-- Masking a field out and writing it anew, as the program does with several masks.
module _ (rest width offset reg v : ℕ) (word : reg < 2 ^ (rest + width + offset))
    (fits : v < 2 ^ width) where
  high_part :
      bit_and (reg / 2 ^ offset) ((2 ^ rest - 1) * 2 ^ width)
      ≡ reg / 2 ^ offset / 2 ^ width * 2 ^ width
  high_part =
      let ones : (2 ^ rest - 1) * 2 ^ width ≡ 2 ^ (rest + width) - 2 ^ width =
        omega (arith, high_ones rest width) in
      rw ones (bit_and_high rest width (reg / 2 ^ offset) (high-lt (rest + width) offset reg word))

  pub kept_field :
      bit_and reg ((2 ^ rest - 1) * 2 ^ width * 2 ^ offset + (2 ^ offset - 1))
      ≡ reg / 2 ^ offset / 2 ^ width * 2 ^ width * 2 ^ offset + reg % 2 ^ offset
  kept_field =
      ap₂ bit_and (sym (div-add-mod' reg (2 ^ offset))) refl
      ∙ bit_and_fields offset (reg / 2 ^ offset) ((2 ^ rest - 1) * 2 ^ width) (reg % 2 ^ offset)
          (2 ^ offset - 1) (mod-lt reg (pow_pos offset)) (omega (arith, pow_pos offset))
      ∙ rw (high_part, bit_and_ones offset (reg % 2 ^ offset) (mod-lt reg (pow_pos offset)))

  pub replace_field :
      bit_or
        (bit_and reg ((2 ^ rest - 1) * 2 ^ width * 2 ^ offset + (2 ^ offset - 1)))
        (v * 2 ^ offset)
      ≡ (reg / 2 ^ offset / 2 ^ width * 2 ^ width + v) * 2 ^ offset + reg % 2 ^ offset
  replace_field =
      ap₂ bit_or kept_field (omega arith)
      ∙ bit_or_fields offset (reg / 2 ^ offset / 2 ^ width * 2 ^ width) v (reg % 2 ^ offset) 0
          (mod-lt reg (pow_pos offset)) (pow_pos offset)
      ∙ rw (
        bit_or_disjoint width (reg / 2 ^ offset / 2 ^ width) v fits,
        bit_or-zero (reg % 2 ^ offset),
      )

-- An `|` of two patterns that share no digit is their sum.
pub bit_or_sum : (k x y : ℕ) → x % 2 ^ k ≡ 0 → y < 2 ^ k → bit_or x y ≡ x + y
bit_or_sum k x y h below =
    let whole : x ≡ x / 2 ^ k * 2 ^ k = sym (div-add-mod' x (2 ^ k)) ∙ omega arith in
    ap (λ (t : ℕ). bit_or t y) whole
    ∙ bit_or_disjoint k (x / 2 ^ k) y below
    ∙ ap (λ (t : ℕ). t + y) (sym whole)
