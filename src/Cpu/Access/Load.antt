-- ===== src/Cpu/Access/Load.antt =====
-- `LoadWd` against the bytes of the memory: the lowest byte of the value is the first one.
use native.Mathlib.Nat.{mod-eq_of_lt, mul-le-mul_right, pow-le-pow_right}
use m99_riscv_emulator.Prelude.{
  ℕ, zero, suc, ◌+◌, ◌-◌, ◌*◌, ◌/◌, ◌%◌, ◌^◌, ◌<◌, ◌≤◌, ◌≡◌, refl, sym, ◌∙◌, ap, ap₂, arith, true,
  ◌&&◌, some, bit_or, bit_and, leb, ◌==◌, Bool-cases, inl, inr, assert, u64, ◌<<<◌,
}
use m99_riscv_emulator.Prelude.Options.{bind_to}
use m99_riscv_emulator.Prelude.Bits.{bit_or_comm, bit_or_disjoint, bit_and_mask, pow_add, pow_pos}
use m99_riscv_emulator.Memory.{MemoryWrapper, read32, read64}
use m99_riscv_emulator.Memory.Word.{word, index_of, read32_lem}
use m99_riscv_emulator.Memory.Bytes.{byte, byte_of, byte-lt, read_byte_lem, IsWords}
use m99_riscv_emulator.Memory.Wide.{next_word, read64_lem}
use m99_riscv_emulator.Cpu.Access.{load_bytes, load_wd}

-- The number that `n` digits of 8 bits make, from place `a` on and the lowest first.
unfoldable pub little_endian : (ℕ → ℕ) → ℕ → ℕ → ℕ
little_endian digit a zero = 0
little_endian digit a (suc n) = digit a + little_endian digit (suc a) n * 2 ^ 8

pub byte_wrap : (m : MemoryWrapper) (a : ℕ) → byte m (u64 a) ≡ byte m a
unfolding byte
byte_wrap m a = ap₂ (λ (s t : ℕ). word m s / 2 ^ (t * 8) % 2 ^ 8) (omega arith) (omega arith)

-- A digit put above `acc`.
digit_above : (k b acc : ℕ) → b < 2 ^ 8 → acc < 2 ^ k → b * 2 ^ k + acc < 2 ^ (k + 8)
digit_above k b acc hb h = omega (arith, pow_add k 8, mul-le-mul_right (2 ^ k) hb, h)

place-le : (offset : ℕ) → offset < 8 → 2 ^ (offset * 8 + 8) ≤ 2 ^ 64
place-le offset h = pow-le-pow_right (omega arith) (let e : offset * 8 + 8 ≤ 64 = omega arith in e)

joined :
    (offset b acc : ℕ)
    → offset < 8
    → b < 2 ^ 8
    → acc < 2 ^ (offset * 8)
    → bit_or acc (u64 (b <<< (offset * 8))) ≡ b * 2 ^ (offset * 8) + acc
joined offset b acc ho hb h =
    ap (bit_or acc) (
      mod-eq_of_lt {n = b * 2 ^ (offset * 8)} {m = 2 ^ 64}
        (omega (arith, digit_above (offset * 8) b 0 hb (pow_pos (offset * 8)), place-le offset ho)))
    ∙ bit_or_comm acc (b * 2 ^ (offset * 8))
    ∙ bit_or_disjoint (offset * 8) b acc h

load_bytes_lem :
    (m : MemoryWrapper) (a n offset acc : ℕ)
    → offset + n ≤ 8
    → acc < 2 ^ (offset * 8)
    → load_bytes m a n offset acc
      ≡ some (acc + little_endian (byte m) (a + offset) n * 2 ^ (offset * 8))
unfolding load_bytes little_endian
load_bytes_lem m a zero offset acc few h = ap some (omega arith)
load_bytes_lem m a (suc n) offset acc few h =
    let b = byte m (a + offset) in
    let small : b < 2 ^ 8 = byte-lt m (a + offset) in
    let next_place : suc offset * 8 ≡ offset * 8 + 8 = omega arith in
    let next_address : a + suc offset ≡ suc (a + offset) = omega arith in
    bind_to _ (read_byte_lem m (u64 (a + offset)) ∙ ap some (byte_wrap m (a + offset))) (
      ap (load_bytes m a n (suc offset)) (joined offset b acc (omega arith) small h)
      ∙ load_bytes_lem m a n (suc offset) (b * 2 ^ (offset * 8) + acc) (omega arith)
          (rw next_place (digit_above (offset * 8) b acc small h))
      ∙ ap some (rw (next_place, pow_add (offset * 8) 8, next_address) (omega arith)))

-- Four bytes of an aligned word.
word_bytes :
    (m : MemoryWrapper) (a : ℕ)
    → IsWords m
    → a % 4 ≡ 0
    → word m (index_of a) ≡ little_endian (byte m) a 4
unfolding little_endian
word_bytes m a h aligned = omega (
  arith,
  byte_of m a (index_of a) 0 (omega arith) (omega arith),
  byte_of m (suc a) (index_of a) 1 (omega arith) (omega arith),
  byte_of m (suc (suc a)) (index_of a) 2 (omega arith) (omega arith),
  byte_of m (suc (suc (suc a))) (index_of a) 3 (omega arith) (omega arith),
  h (index_of a),
)

load_word :
    (m : MemoryWrapper) (a : ℕ)
    → IsWords m
    → a % 4 ≡ 0
    → read32 m a ≡ some (little_endian (byte m) a 4)
load_word m a h aligned = read32_lem m a ∙ rw aligned (ap some (word_bytes m a h aligned))

load_double :
    (m : MemoryWrapper) (a : ℕ)
    → IsWords m
    → a % 8 ≡ 0
    → read64 m a ≡ some (little_endian (byte m) a 8)
unfolding little_endian
load_double m a h aligned =
    let up = suc (suc (suc (suc a))) in
    let after : index_of up ≡ next_word a = omega arith in
    let upper : word m (next_word a) ≡ little_endian (byte m) up 4 =
      ap (word m) (sym after) ∙ word_bytes m up h (omega arith) in
    read64_lem m a h ∙ rw aligned (ap some (omega (arith, word_bytes m a h (omega arith), upper)))

load_loop :
    (m : MemoryWrapper) (a width : ℕ)
    → width ≤ 8
    → load_bytes m a width 0 0 ≡ some (little_endian (byte m) a width)
load_loop m a width few =
    load_bytes_lem m a width 0 0 (omega arith) (omega arith)
    ∙ let same : a + 0 ≡ a = omega arith in ap some (rw same (omega arith))

pub in_range : (width : ℕ) → 1 ≤ width → width ≤ 8 → assert (leb 1 width && leb width 8) ≡ some tt
in_range width one few = ground arith

-- What the test of an aligned access says.
pub aligned_test :
    (width a k size : ℕ)
    → (width == size && bit_and a (2 ^ k - 1) == 0) ≡ true
    → (width ≡ size) × (a % 2 ^ k ≡ 0)
aligned_test width a k size e = ground (arith, bit_and_mask k a)

-- In a memory of words, a load of 1 to 8 bytes at any address, aligned or not, succeeds and gives
-- the bytes from that address on, the lowest first.
pub load_wd_lem :
    (m : MemoryWrapper) (a width : ℕ)
    → IsWords m
    → 1 ≤ width
    → width ≤ 8
    → load_wd m a width ≡ some (little_endian (byte m) a width)
unfolding load_wd
load_wd_lem m a width h one few =
    bind_to _ (in_range width one few) (elim (Bool-cases (width == 4 && bit_and a 0b11 == 0)) [
      | inl e ↦
          let (four, aligned) = aligned_test width a 2 4 e in
          rw e (rw four (load_word m a h aligned))
      | inr e ↦ rw e (elim (Bool-cases (width == 8 && bit_and a 0b111 == 0)) [
        | inl e ↦
            let (eight, aligned) = aligned_test width a 3 8 e in
            rw e (rw eight (load_double m a h aligned))
        | inr e ↦ rw e (load_loop m a width few)
      ])
    ])

-- Bytes at addresses that agree modulo 2 ^ 32.
pub byte_same : (m : MemoryWrapper) (a b : ℕ) → a % 2 ^ 32 ≡ b % 2 ^ 32 → byte m a ≡ byte m b
unfolding byte
byte_same m a b e = ap₂ (λ (s t : ℕ). word m s / 2 ^ (t * 8) % 2 ^ 8) (omega arith) (omega arith)

pub little_endian-same :
    (m : MemoryWrapper) (a b n : ℕ)
    → a % 2 ^ 32 ≡ b % 2 ^ 32
    → little_endian (byte m) a n ≡ little_endian (byte m) b n
unfolding little_endian
little_endian-same m a b zero e = refl
little_endian-same m a b (suc n) e =
    ap₂ (λ (s t : ℕ). s + t * 2 ^ 8) (byte_same m a b e)
      (little_endian-same m (suc a) (suc b) n (omega arith))

pub little_endian-lt : (m : MemoryWrapper) (a n : ℕ) → little_endian (byte m) a n < 2 ^ (n * 8)
unfolding little_endian
little_endian-lt m a zero = omega arith
little_endian-lt m a (suc n) =
    let e : suc n * 8 ≡ 8 + n * 8 = omega arith in
    rw (e, pow_add 8 (n * 8)) (omega (arith, little_endian-lt m (suc a) n, byte-lt m a))

-- A sequence of bytes in two parts.
pub little_endian_split :
    (d : ℕ → ℕ) (a i j : ℕ)
    → little_endian d a (i + j) ≡ little_endian d a i + little_endian d (a + i) j * 2 ^ (i * 8)
unfolding little_endian
little_endian_split d a zero j =
    let e : 0 + j ≡ j = omega arith in let f : a + 0 ≡ a = omega arith in rw (e, f) (omega arith)
little_endian_split d a (suc i) j =
    let e : suc i + j ≡ suc (i + j) = omega arith in
    let f : a + suc i ≡ suc a + i = omega arith in
    let g : suc i * 8 ≡ 8 + i * 8 = omega arith in
    rw (e, f, g, pow_add 8 (i * 8)) (omega (arith, little_endian_split d (suc a) i j))
