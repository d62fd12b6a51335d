-- ===== src/Memory/Bytes.antt =====
-- Byte accesses: memory as a sequence of bytes, four to a word with the lowest first.
use m99_riscv_emulator.Prelude.{
  ℕ, zero, suc, ◌+◌, ◌-◌, ◌*◌, ◌/◌, ◌%◌, ◌^◌, ◌<◌, ◌≡◌, ap₂, refl, ap, arith, true, some, bit_and,
  bit_or, ◌==◌, ==_iff, Bool-cases, inl, inr, if◌then◌else◌, ◌>>=◌, u64, u32, ◌<<<◌,
}
use native.Mathlib.Nat.{mod-eq_of_lt}
use m99_riscv_emulator.Prelude.Tables.{all_below, all_below_sound, get_or}
use m99_riscv_emulator.Prelude.Bits.{bit_and_mask, replace_field}
use m99_riscv_emulator.Memory.{MemoryWrapper, fresh, read_byte, write_byte, byte_masks}
use m99_riscv_emulator.Memory.Word.{
  word, index_of, bit_and_three, read32_base, write32_base, stored, word-stored, word-fresh,
}

-- A property of the four places in a word.
pub four {ℓ} : (P : ℕ → Type ℓ) → P 0 → P 1 → P 2 → P 3 → (b : ℕ) → b < 4 → P b
four P p q r s zero h = p
four P p q r s (suc zero) h = q
four P p q r s (suc (suc zero)) h = r
four P p q r s (suc (suc (suc zero))) h = s
four P p q r s (suc (suc (suc (suc b)))) h = absurd (omega arith)

unfoldable pub byte : MemoryWrapper → ℕ → ℕ
byte m i = word m (index_of i) / 2 ^ (i % 4 * 8) % 2 ^ 8

-- The same byte, by its word and its place there.
pub byte_of :
    (m : MemoryWrapper) (i k r : ℕ)
    → index_of i ≡ k
    → i % 4 ≡ r
    → byte m i ≡ word m k / 2 ^ (r * 8) % 2 ^ 8
unfolding byte
byte_of m i k r e f = ap₂ (λ (s t : ℕ). word m s / 2 ^ (t * 8) % 2 ^ 8) e f

-- Every word fits 32 digits, as the vectors' element type has it.
abbrev pub IsWords : MemoryWrapper → Type 0
IsWords m = (k : ℕ) → word m k < 2 ^ 32

pub fresh-IsWords : IsWords fresh
fresh-IsWords k = rw (word-fresh k) (omega arith)

pub stored-IsWords :
    (m : MemoryWrapper) (k value : ℕ) → IsWords m → value < 2 ^ 32 → IsWords (stored m k value)
stored-IsWords m k value h fits j = ground (arith, word-stored m k value j, h j)

-- A byte read never fails.
pub read_byte_lem : (m : MemoryWrapper) (i : ℕ) → read_byte m i ≡ some (byte m i)
unfolding read_byte byte
read_byte_lem m i =
    rw (read32_base, bit_and_three, bit_and_mask 8 (word m (index_of i) / 2 ^ (i % 4 * 8)))
      (ap some (omega arith))

pub set_byte : ℕ → ℕ → ℕ → ℕ
set_byte w b d = (w / 2 ^ (b * 8) / 2 ^ 8 * 2 ^ 8 + d) * 2 ^ (b * 8) + w % 2 ^ (b * 8)

byte_mask_checked :
    all_below 4 (λ b.
      get_or byte_masks b 0 == (2 ^ (24 - b * 8) - 1) * 2 ^ 8 * 2 ^ (b * 8) + (2 ^ (b * 8) - 1))
    ≡ true
unfolding all_below byte_masks
byte_mask_checked = refl

set_byte-lt : (w d b : ℕ) → w < 2 ^ 32 → d < 2 ^ 8 → b < 4 → set_byte w b d < 2 ^ 32
unfolding set_byte
set_byte-lt w d b hw hd hb =
    four (λ b. (w / 2 ^ (b * 8) / 2 ^ 8 * 2 ^ 8 + d) * 2 ^ (b * 8) + w % 2 ^ (b * 8) < 2 ^ 32)
      (omega arith) (omega arith) (omega arith) (omega arith) b hb

written :
    (w d b : ℕ)
    → w < 2 ^ 32
    → d < 2 ^ 8
    → b < 4
    → u32 (bit_or (bit_and w (get_or byte_masks b 0)) (u64 (d <<< (b * 8)))) ≡ set_byte w b d
unfolding set_byte
written w d b hw hd hb =
    rw (shifted, (==_iff _ _).0 (all_below_sound 4 _ b byte_mask_checked hb))
      (rw
        (replace_field (24 - b * 8) 8 (b * 8) w d
          (let e : 24 - b * 8 + 8 + b * 8 ≡ 32 = omega arith in rw e hw) hd)
        (mod-eq_of_lt (set_byte-lt w d b hw hd hb)))
  where
    shifted : u64 (d <<< (b * 8)) ≡ d * 2 ^ (b * 8)
    shifted =
        four (λ b. u64 (d <<< (b * 8)) ≡ d * 2 ^ (b * 8)) (omega arith) (omega arith) (omega arith)
          (omega arith) b hb

-- Byte `c` of a word whose byte `b` was replaced.
module _ (w d : ℕ) (hd : d < 2 ^ 8) where
  Replaced : ℕ → ℕ → Type 0
  Replaced b c =
      set_byte w b d / 2 ^ (c * 8) % 2 ^ 8 ≡ (if c == b then d else w / 2 ^ (c * 8) % 2 ^ 8)

  byte_zero : (c : ℕ) → c < 4 → Replaced 0 c
  unfolding Replaced set_byte
  byte_zero c hc =
      four (λ c. Replaced 0 c) (omega arith) (omega arith) (omega arith) (omega arith) c hc

  byte_one : (c : ℕ) → c < 4 → Replaced 1 c
  unfolding Replaced set_byte
  byte_one c hc =
      four (λ c. Replaced 1 c) (omega arith) (omega arith) (omega arith) (omega arith) c hc

  byte_two : (c : ℕ) → c < 4 → Replaced 2 c
  unfolding Replaced set_byte
  byte_two c hc =
      four (λ c. Replaced 2 c) (omega arith) (omega arith) (omega arith) (omega arith) c hc

  byte_three : (c : ℕ) → c < 4 → Replaced 3 c
  unfolding Replaced set_byte
  byte_three c hc =
      four (λ c. Replaced 3 c) (omega arith) (omega arith) (omega arith) (omega arith) c hc

  pub get-set_byte :
      (b c : ℕ)
      → b < 4
      → c < 4
      → set_byte w b d / 2 ^ (c * 8) % 2 ^ 8 ≡ (if c == b then d else w / 2 ^ (c * 8) % 2 ^ 8)
  unfolding Replaced
  get-set_byte b c hb hc =
      four (λ b. Replaced b c) (byte_zero c hc) (byte_one c hc) (byte_two c hc) (byte_three c hc) b
        hb

pub write_byte_lem :
    (m : MemoryWrapper) (i d : ℕ)
    → IsWords m
    → d < 2 ^ 8
    → write_byte m i d ≡ some (stored m (index_of i) (set_byte (word m (index_of i)) (i % 4) d))
unfolding write_byte
write_byte_lem m i d h hd =
    rw (read32_base, write32_base, bit_and_three)
      (ap (λ (t : ℕ). some (stored m (index_of i) t))
        (written (word m (index_of i)) d (i % 4) (h (index_of i)) hd (omega arith)))

pub byte-stored :
    (m : MemoryWrapper) (i d j : ℕ)
    → d < 2 ^ 8
    → byte (stored m (index_of i) (set_byte (word m (index_of i)) (i % 4) d)) j
      ≡ (if j % 2 ^ 32 == i % 2 ^ 32 then d else byte m j)
unfolding byte
byte-stored m i d j hd = elim (Bool-cases (index_of j == index_of i)) [
  | inl same ↦
      let e : index_of j ≡ index_of i = (==_iff _ _).0 same in
      rw
        (
          word-stored m (index_of i) (set_byte (word m (index_of i)) (i % 4) d) (index_of j),
          same,
          get-set_byte (word m (index_of i)) d hd (i % 4) (j % 4) (omega arith) (omega arith),
        )
        (ground arith)
  | inr apart ↦
      rw (word-stored m (index_of i) (set_byte (word m (index_of i)) (i % 4) d) (index_of j), apart)
        (ground arith)
]

pub byte-lt : (m : MemoryWrapper) (i : ℕ) → byte m i < 2 ^ 8
unfolding byte
byte-lt m i = omega arith

-- A byte write succeeds, keeps the memory one of words, and changes one byte.
pub write_byte_total :
    (m : MemoryWrapper) (i d : ℕ)
    → IsWords m
    → d < 2 ^ 8
    → (m' : MemoryWrapper) × (write_byte m i d ≡ some m')
      × IsWords m'
      × ((j : ℕ) → byte m' j ≡ (if j % 2 ^ 32 == i % 2 ^ 32 then d else byte m j))
write_byte_total m i d h hd = (
  stored m (index_of i) (set_byte (word m (index_of i)) (i % 4) d),
  write_byte_lem m i d h hd,
  stored-IsWords m (index_of i) (set_byte (word m (index_of i)) (i % 4) d) h
      (set_byte-lt (word m (index_of i)) d (i % 4) (h (index_of i)) hd (omega arith)),
  λ j. byte-stored m i d j hd,
)

-- In a memory of words, reading any byte after writing a byte `d`: `d` at the same address modulo
-- 2 ^ 32, and any other byte as it was. The write does not fail.
pub read_byte-write_byte :
    (m : MemoryWrapper) (i d j : ℕ)
    → IsWords m
    → d < 2 ^ 8
    → (write_byte m i d >>= λ m'. read_byte m' j)
      ≡ (if j % 2 ^ 32 == i % 2 ^ 32 then some d else read_byte m j)
read_byte-write_byte m i d j h hd =
    rw (write_byte_lem m i d h hd, read_byte_lem, read_byte_lem, byte-stored m i d j hd)
      (ground arith)
