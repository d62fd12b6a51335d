-- ===== src/Memory/Half.antt =====
-- The 16-bit accesses against bytes.
use native.Mathlib.Nat.{mod-eq_of_lt}
use m99_riscv_emulator.Prelude.{
  ℕ, zero, suc, ◌+◌, ◌*◌, ◌/◌, ◌%◌, ◌^◌, ◌<◌, ◌≡◌, ap, arith, none, some, bit_and, bit_or, ◌==◌,
  ==_iff, Bool-cases, inl, inr, if◌then◌else◌, ◌>>=◌, u32, ◌<<<◌,
}
use m99_riscv_emulator.Prelude.Tables.{get_or}
use m99_riscv_emulator.Prelude.Bits.{bit_and_mask, replace_field}
use m99_riscv_emulator.Memory.{MemoryWrapper, read16, write16, half_masks, read_byte}
use m99_riscv_emulator.Memory.Word.{
  word, index_of, bit_and_three, read32_base, write32_base, stored, word-stored,
}
use m99_riscv_emulator.Memory.Bytes.{four, byte, byte_of, read_byte_lem, IsWords}

-- A halfword is two bytes, the lowest first; a read that is not aligned fails its assertion.
read16_bytes :
    (m : MemoryWrapper) (i : ℕ)
    → read16 m i ≡ (if i % 2 == 0 then some (byte m i + byte m (i + 1) * 2 ^ 8) else none)
unfolding read16
read16_bytes m i =
    rw
      (
        bit_and_mask 1 i,
        read32_base,
        bit_and_three,
        bit_and_mask 16 (word m (index_of i) / 2 ^ (i % 4 * 8)),
      )
      (elim (Bool-cases (i % 2 == 0)) [
        | inl aligned ↦ rw aligned (ap some (half ((==_iff _ _).0 aligned)))
        | inr apart ↦ rw apart
      ])
  where
    half :
        i % 2 ≡ 0
        → word m (index_of i) / 2 ^ (i % 4 * 8) % 2 ^ 16 % 2 ^ 16
          ≡ byte m i + byte m (i + 1) * 2 ^ 8
    half e = elim (Bool-cases (i % 4 == 0)) [
      | inl low ↦
          let f : i % 4 ≡ 0 = (==_iff _ _).0 low in
          rw f (
            omega (
              arith,
              byte_of m i (index_of i) 0 (omega arith) f,
              byte_of m (i + 1) (index_of i) 1 (omega arith) (omega arith),
            ))
      | inr high ↦
          let f : i % 4 ≡ 2 = ground arith in
          rw f (
            omega (
              arith,
              byte_of m i (index_of i) 2 (omega arith) f,
              byte_of m (i + 1) (index_of i) 3 (omega arith) (omega arith),
            ))
    ]

pub set_half : ℕ → ℕ → ℕ → ℕ
set_half w s d = (w / 2 ^ (s * 16) / 2 ^ 16 * 2 ^ 16 + d) * 2 ^ (s * 16) + w % 2 ^ (s * 16)

written :
    (w d s : ℕ)
    → w < 2 ^ 32
    → d < 2 ^ 16
    → s < 2
    → bit_or (bit_and w (u32 (get_or half_masks s 0))) (u32 (d <<< (s * 16))) ≡ set_half w s d
unfolding set_half half_masks
written w d zero hw hd hs =
    rw (mod-eq_of_lt {n = d * 1} {m = 2 ^ 32} (omega arith)) (replace_field 16 16 0 w d hw hd)
written w d (suc zero) hw hd hs =
    rw (mod-eq_of_lt {n = d * 2 ^ 16} {m = 2 ^ 32} (omega arith)) (replace_field 0 16 16 w d hw hd)
written w d (suc (suc s)) hw hd hs = absurd (omega arith)

pub write16_lem :
    (m : MemoryWrapper) (i d : ℕ)
    → IsWords m
    → d < 2 ^ 16
    → write16 m i d ≡ (
        if i % 2 == 0
        then some (stored m (index_of i) (set_half (word m (index_of i)) (i / 2 % 2) d))
        else none)
unfolding write16
write16_lem m i d h hd =
    rw
      (
        bit_and_mask 1 i,
        read32_base,
        write32_base,
        bit_and_mask 1 (i / 2),
        written (word m (index_of i)) d (i / 2 % 2) (h (index_of i)) hd (omega arith),
      )
      (ground arith)

module _ (w d : ℕ) (hd : d < 2 ^ 16) where
  Halved : ℕ → ℕ → Type 0
  Halved s c = set_half w s d / 2 ^ (c * 8) % 2 ^ 8 ≡ (
      if c == s * 2
      then d % 2 ^ 8
      else if c == s * 2 + 1
      then d / 2 ^ 8
      else w / 2 ^ (c * 8) % 2 ^ 8)

  get-set_half : (s c : ℕ) → s < 2 → c < 4 → Halved s c
  unfolding Halved set_half
  get-set_half zero c hs hc =
      four (λ c. Halved 0 c) (omega arith) (omega arith) (omega arith) (omega arith) c hc
  get-set_half (suc zero) c hs hc =
      four (λ c. Halved 1 c) (omega arith) (omega arith) (omega arith) (omega arith) c hc
  get-set_half (suc (suc s)) c hs hc = absurd (omega arith)

byte-set_half :
    (m : MemoryWrapper) (i d j : ℕ)
    → i % 2 ≡ 0
    → d < 2 ^ 16
    → byte (stored m (index_of i) (set_half (word m (index_of i)) (i / 2 % 2) d)) j ≡ (
        if j % 2 ^ 32 == i % 2 ^ 32
        then d % 2 ^ 8
        else if j % 2 ^ 32 == (i + 1) % 2 ^ 32
        then d / 2 ^ 8
        else byte m j)
unfolding byte Halved
byte-set_half m i d j even hd = elim (Bool-cases (index_of j == index_of i)) [
  | inl same ↦
      let e : index_of j ≡ index_of i = (==_iff _ _).0 same in
      rw
        (
          word-stored m (index_of i) (set_half (word m (index_of i)) (i / 2 % 2) d) (index_of j),
          same,
          get-set_half (word m (index_of i)) d hd (i / 2 % 2) (j % 4) (omega arith) (omega arith),
        )
        (ground arith)
  | inr apart ↦
      rw
        (
          word-stored m (index_of i) (set_half (word m (index_of i)) (i / 2 % 2) d) (index_of j),
          apart,
        )
        (ground arith)
]

-- In a memory of words, reading any byte after writing a halfword at an even address: its two
-- bytes, the lowest first, and every other byte as it was. At an odd address the write fails its assertion.
read_byte-write16 :
    (m : MemoryWrapper) (i d j : ℕ)
    → IsWords m
    → d < 2 ^ 16
    → (write16 m i d >>= λ m'. read_byte m' j) ≡ (
        if i % 2 == 0
        then if j % 2 ^ 32 == i % 2 ^ 32
          then some (d % 2 ^ 8)
          else if j % 2 ^ 32 == (i + 1) % 2 ^ 32
          then some (d / 2 ^ 8)
          else read_byte m j
        else none)
read_byte-write16 m i d j h hd = elim (Bool-cases (i % 2 == 0)) [
  | inl aligned ↦
      rw
        (
          write16_lem m i d h hd,
          aligned,
          read_byte_lem,
          read_byte_lem,
          byte-set_half m i d j ((==_iff _ _).0 aligned) hd,
        )
        (ground arith)
  | inr apart ↦ rw (write16_lem m i d h hd, apart)
]
