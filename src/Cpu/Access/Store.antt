-- ===== src/Cpu/Access/Store.antt =====
-- `StoreWd` against the bytes of the memory.
use mathlib.Core.Path.{subst}
use m99_riscv_emulator.Prelude.{
  ℕ, zero, suc, ◌+◌, ◌-◌, ◌*◌, ◌/◌, ◌%◌, ◌^◌, ◌<◌, ◌≤◌, ◌≡◌, ◌≢◌, refl, sym, ◌∙◌, ap, ap₂, arith,
  Bool, true, false, ◌&&◌, Option, some, bit_and, leb, ◌==◌, ==_iff, if◌then◌else◌, u32, u64, ◌>>>◌,
}
use m99_riscv_emulator.Prelude.Options.{bind_to, some_injective}
use m99_riscv_emulator.Prelude.Bits.{bit_and_mask}
use m99_riscv_emulator.Memory.{MemoryWrapper, write_byte, write32, write64}
use m99_riscv_emulator.Memory.Word.{index_of, stored, write32_total, word-stored}
use m99_riscv_emulator.Memory.Bytes.{four, byte, IsWords, stored-IsWords, write_byte_total}
use m99_riscv_emulator.Memory.Wide.{next_word, write64_lem}
use m99_riscv_emulator.Cpu.Access.{store_bytes, store_wd}
use m99_riscv_emulator.Cpu.Access.Load.{aligned_test, in_range}

-- Digit `k` of a number.
abbrev pub digit : ℕ → ℕ → ℕ
digit v k = v / 2 ^ (k * 8) % 2 ^ 8

-- A memory whose bytes `first` to `last` from `a` on are the digits of `v`, and whose others are
-- those of the old one.
pub record Wrote (m : MemoryWrapper) (a v first last : ℕ) (m' : MemoryWrapper) : Type 0 where
  pub words : IsWords m'
  pub inside : (k : ℕ) → first ≤ k → k < last → byte m' (a + k) ≡ digit v k
  pub outside :
      (j : ℕ)
      → ((k : ℕ) → first ≤ k → k < last → j % 2 ^ 32 ≢ (a + k) % 2 ^ 32)
      → byte m' j ≡ byte m j

-- One byte more at the low end.
write_below :
    (m m1 m2 : MemoryWrapper) (a v first last : ℕ)
    → last ≤ 8
    → ((j : ℕ)
        → byte m1 j ≡ (if j % 2 ^ 32 == u64 (a + first) % 2 ^ 32 then digit v first else byte m j))
    → Wrote m1 a v (suc first) last m2
    → first < last
    → Wrote m a v first last m2
write_below m m1 m2 a v first last few changed wrote some' = record {
  words = wrote.words;
  inside = λ k low high. by_place k low high (k == first) refl;
  outside = λ j apart.
      wrote.outside j (λ k low high. apart k (omega arith) high)
      ∙ ground (arith, changed j, apart first (omega arith) some');
}
  where
    lowest : byte m2 (a + first) ≡ digit v first
    lowest =
        wrote.outside (a + first) (λ k low high e. omega arith)
        ∙ ground (arith, changed (a + first))

    by_place :
        (k : ℕ) → first ≤ k → k < last → (t : Bool) → (k == first) ≡ t → byte m2 (a + k) ≡ digit v k
    by_place k low high true e = let same : k ≡ first = (==_iff _ _).0 e in rw same lowest
    by_place k low high false e = wrote.inside k (ground (arith, e)) high

store_bytes_lem :
    (m : MemoryWrapper) (a v n offset : ℕ)
    → IsWords m
    → offset + n ≤ 8
    → (m' : MemoryWrapper) × (store_bytes m a v n offset ≡ some m')
      × Wrote m a v offset (offset + n) m'
unfolding store_bytes
store_bytes_lem m a v zero offset h few = (
  m,
  refl,
  record { words = h; inside = λ k low high. absurd (omega arith); outside = λ j apart. refl },
)
store_bytes_lem m a v (suc n) offset h few =
    let d : bit_and (v >>> (offset * 8)) 0xFF ≡ digit v offset =
      bit_and_mask 8 (v / 2 ^ (offset * 8)) in
    let (m1, made, words, changed) =
      write_byte_total m (u64 (a + offset)) (digit v offset) h (omega arith) in
    let (m2, rest, wrote) = store_bytes_lem m1 a v n (suc offset) words (omega arith) in
    let range : suc offset + n ≡ offset + suc n = omega arith in
    (
      m2,
      bind_to _ (ap (write_byte m (u64 (a + offset))) d ∙ made) rest,
      write_below m m1 m2 a v offset (offset + suc n) few changed
          (subst (λ (last : ℕ). Wrote m1 a v (suc offset) last m2) range wrote) (omega arith),
    )

-- The bytes of a memory in which a word was stored.
byte-stored_word :
    (m : MemoryWrapper) (k w j : ℕ)
    → byte (stored m k w) j ≡ (if index_of j == k then w / 2 ^ (j % 4 * 8) % 2 ^ 8 else byte m j)
unfolding byte
byte-stored_word m k w j = rw (word-stored m k w (index_of j)) (ground arith)

store_word :
    (m : MemoryWrapper) (a v : ℕ)
    → IsWords m
    → a % 4 ≡ 0
    → (m' : MemoryWrapper) × (write32 m a (u32 v) ≡ some m') × Wrote m a v 0 4 m'
store_word m a v h aligned = (
  stored m (index_of a) (u32 v),
  write32_total m a (u32 v) aligned,
  record {
    words = stored-IsWords m (index_of a) (u32 v) h (omega arith);
    inside = λ k low high. byte-stored_word m (index_of a) (u32 v) (a + k) ∙ in_word k high;
    outside = λ j apart.
        byte-stored_word m (index_of a) (u32 v) j
        ∙ off_word j apart (index_of j == index_of a) refl;
  },
)
  where
    in_word :
        (k : ℕ)
        → k < 4
        → (if index_of (a + k) == index_of a
            then u32 v / 2 ^ ((a + k) % 4 * 8) % 2 ^ 8
            else byte m (a + k))
          ≡ digit v k
    in_word k high =
        let place : (a + k) % 4 ≡ k = omega arith in
        let index : index_of (a + k) ≡ index_of a = omega arith in
        rw (index, place)
          (ground (
            arith,
            four (λ (k : ℕ). u32 v / 2 ^ (k * 8) % 2 ^ 8 ≡ digit v k) (omega arith) (omega arith)
                (omega arith) (omega arith) k high,
          ))

    off_word :
        (j : ℕ)
        → ((k : ℕ) → 0 ≤ k → k < 4 → j % 2 ^ 32 ≢ (a + k) % 2 ^ 32)
        → (t : Bool) → (index_of j == index_of a) ≡ t
        → (if index_of j == index_of a then u32 v / 2 ^ (j % 4 * 8) % 2 ^ 8 else byte m j)
          ≡ byte m j
    off_word j apart true e =
        let same : index_of j ≡ index_of a = (==_iff _ _).0 e in
        absurd (apart (j % 4) (omega arith) (omega arith) (omega arith))
    off_word j apart false e = rw e refl

store_double :
    (m : MemoryWrapper) (a v : ℕ)
    → IsWords m
    → a % 8 ≡ 0
    → (m' : MemoryWrapper) × (write64 m a v ≡ some m') × Wrote m a v 0 8 m'
store_double m a v h aligned =
    let (m1, made, lower) = store_word m a v h (omega arith) in
    let (m2, next, upper) = store_word m1 (a + 4) (v / 2 ^ 32) lower.words (omega arith) in
    let index : index_of (a + 4) ≡ next_word a = omega arith in
    let one : stored m (index_of a) (u32 v) ≡ m1 =
      some_injective (sym (write32_total m a (u32 v) (omega arith)) ∙ made) in
    let two : stored m1 (index_of (a + 4)) (u32 (v / 2 ^ 32)) ≡ m2 =
      some_injective (sym (write32_total m1 (a + 4) (u32 (v / 2 ^ 32)) (omega arith)) ∙ next) in
    (
      m2,
      whole
          ∙ ap some (
              ap₂ (λ (s : MemoryWrapper) (k : ℕ). stored s k (u32 (v / 2 ^ 32))) one (sym index)
              ∙ two),
      record {
        words = upper.words;
        inside = λ k low high. by_half m1 m2 lower upper k high (leb 4 k) refl;
        outside = λ j apart.
            upper.outside j
              (λ k low high e. apart (k + 4) (omega arith) (omega arith) (omega arith))
            ∙ lower.outside j (λ k low high. apart k (omega arith) (omega arith));
      },
    )
  where
    whole :
        write64 m a v
        ≡ some (stored (stored m (index_of a) (u32 v)) (next_word a) (u32 (v / 2 ^ 32)))
    whole = write64_lem m a v ∙ rw aligned refl

    shifted : (k : ℕ) → k < 4 → digit (v / 2 ^ 32) k ≡ digit v (k + 4)
    shifted k high =
        four (λ (k : ℕ). digit (v / 2 ^ 32) k ≡ digit v (k + 4)) (omega arith) (omega arith)
          (omega arith) (omega arith) k high

    by_half :
        (m1 m2 : MemoryWrapper)
        → Wrote m a v 0 4 m1
        → Wrote m1 (a + 4) (v / 2 ^ 32) 0 4 m2
        → (k : ℕ) → k < 8
        → (t : Bool) → leb 4 k ≡ t
        → byte m2 (a + k) ≡ digit v k
    by_half m1 m2 lower upper k high true e =
        let split : k ≡ k - 4 + 4 = ground arith in
        let place : a + k ≡ a + 4 + (k - 4) = ground arith in
        ap (byte m2) place
        ∙ upper.inside (k - 4) (omega arith) (omega arith)
        ∙ shifted (k - 4) (omega arith)
        ∙ ap (digit v) (sym split)
    by_half m1 m2 lower upper k high false e =
        let low : k < 4 = ground arith in
        upper.outside (a + k) (λ i least most apart. omega arith) ∙ lower.inside k (omega arith) low

-- In a memory of words, a store of 1 to 8 bytes at any address, aligned or not, succeeds and leaves a
-- memory of words. The bytes from that address on are those of the value, the lowest first, and every
-- byte at another address modulo 2 ^ 32 is as it was.
pub store_wd_lem :
    (m : MemoryWrapper) (a v width : ℕ)
    → IsWords m
    → 1 ≤ width
    → width ≤ 8
    → (m' : MemoryWrapper) × (store_wd m a v width ≡ some m') × Wrote m a v 0 width m'
store_wd_lem m a v width h one few =
    by_word (width == 4 && bit_and a 0b11 == 0) refl (width == 8 && bit_and a 0b111 == 0) refl
  where
    start :
        {o : Option MemoryWrapper} {m' : MemoryWrapper}
        → (if width == 4 && bit_and a 0b11 == 0
            then write32 m a (u32 v)
            else if width == 8 && bit_and a 0b111 == 0
            then write64 m a v
            else store_bytes m a v width 0)
          ≡ o
        → o ≡ some m'
        → store_wd m a v width ≡ some m'
    start e made = unfold store_wd in bind_to _ (in_range width one few) (e ∙ made)

    by_word :
        (s : Bool)
        → (width == 4 && bit_and a 0b11 == 0) ≡ s
        → (t : Bool) → (width == 8 && bit_and a 0b111 == 0) ≡ t
        → (m' : MemoryWrapper) × (store_wd m a v width ≡ some m') × Wrote m a v 0 width m'
    by_word true e t f =
        let (four', aligned) = aligned_test width a 2 4 e in
        let (m', made, wrote) = store_word m a v h aligned in
        (m', start (rw e refl) made, subst (λ (w : ℕ). Wrote m a v 0 w m') (sym four') wrote)
    by_word false e true f =
        let (eight, aligned) = aligned_test width a 3 8 f in
        let (m', made, wrote) = store_double m a v h aligned in
        (m', start (rw (e, f) refl) made, subst (λ (w : ℕ). Wrote m a v 0 w m') (sym eight) wrote)
    by_word false e false f =
        let (m', made, wrote) = store_bytes_lem m a v width 0 h (omega arith) in
        let range : 0 + width ≡ width = omega arith in
        (m', start (rw (e, f) refl) made, subst (λ (w : ℕ). Wrote m a v 0 w m') range wrote)
