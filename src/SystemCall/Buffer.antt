-- ===== src/SystemCall/Buffer.antt =====
-- Buffers between the guest and the host, and strings in the guest's memory.
use mathlib.Core.List.{List, [], ◌∷◌}
use m99_riscv_emulator.Prelude.{
  ℕ, zero, suc, ◌+◌, ◌*◌, ◌/◌, ◌%◌, ◌^◌, ap₂, ◌<◌, ◌≤◌, ◌≡◌, ◌≢◌, ◌⊎◌, inl, inr, refl, sym, ◌∙◌, ap,
  arith, Bool, true, false, Bool-cases, Option, some, ◌>>=◌, ◌==◌, ==_iff, u64,
}
use m99_riscv_emulator.Prelude.Options.{bind_to}
use m99_riscv_emulator.Memory.{MemoryWrapper}
use m99_riscv_emulator.Memory.Word.{word}
use m99_riscv_emulator.Memory.Bytes.{byte, IsWords, write_byte_total, read_byte_lem}
use m99_riscv_emulator.SystemCall.{
  put_bytes, memory_wrapper_copy, memory_wrapper_strlen, strlen_loop,
}

-- Every entry is a byte.
unfoldable pub IsBytes : List ℕ → Type 0
IsBytes [] = Unit
IsBytes (b ∷ rest) = (b < 2 ^ 8) × IsBytes rest

unfoldable pub size : List ℕ → ℕ
size [] = 0
size (b ∷ rest) = suc (size rest)

-- What a buffer of fewer than 2 ^ 32 bytes leaves in memory: itself from `a` on, and the rest as it was.
pub put_bytes_lem :
    (m : MemoryWrapper) (a : ℕ) (buffer : List ℕ)
    → IsWords m
    → IsBytes buffer
    → size buffer ≤ 2 ^ 32
    → (m' : MemoryWrapper) × (put_bytes m a buffer ≡ some m')
      × IsWords m'
      × (memory_wrapper_copy m' a (size buffer) ≡ some buffer)
      × ((j : ℕ)
          → ((k : ℕ) → k < size buffer → j % 2 ^ 32 ≢ (a + k) % 2 ^ 32)
          → byte m' j ≡ byte m j)
unfolding IsBytes size put_bytes memory_wrapper_copy
put_bytes_lem m a [] h bytes few = (m, refl, h, refl, λ j apart. refl)
put_bytes_lem m a (b ∷ rest) h (fits, bytes) few =
    let (m1, made, words, changed) = write_byte_total m a b h fits in
    let (m2, put, words2, copied, kept) =
      put_bytes_lem m1 (u64 (a + 1)) rest words bytes (omega arith) in
    let first : byte m2 a ≡ b = kept a (λ k below e. omega arith) ∙ ground (arith, changed a) in
    (
      m2,
      bind_to _ made put,
      words2,
      bind_to _ (read_byte_lem m2 a) (bind_to _ copied (ap (λ (t : ℕ). some (t ∷ rest)) first)),
      λ j apart.
          kept j (λ k below e. apart (suc k) (omega arith) (omega arith))
          ∙ ground (arith, changed j, apart 0 (omega arith)),
    )

byte_step : (m : MemoryWrapper) (a k : ℕ) → byte m (u64 (a + 1) + k) ≡ byte m (a + suc k)
unfolding byte
byte_step m a k = ap₂ (λ (s t : ℕ). word m s / 2 ^ (t * 8) % 2 ^ 8) (omega arith) (omega arith)

byte_start : (m : MemoryWrapper) (a : ℕ) → byte m (a + 0) ≡ byte m a
byte_start m a = let e : a + 0 ≡ a = omega arith in ap (byte m) e

-- The length of the string at `a`, cut at `max'`.
pub record IsLength (m : MemoryWrapper) (a max' n : ℕ) : Type 0 where
  pub few : n ≤ max'
  pub before : (k : ℕ) → k < n → byte m (a + k) ≢ 0
  pub stop : (n ≡ max') ⊎ (byte m (a + n) ≡ 0)

longer :
    (m : MemoryWrapper) (a max' n : ℕ)
    → byte m a ≢ 0
    → IsLength m (u64 (a + 1)) max' n
    → IsLength m a (suc max') (suc n)
longer m a max' n some' rest = record {
  few = omega (arith, rest.few);
  before = λ k below. by_place k below;
  stop = elim rest.stop [ inl e ↦ inl (ap suc e) | inr e ↦ inr (sym (byte_step m a n) ∙ e) ];
}
  where
    by_place : (k : ℕ) → k < suc n → byte m (a + k) ≢ 0
    by_place zero below e = some' (sym (byte_start m a) ∙ e)
    by_place (suc k) below e = rest.before k (omega arith) (byte_step m a k ∙ e)

-- One round of the loop.
strlen_round : MemoryWrapper → ℕ → ℕ → Bool → Option ℕ
strlen_round m a n z = elim z [
  | true ↦ some 0
  | false ↦ strlen_loop m (u64 (a + 1)) n >>= λ counter. some (suc counter)
]

strlen_first :
    (m : MemoryWrapper) (a n : ℕ) → strlen_loop m a (suc n) ≡ strlen_round m a n (byte m a == 0)
unfolding strlen_loop strlen_round
strlen_first m a n = bind_to _ (read_byte_lem m a) refl

strlen_loop_lem :
    (m : MemoryWrapper) (a max' : ℕ)
    → (n : ℕ) × (strlen_loop m a max' ≡ some n) × IsLength m a max' n
unfolding strlen_loop strlen_round
strlen_loop_lem m a zero = (
  0,
  bind_to _ (read_byte_lem m a) refl,
  record { few = omega arith; before = λ k below e. omega arith; stop = inl refl },
)
strlen_loop_lem m a (suc max') =
    let (n, found, rest) = strlen_loop_lem m (u64 (a + 1)) max' in
    elim (Bool-cases (byte m a == 0)) [
      | inl e ↦ (
        0,
        strlen_first m a max' ∙ ap (strlen_round m a max') e,
        record {
          few = omega arith;
          before = λ k below e. omega arith;
          stop = inr (byte_start m a ∙ (==_iff _ _).0 e);
        },
      )
      | inr e ↦ (
        suc n,
        strlen_first m a max' ∙ ap (strlen_round m a max') e ∙ bind_to _ found refl,
        longer m a max' n (ground (arith, e)) rest,
      )
    ]

-- `MemoryWrapperStrlen` always returns: a length of at most `max`, before which no byte is zero, and
-- at which the string ends, unless the length is `max`.
pub memory_wrapper_strlen_lem :
    (m : MemoryWrapper) (a max' : ℕ)
    → (n : ℕ) × (memory_wrapper_strlen m a max' ≡ some n) × IsLength m a max' n
unfolding memory_wrapper_strlen
memory_wrapper_strlen_lem m a max' = strlen_loop_lem m a max'
