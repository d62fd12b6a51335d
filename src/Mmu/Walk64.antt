-- ===== src/Mmu/Walk64.antt =====
-- The three-level walk over 64-bit entries: it ends at every table, and reads only where it may.
use m99_riscv_emulator.Prelude.{
  ℕ, zero, suc, ◌+◌, ◌*◌, ◌%◌, ◌^◌, ◌≤◌, ◌<◌, ◌≡◌, ◌∙◌, arith, true, ◌&&◌, some, ◌>>=◌, Bool-cases,
  inl, inr,
}
use m99_riscv_emulator.Memory.{MemoryWrapper, read64}
use m99_riscv_emulator.Memory.Word.{word, index_of}
use m99_riscv_emulator.Memory.Bytes.{IsWords}
use m99_riscv_emulator.Memory.Wide.{read64_lem, next_word}
use m99_riscv_emulator.Pte.Pte64
use m99_riscv_emulator.Mmu.{WalkEnd, fault, leaf, walk64, pte_address64}

-- A leaf that a walk from `top` may end at: an aligned entry of the memory, valid and a leaf.
pub record IsLeaf64 (m : MemoryWrapper) (top level pte pte_address : ℕ) : Type 0 where
  pub level_le : level ≤ top
  pub aligned : pte_address % 8 ≡ 0
  pub holds : read64 m pte_address ≡ some pte
  pub fits : pte < 2 ^ 64
  pub valid : Pte64.is_valid pte ≡ true
  pub is_leaf : Pte64.is_leaf pte ≡ true

abbrev pub Ends64 : MemoryWrapper → ℕ → WalkEnd → Type 0
Ends64 m top fault = Unit
Ends64 m top (leaf level pte pte_address) = IsLeaf64 m top level pte pte_address

doubleword :
    (m : MemoryWrapper) (a : ℕ)
    → IsWords m
    → a % 8 ≡ 0
    → (v : ℕ) × (read64 m a ≡ some v) × (v < 2 ^ 64)
doubleword m a h e = (
  word m (next_word a) * 2 ^ 32 + word m (index_of a),
  read64_lem m a h ∙ rw e,
  omega (arith, h (next_word a), h (index_of a)),
)

module _ (m : MemoryWrapper) (vpn : ℕ → ℕ) (h : IsWords m) where
  Total64 : ℕ → ℕ → Type 0
  Total64 top ppn = (e : WalkEnd) × (walk64 m vpn top ppn ≡ some e) × Ends64 m top e

  last64 : (ppn v : ℕ) → read64 m (pte_address64 vpn 0 ppn) ≡ some v → v < 2 ^ 64 → Total64 0 ppn
  unfolding Total64 walk64
  last64 ppn v e l = elim (Bool-cases (Pte64.is_valid v && Pte64.is_leaf v)) [
    | inr bad ↦ (fault, rw (e, bad), tt)
    | inl good ↦ (
      leaf 0 v (pte_address64 vpn 0 ppn),
      rw (e, good),
      record {
        level_le = omega arith;
        aligned = omega arith;
        holds = e;
        fits = l;
        valid = ground arith;
        is_leaf = ground arith;
      },
    )
  ]

  step64 :
      (top ppn v : ℕ)
      → read64 m (pte_address64 vpn (suc top) ppn) ≡ some v
      → v < 2 ^ 64
      → Total64 top (Pte64.get_ppn v)
      → Total64 (suc top) ppn
  unfolding Total64 walk64
  step64 top ppn v e l (rest, ends, ok) = elim (Bool-cases (Pte64.is_valid v)) [
    | inr bad ↦ (fault, rw (e, ◌>>=◌) (ground arith), tt)
    | inl good ↦ elim (Bool-cases (Pte64.is_leaf v)) [
      | inl end ↦ (
        leaf (suc top) v (pte_address64 vpn (suc top) ppn),
        rw (e, ◌>>=◌) (ground arith),
        record {
          level_le = omega arith;
          aligned = omega arith;
          holds = e;
          fits = l;
          valid = good;
          is_leaf = end;
        },
      )
      | inr more ↦ (rest, rw (e, ◌>>=◌) (ground arith), deeper rest ok)
    ]
  ]
    where
      deeper : (e : WalkEnd) → Ends64 m top e → Ends64 m (suc top) e
      deeper fault ok = tt
      deeper (leaf level pte a) ok = record {
        level_le = omega arith;
        aligned = ok.aligned;
        holds = ok.holds;
        fits = ok.fits;
        valid = ok.valid;
        is_leaf = ok.is_leaf;
      }

  -- The walk comes to an end, with no failed assertion.
  pub walk64_total :
      (top ppn : ℕ) → (e : WalkEnd) × (walk64 m vpn top ppn ≡ some e) × Ends64 m top e
  unfolding Total64
  walk64_total zero ppn =
      let (v, e, l) = doubleword m (pte_address64 vpn 0 ppn) h (omega arith) in last64 ppn v e l
  walk64_total (suc top) ppn =
      let (v, e, l) = doubleword m (pte_address64 vpn (suc top) ppn) h (omega arith) in
      step64 top ppn v e l (walk64_total top (Pte64.get_ppn v))
