-- ===== src/Mmu/Walk32.antt =====
-- The two-level walk over 32-bit entries: it ends at every table, and reads only where it may.
use m99_riscv_emulator.Prelude.{
  ℕ, zero, suc, ◌%◌, ◌^◌, ◌≤◌, ◌<◌, ◌≡◌, ◌∙◌, arith, true, ◌&&◌, some, ◌>>=◌, Bool-cases, inl, inr,
}
use m99_riscv_emulator.Memory.{MemoryWrapper, read32}
use m99_riscv_emulator.Memory.Word.{word, index_of, read32_lem}
use m99_riscv_emulator.Memory.Bytes.{IsWords}
use m99_riscv_emulator.Pte.Pte32
use m99_riscv_emulator.Mmu.{WalkEnd, fault, leaf, walk32, pte_address32}

-- A leaf that a walk from `top` may end at: an aligned entry of the memory, valid and a leaf.
pub record IsLeaf32 (m : MemoryWrapper) (top level pte pte_address : ℕ) : Type 0 where
  pub level_le : level ≤ top
  pub aligned : pte_address % 4 ≡ 0
  pub holds : read32 m pte_address ≡ some pte
  pub fits : pte < 2 ^ 32
  pub valid : Pte32.is_valid pte ≡ true
  pub is_leaf : Pte32.is_leaf pte ≡ true

abbrev pub Ends32 : MemoryWrapper → ℕ → WalkEnd → Type 0
Ends32 m top fault = Unit
Ends32 m top (leaf level pte pte_address) = IsLeaf32 m top level pte pte_address

entry :
    (m : MemoryWrapper) (a : ℕ)
    → IsWords m
    → a % 4 ≡ 0
    → (v : ℕ) × (read32 m a ≡ some v) × (v < 2 ^ 32)
entry m a h e = (word m (index_of a), read32_lem m a ∙ rw e, h (index_of a))

module _ (m : MemoryWrapper) (vpn : ℕ → ℕ) (h : IsWords m) where
  Total32 : ℕ → ℕ → Type 0
  Total32 top ppn = (e : WalkEnd) × (walk32 m vpn top ppn ≡ some e) × Ends32 m top e

  last32 : (ppn v : ℕ) → read32 m (pte_address32 ppn (vpn 0)) ≡ some v → v < 2 ^ 32 → Total32 0 ppn
  unfolding Total32 walk32
  last32 ppn v e l = elim (Bool-cases (Pte32.is_valid v && Pte32.is_leaf v)) [
    | inr bad ↦ (fault, rw (e, bad), tt)
    | inl good ↦ (
      leaf 0 v (pte_address32 ppn (vpn 0)),
      rw (e, good),
      record {
        level_le = omega arith;
        aligned = omega arith;
        holds = e;
        fits = l;
        valid = ground arith;
        is_leaf = ground arith;
      },
    )
  ]

  step32 :
      (top ppn v : ℕ)
      → read32 m (pte_address32 ppn (vpn (suc top))) ≡ some v
      → v < 2 ^ 32
      → Total32 top (Pte32.get_ppn v)
      → Total32 (suc top) ppn
  unfolding Total32 walk32
  step32 top ppn v e l (rest, ends, ok) = elim (Bool-cases (Pte32.is_valid v)) [
    | inr bad ↦ (fault, rw (e, ◌>>=◌) (ground arith), tt)
    | inl good ↦ elim (Bool-cases (Pte32.is_leaf v)) [
      | inl end ↦ (
        leaf (suc top) v (pte_address32 ppn (vpn (suc top))),
        rw (e, ◌>>=◌) (ground arith),
        record {
          level_le = omega arith;
          aligned = omega arith;
          holds = e;
          fits = l;
          valid = good;
          is_leaf = end;
        },
      )
      | inr more ↦ (rest, rw (e, ◌>>=◌) (ground arith), deeper rest ok)
    ]
  ]
    where
      deeper : (e : WalkEnd) → Ends32 m top e → Ends32 m (suc top) e
      deeper fault ok = tt
      deeper (leaf level pte a) ok = record {
        level_le = omega arith;
        aligned = ok.aligned;
        holds = ok.holds;
        fits = ok.fits;
        valid = ok.valid;
        is_leaf = ok.is_leaf;
      }

  -- The walk comes to an end, with no failed assertion.
  pub walk32_total :
      (top ppn : ℕ) → (e : WalkEnd) × (walk32 m vpn top ppn ≡ some e) × Ends32 m top e
  unfolding Total32
  walk32_total zero ppn =
      let (v, e, l) = entry m (pte_address32 ppn (vpn 0)) h (omega arith) in last32 ppn v e l
  walk32_total (suc top) ppn =
      let (v, e, l) = entry m (pte_address32 ppn (vpn (suc top))) h (omega arith) in
      step32 top ppn v e l (walk32_total top (Pte32.get_ppn v))
