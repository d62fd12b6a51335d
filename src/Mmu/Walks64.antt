-- ===== src/Mmu/Walks64.antt =====
-- `walk64` against the walk through the tables of Sv39.
use mathlib.Core.Path.{subst}
use m99_riscv_emulator.Prelude.{
  ℕ, zero, suc, ◌/◌, ◌%◌, ◌^◌, ◌≤◌, ◌≡◌, refl, sym, ◌∙◌, ap, arith, Bool, true, false, some, ◌&&◌,
  if◌then◌else◌,
}
use m99_riscv_emulator.Prelude.Options.{bind_some, some_injective}
use m99_riscv_emulator.BitTools.{bitcrop}
use m99_riscv_emulator.BitTools.Fields.{bitcrop_lem}
use m99_riscv_emulator.Memory.{MemoryWrapper, read64}
use m99_riscv_emulator.Pte.Pte64
use m99_riscv_emulator.Mmu.{WalkEnd, fault, leaf, walk64, vpn64, pte_address64}
use m99_riscv_emulator.Mmu.Tables.{
  IsValidEntry, IsInvalidEntry, IsLeafEntry, entry_place64, Walks64, invalid, bottom, ends, down,
}

-- The tests of the program, by the flags.
module _ (pte : ℕ) where
  v : bitcrop pte 1 0 ≡ pte % 2
  v = bitcrop_lem pte 1 0 (omega arith) ∙ omega arith

  r : bitcrop pte 1 1 ≡ pte / 2 % 2
  r = bitcrop_lem pte 1 1 (omega arith) ∙ omega arith

  w : bitcrop pte 1 2 ≡ pte / 4 % 2
  w = bitcrop_lem pte 1 2 (omega arith) ∙ omega arith

  x : bitcrop pte 1 3 ≡ pte / 8 % 2
  x = bitcrop_lem pte 1 3 (omega arith) ∙ omega arith

  valid64 : Pte64.is_valid pte ≡ true → IsValidEntry pte
  unfolding Pte64.is_valid Pte64.get_v Pte64.get_r Pte64.get_w
  valid64 h = (ground (arith, v, r, w, h), λ e. ground (arith, v, r, w, h, e))

  refused64 : Pte64.is_valid pte ≡ false → IsInvalidEntry pte
  unfolding Pte64.is_valid Pte64.get_v Pte64.get_r Pte64.get_w
  refused64 h = ground (arith, v, r, w, h)

  leaf64 : Pte64.is_leaf pte ≡ true → IsLeafEntry pte
  unfolding Pte64.is_leaf Pte64.get_r Pte64.get_w Pte64.get_x
  leaf64 h e = ground (arith, r, w, x, h, e)

  pointer64 : Pte64.is_leaf pte ≡ false → pte / 2 % 8 ≡ 0
  unfolding Pte64.is_leaf Pte64.get_r Pte64.get_w Pte64.get_x
  pointer64 h = ground (arith, r, w, x, h)

  next64 : Pte64.get_ppn pte ≡ pte / 2 ^ 10 % 2 ^ 32
  unfolding Pte64.get_ppn
  next64 = omega (arith, bitcrop_lem pte 44 10 (omega arith))

place64 :
    (address level ppn : ℕ)
    → level ≤ 2
    → pte_address64 (vpn64 address) level ppn ≡ entry_place64 address level ppn
unfolding vpn64
place64 address zero ppn h = omega (arith, bitcrop_lem address 9 12 (omega arith))
place64 address (suc zero) ppn h = omega (arith, bitcrop_lem address 9 21 (omega arith))
place64 address (suc (suc zero)) ppn h = omega (arith, bitcrop_lem address 9 30 (omega arith))
place64 address (suc (suc (suc level))) ppn h = absurd (omega arith)

module _ (m : MemoryWrapper) (address : ℕ) where
  last64 :
      (ppn pte a : ℕ)
      → a ≡ entry_place64 address 0 ppn
      → read64 m a ≡ some pte
      → (t s : Bool) → Pte64.is_valid pte ≡ t
      → Pte64.is_leaf pte ≡ s
      → Walks64 m address 0 ppn (if t && s then leaf 0 pte a else fault)
  last64 ppn pte a place read false s bad e = invalid (rw place at read) (refused64 pte bad)
  last64 ppn pte a place read true false good e = bottom (rw place at read) (pointer64 pte e)
  last64 ppn pte a place read true true good e =
      subst (λ a. Walks64 m address 0 ppn (leaf 0 pte a)) (sym place)
        (ends (rw place at read) (valid64 pte good) (leaf64 pte e))

  step64 :
      (level ppn pte a : ℕ) (end : WalkEnd)
      → a ≡ entry_place64 address (suc level) ppn
      → read64 m a ≡ some pte
      → (walk64 m (vpn64 address) level (Pte64.get_ppn pte) ≡ some end
          → Walks64 m address level (Pte64.get_ppn pte) end)
      → (t s : Bool) → Pte64.is_valid pte ≡ t
      → Pte64.is_leaf pte ≡ s
      → (elim t [
        | false ↦ some fault
        | true ↦ elim s [
          | true ↦ some (leaf (suc level) pte a)
          | false ↦ walk64 m (vpn64 address) level (Pte64.get_ppn pte)
        ]
      ])
        ≡ some end
      → Walks64 m address (suc level) ppn end
  step64 level ppn pte a end place read deeper false s bad e rest =
      subst (λ e. Walks64 m address (suc level) ppn e) (some_injective rest)
        (invalid (rw place at read) (refused64 pte bad))
  step64 level ppn pte a end place read deeper true true good e rest =
      subst (λ e. Walks64 m address (suc level) ppn e)
        (ap (leaf (suc level) pte) (sym place) ∙ some_injective rest)
        (ends (rw place at read) (valid64 pte good) (leaf64 pte e))
  step64 level ppn pte a end place read deeper true false good e rest =
      down (rw place at read) (valid64 pte good) (pointer64 pte e)
        (subst (λ n. Walks64 m address level n end) (next64 pte) (deeper rest))

  -- Where the walk of the program ends is where the walk through the tables does.
  pub walks64_lem :
      (level ppn : ℕ) (end : WalkEnd)
      → level ≤ 2
      → walk64 m (vpn64 address) level ppn ≡ some end
      → Walks64 m address level ppn end
  unfolding walk64
  walks64_lem zero ppn end h walked =
      let (pte, read, rest) = bind_some _ _ walked in
      subst (λ e. Walks64 m address 0 ppn e) (some_injective rest)
        (last64 ppn pte _ (place64 address 0 ppn h) read (Pte64.is_valid pte) (Pte64.is_leaf pte)
          refl refl)
  walks64_lem (suc level) ppn end h walked =
      let (pte, read, rest) = bind_some _ _ walked in
      step64 level ppn pte _ end (place64 address (suc level) ppn h) read
        (walks64_lem level (Pte64.get_ppn pte) end (omega arith)) (Pte64.is_valid pte)
        (Pte64.is_leaf pte) refl refl rest
