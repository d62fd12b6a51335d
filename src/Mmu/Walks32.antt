-- ===== src/Mmu/Walks32.antt =====
-- `walk32` against the walk through the tables of Sv32.
use mathlib.Core.Path.{subst}
use m99_riscv_emulator.Prelude.{
  ℕ, zero, suc, ◌/◌, ◌%◌, ◌^◌, ◌≤◌, ◌≡◌, refl, sym, ◌∙◌, ap, arith, Bool, true, false, some, ◌&&◌,
  if◌then◌else◌,
}
use m99_riscv_emulator.Prelude.Options.{bind_some, some_injective}
use m99_riscv_emulator.BitTools.{bitcrop}
use m99_riscv_emulator.BitTools.Fields.{bitcrop_lem}
use m99_riscv_emulator.Memory.{MemoryWrapper, read32, read32}
use m99_riscv_emulator.Pte.Pte32
use m99_riscv_emulator.Pte.Pte32
use m99_riscv_emulator.Mmu.{
  WalkEnd, fault, leaf, walk32, walk32, vpn32, vpn32, pte_address32, pte_address32,
}
use m99_riscv_emulator.Mmu.Tables.{
  IsValidEntry, IsInvalidEntry, IsLeafEntry, entry_place32, Walks32, invalid32, bottom32, ends32,
  down32,
}

-- The tests of the program, by the flags.
module _ (pte : ℕ) where
  v : bitcrop pte 1 0 ≡ pte % 2
  v = bitcrop_lem pte 1 0 (omega arith) ∙ omega arith

  r : bitcrop pte 1 1 ≡ pte / 2 % 2
  r = bitcrop_lem pte 1 1 (omega arith) ∙ omega arith

  w : bitcrop pte 1 2 ≡ pte / 4 % 2
  w = bitcrop_lem pte 1 2 (omega arith) ∙ omega arith

  x : bitcrop pte 1 3 ≡ pte / 8 % 2
  x = bitcrop_lem pte 1 3 (omega arith) ∙ omega arith

  valid32 : Pte32.is_valid pte ≡ true → IsValidEntry pte
  unfolding Pte32.is_valid Pte32.get_v Pte32.get_r Pte32.get_w
  valid32 h = (ground (arith, v, r, w, h), λ e. ground (arith, v, r, w, h, e))

  refused32 : Pte32.is_valid pte ≡ false → IsInvalidEntry pte
  unfolding Pte32.is_valid Pte32.get_v Pte32.get_r Pte32.get_w
  refused32 h = ground (arith, v, r, w, h)

  leaf32 : Pte32.is_leaf pte ≡ true → IsLeafEntry pte
  unfolding Pte32.is_leaf Pte32.get_r Pte32.get_w Pte32.get_x
  leaf32 h e = ground (arith, r, w, x, h, e)

  pointer32 : Pte32.is_leaf pte ≡ false → pte / 2 % 8 ≡ 0
  unfolding Pte32.is_leaf Pte32.get_r Pte32.get_w Pte32.get_x
  pointer32 h = ground (arith, r, w, x, h)

  next32 : Pte32.get_ppn pte ≡ pte / 2 ^ 10 % 2 ^ 22
  unfolding Pte32.get_ppn
  next32 = omega (arith, bitcrop_lem pte 22 10 (omega arith))

place32 :
    (address level ppn : ℕ)
    → level ≤ 1
    → pte_address32 ppn (vpn32 address level) ≡ entry_place32 address level ppn
unfolding vpn32
place32 address zero ppn h = omega (arith, bitcrop_lem address 10 12 (omega arith))
place32 address (suc zero) ppn h = omega (arith, bitcrop_lem address 10 22 (omega arith))
place32 address (suc (suc level)) ppn h = absurd (omega arith)

module _ (m : MemoryWrapper) (address : ℕ) where
  last32 :
      (ppn pte a : ℕ)
      → a ≡ entry_place32 address 0 ppn
      → read32 m a ≡ some pte
      → (t s : Bool) → Pte32.is_valid pte ≡ t
      → Pte32.is_leaf pte ≡ s
      → Walks32 m address 0 ppn (if t && s then leaf 0 pte a else fault)
  last32 ppn pte a place read false s bad e = invalid32 (rw place at read) (refused32 pte bad)
  last32 ppn pte a place read true false good e = bottom32 (rw place at read) (pointer32 pte e)
  last32 ppn pte a place read true true good e =
      subst (λ a. Walks32 m address 0 ppn (leaf 0 pte a)) (sym place)
        (ends32 (rw place at read) (valid32 pte good) (leaf32 pte e))

  step32 :
      (level ppn pte a : ℕ) (end : WalkEnd)
      → a ≡ entry_place32 address (suc level) ppn
      → read32 m a ≡ some pte
      → (walk32 m (vpn32 address) level (Pte32.get_ppn pte) ≡ some end
          → Walks32 m address level (Pte32.get_ppn pte) end)
      → (t s : Bool) → Pte32.is_valid pte ≡ t
      → Pte32.is_leaf pte ≡ s
      → (elim t [
        | false ↦ some fault
        | true ↦ elim s [
          | true ↦ some (leaf (suc level) pte a)
          | false ↦ walk32 m (vpn32 address) level (Pte32.get_ppn pte)
        ]
      ])
        ≡ some end
      → Walks32 m address (suc level) ppn end
  step32 level ppn pte a end place read deeper false s bad e rest =
      subst (λ e. Walks32 m address (suc level) ppn e) (some_injective rest)
        (invalid32 (rw place at read) (refused32 pte bad))
  step32 level ppn pte a end place read deeper true true good e rest =
      subst (λ e. Walks32 m address (suc level) ppn e)
        (ap (leaf (suc level) pte) (sym place) ∙ some_injective rest)
        (ends32 (rw place at read) (valid32 pte good) (leaf32 pte e))
  step32 level ppn pte a end place read deeper true false good e rest =
      down32 (rw place at read) (valid32 pte good) (pointer32 pte e)
        (subst (λ n. Walks32 m address level n end) (next32 pte) (deeper rest))

  -- Where the walk of the program ends is where the walk through the tables does.
  pub walks32_lem :
      (level ppn : ℕ) (end : WalkEnd)
      → level ≤ 1
      → walk32 m (vpn32 address) level ppn ≡ some end
      → Walks32 m address level ppn end
  unfolding walk32
  walks32_lem zero ppn end h walked =
      let (pte, read, rest) = bind_some _ _ walked in
      subst (λ e. Walks32 m address 0 ppn e) (some_injective rest)
        (last32 ppn pte _ (place32 address 0 ppn h) read (Pte32.is_valid pte) (Pte32.is_leaf pte)
          refl refl)
  walks32_lem (suc level) ppn end h walked =
      let (pte, read, rest) = bind_some _ _ walked in
      step32 level ppn pte _ end (place32 address (suc level) ppn h) read
        (walks32_lem level (Pte32.get_ppn pte) end (omega arith)) (Pte32.is_valid pte)
        (Pte32.is_leaf pte) refl refl rest
