-- ===== src/Emulator/Elf/Search.antt =====
-- The searches for a section: they give the first section that fits.
use m99_riscv_emulator.Prelude.{
  ℕ, zero, suc, ◌+◌, ◌≤◌, ◌<◌, ◌≡◌, ◌≢◌, refl, sym, ap, ◌∙◌, arith, Bool, true, false, Option, none,
  some, List, [], ◌∷◌, ◌==◌, ==_iff, Bool-cases, inl, inr,
}
use m99_riscv_emulator.Prelude.Text.{str_eq}
use m99_riscv_emulator.Prelude.Options.{bind_some, bind_to, some_injective}
use m99_riscv_emulator.Emulator.Elf.{
  Program, Ehdr, Shdr, Class, ElfHeaders, get_ehdr, get_shdr, get_section_name, search_loop, named,
  search_by_name,
}

str_eq_sound : (s t : List ℕ) → str_eq s t ≡ true → s ≡ t
unfolding str_eq
str_eq_sound [] [] h = refl
str_eq_sound [] (b ∷ t) h = absurd cc
str_eq_sound (a ∷ s) [] h = absurd cc
str_eq_sound (a ∷ s) (b ∷ t) h = ground (arith, str_eq_sound s t)

str_eq_same : (s : List ℕ) → str_eq s s ≡ true
unfolding str_eq
str_eq_same [] = refl
str_eq_same (a ∷ s) = ground (arith, str_eq_same s)

different : {name : List ℕ} (t : List ℕ) → str_eq t name ≡ false → t ≢ name
different {name} t h e = absurd (cc (str_eq_same t, h, e))

module _ (h : ElfHeaders) (class : Class) (program : Program) where
  -- Section `k` has a name other than the one given.
  abbrev pub Differs : List ℕ → ℕ → Type 0
  Differs name k =
      (shdr : Shdr) × (t : List ℕ) × (get_shdr h class program k ≡ some (some shdr))
      × (get_section_name h class program shdr ≡ some t)
      × (t ≢ name)

  -- What a search of the sections from `i` to below `end` may give: the null pointer, if no name
  -- fits, or the first section whose name does.
  abbrev pub IsFirst : List ℕ → ℕ → ℕ → Option Shdr → Type 0
  IsFirst name i end none = (k : ℕ) → i ≤ k → k < end → Differs name k
  IsFirst name i end (some shdr) =
      (k : ℕ) × (i ≤ k)
      × (k < end)
      × (get_shdr h class program k ≡ some (some shdr))
      × (get_section_name h class program shdr ≡ some name)
      × ((l : ℕ) → i ≤ l → l < k → Differs name l)

  after :
      (name : List ℕ) (i end : ℕ) (r : Option Shdr)
      → Differs name i
      → IsFirst name (suc i) end r
      → IsFirst name i end r
  after name i end none d f = λ k low high. elim (Bool-cases (k == i)) [
    | inl same ↦ rw ((==_iff _ _).0 same) d
    | inr apart ↦ f k (ground arith) high
  ]
  after name i end (some shdr) d (k, low, high, at, fits, before) = (
    k,
    omega arith,
    high,
    at,
    fits,
    λ l p q. elim (Bool-cases (l == i)) [
      | inl same ↦ rw ((==_iff _ _).0 same) d
      | inr apart ↦ before l (ground arith) q
    ],
  )

  search_loop_lem :
      (name : List ℕ) (n i end : ℕ) (r : Option Shdr)
      → i + n ≡ end
      → search_loop h class program (named h class program name) n i ≡ some r
      → IsFirst name i end r
  unfolding search_loop named
  search_loop_lem name zero i end none e s = λ k low high. absurd (omega arith)
  search_loop_lem name zero i end (some shdr) e s = absurd cc
  search_loop_lem name (suc n) i end r e s =
      let (found, got, s1) = bind_some _ _ s in
      let (shdr, present, s2) = bind_some _ _ s1 in
      let (picked, tested, s3) = bind_some _ _ s2 in
      let (t, called, compared) = bind_some _ _ tested in
      by_test (search_loop_lem name n (suc i) end r (omega arith)) shdr t picked
        (some_injective compared) (got ∙ ap some present) called s3
    where
      by_test :
          (search_loop h class program (named h class program name) n (suc i) ≡ some r
            → IsFirst name (suc i) end r)
          → (shdr : Shdr) (t : List ℕ) (picked : Bool) → str_eq t name ≡ picked
          → get_shdr h class program i ≡ some (some shdr)
          → get_section_name h class program shdr ≡ some t
          → (elim picked [
            | true ↦ some (some shdr)
            | false ↦ search_loop h class program (named h class program name) n (suc i)
          ])
            ≡ some r
          → IsFirst name i end r
      by_test next shdr t true same at called s = rw (sym (some_injective s)) (
        i,
        omega arith,
        omega arith,
        at,
        rw (sym (str_eq_sound t name same)) called,
        λ l p q. absurd (omega arith),
      )
      by_test next shdr t false other at called s =
          after name i end r (shdr, t, at, called, different t other) (next s)

-- A search that returns gives the first section with the given name: it has that name, and each
-- section before it is there and has another. The null pointer is given only if every section is
-- there and has another name. (The comments in the program say that the last section is found.)
pub search_by_name_first :
    (h : ElfHeaders) (class : Class) (program : Program) (name : List ℕ) (ehdr : Ehdr)
    (r : Option Shdr)
    → get_ehdr h class program ≡ some ehdr
    → search_by_name h class program name ≡ some r
    → IsFirst h class program name 0 ehdr.e_shnum r
unfolding search_by_name
search_by_name_first h class program name ehdr r header found =
    search_loop_lem h class program name ehdr.e_shnum 0 ehdr.e_shnum r (omega arith)
      (sym (bind_to _ header refl) ∙ found)
