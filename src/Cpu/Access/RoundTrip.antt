-- ===== src/Cpu/Access/RoundTrip.antt =====
-- `LoadWd` after `StoreWd`.
use native.Mathlib.Nat.{div-div-eq-div-mul, div-add-mod', mod-lt}
use m99_riscv_emulator.Prelude.{
  ℕ, zero, suc, ◌+◌, ◌*◌, ◌/◌, ◌%◌, ◌^◌, ◌<◌, ◌≤◌, ◌≡◌, refl, sym, ◌∙◌, ap, arith, some, ◌>>=◌,
}
use m99_riscv_emulator.Prelude.Options.{bind_to}
use m99_riscv_emulator.Prelude.Bits.{lower-fields, pow_add, pow_pos}
use m99_riscv_emulator.Memory.{MemoryWrapper}
use m99_riscv_emulator.Memory.Bytes.{byte, IsWords}
use m99_riscv_emulator.Cpu.Access.{store_wd, load_wd}
use m99_riscv_emulator.Cpu.Access.Load.{little_endian, load_wd_lem}
use m99_riscv_emulator.Cpu.Access.Store.{digit, store_wd_lem}

eight_more : (n : ℕ) → 2 ^ (suc n * 8) ≡ 2 ^ 8 * 2 ^ (n * 8)
eight_more n = let e : suc n * 8 ≡ 8 + n * 8 = omega arith in rw e (pow_add 8 (n * 8))

digit-suc : (v k : ℕ) → digit v (suc k) ≡ digit (v / 2 ^ 8) k
digit-suc v k = rw (eight_more k, div-div-eq-div-mul v (2 ^ 8) (2 ^ (k * 8))) refl

-- The lowest digit of a number, and the rest of `n` more.
lowest_digit : (v n : ℕ) → v % 2 ^ 8 + v / 2 ^ 8 % 2 ^ (n * 8) * 2 ^ 8 ≡ v % 2 ^ (suc n * 8)
lowest_digit v n =
    let p = 2 ^ (n * 8) in
    let q = v / 2 ^ 8 in
    let e : suc n * 8 ≡ 8 + n * 8 = omega arith in
    let below : q % p < p = mod-lt q (pow_pos (n * 8)) in
    let small : v % 2 ^ 8 + q % p * 2 ^ 8 < 2 ^ (suc n * 8) =
      rw (eight_more n) (omega (arith, below)) in
    let whole : v ≡ q / p * 2 ^ (suc n * 8) + (v % 2 ^ 8 + q % p * 2 ^ 8) =
      rw (eight_more n) (omega (arith, div-add-mod' q p)) in
    sym (
      ap (λ (t : ℕ). t % 2 ^ (suc n * 8)) whole
      ∙ lower-fields (suc n * 8) (q / p) (v % 2 ^ 8 + q % p * 2 ^ 8) small)

-- The digits of a number make it up again.
little_endian-digit :
    (d : ℕ → ℕ) (v a n : ℕ)
    → ((k : ℕ) → k < n → d (a + k) ≡ digit v k)
    → little_endian d a n ≡ v % 2 ^ (n * 8)
unfolding little_endian
little_endian-digit d v a zero same = omega arith
little_endian-digit d v a (suc n) same =
    let start : a + 0 ≡ a = omega arith in
    let first : d a ≡ v % 2 ^ 8 = (let h = same 0 (omega arith) in rw start at h) ∙ omega arith in
    let rest : little_endian d (suc a) n ≡ v / 2 ^ 8 % 2 ^ (n * 8) =
      little_endian-digit d (v / 2 ^ 8) (suc a) n (λ k below.
        let next : suc a + k ≡ a + suc k = omega arith in
        ap d next ∙ same (suc k) (omega arith) ∙ digit-suc v k) in
    omega (arith, first, rest, lowest_digit v n)

-- In a memory of words, a load of 1 to 8 bytes from where as many bytes were stored gives the low
-- bytes of the stored value, at any address; neither access fails.
pub load_wd-store_wd :
    (m : MemoryWrapper) (a v width : ℕ)
    → IsWords m
    → 1 ≤ width
    → width ≤ 8
    → (store_wd m a v width >>= λ m'. load_wd m' a width) ≡ some (v % 2 ^ (width * 8))
load_wd-store_wd m a v width h one few =
    let (m', made, wrote) = store_wd_lem m a v width h one few in
    bind_to (λ (m' : MemoryWrapper). load_wd m' a width) made
      (load_wd_lem m' a width wrote.words one few
        ∙ ap some (
            little_endian-digit (byte m') v a width
              (λ k below. wrote.inside k (omega arith) below)))
