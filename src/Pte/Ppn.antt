-- ===== src/Pte/Ppn.antt =====
-- What the page-number setters of pte.cpp write, and what the getters read back.
use m99_riscv_emulator.Prelude.{
  ℕ, ◌+◌, ◌*◌, ◌/◌, ◌%◌, ◌^◌, ◌<◌, ◌≡◌, ◌∙◌, ap, arith, bit_or, bit_and, u32, u64, ◌<<<◌,
}
use m99_riscv_emulator.Prelude.Bits.{bit_and_mask, bit_or_comm, bit_or_sum, replace_field}
use m99_riscv_emulator.BitTools.{gen_mask}
use m99_riscv_emulator.BitTools.Fields.{bitcrop_lem}
use m99_riscv_emulator.Pte.Pte32
use m99_riscv_emulator.Pte.Pte64

pub set_ppn32_lem : (pte ppn : ℕ) → Pte32.set_ppn pte ppn ≡ ppn % 2 ^ 22 * 2 ^ 10 + pte % 2 ^ 10
unfolding Pte32.set_ppn gen_mask
set_ppn32_lem pte ppn =
    rw
      (
        bit_and_mask 10 pte,
        bit_or_comm (pte % 2 ^ 10) (u32 (ppn <<< 10)),
        bit_or_sum 10 (u32 (ppn <<< 10)) (pte % 2 ^ 10) (omega arith) (omega arith),
      )
      (omega arith)

-- For every 32-bit entry, the page number that is read after `set_ppn` is the low 22 digits of the
-- one written, and the ten digits of flags are as before.
set_ppn32_fields :
    (pte ppn : ℕ)
    → (Pte32.get_ppn (Pte32.set_ppn pte ppn) ≡ ppn % 2 ^ 22)
      × (Pte32.set_ppn pte ppn % 2 ^ 10 ≡ pte % 2 ^ 10)
unfolding Pte32.get_ppn
set_ppn32_fields pte ppn =
    let value = set_ppn32_lem pte ppn in
    (
      rw (value, bitcrop_lem (ppn % 2 ^ 22 * 2 ^ 10 + pte % 2 ^ 10) 22 10 (omega arith))
          (omega arith),
      rw value (omega arith),
    )

-- For a 64-bit entry and a page number below `2 ^ 22`, `set_ppn` replaces the low 22 of the 44
-- digits of the entry's page number: the upper 22 and the flags are as before, and what `get_ppn`
-- reads, cut to 32 digits, has ten of the old page number's digits above the new ones.
pub set_ppn64_fields :
    (pte ppn : ℕ)
    → pte < 2 ^ 64
    → ppn < 2 ^ 22
    → (Pte64.get_ppn (Pte64.set_ppn pte ppn) ≡ pte / 2 ^ 32 % 2 ^ 10 * 2 ^ 22 + ppn)
      × (Pte64.set_ppn pte ppn / 2 ^ 32 ≡ pte / 2 ^ 32)
      × (Pte64.set_ppn pte ppn % 2 ^ 10 ≡ pte % 2 ^ 10)
unfolding Pte64.get_ppn Pte64.set_ppn gen_mask
set_ppn64_fields pte ppn h fits =
    let value : bit_or (bit_and pte 18446744069414585343) (u64 (ppn <<< 10))
        ≡ (pte / 2 ^ 10 / 2 ^ 22 * 2 ^ 22 + ppn) * 2 ^ 10 + pte % 2 ^ 10 =
      ap (bit_or (bit_and pte 18446744069414585343)) {y = ppn * 2 ^ 10} (omega arith)
      ∙ replace_field 32 22 10 pte ppn h fits in
    (
      rw
          (
            value,
            bitcrop_lem ((pte / 2 ^ 10 / 2 ^ 22 * 2 ^ 22 + ppn) * 2 ^ 10 + pte % 2 ^ 10) 44 10
                (omega arith),
          )
          (omega arith),
      rw value (omega arith),
      rw value (omega arith),
    )
