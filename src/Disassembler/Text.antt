-- ===== src/Disassembler/Text.antt =====
-- The texts of registers and numbers.
use mathlib.Core.List.{List, [], ◌∷◌, ◌++◌}
use m99_riscv_emulator.Prelude.{ℕ, zero, suc, ◌+◌, ◌-◌, ◌/◌, ◌%◌, ltb, if◌then◌else◌, u32}
use m99_riscv_emulator.Prelude.Tables.{get_or}
use m99_riscv_emulator.Prelude.Text.{codes}

reg_names : List (List ℕ)
reg_names =
    codes "ZERO"
    ∷ codes "RA"
    ∷ codes "SP"
    ∷ codes "GP"
    ∷ codes "TP"
    ∷ codes "T0"
    ∷ codes "T1"
    ∷ codes "T2"
    ∷ codes "FP"
    ∷ codes "S1"
    ∷ codes "A0"
    ∷ codes "A1"
    ∷ codes "A2"
    ∷ codes "A3"
    ∷ codes "A4"
    ∷ codes "A5"
    ∷ codes "A6"
    ∷ codes "A7"
    ∷ codes "S2"
    ∷ codes "S3"
    ∷ codes "S4"
    ∷ codes "S5"
    ∷ codes "S6"
    ∷ codes "S7"
    ∷ codes "S8"
    ∷ codes "S9"
    ∷ codes "S10"
    ∷ codes "S11"
    ∷ codes "T3"
    ∷ codes "T4"
    ∷ codes "T5"
    ∷ codes "T6"
    ∷ []

-- For a register's number, which is below 32.
unfoldable pub get_reg_name : ℕ → List ℕ
unfolding reg_names
get_reg_name reg = get_or reg_names reg []

abbrev pub hex_digit : ℕ → ℕ
hex_digit d = if ltb d 10 then b'0' + d else b'a' + (d - 10)

-- What `std::hex` prints, for at most `fuel` digits.
unfoldable pub hex_digits : ℕ → ℕ → List ℕ
hex_digits zero num = []
hex_digits (suc fuel) num =
    let rest = hex_digits fuel (num / 16) in
    if ltb num 16 then hex_digit num ∷ [] else rest ++ (hex_digit (num % 16) ∷ [])

-- Eight digits are enough for a `uint32_t`.
unfoldable pub number_to_hex : ℕ → List ℕ
unfolding hex_digits
number_to_hex num = codes "0x" ++ hex_digits 8 (u32 num)
