-- ===== src/Screen.antt =====
-- The terminal, ScreenEmulation.cpp. ncurses is not part of the repository: what `getch` returns is
-- handed in, and the characters given to `addch` are kept, the last one first.
use m99_riscv_emulator.Prelude.{
  ℕ, ◌+◌, Bool, true, false, Option, none, some, List, [], ◌∷◌, ltb, if◌then◌else◌,
}

pub record ScreenEmulation : Type 0 where
  pub counter : ℕ
  pub key_value : ℕ
  pub key_valid : Bool
  pub shown : List ℕ

-- What the program relies on of ncurses: the codes of two keys, and the key that `getch` finds, if
-- any.
pub record Terminal : Type 0 where
  pub key_backspace : ℕ
  pub key_dc : ℕ
  pub getch : Option ℕ

unfoldable pub screen : ScreenEmulation
screen = record { counter = 0; key_value = 0; key_valid = false; shown = [] }

abbrev threshold : ℕ
threshold = 1000

poll : ScreenEmulation → Option ℕ → ScreenEmulation × Bool
poll s (some c) = (record s { key_value = c; key_valid = true }, true)
poll s none = (s, false)

-- The keyboard is polled at every thousandth call.
unfoldable pub check_input : ScreenEmulation → Terminal → ScreenEmulation × Bool
unfolding poll
check_input s terminal =
    let counted = record s { counter = s.counter + 1 } in
    if ltb (s.counter + 1) threshold
    then (counted, s.key_valid)
    else if s.key_valid
    then (record s { counter = 0 }, true)
    else poll (record s { counter = 0 }) terminal.getch

unfoldable pub get_key_value : ScreenEmulation → ScreenEmulation × ℕ
get_key_value s = (record s { key_valid = false }, s.key_value)

unfoldable pub put_char : ScreenEmulation → ℕ → ScreenEmulation
put_char s c = record s { shown = c ∷ s.shown }
