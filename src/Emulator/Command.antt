-- ===== src/Emulator/Command.antt =====
-- `ParseCmd` of RISCV_Emulator.cc. An argument is the list of its characters, without the zero that
-- ends it, which is what reading past its last character gives.
use m99_riscv_emulator.Prelude.{
  ℕ, ◌≡◌, refl, ◌∙◌, sym, ap, Bool, true, false, ◌||◌, ◌&&◌, List, [], ◌∷◌, ◌==◌, if◌then◌else◌,
}
use m99_riscv_emulator.Prelude.Tables.{get_or}
use m99_riscv_emulator.Prelude.Text.{codes}

abbrev pub Argument : Type 0
Argument = List ℕ

-- The tuple that `ParseCmd` returns.
pub record Options : Type 0 where
  pub error : Bool
  pub filename : Argument
  pub verbose : Bool
  pub address64bit : Bool
  pub paging : Bool
  pub ecall_emulation : Bool
  pub host_emulation : Bool
  pub device_enable : Bool
  pub disable_machine_interrupt_delegation : Bool
  pub diskimage_file : Argument

abbrev pub defaults : Options
defaults = record {
  error = false;
  filename = [];
  verbose = false;
  address64bit = false;
  paging = false;
  ecall_emulation = false;
  host_emulation = false;
  device_enable = false;
  disable_machine_interrupt_delegation = false;
  diskimage_file = [];
}

-- What the tests on an argument's first characters tell apart.
pub data Kind : Type 0 where
  verbose_flag address_flag paging_flag ecall_flag host_flag device_flag delegation_flag : Kind
  disk_flag unknown plain : Kind

kind : Argument → Kind
kind arg =
    let second = get_or arg 1 0 in
    if get_or arg 0 0 == b'-'
    then if second == b'v'
      then verbose_flag
      else if (second == b'6') && (get_or arg 2 0 == b'4')
      then address_flag
      else if second == b'p'
      then paging_flag
      else if second == b'e'
      then ecall_flag
      else if second == b'h'
      then host_flag
      else if second == b'd'
      then device_flag
      else if second == b'm'
      then delegation_flag
      else if second == b's'
      then disk_flag
      else unknown
    else plain

is_empty {ℓ} : {A : Type ℓ} → List A → Bool
is_empty [] = true
is_empty (c ∷ cs) = false

-- What an argument other than `-s` sets.
set : Options → Argument → Kind → Options
unfolding is_empty
set o arg verbose_flag = record o { verbose = true }
set o arg address_flag = record o { address64bit = true }
set o arg paging_flag = record o { paging = true }
set o arg ecall_flag = record o { ecall_emulation = true }
set o arg host_flag = record o { host_emulation = true }
set o arg device_flag = record o { device_enable = true }
set o arg delegation_flag = record o { disable_machine_interrupt_delegation = true }
set o arg plain =
    if is_empty o.filename then record o { filename = arg } else record o { error = true }
set o arg _ = record o { error = true }

-- The loop over the arguments, which an error ends. `-s` takes the argument after it.
unfoldable pub parse_loop : List Argument → Options → Options
unfolding kind set
parse_loop [] o = o
parse_loop (arg ∷ []) o = set o arg (kind arg)
parse_loop (arg ∷ next ∷ rest) o = elim (kind arg) [
  | disk_flag ↦ parse_loop rest (record o { diskimage_file = next })
  | k ↦ elim ((set o arg k).error) [
    | true ↦ set o arg k
    | false ↦ parse_loop (next ∷ rest) (set o arg k)
  ]
]

-- On `argv`, whose first entry is the program's name.
unfoldable pub parse_cmd : List Argument → Options
unfolding parse_loop is_empty
parse_cmd [] = record defaults { error = true }
parse_cmd (program ∷ args) =
    if is_empty args then record defaults { error = true } else parse_loop args defaults

-- A flag with the field that it sets.
text : Kind → Argument
text verbose_flag = codes "-v"
text address_flag = codes "-64"
text paging_flag = codes "-p"
text ecall_flag = codes "-e"
text host_flag = codes "-h"
text device_flag = codes "-d"
text delegation_flag = codes "-m"
text _ = []

turn : Kind → Bool → Options → Options
turn verbose_flag b o = record o { verbose = b || o.verbose }
turn address_flag b o = record o { address64bit = b || o.address64bit }
turn paging_flag b o = record o { paging = b || o.paging }
turn ecall_flag b o = record o { ecall_emulation = b || o.ecall_emulation }
turn host_flag b o = record o { host_emulation = b || o.host_emulation }
turn device_flag b o = record o { device_enable = b || o.device_enable }
turn delegation_flag b o = record o {
  disable_machine_interrupt_delegation = b || o.disable_machine_interrupt_delegation;
}
turn _ b o = o

abbrev flag : Bool → Kind → List Argument → List Argument
flag b k rest = if b then text k ∷ rest else rest

abbrev image : Argument → List Argument → List Argument
image [] rest = rest
image (c ∷ cs) rest = codes "-s" ∷ (c ∷ cs) ∷ rest

-- The arguments that ask for given options.
unfoldable pub command_line : Options → List Argument
unfolding text
command_line o = flag o.verbose verbose_flag (
    flag o.address64bit address_flag (
      flag o.paging paging_flag (
        flag o.ecall_emulation ecall_flag (
          flag o.host_emulation host_flag (
            flag o.device_enable device_flag (
              flag o.disable_machine_interrupt_delegation delegation_flag
                (image o.diskimage_file (o.filename ∷ []))))))))

data IsFlag : Kind → Type 0 where
  verbose_IsFlag : IsFlag verbose_flag
  address_IsFlag : IsFlag address_flag
  paging_IsFlag : IsFlag paging_flag
  ecall_IsFlag : IsFlag ecall_flag
  host_IsFlag : IsFlag host_flag
  device_IsFlag : IsFlag device_flag
  delegation_IsFlag : IsFlag delegation_flag

onward {ℓ} : {A : Type ℓ} (e : Bool) (x y : A) → e ≡ false → (elim e [ true ↦ x | false ↦ y ]) ≡ y
onward e x y h = rw h refl

-- An argument that sets a flag, whatever follows it.
step :
    {k : Kind}
    → IsFlag k
    → (rest : List Argument) (o : Options) → o.error ≡ false
    → parse_loop (text k ∷ rest) o ≡ parse_loop rest (turn k true o)
unfolding parse_loop text turn
step verbose_IsFlag [] o h = refl
step verbose_IsFlag (next ∷ rest) o h = onward o.error _ _ h
step address_IsFlag [] o h = refl
step address_IsFlag (next ∷ rest) o h = onward o.error _ _ h
step paging_IsFlag [] o h = refl
step paging_IsFlag (next ∷ rest) o h = onward o.error _ _ h
step ecall_IsFlag [] o h = refl
step ecall_IsFlag (next ∷ rest) o h = onward o.error _ _ h
step host_IsFlag [] o h = refl
step host_IsFlag (next ∷ rest) o h = onward o.error _ _ h
step device_IsFlag [] o h = refl
step device_IsFlag (next ∷ rest) o h = onward o.error _ _ h
step delegation_IsFlag [] o h = refl
step delegation_IsFlag (next ∷ rest) o h = onward o.error _ _ h

turn-error : {k : Kind} → IsFlag k → (b : Bool) (o : Options) → (turn k b o).error ≡ o.error
unfolding turn
turn-error verbose_IsFlag b o = refl
turn-error address_IsFlag b o = refl
turn-error paging_IsFlag b o = refl
turn-error ecall_IsFlag b o = refl
turn-error host_IsFlag b o = refl
turn-error device_IsFlag b o = refl
turn-error delegation_IsFlag b o = refl

turn-false : {k : Kind} → IsFlag k → (o : Options) → turn k false o ≡ o
unfolding turn
turn-false verbose_IsFlag o = refl
turn-false address_IsFlag o = refl
turn-false paging_IsFlag o = refl
turn-false ecall_IsFlag o = refl
turn-false host_IsFlag o = refl
turn-false device_IsFlag o = refl
turn-false delegation_IsFlag o = refl

-- A flag that is there or not.
flagged :
    {k : Kind}
    → IsFlag k
    → (b : Bool) (rest : List Argument) (o : Options) → o.error ≡ false
    → parse_loop (flag b k rest) o ≡ parse_loop rest (turn k b o)
flagged f true rest o h = step f rest o h
flagged f false rest o h = ap (parse_loop rest) (sym (turn-false f o))

with_image :
    (file path : Argument) (o : Options)
    → o.diskimage_file ≡ []
    → parse_loop (image file (path ∷ [])) o
      ≡ parse_loop (path ∷ []) (record o { diskimage_file = file })
unfolding parse_loop
with_image [] path o h = cc
with_image (c ∷ cs) path o h = refl

or_false : (b : Bool) → (b || false) ≡ b
or_false true = refl
or_false false = refl

flag_full :
    (b : Bool) (k : Kind) (rest : List Argument)
    → is_empty rest ≡ false
    → is_empty (flag b k rest) ≡ false
unfolding is_empty
flag_full true k rest h = refl
flag_full false k rest h = h

image_full : (file path : Argument) → is_empty (image file (path ∷ [])) ≡ false
unfolding is_empty
image_full [] path = refl
image_full (c ∷ cs) path = refl

module _ (program : Argument)
    (verbose address64bit paging ecall_emulation host_emulation device_enable
      disable_machine_interrupt_delegation : Bool)
    (c : ℕ) (cs file : List ℕ) where
  abbrev wanted : Options
  wanted = record {
    error = false;
    filename = c ∷ cs;
    verbose = verbose;
    address64bit = address64bit;
    paging = paging;
    ecall_emulation = ecall_emulation;
    host_emulation = host_emulation;
    device_enable = device_enable;
    disable_machine_interrupt_delegation = disable_machine_interrupt_delegation;
    diskimage_file = file;
  }

  file_named :
      (o : Options)
      → (c == b'-') ≡ false
      → o.filename ≡ []
      → parse_loop ((c ∷ cs) ∷ []) o ≡ record o { filename = c ∷ cs }
  unfolding parse_loop is_empty
  file_named o apart empty = rw apart (simp empty)

  read_flags : (c == b'-') ≡ false → parse_loop (command_line wanted) defaults ≡ wanted
  unfolding command_line turn
  read_flags apart =
      flagged verbose_IsFlag verbose _ _ refl
      ∙ flagged address_IsFlag address64bit _ _ refl
      ∙ flagged paging_IsFlag paging _ _ refl
      ∙ flagged ecall_IsFlag ecall_emulation _ _ refl
      ∙ flagged host_IsFlag host_emulation _ _ refl
      ∙ flagged device_IsFlag device_enable _ _ refl
      ∙ flagged delegation_IsFlag disable_machine_interrupt_delegation _ _ refl
      ∙ with_image file (c ∷ cs) _ refl
      ∙ file_named _ apart refl
      ∙ rw
          (
            or_false verbose,
            or_false address64bit,
            or_false paging,
            or_false ecall_emulation,
            or_false host_emulation,
            or_false device_enable,
            or_false disable_machine_interrupt_delegation,
          )
          refl

  -- The arguments written for any choice of flags, any disk image's name, and a file name that is
  -- not empty and does not begin with a dash, are read back as that choice, with no error.
  pub parse_cmd-command_line :
      (c == b'-') ≡ false → parse_cmd (program ∷ command_line wanted) ≡ wanted
  unfolding parse_cmd command_line
  parse_cmd-command_line apart =
      rw
        (flag_full verbose verbose_flag _ (
          flag_full address64bit address_flag _ (
            flag_full paging paging_flag _ (
              flag_full ecall_emulation ecall_flag _ (
                flag_full host_emulation host_flag _ (
                  flag_full device_enable device_flag _ (
                    flag_full disable_machine_interrupt_delegation delegation_flag _
                      (image_full file (c ∷ cs)))))))))
        (read_flags apart)
