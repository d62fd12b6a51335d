-- ===== src/Cpu/Amo.antt =====
-- `AmoInstruction` of RISCV_cpu.cc: read, combine, write back. A page fault of either translation is
-- noted and not acted on.
pub mod Operations
pub mod Word
pub mod Value
pub mod Machine
use m99_riscv_emulator.Prelude.{
  ℕ, ◌+◌, ◌%◌, ◌^◌, Bool, true, false, Option, none, some, ◌>>=◌, bit_and, bit_or, bit_xor, ltb,
  ◌==◌, if◌then◌else◌, u32, u64, of_int32, ltb_int64,
}
use m99_riscv_emulator.BitTools.{sign_extend}
use m99_riscv_emulator.Isa.{Instruction}
use m99_riscv_emulator.Cpu.{RiscvCpu, set_register}
use m99_riscv_emulator.Cpu.Access.{virtual_to_physical, load_wd, store_wd}

unfoldable pub amo_width : Instruction → ℕ
amo_width Instruction.amoaddd = 8
amo_width Instruction.amoandd = 8
amo_width Instruction.amomaxd = 8
amo_width Instruction.amomaxud = 8
amo_width Instruction.amomind = 8
amo_width Instruction.amominud = 8
amo_width Instruction.amoord = 8
amo_width Instruction.amoxord = 8
amo_width Instruction.amoswapd = 8
amo_width _ = 4

-- `max` and `min` at a type whose order is `less`.
abbrev pub maximum : (ℕ → ℕ → Bool) → ℕ → ℕ → ℕ
maximum less a b = if less b a then a else b

abbrev pub minimum : (ℕ → ℕ → Bool) → ℕ → ℕ → ℕ
minimum less a b = if less a b then a else b

-- `<` on `int32_t`, for bit patterns.
abbrev pub ltb_int32 : ℕ → ℕ → Bool
ltb_int32 a b = ltb ((a + 2 ^ 31) % 2 ^ 32) ((b + 2 ^ 31) % 2 ^ 32)

abbrev pub sext : ℕ → ℕ
sext x = sign_extend 64 x 32

-- The switch, over what was read and the register.
unfoldable pub amo_value : Instruction → ℕ → ℕ → Option ℕ
amo_value Instruction.amoaddd t b = some (u64 (t + b))
amo_value Instruction.amoaddw t b = some (sext (u64 (t + b)))
amo_value Instruction.amoandd t b = some (bit_and t b)
amo_value Instruction.amoandw t b = some (sext (bit_and t b))
amo_value Instruction.amomaxd t b = some (maximum ltb_int64 t b)
amo_value Instruction.amomaxw t b =
    some (sext (of_int32 (maximum ltb_int32 (u32 (sext t)) (u32 (sext b)))))
amo_value Instruction.amomaxud t b = some (maximum ltb t b)
amo_value Instruction.amomaxuw t b = some (sext (maximum ltb (u32 t) (u32 b)))
amo_value Instruction.amomind t b = some (minimum ltb_int64 t b)
amo_value Instruction.amominw t b =
    some (sext (of_int32 (minimum ltb_int32 (u32 (sext t)) (u32 (sext b)))))
amo_value Instruction.amominud t b = some (minimum ltb t b)
amo_value Instruction.amominuw t b = some (sext (minimum ltb (u32 t) (u32 b)))
amo_value Instruction.amoord t b = some (bit_or t b)
amo_value Instruction.amoorw t b = some (sext (bit_or t b))
amo_value Instruction.amoxord t b = some (bit_xor t b)
amo_value Instruction.amoxorw t b = some (sext (bit_xor t b))
amo_value Instruction.amoswapd t b = some b
amo_value Instruction.amoswapw t b = some b
amo_value _ t b = none

unfoldable pub amo_instruction : RiscvCpu → Instruction → ℕ → ℕ → ℕ → Option RiscvCpu
unfolding amo_value amo_width
amo_instruction cpu instruction rd rs1 rs2 =
    let virtual_address = cpu.reg rs1 in
    let word_width = amo_width instruction in
    do
      source ← virtual_to_physical cpu virtual_address false
      loaded ← load_wd source.1.memory source.0 word_width
      let t = if word_width == 4 then sext loaded else loaded
      new_value ← amo_value instruction t (cpu.reg rs2)
      target ← virtual_to_physical source.1 virtual_address true
      memory ← store_wd target.1.memory target.0 new_value word_width
      some (set_register (record target.1 { memory = memory }) rd t)
