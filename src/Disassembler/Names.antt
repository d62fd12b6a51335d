-- ===== src/Disassembler/Names.antt =====
-- The names of the instructions that `Disassemble` finds for each opcode. "UNDEF" is what the text
-- is before a name is found.
use mathlib.Core.List.{List}
use m99_riscv_emulator.Prelude.{ℕ, ◌||◌, ◌&&◌, ◌==◌, if◌then◌else◌, ◌>>>◌}
use m99_riscv_emulator.Prelude.Text.{codes}
use m99_riscv_emulator.Isa.Opcodes

name_base : ℕ → ℕ → List ℕ
name_base funct3 funct7 =
    if funct3 == Opcodes.func3_addsub
    then (if funct7 == Opcodes.func_norm then codes "ADD" else codes "SUB")
    else if funct3 == Opcodes.func3_and
    then codes "AND"
    else if funct3 == Opcodes.func3_or
    then codes "OR"
    else if funct3 == Opcodes.func3_xor
    then codes "XOR"
    else if funct3 == Opcodes.func3_sr
    then (if funct7 == Opcodes.func_norm
        then codes "SRL"
        else if funct7 == Opcodes.func_alt
        then codes "SRA"
        else codes "UNDEF")
    else if funct3 == Opcodes.func3_sl
    then codes "SLL"
    else if funct3 == Opcodes.func3_slt
    then codes "SLT"
    else if funct3 == Opcodes.func3_sltu
    then codes "SLTU"
    else codes "UNDEF"

name_mult : ℕ → List ℕ
name_mult funct3 =
    if funct3 == Opcodes.func3_mul
    then codes "MUL"
    else if funct3 == Opcodes.func3_mulh
    then codes "MULH"
    else if funct3 == Opcodes.func3_mulhsu
    then codes "MULHSU"
    else if funct3 == Opcodes.func3_mulhu
    then codes "MULHU"
    else if funct3 == Opcodes.func3_div
    then codes "DIV"
    else if funct3 == Opcodes.func3_divu
    then codes "DIVU"
    else if funct3 == Opcodes.func3_rem
    then codes "REM"
    else if funct3 == Opcodes.func3_remu
    then codes "REMU"
    else codes "UNDEF"

unfoldable pub name_arithlog : ℕ → ℕ → List ℕ
unfolding name_base name_mult
name_arithlog funct3 funct7 =
    if funct7 == Opcodes.func_norm || funct7 == Opcodes.func_alt
    then name_base funct3 funct7
    else if funct7 == Opcodes.func_mult
    then name_mult funct3
    else codes "UNDEF"

unfoldable pub name_arithlog_64 : ℕ → ℕ → List ℕ
name_arithlog_64 funct3 funct7 =
    if funct7 == Opcodes.func_norm || funct7 == Opcodes.func_alt
    then (if funct3 == Opcodes.func3_addsub
        then (if funct7 == Opcodes.func_norm then codes "ADDW" else codes "SUBW")
        else if funct3 == Opcodes.func3_sl
        then codes "SLLW"
        else if funct3 == Opcodes.func3_sr
        then (if funct7 == Opcodes.func_norm
            then codes "SRLW"
            else if funct7 == Opcodes.func_alt
            then codes "SRAW"
            else codes "UNDEF")
        else codes "UNDEF")
    else if funct7 == Opcodes.func_mult
    then (if funct3 == Opcodes.func3_mul
        then codes "MULW"
        else if funct3 == Opcodes.func3_divu
        then codes "DIVUW"
        else if funct3 == Opcodes.func3_div
        then codes "DIVW"
        else if funct3 == Opcodes.func3_remu
        then codes "REMUW"
        else if funct3 == Opcodes.func3_rem
        then codes "REMW"
        else codes "UNDEF")
    else codes "UNDEF"

unfoldable pub name_arithlog_i : ℕ → ℕ → List ℕ
name_arithlog_i funct3 funct7 =
    if funct3 == Opcodes.func3_addsub
    then codes "ADDI"
    else if funct3 == Opcodes.func3_and
    then codes "ANDI"
    else if funct3 == Opcodes.func3_or
    then codes "ORI"
    else if funct3 == Opcodes.func3_xor
    then codes "XORI"
    else if funct3 == Opcodes.func3_sl
    then codes "SLLI"
    else if funct3 == Opcodes.func3_sr
    then (if funct7 >>> 1 == 0b000000
        then codes "SRLI"
        else if funct7 >>> 1 == 0b010000
        then codes "SRAI"
        else codes "UNDEF")
    else if funct3 == Opcodes.func3_slt
    then codes "SLTI"
    else if funct3 == Opcodes.func3_sltu
    then codes "SLTIU"
    else codes "UNDEF"

unfoldable pub name_arithlog_i64 : ℕ → ℕ → List ℕ
name_arithlog_i64 funct3 funct7 =
    if funct3 == Opcodes.func3_addsub
    then codes "ADDIW"
    else if funct3 == Opcodes.func3_sl
    then codes "SLLIW"
    else if funct3 == Opcodes.func3_sr
    then (if funct7 >>> 1 == 0b000000
        then codes "SRLIW"
        else if funct7 >>> 1 == 0b010000
        then codes "SRAIW"
        else codes "UNDEF")
    else codes "UNDEF"

unfoldable pub name_b : ℕ → List ℕ
name_b funct3 =
    if funct3 == Opcodes.func3_beq
    then codes "BEQ"
    else if funct3 == Opcodes.func3_blt
    then codes "BLT"
    else if funct3 == Opcodes.func3_bltu
    then codes "BLTU"
    else if funct3 == Opcodes.func3_bge
    then codes "BGE"
    else if funct3 == Opcodes.func3_bgeu
    then codes "BGEU"
    else if funct3 == Opcodes.func3_bne
    then codes "BNE"
    else codes "UNDEF"

unfoldable pub name_ld : ℕ → List ℕ
name_ld funct3 =
    if funct3 == Opcodes.func3_lsb
    then codes "LB"
    else if funct3 == Opcodes.func3_lsbu
    then codes "LBU"
    else if funct3 == Opcodes.func3_lsh
    then codes "LH"
    else if funct3 == Opcodes.func3_lshu
    then codes "LHU"
    else if funct3 == Opcodes.func3_lsw
    then codes "LW"
    else if funct3 == Opcodes.func3_lswu
    then codes "LWU"
    else if funct3 == Opcodes.func3_lsd
    then codes "LD"
    else codes "UNDEF"

unfoldable pub name_s : ℕ → List ℕ
name_s funct3 =
    if funct3 == Opcodes.func3_lsb
    then codes "SB"
    else if funct3 == Opcodes.func3_lsh
    then codes "SH"
    else if funct3 == Opcodes.func3_lsw
    then codes "SW"
    else if funct3 == Opcodes.func3_lsd
    then codes "SD"
    else codes "UNDEF"

-- The system instructions, by the immediate and the number of `rd`.
unfoldable pub name_system : ℕ → ℕ → List ℕ
name_system imm12 rd =
    if imm12 == 0
    then codes "ECALL"
    else if imm12 == 1
    then codes "EBREAK"
    else if imm12 == 0b001100000010
    then codes "MRET"
    else if imm12 == 0b000100000010
    then codes "SRET"
    else if imm12 >>> 5 == 0b0001001 && rd == 0
    then codes "sfence.vma"
    else codes "Undefined System Instruction"

unfoldable pub name_csr : ℕ → List ℕ
name_csr funct3 =
    if funct3 == Opcodes.func3_csrrc
    then codes "CSRRC"
    else if funct3 == Opcodes.func3_csrrci
    then codes "CSRRCI"
    else if funct3 == Opcodes.func3_csrrs
    then codes "CSRRS"
    else if funct3 == Opcodes.func3_csrrsi
    then codes "CSRRSI"
    else if funct3 == Opcodes.func3_csrrw
    then codes "CSRRW"
    else if funct3 == Opcodes.func3_csrrwi
    then codes "CSRRWI"
    else codes "UNDEF"

unfoldable pub name_fence : ℕ → List ℕ
name_fence funct3 =
    if funct3 == Opcodes.func3_fencei
    then codes "FENCEI"
    else if funct3 == Opcodes.func3_fence
    then codes "FENCE"
    else codes "UNDEF"

unfoldable pub name_amo : ℕ → ℕ → List ℕ
name_amo funct3 funct5 =
    let wide = funct3 == Opcodes.func3_amod in
    if funct5 == Opcodes.func5_amoadd
    then (if wide then codes "AMOADD.D" else codes "AMOADD.W")
    else if funct5 == Opcodes.func5_amoand
    then (if wide then codes "AMOAND.D" else codes "AMOAND.W")
    else if funct5 == Opcodes.func5_amomax
    then (if wide then codes "AMOMAX.D" else codes "AMOMAX.W")
    else if funct5 == Opcodes.func5_amomaxu
    then (if wide then codes "AMOMAXU.D" else codes "AMOMAXU.W")
    else if funct5 == Opcodes.func5_amomin
    then (if wide then codes "AMOMIN.D" else codes "AMOMIN.W")
    else if funct5 == Opcodes.func5_amominu
    then (if wide then codes "AMOMINU.D" else codes "AMOMAIN.W")
    else if funct5 == Opcodes.func5_amoor
    then (if wide then codes "AMOOR.D" else codes "AMOOR.W")
    else if funct5 == Opcodes.func5_amoxor
    then (if wide then codes "AMOXOR.D" else codes "AMOXOR.W")
    else if funct5 == Opcodes.func5_amoswap
    then (if wide then codes "AMOSWAP.D" else codes "AMOSWAP.W")
    else codes "UNDEF"
