-- ===== src/Decode/Code32.antt =====
-- `GetCode32` of RISCV_cpu.cc: one function for each opcode, over the fields of the word.
use m99_riscv_emulator.Prelude.{ℕ, ◌||◌, ◌==◌, if◌then◌else◌, ◌>>>◌}
use m99_riscv_emulator.BitTools.{bitcrop}
use m99_riscv_emulator.Isa.{Instruction}
use m99_riscv_emulator.Isa.Opcodes

-- funct7 0b0000000 and 0b0100000.
code_base : ℕ → ℕ → Instruction
code_base funct3 funct7 =
    if funct3 == Opcodes.func3_addsub
    then if funct7 == Opcodes.func_norm then Instruction.add else Instruction.sub
    else if funct3 == Opcodes.func3_and
    then Instruction.and
    else if funct3 == Opcodes.func3_or
    then Instruction.or
    else if funct3 == Opcodes.func3_xor
    then Instruction.xor
    else if funct3 == Opcodes.func3_sr
    then if funct7 == Opcodes.func_norm
      then Instruction.srl
      else if funct7 == Opcodes.func_alt
      then Instruction.sra
      else Instruction.error
    else if funct3 == Opcodes.func3_sl
    then Instruction.sll
    else if funct3 == Opcodes.func3_slt
    then Instruction.slt
    else if funct3 == Opcodes.func3_sltu
    then Instruction.sltu
    else Instruction.error

code_mult : ℕ → Instruction
code_mult funct3 =
    if funct3 == Opcodes.func3_mul
    then Instruction.mul
    else if funct3 == Opcodes.func3_mulh
    then Instruction.mulh
    else if funct3 == Opcodes.func3_mulhsu
    then Instruction.mulhsu
    else if funct3 == Opcodes.func3_mulhu
    then Instruction.mulhu
    else if funct3 == Opcodes.func3_div
    then Instruction.div
    else if funct3 == Opcodes.func3_divu
    then Instruction.divu
    else if funct3 == Opcodes.func3_rem
    then Instruction.rem
    else if funct3 == Opcodes.func3_remu
    then Instruction.remu
    else Instruction.error

unfoldable pub code_arithlog : ℕ → ℕ → Instruction
unfolding code_base code_mult
code_arithlog funct3 funct7 =
    if funct7 == Opcodes.func_norm || funct7 == Opcodes.func_alt
    then code_base funct3 funct7
    else if funct7 == Opcodes.func_mult
    then code_mult funct3
    else Instruction.error

unfoldable pub code_arithlog_64 : ℕ → ℕ → Instruction
code_arithlog_64 funct3 funct7 =
    if funct7 == Opcodes.func_norm || funct7 == Opcodes.func_alt
    then if funct3 == Opcodes.func3_addsub
      then if funct7 == Opcodes.func_norm then Instruction.addw else Instruction.subw
      else if funct3 == Opcodes.func3_sl
      then Instruction.sllw
      else if funct3 == Opcodes.func3_sr
      then if funct7 == Opcodes.func_norm
        then Instruction.srlw
        else if funct7 == Opcodes.func_alt
        then Instruction.sraw
        else Instruction.error
      else Instruction.error
    else if funct7 == Opcodes.func_mult
    then if funct3 == Opcodes.func3_mul
      then Instruction.mulw
      else if funct3 == Opcodes.func3_divu
      then Instruction.divuw
      else if funct3 == Opcodes.func3_div
      then Instruction.divw
      else if funct3 == Opcodes.func3_remu
      then Instruction.remuw
      else if funct3 == Opcodes.func3_rem
      then Instruction.remw
      else Instruction.error
    else Instruction.error

unfoldable pub code_arithlog_i : ℕ → ℕ → Instruction
code_arithlog_i funct3 funct7 =
    if funct3 == Opcodes.func3_addsub
    then Instruction.addi
    else if funct3 == Opcodes.func3_and
    then Instruction.andi
    else if funct3 == Opcodes.func3_or
    then Instruction.ori
    else if funct3 == Opcodes.func3_xor
    then Instruction.xori
    else if funct3 == Opcodes.func3_sl
    then Instruction.slli
    else if funct3 == Opcodes.func3_sr
    then if funct7 >>> 1 == 0b000000
      then Instruction.srli
      else if funct7 >>> 1 == 0b010000
      then Instruction.srai
      else Instruction.error
    else if funct3 == Opcodes.func3_slt
    then Instruction.slti
    else if funct3 == Opcodes.func3_sltu
    then Instruction.sltiu
    else Instruction.error

unfoldable pub code_arithlog_i64 : ℕ → ℕ → Instruction
code_arithlog_i64 funct3 funct7 =
    if funct3 == Opcodes.func3_addsub
    then Instruction.addiw
    else if funct3 == Opcodes.func3_sl
    then Instruction.slliw
    else if funct3 == Opcodes.func3_sr
    then if funct7 >>> 1 == 0b000000
      then Instruction.srliw
      else if funct7 >>> 1 == 0b010000
      then Instruction.sraiw
      else Instruction.error
    else Instruction.error

unfoldable pub code_b : ℕ → Instruction
code_b funct3 =
    if funct3 == Opcodes.func3_beq
    then Instruction.beq
    else if funct3 == Opcodes.func3_blt
    then Instruction.blt
    else if funct3 == Opcodes.func3_bltu
    then Instruction.bltu
    else if funct3 == Opcodes.func3_bge
    then Instruction.bge
    else if funct3 == Opcodes.func3_bgeu
    then Instruction.bgeu
    else if funct3 == Opcodes.func3_bne
    then Instruction.bne
    else Instruction.error

unfoldable pub code_ld : ℕ → Instruction
code_ld funct3 =
    if funct3 == Opcodes.func3_lsb
    then Instruction.lb
    else if funct3 == Opcodes.func3_lsbu
    then Instruction.lbu
    else if funct3 == Opcodes.func3_lsh
    then Instruction.lh
    else if funct3 == Opcodes.func3_lshu
    then Instruction.lhu
    else if funct3 == Opcodes.func3_lsw
    then Instruction.lw
    else if funct3 == Opcodes.func3_lswu
    then Instruction.lwu
    else if funct3 == Opcodes.func3_lsd
    then Instruction.ld
    else Instruction.error

unfoldable pub code_s : ℕ → Instruction
code_s funct3 =
    if funct3 == Opcodes.func3_lsb
    then Instruction.sb
    else if funct3 == Opcodes.func3_lsh
    then Instruction.sh
    else if funct3 == Opcodes.func3_lsw
    then Instruction.sw
    else if funct3 == Opcodes.func3_lsd
    then Instruction.sd
    else Instruction.error

unfoldable pub code_system : ℕ → Instruction
code_system funct3 =
    if funct3 == Opcodes.func3_system
    then Instruction.system
    else if funct3 == Opcodes.func3_csrrc
    then Instruction.csrrc
    else if funct3 == Opcodes.func3_csrrci
    then Instruction.csrrci
    else if funct3 == Opcodes.func3_csrrs
    then Instruction.csrrs
    else if funct3 == Opcodes.func3_csrrsi
    then Instruction.csrrsi
    else if funct3 == Opcodes.func3_csrrw
    then Instruction.csrrw
    else if funct3 == Opcodes.func3_csrrwi
    then Instruction.csrrwi
    else Instruction.error

unfoldable pub code_amo : ℕ → ℕ → Instruction
code_amo funct3 funct5 =
    let wide = funct3 == Opcodes.func3_amod in
    if funct5 == Opcodes.func5_amoadd
    then if wide then Instruction.amoaddd else Instruction.amoaddw
    else if funct5 == Opcodes.func5_amoand
    then if wide then Instruction.amoandd else Instruction.amoandw
    else if funct5 == Opcodes.func5_amomax
    then if wide then Instruction.amomaxd else Instruction.amomaxw
    else if funct5 == Opcodes.func5_amomaxu
    then if wide then Instruction.amomaxud else Instruction.amomaxuw
    else if funct5 == Opcodes.func5_amomin
    then if wide then Instruction.amomind else Instruction.amominw
    else if funct5 == Opcodes.func5_amominu
    then if wide then Instruction.amominud else Instruction.amominuw
    else if funct5 == Opcodes.func5_amoor
    then if wide then Instruction.amoord else Instruction.amoorw
    else if funct5 == Opcodes.func5_amoxor
    then if wide then Instruction.amoxord else Instruction.amoxorw
    else if funct5 == Opcodes.func5_amoswap
    then if wide then Instruction.amoswapd else Instruction.amoswapw
    else Instruction.error

-- The dispatch on the opcode, over the three fields.
unfoldable pub code_of : ℕ → ℕ → ℕ → Instruction
unfolding code_arithlog code_arithlog_64 code_arithlog_i code_arithlog_i64 code_b code_ld code_s
    code_system code_amo
code_of opcode funct3 funct7 =
    if opcode == Opcodes.opcode_arithlog
    then code_arithlog funct3 funct7
    else if opcode == Opcodes.opcode_arithlog_64
    then code_arithlog_64 funct3 funct7
    else if opcode == Opcodes.opcode_arithlog_i
    then code_arithlog_i funct3 funct7
    else if opcode == Opcodes.opcode_arithlog_i64
    then code_arithlog_i64 funct3 funct7
    else if opcode == Opcodes.opcode_b
    then code_b funct3
    else if opcode == Opcodes.opcode_j
    then Instruction.jal
    else if opcode == Opcodes.opcode_jalr
    then if funct3 == Opcodes.func3_jalr then Instruction.jalr else Instruction.error
    else if opcode == Opcodes.opcode_ld
    then code_ld funct3
    else if opcode == Opcodes.opcode_s
    then code_s funct3
    else if opcode == Opcodes.opcode_lui
    then Instruction.lui
    else if opcode == Opcodes.opcode_auipc
    then Instruction.auipc
    else if opcode == Opcodes.opcode_system
    then code_system funct3
    else if opcode == Opcodes.opcode_fence
    then if funct3 == Opcodes.func3_fencei
      then Instruction.fencei
      else if funct3 == Opcodes.func3_fence
      then Instruction.fence
      else Instruction.error
    else if opcode == Opcodes.opcode_amo
    then code_amo funct3 (funct7 >>> 2)
    else Instruction.error

unfoldable pub get_code32 : ℕ → Instruction
unfolding code_of
get_code32 ir = code_of (bitcrop ir 7 0) (bitcrop ir 3 12) (bitcrop ir 7 25)
