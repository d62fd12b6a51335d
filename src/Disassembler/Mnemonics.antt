-- ===== src/Disassembler/Mnemonics.antt =====
-- The names in the texts are the names of the instructions that `GetCode32` finds.
use mathlib.Core.List.{List}
use m99_riscv_emulator.Prelude.{ℕ, ◌≡◌, ◌≢◌, arith, false, ◌==◌}
use m99_riscv_emulator.Prelude.Text.{codes}
use m99_riscv_emulator.Isa.{Instruction}
use m99_riscv_emulator.Isa.Opcodes
use m99_riscv_emulator.Decode.Code32.{
  code_arithlog, code_arithlog_64, code_arithlog_i, code_arithlog_i64, code_b, code_ld, code_s,
  code_system, code_amo,
}
use m99_riscv_emulator.Disassembler.Names.{
  name_arithlog, name_arithlog_64, name_arithlog_i, name_arithlog_i64, name_b, name_ld, name_s,
  name_csr, name_amo,
}

-- The name of an instruction.
unfoldable pub mnemonic : Instruction → List ℕ
mnemonic Instruction.add = codes "ADD"
mnemonic Instruction.addw = codes "ADDW"
mnemonic Instruction.and = codes "AND"
mnemonic Instruction.sub = codes "SUB"
mnemonic Instruction.subw = codes "SUBW"
mnemonic Instruction.or = codes "OR"
mnemonic Instruction.xor = codes "XOR"
mnemonic Instruction.sll = codes "SLL"
mnemonic Instruction.sllw = codes "SLLW"
mnemonic Instruction.srl = codes "SRL"
mnemonic Instruction.srlw = codes "SRLW"
mnemonic Instruction.sra = codes "SRA"
mnemonic Instruction.sraw = codes "SRAW"
mnemonic Instruction.slt = codes "SLT"
mnemonic Instruction.sltu = codes "SLTU"
mnemonic Instruction.addi = codes "ADDI"
mnemonic Instruction.addiw = codes "ADDIW"
mnemonic Instruction.andi = codes "ANDI"
mnemonic Instruction.ori = codes "ORI"
mnemonic Instruction.xori = codes "XORI"
mnemonic Instruction.slli = codes "SLLI"
mnemonic Instruction.slliw = codes "SLLIW"
mnemonic Instruction.srli = codes "SRLI"
mnemonic Instruction.srliw = codes "SRLIW"
mnemonic Instruction.srai = codes "SRAI"
mnemonic Instruction.sraiw = codes "SRAIW"
mnemonic Instruction.slti = codes "SLTI"
mnemonic Instruction.sltiu = codes "SLTIU"
mnemonic Instruction.beq = codes "BEQ"
mnemonic Instruction.bge = codes "BGE"
mnemonic Instruction.bgeu = codes "BGEU"
mnemonic Instruction.blt = codes "BLT"
mnemonic Instruction.bltu = codes "BLTU"
mnemonic Instruction.bne = codes "BNE"
mnemonic Instruction.jal = codes "JAL"
mnemonic Instruction.jalr = codes "JALR"
mnemonic Instruction.lb = codes "LB"
mnemonic Instruction.lbu = codes "LBU"
mnemonic Instruction.lh = codes "LH"
mnemonic Instruction.lhu = codes "LHU"
mnemonic Instruction.lw = codes "LW"
mnemonic Instruction.lwu = codes "LWU"
mnemonic Instruction.ld = codes "LD"
mnemonic Instruction.sb = codes "SB"
mnemonic Instruction.sh = codes "SH"
mnemonic Instruction.sw = codes "SW"
mnemonic Instruction.sd = codes "SD"
mnemonic Instruction.lui = codes "LUI"
mnemonic Instruction.auipc = codes "AUIPC"
mnemonic Instruction.csrrc = codes "CSRRC"
mnemonic Instruction.csrrci = codes "CSRRCI"
mnemonic Instruction.csrrs = codes "CSRRS"
mnemonic Instruction.csrrsi = codes "CSRRSI"
mnemonic Instruction.csrrw = codes "CSRRW"
mnemonic Instruction.csrrwi = codes "CSRRWI"
mnemonic Instruction.fence = codes "FENCE"
mnemonic Instruction.fencei = codes "FENCEI"
mnemonic Instruction.mul = codes "MUL"
mnemonic Instruction.mulh = codes "MULH"
mnemonic Instruction.mulhsu = codes "MULHSU"
mnemonic Instruction.mulhu = codes "MULHU"
mnemonic Instruction.mulw = codes "MULW"
mnemonic Instruction.div = codes "DIV"
mnemonic Instruction.divu = codes "DIVU"
mnemonic Instruction.divuw = codes "DIVUW"
mnemonic Instruction.divw = codes "DIVW"
mnemonic Instruction.rem = codes "REM"
mnemonic Instruction.remu = codes "REMU"
mnemonic Instruction.remuw = codes "REMUW"
mnemonic Instruction.remw = codes "REMW"
mnemonic Instruction.amoaddd = codes "AMOADD.D"
mnemonic Instruction.amoaddw = codes "AMOADD.W"
mnemonic Instruction.amoandd = codes "AMOAND.D"
mnemonic Instruction.amoandw = codes "AMOAND.W"
mnemonic Instruction.amomaxd = codes "AMOMAX.D"
mnemonic Instruction.amomaxw = codes "AMOMAX.W"
mnemonic Instruction.amomaxud = codes "AMOMAXU.D"
mnemonic Instruction.amomaxuw = codes "AMOMAXU.W"
mnemonic Instruction.amomind = codes "AMOMIN.D"
mnemonic Instruction.amominw = codes "AMOMIN.W"
mnemonic Instruction.amominud = codes "AMOMINU.D"
mnemonic Instruction.amominuw = codes "AMOMINU.W"
mnemonic Instruction.amoord = codes "AMOOR.D"
mnemonic Instruction.amoorw = codes "AMOOR.W"
mnemonic Instruction.amoxord = codes "AMOXOR.D"
mnemonic Instruction.amoxorw = codes "AMOXOR.W"
mnemonic Instruction.amoswapd = codes "AMOSWAP.D"
mnemonic Instruction.amoswapw = codes "AMOSWAP.W"
mnemonic _ = codes "UNDEF"

pub arithlog_lem :
    (funct3 funct7 : ℕ) → name_arithlog funct3 funct7 ≡ mnemonic (code_arithlog funct3 funct7)
unfolding name_arithlog code_arithlog mnemonic
arithlog_lem funct3 funct7 = ground arith

pub arithlog_64_lem :
    (funct3 funct7 : ℕ) → name_arithlog_64 funct3 funct7 ≡ mnemonic (code_arithlog_64 funct3 funct7)
unfolding name_arithlog_64 code_arithlog_64 mnemonic
arithlog_64_lem funct3 funct7 = ground arith

pub arithlog_i_lem :
    (funct3 funct7 : ℕ) → name_arithlog_i funct3 funct7 ≡ mnemonic (code_arithlog_i funct3 funct7)
unfolding name_arithlog_i code_arithlog_i mnemonic
arithlog_i_lem funct3 funct7 = ground arith

pub arithlog_i64_lem :
    (funct3 funct7 : ℕ)
    → name_arithlog_i64 funct3 funct7 ≡ mnemonic (code_arithlog_i64 funct3 funct7)
unfolding name_arithlog_i64 code_arithlog_i64 mnemonic
arithlog_i64_lem funct3 funct7 = ground arith

pub b_lem : (funct3 : ℕ) → name_b funct3 ≡ mnemonic (code_b funct3)
unfolding name_b code_b mnemonic
b_lem funct3 = ground arith

pub ld_lem : (funct3 : ℕ) → name_ld funct3 ≡ mnemonic (code_ld funct3)
unfolding name_ld code_ld mnemonic
ld_lem funct3 = ground arith

pub s_lem : (funct3 : ℕ) → name_s funct3 ≡ mnemonic (code_s funct3)
unfolding name_s code_s mnemonic
s_lem funct3 = ground arith

pub csr_lem :
    (funct3 : ℕ)
    → (funct3 == Opcodes.func3_system) ≡ false
    → name_csr funct3 ≡ mnemonic (code_system funct3)
unfolding name_csr code_system mnemonic
csr_lem funct3 h = ground arith

pub amo_lem :
    (funct3 funct5 : ℕ)
    → code_amo funct3 funct5 ≢ Instruction.amominuw
    → name_amo funct3 funct5 ≡ mnemonic (code_amo funct3 funct5)
unfolding name_amo code_amo mnemonic
amo_lem funct3 funct5 h = ground arith
