-- ===== src/Cpu/Execute.antt =====
-- The switch of `RunCpu`: what each instruction is handed to.
use m99_riscv_emulator.Prelude.{ℕ, ◌+◌, true, Option, some, ltb, u64, of_int32, ltb_int64}
use m99_riscv_emulator.Isa.{Instruction}
use m99_riscv_emulator.SystemCall.{Host}
use m99_riscv_emulator.Cpu.{
  RiscvCpu, set_register, branch_instruction, operation_instruction, immediate_instruction,
}
use m99_riscv_emulator.Cpu.Shift.{immediate_shift_instruction}
use m99_riscv_emulator.Cpu.Csr.{csrs_instruction}
use m99_riscv_emulator.Cpu.Transfer.{load_instruction, store_instruction}
use m99_riscv_emulator.Cpu.Mult.{mult_instruction}
use m99_riscv_emulator.Cpu.Amo.{amo_instruction}
use m99_riscv_emulator.Cpu.Step.{
  bit_of, jal_instruction, jalr_instruction, sized, system_instruction,
}

unfoldable pub executed : Host → RiscvCpu → ℕ → Instruction → ℕ → ℕ → ℕ → ℕ → Option RiscvCpu
executed host cpu csr Instruction.add rd rs1 rs2 imm =
    operation_instruction cpu Instruction.add rd rs1 rs2
executed host cpu csr Instruction.addw rd rs1 rs2 imm =
    operation_instruction cpu Instruction.addw rd rs1 rs2
executed host cpu csr Instruction.and rd rs1 rs2 imm =
    operation_instruction cpu Instruction.and rd rs1 rs2
executed host cpu csr Instruction.sub rd rs1 rs2 imm =
    operation_instruction cpu Instruction.sub rd rs1 rs2
executed host cpu csr Instruction.subw rd rs1 rs2 imm =
    operation_instruction cpu Instruction.subw rd rs1 rs2
executed host cpu csr Instruction.or rd rs1 rs2 imm =
    operation_instruction cpu Instruction.or rd rs1 rs2
executed host cpu csr Instruction.xor rd rs1 rs2 imm =
    operation_instruction cpu Instruction.xor rd rs1 rs2
executed host cpu csr Instruction.sll rd rs1 rs2 imm =
    operation_instruction cpu Instruction.sll rd rs1 rs2
executed host cpu csr Instruction.sllw rd rs1 rs2 imm =
    operation_instruction cpu Instruction.sllw rd rs1 rs2
executed host cpu csr Instruction.srl rd rs1 rs2 imm =
    operation_instruction cpu Instruction.srl rd rs1 rs2
executed host cpu csr Instruction.srlw rd rs1 rs2 imm =
    operation_instruction cpu Instruction.srlw rd rs1 rs2
executed host cpu csr Instruction.sra rd rs1 rs2 imm =
    operation_instruction cpu Instruction.sra rd rs1 rs2
executed host cpu csr Instruction.sraw rd rs1 rs2 imm =
    operation_instruction cpu Instruction.sraw rd rs1 rs2
executed host cpu csr Instruction.addi rd rs1 rs2 imm =
    immediate_instruction cpu Instruction.addi rd rs1 imm
executed host cpu csr Instruction.addiw rd rs1 rs2 imm =
    immediate_instruction cpu Instruction.addiw rd rs1 imm
executed host cpu csr Instruction.andi rd rs1 rs2 imm =
    immediate_instruction cpu Instruction.andi rd rs1 imm
executed host cpu csr Instruction.ori rd rs1 rs2 imm =
    immediate_instruction cpu Instruction.ori rd rs1 imm
executed host cpu csr Instruction.xori rd rs1 rs2 imm =
    immediate_instruction cpu Instruction.xori rd rs1 imm
executed host cpu csr Instruction.slli rd rs1 rs2 imm =
    immediate_shift_instruction cpu Instruction.slli rd rs1 imm
executed host cpu csr Instruction.slliw rd rs1 rs2 imm =
    immediate_shift_instruction cpu Instruction.slliw rd rs1 imm
executed host cpu csr Instruction.srli rd rs1 rs2 imm =
    immediate_shift_instruction cpu Instruction.srli rd rs1 imm
executed host cpu csr Instruction.srliw rd rs1 rs2 imm =
    immediate_shift_instruction cpu Instruction.srliw rd rs1 imm
executed host cpu csr Instruction.srai rd rs1 rs2 imm =
    immediate_shift_instruction cpu Instruction.srai rd rs1 imm
executed host cpu csr Instruction.sraiw rd rs1 rs2 imm =
    immediate_shift_instruction cpu Instruction.sraiw rd rs1 imm
executed host cpu csr Instruction.slt rd rs1 rs2 imm =
    some (set_register cpu rd (bit_of (ltb_int64 (cpu.reg rs1) (cpu.reg rs2))))
executed host cpu csr Instruction.sltu rd rs1 rs2 imm =
    some (set_register cpu rd (bit_of (ltb (cpu.reg rs1) (cpu.reg rs2))))
executed host cpu csr Instruction.slti rd rs1 rs2 imm =
    some (set_register cpu rd (bit_of (ltb_int64 (cpu.reg rs1) (of_int32 imm))))
executed host cpu csr Instruction.sltiu rd rs1 rs2 imm =
    some (set_register cpu rd (bit_of (ltb (cpu.reg rs1) (of_int32 imm))))
executed host cpu csr Instruction.beq rd rs1 rs2 imm =
    some (record cpu { next_pc = branch_instruction cpu Instruction.beq rs1 rs2 imm })
executed host cpu csr Instruction.bge rd rs1 rs2 imm =
    some (record cpu { next_pc = branch_instruction cpu Instruction.bge rs1 rs2 imm })
executed host cpu csr Instruction.bgeu rd rs1 rs2 imm =
    some (record cpu { next_pc = branch_instruction cpu Instruction.bgeu rs1 rs2 imm })
executed host cpu csr Instruction.blt rd rs1 rs2 imm =
    some (record cpu { next_pc = branch_instruction cpu Instruction.blt rs1 rs2 imm })
executed host cpu csr Instruction.bltu rd rs1 rs2 imm =
    some (record cpu { next_pc = branch_instruction cpu Instruction.bltu rs1 rs2 imm })
executed host cpu csr Instruction.bne rd rs1 rs2 imm =
    some (record cpu { next_pc = branch_instruction cpu Instruction.bne rs1 rs2 imm })
executed host cpu csr Instruction.jal rd rs1 rs2 imm = some (jal_instruction cpu rd imm)
executed host cpu csr Instruction.jalr rd rs1 rs2 imm = some (jalr_instruction cpu rd rs1 imm)
executed host cpu csr Instruction.lb rd rs1 rs2 imm = load_instruction cpu Instruction.lb rd rs1 imm
executed host cpu csr Instruction.lbu rd rs1 rs2 imm =
    load_instruction cpu Instruction.lbu rd rs1 imm
executed host cpu csr Instruction.lh rd rs1 rs2 imm = load_instruction cpu Instruction.lh rd rs1 imm
executed host cpu csr Instruction.lhu rd rs1 rs2 imm =
    load_instruction cpu Instruction.lhu rd rs1 imm
executed host cpu csr Instruction.lw rd rs1 rs2 imm = load_instruction cpu Instruction.lw rd rs1 imm
executed host cpu csr Instruction.lwu rd rs1 rs2 imm =
    load_instruction cpu Instruction.lwu rd rs1 imm
executed host cpu csr Instruction.ld rd rs1 rs2 imm = load_instruction cpu Instruction.ld rd rs1 imm
executed host cpu csr Instruction.sb rd rs1 rs2 imm =
    store_instruction cpu Instruction.sb rs1 rs2 imm
executed host cpu csr Instruction.sh rd rs1 rs2 imm =
    store_instruction cpu Instruction.sh rs1 rs2 imm
executed host cpu csr Instruction.sw rd rs1 rs2 imm =
    store_instruction cpu Instruction.sw rs1 rs2 imm
executed host cpu csr Instruction.sd rd rs1 rs2 imm =
    store_instruction cpu Instruction.sd rs1 rs2 imm
executed host cpu csr Instruction.lui rd rs1 rs2 imm =
    some (set_register cpu rd (sized cpu (of_int32 imm)))
executed host cpu csr Instruction.auipc rd rs1 rs2 imm =
    some (set_register cpu rd (sized cpu (u64 (cpu.pc + of_int32 imm))))
executed host cpu csr Instruction.system rd rs1 rs2 imm = system_instruction host cpu rd imm
executed host cpu csr Instruction.csrrc rd rs1 rs2 imm =
    some (csrs_instruction cpu Instruction.csrrc csr rd rs1)
executed host cpu csr Instruction.csrrci rd rs1 rs2 imm =
    some (csrs_instruction cpu Instruction.csrrci csr rd rs1)
executed host cpu csr Instruction.csrrs rd rs1 rs2 imm =
    some (csrs_instruction cpu Instruction.csrrs csr rd rs1)
executed host cpu csr Instruction.csrrsi rd rs1 rs2 imm =
    some (csrs_instruction cpu Instruction.csrrsi csr rd rs1)
executed host cpu csr Instruction.csrrw rd rs1 rs2 imm =
    some (csrs_instruction cpu Instruction.csrrw csr rd rs1)
executed host cpu csr Instruction.csrrwi rd rs1 rs2 imm =
    some (csrs_instruction cpu Instruction.csrrwi csr rd rs1)
executed host cpu csr Instruction.fence rd rs1 rs2 imm = some cpu
executed host cpu csr Instruction.fencei rd rs1 rs2 imm = some cpu
executed host cpu csr Instruction.mul rd rs1 rs2 imm =
    mult_instruction cpu Instruction.mul rd rs1 rs2
executed host cpu csr Instruction.mulh rd rs1 rs2 imm =
    mult_instruction cpu Instruction.mulh rd rs1 rs2
executed host cpu csr Instruction.mulhsu rd rs1 rs2 imm =
    mult_instruction cpu Instruction.mulhsu rd rs1 rs2
executed host cpu csr Instruction.mulhu rd rs1 rs2 imm =
    mult_instruction cpu Instruction.mulhu rd rs1 rs2
executed host cpu csr Instruction.mulw rd rs1 rs2 imm =
    mult_instruction cpu Instruction.mulw rd rs1 rs2
executed host cpu csr Instruction.div rd rs1 rs2 imm =
    mult_instruction cpu Instruction.div rd rs1 rs2
executed host cpu csr Instruction.divu rd rs1 rs2 imm =
    mult_instruction cpu Instruction.divu rd rs1 rs2
executed host cpu csr Instruction.divuw rd rs1 rs2 imm =
    mult_instruction cpu Instruction.divuw rd rs1 rs2
executed host cpu csr Instruction.divw rd rs1 rs2 imm =
    mult_instruction cpu Instruction.divw rd rs1 rs2
executed host cpu csr Instruction.rem rd rs1 rs2 imm =
    mult_instruction cpu Instruction.rem rd rs1 rs2
executed host cpu csr Instruction.remu rd rs1 rs2 imm =
    mult_instruction cpu Instruction.remu rd rs1 rs2
executed host cpu csr Instruction.remuw rd rs1 rs2 imm =
    mult_instruction cpu Instruction.remuw rd rs1 rs2
executed host cpu csr Instruction.remw rd rs1 rs2 imm =
    mult_instruction cpu Instruction.remw rd rs1 rs2
executed host cpu csr Instruction.amoaddd rd rs1 rs2 imm =
    amo_instruction cpu Instruction.amoaddd rd rs1 rs2
executed host cpu csr Instruction.amoaddw rd rs1 rs2 imm =
    amo_instruction cpu Instruction.amoaddw rd rs1 rs2
executed host cpu csr Instruction.amoandd rd rs1 rs2 imm =
    amo_instruction cpu Instruction.amoandd rd rs1 rs2
executed host cpu csr Instruction.amoandw rd rs1 rs2 imm =
    amo_instruction cpu Instruction.amoandw rd rs1 rs2
executed host cpu csr Instruction.amomaxd rd rs1 rs2 imm =
    amo_instruction cpu Instruction.amomaxd rd rs1 rs2
executed host cpu csr Instruction.amomaxw rd rs1 rs2 imm =
    amo_instruction cpu Instruction.amomaxw rd rs1 rs2
executed host cpu csr Instruction.amomaxud rd rs1 rs2 imm =
    amo_instruction cpu Instruction.amomaxud rd rs1 rs2
executed host cpu csr Instruction.amomaxuw rd rs1 rs2 imm =
    amo_instruction cpu Instruction.amomaxuw rd rs1 rs2
executed host cpu csr Instruction.amomind rd rs1 rs2 imm =
    amo_instruction cpu Instruction.amomind rd rs1 rs2
executed host cpu csr Instruction.amominw rd rs1 rs2 imm =
    amo_instruction cpu Instruction.amominw rd rs1 rs2
executed host cpu csr Instruction.amominud rd rs1 rs2 imm =
    amo_instruction cpu Instruction.amominud rd rs1 rs2
executed host cpu csr Instruction.amominuw rd rs1 rs2 imm =
    amo_instruction cpu Instruction.amominuw rd rs1 rs2
executed host cpu csr Instruction.amoord rd rs1 rs2 imm =
    amo_instruction cpu Instruction.amoord rd rs1 rs2
executed host cpu csr Instruction.amoorw rd rs1 rs2 imm =
    amo_instruction cpu Instruction.amoorw rd rs1 rs2
executed host cpu csr Instruction.amoxord rd rs1 rs2 imm =
    amo_instruction cpu Instruction.amoxord rd rs1 rs2
executed host cpu csr Instruction.amoxorw rd rs1 rs2 imm =
    amo_instruction cpu Instruction.amoxorw rd rs1 rs2
executed host cpu csr Instruction.amoswapd rd rs1 rs2 imm =
    amo_instruction cpu Instruction.amoswapd rd rs1 rs2
executed host cpu csr Instruction.amoswapw rd rs1 rs2 imm =
    amo_instruction cpu Instruction.amoswapw rd rs1 rs2
executed host cpu csr Instruction.error rd rs1 rs2 imm = some (record cpu { error_flag = true })
