-- ===== src/Isa.antt =====
-- The decoded instructions, `enum instruction` of RISCV_cpu.h, which the program keeps in a
-- `uint32_t`.
pub mod Opcodes
pub mod Csrs
pub mod Causes

pub data Instruction : Type 0 where
  error add addw and sub subw or xor sll sllw : Instruction
  srl srlw sra sraw slt sltu addi addiw andi ori : Instruction
  xori slli slliw srli srliw srai sraiw slti sltiu beq : Instruction
  bge bgeu blt bltu bne jal jalr lb lbu lh : Instruction
  lhu lw lwu ld sb sh sw sd lui auipc : Instruction
  system csrrc csrrci csrrs csrrsi csrrw csrrwi fence fencei mul : Instruction
  mulh mulhsu mulhu mulw div divu divuw divw rem remu : Instruction
  remuw remw amoaddd amoaddw amoandd amoandw amomaxd amomaxw amomaxud amomaxuw : Instruction
  amomind amominw amominud amominuw amoord amoorw amoxord amoxorw amoswapd amoswapw : Instruction
