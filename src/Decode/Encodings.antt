-- ===== src/Decode/Encodings.antt =====
-- The base encodings of the RISC-V instruction set manual: which opcode, funct3 and funct7 stand for
-- an instruction. Shifts by an immediate leave the low bit of funct7 to the shift amount, or to a
-- zero in the 32-bit forms; atomic operations leave its low two bits to the ordering flags.
use m99_riscv_emulator.Prelude.{ℕ, Bool, false, ◌&&◌, ◌==◌, ◌>>>◌}
use m99_riscv_emulator.Isa.{Instruction}

unfoldable pub encodes : Instruction → ℕ → ℕ → ℕ → Bool
encodes Instruction.add opcode funct3 funct7 =
    opcode == 0b0110011 && funct3 == 0b000 && funct7 == 0b0000000
encodes Instruction.sub opcode funct3 funct7 =
    opcode == 0b0110011 && funct3 == 0b000 && funct7 == 0b0100000
encodes Instruction.sll opcode funct3 funct7 =
    opcode == 0b0110011 && funct3 == 0b001 && funct7 == 0b0000000
encodes Instruction.slt opcode funct3 funct7 =
    opcode == 0b0110011 && funct3 == 0b010 && funct7 == 0b0000000
encodes Instruction.sltu opcode funct3 funct7 =
    opcode == 0b0110011 && funct3 == 0b011 && funct7 == 0b0000000
encodes Instruction.xor opcode funct3 funct7 =
    opcode == 0b0110011 && funct3 == 0b100 && funct7 == 0b0000000
encodes Instruction.srl opcode funct3 funct7 =
    opcode == 0b0110011 && funct3 == 0b101 && funct7 == 0b0000000
encodes Instruction.sra opcode funct3 funct7 =
    opcode == 0b0110011 && funct3 == 0b101 && funct7 == 0b0100000
encodes Instruction.or opcode funct3 funct7 =
    opcode == 0b0110011 && funct3 == 0b110 && funct7 == 0b0000000
encodes Instruction.and opcode funct3 funct7 =
    opcode == 0b0110011 && funct3 == 0b111 && funct7 == 0b0000000
encodes Instruction.mul opcode funct3 funct7 =
    opcode == 0b0110011 && funct3 == 0b000 && funct7 == 0b0000001
encodes Instruction.mulh opcode funct3 funct7 =
    opcode == 0b0110011 && funct3 == 0b001 && funct7 == 0b0000001
encodes Instruction.mulhsu opcode funct3 funct7 =
    opcode == 0b0110011 && funct3 == 0b010 && funct7 == 0b0000001
encodes Instruction.mulhu opcode funct3 funct7 =
    opcode == 0b0110011 && funct3 == 0b011 && funct7 == 0b0000001
encodes Instruction.div opcode funct3 funct7 =
    opcode == 0b0110011 && funct3 == 0b100 && funct7 == 0b0000001
encodes Instruction.divu opcode funct3 funct7 =
    opcode == 0b0110011 && funct3 == 0b101 && funct7 == 0b0000001
encodes Instruction.rem opcode funct3 funct7 =
    opcode == 0b0110011 && funct3 == 0b110 && funct7 == 0b0000001
encodes Instruction.remu opcode funct3 funct7 =
    opcode == 0b0110011 && funct3 == 0b111 && funct7 == 0b0000001
encodes Instruction.addw opcode funct3 funct7 =
    opcode == 0b0111011 && funct3 == 0b000 && funct7 == 0b0000000
encodes Instruction.subw opcode funct3 funct7 =
    opcode == 0b0111011 && funct3 == 0b000 && funct7 == 0b0100000
encodes Instruction.sllw opcode funct3 funct7 =
    opcode == 0b0111011 && funct3 == 0b001 && funct7 == 0b0000000
encodes Instruction.srlw opcode funct3 funct7 =
    opcode == 0b0111011 && funct3 == 0b101 && funct7 == 0b0000000
encodes Instruction.sraw opcode funct3 funct7 =
    opcode == 0b0111011 && funct3 == 0b101 && funct7 == 0b0100000
encodes Instruction.mulw opcode funct3 funct7 =
    opcode == 0b0111011 && funct3 == 0b000 && funct7 == 0b0000001
encodes Instruction.divw opcode funct3 funct7 =
    opcode == 0b0111011 && funct3 == 0b100 && funct7 == 0b0000001
encodes Instruction.divuw opcode funct3 funct7 =
    opcode == 0b0111011 && funct3 == 0b101 && funct7 == 0b0000001
encodes Instruction.remw opcode funct3 funct7 =
    opcode == 0b0111011 && funct3 == 0b110 && funct7 == 0b0000001
encodes Instruction.remuw opcode funct3 funct7 =
    opcode == 0b0111011 && funct3 == 0b111 && funct7 == 0b0000001
encodes Instruction.addi opcode funct3 funct7 = opcode == 0b0010011 && funct3 == 0b000
encodes Instruction.slti opcode funct3 funct7 = opcode == 0b0010011 && funct3 == 0b010
encodes Instruction.sltiu opcode funct3 funct7 = opcode == 0b0010011 && funct3 == 0b011
encodes Instruction.xori opcode funct3 funct7 = opcode == 0b0010011 && funct3 == 0b100
encodes Instruction.ori opcode funct3 funct7 = opcode == 0b0010011 && funct3 == 0b110
encodes Instruction.andi opcode funct3 funct7 = opcode == 0b0010011 && funct3 == 0b111
encodes Instruction.slli opcode funct3 funct7 =
    opcode == 0b0010011 && funct3 == 0b001 && funct7 >>> 1 == 0b000000
encodes Instruction.srli opcode funct3 funct7 =
    opcode == 0b0010011 && funct3 == 0b101 && funct7 >>> 1 == 0b000000
encodes Instruction.srai opcode funct3 funct7 =
    opcode == 0b0010011 && funct3 == 0b101 && funct7 >>> 1 == 0b010000
encodes Instruction.addiw opcode funct3 funct7 = opcode == 0b0011011 && funct3 == 0b000
encodes Instruction.slliw opcode funct3 funct7 =
    opcode == 0b0011011 && funct3 == 0b001 && funct7 == 0b0000000
encodes Instruction.srliw opcode funct3 funct7 =
    opcode == 0b0011011 && funct3 == 0b101 && funct7 == 0b0000000
encodes Instruction.sraiw opcode funct3 funct7 =
    opcode == 0b0011011 && funct3 == 0b101 && funct7 == 0b0100000
encodes Instruction.beq opcode funct3 funct7 = opcode == 0b1100011 && funct3 == 0b000
encodes Instruction.bne opcode funct3 funct7 = opcode == 0b1100011 && funct3 == 0b001
encodes Instruction.blt opcode funct3 funct7 = opcode == 0b1100011 && funct3 == 0b100
encodes Instruction.bge opcode funct3 funct7 = opcode == 0b1100011 && funct3 == 0b101
encodes Instruction.bltu opcode funct3 funct7 = opcode == 0b1100011 && funct3 == 0b110
encodes Instruction.bgeu opcode funct3 funct7 = opcode == 0b1100011 && funct3 == 0b111
encodes Instruction.jal opcode funct3 funct7 = opcode == 0b1101111
encodes Instruction.jalr opcode funct3 funct7 = opcode == 0b1100111 && funct3 == 0b000
encodes Instruction.lb opcode funct3 funct7 = opcode == 0b0000011 && funct3 == 0b000
encodes Instruction.lh opcode funct3 funct7 = opcode == 0b0000011 && funct3 == 0b001
encodes Instruction.lw opcode funct3 funct7 = opcode == 0b0000011 && funct3 == 0b010
encodes Instruction.ld opcode funct3 funct7 = opcode == 0b0000011 && funct3 == 0b011
encodes Instruction.lbu opcode funct3 funct7 = opcode == 0b0000011 && funct3 == 0b100
encodes Instruction.lhu opcode funct3 funct7 = opcode == 0b0000011 && funct3 == 0b101
encodes Instruction.lwu opcode funct3 funct7 = opcode == 0b0000011 && funct3 == 0b110
encodes Instruction.sb opcode funct3 funct7 = opcode == 0b0100011 && funct3 == 0b000
encodes Instruction.sh opcode funct3 funct7 = opcode == 0b0100011 && funct3 == 0b001
encodes Instruction.sw opcode funct3 funct7 = opcode == 0b0100011 && funct3 == 0b010
encodes Instruction.sd opcode funct3 funct7 = opcode == 0b0100011 && funct3 == 0b011
encodes Instruction.lui opcode funct3 funct7 = opcode == 0b0110111
encodes Instruction.auipc opcode funct3 funct7 = opcode == 0b0010111
encodes Instruction.system opcode funct3 funct7 = opcode == 0b1110011 && funct3 == 0b000
encodes Instruction.csrrw opcode funct3 funct7 = opcode == 0b1110011 && funct3 == 0b001
encodes Instruction.csrrs opcode funct3 funct7 = opcode == 0b1110011 && funct3 == 0b010
encodes Instruction.csrrc opcode funct3 funct7 = opcode == 0b1110011 && funct3 == 0b011
encodes Instruction.csrrwi opcode funct3 funct7 = opcode == 0b1110011 && funct3 == 0b101
encodes Instruction.csrrsi opcode funct3 funct7 = opcode == 0b1110011 && funct3 == 0b110
encodes Instruction.csrrci opcode funct3 funct7 = opcode == 0b1110011 && funct3 == 0b111
encodes Instruction.fence opcode funct3 funct7 = opcode == 0b0001111 && funct3 == 0b000
encodes Instruction.fencei opcode funct3 funct7 = opcode == 0b0001111 && funct3 == 0b001
encodes Instruction.amoaddw opcode funct3 funct7 =
    opcode == 0b0101111 && funct3 == 0b010 && funct7 >>> 2 == 0b00000
encodes Instruction.amoaddd opcode funct3 funct7 =
    opcode == 0b0101111 && funct3 == 0b011 && funct7 >>> 2 == 0b00000
encodes Instruction.amoswapw opcode funct3 funct7 =
    opcode == 0b0101111 && funct3 == 0b010 && funct7 >>> 2 == 0b00001
encodes Instruction.amoswapd opcode funct3 funct7 =
    opcode == 0b0101111 && funct3 == 0b011 && funct7 >>> 2 == 0b00001
encodes Instruction.amoxorw opcode funct3 funct7 =
    opcode == 0b0101111 && funct3 == 0b010 && funct7 >>> 2 == 0b00100
encodes Instruction.amoxord opcode funct3 funct7 =
    opcode == 0b0101111 && funct3 == 0b011 && funct7 >>> 2 == 0b00100
encodes Instruction.amoorw opcode funct3 funct7 =
    opcode == 0b0101111 && funct3 == 0b010 && funct7 >>> 2 == 0b01000
encodes Instruction.amoord opcode funct3 funct7 =
    opcode == 0b0101111 && funct3 == 0b011 && funct7 >>> 2 == 0b01000
encodes Instruction.amoandw opcode funct3 funct7 =
    opcode == 0b0101111 && funct3 == 0b010 && funct7 >>> 2 == 0b01100
encodes Instruction.amoandd opcode funct3 funct7 =
    opcode == 0b0101111 && funct3 == 0b011 && funct7 >>> 2 == 0b01100
encodes Instruction.amominw opcode funct3 funct7 =
    opcode == 0b0101111 && funct3 == 0b010 && funct7 >>> 2 == 0b10000
encodes Instruction.amomind opcode funct3 funct7 =
    opcode == 0b0101111 && funct3 == 0b011 && funct7 >>> 2 == 0b10000
encodes Instruction.amomaxw opcode funct3 funct7 =
    opcode == 0b0101111 && funct3 == 0b010 && funct7 >>> 2 == 0b10100
encodes Instruction.amomaxd opcode funct3 funct7 =
    opcode == 0b0101111 && funct3 == 0b011 && funct7 >>> 2 == 0b10100
encodes Instruction.amominuw opcode funct3 funct7 =
    opcode == 0b0101111 && funct3 == 0b010 && funct7 >>> 2 == 0b11000
encodes Instruction.amominud opcode funct3 funct7 =
    opcode == 0b0101111 && funct3 == 0b011 && funct7 >>> 2 == 0b11000
encodes Instruction.amomaxuw opcode funct3 funct7 =
    opcode == 0b0101111 && funct3 == 0b010 && funct7 >>> 2 == 0b11100
encodes Instruction.amomaxud opcode funct3 funct7 =
    opcode == 0b0101111 && funct3 == 0b011 && funct7 >>> 2 == 0b11100
encodes Instruction.error opcode funct3 funct7 = false
