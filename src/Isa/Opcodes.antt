-- ===== src/Isa/Opcodes.antt =====
-- The opcode and function fields of instructions, `op_label`, `op_funct`, `op_funct3` and
-- `op_funct5` of RISCV_cpu.h.
use m99_riscv_emulator.Prelude.{ℕ}

abbrev pub opcode_arithlog : ℕ
opcode_arithlog = 0b00110011

abbrev pub opcode_arithlog_64 : ℕ
opcode_arithlog_64 = 0b00111011

abbrev pub opcode_arithlog_i : ℕ
opcode_arithlog_i = 0b00010011

abbrev pub opcode_arithlog_i64 : ℕ
opcode_arithlog_i64 = 0b0011011

abbrev pub opcode_b : ℕ
opcode_b = 0b01100011

abbrev pub opcode_ld : ℕ
opcode_ld = 0b00000011

abbrev pub opcode_j : ℕ
opcode_j = 0b01101111

abbrev pub opcode_s : ℕ
opcode_s = 0b00100011

abbrev pub opcode_jalr : ℕ
opcode_jalr = 0b01100111

abbrev pub opcode_lui : ℕ
opcode_lui = 0b00110111

abbrev pub opcode_auipc : ℕ
opcode_auipc = 0b00010111

abbrev pub opcode_system : ℕ
opcode_system = 0b01110011

abbrev pub opcode_fence : ℕ
opcode_fence = 0b0001111

abbrev pub opcode_amo : ℕ
opcode_amo = 0b0101111

abbrev pub func_norm : ℕ
func_norm = 0b0000000

abbrev pub func_alt : ℕ
func_alt = 0b0100000

abbrev pub func_mret : ℕ
func_mret = 0b0011000

abbrev pub func_mult : ℕ
func_mult = 0b0000001

abbrev pub func3_addsub : ℕ
func3_addsub = 0b000

abbrev pub func3_and : ℕ
func3_and = 0b111

abbrev pub func3_or : ℕ
func3_or = 0b110

abbrev pub func3_xor : ℕ
func3_xor = 0b100

abbrev pub func3_sl : ℕ
func3_sl = 0b001

abbrev pub func3_sr : ℕ
func3_sr = 0b0101

abbrev pub func3_slt : ℕ
func3_slt = 0b010

abbrev pub func3_sltu : ℕ
func3_sltu = 0b011

abbrev pub func3_beq : ℕ
func3_beq = 0b000

abbrev pub func3_bge : ℕ
func3_bge = 0b101

abbrev pub func3_bgeu : ℕ
func3_bgeu = 0b111

abbrev pub func3_blt : ℕ
func3_blt = 0b100

abbrev pub func3_bltu : ℕ
func3_bltu = 0b110

abbrev pub func3_bne : ℕ
func3_bne = 0b001

abbrev pub func3_lsb : ℕ
func3_lsb = 0b000

abbrev pub func3_lsbu : ℕ
func3_lsbu = 0b100

abbrev pub func3_lsh : ℕ
func3_lsh = 0b001

abbrev pub func3_lshu : ℕ
func3_lshu = 0b101

abbrev pub func3_lsw : ℕ
func3_lsw = 0b010

abbrev pub func3_lsd : ℕ
func3_lsd = 0b011

abbrev pub func3_lswu : ℕ
func3_lswu = 0b110

abbrev pub func3_jalr : ℕ
func3_jalr = 0b000

abbrev pub func3_system : ℕ
func3_system = 0b000

abbrev pub func3_csrrc : ℕ
func3_csrrc = 0b011

abbrev pub func3_csrrci : ℕ
func3_csrrci = 0b111

abbrev pub func3_csrrs : ℕ
func3_csrrs = 0b010

abbrev pub func3_csrrsi : ℕ
func3_csrrsi = 0b110

abbrev pub func3_csrrw : ℕ
func3_csrrw = 0b001

abbrev pub func3_csrrwi : ℕ
func3_csrrwi = 0b101

abbrev pub func3_fence : ℕ
func3_fence = 0b000

abbrev pub func3_fencei : ℕ
func3_fencei = 0b001

abbrev pub func3_mul : ℕ
func3_mul = 0b000

abbrev pub func3_mulh : ℕ
func3_mulh = 0b001

abbrev pub func3_mulhsu : ℕ
func3_mulhsu = 0b010

abbrev pub func3_mulhu : ℕ
func3_mulhu = 0b011

abbrev pub func3_div : ℕ
func3_div = 0b100

abbrev pub func3_divu : ℕ
func3_divu = 0b101

abbrev pub func3_rem : ℕ
func3_rem = 0b110

abbrev pub func3_remu : ℕ
func3_remu = 0b111

abbrev pub func3_amow : ℕ
func3_amow = 0b010

abbrev pub func3_amod : ℕ
func3_amod = 0b011

abbrev pub func5_amoadd : ℕ
func5_amoadd = 0b00000

abbrev pub func5_amoand : ℕ
func5_amoand = 0b01100

abbrev pub func5_amomax : ℕ
func5_amomax = 0b10100

abbrev pub func5_amomaxu : ℕ
func5_amomaxu = 0b11100

abbrev pub func5_amomin : ℕ
func5_amomin = 0b10000

abbrev pub func5_amominu : ℕ
func5_amominu = 0b11000

abbrev pub func5_amoor : ℕ
func5_amoor = 0b01000

abbrev pub func5_amoswap : ℕ
func5_amoswap = 0b00001

abbrev pub func5_amoxor : ℕ
func5_amoxor = 0b00100
