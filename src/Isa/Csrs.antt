-- ===== src/Isa/Csrs.antt =====
-- The addresses of the control and status registers, `CsrsAddresses` of RISCV_cpu.h.
use m99_riscv_emulator.Prelude.{ℕ}

abbrev pub ustatus : ℕ
ustatus = 0x000

abbrev pub uie : ℕ
uie = 0x004

abbrev pub utvec : ℕ
utvec = 0x005

abbrev pub uscratch : ℕ
uscratch = 0x040

abbrev pub uepc : ℕ
uepc = 0x041

abbrev pub ucause : ℕ
ucause = 0x042

abbrev pub utval : ℕ
utval = 0x43

abbrev pub uip : ℕ
uip = 0x44

abbrev pub sstatus : ℕ
sstatus = 0x100

abbrev pub sedeleg : ℕ
sedeleg = 0x102

abbrev pub sideleg : ℕ
sideleg = 0x103

abbrev pub sie : ℕ
sie = 0x104

abbrev pub stvec : ℕ
stvec = 0x105

abbrev pub scounteren : ℕ
scounteren = 0x106

abbrev pub sscratch : ℕ
sscratch = 0x140

abbrev pub sepc : ℕ
sepc = 0x141

abbrev pub scause : ℕ
scause = 0x142

abbrev pub stval : ℕ
stval = 0x143

abbrev pub sip : ℕ
sip = 0x144

abbrev pub satp : ℕ
satp = 0x180

abbrev pub mstatus : ℕ
mstatus = 0x300

abbrev pub misa : ℕ
misa = 0x301

abbrev pub medeleg : ℕ
medeleg = 0x302

abbrev pub mideleg : ℕ
mideleg = 0x303

abbrev pub mie : ℕ
mie = 0x304

abbrev pub mtvec : ℕ
mtvec = 0x305

abbrev pub mcounteren : ℕ
mcounteren = 0x306

abbrev pub mscratch : ℕ
mscratch = 0x340

abbrev pub mepc : ℕ
mepc = 0x341

abbrev pub mcause : ℕ
mcause = 0x342

abbrev pub mtval : ℕ
mtval = 0x343

abbrev pub mip : ℕ
mip = 0x344
