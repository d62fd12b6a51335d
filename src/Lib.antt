-- ===== src/Lib.antt =====
-- A model of the RISC-V emulator, with the theorems that its parts are correct.
--
-- The emulator runs a guest program on a simulated RISC-V hart. `RiscvCpu` (RISCV_cpu.cc) fetches a
-- word from the sparse memory (memory_wrapper.cpp) through the memory management unit (Mmu.cpp),
-- whose page-table entries are objects of pte.cpp, decodes it with `GetCode32` or `GetCode16`, and
-- executes it. Before each instruction it ticks the timer of `PeripheralEmulator` and looks for pending
-- interrupts, and after it the devices look at the memory for requests. bit_tools.h has the bit
-- operations that all of them use. `run` (RISCV_Emulator.cc) reads the command line, loads the guest
-- program from its ELF file, fills default tables for the translation and sets up the hart; a trace
-- of the run is printed with `Disassemble` (Disassembler.cpp).
--
-- The files and what they model:
--   BitTools       bit_tools.h: GenMask, SetBit, the two mask tables, BitShift, bitcrop, SignExtend
--                  and bitset
--   Memory         memory_wrapper.h and memory_wrapper.cpp: the reads and writes of 8, 16, 32 and 64
--                  bits over blocks of 1 MiB that are assigned when first written
--   Pte            pte.cpp: the getters and setters of `Pte32` and `Pte64`
--   Mmu            Mmu.h and Mmu.cpp: `VirtualToPhysical` over Sv32 and Sv39; its
--                  Tables are the walks of the privileged architecture
--   Isa            the enumerations of RISCV_cpu.h: instructions, opcodes, CSRs and causes
--   Decode         `GetCode32` and `GetCode16` of RISCV_cpu.cc
--   Encdec         instruction_encdec.h and instruction_encdec.cc: the immediates and the formats
--   Cpu            RISCV_cpu.cc: `RiscvCpu`, with the operations on registers. Its children: Csr (the
--                  CSR instructions and the views of MSTATUS, MIE and MIP), Trap (`Trap`, `Mret`,
--                  `Sret`, `Ecall`, `CheckPendingInterrupt`), Access (`VirtualToPhysical`, `LoadCmd`,
--                  `LoadWd`, `StoreWd`), Transfer (`LoadInstruction`, `StoreInstruction`), Mult and Amo
--                  (`MultInstruction`; `AmoInstruction`, with the atomics of the manual in its
--                  Operations), Step (the timer, the interrupt checks and
--                  `SystemInstruction`), Execute (the switch of `RunCpu`), Run (`RunCpu`, with the
--                  ways of a round in its Round and the runs in its Trace), Setup (the
--                  constructor and the setters), and the widths, registers and shifts
--   Screen         ScreenEmulation.cpp: the polling of the keyboard
--   Peripheral     PeripheralEmulator.cpp: the timer, the host interface, the UART and the virtio disk
--   SystemCall     system_call_emulator.cpp: the emulated system calls
--   Emulator       RISCV_Emulator.cc and RISCV_Emulator.h. Its children: Command (`ParseCmd`), Elf (the
--                  headers and the searches for sections), Load (`LoadElfFile`), Symbols (the global
--                  pointer and the entry point), Table32 and Table64 (`SetDefaultMmuTable32` and
--                  `SetDefaultMmuTable64`), Boot (`ReadFile` and `run`). The functions that the source
--                  has twice, for 32-bit and 64-bit files, are one over the class of the file
--   Disassembler   Disassembler.cpp: `Disassemble`, Compressed (`Disassemble16`), Names (the names by
--                  opcode), Text (`GetRegName`, `NumberToHex`)
--   Examples       the theorems at concrete inputs
--   Prelude        what the modules share: tests, words, and the laws of the bit operations
--
-- How the code is read. A word of `w` bits is a natural number below `2 ^ w`, and its wrap-around
-- is written out; a signed value is its bit pattern. A run that an assertion stops is `none`. A
-- method that changes its object returns the new object: `MemoryWrapper` is a record of its two
-- arrays as functions, `Mmu` a record of its fields, and the memory that they share through a
-- pointer is passed on explicitly. The loops of the page walks are recursions on the level, from 2
-- or 1 down to 0, so they need no fuel. A memory of words (`IsWords`) is one whose entries fit
-- `uint32_t`, as the source's type says; the fresh memory is one, and the writes keep it so.
--
-- What is not in the repository is a parameter: `Terminal` is what ncurses returns in a round, and
-- `Host` what the calls of the operating system return; a run takes one of each for every round.
-- `ElfHeaders` has the constants of the host's elf.h and reads its structures at an offset of a file,
-- and `Files` gives the bytes of a file by its name. The values of the fields that the constructor of
-- `RiscvCpu` leaves alone, and what the host makes of the undefined shift for MISA, are arguments too.
-- The loop of `RunCpu` may not end, so `run_loop` has fuel, one unit a round, and returns `none`
-- without it: with as much fuel as the run has rounds it returns the run's result. The loop that
-- clears `.bss` counts with a `uint32_t`, so it ends within 2 ^ 32 rounds, its fuel, or never.
--
-- Not modelled: messages on stdout and stderr, and the dumps of registers and instructions, which
-- change no state; the Windows headers, which are copies of other projects' files.
mod Prelude
pub mod BitTools
pub mod Memory
pub mod Pte
pub mod Mmu
pub mod Isa
pub mod Screen
pub mod Disassembler
pub mod Emulator
pub mod Peripheral
pub mod SystemCall
pub mod Decode
pub mod Encdec
pub mod Cpu
pub mod Examples
