-- ===== src/Isa/Causes.antt =====
-- The causes of traps, `ExceptionCode` of RISCV_cpu.h. The source spells two of the names so.
use m99_riscv_emulator.Prelude.{ℕ}

abbrev pub user_software_interrupt : ℕ
user_software_interrupt = 0

abbrev pub supervisor_softwarre_interrupt : ℕ
supervisor_softwarre_interrupt = 1

abbrev pub machine_software_interrupt : ℕ
machine_software_interrupt = 3

abbrev pub supervior_timer_interrupt : ℕ
supervior_timer_interrupt = 5

abbrev pub machine_timer_interrupt : ℕ
machine_timer_interrupt = 7

abbrev pub supervisor_external_interrupt : ℕ
supervisor_external_interrupt = 9

abbrev pub machine_external_interrupt : ℕ
machine_external_interrupt = 11

abbrev pub instruction_address_misaligned : ℕ
instruction_address_misaligned = 0

abbrev pub instruction_access_fault : ℕ
instruction_access_fault = 1

abbrev pub illegal_instruction : ℕ
illegal_instruction = 2

abbrev pub break_point : ℕ
break_point = 3

abbrev pub load_address_misaligned : ℕ
load_address_misaligned = 4

abbrev pub load_access_fault : ℕ
load_access_fault = 5

abbrev pub store_address_misaligned : ℕ
store_address_misaligned = 6

abbrev pub store_access_fault : ℕ
store_access_fault = 7

abbrev pub ecall_umode : ℕ
ecall_umode = 8

abbrev pub ecall_smode : ℕ
ecall_smode = 9

abbrev pub ecall_mmode : ℕ
ecall_mmode = 11

abbrev pub instruction_page_fault : ℕ
instruction_page_fault = 12

abbrev pub load_page_fault : ℕ
load_page_fault = 13

abbrev pub store_page_fault : ℕ
store_page_fault = 15
