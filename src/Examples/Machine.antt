-- ===== src/Examples/Machine.antt =====
-- The theorems on the whole processor and its devices at concrete inputs: a processor in machine mode
-- with an empty memory, a request to the disk, and a string.
use mathlib.Core.List.{List, [], ◌∷◌}
use m99_riscv_emulator.Prelude.{
  ℕ, ◌<◌, ◌≤◌, ◌⊎◌, ◌↔◌, ◌≢◌, inr, ◌+◌, ◌-◌, ◌*◌, ◌/◌, ◌%◌, ◌^◌, ◌≡◌, refl, arith, true, false,
  ◌||◌, ◌&&◌, Option, some, none, ◌>>=◌, if◌then◌else◌, u64, of_int32, ltb, leb, ◌==◌,
}
use m99_riscv_emulator.BitTools.{bitcrop}
use m99_riscv_emulator.Memory.{MemoryWrapper, fresh}
use m99_riscv_emulator.Memory.Bytes.{byte, fresh-IsWords}
use m99_riscv_emulator.Mmu.{initial, machine_mode, user_mode, supervisor_mode}
use m99_riscv_emulator.Isa.{Instruction}
use m99_riscv_emulator.Isa.Causes
use m99_riscv_emulator.Isa.Csrs
use m99_riscv_emulator.Screen.{Terminal}
use m99_riscv_emulator.Mmu
use m99_riscv_emulator.Mmu.{set_mxl, set_privilege}
use m99_riscv_emulator.Memory.{read32, read64}
use m99_riscv_emulator.BitTools.{mask}
use m99_riscv_emulator.Cpu.{set_register}
use m99_riscv_emulator.Cpu.Step
use m99_riscv_emulator.Cpu.Access
use m99_riscv_emulator.Cpu.Run
use m99_riscv_emulator.Cpu.Run.{reported}
use m99_riscv_emulator.Cpu.Execute.{executed}
use m99_riscv_emulator.Cpu.Trap.{check_pending_interrupt}
use m99_riscv_emulator.Decode.Code16.{get_code16}
use m99_riscv_emulator.Encdec.{get_csr}
use m99_riscv_emulator.Peripheral
use m99_riscv_emulator.Peripheral.{
  PeripheralEmulator, DiskImage, peripheral, memory_mapped_value_update, host_device, host_command,
}
use m99_riscv_emulator.Peripheral.Timer.{ticks, ticks_lem, host_command_of_console}
use m99_riscv_emulator.Peripheral.Virtio.{disc_access}
use m99_riscv_emulator.Peripheral.Virtio.Copy.{among, disc_access_round_trip}
use m99_riscv_emulator.SystemCall.{Host, put_bytes, memory_wrapper_copy, memory_wrapper_strlen}
use m99_riscv_emulator.SystemCall.Buffer.{
  IsLength, size, IsBytes, put_bytes_lem, memory_wrapper_strlen_lem,
}
use m99_riscv_emulator.Memory.Bytes.{IsWords}
use m99_riscv_emulator.Cpu.{RiscvCpu, get_store_width}
use m99_riscv_emulator.Cpu.Csr.{csrs_instruction, set_interrupt_pending}
use m99_riscv_emulator.Cpu.Csr.Views.{
  IsViewed, csrs_instruction-IsViewed, set_interrupt_pending_stale,
}
use m99_riscv_emulator.Cpu.Trap.{trap, mret, sret, sv_delegation}
use m99_riscv_emulator.Cpu.Trap.Return.{mret-trap}
use m99_riscv_emulator.Cpu.Trap.Supervisor.{sret-trap}
use m99_riscv_emulator.Cpu.Access.{load_wd, store_wd}
use m99_riscv_emulator.Cpu.Access.Load.{little_endian}
use m99_riscv_emulator.Cpu.Access.Store.{Wrote}
use m99_riscv_emulator.Cpu.Access.RoundTrip.{load_wd-store_wd}
use m99_riscv_emulator.Cpu.Mult.{mult_value, magnitude, get_mulh64}
use m99_riscv_emulator.Cpu.Mult.Signed.{extend, get_mulh64_lem}
use m99_riscv_emulator.Cpu.Mult.Division.{div_rem, is_word_division, word_division_fails}
use m99_riscv_emulator.Cpu.Transfer.{load_instruction, store_instruction}
use m99_riscv_emulator.Cpu.Transfer.Machine.{IsPlain}
use m99_riscv_emulator.Cpu.Transfer.Load.{IsLoad, in_register, Loaded, load_instruction_machine}
use m99_riscv_emulator.Cpu.Transfer.Store.{Kept, store_instruction_machine}
use m99_riscv_emulator.Cpu.Run.{run_round, run_cpu, is_halted}
use m99_riscv_emulator.Cpu.Amo.{amo_instruction}
use m99_riscv_emulator.Cpu.Amo.Operations.{Operation, IsAtomic}
use m99_riscv_emulator.Cpu.Amo.Machine.{Swapped, amo_instruction_machine}
use m99_riscv_emulator.Cpu.Run.Loop.{last}
use m99_riscv_emulator.Cpu.Run.Trace.{IsTrace, run_cpu-IsTrace}
use m99_riscv_emulator.Cpu.Run.Invariant.{Runs-zero}

abbrev machine : RiscvCpu
machine = record {
  xlen = 64;
  mxl = 2;
  reg = λ num. 0;
  pc = 0;
  ir = 0;
  next_pc = 0x1000;
  mstatus = 0;
  mie = 0;
  mip = 0;
  privilege = machine_mode;
  memory = fresh;
  csrs = λ csr. 0;
  page_fault = false;
  prev_page_fault = false;
  prev_faulting_address = 0;
  error_flag = false;
  end_flag = false;
  faulting_address = 0;
  mmu = initial;
  peripheral = peripheral 2;
  ecall_emulation = false;
  host_emulation = false;
  peripheral_emulation = false;
  virtio_interrupt = false;
  uart_interrupt = false;
  disable_machine_interrupt_delegation = false;
  top = 2 ^ 31;
  brk = 2 ^ 30;
  open_handles = 0;
}

abbrev silent : Host
silent = record {
  cio_write = λ fd buffer. 0;
  cio_read = λ fd length. (0, λ i. 0);
  fstat = λ fd. (
    0,
    record {
      st_dev = 0;
      st_ino = 0;
      st_mode = 0;
      st_nlink = 0;
      st_uid = 0;
      st_gid = 0;
      st_rdev = 0;
      st_size = 0;
      st_atim = 0;
      st_mtim = 0;
      st_ctim = 0;
      st_blksize = 0;
      st_blocks = 0;
    },
  );
  cio_close = λ fd. 0;
  cio_open = λ name flag mode. 3;
  cio_lseek = λ fd offset whence. 0;
  spare = λ i. 0;
  o_rdwr = 2;
  o_rdonly = 0;
  open_flag = λ flag. 0;
}

abbrev keyboard : Terminal
keyboard = record { key_backspace = 263; key_dc = 330; getch = none }

-- The empty memory is no instruction: the first round halts the run with an error.
after_round : Option RiscvCpu → RiscvCpu
after_round none = machine
after_round (some cpu) = cpu

halted : RiscvCpu
unfolding run_round after_round
halted = after_round (run_round silent keyboard machine)

first_round : run_round silent keyboard machine ≡ some halted
unfolding run_round after_round halted Step.timer_tick Peripheral.timer_tick peripheral read64
    read32 check_pending_interrupt Step.interrupt_check fresh bitcrop mask Access.load_cmd
    Access.virtual_to_physical Mmu.virtual_to_physical set_mxl set_privilege get_code16 executed
    get_csr reported Run.concluded set_register
first_round = refl

first_halts : is_halted halted ≡ true
unfolding run_round after_round halted Step.timer_tick Peripheral.timer_tick peripheral read64
    read32 check_pending_interrupt Step.interrupt_check fresh bitcrop mask Access.load_cmd
    Access.virtual_to_physical Mmu.virtual_to_physical set_mxl set_privilege get_code16 executed
    get_csr reported Run.concluded set_register is_halted
first_halts = refl

Runs-zero_example : halted.reg 0 ≡ 0
Runs-zero_example =
    Runs-zero (λ round. silent) (λ round. keyboard) {n = 1} {round = 0} {c = machine} {d = halted}
      refl (last first_round first_halts)

run_cpu-IsTrace_example :
    (run_cpu (λ round. silent) (λ round. keyboard) 1 machine 0 ≡ some halted) ↔ (
      (n : ℕ) × (n ≤ 1)
      × (states : ℕ → RiscvCpu) × IsTrace (λ round. silent) (λ round. keyboard) 0 n states
      × (states 0 ≡ record machine { error_flag = false; end_flag = false; next_pc = 0 })
      × (states n ≡ halted))
run_cpu-IsTrace_example = run_cpu-IsTrace (λ round. silent) (λ round. keyboard) 1 0 machine halted

machine-IsPlain : IsPlain machine
unfolding bitcrop mask
machine-IsPlain = record { mode = refl; mprv = refl; calm = refl; words = fresh-IsWords }

-- A halfword across the end of a doubleword.
load_instruction_machine_example :
    (m : MemoryWrapper) × (memory_mapped_value_update machine.peripheral machine.memory ≡ some m)
    × (d : RiscvCpu) × (load_instruction machine Instruction.lh 5 0 0x7 ≡ some d)
    × Loaded machine m 5
        (in_register 2 true (little_endian (byte m) (u64 (machine.reg 0 + of_int32 0x7)) 2))
        d
load_instruction_machine_example =
    load_instruction_machine machine Instruction.lh 5 0 0x7 2 true machine-IsPlain
      IsLoad.half_signed

load_wd-store_wd_example :
    (store_wd fresh 0x1003 0x1122334455667788 8 >>= λ m'. load_wd m' 0x1003 8)
    ≡ some 0x1122334455667788
load_wd-store_wd_example =
    load_wd-store_wd fresh 0x1003 0x1122334455667788 8 fresh-IsWords (omega arith) (omega arith)

-- A user program whose environment calls are delegated, and one whose are not.
abbrev user : RiscvCpu
user = record machine { privilege = user_mode }

abbrev delegated : RiscvCpu
delegated = record user {
  csrs = λ csr. if leb csr Csrs.medeleg && leb Csrs.medeleg csr then 0x100 else 0;
}

to_machine : sv_delegation user Causes.ecall_umode false ≡ false
unfolding sv_delegation bitcrop mask
to_machine = refl

to_supervisor : sv_delegation delegated Causes.ecall_umode false ≡ true
unfolding sv_delegation bitcrop mask
to_supervisor = refl

mret-trap_example :
    (t r : RiscvCpu) × (trap user Causes.ecall_umode false ≡ some t)
    × (t.privilege ≡ machine_mode)
    × (mret t ≡ some r)
    × (r.privilege ≡ user_mode)
    × (r.next_pc ≡ 0)
    × (bitcrop r.mstatus 1 3 ≡ 1)
mret-trap_example = mret-trap user Causes.ecall_umode false (omega arith) refl to_machine

sret-trap_example :
    (t r : RiscvCpu) × (trap delegated Causes.ecall_umode false ≡ some t)
    × (t.privilege ≡ supervisor_mode)
    × (sret t ≡ some r)
    × (r.privilege ≡ user_mode)
    × (r.next_pc ≡ 0)
    × (bitcrop r.mstatus 1 1 ≡ 1)
sret-trap_example = sret-trap delegated Causes.ecall_umode false (omega arith) refl to_supervisor

machine-IsViewed : IsViewed machine
machine-IsViewed = record {
  status = record { ustatus = refl; sstatus = refl; mstatus = refl };
  pending = record { uip = refl; sip = refl; mip = refl };
  enable = record { uie = refl; sie = refl; mie = refl };
}

csrs_instruction-IsViewed_example :
    IsViewed (csrs_instruction machine Instruction.csrrsi Csrs.sstatus 5 2)
csrs_instruction-IsViewed_example =
    csrs_instruction-IsViewed machine Instruction.csrrsi Csrs.sstatus 5 2 machine-IsViewed

clear_bit : bitcrop 0 1 9 ≡ 0
unfolding bitcrop mask
clear_bit = refl

set_interrupt_pending_stale_example :
    (bitcrop (set_interrupt_pending machine 9).mip 1 9 ≡ 1)
    × (bitcrop ((set_interrupt_pending machine 9).csrs Csrs.mip) 1 9 ≡ 0)
set_interrupt_pending_stale_example =
    set_interrupt_pending_stale machine 9 machine-IsViewed (omega arith) (omega arith) clear_bit

get_mulh64_lem_example :
    get_mulh64 (2 ^ 64 - 3) 5 ≡ extend (2 ^ 64 - 3) * extend 5 % 2 ^ 128 / 2 ^ 64
get_mulh64_lem_example = get_mulh64_lem (2 ^ 64 - 3) 5 (omega arith) (omega arith)

abbrev divisor : ℕ
divisor = 2

div_rem_example :
    (q : ℕ) × (r : ℕ) × (mult_value 64 Instruction.div (2 ^ 64 - 7) divisor ≡ some q)
    × (mult_value 64 Instruction.rem (2 ^ 64 - 7) divisor ≡ some r)
    × (u64 (q * divisor + r) ≡ 2 ^ 64 - 7)
    × ((divisor ≡ 0) ⊎ (magnitude r < magnitude divisor))
div_rem_example = div_rem (2 ^ 64 - 7) divisor (omega arith) (omega arith)

remw_is_word : is_word_division Instruction.remw ≡ true
unfolding is_word_division
remw_is_word = refl

word_division_fails_example :
    (mult_value 64 Instruction.remw 5 (2 ^ 32) ≡ none) ↔ ((2 ^ 32 ≢ 0) × (2 ^ 32 % 2 ^ 32 ≡ 0))
word_division_fails_example =
    word_division_fails 64 5 (2 ^ 32) Instruction.remw (omega arith) (omega arith) remw_is_word

abbrev timer : PeripheralEmulator
timer = record (peripheral 2) { timercmp_update = false; next_cycle = 3 }

still : timer.timercmp_update ≡ false
unfolding peripheral
still = refl

ticks_lem_example :
    (p' : PeripheralEmulator) × (ticks 4 timer fresh ≡ some p')
    × (p'.elapsed_cycles ≡ timer.elapsed_cycles + 4)
    × (p'.timer_interrupt ≡ (
        timer.timer_interrupt || (ltb timer.elapsed_cycles 3 && leb 3 (timer.elapsed_cycles + 4))))
unfolding peripheral
ticks_lem_example = ticks_lem 4 timer fresh still (omega arith)

console_device : host_device (2 ^ 56 + 2 ^ 48 + 65) ≡ 1
unfolding host_device
console_device = refl

host_command_of_console_example : 2 ^ 8 ≤ host_command (2 ^ 56 + 2 ^ 48 + 65)
host_command_of_console_example =
    host_command_of_console (2 ^ 56 + 2 ^ 48 + 65) (omega arith) console_device

abbrev disk : DiskImage
disk = record { size = 4096; content = λ k. 7 }

disc_access_round_trip_example :
    (d : DiskImage × MemoryWrapper) × ((disc_access disk fresh 2 0x1000 512 true >>= λ d.
    disc_access d.0 d.1 2 0x2000 512 false)
      ≡ some d)
    × ((j : ℕ)
        → j < 2 ^ 32
        → byte d.1 j
          ≡ (if among 0x2000 512 j then byte fresh (0x1000 + (j - 0x2000)) else byte fresh j))
disc_access_round_trip_example =
    disc_access_round_trip disk fresh 2 0x1000 0x2000 512 fresh-IsWords (λ k. omega arith)
      (omega arith) (omega arith) (omega arith) (omega arith) (omega arith)

abbrev two_bytes : List ℕ
two_bytes = 65 ∷ 0 ∷ []

two_bytes-IsBytes : IsBytes two_bytes
unfolding IsBytes
two_bytes-IsBytes = (omega arith, (omega arith, tt))

two_bytes-size : size two_bytes ≤ 2 ^ 32
unfolding size
two_bytes-size = omega arith

put_bytes_lem_example :
    (m' : MemoryWrapper) × (put_bytes fresh 0x100 two_bytes ≡ some m')
    × IsWords m'
    × (memory_wrapper_copy m' 0x100 (size two_bytes) ≡ some two_bytes)
    × ((j : ℕ)
        → ((k : ℕ) → k < size two_bytes → j % 2 ^ 32 ≢ (0x100 + k) % 2 ^ 32)
        → byte m' j ≡ byte fresh j)
put_bytes_lem_example =
    put_bytes_lem fresh 0x100 two_bytes fresh-IsWords two_bytes-IsBytes two_bytes-size

memory_wrapper_strlen_lem_example :
    (n : ℕ) × (memory_wrapper_strlen fresh 0x100 8 ≡ some n) × IsLength fresh 0x100 8 n
memory_wrapper_strlen_lem_example = memory_wrapper_strlen_lem fresh 0x100 8

store_double : get_store_width Instruction.sd ≡ some 8
unfolding get_store_width
store_double = refl

-- A doubleword across the end of a doubleword.
store_instruction_machine_example :
    (d : RiscvCpu) × (store_instruction machine Instruction.sd 0 6 0x7 ≡ some d)
    × Wrote fresh (u64 (machine.reg 0 + of_int32 0x7)) 0 0 8 d.memory
    × Kept machine d
store_instruction_machine_example =
    store_instruction_machine machine Instruction.sd 0 6 0x7 8 machine-IsPlain store_double
      (inr (inr (inr refl))) (omega arith)

-- A processor with an address in register 7 and a negative number in register 6.
abbrev loaded : RiscvCpu
loaded = record machine { reg = λ i. if i == 6 then 2 ^ 64 - 5 else 0x1003 }

loaded-IsPlain : IsPlain loaded
unfolding bitcrop mask
loaded-IsPlain = record { mode = refl; mprv = refl; calm = refl; words = fresh-IsWords }

-- The smaller of two signed words, at an address that is not aligned.
amo_instruction_machine_example :
    (d : RiscvCpu) × (amo_instruction loaded Instruction.amominw 5 7 6 ≡ some d)
    × Swapped loaded Operation.least 5 7 6 4 (little_endian (byte fresh) 0x1003 4) d
amo_instruction_machine_example =
    amo_instruction_machine loaded Instruction.amominw Operation.least 5 7 6 4 loaded-IsPlain
      IsAtomic.min_w (omega arith)
