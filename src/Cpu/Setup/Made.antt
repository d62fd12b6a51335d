-- ===== src/Cpu/Setup/Made.antt =====
-- The processor that the constructor of `RiscvCpu` makes.
use m99_riscv_emulator.Prelude.{ℕ, ◌+◌, ◌^◌, ◌≡◌, refl, Bool, true, false, if◌then◌else◌}
use m99_riscv_emulator.Mmu.{machine_mode}
use m99_riscv_emulator.Peripheral.{peripheral}
use m99_riscv_emulator.Cpu.{RiscvCpu}
use m99_riscv_emulator.Cpu.Csr.{set_csr, apply_mstatus_to_csr}
use m99_riscv_emulator.Cpu.Setup.{riscv_cpu, initialize_csrs}

-- What the constructor leaves of the fields that the set-up does not change.
pub record Made (wide : Bool) (cpu : RiscvCpu) : Type 0 where
  pub mode : cpu.privilege ≡ machine_mode
  pub width : (cpu.mxl ≡ (if wide then 2 else 1)) × (cpu.xlen ≡ (if wide then 64 else 32))
  pub mstatus : cpu.mstatus ≡ (if wide then 2 ^ 35 + 2 ^ 33 else 0)
  pub registers : (i : ℕ) → cpu.reg i ≡ 0
  pub quiet : (cpu.mie ≡ 0) × (cpu.mip ≡ 0) × (cpu.page_fault ≡ false)
  pub break : cpu.brk ≡ 0x40000000

pub riscv_cpu-Made :
    (shifted : ℕ) (uninitialised : RiscvCpu) (en64bit : Bool)
    → Made en64bit (riscv_cpu shifted uninitialised en64bit)
unfolding riscv_cpu initialize_csrs apply_mstatus_to_csr set_csr peripheral
riscv_cpu-Made shifted uninitialised true = record {
  mode = refl;
  width = (refl, refl);
  mstatus = refl;
  registers = λ i. refl;
  quiet = (refl, refl, refl);
  break = refl;
}
riscv_cpu-Made shifted uninitialised false = record {
  mode = refl;
  width = (refl, refl);
  mstatus = refl;
  registers = λ i. refl;
  quiet = (refl, refl, refl);
  break = refl;
}
