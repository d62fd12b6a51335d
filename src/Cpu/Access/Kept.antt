-- ===== src/Cpu/Access/Kept.antt =====
-- Fetching an instruction leaves the registers as they are.
use m99_riscv_emulator.Prelude.{
  ℕ, ◌+◌, ◌≡◌, sym, ◌∙◌, ap, Bool, true, false, not, ◌&&◌, some, if◌then◌else◌, ◌==◌, bit_and, u64,
  ◌<<<◌, ◌>>>◌,
}
use m99_riscv_emulator.Prelude.Options.{bind_some, some_injective}
use m99_riscv_emulator.Memory.{read32}
use m99_riscv_emulator.Mmu
use m99_riscv_emulator.Mmu.{PrivilegeMode, Translated, set_mxl, set_privilege}
use m99_riscv_emulator.Isa.Csrs
use m99_riscv_emulator.Cpu.{RiscvCpu}
use m99_riscv_emulator.Cpu.Access.{
  access_privilege, note_translation, virtual_to_physical, fetch_upper, fetch_whole, load_cmd,
}

-- The registers of the state in a result.
abbrev pub regs : ℕ × RiscvCpu → ℕ → ℕ
regs r = r.1.reg

pub virtual_to_physical-reg :
    (c : RiscvCpu) (a : ℕ) (w : Bool) {r : ℕ × RiscvCpu}
    → virtual_to_physical c a w ≡ some r
    → regs r ≡ c.reg
unfolding virtual_to_physical note_translation
virtual_to_physical-reg c a w e =
    let (p, _, rest) = bind_some (access_privilege c) _ e in
    let (t, _, made) =
      bind_some
        (Mmu.virtual_to_physical (set_privilege (set_mxl c.mmu c.mxl) p) c.memory a
          (c.csrs Csrs.satp) w)
        _ rest in
    ap regs (sym (some_injective made))

fetch_upper-reg :
    (c : RiscvCpu) (pc cmd : ℕ) {r : ℕ × RiscvCpu} → fetch_upper c pc cmd ≡ some r → regs r ≡ c.reg
unfolding fetch_upper
fetch_upper-reg c pc cmd e =
    let (u, at, rest) = bind_some (virtual_to_physical c (u64 (pc + 2)) false) _ e in
    let (w, _, made) = bind_some (read32 u.1.memory (u.0 >>> 2 <<< 2)) _ rest in
    ap regs (sym (some_injective made)) ∙ virtual_to_physical-reg c (u64 (pc + 2)) false at

fetch_whole-reg :
    (c : RiscvCpu) (pc cmd : ℕ) {r : ℕ × RiscvCpu} → fetch_whole c pc cmd ≡ some r → regs r ≡ c.reg
unfolding fetch_whole
fetch_whole-reg c pc cmd e =
    by_split (not c.page_fault && bit_and pc 0b10 == 0b10 && bit_and cmd 0b11 == 0b11) e
  where
    by_split :
        (split : Bool) {r : ℕ × RiscvCpu}
        → (if split then fetch_upper c pc cmd else some (cmd, c)) ≡ some r
        → regs r ≡ c.reg
    by_split true e = fetch_upper-reg c pc cmd e
    by_split false e = ap regs (sym (some_injective e))

pub load_cmd-reg :
    (c : RiscvCpu) (pc : ℕ) {r : ℕ × RiscvCpu} → load_cmd c pc ≡ some r → regs r ≡ c.reg
unfolding load_cmd
load_cmd-reg c pc e =
    let (f, at, rest) = bind_some (virtual_to_physical c pc false) _ e in
    let (w, _, rest) = bind_some (read32 f.1.memory (f.0 >>> 2 <<< 2)) _ rest in
    let cmd = if bit_and pc 0b10 == 0b10 then bit_and (w >>> 16) 0xFFFF else w in
    let (whole, got, made) = bind_some (fetch_whole f.1 pc cmd) _ rest in
    ap regs (sym (some_injective made))
    ∙ fetch_whole-reg f.1 pc cmd got
    ∙ virtual_to_physical-reg c pc false at
