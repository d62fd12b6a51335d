-- ===== src/Cpu/Transfer/Load.antt =====
-- `LoadInstruction` in machine mode, against the bytes of the memory.
use m99_riscv_emulator.Prelude.{
  ℕ, ◌+◌, ◌-◌, ◌*◌, ◌^◌, ◌<◌, ◌≡◌, inl, inr, refl, ◌∙◌, ap, arith, Bool, true, false, Option, some,
  if◌then◌else◌, ◌&&◌, leb, u64, of_int32,
}
use m99_riscv_emulator.Prelude.Options.{bind_to}
use m99_riscv_emulator.Prelude.Bits.{bit_and_mask}
use m99_riscv_emulator.BitTools.Fields.{sign_extend_lem}
use m99_riscv_emulator.Memory.{MemoryWrapper, update}
use m99_riscv_emulator.Memory.Bytes.{byte}
use m99_riscv_emulator.Memory.Wide.{write64_total}
use m99_riscv_emulator.Isa.{Instruction}
use m99_riscv_emulator.Isa.Causes
use m99_riscv_emulator.Peripheral.{check_device_read, memory_mapped_value_update, timer_mtime}
use m99_riscv_emulator.Cpu.{RiscvCpu, set_register, get_load_width}
use m99_riscv_emulator.Cpu.Trap.{trap}
use m99_riscv_emulator.Cpu.Access.Load.{little_endian, little_endian-lt}
use m99_riscv_emulator.Cpu.Transfer.{load_instruction, load_at, extended}
use m99_riscv_emulator.Cpu.Transfer.Machine.{
  IsPlain, IsWidth, asked, asked_if, asked-IsPlain, is_split, load_parts_machine,
  virtual_to_physical_machine,
}

-- What a load leaves, from the state `cpu` and the memory `m` that it read.
pub record Loaded (cpu : RiscvCpu) (m : MemoryWrapper) (rd value : ℕ) (d : RiscvCpu) : Type 0 where
  pub registers : d.reg ≡ update cpu.reg rd value
  pub memory : d.memory ≡ m
  pub place : (d.pc ≡ cpu.pc) × (d.next_pc ≡ cpu.next_pc)
  pub calm : d.page_fault ≡ false

-- The last step of a load.
load_done : RiscvCpu → ℕ → ℕ → ℕ → ℕ → RiscvCpu
load_done c rd value a width =
    set_register (record c { peripheral = check_device_read c.peripheral a width }) rd value

asked_if-Loaded :
    (t : Bool) (c : RiscvCpu) (rd value a width : ℕ)
    → c.page_fault ≡ false
    → Loaded c c.memory rd value (load_done (asked_if t c) rd value a width)
unfolding asked_if asked set_register load_done
asked_if-Loaded true c rd value a width calm = record {
  registers = refl;
  memory = refl;
  place = (refl, refl);
  calm = calm;
}
asked_if-Loaded false c rd value a width calm = record {
  registers = refl;
  memory = refl;
  place = (refl, refl);
  calm = calm;
}

asked_if-calm : (t : Bool) (c : RiscvCpu) → c.page_fault ≡ false → (asked_if t c).page_fault ≡ false
unfolding asked_if asked
asked_if-calm true c calm = calm
asked_if-calm false c calm = calm

load_at_machine :
    (c : RiscvCpu) (instruction : Instruction) (rd a width : ℕ)
    → IsPlain c
    → get_load_width instruction ≡ some width
    → IsWidth width
    → load_at c instruction rd a
      ≡ some (
          load_done
            (asked_if (is_split width a) c)
            rd
            (extended instruction (little_endian (byte c.memory) a width))
            a
            width)
unfolding load_at load_done
load_at_machine c instruction rd a width plain sized wide = bind_to _ sized (
    bind_to _ (load_parts_machine c a width plain wide)
      (rw (asked_if-calm (is_split width a) c plain.calm) refl))

-- The loads of the manual: the number of bytes, and whether the sign is copied.
pub data IsLoad : Instruction → ℕ → Bool → Type 0 where
  byte_signed : IsLoad Instruction.lb 1 true
  half_signed : IsLoad Instruction.lh 2 true
  word_signed : IsLoad Instruction.lw 4 true
  byte_unsigned : IsLoad Instruction.lbu 1 false
  half_unsigned : IsLoad Instruction.lhu 2 false
  word_unsigned : IsLoad Instruction.lwu 4 false
  double : IsLoad Instruction.ld 8 false

-- The word of 64 bits for a value of `width` bytes: with a sign, the bytes above are ones where the
-- value is at or above half of its range.
unfoldable pub in_register : ℕ → Bool → ℕ → ℕ
in_register width signed value =
    if signed && leb (2 ^ (width * 8 - 1)) value then value + (2 ^ 64 - 2 ^ (width * 8)) else value

IsLoad-IsWidth :
    (instruction : Instruction) (width : ℕ) (signed : Bool)
    → IsLoad instruction width signed
    → (get_load_width instruction ≡ some width) × IsWidth width
unfolding get_load_width
IsLoad-IsWidth _ _ _ byte_signed = (refl, inl refl)
IsLoad-IsWidth _ _ _ half_signed = (refl, inr (inl refl))
IsLoad-IsWidth _ _ _ word_signed = (refl, inr (inr (inl refl)))
IsLoad-IsWidth _ _ _ byte_unsigned = (refl, inl refl)
IsLoad-IsWidth _ _ _ half_unsigned = (refl, inr (inl refl))
IsLoad-IsWidth _ _ _ word_unsigned = (refl, inr (inr (inl refl)))
IsLoad-IsWidth _ _ _ double = (refl, inr (inr (inr refl)))

extended_lem :
    (instruction : Instruction) (width : ℕ) (signed : Bool) (value : ℕ)
    → IsLoad instruction width signed
    → value < 2 ^ (width * 8)
    → extended instruction value ≡ in_register width signed value
unfolding extended in_register
extended_lem _ _ _ value byte_signed h =
    ground
      (arith, sign_extend_lem 64 value 8 (omega arith) (omega arith) (omega arith) (omega arith))
extended_lem _ _ _ value half_signed h =
    ground
      (arith, sign_extend_lem 64 value 16 (omega arith) (omega arith) (omega arith) (omega arith))
extended_lem _ _ _ value word_signed h =
    ground
      (arith, sign_extend_lem 64 value 32 (omega arith) (omega arith) (omega arith) (omega arith))
extended_lem _ _ _ value byte_unsigned h = refl
extended_lem _ _ _ value half_unsigned h = refl
extended_lem _ _ _ value word_unsigned h = bit_and_mask 32 value ∙ omega arith
extended_lem _ _ _ value double h = refl

-- In machine mode with MPRV clear, no fault noted and a memory of words, each of the seven loads
-- succeeds. The memory is what the update of the mapped timer leaves of it; the register gets the 1, 2,
-- 4 or 8 bytes of that memory from the address on, the lowest first, with the sign copied by LB, LH
-- and LW, also where the access crosses a doubleword; the other registers and the program counters
-- stay, and no fault is noted.
pub load_instruction_machine :
    (cpu : RiscvCpu) (instruction : Instruction) (rd rs1 imm12 width : ℕ) (signed : Bool)
    → IsPlain cpu
    → IsLoad instruction width signed
    → (m : MemoryWrapper) × (memory_mapped_value_update cpu.peripheral cpu.memory ≡ some m)
      × (d : RiscvCpu) × (load_instruction cpu instruction rd rs1 imm12 ≡ some d)
      × Loaded cpu m rd
          (in_register width signed
            (little_endian (byte m) (u64 (cpu.reg rs1 + of_int32 imm12)) width))
          d
unfolding load_instruction memory_mapped_value_update asked
load_instruction_machine cpu instruction rd rs1 imm12 width signed plain is_load =
    let (sized, wide) = IsLoad-IsWidth instruction width signed is_load in
    let a = u64 (cpu.reg rs1 + of_int32 imm12) in
    let (m, made, words) =
      write64_total cpu.memory timer_mtime cpu.peripheral.elapsed_cycles (omega arith) in
    let c = asked (record cpu { memory = m }) in
    let whole : IsPlain (record cpu { memory = m }) = record {
      mode = plain.mode;
      mprv = plain.mprv;
      calm = plain.calm;
      words = words plain.words;
    } in
    let value = extended instruction (little_endian (byte m) a width) in
    let loaded = asked_if-Loaded (is_split width a) c rd value a width plain.calm in
    (
      m,
      made,
      load_done (asked_if (is_split width a) c) rd value a width,
      bind_to _ made (
          bind_to _ (virtual_to_physical_machine (record cpu { memory = m }) a false whole) (
            by_calm c a
              (load_at_machine c instruction rd a width
                (asked-IsPlain (record cpu { memory = m }) whole) sized wide)
              plain.calm)),
      record {
        registers =
            loaded.registers
            ∙ ap (update cpu.reg rd) (
                extended_lem instruction width signed (little_endian (byte m) a width) is_load
                  (little_endian-lt m a width));
        memory = loaded.memory;
        place = loaded.place;
        calm = loaded.calm;
      },
    )
  where
    by_calm :
        (c : RiscvCpu) (a : ℕ) {o : Option RiscvCpu}
        → load_at c instruction rd a ≡ o
        → c.page_fault ≡ false
        → (if c.page_fault then trap c Causes.load_page_fault false else load_at c instruction rd a)
          ≡ o
    by_calm c a e calm =
        ap
          (λ (t : Bool).
            if t then trap c Causes.load_page_fault false else load_at c instruction rd a)
          calm
        ∙ e
