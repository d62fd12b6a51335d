-- ===== src/Cpu/Csr/Views.antt =====
-- The views of the status registers agree with the registers, and every CSR instruction keeps it so.
use m99_riscv_emulator.Prelude.{
  ℕ, ◌^◌, ◌<◌, ◌≡◌, refl, arith, Bool, true, false, ◌||◌, ◌==◌, bit_and, if◌then◌else◌,
}
use m99_riscv_emulator.BitTools.{bitcrop}
use m99_riscv_emulator.BitTools.Fields.{bitcrop-bitset}
use m99_riscv_emulator.Isa.{Instruction}
use m99_riscv_emulator.Isa.Csrs
use m99_riscv_emulator.Cpu.{RiscvCpu, set_register}
use m99_riscv_emulator.Cpu.Csr.{
  set_csr, sstatus_mask, ustatus_mask, uip_mask, sip_mask, apply_mstatus_to_csr, update_mstatus,
  update_interrupt_pending, update_interrupt_enable, apply_interrupt_pending,
  apply_interrupt_enable, update_status, csr_value, csrs_instruction, set_interrupt_pending,
}

-- The three registers as each mode sees them.
pub record IsStatusView (cpu : RiscvCpu) : Type 0 where
  pub ustatus : cpu.csrs Csrs.ustatus ≡ bit_and cpu.mstatus (ustatus_mask cpu.mxl)
  pub sstatus : cpu.csrs Csrs.sstatus ≡ bit_and cpu.mstatus (sstatus_mask cpu.mxl)
  pub mstatus : cpu.csrs Csrs.mstatus ≡ cpu.mstatus

pub record IsPendingView (cpu : RiscvCpu) : Type 0 where
  pub uip : cpu.csrs Csrs.uip ≡ bit_and cpu.mip uip_mask
  pub sip : cpu.csrs Csrs.sip ≡ bit_and cpu.mip sip_mask
  pub mip : cpu.csrs Csrs.mip ≡ cpu.mip

pub record IsEnableView (cpu : RiscvCpu) : Type 0 where
  pub uie : cpu.csrs Csrs.uie ≡ bit_and cpu.mie uip_mask
  pub sie : cpu.csrs Csrs.sie ≡ bit_and cpu.mie sip_mask
  pub mie : cpu.csrs Csrs.mie ≡ cpu.mie

pub record IsViewed (cpu : RiscvCpu) : Type 0 where
  pub status : IsStatusView cpu
  pub pending : IsPendingView cpu
  pub enable : IsEnableView cpu

abbrev is_status : ℕ → Bool
is_status csr = csr == Csrs.ustatus || csr == Csrs.sstatus || csr == Csrs.mstatus

abbrev is_pending : ℕ → Bool
is_pending csr = csr == Csrs.uip || csr == Csrs.sip || csr == Csrs.mip

abbrev is_enable : ℕ → Bool
is_enable csr = csr == Csrs.uie || csr == Csrs.sie || csr == Csrs.mie

-- A write to a CSR of no group leaves the group's views.
module _ (cpu : RiscvCpu) (csr value rd t : ℕ) where
  abbrev written : RiscvCpu
  written = set_register (set_csr cpu csr value) rd t

  keeps_status : is_status csr ≡ false → IsStatusView cpu → IsStatusView written
  unfolding set_register set_csr
  keeps_status out v = record {
    ustatus = let e : (Csrs.ustatus == csr) ≡ false = ground arith in rw e v.ustatus;
    sstatus = let e : (Csrs.sstatus == csr) ≡ false = ground arith in rw e v.sstatus;
    mstatus = let e : (Csrs.mstatus == csr) ≡ false = ground arith in rw e v.mstatus;
  }

  keeps_pending : is_pending csr ≡ false → IsPendingView cpu → IsPendingView written
  unfolding set_register set_csr
  keeps_pending out v = record {
    uip = let e : (Csrs.uip == csr) ≡ false = ground arith in rw e v.uip;
    sip = let e : (Csrs.sip == csr) ≡ false = ground arith in rw e v.sip;
    mip = let e : (Csrs.mip == csr) ≡ false = ground arith in rw e v.mip;
  }

  keeps_enable : is_enable csr ≡ false → IsEnableView cpu → IsEnableView written
  unfolding set_register set_csr
  keeps_enable out v = record {
    uie = let e : (Csrs.uie == csr) ≡ false = ground arith in rw e v.uie;
    sie = let e : (Csrs.sie == csr) ≡ false = ground arith in rw e v.sie;
    mie = let e : (Csrs.mie == csr) ≡ false = ground arith in rw e v.mie;
  }

-- Each of the three functions restores the views of its register and leaves the others.
pub apply_mstatus_to_csr-IsViewed :
    (cpu : RiscvCpu) → IsPendingView cpu → IsEnableView cpu → IsViewed (apply_mstatus_to_csr cpu)
unfolding apply_mstatus_to_csr set_csr
apply_mstatus_to_csr-IsViewed cpu p e = record {
  status = record { ustatus = refl; sstatus = refl; mstatus = refl };
  pending = record { uip = p.uip; sip = p.sip; mip = p.mip };
  enable = record { uie = e.uie; sie = e.sie; mie = e.mie };
}

pub apply_interrupt_pending-IsViewed :
    (cpu : RiscvCpu) → IsStatusView cpu → IsEnableView cpu → IsViewed (apply_interrupt_pending cpu)
unfolding apply_interrupt_pending set_csr
apply_interrupt_pending-IsViewed cpu s e = record {
  status = record { ustatus = s.ustatus; sstatus = s.sstatus; mstatus = s.mstatus };
  pending = record { uip = refl; sip = refl; mip = refl };
  enable = record { uie = e.uie; sie = e.sie; mie = e.mie };
}

pub apply_interrupt_enable-IsViewed :
    (cpu : RiscvCpu) → IsStatusView cpu → IsPendingView cpu → IsViewed (apply_interrupt_enable cpu)
unfolding apply_interrupt_enable set_csr
apply_interrupt_enable-IsViewed cpu s p = record {
  status = record { ustatus = s.ustatus; sstatus = s.sstatus; mstatus = s.mstatus };
  pending = record { uip = p.uip; sip = p.sip; mip = p.mip };
  enable = record { uie = refl; sie = refl; mie = refl };
}

either :
    (b : Bool) {x y : RiscvCpu}
    → (b ≡ true → IsViewed x)
    → (b ≡ false → IsViewed y)
    → IsViewed (if b then x else y)
either true p q = p refl
either false p q = q refl

pending_update :
    (w : RiscvCpu) (csr : ℕ)
    → is_pending csr ≡ true
    → IsStatusView w
    → IsEnableView w
    → IsViewed (update_interrupt_pending w csr)
unfolding update_interrupt_pending
pending_update w csr h s e =
    let s' : (v : ℕ) → IsStatusView (record w { mip = v }) =
      λ v. record { ustatus = s.ustatus; sstatus = s.sstatus; mstatus = s.mstatus } in
    let e' : (v : ℕ) → IsEnableView (record w { mip = v }) =
      λ v. record { uie = e.uie; sie = e.sie; mie = e.mie } in
    either (csr == Csrs.mip) (λ _. apply_interrupt_pending-IsViewed _ (s' _) (e' _))
      λ a.
        either (csr == Csrs.uip) (λ _. apply_interrupt_pending-IsViewed _ (s' _) (e' _))
          λ b.
            either (csr == Csrs.sip) (λ _. apply_interrupt_pending-IsViewed _ (s' _) (e' _))
              λ c. absurd (ground arith)

enable_update :
    (w : RiscvCpu) (csr : ℕ)
    → is_enable csr ≡ true
    → IsStatusView w
    → IsPendingView w
    → IsViewed (update_interrupt_enable w csr)
unfolding update_interrupt_enable
enable_update w csr h s p =
    let s' : (v : ℕ) → IsStatusView (record w { mie = v }) =
      λ v. record { ustatus = s.ustatus; sstatus = s.sstatus; mstatus = s.mstatus } in
    let p' : (v : ℕ) → IsPendingView (record w { mie = v }) =
      λ v. record { uip = p.uip; sip = p.sip; mip = p.mip } in
    either (csr == Csrs.mie) (λ _. apply_interrupt_enable-IsViewed _ (s' _) (p' _))
      λ a.
        either (csr == Csrs.uie) (λ _. apply_interrupt_enable-IsViewed _ (s' _) (p' _))
          λ b.
            either (csr == Csrs.sie) (λ _. apply_interrupt_enable-IsViewed _ (s' _) (p' _))
              λ c. absurd (ground arith)

-- Where the views of the status, pending and enable registers agree with the registers, they agree
-- after every CSR instruction, on every CSR.
pub csrs_instruction-IsViewed :
    (cpu : RiscvCpu) (instruction : Instruction) (csr rd rs1 : ℕ)
    → IsViewed cpu
    → IsViewed (csrs_instruction cpu instruction csr rd rs1)
unfolding csrs_instruction update_status update_mstatus
csrs_instruction-IsViewed cpu instruction csr rd rs1 v =
    let value = csr_value instruction (cpu.csrs csr) (cpu.reg rs1) rs1 in
    let t = cpu.csrs csr in
    either (is_status csr)
      (λ h.
        let p = keeps_pending cpu csr value rd t (ground arith) v.pending in
        let e = keeps_enable cpu csr value rd t (ground arith) v.enable in
        apply_mstatus_to_csr-IsViewed _ (record { uip = p.uip; sip = p.sip; mip = p.mip })
          (record { uie = e.uie; sie = e.sie; mie = e.mie }))
      λ a.
        let s = keeps_status cpu csr value rd t a v.status in
        either (is_pending csr)
          (λ h. pending_update _ csr h s (keeps_enable cpu csr value rd t (ground arith) v.enable))
          λ b.
            let p = keeps_pending cpu csr value rd t b v.pending in
            either (is_enable csr) (λ h. enable_update _ csr h s p)
              λ c. record {
                status = s;
                pending = p;
                enable = keeps_enable cpu csr value rd t c v.enable;
              }

-- When a bit of `mip_` below 64 is set, the views of the pending register stay as they were: where
-- they agreed with a register that had the bit clear, MIP then differs from `mip_`.
pub set_interrupt_pending_stale :
    (cpu : RiscvCpu) (cause : ℕ)
    → IsViewed cpu
    → cause < 64
    → cpu.mip < 2 ^ 64
    → bitcrop cpu.mip 1 cause ≡ 0
    → (bitcrop (set_interrupt_pending cpu cause).mip 1 cause ≡ 1)
      × (bitcrop ((set_interrupt_pending cpu cause).csrs Csrs.mip) 1 cause ≡ 0)
unfolding set_interrupt_pending apply_interrupt_enable set_csr
set_interrupt_pending_stale cpu cause v h fits clear =
    ((bitcrop-bitset cpu.mip 1 cause 1 (omega arith) fits).1, rw v.pending.mip clear)
