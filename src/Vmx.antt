-- ===== src/Vmx.antt =====
-- The additions for introspection in kvm/vmx.c, and the functions of kvm/imee.c that they call:
-- the state they share with a session, and the switch of page tables.
pub mod Exits
pub mod Guarded
pub mod Scan
mod Confined
pub mod Run
pub mod Step
mod Quiet
mod Reachable
mod Violation
mod Trap
mod Eptp
mod Reads
pub mod Samples
mod Tests
use imee.Base.{
  ℕ, ◌+◌, ◌-◌, ◌*◌, ◌/◌, ◌%◌, ◌^◌, Bool, Option, none, some, List, [], ◌∷◌, ltb, ◌==◌,
  if◌then◌else◌, bit_or, not, true, false, ◌&&◌,
}
use imee.Ept.{IntroCtx}
use imee.Session.{Session, Answer}
use imee.Context.{get_next_ctx}
use imee.Setup.{agent_cr0}
use imee.Local.{Local, pd_gpa}

-- What the additions read and write of a VMCS. Of the execution controls these are the bits for
-- exits on loads of cr3 and for the TSC offset, and of GUEST_CR0 it is the bit TS.
pub record Vmcs : Type 0 where
  pub guest_cr3 : ℕ
  pub guest_rip : ℕ
  pub guest_rsp : ℕ
  pub cr0_ts : Bool
  pub cr3_load_exiting : Bool
  pub use_tsc_offset : Bool
  pub tsc_offset : ℕ
  pub exception_bitmap : ℕ
  pub pf_mask : ℕ
  pub pf_match : ℕ

-- The session with the other globals of kvm/vmx.c and kvm/imee.c, the VMCS of each vCPU by the
-- vCPU's address, and vcpu->arch.cr3 of each. `entry` is imee_arg.entry, and `local` holds the
-- globals of the local page tables.
pub record Machine : Type 0 where
  pub session : Session
  pub do_switch : ℕ
  pub switched_cr3 : ℕ
  pub cr_flg : ℕ
  pub temp : ℕ
  pub imee_scan_mode : ℕ
  pub entry : ℕ
  pub local : Local
  pub vmcs : ℕ → Vmcs
  pub arch_cr3 : ℕ → ℕ

abbrev pub put_vmcs : ℕ → Vmcs → Machine → Machine
put_vmcs v c m = record m { vmcs = λ w. if w == v then c else m.vmcs w }

abbrev pub put_cr3 : ℕ → ℕ → Machine → Machine
put_cr3 v x m = record m { arch_cr3 = λ w. if w == v then x else m.arch_cr3 w }

-- Whether get_next_ctx finds a context, so that init_imee_vcpu is called.
abbrev pub picks : Session → Bool
picks s = elim (get_next_ctx s.contexts) [ none ↦ false | some _ ↦ true ]

-- The exit on loads of cr3 after ept_update_paging_mode_cr0: on without paging (CR0.PG, bit 31), off
-- where paging is turned on, and as it was where paging stays on.
abbrev pub load_exiting : ℕ → Bool → Bool → Bool
load_exiting cr0 was_paging old =
    if cr0 / 2 ^ 31 % 2 == 0 then true else if was_paging then old else false

-- What set_cr0 in setup_imee_vcpu_sregs leaves in the VMCS of the agent's vCPU. TS is clear in the new
-- CR0, and GUEST_CR0 has it where the FPU is not active. The exception bitmap, which a change of the
-- mode writes too, is written before each entry.
unfoldable pub init_vmcs : Answer → Machine → ℕ → Vmcs
unfolding agent_cr0
init_vmcs a m v =
    let c = m.vmcs v in
    if picks m.session && (v == m.session.imee_vcpu)
    then record c {
      cr0_ts = not a.fpu_active;
      cr3_load_exiting = load_exiting (agent_cr0 a.guest_cr0) a.was_paging c.cr3_load_exiting;
    }
    else c

-- vmx_decache_cr3 in ept_update_paging_mode_cr0
unfoldable pub init_cr3 : Answer → Machine → ℕ → ℕ
init_cr3 a m v =
    if picks m.session && (v == m.session.imee_vcpu) && not a.cr3_available && a.was_paging
    then (m.vmcs v).guest_cr3
    else m.arch_cr3 v

-- The machine after start_guest_intercept: the session that it leaves, and what init_imee_vcpu has
-- written for the agent's vCPU.
abbrev pub with_start : Answer → Session → Machine → Machine
with_start a s m = record m { session = s; vmcs = init_vmcs a m; arch_cr3 = init_cr3 a m }

-- `regs[r] = x` of the vCPU of the agent
abbrev pub put_reg : ℕ → ℕ → Session → Session
put_reg r x s = record s { regs = λ i. if i == r then x else s.regs i }

-- VCPU_REGS_RCX, VCPU_REGS_RBX, VCPU_REGS_RSP, VCPU_REGS_RIP
abbrev pub reg_rcx : ℕ
reg_rcx = 1

abbrev pub reg_rbx : ℕ
reg_rbx = 3

abbrev pub reg_rsp : ℕ
reg_rsp = 4

abbrev pub reg_rip : ℕ
reg_rip = 16

-- The page of `page` with the offset of `offset`: `(page & ~0xFFF) | (offset & 0xFFF)`.
abbrev pub with_offset : ℕ → ℕ → ℕ
with_offset page offset = page / 4096 * 4096 + offset % 4096

unfoldable pub adjust_imee_vcpu : ℕ → ℕ → Session → Session
adjust_imee_vcpu rip stack s = put_reg reg_rsp (stack + 0xFF0) (
    put_reg reg_rcx 0xDEAD_BEEF
      (put_reg reg_rip rip (record s { regs_dirty = bit_or s.regs_dirty (2 ^ 16) })))

-- `v` is the vCPU that runs the agent, imee_vcpu.
unfoldable pub do_switch_cr3 : ℕ → Machine → Machine
do_switch_cr3 v m =
    let s = record m.session { last_cr3 = m.switched_cr3 } in
    let c = m.vmcs v in
    let m1 =
      if c.guest_cr3 == pd_gpa
      then record m { session = put_reg reg_rbx m.switched_cr3 s }
      else put_vmcs v (record c { guest_cr3 = m.switched_cr3 })
          (put_cr3 v m.switched_cr3 (record m { session = s })) in
    put_vmcs v (record (m1.vmcs v) { guest_rip = with_offset m.session.last_rip c.guest_rip })
      (record m1 { session = record m1.session { trial_run = 1 } })
