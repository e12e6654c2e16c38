-- ===== src/Vmx/Run.antt =====
-- The additions to vmx_vcpu_run in kvm/vmx.c: what they do before the entry into the guest, and
-- after the exit.
use imee.Base.{
  ℕ, ◌+◌, ◌-◌, ◌/◌, ◌%◌, ◌^◌, Bool, true, false, not, ◌&&◌, Option, none, some, ltb, ◌==◌,
  if◌then◌else◌,
}
use imee.Vmx.{Machine, Vmcs, put_vmcs, put_cr3, do_switch_cr3}

-- The settings of the agent's VMCS.
abbrev pub agent_vmcs : Vmcs → Vmcs
agent_vmcs c = record c {
  exception_bitmap = 0xFFFF_FFFF;
  pf_mask = 0;
  pf_match = 0;
  use_tsc_offset = false;
  tsc_offset = 0;
  cr0_ts = false;
}

-- The trap on loads of cr3 goes on where go_flg is 1 and the process is the target's.
abbrev pub set_trap : ℕ → Bool → Machine → Machine
set_trap v is_target m =
    if is_target && (m.session.go_flg == 1)
    then put_vmcs v (record (m.vmcs v) { cr3_load_exiting = true })
        (record m { session = record m.session { go_flg = 2 } })
    else m

-- The trap goes off where go_flg is 3, whatever the process.
abbrev pub clear_trap : ℕ → Machine → Machine
clear_trap v m =
    if m.session.go_flg == 3
    then put_vmcs v (record (m.vmcs v) { cr3_load_exiting = false })
        (record m { session = record m.session { go_flg = 0 } })
    else m

-- `is_target` is the test `current_target && current->group_leader->pid == current_target->task->pid`,
-- and `v` the vCPU that is entered. The second result is the local variable go, which is not set
-- (`none`) on the way of the agent.
unfoldable pub vcpu_entry : ℕ → Bool → ℕ → Machine → Machine × Option ℕ
unfolding do_switch_cr3
vcpu_entry current is_target v m =
    let m1 = put_vmcs v (agent_vmcs (m.vmcs v)) m in
    let m2 = set_trap v is_target m in
    if current == m.session.imee_pid
    then (if m.do_switch == 1 then do_switch_cr3 v m1 else m1, none)
    else (clear_trap v m2, some m2.session.go_flg)

-- `int val` as an unsigned long: the sign of the low 32 bits, extended.
abbrev pub sign_extend : ℕ → ℕ
sign_extend x = if ltb (x % 2 ^ 32) (2 ^ 31) then x % 2 ^ 32 else x % 2 ^ 32 + (2 ^ 64 - 2 ^ 32)

-- A load of cr3 by the target, with the value of the register that the guest reads and the length
-- of the instruction. The second result is whether an interrupt is sent to the core of the agent.
unfoldable pub load_cr3 : ℕ → ℕ → ℕ → Machine → Machine × Bool
load_cr3 v val len m =
    let c = m.vmcs v in
    let s = m.session in
    let is_new = not (m.switched_cr3 == val % 2 ^ 32) in
    let m1 =
      if is_new
      then record m {
        switched_cr3 = val % 2 ^ 32;
        session = record s { last_rsp = c.guest_rsp % 2 ^ 32; last_rip = c.guest_rip % 2 ^ 32 };
      }
      else m in
    if (s.go_flg == 2) && (s.trial_run == 0)
    then (
      put_vmcs v
          (record c { guest_cr3 = sign_extend val; guest_rip = (c.guest_rip + len) % 2 ^ 64 })
          (put_cr3 v (sign_extend val) (record m1 { cr_flg = 1 })),
      is_new && not (s.imee_vcpu == 0),
    )
    else (record m { cr_flg = 1 }, false)

-- EXIT_REASON_CR_ACCESS
abbrev pub cr_access : ℕ
cr_access = 28

-- Whether an exit qualification says "move to cr3".
abbrev pub is_move_to_cr3 : ℕ → Bool
is_move_to_cr3 q = (q / 16 % 4 == 0) && (q % 16 == 3)

-- After the exit. The first result is whether the guest is entered again at once, at resume_vm, and
-- the last whether an interrupt is sent to the core of the agent.
unfoldable pub vcpu_exit : Bool → ℕ → ℕ → ℕ → (ℕ → ℕ) → ℕ → ℕ → Machine → Bool × Machine × Bool
unfolding load_cr3
vcpu_exit is_target go reason q regs len v m =
    let (m', sent) = load_cr3 v (regs (q / 2 ^ 8 % 16)) len m in
    if is_target && (go == 2) && (reason == cr_access) && is_move_to_cr3 q
    then (true, m', sent)
    else (false, m, false)
