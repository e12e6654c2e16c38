-- ===== src/Vmx/Exits.antt =====
-- The exits of a vCPU that kvm/vmx.c handles for the agent: handle_exception, handle_vmcall,
-- handle_ept_violation and handle_ept_misconfig, as far as the additions go.
use imee.Base.{ℕ, ◌+◌, ◌%◌, Option, none, some, List, [], ◌∷◌, ltb, ◌==◌, if◌then◌else◌}
use imee.Host.{DirectMap}
use imee.Ept.{IntroCtx}
use imee.Context.{kvm_to_ctx, remap_gpa_code}
use imee.Session.{Session, Answer, start_guest_intercept}
use imee.Local.{pd_gpa}
use imee.Vmx.{
  init_vmcs, init_cr3, with_start, Machine, put_vmcs, put_cr3, put_reg, reg_rbx, with_offset,
  adjust_imee_vcpu,
}

-- How an exit ends: 1, back into the guest; 0, out to user space; -1, an error; or on in the
-- code of KVM, for a process that is not the agent's.
pub data Exit : Type 0 where
  resume to_user failure to_kvm : Exit

-- `current` is current->pid and `intr_info` the exit's VM_EXIT_INTR_INFO.
unfoldable pub handle_exception : ℕ → ℕ → Machine → Exit × Machine
handle_exception current intr_info m =
    if current == m.session.imee_pid
    then if intr_info % 256 == 0xE
      then (to_user, m)
      else if ltb m.temp 20
      then (resume, record m { temp = m.temp + 1 })
      else (to_user, m)
    else (to_kvm, m)

-- go_flg at the end of a scan
abbrev pub end_go : ℕ → ℕ
end_go go = if go == 2 then 3 else if go == 1 then 0 else go

abbrev pub scan_all : ℕ
scan_all = 1

-- The end of the scan in handle_vmcall.
abbrev pub end_scan : Session → Session
end_scan s = record s { go_flg = end_go s.go_flg; last_cr3 = 0 }

unfoldable pub handle_vmcall : ℕ → Answer → Machine → Exit × Machine
unfolding init_vmcs init_cr3
handle_vmcall current a m =
    let (started, s) = start_guest_intercept a m.session in
    if current == m.session.imee_pid
    then if m.imee_scan_mode == scan_all
      then if started then (resume, with_start a s m) else (to_user, with_start a (end_scan s) m)
      else (to_user, record m { session = end_scan m.session })
    else (to_kvm, m)

-- The context of the same machine, replaced.
unfoldable pub put_ctx : IntroCtx → List IntroCtx → List IntroCtx
put_ctx ctx [] = []
put_ctx ctx (c ∷ cs) = if c.kvm == ctx.kvm then ctx ∷ cs else c ∷ put_ctx ctx cs

module _ (k : DirectMap) where
  -- `remap_gpa (kvm_to_ctx (current_target->kvm), gpa)`; `none` is an access through NULL.
  unfoldable pub remap_gpa : ℕ → Machine → Option Machine
  unfolding kvm_to_ctx remap_gpa_code put_ctx adjust_imee_vcpu
  remap_gpa gpa m =
      let s = m.session in
      if s.current_target == 0 then none else elim (kvm_to_ctx s.current_target s.contexts) [
        | none ↦ none
        | some ctx ↦ elim (remap_gpa_code k s.code_hpa gpa ctx s.host) [
          | none ↦ none
          | some (ctx', h) ↦ some (record m {
            session =
                adjust_imee_vcpu (with_offset s.last_rip m.entry) 0
                  (record s { contexts = put_ctx ctx' s.contexts; host = h });
          })
        ]
      ]

  -- What follows remap_gpa: at run time, or at the start of an agent.
  abbrev pub after_remap : ℕ → Machine → Machine
  after_remap v m =
      if m.do_switch == 0
      then put_cr3 v pd_gpa (
          put_vmcs v (record (m.vmcs v) { guest_cr3 = pd_gpa })
            (record m { session = put_reg reg_rbx m.session.last_cr3 m.session }))
      else record m { do_switch = 0 }

  -- The second violation reads the context to print, so it faults where there is none.
  unfoldable pub handle_ept_violation : ℕ → ℕ → ℕ → Machine → Option (Exit × Machine)
  unfolding remap_gpa kvm_to_ctx
  handle_ept_violation current v gpa m =
      let s = m.session in
      if current == s.imee_pid
      then if s.trial_run == 0
        then if s.current_target == 0 then none else elim (kvm_to_ctx s.current_target s.contexts) [
          | none ↦ none
          | some _ ↦ some (failure, m)
        ]
        else elim (remap_gpa gpa (record m { session = record s { trial_run = 0 } })) [
          | none ↦ none
          | some m' ↦ some (resume, after_remap v m')
        ]
      else some (to_kvm, m)

unfoldable pub handle_ept_misconfig : ℕ → Machine → Exit × Machine
handle_ept_misconfig current m = if current == m.session.imee_pid then (to_user, m) else (to_kvm, m)
