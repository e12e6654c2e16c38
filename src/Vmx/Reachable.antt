-- ===== src/Vmx/Reachable.antt =====
-- The flags of the switch of a scan, over every sequence of steps.

use imee.Host.{DirectMap}
use imee.Ioctl.{kvm_vcpu_ioctl, kvm_vcpu_release}
use imee.Vmx.{Machine}
use imee.Vmx.Exits.{handle_ept_violation}
use imee.Vmx.Step.{
  Step, ioctl, release, interrupt, exception, vmcall, violation, entry, leave, Reach, here, later,
}
use imee.Vmx.Run.{vcpu_entry}
use imee.Base.{ℕ, Bool, ◌≡◌}
use imee.Vmx.Quiet.{
  Quiet, from_some, exception-Quiet, interrupt-Quiet, vmcall-Quiet, entry-Quiet, entry-leaves,
  leave-Quiet,
}
use imee.Vmx.Quiet.Commands.{ioctl-Quiet, release-Quiet}
use imee.Vmx.Quiet.Violation.{violation-Quiet}

Step-Quiet : (k : DirectMap) {m m' : Machine} → Step k m m' → Quiet m → Quiet m'
Step-Quiet k {m} (ioctl c r {m'} e) q =
    from_some (λ x. Quiet x.1) (kvm_vcpu_ioctl k c m) (r, m') (ioctl-Quiet k c m q) e
Step-Quiet k {m} (release pid vcpu {s} e) q =
    from_some (λ s. Quiet (record m { session = s })) (kvm_vcpu_release pid vcpu m.session) s
      (release-Quiet pid vcpu m q) e
Step-Quiet k {m} (interrupt a {s} e) q = interrupt-Quiet a m s e q
Step-Quiet k {m} (exception current info) q = exception-Quiet current info m q
Step-Quiet k {m} (vmcall current a) q = vmcall-Quiet current a m q
Step-Quiet k {m} (violation current v gpa e {m'} h) q =
    from_some (λ x. Quiet x.1) (handle_ept_violation k current v gpa m) (e, m')
      (violation-Quiet k current v gpa m q) h
Step-Quiet k {m} (entry current t v) q = entry-Quiet current t v m q
Step-Quiet k {m} (leave t go reason q regs len v) h = leave-Quiet t go reason q regs len v m h

Reach-IsQuiet : (k : DirectMap) {start m : Machine} → Reach k start m → Quiet start → Quiet m
Reach-IsQuiet k here q = q
Reach-IsQuiet k (later r step) q = Step-Quiet k step (Reach-IsQuiet k r q)

-- From a machine with go_flg and do_switch 0, as the module is loaded, no sequence of commands,
-- interrupts, exits and entries ever sets go_flg or do_switch. So wherever it leads, the next entry of
-- any vCPU by any process leaves the trap on loads of cr3, cr3 and rip of every VMCS as they are:
-- the additions to vmx_vcpu_run turn no trap on and do not switch the agent.
pub Reach-Quiet :
    (k : DirectMap) {start m : Machine}
    → Reach k start m
    → start.session.go_flg ≡ 0
    → start.do_switch ≡ 0
    → (m.session.go_flg ≡ 0)
      × (m.do_switch ≡ 0)
      × ((current : ℕ) (t : Bool) (v w : ℕ)
          → let m' = (vcpu_entry current t v m).0 in
            ((m'.vmcs w).cr3_load_exiting ≡ (m.vmcs w).cr3_load_exiting)
            × ((m'.vmcs w).guest_cr3 ≡ (m.vmcs w).guest_cr3)
            × ((m'.vmcs w).guest_rip ≡ (m.vmcs w).guest_rip)
            × (m'.arch_cr3 w ≡ m.arch_cr3 w))
Reach-Quiet k {m = m} r go still =
    let q = Reach-IsQuiet k r (record { go = go; still = still }) in
    (q.go, q.still, λ current t v w. entry-leaves current t v w m q)
