-- ===== src/Vmx/Tests.antt =====
-- The theorems on the additions in kvm/vmx.c at concrete values.
use imee.Base.{ℕ, Bool, ◌≡◌, refl, true}
use imee.Ept.Samples.{linux_map}
use imee.Session.Samples.{prompt}
use imee.Vmx.{Machine}
use imee.Vmx.Samples.{vmcs, machine}
use imee.Vmx.Exits.{handle_vmcall}
use imee.Vmx.Run.{vcpu_entry}
use imee.Vmx.Step.{here, later, vmcall, entry}
use imee.Vmx.Reachable.{Reach-Quiet}

-- An agent has been started, and its vCPU entered.
abbrev quiet : Machine
quiet = (vcpu_entry 7 true 5 (handle_vmcall 42 prompt machine).1).0

Reach-Quiet_example :
    (quiet.session.go_flg ≡ 0)
    × (quiet.do_switch ≡ 0)
    × ((current : ℕ) (t : Bool) (v w : ℕ)
        → let m' = (vcpu_entry current t v quiet).0 in
          ((m'.vmcs w).cr3_load_exiting ≡ (quiet.vmcs w).cr3_load_exiting)
          × ((m'.vmcs w).guest_cr3 ≡ (quiet.vmcs w).guest_cr3)
          × ((m'.vmcs w).guest_rip ≡ (quiet.vmcs w).guest_rip)
          × (m'.arch_cr3 w ≡ quiet.arch_cr3 w))
Reach-Quiet_example =
    Reach-Quiet linux_map (later (later here (vmcall 42 prompt)) (entry 7 true 5)) refl refl

-- The trap is on in the VMCS of every vCPU.
abbrev trapped : Machine
trapped = record machine {
  session = record machine.session { go_flg = 3 };
  vmcs = λ v. record vmcs { cr3_load_exiting = true };
}

abbrev watched : Machine
watched = record trapped { session = record machine.session { go_flg = 2; trial_run = 0 } }
