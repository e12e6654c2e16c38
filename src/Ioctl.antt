-- ===== src/Ioctl.antt =====
-- The additions in kvm/kvm_main.c: the commands of kvm_vcpu_ioctl for a session, and the end of a
-- session when a vCPU is closed.
mod Release
mod Refine
mod Tests
use imee.Base.{ℕ, ◌+◌, Bool, true, false, ◌||◌, Option, none, some, ltb, ◌==◌, if◌then◌else◌}
use imee.Host.{DirectMap}
use imee.Local.{Local}
use imee.Session.{Session, Answer, start_guest_intercept, kvm_imee_stop}
use imee.Setup.{Call, kvm_imee_get_guest_context}
use imee.Vmx.{Machine, init_vmcs, init_cr3, with_start}

-- KVM_IMEE_STOP, KVM_IMEE_SETUP and KVM_IMEE_RUN
pub data Command : Type 0 where
  stop : Command
  setup : Call → Command
  run : Answer → Command

-- What the ioctl returns: 0, -1, or what kvm_arch_vcpu_ioctl_run returns on the agent's vCPU.
pub data Returned : Type 0 where
  zero minus_one as_run : Returned

-- The commands of the vCPU that runs the agent. `none` is a fault.
unfoldable pub kvm_vcpu_ioctl : DirectMap → Command → Machine → Option (Returned × Machine)
unfolding kvm_imee_stop kvm_imee_get_guest_context init_vmcs init_cr3
kvm_vcpu_ioctl k stop m = elim (kvm_imee_stop m.session) [
  | none ↦ none
  | some s ↦ some (zero, record m { session = s })
]
kvm_vcpu_ioctl k (setup c) m = elim (kvm_imee_get_guest_context k c m.session m.local) [
  | none ↦ none
  | some (s, g) ↦ some (zero, record m { session = s; local = g; entry = c.args.entry })
]
kvm_vcpu_ioctl k (run a) m =
    let (started, s) = start_guest_intercept a m.session in
    some (if started then as_run else minus_one, with_start a s m)

-- `current->pid == imee_pid || current->pid - imee_pid < 5`, a signed difference of process
-- numbers, which are below 2 ^ 22.
abbrev pub ends_session : ℕ → ℕ → Bool
ends_session pid imee_pid = (pid == imee_pid) || ltb pid (imee_pid + 5)

-- kvm_imee_stop on the vCPU at `vcpu`: root_hpa is set in that one.
abbrev pub stop_of : ℕ → Session → Option Session
stop_of vcpu s = elim (kvm_imee_stop s) [
  | none ↦ none
  | some s' ↦
      some (record s' { root_hpa = if vcpu == s.imee_vcpu then s'.root_hpa else s.root_hpa })
]

-- The closing of the vCPU at `vcpu` by process `pid`. `none` is a fault in kvm_imee_stop.
unfoldable pub kvm_vcpu_release : ℕ → ℕ → Session → Option Session
unfolding kvm_imee_stop
kvm_vcpu_release pid vcpu s = if ends_session pid s.imee_pid then stop_of vcpu s else some s
