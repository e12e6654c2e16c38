-- ===== src/Vmx/Step.antt =====
-- The steps of the host that touch the state of a session, in any order, and the states they reach.
use imee.Base.{ℕ, Bool, some, ◌≡◌}
use imee.Host.{DirectMap}
use imee.Session.{Session, Answer, imee_write_eoi}
use imee.Ioctl.{Command, Returned, kvm_vcpu_ioctl, kvm_vcpu_release}
use imee.Vmx.{Machine}
use imee.Vmx.Exits.{Exit, handle_exception, handle_vmcall, handle_ept_violation}
use imee.Vmx.Run.{vcpu_entry, vcpu_exit}

-- One step: a command of the user, the closing of a vCPU, the interrupt handler, an exit of a vCPU,
-- and the additions before and after each run of a vCPU.
pub data Step (k : DirectMap) (m : Machine) : Machine → Type 0 where
  ioctl :
      (c : Command) (r : Returned) {m' : Machine}
      → kvm_vcpu_ioctl k c m ≡ some (r, m')
      → Step k m m'
  release :
      (pid vcpu : ℕ) {s : Session}
      → kvm_vcpu_release pid vcpu m.session ≡ some s
      → Step k m (record m { session = s })
  interrupt :
      (a : Answer) {s : Session}
      → imee_write_eoi a m.session ≡ some s
      → Step k m (record m { session = s })
  exception : (current info : ℕ) → Step k m (handle_exception current info m).1
  vmcall : (current : ℕ) (a : Answer) → Step k m (handle_vmcall current a m).1
  violation :
      (current v gpa : ℕ) (e : Exit) {m' : Machine}
      → handle_ept_violation k current v gpa m ≡ some (e, m')
      → Step k m m'
  entry : (current : ℕ) (is_target : Bool) (v : ℕ) → Step k m (vcpu_entry current is_target v m).0
  leave :
      (is_target : Bool) (go reason q : ℕ) (regs : ℕ → ℕ) (len v : ℕ)
      → Step k m (vcpu_exit is_target go reason q regs len v m).1

pub data Reach (k : DirectMap) (start : Machine) : Machine → Type 0 where
  here : Reach k start start
  later : {m m' : Machine} → Reach k start m → Step k m m' → Reach k start m'
