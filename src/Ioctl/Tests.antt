-- ===== src/Ioctl/Tests.antt =====
-- The commands and the closing of a vCPU, at concrete values.
use imee.Base.{true, false, ◌∷◌, if◌then◌else◌, ◌≡◌, refl, some, [], arith}
use imee.Ept.Samples.{linux_map}
use imee.Session.{Session}
use imee.Session.Samples.{session, prompt}
use imee.Session.{start_guest_intercept}
use imee.Vmx.{with_start, Machine}
use imee.Vmx.Samples.{machine}
use imee.Ioctl.Refine.{view, command_returns, kvm_vcpu_ioctl-refines}
use imee.Ioctl.{run, Returned, as_run, minus_one, kvm_vcpu_ioctl, kvm_vcpu_release}
use imee.Ioctl.Release.{release-ends_other}

-- The owner is process 42.
release-ends_other_example :
    (s' : Session) × (kvm_vcpu_release 7 9 session ≡ some s')
    × (s'.contexts ≡ [])
    × (s'.imee_pid ≡ 0)
release-ends_other_example = release-ends_other 7 9 session prompt (omega arith) refl (omega arith)

-- A scan of the session with three contexts.
abbrev scanned : Machine
scanned = record machine { session = session }

abbrev after_run : Returned × Machine
after_run =
    let r = start_guest_intercept prompt session in
    (if r.0 then as_run else minus_one, with_start prompt r.1 scanned)

run-scanned : kvm_vcpu_ioctl linux_map (run prompt) scanned ≡ some (after_run.0, after_run.1)
unfolding kvm_vcpu_ioctl
run-scanned = refl

run-returned : command_returns (run prompt) (view scanned.session.contexts) ≡ as_run
run-returned = refl

kvm_vcpu_ioctl-refines_example :
    (view after_run.1.session.contexts ≡ (10, false) ∷ (20, false) ∷ (30, true) ∷ [])
    × (after_run.0 ≡ as_run)
kvm_vcpu_ioctl-refines_example =
    kvm_vcpu_ioctl-refines linux_map (run prompt) after_run.0 scanned after_run.1 run-scanned
