-- ===== src/Ioctl/Release.antt =====
-- Which processes end a session by closing a vCPU.
use imee.Base.{ℕ, ◌+◌, ◌==◌, if◌then◌else◌, ◌≤◌, ◌<◌, ◌≡◌, some, [], arith}
use imee.Frames.{nbase}
use imee.Frames.Release.{no_bases}
use imee.Session.{Session, Answer}
use imee.Session.Stop.{stop-ends}
use imee.Ioctl.{kvm_vcpu_release}

-- A process that is not the owner of the session ends it when it closes a vCPU of its own, where
-- its number is below the owner's, while the allocator has blocks left: no context is left, and
-- the session has no owner.
pub release-ends_other :
    (pid vcpu : ℕ) (s : Session) (a : Answer)
    → pid < s.imee_pid
    → s.host.p_bases ≡ no_bases
    → s.host.p_base_idx < nbase
    → (s' : Session) × (kvm_vcpu_release pid vcpu s ≡ some s')
      × (s'.contexts ≡ [])
      × (s'.imee_pid ≡ 0)
unfolding kvm_vcpu_release
release-ends_other pid vcpu s a below bases left =
    let (s', runs, empty, _, owner, _, _) = stop-ends s a bases left in
    (
      record s' { root_hpa = if vcpu == s.imee_vcpu then s'.root_hpa else s.root_hpa },
      ground (arith, runs, below),
      empty,
      owner,
    )

-- A process whose number is at least five above the owner's leaves the session as it is.
release-keeps :
    (pid vcpu : ℕ) (s : Session) → s.imee_pid + 5 ≤ pid → kvm_vcpu_release pid vcpu s ≡ some s
unfolding kvm_vcpu_release
release-keeps pid vcpu s above = ground arith
