-- ===== src/Setup/Unusable.antt =====
-- The segments of the agent where those of the guest are unusable.
use imee.Base.{◌^◌, ◌≡◌, ◌≢◌, arith}
use imee.Segments.{vmx_segment_access_rights}
use imee.Setup.{Sregs, setup_imee_vcpu_sregs}

-- setup_imee_vcpu_sregs gives GS of the agent a base, a limit and a type but leaves the mark
-- `unusable` of the guest's GS: where that is set, the access rights that go into the VMCS say that
-- the segment is unusable, and nothing else.
pub setup_imee_vcpu_sregs-unusable :
    (guest : Sregs)
    → guest.gs.unusable ≢ 0
    → vmx_segment_access_rights (setup_imee_vcpu_sregs guest).segments.gs ≡ 2 ^ 16
unfolding setup_imee_vcpu_sregs vmx_segment_access_rights
setup_imee_vcpu_sregs-unusable guest marked = ground (arith, marked)
