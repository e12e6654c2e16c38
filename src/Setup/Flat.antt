-- ===== src/Setup/Flat.antt =====
-- The registers of the vCPU that runs an agent: flat segments, and SSE turned on.
use imee.Base.{
  ℕ, ◌+◌, ◌-◌, ◌*◌, ◌/◌, ◌%◌, ◌^◌, ◌<◌, ◌≡◌, refl, arith, bit_and, bit_or, bit_or_step, bit_or-zero,
  bit_and_split, bit_and-ones, ones,
}
use imee.Segments.{Segment, vmx_segment_access_rights}
use imee.Setup.{Sregs, agent_cr0, setup_imee_vcpu_sregs}

set_bit1 : (x : ℕ) → bit_or x 2 ≡ x / 4 * 4 + 2 + x % 2
set_bit1 x = ground (arith, bit_or_step x 2, bit_or_step (x / 2) 1, bit_or-zero (x / 2 / 2))

keep_bits : (o : ℕ) → o < 2 ^ 64 → bit_and o 0xFFFF_FFFF_FFFF_FFF3 ≡ o / 16 * 16 + o % 4
unfolding ones
keep_bits o h = ground (
  arith,
  bit_and_split 4 (o / 16) (o % 16) (2 ^ 60 - 1) 3,
  bit_and-ones 60 0 (o / 16),
  bit_and-ones 2 (o % 16 / 4) (o % 4),
)

agent_cr0_lem : (x : ℕ) → x < 2 ^ 64 → agent_cr0 x ≡ x / 16 * 16 + 2 + x % 2
unfolding agent_cr0
agent_cr0_lem x h = ground (arith, set_bit1 x, keep_bits (bit_or x 2))

-- A segment of 4 GB from 0 on.
abbrev pub IsFlat : Segment → Type 0
IsFlat seg = (seg.base ≡ 0) × (seg.limit ≡ 2 ^ 32 - 1) × (seg.g ≡ 1)

-- Where none of the guest's CS, DS, SS and GS is marked unusable, the vCPU that runs an agent has CS,
-- DS, SS, ES and GS of 4 GB from 0 on, so that a linear address is the offset, and the access
-- rights that vmx_set_segment writes for them are those of present 32-bit segments with the limit in
-- pages: code that may be read, of level 0, for CS; data that may be written, of level 0 for SS and
-- GS, and of level 3 for DS and ES. CR0 is that of the guest but for MP set and EM and TS clear.
pub setup_imee_vcpu_sregs-IsFlat :
    (guest : Sregs)
    → guest.cs.unusable ≡ 0
    → guest.ds.unusable ≡ 0
    → guest.ss.unusable ≡ 0
    → guest.gs.unusable ≡ 0
    → guest.cr0 < 2 ^ 64
    → let r = (setup_imee_vcpu_sregs guest).segments in
      (IsFlat r.cs × (vmx_segment_access_rights r.cs ≡ 0xC09B))
      × (IsFlat r.ds × (vmx_segment_access_rights r.ds ≡ 0xC0F3))
      × (IsFlat r.es × (vmx_segment_access_rights r.es ≡ 0xC0F3))
      × (IsFlat r.ss × (vmx_segment_access_rights r.ss ≡ 0xC093))
      × (IsFlat r.gs × (vmx_segment_access_rights r.gs ≡ 0xC093))
      × (r.cr0 / 2 % 2 ≡ 1)
      × (r.cr0 / 4 % 4 ≡ 0)
      × (r.cr0 % 2 ≡ guest.cr0 % 2)
      × (r.cr0 / 16 ≡ guest.cr0 / 16)
unfolding setup_imee_vcpu_sregs vmx_segment_access_rights
setup_imee_vcpu_sregs-IsFlat guest cs ds ss gs small =
    let e = agent_cr0_lem guest.cr0 small in
    (
      ((refl, refl, refl), rw cs refl),
      ((refl, refl, refl), rw ds refl),
      ((refl, refl, refl), rw ds refl),
      ((refl, refl, refl), rw ss refl),
      ((refl, refl, refl), rw gs refl),
      omega (arith, e),
      omega (arith, e),
      omega (arith, e),
      omega (arith, e),
    )
