-- ===== src/Segments/Steps.antt =====
-- The cache of the segment registers of kvm/vmx.c over every sequence of the operations on it.
use imee.Base.{ℕ, ◌≡◌, Bool, false}
use imee.Segments.{Segment}
use imee.Segments.Cache.{
  Config, GuestSegments, SegVcpu, CacheField, vmx_segment_cache_clear, vmx_read_guest_seg,
  vmx_get_segment, vmx_get_segment_base,
}
use imee.Segments.Coherent.{
  IsCoherent, segment_in, vmx_read_guest_seg-Cached, vmx_get_segment-Cached,
  vmx_get_segment_base-Cached,
}
use imee.Segments.Valid.{guest_state_valid, vmx_set_segment}
use imee.Segments.Answers.{guest_state_valid-Answers}
use imee.Segments.Set.{vmx_set_segment-writes}

-- One step: a read of a field or of a segment, the check of the guest's state, a write of a segment,
-- a write of the VMCS or a change of the mode after vmx_segment_cache_clear, and a run of the guest,
-- after which the segments are not available.
pub data SegStep (c : Config) (v : SegVcpu) : SegVcpu → Type 0 where
  read : (f : CacheField) (seg : ℕ) → SegStep c v (vmx_read_guest_seg c f seg v).1
  get : (seg : ℕ) → SegStep c v (vmx_get_segment c seg v).1
  base : (seg : ℕ) → SegStep c v (vmx_get_segment_base c seg v).1
  check : SegStep c v (guest_state_valid c v).1
  set : (seg : ℕ) (var : Segment) → SegStep c v (vmx_set_segment c seg var v)
  direct : (g : GuestSegments) → SegStep c v (record (vmx_segment_cache_clear v) { guest = g })
  run :
      (g : GuestSegments) (avail : ℕ → Bool)
      → avail c.exreg_segments ≡ false
      → SegStep c v (record v { guest = g; regs_avail = avail })

pub data SegReach (c : Config) (start : SegVcpu) : SegVcpu → Type 0 where
  begin : SegReach c start start
  next : {v v' : SegVcpu} → SegReach c start v → SegStep c v v' → SegReach c start v'

module _ (c : Config) where
  SegStep-IsCoherent : {v v' : SegVcpu} → SegStep c v v' → IsCoherent c v → IsCoherent c v'
  SegStep-IsCoherent {v} (read f seg) coherent =
      (vmx_read_guest_seg-Cached c f seg v coherent).1.coherent
  SegStep-IsCoherent {v} (get seg) coherent = (vmx_get_segment-Cached c seg v coherent).1.coherent
  SegStep-IsCoherent {v} (base seg) coherent =
      (vmx_get_segment_base-Cached c seg v coherent).1.coherent
  SegStep-IsCoherent {v} check coherent = (guest_state_valid-Answers c v coherent).1.coherent
  SegStep-IsCoherent {v} (set seg var) coherent = (vmx_set_segment-writes c seg var v).0
  SegStep-IsCoherent (direct g) coherent = record { same = λ on seg f bit. absurd (cc bit) }
  SegStep-IsCoherent (run g avail off) coherent = record {
    same = λ on seg f bit. absurd (cc (on, off));
  }

  SegReach-IsCoherent :
      {start v : SegVcpu} → SegReach c start v → IsCoherent c start → IsCoherent c v
  SegReach-IsCoherent begin coherent = coherent
  SegReach-IsCoherent (next reach step) coherent =
      SegStep-IsCoherent step (SegReach-IsCoherent reach coherent)

  -- From a cache that agrees with the VMCS, as an empty one does, and over every sequence of these
  -- steps: vmx_get_segment gives what the VMCS and rmode.segs hold, and vmx_get_segment_base the base
  -- of that, and both leave them as they are.
  pub SegReach-reads :
      (start v : SegVcpu) (seg : ℕ)
      → IsCoherent c start
      → SegReach c start v
      → ((vmx_get_segment c seg v).0 ≡ segment_in c seg v.guest)
        × ((vmx_get_segment c seg v).1.guest ≡ v.guest)
        × ((vmx_get_segment_base c seg v).0 ≡ (segment_in c seg v.guest).base)
        × ((vmx_get_segment_base c seg v).1.guest ≡ v.guest)
  SegReach-reads start v seg coherent reach =
      let still = SegReach-IsCoherent reach coherent in
      let (e, cached) = vmx_get_segment-Cached c seg v still in
      let (b, cached') = vmx_get_segment_base-Cached c seg v still in
      (e, cached.guest, b, cached'.guest)
