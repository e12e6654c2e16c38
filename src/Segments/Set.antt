-- ===== src/Segments/Set.antt =====
-- vmx_set_segment of kvm/vmx.c, and what vmx_get_segment gives after it.
use imee.Base.{
  ℕ, ◌≡◌, ◌≢◌, refl, ap, ◌∙◌, Bool, true, false, not, ◌&&◌, ◌||◌, ◌==◌, ◌⊎◌, inl, inr,
  if◌then◌else◌, arith, Bool-cases, ne→==, ==-refl, ==→ne,
}
use imee.Segments.{Segment, fields_of}
use imee.Segments.Cache.{
  Config, GuestSegments, SegVcpu, update, vmx_segment_cache_clear, vmx_get_segment,
}
use imee.Segments.Coherent.{IsCoherent, Cached, Cached-refl, segment_in, vmx_get_segment-Cached}
use imee.Segments.Valid.{
  guest_state_valid, emulation_required, accessed, written, fix_rmode_seg, vmx_set_segment,
}
use imee.Segments.Rights.{IsPlain, segment_of-rights}
use imee.Segments.Answers.{state_valid, guest_state_valid-Answers}

-- `emulation_required |= b`
abbrev pub flagged : GuestSegments → Bool → GuestSegments
flagged g b = record g { emulation_required = g.emulation_required || b }

module _ (c : Config) where
  -- Whether the registers have to be emulated.
  abbrev pub required_in : GuestSegments → Bool
  required_in g = if c.emulate_invalid_guest_state then not (state_valid c g) else false

  emulation_required-Answers :
      (v : SegVcpu)
      → IsCoherent c v
      → let r = emulation_required c v in (r.0 ≡ required_in v.guest) × Cached c v r.1
  unfolding emulation_required
  emulation_required-Answers v coherent =
      go c.emulate_invalid_guest_state (guest_state_valid-Answers c v coherent)
    where
      go :
          (emulates : Bool)
          → ((guest_state_valid c v).0 ≡ state_valid c v.guest)
            × Cached c v (guest_state_valid c v).1
          → let r =
              if◌then◌else◌ {A = Bool × SegVcpu} emulates
                (not (guest_state_valid c v).0, (guest_state_valid c v).1)
                (false, v) in
            (r.0 ≡ (if emulates then not (state_valid c v.guest) else false)) × Cached c v r.1
      go true (e, cached) = (ap not e, cached)
      go false answers = (refl, Cached-refl c v coherent)

  module _ (seg : ℕ) (var : Segment) (v : SegVcpu) where
    -- The vCPU once the registers are written.
    abbrev set_vcpu : SegVcpu
    set_vcpu = record (vmx_segment_cache_clear v) {
      regs_avail = if seg == c.cs then update c.exreg_cpl false v.regs_avail else v.regs_avail;
      guest = written c seg var v.guest;
    }

    set_vcpu-IsCoherent : IsCoherent c set_vcpu
    set_vcpu-IsCoherent = record { same = λ on q f set. absurd (cc set) }

    -- The registers that a call leaves.
    abbrev pub set_guest : GuestSegments
    set_guest = let g = written c seg var v.guest in flagged g (required_in g)

    -- A call leaves the registers that it writes and a cache that agrees with them, whatever the
    -- cache was before.
    pub vmx_set_segment-writes :
        IsCoherent c (vmx_set_segment c seg var v)
        × ((vmx_set_segment c seg var v).guest ≡ set_guest)
    unfolding vmx_set_segment
    vmx_set_segment-writes =
        let (e, cached) = emulation_required-Answers set_vcpu set_vcpu-IsCoherent in
        let v2 = (emulation_required c set_vcpu).1 in
        (
          record { same = λ on q f set. cached.coherent.same on q f set },
          ap (flagged v2.guest) e ∙ ap (λ g. flagged g (required_in set_vcpu.guest)) (cached.guest),
        )

    read_back :
        (vmx_get_segment c seg (vmx_set_segment c seg var v)).0
        ≡ segment_in c seg (written c seg var v.guest)
    read_back =
        let (coherent, e) = vmx_set_segment-writes in
        (vmx_get_segment-Cached c seg (vmx_set_segment c seg var v) coherent).0
        ∙ ap (segment_in c seg) e

    written-outside :
        (v.guest.vm86_active && not (seg == c.ldtr)) ≡ false
        → written c seg var v.guest
          ≡ record v.guest { vmcs = update seg (fields_of (accessed c seg var)) v.guest.vmcs }
    unfolding written
    written-outside e = rw e refl

    written-tr :
        (v.guest.vm86_active && not (seg == c.ldtr)) ≡ true
        → (seg == c.tr) ≡ true
        → written c seg var v.guest ≡ record v.guest {
          segs = update seg var v.guest.segs;
          vmcs = update seg (record (v.guest.vmcs seg) { selector = var.selector }) v.guest.vmcs;
        }
    unfolding written
    written-tr e t = rw (e, t) refl

    written-vm86 :
        (v.guest.vm86_active && not (seg == c.ldtr)) ≡ true
        → (seg == c.tr) ≡ false
        → var.s ≢ 0
        → written c seg var v.guest ≡ record v.guest {
          segs = update seg var v.guest.segs;
          vmcs = update seg (fix_rmode_seg c seg var) v.guest.vmcs;
        }
    unfolding written
    written-vm86 e t s = rw (e, t, ne→== var.s 0 s) refl

    fix_rmode_seg-selector :
        c.emulate_invalid_guest_state ≡ true → (fix_rmode_seg c seg var).selector ≡ var.selector
    unfolding fix_rmode_seg
    fix_rmode_seg-selector e = rw e refl

    -- Outside virtual 8086 mode, or for the local descriptor table, a segment that is present and
    -- usable, with its fields in range, is read back as it was written, with the accessed bit that
    -- the code sets for an unrestricted guest.
    pub vmx_get_segment-set :
        (v.guest.vm86_active ≡ false) ⊎ (seg ≡ c.ldtr)
        → IsPlain (accessed c seg var)
        → (vmx_get_segment c seg (vmx_set_segment c seg var v)).0 ≡ accessed c seg var
    unfolding fields_of
    vmx_get_segment-set direct plain =
        let outside : (v.guest.vm86_active && not (seg == c.ldtr)) ≡ false =
          ground (arith, direct) in
        read_back
        ∙ ap (segment_in c seg) (written-outside outside)
        ∙ rw (outside, ==-refl seg) (segment_of-rights (accessed c seg var) plain)

    -- In virtual 8086 mode, where invalid states are emulated, a segment register is read back as it
    -- was written, whatever is in its fields: rmode.segs keeps it.
    pub vmx_get_segment-set_vm86 :
        v.guest.vm86_active ≡ true
        → seg ≢ c.ldtr
        → (seg ≡ c.tr) ⊎ ((var.s ≢ 0) × (c.emulate_invalid_guest_state ≡ true))
        → (vmx_get_segment c seg (vmx_set_segment c seg var v)).0 ≡ var
    vmx_get_segment-set_vm86 vm86 other kept =
        let inside : (v.guest.vm86_active && not (seg == c.ldtr)) ≡ true =
          ground (arith, vm86, other) in
        read_back ∙ elim (Bool-cases (seg == c.tr)) [
          | inl t ↦ ap (segment_in c seg) (written-tr inside t) ∙ rw (inside, t, ==-refl seg) refl
          | inr t ↦ elim kept [
            | inl e ↦ absurd (==→ne _ _ t e)
            | inr (s, emulates) ↦
                ap (segment_in c seg) (written-vm86 inside t s)
                ∙ rw (inside, t, ==-refl seg, fix_rmode_seg-selector emulates, ==-refl var.selector)
                    refl
          ]
        ]
