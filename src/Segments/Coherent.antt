-- ===== src/Segments/Coherent.antt =====
-- The cache of the segment registers of kvm/vmx.c agrees with the VMCS.
use imee.Base.{
  ℕ, ◌≡◌, refl, sym, ap, ◌∙◌, Bool, true, false, not, ◌&&◌, ◌==◌, if◌then◌else◌, arith, Bool-cases,
  inl, inr, ==→eq,
}
use imee.Segments.{Segment}
use imee.Segments.Cache.{
  Config, GuestSegments, SegVcpu, CacheField, field_sel, field_base, field_limit, field_ar,
  get_field, put_field, update, cache_bit, available, vmx_segment_cache_test_set,
  vmx_read_guest_seg, segment_of, vmx_get_segment, vmx_get_segment_base,
}
use imee.Segments.Fields.{get_field-put_field, same_number, cache_bit-same}

-- While the segments are available, a field whose bit is set is as in the VMCS.
pub record IsCoherent (c : Config) (v : SegVcpu) : Type 0 where
  pub same :
      v.regs_avail c.exreg_segments ≡ true
      → (seg : ℕ) (f : CacheField) → v.bitmask (cache_bit seg f) ≡ true
      → get_field f (v.cache seg) ≡ get_field f (v.guest.vmcs seg)

-- Only the cache has changed, and it agrees.
pub record Cached (c : Config) (v v' : SegVcpu) : Type 0 where
  pub coherent : IsCoherent c v'
  pub guest : v'.guest ≡ v.guest

module _ (c : Config) where
  pub Cached-refl : (v : SegVcpu) → IsCoherent c v → Cached c v v
  Cached-refl v coherent = record { coherent = coherent; guest = refl }

  pub Cached-then : (v v1 v2 : SegVcpu) → Cached c v v1 → Cached c v1 v2 → Cached c v v2
  Cached-then v v1 v2 one two = record { coherent = two.coherent; guest = two.guest ∙ one.guest }

  available-Cached :
      (v : SegVcpu)
      → IsCoherent c v
      → Cached c v (available c v) × ((available c v).regs_avail c.exreg_segments ≡ true)
  available-Cached v coherent = elim (Bool-cases (v.regs_avail c.exreg_segments)) [
    | inl e ↦ rw e (Cached-refl v coherent, e)
    | inr e ↦ rw e (
      record { coherent = record { same = λ on seg f set. absurd (cc set) }; guest = refl },
      ground arith,
    )
  ]

  -- A miss puts the field into the cache.
  module _ (f : CacheField) (seg : ℕ) (v : SegVcpu) (coherent : IsCoherent c v)
      (on : v.regs_avail c.exreg_segments ≡ true) where
    abbrev value : ℕ
    value = get_field f (v.guest.vmcs seg)

    abbrev marked : SegVcpu
    marked = record v { bitmask = update (cache_bit seg f) true v.bitmask }

    abbrev missed : SegVcpu
    missed = record marked { cache = update seg (put_field f value (v.cache seg)) v.cache }

    hit-Cached : v.bitmask (cache_bit seg f) ≡ true → Cached c v marked
    hit-Cached hit = record {
      coherent = record {
        same = λ _ seg' f' set.
            coherent.same on seg' f' (elim (Bool-cases (cache_bit seg' f' == cache_bit seg f)) [
              | inl e ↦ ap v.bitmask (==→eq _ _ e) ∙ hit
              | inr e ↦ sym (ground (arith, e)) ∙ set
            ]);
      };
      guest = refl;
    }

    missed-same :
        (seg' : ℕ) (f' : CacheField)
        → marked.bitmask (cache_bit seg' f') ≡ true
        → get_field f' (missed.cache seg') ≡ get_field f' (v.guest.vmcs seg')
    missed-same seg' f' set = elim (Bool-cases (cache_bit seg' f' == cache_bit seg f)) [
      | inl e ↦
          let (s, n) = cache_bit-same seg seg' f f' (==→eq _ _ e) in
          let fs = same_number f f' n in
          let own : get_field f (missed.cache seg) ≡ value =
            ground (arith, get_field-put_field f f value (v.cache seg)) in
          ap (λ x. get_field x (missed.cache seg')) fs
          ∙ ap (λ x. get_field f (missed.cache x)) s
          ∙ own
          ∙ sym (
              ap (λ x. get_field x (v.guest.vmcs seg')) fs
              ∙ ap (λ x. get_field f (v.guest.vmcs x)) s)
      | inr e ↦
          let was : v.bitmask (cache_bit seg' f') ≡ true = sym (ground (arith, e)) ∙ set in
          let old : get_field f' (missed.cache seg') ≡ get_field f' (v.cache seg') =
            elim (Bool-cases (seg' == seg)) [
              | inl s ↦ ground (arith, s, e, get_field-put_field f f' value (v.cache seg))
              | inr s ↦ rw s refl
            ] in
          old ∙ coherent.same on seg' f' was
    ]

    missed-Cached : Cached c v missed
    missed-Cached = record {
      coherent = record { same = λ _ seg' f' set. missed-same seg' f' set };
      guest = refl;
    }

    read_step :
        (hit : Bool)
        → v.bitmask (cache_bit seg f) ≡ hit
        → let r =
            if◌then◌else◌ {A = ℕ × SegVcpu} hit
              (get_field f (v.cache seg), marked)
              (value, missed) in
          (r.0 ≡ value) × Cached c v r.1
    read_step true e = (coherent.same on seg f e, hit-Cached e)
    read_step false e = (refl, missed-Cached)

  -- A read gives what the VMCS holds, and changes nothing but the cache, which goes on to agree.
  pub vmx_read_guest_seg-Cached :
      (f : CacheField) (seg : ℕ) (v : SegVcpu)
      → IsCoherent c v
      → let r = vmx_read_guest_seg c f seg v in
        (r.0 ≡ get_field f (v.guest.vmcs seg)) × Cached c v r.1
  unfolding vmx_read_guest_seg vmx_segment_cache_test_set
  vmx_read_guest_seg-Cached f seg v coherent =
      let (a, on) = available-Cached v coherent in
      let w = available c v in
      let (x, r) = read_step f seg w a.coherent on (w.bitmask (cache_bit seg f)) refl in
      (
        x ∙ ap (λ g. get_field f (g.vmcs seg)) (a.guest),
        Cached-then v w (vmx_read_guest_seg c f seg v).1 a r,
      )

  -- The segment that vmx_get_segment gives, from the VMCS and rmode.segs alone.
  abbrev pub segment_in : ℕ → GuestSegments → Segment
  segment_in seg g =
      let x = g.vmcs seg in
      if g.vm86_active && not (seg == c.ldtr)
      then if seg == c.tr
        then g.segs seg
        else if (g.segs seg).selector == x.selector
        then g.segs seg
        else record (g.segs seg) { base = x.base; selector = x.selector }
      else segment_of x.base x.limit x.selector x.ar_bytes

  one_of :
      (vm86 is_tr same : Bool) (v v1 v3 w4 : SegVcpu) (x y z : Segment)
      → Cached c v v
      → Cached c v v1
      → Cached c v v3
      → Cached c v w4
      → let r =
          if◌then◌else◌ {A = Segment × SegVcpu} vm86
            (if◌then◌else◌ {A = Segment × SegVcpu} is_tr
              (x, v)
              (if◌then◌else◌ {A = Segment × SegVcpu} same (x, v1) (y, v3)))
            (z, w4) in
        (r.0 ≡ (if vm86 then (if is_tr then x else if same then x else y) else z)) × Cached c v r.1
  one_of true true same v v1 v3 w4 x y z a b d e = (refl, a)
  one_of true false true v v1 v3 w4 x y z a b d e = (refl, b)
  one_of true false false v v1 v3 w4 x y z a b d e = (refl, d)
  one_of false is_tr same v v1 v3 w4 x y z a b d e = (refl, e)

  pub vmx_get_segment-Cached :
      (seg : ℕ) (v : SegVcpu)
      → IsCoherent c v
      → let r = vmx_get_segment c seg v in (r.0 ≡ segment_in seg v.guest) × Cached c v r.1
  unfolding vmx_get_segment
  vmx_get_segment-Cached seg v coherent =
      let (s1, c1) = vmx_read_guest_seg-Cached field_sel seg v coherent in
      let v1 = (vmx_read_guest_seg c field_sel seg v).1 in
      let (b1, c2) = vmx_read_guest_seg-Cached field_base seg v1 c1.coherent in
      let v2 = (vmx_read_guest_seg c field_base seg v1).1 in
      let (s2, c3) = vmx_read_guest_seg-Cached field_sel seg v2 c2.coherent in
      let v3 = (vmx_read_guest_seg c field_sel seg v2).1 in
      let d2 = Cached-then v v1 v2 c1 c2 in
      let d3 = Cached-then v v2 v3 d2 c3 in
      let (b, e1) = vmx_read_guest_seg-Cached field_base seg v coherent in
      let w1 = (vmx_read_guest_seg c field_base seg v).1 in
      let (l, f2) = vmx_read_guest_seg-Cached field_limit seg w1 e1.coherent in
      let w2 = (vmx_read_guest_seg c field_limit seg w1).1 in
      let (s, f3) = vmx_read_guest_seg-Cached field_sel seg w2 f2.coherent in
      let w3 = (vmx_read_guest_seg c field_sel seg w2).1 in
      let (ar, f4) = vmx_read_guest_seg-Cached field_ar seg w3 f3.coherent in
      let w4 = (vmx_read_guest_seg c field_ar seg w3).1 in
      let e2 = Cached-then v w1 w2 e1 f2 in
      let e3 = Cached-then v w2 w3 e2 f3 in
      let e4 = Cached-then v w3 w4 e3 f4 in
      let base1 = b1 ∙ ap (λ g. (g.vmcs seg).base) (c1.guest) in
      let sel2 = s2 ∙ ap (λ g. (g.vmcs seg).selector) (d2.guest) in
      let limit = l ∙ ap (λ g. (g.vmcs seg).limit) (e1.guest) in
      let sel = s ∙ ap (λ g. (g.vmcs seg).selector) (e2.guest) in
      let rights = ar ∙ ap (λ g. (g.vmcs seg).ar_bytes) (e3.guest) in
      rw (s1, base1, sel2, b, limit, sel, rights)
        (one_of (v.guest.vm86_active && not (seg == c.ldtr)) (seg == c.tr)
          ((v.guest.segs seg).selector == (v.guest.vmcs seg).selector) v _ _ _ _ _ _
          (Cached-refl v coherent) c1 d3 e4)

  -- Outside virtual 8086 mode the base is that of the VMCS.
  direct_base :
      (seg : ℕ) (g : GuestSegments)
      → g.vm86_active ≡ false
      → (segment_in seg g).base ≡ (g.vmcs seg).base
  direct_base seg g e = rw e refl

  -- The two ways of vmx_get_segment_base.
  base_of :
      {b : ℕ} (vm86 : Bool) {was : Bool}
      → was ≡ vm86
      → (v : SegVcpu) (got : Segment × SegVcpu) (read : ℕ × SegVcpu) {x : Segment}
      → (got.0 ≡ x) × Cached c v got.1
      → (read.0 ≡ b) × Cached c v read.1
      → (was ≡ false → x.base ≡ b)
      → let r = if◌then◌else◌ {A = ℕ × SegVcpu} vm86 (got.0.base, got.1) read in
        (r.0 ≡ x.base) × Cached c v r.1
  base_of true e v got read (s, one) _ same = (ap (λ s. s.base) s, one)
  base_of false e v got read _ (s, one) same = (s ∙ sym (same e), one)

  pub vmx_get_segment_base-Cached :
      (seg : ℕ) (v : SegVcpu)
      → IsCoherent c v
      → let r = vmx_get_segment_base c seg v in
        (r.0 ≡ (segment_in seg v.guest).base) × Cached c v r.1
  unfolding vmx_get_segment_base
  vmx_get_segment_base-Cached seg v coherent =
      base_of v.guest.vm86_active refl v (vmx_get_segment c seg v)
        (vmx_read_guest_seg c field_base seg v) (vmx_get_segment-Cached seg v coherent)
        (vmx_read_guest_seg-Cached field_base seg v coherent) (direct_base seg v.guest)
