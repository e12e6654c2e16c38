-- ===== src/Segments/Cache.antt =====
-- The cache of the segment registers in kvm/vmx.c: vmx_segment_cache_clear,
-- vmx_segment_cache_test_set, vmx_read_guest_seg_selector, _base, _limit and _ar, and
-- vmx_get_segment.
use imee.Base.{ℕ, ◌+◌, ◌*◌, ◌%◌, ◌^◌, Bool, true, false, not, ◌&&◌, ◌==◌, if◌then◌else◌}
use imee.Segments.{Segment, SegmentFields, bits}

-- What the code takes from the kernel's headers and from the parameters of the module: the numbers
-- of the segment registers (VCPU_SREG_…) and of two bits of regs_avail (VCPU_EXREG_…), the masks of
-- the type and the selector, and the two flags.
pub record Config : Type 0 where
  pub es : ℕ
  pub cs : ℕ
  pub ss : ℕ
  pub ds : ℕ
  pub fs : ℕ
  pub gs : ℕ
  pub tr : ℕ
  pub ldtr : ℕ
  pub exreg_cpl : ℕ
  pub exreg_segments : ℕ
  pub code_mask : ℕ
  pub accesses_mask : ℕ
  pub writeable_mask : ℕ
  pub rpl_mask : ℕ
  pub ti_mask : ℕ
  pub enable_unrestricted_guest : Bool
  pub emulate_invalid_guest_state : Bool

-- The guest's segment registers: the VMCS and rmode.segs by number, rmode.vm86_active, is_protmode,
-- the flag X86_EFLAGS_VM of vmx_get_rflags, and emulation_required.
pub record GuestSegments : Type 0 where
  pub vmcs : ℕ → SegmentFields
  pub segs : ℕ → Segment
  pub vm86_active : Bool
  pub protmode : Bool
  pub rflags_vm : Bool
  pub emulation_required : Bool

-- A vCPU: its segment registers, and segment_cache with its bitmask and regs_avail, bit by bit.
pub record SegVcpu : Type 0 where
  pub guest : GuestSegments
  pub cache : ℕ → SegmentFields
  pub bitmask : ℕ → Bool
  pub regs_avail : ℕ → Bool

-- enum segment_cache_field
pub data CacheField : Type 0 where
  field_sel field_base field_limit field_ar : CacheField

abbrev pub field_number : CacheField → ℕ
field_number field_sel = 0
field_number field_base = 1
field_number field_limit = 2
field_number field_ar = 3

abbrev pub get_field : CacheField → SegmentFields → ℕ
get_field field_sel x = x.selector
get_field field_base x = x.base
get_field field_limit x = x.limit
get_field field_ar x = x.ar_bytes

abbrev pub put_field : CacheField → ℕ → SegmentFields → SegmentFields
put_field field_sel v x = record x { selector = v }
put_field field_base v x = record x { base = v }
put_field field_limit v x = record x { limit = v }
put_field field_ar v x = record x { ar_bytes = v }

-- `set[i] = b`
abbrev pub update {ℓ} : {A : Type ℓ} → ℕ → A → (ℕ → A) → ℕ → A
update i b set j = if j == i then b else set j

abbrev pub vmx_segment_cache_clear : SegVcpu → SegVcpu
vmx_segment_cache_clear v = record v { bitmask = λ i. false }

-- seg * SEG_FIELD_NR + field
abbrev pub cache_bit : ℕ → CacheField → ℕ
cache_bit seg f = seg * 4 + field_number f

-- The bits of a vCPU whose segments are not available are dropped first.
abbrev pub available : Config → SegVcpu → SegVcpu
available c v =
    if v.regs_avail c.exreg_segments
    then v
    else record v { regs_avail = update c.exreg_segments true v.regs_avail; bitmask = λ i. false }

unfoldable pub vmx_segment_cache_test_set : Config → ℕ → CacheField → SegVcpu → Bool × SegVcpu
vmx_segment_cache_test_set c seg f v =
    let v1 = available c v in
    (v1.bitmask (cache_bit seg f), record v1 { bitmask = update (cache_bit seg f) true v1.bitmask })

-- The four functions that read a field.
unfoldable pub vmx_read_guest_seg : Config → CacheField → ℕ → SegVcpu → ℕ × SegVcpu
unfolding vmx_segment_cache_test_set
vmx_read_guest_seg c f seg v =
    let (hit, v1) = vmx_segment_cache_test_set c seg f v in
    let x = get_field f (v1.guest.vmcs seg) in
    if hit
    then (get_field f (v1.cache seg), v1)
    else (x, record v1 { cache = update seg (put_field f x (v1.cache seg)) v1.cache })

-- The segment that vmx_get_segment makes of four fields.
abbrev pub segment_of : ℕ → ℕ → ℕ → ℕ → Segment
segment_of base limit selector ar = record {
  base = base;
  limit = limit;
  selector = selector;
  unusable = bits ar 1 16;
  type = ar % 2 ^ 4;
  s = bits ar 1 4;
  dpl = bits ar 2 5;
  present = if bits ar 1 16 == 0 then 1 else 0;
  avl = bits ar 1 12;
  l = bits ar 1 13;
  db = bits ar 1 14;
  g = bits ar 1 15;
}

unfoldable pub vmx_get_segment : Config → ℕ → SegVcpu → Segment × SegVcpu
unfolding vmx_read_guest_seg
vmx_get_segment c seg v =
    let var = v.guest.segs seg in
    let (sel, v1) = vmx_read_guest_seg c field_sel seg v in
    let (base1, v2) = vmx_read_guest_seg c field_base seg v1 in
    let (sel1, v3) = vmx_read_guest_seg c field_sel seg v2 in
    let (base, w1) = vmx_read_guest_seg c field_base seg v in
    let (limit, w2) = vmx_read_guest_seg c field_limit seg w1 in
    let (selector, w3) = vmx_read_guest_seg c field_sel seg w2 in
    let (ar, w4) = vmx_read_guest_seg c field_ar seg w3 in
    if v.guest.vm86_active && not (seg == c.ldtr)
    then if seg == c.tr
      then (var, v)
      else if var.selector == sel
      then (var, v1)
      else (record var { base = base1; selector = sel1 }, v3)
    else (segment_of base limit selector ar, w4)

unfoldable pub vmx_get_segment_base : Config → ℕ → SegVcpu → ℕ × SegVcpu
unfolding vmx_get_segment
vmx_get_segment_base c seg v =
    let (s, v1) = vmx_get_segment c seg v in
    let read = vmx_read_guest_seg c field_base seg v in
    if v.guest.vm86_active then (s.base, v1) else read
