-- ===== src/Segments.antt =====
-- Segment registers in a VMCS: vmx_segment_access_rights and vmx_get_seg_sec of kvm/vmx.c.
pub mod Cache
pub mod Valid
pub mod Fields
pub mod Coherent
pub mod Answers
pub mod Set
mod Steps
mod Rights
mod Tests
use imee.Base.{ℕ, ◌+◌, ◌*◌, ◌/◌, ◌%◌, ◌^◌, Bool, not, ◌||◌, ◌==◌, if◌then◌else◌, bit_or}

-- struct kvm_segment
pub record Segment : Type 0 where
  pub base : ℕ
  pub limit : ℕ
  pub selector : ℕ
  pub type : ℕ
  pub present : ℕ
  pub dpl : ℕ
  pub db : ℕ
  pub s : ℕ
  pub l : ℕ
  pub g : ℕ
  pub avl : ℕ
  pub unusable : ℕ

-- `(x & (2 ^ width - 1)) << shift`
abbrev pub field : ℕ → ℕ → ℕ → ℕ
field x width shift = x % 2 ^ width * 2 ^ shift

-- The fields of a segment that is not unusable.
abbrev pub usable_rights : Segment → ℕ
usable_rights var =
    let ar = bit_or (field var.type 4 0) (field var.s 1 4) in
    let ar = bit_or ar (field var.dpl 2 5) in
    let ar = bit_or ar (field var.present 1 7) in
    let ar = bit_or ar (field var.avl 1 12) in
    let ar = bit_or ar (field var.l 1 13) in
    let ar = bit_or ar (field var.db 1 14) in bit_or ar (field var.g 1 15)

unfoldable pub vmx_segment_access_rights : Segment → ℕ
vmx_segment_access_rights var =
    if not (var.unusable == 0) || (var.present == 0) then 2 ^ 16 else usable_rights var

-- The fields of a VMCS for one segment register.
pub record SegmentFields : Type 0 where
  pub base : ℕ
  pub limit : ℕ
  pub selector : ℕ
  pub ar_bytes : ℕ

-- What vmx_set_segment writes, where it does not set the accessed bit of the type and the guest is
-- not in virtual 8086 mode.
unfoldable pub fields_of : Segment → SegmentFields
unfolding vmx_segment_access_rights
fields_of var = record {
  base = var.base;
  limit = var.limit;
  selector = var.selector;
  ar_bytes = vmx_segment_access_rights var;
}

-- `(ar >> shift) & (2 ^ width - 1)`
abbrev pub bits : ℕ → ℕ → ℕ → ℕ
bits ar width shift = ar / 2 ^ shift % 2 ^ width

unfoldable pub vmx_get_seg_sec : SegmentFields → Segment
vmx_get_seg_sec f = record {
  base = f.base;
  limit = f.limit;
  selector = f.selector;
  type = f.ar_bytes % 2 ^ 4;
  s = bits f.ar_bytes 1 4;
  dpl = bits f.ar_bytes 2 5;
  present = bits f.ar_bytes 1 7;
  avl = bits f.ar_bytes 1 12;
  l = bits f.ar_bytes 1 13;
  db = bits f.ar_bytes 1 14;
  g = bits f.ar_bytes 1 15;
  unusable = bits f.ar_bytes 1 16;
}
