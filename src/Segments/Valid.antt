-- ===== src/Segments/Valid.antt =====
-- Whether the guest's segment registers are such that the processor enters it, guest_state_valid of
-- kvm/vmx.c with its parts, and vmx_set_segment, which asks for it.
use imee.Base.{
  ℕ, ◌*◌, ◌/◌, ◌%◌, ◌^◌, Bool, true, false, not, ◌&&◌, ◌||◌, ◌==◌, if◌then◌else◌, bit_and, bit_or,
  ltb,
}
use imee.Segments.{Segment, SegmentFields, vmx_segment_access_rights, fields_of}
use imee.Segments.Cache.{
  Config, GuestSegments, SegVcpu, update, vmx_segment_cache_clear, vmx_get_segment,
}

module _ (c : Config) where
  -- The tests on a segment register, for the segment that vmx_get_segment gives.
  abbrev pub rmode_valid : ℕ → Segment → Bool
  rmode_valid seg var0 =
      let var = record var0 { dpl = 0x3; type = if seg == c.cs then 0x3 else var0.type } in
      let ar = vmx_segment_access_rights var in
      if not (var.base == var.selector * 2 ^ 4)
      then false
      else if not (var.limit == 0xFFFF)
      then false
      else ar == 0xF3

  abbrev pub code_valid : Segment → Bool
  code_valid cs =
      let cs_rpl = bit_and cs.selector c.rpl_mask in
      let need = bit_or c.code_mask c.accesses_mask in
      if not (cs.unusable == 0)
      then false
      else if not (bit_and cs.type need == need)
      then false
      else if cs.s == 0
      then false
      else if not (bit_and cs.type c.writeable_mask == 0) && ltb cs_rpl cs.dpl
      then false
      else if (bit_and cs.type c.writeable_mask == 0) && not (cs.dpl == cs_rpl)
      then false
      else not (cs.present == 0)

  abbrev pub stack_valid : Segment → Bool
  stack_valid ss =
      let ss_rpl = bit_and ss.selector c.rpl_mask in
      if not (ss.unusable == 0)
      then true
      else if not (ss.type == 3) && not (ss.type == 7)
      then false
      else if ss.s == 0
      then false
      else if not (ss.dpl == ss_rpl)
      then false
      else not (ss.present == 0)

  abbrev pub data_valid : Segment → Bool
  data_valid var =
      let rpl = bit_and var.selector c.rpl_mask in
      let both = bit_or c.code_mask c.writeable_mask in
      if not (var.unusable == 0)
      then true
      else if var.s == 0
      then false
      else if var.present == 0
      then false
      else if not (bit_and var.type both == both) && ltb var.dpl rpl
      then false
      else true

  abbrev pub tr_test : Segment → Bool
  tr_test tr =
      if not (tr.unusable == 0)
      then false
      else if not (bit_and tr.selector c.ti_mask == 0)
      then false
      else if not (tr.type == 3) && not (tr.type == 11)
      then false
      else not (tr.present == 0)

  abbrev pub ldtr_test : Segment → Bool
  ldtr_test ldtr =
      if not (ldtr.unusable == 0)
      then true
      else if not (bit_and ldtr.selector c.ti_mask == 0)
      then false
      else if not (ldtr.type == 2)
      then false
      else not (ldtr.present == 0)

  -- `if (!first) return false;` before `second`
  abbrev pub check_then :
      (SegVcpu → Bool × SegVcpu) → (SegVcpu → Bool × SegVcpu) → SegVcpu → Bool × SegVcpu
  check_then first second v =
      let (ok, v1) = first v in let rest = second v1 in if ok then rest else (false, v1)

  abbrev pub on_segment : ℕ → (Segment → Bool) → SegVcpu → Bool × SegVcpu
  on_segment seg test v = let (var, v1) = vmx_get_segment c seg v in (test var, v1)

  abbrev pub rmode_segment_valid : ℕ → SegVcpu → Bool × SegVcpu
  rmode_segment_valid seg = on_segment seg (rmode_valid seg)

  unfoldable pub cs_ss_rpl_check : SegVcpu → Bool × SegVcpu
  cs_ss_rpl_check v =
      let (cs, v1) = vmx_get_segment c c.cs v in
      let (ss, v2) = vmx_get_segment c c.ss v1 in
      (bit_and cs.selector c.rpl_mask == bit_and ss.selector c.rpl_mask, v2)

  -- The checks in real mode, and those in protected mode.
  unfoldable pub rmode_checks : SegVcpu → Bool × SegVcpu
  rmode_checks = check_then (rmode_segment_valid c.cs) (
      check_then (rmode_segment_valid c.ss) (
        check_then (rmode_segment_valid c.ds) (
          check_then (rmode_segment_valid c.es)
            (check_then (rmode_segment_valid c.fs) (rmode_segment_valid c.gs)))))

  unfoldable pub pmode_checks : SegVcpu → Bool × SegVcpu
  unfolding cs_ss_rpl_check
  pmode_checks = check_then cs_ss_rpl_check (
      check_then (on_segment c.cs code_valid) (
        check_then (on_segment c.ss stack_valid) (
          check_then (on_segment c.ds data_valid) (
            check_then (on_segment c.es data_valid) (
              check_then (on_segment c.fs data_valid) (
                check_then (on_segment c.gs data_valid)
                  (check_then (on_segment c.tr tr_test) (on_segment c.ldtr ldtr_test))))))))

  unfoldable pub guest_state_valid : SegVcpu → Bool × SegVcpu
  unfolding rmode_checks pmode_checks
  guest_state_valid v =
      let real = rmode_checks v in
      let protected = pmode_checks v in
      if c.enable_unrestricted_guest
      then (true, v)
      else if not v.guest.protmode || v.guest.rflags_vm
      then real
      else protected

  unfoldable pub emulation_required : SegVcpu → Bool × SegVcpu
  unfolding guest_state_valid
  emulation_required v =
      let (ok, v1) = guest_state_valid v in
      if c.emulate_invalid_guest_state then (not ok, v1) else (false, v)

  -- What fix_rmode_seg writes for `save`.
  unfoldable pub fix_rmode_seg : ℕ → Segment → SegmentFields
  fix_rmode_seg seg save =
      let var = record save { dpl = 0x3; type = if seg == c.cs then 0x3 else save.type } in
      let plain = record var {
        selector = var.base / 2 ^ 4 % 2 ^ 16;
        base = bit_and var.base 0xF_FFF0;
        limit = 0xFFFF;
        g = 0;
        db = 0;
        present = 1;
        s = 1;
        l = 0;
        unusable = 0;
        type = 0x3;
        avl = 0;
      } in
      let kept = if c.emulate_invalid_guest_state then var else plain in
      record {
        selector = kept.selector;
        base = kept.base % 2 ^ 32;
        limit = kept.limit;
        ar_bytes = vmx_segment_access_rights kept;
      }

  -- The segment that the caller gives, with the accessed bit set in it where the code does.
  abbrev pub accessed : ℕ → Segment → Segment
  accessed seg var =
      if c.enable_unrestricted_guest && not (seg == c.ldtr)
      then record var { type = bit_or var.type 0x1 }
      else var

  -- The registers that vmx_set_segment writes.
  unfoldable pub written : ℕ → Segment → GuestSegments → GuestSegments
  unfolding fix_rmode_seg
  written seg var g =
      if g.vm86_active && not (seg == c.ldtr)
      then (let g1 = record g { segs = update seg var g.segs } in
          if seg == c.tr
          then record g1 {
            vmcs = update seg (record (g.vmcs seg) { selector = var.selector }) g.vmcs;
          }
          else if not (var.s == 0)
          then record g1 { vmcs = update seg (fix_rmode_seg seg var) g.vmcs }
          else g1)
      else record g { vmcs = update seg (fields_of (accessed seg var)) g.vmcs }

  -- `*var` after the call is left out; it is `accessed seg var` outside virtual 8086 mode.
  unfoldable pub vmx_set_segment : ℕ → Segment → SegVcpu → SegVcpu
  unfolding written emulation_required
  vmx_set_segment seg var v =
      let v1 = record (vmx_segment_cache_clear v) {
        regs_avail = if seg == c.cs then update c.exreg_cpl false v.regs_avail else v.regs_avail;
        guest = written seg var v.guest;
      } in
      let (required, v2) = emulation_required v1 in
      record v2 {
        guest = record v2.guest { emulation_required = v2.guest.emulation_required || required };
      }
