-- ===== src/Segments/Tests.antt =====
-- A task register, written and read back, and the cache at concrete values.
use imee.Base.{◌≡◌, refl, true, false, inl, ltb, arith}
use imee.Segments.{Segment, fields_of}
use imee.Segments.Rights.{IsPlain}
use imee.Segments.Cache.{Config, GuestSegments, SegVcpu, vmx_get_segment, vmx_get_segment_base}
use imee.Segments.Coherent.{IsCoherent, segment_in}
use imee.Segments.Valid.{vmx_set_segment}
use imee.Segments.Set.{vmx_get_segment-set}
use imee.Segments.Steps.{begin, next, get, run, SegReach-reads}

abbrev task_register : Segment
task_register = record {
  base = 0xFFFF_F000;
  limit = 0x206B;
  selector = 0x40;
  type = 11;
  present = 1;
  dpl = 0;
  db = 0;
  s = 0;
  l = 0;
  g = 0;
  avl = 0;
  unusable = 0;
}

task_register-IsPlain : IsPlain task_register
task_register-IsPlain = record {
  type_range = omega arith;
  s_range = omega arith;
  dpl_range = omega arith;
  present_one = refl;
  avl_range = omega arith;
  l_range = omega arith;
  db_range = omega arith;
  g_range = omega arith;
  usable = refl;
}

-- The numbers of the registers, the masks and the flags as the kernel has them.
abbrev config : Config
config = record {
  es = 0;
  cs = 1;
  ss = 2;
  ds = 3;
  fs = 4;
  gs = 5;
  tr = 6;
  ldtr = 7;
  exreg_cpl = 20;
  exreg_segments = 21;
  code_mask = 8;
  accesses_mask = 1;
  writeable_mask = 2;
  rpl_mask = 3;
  ti_mask = 4;
  enable_unrestricted_guest = false;
  emulate_invalid_guest_state = true;
}

-- A vCPU in protected mode with nothing in its cache.
abbrev new_vcpu : SegVcpu
new_vcpu = record {
  guest = record {
    vmcs = λ seg. fields_of task_register;
    segs = λ seg. task_register;
    vm86_active = false;
    protmode = true;
    rflags_vm = false;
    emulation_required = false;
  };
  cache = λ seg. record { base = 0; limit = 0; selector = 0; ar_bytes = 0 };
  bitmask = λ i. false;
  regs_avail = λ i. true;
}

new_vcpu-IsCoherent : IsCoherent config new_vcpu
new_vcpu-IsCoherent = record { same = λ on seg f bit. absurd (cc bit) }

-- The guest has loaded another task register.
abbrev moved : GuestSegments
moved = record new_vcpu.guest {
  vmcs = λ seg. fields_of (record task_register { base = 0x1000; selector = 0x48 });
}

abbrev seen : SegVcpu
seen = (vmx_get_segment config 6 new_vcpu).1

abbrev left : SegVcpu
left = record seen { guest = moved; regs_avail = λ i. ltb i 16 }

SegReach-reads_example :
    ((vmx_get_segment config 6 left).0 ≡ segment_in config 6 moved)
    × ((vmx_get_segment config 6 left).1.guest ≡ moved)
    × ((vmx_get_segment_base config 6 left).0 ≡ (segment_in config 6 moved).base)
    × ((vmx_get_segment_base config 6 left).1.guest ≡ moved)
SegReach-reads_example =
    SegReach-reads config new_vcpu left 6 new_vcpu-IsCoherent
      (next (next begin (get 6)) (run moved (λ i. ltb i 16) refl))

vmx_get_segment-set_example :
    (vmx_get_segment config 6 (vmx_set_segment config 6 task_register left)).0 ≡ task_register
vmx_get_segment-set_example =
    vmx_get_segment-set config 6 task_register left (inl refl) task_register-IsPlain
