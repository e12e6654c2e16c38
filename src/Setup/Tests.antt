-- ===== src/Setup/Tests.antt =====
-- The start of a session and the registers of the agent's vCPU, at concrete values.
use imee.Base.{Option, ◌+◌, ◌*◌, some, ◌/◌, ◌%◌, ◌^◌, ◌≡◌, refl, none, [], ◌∷◌, arith}
use imee.Session.{Session}
use imee.Host.{Host}
use imee.Masks.{frame_bits}
use imee.Ept.{IntroCtx, map_epte, alloc_leaf_page, alloc_non_leaf_page}
use imee.Ept.Walk.{translate}
use imee.Shadow.{copy_leaf_ept, make_imee_ept}
use imee.Frames.{get_ept_page}
use imee.Context.{GuestVm, fill_ctx}
use imee.Setup.Samples.{call}
use imee.Ept.Samples.{linux_map, empty_ctx, empty_host}
use imee.Local.{map_local_page_tables, Local, get_pte, data_gpa, code_gpa}
use imee.Local.Samples.{args, globals}
use imee.Session.Samples.{session}
use imee.Segments.{Segment, vmx_segment_access_rights}
use imee.Setup.Unusable.{setup_imee_vcpu_sregs-unusable}
use imee.Setup.{Sregs, flat, setup_local, setup_imee_vcpu_sregs}
use imee.Setup.Flat.{IsFlat, setup_imee_vcpu_sregs-IsFlat}
use imee.Setup.Unchecked.{setup_local-unchecked}

no_entry : get_pte call.tables args.data_host ≡ none
unfolding get_pte
no_entry = refl

-- The context that is made for another machine all the same.
abbrev target : GuestVm
target = record {
  vm = 20;
  owner = 5;
  vcpus0 = 21;
  active_mmu_pages = record { level = 1; gfn = 0; spt = λ j. j * 4096 + 0x77 } ∷ [];
}

abbrev or_blank : Option (IntroCtx × Host) → IntroCtx × Host
or_blank none = (empty_ctx, empty_host)
or_blank (some r) = r

-- The globals with the addresses of a session that has ended.
abbrev kept_local : Local
kept_local = record globals { code_hpa = 0; data_hpa = 0 }

kept_local-set : setup_local linux_map call session globals ≡ some kept_local
unfolding setup_local get_pte
kept_local-set = refl

abbrev made : IntroCtx × Host
made = or_blank (fill_ctx linux_map kept_local target empty_host)

made-runs : fill_ctx linux_map kept_local target empty_host ≡ some (made.0, made.1)
unfolding fill_ctx copy_leaf_ept get_ept_page make_imee_ept alloc_non_leaf_page
    map_local_page_tables map_epte frame_bits alloc_leaf_page
made-runs = refl

setup_local-unchecked_example :
    (frame_bits (translate linux_map made.1.mem made.0.eptptr code_gpa) ≡ 0)
    × (translate linux_map made.1.mem made.0.eptptr code_gpa % 8 ≡ 4)
    × (frame_bits (translate linux_map made.1.mem made.0.eptptr data_gpa) ≡ 0)
    × (translate linux_map made.1.mem made.0.eptptr data_gpa % 8 ≡ 3)
setup_local-unchecked_example =
    setup_local-unchecked linux_map call session globals target empty_host made.1 made.0 kept_local
      no_entry refl refl
      (record {
        aligned = refl;
        below = omega arith;
        above = omega arith;
        fits = omega arith;
        left = omega arith;
        unused = λ j lo hi. refl;
      })
      (omega arith, tt) kept_local-set made-runs

abbrev any_segment : Segment
any_segment = record {
  base = 0;
  limit = 0;
  selector = 0;
  type = 0;
  present = 0;
  dpl = 0;
  db = 0;
  s = 0;
  l = 0;
  g = 0;
  avl = 0;
  unusable = 0;
}

abbrev guest_sregs : Sregs
guest_sregs = record {
  cs = flat 0x60 0xB 0 any_segment;
  ds = flat 0x7B 0x3 3 any_segment;
  es = flat 0x7B 0x3 3 any_segment;
  fs = flat 0xD8 0x3 0 any_segment;
  gs = flat 0xE0 0x3 0 any_segment;
  ss = flat 0x68 0x3 0 any_segment;
  ldt = flat 0 0x2 0 any_segment;
  cr0 = 0x8005_003D;
  cr4 = 0x6D0;
  efer = 0;
}

setup_imee_vcpu_sregs-IsFlat_example :
    let r = (setup_imee_vcpu_sregs guest_sregs).segments in
    (IsFlat r.cs × (vmx_segment_access_rights r.cs ≡ 0xC09B))
    × (IsFlat r.ds × (vmx_segment_access_rights r.ds ≡ 0xC0F3))
    × (IsFlat r.es × (vmx_segment_access_rights r.es ≡ 0xC0F3))
    × (IsFlat r.ss × (vmx_segment_access_rights r.ss ≡ 0xC093))
    × (IsFlat r.gs × (vmx_segment_access_rights r.gs ≡ 0xC093))
    × (r.cr0 / 2 % 2 ≡ 1)
    × (r.cr0 / 4 % 4 ≡ 0)
    × (r.cr0 % 2 ≡ guest_sregs.cr0 % 2)
    × (r.cr0 / 16 ≡ guest_sregs.cr0 / 16)
setup_imee_vcpu_sregs-IsFlat_example =
    setup_imee_vcpu_sregs-IsFlat guest_sregs refl refl refl refl (omega arith)

-- A guest whose GS is unusable.
setup_imee_vcpu_sregs-unusable_example :
    let guest = record guest_sregs { gs = record any_segment { unusable = 1 } } in
    vmx_segment_access_rights (setup_imee_vcpu_sregs guest).segments.gs ≡ 2 ^ 16
setup_imee_vcpu_sregs-unusable_example =
    setup_imee_vcpu_sregs-unusable (record guest_sregs { gs = record any_segment { unusable = 1 } })
      (λ e. ground (arith, e))
