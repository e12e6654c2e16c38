-- ===== src/Vmx/Samples.antt =====
-- A session with the VMCS of its vCPUs, for tests.
use imee.Base.{true, false, [], ◌∷◌}
use imee.Ept.{IntroCtx}
use imee.Ept.Samples.{empty_ctx}
use imee.Local.Samples.{globals}
use imee.Session.Samples.{session}
use imee.Vmx.{Vmcs, Machine}

abbrev pub vmcs : Vmcs
vmcs = record {
  guest_cr3 = 0x7000;
  guest_rip = 0xC010_0000;
  guest_rsp = 0xC7FF_0000;
  cr0_ts = true;
  cr3_load_exiting = false;
  use_tsc_offset = true;
  tsc_offset = 12;
  exception_bitmap = 0;
  pf_mask = 0;
  pf_match = 0;
}

-- A context with the leaf page of the lowest 512 pages.
abbrev pub one_leaf : IntroCtx
one_leaf = record empty_ctx {
  kvm = 10;
  leaf_page = record { spt = 0x5000; level = 1; gfn = 0 } ∷ [];
}

-- An agent that is about to start in machine 10.
abbrev pub machine : Machine
machine = record {
  session = record session {
    contexts = one_leaf ∷ [];
    current_target = 10;
    go_flg = 0;
    trial_run = 1;
    last_cr3 = 0x7000;
    last_rip = 0x3456;
    code_hpa = 0x40_1000;
  };
  do_switch = 0;
  switched_cr3 = 0;
  cr_flg = 0;
  temp = 0;
  imee_scan_mode = 1;
  entry = 0x40_1234;
  local = globals;
  vmcs = λ v. vmcs;
  arch_cr3 = λ v. 0;
}
