-- ===== src/Session/Samples.antt =====
-- A session with three contexts, for tests.
use imee.Base.{true, ◌+◌, some, List, [], ◌∷◌}
use imee.Ept.{IntroCtx}
use imee.Ept.Samples.{empty_ctx, empty_host}
use imee.Session.{Session, Answer}

abbrev pub three_ctxs : List IntroCtx
three_ctxs =
    record empty_ctx { kvm = 10; eptptr = 0x1000 }
    ∷ record empty_ctx { kvm = 20; visited = 1; eptptr = 0x2000 }
    ∷ record empty_ctx { kvm = 30; eptptr = 0x3000 }
    ∷ []

abbrev pub session : Session
session = record {
  contexts = three_ctxs;
  current_target = 0;
  exit_flg = 0;
  go_flg = 3;
  last_cr3 = 0;
  last_rip = 0;
  last_rsp = 0;
  imee_pid = 42;
  imee_vcpu = 43;
  imee_up = 0;
  trial_run = 0;
  enable_notifier = 0;
  code_hpa = 0;
  data_hpa = 0;
  imee_tr = 0;
  imee_idt = 0;
  imee_gdt = 0;
  ts_buffer1 = some (λ i. 0);
  ts_buffer_idx1 = 0;
  ts_buffer_idx1_limit = 524288;
  root_hpa = 0;
  regs = λ r. r + 7;
  regs_dirty = 0;
  regs_avail = 0;
  tr = 0;
  idt = 0;
  gdt = 0;
  host = empty_host;
}

abbrev pub prompt : Answer
prompt = record {
  stamp1 = 100;
  stamp2 = 200;
  delay = 5;
  guest_cr3 = 0x7000;
  guest_rsp = 1;
  guest_rip = 2;
  guest_tr = 3;
  guest_idt = 4;
  guest_gdt = 5;
  guest_cr0 = 0x8005_003B;
  was_paging = true;
  cr3_available = true;
  fpu_active = true;
}

abbrev pub rest_ctxs : List IntroCtx
rest_ctxs =
    record empty_ctx { kvm = 20; visited = 1; eptptr = 0x2000 }
    ∷ record empty_ctx { kvm = 30; eptptr = 0x3000 }
    ∷ []

abbrev pub picked : IntroCtx
picked = record empty_ctx { kvm = 10; eptptr = 0x1000; visited = 1 }
