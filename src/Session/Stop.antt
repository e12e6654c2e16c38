-- ===== src/Session/Stop.antt =====
-- The end of a session, kvm_imee_stop.
use imee.Base.{◌<◌, ◌≡◌, refl, false, none, some, [], ◌==◌, if◌then◌else◌}
use imee.Frames.{nbase}
use imee.Frames.Release.{no_bases, perform_all, release-leaks}
use imee.Session.{Session, Answer, kvm_imee_stop, start_guest_intercept, invalid_page}
use imee.Session.Start.{start-none}
use imee.Context.{get_next_ctx}

-- While the page frame allocator has blocks left, kvm_imee_stop ends without a fault: it leaves no
-- context, no page table root, no owner of the scan, and go_flg moved from 2 to 3, and a call of
-- start_guest_intercept after it returns -1.
pub stop-ends :
    (s : Session) (a : Answer)
    → s.host.p_bases ≡ no_bases
    → s.host.p_base_idx < nbase
    → (s' : Session) × (kvm_imee_stop s ≡ some s')
      × (s'.contexts ≡ [])
      × (s'.root_hpa ≡ invalid_page)
      × (s'.imee_pid ≡ 0)
      × (s'.go_flg ≡ (if s.go_flg == 2 then 3 else s.go_flg))
      × ((start_guest_intercept a s').0 ≡ false)
unfolding kvm_imee_stop perform_all get_next_ctx
stop-ends s a bases left =
    let (h, runs, _, _) = release-leaks [] s.host bases left in
    let s' : Session = record s {
      current_target = 0;
      contexts = [];
      host = h;
      exit_flg = 0;
      go_flg = if s.go_flg == 2 then 3 else s.go_flg;
      imee_pid = 0;
      imee_vcpu = 0;
      root_hpa = invalid_page;
      enable_notifier = 0;
      code_hpa = 0;
      data_hpa = 0;
      last_cr3 = 0;
      ts_buffer1 = none;
      imee_up = 0;
    } in
    (s', rw (runs, kvm_imee_stop) refl, refl, refl, refl, refl, (start-none a s' 0 refl).0)
