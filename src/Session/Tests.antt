-- ===== src/Session/Tests.antt =====
-- A scan of three contexts, and the theorems at concrete values.
use imee.Base.{◌≡◌, refl, false, none, some, [], ◌∷◌, ltb, leb, ◌==◌, if◌then◌else◌, arith}
use imee.Context.{get_next_ctx}
use imee.Session.{Session, write_eoi, start_guest_intercept, start_go, kvm_imee_stop, invalid_page}
use imee.Session.Samples.{session, prompt, rest_ctxs, picked}
use imee.Session.Start.{answers, start-runs}
use imee.Session.Scan.{scan, scan-all}
use imee.Session.Stop.{stop-ends}

-- The handler never makes go_flg 1.
handler-go : (write_eoi prompt session).go_flg ≡ 3
unfolding write_eoi
handler-go = refl

session-next : get_next_ctx session.contexts ≡ some (picked, picked ∷ rest_ctxs)
unfolding get_next_ctx
session-next = refl

no-next : get_next_ctx [] ≡ none
unfolding get_next_ctx
no-next = refl

start-runs_example :
    let r = start_guest_intercept prompt session in
    (r.0 ≡ answers prompt)
    × (r.1.contexts ≡ picked ∷ rest_ctxs)
    × (r.1.root_hpa ≡ 0x1000)
    × (r.1.current_target ≡ 10)
    × (r.1.regs 3 ≡ (if ltb 3 8 then 0 else session.regs 3))
    × (r.1.last_cr3 ≡ (if leb prompt.delay 10000000 then prompt.guest_cr3 else 0))
    × (r.1.go_flg ≡ start_go session.go_flg)
start-runs_example = start-runs prompt session picked (picked ∷ rest_ctxs) 3 session-next

scan-all_example : scan (prompt ∷ prompt ∷ prompt ∷ []) session ≡ 10 ∷ 30 ∷ []
scan-all_example =
    scan-all (prompt ∷ prompt ∷ prompt ∷ []) session (refl, (refl, (refl, tt))) (omega arith)

stop-ends_example :
    (s' : Session) × (kvm_imee_stop session ≡ some s')
    × (s'.contexts ≡ [])
    × (s'.root_hpa ≡ invalid_page)
    × (s'.imee_pid ≡ 0)
    × (s'.go_flg ≡ (if session.go_flg == 2 then 3 else session.go_flg))
    × ((start_guest_intercept prompt s').0 ≡ false)
stop-ends_example = stop-ends session prompt refl (omega arith)
