-- ===== src/Vmx/Confined/Tests.antt =====
-- A session from its set-up through a scan, and the theorems on what its agents reach.
use imee.Base.{
  ◌⊎◌, ◌==◌, if◌then◌else◌, ℕ, ◌≡◌, refl, Option, none, some, List, ◌∷◌, [], All, arith,
}
use imee.Context.{get_next_ctx, kvm_to_ctx, create_contexts}
use imee.Frames.{get_ept_page}
use imee.Masks.{frame_bits}
use imee.Shadow.{copy_leaf_ept, make_imee_ept}
use imee.Local.{map_local_page_tables, pd_gpa}
use imee.Ept.{alloc_leaf_page, alloc_non_leaf_page, map_epte, get_epte, IntroCtx, Ptr}
use imee.Ept.Samples.{linux_map, empty_ctx}
use imee.Ept.Walk.{translate}
use imee.Context.Owned.{IsOwn}
use imee.Session.{start_guest_intercept}
use imee.Session.Samples.{prompt}
use imee.Setup.{Call}
use imee.Setup.Samples.{call, block, first_session, targets, block-IsBlock}
use imee.Ioctl.{Returned, setup, run, kvm_vcpu_ioctl}
use imee.Vmx.{Machine, reg_rip, reg_rsp, reg_rbx, with_offset}
use imee.Vmx.Violation.{violation-places}
use imee.Context.Confined.{IsCode}
use imee.Vmx.Exits.{Exit, handle_ept_violation}
use imee.Vmx.Samples.{machine}
use imee.Vmx.Step.{ioctl, violation}
use imee.Vmx.Scan.{Scan, begin, next}
use imee.Vmx.Scan.{Scan-IsGuarded}
use imee.Vmx.Guarded.{IsGuarded}
use imee.Vmx.Guarded.Violation.{violation-resumes}
use imee.Vmx.Confined.{setup-IsGuarded, Scan-IsOwn}

abbrev or_machine {ℓ} : {A : Type ℓ} → Option (A × Machine) → Machine
or_machine none = machine
or_machine (some (x, m)) = m

abbrev new_machine : Machine
new_machine = record machine { session = first_session }

abbrev two_machines : Call
two_machines = record call { vm_list = targets }

-- After the set-up, after the start of an agent, and after its first violation.
abbrev ready : Machine
ready = or_machine (kvm_vcpu_ioctl linux_map (setup two_machines) new_machine)

abbrev begun : Machine
begun = or_machine (kvm_vcpu_ioctl linux_map (run prompt) ready)

abbrev swapped : Machine
swapped = or_machine (handle_ept_violation linux_map 42 43 0x5000 begun)

ready-runs : kvm_vcpu_ioctl linux_map (setup two_machines) new_machine ≡ some (Returned.zero, ready)
unfolding kvm_vcpu_ioctl create_contexts copy_leaf_ept get_ept_page make_imee_ept
    alloc_non_leaf_page map_local_page_tables map_epte frame_bits alloc_leaf_page
ready-runs = refl

begun-runs : kvm_vcpu_ioctl linux_map (run prompt) ready ≡ some (Returned.as_run, begun)
unfolding kvm_vcpu_ioctl start_guest_intercept get_next_ctx create_contexts copy_leaf_ept
    get_ept_page make_imee_ept alloc_non_leaf_page map_local_page_tables map_epte frame_bits
    alloc_leaf_page
begun-runs = refl

swapped-runs : handle_ept_violation linux_map 42 43 0x5000 begun ≡ some (Exit.resume, swapped)
unfolding handle_ept_violation kvm_vcpu_ioctl start_guest_intercept get_next_ctx create_contexts
    copy_leaf_ept get_ept_page make_imee_ept alloc_non_leaf_page map_local_page_tables map_epte
    frame_bits alloc_leaf_page get_epte
swapped-runs = refl

one_scan : Scan linux_map ready 3 swapped
one_scan =
    next (next begin (ioctl (run prompt) Returned.as_run begun-runs) tt 0 refl)
      (violation 42 43 0x5000 Exit.resume swapped-runs) (omega arith) 3 refl

Scan-IsOwn_example : All swapped.session.contexts (λ ctx.
    (gpa : ℕ) → IsOwn ready.local (translate linux_map swapped.session.host.mem ctx.eptptr gpa))
Scan-IsOwn_example =
    Scan-IsOwn linux_map two_machines new_machine block [] 3 refl refl refl block-IsBlock
      (omega arith) (tt, ((omega arith, tt), tt)) Returned.zero ready swapped ready-runs one_scan

-- The context of the target, which has no leaf page for 0x5000_0000.
abbrev first_ctx : List IntroCtx → IntroCtx
first_ctx [] = empty_ctx
first_ctx (c ∷ _) = c

abbrev chosen : IntroCtx
chosen = first_ctx begun.session.contexts

found : kvm_to_ctx begun.session.current_target begun.session.contexts ≡ some chosen
unfolding kvm_to_ctx kvm_vcpu_ioctl start_guest_intercept get_next_ctx create_contexts copy_leaf_ept
    get_ept_page make_imee_ept alloc_non_leaf_page map_local_page_tables map_epte frame_bits
    alloc_leaf_page
found = refl

targeted :
    (begun.session.imee_pid ≡ 42)
    × (begun.session.trial_run ≡ 1)
    × (begun.session.current_target ≡ 20)
    × (get_epte chosen 0x5000_0000 ≡ none)
unfolding get_epte kvm_vcpu_ioctl start_guest_intercept get_next_ctx create_contexts copy_leaf_ept
    get_ept_page make_imee_ept alloc_non_leaf_page map_local_page_tables map_epte frame_bits
    alloc_leaf_page
targeted = (refl, refl, refl, refl)

begun-IsGuarded : IsGuarded linux_map ready.local 3 begun.session
begun-IsGuarded =
    Scan-IsGuarded linux_map ready.local 0 3
      (next begin (ioctl (run prompt) Returned.as_run begun-runs) tt 0 refl)
      (setup-IsGuarded linux_map two_machines new_machine block [] 3 refl refl refl block-IsBlock
        (omega arith) (tt, ((omega arith, tt), tt)) Returned.zero ready ready-runs)

violation-resumes_example :
    (m' : Machine) × (handle_ept_violation linux_map begun.session.imee_pid 43 0x5000_0000 begun
      ≡ some (Exit.resume, m'))
    × IsGuarded linux_map ready.local 0 m'.session
violation-resumes_example =
    violation-resumes linux_map ready.local 0 43 0x5000_0000 begun chosen (omega arith)
      begun-IsGuarded (λ e. omega (arith, e, targeted.1)) (λ e. omega (arith, e, targeted.2)) found

violation-places_example :
    (m' : Machine) × (c : IntroCtx) × (p : Ptr) × (handle_ept_violation linux_map
        begun.session.imee_pid 43 0x5000_0000 begun
      ≡ some (Exit.resume, m'))
    × (m'.session.regs reg_rip ≡ with_offset begun.session.last_rip begun.entry)
    × (m'.session.regs reg_rsp ≡ 0xFF0)
    × ((m'.vmcs 43).guest_cr3
        ≡ (if begun.do_switch == 0 then pd_gpa else (begun.vmcs 43).guest_cr3))
    × (m'.session.regs reg_rbx
        ≡ (if begun.do_switch == 0 then begun.session.last_cr3 else begun.session.regs reg_rbx))
    × (m'.do_switch ≡ 0)
    × (kvm_to_ctx m'.session.current_target m'.session.contexts ≡ some c)
    × (c.code_ept_pte_p ≡ some p)
    × IsCode begun.session.code_hpa (m'.session.host.mem p.page p.slot)
    × ((get_epte chosen 0x5000_0000 ≡ some p)
        ⊎ ((get_epte chosen 0x5000_0000 ≡ none)
            × (translate linux_map m'.session.host.mem c.eptptr 0x5000_0000
                ≡ m'.session.host.mem p.page p.slot)))
    × (handle_ept_violation linux_map begun.session.imee_pid 43 0x5000_0000 m'
        ≡ some (Exit.failure, m'))
violation-places_example =
    violation-places linux_map ready.local 0 43 0x5000_0000 begun chosen (omega arith)
      begun-IsGuarded (λ e. omega (arith, e, targeted.1)) (λ e. omega (arith, e, targeted.2)) found
