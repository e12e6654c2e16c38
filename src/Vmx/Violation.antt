-- ===== src/Vmx/Violation.antt =====
-- The first EPT violation of an agent, which puts it in place, and the second, which ends it.
use imee.Base.{
  none, ℕ, ◌+◌, ◌^◌, ◌<◌, ◌⊎◌, inl, inr, sym, ◌∙◌, subst, if◌then◌else◌, Bool-cases, ◌≡◌, ◌≢◌, refl,
  true, some, ◌==◌, ==→eq, ==→ne, List, [], ◌∷◌, arith, ne→==, ==-refl,
}
use imee.Host.{DirectMap}
use imee.Ept.{IntroCtx, Ptr, get_epte}
use imee.Ept.Walk.{translate}
use imee.Context.{kvm_to_ctx}
use imee.Context.Confined.{IsCode}
use imee.Local.{Local, pd_gpa}
use imee.Vmx.Guarded.{IsGuarded, Swapped, swap}
use imee.Vmx.{Machine, with_offset, adjust_imee_vcpu, reg_rbx, reg_rsp, reg_rip}
use imee.Vmx.Exits.{resume, failure, put_ctx, after_remap, remap_gpa, handle_ept_violation}

kvm_to_ctx-kvm :
    (x : ℕ) (cs : List IntroCtx) (ctx : IntroCtx) → kvm_to_ctx x cs ≡ some ctx → ctx.kvm ≡ x
unfolding kvm_to_ctx
kvm_to_ctx-kvm x [] ctx e = ground (arith, e)
kvm_to_ctx-kvm x (c ∷ cs) ctx e = ground (arith, e, ==→eq c.kvm x, kvm_to_ctx-kvm x cs ctx)

kvm_to_ctx-put_ctx :
    (x : ℕ) (cs : List IntroCtx) (ctx ctx' : IntroCtx)
    → kvm_to_ctx x cs ≡ some ctx
    → ctx'.kvm ≡ x
    → kvm_to_ctx x (put_ctx ctx' cs) ≡ some ctx'
unfolding kvm_to_ctx put_ctx
kvm_to_ctx-put_ctx x [] ctx ctx' e same = ground (arith, e)
kvm_to_ctx-put_ctx x (c ∷ cs) ctx ctx' e same =
    ground
      (arith, e, same, ==→eq c.kvm x, ==→ne c.kvm x, ==-refl x, kvm_to_ctx-put_ctx x cs ctx ctx')

after_remap-contexts :
    (k : DirectMap) (v : ℕ) (m : Machine)
    → (after_remap k v m).session.contexts ≡ m.session.contexts
after_remap-contexts k v m = ground arith

after_remap-target :
    (k : DirectMap) (v : ℕ) (m : Machine)
    → (after_remap k v m).session.current_target ≡ m.session.current_target
after_remap-target k v m = ground arith

second_violation :
    (k : DirectMap) (current v gpa : ℕ) (m : Machine) (c : IntroCtx)
    → m.session.imee_pid ≡ current
    → m.session.trial_run ≡ 0
    → m.session.current_target ≢ 0
    → kvm_to_ctx m.session.current_target m.session.contexts ≡ some c
    → handle_ept_violation k current v gpa m ≡ some (failure, m)
unfolding handle_ept_violation
second_violation k current v gpa m c own over target found =
    let own' : (current == m.session.imee_pid) ≡ true = ground (arith, own) in
    let over' : (m.session.trial_run == 0) ≡ true = ground (arith, over) in
    rw (own', over', ne→== m.session.current_target 0 target, found, handle_ept_violation) refl

module _ (k : DirectMap) (g : Local) (n v gpa : ℕ) (m : Machine) (ctx : IntroCtx)
    (small : gpa < 2 ^ 48) (guarded : IsGuarded k g (3 + n) m.session)
    (pending : m.session.trial_run ≢ 0) (target : m.session.current_target ≢ 0)
    (found : kvm_to_ctx m.session.current_target m.session.contexts ≡ some ctx) where
  abbrev swapped : Swapped k g n gpa m.session ctx
  swapped = swap k g n gpa m.session ctx small found guarded

  -- The machine after remap_gpa.
  abbrev remapped : Machine
  remapped =
      let s = m.session in
      record m {
        session = adjust_imee_vcpu (with_offset s.last_rip m.entry) 0 (record s {
          trial_run = 0;
          contexts = put_ctx swapped.ctx' s.contexts;
          host = swapped.host;
        });
      }

  remap_gpa-remapped :
      remap_gpa k gpa (record m { session = record m.session { trial_run = 0 } }) ≡ some remapped
  unfolding remap_gpa
  remap_gpa-remapped =
      let t = ne→== m.session.current_target 0 target in rw (t, found, swapped.runs, remap_gpa) refl

  violation-remapped :
      handle_ept_violation k m.session.imee_pid v gpa m ≡ some (resume, after_remap k v remapped)
  unfolding handle_ept_violation
  violation-remapped =
      let t = ne→== m.session.trial_run 0 pending in
      rw (==-refl m.session.imee_pid, t, remap_gpa-remapped, handle_ept_violation) refl

  found_after :
      kvm_to_ctx
        (after_remap k v remapped).session.current_target
        (after_remap k v remapped).session.contexts
      ≡ some swapped.ctx'
  unfolding adjust_imee_vcpu
  found_after = cc (
    after_remap-contexts k v remapped,
    after_remap-target k v remapped,
    kvm_to_ctx-put_ctx m.session.current_target m.session.contexts ctx swapped.ctx' found
        (swapped.vm ∙ kvm_to_ctx-kvm m.session.current_target m.session.contexts ctx found),
  )

  after_remap-mem :
      (q j : ℕ) → (after_remap k v remapped).session.host.mem q j ≡ swapped.host.mem q j
  unfolding adjust_imee_vcpu
  after_remap-mem q j = ground arith

  -- The first EPT violation of an agent, at an address below 2 ^ 48, with an EPT of the target in
  -- shape and three pages to be had. The agent goes on at the offset of its entry in the page of
  -- last_rip, with the stack at 0xFF0; at its start (do_switch is 0) with its own page tables and the
  -- guest's root in EBX, and after a switch at run time (do_switch is not 0) with cr3 and EBX as they
  -- were, and do_switch 0. The context of the target keeps the place of an entry that leads to the
  -- page of the agent's code and lets it execute: that of the address on the list of leaf pages, or,
  -- where there is none, a new one by which the processor translates the address. The next violation
  -- is an error that changes nothing.
  pub violation-places :
      (m' : Machine) × (c : IntroCtx) × (p : Ptr) × (handle_ept_violation k m.session.imee_pid v gpa
          m
        ≡ some (resume, m'))
      × (m'.session.regs reg_rip ≡ with_offset m.session.last_rip m.entry)
      × (m'.session.regs reg_rsp ≡ 0xFF0)
      × ((m'.vmcs v).guest_cr3 ≡ (if m.do_switch == 0 then pd_gpa else (m.vmcs v).guest_cr3))
      × (m'.session.regs reg_rbx
          ≡ (if m.do_switch == 0 then m.session.last_cr3 else m.session.regs reg_rbx))
      × (m'.do_switch ≡ 0)
      × (kvm_to_ctx m'.session.current_target m'.session.contexts ≡ some c)
      × (c.code_ept_pte_p ≡ some p)
      × IsCode m.session.code_hpa (m'.session.host.mem p.page p.slot)
      × ((get_epte ctx gpa ≡ some p)
          ⊎ ((get_epte ctx gpa ≡ none)
              × (translate k m'.session.host.mem c.eptptr gpa ≡ m'.session.host.mem p.page p.slot)))
      × (handle_ept_violation k m.session.imee_pid v gpa m' ≡ some (failure, m'))
  unfolding adjust_imee_vcpu
  violation-places = (
    after_remap k v remapped,
    swapped.ctx',
    swapped.ptr,
    violation-remapped,
    ground arith,
    ground arith,
    ground arith,
    ground arith,
    ground arith,
    found_after,
    swapped.at_ptr,
    subst (IsCode m.session.code_hpa) (sym (after_remap-mem swapped.ptr.page swapped.ptr.slot))
        swapped.code,
    placed_after,
    second_violation k m.session.imee_pid v gpa (after_remap k v remapped) swapped.ctx'
        (ground arith) (ground arith) (ground (arith, target)) found_after,
  )
    where
      placed_after :
          (get_epte ctx gpa ≡ some swapped.ptr)
          ⊎ ((get_epte ctx gpa ≡ none)
              × (translate k (after_remap k v remapped).session.host.mem swapped.ctx'.eptptr gpa
                  ≡ (after_remap k v remapped).session.host.mem swapped.ptr.page swapped.ptr.slot))
      placed_after = elim (Bool-cases (m.do_switch == 0)) [
        | inl e ↦ rw e swapped.placed
        | inr e ↦ rw e swapped.placed
      ]
