-- ===== src/Vmx/Guarded/Violation.antt =====
-- The invariant of the introspection contexts in handle_ept_violation and remap_gpa of kvm/vmx.c and
-- kvm/imee.c.
use imee.Base.{
  ℕ, ◌+◌, ◌^◌, ◌<◌, ◌≡◌, ◌≢◌, refl, subst, some, ◌==◌, arith, Bool-cases, Option-cases, inl, inr,
  ==-refl, ne→==,
}
use imee.Host.{DirectMap}
use imee.Ept.{IntroCtx}
use imee.Local.{Local}
use imee.Context.{kvm_to_ctx}
use imee.Vmx.{Machine, with_offset, adjust_imee_vcpu}
use imee.Vmx.Exits.{Exit, resume, put_ctx, after_remap, remap_gpa, handle_ept_violation}
use imee.Vmx.Quiet.{IfSome}
use imee.Vmx.Guarded.{IsGuarded, swap, weaken-IsGuarded, same-IsGuarded}

module _ (k : DirectMap) (g : Local) (n : ℕ) where
  remap_gpa-IsGuarded :
      (gpa : ℕ) (m : Machine)
      → gpa < 2 ^ 48
      → IsGuarded k g (3 + n) m.session
      → IfSome (λ m'. IsGuarded k g n m'.session) (remap_gpa k gpa m)
  unfolding remap_gpa adjust_imee_vcpu
  remap_gpa-IsGuarded gpa m small gd =
      let s = m.session in
      elim (Bool-cases (s.current_target == 0)) [
        | inl b ↦ rw (b, remap_gpa) tt
        | inr b ↦ elim (Option-cases (kvm_to_ctx s.current_target s.contexts)) [
          | inl e ↦ rw (b, e, remap_gpa) tt
          | inr (ctx, e) ↦
              let w = swap k g n gpa s ctx small e gd in
              rw (b, e, w.runs, remap_gpa) (record { guarded = w.swapped; code = gd.code })
        ]
      ]

  after_remap-IsGuarded :
      (v : ℕ) (m : Machine)
      → IsGuarded k g n m.session
      → IsGuarded k g n (after_remap k v m).session
  after_remap-IsGuarded v m =
      same-IsGuarded k g n m.session (after_remap k v m).session (ground arith, ground arith)
        (ground arith)

  pub violation-IsGuarded :
      (current v gpa : ℕ) (m : Machine)
      → gpa < 2 ^ 48
      → IsGuarded k g (3 + n) m.session
      → IfSome {A = Exit × Machine}
          (λ r. IsGuarded k g n r.1.session)
          (handle_ept_violation k current v gpa m)
  unfolding handle_ept_violation
  violation-IsGuarded current v gpa m small gd =
      let stays = weaken-IsGuarded k g (3 + n) n m.session (omega arith) gd in
      let m1 = record m { session = record m.session { trial_run = 0 } } in
      let s = m.session in
      elim (Bool-cases (current == s.imee_pid)) [
        | inr own ↦ rw (own, handle_ept_violation) stays
        | inl own ↦ elim (Bool-cases (s.trial_run == 0)) [
          | inr t ↦
              let r =
                remap_gpa-IsGuarded gpa m1 small
                  (record { guarded = gd.guarded; code = gd.code }) in
              elim (Option-cases (remap_gpa k gpa m1)) [
                | inl e ↦ rw (own, t, e, handle_ept_violation) tt
                | inr (m', e) ↦
                    rw (own, t, e, handle_ept_violation)
                      (after_remap-IsGuarded v m'
                        (subst (IfSome (λ x. IsGuarded k g n x.session)) e r))
              ]
          | inl t ↦ elim (Bool-cases (s.current_target == 0)) [
            | inl c ↦ rw (own, t, c, handle_ept_violation) tt
            | inr c ↦ elim (Option-cases (kvm_to_ctx s.current_target s.contexts)) [
              | inl e ↦ rw (own, t, c, e, handle_ept_violation) tt
              | inr (ctx, e) ↦ rw (own, t, c, e, handle_ept_violation) stays
            ]
          ]
        ]
      ]

  -- The first violation of an agent, whether the address has a leaf page in the EPT of the target or
  -- not: while three pages can be had, it ends without a fault and goes back into the guest.
  pub violation-resumes :
      (v gpa : ℕ) (m : Machine) (ctx : IntroCtx)
      → gpa < 2 ^ 48
      → IsGuarded k g (3 + n) m.session
      → m.session.trial_run ≢ 0
      → m.session.current_target ≢ 0
      → kvm_to_ctx m.session.current_target m.session.contexts ≡ some ctx
      → (m' : Machine) × (handle_ept_violation k m.session.imee_pid v gpa m ≡ some (resume, m'))
        × IsGuarded k g n m'.session
  unfolding handle_ept_violation remap_gpa adjust_imee_vcpu
  violation-resumes v gpa m ctx small gd pending target found =
      let s = m.session in
      let w = swap k g n gpa s ctx small found gd in
      let t = ne→== s.trial_run 0 pending in
      let c = ne→== s.current_target 0 target in
      let m2 = record m {
        session =
            adjust_imee_vcpu (with_offset s.last_rip m.entry) 0
              (record s { trial_run = 0; contexts = put_ctx w.ctx' s.contexts; host = w.host });
      } in
      (
        after_remap k v m2,
        rw (==-refl s.imee_pid, t, c, found, w.runs, handle_ept_violation, remap_gpa) refl,
        after_remap-IsGuarded v m2 (record { guarded = w.swapped; code = gd.code }),
      )
