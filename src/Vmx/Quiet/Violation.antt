-- ===== src/Vmx/Quiet/Violation.antt =====
-- The flags of the switch of a scan, in an EPT violation.
use imee.Base.{ℕ, ◌≡◌, refl, ◌∙◌, Bool, true, false, Option, none, some, ◌==◌, if◌then◌else◌, arith}
use imee.Host.{DirectMap, Host}
use imee.Ept.{IntroCtx}
use imee.Context.{kvm_to_ctx, remap_gpa_code}
use imee.Vmx.{Machine, with_offset, adjust_imee_vcpu}
use imee.Vmx.Exits.{
  Exit, resume, failure, to_kvm, put_ctx, after_remap, remap_gpa, handle_ept_violation,
}
use imee.Vmx.Quiet.{Quiet, IfSome}

-- What a step leaves alone when it only changes a session.
record Keeps (m m' : Machine) : Type 0 where
  go : m'.session.go_flg ≡ m.session.go_flg
  still : m'.do_switch ≡ m.do_switch

Keeps-Quiet : (m m' : Machine) → Keeps m m' → Quiet m → Quiet m'
Keeps-Quiet m m' keeps q = record { go = keeps.go ∙ q.go; still = keeps.still ∙ q.still }

remap_gpa-Keeps : (k : DirectMap) (gpa : ℕ) (m : Machine) → IfSome (Keeps m) (remap_gpa k gpa m)
unfolding remap_gpa adjust_imee_vcpu
remap_gpa-Keeps k gpa m =
    elim (m.session.current_target == 0) as (λ b. IfSome (Keeps m) (if b then none else found)) [
      | true ↦ tt
      | false ↦
          elim (kvm_to_ctx m.session.current_target m.session.contexts)
            as (λ o. IfSome (Keeps m) (on_ctx o)) [
              | none ↦ tt
              | some ctx ↦
                  elim (remap_gpa_code k m.session.code_hpa gpa ctx m.session.host)
                    as (λ o. IfSome (Keeps m) (on_remap o)) [
                      | none ↦ tt
                      | some _ ↦ record { go = refl; still = refl }
                    ]
            ]
    ]
  where
    on_remap : Option (IntroCtx × Host) → Option Machine
    on_remap o = elim o [
      | none ↦ none
      | some (ctx', h) ↦ some (record m {
        session =
            adjust_imee_vcpu (with_offset m.session.last_rip m.entry) 0
              (record m.session { contexts = put_ctx ctx' m.session.contexts; host = h });
      })
    ]

    on_ctx : Option IntroCtx → Option Machine
    on_ctx o = elim o [
      | none ↦ none
      | some ctx ↦ on_remap (remap_gpa_code k m.session.code_hpa gpa ctx m.session.host)
    ]

    found : Option Machine
    found = on_ctx (kvm_to_ctx m.session.current_target m.session.contexts)

after_remap-Quiet : (k : DirectMap) (v : ℕ) (m : Machine) → Quiet m → Quiet (after_remap k v m)
after_remap-Quiet k v m q = record {
  go = ground (arith, q.go, q.still);
  still = ground (arith, q.still);
}

pub violation-Quiet :
    (k : DirectMap) (current v gpa : ℕ) (m : Machine)
    → Quiet m
    → IfSome {A = Exit × Machine} (λ r. Quiet r.1) (handle_ept_violation k current v gpa m)
unfolding handle_ept_violation
violation-Quiet k current v gpa m q =
    go (current == m.session.imee_pid) (m.session.trial_run == 0) (m.session.current_target == 0)
      (kvm_to_ctx m.session.current_target m.session.contexts)
      (remap_gpa k gpa (record m { session = record m.session { trial_run = 0 } }))
      (remap_gpa-Keeps k gpa (record m { session = record m.session { trial_run = 0 } }))
  where
    second : Bool → Option IntroCtx → Option (Exit × Machine)
    second c ctx =
        if◌then◌else◌ {A = Option (Exit × Machine)} c none
          (elim ctx [ none ↦ none | some _ ↦ some (failure, m) ])

    first : Option Machine → Option (Exit × Machine)
    first r = elim r [ none ↦ none | some m' ↦ some (resume, after_remap k v m') ]

    go :
        (a b c : Bool) (ctx : Option IntroCtx) (r : Option Machine)
        → IfSome (Keeps (record m { session = record m.session { trial_run = 0 } })) r
        → IfSome {A = Exit × Machine}
            (λ r. Quiet r.1)
            (if◌then◌else◌ {A = Option (Exit × Machine)} a
              (if b then second c ctx else first r)
              (some (to_kvm, m)))
    go true true true ctx r keeps = tt
    go true true false none r keeps = tt
    go true true false (some _) r keeps = q
    go true false c ctx none keeps = tt
    go true false c ctx (some m') keeps = after_remap-Quiet k v m' (
        Keeps-Quiet (record m { session = record m.session { trial_run = 0 } }) m' keeps
          (record { go = q.go; still = q.still }))
    go false b c ctx r keeps = q
