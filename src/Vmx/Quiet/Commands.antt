-- ===== src/Vmx/Quiet/Commands.antt =====
-- The flags of the switch of a scan, in the commands of a session and the closing of a vCPU.
use imee.Base.{
  ℕ, ◌≡◌, refl, ◌∙◌, Bool, true, false, Option, none, some, ◌==◌, if◌then◌else◌, arith,
  Option-cases, inl, inr,
}
use imee.Host.{DirectMap}
use imee.Frames.{init_ept_frames, release_ept_frames}
use imee.Context.{create_contexts}
use imee.Session.{Session, kvm_imee_stop}
use imee.Local.{Local}
use imee.Setup.{Call, setup_local, kvm_imee_get_guest_context}
use imee.Ioctl.{ends_session, Command, setup, stop, run, Returned, kvm_vcpu_ioctl, kvm_vcpu_release}
use imee.Vmx.{Machine}
use imee.Vmx.Quiet.{Quiet, IfSome, start-go}

stop-go :
    (s : Session)
    → IfSome (λ t. t.go_flg ≡ (if s.go_flg == 2 then 3 else s.go_flg)) (kvm_imee_stop s)
unfolding kvm_imee_stop
stop-go s = elim (Option-cases (release_ept_frames s.host)) [
  | inl e ↦ rw (e, kvm_imee_stop) tt
  | inr (h, e) ↦ rw (e, kvm_imee_stop) refl
]

setup-go :
    (k : DirectMap) (c : Call) (m : Machine)
    → IfSome {A = Session × Local}
        (λ r. r.0.go_flg ≡ m.session.go_flg)
        (kvm_imee_get_guest_context k c m.session m.local)
unfolding kvm_imee_get_guest_context
setup-go k c m = elim (Option-cases (setup_local k c m.session m.local)) [
  | inl e ↦ rw (e, kvm_imee_get_guest_context) tt
  | inr (g, set) ↦
      elim (Option-cases (
        create_contexts k g c.task c.vm_list m.session.contexts (init_ept_frames m.session.host))) [
          | inl e ↦ rw (set, e, kvm_imee_get_guest_context) tt
          | inr (r, e) ↦ rw (set, e, kvm_imee_get_guest_context) refl
        ]
]

pub ioctl-Quiet :
    (k : DirectMap) (c : Command) (m : Machine)
    → Quiet m
    → IfSome {A = Returned × Machine} (λ r. Quiet r.1) (kvm_vcpu_ioctl k c m)
unfolding kvm_vcpu_ioctl
ioctl-Quiet k stop m q = go (kvm_imee_stop m.session) (stop-go m.session)
  where
    go :
        (o : Option Session)
        → IfSome (λ t. t.go_flg ≡ (if m.session.go_flg == 2 then 3 else m.session.go_flg)) o
        → IfSome {A = Returned × Machine}
            (λ r. Quiet r.1)
            (elim o [ none ↦ none | some s ↦ some (Returned.zero, record m { session = s }) ])
    go none e = tt
    go (some s) e = record { go = ground (arith, e, q.go); still = q.still }
ioctl-Quiet k (setup c) m q = go (kvm_imee_get_guest_context k c m.session m.local) (setup-go k c m)
  where
    go :
        (o : Option (Session × Local))
        → IfSome {A = Session × Local} (λ r. r.0.go_flg ≡ m.session.go_flg) o
        → IfSome {A = Returned × Machine}
            (λ r. Quiet r.1)
            (elim o [
              | none ↦ none
              | some (s, g) ↦
                  some (Returned.zero, record m { session = s; local = g; entry = c.args.entry })
            ])
    go none e = tt
    go (some (s, g)) e = record { go = e ∙ q.go; still = q.still }
ioctl-Quiet k (run a) m q = record {
  go = ground (arith, start-go a m.session, q.go);
  still = q.still;
}

-- kvm_imee_stop on a vCPU, from the result of that on the agent's.
abbrev closed : ℕ → Session → Option Session → Option Session
closed vcpu s o = elim o [
  | none ↦ none
  | some s' ↦
      some (record s' { root_hpa = if vcpu == s.imee_vcpu then s'.root_hpa else s.root_hpa })
]

pub release-Quiet :
    (pid vcpu : ℕ) (m : Machine)
    → Quiet m
    → IfSome (λ s. Quiet (record m { session = s })) (kvm_vcpu_release pid vcpu m.session)
unfolding kvm_vcpu_release
release-Quiet pid vcpu m q =
    go (ends_session pid m.session.imee_pid) (kvm_imee_stop m.session) (stop-go m.session)
  where
    go :
        (b : Bool) (o : Option Session)
        → IfSome (λ t. t.go_flg ≡ (if m.session.go_flg == 2 then 3 else m.session.go_flg)) o
        → IfSome
            (λ s. Quiet (record m { session = s }))
            (if b then closed vcpu m.session o else some m.session)
    go true none e = tt
    go true (some s) e = record { go = ground (arith, e, q.go); still = q.still }
    go false o e = q
