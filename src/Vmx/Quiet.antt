-- ===== src/Vmx/Quiet.antt =====
-- The flags of the switch of a scan, in the steps that cannot fault. The children are about the others.
pub mod Commands
pub mod Violation
use imee.Base.{
  ℕ, ◌≡◌, refl, ap, subst, ◌∙◌, Bool, true, false, Option, none, some, ◌==◌, if◌then◌else◌, arith,
  Option-cases, inl, inr,
}
use imee.Host.{DirectMap, Host}
use imee.Frames.{init_ept_frames, release_ept_frames}
use imee.Ept.{IntroCtx}
use imee.Context.{get_next_ctx, kvm_to_ctx, create_contexts, remap_gpa_code}
use imee.Session.{
  Session, Answer, start_go, start_guest_intercept, write_eoi, imee_write_eoi, kvm_imee_stop,
}
use imee.Session.Start.{start-runs, start-none}
use imee.Local.{Local}
use imee.Setup.{Call, setup_local, kvm_imee_get_guest_context}
use imee.Ioctl.{ends_session, Command, setup, stop, run, Returned, kvm_vcpu_ioctl, kvm_vcpu_release}
use imee.Vmx.{Machine, with_offset, adjust_imee_vcpu}
use imee.Vmx.Exits.{
  Exit, resume, failure, to_kvm, put_ctx, after_remap, handle_exception, handle_vmcall, remap_gpa,
  handle_ept_violation,
}
use imee.Vmx.Run.{vcpu_entry, load_cr3, vcpu_exit}
use imee.Vmx.Step.{
  Step, ioctl, release, interrupt, exception, vmcall, violation, entry, leave, Reach, here, later,
}

pub start-go : (a : Answer) (s : Session) → (start_guest_intercept a s).1.go_flg ≡ start_go s.go_flg
start-go a s = elim (Option-cases (get_next_ctx s.contexts)) [
  | inl e ↦ (start-none a s 0 e).5
  | inr ((next, ctxs), e) ↦ (start-runs a s next ctxs 0 e).6
]

-- What holds of a result, if there is one.
abbrev pub IfSome {ℓ} : {A : Type ℓ} → (A → Type 0) → Option A → Type 0
IfSome P none = Unit
IfSome P (some a) = P a

pub from_some : {A : Type 0} (P : A → Type 0) (o : Option A) (a : A) → IfSome P o → o ≡ some a → P a
from_some P o a h e = subst (IfSome P) e h

pub record Quiet (m : Machine) : Type 0 where
  pub go : m.session.go_flg ≡ 0
  pub still : m.do_switch ≡ 0

pub exception-Quiet :
    (current info : ℕ) (m : Machine) → Quiet m → Quiet (handle_exception current info m).1
unfolding handle_exception
exception-Quiet current info m q = ground (arith, q.go, q.still)

pub interrupt-Quiet :
    (a : Answer) (m : Machine) (s : Session)
    → imee_write_eoi a m.session ≡ some s
    → Quiet m
    → Quiet (record m { session = s })
unfolding imee_write_eoi write_eoi
interrupt-Quiet a m s e q = record { go = ground (arith, e, q.go); still = q.still }

pub vmcall-Quiet :
    (current : ℕ) (a : Answer) (m : Machine) → Quiet m → Quiet (handle_vmcall current a m).1
unfolding handle_vmcall
vmcall-Quiet current a m q = record {
  go = ground (arith, q.go, start-go a m.session);
  still = ground (arith, q.still);
}

pub entry-Quiet :
    (current : ℕ) (t : Bool) (v : ℕ) (m : Machine) → Quiet m → Quiet (vcpu_entry current t v m).0
unfolding vcpu_entry
entry-Quiet current t v m q = record {
  go = ground (arith, q.go, q.still);
  still = ground (arith, q.go, q.still);
}

-- An entry then leaves the trap, cr3 and rip of every VMCS as they are.
pub entry-leaves :
    (current : ℕ) (t : Bool) (v w : ℕ) (m : Machine)
    → Quiet m
    → let m' = (vcpu_entry current t v m).0 in
      ((m'.vmcs w).cr3_load_exiting ≡ (m.vmcs w).cr3_load_exiting)
      × ((m'.vmcs w).guest_cr3 ≡ (m.vmcs w).guest_cr3)
      × ((m'.vmcs w).guest_rip ≡ (m.vmcs w).guest_rip)
      × (m'.arch_cr3 w ≡ m.arch_cr3 w)
unfolding vcpu_entry
entry-leaves current t v w m q = (
  ground (arith, q.go, q.still),
  ground (arith, q.go, q.still),
  ground (arith, q.go, q.still),
  ground (arith, q.go, q.still),
)

pub leave-Quiet :
    (t : Bool) (go reason q : ℕ) (regs : ℕ → ℕ) (len v : ℕ) (m : Machine)
    → Quiet m
    → Quiet (vcpu_exit t go reason q regs len v m).1
unfolding vcpu_exit load_cr3
leave-Quiet t go reason q regs len v m h = record {
  go = ground (arith, h.go);
  still = ground (arith, h.still);
}
