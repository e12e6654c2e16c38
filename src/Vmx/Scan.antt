-- ===== src/Vmx/Scan.antt =====
-- What a scan does to the introspection contexts, over every sequence of its steps: starts of
-- agents, interrupts, exits and entries of vCPUs, of kvm/imee.c and kvm/vmx.c.
use imee.Base.{ℕ, ◌+◌, ◌^◌, ◌<◌, ◌≡◌, refl, subst, Bool, true, false, ◌==◌, if◌then◌else◌, arith}
use imee.Host.{DirectMap}
use imee.Local.{Local}
use imee.Session.{Answer, start_guest_intercept}
use imee.Ioctl.{kvm_vcpu_ioctl, run, stop, setup}
use imee.Vmx.{Machine, with_start, do_switch_cr3}
use imee.Vmx.Exits.{
  Exit, resume, to_user, end_scan, scan_all, to_kvm, handle_exception, handle_vmcall,
  handle_ept_violation,
}
use imee.Vmx.Run.{vcpu_entry, vcpu_exit, load_cr3}
use imee.Vmx.Step.{Step, ioctl, release, interrupt, exception, vmcall, violation, entry, leave}
use imee.Vmx.Quiet.{from_some}
use imee.Vmx.Guarded.Violation.{violation-IsGuarded}
use imee.Vmx.Guarded.{
  IsGuarded, write_eoi-IsGuarded, start-IsGuarded, weaken-IsGuarded, same-IsGuarded,
}

-- The steps of a scan: all but the set-up and the end of a session, with the page of a violation
-- at a 48-bit address.
abbrev pub InScan : {k : DirectMap} {m m' : Machine} → Step k m m' → Type 0
InScan (ioctl (run a) r e) = Unit {0}
InScan (ioctl stop r e) = ⊥
InScan (ioctl (setup c) r e) = ⊥
InScan (release pid vcpu e) = ⊥
InScan (interrupt a e) = Unit
InScan (exception current info) = Unit
InScan (vmcall current a) = Unit
InScan (violation current v gpa e h) = gpa < 2 ^ 48
InScan (entry current t v) = Unit
InScan (leave t go reason q regs len v) = Unit

-- The pages that a step can take for new tables.
abbrev pub cost : {k : DirectMap} {m m' : Machine} → Step k m m' → ℕ
cost (violation current v gpa e h) = 3
cost _ = 0

-- The states that the steps of a scan reach, with the pages that they can take.
pub data Scan (k : DirectMap) (start : Machine) : ℕ → Machine → Type 0 where
  begin : Scan k start 0 start
  next :
      {n : ℕ} {m m' : Machine}
      → Scan k start n m
      → (s : Step k m m') → InScan s
      → (n' : ℕ) → n' ≡ cost s + n
      → Scan k start n' m'

module _ (k : DirectMap) (g : Local) where
  vmcall-IsGuarded :
      (r current : ℕ) (a : Answer) (m : Machine)
      → IsGuarded k g r m.session
      → IsGuarded k g r (handle_vmcall current a m).1.session
  unfolding handle_vmcall
  vmcall-IsGuarded r current a m gd =
      let started = start-IsGuarded k g r a m.session gd in
      let ended : IsGuarded k g r (end_scan m.session) =
        same-IsGuarded k g r m.session (end_scan m.session) (refl, refl) refl gd in
      let failed : IsGuarded k g r (end_scan (start_guest_intercept a m.session).1) =
        same-IsGuarded k g r (start_guest_intercept a m.session).1 _ (refl, refl) refl started in
      go (current == m.session.imee_pid) (m.imee_scan_mode == scan_all)
        (start_guest_intercept a m.session).0 started failed ended gd
    where
      go :
          (own all begun : Bool)
          → IsGuarded k g r (start_guest_intercept a m.session).1
          → IsGuarded k g r (end_scan (start_guest_intercept a m.session).1)
          → IsGuarded k g r (end_scan m.session)
          → IsGuarded k g r m.session
          → IsGuarded k g r
              (let s = (start_guest_intercept a m.session).1 in
                if◌then◌else◌ {A = Exit × Machine} own
                  (if◌then◌else◌ {A = Exit × Machine} all
                    (if◌then◌else◌ {A = Exit × Machine} begun
                      (resume, with_start a s m)
                      (to_user, with_start a (end_scan s) m))
                    (to_user, record m { session = end_scan m.session }))
                  (to_kvm, m)).1.session
      go true true true started failed ended same = started
      go true true false started failed ended same = failed
      go true false begun started failed ended same = ended
      go false all begun started failed ended same = same

  -- `more` is what a step can take before it leaves `r` pages.
  Step-IsGuarded :
      (r : ℕ) {m m' : Machine} (s : Step k m m')
      → InScan s
      → IsGuarded k g r m.session
      → IsGuarded k g (cost s + r) m.session
      → IsGuarded k g r m'.session
  unfolding kvm_vcpu_ioctl handle_exception handle_vmcall vcpu_entry vcpu_exit load_cr3
      do_switch_cr3
  Step-IsGuarded r {m} (ioctl (run a) x {m'} e) ok gd more =
      let same : (start_guest_intercept a m.session).1 ≡ m'.session = cc e in
      subst (IsGuarded k g r) same (start-IsGuarded k g r a m.session gd)
  Step-IsGuarded r (ioctl stop x e) never gd more = absurd never
  Step-IsGuarded r (ioctl (setup c) x e) never gd more = absurd never
  Step-IsGuarded r (release pid vcpu e) never gd more = absurd never
  Step-IsGuarded r {m} (interrupt a {s} e) ok gd more = write_eoi-IsGuarded k g r a m.session s e gd
  Step-IsGuarded r {m} (exception current info) ok gd more =
      same-IsGuarded k g r m.session (handle_exception current info m).1.session
        (ground arith, ground arith) (ground arith) gd
  Step-IsGuarded r {m} (vmcall current a) ok gd more = vmcall-IsGuarded r current a m gd
  Step-IsGuarded r {m} (violation current v gpa e {m'} h) small gd more =
      from_some (λ x. IsGuarded k g r x.1.session) (handle_ept_violation k current v gpa m) (e, m')
        (violation-IsGuarded k g r current v gpa m small more) h
  Step-IsGuarded r {m} (entry current t v) ok gd more =
      same-IsGuarded k g r m.session (vcpu_entry current t v m).0.session
        (ground arith, ground arith) (ground arith) gd
  Step-IsGuarded r {m} (leave t go reason q regs len v) ok gd more =
      same-IsGuarded k g r m.session (vcpu_exit t go reason q regs len v m).1.session
        (ground arith, ground arith) (ground arith) gd

  pub Scan-IsGuarded :
      {start : Machine} (n r : ℕ) {m : Machine}
      → Scan k start n m
      → IsGuarded k g (n + r) start.session
      → IsGuarded k g r m.session
  Scan-IsGuarded {start} n r begin gd =
      weaken-IsGuarded k g (0 + r) r start.session (omega arith) gd
  Scan-IsGuarded {start} n r (next {n = n0} scan s ok n' e) gd =
      let more =
        Scan-IsGuarded n0 (cost s + r) scan
          (weaken-IsGuarded k g (n + r) (n0 + (cost s + r)) start.session (omega (arith, e)) gd) in
      Step-IsGuarded r s ok (weaken-IsGuarded k g (cost s + r) r _ (omega arith) more) more
