-- ===== src/Vmx/Confined.antt =====
-- What a session lets its agents reach: from the set-up of kvm/imee.c through every scan.
mod Tests
use imee.Base.{
  none, Option-cases, inl, inr, arith, ◌+◌, ℕ, ◌<◌, ◌≡◌, refl, sym, ap, ◌∙◌, subst, some, List, [],
  ◌∷◌, All,
}
use imee.Host.{Host, DirectMap}
use imee.Frames.{block_pages}
use imee.Ept.{IntroCtx}
use imee.Ept.Walk.{translate, Labels}
use imee.Local.{Local}
use imee.Context.Isolated.{IsSmallVm, pages_for}
use imee.Context.Owned.{IsOwn}
use imee.Context.Guarded.{Forest, IsRooted, translate-IsOwn}
use imee.Setup.{Call, setup_local, kvm_imee_get_guest_context}
use imee.Setup.Block.{IsBlock}
use imee.Setup.Guarded.{kvm_imee_get_guest_context-Guarded}
use imee.Ioctl.{Returned, setup, kvm_vcpu_ioctl}
use imee.Vmx.{Machine}
use imee.Vmx.Guarded.{IsGuarded, weaken-IsGuarded}
use imee.Vmx.Scan.{Scan, Scan-IsGuarded}

all-IsOwn :
    (k : DirectMap) (g : Local) (l : Labels) (n : ℕ) (ctxs : List IntroCtx) (h : Host)
    → Forest k g l n h
    → All ctxs (IsRooted k g l)
    → All ctxs (λ ctx. (gpa : ℕ) → IsOwn g (translate k h.mem ctx.eptptr gpa))
all-IsOwn k g l n [] h f rooted = tt
all-IsOwn k g l n (ctx ∷ rest) h f (one, others) =
    (λ gpa. translate-IsOwn k g l n ctx h gpa f one, all-IsOwn k g l n rest h f others)

module _ (k : DirectMap) (c : Call) (m0 : Machine) (b : ℕ) (rest : List ℕ) (n : ℕ)
    (fresh : m0.session.contexts ≡ []) (no_block : m0.session.host.p_base ≡ 0)
    (available : m0.session.host.supply ≡ b ∷ rest) (block : IsBlock k b)
    (few : pages_for c.vm_list n < block_pages) (small : All c.vm_list IsSmallVm) where
  set_up-IsGuarded :
      (r : Returned) (start : Machine) (g' : Local)
      → setup_local k c m0.session m0.local ≡ some g'
      → kvm_vcpu_ioctl k (setup c) m0 ≡ some (r, start)
      → IsGuarded k start.local n start.session
  unfolding kvm_vcpu_ioctl
  set_up-IsGuarded r start g' set e =
      let (s', runs, guarded, code) =
        kvm_imee_get_guest_context-Guarded k c m0.session m0.local b rest n g' set fresh no_block
          available block few small in
      let same : record m0 { session = s'; local = g'; entry = c.args.entry } ≡ start =
        cc (runs, e) in
      subst (λ m. IsGuarded k m.local n m.session) same (record { guarded = guarded; code = code })

  pub setup-IsGuarded :
      (r : Returned) (start : Machine)
      → kvm_vcpu_ioctl k (setup c) m0 ≡ some (r, start)
      → IsGuarded k start.local n start.session
  unfolding kvm_vcpu_ioctl kvm_imee_get_guest_context
  setup-IsGuarded r start e = elim (Option-cases (setup_local k c m0.session m0.local)) [
    | inl fault ↦
        let faults : kvm_vcpu_ioctl k (setup c) m0 ≡ none = rw (fault, kvm_vcpu_ioctl) refl in
        absurd (cc (faults, e))
    | inr (g', set) ↦ set_up-IsGuarded r start g' set e
  ]

  -- From the first set-up of a session on, over every sequence of starts of agents, interrupts, exits
  -- and entries that takes no more pages than are left: an EPT entry of an introspection context that
  -- lets the agent execute leads to its code page, and one that lets it write leads to its code page,
  -- its data page or one of its page tables, for every address and in every context.
  pub Scan-IsOwn :
      (r : Returned) (start m : Machine)
      → kvm_vcpu_ioctl k (setup c) m0 ≡ some (r, start)
      → Scan k start n m
      → All m.session.contexts
          (λ ctx. (gpa : ℕ) → IsOwn start.local (translate k m.session.host.mem ctx.eptptr gpa))
  Scan-IsOwn r start m e scan =
      let gd = Scan-IsGuarded k start.local n 0 scan (
        weaken-IsGuarded k start.local n (n + 0) start.session (omega arith)
          (setup-IsGuarded r start e)) in
      all-IsOwn k start.local gd.guarded.labels 0 m.session.contexts m.session.host
        gd.guarded.forest gd.guarded.rooted
