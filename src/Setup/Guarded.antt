-- ===== src/Setup/Guarded.antt =====
-- The command that sets up a session establishes the invariant of the introspection contexts.
use imee.Base.{ℕ, ◌<◌, ◌≡◌, refl, some, List, [], ◌∷◌, All}
use imee.Host.{DirectMap}
use imee.Frames.{block_pages}
use imee.Setup.Block.{IsBlock, first_host, set_up, setup-runs, first-HasPages}
use imee.Context.Isolated.{IsSmallVm, pages_for}
use imee.Context.Guarded.{Guarded}
use imee.Context.Grown.{empty-Guarded, create_contexts-Guarded}
use imee.Local.{Local}
use imee.Session.{Session}
use imee.Setup.{Call, setup_local, kvm_imee_get_guest_context}

module _ (k : DirectMap) (c : Call) (s : Session) (g : Local) (b : ℕ) (rest : List ℕ) (n : ℕ)
    (g' : Local) (tables : setup_local k c s g ≡ some g') (fresh : s.contexts ≡ [])
    (no_block : s.host.p_base ≡ 0) (next : s.host.supply ≡ b ∷ rest) (block : IsBlock k b)
    (few : pages_for c.vm_list n < block_pages) (small : All c.vm_list IsSmallVm) where
  -- The first command of a session ends without a fault and leaves `n` pages of its block; the
  -- contexts keep the agent in the pages that it has set up.
  pub kvm_imee_get_guest_context-Guarded :
      (s' : Session) × (kvm_imee_get_guest_context k c s g ≡ some (s', g'))
      × Guarded k g' n s'.contexts s'.host
      × (s'.code_hpa ≡ g'.code_hpa)
  kvm_imee_get_guest_context-Guarded =
      let h0 = first_host s b rest in
      let (ctxs, h, runs, guarded) =
        create_contexts-Guarded k g' c.task c.vm_list n [] h0
          (empty-Guarded k g' (pages_for c.vm_list n) h0
            (first-HasPages k s b rest block (pages_for c.vm_list n) few))
          small in
      (
        set_up c s g' ctxs h,
        setup-runs k c s g g' b rest ctxs h fresh no_block next tables runs,
        guarded,
        refl,
      )
