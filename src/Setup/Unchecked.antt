-- ===== src/Setup/Unchecked.antt =====
-- What kvm_imee_get_guest_context does when the caller's pages are not there.
use imee.Base.{ℕ, subst, ◌+◌, ◌*◌, ◌%◌, ◌≡◌, refl, ap, ◌∙◌, none, some, arith}
use imee.Host.{Host, DirectMap}
use imee.Masks.{frame_bits, frame_bits_lem}
use imee.Ept.{IntroCtx}
use imee.Ept.Walk.{translate}
use imee.Ept.Leaves.{leaf_entry}
use imee.Ept.Correct.{leaf_entry-decodes}
use imee.Shadow.Copy.{leaf_count}
use imee.Shadow.Loose.{shadow_entry}
use imee.Local.{Local, get_pte, init_local_page_tables, data_gpa, code_gpa}
use imee.Session.{Session}
use imee.Context.{GuestVm, fill_ctx}
use imee.Context.Isolated.{HasPages, IsSmallVm, no_labels, no_labels-IsTree}
use imee.Context.Whole.{translate-fill_ctx}
use imee.Setup.{Call, setup_local}

setup_local-keeps :
    (k : DirectMap) (c : Call) (s : Session) (g : Local)
    → get_pte c.tables c.args.data_host ≡ none
    → setup_local k c s g ≡ some (record g { code_hpa = s.code_hpa; data_hpa = s.data_hpa })
unfolding setup_local init_local_page_tables
setup_local-keeps k c s g missing = rw (missing, setup_local) refl

-- An entry that map_epte makes for the page at 0.
zero_entry :
    (hpa perm old : ℕ)
    → hpa ≡ 0
    → (frame_bits (leaf_entry hpa perm old) ≡ 0) × (leaf_entry hpa perm old % 8 ≡ perm % 8)
zero_entry hpa perm old zero_hpa =
    let (frame, low) = leaf_entry-decodes hpa perm old in
    (frame ∙ ap frame_bits zero_hpa ∙ omega (arith, frame_bits_lem 0), low)

module _ (k : DirectMap) (c : Call) (s : Session) (g : Local) (target : GuestVm) (h h' : Host)
    (ctx : IntroCtx) (g' : Local) where
  -- When the data page of the caller has no page table entry, init_local_page_tables fails, and the
  -- contexts are made all the same: where code_hpa and data_hpa are 0, as at the start and after a
  -- session that has ended, the EPT of a new context has, at the address for the agent's code, the
  -- host's frame 0 with the permission to execute, and at the address for its data the host's frame
  -- 0 with the permissions to read and to write. The machine has 48-bit addresses, and its context
  -- is made from pages that are left in the current block.
  pub setup_local-unchecked :
      get_pte c.tables c.args.data_host ≡ none
      → s.code_hpa ≡ 0
      → s.data_hpa ≡ 0
      → HasPages k (3 * leaf_count target.active_mmu_pages + 16) h
      → IsSmallVm target
      → setup_local k c s g ≡ some g'
      → fill_ctx k g' target h ≡ some (ctx, h')
      → (frame_bits (translate k h'.mem ctx.eptptr code_gpa) ≡ 0)
        × (translate k h'.mem ctx.eptptr code_gpa % 8 ≡ 4)
        × (frame_bits (translate k h'.mem ctx.eptptr data_gpa) ≡ 0)
        × (translate k h'.mem ctx.eptptr data_gpa % 8 ≡ 3)
  setup_local-unchecked missing no_code no_data pages small set runs =
      let kept = setup_local-keeps k c s g missing in
      let code : g'.code_hpa ≡ s.code_hpa = ground (arith, kept, set) in
      let data_page : g'.data_hpa ≡ s.data_hpa = ground (arith, kept, set) in
      let entry = λ (gpa : ℕ). shadow_entry target.active_mmu_pages gpa 0 in
      let e = zero_entry g'.code_hpa 0x4 (entry code_gpa) (code ∙ no_code) in
      let d = zero_entry g'.data_hpa 0x3 (entry data_gpa) (data_page ∙ no_data) in
      let tree = no_labels-IsTree k h in
      let room : HasPages k (3 * leaf_count target.active_mmu_pages + 16 + 0) h =
        subst (λ x. HasPages k x h) (omega arith) pages in
      let at_code =
        translate-fill_ctx k g' target no_labels 0 h tree room small ctx h' code_gpa runs
          (omega arith) in
      let at_data =
        translate-fill_ctx k g' target no_labels 0 h tree room small ctx h' data_gpa runs
          (omega arith) in
      (
        ap frame_bits at_code ∙ e.0,
        ap (λ x. x % 8) at_code ∙ e.1,
        ap frame_bits at_data ∙ d.0,
        ap (λ x. x % 8) at_data ∙ d.1,
      )
