-- ===== src/Setup/Block.antt =====
-- The first block of pages of a session: init_ept_frames of kvm/imee.c where no block is there yet.
use imee.Base.{
  ℕ, ◌≢◌, ne→==, Option-cases, inl, inr, ◌+◌, ◌*◌, ◌%◌, ◌^◌, ◌<◌, ◌≤◌, ◌≡◌, refl, ap, ◌∙◌, some,
  List, [], ◌∷◌, arith,
}
use imee.Host.{Host, DirectMap}
use imee.Frames.{init_ept_frames, block_pages, page_size}
use imee.Ept.{IntroCtx}
use imee.Masks.{frame_bits}
use imee.Local.{filled_tables, Local, get_pte, init_local_page_tables}
use imee.Context.{create_contexts}
use imee.Context.Isolated.{HasPages}
use imee.Session.{Session}
use imee.Setup.{Call, init_global_vars, setup_local, kvm_imee_get_guest_context}

-- A block of the page allocator: page-aligned and inside the direct map.
pub record IsBlock (k : DirectMap) (b : ℕ) : Type 0 where
  pub aligned : b % page_size ≡ 0
  pub below : k.page_offset ≤ b
  pub above : b + block_pages * page_size ≤ k.page_offset + 2 ^ 46
  pub fits : k.page_offset + 2 ^ 46 ≤ 2 ^ 64

module _ (s : Session) (b : ℕ) (rest : List ℕ) where
  -- The block is the current one, and none of its pages is handed out.
  abbrev pub first_host : Host
  first_host = record s.host { supply = rest; p_base = b; p_base_idx = 0; p_idx = 0 }

  init-host : s.host.p_base ≡ 0 → s.host.supply ≡ b ∷ rest → init_ept_frames s.host ≡ first_host
  unfolding init_ept_frames
  init-host no_block next = rw (no_block, next) refl

pub first-HasPages :
    (k : DirectMap) (s : Session) (b : ℕ) (rest : List ℕ)
    → IsBlock k b
    → (n : ℕ) → n < block_pages
    → HasPages k n (first_host s b rest)
first-HasPages k s b rest block n few = record {
  aligned = block.aligned;
  below = block.below;
  above = block.above;
  fits = block.fits;
  left = omega (arith, few);
  unused = λ j lo hi. refl;
}

-- The session that is set up with the contexts `ctxs`.
abbrev pub set_up : Call → Session → Local → List IntroCtx → Host → Session
set_up c s g' ctxs h = record (init_global_vars c.pid c.vcpu s) {
  contexts = ctxs;
  host = h;
  code_hpa = g'.code_hpa;
  data_hpa = g'.data_hpa;
}

-- get_zeroed_page gives three pages.
pub record HasTables (c : Call) : Type 0 where
  pub pd : c.pd ≢ 0
  pub exec : c.exec ≢ 0
  pub data_pt : c.data_pt ≢ 0

pub setup_local-runs :
    (k : DirectMap) (c : Call) (s : Session) (g : Local)
    → HasTables c
    → (g' : Local) × (setup_local k c s g ≡ some g')
unfolding setup_local init_local_page_tables
setup_local-runs k c s g tables =
    let g0 : Local = record g { code_hpa = s.code_hpa; data_hpa = s.data_hpa } in
    let pd = ne→== c.pd 0 tables.pd in
    let exec = ne→== c.exec 0 tables.exec in
    let data_pt = ne→== c.data_pt 0 tables.data_pt in
    elim (Option-cases (get_pte c.tables c.args.data_host)) [
      | inl e ↦ (g0, rw (e, setup_local) refl)
      | inr (data_pte, e) ↦ elim (Option-cases (get_pte c.tables c.args.code_host)) [
        | inl e' ↦ (record g0 { data_hpa = frame_bits data_pte }, rw (e, e', setup_local) refl)
        | inr (code_pte, e') ↦ (
          filled_tables k c.args c.pd c.exec c.data_pt code_pte data_pte g.words,
          rw (e, e', pd, exec, data_pt, setup_local) refl,
        )
      ]
    ]

pub setup-runs :
    (k : DirectMap) (c : Call) (s : Session) (g g' : Local) (b : ℕ) (rest : List ℕ)
    (ctxs : List IntroCtx) (h : Host)
    → s.contexts ≡ []
    → s.host.p_base ≡ 0
    → s.host.supply ≡ b ∷ rest
    → setup_local k c s g ≡ some g'
    → create_contexts k g' c.task c.vm_list [] (first_host s b rest) ≡ some (ctxs, h)
    → kvm_imee_get_guest_context k c s g ≡ some (set_up c s g' ctxs h, g')
unfolding kvm_imee_get_guest_context
setup-runs k c s g g' b rest ctxs h fresh no_block next tables made =
    let runs : create_contexts k g' c.task c.vm_list s.contexts (init_ept_frames s.host)
        ≡ some (ctxs, h) =
      ap (λ cs. create_contexts k g' c.task c.vm_list cs (init_ept_frames s.host)) fresh
      ∙ ap (create_contexts k g' c.task c.vm_list []) (init-host s b rest no_block next)
      ∙ made in
    rw (tables, runs, kvm_imee_get_guest_context) refl
