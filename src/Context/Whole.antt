-- ===== src/Context/Whole.antt =====
-- The EPT of a new context, from the copy of the machine's tables to the pages of the agent.
use imee.Base.{
  ℕ, suc, ◌+◌, ◌*◌, ◌/◌, ◌%◌, ◌^◌, ◌<◌, ◌≡◌, sym, none, refl, ◌∙◌, ap, ◌⊎◌, ◌==◌, if◌then◌else◌,
  some, List, [], All, arith,
}
use imee.Host.{Host, DirectMap}
use imee.Ept.{IntroCtx, MmuPage, NonLeafPage}
use imee.Ept.Walk.{translate, Labels, IsTree}
use imee.Ept.Room.{Room, Room-weaken}
use imee.Ept.Leaves.{leaf_entry, Keeps, Keeps-then, Leaves, IsListed, IsListed-keep, same-Leaves}
use imee.Ept.Correct.{IsEpt, leaf_entry-decodes}
use imee.Shadow.{ShadowPage, read_only, copy_leaf_ept, make_imee_ept}
use imee.Shadow.Copy.{leaf_count}
use imee.Shadow.Fill.{leaf_value, tables_for}
use imee.Shadow.Tree.{make_imee_ept-total}
use imee.Shadow.Hang.{loose-IsListed}
use imee.Shadow.Loose.{
  shadow_entry, shadow_entry-IsReadOnly, IsSmall, Loosened, copy_leaf_ept-Loosened,
}
use imee.Ept.Apart.{Spares, Spares-then}
use imee.Local.{
  Local, pd_gpa, pt_gpa_exec, pt_gpa_data, data_gpa, code_gpa, local_maps, map_local_page_tables,
}
use imee.Local.Mapping.{mapped_local, mapped_local-runs, translate-map_local_page_tables}
use imee.Context.{GuestVm, blank_ctx, fill_ctx}

-- The leaf entry for `gpa` in a new context of a machine with the EPT pages `pages`.
abbrev pub context_entry : Local → ℕ → ℕ → ℕ
context_entry g old gpa =
    if gpa / 2 ^ 12 == pd_gpa / 2 ^ 12
    then leaf_entry g.fake_cr3_pd_hpa 0x3 old
    else if gpa / 2 ^ 12 == pt_gpa_exec / 2 ^ 12
    then leaf_entry g.fake_cr3_pt_hpa_exec 0x3 old
    else if gpa / 2 ^ 12 == pt_gpa_data / 2 ^ 12
    then leaf_entry g.fake_cr3_pt_hpa_data 0x3 old
    else if gpa / 2 ^ 12 == data_gpa / 2 ^ 12
    then leaf_entry g.data_hpa 0x3 old
    else if gpa / 2 ^ 12 == code_gpa / 2 ^ 12
    then leaf_entry g.code_hpa 0x4 old
    else old

-- An entry for an address off the code page does not let the agent execute, and one for an address
-- off the local tables and the data page does not let it write.
abbrev pub IsConfined : ℕ → ℕ → Type 0
IsConfined e gpa =
    ((e / 4 % 2 ≡ 0) ⊎ (gpa / 2 ^ 12 ≡ code_gpa / 2 ^ 12))
    × ((e / 2 % 2 ≡ 0)
        ⊎ (((gpa / 2 ^ 12 ≡ pd_gpa / 2 ^ 12) ⊎ (gpa / 2 ^ 12 ≡ pt_gpa_exec / 2 ^ 12))
            ⊎ ((gpa / 2 ^ 12 ≡ pt_gpa_data / 2 ^ 12) ⊎ (gpa / 2 ^ 12 ≡ data_gpa / 2 ^ 12))))

pub context_entry-IsConfined :
    (g : Local) (pages : List ShadowPage) (gpa : ℕ)
    → IsConfined (context_entry g (shadow_entry pages gpa 0) gpa) gpa
context_entry-IsConfined g pages gpa =
    let old = shadow_entry pages gpa 0 in
    let ro = shadow_entry-IsReadOnly pages gpa 0 (refl, refl) in
    (
      ground (
        arith,
        ro,
        (leaf_entry-decodes g.fake_cr3_pd_hpa 0x3 old).1,
        (leaf_entry-decodes g.fake_cr3_pt_hpa_exec 0x3 old).1,
        (leaf_entry-decodes g.fake_cr3_pt_hpa_data 0x3 old).1,
        (leaf_entry-decodes g.data_hpa 0x3 old).1,
      ),
      ground (arith, ro, (leaf_entry-decodes g.code_hpa 0x4 old).1),
    )

module _ (k : DirectMap) (g : Local) (target : GuestVm) (l : Labels) (m : ℕ) (h : Host)
    (tree : IsTree k l h.mem) (room : Room k l (3 * leaf_count target.active_mmu_pages + 16 + m) h)
    (small : All target.active_mmu_pages IsSmall) where
  pub record Whole : Type 1 where
    pub ctx : IntroCtx
    pub host : Host
    pub labels : Labels
    pub runs : fill_ctx k g target h ≡ some (ctx, host)
    pub ept : IsEpt k labels m ctx host
    pub spares : Spares l h labels host
    pub keeps : Keeps l labels
    pub fresh : ctx.code_ept_pte_p ≡ none
    pub listed : All ctx.leaf_page (IsListed labels)
    pub leaves :
        (P : ℕ → Type 0)
        → P 0
        → ((e : ℕ) → P (read_only e))
        → All (local_maps g) (λ a. (old : ℕ) → P (leaf_entry a.1 a.2 old))
        → Leaves P l h.mem
        → Leaves P labels host.mem
    pub entries :
        (gpa : ℕ)
        → gpa < 2 ^ 48
        → translate k host.mem ctx.eptptr gpa
          ≡ context_entry g (shadow_entry target.active_mmu_pages gpa 0) gpa

  abbrev pages : ℕ
  pages = leaf_count target.active_mmu_pages

  copied :
      Loosened k target.active_mmu_pages [] l
        (2 * pages + 16 + m)
        h
        (copy_leaf_ept target.active_mmu_pages [] h)
  copied =
      copy_leaf_ept-Loosened k target.active_mmu_pages [] l (2 * pages + 16 + m)
        (3 * pages + 16 + m) h (omega arith) tree room tt small

  new_ctx : List MmuPage → ℕ → List NonLeafPage → IntroCtx
  new_ctx leaves eptptr tables = record (blank_ctx target) {
    leaf_page = leaves;
    non_leaf_page = tables;
    eptptr = eptptr;
  }

  fill_ctx-runs :
      (leaves : List MmuPage) (h1 : Host) (eptptr : ℕ) (tables : List NonLeafPage) (h2 : Host)
      (ctx : IntroCtx) (h3 : Host)
      → copy_leaf_ept target.active_mmu_pages [] h ≡ some (leaves, h1)
      → make_imee_ept k leaves [] h1 ≡ some (eptptr, tables, h2)
      → map_local_page_tables k g (new_ctx leaves eptptr tables) h2 ≡ some (ctx, h3)
      → fill_ctx k g target h ≡ some (record ctx { cr3 = pd_gpa }, h3)
  unfolding fill_ctx new_ctx
  fill_ctx-runs leaves h1 eptptr tables h2 ctx h3 e1 e2 e3 = rw (e1, e2, e3, fill_ctx)

  pub whole : Whole
  unfolding new_ctx leaf_value
  whole =
      let c = copied in
      let room1 =
        Room-weaken (suc (tables_for c.leaves (15 + m))) (omega (arith, c.count (15 + m))) c.room in
      let (
        eptptr,
        tables,
        h2,
        l2,
        runs2,
        tree2,
        room2,
        spares2,
        keeps2,
        same2,
        (root2, whole2),
        values2,
      ) =
        make_imee_ept-total k c.leaves c.labels (15 + m) c.host c.tree room1 c.loose [] in
      let ctx2 = new_ctx c.leaves eptptr tables in
      let ok : IsEpt k l2 (15 + m) ctx2 h2 = record {
        tree = tree2;
        room = room2;
        root = root2;
        whole = whole2;
      } in
      let r = mapped_local k g l2 m ctx2 h2 ok in
      let runs3 = mapped_local-runs k g l2 m ctx2 h2 ok in
      record {
        ctx = record r.ctx' { cr3 = pd_gpa };
        host = r.host;
        labels = r.labels;
        runs = fill_ctx-runs c.leaves c.host eptptr tables h2 r.ctx' r.host c.runs runs2 runs3;
        ept = record {
          tree = r.ept.tree;
          room = r.ept.room;
          root = r.ept.root;
          whole = r.ept.whole;
        };
        spares =
            Spares-then l h l2 h2 r.labels r.host
              (Spares-then l h c.labels c.host l2 h2 c.spares spares2) r.spares;
        keeps = Keeps-then l l2 r.labels (Keeps-then l c.labels l2 c.keeps keeps2) r.keeps;
        fresh = r.saved;
        listed = r.listed (
            IsListed-keep c.labels l2 c.leaves keeps2 (loose-IsListed k c.labels c.leaves c.loose));
        leaves = λ P none_ read made was.
            r.leaves P none_ made
              (same-Leaves P c.labels c.host.mem l2 h2.mem same2 (c.read_leaves P read was));
        entries = λ gpa lt.
            ap (λ x. translate k r.host.mem x gpa) r.eptptr
            ∙ translate-map_local_page_tables k g l2 m ctx2 h2 ok r.ctx' r.host gpa runs3 lt
            ∙ ap (λ old. context_entry g old gpa) (values2 gpa lt ∙ c.values gpa);
      }

  -- For a machine with 48-bit addresses, and while three pages for each of its pages of level 1 and
  -- 16 more can be had, fill_ctx ends without a fault, and the new context has an EPT in shape.
  fill_ctx-total :
      (ctx : IntroCtx) × (h' : Host) × (l' : Labels) × (fill_ctx k g target h ≡ some (ctx, h'))
      × IsEpt k l' m ctx h'
  fill_ctx-total = let w = whole in (w.ctx, w.host, w.labels, w.runs, w.ept)

  module _ (ctx : IntroCtx) (h' : Host) (gpa : ℕ) (runs : fill_ctx k g target h ≡ some (ctx, h'))
      (lt : gpa < 2 ^ 48) where
    -- Then the processor translates every address below 2 ^ 48, but for the five fixed pages, by the
    -- machine's own leaf entry without the permissions to write and to execute, or by 0 where the
    -- machine has none; the five fixed pages lead to the frames of the agent.
    pub translate-fill_ctx :
        translate k h'.mem ctx.eptptr gpa
        ≡ context_entry g (shadow_entry target.active_mmu_pages gpa 0) gpa
    translate-fill_ctx =
        let w = whole in
        let same : (w.ctx ≡ ctx) × (w.host ≡ h') = (cc (w.runs, runs), cc (w.runs, runs)) in
        ap (λ c. translate k h'.mem c.eptptr gpa) (sym same.0)
        ∙ ap (λ x. translate k x.mem w.ctx.eptptr gpa) (sym same.1)
        ∙ w.entries gpa lt
