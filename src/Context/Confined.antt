-- ===== src/Context/Confined.antt =====
-- remap_gpa_code of kvm/imee.c keeps the invariant of the introspection contexts, on every branch.
use imee.Base.{
  ◌/◌, ◌%◌, ◌⊎◌, ◌==◌, ==-refl, sym, ap, ◌∙◌, true, ℕ, ◌+◌, ◌^◌, ◌<◌, ◌≡◌, refl, none, some, List,
  [], ◌∷◌, All, arith, inl, inr, Option-cases,
}
use imee.Host.{Host, DirectMap}
use imee.Ept.{IntroCtx, MmuPage, Ptr, find_leaf, get_epte, leaf_gfn, leaf_index}
use imee.Ept.Walk.{Labels, translate}
use imee.Masks.{frame_bits}
use imee.Ept.Room.{Room-weaken}
use imee.Ept.Leaves.{Keeps, IsListed, from-Leaves}
use imee.Ept.Correct.{IsEpt, map_epte-Entered, translate-map_epte, leaf_entry-decodes}
use imee.Local.{Local}
use imee.Context.{put, code_entry_of, remap_gpa_code}
use imee.Context.Owned.{
  IsOwn, none-IsOwn, leaf_code-IsOwn, code_entry_of-IsOwn, code_entry_of-frame,
  code_entry_of-executes,
}
use imee.Context.Guarded.{Forest, IsRooted, put-Forest, put_saved-Forest}

-- An entry that lets the agent execute the page at `hpa`.
abbrev pub IsCode : ℕ → ℕ → Type 0
IsCode hpa e = (frame_bits e ≡ frame_bits hpa) × (e / 4 % 2 ≡ 1)

put_at : (p : Ptr) (v : ℕ) (h : Host) → (put (some p) v h).mem p.page p.slot ≡ v
put_at p v h = ground (arith, ==-refl p.page, ==-refl p.slot)

-- get_epte returns an entry of a page on the list.
find_leaf-listed :
    (l : Labels) (gfn idx : ℕ) (pages : List MmuPage) (p : Ptr)
    → All pages (IsListed l)
    → find_leaf gfn idx pages ≡ some p
    → (l.height p.page ≡ 1) × (p.slot ≡ idx)
unfolding find_leaf
find_leaf-listed l gfn idx [] p listed e = absurd (cc e)
find_leaf-listed l gfn idx (page ∷ rest) p (one, others) e =
    ground (arith, one, e, find_leaf-listed l gfn idx rest p others)

get_epte-listed :
    (l : Labels) (ctx : IntroCtx) (gpa : ℕ) (p : Ptr)
    → All ctx.leaf_page (IsListed l)
    → get_epte ctx gpa ≡ some p
    → (l.height p.page ≡ 1) × (p.slot < 512)
unfolding get_epte
get_epte-listed l ctx gpa p listed e =
    let (low, slot) = find_leaf-listed l (leaf_gfn gpa) (leaf_index gpa) ctx.leaf_page p listed e in
    (low, omega (arith, slot))

module _ (k : DirectMap) (g : Local) (l : Labels) (n gpa : ℕ) (ctx : IntroCtx) (h : Host) where
  -- What one call leaves.
  pub record Remapped : Type 0 where
    pub ctx' : IntroCtx
    pub host : Host
    pub labels : Labels
    pub runs : remap_gpa_code k g.code_hpa gpa ctx h ≡ some (ctx', host)
    pub forest : Forest k g labels n host
    pub keeps : Keeps l labels
    pub rooted : IsRooted k g labels ctx'
    pub vm : ctx'.kvm ≡ ctx.kvm
    pub ptr : Ptr
    pub at_ptr : ctx'.code_ept_pte_p ≡ some ptr
    pub code : IsCode g.code_hpa (host.mem ptr.page ptr.slot)
    pub placed :
        (get_epte ctx gpa ≡ some ptr)
        ⊎ ((get_epte ctx gpa ≡ none)
            × (translate k host.mem ctx'.eptptr gpa ≡ host.mem ptr.page ptr.slot))

  module _ (forest : Forest k g l (3 + n) h) (rooted : IsRooted k g l ctx) where
    abbrev h1 : Host
    h1 = put ctx.code_ept_pte_p ctx.code_ept_pte h

    back : Forest k g l (3 + n) h1
    back = put_saved-Forest k g l (3 + n) ctx.code_ept_pte_p ctx.code_ept_pte h rooted.saved forest

    weaker : Forest k g l n h1
    weaker = record {
      tree = back.tree;
      room = Room-weaken n (omega arith) back.room;
      leaves = back.leaves;
    }

    -- The page has an entry on the list: it is saved and replaced.
    listed-Remapped : (p : Ptr) → get_epte ctx gpa ≡ some p → Remapped
    unfolding remap_gpa_code
    listed-Remapped p e =
        let (low, lt) = get_epte-listed l ctx gpa p rooted.listed e in
        let old = h1.mem p.page p.slot in
        record {
          ctx' = record ctx { code_ept_pte_p = some p; code_ept_pte = old };
          host = put (some p) (code_entry_of old g.code_hpa) h1;
          labels = l;
          runs = rw (e, remap_gpa_code) refl;
          forest =
              put-Forest k g l n p (code_entry_of old g.code_hpa) h1 low (code_entry_of-IsOwn g old)
                weaker;
          keeps = λ q used. (refl, refl);
          rooted = record {
            root = rooted.root;
            whole = rooted.whole;
            listed = rooted.listed;
            saved = (low, back.leaves p.page p.slot low lt);
          };
          vm = refl;
          ptr = p;
          at_ptr = refl;
          code =
              let e = put_at p (code_entry_of old g.code_hpa) h1 in
              (
                ap frame_bits e ∙ code_entry_of-frame old g.code_hpa,
                ap (λ x. x / 4 % 2) e ∙ code_entry_of-executes old g.code_hpa,
              );
          placed = inl e;
        }

    -- It has none: it is mapped, by up to three new pages, and 0 is saved.
    mapped-Remapped : gpa < 2 ^ 48 → get_epte ctx gpa ≡ none → Remapped
    unfolding remap_gpa_code
    mapped-Remapped small e =
        let ok : IsEpt k l (3 + n) ctx h1 = record {
          tree = back.tree;
          room = back.room;
          root = rooted.root;
          whole = rooted.whole;
        } in
        let r = map_epte-Entered k gpa g.code_hpa 0x4 l n ctx h1 ok small in
        record {
          ctx' = record (r.ctx') { code_ept_pte_p = some r.ptr; code_ept_pte = 0 };
          host = r.host;
          labels = r.labels;
          runs = rw (e, r.runs, remap_gpa_code) refl;
          forest = record {
            tree = r.ept.tree;
            room = r.ept.room;
            leaves =
                from-Leaves (IsOwn g) g.code_hpa 0x4 l h1.mem r.labels r.host.mem (none-IsOwn g)
                  (leaf_code-IsOwn g 0x4) r.from back.leaves;
          };
          keeps = r.keeps;
          rooted = record {
            root = r.ept.root;
            whole = r.ept.whole;
            listed = r.listed rooted.listed;
            saved = (r.at_leaf, none-IsOwn g);
          };
          vm = r.vm;
          ptr = r.ptr;
          at_ptr = refl;
          code =
              let e =
                r.at_ptr
                ∙ translate-map_epte k gpa g.code_hpa 0x4 l n ctx h1 ok small (some r.ptr) r.ctx'
                    r.host gpa r.runs small in
              let d = leaf_entry-decodes g.code_hpa 0x4 (translate k h1.mem ctx.eptptr gpa) in
              let at : gpa / 2 ^ 12 == gpa / 2 ^ 12 ≡ true = ==-refl (gpa / 2 ^ 12) in
              rw (e, at) (d.0, omega (arith, d.1));
          placed = inr (e, sym (r.at_ptr ∙ ap (λ x. translate k r.host.mem x gpa) (sym r.eptptr)));
        }

    -- With three pages to be had, it ends without a fault and keeps the forest.
    pub remap_gpa_code-Remapped : gpa < 2 ^ 48 → Remapped
    remap_gpa_code-Remapped small = elim (Option-cases (get_epte ctx gpa)) [
      | inl e ↦ mapped-Remapped small e
      | inr (p, e) ↦ listed-Remapped p e
    ]
