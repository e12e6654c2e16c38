-- ===== src/Shadow/Add.antt =====
-- One round of the loop of make_imee_ept: a leaf page and the tables above it.
use imee.Base.{
  ℕ, suc, ◌+◌, ◌*◌, ◌/◌, ◌%◌, ◌^◌, ◌<◌, ◌≡◌, sym, refl, ◌∙◌, ap, ◌≢◌, ◌==◌, ◌&&◌, if◌then◌else◌,
  Option, some, List, arith, Bool-cases, inl, inr, ==→eq, ==→ne,
}
use imee.Host.{Mem, Host, DirectMap, store}
use imee.Ept.{MmuPage, NonLeafPage}
use imee.Ept.Walk.{child, walk, Labels, IsTree, IsTable}
use imee.Ept.Room.{Room}
use imee.Ept.Apart.{Spares, Spares-then, write-Spares}
use imee.Shadow.{lower_table, hang_leaf, add_leaf}
use imee.Ept.Leaves.{Keeps, Keeps-then}
use imee.Shadow.Lower.{Lowered, lower_table-Lowered}
use imee.Shadow.Hang.{IsLoose, entry_to, pd_entry, hang-IsTree, hang-walk_ne}

-- The entry of the page directory after a leaf page was offered: the first one stays.
abbrev pub offered : DirectMap → MmuPage → ℕ → ℕ → ℕ
offered k page gpa old =
    if (gpa / 2 ^ 21 == page.gfn / 512) && (old == 0) then entry_to k page else old

-- What one round does.
pub record Added (k : DirectMap) (l : Labels) (m root : ℕ) (page : MmuPage) (h : Host)
    (r : Option (List NonLeafPage × Host)) : Type 0 where
  pub pages : List NonLeafPage
  pub host : Host
  pub labels : Labels
  pub runs : r ≡ some (pages, host)
  pub tree : IsTree k labels host.mem
  pub room : Room k labels m host
  pub keeps : Keeps l labels
  pub low : (q : ℕ) → labels.height q ≡ 1 → l.height q ≡ 1
  pub spares : Spares l h labels host
  pub leaves_same : (q i : ℕ) → l.height q ≡ 1 → host.mem q i ≡ h.mem q i
  pub entries :
      (gpa : ℕ)
      → gpa < 2 ^ 48
      → pd_entry k host.mem gpa root ≡ offered k page gpa (pd_entry k h.mem gpa root)

pub IsLoose-keep :
    (k : DirectMap) (l l' : Labels) (page : MmuPage)
    → Keeps l l'
    → IsLoose k l page
    → IsLoose k l' page
IsLoose-keep k l l' page keeps loose = record {
  height = (keeps page.spt (omega (arith, loose.height))).0 ∙ loose.height;
  region = (keeps page.spt (omega (arith, loose.height))).1 ∙ loose.region;
  small = loose.small;
  aligned = loose.aligned;
  below = loose.below;
  above = loose.above;
}

-- With the tables on the way known, the entry for the region of a leaf page is in the last of them.
pd_entry-way :
    (k : DirectMap) (mem : Mem) (gpa gfn root pdpt pd : ℕ)
    → gpa < 2 ^ 48
    → gpa / 2 ^ 21 ≡ gfn / 512
    → mem root (gfn / 2 ^ 27 % 512) ≢ 0
    → child k (mem root (gfn / 2 ^ 27 % 512)) ≡ pdpt
    → mem pdpt (gfn / 2 ^ 18 % 512) ≢ 0
    → child k (mem pdpt (gfn / 2 ^ 18 % 512)) ≡ pd
    → pd_entry k mem gpa root ≡ mem pd (gfn / 2 ^ 9 % 512)
unfolding walk
pd_entry-way k mem gpa gfn root pdpt pd small e ne0 to0 ne1 to1 =
    let e0 : gpa / 2 ^ 39 % 512 ≡ gfn / 2 ^ 27 % 512 = omega arith in
    let e1 : gpa / 2 ^ 30 % 512 ≡ gfn / 2 ^ 18 % 512 = omega arith in
    let e2 : gpa / 2 ^ 21 % 512 ≡ gfn / 2 ^ 9 % 512 = omega arith in
    rw (e0, e1, e2) (ground (arith, to0, to1))

module _ (k : DirectMap) (l : Labels) (m root : ℕ) (page : MmuPage) (h : Host)
    (tree : IsTree k l h.mem) (room : Room k l (suc (suc m)) h) (tall : l.height root ≡ 4)
    (whole : l.region root ≡ 0) (loose : IsLoose k l page) (pages : List NonLeafPage) where
  abbrev i0 : ℕ
  i0 = page.gfn / 2 ^ 27 % 512

  abbrev i1 : ℕ
  i1 = page.gfn / 2 ^ 18 % 512

  abbrev i2 : ℕ
  i2 = page.gfn / 2 ^ 9 % 512

  upper : Lowered k l (suc m) 2 root i0 h (lower_table k root i0 3 pages h)
  upper = lower_table-Lowered k l (suc m) 1 root i0 h tree room tall (omega arith) 3 pages

  module _ (a : Lowered k l (suc m) 2 root i0 h (lower_table k root i0 3 pages h))
      (b : Lowered k a.labels m 1 a.tbl i1 a.host (lower_table k a.tbl i1 2 a.pages a.host)) where
    kept : Keeps l b.labels
    kept = Keeps-then l a.labels b.labels a.keeps b.keeps

    page-IsLoose : IsLoose k b.labels page
    page-IsLoose = IsLoose-keep k l b.labels page kept loose

    place : page.gfn / 512 ≡ b.labels.region b.tbl * 512 + i2
    place = omega (arith, loose.small, whole, a.region, b.region)

    root_b : IsTable b.labels 0 3 root
    root_b = record {
      height = (kept root (omega (arith, tall))).0 ∙ tall;
      region = (kept root (omega (arith, tall))).1 ∙ whole;
    }

    root_entry : b.host.mem root i0 ≡ a.host.mem root i0
    root_entry = b.same root i0 (omega (arith, (a.keeps root (omega (arith, tall))).0, tall)) (λ e.
        omega (arith, ap a.labels.height e, a.height, (a.keeps root (omega (arith, tall))).0, tall))

    before : (gpa : ℕ) → pd_entry k b.host.mem gpa root ≡ pd_entry k h.mem gpa root
    before gpa =
        b.walks gpa 2 0 root ((a.keeps root (omega (arith, tall))).0 ∙ tall)
        ∙ a.walks gpa 2 0 root tall

    -- The way to the page directory is the same after a write into the page directory.
    way :
        (mem : Mem) (gpa : ℕ)
        → ((q i : ℕ) → b.labels.height q ≢ 2 → mem q i ≡ b.host.mem q i)
        → gpa < 2 ^ 48
        → gpa / 2 ^ 21 ≡ page.gfn / 512
        → pd_entry k mem gpa root ≡ mem b.tbl i2
    way mem gpa same small e =
        let s0 : mem root i0 ≡ a.host.mem root i0 =
          same root i0 (omega (arith, root_b.height)) ∙ root_entry in
        let s1 : mem a.tbl i1 ≡ b.host.mem a.tbl i1 =
          same a.tbl i1 (omega (arith, (b.keeps a.tbl (omega (arith, a.height))).0, a.height)) in
        pd_entry-way k mem gpa page.gfn root a.tbl b.tbl small e (λ z. a.entry (sym s0 ∙ z))
          (ap (child k) s0 ∙ a.points) (λ z. b.entry (sym s1 ∙ z)) (ap (child k) s1 ∙ b.points)

    spared : Spares l h b.labels b.host
    spared = Spares-then l h a.labels a.host b.labels b.host a.spares b.spares

    leaf_same : (q i : ℕ) → l.height q ≡ 1 → b.host.mem q i ≡ h.mem q i
    leaf_same q i low =
        b.same q i (omega (arith, (a.keeps q (omega arith)).0))
          (λ e. omega (arith, ap a.labels.height e, (a.keeps q (omega arith)).0, a.height))
        ∙ a.same q i (omega arith) (λ e. omega (arith, ap l.height e, tall))

    add_leaf-runs : add_leaf k root page pages h ≡ hang_leaf k b.tbl page b.pages b.host
    unfolding add_leaf
    add_leaf-runs = rw (a.runs, b.runs, add_leaf)

    stays-Added : b.host.mem b.tbl i2 ≢ 0 → Added k l m root page h (add_leaf k root page pages h)
    unfolding hang_leaf
    stays-Added ne = record {
      pages = b.pages;
      host = b.host;
      labels = b.labels;
      runs = add_leaf-runs ∙ ground (arith, b.tree.nonnull b.tbl, b.height);
      tree = b.tree;
      room = b.room;
      keeps = kept;
      low = λ q e. a.low q (b.low q e);
      spares = spared;
      leaves_same = leaf_same;
      entries = λ gpa small.
          before gpa ∙ ground (arith, before gpa, way b.host.mem gpa (λ q i used. refl) small);
    }

    hung-Added : b.host.mem b.tbl i2 ≡ 0 → Added k l m root page h (add_leaf k root page pages h)
    unfolding hang_leaf
    hung-Added vacant =
        let mem' = store b.host.mem b.tbl i2 (entry_to k page) in
        record {
          pages = b.pages;
          host = record b.host { mem = mem' };
          labels = b.labels;
          runs = add_leaf-runs ∙ ground (arith, b.tree.nonnull b.tbl, b.height);
          tree = hang-IsTree k b.labels page page-IsLoose b.host.mem b.tree b.tbl i2 b.height place;
          room = record {
            aligned = b.room.aligned;
            below = b.room.below;
            above = b.room.above;
            fits = b.room.fits;
            left = b.room.left;
            unused = b.room.unused;
          };
          keeps = kept;
          low = λ q e. a.low q (b.low q e);
          spares = Spares-then l h b.labels b.host b.labels _ spared (
              write-Spares b.labels b.host b.tbl mem' (omega (arith, b.height))
                (λ q i other. ground arith));
          leaves_same =
              λ q i low. ground (arith, leaf_same q i low, (kept q (omega arith)).0, b.height);
          entries = λ gpa small. elim (Bool-cases (gpa / 2 ^ 21 == page.gfn / 512)) [
            | inl e ↦
                let same = ==→eq _ _ e in
                let own = way mem' gpa (λ q i used. ground (arith, b.height)) small same in
                ground (arith, own, before gpa, way b.host.mem gpa (λ q i used. refl) small same)
            | inr e ↦
                hang-walk_ne k b.labels page page-IsLoose b.host.mem b.tree b.tbl i2 b.height place
                  gpa 2 0 root refl (==→ne _ _ e)
                  (record { height = root_b.height; region = omega (arith, root_b.region) })
                ∙ ground (arith, before gpa)
          ];
        }

  -- One round, with two pages to be had for the tables.
  pub add_leaf-Added : Added k l m root page h (add_leaf k root page pages h)
  add_leaf-Added =
      let a = upper in
      let b =
        lower_table-Lowered k a.labels m 0 a.tbl i1 a.host a.tree a.room a.height (omega arith) 2
          a.pages in
      elim (Bool-cases (b.host.mem b.tbl i2 == 0)) [
        | inl e ↦ hung-Added a b (==→eq _ _ e)
        | inr e ↦ stays-Added a b (==→ne _ _ e)
      ]
