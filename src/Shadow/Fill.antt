-- ===== src/Shadow/Fill.antt =====
-- The loop of make_imee_ept: every leaf page is offered to the tree in turn.
use imee.Base.{
  ℕ, suc, ◌/◌, ◌^◌, ◌<◌, ◌≡◌, refl, ◌∙◌, ap, ◌≢◌, ◌==◌, if◌then◌else◌, Option, some, List, [], ◌∷◌,
  All, arith,
}
use imee.Host.{Mem, Host, DirectMap}
use imee.Ept.{MmuPage, NonLeafPage, ept_index}
use imee.Ept.Walk.{child, walk, Labels, IsTree}
use imee.Ept.Room.{Room}
use imee.Ept.Apart.{Spares, Spares-refl, Spares-then}
use imee.Shadow.{add_leaves}
use imee.Ept.Leaves.{Keeps, Keeps-then}
use imee.Shadow.Hang.{IsLoose, entry_to, pd_entry, entry_to-points, entry_to-nonzero}
use imee.Shadow.Add.{offered, add_leaf-Added, IsLoose-keep}

-- The entry of the page directory after all leaf pages were offered in turn.
abbrev pub offered_all : DirectMap → List MmuPage → ℕ → ℕ → ℕ
offered_all k [] gpa old = old
offered_all k (page ∷ rest) gpa old = offered_all k rest gpa (offered k page gpa old)

-- The leaf entry for `gpa` in the first leaf page of its region, or 0.
unfoldable pub leaf_value : Mem → List MmuPage → ℕ → ℕ
leaf_value mem [] gpa = 0
leaf_value mem (page ∷ rest) gpa =
    if gpa / 2 ^ 21 == page.gfn / 512
    then mem page.spt (ept_index gpa 3)
    else leaf_value mem rest gpa

-- The pages that the tables above `n` leaf pages can take.
abbrev pub tables_for : List MmuPage → ℕ → ℕ
tables_for [] m = m
tables_for (_ ∷ rest) m = suc (suc (tables_for rest m))

-- What the loop does.
pub record Filled (k : DirectMap) (l : Labels) (m root : ℕ) (leaves : List MmuPage) (h : Host)
    (r : Option (List NonLeafPage × Host)) : Type 0 where
  pub pages : List NonLeafPage
  pub host : Host
  pub labels : Labels
  pub runs : r ≡ some (pages, host)
  pub tree : IsTree k labels host.mem
  pub room : Room k labels m host
  pub keeps : Keeps l labels
  pub low : (q : ℕ) → labels.height q ≡ 1 → l.height q ≡ 1
  pub spares : Spares l h labels host
  pub leaves_same : (q i : ℕ) → l.height q ≡ 1 → host.mem q i ≡ h.mem q i
  pub entries :
      (gpa : ℕ)
      → gpa < 2 ^ 48
      → pd_entry k host.mem gpa root ≡ offered_all k leaves gpa (pd_entry k h.mem gpa root)

module _ (k : DirectMap) where
  pub All-keep :
      (l l' : Labels) (leaves : List MmuPage)
      → Keeps l l'
      → All leaves (IsLoose k l)
      → All leaves (IsLoose k l')
  All-keep l l' [] keeps loose = tt
  All-keep l l' (page ∷ rest) keeps (one, others) =
      (IsLoose-keep k l l' page keeps one, All-keep l l' rest keeps others)

  pub add_leaves-Filled :
      (leaves : List MmuPage) (l : Labels) (m root : ℕ) (h : Host) (pages : List NonLeafPage)
      → IsTree k l h.mem
      → Room k l (tables_for leaves m) h
      → l.height root ≡ 4
      → l.region root ≡ 0
      → All leaves (IsLoose k l)
      → Filled k l m root leaves h (add_leaves k root leaves pages h)
  unfolding add_leaves
  add_leaves-Filled [] l m root h pages tree room tall whole loose = record {
    pages = pages;
    host = h;
    labels = l;
    runs = refl;
    tree = tree;
    room = room;
    keeps = λ q used. (refl, refl);
    low = λ q e. e;
    spares = Spares-refl l h;
    leaves_same = λ q i low. refl;
    entries = λ gpa small. refl;
  }
  add_leaves-Filled (page ∷ rest) l m root h pages tree room tall whole (one, others) =
      let a = add_leaf-Added k l (tables_for rest m) root page h tree room tall whole one pages in
      let top = a.keeps root (omega (arith, tall)) in
      let b =
        add_leaves-Filled rest a.labels m root a.host a.pages a.tree a.room (top.0 ∙ tall)
          (top.1 ∙ whole) (All-keep l a.labels rest a.keeps others) in
      record {
        pages = b.pages;
        host = b.host;
        labels = b.labels;
        runs = rw (a.runs, add_leaves) b.runs;
        tree = b.tree;
        room = b.room;
        keeps = Keeps-then l a.labels b.labels a.keeps b.keeps;
        low = λ q e. a.low q (b.low q e);
        spares = Spares-then l h a.labels a.host b.labels b.host a.spares b.spares;
        leaves_same = λ q i low.
            b.leaves_same q i ((a.keeps q (omega arith)).0 ∙ low) ∙ a.leaves_same q i low;
        entries =
            λ gpa small. b.entries gpa small ∙ ap (offered_all k rest gpa) (a.entries gpa small);
      }

  -- A walk ends in the leaf page that the entry of the page directory points to.
  pub walk-pd_entry :
      (mem : Mem) (gpa root : ℕ)
      → walk k mem gpa 3 0 root ≡ (
          if pd_entry k mem gpa root == 0
          then 0
          else mem (child k (pd_entry k mem gpa root)) (ept_index gpa 3))
  unfolding walk
  walk-pd_entry mem gpa root = ground arith

  -- What an entry of the page directory leads to.
  abbrev pub through : Mem → ℕ → ℕ → ℕ
  through mem gpa e = if e == 0 then 0 else mem (child k e) (ept_index gpa 3)

  through-offered_stays :
      (leaves : List MmuPage) (gpa e : ℕ) → e ≢ 0 → offered_all k leaves gpa e ≡ e
  through-offered_stays [] gpa e ne = refl
  through-offered_stays (page ∷ rest) gpa e ne = ground (arith, through-offered_stays rest gpa e ne)

  pub through-offered :
      (l : Labels) (mem : Mem) (leaves : List MmuPage) (gpa : ℕ)
      → All leaves (IsLoose k l)
      → through mem gpa (offered_all k leaves gpa 0) ≡ leaf_value mem leaves gpa
  unfolding leaf_value
  through-offered l mem [] gpa loose = refl
  through-offered l mem (page ∷ rest) gpa (one, others) = ground (
    arith,
    through-offered_stays rest gpa (entry_to k page) (entry_to-nonzero k l page one),
    entry_to-nonzero k l page one,
    entry_to-points k l page one,
    through-offered l mem rest gpa others,
  )

  pub leaf_value-same :
      (l : Labels) (mem mem' : Mem) (leaves : List MmuPage) (gpa : ℕ)
      → ((q i : ℕ) → l.height q ≡ 1 → mem' q i ≡ mem q i)
      → All leaves (IsLoose k l)
      → leaf_value mem' leaves gpa ≡ leaf_value mem leaves gpa
  unfolding leaf_value
  leaf_value-same l mem mem' [] gpa same loose = refl
  leaf_value-same l mem mem' (page ∷ rest) gpa same (one, others) = ground (
    arith,
    same page.spt (ept_index gpa 3) one.height,
    leaf_value-same l mem mem' rest gpa same others,
  )
