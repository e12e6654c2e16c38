-- ===== src/Shadow/Lower.antt =====
-- One level of make_imee_ept: the table below an entry, found or allocated and linked in.
use imee.Base.{
  ℕ, suc, ◌+◌, ◌-◌, ◌*◌, ◌<◌, ◌≡◌, refl, ◌≢◌, Option, some, List, ◌∷◌, arith, ◌==◌, Bool-cases, inl,
  inr, ==→eq, ==→ne,
}
use imee.Host.{Mem, Host, DirectMap}
use imee.Frames.{get_ept_page}
use imee.Ept.{NonLeafPage, alloc_non_leaf_page}
use imee.Ept.Walk.{child, walk, Labels, IsTree}
use imee.Ept.Room.{Room, Room-weaken, next_page, get_ept_page-next}
use imee.Ept.Grow.{
  grow, grown, grow-IsTree, grow-walk, grow-Room, grow-child, grow-entry, grow-same,
  grown-next_page, grown-keeps,
}
use imee.Ept.Leaves.{Keeps}
use imee.Ept.Apart.{Spares, Spares-refl, grow-Spares}
use imee.Shadow.{lower_table}

-- The labels that leave the last level out: make_imee_ept writes into the levels above only.
abbrev pub upper_labels : Labels → Labels
upper_labels l = record { height = λ q. l.height q - 1; region = l.region }

pub upper-IsTree :
    {k : DirectMap} {l : Labels} {mem : Mem} → IsTree k l mem → IsTree k (upper_labels l) mem
upper-IsTree tree = record {
  nonnull = λ p h. tree.nonnull p (omega arith);
  lower = λ p i h hi ne. ground (arith, tree.lower p i);
}

pub upper-Room :
    {k : DirectMap} {l : Labels} {m : ℕ} {h : Host} → Room k l m h → Room k (upper_labels l) m h
upper-Room room = record {
  aligned = room.aligned;
  below = room.below;
  above = room.above;
  fits = room.fits;
  left = room.left;
  unused = λ j lo hi. omega (arith, room.unused j lo hi);
}

-- The table below slot `j` of table `t`, which has `n` levels below it.
pub record Lowered (k : DirectMap) (l : Labels) (m n t j : ℕ) (h : Host)
    (r : Option (ℕ × List NonLeafPage × Host)) : Type 0 where
  pub tbl : ℕ
  pub pages : List NonLeafPage
  pub host : Host
  pub labels : Labels
  pub runs : r ≡ some (tbl, pages, host)
  pub tree : IsTree k labels host.mem
  pub room : Room k labels m host
  pub keeps : Keeps l labels
  pub low : (q : ℕ) → labels.height q ≡ 1 → l.height q ≡ 1
  pub spares : Spares l h labels host
  pub height : labels.height tbl ≡ suc n
  pub region : labels.region tbl ≡ l.region t * 512 + j
  pub points : child k (host.mem t j) ≡ tbl
  pub entry : host.mem t j ≢ 0
  pub same : (q i : ℕ) → l.height q ≢ 0 → q ≢ t → host.mem q i ≡ h.mem q i
  pub walks :
      (gpa d i t' : ℕ)
      → l.height t' ≡ suc (suc d)
      → walk k host.mem gpa d i t' ≡ walk k h.mem gpa d i t'

module _ (k : DirectMap) (l : Labels) (m n t j : ℕ) (h : Host) (tree : IsTree k l h.mem)
    (room : Room k l (suc m) h) (tall : l.height t ≡ suc (suc (suc n))) (lt : j < 512) where
  found-Lowered :
      (lv : ℕ) (pages : List NonLeafPage)
      → h.mem t j ≢ 0
      → Lowered k l m (suc n) t j h (lower_table k t j lv pages h)
  unfolding lower_table
  found-Lowered lv pages ne =
      let below = tree.lower t j (omega (arith, tall)) lt ne in
      record {
        tbl = child k (h.mem t j);
        pages = pages;
        host = h;
        labels = l;
        runs = ground (arith, tree.nonnull t);
        tree = tree;
        room = Room-weaken m (omega arith) room;
        keeps = λ q used. (refl, refl);
        low = λ q e. e;
        spares = Spares-refl l h;
        height = omega (arith, below.0, tall);
        region = below.1;
        points = refl;
        entry = ne;
        same = λ q i used other. refl;
        walks = λ gpa d i t' e. refl;
      }

  grown-Lowered :
      (lv : ℕ) (pages : List NonLeafPage)
      → h.mem t j ≡ 0
      → Lowered k l m (suc n) t j h (lower_table k t j lv pages h)
  unfolding lower_table alloc_non_leaf_page
  grown-Lowered lv pages vacant =
      let new = grown-next_page k l m (suc n) t j h tree room tall lt vacant in
      let next = get_ept_page-next k l m h room in
      record {
        tbl = next_page h;
        pages = record { spt = (get_ept_page h).0; level = lv } ∷ pages;
        host = grow k h t j;
        labels = grown l (suc n) t j h;
        runs = ground (arith, tree.nonnull t, next);
        tree = grow-IsTree k l m (suc n) t j h tree room tall lt vacant;
        room = grow-Room k l m (suc n) t j h tree room tall lt vacant;
        keeps = grown-keeps k l m (suc n) t j h tree room tall lt vacant;
        low = λ q e. ground arith;
        spares = grow-Spares k l m h room (suc n) t j (omega (arith, tall));
        height = new.0;
        region = new.1;
        points = grow-child k l m (suc n) t j h tree room tall lt vacant;
        entry = grow-entry k l m (suc n) t j h tree room tall lt vacant;
        same = grow-same k l m (suc n) t j h tree room tall lt vacant;
        walks = λ gpa d i t' e.
            grow-walk k (upper_labels l) m n t j h (upper-IsTree tree) (upper-Room room)
              (omega (arith, tall)) lt vacant gpa d i t' (omega (arith, e));
      }

  pub lower_table-Lowered :
      (lv : ℕ) (pages : List NonLeafPage)
      → Lowered k l m (suc n) t j h (lower_table k t j lv pages h)
  lower_table-Lowered lv pages = elim (Bool-cases (h.mem t j == 0)) [
    | inl e ↦ grown-Lowered lv pages (==→eq _ _ e)
    | inr e ↦ found-Lowered lv pages (==→ne _ _ e)
  ]
