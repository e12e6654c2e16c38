-- ===== src/Shadow/Loose.antt =====
-- copy_leaf_ept, as what make_imee_ept is called with: leaf pages that are filled and not linked
-- in yet.
use imee.Base.{
  sym, subst, ℕ, suc, ◌+◌, ◌*◌, ◌/◌, ◌^◌, ◌<◌, ◌≡◌, refl, ◌∙◌, ap, ◌≢◌, ◌==◌, ◌&&◌, if◌then◌else◌,
  Option, some, List, [], ◌∷◌, All, arith, Bool-cases, inl, inr, ==→eq, ==→ne,
}
use imee.Host.{Host, DirectMap}
use imee.Frames.{get_ept_page}
use imee.Ept.{MmuPage, ept_index}
use imee.Ept.Walk.{Labels, IsTree, ept_index-lt}
use imee.Ept.Change.{extend}
use imee.Ept.Room.{
  Room, Room-weaken, Room-get_ept_page, next_page, next_page-nonnull, get_ept_page-next,
}
use imee.Ept.Fresh.{fresh-IsTree, next_page-unused, table_same}
use imee.Ept.Leaves.{Keeps, Keeps-then, Leaves}
use imee.Ept.Apart.{Spares, Spares-refl, Spares-then, write-Spares, get_ept_page-Spares}
use imee.Shadow.{ShadowPage, read_only, copy_entries, copy_leaf_ept}
use imee.Shadow.Copy.{leaf_count, IsReadOnly, read_only-IsReadOnly}
use imee.Shadow.Hang.{IsLoose}
use imee.Shadow.Fill.{All-keep, leaf_value, leaf_value-same, tables_for}

-- The machine's own leaf entry for `gpa` without the permissions to write and to execute: that of
-- the last page of level 1 for its region, or `old` if there is none.
unfoldable pub shadow_entry : List ShadowPage → ℕ → ℕ → ℕ
shadow_entry [] gpa old = old
shadow_entry (page ∷ rest) gpa old = shadow_entry rest gpa (
    if (page.level == 1) && (gpa / 2 ^ 21 == page.gfn / 512)
    then read_only (page.spt (ept_index gpa 3))
    else old)

pub shadow_entry-IsReadOnly :
    (pages : List ShadowPage) (gpa old : ℕ)
    → IsReadOnly old
    → IsReadOnly (shadow_entry pages gpa old)
unfolding shadow_entry
shadow_entry-IsReadOnly [] gpa old was = was
shadow_entry-IsReadOnly (page ∷ rest) gpa old was =
    shadow_entry-IsReadOnly rest gpa _
      (ground (arith, was, read_only-IsReadOnly (page.spt (ept_index gpa 3))))

-- Guest frame numbers of 48-bit addresses.
abbrev pub IsSmall : ShadowPage → Type 0
IsSmall page = page.gfn < 2 ^ 36

module _ (k : DirectMap) where
  pub record Loosened (pages : List ShadowPage) (leaf : List MmuPage) (l : Labels) (m : ℕ)
      (h : Host) (r : Option (List MmuPage × Host)) : Type 1 where
    pub leaves : List MmuPage
    pub host : Host
    pub labels : Labels
    pub runs : r ≡ some (leaves, host)
    pub tree : IsTree k labels host.mem
    pub room : Room k labels m host
    pub spares : Spares l h labels host
    pub keeps : Keeps l labels
    pub read_leaves :
        (P : ℕ → Type 0) → ((e : ℕ) → P (read_only e)) → Leaves P l h.mem → Leaves P labels host.mem
    pub loose : All leaves (IsLoose k labels)
    pub count : (n : ℕ) → tables_for leaves n ≡ 2 * leaf_count pages + tables_for leaf n
    pub values :
        (gpa : ℕ)
        → leaf_value host.mem leaves gpa ≡ shadow_entry pages gpa (leaf_value h.mem leaf gpa)

  module _ (page : ShadowPage) (rest : List ShadowPage) (leaf : List MmuPage) (l : Labels) (m : ℕ)
      (h : Host) (tree : IsTree k l h.mem) (room : Room k l (suc m) h)
      (loose : All leaf (IsLoose k l)) (small : page.gfn < 2 ^ 36) where
    abbrev new_page : MmuPage
    new_page = record { spt = next_page h; level = 1; gfn = page.gfn }

    abbrev copied_host : Host
    copied_host = record (get_ept_page h).1 {
      mem = copy_entries (get_ept_page h).1.mem (next_page h) page.spt;
    }

    abbrev copied_labels : Labels
    copied_labels = extend l (next_page h) 1 (page.gfn / 512)

    copied-runs :
        page.level ≡ 1
        → copy_leaf_ept (page ∷ rest) leaf h ≡ copy_leaf_ept rest (new_page ∷ leaf) copied_host
    unfolding copy_leaf_ept
    copied-runs e = ground (arith, get_ept_page-next k l m h room, next_page-nonnull k l m h room)

    copied-same : (q i : ℕ) → l.height q ≢ 0 → copied_host.mem q i ≡ h.mem q i
    copied-same q i used =
        ground (arith, table_same k l m h room q i used, next_page-unused k l m h room)

    copied-IsTree : IsTree k copied_labels copied_host.mem
    copied-IsTree =
        fresh-IsTree k l h.mem copied_host.mem (next_page h) 1 (page.gfn / 512)
          (next_page-unused k l m h room) (next_page-nonnull k l m h room) copied-same
          (λ high. absurd (omega arith)) tree

    copied-Room : Room k copied_labels m copied_host
    copied-Room =
        let r = Room-get_ept_page k l m h room 1 (page.gfn / 512) in
        record {
          aligned = r.aligned;
          below = r.below;
          above = r.above;
          fits = r.fits;
          left = r.left;
          unused = r.unused;
        }

    copied-IsLoose : All (new_page ∷ leaf) (IsLoose k copied_labels)
    copied-IsLoose = (
      record {
        height = ground arith;
        region = ground arith;
        small = small;
        aligned = omega (arith, room.aligned);
        below = omega (arith, room.below);
        above = omega (arith, room.above, room.left);
      },
      All-keep k l copied_labels leaf (λ q used. ground (arith, next_page-unused k l m h room))
          loose,
    )

    copied-Spares : Spares l h copied_labels copied_host
    copied-Spares =
        let h1 = (get_ept_page h).1 in
        Spares-then l h copied_labels h1 copied_labels copied_host
          (get_ept_page-Spares k l m h room 1 (page.gfn / 512))
          (write-Spares copied_labels h1 (next_page h) copied_host.mem (ground arith)
            (λ q i other. ground arith))

    copied-Keeps : Keeps l copied_labels
    copied-Keeps q used = ground (arith, next_page-unused k l m h room)

    -- The copy holds entries without the permissions to write and to execute.
    copied-Leaves :
        (P : ℕ → Type 0)
        → ((e : ℕ) → P (read_only e))
        → Leaves P l h.mem
        → Leaves P copied_labels copied_host.mem
    copied-Leaves P made was q j low lt = elim (Bool-cases (q == next_page h)) [
      | inl new ↦
          let copy : copied_host.mem q j ≡ read_only (page.spt j) = ground (arith, new) in
          subst P (sym copy) (made (page.spt j))
      | inr old ↦
          let old_low : l.height q ≡ 1 = ground (arith, low) in
          subst P (sym (copied-same q j (omega (arith, old_low)))) (was q j old_low lt)
    ]

    copied-value :
        (gpa : ℕ)
        → leaf_value copied_host.mem (new_page ∷ leaf) gpa ≡ (
            if gpa / 2 ^ 21 == page.gfn / 512
            then read_only (page.spt (ept_index gpa 3))
            else leaf_value h.mem leaf gpa)
    unfolding leaf_value
    copied-value gpa = ground (
      arith,
      ept_index-lt gpa 3,
      leaf_value-same k l h.mem copied_host.mem leaf gpa (λ q i low. copied-same q i (omega arith))
          loose,
    )

    Loosened-leaf :
        page.level ≡ 1
        → (n : ℕ)
        → Loosened rest
            (new_page ∷ leaf)
            copied_labels
            n
            copied_host
            (copy_leaf_ept rest (new_page ∷ leaf) copied_host)
        → Loosened (page ∷ rest) leaf l n h (copy_leaf_ept (page ∷ rest) leaf h)
    unfolding shadow_entry
    Loosened-leaf e n r = record {
      leaves = r.leaves;
      host = r.host;
      labels = r.labels;
      runs = copied-runs e ∙ r.runs;
      tree = r.tree;
      room = r.room;
      spares = Spares-then l h copied_labels copied_host r.labels r.host copied-Spares r.spares;
      keeps = Keeps-then l copied_labels r.labels copied-Keeps r.keeps;
      read_leaves = λ P made was. r.read_leaves P made (copied-Leaves P made was);
      loose = r.loose;
      count = λ n. ground (arith, r.count n);
      values = λ gpa. r.values gpa ∙ ap (shadow_entry rest gpa) (copied-value gpa ∙ ground arith);
    }

  Loosened-other :
      (page : ShadowPage) (rest : List ShadowPage) (leaf : List MmuPage) (l : Labels) (m : ℕ)
      (h : Host)
      → page.level ≢ 1
      → Loosened rest leaf l m h (copy_leaf_ept rest leaf h)
      → Loosened (page ∷ rest) leaf l m h (copy_leaf_ept (page ∷ rest) leaf h)
  unfolding copy_leaf_ept shadow_entry
  Loosened-other page rest leaf l m h ne r = record {
    leaves = r.leaves;
    host = r.host;
    labels = r.labels;
    runs = ground (arith, r.runs);
    tree = r.tree;
    room = r.room;
    spares = r.spares;
    keeps = r.keeps;
    read_leaves = r.read_leaves;
    loose = r.loose;
    count = λ n. ground (arith, r.count n);
    values = λ gpa. r.values gpa ∙ ap (shadow_entry rest gpa) (ground arith);
  }

  pub copy_leaf_ept-Loosened :
      (pages : List ShadowPage) (leaf : List MmuPage) (l : Labels) (m r : ℕ) (h : Host)
      → r ≡ leaf_count pages + m
      → IsTree k l h.mem
      → Room k l r h
      → All leaf (IsLoose k l)
      → All pages IsSmall
      → Loosened pages leaf l m h (copy_leaf_ept pages leaf h)
  unfolding copy_leaf_ept shadow_entry
  copy_leaf_ept-Loosened [] leaf l m r h e tree room loose small = record {
    leaves = leaf;
    host = h;
    labels = l;
    runs = refl;
    tree = tree;
    room = Room-weaken m (omega arith) room;
    spares = Spares-refl l h;
    keeps = λ q used. (refl, refl);
    read_leaves = λ P made was. was;
    loose = loose;
    count = λ n. omega arith;
    values = λ gpa. refl;
  }
  copy_leaf_ept-Loosened (page ∷ rest) leaf l m r h e tree room loose (one, others) =
      elim (Bool-cases (page.level == 1)) [
        | inl b ↦
            let level : page.level ≡ 1 = ==→eq _ _ b in
            let n = leaf_count rest + m in
            let room' = Room-weaken (suc n) (ground arith) room in
            Loosened-leaf page rest leaf l n h tree room' loose one level m (
              copy_leaf_ept-Loosened rest _ _ m n _ refl
                (copied-IsTree page rest leaf l n h tree room' loose one)
                (copied-Room page rest leaf l n h tree room' loose one)
                (copied-IsLoose page rest leaf l n h tree room' loose one) others)
        | inr b ↦
            let level : page.level ≢ 1 = ==→ne _ _ b in
            Loosened-other page rest leaf l m h level (
              copy_leaf_ept-Loosened rest leaf l m (leaf_count rest + m) h refl tree
                (Room-weaken (leaf_count rest + m) (ground arith) room) loose others)
      ]
