-- ===== src/Shadow/Tree.antt =====
-- make_imee_ept: the tree that it builds over the leaf pages, against the walk of the processor.
use imee.Base.{ℕ, suc, ◌^◌, ◌<◌, ◌≡◌, ◌∙◌, ap, Option, none, some, List, ◌∷◌, All, arith}
use imee.Host.{Host, DirectMap}
use imee.Frames.{get_ept_page}
use imee.Ept.{MmuPage, NonLeafPage, ept_index}
use imee.Ept.Walk.{walk, translate, Labels, IsTree, ept_index-lt}
use imee.Ept.Change.{extend}
use imee.Ept.Room.{Room, Room-get_ept_page, next_page, next_page-nonnull, get_ept_page-next}
use imee.Ept.Fresh.{fresh-IsTree, next_page-unused, table_same, page_empty}
use imee.Ept.Apart.{Spares, Spares-then, get_ept_page-Spares}
use imee.Shadow.{add_leaves, make_imee_ept}
use imee.Ept.Leaves.{Keeps, Keeps-then, LeavesSame}
use imee.Shadow.Hang.{IsLoose, pd_entry}
use imee.Shadow.Fill.{
  offered_all, leaf_value, tables_for, Filled, All-keep, add_leaves-Filled, walk-pd_entry, through,
  through-offered, leaf_value-same,
}

module _ (k : DirectMap) where
  module _ (leaves : List MmuPage) (l : Labels) (m : ℕ) (h : Host) (tree : IsTree k l h.mem)
      (room : Room k l (suc (tables_for leaves m)) h) (loose : All leaves (IsLoose k l)) where
    abbrev rooted : Labels
    rooted = extend l (next_page h) 4 0

    abbrev rooted_host : Host
    rooted_host = (get_ept_page h).1

    rooted-Keeps : Keeps l rooted
    rooted-Keeps q used = ground (arith, next_page-unused k l (tables_for leaves m) h room)

    filled :
        (pages : List NonLeafPage)
        → Filled k rooted m
            (next_page h)
            leaves
            rooted_host
            (add_leaves k (next_page h) leaves pages rooted_host)
    filled pages =
        add_leaves-Filled k leaves rooted m (next_page h) rooted_host pages
          (fresh-IsTree k l h.mem rooted_host.mem (next_page h) 4 0
            (next_page-unused k l (tables_for leaves m) h room)
            (next_page-nonnull k l (tables_for leaves m) h room)
            (table_same k l (tables_for leaves m) h room)
            (λ high. page_empty k l (tables_for leaves m) h room) tree)
          (Room-get_ept_page k l (tables_for leaves m) h room 4 0) (ground arith) (ground arith)
          (All-keep k l rooted leaves rooted-Keeps loose)

    -- The root is empty at first.
    rooted-empty : (gpa : ℕ) → pd_entry k rooted_host.mem gpa (next_page h) ≡ 0
    unfolding walk
    rooted-empty gpa =
        ground
          (arith, page_empty k l (tables_for leaves m) h room (ept_index gpa 0), ept_index-lt gpa 0)

    root-va : k.va (k.pa (next_page h)) ≡ next_page h
    root-va = ground (
      arith,
      k.pa_lem (next_page h),
      k.va_lem (k.pa (next_page h)),
      room.aligned,
      room.below,
      room.above,
      room.left,
    )

    runs_from :
        (root : ℕ) (pages : List NonLeafPage) (h' : Host) (non_leaf_page : List NonLeafPage)
        → root ≡ next_page h
        → add_leaves k
            (next_page h)
            leaves
            (record { spt = next_page h; level = 4 } ∷ non_leaf_page)
            rooted_host
          ≡ some (pages, h')
        → ◌≡◌ {A = Option (ℕ × List NonLeafPage × Host)}
            (elim (add_leaves k root leaves
              (record { spt = root; level = 4 } ∷ non_leaf_page)
              rooted_host) [ none ↦ none | some (pages', h'') ↦ some (k.pa root, pages', h'') ])
            (some (k.pa (next_page h), pages, h'))
    runs_from root pages h' non_leaf_page e r = rw (e, r) (ap (λ x. some (k.pa x, pages, h')) e)

    make_imee_ept-runs :
        (pages : List NonLeafPage) (h' : Host) (non_leaf_page : List NonLeafPage)
        → add_leaves k
            (next_page h)
            leaves
            (record { spt = next_page h; level = 4 } ∷ non_leaf_page)
            rooted_host
          ≡ some (pages, h')
        → make_imee_ept k leaves non_leaf_page h ≡ some (k.pa (next_page h), pages, h')
    unfolding make_imee_ept
    make_imee_ept-runs pages h' non_leaf_page =
        runs_from (get_ept_page h).0 pages h' non_leaf_page
          (get_ept_page-next k l (tables_for leaves m) h room)

    -- Over loose leaf pages, and with a page for the root and two pages for each leaf page to be
    -- had, make_imee_ept ends without a fault, spares the tables of others, and builds a tree in
    -- which the walk ends in the first leaf page of the region.
    pub make_imee_ept-total :
        (non_leaf_page : List NonLeafPage)
        → (eptptr : ℕ) × (pages : List NonLeafPage) × (h' : Host) × (l' : Labels) × (make_imee_ept k
              leaves non_leaf_page h
            ≡ some (eptptr, pages, h'))
          × IsTree k l' h'.mem
          × Room k l' m h'
          × Spares l h l' h'
          × Keeps l l'
          × LeavesSame l h.mem l' h'.mem
          × ((l'.height (k.va eptptr) ≡ 4) × (l'.region (k.va eptptr) ≡ 0))
          × ((gpa : ℕ) → gpa < 2 ^ 48 → translate k h'.mem eptptr gpa ≡ leaf_value h.mem leaves gpa)
    unfolding translate
    make_imee_ept-total non_leaf_page =
        let b = filled (record { spt = next_page h; level = 4 } ∷ non_leaf_page) in
        let top = b.keeps (next_page h) (ground arith) in
        (
          k.pa (next_page h),
          b.pages,
          b.host,
          b.labels,
          make_imee_ept-runs b.pages b.host non_leaf_page b.runs,
          b.tree,
          b.room,
          Spares-then l h rooted rooted_host b.labels b.host
              (get_ept_page-Spares k l (tables_for leaves m) h room 4 0) b.spares,
          Keeps-then l rooted b.labels rooted-Keeps b.keeps,
          λ q j e.
              let low : l.height q ≡ 1 = ground (arith, b.low q e) in
              (
                low,
                b.leaves_same q j ((rooted-Keeps q (omega (arith, low))).0 ∙ low)
                    ∙ table_same k l (tables_for leaves m) h room q j (omega (arith, low)),
              ),
          (rw root-va (ground (arith, top)), rw root-va (ground (arith, top))),
          λ gpa small.
              rw root-va (walk-pd_entry k b.host.mem gpa (next_page h))
              ∙ ap (through k b.host.mem gpa)
                  (b.entries gpa small ∙ ap (offered_all k leaves gpa) (rooted-empty gpa))
              ∙ through-offered k l b.host.mem leaves gpa loose
              ∙ leaf_value-same k l h.mem b.host.mem leaves gpa
                  (λ q i low.
                    b.leaves_same q i ((rooted-Keeps q (omega arith)).0 ∙ low)
                    ∙ table_same k l (tables_for leaves m) h room q i (omega arith))
                  loose,
        )
