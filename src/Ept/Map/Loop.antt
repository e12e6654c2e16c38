-- ===== src/Ept/Map/Loop.antt =====
-- The loop of map_epte, with the tables that it allocates on the way.
use imee.Base.{
  ℕ, zero, suc, ◌+◌, ◌<◌, ◌≡◌, refl, sym, ap, ◌∙◌, ◌≢◌, ◌==◌, All, ◌⊎◌, inl, inr, Bool-cases,
  if◌then◌else◌, ltb, ◌-◌, arith, ==→eq, ==→ne,
}
use imee.Frames.{get_ept_page}
use imee.Host.{Host, DirectMap}
use imee.Ept.{IntroCtx, ept_index, map_from, alloc_leaf_page, alloc_non_leaf_page}
use imee.Ept.Walk.{child, walk, Labels, IsTree, IsTable, ept_index-lt, region_of-suc, child-IsTable}
use imee.Ept.Room.{next_page, Room, Room-weaken, get_ept_page-next}
use imee.Ept.Grow.{
  grow, grown, grow-IsTree, grow-walk, grow-Room, grow-child, grow-entry, grow-same, grow-empty,
  grown-next_page, grown-keeps,
}
use imee.Ept.Apart.{grow-Spares, Spares-then}
use imee.Ept.Leaves.{leaf_entry, Keeps-then, IsListed, IsListed-keep}
use imee.Ept.Map.{Mapped, map_leaf-Mapped, Mapped-descend}

module _ (k : DirectMap) (gpa new_hpa perm : ℕ) where
  -- The context after a round that allocates: the page stands on one of its lists.
  grown_ctx : ℕ → IntroCtx → Host → IntroCtx
  grown_ctx i ctx h =
      if ltb i 2
      then record ctx { non_leaf_page = (alloc_non_leaf_page ctx.non_leaf_page (4 - i) h).1 }
      else record ctx { leaf_page = (alloc_leaf_page ctx.leaf_page gpa h).1 }

  map_from-grow :
      (n i t : ℕ) (ctx : IntroCtx) (h : Host)
      → t ≢ 0
      → i < 3
      → h.mem t (ept_index gpa i) ≡ 0
      → map_from k gpa new_hpa perm (suc n) i t ctx h
        ≡ map_from k gpa new_hpa perm n
            (i + 1)
            (get_ept_page h).0
            (grown_ctx i ctx h)
            (grow k h t (ept_index gpa i))
  unfolding map_from grown_ctx alloc_leaf_page alloc_non_leaf_page
  map_from-grow n i t ctx h ne lt e = ground arith

  module _ (l : Labels) (m n i t : ℕ) (ctx : IntroCtx) (h : Host) (e : suc n + i ≡ 3)
      (tree : IsTree k l h.mem) (room : Room k l (suc m) h) (v : IsTable l gpa (suc n) t)
      (vacant : h.mem t (ept_index gpa i) ≡ 0) where
    abbrev slot : ℕ
    slot = ept_index gpa i

    abbrev next_labels : Labels
    next_labels = grown l n t slot h

    next-IsTable : IsTable next_labels gpa n (get_ept_page h).0
    next-IsTable = ground (
      arith,
      get_ept_page-next k l m h room,
      v.region,
      region_of-suc gpa n i,
      grown-next_page k l m n t slot h tree room v.height (ept_index-lt gpa i) vacant,
    )

    -- A new table is empty, and the others are as they were.
    grow-from :
        (q j v' : ℕ)
        → j < 512
        → ((next_labels.height q ≡ 1) × (v' ≡ (grow k h t slot).mem q j))
          ⊎ ((v' ≡ 0) ⊎ ((old : ℕ) × (v' ≡ leaf_entry new_hpa perm old)))
        → ((l.height q ≡ 1) × (v' ≡ h.mem q j))
          ⊎ ((v' ≡ 0) ⊎ ((old : ℕ) × (v' ≡ leaf_entry new_hpa perm old)))
    grow-from q j v' hi (inr other) = inr other
    grow-from q j v' hi (inl (low, e)) = elim (Bool-cases (q == next_page h)) [
      | inl new ↦
          let empty = grow-empty k l m n t slot h tree room v.height (ept_index-lt gpa i) vacant in
          inr (inl (e ∙ ap (λ x. (grow k h t slot).mem x j) (==→eq _ _ new) ∙ empty j hi))
      | inr old ↦
          let was : l.height q ≡ 1 = ground (arith, low) in
          let same = grow-same k l m n t slot h tree room v.height (ept_index-lt gpa i) vacant in
          inl (
            was,
            e
                ∙ same q j (omega (arith, was))
                    (λ at_t. omega (arith, was, v.height, ap l.height at_t)),
          )
    ]

    grown-IsListed :
        All ctx.leaf_page (IsListed l) → All (grown_ctx i ctx h).leaf_page (IsListed next_labels)
    unfolding grown_ctx alloc_leaf_page
    grown-IsListed were =
        let kept =
          IsListed-keep l next_labels ctx.leaf_page
            (grown-keeps k l m n t slot h tree room v.height (ept_index-lt gpa i) vacant) were in
        elim (Bool-cases (ltb i 2)) [
          | inl low ↦ rw low kept
          | inr high ↦
              let last : 1 < i = ground (arith, high) in
              let height : next_labels.height (get_ept_page h).0 ≡ 1 =
                omega (arith, next-IsTable.height) in
              rw high (height, kept)
        ]

    Mapped-grow :
        Mapped k gpa new_hpa perm next_labels m n
          (i + 1)
          (get_ept_page h).0
          (grown_ctx i ctx h)
          (grow k h t slot)
          (map_from k gpa new_hpa perm
            (suc n)
            (i + 1)
            (get_ept_page h).0
            (grown_ctx i ctx h)
            (grow k h t slot))
        → Mapped k gpa new_hpa perm l m
            (suc n)
            i
            t
            ctx
            h
            (map_from k gpa new_hpa perm (suc (suc n)) i t ctx h)
    unfolding walk
    Mapped-grow r =
        let lt = ept_index-lt gpa i in
        let keep = grown-keeps k l m n t slot h tree room v.height lt vacant in
        let walks = grow-walk k l m n t slot h tree room v.height lt vacant in
        let tall = keep t (omega (arith, v.height)) in
        let same : r.host.mem t slot ≡ (grow k h t slot).mem t slot =
          r.upper t slot (omega (arith, v.height, tall.0)) in
        let entry = grow-entry k l m n t slot h tree room v.height lt vacant in
        let below : child k ((grow k h t slot).mem t slot) ≡ (get_ept_page h).0 =
          grow-child k l m n t slot h tree room v.height lt vacant
          ∙ sym (get_ept_page-next k l m h room) in
        record {
          ptr = r.ptr;
          ctx = r.ctx;
          host = r.host;
          labels = r.labels;
          runs =
              map_from-grow (suc n) i t ctx h (tree.nonnull t (omega (arith, v.height)))
                (omega arith) vacant
              ∙ r.runs;
          tree = r.tree;
          room = r.room;
          keeps = Keeps-then l next_labels r.labels keep r.keeps;
          from = λ q j low hi. grow-from q j (r.host.mem q j) hi (r.from q j low hi);
          at_leaf = r.at_leaf;
          listed = λ were. r.listed (grown-IsListed were);
          spares =
              Spares-then l h next_labels (grow k h t slot) r.labels r.host
                (grow-Spares k l m h room n t slot (omega (arith, v.height))) r.spares;
          self = ground (arith, r.self, same, entry, below, walks gpa (suc n) i t v.height);
          at_ptr = ground (arith, r.at_ptr, same, entry, below);
          upper = λ q j lt'.
              r.upper q j (omega (arith, keep q (omega arith)))
              ∙ grow-same k l m n t slot h tree room v.height lt vacant q j (omega arith)
                  (λ eq. omega (arith, v.height, ap l.height eq));
          other = λ gpa' n' i' t' sum ne v'.
              let kept = keep t' (omega (arith, v'.height)) in
              r.other gpa' n' i' t' sum ne
                (record { height = kept.0 ∙ v'.height; region = kept.1 ∙ v'.region })
              ∙ walks gpa' n' i' t' v'.height;
        }

  -- The loop, from any table: `r` pages are enough for the levels below and `m` more.
  pub map_from-Mapped :
      (n : ℕ) (l : Labels) (m r i t : ℕ) (ctx : IntroCtx) (h : Host)
      → n + i ≡ 3
      → r ≡ n + m
      → IsTree k l h.mem
      → Room k l r h
      → IsTable l gpa n t
      → Mapped k gpa new_hpa perm l m n i t ctx h (map_from k gpa new_hpa perm (suc n) i t ctx h)
  map_from-Mapped zero l m r i t ctx h e er tree room v =
      map_leaf-Mapped k gpa new_hpa perm l m i t ctx h (omega arith) tree
        (Room-weaken m (omega arith) room) v
  map_from-Mapped (suc n) l m r i t ctx h e er tree room v =
      elim (Bool-cases (h.mem t (ept_index gpa i) == 0)) [
        | inl eq ↦
            let vacant : h.mem t (ept_index gpa i) ≡ 0 = ==→eq _ _ eq in
            let lt = ept_index-lt gpa i in
            let wide = Room-weaken (suc (n + m)) (omega arith) room in
            let room' = Room-weaken (suc m) (omega arith) room in
            Mapped-grow l m n i t ctx h e tree room' v vacant (
              map_from-Mapped n _ m (n + m) (i + 1) _ _ _ (omega arith) refl
                (grow-IsTree k l (n + m) n t _ h tree wide v.height lt vacant)
                (grow-Room k l (n + m) n t _ h tree wide v.height lt vacant)
                (next-IsTable l m n i t ctx h e tree room' v vacant))
        | inr ne ↦
            let nonzero : h.mem t (ept_index gpa i) ≢ 0 = ==→ne _ _ ne in
            Mapped-descend k gpa new_hpa perm l m n i t ctx h e tree v nonzero (
              map_from-Mapped n l m (n + m) (i + 1) _ ctx h (omega arith) refl tree
                (Room-weaken (n + m) (omega arith) room)
                (child-IsTable k gpa n i t tree v e nonzero))
      ]
