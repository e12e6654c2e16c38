-- ===== src/Context/Grown.antt =====
-- The loop of kvm_imee_get_guest_context in kvm/imee.c keeps the invariant of the introspection
-- contexts: the EPT of a new one joins the forest.
use imee.Base.{ℕ, ◌+◌, ◌*◌, ◌≡◌, refl, ◌==◌, Option, none, some, List, [], ◌∷◌, All, arith}
use imee.Host.{Host, DirectMap}
use imee.Ept.{IntroCtx}
use imee.Ept.Room.{Room-weaken}
use imee.Shadow.Copy.{leaf_count}
use imee.Local.{Local}
use imee.Context.{GuestVm, kvm_to_ctx, fill_ctx, create_introspection_context, create_contexts}
use imee.Context.Whole.{whole}
use imee.Context.Isolated.{HasPages, IsSmallVm, no_labels, no_labels-IsTree, pages_for, one_of}
use imee.Context.Owned.{IsOwn, none-IsOwn, read_only-IsOwn, local_maps-IsOwn}
use imee.Context.Guarded.{none-IsSaved, Guarded, all-IsRooted}

module _ (k : DirectMap) (g : Local) where
  -- With no context there is no table.
  pub empty-Guarded : (n : ℕ) (h : Host) → HasPages k n h → Guarded k g n [] h
  empty-Guarded n h room = record {
    labels = no_labels;
    forest = record {
      tree = no_labels-IsTree k h;
      room = room;
      leaves = λ q j high lt. absurd (omega (arith, high));
    };
    rooted = tt;
  }

  -- What one round of the loop over the machines leaves.
  Round : ℕ → Option (List IntroCtx × Host) → Type 0
  Round n r =
      (ctxs' : List IntroCtx) × (h' : Host) × (r ≡ some (ctxs', h')) × Guarded k g n ctxs' h'

  stays-Round :
      (m n : ℕ) (ctxs : List IntroCtx) (h : Host)
      → Guarded k g (m + n) ctxs h
      → Round n (some (ctxs, h))
  unfolding Round
  stays-Round m n ctxs h gd = (
    ctxs,
    h,
    refl,
    record {
      labels = gd.labels;
      forest = record {
        tree = gd.forest.tree;
        room = Room-weaken n (omega arith) gd.forest.room;
        leaves = gd.forest.leaves;
      };
      rooted = gd.rooted;
    },
  )

  filled-Round :
      (target : GuestVm) (n : ℕ) (ctxs : List IntroCtx) (h : Host)
      → Guarded k g (3 * leaf_count target.active_mmu_pages + 16 + n) ctxs h
      → IsSmallVm target
      → Round n
          (elim (fill_ctx k g target h) [ none ↦ none | some (ctx, h') ↦ some (ctx ∷ ctxs, h') ])
  unfolding Round
  filled-Round target n ctxs h gd small =
      let w = whole k g target gd.labels n h gd.forest.tree gd.forest.room small in
      (
        w.ctx ∷ ctxs,
        w.host,
        rw (w.runs) refl,
        record {
          labels = w.labels;
          forest = record {
            tree = w.ept.tree;
            room = w.ept.room;
            leaves =
                w.leaves (IsOwn g) (none-IsOwn g) (read_only-IsOwn g) (local_maps-IsOwn g)
                  gd.forest.leaves;
          };
          rooted = (
            record {
              root = w.ept.root;
              whole = w.ept.whole;
              listed = w.listed;
              saved = none-IsSaved g w.labels w.ctx.code_ept_pte_p w.ctx.code_ept_pte w.fresh;
            },
            all-IsRooted k g gd.labels w.labels w.keeps ctxs gd.rooted,
          );
        },
      )

  create-Round :
      (current : ℕ) (target : GuestVm) (n : ℕ) (ctxs : List IntroCtx) (h : Host)
      → Guarded k g (3 * leaf_count target.active_mmu_pages + 16 + n) ctxs h
      → IsSmallVm target
      → Round n (create_introspection_context k g current target ctxs h)
  unfolding create_introspection_context
  create-Round current target n ctxs h gd small =
      one_of (Round n) (target.owner == current) (kvm_to_ctx target.vm ctxs) _ _
        (stays-Round (3 * leaf_count target.active_mmu_pages + 16) n ctxs h gd)
        (filled-Round target n ctxs h gd small)

  -- With the pages for the machines and `n` more to be had, the loop ends without a fault and keeps
  -- the invariant, with `n` pages left.
  pub create_contexts-Guarded :
      (current : ℕ) (targets : List GuestVm) (n : ℕ) (ctxs : List IntroCtx) (h : Host)
      → Guarded k g (pages_for targets n) ctxs h
      → All targets IsSmallVm
      → (ctxs' : List IntroCtx) × (h' : Host) × (create_contexts k g current targets ctxs h
          ≡ some (ctxs', h'))
        × Guarded k g n ctxs' h'
  unfolding create_contexts Round
  create_contexts-Guarded current [] n ctxs h gd small = (ctxs, h, refl, gd)
  create_contexts-Guarded current (target ∷ rest) n ctxs h gd (one, others) =
      let (ctxs1, h1, runs1, gd1) = create-Round current target (pages_for rest n) ctxs h gd one in
      let (ctxs2, h2, runs2, gd2) = create_contexts-Guarded current rest n ctxs1 h1 gd1 others in
      (ctxs2, h2, rw (runs1, create_contexts) runs2, gd2)
