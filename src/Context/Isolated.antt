-- ===== src/Context/Isolated.antt =====
-- The EPTs of several contexts: a new one leaves the others as they were.
use imee.Base.{
  ℕ, ◌+◌, ◌*◌, ◌^◌, ◌<◌, ◌≡◌, refl, ◌==◌, if◌then◌else◌, Option, none, some, List, [], ◌∷◌, All,
  arith, Bool, true, false,
}
use imee.Host.{Host, DirectMap}
use imee.Frames.{block_pages, page_size}
use imee.Ept.{IntroCtx}
use imee.Ept.Walk.{translate, Labels, IsTree}
use imee.Ept.Room.{Room, Room-weaken}
use imee.Ept.Apart.{IsApart, Spares, spared-walk}
use imee.Ept.Correct.{IsEpt}
use imee.Shadow.Copy.{leaf_count}
use imee.Shadow.Loose.{IsSmall}
use imee.Local.{Local}
use imee.Context.{GuestVm, kvm_to_ctx, fill_ctx, create_introspection_context, create_contexts}
use imee.Context.Whole.{IsConfined, context_entry-IsConfined, whole}

-- No page is a table.
abbrev pub no_labels : Labels
no_labels = record { height = λ q. 0; region = λ q. 0 }

-- `m` more pages can be had from the current block.
abbrev pub HasPages : DirectMap → ℕ → Host → Type 0
HasPages k m h = Room k no_labels m h

-- The context has an EPT in shape, off the pages that are left, which confines the agent.
pub record IsSound (k : DirectMap) (h : Host) (ctx : IntroCtx) : Type 0 where
  pub labels : Labels
  pub tree : IsTree k labels h.mem
  pub root : labels.height (k.va ctx.eptptr) ≡ 4
  pub unused :
      (j : ℕ) → h.p_idx < j → j < block_pages → labels.height (h.p_base + j * page_size) ≡ 0
  pub confined : (gpa : ℕ) → gpa < 2 ^ 48 → IsConfined (translate k h.mem ctx.eptptr gpa) gpa

-- The pages that the new EPTs of a list of machines can take, and `m` more.
abbrev pub pages_for : List GuestVm → ℕ → ℕ
pages_for [] m = m
pages_for (target ∷ rest) m = 3 * leaf_count target.active_mmu_pages + 16 + pages_for rest m

-- The machine's pages of level 1 are for 48-bit addresses.
abbrev pub IsSmallVm : GuestVm → Type 0
IsSmallVm target = All target.active_mmu_pages IsSmall

-- A call either leaves the list as it is or puts a new context on it.
pub one_of :
    (P : Option (List IntroCtx × Host) → Type 0) (b : Bool) (found : Option IntroCtx)
    (x y : Option (List IntroCtx × Host))
    → P x
    → P y
    → P (if b then x else elim found [ some _ ↦ x | none ↦ y ])
one_of P true found x y stays filled = stays
one_of P false (some _) x y stays filled = stays
one_of P false none x y stays filled = filled

module _ (k : DirectMap) where
  pub no_labels-IsTree : (h : Host) → IsTree k no_labels h.mem
  no_labels-IsTree h = record {
    nonnull = λ p high. absurd (omega arith);
    lower = λ p i high hi ne. absurd (omega arith);
  }

  HasPages-of : (l : Labels) (m : ℕ) (h : Host) → Room k l m h → HasPages k m h
  HasPages-of l m h room = record {
    aligned = room.aligned;
    below = room.below;
    above = room.above;
    fits = room.fits;
    left = room.left;
    unused = λ j lo hi. refl;
  }

  spared-IsSound :
      (h : Host) (l' : Labels) (h' : Host) (ctx : IntroCtx)
      → Spares no_labels h l' h'
      → IsSound k h ctx
      → IsSound k h' ctx
  unfolding translate
  spared-IsSound h l' h' ctx spares sound =
      let apart : IsApart sound.labels no_labels h = record {
        unused = sound.unused;
        disjoint = λ q used. refl;
      } in
      let (tree', walks) = spared-walk k no_labels h l' h' sound.labels spares apart sound.tree in
      record {
        labels = sound.labels;
        tree = tree';
        root = sound.root;
        unused = (spares sound.labels apart).0.unused;
        confined =
            λ gpa small. rw (walks gpa 3 0 (k.va ctx.eptptr) sound.root) (sound.confined gpa small);
      }

  spared-all :
      (h : Host) (l' : Labels) (h' : Host) (ctxs : List IntroCtx)
      → Spares no_labels h l' h'
      → All ctxs (IsSound k h)
      → All ctxs (IsSound k h')
  spared-all h l' h' [] spares sound = tt
  spared-all h l' h' (ctx ∷ rest) spares (one, others) =
      (spared-IsSound h l' h' ctx spares one, spared-all h l' h' rest spares others)

  module _ (g : Local) where
    -- While the new EPT finds its pages in the current block, making it changes no translation in
    -- the EPT of another context.
    pub fill_ctx-isolated :
        (target : GuestVm) (m : ℕ) (h : Host) (o : Labels) (n : ℕ) (other ctx : IntroCtx)
        (h' : Host) (gpa : ℕ)
        → HasPages k (3 * leaf_count target.active_mmu_pages + 16 + m) h
        → IsSmallVm target
        → IsEpt k o n other h
        → fill_ctx k g target h ≡ some (ctx, h')
        → translate k h'.mem other.eptptr gpa ≡ translate k h.mem other.eptptr gpa
    unfolding translate
    fill_ctx-isolated target m h o n other ctx h' gpa room small ept runs =
        let w = whole k g target no_labels m h (no_labels-IsTree h) room small in
        let same : w.host ≡ h' = cc (w.runs, runs) in
        rw (← same) (
          (spared-walk k no_labels h w.labels w.host o w.spares
              (record { unused = ept.room.unused; disjoint = λ q used. refl }) ept.tree).1
            gpa 3 0 (k.va other.eptptr) ept.root)

    -- What one round of the loop over the machines leaves.
    Round : ℕ → Option (List IntroCtx × Host) → Type 0
    Round m r =
        (ctxs' : List IntroCtx) × (h' : Host) × (r ≡ some (ctxs', h'))
        × HasPages k m h'
        × All ctxs' (IsSound k h')

    stays-Round :
        (m n : ℕ) (ctxs : List IntroCtx) (h : Host)
        → HasPages k (n + m) h
        → All ctxs (IsSound k h)
        → Round m (some (ctxs, h))
    unfolding Round
    stays-Round m n ctxs h room sound = (ctxs, h, refl, Room-weaken m (omega arith) room, sound)

    filled-Round :
        (target : GuestVm) (m : ℕ) (ctxs : List IntroCtx) (h : Host)
        → HasPages k (3 * leaf_count target.active_mmu_pages + 16 + m) h
        → IsSmallVm target
        → All ctxs (IsSound k h)
        → Round m
            (elim (fill_ctx k g target h) [ none ↦ none | some (ctx, h') ↦ some (ctx ∷ ctxs, h') ])
    unfolding Round
    filled-Round target m ctxs h room small sound =
        let w = whole k g target no_labels m h (no_labels-IsTree h) room small in
        (
          w.ctx ∷ ctxs,
          w.host,
          rw (w.runs) refl,
          HasPages-of w.labels m w.host w.ept.room,
          (
            record {
              labels = w.labels;
              tree = w.ept.tree;
              root = w.ept.root;
              unused = w.ept.room.unused;
              confined = λ gpa lt.
                  rw (w.entries gpa lt) (context_entry-IsConfined g target.active_mmu_pages gpa);
            },
            spared-all h w.labels w.host ctxs w.spares sound,
          ),
        )

    create-Round :
        (current : ℕ) (target : GuestVm) (m : ℕ) (ctxs : List IntroCtx) (h : Host)
        → HasPages k (3 * leaf_count target.active_mmu_pages + 16 + m) h
        → IsSmallVm target
        → All ctxs (IsSound k h)
        → Round m (create_introspection_context k g current target ctxs h)
    unfolding create_introspection_context
    create-Round current target m ctxs h room small sound =
        let n = 3 * leaf_count target.active_mmu_pages + 16 in
        one_of (Round m) (target.owner == current) (kvm_to_ctx target.vm ctxs) _ _
          (stays-Round m n ctxs h room sound) (filled-Round target m ctxs h room small sound)

    -- For machines with 48-bit addresses, and while three pages for each of their pages of level 1
    -- and 16 for each machine are left in the current block, the loop over the machines ends without
    -- a fault; and if every context on the list had an EPT in shape that confines the agent, then
    -- every context on the new list has.
    pub create_contexts-IsSound :
        (current : ℕ) (targets : List GuestVm) (m : ℕ) (ctxs : List IntroCtx) (h : Host)
        → HasPages k (pages_for targets m) h
        → All targets IsSmallVm
        → All ctxs (IsSound k h)
        → (ctxs' : List IntroCtx) × (h' : Host) × (create_contexts k g current targets ctxs h
            ≡ some (ctxs', h'))
          × HasPages k m h'
          × All ctxs' (IsSound k h')
    unfolding create_contexts Round
    create_contexts-IsSound current [] m ctxs h room small sound = (ctxs, h, refl, room, sound)
    create_contexts-IsSound current (target ∷ rest) m ctxs h room (one, others) sound =
        let (ctxs1, h1, runs1, room1, sound1) =
          create-Round current target (pages_for rest m) ctxs h room one sound in
        let (ctxs2, h2, runs2, room2, sound2) =
          create_contexts-IsSound current rest m ctxs1 h1 room1 others sound1 in
        (ctxs2, h2, rw (runs1, create_contexts) runs2, room2, sound2)
