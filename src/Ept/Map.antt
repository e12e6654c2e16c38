-- ===== src/Ept/Map.antt =====
-- map_epte, against the walk of the processor: what its loop does, in the last table and where a
-- table is found. The child is the loop, with the tables that it allocates.
pub mod Loop
use imee.Base.{
  ℕ, zero, suc, ◌+◌, ◌/◌, ◌^◌, ◌<◌, ◌≡◌, refl, sym, ap, ◌∙◌, ◌≢◌, ◌==◌, All, ◌&&◌, ◌⊎◌, inl, inr,
  Bool-cases, if◌then◌else◌, ltb, ◌-◌, Option, some, arith, ==→eq, ==→ne,
}
use imee.Frames.{get_ept_page}
use imee.Host.{Host, DirectMap, store}
use imee.Ept.{IntroCtx, Ptr, ept_index, map_from, alloc_leaf_page, alloc_non_leaf_page}
use imee.Ept.Walk.{child, walk, Labels, IsTree, IsTable, ept_index-lt, region_of-suc, child-IsTable}
use imee.Ept.Room.{next_page, Room, Room-weaken, get_ept_page-next}
use imee.Ept.Grow.{
  grow, grown, grow-IsTree, grow-walk, grow-Room, grow-child, grow-entry, grow-same, grow-empty,
  grown-next_page, grown-keeps,
}
use imee.Ept.Apart.{Spares, write-Spares, grow-Spares, Spares-then}
use imee.Ept.Leaves.{leaf_entry, Keeps, Keeps-then, IsFrom, IsListed, IsListed-keep}
use imee.Ept.Change.{leaf-IsTree, leaf-walk_ne}

-- What the loop of map_epte does from table `t` on, with `n` levels below it.
pub record Mapped (k : DirectMap) (gpa new_hpa perm : ℕ) (l : Labels) (m n i t : ℕ)
    (ctx0 : IntroCtx) (h : Host) (r : Option (Option Ptr × IntroCtx × Host)) : Type 0 where
  pub ptr : Ptr
  pub ctx : IntroCtx
  pub host : Host
  pub labels : Labels
  pub runs : r ≡ some (some ptr, ctx, host)
  pub tree : IsTree k labels host.mem
  pub room : Room k labels m host
  pub keeps : Keeps l labels
  pub from : IsFrom new_hpa perm l h.mem labels host.mem
  pub at_leaf : labels.height ptr.page ≡ 1
  pub listed : All ctx0.leaf_page (IsListed l) → All ctx.leaf_page (IsListed labels)
  pub spares : Spares l h labels host
  pub self : walk k host.mem gpa n i t ≡ leaf_entry new_hpa perm (walk k h.mem gpa n i t)
  pub at_ptr : host.mem ptr.page ptr.slot ≡ walk k host.mem gpa n i t
  pub upper : (q j : ℕ) → suc n < l.height q → host.mem q j ≡ h.mem q j
  pub other :
      (gpa' n' i' t' : ℕ)
      → n' + i' ≡ 3
      → gpa' / 2 ^ 12 ≢ gpa / 2 ^ 12
      → IsTable l gpa' n' t'
      → walk k host.mem gpa' n' i' t' ≡ walk k h.mem gpa' n' i' t'

module _ (k : DirectMap) (gpa new_hpa perm : ℕ) where
  map_leaf-IsFrom :
      (l : Labels) (t slot : ℕ) (h : Host)
      → IsFrom new_hpa perm l h.mem l (store h.mem t slot (leaf_entry new_hpa perm (h.mem t slot)))
  map_leaf-IsFrom l t slot h q j low lt = elim (Bool-cases ((q == t) && (j == slot))) [
    | inl e ↦ inr (inr (h.mem t slot, ground arith))
    | inr e ↦ inl (low, ground arith)
  ]

  map_leaf-Mapped :
      (l : Labels) (m i t : ℕ) (ctx : IntroCtx) (h : Host)
      → i ≡ 3
      → IsTree k l h.mem
      → Room k l m h
      → IsTable l gpa 0 t
      → Mapped k gpa new_hpa perm l m 0 i t ctx h (map_from k gpa new_hpa perm 1 i t ctx h)
  unfolding map_from walk
  map_leaf-Mapped l m i t ctx h e tree room v =
      let v' : ℕ = leaf_entry new_hpa perm (h.mem t (ept_index gpa i)) in
      let mem' = store h.mem t (ept_index gpa i) v' in
      record {
        ptr = record { page = t; slot = ept_index gpa i };
        ctx = ctx;
        host = record h { mem = mem' };
        labels = l;
        runs = rw e (ground (arith, tree.nonnull t));
        tree = leaf-IsTree k l h.mem tree t (ept_index gpa i) v' v.height;
        room = record {
          aligned = room.aligned;
          below = room.below;
          above = room.above;
          fits = room.fits;
          left = room.left;
          unused = room.unused;
        };
        keeps = λ q ne. (refl, refl);
        from = map_leaf-IsFrom l t (ept_index gpa i) h;
        at_leaf = v.height;
        listed = λ were. were;
        spares = write-Spares l h t mem' (omega (arith, v.height)) (λ q j other. ground arith);
        self = ground arith;
        at_ptr = refl;
        upper = λ q j lt. ground (arith, v.height);
        other = λ gpa' n' i' t' sum ne v''.
            leaf-walk_ne k l h.mem tree t (ept_index gpa i) v' v.height gpa gpa' n' i' t' sum
              v.region (rw e) ne v'';
      }

  map_from-descend :
      (n i t : ℕ) (ctx : IntroCtx) (h : Host)
      → t ≢ 0
      → i < 3
      → h.mem t (ept_index gpa i) ≢ 0
      → map_from k gpa new_hpa perm (suc n) i t ctx h
        ≡ map_from k gpa new_hpa perm n (i + 1) (child k (h.mem t (ept_index gpa i))) ctx h
  unfolding map_from
  map_from-descend n i t ctx h ne lt e = ground arith

  Mapped-descend :
      (l : Labels) (m n i t : ℕ) (ctx : IntroCtx) (h : Host)
      → suc n + i ≡ 3
      → IsTree k l h.mem
      → IsTable l gpa (suc n) t
      → h.mem t (ept_index gpa i) ≢ 0
      → Mapped k gpa new_hpa perm l m n
          (i + 1)
          (child k (h.mem t (ept_index gpa i)))
          ctx
          h
          (map_from k gpa new_hpa perm (suc n) (i + 1) (child k (h.mem t (ept_index gpa i))) ctx h)
      → Mapped k gpa new_hpa perm l m
          (suc n)
          i
          t
          ctx
          h
          (map_from k gpa new_hpa perm (suc (suc n)) i t ctx h)
  unfolding walk
  Mapped-descend l m n i t ctx h e tree v ne r =
      let same : r.host.mem t (ept_index gpa i) ≡ h.mem t (ept_index gpa i) =
        r.upper t (ept_index gpa i) (omega (arith, v.height)) in
      record {
        ptr = r.ptr;
        ctx = r.ctx;
        host = r.host;
        labels = r.labels;
        runs =
            map_from-descend (suc n) i t ctx h (tree.nonnull t (omega (arith, v.height)))
              (omega arith) ne
            ∙ r.runs;
        tree = r.tree;
        room = r.room;
        keeps = r.keeps;
        from = r.from;
        at_leaf = r.at_leaf;
        listed = r.listed;
        spares = r.spares;
        self = ground (arith, r.self, same);
        at_ptr = ground (arith, r.at_ptr, same);
        upper = λ q j lt. r.upper q j (omega arith);
        other = r.other;
      }
