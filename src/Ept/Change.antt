-- ===== src/Ept/Change.antt =====
-- How the two kinds of writes of map_epte change the walk: a new empty table is linked in, or a
-- leaf entry is set.
use imee.Base.{ℕ, zero, suc, ◌+◌, ◌*◌, ◌/◌, ◌^◌, ◌<◌, ◌≡◌, ◌≢◌, ◌==◌, if◌then◌else◌, arith}
use imee.Host.{Mem, DirectMap, store}
use imee.Ept.{ept_index}
use imee.Ept.Walk.{child, walk, region_of, Labels, IsTree, IsTable, ept_index-lt, child-IsTable}

-- The labels with one more table.
abbrev pub extend : Labels → ℕ → ℕ → ℕ → Labels
extend l f height region = record {
  height = λ q. if q == f then height else l.height q;
  region = λ q. if q == f then region else l.region q;
}

-- The walk gives 0 from an empty table.
walk-empty :
    (k : DirectMap) (mem : Mem) (gpa n i f : ℕ)
    → ((j : ℕ) → j < 512 → mem f j ≡ 0)
    → walk k mem gpa n i f ≡ 0
unfolding walk
walk-empty k mem gpa zero i f e = e (ept_index gpa i) (ept_index-lt gpa i)
walk-empty k mem gpa (suc n) i f e = rw (e (ept_index gpa i) (ept_index-lt gpa i))

module _ (k : DirectMap) (l : Labels) (mem : Mem) (tree : IsTree k l mem) (t j v : ℕ) where
  module _ (n f : ℕ) (tall : l.height t ≡ suc (suc n)) (unused : l.height f ≡ 0) (nonnull : f ≢ 0)
      (empty : (i : ℕ) → i < 512 → mem f i ≡ 0) (to : child k v ≡ f) (vacant : mem t j ≡ 0) where
    -- A new table below an entry that was 0 keeps the shape.
    pub link-IsTree : IsTree k (extend l f (suc n) (l.region t * 512 + j)) (store mem t j v)
    link-IsTree = record {
      nonnull = λ p h. ground (arith, tree.nonnull p);
      lower = λ p i h hi ne. ground (arith, tree.lower p i, empty i);
    }

    -- And it changes no walk.
    pub link-walk :
        (gpa m i t' : ℕ)
        → l.height t' ≡ suc m
        → walk k (store mem t j v) gpa m i t' ≡ walk k mem gpa m i t'
    unfolding walk
    link-walk gpa zero i t' h = ground arith
    link-walk gpa (suc m) i t' h =
        let still : (x : ℕ) → x < 512 → store mem t j v f x ≡ 0 = λ x hx. ground (arith, empty x) in
        ground (
          arith,
          tree.lower t' (ept_index gpa i),
          ept_index-lt gpa i,
          walk-empty k (store mem t j v) gpa m (i + 1) f still,
          link-walk gpa m (i + 1) (child k (mem t' (ept_index gpa i))),
        )

  module _ (leaf : l.height t ≡ 1) where
    -- A write into a leaf table keeps the shape.
    pub leaf-IsTree : IsTree k l (store mem t j v)
    leaf-IsTree = record {
      nonnull = λ p h. tree.nonnull p h;
      lower = λ p i h hi ne. ground (arith, tree.lower p i);
    }

    -- It changes no walk that ends in another table or slot.
    pub leaf-walk_ne :
        (gpa gpa' m i t' : ℕ)
        → m + i ≡ 3
        → l.region t ≡ region_of gpa 0
        → j ≡ ept_index gpa 3
        → gpa' / 2 ^ 12 ≢ gpa / 2 ^ 12
        → IsTable l gpa' m t'
        → walk k (store mem t j v) gpa' m i t' ≡ walk k mem gpa' m i t'
    unfolding walk
    leaf-walk_ne gpa gpa' zero i t' e reg slot ne v' =
        let last : i ≡ 3 = omega arith in rw last (ground arith)
    leaf-walk_ne gpa gpa' (suc m) i t' e reg slot ne v' = ground (
      arith,
      child-IsTable k gpa' m i t' tree,
      leaf-walk_ne gpa gpa' m (i + 1) (child k (mem t' (ept_index gpa' i))),
    )

    -- The walk of its own address ends in it.
    pub leaf-walk_self :
        (gpa i : ℕ) → i ≡ 3 → j ≡ ept_index gpa 3 → walk k (store mem t j v) gpa 0 i t ≡ v
    unfolding walk
    leaf-walk_self gpa i e slot = rw (e, slot) (ground arith)

-- A change of pages that are no tables keeps the shape and the walks.
module _ (k : DirectMap) (l : Labels) (mem mem' : Mem)
    (same : (q i : ℕ) → l.height q ≢ 0 → mem' q i ≡ mem q i) (tree : IsTree k l mem) where
  pub outside-IsTree : IsTree k l mem'
  outside-IsTree = record {
    nonnull = λ p h. tree.nonnull p h;
    lower = λ p i h hi ne. ground (arith, tree.lower p i, same p i);
  }

  pub outside-walk :
      (gpa m i t : ℕ) → l.height t ≡ suc m → walk k mem' gpa m i t ≡ walk k mem gpa m i t
  unfolding walk
  outside-walk gpa zero i t h = same t (ept_index gpa i) (omega arith)
  outside-walk gpa (suc m) i t h = ground (
    arith,
    same t (ept_index gpa i),
    tree.lower t (ept_index gpa i),
    ept_index-lt gpa i,
    outside-walk gpa m (i + 1) (child k (mem t (ept_index gpa i))),
  )
