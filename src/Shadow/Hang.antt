-- ===== src/Shadow/Hang.antt =====
-- The last level of make_imee_ept: a filled leaf page is linked in below a page directory.
use imee.Base.{
  List, [], ◌∷◌, All, ℕ, zero, suc, ◌+◌, ◌*◌, ◌/◌, ◌%◌, ◌^◌, ◌<◌, ◌≤◌, ◌≡◌, ◌≢◌, arith, bit_or,
}
use imee.Host.{Mem, DirectMap, store}
use imee.Frames.{page_size}
use imee.Ept.{MmuPage, ept_index}
use imee.Ept.Walk.{child, walk, Labels, IsTree, IsTable, child-IsTable}
use imee.Ept.Leaves.{IsListed}
use imee.Ept.Room.{child-entry, entry-ne-zero}

-- A leaf page that is filled and may be linked in: a page of the direct map, labelled as a table
-- of the last level for its own region.
pub record IsLoose (k : DirectMap) (l : Labels) (page : MmuPage) : Type 0 where
  pub height : l.height page.spt ≡ 1
  pub region : l.region page.spt ≡ page.gfn / 512
  pub small : page.gfn < 2 ^ 36
  pub aligned : page.spt % page_size ≡ 0
  pub below : k.page_offset ≤ page.spt
  pub above : page.spt < k.page_offset + 2 ^ 46

pub loose-IsListed :
    (k : DirectMap) (l : Labels) (pages : List MmuPage)
    → All pages (IsLoose k l)
    → All pages (IsListed l)
loose-IsListed k l [] loose = tt
loose-IsListed k l (page ∷ rest) (one, others) = (one.height, loose-IsListed k l rest others)

-- The entry of a page directory that points to a leaf page.
abbrev pub entry_to : DirectMap → MmuPage → ℕ
entry_to k page = bit_or (k.pa page.spt) 0x7

-- The entry of the page directory for `gpa`, or 0.
abbrev pub pd_entry : DirectMap → Mem → ℕ → ℕ → ℕ
pd_entry k mem gpa root = walk k mem gpa 2 0 root

pub pd_entry-region :
    (k : DirectMap) (mem : Mem) (gpa gpa' root : ℕ)
    → gpa' / 2 ^ 21 ≡ gpa / 2 ^ 21
    → pd_entry k mem gpa' root ≡ pd_entry k mem gpa root
unfolding walk
pd_entry-region k mem gpa gpa' root e =
    let e39 : gpa' / 2 ^ 39 ≡ gpa / 2 ^ 39 = omega arith in
    let e30 : gpa' / 2 ^ 30 ≡ gpa / 2 ^ 30 = omega arith in rw (e39, e30, e)

module _ (k : DirectMap) (l : Labels) (page : MmuPage) (loose : IsLoose k l page) where
  pub entry_to-points : child k (entry_to k page) ≡ page.spt
  entry_to-points = child-entry k page.spt loose.aligned loose.below loose.above

  pub entry_to-nonzero : entry_to k page ≢ 0
  entry_to-nonzero = entry-ne-zero k page.spt loose.aligned loose.below loose.above

  module _ (mem : Mem) (tree : IsTree k l mem) (pd j : ℕ) (tall : l.height pd ≡ 2)
      (place : page.gfn / 512 ≡ l.region pd * 512 + j) where
    -- The write keeps the shape.
    pub hang-IsTree : IsTree k l (store mem pd j (entry_to k page))
    hang-IsTree = record {
      nonnull = λ p h. tree.nonnull p h;
      lower = λ p i h hi ne.
          ground (arith, tree.lower p i, entry_to-points, loose.height, loose.region);
    }

    -- It changes the entry of no other region.
    pub hang-walk_ne :
        (gpa m i t : ℕ)
        → m + i ≡ 2
        → gpa / 2 ^ 21 ≢ page.gfn / 512
        → IsTable l gpa (suc m) t
        → walk k (store mem pd j (entry_to k page)) gpa m i t ≡ walk k mem gpa m i t
    unfolding walk
    hang-walk_ne gpa zero i t e ne v =
        let last : i ≡ 2 = omega arith in rw last (ground (arith, v.region))
    hang-walk_ne gpa (suc m) i t e ne v = ground (
      arith,
      v.height,
      child-IsTable k gpa (suc m) i t tree,
      hang-walk_ne gpa m (i + 1) (child k (mem t (ept_index gpa i))),
    )
