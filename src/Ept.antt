-- ===== src/Ept.antt =====
-- The extended page tables of kvm/imee.c: the types kvm_mmu_page and introspection_context
-- (kvm/imee.h), get_epte, map_epte, alloc_non_leaf_page, alloc_leaf_page.
pub mod Walk
pub mod Samples
mod Tests
pub mod Correct
pub mod Map
pub mod Grow
pub mod Leaves
pub mod Fresh
pub mod Apart
pub mod Room
pub mod Change
use imee.Base.{
  ℕ, zero, suc, ◌+◌, ◌-◌, ◌*◌, ◌/◌, ◌%◌, ◌^◌, Option, none, some, List, [], ◌∷◌, ltb, ◌==◌,
  if◌then◌else◌, bit_or,
}
use imee.Masks.{frame_bits, low_bits}
use imee.Host.{Host, DirectMap, store}
use imee.Frames.{get_ept_page}

-- struct kvm_mmu_page, as far as imee.c reads it.
pub record MmuPage : Type 0 where
  pub spt : ℕ
  pub level : ℕ
  pub gfn : ℕ

-- A kvm_mmu_page on a non_leaf_page list: its gfn is never set.
pub record NonLeafPage : Type 0 where
  pub spt : ℕ
  pub level : ℕ

-- A u64* into a paging structure: the page and the slot.
pub record Ptr : Type 0 where
  pub page : ℕ
  pub slot : ℕ

-- struct introspection_context; kvm, target_vcpu and task are the addresses of those objects.
pub record IntroCtx : Type 0 where
  pub kvm : ℕ
  pub target_vcpu : ℕ
  pub task : ℕ
  pub eptptr : ℕ
  pub cr3 : ℕ
  pub visited : ℕ
  pub leaf_page : List MmuPage
  pub non_leaf_page : List NonLeafPage
  pub code_ept_pte_p : Option Ptr
  pub code_ept_pte : ℕ
  pub data_ept_pte_p : Option Ptr
  pub data_ept_pte : ℕ

-- (gpa >> 12) & ~0x1FF
abbrev pub leaf_gfn : ℕ → ℕ
leaf_gfn gpa = gpa / 2 ^ 12 / 512 * 512

-- (gpa >> 12) & 0x1FF
abbrev pub leaf_index : ℕ → ℕ
leaf_index gpa = gpa / 2 ^ 12 % 512

unfoldable pub find_leaf : ℕ → ℕ → List MmuPage → Option Ptr
find_leaf gfn idx [] = none
find_leaf gfn idx (cur ∷ rest) =
    if cur.gfn == gfn then some (record { page = cur.spt; slot = idx }) else find_leaf gfn idx rest

unfoldable pub get_epte : IntroCtx → ℕ → Option Ptr
unfolding find_leaf
get_epte ctx gpa = find_leaf (leaf_gfn gpa) (leaf_index gpa) ctx.leaf_page

unfoldable pub alloc_non_leaf_page : List NonLeafPage → ℕ → Host → ℕ × List NonLeafPage × Host
alloc_non_leaf_page pages lv h =
    let (page, h') = get_ept_page h in (page, record { spt = page; level = lv } ∷ pages, h')

unfoldable pub alloc_leaf_page : List MmuPage → ℕ → Host → ℕ × List MmuPage × Host
alloc_leaf_page pages gpa h =
    let (page, h') = get_ept_page h in
    (page, record { spt = page; level = 1; gfn = leaf_gfn gpa } ∷ pages, h')

-- idx[i] of map_epte, for i below 4: bits 39 - 9 * i and the eight above.
abbrev pub ept_index : ℕ → ℕ → ℕ
ept_index gpa zero = gpa / 2 ^ 39 % 512
ept_index gpa (suc zero) = gpa / 2 ^ 30 % 512
ept_index gpa (suc (suc zero)) = gpa / 2 ^ 21 % 512
ept_index gpa (suc (suc (suc _))) = gpa / 2 ^ 12 % 512

abbrev pub page_level : ℕ
page_level = 4

-- How one round of the loop of map_epte leaves it: a table for the next round, or a break.
pub data Round : Type 0 where
  descend : ℕ → IntroCtx → Host → Round
  break : Ptr → IntroCtx → Host → Round

module _ (k : DirectMap) (gpa new_hpa perm : ℕ) where
  -- `table[idx[i]] = __pa (tbl) | 0x7; table = tbl;`
  unfoldable pub link : ℕ → ℕ → ℕ → IntroCtx → Host → Round
  link i table tbl ctx h =
      descend tbl ctx
        (record h { mem = store h.mem table (ept_index gpa i) (bit_or (k.pa tbl) 0x7) })

  unfoldable pub set_leaf : ℕ → ℕ → ℕ → IntroCtx → Host → Round
  set_leaf i table e ctx h =
      break (record { page = table; slot = ept_index gpa i }) ctx
        (record h { mem = store h.mem table (ept_index gpa i) e })

  -- The body of the loop, for a table that is not NULL.
  unfoldable pub map_round : ℕ → ℕ → IntroCtx → Host → Round
  unfolding link set_leaf
  map_round i table ctx h =
      let entry = h.mem table (ept_index gpa i) in
      if entry == 0
      then if ltb i (page_level - 2)
        then (let (tbl, pages, h') = alloc_non_leaf_page ctx.non_leaf_page (page_level - i) h in
            link i table tbl (record ctx { non_leaf_page = pages }) h')
        else if ltb i (page_level - 1)
        then (let (tbl, pages, h') = alloc_leaf_page ctx.leaf_page gpa h in
            link i table tbl (record ctx { leaf_page = pages }) h')
        else set_leaf i table (bit_or (bit_or (frame_bits new_hpa) (low_bits perm)) 0x270) ctx h
      else if ltb i (page_level - 1)
      then descend (k.va (frame_bits entry)) ctx h
      else set_leaf i table (bit_or (frame_bits new_hpa) (low_bits perm)) ctx h

  -- `none` is a fault: the code reads through a NULL table. The first number is the rounds left.
  unfoldable pub map_from : ℕ → ℕ → ℕ → IntroCtx → Host → Option (Option Ptr × IntroCtx × Host)
  unfolding map_round
  map_from zero i table ctx h = some (none, ctx, h)
  map_from (suc n) i table ctx h = if table == 0 then none else elim (map_round i table ctx h) [
    | descend t ctx' h' ↦ map_from n (i + 1) t ctx' h'
    | break p ctx' h' ↦ some (some p, ctx', h')
  ]

  unfoldable pub map_epte : IntroCtx → Host → Option (Option Ptr × IntroCtx × Host)
  unfolding map_from
  map_epte ctx h = map_from page_level 0 (k.va ctx.eptptr) ctx h
