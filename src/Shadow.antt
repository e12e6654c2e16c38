-- ===== src/Shadow.antt =====
-- The copy of a virtual machine's extended page tables: copy_leaf_ept and make_imee_ept of
-- kvm/imee.c.
pub mod Copy
pub mod Lower
pub mod Hang
pub mod Add
pub mod Fill
pub mod Tree
pub mod Loose
mod Tests
use imee.Base.{
  ℕ, ◌+◌, ◌*◌, ◌/◌, ◌%◌, ◌^◌, Option, none, some, List, [], ◌∷◌, ltb, ◌==◌, ◌&&◌, if◌then◌else◌,
  bit_or,
}
use imee.Masks.{frame_bits}
use imee.Host.{Mem, Host, DirectMap, store}
use imee.Frames.{get_ept_page}
use imee.Ept.{MmuPage, NonLeafPage, alloc_non_leaf_page}

-- A struct kvm_mmu_page on active_mmu_pages of the machine: the hypervisor's own tables.
pub record ShadowPage : Type 0 where
  pub level : ℕ
  pub gfn : ℕ
  pub spt : ℕ → ℕ

-- x & ~0x6
abbrev pub read_only : ℕ → ℕ
read_only x = x / 8 * 8 + x % 2

-- `for (; i < 512; i ++) pte[i] = page->spt[i] & ~0x6`
abbrev pub copy_entries : Mem → ℕ → (ℕ → ℕ) → Mem
copy_entries mem p spt q j = if (q == p) && ltb j 512 then read_only (spt j) else mem q j

-- `none` is a store through NULL, as below.
unfoldable pub copy_leaf_ept : List ShadowPage → List MmuPage → Host → Option (List MmuPage × Host)
copy_leaf_ept [] leaf_page h = some (leaf_page, h)
copy_leaf_ept (page ∷ rest) leaf_page h =
    let (newpage, h') = get_ept_page h in
    if page.level == 1
    then if newpage == 0
      then none
      else copy_leaf_ept rest (record { spt = newpage; level = 1; gfn = page.gfn } ∷ leaf_page)
          (record h' { mem = copy_entries h'.mem newpage page.spt })
    else copy_leaf_ept rest leaf_page h

module _ (k : DirectMap) where
  -- The table below `table[idx]`, allocated where there is none.
  unfoldable pub lower_table :
      ℕ → ℕ → ℕ → List NonLeafPage → Host → Option (ℕ × List NonLeafPage × Host)
  lower_table table idx lv pages h =
      let (tbl, pages', h') = alloc_non_leaf_page pages lv h in
      if table == 0
      then none
      else if h.mem table idx == 0
      then some (tbl, pages', record h' { mem = store h'.mem table idx (bit_or (k.pa tbl) 0x7) })
      else some (k.va (frame_bits (h.mem table idx)), pages, h)

  -- The last level: the first leaf page with a prefix is the one that counts.
  unfoldable pub hang_leaf :
      ℕ → MmuPage → List NonLeafPage → Host → Option (List NonLeafPage × Host)
  hang_leaf pd cur pages h =
      let idx = cur.gfn / 2 ^ 9 % 512 in
      if pd == 0
      then none
      else if h.mem pd idx == 0
      then some (pages, record h { mem = store h.mem pd idx (bit_or (k.pa cur.spt) 0x7) })
      else some (pages, h)

  unfoldable pub add_leaf : ℕ → MmuPage → List NonLeafPage → Host → Option (List NonLeafPage × Host)
  unfolding lower_table hang_leaf
  add_leaf root cur pages h = elim (lower_table root (cur.gfn / 2 ^ 27 % 512) 3 pages h) [
    | none ↦ none
    | some (pdpt, pages', h') ↦ elim (lower_table pdpt (cur.gfn / 2 ^ 18 % 512) 2 pages' h') [
      | none ↦ none
      | some (pd, pages'', h'') ↦ hang_leaf pd cur pages'' h''
    ]
  ]

  unfoldable pub add_leaves :
      ℕ → List MmuPage → List NonLeafPage → Host → Option (List NonLeafPage × Host)
  unfolding add_leaf
  add_leaves root [] pages h = some (pages, h)
  add_leaves root (cur ∷ rest) pages h = elim (add_leaf root cur pages h) [
    | none ↦ none
    | some (pages', h') ↦ add_leaves root rest pages' h'
  ]

  unfoldable pub make_imee_ept :
      List MmuPage → List NonLeafPage → Host → Option (ℕ × List NonLeafPage × Host)
  unfolding add_leaves
  make_imee_ept leaf_page non_leaf_page h =
      let (root, h') = get_ept_page h in
      elim (add_leaves root leaf_page (record { spt = root; level = 4 } ∷ non_leaf_page) h') [
        | none ↦ none
        | some (pages, h'') ↦ some (k.pa root, pages, h'')
      ]
