-- ===== src/Guest.antt =====
-- The walk of a 32-bit guest's page tables in kvm/imee.c: get_ptr_guest_page and get_guest_pte.
pub mod Walk
mod Tests
use imee.Base.{
  ℕ, zero, suc, ◌+◌, ◌-◌, ◌*◌, ◌/◌, ◌%◌, ◌^◌, Bool, true, false, not, ◌&&◌, ◌||◌, Option, none,
  some, List, [], ◌∷◌, ltb, ◌==◌, if◌then◌else◌,
}
use imee.Masks.{frame_bits}
use imee.Host.{Mem}
use imee.Ept.{leaf_gfn, leaf_index}
use imee.Shadow.{ShadowPage}

-- The host address of a guest page, and 0 where no page of the machine maps it.
unfoldable pub get_ptr_guest_page : List ShadowPage → ℕ → ℕ
get_ptr_guest_page [] gpa = 0
get_ptr_guest_page (page ∷ rest) gpa =
    if (page.gfn == leaf_gfn gpa) && (page.level == 1)
    then frame_bits (page.spt (leaf_index gpa))
    else get_ptr_guest_page rest gpa

-- struct pt_mapping
pub record PtMapping : Type 0 where
  pub lv : ℕ
  pub e : ℕ

-- Bits PTE_P_BIT and PDE_PG_BIT.
abbrev pub is_present : ℕ → Bool
is_present e = e % 2 == 1

abbrev pub is_large : ℕ → Bool
is_large e = e / 2 ^ 7 % 2 == 1

-- next & ~GPA_MASK, of a 32-bit word
abbrev pub entry_page : ℕ → ℕ
entry_page e = e / 4096 * 4096

-- idx[lv]
abbrev pub gva_index : ℕ → ℕ → ℕ
gva_index gva zero = gva / 2 ^ 22 % 1024
gva_index gva (suc _) = gva / 2 ^ 12 % 1024

module _ (pages : List ShadowPage) (words : Mem) where
  -- The loop from level `lv`, with the rounds left first; `next` is the last entry read. `words`
  -- are the 32-bit words of the host's page frames, by frame number and index.
  unfoldable pub guest_pte_from : ℕ → ℕ → ℕ → ℕ → ℕ → Option PtMapping
  unfolding get_ptr_guest_page
  guest_pte_from zero lv next next_addr gva = some (record { lv = 2 - lv + 1; e = next })
  guest_pte_from (suc n) lv next next_addr gva =
      let hpa = get_ptr_guest_page pages next_addr in
      let entry = words (hpa / 4096) (gva_index gva lv) in
      let rest = guest_pte_from n (lv + 1) entry (entry_page entry) gva in
      if hpa == 0
      then none
      else if (entry == 0) || not (is_present entry)
      then none
      else if is_large entry
      then some (record { lv = 2 - lv; e = entry })
      else rest

  unfoldable pub get_guest_pte : ℕ → ℕ → Option PtMapping
  unfolding guest_pte_from
  get_guest_pte cr3 gva = guest_pte_from 2 0 cr3 (entry_page cr3) gva
