-- ===== src/Guest/Walk.antt =====
-- get_guest_pte agrees with the two-level walk of the 32-bit paging mode.
use imee.Base.{ℕ, ◌/◌, ◌%◌, ◌^◌, ◌≡◌, Option, none, some, List, ◌==◌, if◌then◌else◌, arith}
use imee.Host.{Mem}
use imee.Shadow.{ShadowPage}
use imee.Guest.{
  get_ptr_guest_page, PtMapping, is_present, is_large, entry_page, guest_pte_from, get_guest_pte,
}

module _ (pages : List ShadowPage) (words : Mem) where
  -- The 32-bit word at index `i` of the guest page at `gpa`, where the page is mapped.
  abbrev pub guest_word : ℕ → ℕ → Option ℕ
  guest_word gpa i =
      let hpa = get_ptr_guest_page pages gpa in
      if hpa == 0 then none else some (words (hpa / 4096) i)

  -- An entry that is present.
  abbrev pub present_word : ℕ → ℕ → Option ℕ
  present_word gpa i = elim (guest_word gpa i) [
    | none ↦ none
    | some e ↦ if is_present e then some e else none
  ]

  -- The second level: the entry of a page of 4 KB.
  abbrev pub walk_table : ℕ → ℕ → Option PtMapping
  walk_table pde gva = elim (present_word (entry_page pde) (gva / 2 ^ 12 % 1024)) [
    | none ↦ none
    | some pte ↦ some (record { lv = 1; e = pte })
  ]

  -- The walk of the processor: the directory at cr3, then a page of 4 MB or a table.
  abbrev pub walk : ℕ → ℕ → Option PtMapping
  walk cr3 gva = elim (present_word (entry_page cr3) (gva / 2 ^ 22 % 1024)) [
    | none ↦ none
    | some pde ↦ if is_large pde then some (record { lv = 2; e = pde }) else walk_table pde gva
  ]

  -- get_guest_pte finds the entry that the processor's walk of the guest's tables uses, with its
  -- level, 2 for a page of 4 MB and 1 for one of 4 KB, and fails where that walk meets an entry
  -- that is not present or a table that no page of the machine maps.
  pub get_guest_pte-walk : (cr3 gva : ℕ) → get_guest_pte pages words cr3 gva ≡ walk cr3 gva
  unfolding get_guest_pte guest_pte_from
  get_guest_pte-walk cr3 gva = ground arith
