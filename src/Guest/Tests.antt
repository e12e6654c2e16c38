-- ===== src/Guest/Tests.antt =====
-- The walk of a guest's page tables at a concrete directory and table.
use imee.Base.{◌+◌, ◌*◌, ◌≡◌, refl, some, List, [], ◌∷◌, ◌==◌, if◌then◌else◌}
use imee.Masks.{frame_bits}
use imee.Host.{Mem}
use imee.Shadow.{ShadowPage}
use imee.Guest.{get_ptr_guest_page, guest_pte_from, get_guest_pte}
use imee.Guest.Walk.{walk, get_guest_pte-walk}

-- The lowest 512 pages of the guest, at the frames from 0x100.
abbrev pages : List ShadowPage
pages = record { level = 1; gfn = 0; spt = λ j. (j + 0x100) * 4096 + 0x77 } ∷ []

-- A directory in guest page 7, whose entry 768 is the table in guest page 8, and entry 769 a large
-- page; entry 5 of the table is guest page 9.
abbrev words : Mem
words p i =
    if p == 0x107
    then if i == 768 then 0x8067 else if i == 769 then 0x40_00E7 else 0
    else if p == 0x108
    then if i == 5 then 0x9067 else 0
    else 0

-- A page of 4 KB, a page of 4 MB, and none.
walks_table : get_guest_pte pages words 0x7000 0xC000_5123 ≡ some (record { lv = 1; e = 0x9067 })
unfolding get_guest_pte guest_pte_from get_ptr_guest_page frame_bits
walks_table = refl

walks_large : get_guest_pte pages words 0x7000 0xC040_5123 ≡ some (record { lv = 2; e = 0x40_00E7 })
unfolding get_guest_pte guest_pte_from get_ptr_guest_page frame_bits
walks_large = refl

get_guest_pte-walk_example :
    get_guest_pte pages words 0x7000 0xC000_5123 ≡ walk pages words 0x7000 0xC000_5123
get_guest_pte-walk_example = get_guest_pte-walk pages words 0x7000 0xC000_5123
