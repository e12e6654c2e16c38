-- ===== src/Local/Tables.antt =====
-- The page tables that init_local_page_tables fills, as the 32-bit processor reads them.
use imee.Base.{refl, ℕ, ne→==, ◌/◌, ◌%◌, ◌^◌, ◌<◌, ◌≡◌, ◌≢◌, some, ◌==◌, if◌then◌else◌, arith}
use imee.Masks.{page_bits}
use imee.Host.{Mem, DirectMap}
use imee.Local.{
  filled_tables, HostTables, ArgBlk, Local, get_pte, init_local_page_tables, pd_gpa, pt_gpa_exec,
  pt_gpa_data, code_gpa, data_gpa,
}

-- The page that guest address `gpa` is backed by, as the EPT maps the three local tables.
abbrev pub local_page : (pd exec data_pt : ℕ) → ℕ → ℕ
local_page pd exec data_pt gpa =
    if gpa == pd_gpa
    then pd
    else if gpa == pt_gpa_exec
    then exec
    else if gpa == pt_gpa_data
    then data_pt
    else 0

-- The guest page that a 32-bit linear address is translated to, by two levels from cr3 = PD_GPA.
unfoldable pub local_translate : Mem → (pd exec data_pt : ℕ) → ℕ → ℕ
local_translate words pd exec data_pt gva =
    let pde = words pd (gva / 2 ^ 22) in
    page_bits (words (local_page pd exec data_pt (page_bits pde)) (gva / 2 ^ 12 % 1024))

-- When both pages of the agent are mapped, and get_zeroed_page gives three pages, none of them NULL
-- and no two the same, init_local_page_tables returns 0, and the tables translate the lowest page
-- of the address space to the data page, and every other 32-bit address to the code page.
pub local_translate-init :
    (k : DirectMap) (t : HostTables) (arg : ArgBlk) (pd exec data_pt : ℕ) (g : Local) (gva : ℕ)
    {code_pte data_pte : ℕ}
    → get_pte t arg.data_host ≡ some data_pte
    → get_pte t arg.code_host ≡ some code_pte
    → pd ≢ 0
    → exec ≢ 0
    → data_pt ≢ 0
    → pd ≢ exec
    → pd ≢ data_pt
    → exec ≢ data_pt
    → gva < 2 ^ 32
    → (g' : Local) × (init_local_page_tables k t arg pd exec data_pt g ≡ some (some tt, g'))
      × (local_translate g'.words pd exec data_pt gva
          ≡ (if gva / 2 ^ 12 == 0 then data_gpa else code_gpa))
unfolding local_translate init_local_page_tables page_bits
local_translate-init k t arg pd exec data_pt g gva {code_pte} {data_pte} ed ec z1 z2 z3 n1 n2 n3
      lt =
    (
      filled_tables k arg pd exec data_pt code_pte data_pte g.words,
      rw (ed, ec, ne→== pd 0 z1, ne→== exec 0 z2, ne→== data_pt 0 z3, init_local_page_tables) refl,
      ground arith,
    )
