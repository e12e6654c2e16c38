-- ===== src/Local.antt =====
-- The page tables of the analysis environment in kvm/imee.c: init_local_page_tables,
-- map_local_page_tables, and the fixed guest addresses of kvm/imee.h.
pub mod Tables
pub mod Mapping
pub mod Samples
mod Tests
use imee.Base.{
  ℕ, ◌+◌, ◌≡◌, Option, none, some, Bool, true, ◌||◌, List, [], ◌∷◌, bit_or, ltb, ◌==◌, ◌&&◌,
  if◌then◌else◌,
}
use imee.Masks.{frame_bits}
use imee.Host.{Mem, Host, DirectMap}
use imee.Ept.{IntroCtx, map_epte}

abbrev pub pd_gpa : ℕ
pd_gpa = 0xF000_0000

abbrev pub pt_gpa_exec : ℕ
pt_gpa_exec = 0xF000_1000

abbrev pub pt_gpa_data : ℕ
pt_gpa_data = 0xF000_2000

abbrev pub code_gpa : ℕ
code_gpa = 0xF000_3000

abbrev pub data_gpa : ℕ
data_gpa = 0xF000_4000

-- The kernel's page walk of the calling process: the entries, and its tests on them.
pub record HostTables : Type 0 where
  pub pgd : ℕ → ℕ
  pub pud : ℕ → ℕ → ℕ
  pub pmd : ℕ → ℕ → ℕ
  pub pte : ℕ → ℕ → ℕ
  pub is_none : ℕ → Bool
  pub is_bad : ℕ → Bool

unfoldable pub get_pte : HostTables → ℕ → Option ℕ
get_pte t addr =
    let pgd = t.pgd addr in
    let pud = t.pud pgd addr in
    let pmd = t.pmd pud addr in
    let pte = t.pte pmd addr in
    if t.is_none pgd || t.is_bad pgd
    then none
    else if t.is_none pud || t.is_bad pud
    then none
    else if t.is_none pmd || t.is_bad pmd
    then none
    else if t.is_none pte
    then none
    else some pte

-- struct arg_blk
pub record ArgBlk : Type 0 where
  pub cr3 : ℕ
  pub num_x_page : ℕ
  pub num_w_page : ℕ
  pub offset : ℕ
  pub code_host : ℕ
  pub data_host : ℕ
  pub stack : ℕ
  pub entry : ℕ
  pub int_handler : ℕ
  pub thunk : ℕ
  pub got : ℕ
  pub got_len : ℕ
  pub gotplt : ℕ
  pub gotplt_len : ℕ

-- The globals that the local page tables live in, and the 32-bit words of their pages by page
-- address and index.
pub record Local : Type 0 where
  pub code_hpa : ℕ
  pub data_hpa : ℕ
  pub code_entry : ℕ
  pub fake_cr3_pd_hpa : ℕ
  pub fake_cr3_pt_hpa_exec : ℕ
  pub fake_cr3_pt_hpa_data : ℕ
  pub words : Mem

-- `p[0] = first; for (i = 1; i < 1024; i ++) p[i] = rest` on a cleared page.
abbrev pub fill : Mem → ℕ → ℕ → ℕ → Mem
fill mem p first rest q i =
    if q == p then (if i == 0 then first else if ltb i 1024 then rest else 0) else mem q i

-- `gpa | 0x7 | 0x100 | 0x60`: present, writable, user; global; accessed and dirty.
abbrev pub local_pte : ℕ → ℕ
local_pte gpa = bit_or (bit_or (bit_or gpa 0x7) 0x100) 0x60

-- `gpa | 0x7 | 0x60`
abbrev pub local_pde : ℕ → ℕ
local_pde gpa = bit_or (bit_or gpa 0x7) 0x60

-- The globals and the pages once both entries are found: the stores at the end of
-- init_local_page_tables.
abbrev pub filled_tables :
    DirectMap → ArgBlk → (pd exec data_pt code_pte data_pte : ℕ) → Mem → Local
filled_tables k arg pd exec data_pt code_pte data_pte words = record {
  code_hpa = frame_bits code_pte;
  data_hpa = frame_bits data_pte;
  code_entry = arg.entry;
  fake_cr3_pd_hpa = k.pa pd;
  fake_cr3_pt_hpa_exec = k.pa exec;
  fake_cr3_pt_hpa_data = k.pa data_pt;
  words =
      fill
        (fill (fill words pd (local_pde pt_gpa_data) (local_pde pt_gpa_exec)) data_pt
          (local_pte data_gpa) (local_pte code_gpa))
        exec (local_pte code_gpa) (local_pte code_gpa);
}

-- `pd`, `exec` and `data_pt` are what the three calls of get_zeroed_page return, and 0 is NULL. The
-- first result is the code's: `none` stands for -1. `none` as a whole is a store through NULL.
unfoldable pub init_local_page_tables :
    DirectMap
    → HostTables
    → ArgBlk
    → (pd exec data_pt : ℕ) → Local
    → Option (Option (Unit {0}) × Local)
unfolding get_pte
init_local_page_tables k t arg pd exec data_pt g = elim (get_pte t arg.data_host) [
  | none ↦ some (none, g)
  | some data_pte ↦ elim (get_pte t arg.code_host) [
    | none ↦ some (none, record g { data_hpa = frame_bits data_pte })
    | some code_pte ↦
        if (pd == 0) || (exec == 0) || (data_pt == 0)
        then none
        else some (some tt, filled_tables k arg pd exec data_pt code_pte data_pte g.words)
  ]
]

-- What map_local_page_tables maps: guest address, host frame, permissions, in the code's order.
abbrev pub local_maps : Local → List (ℕ × ℕ × ℕ)
local_maps g =
    (pd_gpa, g.fake_cr3_pd_hpa, 0x3)
    ∷ (pt_gpa_exec, g.fake_cr3_pt_hpa_exec, 0x3)
    ∷ (pt_gpa_data, g.fake_cr3_pt_hpa_data, 0x3)
    ∷ (data_gpa, g.data_hpa, 0x3)
    ∷ (code_gpa, g.code_hpa, 0x4)
    ∷ []

-- The calls of map_epte in a row; what each returns is dropped.
unfoldable pub map_all : DirectMap → List (ℕ × ℕ × ℕ) → IntroCtx → Host → Option (IntroCtx × Host)
map_all k [] ctx h = some (ctx, h)
map_all k ((gpa, hpa, perm) ∷ rest) ctx h = elim (map_epte k gpa hpa perm ctx h) [
  | none ↦ none
  | some (_, ctx', h') ↦ map_all k rest ctx' h'
]

unfoldable pub map_local_page_tables :
    DirectMap → Local → IntroCtx → Host → Option (IntroCtx × Host)
unfolding map_all
map_local_page_tables k g ctx h = map_all k (local_maps g) ctx h
