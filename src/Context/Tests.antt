-- ===== src/Context/Tests.antt =====
-- Runs over a machine list, and the theorems at concrete values.
use imee.Base.{ℕ, ◌<◌, ◌≡◌, ◌≢◌, refl, Option, none, some, List, [], ◌∷◌, arith, ◌+◌, ◌*◌, map}
use imee.Host.{Host}
use imee.Ept.{IntroCtx, get_epte, map_epte, alloc_leaf_page, alloc_non_leaf_page}
use imee.Ept.Samples.{empty_host, linux_map, empty_ctx, root_labels, empty-IsEpt}
use imee.Ept.Walk.{translate}
use imee.Shadow.{copy_leaf_ept, make_imee_ept}
use imee.Frames.{get_ept_page}
use imee.Masks.{frame_bits}
use imee.Local.{map_local_page_tables}
use imee.Local.Samples.{globals}
use imee.Context.{GuestVm, fill_ctx, create_contexts, put}
use imee.Shadow.Loose.{shadow_entry}
use imee.Context.Whole.{context_entry, translate-fill_ctx}
use imee.Context.Isolated.{HasPages, IsSmallVm, no_labels, no_labels-IsTree, fill_ctx-isolated}
use imee.Context.Remap.{remap_run, remap_run-restores}

-- Three entries of vm_list: the caller's own machine, and another one twice.
abbrev machines : List GuestVm
machines =
    record { vm = 10; owner = 77; vcpus0 = 11; active_mmu_pages = [] }
    ∷ record {
      vm = 20;
      owner = 5;
      vcpus0 = 21;
      active_mmu_pages = record { level = 1; gfn = 0; spt = λ j. j * 4096 + 0x77 } ∷ [];
    }
    ∷ record { vm = 20; owner = 5; vcpus0 = 21; active_mmu_pages = [] }
    ∷ []

abbrev or_else {ℓ} : {A : Type ℓ} → Option A → A → A
or_else none a = a
or_else (some b) a = b

abbrev created : List IntroCtx × Host
created = or_else (create_contexts linux_map globals 77 machines [] empty_host) ([], empty_host)

-- One context, of machine 20.
created-vms : map (λ c. c.kvm) created.0 ≡ 20 ∷ []
unfolding create_contexts copy_leaf_ept get_ept_page make_imee_ept alloc_non_leaf_page
    map_local_page_tables map_epte frame_bits alloc_leaf_page
created-vms = refl

abbrev first_eptptr : List IntroCtx → ℕ
first_eptptr [] = 0
first_eptptr (c ∷ _) = c.eptptr

-- Guest page 5 is mapped where the machine maps it, without the permissions to write and execute.
created-translate : translate linux_map created.1.mem (first_eptptr created.0) 0x5000 ≡ 0x5071
unfolding create_contexts copy_leaf_ept get_ept_page make_imee_ept alloc_non_leaf_page
    map_local_page_tables map_epte frame_bits alloc_leaf_page translate
created-translate = refl

-- A context with the leaf page of the lowest 512 pages.
abbrev one_leaf : IntroCtx
one_leaf = record empty_ctx { leaf_page = record { spt = 0x5000; level = 1; gfn = 0 } ∷ [] }

has_epte3 : get_epte one_leaf 0x3000 ≢ none
unfolding get_epte
has_epte3 e = ground (arith, e)

has_epte4 : get_epte one_leaf 0x4000 ≢ none
unfolding get_epte
has_epte4 e = ground (arith, e)

remap_run-restores_example :
    (c : IntroCtx) × (h' : Host) × (remap_run linux_map 0x40_1000
        (0x3000 ∷ 0x4000 ∷ 0x3000 ∷ [])
        one_leaf
        empty_host
      ≡ some (c, h'))
    × ((q j : ℕ) → (put c.code_ept_pte_p c.code_ept_pte h').mem q j ≡ empty_host.mem q j)
remap_run-restores_example =
    remap_run-restores linux_map 0x40_1000 (0x3000 ∷ 0x4000 ∷ 0x3000 ∷ []) one_leaf empty_host
      (has_epte3, (has_epte4, (has_epte3, tt))) refl

-- A machine with two pages of level 1 for the same region: the later one counts.
abbrev machine : GuestVm
machine = record {
  vm = 20;
  owner = 5;
  vcpus0 = 21;
  active_mmu_pages =
      record { level = 1; gfn = 0; spt = λ j. j * 4096 + 0x80_0077 }
      ∷ record { level = 1; gfn = 0; spt = λ j. j * 4096 + 0x77 }
      ∷ [];
}

machine-IsSmallVm : IsSmallVm machine
machine-IsSmallVm = (omega arith, (omega arith, tt))

empty-HasPages : (m : ℕ) → m < 1023 → HasPages linux_map m empty_host
empty-HasPages m lt = record {
  aligned = refl;
  below = omega arith;
  above = omega arith;
  fits = omega arith;
  left = omega arith;
  unused = λ j lo hi. refl;
}

abbrev filled : IntroCtx × Host
filled = or_else (fill_ctx linux_map globals machine empty_host) (empty_ctx, empty_host)

filled-runs : fill_ctx linux_map globals machine empty_host ≡ some (filled.0, filled.1)
unfolding fill_ctx copy_leaf_ept get_ept_page make_imee_ept alloc_non_leaf_page
    map_local_page_tables map_epte frame_bits alloc_leaf_page
filled-runs = refl

translate-fill_ctx_example :
    translate linux_map filled.1.mem filled.0.eptptr 0x5000
    ≡ context_entry globals (shadow_entry machine.active_mmu_pages 0x5000 0) 0x5000
translate-fill_ctx_example =
    translate-fill_ctx linux_map globals machine no_labels 3 empty_host
      (no_labels-IsTree linux_map empty_host) (empty-HasPages 25 (omega arith)) machine-IsSmallVm
      filled.0 filled.1 0x5000 filled-runs (omega arith)

fill_ctx-isolated_example :
    translate linux_map filled.1.mem 0x100_0000 0xF000_3000
    ≡ translate linux_map empty_host.mem 0x100_0000 0xF000_3000
fill_ctx-isolated_example =
    fill_ctx-isolated linux_map globals machine 3 empty_host root_labels 25 empty_ctx filled.0
      filled.1 0xF000_3000 (empty-HasPages 25 (omega arith)) machine-IsSmallVm
      (empty-IsEpt 25 (omega arith)) filled-runs
