-- ===== src/Ept/Tests.antt =====
-- The EPT at concrete inputs.
use imee.Base.{◌/◌, ◌^◌, ◌≡◌, refl, ◌==◌, if◌then◌else◌, Option, none, some, arith}
use imee.Masks.{frame_bits, low_bits}
use imee.Host.{Host}
use imee.Ept.{IntroCtx, Ptr, map_epte, alloc_leaf_page, alloc_non_leaf_page}
use imee.Frames.{get_ept_page}
use imee.Ept.Walk.{translate}
use imee.Ept.Leaves.{leaf_entry}
use imee.Ept.Correct.{translate-map_epte}
use imee.Ept.Samples.{linux_map, root_labels, empty_ctx, empty_host, empty-IsEpt}

-- The value, or the other argument.
abbrev or_else {ℓ} : {A : Type ℓ} → Option A → A → A
or_else none a = a
or_else (some a) _ = a

-- What the call returns on the empty EPT.
abbrev mapped : Option Ptr × IntroCtx × Host
mapped =
    or_else (map_epte linux_map 0xF000_3000 0x1234_5000 0x4 empty_ctx empty_host)
      (none, empty_ctx, empty_host)

mapped_runs :
    map_epte linux_map 0xF000_3000 0x1234_5000 0x4 empty_ctx empty_host
    ≡ some (mapped.0, mapped.1, mapped.2)
unfolding map_epte alloc_leaf_page alloc_non_leaf_page get_ept_page frame_bits low_bits
mapped_runs = refl

translate-map_epte_example : translate linux_map mapped.2.mem 0x100_0000 0xF000_3123 ≡ (
    if 0xF000_3123 / 2 ^ 12 == 0xF000_3000 / 2 ^ 12
    then leaf_entry 0x1234_5000 0x4 (translate linux_map empty_host.mem 0x100_0000 0xF000_3123)
    else translate linux_map empty_host.mem 0x100_0000 0xF000_3123)
translate-map_epte_example =
    translate-map_epte linux_map 0xF000_3000 0x1234_5000 0x4 root_labels 0 empty_ctx empty_host
      (empty-IsEpt 3 (omega arith)) (omega arith) mapped.0 mapped.1 mapped.2 0xF000_3123 mapped_runs
      (omega arith)

-- The entry for the code page: its frame, the memory type, execute only.
mapped_entry_test : translate linux_map mapped.2.mem 0x100_0000 0xF000_3123 ≡ 0x1234_5274
unfolding map_epte alloc_leaf_page alloc_non_leaf_page get_ept_page frame_bits low_bits translate
mapped_entry_test = refl
