-- ===== src/Local/Tests.antt =====
-- The local page tables at concrete inputs.
use imee.Base.{some, ◌/◌, ◌^◌, ◌≡◌, refl, ◌==◌, if◌then◌else◌, arith}
use imee.Ept.Samples.{linux_map}
use imee.Local.{Local, get_pte, init_local_page_tables, code_gpa, data_gpa}
use imee.Local.Samples.{host_tables, args, globals}
use imee.Local.Tables.{local_translate, local_translate-init}

local_translate-init_example :
    (g' : Local) × (init_local_page_tables linux_map host_tables args 1 2 3 globals
      ≡ some (some tt, g'))
    × (local_translate g'.words 1 2 3 0xC000_0123
        ≡ (if 0xC000_0123 / 2 ^ 12 == 0 then data_gpa else code_gpa))
unfolding get_pte
local_translate-init_example =
    local_translate-init linux_map host_tables args 1 2 3 globals 0xC000_0123 refl refl
      (omega arith) (omega arith) (omega arith) (omega arith) (omega arith) (omega arith)
      (omega arith)
