-- ===== src/Setup/Samples.antt =====
-- A process that sets up a session, for tests.
use imee.Base.{ℕ, ◌+◌, ◌*◌, refl, List, [], ◌∷◌, arith}
use imee.Context.{GuestVm}
use imee.Session.{Session}
use imee.Session.Samples.{session}
use imee.Ept.Samples.{linux_map, offset, empty_host}
use imee.Local.Samples.{host_tables, args}
use imee.Setup.{Call}
use imee.Setup.Block.{IsBlock}

-- A process whose pages have no entry.
abbrev pub call : Call
call = record {
  pid = 42;
  task = 77;
  tables = record host_tables { pte = λ e a. 0 };
  vcpu = 43;
  args = args;
  pd = 1;
  exec = 2;
  data_pt = 3;
  vm_list = [];
}

-- A first block, and a machine with one page of level 1 beside the caller's own.
abbrev pub block : ℕ
block = offset + 0x200_0000

abbrev pub first_session : Session
first_session = record session {
  contexts = [];
  host = record empty_host { p_base = 0; supply = block ∷ [] };
}

abbrev pub targets : List GuestVm
targets =
    record { vm = 10; owner = 77; vcpus0 = 11; active_mmu_pages = [] }
    ∷ record {
      vm = 20;
      owner = 5;
      vcpus0 = 21;
      active_mmu_pages = record { level = 1; gfn = 0; spt = λ j. j * 4096 + 0x77 } ∷ [];
    }
    ∷ []

pub block-IsBlock : IsBlock linux_map block
block-IsBlock = record {
  aligned = refl;
  below = omega arith;
  above = omega arith;
  fits = omega arith;
}
