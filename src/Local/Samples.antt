-- ===== src/Local/Samples.antt =====
-- A calling process and the globals of the local page tables, for tests.
use imee.Base.{◌+◌, ◌==◌, false}
use imee.Local.{HostTables, ArgBlk, Local}

-- A host that maps every address to itself, present.
abbrev pub host_tables : HostTables
host_tables = record {
  pgd = λ a. 1;
  pud = λ e a. 1;
  pmd = λ e a. 1;
  pte = λ e a. a + 1;
  is_none = λ e. e == 0;
  is_bad = λ e. false;
}

abbrev pub args : ArgBlk
args = record {
  cr3 = 0;
  num_x_page = 1;
  num_w_page = 1;
  offset = 0;
  code_host = 0x40_1000;
  data_host = 0x60_2000;
  stack = 0;
  entry = 0x40_1234;
  int_handler = 0;
  thunk = 0;
  got = 0;
  got_len = 0;
  gotplt = 0;
  gotplt_len = 0;
}

abbrev pub globals : Local
globals = record {
  code_hpa = 0x40_1000;
  data_hpa = 0x60_2000;
  code_entry = 0;
  fake_cr3_pd_hpa = 0x7000;
  fake_cr3_pt_hpa_exec = 0x8000;
  fake_cr3_pt_hpa_data = 0x9000;
  words = λ p i. 0;
}
