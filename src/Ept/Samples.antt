-- ===== src/Ept/Samples.antt =====
-- Values for tests of the EPT: an empty root table and a fresh block behind it.
use imee.Base.{ℕ, ◌+◌, ◌-◌, ◌≤◌, ◌<◌, ◌≡◌, refl, ◌==◌, if◌then◌else◌, none, [], arith}
use imee.Host.{Host, DirectMap}
use imee.Frames.Release.{no_bases}
use imee.Ept.{IntroCtx}
use imee.Ept.Walk.{Labels, IsTree}
use imee.Ept.Correct.{IsEpt}

-- The direct map of 64-bit Linux 3.13.
abbrev pub offset : ℕ
offset = 0xFFFF_8800_0000_0000

pub linux_pos : 0 < offset
linux_pos = omega arith

pub linux_pa : (p : ℕ) → offset ≤ p → p - offset + offset ≡ p
linux_pa p h = omega arith

abbrev pub linux_map : DirectMap
linux_map = record {
  page_offset = offset;
  pa = λ p. p - offset;
  va = λ x. x + offset;
  offset_aligned = refl;
  offset_pos = linux_pos;
  pa_lem = λ p lo hi. linux_pa p lo;
  va_lem = λ x h. refl;
}

-- Memory is 0 everywhere.
abbrev pub empty_host : Host
empty_host = record {
  mem = λ p i. 0;
  supply = [];
  freed = [];
  p_bases = no_bases;
  p_base = offset + 0x200_0000;
  p_base_idx = 0;
  p_idx = 0;
}

abbrev pub root_page : ℕ
root_page = offset + 0x100_0000

abbrev pub empty_ctx : IntroCtx
empty_ctx = record {
  kvm = 1;
  target_vcpu = 2;
  task = 3;
  eptptr = 0x100_0000;
  cr3 = 0;
  visited = 0;
  leaf_page = [];
  non_leaf_page = [];
  code_ept_pte_p = none;
  code_ept_pte = 0;
  data_ept_pte_p = none;
  data_ept_pte = 0;
}

abbrev pub root_labels : Labels
root_labels = record { height = λ p. if p == root_page then 4 else 0; region = λ p. 0 }

empty-IsTree : IsTree linux_map root_labels empty_host.mem
empty-IsTree = record { nonnull = λ p h. ground arith; lower = λ p i h hi ne. absurd (ne refl) }

pub empty-IsEpt : (m : ℕ) → m < 1024 → IsEpt linux_map root_labels m empty_ctx empty_host
empty-IsEpt m h = record {
  tree = empty-IsTree;
  room = record {
    aligned = refl;
    below = omega arith;
    above = omega arith;
    fits = omega arith;
    left = omega arith;
    unused = λ j lo hi. ground arith;
  };
  root = refl;
  whole = refl;
}
