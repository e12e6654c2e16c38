-- ===== src/Setup.antt =====
-- The start of a session: kvm_imee_get_guest_context and init_global_vars of kvm/imee.c, and the
-- registers of the vCPU that runs the agent, setup_imee_vcpu_sregs.
mod Flat
mod Unchecked
mod Unusable
pub mod Block
pub mod Samples
mod Sound
pub mod Guarded
mod Tests
use imee.Base.{ℕ, ◌+◌, ◌-◌, ◌*◌, ◌/◌, ◌%◌, ◌^◌, Option, none, some, List, [], ◌∷◌, bit_and, bit_or}
use imee.Host.{Host, DirectMap}
use imee.Frames.{init_ept_frames}
use imee.Local.{HostTables, ArgBlk, Local, init_local_page_tables}
use imee.Context.{GuestVm, create_contexts}
use imee.Session.{Session}
use imee.Segments.{Segment}

-- `pid` is current->pid. The counters that are printed at the end are left out.
abbrev pub init_global_vars : ℕ → ℕ → Session → Session
init_global_vars pid vcpu s = record s {
  ts_buffer_idx1 = 0;
  ts_buffer_idx1_limit = 2 ^ 10 * 0x1000 / 8;
  imee_pid = pid;
  imee_vcpu = vcpu;
  exit_flg = 0;
}

-- What a call of kvm_imee_get_guest_context takes from its caller and from the kernel: the process
-- (its pid, its task and its page tables), the vCPU, the arguments that were copied in, the pages
-- that get_zeroed_page returns, and vm_list.
pub record Call : Type 0 where
  pub pid : ℕ
  pub task : ℕ
  pub tables : HostTables
  pub vcpu : ℕ
  pub args : ArgBlk
  pub pd : ℕ
  pub exec : ℕ
  pub data_pt : ℕ
  pub vm_list : List GuestVm

-- The local page tables that the contexts get; whether init_local_page_tables failed is not asked.
-- `none` is a store through NULL.
unfoldable pub setup_local : DirectMap → Call → Session → Local → Option Local
unfolding init_local_page_tables
setup_local k c s g =
    elim (init_local_page_tables k c.tables c.args c.pd c.exec c.data_pt
      (record g { code_hpa = s.code_hpa; data_hpa = s.data_hpa })) [
        | none ↦ none
        | some (_, g') ↦ some g'
      ]

-- The return value is 0. `none` is a fault in init_local_page_tables or in the making of a context.
unfoldable pub kvm_imee_get_guest_context :
    DirectMap → Call → Session → Local → Option (Session × Local)
unfolding setup_local init_ept_frames create_contexts
kvm_imee_get_guest_context k c s g =
    let s1 = init_global_vars c.pid c.vcpu s in
    elim (setup_local k c s g) [
      | none ↦ none
      | some g' ↦ elim (create_contexts k g' c.task c.vm_list s.contexts (init_ept_frames s.host)) [
        | none ↦ none
        | some (ctxs, h) ↦ some (
          record s1 { contexts = ctxs; host = h; code_hpa = g'.code_hpa; data_hpa = g'.data_hpa },
          g',
        )
      ]
    ]

-- struct kvm_sregs, as far as it is used.
pub record Sregs : Type 0 where
  pub cs : Segment
  pub ds : Segment
  pub es : Segment
  pub fs : Segment
  pub gs : Segment
  pub ss : Segment
  pub ldt : Segment
  pub cr0 : ℕ
  pub cr4 : ℕ
  pub efer : ℕ

-- What the calls of kvm_x86_ops leave in the vCPU.
pub record VcpuRegs : Type 0 where
  pub segments : Sregs
  pub rflags : ℕ

-- `imee_sregs->XX.… = …`, of the segment that was read; `unusable` is left as it was.
abbrev pub flat : ℕ → ℕ → ℕ → Segment → Segment
flat selector type dpl seg = record seg {
  selector = selector;
  base = 0;
  limit = 0xFFFF_FFFF;
  type = type;
  s = 1;
  dpl = dpl;
  present = 1;
  avl = 0;
  l = 0;
  db = 1;
  g = 1;
}

-- (cr0 | 0x2) & ~(0x4 | 0x8)
unfoldable pub agent_cr0 : ℕ → ℕ
agent_cr0 cr0 = bit_and (bit_or cr0 0x2) 0xFFFF_FFFF_FFFF_FFF3

-- cr4 | 0x80 | 0x600
unfoldable pub agent_cr4 : ℕ → ℕ
agent_cr4 cr4 = bit_or (bit_or cr4 0x80) 0x600

-- `guest` is what kvm_arch_vcpu_ioctl_get_sregs reads. ES gets the segment of DS.
unfoldable pub setup_imee_vcpu_sregs : Sregs → VcpuRegs
unfolding agent_cr0 agent_cr4
setup_imee_vcpu_sregs guest = record {
  segments = record guest {
    cs = flat 0x60 0xB 0 guest.cs;
    ds = flat 0x7B 0x3 3 guest.ds;
    ss = flat 0x68 0x3 0 guest.ss;
    es = flat 0x7B 0x3 3 guest.ds;
    gs = flat 0x68 0x3 0 guest.gs;
    cr0 = agent_cr0 guest.cr0;
    cr4 = agent_cr4 guest.cr4;
  };
  rflags = 0x2;
}
