-- ===== src/Session.antt =====
-- A scan, from kvm/imee.c: the globals of the module, start_guest_intercept, the interrupt handler
-- imee_write_eoi that answers it on the guest's core, and kvm_imee_stop.
pub mod Start
pub mod Untouched
pub mod Scan
pub mod Samples
mod Tests
pub mod Stop
pub mod Buffer
use imee.Base.{
  ℕ, zero, suc, ◌+◌, ◌-◌, ◌^◌, Bool, true, false, Option, none, some, List, [], ltb, leb, ◌==◌,
  ◌&&◌, if◌then◌else◌,
}
use imee.Host.{Host}
use imee.Frames.{release_ept_frames}
use imee.Ept.{IntroCtx}
use imee.Context.{get_next_ctx}

-- The globals, and what a scan sets of the vCPU that runs the agent: root_hpa, the general
-- registers by their numbers, regs_dirty and regs_avail, and TR, IDT and GDT as opaque words.
-- current_target is the address of the machine of that context, and 0 for NULL.
pub record Session : Type 0 where
  pub contexts : List IntroCtx
  pub current_target : ℕ
  pub exit_flg : ℕ
  pub go_flg : ℕ
  pub last_cr3 : ℕ
  pub last_rip : ℕ
  pub last_rsp : ℕ
  pub imee_pid : ℕ
  pub imee_vcpu : ℕ
  pub imee_up : ℕ
  pub trial_run : ℕ
  pub enable_notifier : ℕ
  pub code_hpa : ℕ
  pub data_hpa : ℕ
  pub imee_tr : ℕ
  pub imee_idt : ℕ
  pub imee_gdt : ℕ
  pub ts_buffer1 : Option (ℕ → ℕ)
  pub ts_buffer_idx1 : ℕ
  pub ts_buffer_idx1_limit : ℕ
  pub root_hpa : ℕ
  pub regs : ℕ → ℕ
  pub regs_dirty : ℕ
  pub regs_avail : ℕ
  pub tr : ℕ
  pub idt : ℕ
  pub gdt : ℕ
  pub host : Host

-- What the hardware and the guest answer to one call of start_guest_intercept: the time stamps,
-- how often exit_flg is read before the interrupt handler has run, and what the handler reads of
-- the guest; the CR0 of the guest that init_imee_vcpu reads; and of the agent's vCPU, before its CR0
-- is set, whether paging is on, whether the cached cr3 is valid, and whether the FPU is active.
pub record Answer : Type 0 where
  pub stamp1 : ℕ
  pub stamp2 : ℕ
  pub delay : ℕ
  pub guest_cr3 : ℕ
  pub guest_rsp : ℕ
  pub guest_rip : ℕ
  pub guest_tr : ℕ
  pub guest_idt : ℕ
  pub guest_gdt : ℕ
  pub guest_cr0 : ℕ
  pub was_paging : Bool
  pub cr3_available : Bool
  pub fpu_active : Bool

-- The block that appends a time stamp and its tag, for the value of ts_buffer1.
unfoldable pub stamp_in : Option (ℕ → ℕ) → ℕ → Session → Session
stamp_in none now s = s
stamp_in (some buffer) now s =
    if ltb s.ts_buffer_idx1 s.ts_buffer_idx1_limit
    then record s {
      ts_buffer1 = some (λ i.
          if i == s.ts_buffer_idx1 + 1 then 1 else if i == s.ts_buffer_idx1 then now else buffer i);
      ts_buffer_idx1 = s.ts_buffer_idx1 + 2;
    }
    else s

unfoldable pub stamp : ℕ → Session → Session
unfolding stamp_in
stamp now s = stamp_in s.ts_buffer1 now s

-- What imee_write_eoi does once its reads have not faulted.
unfoldable pub write_eoi : Answer → Session → Session
write_eoi a s =
    let s1 = record s { last_rsp = a.guest_rsp; last_rip = a.guest_rip } in
    let s2 =
      if s.last_cr3 == 0
      then record s1 { imee_tr = a.guest_tr; imee_idt = a.guest_idt; imee_gdt = a.guest_gdt }
      else s1 in
    if s.last_cr3 == a.guest_cr3
    then s2
    else record s2 { last_cr3 = a.guest_cr3; exit_flg = s.exit_flg + 1 }

-- The handler; `none` is the read of current_target->target_vcpu through NULL.
unfoldable pub imee_write_eoi : Answer → Session → Option Session
unfolding write_eoi
imee_write_eoi a s =
    if (s.last_cr3 == 0) && (s.current_target == 0) then none else some (write_eoi a s)

-- go_flg at the start of a scan
abbrev pub start_go : ℕ → ℕ
start_go go = if go == 2 then 2 else if go == 1 then 0 else if go == 3 then 2 else go

abbrev pub reset_general_regs : Session → Session
reset_general_regs s = record s {
  regs = λ r. if ltb r 8 then 0 else s.regs r;
  regs_dirty = 0xFFFF_FFFF;
  regs_avail = 0xFFFF_FFFF;
}

abbrev pub switch_intro_ctx : IntroCtx → Session → Session
switch_intro_ctx next s = record s { root_hpa = next.eptptr }

-- The wait for exit_flg to leave 1 while it is read as 1 `n` times; `j` counts. False is the
-- return of -1.
unfoldable pub wait_exit : ℕ → ℕ → Bool
wait_exit zero j = true
wait_exit (suc n) j = let rest = wait_exit n (j + 1) in if ltb 10000000 (j + 1) then false else rest

-- The end of start_guest_intercept, after the wait.
unfoldable pub finish_start : Answer → Session → Session
unfolding stamp
finish_start a s =
    stamp a.stamp2
      (record s { trial_run = 1; tr = s.imee_tr; idt = s.imee_idt; gdt = s.imee_gdt; imee_up = 1 })

-- True for the return of 0 and false for that of -1. Where the handler leaves exit_flg at 1, the
-- wait runs out. The handler does not fault here: current_target is the context that was just
-- picked.
unfoldable pub await_guest : Answer → Session → Bool × Session
unfolding wait_exit write_eoi finish_start
await_guest a s =
    let s' = write_eoi a s in
    if wait_exit a.delay 0
    then if s'.exit_flg == 1 then (false, s') else (true, finish_start a s')
    else (false, s)

unfoldable pub start_guest_intercept : Answer → Session → Bool × Session
unfolding stamp await_guest
start_guest_intercept a s =
    let s1 = record (stamp a.stamp1 s) { last_cr3 = 0; go_flg = start_go s.go_flg } in
    elim (get_next_ctx s.contexts) [
      | none ↦ (false, s1)
      | some (next, ctxs) ↦
          await_guest a
            (record (reset_general_regs
              (switch_intro_ctx next (record s1 { contexts = ctxs; current_target = next.kvm }))) {
                exit_flg = 1;
              })
    ]

abbrev pub invalid_page : ℕ
invalid_page = 2 ^ 64 - 1

-- `none` is the access behind p_bases in release_ept_frames. What is printed is left out.
unfoldable pub kvm_imee_stop : Session → Option Session
kvm_imee_stop s = elim (release_ept_frames s.host) [
  | none ↦ none
  | some h ↦ some (record s {
    current_target = 0;
    contexts = [];
    host = h;
    exit_flg = 0;
    go_flg = if s.go_flg == 2 then 3 else s.go_flg;
    imee_pid = 0;
    imee_vcpu = 0;
    root_hpa = invalid_page;
    enable_notifier = 0;
    code_hpa = 0;
    data_hpa = 0;
    last_cr3 = 0;
    ts_buffer1 = none;
    imee_up = 0;
  })
]
