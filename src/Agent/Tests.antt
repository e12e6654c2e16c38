-- ===== src/Agent/Tests.antt =====
-- Runs of agents, and the theorems on them at concrete states.
use imee.Base.{◌≡◌, refl, true, false, ℕ, ◌+◌, none, ◌%◌, arith, if◌then◌else◌, ◌==◌}
use imee.Agent.{ebx}
use imee.Agent.Machine.{Cpu, next, run, last, w32, reg_no, target}
use imee.Agent.Check.{check}
use imee.Agent.Blocks.{hyp, read_4_bytes}
use imee.Agent.Reads.{read_512_bytes}
use imee.Agent.Lists.{unified_agent, pidlist}
use imee.Agent.NoSse.{switching_cr3_no_sse}
use imee.Agent.Runs.{asked}
use imee.Agent.Async.{hyp_async}
use imee.Agent.Exchange.{lock}
use imee.Agent.Serve.{hyp_async-serves}
use imee.Agent.Copies.{readers-copy}
use imee.Agent.Correct.{agents-keep_guest, is_exit, block_agents-exit}

abbrev local_root : ℕ
local_root = 0x2000

abbrev guest_root : ℕ
guest_root = 0x7000

-- The request asks for 16 bytes from address 0xC0; the guest's byte at `a` is `a % 251`.
abbrev request : ℕ → ℕ
request a = if a == 4 then 0xC0 else if a == 8 then 16 else 0

abbrev start_state : Cpu
start_state = record {
  pc = 0;
  regs = λ r. if reg_no r == reg_no ebx then guest_root else 0;
  xmm = λ _ _. 0;
  cr3 = local_root;
  flags = none;
  backward = true;
  clock = λ i. 1000 + i;
  ticks = 0;
  mem = λ root a. if root == local_root then request a else a % 251;
}

-- The copy: the reply starts 12 bytes into the page.
copied : (last (run read_4_bytes 40 start_state)).mem local_root (12 + 5) ≡ 0xC5
unfolding run target
copied = refl

hyp_copied : (last (run hyp 500 start_state)).mem local_root (12 + 1407) ≡ (0xC0 + 1407) % 251
unfolding run target
hyp_copied = refl

-- unified_agent.c puts the 16 bytes that were asked for 44 bytes into the page instead.
unified_agent-misplaced : (last (run unified_agent 200 start_state)).mem local_root 44 ≡ 0xC0
unfolding run target
unified_agent-misplaced = refl

-- read_512_bytes.c copies 1408 bytes.
read_512-copies_more :
    (last (run read_512_bytes 500 start_state)).mem local_root (12 + 1407) ≡ (0xC0 + 1407) % 251
unfolding run target
read_512-copies_more = refl

-- no_sse/switching_cr3.c does store under the guest's page tables.
switching_cr3-fails : check switching_cr3_no_sse ≡ false
unfolding check
switching_cr3-fails = refl

pidlist-check : check pidlist ≡ true
unfolding check
pidlist-check = refl

agents-keep_guest_example : (last (run hyp 500 start_state)).mem guest_root 0xC0 ≡ 0xC0
agents-keep_guest_example =
    agents-keep_guest 0 500 hyp start_state local_root guest_root 0xC0 refl (omega arith) refl refl
      (omega arith)

block_agents-exit_example : is_exit (run hyp 500 (record start_state { pc = 0 })) ≡ true
block_agents-exit_example = block_agents-exit 0 hyp start_state refl

-- The byte that the guest has at 0xC0 + 1000.
readers-copy_example :
    let r = run hyp 500 start_state in
    (is_exit r ≡ true)
    × ((last r).mem local_root (12 + 1000)
        ≡ start_state.mem guest_root (w32 (asked start_state + 1000)))
    × ((last r).mem local_root 4 ≡ start_state.mem local_root 4)
readers-copy_example =
    readers-copy 0 hyp 1408 start_state 1000 4 refl refl (omega arith) (omega arith) (omega arith)
      (omega arith)

-- The asynchronous agent where it polls, with the word `x` at 0.
abbrev polling : ℕ → Cpu
polling x = record start_state {
  mem = λ root a. if root == local_root then if a == 0 then x else request a else a % 251;
}

hyp_async-serves_example :
    (t : Cpu) × (run hyp_async 28 (record (polling 1) { pc = 4 }) ≡ next t)
    × (t.pc ≡ 4)
    × (t.cr3 ≡ local_root)
    × (t.regs ebx ≡ guest_root)
    × (lock t ≡ 0)
    × (t.mem local_root (12 + 60) ≡ (polling 1).mem guest_root (w32 (asked (polling 1) + 60)))
    × (t.mem local_root 8 ≡ (polling 1).mem local_root 8)
hyp_async-serves_example =
    hyp_async-serves (polling 1) 60 8 (omega arith) refl (omega arith) (omega arith) (omega arith)
