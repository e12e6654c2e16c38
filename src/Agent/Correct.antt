-- ===== src/Agent/Correct.antt =====
-- What holds of the agents of scan_tool_sync/lib and scan_tool_async/lib.
use imee.Base.{
  ◌^◌, ℕ, zero, suc, ◌<◌, ◌≡◌, ◌≢◌, refl, Bool, true, false, ◌&&◌, some, List, [], ◌∷◌, get_elem?,
  Bool-cases, arith,
}
use imee.Agent.{Program}
use imee.Agent.Machine.{Cpu, Outcome, next, exit, stuck, run, last, target}
use imee.Agent.Check.{check}
use imee.Agent.Sound.{check-keeps_others}
use imee.Agent.Blocks.{hyp, syscalldmp, read_4_bytes, read_64_bytes, do_nothing}
use imee.Agent.Reads.{read_128_bytes, read_512_bytes, read_1024_bytes}
use imee.Agent.Lists.{unified_agent, pslist, pidlist, cred_list}
use imee.Agent.NoSse.{block_no_sse, movsd_no_sse, pslist_no_sse, pidlist_no_sse, do_nothing_no_sse}
use imee.Agent.Async.{hyp_async, read_64_bytes_async}

-- Every agent but no_sse/switching_cr3.c.
abbrev pub agents : List Program
agents =
    hyp ∷ unified_agent ∷ pslist ∷ pidlist ∷ cred_list ∷ syscalldmp ∷ read_4_bytes ∷ read_64_bytes
    ∷ read_128_bytes ∷ read_512_bytes ∷ read_1024_bytes ∷ do_nothing ∷ block_no_sse ∷ movsd_no_sse
    ∷ pslist_no_sse ∷ pidlist_no_sse ∷ do_nothing_no_sse ∷ hyp_async ∷ read_64_bytes_async ∷ []

-- The agents that copy a block of fixed size.
abbrev pub block_agents : List Program
block_agents =
    hyp ∷ syscalldmp ∷ read_4_bytes ∷ read_64_bytes ∷ read_128_bytes ∷ read_512_bytes
    ∷ read_1024_bytes ∷ do_nothing ∷ []

abbrev pub all : (Program → Bool) → List Program → Bool
all f [] = true
all f (p ∷ ps) = f p && all f ps

all-at :
    (f : Program → Bool) (ps : List Program) (i : ℕ) (p : Program)
    → all f ps ≡ true
    → get_elem? ps i ≡ some p
    → f p ≡ true
all-at f [] i p ok here = ground (arith, here)
all-at f (q ∷ ps) zero p ok here = ground (arith, ok, here, Bool-cases (f q))
all-at f (q ∷ ps) (suc i) p ok here = ground (arith, ok, Bool-cases (f q), all-at f ps i p)

agents-check : all check agents ≡ true
unfolding check
agents-check = refl

-- Each of the agents, started at its first instruction under the page table root `root`, leaves
-- every byte under every other root, so every byte of the guest's memory under its page tables,
-- as it was, after any number of steps and from any contents of registers and memory.
pub agents-keep_guest :
    (i n : ℕ) (prog : Program) (s : Cpu) (root r a : ℕ)
    → get_elem? agents i ≡ some prog
    → root < 2 ^ 32
    → s.pc ≡ 0
    → s.cr3 ≡ root
    → r ≢ root
    → (last (run prog n s)).mem r a ≡ s.mem r a
agents-keep_guest i n prog s root r a here small start local other =
    check-keeps_others prog n s root r a (all-at check agents i prog agents-check here) small start
      local other

abbrev pub is_exit : Outcome → Bool
is_exit (exit _) = true
is_exit (next _) = false
is_exit (stuck _) = false

pub exits : Cpu → Program → Bool
exits s prog = is_exit (run prog 500 (record s { pc = 0 }))

block_agents-all_exit : (s : Cpu) → all (exits s) block_agents ≡ true
unfolding run target exits
block_agents-all_exit s = refl

-- Each of the agents that copy a block of fixed size, started at its first instruction, reaches
-- its `vmcall` within 500 steps, from any contents of registers and memory.
pub block_agents-exit :
    (i : ℕ) (prog : Program) (s : Cpu)
    → get_elem? block_agents i ≡ some prog
    → is_exit (run prog 500 (record s { pc = 0 })) ≡ true
unfolding exits
block_agents-exit i prog s here =
    all-at (exits s) block_agents i prog (block_agents-all_exit s) here
