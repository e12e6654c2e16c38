-- ===== src/Tools.antt =====
-- The asynchronous tool: the thread go of scan_tool_async/src/main.c, which puts requests into the
-- buffer, and the agent of scan_tool_async/lib/hyp.c, which polls it. Both run at once, on two
-- processors, over the one page of the buffer; a step is one access to it.
pub mod Places
pub mod Invariant
pub mod Safety
pub mod Progress
pub mod Refine
pub mod Tasks
pub mod Watch
mod Tests
use imee.Base.{
  ℕ, zero, suc, ◌+◌, ◌*◌, ◌%◌, ◌^◌, ◌<◌, ◌≤◌, ◌≡◌, ◌≢◌, ◌==◌, if◌then◌else◌, List, [], ◌++◌, ◌∷◌,
  leb, ltb, ◌&&◌, ◌-◌,
}

-- The words of the buffer: 0 is the lock, 1 the address, 2 the length, and from 3 on the reply.
abbrev pub Queue : Type 0
Queue = ℕ → ℕ

-- `queue[i] = v`
abbrev pub put_word : Queue → ℕ → ℕ → Queue
put_word q i v j = if j == i then v else q j

-- sys_call_table and the number of entries that are read
abbrev pub sys_call_table : ℕ
sys_call_table = 0xc158_6160

abbrev pub n_entries : ℕ
n_entries = 40

-- sys_call_table + i * 4
abbrev pub entry_address : ℕ → ℕ
entry_address i = (sys_call_table + i * 4) % 2 ^ 32

-- Where the thread stands in the loop, with the loop's counter.
pub data ToolPc : Type 0 where
  head : (i : ℕ) → ToolPc  -- the test of the loop
  put_zero : (i : ℕ) → ToolPc  -- before each of the four stores
  put_address : (i : ℕ) → ToolPc
  put_length : (i : ℕ) → ToolPc
  put_lock : (i : ℕ) → ToolPc
  spin : (i : ℕ) → ToolPc  -- while (queue[0])
  show : (i : ℕ) → ToolPc  -- the printf
  leave : ToolPc  -- before the last store
  done : ToolPc

-- One step of the thread.
pub data ToolMove (q : Queue) (out : List ℕ) : ToolPc → Queue → List ℕ → ToolPc → Type 0 where
  round : {i : ℕ} → i < n_entries → ToolMove q out (head i) q out (put_zero i)
  ends : {i : ℕ} → n_entries ≤ i → ToolMove q out (head i) q out leave
  zeroes : {i : ℕ} → ToolMove q out (put_zero i) (put_word q 0 0) out (put_address i)
  addresses :
      {i : ℕ} → ToolMove q out (put_address i) (put_word q 1 (entry_address i)) out (put_length i)
  sizes : {i : ℕ} → ToolMove q out (put_length i) (put_word q 2 4) out (put_lock i)
  locks : {i : ℕ} → ToolMove q out (put_lock i) (put_word q 0 1) out (spin i)
  waits : {i : ℕ} → q 0 ≢ 0 → ToolMove q out (spin i) q out (spin i)
  passes : {i : ℕ} → q 0 ≡ 0 → ToolMove q out (spin i) q out (show i)
  prints : {i : ℕ} → ToolMove q out (show i) q (out ++ (q 3 ∷ [])) (head (suc i))
  quits : ToolMove q out leave (put_word q 0 2) out done

-- Where the agent stands, with the registers that are live there: the word of the lock, the
-- length, the address, and the four xmm registers as sixteen words.
pub data AgentPc : Type 0 where
  poll : AgentPc
  tested : (v : ℕ) → AgentPc  -- after the load of the lock
  sized : AgentPc  -- after the load of the length, which is not used
  addressed : (a : ℕ) → AgentPc
  storing : (x : ℕ → ℕ) (n : ℕ) → AgentPc  -- n of the four stores are made
  exited : AgentPc

-- `movups %xmm<n>, 16 * n + 12`: four words
abbrev pub put_xmm : Queue → (ℕ → ℕ) → ℕ → Queue
put_xmm q x n j = if leb (3 + 4 * n) j && ltb j (7 + 4 * n) then x (j - 3) else q j

-- `IsWord a v` says that the guest's word at the address `a` is `v` at a time of the run: its own
-- processors go on while it is scanned.
module _ (IsWord : ℕ → ℕ → Type 0) where
  -- One step of the agent.
  pub data AgentMove (q : Queue) : AgentPc → Queue → AgentPc → Type 0 where
    loads : AgentMove q poll q (tested (q 0))
    retries : AgentMove q (tested 0) q poll
    exits : AgentMove q (tested 2) q exited
    takes : {v : ℕ} → v ≢ 0 → v ≢ 2 → AgentMove q (tested v) q sized
    fetches : AgentMove q sized q (addressed (q 1))
    reads :
        {a : ℕ} {x : ℕ → ℕ}
        → ((j : ℕ) → j < 16 → IsWord ((a + 4 * j) % 2 ^ 32) (x j))
        → AgentMove q (addressed a) q (storing x 0)
    stores :
        {x : ℕ → ℕ} {n : ℕ} → n < 4 → AgentMove q (storing x n) (put_xmm q x n) (storing x (suc n))
    releases : {x : ℕ → ℕ} {n : ℕ} → 4 ≤ n → AgentMove q (storing x n) (put_word q 0 0) poll

  pub record System : Type 0 where
    pub queue : Queue
    pub printed : List ℕ
    pub tool : ToolPc
    pub agent : AgentPc

  pub data Step (s : System) : System → Type 0 where
    by_tool :
        {q : Queue} {out : List ℕ} {p : ToolPc}
        → ToolMove s.queue s.printed s.tool q out p
        → Step s (record { queue = q; printed = out; tool = p; agent = s.agent })
    by_agent :
        {q : Queue} {p : AgentPc}
        → AgentMove s.queue s.agent q p
        → Step s (record { queue = q; printed = s.printed; tool = s.tool; agent = p })

  -- main sets the lock to 0 before it starts the thread; the other words are arbitrary.
  abbrev pub init : Queue → System
  init q = record { queue = put_word q 0 0; printed = []; tool = head 0; agent = poll }

  pub data Reach (q : Queue) : System → Type 0 where
    start : Reach q (init q)
    later : {s t : System} → Reach q s → Step s t → Reach q t
