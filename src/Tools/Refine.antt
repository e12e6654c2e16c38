-- ===== src/Tools/Refine.antt =====
-- The agent's part of the protocol is what the instructions of scan_tool_async/lib/hyp.c do.
use imee.Base.{
  subst, ℕ, ◌+◌, ◌*◌, ◌-◌, ◌^◌, ◌<◌, ◌≡◌, refl, sym, ap, ◌∙◌, fun_ext, ◌==◌, ◌&&◌, if◌then◌else◌,
  ltb, leb, arith, Bool-cases, inl, inr,
}
use imee.Agent.{ebx}
use imee.Agent.Machine.{Cpu, next, exit, run, w32, load32}
use imee.Agent.Async.{hyp_async}
use imee.Agent.Runs.{asked}
use imee.Agent.Exchange.{lock}
use imee.Agent.Serve.{
  served, served-cr3, served-run, served-mem, reply_byte, hyp_async-waits, hyp_async-quits,
}
use imee.Tools.{
  Queue, put_word, put_xmm, AgentPc, poll, tested, exited, AgentMove, loads, retries, exits, takes,
  fetches, reads, stores, releases,
}

-- The four bytes from an address on, as a word.
abbrev pub word_at : (ℕ → ℕ) → ℕ → ℕ
word_at m a =
    m (w32 (a + 0)) + m (w32 (a + 1)) * 2 ^ 8 + m (w32 (a + 2)) * 2 ^ 16 + m (w32 (a + 3)) * 2 ^ 24

-- The words of the buffer, which is the page at 0 of the agent.
abbrev pub queue_of : Cpu → Queue
queue_of s j = if ltb j 1024 then load32 (4 * j) s else 0

-- The word of the guest.
abbrev pub IsGuestWord : Cpu → ℕ → ℕ → Type 0
IsGuestWord s a v = v ≡ word_at (s.mem (s.regs ebx)) a

-- Steps of the agent alone.
pub data AgentMoves (IsWord : ℕ → ℕ → Type 0) : Queue → AgentPc → Queue → AgentPc → Type 0 where
  stop : {q : Queue} {p : AgentPc} → AgentMoves IsWord q p q p
  onward :
      {q q' q'' : Queue} {p p' p'' : AgentPc}
      → AgentMove IsWord q p q' p'
      → AgentMoves IsWord q' p' q'' p''
      → AgentMoves IsWord q p q'' p''

-- A byte of the buffer after a round.
served-byte :
    (s : Cpu) (b : ℕ)
    → s.cr3 < 2 ^ 32
    → b < 4096
    → (served s).mem (served s).cr3 b ≡ (
        if ltb b 4
        then 0
        else if leb 12 b && ltb b 76
        then s.mem (s.regs ebx) (w32 (asked s + (b - 12)))
        else s.mem s.cr3 b)
served-byte s b small lt =
    ap (λ r. (served s).mem r b) (served-cr3 s small)
    ∙ served-mem s b small (omega (arith, lt))
    ∙ ground (arith, reply_byte s (b - 12))

-- The sixteen words that the agent stores.
abbrev reply : Cpu → ℕ → ℕ
reply s j = word_at (s.mem (s.regs ebx)) (w32 (asked s + 4 * j))

abbrev stored : Cpu → Queue
stored s =
    let x = reply s in
    put_word (put_xmm (put_xmm (put_xmm (put_xmm (queue_of s) x 0) x 1) x 2) x 3) 0 0

stored-lem :
    (s : Cpu) (j : ℕ)
    → stored s j
      ≡ (if j == 0 then 0 else if leb 3 j && ltb j 19 then reply s (j - 3) else queue_of s j)
stored-lem s j = ground arith

served-word :
    (s : Cpu) (j : ℕ)
    → s.cr3 < 2 ^ 32
    → j < 1024
    → load32 (4 * j) (served s)
      ≡ (if j == 0 then 0 else if leb 3 j && ltb j 19 then reply s (j - 3) else load32 (4 * j) s)
served-word s j small lt =
    let byte : (i : ℕ)
        → i < 4
        → (served s).mem (served s).cr3 (w32 (4 * j + i)) ≡ (
            if j == 0
            then 0
            else if leb 3 j && ltb j 19
            then s.mem (s.regs ebx) (w32 (w32 (asked s + 4 * (j - 3)) + i))
            else s.mem s.cr3 (w32 (4 * j + i))) =
      λ i h. served-byte s (w32 (4 * j + i)) small (omega (arith, lt, h)) ∙ ground (arith, lt, h) in
    ground (arith, byte 0, byte 1, byte 2, byte 3)

served-queue : (s : Cpu) → s.cr3 < 2 ^ 32 → queue_of (served s) ≡ stored s
served-queue s small = fun_ext (λ j. elim (Bool-cases (ltb j 1024)) [
  | inl e ↦ ground (arith, e, stored-lem s j, served-word s j small)
  | inr e ↦ ground (arith, e, stored-lem s j)
])

-- The agent's part in a request, an access at a time.
serves-moves : (s : Cpu) → lock s ≡ 1 → AgentMoves (IsGuestWord s) (queue_of s) poll (stored s) poll
serves-moves s one = onward loads (
    onward (takes (λ e. omega (arith, one, e)) (λ e. omega (arith, one, e))) (
      onward fetches (
        onward (reads {x = reply s} (λ j lt. refl)) (
          onward (stores (omega arith)) (
            onward (stores (omega arith)) (
              onward (stores (omega arith))
                (onward (stores (omega arith)) (onward (releases (omega arith)) stop))))))))

-- A round of 28 instructions of the asynchronous hyp, from where it finds the word 1 at 0 and back to
-- where it polls, is a run of the agent's part of the protocol, over the words of the buffer and of
-- the guest's memory; and it ends with the lock 0.
pub hyp_async-refines :
    (s : Cpu)
    → s.cr3 < 2 ^ 32
    → lock s ≡ 1
    → (t : Cpu) × (run hyp_async 28 (record s { pc = 4 }) ≡ next t)
      × (t.pc ≡ 4)
      × AgentMoves (IsGuestWord s) (queue_of s) poll (queue_of t) poll
      × (queue_of t 0 ≡ 0)
hyp_async-refines s small one =
    let same = served-queue s small in
    (
      record (served s) { pc = 4 },
      served-run s one,
      refl,
      subst (λ q. AgentMoves (IsGuestWord s) (queue_of s) poll q poll) (sym same)
          (serves-moves s one),
      ap (λ q. q 0) same,
    )

same-queue : (s t : Cpu) → t.mem ≡ s.mem → t.cr3 ≡ s.cr3 → queue_of t ≡ queue_of s
same-queue s t mem cr3 =
    ap (λ m. queue_of (record t { mem = m })) mem
    ∙ ap (λ r. queue_of (record t { mem = s.mem; cr3 = r })) cr3

-- Where it finds the word 0, five instructions are a run of the agent's part that retries.
hyp_async-refines_wait :
    (s : Cpu)
    → lock s ≡ 0
    → (t : Cpu) × (run hyp_async 5 (record s { pc = 4 }) ≡ next t)
      × (t.pc ≡ 4)
      × AgentMoves (IsGuestWord s) (queue_of s) poll (queue_of t) poll
hyp_async-refines_wait s none_yet =
    let (t, runs, pc, mem, cr3, _) = hyp_async-waits s none_yet in
    let q = queue_of s in
    (
      t,
      runs,
      pc,
      subst (λ r. AgentMoves (IsGuestWord s) q poll r poll) (sym (same-queue s t mem cr3))
          (onward loads (
            subst (λ v. AgentMoves (IsGuestWord s) q (tested v) q poll) (sym none_yet)
              (onward retries stop))),
    )

-- Where it finds the word 2, nine instructions are a run of the agent's part that leaves.
hyp_async-refines_quit :
    (s : Cpu)
    → lock s ≡ 2
    → (t : Cpu) × (run hyp_async 9 (record s { pc = 4 }) ≡ exit t)
      × AgentMoves (IsGuestWord s) (queue_of s) poll (queue_of t) exited
hyp_async-refines_quit s end =
    let (t, runs, mem, cr3) = hyp_async-quits s end in
    let q = queue_of s in
    (
      t,
      runs,
      subst (λ r. AgentMoves (IsGuestWord s) q poll r exited) (sym (same-queue s t mem cr3))
          (onward loads (
            subst (λ v. AgentMoves (IsGuestWord s) q (tested v) q exited) (sym end)
              (onward exits stop))),
    )
