-- ===== src/Agent/Serve.antt =====
-- Rounds of scan_tool_async/lib/hyp.c, from where it polls the word at 0.
use imee.Base.{
  ℕ, ◌+◌, ◌-◌, ◌*◌, ◌/◌, ◌%◌, ◌^◌, ◌<◌, ◌≤◌, ◌≡◌, refl, ap, ◌∙◌, false, ◌&&◌, some, ltb, leb, ◌==◌,
  if◌then◌else◌, arith,
}
use imee.Agent.{ebx}
use imee.Agent.Machine.{Cpu, next, exit, run, w32}
use imee.Agent.Async.{hyp_async}
use imee.Agent.Runs.{stores, stores-cr3, stores-regs, stores-mem, asked, resume, run-add}
use imee.Agent.Whole.{in_copy}
use imee.Agent.Exchange.{
  lock, fetched, fetched-lem, poll, quit, gathered, gathered-lem, gathered-xmm, stored-run,
  released, released-lem, released-mem,
}

-- After the two tests of the lock.
abbrev pub tested : Cpu → Cpu
tested s = record (fetched s) { flags = some (w32 (lock s), 2) }

tested-run :
    (s : Cpu)
    → lock s ≡ 1
    → run hyp_async 7 (record s { pc = 4 }) ≡ next (record (tested s) { pc = 11 })
tested-run s one =
    let d = w32 (lock s) in
    let e : d ≡ 1 = ap w32 one in
    run-add hyp_async 4 3 (record s { pc = 4 })
    ∙ ap (resume hyp_async 3) (fetched-lem s).0
    ∙ run-add hyp_async 1 2 (record (fetched s) { pc = 8; flags = some (d, 0) })
    ∙ ap (resume hyp_async 2) (poll d (fetched s))
    ∙ ap
        (λ x.
          run hyp_async 2
            (record (fetched s) { pc = if x == 0 then 4 else 9; flags = some (d, 0) }))
        e
    ∙ quit d (record (fetched s) { flags = some (d, 0) }) (fetched-lem s).4
    ∙ ap (λ x. next (record (fetched s) { pc = if x == 2 then 36 else 11; flags = some (d, 2) })) e

abbrev pub served : Cpu → Cpu
served s = released (stores 4 (gathered (tested s)))

pub served-run :
    (s : Cpu)
    → lock s ≡ 1
    → run hyp_async 28 (record s { pc = 4 }) ≡ next (record (served s) { pc = 4 })
served-run s one =
    run-add hyp_async 7 21 (record s { pc = 4 })
    ∙ ap (resume hyp_async 21) (tested-run s one)
    ∙ run-add hyp_async 13 8 (record (tested s) { pc = 11 })
    ∙ ap (resume hyp_async 8) (gathered-lem (tested s)).0
    ∙ run-add hyp_async 4 4 (record (gathered (tested s)) { pc = 24 })
    ∙ ap (resume hyp_async 4) (stored-run (gathered (tested s)))
    ∙ (released-lem (stores 4 (gathered (tested s)))).0

pub served-cr3 : (s : Cpu) → s.cr3 < 2 ^ 32 → (served s).cr3 ≡ s.cr3
served-cr3 s small =
    (released-lem (stores 4 (gathered (tested s)))).1
    ∙ stores-cr3 4 (gathered (tested s))
    ∙ (gathered-lem (tested s)).2
    ∙ ap w32 (fetched-lem s).2
    ∙ omega (arith, small)

served-ebx : (s : Cpu) → (served s).regs ebx ≡ s.regs ebx
served-ebx s =
    (released-lem (stores 4 (gathered (tested s)))).2
    ∙ ap (λ f. f ebx) (stores-regs 4 (gathered (tested s)))
    ∙ (gathered-lem (tested s)).3
    ∙ (fetched-lem s).3

gathered-cr3 : (s : Cpu) → s.cr3 < 2 ^ 32 → (gathered (tested s)).cr3 ≡ s.cr3
gathered-cr3 s small = (gathered-lem (tested s)).2 ∙ ap w32 (fetched-lem s).2 ∙ omega (arith, small)

gathered-mem : (s : Cpu) → (gathered (tested s)).mem ≡ s.mem
gathered-mem s = (gathered-lem (tested s)).1 ∙ (fetched-lem s).1

-- The local memory before the lock is released.
replied-mem :
    (s : Cpu) (b : ℕ)
    → s.cr3 < 2 ^ 32
    → b < 2 ^ 32
    → let g = gathered (tested s) in
      (stores 4 g).mem s.cr3 b ≡ (
        if leb 12 b && ltb b (12 + 64)
        then g.xmm ((b - 12) / 16) ((b - 12) % 16)
        else s.mem s.cr3 b)
replied-mem s b small h =
    let g = gathered (tested s) in
    let edge = (gathered-lem (tested s)).4 in
    stores-mem 4 g s.cr3 b h (omega (arith, edge))
    ∙ ap
        (λ e.
          if (s.cr3 == g.cr3) && (leb e b && ltb b (e + 64))
          then g.xmm ((b - e) / 16) ((b - e) % 16)
          else g.mem s.cr3 b)
        edge
    ∙ ap
        (λ f.
          if (s.cr3 == g.cr3) && (leb 12 b && ltb b (12 + 64))
          then g.xmm ((b - 12) / 16) ((b - 12) % 16)
          else f s.cr3 b)
        (gathered-mem s)
    ∙ ground (arith, gathered-cr3 s small)

-- The local memory after a round.
pub served-mem :
    (s : Cpu) (b : ℕ)
    → s.cr3 < 2 ^ 32
    → b < 2 ^ 32
    → let g = gathered (tested s) in
      (served s).mem s.cr3 b ≡ (
        if ltb b 4
        then 0
        else if leb 12 b && ltb b (12 + 64)
        then g.xmm ((b - 12) / 16) ((b - 12) % 16)
        else s.mem s.cr3 b)
served-mem s b small h =
    let at : (stores 4 (gathered (tested s))).cr3 ≡ s.cr3 =
      stores-cr3 4 (gathered (tested s)) ∙ gathered-cr3 s small in
    released-mem (stores 4 (gathered (tested s))) s.cr3 b h
    ∙ ap (λ c. if (s.cr3 == c) && ltb b 4 then 0 else (stores 4 (gathered (tested s))).mem s.cr3 b)
        at
    ∙ ap (λ x. if (s.cr3 == s.cr3) && ltb b 4 then 0 else x) (replied-mem s b small h)
    ∙ ground arith

-- The bytes of the reply.
pub reply_byte :
    (s : Cpu) (j : ℕ)
    → j < 64
    → (gathered (tested s)).xmm (j / 16) (j % 16) ≡ s.mem (s.regs ebx) (w32 (asked s + j))
reply_byte s j lt =
    let mem = (fetched-lem s).1 in
    let word : (c : ℕ → ℕ → ℕ) (r : ℕ) → ℕ =
      λ c r. c r 4 + c r 5 * 2 ^ 8 + c r 6 * 2 ^ 16 + c r 7 * 2 ^ 24 in
    gathered-xmm (tested s) (j / 16) (j % 16) (omega (arith, lt))
    ∙ ap (λ c. c ((fetched s).regs ebx) (w32 (word c (fetched s).cr3 + 16 * (j / 16) + j % 16))) mem
    ∙ ap (λ r. s.mem ((fetched s).regs ebx) (w32 (word s.mem r + 16 * (j / 16) + j % 16)))
        (fetched-lem s).2
    ∙ ap (λ r. s.mem r (w32 (asked s + 16 * (j / 16) + j % 16))) (fetched-lem s).3
    ∙ ap (λ i. s.mem (s.regs ebx) (w32 i)) (omega arith)

-- A request, which is 1 in the word at 0, is served in 28 instructions of hyp of the asynchronous
-- tool: it is back where it polls, under the page tables it had; the word is 0; the 64 bytes from
-- 12 on are those of the guest from the address on that the request asks for,
-- whatever length its word at 8 gives; and the rest of
-- the request, from 4 to 11, is as it was.
pub hyp_async-serves :
    (s : Cpu) (j b : ℕ)
    → s.cr3 < 2 ^ 32
    → lock s ≡ 1
    → j < 64
    → 4 ≤ b
    → b < 12
    → (t : Cpu) × (run hyp_async 28 (record s { pc = 4 }) ≡ next t)
      × (t.pc ≡ 4)
      × (t.cr3 ≡ s.cr3)
      × (t.regs ebx ≡ s.regs ebx)
      × (lock t ≡ 0)
      × (t.mem s.cr3 (12 + j) ≡ s.mem (s.regs ebx) (w32 (asked s + j)))
      × (t.mem s.cr3 b ≡ s.mem s.cr3 b)
hyp_async-serves s j b small one lt lo hi =
    let cr3 = served-cr3 s small in
    let g = gathered (tested s) in
    let late : ltb (12 + j) 4 ≡ false = ground arith in
    let zeros : (i : ℕ) → i < 4 → (served s).mem (served s).cr3 i ≡ 0 = λ i l.
      ap (λ r. (served s).mem r i) cr3
      ∙ served-mem s i small (omega (arith, l))
      ∙ ground (arith, l) in
    (
      record (served s) { pc = 4 },
      served-run s one,
      refl,
      cr3,
      served-ebx s,
      omega (
        arith,
        zeros 0 (omega arith),
        zeros 1 (omega arith),
        zeros 2 (omega arith),
        zeros 3 (omega arith),
      ),
      served-mem s (12 + j) small (omega (arith, lt))
          ∙ ap
              (λ q.
                if q
                then 0
                else if leb 12 (12 + j) && ltb (12 + j) (12 + 64)
                then g.xmm ((12 + j - 12) / 16) ((12 + j - 12) % 16)
                else s.mem s.cr3 (12 + j))
              late
          ∙ in_copy (λ i. g.xmm (i / 16) (i % 16)) 64 j (s.mem s.cr3 (12 + j)) lt
          ∙ reply_byte s j lt,
      served-mem s b small (omega (arith, hi)) ∙ ground (arith, lo, hi),
    )

-- Without a request, when the word at 0 is 0, five instructions bring it back to where it polls, with
-- memory and both page table roots as they were.
pub hyp_async-waits :
    (s : Cpu)
    → lock s ≡ 0
    → (t : Cpu) × (run hyp_async 5 (record s { pc = 4 }) ≡ next t)
      × (t.pc ≡ 4)
      × (t.mem ≡ s.mem)
      × (t.cr3 ≡ s.cr3)
      × (t.regs ebx ≡ s.regs ebx)
hyp_async-waits s none_yet =
    let d = w32 (lock s) in
    let e : d ≡ 0 = ap w32 none_yet in
    let (runs, mem, cr3, root, _) = fetched-lem s in
    (
      record (fetched s) { pc = 4; flags = some (d, 0) },
      run-add hyp_async 4 1 (record s { pc = 4 })
          ∙ ap (resume hyp_async 1) runs
          ∙ poll d (fetched s)
          ∙ ap
              (λ x. next (record (fetched s) { pc = if x == 0 then 4 else 9; flags = some (d, 0) }))
              e,
      refl,
      mem,
      cr3,
      root,
    )

leave-run : (u : Cpu) → run hyp_async 2 (record u { pc = 36 }) ≡ exit (record u { pc = 37 })
unfolding run
leave-run u = refl

-- When the word at 0 is 2, it reaches its `vmcall` within nine instructions, with memory and its
-- page table root as they were.
pub hyp_async-quits :
    (s : Cpu)
    → lock s ≡ 2
    → (t : Cpu) × (run hyp_async 9 (record s { pc = 4 }) ≡ exit t)
      × (t.mem ≡ s.mem)
      × (t.cr3 ≡ s.cr3)
hyp_async-quits s end =
    let d = w32 (lock s) in
    let e : d ≡ 2 = ap w32 end in
    (
      record (tested s) { pc = 37 },
      run-add hyp_async 4 5 (record s { pc = 4 })
          ∙ ap (resume hyp_async 5) (fetched-lem s).0
          ∙ run-add hyp_async 1 4 (record (fetched s) { pc = 8; flags = some (d, 0) })
          ∙ ap (resume hyp_async 4) (poll d (fetched s))
          ∙ ap
              (λ x.
                run hyp_async 4
                  (record (fetched s) { pc = if x == 0 then 4 else 9; flags = some (d, 0) }))
              e
          ∙ run-add hyp_async 2 2 (record (fetched s) { pc = 9; flags = some (d, 0) })
          ∙ ap (resume hyp_async 2) (
              quit d (record (fetched s) { flags = some (d, 0) }) (fetched-lem s).4
              ∙ ap
                  (λ x.
                    next
                      (record (fetched s) { pc = if x == 2 then 36 else 11; flags = some (d, 2) }))
                  e)
          ∙ leave-run (tested s),
      (fetched-lem s).1,
      (fetched-lem s).2,
    )
