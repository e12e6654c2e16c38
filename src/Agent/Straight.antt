-- ===== src/Agent/Straight.antt =====
-- The agents of scan_tool_sync/lib that copy without a loop.
use imee.Base.{
  ℕ, ◌+◌, ◌-◌, ◌*◌, ◌/◌, ◌%◌, ◌^◌, zero, suc, [], ◌∷◌, ◌<◌, ◌≤◌, ◌≡◌, ◌≢◌, refl, ◌∙◌, ap, ◌&&◌, ltb,
  leb, ◌==◌, if◌then◌else◌, arith,
}
use imee.Agent.{eax, ebx, edx, esi, edi, reg, imm, at, movl, rdtsc, Program}
use imee.Agent.Machine.{Cpu, next, exit, run, w32, last}
use imee.Agent.Blocks.{read_4_bytes, read_64_bytes}
use imee.Agent.Runs.{stores, stores-mem, asked, resume, run-add}
use imee.Agent.Copy.{asked-same}
use imee.Agent.Whole.{Copies, Closes, at_pc, in_copy}

-- A state before the first of `c` stores, which start at `p` after `p` steps.
record Ready (prog : Program) (p c : ℕ) (s t : Cpu) : Type 0 where
  runs : run prog p (record s { pc = 0 }) ≡ next (record t { pc = p })
  at_local : t.cr3 ≡ s.cr3
  start : t.regs edi ≡ 12
  low : (b : ℕ) → b < 12 → t.mem s.cr3 b ≡ s.mem s.cr3 b
  loaded : (k i : ℕ) → k < c → t.xmm k i ≡ s.mem (s.regs ebx) (w32 (asked s + 16 * k + i))

module _ (prog : Program) (p c : ℕ) (few : c ≤ 8) (short : p ≤ 32)
    (stored : (t : Cpu)
      → run prog c (record t { pc = p }) ≡ next (record (stores c t) { pc = p + c }))
    (closes : Closes prog (p + c)) where
  straight-run :
      (s t u : Cpu)
      → s.pc ≡ 0
      → Ready prog p c s t
      → run prog 7 (record (stores c t) { pc = p + c }) ≡ exit u
      → run prog 500 s ≡ exit u
  straight-run s t u start ready stops =
      let r = 500 - (p + c + 7) in
      let count : 500 ≡ p + (c + (7 + r)) = omega (arith, few, short) in
      ap (run prog 500) (at_pc s 0 start)
      ∙ ap (λ i. run prog i (record s { pc = 0 })) count
      ∙ run-add prog p (c + (7 + r)) (record s { pc = 0 })
      ∙ ap (resume prog (c + (7 + r))) ready.runs
      ∙ run-add prog c (7 + r) (record t { pc = p })
      ∙ ap (resume prog (7 + r)) (stored t)
      ∙ run-add prog 7 r (record (stores c t) { pc = p + c })
      ∙ ap (resume prog r) stops

  -- Memory after the stores.
  stored-mem :
      (s t : Cpu) (b : ℕ)
      → Ready prog p c s t
      → b < 2 ^ 32
      → (stores c t).mem s.cr3 b ≡ (
          if leb 12 b && ltb b (12 + 16 * c)
          then t.xmm ((b - 12) / 16) ((b - 12) % 16)
          else t.mem s.cr3 b)
  stored-mem s t b ready hb =
      stores-mem c t s.cr3 b hb (omega (arith, ready.start, few))
      ∙ ap
          (λ e.
            if (s.cr3 == t.cr3) && (leb e b && ltb b (e + 16 * c))
            then t.xmm ((b - e) / 16) ((b - e) % 16)
            else t.mem s.cr3 b)
          ready.start
      ∙ ground (arith, ready.at_local)

  straight-Copies : (s t : Cpu) → s.pc ≡ 0 → Ready prog p c s t → Copies prog (16 * c) s
  straight-Copies s t start ready =
      let (u, stops, kept) = closes (stores c t) in
      let byte : (j : ℕ)
          → j < 16 * c
          → t.xmm (j / 16) (j % 16) ≡ s.mem (s.regs ebx) (w32 (asked s + j)) =
        λ j lt.
          ready.loaded (j / 16) (j % 16) (omega (arith, lt))
          ∙ ap (λ i. s.mem (s.regs ebx) (w32 i)) (omega arith) in
      (
        u,
        straight-run s t u start ready stops,
        (λ j lt.
            kept s.cr3 (12 + j) (omega (arith, few, lt))
            ∙ stored-mem s t (12 + j) ready (omega (arith, few, lt))
            ∙ in_copy (λ i. t.xmm (i / 16) (i % 16)) (16 * c) j (t.mem s.cr3 (12 + j)) lt
            ∙ byte j lt),
        λ b lt.
            kept s.cr3 b (omega (arith, lt))
            ∙ stored-mem s t b ready (omega (arith, lt))
            ∙ ground (arith, lt, ready.low b lt),
      )

-- The first six instructions store a time stamp at 0xFF0.
abbrev begin : Program → Program
begin rest =
    rdtsc
    ∷ movl (imm 0xFF0) (reg esi)
    ∷ movl (reg eax) (at 0 esi)
    ∷ movl (reg edx) (at 4 esi)
    ∷ movl (imm 0x0) (reg edx)
    ∷ movl (at 8 edx) (reg eax)
    ∷ rest

module _ (rest : Program) where
  abbrev begun : Cpu → Cpu
  begun s = last (run (begin rest) 6 (record s { pc = 0 }))

  begun-run :
      (s : Cpu) → run (begin rest) 6 (record s { pc = 0 }) ≡ next (record (begun s) { pc = 6 })
  unfolding run
  begun-run s = refl

  begun-same : (s : Cpu) → ((begun s).cr3 ≡ s.cr3) × ((begun s).regs ebx ≡ s.regs ebx)
  unfolding run
  begun-same s = (refl, refl)

  begun-low : (s : Cpu) (r b : ℕ) → b < 12 → (begun s).mem r b ≡ s.mem r b
  unfolding run
  begun-low s r b h = ground (arith, h)

  begun-guest : (s : Cpu) (r b : ℕ) → r ≢ s.cr3 → (begun s).mem r b ≡ s.mem r b
  unfolding run
  begun-guest s r b h = ground (arith, h)

  -- From what ten or more further instructions do, from any state.
  begun-Ready :
      (p c : ℕ) (s t : Cpu)
      → s.cr3 < 2 ^ 32
      → s.regs ebx ≢ s.cr3
      → run (begin rest) p (record (begun s) { pc = 6 }) ≡ next (record t { pc = 6 + p })
      → t.cr3 ≡ w32 (begun s).cr3
      → t.regs edi ≡ 12
      → t.mem ≡ (begun s).mem
      → ((k i : ℕ)
          → k < c
          → t.xmm k i ≡ (begun s).mem ((begun s).regs ebx) (w32 (asked (begun s) + 16 * k + i)))
      → Ready (begin rest) (6 + p) c s t
  begun-Ready p c s t small apart runs cr3 start mem loaded = record {
    runs =
        run-add (begin rest) 6 p (record s { pc = 0 })
        ∙ ap (resume (begin rest) p) (begun-run s)
        ∙ runs;
    at_local = cr3 ∙ ap w32 (begun-same s).0 ∙ omega (arith, small);
    start = start;
    low = λ b lt. ap (λ f. f s.cr3 b) mem ∙ begun-low s s.cr3 b lt;
    loaded = λ k i lt.
        let same =
          asked-same s.cr3 s (begun s) refl (begun-same s).0 (λ b lt. begun-low s s.cr3 b lt) in
        loaded k i lt
        ∙ ap (λ r. (begun s).mem r (w32 (asked (begun s) + 16 * k + i))) (begun-same s).1
        ∙ begun-guest s (s.regs ebx) (w32 (asked (begun s) + 16 * k + i)) apart
        ∙ ap (λ a. s.mem (s.regs ebx) (w32 (a + 16 * k + i))) same;
  }

-- What follows the first six instructions.
abbrev following : Program → Program
following [] = []
following (x ∷ y ∷ z ∷ u ∷ v ∷ w ∷ rest) = rest
following (x ∷ xs) = []

pub offset_wraps : (a c i : ℕ) → w32 (w32 (c + w32 a) + i) ≡ w32 (a + c + i)
offset_wraps a c i = omega arith

-- The ten instructions that load 16 bytes.
abbrev loaded_4 : Cpu → Cpu
loaded_4 s = last (run read_4_bytes 10 (record s { pc = 6 }))

loaded_4-xmm :
    (s : Cpu) (k i : ℕ)
    → k < 1
    → (loaded_4 s).xmm k i ≡ s.mem (s.regs ebx) (w32 (asked s + 16 * k + i))
unfolding run
loaded_4-xmm s zero i lt = ap (s.mem (s.regs ebx)) (offset_wraps (asked s) 0 i)
loaded_4-xmm s (suc k) i lt = absurd (omega (arith, lt))

abbrev begun_4 : Cpu → Cpu
begun_4 s = begun (following read_4_bytes) s

stored_4 :
    (t : Cpu) → run read_4_bytes 1 (record t { pc = 16 }) ≡ next (record (stores 1 t) { pc = 17 })
unfolding run stores
stored_4 t = refl

Closes-4 : Closes read_4_bytes 17
unfolding run
Closes-4 t = (last (run read_4_bytes 7 (record t { pc = 17 })), refl, λ r b lt. ground (arith, lt))

Ready-4 :
    (s : Cpu)
    → s.cr3 < 2 ^ 32
    → s.regs ebx ≢ s.cr3
    → Ready read_4_bytes 16 1 s (loaded_4 (begun_4 s))
unfolding run
Ready-4 s small apart =
    begun-Ready (following read_4_bytes) 10 1 s (loaded_4 (begun_4 s)) small apart refl refl refl
      refl (loaded_4-xmm (begun_4 s))

pub read_4_bytes-Copies :
    (s : Cpu) → s.pc ≡ 0 → s.cr3 < 2 ^ 32 → s.regs ebx ≢ s.cr3 → Copies read_4_bytes 16 s
read_4_bytes-Copies s start small apart =
    straight-Copies read_4_bytes 16 1 (omega arith) (omega arith) stored_4 Closes-4 s
      (loaded_4 (begun_4 s)) start (Ready-4 s small apart)

-- The same for four loads.
abbrev loaded_64 : Cpu → Cpu
loaded_64 s = last (run read_64_bytes 13 (record s { pc = 6 }))

loaded_64-xmm :
    (s : Cpu) (k i : ℕ)
    → k < 4
    → (loaded_64 s).xmm k i ≡ s.mem (s.regs ebx) (w32 (asked s + 16 * k + i))
unfolding run
loaded_64-xmm s zero i lt = ap (s.mem (s.regs ebx)) (offset_wraps (asked s) 0 i)
loaded_64-xmm s (suc zero) i lt = ap (s.mem (s.regs ebx)) (offset_wraps (asked s) 16 i)
loaded_64-xmm s (suc (suc zero)) i lt = ap (s.mem (s.regs ebx)) (offset_wraps (asked s) 32 i)
loaded_64-xmm s (suc (suc (suc zero))) i lt = ap (s.mem (s.regs ebx)) (offset_wraps (asked s) 48 i)
loaded_64-xmm s (suc (suc (suc (suc k)))) i lt = absurd (omega (arith, lt))

abbrev begun_64 : Cpu → Cpu
begun_64 s = begun (following read_64_bytes) s

stored_64 :
    (t : Cpu) → run read_64_bytes 4 (record t { pc = 19 }) ≡ next (record (stores 4 t) { pc = 23 })
unfolding run stores
stored_64 t = refl

Closes-64 : Closes read_64_bytes 23
unfolding run
Closes-64 t =
    (last (run read_64_bytes 7 (record t { pc = 23 })), refl, λ r b lt. ground (arith, lt))

Ready-64 :
    (s : Cpu)
    → s.cr3 < 2 ^ 32
    → s.regs ebx ≢ s.cr3
    → Ready read_64_bytes 19 4 s (loaded_64 (begun_64 s))
unfolding run
Ready-64 s small apart =
    begun-Ready (following read_64_bytes) 13 4 s (loaded_64 (begun_64 s)) small apart refl refl refl
      refl (loaded_64-xmm (begun_64 s))

pub read_64_bytes-Copies :
    (s : Cpu) → s.pc ≡ 0 → s.cr3 < 2 ^ 32 → s.regs ebx ≢ s.cr3 → Copies read_64_bytes 64 s
read_64_bytes-Copies s start small apart =
    straight-Copies read_64_bytes 19 4 (omega arith) (omega arith) stored_64 Closes-64 s
      (loaded_64 (begun_64 s)) start (Ready-64 s small apart)
