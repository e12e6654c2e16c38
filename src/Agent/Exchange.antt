-- ===== src/Agent/Exchange.antt =====
-- The parts of a round of scan_tool_async/lib/hyp.c: the tests of the word at 0, which is 0 while
-- there is no request, 1 for a request and 2 for the end; the loads; the stores; the release.
use imee.Base.{
  ℕ, zero, suc, ◌+◌, ◌-◌, ◌*◌, ◌^◌, ◌<◌, ◌≡◌, refl, ap, ◌∙◌, Bool, true, false, ◌&&◌, some, ltb,
  ◌==◌, if◌then◌else◌, arith, bit_or, bit_and, bit_or-same, bit_and-same,
}
use imee.Agent.Straight.{offset_wraps}
use imee.Agent.{eax, ebx, edi}
use imee.Agent.Machine.{Cpu, next, run, last, w32, load32, byte_of, target}
use imee.Agent.Async.{hyp_async}
use imee.Agent.Runs.{stores, asked, resume}

-- The word at 0.
abbrev pub lock : Cpu → ℕ
lock s = load32 0 s

pub fetched : Cpu → Cpu
fetched s = last (run hyp_async 4 (record s { pc = 4 }))

pub fetched-lem :
    (s : Cpu)
    → (run hyp_async 4 (record s { pc = 4 })
        ≡ next (record (fetched s) { pc = 8; flags = some (w32 (lock s), 0) }))
      × ((fetched s).mem ≡ s.mem)
      × ((fetched s).cr3 ≡ s.cr3)
      × ((fetched s).regs ebx ≡ s.regs ebx)
      × ((fetched s).regs eax ≡ w32 (lock s))
unfolding fetched run
fetched-lem s = (refl, refl, refl, refl, refl)

-- A jump that is taken exactly if `b` holds, as the last step.
taken :
    (b : Bool) (p q : ℕ) (u : Cpu)
    → resume hyp_async 0 (if b then next (record u { pc = p }) else next (record u { pc = q }))
      ≡ next (record u { pc = if b then p else q })
unfolding run
taken true p q u = refl
taken false p q u = refl

pub poll :
    (d : ℕ) (u : Cpu)
    → run hyp_async 1 (record u { pc = 8; flags = some (d, 0) })
      ≡ next (record u { pc = if d == 0 then 4 else 9; flags = some (d, 0) })
unfolding run target
poll d u = taken (d == 0) 4 9 (record u { flags = some (d, 0) })

pub quit :
    (d : ℕ) (u : Cpu)
    → u.regs eax ≡ d
    → run hyp_async 2 (record u { pc = 9 })
      ≡ next (record u { pc = if d == 2 then 36 else 11; flags = some (d, 2) })
unfolding run target
quit d u e =
    taken (u.regs eax == 2) 36 11 (record u { flags = some (u.regs eax, 2) })
    ∙ ap (λ x. next (record u { pc = if x == 2 then 36 else 11; flags = some (x, 2) })) e

-- The state before the stores.
pub gathered : Cpu → Cpu
gathered s = last (run hyp_async 13 (record s { pc = 11 }))

pub gathered-lem :
    (s : Cpu)
    → (run hyp_async 13 (record s { pc = 11 }) ≡ next (record (gathered s) { pc = 24 }))
      × ((gathered s).mem ≡ s.mem)
      × ((gathered s).cr3 ≡ w32 s.cr3)
      × ((gathered s).regs ebx ≡ s.regs ebx)
      × ((gathered s).regs edi ≡ 12)
unfolding gathered run
gathered-lem s = (refl, refl, refl, refl, refl)

pub gathered-xmm :
    (s : Cpu) (k i : ℕ)
    → k < 4
    → (gathered s).xmm k i ≡ s.mem (s.regs ebx) (w32 (asked s + 16 * k + i))
unfolding gathered run
gathered-xmm s zero i lt = ap (s.mem (s.regs ebx)) (offset_wraps (asked s) 0 i)
gathered-xmm s (suc zero) i lt = ap (s.mem (s.regs ebx)) (offset_wraps (asked s) 16 i)
gathered-xmm s (suc (suc zero)) i lt = ap (s.mem (s.regs ebx)) (offset_wraps (asked s) 32 i)
gathered-xmm s (suc (suc (suc zero))) i lt = ap (s.mem (s.regs ebx)) (offset_wraps (asked s) 48 i)
gathered-xmm s (suc (suc (suc (suc k)))) i lt = absurd (omega (arith, lt))

pub stored-run :
    (t : Cpu) → run hyp_async 4 (record t { pc = 24 }) ≡ next (record (stores 4 t) { pc = 28 })
unfolding run stores
stored-run t = refl

-- The state after the lock is released.
pub released : Cpu → Cpu
released u = last (run hyp_async 4 (record u { pc = 28 }))

zero_byte : (i : ℕ) → byte_of 0 i ≡ 0
zero_byte i = ground arith

xor_same : (x i : ℕ) → byte_of (w32 (bit_or x x - bit_and x x)) i ≡ 0
xor_same x i =
    let e : bit_or x x - bit_and x x ≡ 0 = omega (arith, bit_or-same x, bit_and-same x) in
    ap (λ y. byte_of (w32 y) i) e ∙ zero_byte i

pub released-lem :
    (u : Cpu)
    → (run hyp_async 4 (record u { pc = 28 }) ≡ next (record (released u) { pc = 4 }))
      × ((released u).cr3 ≡ u.cr3)
      × ((released u).regs ebx ≡ u.regs ebx)
unfolding released run target
released-lem u = (refl, refl, refl)

pub released-mem :
    (u : Cpu) (r b : ℕ)
    → b < 2 ^ 32
    → (released u).mem r b ≡ (if (r == u.cr3) && ltb b 4 then 0 else u.mem r b)
unfolding released run target
released-mem u r b h =
    let i = w32 (b + 2 ^ 32) in
    let low : ltb i 4 ≡ ltb b 4 = ground (arith, h) in ground (arith, h, xor_same (u.regs eax) i)
