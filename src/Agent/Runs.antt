-- ===== src/Agent/Runs.antt =====
-- Lemmas that the runs of the agents share: a run in parts, and stores of 16 bytes in a row.
use imee.Base.{
  ℕ, zero, suc, ◌+◌, ◌-◌, ◌*◌, ◌/◌, ◌%◌, ◌^◌, ◌<◌, ◌≤◌, ◌≡◌, refl, ◌∙◌, ap, ◌&&◌, ltb, leb, ◌==◌,
  if◌then◌else◌, arith,
}
use imee.Agent.{edi, Program}
use imee.Agent.Machine.{Cpu, Outcome, next, exit, stuck, run, step, w32, store_bytes}

-- The rest of a run.
abbrev pub resume : Program → ℕ → Outcome → Outcome
resume prog n (next t) = run prog n t
resume prog n (exit t) = exit t
resume prog n (stuck t) = stuck t

pub run-add :
    (prog : Program) (a b : ℕ) (s : Cpu) → run prog (a + b) s ≡ resume prog b (run prog a s)
unfolding run
run-add prog zero b s = let e : 0 + b ≡ b = omega arith in ap (λ i. run prog i s) e
run-add prog (suc a) b s =
    let e : suc a + b ≡ suc (a + b) = omega arith in
    ap (λ i. run prog i s) e ∙ go (step prog s) (run-add prog a b)
  where
    go :
        (o : Outcome)
        → ((t : Cpu) → run prog (a + b) t ≡ resume prog b (run prog a t))
        → elim o [ next t ↦ run prog (a + b) t | exit t ↦ exit t | stuck t ↦ stuck t ]
          ≡ resume prog b (elim o [ next t ↦ run prog a t | exit t ↦ exit t | stuck t ↦ stuck t ])
    go (next t) rest = rest t
    go (exit t) rest = refl
    go (stuck t) rest = refl

-- The first `k` stores of 16 bytes from edi on.
unfoldable pub stores : ℕ → Cpu → Cpu
stores zero t = t
stores (suc k) t = store_bytes (w32 (16 * k + t.regs edi)) 16 (t.xmm k) (stores k t)

pub stores-regs : (k : ℕ) (t : Cpu) → (stores k t).regs ≡ t.regs
unfolding stores store_bytes
stores-regs zero t = refl
stores-regs (suc k) t = stores-regs k t

pub stores-cr3 : (k : ℕ) (t : Cpu) → (stores k t).cr3 ≡ t.cr3
unfolding stores store_bytes
stores-cr3 zero t = refl
stores-cr3 (suc k) t = stores-cr3 k t

-- The offset of address `b` in the 16 bytes at `a`, where it is one of them.
in_block :
    (e k b : ℕ)
    → b < 2 ^ 32
    → e + 16 * k + 16 ≤ 2 ^ 32
    → w32 (b + 2 ^ 32 - w32 (16 * k + e))
      ≡ (if leb (e + 16 * k) b then b - (e + 16 * k) else b + 2 ^ 32 - (e + 16 * k))
in_block e k b hb h = ground arith

block_quotient :
    (e k b : ℕ)
    → e + 16 * k ≤ b
    → b < e + 16 * k + 16
    → ((b - e) / 16 ≡ k) × ((b - e) % 16 ≡ b - (e + 16 * k))
block_quotient e k b lo hi = (omega (arith, lo, hi), omega (arith, lo, hi))

pub stores-mem :
    (k : ℕ) (t : Cpu) (r b : ℕ)
    → b < 2 ^ 32
    → t.regs edi + 16 * k < 2 ^ 32
    → (stores k t).mem r b ≡ (
        if (r == t.cr3) && (leb (t.regs edi) b && ltb b (t.regs edi + 16 * k))
        then t.xmm ((b - t.regs edi) / 16) ((b - t.regs edi) % 16)
        else t.mem r b)
unfolding stores store_bytes
stores-mem zero t r b hb h = ground arith
stores-mem (suc k) t r b hb h = ground (
  arith,
  stores-mem k t r b hb (omega (arith, h)),
  stores-cr3 k t,
  in_block (t.regs edi) k b hb (omega (arith, h)),
  block_quotient (t.regs edi) k b,
)

-- The address that a request in the local memory asks for.
abbrev pub asked : Cpu → ℕ
asked s = s.mem s.cr3 4 + s.mem s.cr3 5 * 2 ^ 8 + s.mem s.cr3 6 * 2 ^ 16 + s.mem s.cr3 7 * 2 ^ 24
