-- ===== src/Agent/Whole.antt =====
-- Whole runs of the agents of scan_tool_sync/lib that copy in rounds of 128 bytes.
use imee.Base.{
  ℕ, zero, suc, ◌+◌, ◌-◌, ◌*◌, ◌^◌, ◌<◌, ◌≤◌, ◌≡◌, ◌≢◌, refl, subst, ◌∙◌, ap, ◌&&◌, [], ◌∷◌, ltb,
  leb, if◌then◌else◌, arith,
}
use imee.Agent.{eax, edx, esi, ebx, ebp, Program, label, vmcall, rdtsc, movl, imm, reg, at}
use imee.Agent.Machine.{Cpu, next, exit, run, w32, signed_ltb, set_reg, last}
use imee.Agent.Runs.{asked, resume, run-add}
use imee.Agent.Rounds.{rounds, round, round-run}
use imee.Agent.Copy.{Copied, asked-same, round-Copied}

pub at_pc : (s : Cpu) (p : ℕ) → s.pc ≡ p → s ≡ record s { pc = p }
at_pc s p e = ap (λ q. record s { pc = q }) e

-- A run of an agent from `s` ends with the `bytes` bytes asked for in the page, from 12 on, and the
-- request before them as it was.
abbrev pub Copies : Program → ℕ → Cpu → Type 0
Copies prog bytes s =
    (u : Cpu) × (run prog 500 s ≡ exit u)
    × ((j : ℕ) → j < bytes → u.mem s.cr3 (12 + j) ≡ s.mem (s.regs ebx) (w32 (asked s + j)))
    × ((b : ℕ) → b < 12 → u.mem s.cr3 b ≡ s.mem s.cr3 b)

-- From the instruction `p` on, a program reaches the exit within 7 steps, and stores time stamps at
-- 0xFE0 at most.
abbrev pub Closes : Program → ℕ → Type 0
Closes prog p =
    (t : Cpu)
    → (u : Cpu) × (run prog 7 (record t { pc = p }) ≡ exit u)
      × ((r b : ℕ) → b < 0xFE0 → u.mem r b ≡ t.mem r b)

-- The compare with `n` ends the loop after `c` rounds.
abbrev pub Counts : ℕ → ℕ → Type 0
Counts n c = (j : ℕ) → j ≤ c → 0 < j → signed_ltb j (w32 n) ≡ ltb j c

pub in_copy :
    (f : ℕ → ℕ) (size j y : ℕ)
    → j < size
    → (if leb 12 (12 + j) && ltb (12 + j) (12 + size) then f (12 + j - 12) else y) ≡ f j
in_copy f size j y lt = let off : 12 + j - 12 ≡ j = omega arith in ground (arith, lt) ∙ ap f off

before_copy :
    (a c b : ℕ) (m : ℕ → ℕ → ℕ) (guest local : ℕ)
    → b < 12
    → (if leb 12 b && ltb b (12 + 128 * c) then m guest (w32 (a + (b - 12))) else m local b)
      ≡ m local b
before_copy a c b m guest local lt = ground (arith, lt)

module _ (n : ℕ) (rest : Program) (c : ℕ) (few : c ≤ 15) (ends : Counts n c) where
  abbrev prog : Program
  prog = rounds n rest

  module _ (local guest a : ℕ) (m : ℕ → ℕ → ℕ) (small : local < 2 ^ 32)
      (apart : guest ≢ local) where
    round-pc :
        (i : ℕ) (s : Cpu)
        → i < c
        → Copied local guest a m i s
        → (round n rest s).pc ≡ (if ltb (i + 1) c then 7 else 39)
    unfolding set_reg
    round-pc i s lt before =
        let after =
          round-Copied n rest local guest a m small apart i s (omega (arith, lt, few)) before in
        ap (λ j. if signed_ltb j (w32 n) then 7 else 39) after.count
        ∙ ap (λ b. if b then 7 else 39) (ends (i + 1) (omega (arith, lt)) (omega arith))

    loop-Copied :
        (k i : ℕ) (s : Cpu)
        → i + suc k ≡ c
        → Copied local guest a m i s
        → (t : Cpu) × (run prog (32 * suc k) (record s { pc = 7 }) ≡ next (record t { pc = 39 }))
          × Copied local guest a m c t
    loop-Copied zero i s e before =
        let lt : i < c = omega (arith, e) in
        let after =
          round-Copied n rest local guest a m small apart i s (omega (arith, few, e)) before in
        let stop : (if ltb (i + 1) c then 7 else 39) ≡ 39 = ground (arith, e) in
        (
          round n rest s,
          round-run n rest s ∙ ap next (at_pc (round n rest s) 39 (round-pc i s lt before ∙ stop)),
          subst (λ j. Copied local guest a m j (round n rest s)) e after,
        )
    loop-Copied (suc k) i s e before =
        let lt : i < c = omega (arith, e) in
        let u = round n rest s in
        let after =
          round-Copied n rest local guest a m small apart i s (omega (arith, few, e)) before in
        let count : 32 * suc (suc k) ≡ 32 + 32 * suc k = omega arith in
        let left : i + 1 + suc k ≡ c = omega (arith, e) in
        let again : (if ltb (i + 1) c then 7 else 39) ≡ 7 = ground (arith, e) in
        let (t, runs, done) = loop-Copied k (i + 1) u left after in
        (
          t,
          ap (λ j. run prog j (record s { pc = 7 })) count
              ∙ run-add prog 32 (32 * suc k) (record s { pc = 7 })
              ∙ ap (resume prog (32 * suc k))
                  (round-run n rest s ∙ ap next (at_pc u 7 (round-pc i s lt before ∙ again)))
              ∙ runs,
          done,
        )

  -- The state at the start of the loop.
  abbrev started : Cpu → Cpu
  started s = last (run prog 7 (record s { pc = 0 }))

  started-run : (s : Cpu) → run prog 7 (record s { pc = 0 }) ≡ next (record (started s) { pc = 7 })
  unfolding run
  started-run s = refl

  started-same :
      (s : Cpu)
      → ((started s).cr3 ≡ s.cr3) × ((started s).regs ebx ≡ s.regs ebx) × ((started s).regs ebp ≡ 0)
  unfolding run
  started-same s = (refl, refl, refl)

  -- Only the time stamp at 0xFF0 is new.
  started-mem : (s : Cpu) (r b : ℕ) → b < 0xFF0 → (started s).mem r b ≡ s.mem r b
  unfolding run
  started-mem s r b h = ground (arith, h)

  started-guest : (s : Cpu) (r b : ℕ) → r ≢ s.cr3 → (started s).mem r b ≡ s.mem r b
  unfolding run
  started-guest s r b h = ground (arith, h)

  started-Copied : (s : Cpu) → Copied s.cr3 (s.regs ebx) (asked s) (started s).mem 0 (started s)
  started-Copied s = record {
    at_local = (started-same s).0;
    at_guest = (started-same s).1;
    count = (started-same s).2;
    request =
        asked-same s.cr3 s (started s) refl (started-same s).0
          (λ b lt. started-mem s s.cr3 b (omega (arith, lt)));
    source = λ b hb. refl;
    copied = λ b hb. ground arith;
  }

  -- The three parts of a run, one after another.
  parts-run :
      (k : ℕ) (s t u : Cpu)
      → k < 15
      → s.pc ≡ 0
      → run prog (32 * suc k) (record (started s) { pc = 7 }) ≡ next (record t { pc = 39 })
      → run prog 7 (record t { pc = 39 }) ≡ exit u
      → run prog 500 s ≡ exit u
  parts-run k s t u lt start loops stops =
      let r = 500 - (14 + 32 * suc k) in
      let count : 500 ≡ 7 + (32 * suc k + (7 + r)) = omega (arith, lt) in
      ap (run prog 500) (at_pc s 0 start)
      ∙ ap (λ i. run prog i (record s { pc = 0 })) count
      ∙ run-add prog 7 (32 * suc k + (7 + r)) (record s { pc = 0 })
      ∙ ap (resume prog (32 * suc k + (7 + r))) (started-run s)
      ∙ run-add prog (32 * suc k) (7 + r) (record (started s) { pc = 7 })
      ∙ ap (resume prog (7 + r)) loops
      ∙ run-add prog 7 r (record t { pc = 39 })
      ∙ ap (resume prog r) stops

  module _ (closes : Closes prog 39) (some_round : 0 < c) where
    pub rounds-Copies :
        (s : Cpu) → s.pc ≡ 0 → s.cr3 < 2 ^ 32 → s.regs ebx ≢ s.cr3 → Copies prog (128 * c) s
    rounds-Copies s start small apart =
        let k = c - 1 in
        let e : 0 + suc k ≡ c = omega (arith, some_round) in
        let (t, loops, done) =
          loop-Copied s.cr3 (s.regs ebx) (asked s) (started s).mem small apart k 0 (started s) e
            (started-Copied s) in
        let (u, stops, kept) = closes t in
        let source : (b : ℕ) → (started s).mem (s.regs ebx) b ≡ s.mem (s.regs ebx) b =
          λ b. started-guest s (s.regs ebx) b apart in
        let low : (b : ℕ) → b < 12 → (started s).mem s.cr3 b ≡ s.mem s.cr3 b =
          λ b lt. started-mem s s.cr3 b (omega (arith, lt)) in
        (
          u,
          parts-run k s t u (omega (arith, few, some_round)) start loops stops,
          (λ j lt.
              kept s.cr3 (12 + j) (omega (arith, few, lt))
              ∙ done.copied (12 + j) (omega (arith, few, lt))
              ∙ in_copy (λ i. (started s).mem (s.regs ebx) (w32 (asked s + i))) (128 * c) j
                  ((started s).mem s.cr3 (12 + j)) lt
              ∙ source (w32 (asked s + j))),
          λ b lt.
              kept s.cr3 b (omega (arith, lt))
              ∙ done.copied b (omega (arith, lt))
              ∙ before_copy (asked s) c b (started s).mem (s.regs ebx) s.cr3 lt
              ∙ low b lt,
        )

abbrev pub plain_end : Program
plain_end = label 2 ∷ vmcall ∷ []

-- The end of the agents that take a second time stamp.
abbrev pub stamped_end : Program
stamped_end =
    rdtsc
    ∷ movl (imm 0xFE0) (reg esi)
    ∷ movl (reg eax) (at 0 esi)
    ∷ movl (reg edx) (at 4 esi)
    ∷ label 2
    ∷ vmcall
    ∷ []

pub plain-Closes : (n : ℕ) → Closes (rounds n plain_end) 39
unfolding run
plain-Closes n t = (record t { pc = 40 }, refl, λ r b lt. refl)

pub stamped-Closes : (n : ℕ) → Closes (rounds n stamped_end) 39
unfolding run
stamped-Closes n t =
    (last (run (rounds n stamped_end) 7 (record t { pc = 39 })), refl, λ r b lt. ground (arith, lt))

pub eleven : Counts 11 11
eleven j le lt = ground (arith, le, lt)

pub one : Counts 0 1
one j le lt = ground (arith, le, lt)
