-- ===== src/Agent/Rounds.antt =====
-- The agents of scan_tool_sync/lib that copy in rounds of 128 bytes, as one program with the number
-- in the compare and what follows the loop left open.
use imee.Base.{
  ℕ, zero, suc, ◌+◌, ◌*◌, ◌<◌, ◌≤◌, ◌≡◌, refl, ◌∙◌, ap, Bool-cases, inl, inr, Option, some, [], ◌∷◌,
  if◌then◌else◌, arith,
}
use imee.Agent.{
  eax, ebx, ecx, edx, esi, edi, ebp, imm, reg, at, less, back, label, movl, from_cr3, to_cr3, addl,
  imull, incl, cmpl, jump, movups_load, movups_store, rdtsc, Program,
}
use imee.Agent.Machine.{Cpu, next, run, jump_if, last, w32, signed_ltb, set_reg, seek_back, target}
use imee.Agent.Runs.{stores, asked, resume, run-add}

abbrev pub rounds : ℕ → Program → Program
rounds n rest =
    rdtsc
    ∷ movl (imm 0xFF0) (reg esi)
    ∷ movl (reg eax) (at 0 esi)
    ∷ movl (reg edx) (at 4 esi)
    ∷ movl (imm 0x0) (reg edx)
    ∷ movl (at 8 edx) (reg eax)
    ∷ movl (imm 0) (reg ebp)
    ∷ label 3
    ∷ movl (imm 0x0) (reg edx)
    ∷ movl (at 4 edx) (reg edx)
    ∷ movl (imm 128) (reg eax)
    ∷ imull (reg ebp) eax
    ∷ addl (reg eax) edx
    ∷ from_cr3 ecx
    ∷ to_cr3 ebx
    ∷ movups_load (at 0 edx) 0
    ∷ movups_load (at 16 edx) 1
    ∷ movups_load (at 32 edx) 2
    ∷ movups_load (at 48 edx) 3
    ∷ movups_load (at 64 edx) 4
    ∷ movups_load (at 80 edx) 5
    ∷ movups_load (at 96 edx) 6
    ∷ movups_load (at 112 edx) 7
    ∷ label 1
    ∷ to_cr3 ecx
    ∷ movl (imm 0) (reg edi)
    ∷ addl (imm 12) edi
    ∷ addl (reg eax) edi
    ∷ movups_store 0 (at 0 edi)
    ∷ movups_store 1 (at 16 edi)
    ∷ movups_store 2 (at 32 edi)
    ∷ movups_store 3 (at 48 edi)
    ∷ movups_store 4 (at 64 edi)
    ∷ movups_store 5 (at 80 edi)
    ∷ movups_store 6 (at 96 edi)
    ∷ movups_store 7 (at 112 edi)
    ∷ incl ebp
    ∷ cmpl (imm n) (reg ebp)
    ∷ jump less back 3
    ∷ rest

below_8 : (P : ℕ → Type 0) → P 0 → P 1 → P 2 → P 3 → P 4 → P 5 → P 6 → P 7 → (k : ℕ) → k < 8 → P k
below_8 P p0 p1 p2 p3 p4 p5 p6 p7 zero h = p0
below_8 P p0 p1 p2 p3 p4 p5 p6 p7 (suc zero) h = p1
below_8 P p0 p1 p2 p3 p4 p5 p6 p7 (suc (suc zero)) h = p2
below_8 P p0 p1 p2 p3 p4 p5 p6 p7 (suc (suc (suc zero))) h = p3
below_8 P p0 p1 p2 p3 p4 p5 p6 p7 (suc (suc (suc (suc zero)))) h = p4
below_8 P p0 p1 p2 p3 p4 p5 p6 p7 (suc (suc (suc (suc (suc zero))))) h = p5
below_8 P p0 p1 p2 p3 p4 p5 p6 p7 (suc (suc (suc (suc (suc (suc zero)))))) h = p6
below_8 P p0 p1 p2 p3 p4 p5 p6 p7 (suc (suc (suc (suc (suc (suc (suc zero))))))) h = p7
below_8 P p0 p1 p2 p3 p4 p5 p6 p7 (suc (suc (suc (suc (suc (suc (suc (suc k)))))))) h =
    absurd (omega (arith, h))

module _ (n : ℕ) (rest : Program) where
  -- The state before the stores of a round.
  abbrev pub loaded : Cpu → Cpu
  loaded s = last (run (rounds n rest) 21 (record s { pc = 7 }))

  loaded-run : (s : Cpu) → run (rounds n rest) 21 (record s { pc = 7 }) ≡ next (loaded s)
  unfolding run
  loaded-run s = refl

  loaded-pc : (s : Cpu) → (loaded s).pc ≡ 28
  unfolding run
  loaded-pc s = refl

  pub loaded-mem : (s : Cpu) → (loaded s).mem ≡ s.mem
  unfolding run
  loaded-mem s = refl

  pub loaded-cr3 : (s : Cpu) → (loaded s).cr3 ≡ w32 s.cr3
  unfolding run
  loaded-cr3 s = refl

  stores-run :
      (t : Cpu)
      → run (rounds n rest) 8 (record t { pc = 28 }) ≡ next (record (stores 8 t) { pc = 36 })
  unfolding run stores
  stores-run t = refl

  pub loaded-regs :
      (s : Cpu)
      → s.regs ebp ≤ 31
      → ((loaded s).regs ebx ≡ s.regs ebx)
        × ((loaded s).regs ebp ≡ s.regs ebp)
        × ((loaded s).regs edi ≡ 12 + 128 * s.regs ebp)
  unfolding run
  loaded-regs s h = (refl, refl, ground arith)

  wrapped :
      (c a e i : ℕ) → w32 (w32 (c + w32 (w32 a + w32 (128 * e))) + i) ≡ w32 (a + 128 * e + c + i)
  wrapped c a e i = omega arith

  pub loaded-xmm :
      (s : Cpu) (k i : ℕ)
      → k < 8
      → s.regs ebp ≤ 31
      → (loaded s).xmm k i ≡ s.mem (s.regs ebx) (w32 (asked s + 128 * s.regs ebp + 16 * k + i))
  unfolding run
  loaded-xmm s k i h hi =
      let from = s.mem (s.regs ebx) in
      let a = asked s in
      let e = s.regs ebp in
      below_8
        (λ k.
          (loaded s).xmm k i ≡ s.mem (s.regs ebx) (w32 (asked s + 128 * s.regs ebp + 16 * k + i)))
        (ap from (wrapped 0 a e i)) (ap from (wrapped 16 a e i)) (ap from (wrapped 32 a e i))
        (ap from (wrapped 48 a e i)) (ap from (wrapped 64 a e i)) (ap from (wrapped 80 a e i))
        (ap from (wrapped 96 a e i)) (ap from (wrapped 112 a e i)) k h

seek_back-beyond :
    (n : ℕ) (xs : Program) (i pc : ℕ) (best : Option ℕ) → pc ≤ i → seek_back n xs i pc best ≡ best
unfolding seek_back
seek_back-beyond n [] i pc best h = refl
seek_back-beyond n (x ∷ xs) i pc best h = ground (arith, seek_back-beyond n xs (i + 1) pc best)

-- The state after the end of a round, before which `u` has the bytes in place.
abbrev pub closed : ℕ → Cpu → Cpu
closed n u =
    let i = w32 (u.regs ebp + 1) in
    record (set_reg ebp (u.regs ebp + 1) u) {
      pc = if signed_ltb i (w32 n) then 7 else 39;
      flags = some (i, w32 n);
    }

compared : ℕ → Cpu → Cpu
compared n u = record (set_reg ebp (u.regs ebp + 1) u) {
  pc = 38;
  flags = some (w32 (u.regs ebp + 1), w32 n);
}

compared-run :
    (n : ℕ) (rest : Program) (u : Cpu) (to : Option ℕ)
    → to ≡ some 7
    → resume (rounds n rest) 0 (jump_if less (some (w32 (u.regs ebp + 1), w32 n)) to (compared n u))
      ≡ next (closed n u)
unfolding run compared jump_if
compared-run n rest u to e = elim (Bool-cases (signed_ltb (w32 (u.regs ebp + 1)) (w32 n))) [
  | inl b ↦ rw (e, b) refl
  | inr b ↦ rw (e, b) refl
]

back_to_loop : (n : ℕ) (rest : Program) → target (rounds n rest) back 3 38 ≡ some 7
unfolding target
back_to_loop n rest = seek_back-beyond 3 rest 39 38 (some 7) (omega arith)

closed-run :
    (n : ℕ) (rest : Program) (u : Cpu)
    → run (rounds n rest) 3 (record u { pc = 36 }) ≡ next (closed n u)
unfolding run compared
closed-run n rest u = compared-run n rest u (target (rounds n rest) back 3 38) (back_to_loop n rest)

-- The state after a round, from the state at its start.
abbrev pub round : ℕ → Program → Cpu → Cpu
round n rest s = closed n (stores 8 (loaded n rest s))

pub round-run :
    (n : ℕ) (rest : Program) (s : Cpu)
    → run (rounds n rest) 32 (record s { pc = 7 }) ≡ next (round n rest s)
unfolding run
round-run n rest s =
    run-add (rounds n rest) 21 11 (record s { pc = 7 })
    ∙ ap (resume (rounds n rest) 11) (loaded-run n rest s)
    ∙ run-add (rounds n rest) 8 3 (loaded n rest s)
    ∙ ap (resume (rounds n rest) 3) (stores-run n rest (loaded n rest s))
    ∙ closed-run n rest (stores 8 (loaded n rest s))
