-- ===== src/Agent/Copies.antt =====
-- What the agents of scan_tool_sync/lib that read a block of memory return.
use imee.Base.{
  ℕ, zero, suc, ◌<◌, ◌^◌, ◌+◌, ◌≡◌, ◌≢◌, subst, ap, ◌∙◌, true, some, List, [], ◌∷◌, get_elem?,
  arith,
}
use imee.Agent.{ebx, Program}
use imee.Agent.Machine.{Cpu, run, last, w32}
use imee.Agent.Correct.{is_exit}
use imee.Agent.Runs.{asked}
use imee.Agent.Blocks.{hyp, syscalldmp, read_4_bytes, read_64_bytes}
use imee.Agent.Reads.{read_128_bytes, read_512_bytes, read_1024_bytes}
use imee.Agent.Whole.{
  Copies, plain_end, stamped_end, plain-Closes, stamped-Closes, eleven, one, rounds-Copies,
}
use imee.Agent.Straight.{read_4_bytes-Copies, read_64_bytes-Copies}

-- The agents that read a block, with the number of bytes that they copy.
abbrev pub readers : List (Program × ℕ)
readers =
    (hyp, 1408)
    ∷ (syscalldmp, 1408)
    ∷ (read_4_bytes, 16)
    ∷ (read_64_bytes, 64)
    ∷ (read_128_bytes, 128)
    ∷ (read_512_bytes, 1408)
    ∷ (read_1024_bytes, 1408)
    ∷ []

abbrev AllOf {ℓ} : {A : Type ℓ} → (A → Type 0) → List A → Type 0
AllOf P [] = Unit
AllOf P (x ∷ xs) = P x × AllOf P xs

AllOf-at {ℓ} :
    {A : Type ℓ} (P : A → Type 0) (xs : List A) (i : ℕ) (x : A)
    → AllOf P xs
    → get_elem? xs i ≡ some x
    → P x
AllOf-at P [] i x all e = ground (arith, e)
AllOf-at P (y ∷ xs) zero x all e = let same : y ≡ x = ground (arith, e) in subst P same all.0
AllOf-at P (y ∷ xs) (suc i) x all e = AllOf-at P xs i x all.1 e

-- A reader at its first instruction, with the roots of two address spaces.
abbrev Reads : Cpu → Program × ℕ → Type 0
Reads s r = Copies r.0 r.1 s

readers-read : (s : Cpu) → s.pc ≡ 0 → s.cr3 < 2 ^ 32 → s.regs ebx ≢ s.cr3 → AllOf (Reads s) readers
readers-read s start small apart =
    let whole =
      rounds-Copies 11 plain_end 11 (omega arith) eleven (plain-Closes 11) (omega arith) s start
        small apart in
    let stamped =
      rounds-Copies 11 stamped_end 11 (omega arith) eleven (stamped-Closes 11) (omega arith) s start
        small apart in
    let once =
      rounds-Copies 0 stamped_end 1 (omega arith) one (stamped-Closes 0) (omega arith) s start small
        apart in
    (
      whole,
      (
        whole,
        (
          read_4_bytes-Copies s start small apart,
          (read_64_bytes-Copies s start small apart, (once, (stamped, (stamped, tt)))),
        ),
      ),
    )

-- Each reader, started at its first instruction with the root of the local page tables in cr3 and
-- that of another address space in ebx, reaches its `vmcall` within 500 steps; then the bytes from
-- 12 on, as many as that reader copies, which is a fixed number whatever length the request holds in
-- its word at 8, are those of the other address space from the address on that the request holds,
-- and the request, in the first 12 bytes, is as it was.
pub readers-copy :
    (i : ℕ) (prog : Program) (bytes : ℕ) (s : Cpu) (j b : ℕ)
    → get_elem? readers i ≡ some (prog, bytes)
    → s.pc ≡ 0
    → s.cr3 < 2 ^ 32
    → s.regs ebx ≢ s.cr3
    → j < bytes
    → b < 12
    → let r = run prog 500 s in
      (is_exit r ≡ true)
      × ((last r).mem s.cr3 (12 + j) ≡ s.mem (s.regs ebx) (w32 (asked s + j)))
      × ((last r).mem s.cr3 b ≡ s.mem s.cr3 b)
readers-copy i prog bytes s j b here start small apart inside before =
    let (u, runs, copied, kept) =
      AllOf-at (Reads s) readers i (prog, bytes) (readers-read s start small apart) here in
    (
      ap is_exit runs,
      ap (λ r. (last r).mem s.cr3 (12 + j)) runs ∙ copied j inside,
      ap (λ r. (last r).mem s.cr3 b) runs ∙ kept b before,
    )
