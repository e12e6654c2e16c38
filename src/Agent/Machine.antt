-- ===== src/Agent/Machine.antt =====
-- How the instructions of the agents run: registers, page table root, flags and memory.
use imee.Base.{
  ℕ, zero, suc, ◌+◌, ◌-◌, ◌*◌, ◌/◌, ◌%◌, ◌^◌, bit_and, bit_or, Bool, true, false, not, ◌&&◌, Option,
  none, some, [], ◌∷◌, ltb, ◌==◌, if◌then◌else◌, get_elem?,
}
use imee.Agent.{
  Reg, eax, ebx, ecx, edx, esi, edi, ebp, esp, Operand, imm, reg, at, at_index, Cond, always, equal,
  not_equal, less, less_equal, greater, Side, back, ahead, Instr, label, movl, from_cr3, to_cr3,
  leal, addl, subl, imull, xorl, shll, incl, decl, cmpl, jump, movups_load, movss_load,
  movups_store, movss_store, rdtsc, cld, rep_movsd, vmcall, Program,
}

abbrev pub reg_no : Reg → ℕ
reg_no eax = 0
reg_no ecx = 1
reg_no edx = 2
reg_no ebx = 3
reg_no esp = 4
reg_no ebp = 5
reg_no esi = 6
reg_no edi = 7

-- `mem root a` is the byte at linear address `a` under the page tables at `root`. `flags` holds
-- the destination and the source of the last compare, and nothing once another instruction has
-- set the flags. The n-th rdtsc reads `clock n`.
pub record Cpu : Type 0 where
  pub pc : ℕ
  pub regs : Reg → ℕ
  pub xmm : ℕ → ℕ → ℕ
  pub cr3 : ℕ
  pub flags : Option (ℕ × ℕ)
  pub backward : Bool
  pub clock : ℕ → ℕ
  pub ticks : ℕ
  pub mem : ℕ → ℕ → ℕ

abbrev pub w32 : ℕ → ℕ
w32 n = n % 2 ^ 32

unfoldable pub set_reg : Reg → ℕ → Cpu → Cpu
set_reg r v s = record s { regs = λ q. if reg_no q == reg_no r then w32 v else s.regs q }

-- An arithmetic result: it sets the flags to something that is not a compare.
unfoldable pub set_arith : Reg → ℕ → Cpu → Cpu
unfolding set_reg
set_arith r v s = set_reg r v (record s { flags = none })

-- `byte i` goes to address `a + i` under the current root, for i below `n`.
unfoldable pub store_bytes : ℕ → ℕ → (ℕ → ℕ) → Cpu → Cpu
store_bytes a n byte s = record s {
  mem = λ root b.
      if (root == s.cr3) && (ltb b (2 ^ 32) && ltb (w32 (b + 2 ^ 32 - a)) n)
      then byte (w32 (b + 2 ^ 32 - a))
      else s.mem root b;
}

abbrev pub load_byte : ℕ → Cpu → ℕ → ℕ
load_byte a s i = s.mem s.cr3 (w32 (a + i))

abbrev pub load32 : ℕ → Cpu → ℕ
load32 a s =
    load_byte a s 0 + load_byte a s 1 * 2 ^ 8 + load_byte a s 2 * 2 ^ 16 + load_byte a s 3 * 2 ^ 24

abbrev pub address : Operand → Cpu → ℕ
address (imm n) s = w32 n
address (reg r) s = w32 (s.regs r)
address (at d r) s = w32 (d + s.regs r)
address (at_index d r q) s = w32 (d + s.regs r + s.regs q)

abbrev pub value : Operand → Cpu → ℕ
value (imm n) s = w32 n
value (reg r) s = s.regs r
value (at d r) s = load32 (address (at d r) s) s
value (at_index d r q) s = load32 (address (at_index d r q) s) s

abbrev pub byte_of : ℕ → ℕ → ℕ
byte_of v i = v / 2 ^ (8 * i) % 256

unfoldable pub write : Operand → ℕ → Cpu → Cpu
unfolding set_reg store_bytes
write (imm _) v s = s
write (reg r) v s = set_reg r v s
write (at d r) v s = store_bytes (address (at d r) s) 4 (byte_of v) s
write (at_index d r q) v s = store_bytes (address (at_index d r q) s) 4 (byte_of v) s

-- `a < b` of 32-bit two's complement numbers
abbrev pub signed_ltb : ℕ → ℕ → Bool
signed_ltb a b = ltb (w32 (a + 2 ^ 31)) (w32 (b + 2 ^ 31))

abbrev pub holds : Cond → ℕ → ℕ → Bool
holds always d s = true
holds equal d s = d == s
holds not_equal d s = not (d == s)
holds less d s = signed_ltb d s
holds less_equal d s = not (signed_ltb s d)
holds greater d s = signed_ltb s d

abbrev is_label : ℕ → Instr → Bool
is_label n (label m) = m == n
is_label n _ = false

-- The last `n:` before position `pc`; `i` is the position of the list's head.
unfoldable pub seek_back : ℕ → Program → ℕ → ℕ → Option ℕ → Option ℕ
seek_back n [] i pc best = best
seek_back n (x ∷ xs) i pc best =
    seek_back n xs (i + 1) pc (if is_label n x && ltb i pc then some i else best)

-- The first `n:` after position `pc`.
unfoldable pub seek_ahead : ℕ → Program → ℕ → ℕ → Option ℕ
seek_ahead n [] i pc = none
seek_ahead n (x ∷ xs) i pc =
    let rest = seek_ahead n xs (i + 1) pc in if is_label n x && ltb pc i then some i else rest

unfoldable pub target : Program → Side → ℕ → ℕ → Option ℕ
unfolding seek_back seek_ahead
target prog back n pc = seek_back n prog 0 pc none
target prog ahead n pc = seek_ahead n prog 0 pc

-- The ways a step ends: the next instruction, the exit by `vmcall`, or a state that this machine
-- says nothing about (no instruction, no label, a jump on the flags of arithmetic).
pub data Outcome : Type 0 where
  next exit stuck : Cpu → Outcome

abbrev pub advance : Cpu → Outcome
advance s = next (record s { pc = suc s.pc })

unfoldable pub jump_to : Option ℕ → Cpu → Outcome
jump_to none s = stuck s
jump_to (some t) s = next (record s { pc = t })

unfoldable pub jump_if : Cond → Option (ℕ × ℕ) → Option ℕ → Cpu → Outcome
unfolding jump_to
jump_if c none to s = stuck s
jump_if c (some (dst, src)) to s = if holds c dst src then jump_to to s else advance s

unfoldable pub branch : Program → Cond → Side → ℕ → Cpu → Outcome
unfolding jump_to jump_if
branch prog always side n s = jump_to (target prog side n s.pc) s
branch prog c side n s = jump_if c s.flags (target prog side n s.pc) s

-- `movsd`, as often as ecx says
unfoldable pub move_dwords : ℕ → Cpu → Cpu
unfolding store_bytes set_reg
move_dwords zero s = s
move_dwords (suc n) s =
    let v = load32 (w32 (s.regs esi)) s in
    let gap = if s.backward then 2 ^ 32 - 4 else 4 in
    let t = store_bytes (w32 (s.regs edi)) 4 (byte_of v) s in
    move_dwords n
      (set_reg ecx n (set_reg edi (s.regs edi + gap) (set_reg esi (s.regs esi + gap) t)))

abbrev pub set_xmm : ℕ → (ℕ → ℕ) → Cpu → Cpu
set_xmm x bytes s = record s { xmm = λ y. if y == x then bytes else s.xmm y }

-- `a ^ b`, from the identity with `|` and `&`
abbrev bit_xor : ℕ → ℕ → ℕ
bit_xor a b = bit_or a b - bit_and a b

unfoldable pub exec : Program → Instr → Cpu → Outcome
unfolding set_reg set_arith store_bytes write branch move_dwords
exec prog (label _) s = advance s
exec prog (movl src dst) s = advance (write dst (value src s) s)
exec prog (from_cr3 r) s = advance (set_reg r s.cr3 s)
exec prog (to_cr3 r) s = advance (record s { cr3 = s.regs r })
exec prog (leal src r) s = advance (set_reg r (address src s) s)
exec prog (addl src r) s = advance (set_arith r (s.regs r + value src s) s)
exec prog (subl src r) s = advance (set_arith r (s.regs r + 2 ^ 32 - value src s) s)
exec prog (imull src r) s = advance (set_arith r (s.regs r * value src s) s)
exec prog (xorl src r) s = advance (set_arith r (bit_xor (s.regs r) (value src s)) s)
exec prog (shll src r) s = advance (set_arith r (s.regs r * 2 ^ (value src s % 32)) s)
exec prog (incl r) s = advance (set_arith r (s.regs r + 1) s)
exec prog (decl r) s = advance (set_arith r (s.regs r + 2 ^ 32 - 1) s)
exec prog (cmpl src dst) s = advance (record s { flags = some (value dst s, value src s) })
exec prog (jump c side n) s = branch prog c side n s
exec prog (movups_load src x) s = advance (set_xmm x (load_byte (address src s) s) s)
exec prog (movss_load src x) s =
    advance (set_xmm x (λ i. if ltb i 4 then load_byte (address src s) s i else 0) s)
exec prog (movups_store x dst) s = advance (store_bytes (address dst s) 16 (s.xmm x) s)
exec prog (movss_store x dst) s = advance (store_bytes (address dst s) 4 (s.xmm x) s)
exec prog rdtsc s = advance (
    set_reg edx (s.clock s.ticks / 2 ^ 32)
      (set_reg eax (s.clock s.ticks) (record s { ticks = s.ticks + 1 })))
exec prog cld s = advance (record s { backward = false })
exec prog rep_movsd s = advance (move_dwords (s.regs ecx) s)
exec prog vmcall s = exit s

unfoldable pub step : Program → Cpu → Outcome
unfolding exec
step prog s = elim (get_elem? prog s.pc) [ none ↦ stuck s | some x ↦ exec prog x s ]

-- At most `n` steps, stopping at the exit.
unfoldable pub run : Program → ℕ → Cpu → Outcome
unfolding step
run prog zero s = next s
run prog (suc n) s = elim (step prog s) [
  | next t ↦ run prog n t
  | exit t ↦ exit t
  | stuck t ↦ stuck t
]

-- The state in an outcome.
abbrev pub last : Outcome → Cpu
last (next s) = s
last (exit s) = s
last (stuck s) = s
