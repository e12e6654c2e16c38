-- ===== src/Agent/Facts.antt =====
-- Lemmas on what the check of an agent knows: the facts it derives, and what they say of a state.
use imee.Base.{
  ℕ, zero, suc, ◌+◌, ◌≡◌, ◌≢◌, refl, ◌⊎◌, inl, inr, Bool, true, ◌&&◌, some, [], ◌∷◌, get_elem?,
  arith, Bool-cases,
}
use imee.Agent.{Reg, eax, ebx, ecx, edx, esi, edi, ebp, esp, Instr, Program}
use imee.Agent.Machine.{Cpu, set_reg, store_bytes, move_dwords}
use imee.Agent.Check.{Facts, nothing, after, facts_at, below, instr_ok, check_from, keeps_ecx}

-- The bytes under every root but `root` are those of `m`.
abbrev pub SameElsewhere : ℕ → (ℕ → ℕ → ℕ) → Cpu → Type 0
SameElsewhere root m s = (r a : ℕ) → r ≢ root → s.mem r a ≡ m r a

abbrev pub Holds : ℕ → Facts → Cpu → Type 0
Holds root f s = (f.at_local ≡ true → s.cr3 ≡ root) × (f.saved ≡ true → s.regs ecx ≡ root)

pub instr_ok-at :
    (start : Facts) (prog xs : Program) (i j : ℕ) (x : Instr)
    → check_from start prog xs i ≡ true
    → get_elem? xs j ≡ some x
    → instr_ok start prog (i + j) x ≡ true
unfolding check_from
instr_ok-at start prog [] i j x ok here = ground (arith)
instr_ok-at start prog (y ∷ xs) i zero x ok here = ground (arith)
instr_ok-at start prog (y ∷ xs) i (suc j) x ok here =
    ground (arith, instr_ok-at start prog xs (i + 1) j x)

pub facts_at-suc :
    (f : Facts) (xs : Program) (j : ℕ) (x : Instr)
    → get_elem? xs j ≡ some x
    → facts_at f xs (suc j) ≡ after x (facts_at f xs j) ⊎ facts_at f xs (suc j) ≡ nothing
unfolding facts_at
facts_at-suc f [] j x here = ground (arith)
facts_at-suc f (y ∷ []) zero x here = inr refl
facts_at-suc f (y ∷ z ∷ xs) zero x here = inl (ground (arith, here))
facts_at-suc f (y ∷ xs) (suc j) x here = facts_at-suc (after y f) xs j x here

pub ecx-only : (r : Reg) → keeps_ecx r ≡ true ⊎ r ≡ ecx
ecx-only eax = inl refl
ecx-only ebx = inl refl
ecx-only ecx = inr refl
ecx-only edx = inl refl
ecx-only esi = inl refl
ecx-only edi = inl refl
ecx-only ebp = inl refl
ecx-only esp = inl refl

pub and_left : (a b : Bool) → a && b ≡ true → a ≡ true
and_left a b both = ground (arith, both, Bool-cases a)

pub below_refl : (f : Facts) → below f f ≡ true
below_refl f = ground (arith, Bool-cases f.at_local, Bool-cases f.saved)

pub move_dwords-pc : (n : ℕ) (s : Cpu) → (move_dwords n s).pc ≡ s.pc
unfolding move_dwords store_bytes set_reg
move_dwords-pc zero s = refl
move_dwords-pc (suc n) s = move_dwords-pc n _
