-- ===== src/Agent/Sound.antt =====
-- The check of agents is sound: a program that passes never writes under another page table root
-- than the local one it starts under.
use imee.Base.{
  ℕ, zero, suc, ◌+◌, ◌/◌, ◌^◌, ◌<◌, ◌≡◌, ◌≢◌, refl, sym, ap, subst, ◌∙◌, inl, inr, true, false,
  Option, none, some, [], ◌∷◌, get_elem?, arith, ltb, if◌then◌else◌, ==→eq, Bool-cases,
}
use imee.Agent.{
  Reg, eax, ecx, edx, esi, edi, imm, reg, at, at_index, Cond, always, equal, not_equal, less,
  less_equal, greater, Side, Instr, label, movl, from_cr3, to_cr3, leal, addl, subl, imull, xorl,
  shll, incl, decl, cmpl, jump, movups_load, movss_load, movups_store, movss_store, rdtsc, cld,
  rep_movsd, vmcall, Program,
}
use imee.Agent.Machine.{
  Cpu, Outcome, next, exit, stuck, set_reg, set_arith, store_bytes, address, write, load_byte,
  set_xmm, holds, target, jump_to, jump_if, branch, move_dwords, exec, step, run, advance, last,
  w32, byte_of, load32, value,
}
use imee.Agent.Check.{
  Facts, forget, after, facts_at, below, jump_ok, instr_ok, check_from, at_entry, check,
}
use imee.Agent.Facts.{
  SameElsewhere, Holds, instr_ok-at, facts_at-suc, ecx-only, and_left, below_refl, move_dwords-pc,
}

module _ (root : ℕ) (small : root < 2 ^ 32) (m : ℕ → ℕ → ℕ) where
  store_bytes-SameElsewhere :
      (a n : ℕ) (byte : ℕ → ℕ) (s : Cpu)
      → s.cr3 ≡ root
      → SameElsewhere root m s
      → SameElsewhere root m (store_bytes a n byte s)
  unfolding store_bytes
  store_bytes-SameElsewhere a n byte s here same r b other =
      ground (arith, ==→eq r s.cr3, same r b, other)

  set_reg-Holds :
      (f : Facts) (r : Reg) (v : ℕ) (s : Cpu)
      → Holds root f s
      → Holds root (forget r f) (set_reg r v s)
  unfolding set_reg
  set_reg-Holds f r v s (h1, h2) = (h1, λ e. ground (arith, h2, ecx-only r, e))

  from_cr3-Holds :
      (f : Facts) (r : Reg) (s : Cpu)
      → Holds root f s
      → Holds root (after (from_cr3 r) f) (set_reg r s.cr3 s)
  unfolding set_reg
  from_cr3-Holds f r s (h1, h2) = (h1, λ e. ground (arith, h1, h2, ecx-only r, e))

  to_cr3-Holds :
      (f : Facts) (r : Reg) (s : Cpu)
      → Holds root f s
      → Holds root (after (to_cr3 r) f) (record s { cr3 = s.regs r })
  to_cr3-Holds f r s (h1, h2) = (λ e. ground (arith, h2, ecx-only r, e), h2)

  move_dwords-SameElsewhere :
      (n : ℕ) (s : Cpu)
      → s.cr3 ≡ root
      → SameElsewhere root m s
      → (move_dwords n s).cr3 ≡ root × SameElsewhere root m (move_dwords n s)
  unfolding move_dwords store_bytes set_reg
  move_dwords-SameElsewhere zero s local same = (local, same)
  move_dwords-SameElsewhere (suc n) s local same = move_dwords-SameElsewhere n _ local (
      store_bytes-SameElsewhere (w32 (s.regs edi)) 4 (byte_of (load32 (w32 (s.regs esi)) s)) s local
        same)

  abbrev pub Safe : Facts → Program → Cpu → Type 0
  Safe start prog s = Holds root (facts_at start prog s.pc) s × SameElsewhere root m s

  abbrev pub Kept : Facts → Program → Outcome → Type 0
  Kept start prog (next t) = Safe start prog t
  Kept start prog (exit t) = SameElsewhere root m t
  Kept start prog (stuck t) = SameElsewhere root m t

  module _ (start : Facts) (prog : Program) (ok : check_from start prog prog 0 ≡ true) where
    below-Holds : (f g : Facts) (t : Cpu) → below f g ≡ true → Holds root g t → Holds root f t
    below-Holds f g t under (h1, h2) =
        (λ e. ground (arith, h1, under, e), λ e. ground (arith, h2, under, e))

    below_suc :
        (x : Instr) (pc : ℕ)
        → get_elem? prog pc ≡ some x
        → below (facts_at start prog (suc pc)) (after x (facts_at start prog pc)) ≡ true
    below_suc x pc here = elim (facts_at-suc start prog pc x here) [
      | inl e ↦
          ap (λ f. below f (after x (facts_at start prog pc))) e
          ∙ below_refl (after x (facts_at start prog pc))
      | inr e ↦ ap (λ f. below f (after x (facts_at start prog pc))) e
    ]

    advance-Kept :
        (x : Instr) (pc : ℕ) (t : Cpu)
        → get_elem? prog pc ≡ some x
        → t.pc ≡ pc
        → Holds root (after x (facts_at start prog pc)) t
        → SameElsewhere root m t
        → Kept start prog (advance t)
    advance-Kept x pc t here same_pc holding same = (
      below-Holds (facts_at start prog (suc t.pc)) (after x (facts_at start prog pc)) t
          (ap (λ i. below (facts_at start prog (suc i)) (after x (facts_at start prog pc))) same_pc
            ∙ below_suc x pc here)
          holding,
      same,
    )

    jump_to-Kept :
        (f : Facts) (to : Option ℕ) (t : Cpu)
        → jump_ok start prog f to ≡ true
        → Holds root f t
        → SameElsewhere root m t
        → Kept start prog (jump_to to t)
    unfolding jump_to
    jump_to-Kept f none t under holding same = same
    jump_to-Kept f (some pc) t under holding same =
        (below-Holds (facts_at start prog pc) f t under holding, same)

    jump_if-Kept :
        (c : Cond) (flags : Option (ℕ × ℕ)) (f : Facts) (to : Option ℕ) (s : Cpu)
        → jump_ok start prog f to ≡ true
        → Kept start prog (advance s)
        → Holds root f s
        → SameElsewhere root m s
        → Kept start prog (jump_if c flags to s)
    unfolding jump_if
    jump_if-Kept c none f to s under on holding same = same
    jump_if-Kept c (some (dst, src)) f to s under on holding same =
        elim (Bool-cases (holds c dst src)) [
          | inl e ↦
              subst (λ b. Kept start prog (if b then jump_to to s else advance s)) (sym e)
                (jump_to-Kept f to s under holding same)
          | inr e ↦ subst (λ b. Kept start prog (if b then jump_to to s else advance s)) (sym e) on
        ]

    branch-Kept :
        (c : Cond) (side : Side) (n : ℕ) (s : Cpu)
        → get_elem? prog s.pc ≡ some (jump c side n)
        → instr_ok start prog s.pc (jump c side n) ≡ true
        → Safe start prog s
        → Kept start prog (branch prog c side n s)
    unfolding branch
    branch-Kept always side n s here may (holding, same) =
        jump_to-Kept (facts_at start prog s.pc) (target prog side n s.pc) s may holding same
    branch-Kept equal side n s here may (holding, same) =
        jump_if-Kept equal s.flags (facts_at start prog s.pc) (target prog side n s.pc) s may
          (advance-Kept (jump equal side n) s.pc s here refl holding same) holding same
    branch-Kept not_equal side n s here may (holding, same) =
        jump_if-Kept not_equal s.flags (facts_at start prog s.pc) (target prog side n s.pc) s may
          (advance-Kept (jump not_equal side n) s.pc s here refl holding same) holding same
    branch-Kept less side n s here may (holding, same) =
        jump_if-Kept less s.flags (facts_at start prog s.pc) (target prog side n s.pc) s may
          (advance-Kept (jump less side n) s.pc s here refl holding same) holding same
    branch-Kept less_equal side n s here may (holding, same) =
        jump_if-Kept less_equal s.flags (facts_at start prog s.pc) (target prog side n s.pc) s may
          (advance-Kept (jump less_equal side n) s.pc s here refl holding same) holding same
    branch-Kept greater side n s here may (holding, same) =
        jump_if-Kept greater s.flags (facts_at start prog s.pc) (target prog side n s.pc) s may
          (advance-Kept (jump greater side n) s.pc s here refl holding same) holding same

    -- The instructions that only set a register.
    set_reg-Kept :
        (x : Instr) (r : Reg) (v : ℕ) (s : Cpu)
        → get_elem? prog s.pc ≡ some x
        → after x (facts_at start prog s.pc) ≡ forget r (facts_at start prog s.pc)
        → Safe start prog s
        → Kept start prog (advance (set_reg r v s))
    unfolding set_reg
    set_reg-Kept x r v s here e (holding, same) =
        advance-Kept x s.pc (set_reg r v s) here refl
          (subst (λ f. Holds root f (set_reg r v s)) (sym e)
            (set_reg-Holds (facts_at start prog s.pc) r v s holding))
          same

    set_arith-Kept :
        (x : Instr) (r : Reg) (v : ℕ) (s : Cpu)
        → get_elem? prog s.pc ≡ some x
        → after x (facts_at start prog s.pc) ≡ forget r (facts_at start prog s.pc)
        → Safe start prog s
        → Kept start prog (advance (set_arith r v s))
    unfolding set_arith
    set_arith-Kept x r v s here e safe = set_reg-Kept x r v (record s { flags = none }) here e safe

    -- The instructions that only store.
    store-Kept :
        (x : Instr) (a n : ℕ) (byte : ℕ → ℕ) (s : Cpu)
        → get_elem? prog s.pc ≡ some x
        → after x (facts_at start prog s.pc) ≡ facts_at start prog s.pc
        → (facts_at start prog s.pc).at_local ≡ true
        → Safe start prog s
        → Kept start prog (advance (store_bytes a n byte s))
    unfolding store_bytes
    store-Kept x a n byte s here e local (holding, same) =
        advance-Kept x s.pc (store_bytes a n byte s) here refl
          (subst (λ f. Holds root f s) (sym e) holding)
          (store_bytes-SameElsewhere a n byte s (holding.0 local) same)

    exec-Kept :
        (x : Instr) (s : Cpu)
        → get_elem? prog s.pc ≡ some x
        → instr_ok start prog s.pc x ≡ true
        → Safe start prog s
        → Kept start prog (exec prog x s)
    unfolding exec write set_reg
    exec-Kept (label n) s here may (h, same) = advance-Kept (label n) s.pc s here refl h same
    exec-Kept (movl src (imm n)) s here may (h, same) =
        advance-Kept (movl src (imm n)) s.pc s here refl h same
    exec-Kept (movl src (reg r)) s here may safe =
        set_reg-Kept (movl src (reg r)) r (value src s) s here refl safe
    exec-Kept (movl src (at d r)) s here may safe =
        store-Kept (movl src (at d r)) (address (at d r) s) 4 (byte_of (value src s)) s here refl
          (and_left (facts_at start prog s.pc).at_local _ may) safe
    exec-Kept (movl src (at_index d r q)) s here may safe =
        store-Kept (movl src (at_index d r q)) (address (at_index d r q) s) 4
          (byte_of (value src s)) s here refl (and_left (facts_at start prog s.pc).at_local _ may)
          safe
    exec-Kept (from_cr3 r) s here may (h, same) =
        advance-Kept (from_cr3 r) s.pc (set_reg r s.cr3 s) here refl
          (from_cr3-Holds (facts_at start prog s.pc) r s h) same
    exec-Kept (to_cr3 r) s here may (h, same) =
        advance-Kept (to_cr3 r) s.pc (record s { cr3 = s.regs r }) here refl
          (to_cr3-Holds (facts_at start prog s.pc) r s h) same
    exec-Kept (leal src r) s here may safe =
        set_reg-Kept (leal src r) r (address src s) s here refl safe
    exec-Kept (addl src r) s here may safe = set_arith-Kept (addl src r) r _ s here refl safe
    exec-Kept (subl src r) s here may safe = set_arith-Kept (subl src r) r _ s here refl safe
    exec-Kept (imull src r) s here may safe = set_arith-Kept (imull src r) r _ s here refl safe
    exec-Kept (xorl src r) s here may safe = set_arith-Kept (xorl src r) r _ s here refl safe
    exec-Kept (shll src r) s here may safe = set_arith-Kept (shll src r) r _ s here refl safe
    exec-Kept (incl r) s here may safe = set_arith-Kept (incl r) r _ s here refl safe
    exec-Kept (decl r) s here may safe = set_arith-Kept (decl r) r _ s here refl safe
    exec-Kept (cmpl src dst) s here may (h, same) =
        advance-Kept (cmpl src dst) s.pc (record s { flags = some (value dst s, value src s) }) here
          refl h same
    exec-Kept (jump c side n) s here may safe = branch-Kept c side n s here may safe
    exec-Kept (movups_load src x) s here may (h, same) =
        advance-Kept (movups_load src x) s.pc (set_xmm x (load_byte (address src s) s) s) here refl
          h same
    exec-Kept (movss_load src x) s here may (h, same) =
        advance-Kept (movss_load src x) s.pc
          (set_xmm x (λ i. if ltb i 4 then load_byte (address src s) s i else 0) s) here refl h same
    exec-Kept (movups_store x dst) s here may safe =
        store-Kept (movups_store x dst) (address dst s) 16 (s.xmm x) s here refl
          (and_left (facts_at start prog s.pc).at_local _ may) safe
    exec-Kept (movss_store x dst) s here may safe =
        store-Kept (movss_store x dst) (address dst s) 4 (s.xmm x) s here refl
          (and_left (facts_at start prog s.pc).at_local _ may) safe
    exec-Kept rdtsc s here may (h, same) =
        advance-Kept rdtsc s.pc
          (set_reg edx (s.clock s.ticks / 2 ^ 32)
            (set_reg eax (s.clock s.ticks) (record s { ticks = s.ticks + 1 })))
          here refl h same
    exec-Kept cld s here may (h, same) =
        advance-Kept cld s.pc (record s { backward = false }) here refl h same
    exec-Kept rep_movsd s here may (h, same) =
        let moved =
          move_dwords-SameElsewhere (s.regs ecx) s
            (h.0 (and_left (facts_at start prog s.pc).at_local _ may)) same in
        advance-Kept rep_movsd s.pc (move_dwords (s.regs ecx) s) here
          (move_dwords-pc (s.regs ecx) s) ((λ _. moved.0), λ e. ground (arith, e)) moved.1
    exec-Kept vmcall s here may (h, same) = same

    step-Kept : (s : Cpu) → Safe start prog s → Kept start prog (step prog s)
    unfolding step
    step-Kept s (holding, same) = go (get_elem? prog s.pc) refl
      where
        go :
            (o : Option Instr)
            → get_elem? prog s.pc ≡ o
            → Kept start prog (elim o [ none ↦ stuck s | some x ↦ exec prog x s ])
        go none e = same
        go (some x) e =
            exec-Kept x s e
              (subst (λ i. instr_ok start prog i x ≡ true) (omega arith)
                (instr_ok-at start prog prog 0 s.pc x ok e))
              (holding, same)

    run-Kept : (n : ℕ) (s : Cpu) → Safe start prog s → SameElsewhere root m (last (run prog n s))
    unfolding run
    run-Kept zero s safe = safe.1
    run-Kept (suc n) s safe = go (step prog s) (step-Kept s safe) (run-Kept n)
      where
        go :
            (o : Outcome)
            → Kept start prog o
            → ((t : Cpu) → Safe start prog t → SameElsewhere root m (last (run prog n t)))
            → SameElsewhere root m
                (last (elim o [ next t ↦ run prog n t | exit t ↦ exit t | stuck t ↦ stuck t ]))
        go (next t) kept rest = rest t kept
        go (exit t) kept rest = kept
        go (stuck t) kept rest = kept

at_entry-Holds :
    (root : ℕ) (prog : Program) (s : Cpu) → s.cr3 ≡ root → Holds root (facts_at at_entry prog 0) s
unfolding facts_at
at_entry-Holds root [] s local = (λ _. local, λ e. ground (arith, e))
at_entry-Holds root (x ∷ xs) s local = (λ _. local, λ e. ground (arith, e))

-- A program that passes the check, started at its first instruction under the page table root
-- `root`, leaves every byte under every other root as it was, after any number of steps.
pub check-keeps_others :
    (prog : Program) (n : ℕ) (s : Cpu) (root r a : ℕ)
    → check prog ≡ true
    → root < 2 ^ 32
    → s.pc ≡ 0
    → s.cr3 ≡ root
    → r ≢ root
    → (last (run prog n s)).mem r a ≡ s.mem r a
unfolding check
check-keeps_others prog n s root r a ok small start local other =
    run-Kept root small s.mem at_entry prog ok n s
      (
        subst (λ i. Holds root (facts_at at_entry prog i) s) (sym start)
            (at_entry-Holds root prog s local),
        λ _ _ _. refl,
      )
      r a other
