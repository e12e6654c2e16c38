-- ===== src/Agent/Check.antt =====
-- A check of an agent's program for stores under the guest's page tables: what is known before
-- each instruction, and the condition each instruction and each jump must meet.
use imee.Base.{
  if◌then◌else◌, ℕ, zero, suc, ◌+◌, Bool, true, false, not, ◌&&◌, ◌||◌, Option, none, some, [], ◌∷◌,
  ◌==◌,
}
use imee.Agent.{
  Reg, ecx, reg, at, at_index, always, Instr, movl, from_cr3, to_cr3, leal, addl, subl, imull, xorl,
  shll, incl, decl, jump, movups_store, movss_store, rep_movsd, Program,
}
use imee.Agent.Machine.{reg_no, target}

-- What is known at a position: cr3 holds the root of the local page tables, and ecx holds it.
pub record Facts : Type 0 where
  pub at_local : Bool
  pub saved : Bool

abbrev pub nothing : Facts
nothing = record { at_local = false; saved = false }

abbrev pub keeps_ecx : Reg → Bool
keeps_ecx r = not (reg_no r == reg_no ecx)

abbrev pub forget : Reg → Facts → Facts
forget r f = record f { saved = f.saved && keeps_ecx r }

abbrev pub after : Instr → Facts → Facts
after (movl _ (reg r)) f = forget r f
after (from_cr3 r) f = record f { saved = if keeps_ecx r then f.saved else f.at_local }
after (to_cr3 r) f = record f { at_local = not (keeps_ecx r) && f.saved }
after (leal _ r) f = forget r f
after (addl _ r) f = forget r f
after (subl _ r) f = forget r f
after (imull _ r) f = forget r f
after (xorl _ r) f = forget r f
after (shll _ r) f = forget r f
after (incl r) f = forget r f
after (decl r) f = forget r f
after rep_movsd f = record f { saved = false }
after (jump always _ _) f = record f { saved = false }
after _ f = f

-- No store unless cr3 is known to hold the local root.
abbrev pub may_run : Instr → Facts → Bool
may_run (movl _ (at _ _)) f = f.at_local
may_run (movl _ (at_index _ _ _)) f = f.at_local
may_run (movups_store _ _) f = f.at_local
may_run (movss_store _ _) f = f.at_local
may_run rep_movsd f = f.at_local
may_run _ f = true

-- The facts before position `pc`, from those at the start; the position after an instruction is
-- taken to follow it.
unfoldable pub facts_at : Facts → Program → ℕ → Facts
facts_at f [] pc = nothing
facts_at f (x ∷ xs) zero = f
facts_at f (x ∷ xs) (suc pc) = facts_at (after x f) xs pc

-- `f` claims no more than `g`.
abbrev pub below : Facts → Facts → Bool
below f g = (not f.at_local || g.at_local) && (not f.saved || g.saved)

abbrev pub jump_ok : Facts → Program → Facts → Option ℕ → Bool
jump_ok start prog f none = true
jump_ok start prog f (some t) = below (facts_at start prog t) f

abbrev pub targets_ok : Facts → Program → Instr → ℕ → Facts → Bool
targets_ok start prog (jump _ side n) pc f = jump_ok start prog f (target prog side n pc)
targets_ok start prog _ pc f = true

abbrev pub instr_ok : Facts → Program → ℕ → Instr → Bool
instr_ok start prog pc x =
    let f = facts_at start prog pc in may_run x f && targets_ok start prog x pc f

unfoldable pub check_from : Facts → Program → Program → ℕ → Bool
unfolding facts_at target
check_from start prog [] pc = true
check_from start prog (x ∷ xs) pc = instr_ok start prog pc x && check_from start prog xs (pc + 1)

-- An agent starts under the local page tables.
abbrev pub at_entry : Facts
at_entry = record { at_local = true; saved = false }

unfoldable pub check : Program → Bool
unfolding check_from
check prog = check_from at_entry prog prog 0
