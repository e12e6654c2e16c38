-- ===== src/Agent.antt =====
-- The agents: the position-independent programs of scan_tool_sync/lib and scan_tool_async/lib that
-- run in the guest under two page tables, the local ones and the guest's. This file is the part of
-- the 32-bit instruction set they use, in the syntax of the assembler: source before destination.
pub mod Machine
pub mod Blocks
pub mod Reads
pub mod Lists
pub mod NoSse
pub mod Async
pub mod Check
pub mod Runs
mod Rounds
mod Copy
mod Whole
mod Straight
mod Copies
pub mod Exchange
pub mod Serve
mod Facts
mod Sound
mod Correct
mod Tests
use imee.Base.{ℕ, List}

pub data Reg : Type 0 where
  eax ebx ecx edx esi edi ebp esp : Reg

-- `$n`, `%r`, `disp(%r)`, `disp(%r, %q)`
pub data Operand : Type 0 where
  imm : ℕ → Operand
  reg : Reg → Operand
  at : ℕ → Reg → Operand
  at_index : ℕ → Reg → Reg → Operand

-- When a jump is taken: jmp, je, jne, jl, jle, jg.
pub data Cond : Type 0 where
  always equal not_equal less less_equal greater : Cond

-- `n:` is a local label, which may stand several times; `nb` is the last one before the jump and
-- `nf` the first one after it.
pub data Side : Type 0 where
  back ahead : Side

pub data Instr : Type 0 where
  label : ℕ → Instr
  movl : Operand → Operand → Instr
  from_cr3 to_cr3 : Reg → Instr
  leal addl subl imull xorl shll : Operand → Reg → Instr
  incl decl : Reg → Instr
  cmpl : Operand → Operand → Instr
  jump : Cond → Side → ℕ → Instr
  movups_load movss_load : Operand → ℕ → Instr
  movups_store movss_store : ℕ → Operand → Instr
  rdtsc cld rep_movsd vmcall : Instr

abbrev pub Program : Type 0
Program = List Instr
