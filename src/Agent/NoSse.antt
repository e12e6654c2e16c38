-- ===== src/Agent/NoSse.antt =====
-- The agents of scan_tool_sync/lib/no_sse that are written in assembly.
use imee.Base.{◌∷◌, []}
use imee.Agent.{
  eax, ebx, ecx, edx, esi, edi, ebp, imm, reg, at, always, not_equal, back, ahead, label, movl,
  to_cr3, leal, addl, subl, xorl, cmpl, jump, cld, rep_movsd, vmcall, Program,
}

-- scan_tool_sync/lib/no_sse/block.c
abbrev pub block_no_sse : Program
block_no_sse =
    label 2
    ∷ movl (at 0 edx) (reg eax)
    ∷ cmpl (imm 1) (reg eax)
    ∷ jump not_equal back 2
    ∷ movl (at 12 edx) (reg eax)
    ∷ label 4
    ∷ movl (at 0 eax) (reg ecx)
    ∷ movl (reg ecx) (at 20 edx)
    ∷ xorl (reg eax) eax
    ∷ movl (reg eax) (at 0 edx)
    ∷ jump always back 2
    ∷ label 1
    ∷ jump always ahead 3
    ∷ label 3
    ∷ []

-- scan_tool_sync/lib/no_sse/movsd.c
abbrev pub movsd_no_sse : Program
movsd_no_sse =
    label 2
    ∷ movl (at 4 edx) (reg esi)
    ∷ movl (at 8 edx) (reg ecx)
    ∷ leal (at 12 edx) edi
    ∷ cld
    ∷ rep_movsd
    ∷ vmcall
    ∷ []

-- scan_tool_sync/lib/no_sse/pslist.c
abbrev pub pslist_no_sse : Program
pslist_no_sse =
    label 2
    ∷ movl (at 0 edx) (reg eax)
    ∷ cmpl (imm 1) (reg eax)
    ∷ jump not_equal back 2
    ∷ movl (at 4 edx) (reg esi)
    ∷ movl (reg esi) (reg ebp)
    ∷ leal (at 28 edx) edi
    ∷ label 4
    ∷ movl (reg esi) (reg ebx)
    ∷ addl (imm 0x20c) esi
    ∷ movl (imm 1) (reg ecx)
    ∷ cld
    ∷ rep_movsd
    ∷ movl (reg ebx) (reg esi)
    ∷ addl (imm 0x2ec) esi
    ∷ movl (imm 4) (reg ecx)
    ∷ cld
    ∷ rep_movsd
    ∷ movl (reg ebx) (reg esi)
    ∷ addl (imm 0x1bc) esi
    ∷ movl (at 0 esi) (reg esi)
    ∷ subl (imm 0x1bc) esi
    ∷ cmpl (reg esi) (reg ebp)
    ∷ jump not_equal back 4
    ∷ xorl (reg eax) eax
    ∷ movl (reg eax) (at 0 edx)
    ∷ jump always back 2
    ∷ label 1
    ∷ jump always ahead 3
    ∷ label 3
    ∷ []

-- scan_tool_sync/lib/no_sse/pidlist.c
abbrev pub pidlist_no_sse : Program
pidlist_no_sse =
    label 2
    ∷ movl (at 0 edx) (reg eax)
    ∷ cmpl (imm 1) (reg eax)
    ∷ jump not_equal back 2
    ∷ movl (at 4 edx) (reg ebp)
    ∷ movl (at 4 edx) (reg esi)
    ∷ leal (at 20 edx) edi
    ∷ label 4
    ∷ movl (reg esi) (reg ebx)
    ∷ addl (imm 0x20c) esi
    ∷ movl (imm 1) (reg ecx)
    ∷ cld
    ∷ rep_movsd
    ∷ movl (reg ebx) (reg esi)
    ∷ addl (imm 0x1bc) esi
    ∷ movl (at 0 esi) (reg esi)
    ∷ subl (imm 0x1bc) esi
    ∷ cmpl (reg esi) (reg ebp)
    ∷ jump not_equal back 4
    ∷ xorl (reg eax) eax
    ∷ movl (reg eax) (at 0 edx)
    ∷ jump always back 2
    ∷ label 1
    ∷ jump always ahead 3
    ∷ label 3
    ∷ []

-- scan_tool_sync/lib/no_sse/switching_cr3.c
abbrev pub switching_cr3_no_sse : Program
switching_cr3_no_sse =
    movl (imm 0) (reg eax)
    ∷ movl (at 0 eax) (reg eax)
    ∷ to_cr3 ebx
    ∷ movl (imm 0xC183d419) (reg ebx)
    ∷ movl (at 0 ebx) (reg ebx)
    ∷ movl (imm 0) (reg eax)
    ∷ movl (reg ebx) (at 0 eax)
    ∷ vmcall
    ∷ []

-- scan_tool_sync/lib/no_sse/do_nothing.c
abbrev pub do_nothing_no_sse : Program
do_nothing_no_sse = vmcall ∷ []
