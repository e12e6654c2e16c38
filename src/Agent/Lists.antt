-- ===== src/Agent/Lists.antt =====
-- The agents of scan_tool_sync/lib that follow a list, and the one for every size.
use imee.Base.{◌∷◌, []}
use imee.Agent.{
  eax, ebx, ecx, edx, esi, edi, ebp, esp, imm, reg, at, at_index, not_equal, less, less_equal,
  greater, back, ahead, label, movl, from_cr3, to_cr3, leal, addl, subl, shll, incl, decl, cmpl,
  jump, movups_load, movss_load, movups_store, movss_store, rdtsc, vmcall, Program,
}

-- scan_tool_sync/lib/unified_agent.c
abbrev pub unified_agent : Program
unified_agent =
    movl (imm 0x0) (reg edx)
    ∷ movl (at 8 edx) (reg eax)
    ∷ label 3
    ∷ movl (imm 0x0) (reg edx)
    ∷ movl (at 4 edx) (reg edx)
    ∷ from_cr3 ecx
    ∷ to_cr3 ebx
    ∷ movl (imm 0) (reg ebp)
    ∷ movups_load (at 0 edx) 0
    ∷ incl ebp
    ∷ subl (imm 16) eax
    ∷ cmpl (imm 0) (reg eax)
    ∷ jump less_equal ahead 1
    ∷ movups_load (at 16 edx) 1
    ∷ incl ebp
    ∷ subl (imm 16) eax
    ∷ cmpl (imm 0) (reg eax)
    ∷ jump less_equal ahead 1
    ∷ movups_load (at 32 edx) 2
    ∷ incl ebp
    ∷ subl (imm 16) eax
    ∷ cmpl (imm 0) (reg eax)
    ∷ jump less_equal ahead 1
    ∷ movups_load (at 48 edx) 3
    ∷ incl ebp
    ∷ subl (imm 16) eax
    ∷ cmpl (imm 0) (reg eax)
    ∷ jump less_equal ahead 1
    ∷ movups_load (at 64 edx) 4
    ∷ incl ebp
    ∷ subl (imm 16) eax
    ∷ cmpl (imm 0) (reg eax)
    ∷ jump less_equal ahead 1
    ∷ movups_load (at 80 edx) 5
    ∷ incl ebp
    ∷ subl (imm 16) eax
    ∷ cmpl (imm 0) (reg eax)
    ∷ jump less_equal ahead 1
    ∷ movups_load (at 96 edx) 6
    ∷ incl ebp
    ∷ subl (imm 16) eax
    ∷ cmpl (imm 0) (reg eax)
    ∷ jump less_equal ahead 1
    ∷ movups_load (at 112 edx) 7
    ∷ incl ebp
    ∷ subl (imm 16) eax
    ∷ label 1
    ∷ to_cr3 ecx
    ∷ movl (imm 8) (reg edi)
    ∷ movl (at 0 edi) (reg edi)
    ∷ subl (reg eax) edi
    ∷ movl (imm 12) (reg edx)
    ∷ addl (reg edx) edi
    ∷ movl (reg ebp) (reg esi)
    ∷ shll (imm 4) esi
    ∷ movups_store 0 (at_index 0 edi esi)
    ∷ decl ebp
    ∷ cmpl (imm 0) (reg ebp)
    ∷ jump less_equal ahead 2
    ∷ movups_store 1 (at_index 16 edi esi)
    ∷ decl ebp
    ∷ cmpl (imm 0) (reg ebp)
    ∷ jump less_equal ahead 2
    ∷ movups_store 2 (at_index 32 edi esi)
    ∷ decl ebp
    ∷ cmpl (imm 0) (reg ebp)
    ∷ jump less_equal ahead 2
    ∷ movups_store 3 (at_index 48 edi esi)
    ∷ decl ebp
    ∷ cmpl (imm 0) (reg ebp)
    ∷ jump less_equal ahead 2
    ∷ movups_store 4 (at_index 64 edi esi)
    ∷ decl ebp
    ∷ cmpl (imm 0) (reg ebp)
    ∷ jump less_equal ahead 2
    ∷ movups_store 5 (at_index 80 edi esi)
    ∷ decl ebp
    ∷ cmpl (imm 0) (reg ebp)
    ∷ jump less_equal ahead 2
    ∷ movups_store 6 (at_index 96 edi esi)
    ∷ decl ebp
    ∷ cmpl (imm 0) (reg ebp)
    ∷ jump less_equal ahead 2
    ∷ movups_store 7 (at_index 112 edi esi)
    ∷ decl ebp
    ∷ label 2
    ∷ cmpl (imm 0) (reg eax)
    ∷ jump greater back 3
    ∷ vmcall
    ∷ []

-- scan_tool_sync/lib/pslist.c
abbrev pub pslist : Program
pslist =
    rdtsc
    ∷ movl (imm 0xFF0) (reg esi)
    ∷ movl (reg eax) (at 0 esi)
    ∷ movl (reg edx) (at 4 esi)
    ∷ movl (imm 0) (reg edx)
    ∷ leal (at 28 edx) esp
    ∷ movl (at 4 edx) (reg ebp)
    ∷ movl (at 4 edx) (reg esi)
    ∷ movl (at 8 edx) (reg eax)
    ∷ movl (at 12 edx) (reg edx)
    ∷ movl (at 20 edx) (reg edi)
    ∷ from_cr3 ecx
    ∷ to_cr3 ebx
    ∷ label 4
    ∷ movss_load (at_index 0 esi edx) 0
    ∷ movups_load (at 0x2ec esi) 1
    ∷ to_cr3 ecx
    ∷ movss_store 0 (at 0 esp)
    ∷ addl (imm 4) esp
    ∷ movups_store 1 (at 0 esp)
    ∷ addl (imm 16) esp
    ∷ from_cr3 ecx
    ∷ to_cr3 ebx
    ∷ addl (reg eax) esi
    ∷ movl (at 0 esi) (reg esi)
    ∷ subl (reg eax) esi
    ∷ cmpl (reg esi) (reg ebp)
    ∷ jump not_equal back 4
    ∷ label 1
    ∷ vmcall
    ∷ []

-- scan_tool_sync/lib/pidlist.c
abbrev pub pidlist : Program
pidlist =
    rdtsc
    ∷ movl (imm 0xFF0) (reg esi)
    ∷ movl (reg eax) (at 0 esi)
    ∷ movl (reg edx) (at 4 esi)
    ∷ movl (imm 0) (reg edx)
    ∷ leal (at 20 edx) edi
    ∷ movl (at 4 edx) (reg ebp)
    ∷ movl (at 4 edx) (reg esi)
    ∷ movl (at 8 edx) (reg eax)
    ∷ movl (at 12 edx) (reg edx)
    ∷ from_cr3 ecx
    ∷ to_cr3 ebx
    ∷ label 4
    ∷ addl (reg edx) esi
    ∷ movss_load (at 0 esi) 0
    ∷ to_cr3 ecx
    ∷ movss_store 0 (at 0 edi)
    ∷ addl (imm 4) edi
    ∷ from_cr3 ecx
    ∷ to_cr3 ebx
    ∷ subl (reg edx) esi
    ∷ addl (reg eax) esi
    ∷ movl (at 0 esi) (reg esi)
    ∷ subl (reg eax) esi
    ∷ cmpl (reg esi) (reg ebp)
    ∷ jump not_equal back 4
    ∷ label 1
    ∷ vmcall
    ∷ []

-- scan_tool_sync/lib/cred_list.c
abbrev pub cred_list : Program
cred_list =
    rdtsc
    ∷ movl (imm 0xFF0) (reg esi)
    ∷ movl (reg eax) (at 0 esi)
    ∷ movl (reg edx) (at 4 esi)
    ∷ movl (imm 0) (reg edx)
    ∷ leal (at 20 edx) edi
    ∷ movl (at 4 edx) (reg ebp)
    ∷ movl (at 4 edx) (reg esi)
    ∷ movl (at 8 edx) (reg eax)
    ∷ movl (at 12 edx) (reg edx)
    ∷ from_cr3 ecx
    ∷ to_cr3 ebx
    ∷ label 4
    ∷ addl (reg edx) esi
    ∷ movl (at 0 esi) (reg esi)
    ∷ movups_load (at 0 esi) 0
    ∷ movups_load (at 16 esi) 1
    ∷ movups_load (at 32 esi) 2
    ∷ movups_load (at 48 esi) 3
    ∷ movups_load (at 64 esi) 4
    ∷ movups_load (at 80 esi) 5
    ∷ movups_load (at 96 esi) 6
    ∷ movups_load (at 112 esi) 7
    ∷ to_cr3 ecx
    ∷ movups_store 0 (at 0 edi)
    ∷ movups_store 1 (at 16 edi)
    ∷ movups_store 2 (at 32 edi)
    ∷ movups_store 3 (at 48 edi)
    ∷ movups_store 4 (at 64 edi)
    ∷ movups_store 5 (at 80 edi)
    ∷ movups_store 6 (at 96 edi)
    ∷ movups_store 7 (at 112 edi)
    ∷ addl (imm 116) edi
    ∷ cmpl (imm 3960) (reg edi)
    ∷ jump less ahead 2
    ∷ movl (imm 20) (reg edi)
    ∷ label 2
    ∷ from_cr3 ecx
    ∷ to_cr3 ebx
    ∷ subl (reg edx) esi
    ∷ addl (reg eax) esi
    ∷ movl (at 0 esi) (reg esi)
    ∷ subl (reg eax) esi
    ∷ cmpl (reg esi) (reg ebp)
    ∷ jump not_equal back 4
    ∷ label 1
    ∷ vmcall
    ∷ []
