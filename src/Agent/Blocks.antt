-- ===== src/Agent/Blocks.antt =====
-- The agents of scan_tool_sync/lib that copy a block.
use imee.Base.{◌∷◌, []}
use imee.Agent.{
  eax, ebx, ecx, edx, esi, edi, ebp, imm, reg, at, less, back, label, movl, from_cr3, to_cr3, addl,
  imull, incl, cmpl, jump, movups_load, movups_store, rdtsc, vmcall, Program,
}

-- scan_tool_sync/lib/hyp.c
abbrev pub hyp : Program
hyp =
    rdtsc
    ∷ movl (imm 0xFF0) (reg esi)
    ∷ movl (reg eax) (at 0 esi)
    ∷ movl (reg edx) (at 4 esi)
    ∷ movl (imm 0x0) (reg edx)
    ∷ movl (at 8 edx) (reg eax)
    ∷ movl (imm 0) (reg ebp)
    ∷ label 3
    ∷ movl (imm 0x0) (reg edx)
    ∷ movl (at 4 edx) (reg edx)
    ∷ movl (imm 128) (reg eax)
    ∷ imull (reg ebp) eax
    ∷ addl (reg eax) edx
    ∷ from_cr3 ecx
    ∷ to_cr3 ebx
    ∷ movups_load (at 0 edx) 0
    ∷ movups_load (at 16 edx) 1
    ∷ movups_load (at 32 edx) 2
    ∷ movups_load (at 48 edx) 3
    ∷ movups_load (at 64 edx) 4
    ∷ movups_load (at 80 edx) 5
    ∷ movups_load (at 96 edx) 6
    ∷ movups_load (at 112 edx) 7
    ∷ label 1
    ∷ to_cr3 ecx
    ∷ movl (imm 0) (reg edi)
    ∷ addl (imm 12) edi
    ∷ addl (reg eax) edi
    ∷ movups_store 0 (at 0 edi)
    ∷ movups_store 1 (at 16 edi)
    ∷ movups_store 2 (at 32 edi)
    ∷ movups_store 3 (at 48 edi)
    ∷ movups_store 4 (at 64 edi)
    ∷ movups_store 5 (at 80 edi)
    ∷ movups_store 6 (at 96 edi)
    ∷ movups_store 7 (at 112 edi)
    ∷ incl ebp
    ∷ cmpl (imm 11) (reg ebp)
    ∷ jump less back 3
    ∷ label 2
    ∷ vmcall
    ∷ []

-- scan_tool_sync/lib/syscalldmp.c
abbrev pub syscalldmp : Program
syscalldmp =
    rdtsc
    ∷ movl (imm 0xFF0) (reg esi)
    ∷ movl (reg eax) (at 0 esi)
    ∷ movl (reg edx) (at 4 esi)
    ∷ movl (imm 0x0) (reg edx)
    ∷ movl (at 8 edx) (reg eax)
    ∷ movl (imm 0) (reg ebp)
    ∷ label 3
    ∷ movl (imm 0x0) (reg edx)
    ∷ movl (at 4 edx) (reg edx)
    ∷ movl (imm 128) (reg eax)
    ∷ imull (reg ebp) eax
    ∷ addl (reg eax) edx
    ∷ from_cr3 ecx
    ∷ to_cr3 ebx
    ∷ movups_load (at 0 edx) 0
    ∷ movups_load (at 16 edx) 1
    ∷ movups_load (at 32 edx) 2
    ∷ movups_load (at 48 edx) 3
    ∷ movups_load (at 64 edx) 4
    ∷ movups_load (at 80 edx) 5
    ∷ movups_load (at 96 edx) 6
    ∷ movups_load (at 112 edx) 7
    ∷ label 1
    ∷ to_cr3 ecx
    ∷ movl (imm 0) (reg edi)
    ∷ addl (imm 12) edi
    ∷ addl (reg eax) edi
    ∷ movups_store 0 (at 0 edi)
    ∷ movups_store 1 (at 16 edi)
    ∷ movups_store 2 (at 32 edi)
    ∷ movups_store 3 (at 48 edi)
    ∷ movups_store 4 (at 64 edi)
    ∷ movups_store 5 (at 80 edi)
    ∷ movups_store 6 (at 96 edi)
    ∷ movups_store 7 (at 112 edi)
    ∷ incl ebp
    ∷ cmpl (imm 11) (reg ebp)
    ∷ jump less back 3
    ∷ label 2
    ∷ vmcall
    ∷ []

-- scan_tool_sync/lib/read_4_bytes.c
abbrev pub read_4_bytes : Program
read_4_bytes =
    rdtsc
    ∷ movl (imm 0xFF0) (reg esi)
    ∷ movl (reg eax) (at 0 esi)
    ∷ movl (reg edx) (at 4 esi)
    ∷ movl (imm 0x0) (reg edx)
    ∷ movl (at 8 edx) (reg eax)
    ∷ label 3
    ∷ movl (imm 0x0) (reg edx)
    ∷ movl (at 4 edx) (reg edx)
    ∷ from_cr3 ecx
    ∷ to_cr3 ebx
    ∷ movups_load (at 0 edx) 0
    ∷ label 1
    ∷ to_cr3 ecx
    ∷ movl (imm 0) (reg edi)
    ∷ addl (imm 12) edi
    ∷ movups_store 0 (at 0 edi)
    ∷ rdtsc
    ∷ movl (imm 0xFE0) (reg esi)
    ∷ movl (reg eax) (at 0 esi)
    ∷ movl (reg edx) (at 4 esi)
    ∷ label 2
    ∷ vmcall
    ∷ []

-- scan_tool_sync/lib/read_64_bytes.c
abbrev pub read_64_bytes : Program
read_64_bytes =
    rdtsc
    ∷ movl (imm 0xFF0) (reg esi)
    ∷ movl (reg eax) (at 0 esi)
    ∷ movl (reg edx) (at 4 esi)
    ∷ movl (imm 0x0) (reg edx)
    ∷ movl (at 8 edx) (reg eax)
    ∷ label 3
    ∷ movl (imm 0x0) (reg edx)
    ∷ movl (at 4 edx) (reg edx)
    ∷ from_cr3 ecx
    ∷ to_cr3 ebx
    ∷ movups_load (at 0 edx) 0
    ∷ movups_load (at 16 edx) 1
    ∷ movups_load (at 32 edx) 2
    ∷ movups_load (at 48 edx) 3
    ∷ label 1
    ∷ to_cr3 ecx
    ∷ movl (imm 0) (reg edi)
    ∷ addl (imm 12) edi
    ∷ movups_store 0 (at 0 edi)
    ∷ movups_store 1 (at 16 edi)
    ∷ movups_store 2 (at 32 edi)
    ∷ movups_store 3 (at 48 edi)
    ∷ rdtsc
    ∷ movl (imm 0xFE0) (reg esi)
    ∷ movl (reg eax) (at 0 esi)
    ∷ movl (reg edx) (at 4 esi)
    ∷ label 2
    ∷ vmcall
    ∷ []

-- scan_tool_sync/lib/do_nothing.c
abbrev pub do_nothing : Program
do_nothing = vmcall ∷ []
