-- ===== src/Agent/Async.antt =====
-- The agents of scan_tool_async/lib that differ from those of scan_tool_sync/lib.
use imee.Base.{◌∷◌, []}
use imee.Agent.{
  eax, ebx, ecx, edx, esi, edi, imm, reg, at, always, equal, back, ahead, label, movl, from_cr3,
  to_cr3, addl, xorl, cmpl, jump, movups_load, movups_store, rdtsc, vmcall, Program,
}

-- scan_tool_async/lib/hyp.c
abbrev pub hyp_async : Program
hyp_async =
    rdtsc
    ∷ movl (imm 0xFF0) (reg esi)
    ∷ movl (reg eax) (at 0 esi)
    ∷ movl (reg edx) (at 4 esi)
    ∷ label 3
    ∷ movl (imm 0x0) (reg edx)
    ∷ movl (at 0 edx) (reg eax)
    ∷ cmpl (imm 0) (reg eax)
    ∷ jump equal back 3
    ∷ cmpl (imm 2) (reg eax)
    ∷ jump equal ahead 2
    ∷ movl (at 8 edx) (reg eax)
    ∷ movl (imm 0x0) (reg edx)
    ∷ movl (at 4 edx) (reg edx)
    ∷ from_cr3 ecx
    ∷ to_cr3 ebx
    ∷ movups_load (at 0 edx) 0
    ∷ movups_load (at 16 edx) 1
    ∷ movups_load (at 32 edx) 2
    ∷ movups_load (at 48 edx) 3
    ∷ label 1
    ∷ to_cr3 ecx
    ∷ movl (imm 0) (reg edi)
    ∷ addl (imm 12) edi
    ∷ movups_store 0 (at 0 edi)
    ∷ movups_store 1 (at 16 edi)
    ∷ movups_store 2 (at 32 edi)
    ∷ movups_store 3 (at 48 edi)
    ∷ xorl (reg eax) eax
    ∷ movl (imm 0x0) (reg edx)
    ∷ movl (reg eax) (at 0 edx)
    ∷ jump always back 3
    ∷ rdtsc
    ∷ movl (imm 0xFE0) (reg esi)
    ∷ movl (reg eax) (at 0 esi)
    ∷ movl (reg edx) (at 4 esi)
    ∷ label 2
    ∷ vmcall
    ∷ []

-- scan_tool_async/lib/read_64_bytes.c
abbrev pub read_64_bytes_async : Program
read_64_bytes_async =
    rdtsc
    ∷ movl (imm 0xFF0) (reg esi)
    ∷ movl (reg eax) (at 0 esi)
    ∷ movl (reg edx) (at 4 esi)
    ∷ movl (imm 0x0) (reg edx)
    ∷ label 3
    ∷ movl (at 0 edx) (reg eax)
    ∷ cmpl (imm 0) (reg eax)
    ∷ jump equal back 3
    ∷ cmpl (imm 2) (reg eax)
    ∷ jump equal ahead 2
    ∷ movl (at 8 edx) (reg eax)
    ∷ movl (imm 0x0) (reg edx)
    ∷ movl (at 4 edx) (reg edx)
    ∷ from_cr3 ecx
    ∷ to_cr3 ebx
    ∷ movups_load (at 0 edx) 0
    ∷ movups_load (at 16 edx) 1
    ∷ movups_load (at 32 edx) 2
    ∷ movups_load (at 48 edx) 3
    ∷ label 1
    ∷ to_cr3 ecx
    ∷ movl (imm 0) (reg edi)
    ∷ addl (imm 12) edi
    ∷ movups_store 0 (at 0 edi)
    ∷ movups_store 1 (at 16 edi)
    ∷ movups_store 2 (at 32 edi)
    ∷ movups_store 3 (at 48 edi)
    ∷ xorl (reg eax) eax
    ∷ movl (reg eax) (at 0 eax)
    ∷ jump always back 3
    ∷ rdtsc
    ∷ movl (imm 0xFE0) (reg esi)
    ∷ movl (reg eax) (at 0 esi)
    ∷ movl (reg edx) (at 4 esi)
    ∷ label 2
    ∷ vmcall
    ∷ []
