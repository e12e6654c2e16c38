-- ===== src/Lib.antt =====
-- IMEE runs a small introspection agent inside a virtual machine of another user, on a vCPU of
-- its own that has a copy of the target's extended page tables (EPT). The hypervisor part is
-- kvm/imee.c, called from a modified KVM of Linux 3.13; the agents are position-independent
-- programs in scan_tool_sync/lib and scan_tool_async/lib.
--
-- For a scan, kvm_imee_get_guest_context makes one context for each machine: copy_leaf_ept
-- copies the leaf tables of the machine, make_imee_ept builds the levels above them, and
-- map_local_page_tables adds five pages with the agent's code, data and page tables.
-- start_guest_intercept then picks a context, points the vCPU to its EPT and waits for an
-- interrupt handler on the guest's core to report the guest's page table root; the agent
-- switches cr3 between its own page tables and that root. kvm_imee_stop ends the session. The
-- commands reach kvm/imee.c through kvm_vcpu_ioctl in kvm/kvm_main.c; in kvm/vmx.c the first EPT
-- violation of the agent puts its code in place of the guest's, its vmcall starts the next scan,
-- and vmx_vcpu_run can trap the target's loads of cr3.
--
-- Files. Numbers are native naturals; a word keeps its wrap-around where the code can reach it.
-- - Base: lists, Boolean tests and bit operations. Masks: EPT_MASK and the other masks of
--   kvm/imee.c as arithmetic.
-- - Host: the pages that hold tables, the results of the page allocator, the direct map.
-- - Frames: init_ept_frames, get_ept_page, release_ept_frames, over the globals p_bases, p_base,
--   p_base_idx, p_idx.
-- - Ept: kvm_mmu_page, introspection_context (kvm/imee.h), get_epte, map_epte and the page
--   lists. Ept/Walk is the walk of the hardware and the tree that the tables must be; Ept/Room
--   and Ept/Fresh are the pages still to be given out, Ept/Change and Ept/Grow what a write does
--   to the tree, Ept/Apart what it does to the tables of others, and Ept/Leaves what becomes of
--   the entries of the last level.
-- - Local: init_local_page_tables and map_local_page_tables.
-- - Shadow: copy_leaf_ept and make_imee_ept. They read the machine's own tables as a list of
--   pages. Shadow/Loose follows copy_leaf_ept, Shadow/Lower, Shadow/Hang and Shadow/Add one leaf
--   page through the levels above it, Shadow/Fill the loop over the leaf pages, and Shadow/Tree
--   the whole of make_imee_ept.
-- - Context: the list of contexts, create_introspection_context, get_next_ctx, kvm_to_ctx,
--   remap_gpa_code. Context/Whole is the EPT of a new context, Context/Isolated those of several
--   contexts. Context/Owned says which entries keep the agent in its own pages; Context/Guarded
--   is the invariant that all entries of the last level are such, Context/Grown the making of
--   contexts and Context/Confined the replacement of the code page under it.
-- - Session: start_guest_intercept, its handler imee_write_eoi, kvm_imee_stop, over the globals
--   they share. One call takes as input what the hardware and the guest answer (Answer). The
--   handler faults where last_cr3 is 0 and there is no target; in start_guest_intercept there
--   always is one.
-- - Segments: vmx_segment_access_rights and vmx_get_seg_sec of kvm/vmx.c. Segments/Cache is the
--   cache of the segment registers with vmx_get_segment, Segments/Valid guest_state_valid,
--   fix_rmode_seg and vmx_set_segment; the numbers and masks of the kernel's headers are
--   parameters (Config), and the bits of a mask a function. Segments/Fields, Segments/Coherent,
--   Segments/Answers and Segments/Set are about single calls, Segments/Steps about sequences of
--   them.
-- - Setup: kvm_imee_get_guest_context, init_global_vars and setup_imee_vcpu_sregs; Setup/Block
--   is the first block of pages, Setup/Sound and Setup/Guarded are the command from there on.
--   What a call takes from the process, the allocator and vm_list is a record (Call).
-- - Guest: get_ptr_guest_page and get_guest_pte, the walk of the page tables of a 32-bit guest.
--   Guest/Walk is the walk of the processor.
-- - Vmx: the additions in kvm/vmx.c over the globals and the VMCS of each vCPU (Machine), with
--   adjust_imee_vcpu and do_switch_cr3. Where start_guest_intercept has picked a context,
--   with_start adds to the session what set_cr0 in init_imee_vcpu leaves of the VMCS of the
--   agent's vCPU: the exit on loads of cr3, TS and the cached cr3. Vmx/Exits has
--   handle_exception, handle_vmcall, handle_ept_violation and handle_ept_misconfig, Vmx/Run the
--   additions to vmx_vcpu_run before the entry and after the exit, and Vmx/Step all steps of the
--   host that touch a session, as one relation. Vmx/Scan has the sequences of those that a scan
--   is made of, with the pages that they take, Vmx/Guarded the invariant of the contexts in
--   each, and Vmx/Confined the whole session. Vmx/Eptp has construct_eptp and vmx_write_eptp;
--   the constants of the kernel's asm/vmx.h are parameters. Vmx/Reads has vmx_read_cr3,
--   vmx_write_cr3 and vmx_read_rsp_rip over the VMCS that is loaded.
-- - Ioctl: the cases of kvm_vcpu_ioctl in kvm/kvm_main.c and kvm_vcpu_release. Ioctl/Refine has
--   the board that the commands refine: the machines with a context, each with whether it is
--   still to be scanned.
-- - Agent: the instructions the agents use. Agent/Machine is how they run, Agent/Blocks,
--   Agent/Reads, Agent/Lists, Agent/NoSse and Agent/Async are the programs, Agent/Check is a
--   check of a program for stores under the guest's page tables. Agent/Rounds, Agent/Copy and
--   Agent/Whole follow the loop of the agents that copy 128 bytes a round, Agent/Straight those
--   without a loop, Agent/Exchange and Agent/Serve the rounds of the asynchronous hyp.
-- - Tools: the thread go of scan_tool_async/src/main.c and the agent as two processes over the
--   buffer, one access a step; what the guest holds at an address during the run is a relation,
--   a parameter, since its own processors go on. Tools/Places is what each place of the thread
--   says of the buffer; Tools/Invariant, Tools/Safety and Tools/Progress are about all
--   interleavings, Tools/Refine about the instructions of hyp behind the agent's steps.
--   Tools/Tasks is the walk of scan_tool_sync/src/pidlist.c, Tools/Watch the loop of
--   scan_tool_sync/src/rootkit_detector.c, both over a function for the replies.
--
-- Bounds. map_epte runs at most 4 rounds, as the code does. The wait of start_guest_intercept is
-- counted by how often exit_flg is read, and its limit is the code's 10,000,000. An agent is run
-- for a number of steps; 500 are enough for those that copy a block, which take at most 366. The
-- loops of Tools/Tasks and Tools/Watch run on fuel: as many rounds as the ring has tasks, and
-- one more than the replies before the change, are enough. A violation takes three pages at
-- most, so that a block of 1023 pages that has n left after the set-up is enough for n / 3
-- violations. A store through NULL and an access behind an array are a fault, written none.
--
-- Not modelled. The memory under two page table roots is taken as separate, which is what the
-- local and the guest's tables are for as long as no guest page is one of the five local ones.
-- The results of the page allocator, the direct map, the page tables of the calling process and
-- the machine's own EPT are inputs. kmalloc does not fail, while get_zeroed_page may return
-- NULL. Of what init_imee_vcpu writes to the VMCS through set_segment, set_rflags, set_efer and
-- set_cr4, a Machine holds nothing; Setup and Segments are about these values. The locks of the
-- kernel are left out: each operation of kvm/imee.c is one step, with the handler between two
-- reads of exit_flg. A read of 64 bits from the VMCS and the flush of the TLB are taken as
-- exact. The pages of a new EPT come from the current block: a block that runs out while an EPT
-- is built is left to Frames. The rest of KVM, the entry stubs of interrupts, the counters that
-- are printed, and of the user programs in scan_tool_sync/src and scan_tool_async/src all but
-- the loops named above have no model. In kvm/imee.c hva_to_gfn, walk_gpt, fix_lib_normal and
-- the functions around them are commented out, so that get_guest_pte has no caller. Of
-- scan_tool_async/lib only hyp.c and read_64_bytes.c differ from scan_tool_sync/lib; the others
-- are the same programs.
pub mod Base
pub mod Masks
pub mod Host
pub mod Frames
pub mod Ept
pub mod Local
pub mod Shadow
pub mod Context
pub mod Session
pub mod Segments
pub mod Setup
pub mod Guest
pub mod Vmx
pub mod Ioctl
pub mod Agent
pub mod Tools
