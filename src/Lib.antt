-- ===== src/Lib.antt =====
-- libdbos: Dune, a system that runs an application in ring 0 of a hardware virtual machine, with
-- its own page tables, page allocator, interprocessor calls and a sandbox on top.
--
-- Parts and files:
--   Ipi    libdune/ipi_call.c and ipi_call.h: rings of messages between pairs of cores, the retry
--          loop of the sender and the interrupt handler. `queue_call_fast`, `collect_messages`,
--          `queue_call` and `interrupt_handler` are dune_queue_ipi_call_fast,
--          dune_collect_ipi_messages, dune_queue_ipi_call and dune_ipi_interrupt_handler. `Step`
--          in Ipi/Spsc interleaves a sender and a receiver, access by access.
--   Page   libdune/page.c: the allocator of physical pages, with lists for each core, stealing
--          and growth. Functions keep their names without the prefix dune_.
--   Vm     libdune/vm.c and mmu-x86.h: entries (Vm/Pte), memory (Vm/Machine), the walk of the
--          tables (Vm/Walk), lookup (Vm/Lookup), mapping and protection (Vm/Map), clone, free and
--          the copy-on-write fault (Vm/Clone). The allocator is an interface, PageOps.
--   Ept    kern/ept.c: translation of addresses, with the layout of kern/core.c and dune_va_to_pa
--          of libdune/dune.h (Ept/Addr), entries and their release (Ept/Entry), lookup
--          (Ept/Lookup), mapping and faults (Ept/Map), the notifiers (Ept/Notify). The kernel's
--          page functions are an interface, Host; memory areas and user pages are Env.
--   Spawn  libdune/fast_spawn.c: snapshots. The entries and regions that are shared (Spawn/Entry),
--          the callbacks and clones that build a snapshot's tables (Spawn/Cow), the handler of a
--          write to a shared page (Spawn/Fault), the handlers of flushes (Spawn/Flush), patched
--          system calls (Spawn/Patch), the order of the threads (Spawn/Run), and dbos_tlb_shootdown
--          against the entry and exit of vmx_launch in kern/vmx.c (Spawn/Shootdown). Tables and
--          memory are those of Vm, messages those of Ipi.
--   Vmx    kern/vmx.c: identifiers of virtual processors (Vmx/Vpid), vmx_allocate_vpid and
--          vmx_free_vpid; posted interrupts, send_posted_ipi against the core that takes them
--          (Vmx/Posted); and vmx_handle_queued_interrupts (Vmx/Queued). The VMCS fields that the
--          code reads and writes are fields of the state.
--   Umm    apps/sandbox/umm.c and mem_ref_is_safe of sandbox.h: heap and mappings of the sandboxed
--          program. System calls (Sys) and the page tables (PageTables) are interfaces.
--   Sandbox apps/sandbox/trap.c and exec.c: the tests on pointers (Sandbox/Check), the check of the
--          parameters of each system call (Sandbox/Params), the handler with its monitor
--          (Sandbox/Handler), which calls Umm, and the arguments of exec_execev (Sandbox/Exec). The
--          kernel's headers (Abi) and what the handler leaves to others (Ops) are interfaces.
--   Elf    dune_elf_load_ph of libdune/elf.c: a segment in memory. The address space is its bytes and
--          the places that may be written; mmap and mprotect are an interface (Calls), and Maps is
--          what their manual says of them.
--   Sandbox/Loader, Sandbox/Start apps/sandbox/main.c: the loop over the program headers with
--          process_elf_ph, which calls Elf, and the first stack of the program (setup_arguments) as
--          the list of its writes.
--   Firewall apps/ufirewall/firewall.c: rules and their decisions, the parser (Firewall/Parse), and
--          the monitor that the handler of Sandbox calls (Firewall/Guard).
--   Common shared tests, C arrays as lists, and the algebra of bit masks.
-- The sandbox maps through the page tables of Vm, which take their pages from Page; guest-physical
-- addresses that Vm maps to are translated by Ept, which computes them as the library does.
--
-- Conventions: numbers are unbounded, and the wrap-around of machine words is written out where
-- the code can reach it. `none` is the end of the program (a failed assert, exit, a NULL that is
-- written to). Page tables are words of memory by byte address.
--
-- Interleavings are step relations with one step for each access to shared memory: Ipi/Spsc,
-- Spawn/Shootdown, Spawn/Fault/Race, Spawn/Run and Vmx/Posted. The fault handler of
-- Spawn/Fault runs alone, but for what the snapshot's core does to its entry during the copy, which
-- is an argument.
--
-- Bounds and fuel: the allocator gives up after 100001 attempts, as the code does. The walk of the
-- page tables recurs on the level, its loop on the number of entries of the range. The loop of
-- ept_mmu_notifier_invalidate_range_start has one round for each page of the range and one more;
-- that is enough because each round goes on by at least a page.
--
-- Not modelled: locks (each routine of page.c, vm.c and ept.c runs alone; the rings are
-- interleaved), flushes of the guest's TLB, set-up by system calls, retries of the
-- fault handler of snapshots, its pipelined flush handler, and its counters,
-- the programming of the VMCS and the exits in kern/vmx.c, entry and traps, the file header and the
-- section headers that elf.c reads, and the copies of other projects under apps.
pub mod Common
pub mod Ipi
pub mod Page
pub mod Vm
pub mod Ept
pub mod Umm
pub mod Elf
pub mod Sandbox
pub mod Firewall
pub mod Spawn
pub mod Vmx
