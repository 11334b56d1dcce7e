-- ===== src/Lib.antt =====
-- A model of the operating system simulator: the threads of the CPUs and of the loader, the timer
-- at which they wait, the multi-level queue scheduler, the instructions of a process, its memory,
-- the page tables and the physical memories, and the TLB, as the sources are compiled with
-- include/os-cfg.h (MLQ_SCHED, CPU_TLB, MM_PAGING, SYNCH).
--
-- How the parts interact: `main` reads the configuration, makes the devices and starts the threads.
-- The loader reads processes from files and puts each into the scheduler at its time. A CPU takes a
-- process from the scheduler (`get_proc`), which keeps a queue for each priority, runs one
-- instruction of it in each slot of time, and gives it back when its time slot is used up. At the
-- end of a slot every thread waits until the timer lets all of them go on. An instruction allocates
-- or frees a region of the process's area, or reads or writes a byte, by the operations of
-- src/cpu-tlb.c. `vm_map_ram` takes frames from the RAM device, swaps victims out when there is
-- none, and writes page table entries. A byte is reached through `pg_getpage`, and the TLB caches
-- its frame: the operations of src/cpu-tlb.c look there first.
--
-- Files:
-- - Os: the threads of src/os.c as steps; Os/Tally and Os/Conserved: where the processes are;
--   Os/Idle: a CPU with no work; Os/Each, Os/Stopped and Os/Slice: a CPU that has stopped, and the
--   time slot; Os/Run: the threads over src/cpu.c.
-- - Os/Config: `read_config` of src/os.c, with Os/Config/RoundTrip; Os/Boot: `main` up to the start
--   of the threads, and the processes that `ld_routine` makes; Os/Boot/Ready and Os/Boot/Start:
--   what the threads start from; Os/Boot/First: the first process to run.
-- - Os/Clocked: the threads of src/os.c at the barrier of src/timer.c; Os/Clocked/Fits and
--   Os/Clocked/Linked: a thread and its device; Os/Clocked/Alone: the two parts by themselves;
--   Os/Clocked/Ending: time slots and the end of the program.
-- - Timer: src/timer.c, the barrier between the slots; Timer/Invariant and Timer/Rounds: each
--   device in its slot; Timer/Barrier: what the barrier promises.
-- - Sched: src/sched.c; Sched/Pick: the dispatch loop against the policy; Sched/Levels and
--   Sched/Dispatch: the scheduler as a list for each priority; Sched/Plain: the build without
--   MLQ_SCHED.
-- - Queue: src/queue.c; Queue/Refine: a queue as the list of its processes; Queue/Priority and
--   Queue/Priority/Refine: `dequeue` without MLQ_SCHED.
-- - Cpu: `run` of src/cpu.c; Cpu/Run: its effect on a process and on memory; Cpu/Program: an
--   allocation and a write as instructions; Cpu/Legacy: the other functions of src/cpu.c, over Mem,
--   src/mem.c, with Mem/Address on its addresses.
-- - Loader: src/loader.c; Loader/RoundTrip: a program that is written out and loaded again.
-- - CpuTlb: src/cpu-tlb.c, what a CPU does to memory through the TLB; CpuTlb/Coherent: agreement
--   with the page table; CpuTlb/Agree, CpuTlb/Alloc and CpuTlb/Free: the TLB after an allocation
--   and a release; CpuTlb/Lock: the lock; CpuTlb/Owners and CpuTlb/Apart: two processes over one
--   RAM.
-- - Tlb: src/cpu-tlbcache.c; Tlb/Entry: the fields of an entry; Tlb/Search, Tlb/Laws, Tlb/Stale,
--   Tlb/Invalidate and Tlb/Flush: the TLB as a partial map; Tlb/Fresh: a TLB with no valid entry;
--   Tlb/Device, Tlb/Device/Rounds, Tlb/Device/Loops: the loops over the device as they are written.
-- - Vm: the lists of src/mm-vm.c and src/mm.c; Vm/FreeList: free regions and limits, with Vm/Fit on
--   the search; Vm/Page: frames for pages, with Vm/Map, Vm/Shortage and Vm/Copy; Vm/Swap and
--   Vm/SwapBack: a page that is swapped out and comes back; Vm/Bytes: single bytes and victims;
--   Vm/Ops: `__alloc`, `__free`, `__read`, `__write`, with Vm/ReadWrite, Vm/Release, Vm/Place and
--   Vm/Alloc for allocation as a whole, and Vm/Use of what it gave; Vm/Forward: the other
--   functions.
-- - Pte: page table entries of src/mm.c and the address macros; Pte/Laws and Pte/RoundTrip: what a
--   reader gets back.
-- - Word: the macros of include/bitops.h and include/mm.h; Word/Fields: what they do to a field.
-- - Memphy: src/mm-memphy.c; Memphy/Access: cells; Memphy/Frames: free frames.
-- - Common: tests, lists, sums, results and bits; Tests: the theorems at concrete inputs.
--
-- Conventions. A pointer that may be NULL is an `Option`; a status below 0 is `none` or `false`.
-- What C leaves undefined (a read outside an array, a pointer that was never written) is `fault`,
-- the end of the program by `exit` is `exited`. An `unsigned` value keeps its wrap-around. The id
-- of a process is 32 bits, and is sign-extended where the TLB compares it as an `int`. `int`s that
-- the code only uses with values that are not negative are numbers. `malloc` is taken to give
-- memory; its old contents are an argument where the code reads them. `fscanf`, `fopen` and `rand`
-- are parameters.
--
-- Fuel: the dispatch loop gets `get_fuel`, two passes over the levels and a last test, which is
-- always enough. The loop over free regions gets `scan_fuel`, a round for each byte and two for
-- each region; with size 0 the code does not end, and the model gives `timeout`.
--
-- Threads. A function of a component runs as one step in that component's theorems; `tlb_lock` is a
-- part of the state of CpuTlb and of Cpu, where a call that finds it held elsewhere is `timeout`.
-- In Os a thread's code is cut where it touches what the threads share, and the steps come in any
-- order. There the scan of `get_mlq_proc`, which holds no lock, is not the loop of Sched: it may
-- end at any level, refill the slots or find nothing, since other threads move while it runs. An
-- instruction is one step, although `tlbread` takes no lock.
--
-- The loader reads a file when it comes to it: the steps are those with the processes up to the
-- first file that does not load, if there is one, at which the program ends.
--
-- Memory from `malloc` and from the stack that is not written before it is read is an argument: for
-- the start of the program it is the record `Memory` of Os/Boot.
--
-- Not modelled: printing and the dumps, and src/paging.c, a test program. The branches of src/os.c
-- that include/os-cfg.h leaves out (a size of the TLB in the configuration, fixed sizes of memory,
-- a process without a `prio`) are left out here too.
pub mod Common
pub mod Word
pub mod Pte
pub mod Queue
pub mod Sched
pub mod Memphy
pub mod Tlb
pub mod Vm
pub mod CpuTlb
pub mod Mem
pub mod Cpu
pub mod Loader
pub mod Os
pub mod Timer
pub mod Tests
