-- ===== src/Lib.antt =====
-- Nachos, an instructional operating system: the data structures of its kernel and the disk side
-- of its file system.
--
-- The program's parts and how they meet. The thread kernel (code/threads) keeps its queues in
-- the singly linked list of list.cc. The file system (code/filesys) allocates sectors in the
-- bitmap of code/userprog/bitmap.cc, describes a file by a header (filehdr.cc), and reaches the
-- disk of code/machine/disk.cc through the cache of synchdisk.cc. User programs run on the
-- simulated processor of code/machine/mipssim.cc; their addresses go through the translation
-- buffer and the page table of translate.cc, and a page fault goes through the handler of
-- code/userprog/exception.cc back to translate.cc, which pages. Threads give the processor to
-- one another by the scheduler with priorities, and wait for one another on locks. Simulated
-- time moves on in interrupt.cc, which calls the handlers of the devices that are due.
--
-- Files and what they model:
-- - Base: what all parts share. Base.Outcome has the results of calls: `err assert_failed` is a
--   failed ASSERT, which ends the program, `err bad_access` an access outside an array or
--   through a null pointer, `err arithmetic_fault` a quotient that is no `int`, `err
--   out_of_fuel` a loop that was cut off. Base.Int has the C++ `int` as an integer, Base.Bits
--   the bit operations on words, Base.Lists arrays as lists.
-- - Userprog.Bitmap: code/userprog/bitmap.cc. BitMap is the class; mark, clear, test, find,
--   num_clear, find_n and new_bit_map are Mark, Clear, Test, Find, NumClear, FindN and the
--   constructor. Words are numbers below 2 ^ 32. Bitmap.View has the bitmap as a set of indices,
--   Bitmap.Loops and Bitmap.Runs the loops, Bitmap.Count the number of clear bits.
-- - Threads.LinkedList: code/threads/list.cc. The elements are in a memory of cells, addressed
--   by pointers; append, prepend, sorted_insert, sorted_remove, remove, remove_item, mapcar and
--   is_empty are the methods; remove_item is the Remove that takes an item. LinkedList.Chain
--   says when a memory holds a chain of elements, LinkedList.Entries gives the list as a
--   sequence of keys and items.
-- - Filesys.SynchDisk: code/filesys/synchdisk.cc with the bounds checks of code/machine/disk.cc.
--   read_sector, write_sector and cache_miss are ReadSector, WriteSector and CacheMiss.
--   SynchDisk.View gives the disk as its users see it.
-- - Machine.DiskHead: the latency computation of code/machine/disk.cc; compute_latency,
--   time_to_seek, modulo_diff and update_last are ComputeLatency, TimeToSeek, ModuloDiff and
--   UpdateLast.
-- - Filesys.SectorStore: the interface between the file header and the disk, which the cached
--   disk fills.
-- - Filesys.FileHeader: code/filesys/filehdr.cc. allocate, deallocate, byte_to_sector and
--   file_length are Allocate, Deallocate, ByteToSector and FileLength.
-- - Machine: the processor. Machine.Instruction is Decode with its tables (mipssim.h),
--   Machine.Mult is Mult, Machine.Cpu the registers of machine.h with DelayedLoad,
--   RaiseException and the additions that can overflow, Machine.Transfer the loads and stores,
--   Machine.Execute the switch of OneInstruction. Memory (ReadMem, WriteMem) and the kernel's
--   exception handler are the record Bus.
-- - Filesys.Directory: code/filesys/directory.cc. find_index, find, add, remove, is_dir and
--   is_empty are FindIndex, Find, Add, Remove, isDir and isEmpty; Directory.Lookup has the entry
--   for a name.
-- - Machine.Mmu, Machine.Translate, Machine.Paging: code/machine/translate.cc. Mmu is the state:
--   memory, translation buffer, table of physical pages, and the address spaces with their page
--   tables. translate, read_mem and write_mem are Translate, ReadMem and WriteMem; lru_tlb,
--   fifo_tlb, allocate_physical_page and tlb_page_table_check are LRU_TLB, FIFO_TLB,
--   AllocatePhysicalPage and TLB_PageTable_check. Mmu.Coherence says when the tables agree, and
--   gives the memory that the program sees through them.
-- - Userprog.Exception: the exception handler of code/userprog/exception.cc, behind
--   RaiseException; with it the machine has the bus that Machine.Cpu asks for, mmu_bus.
-- - Threads.Scheduler: code/threads/scheduler.cc with SCHED_PRIO, and Yield and Sleep of
--   thread.cc. ready_to_run, find_next_to_run, run, yield_thread and sleep are ReadyToRun,
--   FindNextToRun, Run, Yield and Sleep. The ready list is the sequence that its List stands
--   for.
-- - Threads.Lock: Lock of code/threads/synch.cc and the semaphore in it, as a relation of steps:
--   call, call_again (by the thread that has the lock), take and wait are the parts of Acquire,
--   release, wake and raise those of Release; yield is a switch in between.
-- - Threads.Tid: the numbers of threads, as the constructor and the destructor of
--   code/threads/thread.cc give them out and take them back, new_thread and delete_thread.
-- - Machine.Interrupt: code/machine/interrupt.cc and the timer of timer.cc. schedule,
--   check_if_due, one_tick, set_level, idle and ask_for_yield are Schedule, CheckIfDue, OneTick,
--   SetLevel, Idle and YieldOnReturn; invoke, occur, consider and consider_first are parts of
--   CheckIfDue. The handlers of the devices are arguments.
-- - Filesys.OpenFile: code/filesys/openfile.cc, and FetchFrom and WriteBack of filehdr.cc.
--   open_file, seek, read_on, read_at, write_on and write_at are the constructor, Seek, Read,
--   ReadAt, Write and WriteAt; read_slot and write_slot are a round of their loops, transfer and
--   write_through what follows the checks of the request, read_edge the reading of a sector that
--   WriteAt fills in part.
-- - Filesys.FileHeader.Extend: extendLength of filehdr.cc; open_index and fill_up are the two
--   halves of a round of its loop over the index sectors.
--
-- Loops. The loops of the bitmap and of the cache are bounded by a count and are structural
-- recursion. The loops of SortedInsert, Remove(item) and Mapcar follow pointers; their fuel is
-- the number of elements that the list counts, which is enough on every list that stands for a
-- sequence. The loops over index sectors run on the number of sectors left as fuel; each round
-- takes at least one. The fuel of the loop of OneTick is one more than the number of pending
-- interrupts, of which each round takes one that is due.
--
-- Memory that `new` leaves unset is an argument: the words of a new bitmap, the cache entries,
-- the space at an array of sector numbers, and the local variable NSecIndex of Allocate. The
-- clock stats->totalTicks is an argument too, read once for each call.
--
-- Of several user programs at once the coherence of the tables is not claimed: a page frame in
-- use belongs to the thread that runs.
--
-- Not modelled: the system calls, which are a parameter; the interrupts that may be due, and the
-- switch of threads that may follow, at the clock tick inside RaiseException; the switch of
-- stacks and registers between threads, condition variables and the other classes of synch.cc
-- beside Lock and Semaphore; the paths of the file system, and what makes a file longer
-- (ExtendWrapper of filesys.cc is an argument); the network, the console and the elevator, which
-- are devices of the host; the locks and semaphores inside synchdisk.cc, which have no effect
-- that a single caller sees; the times in a file header and the way the compiler lays a header
-- out in memory (what its bytes read as on the disk, and back, are arguments); and output. Sizes
-- and sector numbers are not negative and stay far below 2 ^ 31.
pub mod Base
pub mod Filesys
pub mod Machine
pub mod Threads
pub mod Userprog
