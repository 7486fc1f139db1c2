-- ===== src/Lib.antt =====
-- borfos, a minimal kernel for 32-bit x86: models of its parts and theorems about them.
--
-- The parts, with the files of the repository and the module that models each:
--   kernel/include/list.h, kernel/lib/list.c              Links      circular lists in a store
--   kernel/lib/bprintf.c                                  Bprintf    formatted output into a buffer
--   kernel/include/mem.h, kernel/lib/mem.c                Memory     page tables, buddy pools, set-up
--   kernel/include/scheduler.h, kernel/lib/scheduler.c    Scheduler  run queue and switch of tasks
--   kernel/include/timers.h, kernel/lib/timers.c          Timers     sorted timers, sleeping tasks
--   kernel/lib/scheduler.c, from create_kernel_task on    Tasks      new tasks and the first one
--   kernel/lib/scheduler.c with kernel/lib/timers.c       Kernel     all the tasks, after any calls
--   kernel/include/mutex.h, kernel/lib/mutex.c            Mutex      nested mutexes with waiters
--   kernel/include/hashtable.h, kernel/lib/hashtable.c    Hashtable  256 lists
--   kernel/include/file.h, kernel/lib/file.c              File       writing a buffer byte by byte
--   kernel/lib/kprintf.c                                  Kprintf    the kernel's log
--   kernel/drivers/vga.c                                  Vga        the text console
--   kernel/drivers/serial.c                               Serial     serial ports
--   kernel/drivers/pic.c                                  Pic        interrupt controllers
--   kernel/include/idt.h, kernel/drivers/cpu/idt.c        Interrupts gates, entries and numbers
--   kernel/drivers/cpu/cpuid.c                            Cpu        features of the processor
--   kernel/drivers/cpu/lapic.c                            Cpu.Lapic  local APIC
--   kernel/drivers/timers/apic.c                          Cpu.Lapic  its timer
--   kernel/drivers/cpu/kvm.c                              Cpu.Kvm    the clock of the hypervisor
--   kernel/boot/mboot.c, kernel/include/multiboot.h       Multiboot  what the boot loader hands over
--   kernel/include/pci.h, kernel/drivers/pci.c            Pci        tables and scan of the buses
--   kernel/include/ctype.h, kernel/libc/ctype.c           Ctype      classes of characters
--   kernel/include/hash.h, kernel/lib/hash.c              Hash       keys of the hash tables
--   kernel/libc/heap.c                                    Heap       pages of the allocator
-- Common holds the names and lemmas that all of them use, System the state that Scheduler, Timers
-- and Mutex share, Example a small machine for the tests.
--
-- How they interact. Every queue of the kernel is a list of list.h: the run queue, the timers,
-- the waiters of a mutex, the free blocks of a pool, the buckets of a hash table, the files of
-- the log. Links.Ring is the property of the store that the other modules keep; Links.Frame
-- says that an operation on one list leaves the others. Timers uses the run queue to wake
-- tasks, Mutex to put waiters to sleep, Kprintf uses Bprintf for its line and the files for its
-- output, and the mappings of Memory.Kernel take their addresses from a pool.
--
-- Kernel puts the run queue and the timers together: Kernel.IsKernel says which tasks are in
-- the run queue and which timers are registered, in one store of nodes; Kernel.Steps lists the
-- calls that the tasks and the interrupt make and what their callers take care of, Kernel.Reach
-- is the relation of the states that such calls lead to, and Kernel.Boot gives the first one.
-- There the constructor of the scheduler runs before that of the timer sets the backend.
-- The constructors of Cpu and Pic take their numbers from Interrupts, and those of Cpu their
-- addresses from Memory.
--
-- Memory.Pool.Inv is the property of a buddy pool that every operation keeps: the store holds
-- the free lists, whose blocks are aligned, lie in the array and do not meet. Memory.Setup is
-- the constructor, which fills the two pools from the memory map, and Memory.Pages and
-- Memory.Release follow a page through both of them. The code merges a freed block with a free
-- block at its buddy without a look at that block's order; Memory.Pool.Free.IsOrdered says
-- where that is right, and is a hypothesis of the theorems about freeing.
--
-- Conventions. A pointer is a number, NULL is 0, and a field of a structure is a function from
-- addresses (Links, System) or from indices of an array (Memory). Words are natural numbers,
-- with the wrap-around written out. A function keeps its name in the source; the state is an
-- argument and a part of its result. A definition for a part of a function says which part in
-- its comment. A loop over an array is recursion on its rounds. Other loops have fuel: the
-- walks of a list need a round for each node and one more, and vbprintf a round for each byte
-- of the format and one more, the scan of the PCI buses a round for each level of bridges, and
-- the loops over the memory map a round for each entry; the theorems state or prove how much is
-- enough. `panic` is PANIC, which stops the machine.
--
-- Parameters. The clock (`rdtsc`) and the handlers of timers are arguments of Timers, `memmove`
-- and its documented behaviour arguments of Vga, the writing of a byte or a buffer of a device
-- an argument of File and Kprintf, the reads of the line status an argument of Serial, and what
-- the handlers of interrupts do an argument of Interrupts and Pic. The results of `malloc` and
-- `calloc` are arguments of Tasks and Pci, those of `cpuid` and `popf`, and what the hypervisor
-- writes to its structures, arguments of Cpu; the memory map of the boot loader, the entry at
-- an address, is an argument of Memory.Setup; the registers of the PCI devices do not change by
-- being read.
--
-- Not modelled: kernel/libc/malloc and kernel/libc/newlib, which are copies of other projects;
-- boot/entry.S, the linker script, the constant table of segments and the build scripts, which
-- have no logic of the kernel; the order of the constructors but for the two of Kernel.Boot, and the text that
-- drivers log.
pub mod Common
pub mod Links
pub mod Bprintf
pub mod Memory
pub mod System
pub mod Scheduler
pub mod Timers
pub mod Mutex
pub mod Example
pub mod Vga
pub mod File
pub mod Kprintf
pub mod Hashtable
pub mod Interrupts
pub mod Ctype
pub mod Hash
pub mod Pci
pub mod Serial
pub mod Pic
pub mod Heap
pub mod Kernel
pub mod Tasks
pub mod Cpu
pub mod Multiboot
