-- ===== src/Lib.antt =====
-- Avrix: a verification library for the kernel and drivers of a small Unix-like nanokernel.
--
-- Parts and files. Each part has a module with the data and the operations of the source, under
-- the source's names, and child modules with what is proved of them.
--   Tty     drivers/tty/tty.c, tty.h: ring buffers between two callbacks and the caller.
--   Slip    drivers/net/slip.c, slip.h: frames over a TTY (RFC 1055).
--   Ipv4    drivers/net/ipv4.c, ipv4.h: IPv4 headers and packets over SLIP.
--   Sched   kernel/sched/scheduler.c, scheduler.h: tasks, priorities, time slices, sleeping.
--   Kalloc  kernel/mm/kalloc.c, kalloc.h: the kernel heap with its free list.
--   Fs      src/fs.c, include/fs.h: the TinyFS file system in memory.
--   Mutexes lib/posix/pthread/pthread_mutex.c, posix_types.h: mutexes on a test-and-set lock.
--   Tree    the walk along a path that romfs.c and eepfs.c of drivers/fs have in common.
--   Romfs   drivers/fs/romfs.c, romfs.h: the read-only file system.
--   Eepfs   drivers/fs/eepfs.c, eepfs.h: the EEPROM file system, over an interface of the HAL.
--   Vfs     drivers/fs/vfs.c, vfs.h: mounts and descriptors over both.
--   Sync    kernel/sync/spinlock.c, spinlock.h: the composite spinlock, tickets, queue locks.
--   Door    kernel/ipc/door.c, door.h: calls between tasks through a shared buffer.
--   NkFs    src/nk_fs.c: TinyLog-4, a log of keys and values in the EEPROM.
--   Tasks   src/task.c: the scheduler of the first kernel, with dependencies between tasks.
--   Posix   lib/posix/pthread/pthread_once.c, lib/posix/unistd/sleep.c: once, sleeping.
--   Pthreads lib/posix/pthread/pthread_create.c: threads, joining, attributes of threads.
--   Hal     arch/avr8/common/hal_avr8.c: the EEPROM, the first frame of a task, resets, ticks.
--   Boot    src/main.c: what main sets up, and what the scheduler then does.
--   Fixed   src/fixed_point.c: multiplication of Q8.8 numbers.
--   Editor  examples/editor_common.c, examples/ned.c, examples/vini.c: lines, their copy in the
--           EEPROM, the commands of ned, the keys of vini, and files.
--   Base    what these share: Boolean tests, lists over the native numbers, machine words, masks.
-- Slip calls the operations of Tty, and Ipv4 those of Slip, as in the source; Ipv4.Packet and
-- Slip.Transfer run a sender and a receiver, with what is on the wire between them. Vfs calls
-- Romfs and Eepfs, whose paths Tree resolves. Tasks has the states of a task and the guards of
-- Sched, and Tasks.Choice compares the two schedulers. Pthreads runs over an interface of the
-- scheduler, which Pthreads.Ids fills with Sched. Hal.Eeprom gives Eepfs the EEPROM functions of
-- the AVR, over an interface of avr-libc. Boot sets up Kalloc, Vfs, Sched and Tty. Editor keeps its
-- copy in the EEPROM of NkFs. The other parts stand alone.
--
-- State and operations. A struct is a record, static variables are the fields of one
-- (Sched.Sched, Kalloc.State, Fs.Fs), and an operation maps a state to its results and the next
-- state. A pointer that the code compares with NULL is an option. A w-bit integer is a native
-- number with its wrap-around written out (u8, u16, u32 of Base.Bits). The callbacks of a TTY
-- are the environment: `getc` yields the characters of a list, and what `putc` gets is listed in
-- order. A critical section of the scheduler is one step, and Sched.Steps has the sequences of
-- steps; Kalloc.Safety has those of calls of the heap, Vfs.Run those of the file system,
-- Mutexes.Exclusion those of several threads on a mutex, and Sync.Exclusion the steps of threads
-- on a spinlock, one access to a lock's byte each.
--
-- Bounds and fuel. A mask is 2 ^ k - 1 with k at most 8, as the indices are bytes. The loops of
-- Tty and Slip run on fuel mask + 1, which is enough as a ring holds at most mask bytes and each
-- round takes one; the search of Kalloc on fuel heap_size + 1, since each block has a header of
-- some bytes; reads and writes of Fs on the count of bytes, as each round moves one at least.
-- Where fuel runs out a result is `none`. The walk of Tree runs on the length of the path, and
-- the search of NkFs on 256, the number of blocks. The checksum folds its carry by well-founded
-- recursion. The scheduler has 8 tasks at most.
--
-- Parameters. The size and alignment of the heap and of its block headers are those of a build;
-- `hal_context_init` is a parameter of `nk_task_create`. The EEPROM is an interface with its
-- documented behaviour as hypotheses (Eepfs.Laws.IsEeprom, NkFs.Search.IsRom, and
-- Hal.Eeprom.IsAvrEeprom for avr-libc); Eepfs.Memory and NkFs.Memory have EEPROMs that fulfil them.
-- What `sscanf` finds in a command line of ned is a parameter, a file that an editor opens is the
-- list of its characters, and an arrow key, of three bytes, is one key. The width of `int`, which
-- bounds a sum in the file systems and wraps the position of a seek, is a field of Eepfs.Hal,
-- sixteen bits at least. What runs between a door call and its return is a function on the shared
-- state. Pointers into program memory are followed as on a host, where there is one memory. Multi-
-- byte fields lie in memory low byte first. The builds modelled have TTY_ENABLE_STATS,
-- NK_KALLOC_STATS, NK_KALLOC_POSIX_COMPAT, CONFIG_KERNEL_SCHED_TYPE_PREEMPT and guarded stacks.
--
-- Not modelled: the assembly, the registers of timer and UART, the user's bytes in the heap, the
-- older drivers and locks under src/ and include/, which the build leaves out, the POSIX functions
-- that only fail or return a constant, the screen of examples/vini.c, and the debug stubs.
pub mod Base
pub mod Tty
pub mod Slip
pub mod Ipv4
pub mod Sched
pub mod Kalloc
pub mod Fs
pub mod Mutexes
pub mod Door
pub mod Sync
pub mod NkFs
pub mod Tree
pub mod Romfs
pub mod Eepfs
pub mod Vfs
pub mod Fixed
pub mod Posix
pub mod Tasks
pub mod Pthreads
pub mod Editor
pub mod Hal
pub mod Boot
