-- ===== src/Lib.antt =====
-- Nachos 4.0 (NachOS-4.0/code): the file system, the threads and the simulated processor,
-- modelled as functions on explicit state, with the theorems that make it correct.
--
-- The program is an instructional operating system kernel on a simulated MIPS machine. The first
-- part modelled here is the file system, as it is built without FILESYS_STUB: a bitmap of free
-- sectors, file headers that name the data sectors of a file, open files that read and write
-- bytes through whole sectors, a directory of names, and the file system that keeps the bitmap
-- and the directory in two files of the same disk. Its operations call each other in that order.
-- The second part is the threads of the kernel: the scheduler, semaphores, locks and conditions,
-- and the simulated interrupts that preempt them. The third part is the processor that runs user
-- programs: it fetches a word through the address translation, decodes it and executes it, and
-- ends at an exception where the kernel's handler is called.
--
-- Which file models what:
--     Base.antt and Base/: shared notation. Base/Outcome is the result of code that may stop
--     (`abort` is a failed ASSERT of NachOS-4.0/code/lib/debug.h, `fault` an access outside an
--     array or through a pointer to no element, a deleted thread, a loop out of rounds, or a
--     quotient that stops the host), Base/Arrays and Base/Lists are arrays, Base/Words the bits
--     of a word, Base/Bytes the bytes of words.
--     Bitmap.antt: NachOS-4.0/code/lib/bitmap.h and NachOS-4.0/code/lib/bitmap.cc (Bitmap, Mark,
--     Clear, Test, FindAndSet, NumClear, SelfTest), divRoundUp of NachOS-4.0/code/lib/utility.h.
--     Bitmap/View says which bits are marked; Bitmap/Laws and Bitmap/Search state the operations
--     by it.
--     Filesys/Disk.antt: SynchDisk::ReadSector and WriteSector of
--     NachOS-4.0/code/filesys/synchdisk.cc, with the assertions of Disk::ReadRequest and
--     WriteRequest of NachOS-4.0/code/machine/disk.cc.
--     Filesys/FileHeader.antt: NachOS-4.0/code/filesys/filehdr.h and
--     NachOS-4.0/code/filesys/filehdr.cc (Allocate, Deallocate, FetchFrom, WriteBack,
--     ByteToSector, FileLength).
--     Filesys/OpenFile.antt: NachOS-4.0/code/filesys/openfile.h and
--     NachOS-4.0/code/filesys/openfile.cc (Seek, Read, Write, ReadAt, WriteAt). OpenFile/View
--     gives the bytes of a file on a disk.
--     Filesys/Directory.antt: NachOS-4.0/code/filesys/directory.h and
--     NachOS-4.0/code/filesys/directory.cc (FetchFrom, WriteBack, FindIndex, Find, Add, Remove,
--     List).
--     Filesys/PersistentBitmap.antt: NachOS-4.0/code/filesys/pbitmap.h and
--     NachOS-4.0/code/filesys/pbitmap.cc.
--     Filesys/FileSystem.antt: NachOS-4.0/code/filesys/filesys.h and
--     NachOS-4.0/code/filesys/filesys.cc (the constructor, Create, Open, Remove, List).
--     FileSystem/Representation says which bitmap and which directory a file system on a disk
--     stands for.
--     LinkedList.antt: List of NachOS-4.0/code/lib/list.cc on the memory that holds its elements;
--     the address that `new` returns is an argument. LinkedList/Sequence is what it promises, on
--     sequences of items; the lists of the threads are such sequences. The loops get numInList +
--     1 rounds, which LinkedList/Runs shows are enough. LinkedList/Sorted is SortedList; of what
--     `compare` returns only the sign is used, and it is an argument. LinkedList/SelfTest has
--     Apply, ListIterator and SelfTest.
--     Kernel.antt: the state of the threads, with the types of NachOS-4.0/code/threads/thread.h,
--     NachOS-4.0/code/threads/synch.h, NachOS-4.0/code/machine/interrupt.h,
--     NachOS-4.0/code/machine/timer.h and NachOS-4.0/code/machine/stats.h. Kernel/Scheduler is
--     NachOS-4.0/code/threads/scheduler.cc, Kernel/Interrupt is
--     NachOS-4.0/code/machine/interrupt.cc with NachOS-4.0/code/machine/timer.cc and
--     NachOS-4.0/code/threads/alarm.cc, Kernel/Step is NachOS-4.0/code/threads/thread.cc and
--     NachOS-4.0/code/threads/synch.cc, Kernel/Start is Kernel::Initialize of
--     NachOS-4.0/code/threads/kernel.cc. Kernel/Sound says when the threads are in order; its
--     children go through the statements of the kernel one by one. Kernel/Mutex follows one lock
--     and the semaphore it stands on through the same statements.
--     Machine.antt: NachOS-4.0/code/machine/machine.h, and ReadRegister and WriteRegister of
--     NachOS-4.0/code/machine/machine.cc. Machine/Translate is
--     NachOS-4.0/code/machine/translate.cc (Translate, ReadMem, WriteMem), Machine/Multiply is
--     Mult, Machine/Decode is Instruction::Decode with the tables of
--     NachOS-4.0/code/machine/mipssim.h, Machine/Arithmetic is its arithmetic on words, and
--     Machine/Step is OneInstruction and DelayedLoad of NachOS-4.0/code/machine/mipssim.cc with
--     RaiseException.
--
-- How the code is read. A method takes the object's state and returns the new one; a pointer to
-- another object is that object's state, given and returned. An `int` that the code only uses for
-- sizes, offsets, bit numbers and sectors is a natural number: calls with a negative number are
-- outside the model, and a result of -1 is `none`. Where such ints are added and the sum may
-- leave their range, the wrap is written out (the sum of position and size in ReadAt and
-- WriteAt), but for the simulated clock, the times of interrupts, the counters of Statistics and
-- the values of semaphores, which are natural numbers that do not wrap: a run of the threads is
-- that of the program as long as these stay below 2 ^ 31, and for the clock and the interrupts
-- the theorem on CheckIfDue says when they do. A word of a bitmap is a 32-bit number, and its
-- complement is taken in 32 bits. The fields of a header and of an entry are stored as 32-bit
-- words, low byte first, as on the hosts that the program is built for; the padding of a
-- directory entry is taken to be zero. What `new` leaves in memory is a parameter: `Memory` and
-- `garbage` hold it, and no theorem depends on their values beyond their sizes. A loop is a
-- recursion on the rounds that are left, whose number the code computes before the loop, so that
-- no fuel is needed and every function is total. A register of the processor is a word below 2 ^
-- 32, and a signed comparison, shift or division of it is written out; SIM_FIX is defined, as in
-- the build files. A kernel routine that may switch threads is a list of statements: a step
-- executes the first statement of the running thread, a call puts the statements of the called
-- routine in front of the rest, and the rest of a thread that is switched off is what its stack
-- and its machine state hold at SWITCH, so that each order in which threads and interrupts can
-- follow each other is a run of steps. The code of a thread is a list of calls of the public
-- routines. That of the main thread ends with Halt, as main does. The state of the threads does
-- not hold the simulated processor, whose registers CheckIfDue touches by DelayedLoad(0, 0), nor
-- the memory that `delete waiter` in Condition::Wait gives back. Threads have no address space;
-- StackAllocate, CheckOverflow and SWITCH handle memory of the host and are not in the model. A
-- device's interrupt handler is the `semaphore->V()` of its synchronous object; RandomNumber is a
-- function of the number of its calls. The rounds of the loop of CheckIfDue are as many as
-- interrupts are pending before it. One thread at a time uses the file system, as the comments of
-- NachOS-4.0/code/filesys/filesys.cc ask, and a disk request returns when it is done.
--
-- Not modelled: the console, disk and network devices of the simulated machine, its debugger
-- (NachOS-4.0/code/machine/), synchronous lists (NachOS-4.0/code/threads/synchlist.cc), user
-- programs and system calls (NachOS-4.0/code/userprog/), mailboxes (NachOS-4.0/code/network/),
-- the hash tables of lib/, the wrappers of the host (NachOS-4.0/code/lib/sysdep.cc), and the
-- methods that only print. coff2noff and the C++ examples are separate programs.
pub mod Base
pub mod Bitmap
pub mod Filesys
pub mod Kernel
pub mod LinkedList
pub mod Machine
