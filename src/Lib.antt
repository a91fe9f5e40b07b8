-- ===== src/Lib.antt =====
-- Verification of zeptOS: the kernel of this repository (kernel/), as executable definitions
-- translated from its C source, and theorems about them.
--
-- The program. zeptOS is a small multiprocessor RISC-V kernel. Processes (kernel/proc.c) hold
-- open files (kernel/file.c), which stand for pipes (kernel/pipe.c), inodes or devices; a write
-- to an inode runs in transactions of the log (kernel/log.c), which makes the block writes of
-- the file system atomic across a crash, over the buffers of kernel/bio.c. Pages come from
-- kernel/kalloc.c, and kernel/vm.c maps them into page tables. kernel/fs.c keeps the blocks in
-- use in a bitmap and finds files by path; kernel/printf.c prints to the console. Mutual
-- exclusion comes from kernel/spinlock.c, and bytes are moved by kernel/string.c.
--
-- Which file models what.
-- - Spinlock: kernel/spinlock.c. The lock and the interrupt nesting of one CPU;
--   Spinlock/Exclusion interleaves acquire and release, with push_off and pop_off, of any
--   number of CPUs as explicit steps.
-- - Kalloc: kernel/kalloc.c, with PGSIZE and PGROUNDUP of kernel/riscv.h. Memory is a function
--   from addresses to words; the free list is threaded through it as in the code.
-- - Strings: kernel/string.c over a function from addresses to bytes.
-- - Pipe: kernel/pipe.c. One call goes from one sleep to the next: its result says whether it
--   returned or sleeps, and on which channel.
-- - Pipealloc: pipealloc of kernel/pipe.c, over File and Kalloc.
-- - File: kernel/file.c and kernel/file.h. The pipe, the device switch and the inode layer are
--   the record Io, a parameter.
-- - Bio: kernel/bio.c. The buffers and their links as bget, bread and brelse see them;
--   Bio/Lists has what the two loops of bget find when the links go through all the buffers.
-- - Log: kernel/log.c, with bwrite, bpin and bunpin of kernel/bio.c as operations on a store,
--   the disk with the cached blocks. Every bwrite adds to the list of writes, and a crash is a
--   prefix of that list.
-- - Proc: kernel/proc.c and kernel/proc.h. The table of processes with their state, channel,
--   pid and parent; Proc/Reach has the calls as steps, fork as its three sections.
-- - Sleeplock: kernel/sleeplock.c over the table of Proc. A call of acquiresleep is a sequence
--   of rounds, each from one test of the lock to the next; Sleeplock/Handoff interleaves those
--   of all processes with the other steps of Proc.
-- - Console: kernel/console.c. Console/Editor has the text that the ring stands for, with its
--   three marks, and what a key does to it.
-- - Uart: kernel/uart.c, the transmit ring; what the line status register reads is an argument,
--   and Uart/Sending has the calls and interrupts as a list of events.
-- - Ulib: user/ulib.c, over the byte memory of Strings: strcpy, strcmp, strchr and atoi.
-- - Vm: kernel/vm.c, with the macros of kernel/riscv.h, over the memory and the allocator of
--   Kalloc. A page table entry is a word of that memory. Vm/Tree has the tree of page table
--   pages and the entry that it holds for an address, Vm/Walk what walk does to it, Vm/Grow and
--   Vm/Write the two ways in which memory changes, Vm/Ranges, Vm/Lookup and Vm/Unmap the calls
--   over ranges of pages.
-- - Fs: kernel/fs.c and kernel/fs.h. The blocks of the disk are functions from byte indices to
--   bytes, as bread gives them; log_write makes a change of a buffer the block's, which Log
--   makes atomic. Fs/Bitmap and Fs/Balloc have the bitmap. Fs/Inode has the inode and the
--   functions on its blocks: Fs/Inode/Slots the blocks as one map from slots, Fs/Inode/Mapping,
--   Fs/Inode/Indirect and Fs/Inode/Bmap what bmap does to it, Fs/Inode/Freed, Fs/Inode/Trunc
--   and Fs/Inode/Itrunc what itrunc does, Fs/Inode/Bytes and Fs/Inode/Disk the inode on disk.
--   Fs/Content has writei and readi, with either_copyin and either_copyout of kernel/proc.c as
--   arguments, and the content of a file as a function of the offset. Fs/Itable has the table
--   of inodes in memory, whose entries Fs/Itable/Unique keeps apart. Fs/Namex has namex over a
--   record of the inode functions that it calls, and Fs/Namex/Balance and Fs/Namex/Walks its
--   walk along the components of the path. A path is the list of its characters.
-- - Printf: kernel/printf.c. The output is a list of characters; a store past the buffer of
--   printint is the result none.
-- - Grep: user/grep.c, the matcher, on lists of characters; Grep/Language has the words that a
--   pattern denotes.
-- - Prelude: tests, lists and panics that these share. panic(msg) is a value, which ends a
--   call.
--
-- How state and integers are read. A function of the code that changes state is a function from
-- the state to the new state; a call that takes a lock for all of its work is one step, and
-- fork, which takes three locks one after the other, has three. Numbers are natural numbers.
-- The indices of a pipe and of the console and the offset of a file wrap at 2^32 where they are
-- advanced, as in the code; PGROUNDUP wraps at 2^64; log.outstanding is the bit pattern of an
-- int; nextpid is the bit pattern of an int, and Proc/Reach goes no further than its greatest
-- value, since C leaves the overflow undefined. The lengths given to reads and writes are not
-- negative, and addresses in loops over memory do not wrap. A disk block is its list of words,
-- and there is one device.
--
-- Loops. The loops of bget have a round for each buffer and one for the head. The loops over a
-- table take the number of entries left. The loop of freerange has one round for each page of
-- the range; the loop of filewrite has n + 1 rounds, and each round writes at least one byte;
-- strlen, and the loops of user/ulib.c, look at a given number of bytes; control-u of the
-- console has as many rounds as there are characters between the indices. walk goes down its
-- three levels; mappages and uvmunmap have a round for each page, writei and readi have n + 1
-- rounds, each of which takes a byte at least; balloc has one for each block of the bitmap and
-- one for the test that ends the loop, printint 17, of which the last would store out of
-- bounds; and namex one for each character of the path and one that ends the loop. The theorems
-- on them show that these are enough.
--
-- What is not modelled. Of kernel/proc.c, the memory, files and registers of a process, the
-- switch itself (sched, forkret, kernel/swtch.S), growproc and procdump. Of kernel/console.c,
-- the output; of kernel/uart.c, the set-up, uartputc_sync and uartgetc. Of kernel/file.c,
-- filestat, which copies an inode's numbers. Of kernel/vm.c, kvmmake, uvmfirst, freewalk,
-- uvmfree, uvmcopy, uvmclear and the copies between user and kernel memory; of kernel/fs.c,
-- ialloc, iput, and directories; of user/grep.c, the loop over lines. System calls, traps,
-- program loading and the rest of user/ are other parts that these definitions do not reach.
-- Device drivers, assembly, start-up and the firmware interface are hardware registers. tools/
-- runs on the build host; bench/ and firmware/ are copies of other projects.
pub mod Prelude
pub mod Spinlock
pub mod Kalloc
pub mod Strings
pub mod Pipe
pub mod File
pub mod Log
pub mod Proc
pub mod Sleeplock
pub mod Console
pub mod Uart
pub mod Bio
pub mod Ulib
pub mod Pipealloc
pub mod Vm
pub mod Printf
pub mod Grep
pub mod Fs
