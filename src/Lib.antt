-- ===== src/Lib.antt =====
-- xv6 for x86, in the version that Portland State University's operating systems course uses
-- ("Source Code/"): a small Unix kernel with its user library. This library models the kernel's
-- process table, its redo log on the disk, its buffer cache, its pipes, its open files, its page
-- allocator, its spin locks, the blocks and inodes of its file system, its byte strings, the numbers
-- that its user library prints and reads, and the parser of its shell.
--
-- Parts of the program, and the files that model them:
--   Proc/       the process table, Source Code/proc.c: allocproc, userinit, growproc, fork, exit,
--               wait, scheduler, sched, yield, sleep, wakeup1, wakeup and kill.
--   Log/        the redo log, Source Code/log.c, on the reads and writes of Source Code/bio.c.
--   Pipe/       pipes, Source Code/pipe.c: pipewrite, piperead and pipeclose. Pipe/Stream runs the calls
--               of any readers and writers in any order.
--   File/       open files, Source Code/file.c: filealloc, filedup, fileclose, fileread and
--               filewrite, over the record Backend of calls to pipe.c, log.c and fs.c.
--   Kalloc/     the page allocator, Source Code/kalloc.c: kfree, freerange and kalloc.
--   Spinlock/   spin locks, Source Code/spinlock.c: pushcli, popcli, holding, acquire and release.
--   Memory/     byte strings, Source Code/string.c: memset, memcmp, memmove, strncmp, strncpy,
--               safestrcpy and strlen, with stosb and stosl of Source Code/x86.h.
--   Text/       numbers as text, Source Code/printf.c, and atoi and atoo of Source Code/ulib.c.
--   Fs/         the file system below its directories, Source Code/fs.c: balloc, bfree, bmap, itrunc,
--               readi, writei, iupdate, ialloc, iget, idup, ilock and iput.
--   Shell/      the parser of the shell, Source Code/sh.c: gettoken, peek, parsecmd with the functions
--               below it, and nulterminate. Shell/Written says how a command is written.
--   Bio/        the buffer cache, Source Code/bio.c: binit, bget and brelse on the list by last use.
--   Base/       lists, tests on numbers and integers that the parts share.
--   Tests/      the theorems at concrete inputs.
--
-- How state and operations correspond to the code. A global structure is a record; a function that
-- changes it takes the record and returns the new one with its result. A `struct proc*` is an index
-- into ptable.proc. What one file calls of another is the record `Kernel` of operations on an
-- abstract world: proc.c is proved correct whatever kalloc.c, vm.c, file.c and fs.c do. A section of
-- code under a spin lock is one step; a call that switches away ends the step, and the code behind
-- the switch is a step of its own. What exit calls before it takes ptable.lock may sleep and wake
-- others; each call is a step, and the sleeps and wakeups around it are steps of their own. The relation Proc.Run.Step puts such steps of any processes in any
-- order. The configuration modelled is the Makefile's default: PDX_XV6 and CS333_P1 are defined.
--
-- The disk of Fs/ is the blocks as the buffer cache shows them: a change of a buffer that log_write
-- marks is a change of the block. The functions run in a transaction that has room in the log: log_write
-- has it as long as an operation stays within MAXOPBLOCKS blocks. Places 0 to 139 of an inode are
-- the blocks of its data, and place 140 is its indirect block. `Layout` says that the boot block,
-- the log, the inodes and the bitmap are marked as used; `Owns` says that the blocks of
-- an inode lie behind them, are in use and differ.
--
-- Numbers. A uint is a natural number below 2^32 with its wrap-around written out; a statement that
-- needs the absence of a wrap says so. A pid counter has 2^32 values: `nextpid + 1 < 2^32` is a
-- condition of the steps that give out a pid.
--
-- Fuel. Loops over an array recur on the list or on the rounds left. The loop of printint has 32
-- rounds, enough for a 32-bit number in any base; strlen takes a bound within which the string
-- ends. The loop of filewrite has as many rounds as there are bytes, for each round writes at
-- least one. The loops of the shell's parser have one round more than the line has bytes from
-- their start on, and so has parseline: each round and each nested call consumes a byte. The disk has
-- a number of writes until the machine stops, which is a crash and no bound of the model.
--
-- Not modelled: hardware access, assembly, the device drivers, user programs and the tests; the
-- directories and path names of fs.c; page tables (vm.c, exec.c); the system calls' checks of their
-- arguments; sleep locks; malloc of the user library; of the shell, all but its parser. The constructors
-- of the shell's commands call malloc, which is taken to succeed, as the code takes it.
pub mod Base
pub mod Bio
pub mod File
pub mod Fs
pub mod Kalloc
pub mod Log
pub mod Memory
pub mod Pipe
pub mod Proc
pub mod Shell
pub mod Spinlock
pub mod Tests
pub mod Text
