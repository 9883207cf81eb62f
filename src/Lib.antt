-- ===== src/Lib.antt =====
-- A model of the kernel core of CLeonOS (clks/) and of parts of its user programs (cleonos/), and
-- what holds of them.
--
-- The parts, and the file that models each:
--   Kernel/Pmm        clks/kernel/pmm.c: the stack of free physical pages, filled from the boot memory
--                     map. `Pmm` is the static state; `init`, `alloc_page`, `free_page` and `get_stats`
--                     are the functions clks_pmm_*.
--   Kernel/Heap       clks/kernel/heap.c: the kernel heap in one arena. `Heap` holds the headers by
--                     offset into the arena, and `kmalloc`, `kfree`, `split_block` and `merge_next` are
--                     clks_kmalloc, clks_kfree and their helpers. What callers write into their blocks is
--                     not part of it, and headers do not overlap, which they do not where blocks tile the
--                     arena; `overrun` marks a heap in which the loader filled more than its block.
--   Kernel/Scheduler  clks/kernel/scheduler.c: the task table and the timer tick. The function that a
--                     task runs is an argument of `dispatch_current`.
--   Kernel/Path       the path functions of clks/kernel/fs.c: `normalize`, `split_parent`, `basename`
--                     and the test for the temp tree.
--   Kernel/Fs         the rest of clks/kernel/fs.c: the node table (Fs), the directories (Fs/Dirs), the
--                     calls (Fs/Ops, Fs/Edit) and the start (Fs/Boot). The state holds the kernel heap of
--                     Kernel/Heap, since the calls allocate and free, and the bytes that stand in its
--                     blocks. Each call is a function from the state to a result and a state; a call
--                     that fails gives the state it leaves behind.
--   Kernel/Ramdisk    clks/kernel/ramdisk.c: the tar reader. `iterate` takes any visitor; the file
--                     system's visitor is `ramdisk_visit` of Kernel/Fs/Dirs.
--   Kernel/Service    clks/kernel/service.c: the registry of services.
--   Kernel/Keyboard   clks/kernel/keyboard.c: a queue of characters for each terminal, and the decoder of
--                     scancodes. The terminals and the kernel shell are an interface of the decoder.
--   Kernel/Exec       clks/kernel/exec.c: the process table, the stack of running processes, signals,
--                     and the file descriptors, which read and write through Kernel/Fs and
--                     Kernel/Keyboard, and execution, which loads through Kernel/Elf. The program that
--                     runs is an interface, `Machine`, and so are the terminals and the timer,
--                     `Devices`.
--   Kernel/Elf        clks/kernel/elf64.c: the loader of executables, which allocates from Kernel/Heap.
--   Kernel/Strings    clks_strcmp of clks/lib/string.c, as the test for equality that callers make.
--   Shell/Path        cleonos/c/apps/shell/shell_path.c: the names that the user shell resolves, against its
--                     current directory and to programs.
--   Libc/Numbers      strtoul, strtol, rand and srand of cleonos/c/src/libc_stdlib.c.
--   Base              arrays, C integers, bounded copies, and case splits on tests.
--
-- Integers are natural numbers with their wrap-around written out: 64-bit sums go through `add64`,
-- 32-bit ones through `add32`. A C string is the list of its bytes before the terminator; a pointer that
-- may be NULL is an option. Log output is left out.
--
-- Loops with a bound that is not structural run on fuel. `walk_fuel` is 26216 rounds: a header takes 40
-- bytes of an arena of 1 MiB, so no list of blocks is longer. `add_entry` gives a round for each page of
-- the range and one more, `normalize` and `ensure_dir_hierarchy` a round for each character and one
-- more, since each round passes one, and `iterate` a round for each block of the image and one more. The
-- parsers of argument and environment lines and of the shell's paths take a round for each character
-- and one more, since each round passes one.
--
-- Not modelled: the boot code and drivers, which only access hardware, the terminal and the desktop,
-- dynamic libraries, the unwinding of a process from an interrupt, system calls, the commands and the
-- line editing of the shells, and the rest of the user C library. The file system is taken to write no
-- more than its blocks hold, which is so for all sizes but the last 15 below 2^64.
pub mod Base
pub mod Kernel
pub mod Libc
pub mod Shell
