-- ===== src/Lib.antt =====
-- Yu-OS: the kernel's pages, page tables, environments, scheduler, system calls, traps, console and
-- symbol table, the file server, and the library's strings, formatted output, line editor, file
-- descriptors and copy of address spaces.
--
-- The kernel keeps the pages of physical memory on a linked free list, gives each environment (a
-- process) a two-level page table made of such pages, and shares the processor among the
-- environments in turn. A system call runs in the kernel on behalf of the current environment,
-- `curenv`, and ends by returning to it or by `sched_yield`, which enters another one. Every way into
-- the kernel is a trap. The file server is a user program, which gets requests as messages, keeps a
-- table of open files and reads and writes the blocks of its disk.
--
-- Files and code:
--   Prelude        lists, linked chains, bits of words, and `Run`, a result or a kernel panic
--   Layout         constants and macros of inc/mmu.h, inc/memlayout.h and inc/types.h, and the errors
--                  of inc/error.h
--   Pmap           memory: `struct PageInfo`, the free list and the words of every page. Below it
--                  Pmap.Alloc (page_init, page_alloc, page_free, page_decref of kern/pmap.c),
--                  Pmap.Table (pgdir_walk, page_lookup, page_remove, page_insert, boot_map_region)
--                  and Pmap.UserMem (user_mem_check)
--   Env            `struct Env` and the state of the kernel. Below it Env.Id (envid2env of
--                  kern/env.c), Env.Setup (env_setup_vm), Env.Alloc (env_init, env_alloc), Env.Free
--                  (env_free) and Env.Enter (env_run)
--   Sched          sched_yield of kern/sched.c and env_destroy of kern/env.c
--   Syscall        the calls of kern/syscall.c: Syscall.EnvCalls, Syscall.PageCalls, Syscall.Ipc and
--                  the dispatcher in Syscall.Dispatch; user_mem_assert of kern/pmap.c
--   Time           kern/time.c
--   Trap           trap, trap_dispatch and page_fault_handler of kern/trap.c; Trap.Keeps and
--                  Trap.PageFault hold what they do, and Syscall.Invariant what the calls do
--   Fs             the disk as the file server sees it, with flush_block of fs/bc.c and the bitmap of
--                  free blocks of fs/fs.c. Fs.Bitmap holds what the operations on it do, and
--                  Fs.Blocks the blocks of a file (file_block_walk, file_get_block, file_free_block,
--                  file_truncate_blocks, file_set_size). Fs.Files has file_read, file_write and
--                  file_flush, Fs.Dirs directories and paths (dir_lookup, dir_alloc_file, walk_path,
--                  file_create, file_open), Fs.Serve the open files and requests of fs/serv.c
--   Fork           lib/fork.c: duppage and the loop of fork; Fork.Fault its handler of page faults
--   Fd             the file descriptors of lib/fd.c, for devices that are an argument
--   Console        kern/console.c: Console.Input the ring of characters that were typed, with
--                  Console.Getc for cons_getc, Console.Keyboard for kbd_proc_data, and
--                  Console.Screen for cons_putc and cga_putc
--   Readline       lib/readline.c
--   Monitor        runcmd of kern/monitor.c
--   Debug          kern/kdebug.c: stab_binsearch, and debuginfo_eip in Debug.Info
--   Strings        lib/string.c
--   Print          lib/printfmt.c: Print.Escape and Print.Convert for vprintfmt, Print.Number for
--                  what printnum prints, Print.Buffer for vsnprintf
--   Tests          a small machine, and the theorems applied to it
--
-- Pointers to `struct PageInfo` and `struct Env` are indices in their arrays, and a page's kernel
-- address is its number; 32-bit words are natural numbers below 2^32, with the wrap-around written
-- out where the code can reach it. The state is passed explicitly. Code that panics, or reads
-- through a null pointer, has the result `panic`. Code that ends in `env_run` or in the monitor
-- returns where it goes. The reference reading of a page table is `translate`, which follows the
-- hardware: a directory entry, a table entry, both present.
--
-- Loops with a counter run for that many rounds. The loop of `sched_yield` has NENV rounds of fuel,
-- which suffice since it comes back to its end after at most NENV - 1 steps; `user_mem_check` makes
-- one round for each page of its range. Loops over a string, a path or a format have fuel that its
-- length bounds: MAXPATHLEN for paths and MAXNAMELEN for names, which end within that; `file_read` and
-- `file_write` move at least a byte in a round and have the number of bytes as fuel; 64 calls are
-- enough for `printnum`, which at least halves a number of 64 bits in each. `stab_binsearch` has two
-- rounds for each stab, and two more; `readn` one round for each byte. The loops of `runcmd` end with
-- the line.
--
-- Not modelled: boot code and the building of the kernel's own address space, assembly (trap entry,
-- `env_pop_tf`), the set-up of devices and the waits for their ports, the network card, the commands
-- of the monitor, the loading of programs, the requests that lib/file.c makes for open files, the
-- parts of `fork` before and after its loop, the rest of the user library, and the user programs.
-- Messages on the console do not show. The model takes every block of the file server's disk to be in
-- memory, so that the page faults that read blocks do not show. What the code gets from the hardware
-- is an argument: the bytes of the keyboard and of the serial port, and the tables that the linker
-- builds. The calls that ask devices (sys_cgetc, sys_tx_pkt, sys_rx_pkt) are a parameter of the
-- dispatcher, and the processor's stores to the user's stack one of the trap handler. Whether the
-- kernel gives the file server a page is a parameter too, and so are the calls to the kernel by which
-- `fork`, `pgfault` and `dup` map pages. In the loop of `fork` such a call stands for the page faults
-- of the parent up to the next one as well: the entries of the pages that the parent writes to
-- meanwhile, its stack among them, may change at any call. `vprintfmt` reads the format and the texts
-- from the memory at its start, so that an output buffer that overlaps them is not covered. One
-- processor runs the kernel, with interrupts off.
pub mod Prelude
pub mod Layout
pub mod Pmap
pub mod Env
pub mod Fs
pub mod Strings
pub mod Sched
pub mod Time
pub mod Trap
pub mod Console
pub mod Debug
pub mod Fd
pub mod Readline
pub mod Monitor
pub mod Print
pub mod Fork
pub mod Syscall
pub mod Tests
