-- ===== src/Lib.antt =====
-- Verification of JOS, the teaching operating system of oslab6: a model of the core of its kernel,
-- of the file system in its file server, and of a part of its user library.
--
-- The kernel keeps physical pages, page tables and environments; user programs reach them by the
-- system calls, and every trap ends in an environment, in the scheduler or in the monitor.
--   Kern/State.antt      the structures and constants of oslab6/inc, and the state of the kernel
--   Kern/PageAlloc.antt  oslab6/kern/pmap.c: page_init, page_alloc, page_free, page_decref
--   Kern/PageTable.antt  oslab6/kern/pmap.c: pgdir_walk, page_insert, page_lookup, page_remove,
--                        boot_map_region, user_mem_check
--   Kern/Env.antt        oslab6/kern/env.c: env_init, env_alloc, env_run, envid2env, and env_free
--                        in Env/Free
--   Kern/Sched.antt      oslab6/kern/sched.c, and env_destroy of oslab6/kern/env.c
--   Kern/Syscall.antt    oslab6/kern/syscall.c, with Syscall/Messages and Syscall/Dispatch
--   Kern/Trap.antt       oslab6/kern/trap.c: page faults, trap_dispatch and trap
--   Kern/Debug.antt      oslab6/kern/kdebug.c: stab_binsearch; Debug/Info: debuginfo_eip
-- The file server is a user program that keeps the disk in its address space and reads a block by
-- the page fault on it.
--   Fs/Disk.antt         the structures of oslab6/inc/fs.h, as words of disk blocks
--   Fs/Cache.antt        oslab6/fs/bc.c
--   Fs/Bitmap.antt       oslab6/fs/fs.c: the bitmap of free blocks
--   Fs/Blocks.antt       oslab6/fs/fs.c: the blocks of a file
--   Fs/Names.antt        oslab6/fs/fs.c: directories and path names
--   Fs/Content.antt      oslab6/fs/fs.c: file_read and file_write
--   Fs/OpenFiles.antt    oslab6/fs/serv.c: the table of open files
--   Fs/Serve.antt        oslab6/fs/serv.c: a handler for each request
--   Fs/Dispatch.antt     oslab6/fs/serv.c: a round of serve, and below it the server and its clients
--                        in sequences of steps
-- User/Format.antt and User/Printf.antt are oslab6/lib/printfmt.c, which the kernel uses too.
-- User/Strings.antt and User/Blocks.antt, with memset and memmove, are oslab6/lib/string.c, and
-- User/Pipe.antt is the reading and writing of oslab6/lib/pipe.c, and User/Pipe/Session.antt a writer
-- and a reader that take turns.
-- User/Descriptors.antt is the descriptor table of oslab6/lib/fd.c, and User/Files.antt its file
-- operations. User/Args.antt is oslab6/lib/args.c, and User/Readline.antt oslab6/lib/readline.c.
-- User/Fork.antt is oslab6/lib/fork.c and oslab6/lib/pgfault.c, over the kernel's system calls.
-- User/Client.antt is oslab6/lib/file.c, with the file server in its state.
-- The children of these modules hold their proofs. Base.antt and its children are the shared
-- helpers: tests, lists, bits of words, linked lists. The modules under Tests apply the theorems to
-- concrete states.
--
-- A function that changes the state takes it and returns the new one; `none` is a panic, or a fault
-- of the kernel itself. A pointer to an element of an array is its index, and a pointer to a page
-- is its physical page number. The state is that of one CPU which holds the kernel lock, so that
-- env_cpunum, the lock and the other CPUs are left out. What is printed is left out as well.
--
-- The loops with a bound in the source recur on the number of rounds left. `user_mem_check` has
-- 2 ^ 20 rounds, one for each page of the address space; `walk_path` has one for each byte of the
-- path, `file_read`, `file_write` and `readn` one for each byte moved, `vprintfmt` one for each
-- character of the format. The loops over strings take the rounds as an argument, and a theorem
-- says how many are enough. Arithmetic on 32-bit words is taken modulo 2 ^ 32 where the source can
-- reach that bound.
--
-- Not modelled: boot code, device drivers, the entry of traps from assembly, the loading of
-- programs, in the user library spawn and the wrappers of system calls, the programs of
-- oslab6/user, and the earlier stages of the kernel in lab1 and lab5.
pub mod Base
pub mod Kern
pub mod Fs
pub mod User
pub mod Tests
