-- ===== src/Lib.antt =====
-- Three programs on operating systems: the file system of File-System, a simulated disk in one file
-- with users, groups and permissions, and the command line that drives it; the process table and the
-- lottery scheduler of the kernel in xv6-riscv, and its allocator for user programs; and zocker, which
-- runs a command in a container.
--
-- The program's parts. File-System/filesystem.c keeps all state in static variables: the super block,
-- the tables of files, users and groups, the list of free regions, the descriptors, the current user
-- and the handle of the disk file. File-System/cli.c reads lines, splits them into words, checks
-- permissions and calls the operations of filesystem.c. The free list is not stored: `load_metadata`
-- rebuilds it from the file table when the disk file is opened again. So the parts meet in one
-- invariant, `Invariant.IsConsistent`: the free list is coalesced and lies within the data blocks, no
-- block belongs to two files or to a file and the free list, `used_blocks` counts the blocks that are
-- not free, and each descriptor points to a file in use.
--
-- xv6-riscv/kernel/proc.c keeps the process table, the first process and the next pid. Processes are
-- made by `kfork`, run by `scheduler`, which draws a ticket from the generator of rng.c, and end in
-- `kexit`, to be freed by `kwait` of the parent; `sys_settickets` of sysproc.c changes the stake of a
-- process. The memory of a user program comes from umalloc.c, a circular list of free blocks that
-- `malloc` searches from where the last call stopped. zocker/src/main.c reads the arguments into a
-- configuration, checks it (config.c), and starts the container (run.c), whose directories setup.c
-- makes.
--
-- Files. A function of the source is a definition of the same name; on the list alone, three of them
-- are called `allocate`, `release` and `remove_range`.
--   Base        tests, lists, C strings and signed numbers that all modules share
--   Types       the constants and structs of File-System/filesystem.h, and `Fs`, the static variables
--   Disk        the disk file: the saved copy of the tables and the bytes (`get_meta_blocks`,
--               `save_metadata`, `fread`, `fwrite`); Disk.Image has the lemmas on them
--   FreeList    `allocate_blocks`, `free_blocks`, `remove_range_from_freelist` on the list of regions
--   Blocks      the same together with `used_blocks`, `fs_alloc` and `fs_free`
--   Boot        `init_users_and_groups`, `init_free_list`, `load_metadata`, `fs_init`, `fs_close`,
--               `fs_format`
--   Files       `fs_create`, `fs_open`, `fs_delete`, `fs_close_file`, `fs_list_files`, `fs_get_stats`
--   Data        `fs_read`, `fs_write`, `fs_shrink`
--   Accounts    `fs_useradd` to `fs_switch_user`
--   Access      `fs_chmod`, `fs_chown`, `fs_chgrp`, `fs_getfacl`, `fs_check_permission`
--   Invariant   the invariant of the whole state, and the operations against it
--   Shell       the commands, `parse_command`, `run_shell` and `main` of File-System/cli.c
--   Shell.Rights
--               who can change the owner, the mode and the group of a file by a command
--   Kernel      the structs and the table of xv6-riscv/kernel/proc.c and proc.h
--   Kernel.Table, Kernel.Calls
--               `procinit`, `allocproc`, `freeproc`, `userinit`, `wakeup`, `kkill`, `settickets`,
--               `sys_settickets`; `kfork`, `reparent`, `kexit`, `kwait`, `yield`, `sleep`
--   Kernel.Random, Kernel.Lottery
--               rng.c, and a round of `scheduler`
--   Kernel.Invariant, Kernel.Reach
--               the invariant of the table, and the steps of the whole system
--   Allocator   the list of free blocks and `free` of xv6-riscv/user/umalloc.c; Allocator.Malloc has
--               `morecore`, `malloc`, `realloc`, `calloc`; Allocator.Ring, Allocator.Freed,
--               Allocator.Units, Allocator.Search and Allocator.Taken have the lemmas on the list
--   Zocker      the configuration, and the system calls as an interface `Os`; Zocker.Arguments reads
--               the arguments, Zocker.Setup makes the directories, Zocker.Run runs the container
--   Tests       concrete runs
-- The child modules of a component hold the lemmas on it, named for what they are about.
--
-- Conventions. An operation takes the state `Fs` and returns the new one with its result; `none` is
-- the result -1. A field that is -1 for "nothing" (`start_block`, an entry of `open_files`) is an
-- option. A pointer list of the source is a list, a loop over an array is structural recursion on the
-- table, so only the loops of the allocator need fuel; a count on a table, as in `reparent_upto`, is
-- its length. Numbers are natural numbers: sizes, positions and block numbers are exact, as they are
-- in C as long as no value reaches 2^31; a descriptor is a signed number. A string is the list of its
-- bytes before the terminator; copies are cut at the size of the target, as `strncpy` and the closing
-- zero do it. `save_metadata` copies the tables into the disk state; the bytes of the disk are a
-- function of the offset, and the metadata area is kept apart from the bytes, since file data starts
-- behind it. The values of `time` and the lines and words that are typed are arguments. The functions
-- of the C library that the source calls on strings (`strcmp`, `strtok`, `atoi`, `strtol`) are written
-- out.
--
-- A call on the process table is one step on the whole table: the kernel holds the lock of a process
-- for each part of it, and `wait_lock` for the relations of parents. A process that sleeps is a state;
-- what it does when it goes on is a step of its own. The pages of a process are what `allocproc` and
-- `kfork` ask the kernel for, and whether they got them is an argument. The generator works on words
-- of 64 bits, with the remainder by 2^64 written out. The system calls of zocker are fields of `Os`:
-- they act on a state of the system that stays abstract;
-- `Zocker.Setup.Again.Laws` has what a theorem relies on.
--
-- The circular list of the allocator can be broken by a wrong `free`, and a loop on it then goes on
-- for ever: its loops run on fuel, and where the list is in order, two rounds and two steps are
-- enough. An address of a header counts units of 16 bytes, and the headers stand apart from the other
-- bytes, so a write beyond a block is not seen. `sbrk` is a parameter.
--
-- Not modelled. What is printed, except for the data that a listing shows (`Reply`). Negative
-- positions and sizes, which `fs_read`, `fs_write` and `fs_shrink` do not reject. A line that would pass one to them, or a number that does not fit an `int`, or that overflows `cmd` or `confirm`, is marked as `outside`: `run_shell` then gives no result, and a theorem on sessions assumes `all_inside`. Overflow of `int`, which C leaves undefined. Reading
-- `user_table` beyond its end in `fs_create`, for a uid of 50 or more, gives a zeroed user. Failing
-- reads and writes of the disk file behind a successful `fopen`. File-System/main.c, a fixed
-- demonstration. Of the process table: registers, kernel stacks and page tables, open files, and the
-- interleaving of cores between the steps. A pid is exact, as it is in C below 2^31 processes; the sums
-- of tickets are those of an `int`, with its wrap-around. The rest of xv6-riscv, which is a copy of the xv6 project (virtual memory, traps, its file system
-- and log, drivers, user programs, mkfs). xv6-riscv/user/uthread.c has empty bodies only.
pub mod Base
pub mod FreeList
pub mod Types
pub mod Disk
pub mod Blocks
pub mod Boot
pub mod Files
pub mod Data
pub mod Accounts
pub mod Access
pub mod Invariant
pub mod Kernel
pub mod Shell
pub mod Zocker
pub mod Allocator
pub mod Tests
