-- ===== src/Lib.antt =====
-- The C programs of this repository: a library of user threads (wut), three hash tables with a
-- tester (pht), a library of virtual memory (vms), a writer of an ext2 image (hello-ext2), and a
-- list of the processes (tps).
--
-- wut/src/wut.c keeps a ready queue, with the running thread in front, and a list of thread
-- control blocks in the order of their ids. Wut/State has both in the record State and the list
-- searches. Wut/Schedule has wut_init, wut_id, wut_create and wut_yield, and Wut/Lifecycle has
-- _exit_cleanup, wut_cancel, wut_join and wut_exit. A call is a function from the state and from
-- the answers of the operating system (Os) to an Outcome: it returns, control goes to the thread
-- in front of the queue, or the process ends. A switch back into wut_join goes on at
-- join_resume. Threads run one at a time, so a call is one step. Wut/Valid has the invariant
-- between two calls; Wut/Init, Create, Unlink, Cancel, Exit, Cleanup, Yield, Join, Waiting, Wait
-- and Handover are about the operations, and Wut/Depart is about a thread that leaves, by a
-- cancellation or an exit. Wut/Run has a program of several threads as a step relation: each
-- step is a call by the thread in front of the queue, or the rest of a wut_join whose thread is
-- in front again. Its child modules are about the invariant of these steps, one group of calls
-- each, and Wut/Run/Reachable about the states that are reached.
--
-- pht/src/hash-table-base.c is Pht/Chain, the list of a bucket, and Pht/Base, the table;
-- hash-table-common.c is Pht/Hash. Pht/BaseMap relates the table to a map from keys to values.
-- hash-table-v1.c and hash-table-v2.c add mutexes: Pht/Locked has their calls for one thread,
-- and Pht/Machine the additions of several threads as steps on the shared memory, with the
-- invariant in Pht/Invariant and the theorems in Pht/Safety and Pht/Progress. The loops of
-- pht-tester.c and its parser of numbers are Pht/Tester and Pht/Parse; its arguments, the
-- strings that it makes from the answers of the parameter `rand` and the first phase of its main
-- are Pht/Main. Pht/Indices is about the indices of these strings, Pht/Texts and Pht/Letters
-- about their bytes, and Pht/Missing about the numbers of missing strings that it prints. Keys
-- are the bytes before the NUL, and a uint32_t wraps modulo 2 ^ 32. A table's memory is
-- consistent under the mutexes; reads by contains and get_value are made when no thread adds, as
-- in the tester.
--
-- vms/src/pte.c is Vms/Pte, with the fields of an entry in Vms/Entry; pages.c is Vms/Pages,
-- page_table.c is Vms/PageTable, mmu.c and the fault handler of vms.c are Vms/Mmu, and the two
-- forks of vms.c are Vms/Fork, with the flags that they set in Vms/Flags. Vms/Allocator is about
-- the pages in use, Vms/Numbers about the indices of an address and the numbers of pages,
-- Vms/Walk about the walk through the page tables, Vms/Copy about vms_fork_copy and what parent
-- and child read and write after it, Vms/Cow about the fork with copy-on-write, Vms/Split about
-- the fault handler at a page that more than one entry points to, Vms/Ends about the end of each
-- access, and Vms/Access about reading and writing at an address. The operations act on the
-- record Machine of Vms/Machine, whose memory is bytes by address. The loop of mmu has fuel 6: a
-- level is tried again at most once, after a fault, and there are three levels. The loops of the
-- forks run over the 512 entries of a table, and the recursion of recursive_cow over the level.
--
-- hello-ext2/src/ext2-create.c writes its image call by call. Ext2/Disk has the file as bytes by
-- position with lseek, write and ftruncate; each system call asks the parameter World whether it
-- succeeds, and a failure ends the program, as errno_exit does, and what is on the disk then is
-- not kept. Ext2/Layout has the constants and the structs with the bytes of each, Ext2/Entry a
-- directory entry, Ext2/Writers and Ext2/Inodes one function for each part of the image, and
-- Ext2/Create main. A write from a struct that is too short takes its padding and what lies
-- behind it from World. Ext2/Reader is a reader of images, written from the format and not from
-- the program; Ext2/Image, Paths, Bitmaps, Directory, RoundTrip and Leak read the image of main
-- with it. Ext2/Sound is about runs of calls.
--
-- tps/src/main.c is Tps/Main, a function of what /proc answers (Proc) to the lines that are
-- printed; a read past the end of the buffer has no result. Tps/Listing is about the lines.
--
-- Not modelled: printing; the clock, argp, the locale and the thread errors of the tester;
-- vms/src/main.c, an example run; the tests of ssp, whose library is not in the repository;
-- wut/trial.c and wut/pt.c, earlier drafts of wut.c; the image that a failed run of
-- ext2-create.c leaves. The saved registers and stacks of a thread belong to the C library.
pub mod Common
pub mod Ext2
pub mod Wut
pub mod Pht
pub mod Vms
pub mod Tps
