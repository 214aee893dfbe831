-- ===== src/Lib.antt =====
-- A teaching operating system for the i386 (kernel/, mm/, drivers/, timer/, fs/, shell/): the parts of
-- its kernel that keep state and decide. Each file of this development opens with a line on the code it
-- is about.
--
-- The parts, and how they interact:
-- * Banker models kernel/banker.c: the table of registered processes and the available resources, with
--   banker_init, banker_register_process, banker_unregister_process, banker_request, banker_release and
--   the safety scan. The shell calls it, and the process module gives a process's resources back.
-- * Bitmap models the three bitmap functions that mm/pmm.c and fs/simplefs.c both have.
-- * Pmm models mm/pmm.c over the bitmap: pmm_init with its walk over the Multiboot memory map,
--   pmm_alloc_page (`alloc_page`), pmm_free_page (`release_page`) and the range operations.
-- * Timer models timer/timer.c: the interrupt that counts ticks and raises schedule events, which the
--   process module's preemption and the main loop take.
-- * Keyboard models drivers/keyboard.c: the interrupt that turns scan codes into keys, and the ring
--   that the shell reads them from.
-- * Image models the part of kernel/process.c that writes the machine code of the built-in programs.
-- * Process models the rest of kernel/process.c: the process table, creation, the scheduler, running,
--   waiting, killing and reaping. It calls the memory modules and the banker through a record of
--   operations, `Services`.
-- * Pager models mm/pager.c: the choice of a victim by the clock and by sampled LRU (Victim), eviction and
--   paging in (Paging), registering, pinning and giving up pages (Register); the other files below it
--   hold proofs. mm/vmm.c, mm/pmm.c, physical memory and the disk are a record of operations, `Machine`.
-- * FileSystem models fs/simplefs.c: the sectors of the metadata (Layout), data blocks and the indirect
--   block (Blocks), inodes with read_inode_bytes and write_inode_data (Inodes), directories (Directory),
--   mounting and formatting (Mount), the operations on names (Files) and on descriptors (Handles). The
--   other files below it hold proofs. It calls drivers/ata.c through a record of transfers, `Ata`; the
--   promises of a disk that the theorems need are the record `IsReliable` and the predicate `ReadsBack`.
--
-- How state is kept: a file's static variables are one record, an operation returns the record after
-- it, and a result code is a data type or a Bool, an out parameter an Option. Numbers of type uint32_t
-- are native naturals below 2 ^ 32 with the wrap-around written out (add32, sub32, mul32). The next pid,
-- an int in the code, is its 32 bits, and the theorem on pids bounds the number of creations so that it
-- stays positive. A signed argument with a guard against negative values is a ℤ.
--
-- Loops: a loop over a table is recursion on the list or on the number of rounds left. The safety scan of
-- the banker runs on fuel, one pass more than there are slots, and a lemma shows that it never runs
-- out. The loop of read_inode_bytes runs on fuel for one turn a byte; a turn copies at least one. The
-- recursion of print_path_to_inode has no bound in the code, and runs on fuel that the caller gives. The
-- walk over the memory map runs on fuel that the caller gives, and a theorem says how much is
-- enough.
--
-- What is a parameter: the contents of memory at the addresses of the memory map; the address of the end
-- of the kernel image; the scan codes; the disk; what a user program makes happen while it runs, as a
-- sequence of kernel entries (`Event`), and the number it comes back with.
--
-- What is not modelled: mm/vmm.c, shell/shell.c, console/console.c, drivers/ata.c, interrupt/,
-- kernel/memdemo.c, kernel/gdt.c, kernel/usermode.c and kernel/kernel.c. Of the files above, what only
-- prints or reads a single variable is left out. A pointer is never the null pointer where the code
-- tests for it. A block number read from the disk is taken to be below 2048; the code does not test it.
pub mod Banker
pub mod Bitmap
pub mod FileSystem
pub mod Image
pub mod Keyboard
pub mod Pager
pub mod Pmm
pub mod Prelude
pub mod Process
pub mod Timer
