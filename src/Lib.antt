-- ===== src/Lib.antt =====
-- boiOS, a 32-bit x86 kernel in C, modelled function by function from its source.
--
-- The kernel keeps its memory in a block allocator (src/memory/heap), gives each task a page directory
-- (src/memory/paging), and finds programs by paths (src/fs/pparser.c). The modules are:
--   Prelude     the library names and helpers that the others share; Prelude/Mem is memory as a function
--               of the address, Prelude/Int the signed numbers, Prelude/Bits the masks of 32-bit words.
--   Status      src/status.h. An int result is `ok` of a number or `err` of a code.
--   Memory      src/memory/memory.c: memset, memcmp, memcpy.
--   Heap        src/memory/heap/heap.c and heap.h. A `Heap` is the struct heap with its table; the table's
--               bytes stand in memory, so each function takes and returns memory. Heap/Search is about
--               heap_get_start_block, Heap/Marks about the marking of blocks, Heap/Table about the
--               well-formed tables, Heap/Malloc about heap_malloc_blocks, heap_malloc and heap_free.
--   Kheap       src/memory/heap/kheap.c and the sizes of src/config.h: the heap of the kernel.
--   Paging      src/memory/paging/paging.c. A directory is 1024 words in memory that hold the addresses
--               of tables of 1024 words. Paging/Directory is about paging_get and paging_set, Paging/Map
--               about the mapping of ranges, Paging/Identity about paging_new_4gb.
--   CString     src/string/string.c, over strings in memory.
--   PathParser  src/fs/pparser.c, over strings in memory. PathParser/Parts is the text of a path as a
--               list of names.
--   Keyboard    src/keyboard/keyboard.c and classic.c: the buffer of keys of a process, the scan codes and
--               the handler. Keyboard/Queue and Keyboard/Reads are about the buffer, Keyboard/Keys about
--               the handler.
--   Disk        src/disk/disk.c and streamer.c: reads through a stream. Disk/Stream is about them.
--   File        src/fs/file.c: the tables of filesystems and descriptors, over a filesystem as the record
--               of its functions. File/Table is about descriptors.
--   Terminal    src/terminal/terminal.c: the screen and its cursor; Terminal/Cursor is about the cursor.
--   Task        src/task/task.c: the list of tasks and their saved registers, the tasks by their addresses.
--               Task/Append, Task/Remove and Task/Rollback are about the list, Task/Fields about single tasks.
--               Task/Strings is the copy of a string out of a task's memory; Virtual and Delivery are about it.
--   Gdt         src/gdt/gdt.c: the encoding of segment descriptors; Gdt/Decode is about it.
--   Fat16       src/fs/fat/fat16.c. Fat16/Layout has the structures of the disk and the geometry, Fat16/Names
--               the names of items as strings, Fat16/Clusters the chain of clusters and the reads along it,
--               Fat16/Directory the root directory and the mount, Fat16/Entries the search for an item,
--               Fat16/Files open files. Chain, Reads and First below Clusters, Count and Resolve below Directory,
--               Find below Entries, Open, Blocks and Position below Files are about them.
--   Elf         src/loader/formats: elf.h, elf.c and elfloader.c. Elf/Load is elf_load; Elf/Validate and
--               Elf/Segments are about the headers, Elf/Load/Closes about the descriptor of the file.
--   Interrupts  src/idt/idt.c: the descriptor table, the callbacks and the system calls. Interrupts/Descriptors
--               and Interrupts/Commands are about them.
--   Process     src/task/process.c: the allocations of a process and the table of processes. Process/Machine
--               is the kernel's heap and paging as the operations that a process calls; Process/Allocations,
--               Process/Malloc and Process/Slots are about the allocations and the table. Process/Load is the
--               load of a program from its file, Process/Image the maps of a program and its stack;
--               Process/Load/Closes, Process/Image/Translates and Process/Image/Total are about them. Process/Launch is process_load, which
--               joins them with the making of a task; Loads and Binary, with Task/Rollback, are about it.
--   Stdlib      programs/stdlib/src, the library of user programs: Stdlib/Numbers is itoa (Decimal is about it),
--               Stdlib/Tokens strtok (Words, Next), Stdlib/Readline the line reader (Edits, Typed) and
--               Stdlib/Commands the parse of a command (Blocks, Linked, Loop, Parsed).
--   Timer       src/timer/pit.c; Timer/Reload is about pit_init, Timer/Sleep about sleep.
--   SystemCalls src/isr80h: the table of system calls (Dispatch is about it), the sum and the path of a program
--               (Path).
-- fopen in File uses PathParser, which uses CString. Fat16 reads through Disk and compares names with CString;
-- Elf/Load opens its file through File; Process calls Kheap and Paging; Interrupts saves registers with Task.
-- Each function has the C function's name. A helper by clauses stands for a loop or for the rest of a
-- function behind a test.
--
-- Numbers are natural numbers; a 32-bit wrap-around is written `% 2 ^ 32`, and a signed result is an
-- integer. A loop with a bound runs on the rounds that are left, and needs no fuel. A loop that stops at
-- a terminator runs on fuel and returns `none` without it; the theorems about strlen, strcpy and
-- pathparser_parse state how much is enough. diskstreamer_read recurses over sectors, and runs on fuel
-- for their number; a read along clusters has fuel for clusters of any size, and the count of a directory's
-- items takes its fuel, whose theorem states how much is enough.
--
-- Memory is bytes in Memory, Heap, CString and PathParser, and 32-bit words at their addresses in Paging.
-- paging_new_4gb takes the addresses that kzalloc returns as a parameter, which are pages apart from
-- each other in its theorem. pathparser_parse is taken to find room on the heap for the names.
--
-- The disk's controller is a parameter of Disk, the words that it gives for a command; the theorem about
-- reads takes it to give the words of the sector that the command names, as an ATA disk does. The
-- functions of a filesystem are parameters of File.
--
-- In Fat16 and Elf memory that a structure is read to is apart from other memory. Whether kzalloc finds room is
-- a parameter of Fat16, and its addresses one of Elf/Load.
--
-- In Task/Strings the functions kzalloc and kfree are a parameter.
--
-- In Timer the interrupts that come in front of each read of the counter are a list of their numbers.
--
-- In Stdlib the addresses that boios_malloc gives are a parameter, a list of blocks apart from each other in its
-- theorem; the keys to come are a list, and the terminal is a parameter of the line reader.
--
-- Not modelled: the arguments of a process, the rest of process_terminate, the bodies of the other system calls, printf and the
-- start of the user library, and the shell; the frees of fat16_close and elf_close; and, as they only drive the machine, the assembly (boot
-- loader, entry points of interrupts, port access, loading of CR0, CR3 and the descriptor tables) and the start of
-- the kernel.
pub mod Prelude
pub mod Status
pub mod Memory
pub mod Heap
pub mod Kheap
pub mod Paging
pub mod CString
pub mod PathParser
pub mod Keyboard
pub mod Disk
pub mod Gdt
pub mod File
pub mod Terminal
pub mod Task
pub mod Fat16
pub mod Elf
pub mod Interrupts
pub mod Process
pub mod Stdlib
pub mod Timer
pub mod SystemCalls
