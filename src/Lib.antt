-- ===== src/Lib.antt =====
-- A model of the kernel vv4os. A word is a number below 2^32 with its wrap-around written out; a pointer
-- is an address, and 0 is `NULL`. Code that fails an assertion is `none`, and code that reads through
-- `NULL` or a dangling pointer is `fault`.
--
-- The parts, and the files that model them (paths below kernel/src):
--   Bitmap      util/bitmap.c, util/bitwise.h: the allocation bitmap, on which PhysMem and Ports stand
--   PhysMem     arch/x86/mem/phys_mem_mgr_x86.c: physical frames
--   Ports       io/ports.c: ranges of I/O ports
--   File        io/disk/file.h, io/disk/file_op_stubs.c: file descriptors
--   Process     user/process.c, arch/x86/user/process.c: processes and the scheduler
--   Syscall     user/syscall.c: system calls, over Process and File
--   Vga         io/vga_terminal.c: the text screen
--   Strings     stdlib/string.c, stdlib/ctype.c: C strings
--   Stdlib      stdlib/stdlib.c: numerals, memory and `atoi`
--   Stdio       stdlib/stdio.c: formatted output, and the standard streams over Vga
--   Pci         io/pci.c: the configuration space and the scan of the bus
--   VirtMem     arch/x86/mem/virt_mem_mgr_x86.c, mem/liballoc/hooks.c: page tables and address spaces,
--               over PhysMem
--   Disk        io/disk/disk.c, io/disk/volume.c: partitions, and the lists of disks and volumes
--   Fat         io/disk/fs/fat.c: FAT32 volumes, files and directories, over Disk
--   Gdt, Idt    arch/x86/dt: the descriptor tables, the gates and the dispatch of interrupts
-- Base holds what they share: Boolean tests, lists and the bits of words.
--
-- In each of them a record holds the static variables of the C file, a function stands for each C
-- function under its name, and a loop is a function of its own. A loop over an index recurses on the
-- number of rounds that the bounds give. A loop over a linked list recurses on fuel, and its theorems
-- say that more fuel than the list has elements is enough; the loop that scrolls the screen has fuel
-- for one round for each row, and the loop that counts digits for one round for each bit. The
-- fuel of the PCI scan bounds the depth of bridges. A linked list in the store stands for a list
-- of structures (`Chain`).
--
-- VirtMem has physical memory as words of 32 bits, in which the page tables are. A table is reached as
-- the code reaches it, through a page of the kernel that is mapped to it for that time, and the state
-- before and after is compared word by word. The search for free pages has as many rounds as there are
-- pages. Disk and Fat take the read operation of a driver as a parameter: the bytes of each sector, or
-- nothing where the driver fails. Their loops over sectors and clusters have the bounds of the code, and
-- the loop of PartitionRead and the walk along a directory have fuel.
--
-- Not modelled: the third-party allocator in mem/liballoc, whose results are parameters; the assembly,
-- whose entry points are parameters; what the processor caches of the page tables; the driver of IDE
-- disks, the serial port and the debugger stub, which talk to devices by port accesses, and whose results
-- the modelled parts take as parameters or do not use; the list and the ids that AddDisks keeps;
-- `main`, which calls the initialisations one after the other; `exit`, which halts; `printf` and
-- `fprintf`, which only pass their arguments on.
mod Base
pub mod Bitmap
pub mod PhysMem
pub mod Ports
pub mod File
pub mod Process
pub mod Syscall
pub mod Gdt
pub mod Idt
pub mod Vga
pub mod Strings
pub mod Stdlib
pub mod Stdio
pub mod Pci
pub mod VirtMem
pub mod Disk
pub mod Fat
