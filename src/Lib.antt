-- ===== src/Lib.antt =====
-- A model of the core of KBoot, a boot loader for the BIOS, EFI and device-tree platforms.
--
-- The loader keeps a map of physical memory (source/memory.c), from which kernels, modules, page
-- tables and the loader itself are placed; a kernel's virtual addresses come from a region
-- allocator (source/lib/allocator.c) with the same representation.
--
-- Base          shared names, tests on numbers, 64-bit arithmetic, lists; Base.Rounding has the
--               macros of source/include/lib/utility.h, Base.Outcome the ways in which the loader
--               stops: a failed assertion, internal_error, boot_error
-- Range         ordered lists of address ranges: the code that insert_range of source/memory.c and
--               insert_region of source/lib/allocator.c share
-- Memory.Map    memory maps: merge_ranges, insert_range, memory_map_insert, memory_map_remove
-- Memory.Alloc  memory_alloc, memory_free, memory_finalize and the other operations on memory_ranges
-- Allocator     allocator_alloc, allocator_insert, allocator_reserve, allocator_init
-- Heap          malloc, realloc and free of source/memory.c over the list of chunks; chunks are
--               placed by their offset in the heap of 131072 bytes, behind headers of 32 bytes
-- CString       lengths, comparisons and searches of source/lib/string.c, on the bytes from a pointer on
-- LineEditor    source/lib/line_editor.c: the buffer, and the bytes that are printed; LineEditor.Refine
--               has the abstract text with a cursor
-- Charset       utf16_to_utf8 of source/lib/charset.c
-- Config        source/config.c: values and command lists; Config.Reader has read_char and its
--               relatives over a configuration file, Config.Parser the functions from
--               parse_integer to config_parse, Config.Printer a text for each command list,
--               Config.Environ environments, Config.Substitute value_substitute, Config.Exec command
--               lists and the commands set, unset, reboot and exit; other commands are a parameter
-- Disk          source/disk.c: byte reads of disks, partitions and disk images; Disk.Mbr and Disk.Gpt have
--               the walks over partition tables of source/partition, whose callback calls are listed.
--               The blocks that a driver reads are a field of the disk
-- Devices       the list of devices of source/device.c
-- Mmu           page tables of 64-bit contexts, source/arch/x86/mmu.c: mmu_context_create and mmu_map, and
--               mmu_mem_op_64 in Mmu.Access. Their pages come from Mmu.Grow.PageSource, which Mmu.Supply fills by memory_alloc; the walk of a
--               processor is Mmu.Tree.lookup
-- Kernel        the virtual address space of a 64-bit kernel, source/loader/kboot.c: its creation from the
--               range that the image asks for (check_virt_map_params, and kboot_arch_check_load_params of
--               source/arch/x86/loader/kboot.c), kboot_alloc_virtual, kboot_map_virtual and the loop
--               over the mapping tags. Kernel.Placement.IsLoader says how the list of mappings, the
--               address allocator and the page tables agree
--
-- Machine words are natural numbers with 64-bit wrap-around written out. A doubly linked list is a
-- list, and a pointer to one of its nodes is what stands before and after the node. Global state is
-- passed from call to call. The loop of memory_finalize runs on a bound, the length of the map, which
-- it cannot exceed since each round takes a range off the list that is left. The configuration parser
-- runs on 3 * n + 4 calls for a file of n bytes: three calls, of a list, of a value in it and of a loop
-- over its characters, can take one character together. A call of the parser that returns NULL is
-- `failed`: config_error, which it calls first, comes back only in the shell. A char is signed, as
-- on x86, so that the byte 0xff of a file reads as EOF. The loop of disk_device_read runs once for each full
-- block at most, and that of handle_extended on 2^32 + 1 rounds, since each EBR lies behind the one before. The
-- loops of mmu_map run once for each page at most, that of mmu_mem_op_64 once for each byte.
--
-- Not modelled: printing of memory maps and debug output, the texts of configuration errors, the
-- platform's memory probing, the bytes in heap blocks, the allocation of list nodes
-- from the heap (its exhaustion stops the loader), the names and the registration of disks, 32-bit page
-- tables, arm64, and of the KBoot loader the tag list, options, modules, ELF segments and the trampoline; the
-- other loaders, file systems, consoles, menus and platforms, whose work is device access and drawing.
pub mod Base
pub mod Range
pub mod Memory
pub mod Allocator
pub mod Heap
pub mod CString
pub mod LineEditor
pub mod Charset
pub mod Config
pub mod Disk
pub mod Mmu
pub mod Kernel
pub mod Devices
