-- ===== src/Lib.antt =====
-- A verification library for the apsyde kernel (kernel/). The kernel is single-threaded C that
-- runs on one processor: kernel/main.c starts the parts one after the other, interrupts change
-- the keyboard's and the timer's variables, the heap takes its memory from the page allocator,
-- and the shell reads characters from the input layer and prints to the console.
--
-- Each part is a module, whose state is a record with the source's variables, and whose
-- operations are functions with the source's names that return the new state. A pointer is a
-- number and NULL is 0 or none. Words are native numbers with the wrap-around written out (u8,
-- u16, u32, u64, sub32, sub64). An array that is addressed only within its bounds is a
-- function of the index, and the bitmap of pages is a list of bytes. What a function prints on
-- its way is left out.
--
-- Pmm is the physical page allocator, kernel/mm/pmm.c with include/boot_info.h: Pmm/Bitmap
-- (bitmap_test, bitmap_set, bitmap_clear), Pmm/State (the variables and the two conversions of
-- addresses), Pmm/Init (pmm_init: the pass over the memory map and the five passes over the
-- bitmap) and Pmm/Alloc (pmm_alloc_page, pmm_alloc_pages, pmm_free_page, pmm_free_pages,
-- pmm_region_set_used). Pmm/Invariant has the invariant that ties the counter to the bitmap.
-- The memory map is a list of descriptors, and panic and an access outside the map are
-- outcomes of pmm_init.
--
-- Keyboard is kernel/drivers/keyboard.c: the ring of characters, the log of scan codes and the
-- interrupt handler, whose scan code is an argument. Keyboard/Queue and Keyboard/Log compare
-- the two rings with lists. The blocking read, which halts the processor in a loop, is not
-- modelled.
--
-- Input is kernel/input/input.c on top of Keyboard: the choice of the source and the DEMO
-- script. The ticks a call reads are arguments.
--
-- Fb is kernel/fb/fb.c, the text console: Fb/Utf8 is about the decoder, Fb/Frame and Fb/Cursor
-- about the pixels written and the cursor. The font is an argument.
--
-- Pci is kernel/bus/pci.c: Pci/Address (the configuration address), Pci/Bar (pci_bar_size),
-- Pci/Scan (the scan with its recursion through bridges) and Pci/Find (pci_find). The
-- configuration space is a function of the address, and what a write does to it is an
-- argument. The recursion has fuel, one for each bridge on the way; 256 is enough when every
-- bridge leads to a bus of a higher number, as there are 256 bus numbers.
--
-- Vmm is kernel/mm/vmm.c: vmm_map, vmm_map_range, vmm_unmap and vmm_get_phys on the page
-- tables in memory. The page allocator is an interface, the record PageSource. Setting up the
-- kernel's address space is not modelled.
--
-- Interrupts is kernel/intr: pic.c, irq.c and pit.c. Port writes are a trace. A handler is a
-- function on the state of the drivers.
--
-- Common has what the modules share: the C tests and conditional (Common/Tests), words
-- (Common/Words), lists (Common/Lists), bit operations (Common/Bits) and rings (Common/Ring).
-- The recursion of every other loop is on the rounds that are left, which the source's loop
-- bound gives.
--
-- Elf is bootloader/src/elf.c: the three passes of elf_load over the program headers. The
-- firmware's allocation of pages is an argument.
--
-- Text is kernel/lib: string.c, and the numbers and the format loop of kprintf.c. What is
-- emitted is a list of bytes, and a string is the list of its characters before the zero. The
-- digits of a number fill at most 24 places, as in the source, and 2^64 has 20 digits.
--
-- Heap is kernel/mm/heap.c with kernel/mm/kmalloc.c: Heap/State (the variables, the headers
-- and heap_init on top of Pmm), Heap/Ops (heap_alloc, heap_free, heap_realloc, heap_calloc)
-- and Heap/Stats (heap_get_stats and heap_check). Each field of a header in memory is a
-- function of the header's address, so the model does not say what a header reads as where
-- other data was written over it. The loops have fuel, one round for each block and one for
-- the end, which the counters give; on a well-formed heap it is enough. Heap/Segs,
-- Heap/Counts, Heap/Shape and Heap/Merge are about the lists of blocks, Heap/Invariant has the
-- invariant, Heap/Search and Heap/Alloc the steps of heap_alloc, Heap/Answer its results,
-- Heap/Free heap_free, and Heap/Sliver a defect of heap_alloc.
--
-- Shell is kernel/shell/shell.c: Shell/State is the history and the line editor, whose
-- characters are an argument, and Shell/Command the choice of the command. What the commands
-- do is not modelled: executing gives the lines and the commands.
--
-- Ehci is kernel/drivers/usb/ehci.c: Ehci/State (registers, descriptors, pools), Ehci/Schedule
-- (the polling loops and the start of the controller), Ehci/Ports and Ehci/Transfer. The
-- controller is a record of functions on a state of its own, which answers the reads of
-- registers and of the tokens that it may change; nothing is assumed of it. The loops have the
-- source's bounds. The memory barriers, the pauses and the reads that are only printed are
-- left out.
--
-- Not modelled are the panic screen, the serial port, the search for the EHCI controller, the
-- descriptor tables, the rest of the boot loader, and the assembly code.
pub mod Common
pub mod Pmm
pub mod Heap
pub mod Keyboard
pub mod Input
pub mod Fb
pub mod Pci
pub mod Interrupts
pub mod Vmm
pub mod Elf
pub mod Text
pub mod Shell
pub mod Ehci
