-- ===== src/Lib.antt =====
-- A small kernel for the ARM boards VExpress-A9 and VersatilePB: a memory allocator, a serial line
-- with formatted output, an interrupt controller, a timer, and an interrupt handler that puts
-- received characters into a list, from which the main loop echoes them.
--
-- Prelude holds the shared lists, integers and Boolean tests. The parts are these.
--   Mmio: the register accesses and bit macros of board.h. A device is a function that answers a
--     read from the history of accesses, and an operation extends the history; a busy wait is given
--     a number of polls. Update has the functions that set and clear bits of a register, and Bits
--     is about the macros for a bit of a byte.
--   Kmem: kmem.c and kmem.h. State has the chunk and page headers, `_alloc`, and the results of a
--     run; Init, Malloc, Free and Cleanup have space_valloc_init, kmalloc, kfree and
--     space_valloc_cleanup, with the loops as functions of their own. A loop over a list has a
--     round for each item, which the allocator counts, and one more. Chain describes the lists;
--     the child modules are about the initialisation (Init/Pages), the sizes (Malloc/Limits), the
--     search (Malloc/Holes), the removal of a hole (Malloc/Unlink), its split (Malloc/Split) and
--     its use (Malloc/Reuse), the chunks from a page (Malloc/Taken, Malloc/Paged) and the end of
--     kmalloc (Malloc/Counted), the return of a chunk (Free/Push) and its next use (Free/Again),
--     and the loops of the clean-up (Cleanup/Holes, Cleanup/Moved, Cleanup/Pages). The lists of
--     holes, of pages and of free pages with their counters are HasLists; Init/Whole,
--     Malloc/Whole, Free/Whole and Cleanup/Whole are about these, and Lists has what they share.
--     The chunks in use are known to the code by its counters only: IsSound, in Sound, says where
--     they lie and what the counters are. Init/Sound, Malloc/Sound, Free/Sound and Cleanup/Sound are
--     about it, with the parts of kmalloc in Malloc/Picked (a whole hole), Malloc/Parted (a part of
--     one), Malloc/Opened (a page), Malloc/Carved (a chunk of a page) and Malloc/Chosen (its count);
--     Members, Bounds and Layout have what they share. Own is about the bytes that a chunk was asked
--     for beside the other chunks, and Requests is a client that asks for chunks and gives them back.
--     Report has what these functions print by kprintf, apart from the state of the allocator.
--   PendingList: kirqPendingList.c and kirqPendingList.h, over an interface of the allocator. Queue
--     and Removal relate the linked nodes to a queue, with memory for the nodes that it may still
--     get; Race has an interrupt in the middle of a removal. Kheap shows that the allocator of
--     kmem.c fills the interface, with chunks found by the address of their data (Data), and Bump
--     is a smaller instance.
--   Gid, Gic: gid.c and gic.c, the interrupt distributor and the CPU interface of the VExpress-A9.
--   Dump: the dumps of the registers in gid.c and gic.c, which print.
--   Pl190: pl190.c and pl190.h, the interrupt controller of the VersatilePB.
--   Timer: timer.c.
--   Uart: pl011.c and pl011.h.
--   Kprintf: kprintf.c. Digits has ksprintn, Spec the flags, width and precision of a conversion,
--     Number the conversions of numbers and their padding, Print the others and the loop of
--     kvprintf, which has a round for each character of the format and one more; Print/Conversions,
--     Print/Values and Print/Dumped are about one conversion, and Print/Items about a format with
--     any number of them.
--   Kmain: the interrupt handler, the handling of the pending interrupts and the echo of kmain.c
--     for the VExpress-A9. They use PendingList, Uart, Gic, Timer and Kprintf. System has the kernel
--     after its boot as steps: an interrupt, or a round of the main loop. Environment says what the
--     steps rely on: transmit FIFOs with room, and no interrupt but the serial line's. What the
--     allocator prints goes to UART0, with what kprintf prints of the counter.
--     Boot has irq_init and kmain up to its loop, and Boot/Kheap puts it on the allocator of kmem.c.
--     Poll has the polling loop's zzz, User the programs of user.c, and Versatile the other
--     board's irq_init and irq_handler.
--
-- The addresses that the linker or the processor gives (the heap's bounds, the base of the
-- peripherals) are parameters. The configuration is the Makefile's, with the allocator's statistics.
-- Memory is typed: a header is read at the address at which it was written, and data that a user
-- writes to a chunk is not kept. A byte behind a format or an argument that is not there is
-- an undefined read. Numbers are natural numbers, with the wrap-around of the fields
-- and counters written out.
--
-- Not modelled: the assembly files and inline assembly, which are parameters where C code uses
-- them, libaeabi, which is another project's library, and the interleaving of an interrupt with
-- the operations of the list that it shares with the main loop, but for the one place of
-- PendingList/Race. An interrupt between arm_enable_interrupts and the loop of kmain is left out. In System a round of the main loop runs to its end before the next interrupt.
pub mod Prelude
pub mod Mmio
pub mod Kmem
pub mod PendingList
pub mod Gid
pub mod Gic
pub mod Timer
pub mod Uart
pub mod Pl190
pub mod Kprintf
pub mod Kmain
pub mod Dump
