-- ===== src/Lib.antt =====
-- A verification library of Bare-Metal-Programming, a 32-bit x86 kernel written in C++.
--
-- The kernel's core logic is its physical memory manager (kernel/pmm.cpp with
-- kernel/internal/pmm_templates.h): a bitmap with one bit for each 4 KiB frame, a hint where
-- searches start, two reserved regions and a counter of used frames. Callers allocate and free one
-- frame or a run of frames; a run is searched for, and marked, by one of three tiers of code
-- (general registers, SSE2, AVX2), which a table selects by the processor's features
-- (cpu/features.cpp). `pmm_initialize` builds the state from the memory map of kernel/e820.cpp.
-- The bit scans of tools/builtin.h and tools/math.h serve all of it.
--
-- Prelude: numbers, words with their wrap-around, bits of words, lists as arrays.
-- Tools/Builtin: tools/builtin.h and tools/math.h.
-- Pmm/Geometry: the globals of kernel/pmm.cpp as the record `Pmm`, the conversions between
--   addresses, frames and bits, and the accesses to one bit. A pointer is a number; the bytes that
--   g_bitmap.start points to are a list, read and written at the pointer's distance from `start`.
-- Pmm/Search, Pmm/Vector, Pmm/Sweep: array_of_shifts, the cores of the search (8, 16 and 32 bits,
--   SSE2, AVX2), the sweeps that chain them from one alignment to the next, and the table of tiers.
--   The inline and the called twin of a core have one definition, since their bodies are the same.
-- Pmm/Fill: set_gpr, set_sse2, set_avx2 and the fills of each tier for both values.
-- Pmm/Ranges: find_free_byte, free_frame_range, is_frame_range_used.
-- Pmm/Frames: pmm_allocate_frame, pmm_free_frame and the counters.
-- Pmm/Contiguous: pmm_allocate_contiguous_frames, pmm_free_contiguous_frames.
-- Pmm/Init: pmm_initialize, over the memory map as a list of entries.
-- Pmm/View, Pmm/Update, Pmm/Invariant: the bitmap as a function from frames to Booleans, changes of
--   it, and the invariant `IsPmm` of the allocator's state.
-- Keyboard: drivers/keyboard. Keyboard/Key and Keyboard/Tables hold the key numbers and the tables
--   of drivers/internal/keyboard_key_list_n_map.h, Keyboard/Events the events and their
--   classification, Keyboard/Driver the state that the interrupt handler writes and
--   `poll_keyboard_event` reads. The two port reads of the handler are its arguments; a reader runs
--   with interrupts off, so that handler and readers follow one another as whole steps.
-- Input: terminal/input.cpp. Input/Handlers takes the keyboard's events and calls the operations of
--   the buffer; the calls of the screen are entries of a list.
-- Screen: io/vga_text_buffer.cpp and io/hardware_cursor.cpp. Video memory is a function from cells to
--   entries; the bytes written to the display controller's ports are a list. Screen/View is the
--   abstract screen of 25 rows, Screen/Reach the runs of calls.
-- Output: terminal/output.h and terminal/output.cpp, on the screen of Screen. Output/Digits is the
--   template for decimal numbers, over the operations of its type; the digits buffer is a list and a
--   store in front of it gives `none`. Output/Hex has the hexadecimal printers, Output/Insert,
--   Output/Arrays and Output/Chain the operators. What `__builtin_clz` gives at 0 is a parameter.
-- Shell: apps/shell/shell.cpp, over Input, Output and Pmm. A line that its keys do not finish is still
--   waited for: such a turn has no result. The keys of a turn, the tick counter and
--   the addresses of the two stacks are the fields of a `Turn`; the binary search has 7 turns, one
--   for each command, which is more than it takes.
-- Timer: kernel/timer.cpp, kernel/pit.cpp and tools/stopwatch.h. A sleep runs over the list of its
--   loop's rounds, each with the interrupts that come before, at and after its halt, and gives `none`
--   where that list ends before the sleep does.
-- Interrupts: kernel/exceptions.cpp, kernel/idt.cpp, kernel/pic.cpp, kernel/logger.cpp and cpu/gdt.cpp.
--   A `Kernel` holds the state that the handlers change: Timer, Keyboard, the log's Output and the
--   bytes written to ports. A handler that stops the processor gives `halted`.
--   Keyboard.Start takes the answers of the ports as a function of the number of reads so far, and keeps
--   with each written byte the number of reads before it; a wait
--   has the 100,000 attempts of the source as its fuel, and gives up after them as the source does.
-- Boot: main.cpp, which starts all of these in its order. `Hardware` holds what the code finds and
--   `Machine` what it leaves.
--
-- A word of w bits is a natural number, with `% 2 ^ w` written out where the code wraps; size_t and
-- pointers have 32 bits. Loops over a pointer range run on the length of the range as fuel, which
-- is enough because each turn moves the pointer on by at least one byte. A vector comparison is the
-- comparison of its lanes, and a vector store is the store of its bytes. A write outside the
-- bitmap's bytes changes nothing; the invariant keeps the operations inside.
--
-- Not modelled: the assembly and the link scripts, the instructions that load the descriptor
-- tables, the address of the memory map that the boot code leaves, and the host's diagnostic tool.
-- No interleaving of an interrupt with an operation of the memory manager is modelled: no handler
-- calls it.
pub mod Prelude
pub mod Tools
pub mod Pmm
pub mod Keyboard
pub mod Input
pub mod Screen
pub mod Output
pub mod Shell
pub mod Timer
pub mod Interrupts
pub mod Boot
