-- ===== src/Lib.antt =====
-- The library models the parts of the repository that have their own logic, each from its source.
--
-- LiteNes is the NES emulator of apps/litenes. `Nes` (LiteNes/Machine.antt) holds the global variables
-- of the emulator: the processor's registers and memory, the argument of the current instruction, and the
-- state of the picture unit (`Ppu`), the joystick port (`Psg`) and the cartridge (`Mmc`). Each function of
-- the source that changes these is a function on the record, named as in the source; one that also
-- returns a value returns a pair.
--
--   LiteNes/Bits.antt        apps/litenes/src/common.c: single bits of a variable
--   LiteNes/Psg.antt         apps/litenes/src/psg.c: the joystick port
--   LiteNes/Ppu.antt         apps/litenes/src/ppu.c: the registers and the memory of the picture unit
--   LiteNes/Video.antt       apps/litenes/src/fce.c: the canvas (`Video` adds it to the machine). Video/Render
--                            has the pixels of apps/litenes/src/ppu.c, and Video/Frame ppu_cycle and the
--                            lines of a frame, with fuel for the runs of the processor
--   LiteNes/Mmc.antt         apps/litenes/src/mmc.c: the cartridge
--   LiteNes/Rom.antt         apps/litenes/src/fce.c: the loader of cartridge images, and the start
--   LiteNes/Memory.antt      apps/litenes/src/memory.c: the memory map, through which the processor
--                            reaches its memory, the picture unit, the joystick and the cartridge
--   LiteNes/Addressing.antt  apps/litenes/src/cpu-addressing.c: the addressing modes
--   LiteNes/Cpu/*.antt       apps/litenes/src/cpu.c: the flags (Flags), arithmetic and logic (Alu),
--                            shifts (Shift), the stack and the jumps (Stack), moves, branches and the
--                            extended instructions (Move), the instruction table (Ops, Table), and the
--                            loop, the reset and the interrupt (Run)
--   LiteNes/Tests.antt       a console for the tests, and the theorems at concrete inputs
--
-- Klib is the C library of libs/klib, on a memory that is an array of bytes.
--
--   Klib/Mem.antt            libs/klib/src/string.c: memset, memcpy and memmove. The local variables of
--                            their loops are a `Cursor`; each loop over words is on fuel, as much as
--                            there are bytes left, with which it ends by its own test (Mem/Loops)
--   Klib/Text.antt           libs/klib/src/string.c: the functions on strings, on fuel
--   Klib/Heap.antt           libs/klib/src/stdlib.c: the allocator, whose state is the last block
--                            (`Last`), random numbers and conversions. Heap/Blocks runs sequences of calls
--                            and keeps the blocks in use beside the allocator
--   Klib/Tests.antt          the theorems at concrete inputs
--
-- Riscv is the XiangShan platform of am/src/xs, with the page tables that am/src/nemu shares with it.
--
--   Riscv/Pmp.antt           am/src/xs/isa/riscv/pmp.c and pma.c: the privileged instructions that the
--                            functions run, as a list; what the registers hold is a parameter.
--                            Pmp/Napot has the hardware's match rule of an entry, Pmp/Config runs the
--                            instructions on registers that no lock protects
--   Riscv/Plic.antt          am/src/xs/isa/riscv/plic.c: the words of the device memory
--   Riscv/Vme.antt           am/src/nemu/isa/riscv/vme.c: the page tables of Sv39. The memory and the
--                            number of allocated pages are a `Vm`; the allocator is a parameter, its
--                            `k`-th page. Vme/Walk is the walk of the hardware; Vme/Table says which
--                            page holds which table (`Tag`), Vme/Link and Vme/Leaf add a table and a
--                            leaf, Vme/Mapped and Vme/Descent put them together along the loop, and Vme/Laws,
--                            Vme/Segments, Vme/Init and Vme/Protect hold the laws of the operations
--   Riscv/Mpe.antt           am/src/xs/isa/riscv/mpe.c: `_barrier` as turns of the processors on their
--                            shared variables, each turn one access, and the states that turns in any
--                            order reach; Mpe/Barrier has the phases, Mpe/Turns and Mpe/Phases go
--                            from one to the next, Mpe/Laws holds the results
--   Riscv/Cte.antt           am/src/nemu/isa/riscv/cte.c: the tables of trap handlers (`Cte`) and the
--                            dispatch, with the functions of vme.c that read and write satp. Cte/Laws
--                            has the tables, Cte/Trap the whole of a trap
--   Riscv/Tests.antt         the theorems at concrete inputs
--
-- Bench is the benchmark suite of apps/microbench.
--
--   Bench/Qsort.antt         apps/microbench/src/qsort/qsort.c: the recursion on fuel, as much as there
--                            are elements and one more; Qsort/Occurs counts the values of a part of an
--                            array, Qsort/Partition has the inner loop, Qsort/Laws the result
--   Bench/Tests.antt         the theorem at a concrete input
--
-- Typing is the typing game of apps/typing.
--
--   Typing/Linklist.antt     apps/typing/game.h: the doubly linked lists of LINKLIST_IMPL on their pool. A
--                            pointer is 0 for NULL and i + 1 for pool + i. Linklist/Segment says which
--                            nodes a list has, Linklist/Links has the writes through pointers,
--                            Linklist/Remove, New and Insert the operations
--   Typing/Keyboard.antt     apps/typing/keyboard.c: the keys; Keyboard/Letters what an event does to them
--   Typing/Game.antt         apps/typing/game.c: the letters. Game/View is the list of letters that a game
--                            stands for (`Represents`), against which Game/Create, Game/Fallen and Steps with
--                            Game/Update, and Game/Target with Game/Keypress hold the operations
--   Typing/Main.antt         apps/typing/game.c: the rounds of the main loop, which get the keys of each
--                            frame. The loops in a round are on fuel; more than 26 rounds are enough,
--                            since letters that come every tenth frame are gone after 258 (Main/Aged);
--                            Main/Strikes and Main/Between have the parts of a frame, Main/Play the frames
--   Typing/Tests.antt        the theorems at concrete inputs
--
-- Files named Range say that an operation keeps every register and byte in the range of its C type
-- (`IsNes`), those named Laws what the operations compute.
--
-- Words are native numbers with the wrap-around written out; a negative `int` is its 32-bit pattern.
-- Memories are functions from the index. The loop of `cpu_run` is on fuel, one unit for each instruction:
-- its cycles divided by 3, and one more, are enough where every opcode has a row in the table, since each
-- row costs a cycle at least.
--
-- Base is shared: the names of the libraries, Boolean tests, C words, arrays and the bits of the bitwise
-- operations.
--
-- Not modelled: the clock and the screen of apps/litenes; the other platforms under am/src, whose code is
-- device registers and assembly; printf and the 64-bit division of libs/klib, which are third-party code;
-- the screen and the clock of apps/typing; the other benchmarks; the other applications, which are
-- third-party programs or demonstrations.
pub mod Base
pub mod LiteNes
pub mod Klib
pub mod Riscv
pub mod Bench
pub mod Typing
