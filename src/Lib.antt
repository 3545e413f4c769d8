-- ===== src/Lib.antt =====
-- A verification library for the emulator core of AdvancedSlop, a Game Boy Advance emulator. It
-- models the processor's side of the machine: the event scheduler, the banked register file, the
-- interrupt controller, the timers, DMA, the keypad, the firmware calls, and the interpreter with
-- its instructions and decoder tables; and the cartridge's save chips and clock.
--
-- How the parts interact. The interpreter fetches an opcode, looks its handler up in a table, which
-- the disassembler's table mirrors, and the handler executes an instruction on the registers. A
-- write of CPSR, IME or IE, and every device that raises a flag, asks the interrupt controller
-- whether an interrupt can be taken, and then sets the processor's bit in the scheduler's mask of
-- immediate events. The timers put their overflows into the scheduler, which calls them back when
-- their cycle has come, and a DMA channel that is started puts its transfer there. A transfer, like
-- an instruction that reads or writes memory, acts on the machine through a record of memory
-- accesses, which may reach any device. A software interrupt calls the firmware, which is emulated
-- on the same registers and memory, and so are the entry of an interrupt and the return from its
-- handler. The save chips and the clock are reached by such accesses in their windows of the
-- cartridge.
--
-- Files, and the sources that they model:
--   Base             shared names; words, bits (`digit x k` is bit k of x), lists, integers
--   Scheduler        src/core/cycle_manager.rs, the methods of `CycleManager`
--   Scheduler/Dispatch   the same file, `Emu::cm_check_events` and `Emu::cm_on_overflow_event`
--   Scheduler/Handlers   its table of event handlers, with those of the timers
--   Scheduler/Scan   its loops over a mask by `leading_zeros`
--   Cpu              the register file of src/core/thread_regs.rs, the state of src/core/cpu_regs.rs
--   Cpu/Banks        src/core/thread_regs.rs, mode switches and status writes
--   Cpu/Interrupts   src/core/cpu_regs.rs
--   Timers, Timers/Control   src/core/timers.rs
--   Emu              src/core/emu.rs, the state that the operations pass on
--   Interp           src/jit/interpreter/mod.rs, register accesses
--   Interp/Condition the same file, the condition test of `interpret_block_inner`
--   Interp/Flags, Interp/Shifter, Interp/Alu, Interp/Multiply   src/jit/interpreter/alu.rs
--   Interp/Branch    src/jit/interpreter/branch.rs, and the handlers of alu.rs that do nothing
--   Interp/ThumbBranch   src/jit/interpreter/thumb_branch.rs
--   Interp/ThumbAlu  src/jit/interpreter/thumb_alu.rs
--   Interp/Memory, Interp/Memory/Block   src/jit/interpreter/memory.rs, and the user registers of
--                    src/core/thread_regs.rs
--   Interp/ThumbMemory   src/jit/interpreter/thumb_memory.rs
--   Interp/System    src/jit/interpreter/system.rs
--   Interp/Run       the handlers behind the names of the tables
--   Interp/Step      src/jit/interpreter/mod.rs, the loop of `interpret_block_inner`
--   Bios and its children   src/core/hle/bios.rs; Bios/Calls is src/core/hle/bios_lookup_table.rs and
--                    src/core/exception_handler.rs
--   Decode/Op        src/jit/op.rs
--   Decode/Handlers, Decode/ThumbHandlers   the names of the handlers
--   Decode/ArmTable, Decode/ThumbTable   src/jit/interpreter/arm_table.rs and thumb_table.rs
--   Decode/Lookup and its children   src/jit/disassembler/lookup_table.rs
--   Decode/ThumbLookup   src/jit/disassembler/thumb/lookup_table_thumb.rs
--   Decode/Index     the lookups in these tables
--   Decode/Fields, Decode/ThumbFields, Decode/Ops   the instruction set by the fields of an opcode
--   Dma, Dma/Control src/core/memory/dma.rs
--   Input            src/core/input.rs
--   Cartridge        src/cartridge_io.rs, the save buffer and its detection
--   Cartridge/Flash, Cartridge/Eeprom   src/core/memory/cartridge.rs, the save chips
--   Rtc              src/core/rtc.rs, and the GPIO port of src/core/memory/cartridge.rs
--   FixedFifo        src/fixed_fifo.rs
--   Tests            concrete machines and the theorems applied to them
-- The other files hold proofs, and are named for what they prove.
--
-- Operations keep the names of the source and take the state they change as their last argument.
-- Where the source generates a function for each instruction by macro, the instruction is an
-- argument. Words are natural numbers, and the wrap-around of the release build is written out. The
-- release build is modelled: debug prints and debug assertions are left out.
--
-- A panic, and what `debug_panic!` rules out, is `none` (`panicked` in the interpreter's loop). The
-- functions in the tables stand by their names, which both tables share; a run of equal entries is
-- written as `replicate`. Where the source returns a mutable reference or borrows a slice, the
-- model passes the value.
--
-- Parameters. The event handlers, the exception entry and the sound unit's timer callback are
-- arguments, and so are the memory's accesses (`Bus`, one record for the interpreter and one for
-- DMA), the accesses that only the firmware makes (`BulkBus`), floating point and the square root
-- (`Floats`, `Host`), the compiled code and the execution counters (`Jit`), the host's clock
-- (`Now`), the content of a save file, and a read of the rom by the GPIO port. What the theorems
-- ask of a memory is a named record: `StoresBlocks`, of a region of RAM, and `KeepsReady`. What they
-- ask of an event handler without a model is `Progresses` (Scheduler/Progress): it keeps the clock and
-- arms events only for later cycles than the one that is handled. The handlers reschedule by a positive
-- number of cycles from there; a vertical blank in which a saved state is loaded replaces the clock and
-- is outside. The type `R` of `Emu` stands for the state of the parts that have no model.
--
-- Fuel. The loops over a mask have 33 rounds, one more than a word has bits. A handler can reschedule
-- its event before the clock, and the dispatch loop then handles it again; the fuel of this loop is an
-- argument, and its theorem says how much is enough. An overflow of a timer has four rounds, one
-- for each channel; the loops over a register list have one for each register, those over a block
-- one for each element, and the search of a rom for a signature one for each byte, of which it
-- takes a quarter.
--
-- The decompressions stop when the size of their header is reached, and their fuel is computed from
-- it. The interpreter's loop has its fuel as an argument, since a guest program need not end.
--
-- Not modelled: the recompiler (it emits host code), graphics, sound, the presenter, save states,
-- and the memory map, which work on raw memory or on host libraries; the loading of a rom, and the
-- enabling of the clock by a first access, which change the host's files and mappings. The
-- instruction descriptions of the disassembler, the rewind buffer and the bit set can follow.
pub mod Base
pub mod Scheduler
pub mod Cpu
pub mod Timers
pub mod Emu
pub mod Interp
pub mod Dma
pub mod Input
pub mod FixedFifo
pub mod Cartridge
pub mod Rtc
pub mod Bios
pub mod Decode
pub mod Tests
