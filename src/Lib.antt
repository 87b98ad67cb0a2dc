-- ===== src/Lib.antt =====
-- A model of the parts of the emulator that run a program: the R3000A core with its geometry
-- coprocessor, the bus with its memories and DMA transfers, and the devices that count time and
-- raise interrupts. Definitions are translated from the C sources, by name; a test of the model
-- is a run of the code.
--
-- How the parts interact. `src/cpu.c` runs one instruction per call of
-- `cpu_run_next_instruction`: it samples the interrupt controller (`src/irq.c`), fetches through
-- the instruction cache (`src/cpu_cache.c`), charges bus cycles (`src/bus_timing.c`) and
-- multiplier cycles (`src/cpu_timing.c`), and hands coprocessor registers to `src/gte.c`. The
-- cycles that a step returns drive the scheduler (`src/scheduler.c`) and the root counters
-- (`src/timer.c`), which raise lines of the interrupt controller, as the DMA controller
-- (`src/dma.c`, `src/channel.c`) does. Every load and store of the core goes through
-- `src/interconnect.c`, which decodes the address, serves it from main memory (`src/ram.c`), the
-- boot ROM (`src/bios.c`), the scratchpad or a device's register, and runs a DMA transfer when a
-- write makes a channel active.
--
-- Files:
-- * Base and its children: numbers, words, signed integers, lists and bit operations. Numbers
--   are natural numbers; a word of w bits is cut off by `% 2 ^ w` where the code casts or wraps.
-- * Irq, Irq/Laws: `src/irq.c`. Two 16-bit registers.
-- * Scheduler, Scheduler/Laws, Scheduler/Requests: `src/scheduler.c`. The slot array is a list
--   of 13 events; the loops are recursion on it.
-- * Timer/State, Timer/Registers, Timer/Count: `src/timer.h`, `src/timer.c`. A unit is a record,
--   and `timer_advance` is recursion on the number of ticks. Laws: Timer/Tick, Advance, Period,
--   OneShot, Divider and Bounds.
-- * Channel, Dma and their Laws: `src/channel.c`, `src/dma.c`.
-- * Ram, Ram/Laws: `src/ram.c`. Bytes by index; an index out of range is `none`.
-- * BusTiming, CpuTiming, ICache and their Laws: `src/bus_timing.c`, `src/cpu_timing.c`,
--   `src/cpu_cache.c`.
-- * Gte, Gte/Laws, Gte/Lzcr: the register file of `src/gte.c`, which is what `mfc2`, `mtc2`,
--   `cfc2`, `ctc2`, `lwc2` and `swc2` reach.
-- * Gte/Fields, Saturate, Divide, Transform, Commands, Colour, Execute: the commands of
--   `src/gte.c`, which `gte_execute` selects. The macros for fields are functions of the
--   register file; the helpers that return a value and change the state give both. `int64_t`
--   values are integers: no product or sum of a command leaves that type. Laws: Gte/DivideLaws,
--   Gte/Flag, Gte/Words, Gte/Keeps, Gte/TransformKeeps, Gte/CommandKeeps.
-- * Bios, with the loads of `src/bios.c`, and Interconnect, Interconnect/Map, Registers,
--   Transfer, Control, Load, Store: `src/interconnect.c`, and the open bus of
--   `src/bus_policy.c`. The state is the record `Interconnect`; the chains of `range_contains`
--   are tables of ranges in the order of the source; `exit(1)` and an index out of range are
--   `none`. Laws: Interconnect/Visited, Termination, Regions, Serving, LoadServing,
--   StoreServing, Totality, MainMemory, InterruptByte.
-- * Cpu/Instruction, State, Arithmetic, Memory, Exceptions, Alu, LoadStore, Control, Decode,
--   Run: `src/cpu.h` and `src/cpu.c`, every opcode handler under its own name. The state is the
--   record `Cpu`; handlers take it and give the new one. Laws: Cpu/Invariant and its children,
--   Cpu/ExceptionLaws, Cpu/DelaySlot, Cpu/LoadDelay, Cpu/ArithmeticLaws, Cpu/UnalignedAccess,
--   Cpu/UnalignedLoad.
-- * Sio, Sio/Pads, Card, Registers, Buttons: `src/sio.h` and `src/sio.c`. The bytes of the card are a
--   function from offsets. Where a register's read calls the byte read, and the byte read the
--   register's, the part of offset 0 is a function of its own. Laws: Sio/Fifo, Run, Exchange,
--   Poll, WriteSector, ReadSector, RoundTrip, CardFileLaws, Timing.
-- * Exe, Exe/Laws: `src/exe.h` and `src/exe.c`. A file is the list of its bytes.
-- * Tests and its children: runs at concrete inputs.
--
-- The interface of the core. `Cpu.State.Machine` holds the functions of `src/interconnect.c`
-- that the core calls (`interconnect_load32`, `interconnect_store32` and their kin, and the
-- interrupt controller inside) over any state `S`, and `gte_execute` of `src/gte.c`. A load
-- gives a new state, since reading a device may change it. `IsMachine` states what the invariant
-- relies on: loads answer within their width, and a command leaves the coprocessor's files with
-- 32 words each. Tests/Bus has such a machine. `Cpu.Invariant.Coprocessor` puts `gte_execute` of
-- Gte/Execute in its place.
--
-- The interface of the bus. `Interconnect.Devices` holds the functions of `src/gpu.c`,
-- `src/spu.c`, `src/cdrom.c`, `src/sio.c` and `src/mdec.c` that the bus calls, over a state
-- `D` of all of them. A write of GP1 may end the program there, which gpu.c does if the
-- environment variable PS1_GP1_LOOP_THRESH sets a limit; that it does not is what the theorem
-- on stores assumes at the addresses of GP1. The other theorems on the bus assume nothing of
-- it. Tests/Traffic has such devices. Interconnect/SerialPort puts the serial port of Sio in
-- its place among them.
--
-- The files of the memory card. What the file system does is an argument of each call: for
-- `sio_memory_card_load` what `fopen` and `fread` give, and for every call that writes the card
-- whether the bytes reach the file. A sequence of calls may be given different answers. A flush
-- that fails leaves the sector written in memory, as in the code.
--
-- Bounds and fuel. Loops over arrays recurse on the list, and `timer_advance` on the ticks. The
-- loops of LZCR have the word's width, 32, as fuel; `Gte.Lzcr` compares it with any larger fuel.
-- The loop that normalises a divisor has 15 rounds, and `do_dma_linked_list` has as many as main
-- memory has words, and one more; both are compared with any larger number. The loop of
-- `do_dma_block` recurses on the words. `|` of fields that take different bits is written as a
-- sum.
--
-- Not modelled: the CD-ROM, MDEC, SPU and GPU, which the bus reaches through `Devices`;
-- disc images and the reading of the boot ROM, which are file access around little
-- code; `src/renderer.c`, `src/main.c`, the log and the trace, which are input and output.
-- Messages to the log, with the counters that limit them, are left out of the handlers. The core
-- still takes the bus as the parameter `Machine`: that the loads of the bus answer within their
-- widths needs bounds on the devices that are not modelled. The cast of a signed value and the
-- shift of a negative one are what gcc compiles them to, and where C leaves the order of calls
-- in an expression open they are made from the left.
pub mod Base
pub mod Irq
pub mod Scheduler
pub mod Timer
pub mod Channel
pub mod Dma
pub mod Ram
pub mod Bios
pub mod BusTiming
pub mod CpuTiming
pub mod ICache
pub mod Gte
pub mod Cpu
pub mod Interconnect
pub mod Sio
pub mod Exe
pub mod Tests
