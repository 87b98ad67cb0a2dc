-- ===== src/Cpu.antt =====
-- cpu.h and cpu.c: the R3000A core.
pub mod Instruction
pub mod State
pub mod Arithmetic
pub mod Memory
pub mod Exceptions
pub mod Alu
pub mod LoadStore
pub mod Control
pub mod Decode
pub mod Run
pub mod Invariant
pub mod ArithmeticLaws
pub mod ExceptionLaws
pub mod UnalignedAccess
pub mod UnalignedLoad
pub mod LoadDelay
pub mod DelaySlot
