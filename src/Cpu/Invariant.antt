-- ===== src/Cpu/Invariant.antt =====
-- cpu.c: the registers stay 32 words with register 0 at zero, and the other fields stay words.
mod Defs
mod AluKeeps
mod MemoryKeeps
mod ControlKeeps
mod StepKeeps
mod Reachability
mod Coprocessor
pub use Defs.*
pub use StepKeeps.*
pub use Reachability.*
pub use Coprocessor.*
