-- ===== src/Ir.antt =====
-- crates/rtcl-ir: the instruction set and the compiled unit with its optimiser.
pub mod OpCode
pub mod Targets
pub mod Jumps
pub mod ByteCode
pub mod Strip
pub mod Unfuse
pub mod Fuse
pub mod Peephole
pub mod Tests
pub mod Machine
