-- ===== src/Util.antt =====
-- crates/rtcl-vm/src/interp/util.rs: helpers of the interpreter.
pub mod Glob
