-- ===== src/Parser/Agree.antt =====
-- The parser of crates/rtcl-parser/src/rd beside the completeness check of
-- crates/rtcl-parser/src/completeness.rs: the one reads characters, the other their bytes.
pub mod Bytes
pub mod Tokens
pub mod Braces
pub mod Tests
