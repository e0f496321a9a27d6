-- ===== src/Parser.antt =====
-- crates/rtcl-parser: what the parser and its callers ask of a script's text.
pub mod Complete
pub mod Rd
pub mod Agree
