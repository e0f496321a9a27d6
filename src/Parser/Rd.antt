-- ===== src/Parser/Rd.antt =====
-- crates/rtcl-parser/src/rd: the recursive descent parser. A text is the list of its characters, and
-- a position in it what is left from there, with its byte offset and its line.
pub mod Token
pub mod Parsed
pub mod Escape
pub mod Group
pub mod Word
pub mod Script
pub mod Reach
pub mod Groups
pub mod Escapes
pub mod Words
pub mod Parts
pub mod Gaps
pub mod Skips
pub mod Located
pub mod Whole
pub mod Tests
