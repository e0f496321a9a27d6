-- ===== src/ListRep.antt =====
-- crates/rtcl-vm/src/value.rs: the string form of a Tcl list, how it is written and how it is read.
-- A string is its UTF-8 bytes. Where the source scans by an index, the model holds the bytes from
-- that index on.
pub mod Quote
pub mod Backslash
pub mod Sequence
pub mod Parse
pub mod Scan
pub mod Quiet
pub mod Braces
pub mod Utf8
pub mod Escapes
pub mod Find
pub mod RoundTrip
pub mod Total
pub mod Tests
