-- ===== src/Lib.antt =====
-- rtcl, a Tcl interpreter in Rust: a model of parts of it, with the theorems that make them correct.
--
-- The program. A script is parsed and compiled (crates/rtcl-parser) to a unit of instructions
-- (crates/rtcl-ir), which an optimiser rewrites and the executor of crates/rtcl-vm runs; the JIT
-- (crates/rtcl-jit) takes units without superinstructions. Values are texts; a list is a text that
-- the functions at the end of crates/rtcl-vm/src/value.rs write and read.
--
-- The files.
--   Prelude: names passed on, Boolean tests and lists over the native numbers, integers.
--   Ir: crates/rtcl-ir. OpCode is the instruction set, ByteCode the unit with its operations (a
--     method that takes `&mut self` returns the new unit), Targets the operands that are jump
--     targets, Jumps the same as a relation, Strip `strip_nops`, Unfuse `has_fused_ops` and
--     `unfused`, Fuse `collect_jump_targets` and `fuse_pairs`, Peephole `peephole_pass` and its
--     driver. Machine is no code of the program but its yardstick: the control flow of a unit, with
--     what an instruction computes as a parameter.
--   ListRep: crates/rtcl-vm/src/value.rs. Quote is `serialize_list` with `scan_element` and
--     `convert_element`, Backslash `scan_backslash` and `collapse`, Parse `parse_elements` with
--     `find_element` and `junk_error`. The other files there hold proofs.
--   Parser: crates/rtcl-parser. Complete is `is_complete` of completeness.rs. Rd is the parser in
--     rd: Token is token.rs and cursor.rs, Escape escape.rs, Group the functions of word.rs that
--     look for the end of a group (`parse_braced_word`, `parse_cmd_sub`, `skip_braced`,
--     `try_parse_var_index` and the like), Word the rest of word.rs with tokens.rs, Script mod.rs.
--     The other files of Rd hold proofs: Reach says how a cursor moves, the others take the
--     functions one after the other, and Whole is the parse of a text. Agree sets the braced words
--     of the parser beside the scan of completeness.rs.
--   Event: crates/rtcl-vm/src/interp/commands/event.rs. Event is the queue, After the command
--     `after`, Loop `process_events`, `update`, `vwait` and `pump_events`. The rest of the
--     interpreter (the evaluation of a script, the variables) and the clock are the record Host.
--     Steps is what the code may do to the queue, as a relation.
--   Expr: crates/rtcl-vm/src/types. Digits and Value are what the operators use of value.rs
--     (`from_int`, `as_int` and the like) and bignum.rs; Arith, Power and Compare are expr_ops.rs,
--     with `numeric_cmp` and `nan_pair` of expr_funcs.rs; Stack is what `exec_op` of
--     interp/vm_exec.rs does with constants and binary operators. Numbers holds the parameters: the
--     crate num_bigint, with the law that it is exact, and the operations and texts of f64
--     (`format_float` of value.rs among them). The other files hold proofs: Binop is about the four
--     arithmetic operators, Folding about the optimiser's constants and the executor, Carrier about
--     the text that carries a big integer.
--   Util: crates/rtcl-vm/src/interp/util.rs. Glob is `glob_match`.
--
-- Numbers are natural numbers; a cast to u16 or u32 wraps (`% 2 ^ w`). An i64 operand is an
-- integer. A text is the list of its bytes; that it is UTF-8, which every Rust string is, is a
-- hypothesis where it matters. The text of the parser and of Expr is the list of its characters,
-- the parser's offsets are in bytes; the depth of a group, a u32 there, is a natural number, which
-- differs only in a text of 2^32 open groups. A panic is `none`, `out_of_range` where a window is
-- read, `past_end` in a bare element of a list, or `panicked` in Expr. An index into a text is the
-- rest of the text from there (the parser's cursor is what is left from its current token, the
-- offset and the line; the token itself is computed where the code keeps it), and bytes that a scan
-- passes over are counted down in an argument.
--
-- Fuel. `parse_from` takes the number of bytes and one more, since each round of the loop takes a
-- byte at least. `match_helper` takes the length of the pattern and one more, since each round
-- takes a character of it. Each loop of the parser takes the number of characters of the whole text
-- and one more, and so does the recursion of `parse_next_word` on `{*}`. `scan_script` takes the
-- number of bytes and one more, and is `none` without enough. A list element whose scan would not
-- advance ends `out_of_fuel`. The driver of the optimiser has the code's eight rounds. A run of
-- Machine has as much fuel as it wants: `EndsWith` asks for some amount. The loops of Event need
-- not end, so they end `out_of_fuel`; with scripts that leave the queue alone, one round more than
-- there are events is enough. The other loops recurse on what is left of the list.
--
-- Not modelled: the texts of the error messages of a list and the flag that selects them for a
-- dictionary; printing of a unit; reference counts (`Rc`); the compiler, the parser of
-- expressions, the rest of the executor, the commands, the JIT, and all input and output.
pub mod Prelude
pub mod Ir
pub mod ListRep
pub mod Event
pub mod Expr
pub mod Parser
pub mod Util
