-- ===== src/Expr.antt =====
-- crates/rtcl-vm/src/types: the operators of an expression, expr_ops.rs with what it calls of
-- bignum.rs, expr.rs, expr_funcs.rs and value.rs.
pub mod Numbers
pub mod Digits
pub mod Value
pub mod Arith
pub mod Power
pub mod Compare
pub mod Division
pub mod Stack
pub mod Exact
pub mod Binop
pub mod Order
pub mod Powers
pub mod Same
pub mod Folding
pub mod Decimals
pub mod Carrier
pub mod Tests
