-- ===== src/Ir/Peephole/Fold.antt =====
-- crates/rtcl-ir/src/bytecode.rs, `peephole_pass`: the folding of an operation on two i64 constants.
use Prim.Native.Nat.{bit_and as nat_and, bit_or as nat_or, bit_xor as nat_xor}
use rtcl.Prelude.{
  ℕ, zero, suc, ◌-◌, ◌/◌, ◌%◌, ◌^◌, Bool, ◌||◌, not, Option, none, some, ◌==◌, leb, ltb,
  if◌then◌else◌,
}
use rtcl.Prelude.Int.{ℤ, pos, negsuc, ◌+ℤ◌, ◌-ℤ◌, ◌*ℤ◌, eqb, ltbℤ}
use rtcl.Ir.OpCode.{
  OpCode, add, sub, mul, div, mod_op, pow, eq, ne, lt, gt, le, ge, bit_and, bit_or, bit_xor, shl,
  shr,
}

pub data FoldResult : Type 0 where
  int : ℤ → FoldResult
  bool : Bool → FoldResult

unfoldable pub in_i64 : ℤ → Bool
in_i64 (pos n) = ltb n (2 ^ 63)
in_i64 (negsuc n) = ltb n (2 ^ 63)

-- `checked_add` and the like: none on overflow.
unfoldable pub checked : ℤ → Option FoldResult
unfolding in_i64
checked z = if in_i64 z then some (int z) else none

-- The 64 bits of a value, and the value of 64 bits.
abbrev pub to_word : ℤ → ℕ
to_word (pos n) = n % 2 ^ 64
to_word (negsuc n) = 2 ^ 64 - 1 - n % 2 ^ 64

abbrev pub from_word : ℕ → ℤ
from_word w = if ltb w (2 ^ 63) then pos w else negsuc (2 ^ 64 - 1 - w)

unfoldable pub wrap_i64 : ℤ → ℤ
wrap_i64 z = from_word (to_word z)

unfoldable pub power : ℤ → ℕ → ℤ
power a zero = pos 1
power a (suc n) = a *ℤ power a n

-- `a <= i64::MAX >> b` and `a >= i64::MIN >> b`
abbrev pub shift_fits : ℤ → ℕ → Bool
shift_fits (pos a) n = n == 0 || leb a ((2 ^ 63 - 1) / 2 ^ n)
shift_fits (negsuc a) n = n == 0 || leb a ((2 ^ 63 - 1) / 2 ^ n)

-- `a << b`, for `b` below 64.
unfoldable pub fold_shl : ℤ → ℤ → Option FoldResult
unfolding wrap_i64
fold_shl a (pos n) =
    if ltb n 64
    then (if shift_fits a n then some (int (wrap_i64 (a *ℤ pos (2 ^ n)))) else none)
    else none
fold_shl a (negsuc n) = none

-- `a >> b` rounds down; past the width only the sign is left.
unfoldable pub fold_shr : ℤ → ℤ → Option FoldResult
fold_shr (pos a) (pos n) = if leb 64 n then some (int (pos 0)) else some (int (pos (a / 2 ^ n)))
fold_shr (negsuc a) (pos n) =
    if leb 64 n then some (int (negsuc 0)) else some (int (negsuc (a / 2 ^ n)))
fold_shr a (negsuc n) = none

unfoldable pub fold_div : ℤ → ℤ → Option FoldResult
fold_div (pos a) (pos (suc b)) = some (int (pos (a / suc b)))
fold_div a b = none

unfoldable pub fold_mod : ℤ → ℤ → Option FoldResult
fold_mod (pos a) (pos (suc b)) = some (int (pos (a % suc b)))
fold_mod a b = none

unfoldable pub fold_pow : ℤ → ℤ → Option FoldResult
unfolding checked power
fold_pow a (pos n) = if ltb n (2 ^ 28) then checked (power a n) else none
fold_pow a (negsuc n) = none

unfoldable pub fold_ints : ℤ → ℤ → OpCode → Option FoldResult
unfolding checked fold_div fold_mod fold_pow fold_shl fold_shr
fold_ints a b add = checked (a +ℤ b)
fold_ints a b sub = checked (a -ℤ b)
fold_ints a b mul = checked (a *ℤ b)
fold_ints a b div = fold_div a b
fold_ints a b mod_op = fold_mod a b
fold_ints a b pow = fold_pow a b
fold_ints a b eq = some (bool (eqb a b))
fold_ints a b ne = some (bool (not (eqb a b)))
fold_ints a b lt = some (bool (ltbℤ a b))
fold_ints a b gt = some (bool (ltbℤ b a))
fold_ints a b le = some (bool (not (ltbℤ b a)))
fold_ints a b ge = some (bool (not (ltbℤ a b)))
fold_ints a b bit_and = some (int (from_word (nat_and (to_word a) (to_word b))))
fold_ints a b bit_or = some (int (from_word (nat_or (to_word a) (to_word b))))
fold_ints a b bit_xor = some (int (from_word (nat_xor (to_word a) (to_word b))))
fold_ints a b shl = fold_shl a b
fold_ints a b shr = fold_shr a b
fold_ints a b op = none
