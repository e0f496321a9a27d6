-- ===== src/Expr/Power.antt =====
-- crates/rtcl-vm/src/types/expr_ops.rs: shifts, powers and the unary operators.
use rtcl.Prelude.{
  ℕ, suc, ◌-◌, ◌%◌, ◌^◌, Bool, ◌&&◌, Option, none, some, ◌==◌, ltb, leb, if◌then◌else◌, codes,
}
use rtcl.Prelude.Int.{ℤ, pos, negsuc, neg, ◌*ℤ◌, eqb}
use rtcl.Ir.Peephole.Fold.{in_i64, wrap_i64, power}
use rtcl.Ir.Peephole.Exact.{shift_right}
use rtcl.Expr.Numbers.{Text, BigInt, Floats}
use rtcl.Expr.Value.{
  Value, IntRep, small, big, negative_shift, too_large, zero_to_negative, exponent_too_large,
  not_a_number, not_an_integer, text_operand, Result, ok, err, then_do, from_int, as_int, as_float,
  int_rep, to_big,
}
use rtcl.Expr.Arith.{Outcome, big_value, float_value, min_i64, minus_one, is_neg, int_operand}

-- The parity of an exponent.
abbrev pub is_even : ℤ → Bool
is_even (pos n) = n % 2 == 0
is_even (negsuc n) = suc n % 2 == 0

-- `!` of an i64.
abbrev pub not_i64 : ℤ → ℤ
not_i64 (pos n) = negsuc n
not_i64 (negsuc n) = pos n

module _ {B F : Type 0} (bigs : BigInt B) (floats : Floats F) where
  abbrev pub shift_name : Bool → Text
  shift_name shl = if shl then codes "<<" else codes ">>"

  abbrev pub rep_count : Text → Value F → Option (IntRep B) → Result ℤ
  rep_count op right (some (small c)) = ok c
  rep_count op right (some (big b)) =
      if bigs.is_negative b then err negative_shift else ok (pos (2 ^ 63 - 1))
  rep_count op right none = int_operand bigs floats op right

  -- `a << n` keeps the low bits of the count.
  abbrev pub wide_shl : ℤ → ℕ → ℤ
  wide_shl a n = wrap_i64 (a *ℤ pos (2 ^ (n % 64)))

  abbrev pub shl_i64 : ℤ → ℕ → Outcome bigs floats
  shl_i64 a n =
      if ltb n 64 && eqb (shift_right (wide_shl a n) n) a
      then ok (from_int bigs floats (wide_shl a n))
      else big_value bigs floats (bigs.shift_left (bigs.from_i64 a) n)

  abbrev pub shr_i64 : ℤ → ℕ → Outcome bigs floats
  shr_i64 a n =
      if leb 64 n
      then ok (from_int bigs floats (if is_neg a then minus_one else pos 0))
      else ok (from_int bigs floats (shift_right a n))

  abbrev pub shift_big : Bool → B → ℕ → Outcome bigs floats
  shift_big shl b n =
      if shl
      then big_value bigs floats (bigs.shift_left b n)
      else if leb (bigs.bits b) n
      then big_value bigs floats (bigs.from_i64 (if bigs.is_negative b then minus_one else pos 0))
      else big_value bigs floats (bigs.shift_right b n)

  abbrev pub shift_by : Bool → Option (IntRep B) → ℕ → Outcome bigs floats
  shift_by shl (some (small a)) n = if shl then shl_i64 a n else shr_i64 a n
  shift_by shl (some (big b)) n = shift_big shl b n
  shift_by shl none n = err (text_operand (shift_name shl))

  abbrev pub shift_count : Bool → Option (IntRep B) → ℤ → Outcome bigs floats
  shift_count shl left (negsuc n) = err negative_shift
  shift_count shl left (pos n) =
      if shl && ltb (2 ^ 27) n then err too_large else shift_by shl left n

  abbrev pub unless_int : Bool → Value F → Option (IntRep B) → Result ℤ
  unless_int shl left none = int_operand bigs floats (shift_name shl) left
  unless_int shl left (some a) = ok (pos 0)

  unfoldable pub int_shift : Bool → Value F → Value F → Outcome bigs floats
  unfolding int_rep int_operand from_int wrap_i64
  int_shift shl left right = then_do (int_rep bigs floats left) λ a.
      then_do (unless_int shl left a) λ _.
        then_do (int_rep bigs floats right)
          λ b. then_do (rep_count (shift_name shl) right b) (shift_count shl a)

  abbrev pub checked_pow : ℤ → ℕ → Outcome bigs floats
  checked_pow a n =
      if in_i64 (power a n)
      then ok (from_int bigs floats (power a n))
      else big_value bigs floats (bigs.pow (bigs.from_i64 a) n)

  abbrev pub pow_any : ℤ → ℤ → Outcome bigs floats
  pow_any a (negsuc n) = ok (from_int bigs floats (pos 0))
  pow_any a (pos n) = if leb (2 ^ 28) n then err exponent_too_large else checked_pow a n

  -- The powers of two integers.
  unfoldable pub pow_ints : ℤ → ℤ → Outcome bigs floats
  unfolding in_i64 power from_int
  pow_ints a b =
      if eqb a (pos 0) && is_neg b
      then err zero_to_negative
      else if eqb a (pos 0) && eqb b (pos 0)
      then ok (from_int bigs floats (pos 1))
      else if eqb a (pos 0)
      then ok (from_int bigs floats (pos 0))
      else if eqb a (pos 1)
      then ok (from_int bigs floats (pos 1))
      else if eqb a minus_one
      then ok (from_int bigs floats (if is_even b then pos 1 else minus_one))
      else pow_any a b

  abbrev pub pow_floats : Option F → Option F → Outcome bigs floats
  pow_floats (some a) (some b) =
      if floats.is_zero a && floats.is_below b floats.zero
      then err zero_to_negative
      else float_value bigs floats (floats.powf a b)
  pow_floats (some a) none = err not_a_number
  pow_floats none b = err not_a_number

  abbrev pub pow_of : Value F → Value F → Option ℤ → Option ℤ → Outcome bigs floats
  pow_of base exp (some a) (some b) = pow_ints a b
  pow_of base exp (some a) none = pow_floats (as_float bigs floats base) (as_float bigs floats exp)
  pow_of base exp none b = pow_floats (as_float bigs floats base) (as_float bigs floats exp)

  unfoldable pub op_pow : Value F → Value F → Outcome bigs floats
  unfolding as_int as_float pow_ints
  op_pow base exp = pow_of base exp (as_int bigs floats base) (as_int bigs floats exp)

  abbrev pub truncated : Option F → Result ℤ
  truncated none = err not_an_integer
  truncated (some f) = ok (floats.to_i64 f)

  abbrev pub int_or_float : Option ℤ → Option F → Result ℤ
  int_or_float (some n) f = ok n
  int_or_float none f = truncated f

  unfoldable pub as_int_val : Value F → Result ℤ
  unfolding as_int as_float
  as_int_val v = int_or_float (as_int bigs floats v) (as_float bigs floats v)

  abbrev pub rep_bitnot : Value F → Option (IntRep B) → Outcome bigs floats
  rep_bitnot v (some r) =
      big_value bigs floats
        (bigs.minus (bigs.negate (to_big bigs floats r)) (bigs.from_i64 (pos 1)))
  rep_bitnot v none = then_do (as_int_val v) (λ n. ok (from_int bigs floats (not_i64 n)))

  unfoldable pub op_bitnot : Value F → Outcome bigs floats
  unfolding int_rep as_int_val from_int
  op_bitnot v = then_do (int_rep bigs floats v) (rep_bitnot v)

  abbrev pub float_neg : Option F → Outcome bigs floats
  float_neg none = err not_a_number
  float_neg (some f) = float_value bigs floats (floats.negate f)

  abbrev pub rep_neg : Value F → Option (IntRep B) → Outcome bigs floats
  rep_neg v (some (small n)) =
      if eqb n min_i64
      then big_value bigs floats (bigs.pow (bigs.from_i64 (pos 2)) 63)
      else ok (from_int bigs floats (neg n))
  rep_neg v (some (big b)) = big_value bigs floats (bigs.negate b)
  rep_neg v none = float_neg (as_float bigs floats v)

  unfoldable pub op_neg : Value F → Outcome bigs floats
  unfolding int_rep as_float from_int
  op_neg v = then_do (int_rep bigs floats v) (rep_neg v)
