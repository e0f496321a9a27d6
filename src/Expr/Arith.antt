-- ===== src/Expr/Arith.antt =====
-- crates/rtcl-vm/src/types/expr_ops.rs: arithmetic, powers, shifts and bitwise operators.
use Prim.Native.Nat.{bit_and as nat_and, bit_or as nat_or, bit_xor as nat_xor}
use rtcl.Prelude.{
  ℕ, suc, ◌-◌, ◌/◌, ◌%◌, ◌^◌, Bool, true, false, not, ◌&&◌, ◌||◌, [], ◌∷◌, Option, none, some, ◌==◌,
  if◌then◌else◌, codes,
}
use rtcl.Prelude.Int.{ℤ, pos, negsuc, neg_nat, ◌+ℤ◌, ◌-ℤ◌, ◌*ℤ◌, eqb, ltbℤ}
use rtcl.Ir.Peephole.Fold.{in_i64, to_word, from_word}
use rtcl.Expr.Numbers.{Text, BigInt, Floats}
use rtcl.Expr.Value.{
  Value, imm, float, IntRep, small, big, in_imm, division_by_zero, unknown_op, domain_error,
  nan_operand, float_operand, text_operand, Result, ok, err, then_do, from_imm, from_int, as_int,
  as_float, int_rep, to_big, is_zero_rep, to_value,
}

abbrev pub min_i64 : ℤ
min_i64 = negsuc (2 ^ 63 - 1)

abbrev pub minus_one : ℤ
minus_one = negsuc 0

abbrev pub is_neg : ℤ → Bool
is_neg z = ltbℤ z (pos 0)

abbrev pub differ : Bool → Bool → Bool
differ true b = not b
differ false b = b

-- `/` and `%` of an i64 round towards zero.
abbrev pub quot : ℤ → ℤ → ℤ
quot (pos a) (pos b) = pos (a / b)
quot (pos a) (negsuc b) = neg_nat (a / suc b)
quot (negsuc a) (pos b) = neg_nat (suc a / b)
quot (negsuc a) (negsuc b) = pos (suc a / suc b)

abbrev pub rem : ℤ → ℤ → ℤ
rem (pos a) (pos b) = pos (a % b)
rem (pos a) (negsuc b) = pos (a % suc b)
rem (negsuc a) (pos b) = neg_nat (suc a % b)
rem (negsuc a) (negsuc b) = neg_nat (suc a % suc b)

-- `floor_div` and `floor_mod` of types/expr.rs.
unfoldable pub floor_div_i64 : ℤ → ℤ → ℤ
floor_div_i64 a b =
    if not (eqb (rem a b) (pos 0)) && differ (is_neg a) (is_neg b)
    then quot a b -ℤ pos 1
    else quot a b

unfoldable pub floor_mod_i64 : ℤ → ℤ → ℤ
floor_mod_i64 a b =
    let r = rem a b in if not (eqb r (pos 0)) && differ (is_neg r) (is_neg b) then r +ℤ b else r

module _ {B F : Type 0} (bigs : BigInt B) (floats : Floats F) where
  abbrev pub Outcome : Type 0
  Outcome = Result (Value F)

  abbrev pub big_value : B → Outcome
  big_value b = ok (to_value bigs floats (big b))

  abbrev pub big_op : ℕ → B → B → Outcome
  big_op op a b =
      if op == b'+'
      then big_value (bigs.plus a b)
      else if op == b'-'
      then big_value (bigs.minus a b)
      else if op == b'*'
      then big_value (bigs.times a b)
      else if op == b'/'
      then big_value (bigs.div_floor a b)
      else err unknown_op

  abbrev pub wide : ℕ → ℤ → ℤ → Outcome
  wide op a b = big_op op (bigs.from_i64 a) (bigs.from_i64 b)

  -- A checked operation, whose result must fit an immediate too.
  abbrev pub imm_or : ℤ → Outcome → Outcome
  imm_or r widened = if in_i64 r && in_imm r then ok (from_imm bigs floats r) else widened

  -- `numeric_binop` of two immediates.
  unfoldable pub imm_binop : ℕ → ℤ → ℤ → Outcome
  unfolding in_i64 in_imm from_imm floor_div_i64
  imm_binop op a b =
      if op == b'+'
      then imm_or (a +ℤ b) (wide op a b)
      else if op == b'-'
      then imm_or (a -ℤ b) (wide op a b)
      else if op == b'*'
      then imm_or (a *ℤ b) (wide op a b)
      else if op == b'/'
      then if eqb b (pos 0)
        then err division_by_zero
        else if eqb a min_i64 && eqb b minus_one
        then wide op a b
        else ok (from_imm bigs floats (floor_div_i64 a b))
      else err unknown_op

  abbrev pub int_or : ℤ → Outcome → Outcome
  int_or r widened = if in_i64 r then ok (from_int bigs floats r) else widened

  -- `numeric_binop` of two i64.
  unfoldable pub int_binop : ℕ → ℤ → ℤ → Outcome
  unfolding in_i64 from_int floor_div_i64
  int_binop op a b =
      if op == b'+'
      then int_or (a +ℤ b) (wide op a b)
      else if op == b'-'
      then int_or (a -ℤ b) (wide op a b)
      else if op == b'*'
      then int_or (a *ℤ b) (wide op a b)
      else if op == b'/'
      then if eqb b (pos 0)
        then err division_by_zero
        else if eqb a min_i64 && eqb b minus_one
        then wide op a b
        else ok (from_int bigs floats (floor_div_i64 a b))
      else err unknown_op

  -- `numeric_binop` where one operand is a big integer.
  unfoldable pub big_binop : ℕ → IntRep B → IntRep B → Outcome
  big_binop op a b =
      if op == b'/' && is_zero_rep bigs floats b
      then err division_by_zero
      else big_op op (to_big bigs floats a) (to_big bigs floats b)

  abbrev pub op_text : ℕ → Text
  op_text op = op ∷ []

  abbrev pub is_nan : Option F → Bool
  is_nan none = false
  is_nan (some f) = floats.is_nan f

  abbrev pub float_value : F → Outcome
  float_value f = ok (float f)

  abbrev pub float_op : ℕ → Option F → Option F → Outcome
  float_op op (some a) (some b) =
      if op == b'+'
      then float_value (floats.plus a b)
      else if op == b'-'
      then float_value (floats.minus a b)
      else if op == b'*'
      then float_value (floats.times a b)
      else if op == b'/'
      then (if floats.is_zero b && floats.is_zero a
          then err domain_error
          else float_value (floats.over a b))
      else err unknown_op
  float_op op a b = err (text_operand (op_text op))

  unfoldable pub float_binop : ℕ → Value F → Value F → Outcome
  unfolding as_float
  float_binop op left right =
      let a = as_float bigs floats left in
      let b = as_float bigs floats right in
      if is_nan a || is_nan b then err (nan_operand (op_text op)) else float_op op a b

  abbrev pub rep_binop : ℕ → Value F → Value F → Option (IntRep B) → Option (IntRep B) → Outcome
  rep_binop op left right (some (small a)) (some (small b)) = int_binop op a b
  rep_binop op left right (some (small a)) (some (big b)) = big_binop op (small a) (big b)
  rep_binop op left right (some (big a)) (some b) = big_binop op (big a) b
  rep_binop op left right none b = float_binop op left right
  rep_binop op left right (some a) none = float_binop op left right

  -- Both operands read as integers.
  abbrev pub with_reps :
      {A : Type 0}
      → Value F
      → Value F
      → (Option (IntRep B) → Option (IntRep B) → Result A)
      → Result A
  with_reps left right f =
      then_do (int_rep bigs floats left) (λ a. then_do (int_rep bigs floats right) (λ b. f a b))

  abbrev pub general_binop : ℕ → Value F → Value F → Outcome
  general_binop op left right = with_reps left right (rep_binop op left right)

  unfoldable pub numeric_binop : ℕ → Value F → Value F → Outcome
  unfolding imm_binop int_binop big_binop float_binop int_rep
  numeric_binop op (imm a) (imm b) = imm_binop op a b
  numeric_binop op (imm a) right = general_binop op (imm a) right
  numeric_binop op left right = general_binop op left right

  -- The error names the operator.
  abbrev pub no_operand : Text → Option F → Result ℤ
  no_operand op none = err (text_operand op)
  no_operand op (some f) = err (float_operand op)

  abbrev pub operand_or : Text → Value F → Option ℤ → Result ℤ
  operand_or op v (some n) = ok n
  operand_or op v none = no_operand op (as_float bigs floats v)

  unfoldable pub int_operand : Text → Value F → Result ℤ
  unfolding as_int as_float
  int_operand op v = operand_or op v (as_int bigs floats v)

  abbrev pub mod_i64 : ℤ → ℤ → Value F
  mod_i64 a b =
      from_int bigs floats (if eqb a min_i64 && eqb b minus_one then pos 0 else floor_mod_i64 a b)

  abbrev pub mod_operands : ℤ → ℤ → Outcome
  mod_operands a b = if eqb b (pos 0) then err division_by_zero else ok (mod_i64 a b)

  abbrev pub rep_mod : Value F → Value F → Option (IntRep B) → Option (IntRep B) → Outcome
  rep_mod left right (some (small a)) (some (small b)) =
      if eqb b (pos 0) then err division_by_zero else ok (mod_i64 a b)
  rep_mod left right (some a) (some b) =
      if is_zero_rep bigs floats b
      then err division_by_zero
      else big_value (bigs.mod_floor (to_big bigs floats a) (to_big bigs floats b))
  rep_mod left right a b =
      then_do (int_operand (codes "%") left)
        (λ x. then_do (int_operand (codes "%") right) (λ y. mod_operands x y))

  unfoldable pub int_mod : Value F → Value F → Outcome
  unfolding int_rep int_operand from_int floor_mod_i64
  int_mod left right = with_reps left right (rep_mod left right)

  abbrev pub bit_word : ℕ → ℕ → ℕ → ℕ
  bit_word op a b =
      if op == b'|' then nat_or a b else if op == b'^' then nat_xor a b else nat_and a b

  -- The bits of two i64.
  abbrev pub bit_i64 : ℕ → ℤ → ℤ → Value F
  bit_i64 op a b = from_int bigs floats (from_word (bit_word op (to_word a) (to_word b)))

  abbrev pub bit_big : ℕ → B → B → B
  bit_big op a b =
      if op == b'|'
      then bigs.bit_or a b
      else if op == b'^'
      then bigs.bit_xor a b
      else bigs.bit_and a b

  abbrev pub rep_bitop : ℕ → Value F → Value F → Option (IntRep B) → Option (IntRep B) → Outcome
  rep_bitop op left right (some (small a)) (some (small b)) = ok (bit_i64 op a b)
  rep_bitop op left right (some a) (some b) =
      big_value (bit_big op (to_big bigs floats a) (to_big bigs floats b))
  rep_bitop op left right a b =
      then_do (int_operand (op_text op) left)
        (λ x. then_do (int_operand (op_text op) right) (λ y. ok (bit_i64 op x y)))

  unfoldable pub int_bitop : ℕ → Value F → Value F → Outcome
  unfolding int_rep int_operand from_int
  int_bitop op left right = with_reps left right (rep_bitop op left right)
