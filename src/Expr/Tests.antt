-- ===== src/Expr/Tests.antt =====
-- Runs of the operators of crates/rtcl-vm/src/types/expr_ops.rs, with unbounded integers for the big
-- ones and halves for floating point, and the theorems at such runs.
use rtcl.Prelude.{
  arith, ℕ, ◌-◌, ◌^◌, ◌≡◌, refl, ap, true, false, [], ◌∷◌, ◌++◌, Option, none, some, codes,
  if◌then◌else◌, ◌==◌,
}
use rtcl.Prelude.Decimal.{eq_text}
use rtcl.Prelude.Int.{ℤ, pos, negsuc, neg, neg_nat, ◌+ℤ◌, ◌-ℤ◌, ◌*ℤ◌, eqb, ltbℤ}
use rtcl.Ir.OpCode.{push_int, mod_op, nop}
use rtcl.Ir.Peephole.{push_result, fold_window}
use rtcl.Ir.Peephole.Exact.{floor_div, shift_right}
use rtcl.Ir.Peephole.Fold.{int as int_result, power, in_i64}
use rtcl.Expr.Arith.{numeric_binop, quot, rem, floor_mod_i64}
use rtcl.Expr.Binop.{eqb_zero, numeric_binop-exact}
use rtcl.Expr.Carrier.{ReadsDecimal, int_rep-to_value}
use rtcl.Expr.Decimals.{AreDigits}
use rtcl.Expr.Compare.{compare_int, cmp_bool}
use rtcl.Expr.Exact.{Reads, rep_int, Prints, plus, sign_char, exact_sign}
use rtcl.Expr.Folding.{SameStacks, fold_window-exec_ops}
use rtcl.Expr.Numbers.{Text, BigInt, Floats, IsExact, show}
use rtcl.Expr.Stack.{exec_ops}
use rtcl.Expr.Digits.{unsigned, read_digits, map_int, as_int_from_string}
use rtcl.Expr.Value.{big, to_value, imm, bool, float, text, ok, panicked, int_rep, parse_literal}

abbrev or_zero : Option ℤ → ℤ
or_zero none = pos 0
or_zero (some z) = z

abbrev read_integer : Text → ℕ → Option ℤ
read_integer [] radix = none
read_integer (c ∷ s) radix =
    if c == b'-'
    then map_int neg_nat (read_digits radix (some 0) s)
    else map_int pos (read_digits radix (some 0) (c ∷ s))

abbrev integers : BigInt ℤ
integers = record {
  from_i64 = λ z. z;
  plus = λ a b. a +ℤ b;
  minus = λ a b. a -ℤ b;
  times = λ a b. a *ℤ b;
  div_floor = λ a b. or_zero (floor_div a b);
  mod_floor = λ a b. floor_mod_i64 a b;
  negate = λ a. neg a;
  pow = λ a n. power a n;
  shift_left = λ a n. a *ℤ pos (2 ^ n);
  shift_right = λ a n. shift_right a n;
  bit_and = λ a b. a;
  bit_or = λ a b. a;
  bit_xor = λ a b. a;
  bits = λ a. 64;
  is_negative = λ a. ltbℤ a (pos 0);
  is_zero = λ a. eqb a (pos 0);
  compare = compare_int;
  parse_bytes = read_integer;
  to_string = show;
}

integers-IsExact : IsExact integers
integers-IsExact = record {
  value = λ z. z;
  value_from = λ z. refl;
  value_plus = λ a b. refl;
  value_minus = λ a b. refl;
  value_times = λ a b. refl;
  value_div = λ a b q h. ap or_zero h;
  value_pow = λ a n. refl;
  value_shift_left = λ a n. refl;
  zero_iff = eqb_zero;
  text = λ a. refl;
}

abbrev half_text : Text → Option ℤ
half_text t = if eq_text t (codes "-1.5") then some (negsuc 2) else none

-- Halves.
abbrev halves : Floats ℤ
halves = record {
  of_i64 = λ n. n *ℤ pos 2;
  to_i64 = λ f. quot f (pos 2);
  plus = λ a b. a +ℤ b;
  minus = λ a b. a -ℤ b;
  times = λ a b. a;
  over = λ a b. a;
  powf = λ a b. a;
  negate = λ a. neg a;
  trunc = λ a. quot a (pos 2) *ℤ pos 2;
  is_nan = λ a. false;
  is_infinite = λ a. false;
  is_zero = λ a. eqb a (pos 0);
  is_below = ltbℤ;
  compare = λ a b. some (compare_int a b);
  zero = pos 0;
  infinity = pos 0;
  neg_infinity = pos 0;
  nan = pos 0;
  from_str = half_text;
  format = λ a.
      show (quot a (pos 2)) ++ (if eqb (rem a (pos 2)) (pos 0) then codes ".0" else codes ".5");
  format_whole = λ a. show (quot a (pos 2));
}

abbrev least : ℤ
least = negsuc (2 ^ 62 - 1)

-- The smallest immediate by minus one wraps around.
quotient_wraps : numeric_binop integers halves b'/' (imm least) (imm (negsuc 0)) ≡ ok (imm least)
unfolding numeric_binop
quotient_wraps = refl

-- Minus one is equal to minus one and a half.
fraction_is_lost : cmp_bool integers halves 4 (imm (negsuc 0)) (float (negsuc 2)) ≡ ok true
unfolding cmp_bool
fraction_is_lost = refl

-- A comparison with a character of three bytes.
literal_panics : cmp_bool integers halves 4 (text (0x20AC ∷ [])) (imm (pos 1)) ≡ panicked
unfolding cmp_bool eq_text
literal_panics = refl

-- A big hexadecimal literal with a letter is no integer.
letters_refused : parse_literal integers halves (codes "0xfffffffffffffffff") ≡ ok none
unfolding parse_literal
letters_refused = refl

-- A legacy octal literal of 64 bits is negative.
octal_wraps : as_int_from_string (codes "01777777777777777777777") ≡ some (negsuc 0)
unfolding as_int_from_string
octal_wraps = refl

numeric_binop-exact_example :
    Prints integers halves integers-IsExact
      (numeric_binop integers halves
        (sign_char plus)
        (text (codes "9223372036854775808"))
        (imm (pos 5)))
      (exact_sign plus (pos (2 ^ 63)) (pos 5))
unfolding int_rep integers-IsExact
numeric_binop-exact_example =
    numeric_binop-exact integers halves integers-IsExact plus (text (codes "9223372036854775808"))
      (imm (pos 5)) (pos (2 ^ 63)) (pos 5) tt tt refl refl

fold_window-exec_ops_example :
    SameStacks integers halves integers-IsExact
      (λ n. refl)
      (exec_ops integers halves
        (push_int (pos 17) ∷ push_int (pos 5) ∷ mod_op ∷ [])
        (bool true ∷ []))
      (exec_ops integers halves
        (push_result (int_result (pos 2)) ∷ nop ∷ nop ∷ [])
        (bool true ∷ []))
unfolding in_i64 fold_window
fold_window-exec_ops_example =
    fold_window-exec_ops integers halves integers-IsExact (λ n. refl) (pos 17) (pos 5) mod_op
      (int_result (pos 2)) (bool true ∷ []) refl refl

-- A digit is no sign.
read_integer-digits :
    (c : ℕ) (s : Text) (n : ℕ)
    → AreDigits (c ∷ s)
    → unsigned 10 (c ∷ s) ≡ some n
    → read_integer (c ∷ s) 10 ≡ some (pos n)
unfolding unsigned
read_integer-digits c s n p r = let m : (c == b'-') ≡ false = ground arith in rw (m, r) refl

integers-ReadsDecimal : ReadsDecimal integers integers-IsExact
unfolding integers-IsExact
integers-ReadsDecimal = record {
  parsed = λ c s n p r. (pos n, (read_integer-digits c s n p r, refl));
  value_negate = λ b. refl;
}

-- The smallest integer below the i64.
int_rep-to_value_example :
    Reads integers halves integers-IsExact
      (int_rep integers halves (to_value integers halves (big (negsuc (2 ^ 63)))))
      (rep_int integers halves integers-IsExact (big (negsuc (2 ^ 63))))
int_rep-to_value_example =
    int_rep-to_value integers halves integers-IsExact integers-ReadsDecimal (big (negsuc (2 ^ 63)))
