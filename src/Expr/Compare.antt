-- ===== src/Expr/Compare.antt =====
-- crates/rtcl-vm/src/types/expr_ops.rs and expr_funcs.rs: comparisons.
use rtcl.Prelude.{
  ℕ, Bool, true, false, not, ◌&&◌, ◌||◌, [], ◌∷◌, Option, none, some, ◌==◌, ltb, if◌then◌else◌,
  codes,
}
use rtcl.Prelude.Decimal.{eq_text}
use rtcl.Prelude.Int.{ℤ, eqb, ltbℤ}
use rtcl.Expr.Numbers.{Text, BigInt, Floats, Ordering, less, equal, greater}
use rtcl.Expr.Value.{
  Value, imm, bool, IntRep, small, big, Result, ok, then_do, as_str, as_int, as_float, int_rep,
  to_big,
}
use rtcl.Expr.Arith.{Outcome, with_reps, is_nan}

abbrev pub compare_int : ℤ → ℤ → Ordering
compare_int a b = if ltbℤ a b then less else if eqb a b then equal else greater

abbrev pub reverse_order : Ordering → Ordering
reverse_order less = greater
reverse_order equal = equal
reverse_order greater = less

-- The order of the characters, which is that of the bytes.
unfoldable pub compare_text : Text → Text → Ordering
compare_text [] [] = equal
compare_text [] (d ∷ t) = less
compare_text (c ∷ s) [] = greater
compare_text (c ∷ s) (d ∷ t) =
    let rest = compare_text s t in if ltb c d then less else if ltb d c then greater else rest

-- 0 `<`, 1 `>`, 2 `<=`, 3 `>=`, 4 `==`, any other `!=`
abbrev pub holds : ℕ → Ordering → Bool
holds cc less =
    cc == 0 || (cc == 2 || not (cc == 0 || (cc == 1 || (cc == 2 || (cc == 3 || cc == 4)))))
holds cc equal = cc == 2 || (cc == 3 || cc == 4)
holds cc greater =
    cc == 1 || (cc == 3 || not (cc == 0 || (cc == 1 || (cc == 2 || (cc == 3 || cc == 4)))))

module _ {B F : Type 0} (bigs : BigInt B) (floats : Floats F) where
  abbrev pub is_some : {A : Type 0} → Option A → Bool
  is_some none = false
  is_some (some a) = true

  abbrev pub is_numeric : Value F → Bool
  is_numeric v = is_some (as_int bigs floats v) || is_some (as_float bigs floats v)

  unfoldable pub nan_pair : Value F → Value F → Bool
  unfolding as_int as_float
  nan_pair a b =
      (is_numeric a && is_numeric b)
      && (is_nan bigs floats (as_float bigs floats a)
          || is_nan bigs floats (as_float bigs floats b))

  unfoldable pub big_from_f64 : F → Option B
  big_from_f64 t =
      if floats.is_nan t || floats.is_infinite t
      then none
      else bigs.parse_bytes (floats.format_whole t) 10

  -- An equal integral part leaves the fraction.
  abbrev pub behind_point : F → Ordering → Ordering
  behind_point f less = less
  behind_point f equal = if floats.is_below (floats.trunc f) f then less else equal
  behind_point f greater = greater

  abbrev pub compare_whole : IntRep B → F → Option B → Option Ordering
  compare_whole a f none = none
  compare_whole a f (some b) = some (behind_point f (bigs.compare (to_big bigs floats a) b))

  unfoldable pub cmp_rep_float : IntRep B → F → Option Ordering
  unfolding big_from_f64
  cmp_rep_float a f =
      if floats.is_nan f
      then none
      else if floats.is_infinite f
      then some (if floats.is_below floats.zero f then less else greater)
      else compare_whole a f (big_from_f64 (floats.trunc f))

  abbrev pub rep_float : IntRep B → Option F → Option Ordering
  rep_float a none = none
  rep_float a (some f) = cmp_rep_float a f

  abbrev pub reversed : Option Ordering → Option Ordering
  reversed none = none
  reversed (some o) = some (reverse_order o)

  abbrev pub compare_floats : Option F → Option F → Option Ordering
  compare_floats (some x) (some y) = floats.compare x y
  compare_floats (some x) none = none
  compare_floats none y = none

  abbrev pub compare_reps :
      Value F → Value F → Option (IntRep B) → Option (IntRep B) → Option Ordering
  compare_reps a b (some (small x)) (some (small y)) = some (compare_int x y)
  compare_reps a b (some (small x)) (some (big y)) = some (bigs.compare (bigs.from_i64 x) y)
  compare_reps a b (some (big x)) (some y) = some (bigs.compare x (to_big bigs floats y))
  compare_reps a b (some x) none = rep_float x (as_float bigs floats b)
  compare_reps a b none (some y) = reversed (rep_float y (as_float bigs floats a))
  compare_reps a b none none = compare_floats (as_float bigs floats a) (as_float bigs floats b)

  unfoldable pub numeric_cmp : Value F → Value F → Result (Option Ordering)
  unfolding int_rep as_float cmp_rep_float
  numeric_cmp a b = with_reps bigs floats a b (λ x y. ok (compare_reps a b x y))

  -- What is no number is compared as a text.
  abbrev pub or_text : Value F → Value F → Option Ordering → Ordering
  or_text a b (some o) = o
  or_text a b none = compare_text (as_str bigs floats a) (as_str bigs floats b)

  abbrev pub compare_values : ℕ → Value F → Value F → Result Bool
  compare_values cc a b =
      if nan_pair a b
      then ok (not (cc == 0 || (cc == 1 || (cc == 2 || (cc == 3 || cc == 4)))))
      else then_do (numeric_cmp a b) (λ o. ok (holds cc (or_text a b o)))

  unfoldable pub cmp_bool : ℕ → Value F → Value F → Result Bool
  unfolding nan_pair numeric_cmp as_str compare_text
  cmp_bool cc (imm a) (imm b) = ok (holds cc (compare_int a b))
  cmp_bool cc (imm a) right = compare_values cc (imm a) right
  cmp_bool cc left right = compare_values cc left right

  abbrev pub truth : Result Bool → Outcome bigs floats
  truth r = then_do r (λ b. ok (bool b))

  unfoldable pub op_eq : Value F → Value F → Outcome bigs floats
  unfolding cmp_bool
  op_eq left right = truth (cmp_bool 4 left right)

  unfoldable pub op_ne : Value F → Value F → Outcome bigs floats
  unfolding cmp_bool
  op_ne left right = truth (cmp_bool 5 left right)

  abbrev pub cc_of : Text → ℕ
  cc_of op =
      if eq_text op (codes "<")
      then 0
      else if eq_text op (codes ">")
      then 1
      else if eq_text op (codes "<=")
      then 2
      else if eq_text op (codes ">=")
      then 3
      else 0

  unfoldable pub op_rel : Value F → Value F → Text → Outcome bigs floats
  unfolding cmp_bool
  op_rel left right op = truth (cmp_bool (cc_of op) left right)

  unfoldable pub op_str_eq : Value F → Value F → Value F
  unfolding as_str
  op_str_eq left right = bool (eq_text (as_str bigs floats left) (as_str bigs floats right))

  unfoldable pub op_str_ne : Value F → Value F → Value F
  unfolding as_str
  op_str_ne left right = bool (not (eq_text (as_str bigs floats left) (as_str bigs floats right)))
