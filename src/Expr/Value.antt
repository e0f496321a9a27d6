-- ===== src/Expr/Value.antt =====
-- crates/rtcl-vm/src/value.rs, the numbers: the immediate and boxed forms of an integer, and a text
-- read as a number. types/bignum.rs: integers of any size.
use rtcl.Prelude.{
  ℕ, ◌+◌, ◌*◌, ◌/◌, ◌%◌, ◌^◌, Bool, ◌&&◌, ◌||◌, [], ◌∷◌, Option, none, some, ltb, leb,
  if◌then◌else◌, codes,
}
use rtcl.Prelude.Decimal.{eq_text}
use rtcl.Prelude.Int.{ℤ, pos, negsuc, eqb}
use rtcl.Ir.Peephole.Fold.{to_word, from_word}
use rtcl.Parser.Rd.Token.{len_utf8}
use rtcl.Expr.Digits.{
  trim, sign_body, prefix_radix, as_int_from_string, text_size, splits_at_two, all_digits,
}
use rtcl.Expr.Numbers.{Text, BigInt, Floats, show}

-- A value with another representation is its text.
pub data Value (F : Type 0) : Type 0 where
  imm : ℤ → Value F
  int : ℤ → Value F
  bool : Bool → Value F
  float : F → Value F
  text : Text → Value F

pub data IntRep (B : Type 0) : Type 0 where
  small : ℤ → IntRep B
  big : B → IntRep B

-- `i64::MIN >> 1 ..= i64::MAX >> 1`
unfoldable pub in_imm : ℤ → Bool
in_imm (pos n) = ltb n (2 ^ 62)
in_imm (negsuc n) = ltb n (2 ^ 62)

-- An arithmetic shift by one.
abbrev pub half : ℤ → ℤ
half (pos n) = pos (n / 2)
half (negsuc n) = negsuc (n / 2)

-- What `imm` reads from the bits that `from_imm` writes.
unfoldable pub retag : ℤ → ℤ
retag n = half (from_word ((to_word n * 2 + 1) % 2 ^ 64))

pub data Error : Type 0 where
  division_by_zero unknown_op domain_error negative_shift too_large : Error
  zero_to_negative exponent_too_large not_a_number not_an_integer : Error
  nan_operand float_operand text_operand : Text → Error

pub data Result (A : Type 0) : Type 0 where
  ok : A → Result A
  err : Error → Result A
  panicked : Result A

abbrev pub then_do : {A C : Type 0} → Result A → (A → Result C) → Result C
then_do (ok a) f = f a
then_do (err e) f = err e
then_do panicked f = panicked

module _ {B F : Type 0} (bigs : BigInt B) (floats : Floats F) where
  unfoldable pub from_imm : ℤ → Value F
  unfolding retag
  from_imm n = imm (retag n)

  unfoldable pub from_int : ℤ → Value F
  unfolding from_imm in_imm
  from_int n = if in_imm n then from_imm n else int n

  unfoldable pub as_str : Value F → Text
  unfolding show
  as_str (imm n) = show n
  as_str (int n) = show n
  as_str (bool b) = if b then codes "1" else codes "0"
  as_str (float f) = floats.format f
  as_str (text s) = s

  unfoldable pub as_int : Value F → Option ℤ
  unfolding as_int_from_string
  as_int (imm n) = some n
  as_int (int n) = some n
  as_int (bool b) = some (if b then pos 1 else pos 0)
  as_int (float f) = as_int_from_string (floats.format f)
  as_int (text s) = as_int_from_string s

  abbrev pub ascii_lower : Text → Text
  ascii_lower [] = []
  ascii_lower (c ∷ s) = (if leb b'A' c && leb c b'Z' then c + 32 else c) ∷ ascii_lower s

  unfoldable pub as_float_from_string : Text → Option F
  unfolding trim
  as_float_from_string t =
      let s = trim t in
      let l = ascii_lower s in
      if eq_text l (codes "inf") || eq_text l (codes "infinity")
      then some floats.infinity
      else if eq_text l (codes "-inf") || eq_text l (codes "-infinity")
      then some floats.neg_infinity
      else if eq_text l (codes "nan")
      then some floats.nan
      else floats.from_str s

  unfoldable pub as_float : Value F → Option F
  unfolding as_float_from_string
  as_float (imm n) = some (floats.of_i64 n)
  as_float (int n) = some (floats.of_i64 n)
  as_float (bool b) = some (floats.of_i64 (if b then pos 1 else pos 0))
  as_float (float f) = some f
  as_float (text s) = as_float_from_string s

  abbrev pub signed : Bool → Option B → Option B
  signed is_neg none = none
  signed is_neg (some b) = some (if is_neg then bigs.negate b else b)

  abbrev pub literal_digits : Option (ℕ × Text) → Text → Option B
  literal_digits none body = if all_digits 10 body then bigs.parse_bytes body 10 else none
  literal_digits (some (radix, [])) body = none
  literal_digits (some (radix, (c ∷ s))) body =
      if all_digits radix (c ∷ s) then bigs.parse_bytes (c ∷ s) radix else none

  -- A slice of the first two bytes panics inside a character.
  abbrev pub literal_body : Bool → Text → Result (Option B)
  literal_body is_neg [] = ok none
  literal_body is_neg (c ∷ s) =
      let body = c ∷ s in
      if ltb 2 (text_size body)
      then (if splits_at_two body
          then ok (signed is_neg (literal_digits (prefix_radix body) body))
          else panicked)
      else ok (signed is_neg (literal_digits none body))

  unfoldable pub parse_literal : Text → Result (Option B)
  unfolding all_digits len_utf8
  parse_literal s = let (is_neg, body) = sign_body s in literal_body is_neg body

  abbrev pub map_big : Option B → Option (IntRep B)
  map_big none = none
  map_big (some b) = some (big b)

  abbrev pub rep_or : Option ℤ → Text → Result (Option (IntRep B))
  rep_or (some n) s = ok (some (small n))
  rep_or none s = then_do (parse_literal (trim s)) (λ b. ok (map_big b))

  unfoldable pub int_rep : Value F → Result (Option (IntRep B))
  unfolding as_int parse_literal trim as_str
  int_rep v = rep_or (as_int v) (as_str v)

  abbrev pub to_big : IntRep B → B
  to_big (small n) = bigs.from_i64 n
  to_big (big b) = b

  abbrev pub is_zero_rep : IntRep B → Bool
  is_zero_rep (small n) = eqb n (pos 0)
  is_zero_rep (big b) = bigs.is_zero b

  abbrev pub to_value : IntRep B → Value F
  to_value (small n) = from_int n
  to_value (big b) = text (bigs.to_string b)
