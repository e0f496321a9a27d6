-- ===== src/Expr/Numbers.antt =====
-- What crates/rtcl-vm/src/types uses of the crate num_bigint and of the hardware's floating point:
-- the operations, and what the code relies on.
use rtcl.Prelude.{
  ◌↔◌, ℕ, zero, suc, ◌+◌, ◌/◌, ◌%◌, ◌^◌, ◌≡◌, Bool, true, false, List, [], ◌∷◌, ◌++◌, Option, some,
  ltb,
}
use rtcl.Prelude.Int.{ℤ, pos, negsuc, ◌+ℤ◌, ◌-ℤ◌, ◌*ℤ◌}
use rtcl.Ir.Peephole.Exact.{floor_div}
use rtcl.Ir.Peephole.Fold.{power}

-- A text is the list of its characters.
abbrev pub Text : Type 0
Text = List ℕ

pub data Ordering : Type 0 where
  less equal greater : Ordering

-- The crate num_bigint.
pub record BigInt (B : Type 0) : Type 0 where
  pub from_i64 : ℤ → B
  pub plus : B → B → B
  pub minus : B → B → B
  pub times : B → B → B
  pub div_floor : B → B → B
  pub mod_floor : B → B → B
  pub negate : B → B
  pub pow : B → ℕ → B
  pub shift_left : B → ℕ → B
  pub shift_right : B → ℕ → B
  pub bit_and : B → B → B
  pub bit_or : B → B → B
  pub bit_xor : B → B → B
  pub bits : B → ℕ
  pub is_negative : B → Bool
  pub is_zero : B → Bool
  pub compare : B → B → Ordering
  pub parse_bytes : Text → ℕ → Option B
  pub to_string : B → Text

-- f64: the operations of the hardware, and its texts.
pub record Floats (F : Type 0) : Type 0 where
  pub of_i64 : ℤ → F
  pub to_i64 : F → ℤ
  pub plus : F → F → F
  pub minus : F → F → F
  pub times : F → F → F
  pub over : F → F → F
  pub powf : F → F → F
  pub negate : F → F
  pub trunc : F → F
  pub is_nan : F → Bool
  pub is_infinite : F → Bool
  pub is_zero : F → Bool
  pub is_below : F → F → Bool
  pub compare : F → F → Option Ordering
  pub zero : F
  pub infinity : F
  pub neg_infinity : F
  pub nan : F
  pub from_str : Text → Option F
  pub format : F → Text
  pub format_whole : F → Text

-- The decimal digits of a number of at most `fuel` digits.
unfoldable pub decimal : ℕ → ℕ → Text
decimal zero n = []
decimal (suc fuel) n = elim (ltb n 10) [
  | true ↦ (n + b'0') ∷ []
  | false ↦ decimal fuel (n / 10) ++ ((n % 10 + b'0') ∷ [])
]

-- An integer in decimal.
unfoldable pub show : ℤ → Text
unfolding decimal
show (pos n) = decimal (suc n) n
show (negsuc n) = b'-' ∷ decimal (suc (suc n)) (suc n)

-- The documented arithmetic of num_bigint: it is exact, `/` and `%` round down, and the text is the
-- decimal one.
pub record IsExact {B : Type 0} (big : BigInt B) : Type 0 where
  pub value : B → ℤ
  pub value_from : (z : ℤ) → value (big.from_i64 z) ≡ z
  pub value_plus : (a b : B) → value (big.plus a b) ≡ value a +ℤ value b
  pub value_minus : (a b : B) → value (big.minus a b) ≡ value a -ℤ value b
  pub value_times : (a b : B) → value (big.times a b) ≡ value a *ℤ value b
  pub value_div :
      (a b : B) (q : ℤ) → floor_div (value a) (value b) ≡ some q → value (big.div_floor a b) ≡ q
  pub value_pow : (a : B) (n : ℕ) → value (big.pow a n) ≡ power (value a) n
  pub value_shift_left : (a : B) (n : ℕ) → value (big.shift_left a n) ≡ value a *ℤ pos (2 ^ n)
  pub zero_iff : (a : B) → (big.is_zero a ≡ true) ↔ (value a ≡ pos 0)
  pub text : (a : B) → big.to_string a ≡ show (value a)
