-- ===== src/Expr/Exact.antt =====
-- The integer arithmetic of crates/rtcl-vm/src/types/expr_ops.rs is that of unbounded integers.
use rtcl.Prelude.{
  ◌≢◌, ℕ, ◌+◌, ◌-◌, ◌*◌, ◌/◌, ◌%◌, ◌^◌, ◌≡◌, refl, ap, ◌∙◌, true, false, ◌&&◌, Option, none, some,
  ltb, if_intro, arith, ltb→lt, lt→ltb,
}
use rtcl.Prelude.Int.{ℤ, pos, negsuc, ◌+ℤ◌, ◌-ℤ◌, ◌*ℤ◌, eqb}
use rtcl.Ir.Peephole.Exact.{floor_div}
use rtcl.Expr.Numbers.{BigInt, Floats, IsExact, show}
use rtcl.Expr.Value.{
  Value, imm, IntRep, small, big, in_imm, retag, division_by_zero, Result, ok, err, panicked,
  from_imm, from_int, as_str,
}
use rtcl.Expr.Arith.{Outcome, big_value}

-- The four operators of `numeric_binop`.
pub data Sign : Type 0 where
  plus minus times over : Sign

abbrev pub sign_char : Sign → ℕ
sign_char plus = b'+'
sign_char minus = b'-'
sign_char times = b'*'
sign_char over = b'/'

-- The operator on integers of any size; a quotient is rounded down.
abbrev pub exact_sign : Sign → ℤ → ℤ → Option ℤ
exact_sign plus a b = some (a +ℤ b)
exact_sign minus a b = some (a -ℤ b)
exact_sign times a b = some (a *ℤ b)
exact_sign over a b = floor_div a b

-- An immediate has 63 bits.
abbrev pub IsTagged : {F : Type 0} → Value F → Type 0
IsTagged (imm n) = in_imm n ≡ true
IsTagged v = Unit

-- Not the smallest immediate by minus one.
abbrev pub ImmFits : Sign → ℤ → ℤ → Type 0
ImmFits over a b = (eqb a (negsuc (2 ^ 62 - 1)) && eqb b (negsuc 0)) ≡ false
ImmFits op a b = Unit

abbrev pub Fits : {F : Type 0} → Sign → Value F → Value F → Type 0
Fits op (imm a) (imm b) = ImmFits op a b
Fits op left right = Unit

half_odd : (n : ℕ) → (n * 2 + 1) / 2 ≡ n
half_odd n = omega arith

pub retag-id : (n : ℤ) → in_imm n ≡ true → retag n ≡ n
unfolding retag in_imm
retag-id (pos n) h =
    let l = ltb→lt n (2 ^ 62) h in
    let e : n % 2 ^ 64 ≡ n = omega arith in
    let e' : (n * 2 + 1) % 2 ^ 64 ≡ n * 2 + 1 = omega arith in
    rw (e, e', lt→ltb (n * 2 + 1) (2 ^ 63) (omega arith), half_odd n) refl
retag-id (negsuc n) h =
    let l = ltb→lt n (2 ^ 62) h in
    let e : n % 2 ^ 64 ≡ n = omega arith in
    let e' : ((2 ^ 64 - 1 - n) * 2 + 1) % 2 ^ 64 ≡ 2 ^ 64 - 1 - n * 2 = omega arith in
    let big : ltb (2 ^ 64 - 1 - n * 2) (2 ^ 63) ≡ false = ground arith in
    let back : (2 ^ 64 - 1 - (2 ^ 64 - 1 - n * 2)) / 2 ≡ n = omega arith in
    rw (e, e', big) (ap negsuc back)

module _ {B F : Type 0} (bigs : BigInt B) (floats : Floats F) (laws : IsExact bigs) where
  -- The integer that an operand stands for.
  abbrev pub rep_int : IntRep B → ℤ
  rep_int (small n) = n
  rep_int (big b) = laws.value b

  abbrev pub Reads : Result (Option (IntRep B)) → ℤ → Type 0
  Reads (ok (some r)) n = rep_int r ≡ n
  Reads (ok none) n = ⊥
  Reads (err e) n = ⊥
  Reads panicked n = ⊥

  -- A value whose text is the integer, or a division by zero where there is none.
  abbrev pub Prints : Outcome bigs floats → Option ℤ → Type 0
  Prints (ok v) (some n) = as_str bigs floats v ≡ show n
  Prints (err e) none = e ≡ division_by_zero
  Prints (ok v) none = ⊥
  Prints (err e) (some n) = ⊥
  Prints panicked o = ⊥

  pub as_str-from_int : (n : ℤ) → as_str bigs floats (from_int bigs floats n) ≡ show n
  unfolding as_str from_int from_imm
  as_str-from_int n =
      if_intro (λ v. as_str bigs floats v ≡ show n) (in_imm n) (λ h. ap show (retag-id n h))
        (λ _. refl)

  pub as_str-from_imm :
      (n : ℤ) → in_imm n ≡ true → as_str bigs floats (from_imm bigs floats n) ≡ show n
  unfolding as_str from_imm
  as_str-from_imm n h = ap show (retag-id n h)

  pub Prints-big_value :
      (b : B) (n : ℤ) → laws.value b ≡ n → Prints (big_value bigs floats b) (some n)
  unfolding as_str
  Prints-big_value b n h = laws.text b ∙ ap show h

  pub Prints-div_floor :
      (a b : B) (q : Option ℤ)
      → floor_div (laws.value a) (laws.value b) ≡ q
      → q ≢ none
      → Prints (big_value bigs floats (bigs.div_floor a b)) q
  Prints-div_floor a b none h n = absurd (n refl)
  Prints-div_floor a b (some q) h n =
      Prints-big_value (bigs.div_floor a b) q (laws.value_div a b q h)
