-- ===== src/Expr/Decimals.antt =====
-- Lemmas on the decimal text of an integer: how crates/rtcl-vm/src/value.rs and types/bignum.rs read
-- it.
use rtcl.Prelude.{
  ◌⊎◌, ℕ, zero, suc, ◌+◌, ◌-◌, ◌/◌, ◌%◌, ◌≡◌, ◌<◌, ◌≤◌, refl, sym, ap, ◌∙◌, subst, Bool, true,
  false, [], ◌∷◌, ◌++◌, Option, none, some, ◌==◌, ltb, leb, arith, Bool-cases, inl, inr,
}
use rtcl.Prelude.Int.{pos, neg_nat}
use rtcl.Expr.Numbers.{Text, decimal}
use rtcl.Expr.Digits.{
  is_whitespace, trim_start, trim_end, end_with, trim, to_digit, next_digit, read_digits, unsigned,
  if_i64, from_str_radix, sign_body, prefix_radix, plain_int, as_int_from_string,
}

-- A decimal digit.
abbrev pub IsDigit : ℕ → Type 0
IsDigit c = (48 ≤ c) × (c ≤ 57)

abbrev pub AreDigits : Text → Type 0
AreDigits [] = Unit
AreDigits (c ∷ s) = IsDigit c × AreDigits s

pub AreDigits-snoc : (s : Text) (c : ℕ) → AreDigits s → IsDigit c → AreDigits (s ++ (c ∷ []))
AreDigits-snoc [] c p q = (q, tt)
AreDigits-snoc (d ∷ s) c p q = (p.0, AreDigits-snoc s c p.1 q)

-- A text of digits, one at least, without a leading zero unless it is `0`.
pub record IsDecimal (n : ℕ) (t : Text) : Type 0 where
  pub first : ℕ
  pub rest : Text
  pub text_eq : t ≡ first ∷ rest
  pub digits : AreDigits t
  pub no_zero : 0 < n → (first == b'0') ≡ false
  pub single : n < 10 → rest ≡ []
  pub reads : read_digits 10 (some 0) t ≡ some n

read_digits-snoc :
    (acc : Option ℕ) (s : Text) (c : ℕ)
    → read_digits 10 acc (s ++ (c ∷ [])) ≡ next_digit 10 (read_digits 10 acc s) (to_digit 10 c)
unfolding read_digits
read_digits-snoc acc [] c = refl
read_digits-snoc acc (d ∷ s) c = read_digits-snoc (next_digit 10 acc (to_digit 10 d)) s c

to_digit-digit : (d : ℕ) → d < 10 → to_digit 10 (d + 48) ≡ some d
unfolding to_digit
to_digit-digit d h =
    let low : leb 48 (d + 48) ≡ true = ground arith in
    let high : leb (d + 48) 57 ≡ true = ground arith in
    let e : d + 48 - 48 ≡ d = omega arith in
    let f : ltb d 10 ≡ true = ground arith in rw (low, high, e, f) refl

decimal_last : (fuel n : ℕ) → ltb n 10 ≡ true → decimal (suc fuel) n ≡ (n + 48) ∷ []
unfolding decimal
decimal_last fuel n h = rw (h, decimal) refl

decimal_more :
    (fuel n : ℕ)
    → ltb n 10 ≡ false
    → decimal (suc fuel) n ≡ decimal fuel (n / 10) ++ ((n % 10 + 48) ∷ [])
unfolding decimal
decimal_more fuel n h = rw (h, decimal) refl

last-IsDecimal : (n : ℕ) → n < 10 → IsDecimal n ((n + 48) ∷ [])
unfolding read_digits
last-IsDecimal n h = record {
  first = n + 48;
  rest = [];
  text_eq = refl;
  digits = ((omega arith, omega arith), tt);
  no_zero = λ p. ground arith;
  single = λ p. refl;
  reads = rw (to_digit-digit n h) (ap some (omega arith));
}

more-IsDecimal :
    (n : ℕ) (t : Text) → 10 ≤ n → IsDecimal (n / 10) t → IsDecimal n (t ++ ((n % 10 + 48) ∷ []))
more-IsDecimal n t h d = record {
  first = d.first;
  rest = d.rest ++ ((n % 10 + 48) ∷ []);
  text_eq = ap (λ s. s ++ ((n % 10 + 48) ∷ [])) d.text_eq;
  digits = AreDigits-snoc t (n % 10 + 48) d.digits (omega arith, omega arith);
  no_zero = λ p. d.no_zero (omega arith);
  single = λ p. absurd (omega arith);
  reads =
      read_digits-snoc (some 0) t (n % 10 + 48)
      ∙ (rw (d.reads, to_digit-digit (n % 10) (omega arith)) (ap some (omega arith)));
}

pub decimal-IsDecimal : (fuel n : ℕ) → n < fuel → IsDecimal n (decimal fuel n)
decimal-IsDecimal zero n h = absurd (omega arith)
decimal-IsDecimal (suc fuel) n h = elim (Bool-cases (ltb n 10)) [
  | inl one ↦ subst (IsDecimal n) (sym (decimal_last fuel n one)) (last-IsDecimal n (ground arith))
  | inr more ↦ subst (IsDecimal n) (sym (decimal_more fuel n more)) (
      more-IsDecimal n (decimal fuel (n / 10)) (ground arith)
        (decimal-IsDecimal fuel (n / 10) (ground arith)))
]

-- No whitespace in digits.
digit_visible : (c : ℕ) → IsDigit c → is_whitespace c ≡ false
unfolding is_whitespace
digit_visible c p = ground arith

pub trim_end-digits : (s : Text) → AreDigits s → trim_end s ≡ s
unfolding trim_end
trim_end-digits [] p = refl
trim_end-digits (c ∷ []) p = rw (digit_visible c p.0) refl
trim_end-digits (c ∷ d ∷ s) p = rw (trim_end-digits (d ∷ s) p.1) refl

-- One digit, or no zero in front.
abbrev pub Shape : ℕ → Text → Type 0
Shape c s = (s ≡ []) ⊎ ((c == b'0') ≡ false)

pub IsDecimal-Shape : (n : ℕ) (t : Text) (d : IsDecimal n t) → Shape d.first d.rest
IsDecimal-Shape n t d = elim (Bool-cases (ltb n 10)) [
  | inl one ↦ inl (d.single (ground arith))
  | inr more ↦ inr (d.no_zero (ground arith))
]

pub prefix_radix-Shape : (c : ℕ) (s : Text) → Shape c s → prefix_radix (c ∷ s) ≡ none
prefix_radix-Shape c [] h = refl
prefix_radix-Shape c (d ∷ s) (inl e) = cc
prefix_radix-Shape c (d ∷ s) (inr z) = rw z refl

plain_int-Shape :
    (is_neg : Bool) (t : Text) (c : ℕ) (s : Text)
    → Shape c s
    → plain_int is_neg t (c ∷ s) ≡ from_str_radix 10 t
plain_int-Shape is_neg t c [] h = refl
plain_int-Shape is_neg t c (d ∷ s) (inl e) = cc
plain_int-Shape is_neg t c (d ∷ s) (inr z) = rw z refl

pub sign_body-digit : (c : ℕ) (s : Text) → IsDigit c → sign_body (c ∷ s) ≡ (false, c ∷ s)
sign_body-digit c s h =
    let m : (c == b'-') ≡ false = ground arith in
    let p : (c == b'+') ≡ false = ground arith in rw (m, p) refl

from_str_radix-digits :
    (c : ℕ) (s : Text) (n : ℕ)
    → IsDigit c
    → unsigned 10 (c ∷ s) ≡ some n
    → from_str_radix 10 (c ∷ s) ≡ if_i64 (some (pos n))
unfolding from_str_radix
from_str_radix-digits c s n h r =
    let m : (c == b'-') ≡ false = ground arith in
    let p : (c == b'+') ≡ false = ground arith in rw (m, p, r) refl

from_str_radix-minus :
    (t : Text) (n : ℕ)
    → unsigned 10 t ≡ some n
    → from_str_radix 10 (b'-' ∷ t) ≡ if_i64 (some (neg_nat n))
unfolding from_str_radix
from_str_radix-minus t n r = rw r refl

pub trim-digits : (c : ℕ) (s : Text) → AreDigits (c ∷ s) → trim (c ∷ s) ≡ c ∷ s
unfolding trim trim_start
trim-digits c s p = rw (digit_visible c p.0) (trim_end-digits (c ∷ s) p)

pub trim-minus : (c : ℕ) (s : Text) → AreDigits (c ∷ s) → trim (b'-' ∷ c ∷ s) ≡ b'-' ∷ c ∷ s
unfolding trim trim_start trim_end
trim-minus c s p = ap (end_with b'-') (trim_end-digits (c ∷ s) p)

pub int_of_digits :
    (c : ℕ) (s : Text) (n : ℕ)
    → AreDigits (c ∷ s)
    → Shape c s
    → unsigned 10 (c ∷ s) ≡ some n
    → as_int_from_string (c ∷ s) ≡ if_i64 (some (pos n))
unfolding as_int_from_string
int_of_digits c s n p h r =
    rw
      (
        trim-digits c s p,
        sign_body-digit c s p.0,
        prefix_radix-Shape c s h,
        plain_int-Shape false (c ∷ s) c s h,
      )
      (from_str_radix-digits c s n p.0 r)

pub int_of_minus :
    (c : ℕ) (s : Text) (n : ℕ)
    → AreDigits (c ∷ s)
    → Shape c s
    → unsigned 10 (c ∷ s) ≡ some n
    → as_int_from_string (b'-' ∷ c ∷ s) ≡ if_i64 (some (neg_nat n))
unfolding as_int_from_string
int_of_minus c s n p h r =
    rw (trim-minus c s p, prefix_radix-Shape c s h, plain_int-Shape true (b'-' ∷ c ∷ s) c s h)
      (from_str_radix-minus (c ∷ s) n r)
