-- ===== src/Expr/Carrier.antt =====
-- crates/rtcl-vm/src/types/bignum.rs: a big integer is carried by its decimal text. `to_value` writes
-- it and `int_rep` reads it.
use mathlib.Core.Option.{some-injective}
use rtcl.Prelude.{
  ℕ, suc, ◌-◌, ◌≡◌, refl, sym, ap, ◌∙◌, subst, Bool, true, false, [], ◌∷◌, Option, none, some, ltb,
  leb, if_intro, arith,
}
use rtcl.Prelude.Int.{ℤ, pos, negsuc, neg}
use rtcl.Ir.Peephole.Fold.{in_i64}
use rtcl.Parser.Rd.Token.{len_utf8}
use rtcl.Expr.Numbers.{Text, BigInt, Floats, IsExact, decimal, show}
use rtcl.Expr.Digits.{
  read_digits, unsigned, trim, all_digits, text_size, splits_at_two, if_i64, as_int_from_string,
}
use rtcl.Expr.Value.{
  text, IntRep, small, big, ok, then_do, int_rep, to_value, parse_literal, literal_body, signed,
  rep_or, map_big,
}
use rtcl.Expr.Exact.{Reads, rep_int}
use rtcl.Expr.Order.{int_rep-from_int}
use rtcl.Expr.Decimals.{
  AreDigits, IsDigit, Shape, IsDecimal, IsDecimal-Shape, decimal-IsDecimal, prefix_radix-Shape,
  sign_body-digit, trim-digits, trim-minus, int_of_digits, int_of_minus,
}

-- The documented reading of num_bigint: decimal digits are read as the number they write, and the
-- negation is exact.
pub record ReadsDecimal {B : Type 0} (bigs : BigInt B) (laws : IsExact bigs) : Type 0 where
  pub parsed :
      (c : ℕ) (s : Text) (n : ℕ)
      → AreDigits (c ∷ s)
      → unsigned 10 (c ∷ s) ≡ some n
      → (b : B) × ((bigs.parse_bytes (c ∷ s) 10 ≡ some b) × (laws.value b ≡ pos n))
  pub value_negate : (b : B) → laws.value (bigs.negate b) ≡ neg (laws.value b)

digit_size : (c : ℕ) → IsDigit c → len_utf8 c ≡ 1
unfolding len_utf8
digit_size c h = let e : ltb c 0x80 ≡ true = ground arith in rw e refl

splits-digits :
    (c : ℕ) (s : Text)
    → AreDigits (c ∷ s)
    → ltb 2 (text_size (c ∷ s)) ≡ true
    → splits_at_two (c ∷ s) ≡ true
splits-digits c [] p h = let e = digit_size c p.0 in absurd (ground arith)
splits-digits c (d ∷ s) p h = rw (digit_size c p.0, digit_size d p.1.0) refl

all_digits-digits : (s : Text) → AreDigits s → all_digits 10 s ≡ true
unfolding all_digits
all_digits-digits [] p = refl
all_digits-digits (c ∷ s) p =
    let low : leb 48 c ≡ true = ground arith in
    let high : leb c 57 ≡ true = ground arith in
    let value : ltb (c - 48) 10 ≡ true = ground arith in
    rw (low, high, value) (all_digits-digits s p.1)

module _ {B F : Type 0} (bigs : BigInt B) (floats : Floats F) (laws : IsExact bigs)
    (reads : ReadsDecimal bigs laws) where
  literal-digits :
      (is_neg : Bool) (c : ℕ) (s : Text)
      → AreDigits (c ∷ s)
      → Shape c s
      → literal_body bigs floats is_neg (c ∷ s)
        ≡ ok (signed bigs floats is_neg (bigs.parse_bytes (c ∷ s) 10))
  literal-digits is_neg c s p h =
      if_intro (λ r. r ≡ ok (signed bigs floats is_neg (bigs.parse_bytes (c ∷ s) 10)))
        (ltb 2 (text_size (c ∷ s)))
        (λ l.
          rw (splits-digits c s p l, prefix_radix-Shape c s h, all_digits-digits (c ∷ s) p) refl)
        (λ _. rw (all_digits-digits (c ∷ s) p) refl)

  Reads-big :
      (o : Option B) (b : B) (z : ℤ)
      → o ≡ some b
      → laws.value b ≡ z
      → Reads bigs floats laws (ok (map_big bigs floats o)) z
  Reads-big none b z h k = cc
  Reads-big (some x) b z h k = ap laws.value (some-injective x b h) ∙ k

  -- What is read of a text, by whether its integer is an i64.
  Reads-rep_or :
      (t : Text) (z : ℤ)
      → as_int_from_string t ≡ if_i64 (some z)
      → Reads bigs floats laws
          (then_do (parse_literal bigs floats (trim t)) (λ b. ok (map_big bigs floats b)))
          z
      → Reads bigs floats laws (int_rep bigs floats (text t)) z
  unfolding int_rep
  Reads-rep_or t z h k = rw h (
      if_intro (λ o. Reads bigs floats laws (rep_or bigs floats o t) z) (in_i64 z) (λ _. refl)
        (λ _. k))

  Reads-digits :
      (c : ℕ) (s : Text) (n : ℕ)
      → AreDigits (c ∷ s)
      → Shape c s
      → unsigned 10 (c ∷ s) ≡ some n
      → Reads bigs floats laws (int_rep bigs floats (text (c ∷ s))) (pos n)
  unfolding parse_literal
  Reads-digits c s n p h r = Reads-rep_or (c ∷ s) (pos n) (int_of_digits c s n p h r) (
      let d = reads.parsed c s n p r in
      rw (trim-digits c s p, sign_body-digit c s p.0, literal-digits false c s p h, d.1.0) d.1.1)

  Reads-minus :
      (c : ℕ) (s : Text) (n : ℕ)
      → AreDigits (c ∷ s)
      → Shape c s
      → unsigned 10 (c ∷ s) ≡ some (suc n)
      → Reads bigs floats laws (int_rep bigs floats (text (b'-' ∷ c ∷ s))) (negsuc n)
  unfolding parse_literal
  Reads-minus c s n p h r =
      Reads-rep_or (b'-' ∷ c ∷ s) (negsuc n) (int_of_minus c s (suc n) p h r) (
        let d = reads.parsed c s (suc n) p r in
        rw (trim-minus c s p, literal-digits true c s p h, d.1.0)
          (reads.value_negate d.0 ∙ ap neg d.1.1))

  abbrev Carries : Text → ℤ → Type 0
  Carries t z = Reads bigs floats laws (int_rep bigs floats (text t)) z

  unsigned_first : (n : ℕ) (t : Text) (d : IsDecimal n t) → unsigned 10 (d.first ∷ d.rest) ≡ some n
  unfolding unsigned
  unsigned_first n t d = subst (λ s. read_digits 10 (some 0) s ≡ some n) d.text_eq d.reads

  Carries-decimal : (n : ℕ) (t : Text) → IsDecimal n t → Carries t (pos n)
  Carries-decimal n t d =
      subst (λ s. Carries s (pos n)) (sym d.text_eq)
        (Reads-digits d.first d.rest n (subst AreDigits d.text_eq d.digits) (IsDecimal-Shape n t d)
          (unsigned_first n t d))

  Carries-minus : (n : ℕ) (t : Text) → IsDecimal (suc n) t → Carries (b'-' ∷ t) (negsuc n)
  Carries-minus n t d =
      subst (λ s. Carries (b'-' ∷ s) (negsuc n)) (sym d.text_eq)
        (Reads-minus d.first d.rest n (subst AreDigits d.text_eq d.digits)
          (IsDecimal-Shape (suc n) t d) (unsigned_first (suc n) t d))

  Carries-show : (z : ℤ) → Carries (show z) z
  unfolding show
  Carries-show (pos n) =
      Carries-decimal n (decimal (suc n) n) (decimal-IsDecimal (suc n) n (omega arith))
  Carries-show (negsuc n) =
      Carries-minus n (decimal (suc (suc n)) (suc n))
        (decimal-IsDecimal (suc (suc n)) (suc n) (omega arith))

  -- What `to_value` makes of an integer, small or big, `int_rep` reads as the same integer: a result
  -- of the operators is again an operand. The laws of num_bigint are that its decimal texts are exact.
  pub int_rep-to_value :
      (r : IntRep B)
      → Reads bigs floats laws
          (int_rep bigs floats (to_value bigs floats r))
          (rep_int bigs floats laws r)
  int_rep-to_value (small n) =
      subst (λ o. Reads bigs floats laws o n) (sym (int_rep-from_int bigs floats n)) refl
  int_rep-to_value (big b) =
      subst (λ t. Carries t (laws.value b)) (sym (laws.text b)) (Carries-show (laws.value b))
