-- ===== src/Expr/Powers.antt =====
-- The powers of two i64 in crates/rtcl-vm/src/types/expr_ops.rs are exact.
use rtcl.Prelude.{
  ℕ, zero, suc, ◌*◌, ◌%◌, ◌^◌, ◌≡◌, ◌<◌, refl, sym, ap, ◌∙◌, Bool, true, false, ◌&&◌, some, ◌==◌,
  ltb, leb, if◌then◌else◌, if_intro, arith, Bool-cases, inl, inr,
}
use rtcl.Prelude.Int.{ℤ, pos, negsuc, ◌*ℤ◌, eqb}
use rtcl.Ir.Peephole.Fold.{in_i64, power}
use rtcl.Expr.Numbers.{BigInt, Floats, IsExact, show}
use rtcl.Expr.Value.{ok, from_int}
use rtcl.Expr.Arith.{Outcome, minus_one}
use rtcl.Expr.Power.{pow_ints, checked_pow}
use rtcl.Expr.Division.{below_zero}
use rtcl.Expr.Exact.{Prints, as_str-from_int, Prints-big_value}
use rtcl.Expr.Binop.{and_right}

zero_times : (z : ℤ) → pos 0 *ℤ z ≡ pos 0
zero_times (pos n) = ap pos (omega arith)
zero_times (negsuc n) = let e : 0 * suc n ≡ 0 = omega arith in rw e refl

power_one : (n : ℕ) → power (pos 1) n ≡ pos 1
unfolding power
power_one zero = refl
power_one (suc n) = ap (λ z. pos 1 *ℤ z) (power_one n)

power_minus_one : (n : ℕ) → power (negsuc 0) n ≡ (if n % 2 == 0 then pos 1 else negsuc 0)
unfolding power
power_minus_one zero = refl
power_minus_one (suc n) = elim (Bool-cases (n % 2 == 0)) [
  | inl even ↦
      let odd : (suc n % 2 == 0) ≡ false = ground arith in rw (power_minus_one n, even, odd) refl
  | inr odd ↦
      let even : (suc n % 2 == 0) ≡ true = ground arith in rw (power_minus_one n, odd, even) refl
]

eqb_eq : (a b : ℤ) → eqb a b ≡ true → a ≡ b
eqb_eq (pos a) (pos b) h = ap pos (ground arith)
eqb_eq (pos a) (negsuc b) h = cc
eqb_eq (negsuc a) (pos b) h = cc
eqb_eq (negsuc a) (negsuc b) h = ap negsuc (ground arith)

power_none : (a : ℤ) (n : ℕ) → (n == 0) ≡ true → power a n ≡ pos 1
unfolding power
power_none a zero h = refl
power_none a (suc n) h = absurd (ground arith)

power_of_zero : (n : ℕ) → (n == 0) ≡ false → power (pos 0) n ≡ pos 0
unfolding power
power_of_zero zero h = cc
power_of_zero (suc n) h = zero_times (power (pos 0) n)

and_rest : (a b : Bool) → a ≡ true → (a && b) ≡ false → b ≡ false
and_rest true b h k = k
and_rest false b h k = cc

module _ {B F : Type 0} (bigs : BigInt B) (floats : Floats F) (laws : IsExact bigs) where
  pub Prints-box :
      (n m : ℤ) → n ≡ m → Prints bigs floats laws (ok (from_int bigs floats n)) (some m)
  Prints-box n m h = as_str-from_int bigs floats laws n ∙ ap show h

  checked_pow-Prints :
      (a : ℤ) (n : ℕ) → Prints bigs floats laws (checked_pow bigs floats a n) (some (power a n))
  checked_pow-Prints a n =
      if_intro (λ o. Prints bigs floats laws o (some (power a n))) (in_i64 (power a n))
        (λ _. Prints-box (power a n) (power a n) refl)
        (λ _.
          Prints-big_value bigs floats laws (bigs.pow (bigs.from_i64 a) n) (power a n)
            (laws.value_pow (bigs.from_i64 a) n ∙ ap (λ z. power z n) (laws.value_from a)))

  pub pow_ints-Prints :
      (a : ℤ) (n : ℕ)
      → n < 2 ^ 28
      → Prints bigs floats laws (pow_ints bigs floats a (pos n)) (some (power a n))
  unfolding pow_ints
  pow_ints-Prints a n l =
      let R : Outcome bigs floats → Type 0 = λ o. Prints bigs floats laws o (some (power a n)) in
      let at : ℤ → Type 0 = λ z. power z n ≡ power a n in
      let same : (z : ℤ) → eqb a z ≡ true → power z n ≡ power a n =
        λ z h. ap (λ y. power y n) (sym (eqb_eq a z h)) in
      let narrow : leb (2 ^ 28) n ≡ false = ground arith in
      if_intro R (eqb a (pos 0) && ltb n 0)
        (λ h. let t = and_right (eqb a (pos 0)) (ltb n 0) h in let f = below_zero n in absurd cc)
        λ _.
          if_intro R (eqb a (pos 0) && n == 0)
            (λ h.
              Prints-box (pos 1) (power a n)
                (sym (power_none a n (and_right (eqb a (pos 0)) (n == 0) h))))
            λ k.
              if_intro R (eqb a (pos 0))
                (λ z.
                  Prints-box (pos 0) (power a n) (
                    sym (power_of_zero n (and_rest (eqb a (pos 0)) (n == 0) z k)) ∙ same (pos 0) z))
                λ _.
                  if_intro R (eqb a (pos 1))
                    (λ o. Prints-box (pos 1) (power a n) (sym (power_one n) ∙ same (pos 1) o))
                    λ _.
                      if_intro R (eqb a minus_one)
                        (λ m.
                          Prints-box (if n % 2 == 0 then pos 1 else minus_one) (power a n)
                            (sym (power_minus_one n) ∙ same minus_one m))
                        λ _. rw narrow (checked_pow-Prints a n)
