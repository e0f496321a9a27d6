-- ===== src/Expr/Binop.antt =====
-- `numeric_binop` of crates/rtcl-vm/src/types/expr_ops.rs, on every two values that are integers.
use rtcl.Prelude.{
  arith, Bool-cases, inl, inr, ◌≢◌, zero, suc, ◌≡◌, refl, sym, ◌∙◌, subst, Bool, true, false, ◌&&◌,
  Option, none, some, if_intro, ◌↔◌,
}
use rtcl.Prelude.Int.{ℤ, pos, negsuc, eqb, ◌+ℤ◌, ◌-ℤ◌, ◌*ℤ◌}
use rtcl.Ir.Peephole.Exact.{floor_div}
use rtcl.Ir.Peephole.Fold.{in_i64}
use rtcl.Expr.Numbers.{BigInt, Floats, IsExact}
use rtcl.Expr.Value.{
  Value, imm, IntRep, small, big, in_imm, Result, ok, err, panicked, then_do, int_rep, to_big,
  is_zero_rep,
}
use rtcl.Expr.Arith.{
  Outcome, big_op, wide, imm_or, int_or, imm_binop, int_binop, big_binop, numeric_binop,
  general_binop, rep_binop, floor_div_i64, min_i64, minus_one,
}
use rtcl.Expr.Division.{floor_div-floor_div_i64, quotient_bound}
use rtcl.Expr.Exact.{
  Sign, plus, minus, times, over, sign_char, exact_sign, IsTagged, ImmFits, Fits, rep_int, Reads,
  Prints, as_str-from_int, as_str-from_imm, Prints-big_value, Prints-div_floor,
}

floor_div-none : (a b : ℤ) → eqb b (pos 0) ≡ true → floor_div a b ≡ none
floor_div-none a (pos zero) h = refl
floor_div-none a (pos (suc b)) h = absurd (ground arith)
floor_div-none a (negsuc b) h = cc

floor_div-some : (a b : ℤ) → eqb b (pos 0) ≡ false → floor_div a b ≢ none
floor_div-some a b h e = let s = floor_div-floor_div_i64 a b h in cc

-- Is an integer zero?
pub eqb_zero : (z : ℤ) → (eqb z (pos 0) ≡ true) ↔ (z ≡ pos 0)
eqb_zero (pos zero) = (λ h. refl, λ h. refl)
eqb_zero (pos (suc n)) = (λ h. absurd (ground arith), λ h. cc)
eqb_zero (negsuc n) = (λ h. cc, λ h. cc)

pub and_right : (a b : Bool) → (a && b) ≡ true → b ≡ true
and_right true b h = h
and_right false b h = cc

abbrev Divides : Sign → ℤ → Type 0
Divides over b = eqb b (pos 0) ≡ false
Divides op b = Unit

module _ {B F : Type 0} (bigs : BigInt B) (floats : Floats F) (laws : IsExact bigs) where
  abbrev Right : Outcome bigs floats → Option ℤ → Type 0
  Right = Prints bigs floats laws

  Prints-big_op :
      (op : Sign) (a b : B)
      → Divides op (laws.value b)
      → Right (big_op bigs floats (sign_char op) a b) (exact_sign op (laws.value a) (laws.value b))
  Prints-big_op plus a b h =
      Prints-big_value bigs floats laws (bigs.plus a b) _ (laws.value_plus a b)
  Prints-big_op minus a b h =
      Prints-big_value bigs floats laws (bigs.minus a b) _ (laws.value_minus a b)
  Prints-big_op times a b h =
      Prints-big_value bigs floats laws (bigs.times a b) _ (laws.value_times a b)
  Prints-big_op over a b h =
      Prints-div_floor bigs floats laws a b _ refl (floor_div-some (laws.value a) (laws.value b) h)

  Prints-wide :
      (op : Sign) (a b : ℤ)
      → Divides op b
      → Right (wide bigs floats (sign_char op) a b) (exact_sign op a b)
  Prints-wide op a b h =
      let P : ℤ → ℤ → Type 0 =
        λ x y. Right (wide bigs floats (sign_char op) a b) (exact_sign op x y) in
      subst (λ x. P x b) (laws.value_from a)
        (subst (P (laws.value (bigs.from_i64 a))) (laws.value_from b) (
          Prints-big_op op (bigs.from_i64 a) (bigs.from_i64 b)
            (subst (Divides op) (sym (laws.value_from b)) h)))

  Prints-imm_or :
      (r : ℤ) (w : Outcome bigs floats) → Right w (some r) → Right (imm_or bigs floats r w) (some r)
  Prints-imm_or r w p =
      if_intro (λ o. Right o (some r)) (in_i64 r && in_imm r)
        (λ h. as_str-from_imm bigs floats laws r (and_right (in_i64 r) (in_imm r) h)) (λ _. p)

  Prints-int_or :
      (r : ℤ) (w : Outcome bigs floats) → Right w (some r) → Right (int_or bigs floats r w) (some r)
  Prints-int_or r w p =
      if_intro (λ o. Right o (some r)) (in_i64 r) (λ _. as_str-from_int bigs floats laws r) (λ _. p)

  imm_binop-exact :
      (op : Sign) (a b : ℤ)
      → in_imm a ≡ true
      → ImmFits op a b
      → Right (imm_binop bigs floats (sign_char op) a b) (exact_sign op a b)
  unfolding imm_binop
  imm_binop-exact plus a b t f = Prints-imm_or (a +ℤ b) _ (Prints-wide plus a b tt)
  imm_binop-exact minus a b t f = Prints-imm_or (a -ℤ b) _ (Prints-wide minus a b tt)
  imm_binop-exact times a b t f = Prints-imm_or (a *ℤ b) _ (Prints-wide times a b tt)
  imm_binop-exact over a b t f =
      let R : Outcome bigs floats → Type 0 = λ o. Right o (floor_div a b) in
      if_intro R (eqb b (pos 0)) (λ z. rw (floor_div-none a b z) refl)
        λ z.
          if_intro R (eqb a min_i64 && eqb b minus_one) (λ _. Prints-wide over a b z)
            λ _.
              let q = floor_div-floor_div_i64 a b z in
              rw q
                (as_str-from_imm bigs floats laws (floor_div_i64 a b) (quotient_bound a b _ t f q))

  int_binop-exact :
      (op : Sign) (a b : ℤ) → Right (int_binop bigs floats (sign_char op) a b) (exact_sign op a b)
  unfolding int_binop
  int_binop-exact plus a b = Prints-int_or (a +ℤ b) _ (Prints-wide plus a b tt)
  int_binop-exact minus a b = Prints-int_or (a -ℤ b) _ (Prints-wide minus a b tt)
  int_binop-exact times a b = Prints-int_or (a *ℤ b) _ (Prints-wide times a b tt)
  int_binop-exact over a b =
      let R : Outcome bigs floats → Type 0 = λ o. Right o (floor_div a b) in
      if_intro R (eqb b (pos 0)) (λ z. rw (floor_div-none a b z) refl)
        λ z.
          if_intro R (eqb a min_i64 && eqb b minus_one) (λ _. Prints-wide over a b z)
            λ _.
              rw (floor_div-floor_div_i64 a b z)
                (as_str-from_int bigs floats laws (floor_div_i64 a b))

  to_big-value : (r : IntRep B) → laws.value (to_big bigs floats r) ≡ rep_int bigs floats laws r
  to_big-value (small n) = laws.value_from n
  to_big-value (big b) = refl

  is_zero_rep-eqb :
      (r : IntRep B) → is_zero_rep bigs floats r ≡ eqb (rep_int bigs floats laws r) (pos 0)
  is_zero_rep-eqb (small n) = refl
  is_zero_rep-eqb (big b) = elim (Bool-cases (bigs.is_zero b)) [
    | inl z ↦ z ∙ sym ((eqb_zero (laws.value b)).1 ((laws.zero_iff b).0 z))
    | inr n ↦ elim (Bool-cases (eqb (laws.value b) (pos 0))) [
      | inl z ↦ let z' = (laws.zero_iff b).1 ((eqb_zero (laws.value b)).0 z) in cc
      | inr n' ↦ n ∙ sym n'
    ]
  ]

  Prints-reps :
      (op : Sign) (r s : IntRep B)
      → Divides op (rep_int bigs floats laws s)
      → Right
          (big_op bigs floats (sign_char op) (to_big bigs floats r) (to_big bigs floats s))
          (exact_sign op (rep_int bigs floats laws r) (rep_int bigs floats laws s))
  Prints-reps op r s h =
      let o = big_op bigs floats (sign_char op) (to_big bigs floats r) (to_big bigs floats s) in
      let P : ℤ → ℤ → Type 0 = λ x y. Right o (exact_sign op x y) in
      subst (λ x. P x (rep_int bigs floats laws s)) (to_big-value r)
        (subst (P (laws.value (to_big bigs floats r))) (to_big-value s) (
          Prints-big_op op (to_big bigs floats r) (to_big bigs floats s)
            (subst (Divides op) (sym (to_big-value s)) h)))

  big_binop-exact :
      (op : Sign) (r s : IntRep B)
      → Right
          (big_binop bigs floats (sign_char op) r s)
          (exact_sign op (rep_int bigs floats laws r) (rep_int bigs floats laws s))
  unfolding big_binop
  big_binop-exact plus r s = Prints-reps plus r s tt
  big_binop-exact minus r s = Prints-reps minus r s tt
  big_binop-exact times r s = Prints-reps times r s tt
  big_binop-exact over r s =
      let z = is_zero_rep-eqb s in
      if_intro (λ o. Right o (floor_div (rep_int bigs floats laws r) (rep_int bigs floats laws s)))
        (is_zero_rep bigs floats s)
        (λ h.
          rw (floor_div-none (rep_int bigs floats laws r) (rep_int bigs floats laws s) (sym z ∙ h))
            refl)
        (λ h. Prints-reps over r s (sym z ∙ h))

  reps-exact :
      (op : Sign) (left right : Value F) (r s : IntRep B)
      → Right
          (rep_binop bigs floats (sign_char op) left right (some r) (some s))
          (exact_sign op (rep_int bigs floats laws r) (rep_int bigs floats laws s))
  unfolding numeric_binop
  reps-exact op left right (small a) (small b) = int_binop-exact op a b
  reps-exact op left right (small a) (big b) = big_binop-exact op (small a) (big b)
  reps-exact op left right (big a) s = big_binop-exact op (big a) s

  read-exact :
      (op : Sign) (left right : Value F) (x y : Result (Option (IntRep B))) (a b : ℤ)
      → Reads bigs floats laws x a
      → Reads bigs floats laws y b
      → Right
          (then_do x (λ r. then_do y (λ s. rep_binop bigs floats (sign_char op) left right r s)))
          (exact_sign op a b)
  read-exact op left right (ok (some r)) (ok (some s)) a b p q =
      subst
        (λ n.
          Right (rep_binop bigs floats (sign_char op) left right (some r) (some s))
            (exact_sign op n b))
        p
        (subst
          (λ n.
            Right (rep_binop bigs floats (sign_char op) left right (some r) (some s))
              (exact_sign op (rep_int bigs floats laws r) n))
          q (reps-exact op left right r s))
  read-exact op left right (ok none) y a b p q = absurd p
  read-exact op left right (ok (some r)) (ok none) a b p q = absurd q
  read-exact op left right (ok (some r)) (err e) a b p q = absurd q
  read-exact op left right (ok (some r)) panicked a b p q = absurd q
  read-exact op left right (err e) y a b p q = absurd p
  read-exact op left right panicked y a b p q = absurd p

  general-exact :
      (op : Sign) (left right : Value F) (a b : ℤ)
      → Reads bigs floats laws (int_rep bigs floats left) a
      → Reads bigs floats laws (int_rep bigs floats right) b
      → Right (general_binop bigs floats (sign_char op) left right) (exact_sign op a b)
  unfolding numeric_binop
  general-exact op left right a b p q =
      read-exact op left right (int_rep bigs floats left) (int_rep bigs floats right) a b p q

  -- On two values that are integers, small or big, the operators `+`, `-`, `*` and `/` give a value
  -- whose text is the exact result, a quotient rounded down; only a division by zero is an error,
  -- and the code's error for it. The law of num_bigint is that it is exact. Not covered is the
  -- smallest immediate divided by minus one.
  pub numeric_binop-exact :
      (op : Sign) (left right : Value F) (a b : ℤ)
      → IsTagged left
      → Fits op left right
      → Reads bigs floats laws (int_rep bigs floats left) a
      → Reads bigs floats laws (int_rep bigs floats right) b
      → Right (numeric_binop bigs floats (sign_char op) left right) (exact_sign op a b)
  unfolding numeric_binop
  numeric_binop-exact op (imm x) (imm y) a b t f p q =
      subst (λ n. Right (imm_binop bigs floats (sign_char op) x y) (exact_sign op n b)) p
        (subst (λ n. Right (imm_binop bigs floats (sign_char op) x y) (exact_sign op x n)) q
          (imm_binop-exact op x y t f))
  numeric_binop-exact op (imm x) right a b t f p q = general-exact op (imm x) right a b p q
  numeric_binop-exact op left right a b t f p q = general-exact op left right a b p q
