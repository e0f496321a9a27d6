-- ===== src/Expr/Same.antt =====
-- Folded constants of crates/rtcl-ir/src/bytecode.rs beside the arithmetic and the bitwise operators
-- of crates/rtcl-vm/src/types/expr_ops.rs.
use rtcl.Prelude.{
  ℕ, zero, suc, ◌/◌, ◌%◌, ◌≡◌, refl, sym, ◌∙◌, subst, false, not, Option, none, some, ◌==◌,
  if_intro, arith,
}
use rtcl.Prelude.Int.{ℤ, pos, negsuc}
use rtcl.Ir.Peephole.Fold.{
  FoldResult, int as int_result, bool as bool_result, in_i64, checked, from_word, to_word, fold_div,
  fold_mod,
}
use rtcl.Expr.Numbers.{BigInt, Floats, IsExact}
use rtcl.Expr.Value.{Value, imm, bool, IntRep, small, ok, err, panicked, from_int, as_str, int_rep}
use rtcl.Expr.Arith.{
  Outcome, numeric_binop, int_mod, int_bitop, with_reps, rep_mod, rep_bitop, bit_word,
  floor_mod_i64,
}
use rtcl.Expr.Division.{below_zero, and_false}
use rtcl.Expr.Exact.{
  Sign, over, sign_char, exact_sign, IsTagged, ImmFits, Fits, Reads, Prints, as_str-from_int,
}
use rtcl.Expr.Binop.{numeric_binop-exact}
use rtcl.Expr.Order.{from_int-elim, int_rep-from_int}

module _ {B F : Type 0} (bigs : BigInt B) (floats : Floats F) (laws : IsExact bigs) where
  -- The value of a folded constant.
  abbrev pub pushed : FoldResult → Value F
  pushed (int_result n) = from_int bigs floats n
  pushed (bool_result b) = bool b

  -- A value of the same text as the constant.
  abbrev pub Same : Outcome bigs floats → FoldResult → Type 0
  Same (ok v) r = as_str bigs floats v ≡ as_str bigs floats (pushed r)
  Same (err e) r = ⊥
  Same panicked r = ⊥

  abbrev pub Agrees : Option FoldResult → Outcome bigs floats → Type 0
  Agrees none o = Unit
  Agrees (some r) o = Same o r

  pub Same-int :
      (o : Outcome bigs floats) (n : ℤ) → Prints bigs floats laws o (some n) → Same o (int_result n)
  Same-int (ok v) n p = p ∙ sym (as_str-from_int bigs floats laws n)
  Same-int (err e) n p = p
  Same-int panicked n p = p

  abbrev pub box : ℤ → Value F
  box n = from_int bigs floats n

  pub IsTagged-box : (n : ℤ) → IsTagged (box n)
  IsTagged-box n = from_int-elim bigs floats IsTagged n (λ h. h) tt

  pub Reads-box : (n : ℤ) → Reads bigs floats laws (int_rep bigs floats (box n)) n
  Reads-box n = subst (λ r. Reads bigs floats laws r n) (sym (int_rep-from_int bigs floats n)) refl

  pub Fits-box : (op : Sign) (a b : ℤ) → ImmFits op a b → Fits op (box a) (box b)
  Fits-box op a b h =
      from_int-elim bigs floats (λ v. Fits op v (box b)) a
        (λ _. from_int-elim bigs floats (λ w. Fits op (imm a) w) b (λ _. h) tt) tt

  pub signed-Prints :
      (op : Sign) (a b : ℤ)
      → ImmFits op a b
      → Prints bigs floats laws
          (numeric_binop bigs floats (sign_char op) (box a) (box b))
          (exact_sign op a b)
  signed-Prints op a b h =
      numeric_binop-exact bigs floats laws op (box a) (box b) a b (IsTagged-box a)
        (Fits-box op a b h) (Reads-box a) (Reads-box b)

  pub Agrees-checked :
      (z : ℤ) (o : Outcome bigs floats) → Prints bigs floats laws o (some z) → Agrees (checked z) o
  unfolding checked
  Agrees-checked z o p = if_intro (λ f. Agrees f o) (in_i64 z) (λ _. Same-int o z p) (λ _. tt)

  pub Agrees-div :
      (a b : ℤ) → Agrees (fold_div a b) (numeric_binop bigs floats b'/' (box a) (box b))
  unfolding fold_div
  Agrees-div (pos a) (pos zero) = tt
  Agrees-div (pos a) (pos (suc b)) =
      Same-int (numeric_binop bigs floats b'/' (box (pos a)) (box (pos (suc b)))) (pos (a / suc b))
        (signed-Prints over (pos a) (pos (suc b)) refl)
  Agrees-div (pos a) (negsuc b) = tt
  Agrees-div (negsuc a) (pos b) = tt
  Agrees-div (negsuc a) (negsuc b) = tt

  -- An operator that reads its operands as integers.
  pub with_reps-box :
      (f : Option (IntRep B) → Option (IntRep B) → Outcome bigs floats) (a b : ℤ)
      → with_reps bigs floats (box a) (box b) f ≡ f (some (small a)) (some (small b))
  with_reps-box f a b = rw (int_rep-from_int bigs floats a, int_rep-from_int bigs floats b) refl

  mod_pos : (a b : ℕ) → floor_mod_i64 (pos a) (pos (suc b)) ≡ pos (a % suc b)
  unfolding floor_mod_i64
  mod_pos a b =
      rw (below_zero (a % suc b), below_zero (suc b), and_false (not (a % suc b == 0))) refl

  pub Agrees-mod : (a b : ℤ) → Agrees (fold_mod a b) (int_mod bigs floats (box a) (box b))
  unfolding fold_mod int_mod
  Agrees-mod (pos a) (pos zero) = tt
  Agrees-mod (pos a) (pos (suc b)) =
      let e : (suc b == 0) ≡ false = ground arith in
      subst (λ o. Same o (int_result (pos (a % suc b))))
        (sym (
          with_reps-box (rep_mod bigs floats (box (pos a)) (box (pos (suc b)))) (pos a)
            (pos (suc b))))
        (rw (e, mod_pos a b) refl)
  Agrees-mod (pos a) (negsuc b) = tt
  Agrees-mod (negsuc a) (pos b) = tt
  Agrees-mod (negsuc a) (negsuc b) = tt

  pub Agrees-bitop :
      (op : ℕ) (a b : ℤ)
      → Same
          (int_bitop bigs floats op (box a) (box b))
          (int_result (from_word (bit_word bigs floats op (to_word a) (to_word b))))
  unfolding int_bitop
  Agrees-bitop op a b =
      subst (λ o. Same o (int_result (from_word (bit_word bigs floats op (to_word a) (to_word b)))))
        (sym (with_reps-box (rep_bitop bigs floats op (box a) (box b)) a b)) refl
