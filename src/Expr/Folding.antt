-- ===== src/Expr/Folding.antt =====
-- The constant folding of crates/rtcl-ir/src/bytecode.rs beside the instructions of
-- crates/rtcl-vm/src/interp/vm_exec.rs that it replaces.
use native.Mathlib.Nat.{mod-eq_of_lt}
use mathlib.Core.Option.{some-injective}
use rtcl.Prelude.{
  ℕ, ◌%◌, ◌^◌, ◌≡◌, ◌<◌, refl, sym, ap, ◌∙◌, subst, Bool, true, false, not, ◌&&◌, List, [], ◌∷◌,
  Option, none, some, ltb, leb, if_intro, arith, Bool-cases, inl, inr, ltb→lt,
}
use rtcl.Prelude.Decimal.{eq_text}
use rtcl.Prelude.Int.{ℤ, pos, negsuc, ◌+ℤ◌, ◌-ℤ◌, ◌*ℤ◌, eqb, ltbℤ}
use rtcl.Ir.OpCode.{
  OpCode, push_int, push_true, push_false, pop, nop, add, sub, mul, div, mod_op, pow, eq, ne, lt,
  gt, le, ge, bit_and, bit_or, bit_xor, shl, shr,
}
use rtcl.Ir.Peephole.{push_result, fold_window}
use rtcl.Ir.Peephole.Exact.{shift_right}
use rtcl.Ir.Peephole.Fold.{
  FoldResult, int as int_result, bool as bool_result, in_i64, power, shift_fits, wrap_i64, fold_shl,
  fold_shr, fold_pow, fold_ints,
}
use rtcl.Ir.Peephole.Shift.{wrap_i64-id, shift-in_i64}
use rtcl.Expr.Numbers.{BigInt, Floats, IsExact}
use rtcl.Expr.Value.{small, Result, ok, err, panicked, as_str}
use rtcl.Expr.Arith.{Outcome, numeric_binop}
use rtcl.Expr.Power.{int_shift, op_pow, pow_ints, shl_i64, wide_shl, shift_count}
use rtcl.Expr.Compare.{op_eq, op_ne, op_rel, truth, holds, compare_int, cmp_bool}
use rtcl.Expr.Division.{below_zero}
use rtcl.Expr.Exact.{plus, minus, times, Prints, Prints-big_value}
use rtcl.Expr.Powers.{Prints-box, pow_ints-Prints}
use rtcl.Expr.Order.{
  int_rep-from_int, as_int-from_int, IntegersCompare, cmp_bool-from_int, Holds-compare_int,
}
use rtcl.Expr.Same.{
  Same, Agrees, Same-int, box, signed-Prints, Agrees-checked, Agrees-div, Agrees-mod, Agrees-bitop,
}
use rtcl.Expr.Stack.{binary, exec_op, exec_ops, Stack, Binary, go_on, push_onto, on_pair}

module _ {B F : Type 0} (bigs : BigInt B) (floats : Floats F) (laws : IsExact bigs)
    (law : IntegersCompare bigs floats) where
  -- Powers.
  Agrees-pow :
      (a b : ℤ)
      → Agrees bigs floats laws
          (fold_pow a b)
          (op_pow bigs floats (box bigs floats laws a) (box bigs floats laws b))
  unfolding fold_pow op_pow
  Agrees-pow a (pos n) =
      if_intro
        (λ f.
          Agrees bigs floats laws f
            (op_pow bigs floats (box bigs floats laws a) (box bigs floats laws (pos n))))
        (ltb n (2 ^ 28))
        (λ h.
          rw (as_int-from_int bigs floats a, as_int-from_int bigs floats (pos n))
            (Agrees-checked bigs floats laws (power a n) (pow_ints bigs floats a (pos n))
              (pow_ints-Prints bigs floats laws a n (ltb→lt n (2 ^ 28) h))))
        (λ _. tt)
  Agrees-pow a (negsuc n) = tt

  -- Shifts.
  shift_box :
      (left : Bool) (a : ℤ) (n : ℕ)
      → int_shift bigs floats left (box bigs floats laws a) (box bigs floats laws (pos n))
        ≡ shift_count bigs floats left (some (small a)) (pos n)
  unfolding int_shift
  shift_box left a n =
      rw (int_rep-from_int bigs floats a, int_rep-from_int bigs floats (pos n)) refl

  shl-Same :
      (a : ℤ) (n : ℕ)
      → n < 64
      → in_i64 (a *ℤ pos (2 ^ n)) ≡ true
      → Same bigs floats laws (shl_i64 bigs floats a n) (int_result (wrap_i64 (a *ℤ pos (2 ^ n))))
  shl-Same a n l h =
      let z = a *ℤ pos (2 ^ n) in
      let m : n % 64 ≡ n = mod-eq_of_lt l in
      let w : wide_shl bigs floats a n ≡ z =
        ap (λ k. wrap_i64 (a *ℤ pos (2 ^ k))) m ∙ wrap_i64-id z h in
      rw (wrap_i64-id z h) (
        Same-int bigs floats laws (shl_i64 bigs floats a n) z (
          if_intro (λ o. Prints bigs floats laws o (some z))
            (ltb n 64 && eqb (shift_right (wide_shl bigs floats a n) n) a)
            (λ _. Prints-box bigs floats laws (wide_shl bigs floats a n) z w)
            (λ _. Prints-big_value bigs floats laws (bigs.shift_left (bigs.from_i64 a) n) z (
              laws.value_shift_left (bigs.from_i64 a) n
              ∙ ap (λ y. y *ℤ pos (2 ^ n)) (laws.value_from a)))))

  Agrees-shl :
      (a b : ℤ)
      → in_i64 a ≡ true
      → Agrees bigs floats laws
          (fold_shl a b)
          (int_shift bigs floats true (box bigs floats laws a) (box bigs floats laws b))
  unfolding fold_shl
  Agrees-shl a (pos n) h =
      let o = int_shift bigs floats true (box bigs floats laws a) (box bigs floats laws (pos n)) in
      if_intro (λ f. Agrees bigs floats laws f o) (ltb n 64)
        (λ l.
          if_intro (λ f. Agrees bigs floats laws f o) (shift_fits a n)
            (λ k.
              let l' = ltb→lt n 64 l in
              let e : ltb (2 ^ 27) n ≡ false = ground arith in
              subst (λ q. Same bigs floats laws q (int_result (wrap_i64 (a *ℤ pos (2 ^ n)))))
                (sym (shift_box true a n)) (rw e (shl-Same a n l' (shift-in_i64 a n l' h k))))
            (λ _. tt))
        (λ _. tt)
  Agrees-shl a (negsuc n) h = tt

  Agrees-shr :
      (a b : ℤ)
      → Agrees bigs floats laws
          (fold_shr a b)
          (int_shift bigs floats false (box bigs floats laws a) (box bigs floats laws b))
  unfolding fold_shr
  Agrees-shr (pos a) (pos n) =
      rw (shift_box false (pos a) n)
        (elim (Bool-cases (leb 64 n)) [ inl w ↦ rw (w, below_zero a) refl | inr w ↦ rw w refl ])
  Agrees-shr (negsuc a) (pos n) =
      rw (shift_box false (negsuc a) n)
        (elim (Bool-cases (leb 64 n)) [ inl w ↦ rw w refl | inr w ↦ rw w refl ])
  Agrees-shr (pos a) (negsuc n) = tt
  Agrees-shr (negsuc a) (negsuc n) = tt

  -- Comparisons.
  truth-Same :
      (cc : ℕ) (a b : ℤ) (t : Bool)
      → holds cc (compare_int a b) ≡ t
      → Same bigs floats laws
          (truth bigs floats
            (cmp_bool bigs floats cc (box bigs floats laws a) (box bigs floats laws b)))
          (bool_result t)
  truth-Same cc a b t h = rw (cmp_bool-from_int bigs floats cc a b law, h) refl

  abbrev AgreesOp : ℤ → ℤ → Option FoldResult → Option (Binary bigs floats) → Type 0
  AgreesOp a b f none = f ≡ none
  AgreesOp a b f (some g) =
      Agrees bigs floats laws f (g (box bigs floats laws a) (box bigs floats laws b))

  Agrees-fold_ints :
      (a b : ℤ) (op : OpCode)
      → in_i64 a ≡ true
      → AgreesOp a b (fold_ints a b op) (binary bigs floats op)
  unfolding fold_ints binary op_eq op_ne op_rel eq_text
  Agrees-fold_ints a b add h =
      Agrees-checked bigs floats laws (a +ℤ b)
        (numeric_binop bigs floats b'+' (box bigs floats laws a) (box bigs floats laws b))
        (signed-Prints bigs floats laws plus a b tt)
  Agrees-fold_ints a b sub h =
      Agrees-checked bigs floats laws (a -ℤ b)
        (numeric_binop bigs floats b'-' (box bigs floats laws a) (box bigs floats laws b))
        (signed-Prints bigs floats laws minus a b tt)
  Agrees-fold_ints a b mul h =
      Agrees-checked bigs floats laws (a *ℤ b)
        (numeric_binop bigs floats b'*' (box bigs floats laws a) (box bigs floats laws b))
        (signed-Prints bigs floats laws times a b tt)
  Agrees-fold_ints a b div h = Agrees-div bigs floats laws a b
  Agrees-fold_ints a b mod_op h = Agrees-mod bigs floats laws a b
  Agrees-fold_ints a b pow h = Agrees-pow a b
  Agrees-fold_ints a b eq h = truth-Same 4 a b (eqb a b) (Holds-compare_int a b).4
  Agrees-fold_ints a b ne h = truth-Same 5 a b (not (eqb a b)) (Holds-compare_int a b).5
  Agrees-fold_ints a b lt h = truth-Same 0 a b (ltbℤ a b) (Holds-compare_int a b).0
  Agrees-fold_ints a b gt h = truth-Same 1 a b (ltbℤ b a) (Holds-compare_int a b).1
  Agrees-fold_ints a b le h = truth-Same 2 a b (not (ltbℤ b a)) (Holds-compare_int a b).2
  Agrees-fold_ints a b ge h = truth-Same 3 a b (not (ltbℤ a b)) (Holds-compare_int a b).3
  Agrees-fold_ints a b bit_and h = Agrees-bitop bigs floats laws b'&' a b
  Agrees-fold_ints a b bit_or h = Agrees-bitop bigs floats laws b'|' a b
  Agrees-fold_ints a b bit_xor h = Agrees-bitop bigs floats laws b'^' a b
  Agrees-fold_ints a b shl h = Agrees-shl a b h
  Agrees-fold_ints a b shr h = Agrees-shr a b
  Agrees-fold_ints a b op h = refl

  -- Two runs end with stacks that differ at most in the form of the top value, not in its text.
  abbrev pub SameStacks :
      Option (Result (Stack bigs floats)) → Option (Result (Stack bigs floats)) → Type 0
  SameStacks (some (ok (v ∷ s))) (some (ok (w ∷ t))) =
      (as_str bigs floats v ≡ as_str bigs floats w) × (s ≡ t)
  SameStacks p q = ⊥

  abbrev folded_ops : FoldResult → List OpCode
  folded_ops r = push_result r ∷ nop ∷ nop ∷ []

  finish :
      (o : Outcome bigs floats) (r : FoldResult) (st : Stack bigs floats)
      → Same bigs floats laws o r
      → SameStacks
          (go_on bigs floats (exec_ops bigs floats []) (some (push_onto bigs floats st o)))
          (exec_ops bigs floats (folded_ops r) st)
  unfolding exec_ops
  finish (ok v) (int_result n) st p = (p, refl)
  finish (ok v) (bool_result true) st p = (p, refl)
  finish (ok v) (bool_result false) st p = (p, refl)
  finish (err e) r st p = absurd p
  finish panicked r st p = absurd p

  folds :
      (f : Option FoldResult) (g : Option (Binary bigs floats)) (a b : ℤ) (r : FoldResult)
      (st : Stack bigs floats)
      → f ≡ some r
      → AgreesOp a b f g
      → SameStacks
          (go_on bigs floats
            (exec_ops bigs floats [])
            (on_pair bigs floats g (box bigs floats laws b ∷ box bigs floats laws a ∷ st)))
          (exec_ops bigs floats (folded_ops r) st)
  folds none g a b r st h k = cc
  folds (some s) none a b r st h k = cc
  folds (some s) (some g) a b r st h k =
      finish (g (box bigs floats laws a) (box bigs floats laws b)) r st
        (rw (← some-injective s r h) k)

  exec_op-binary :
      (a b : ℤ) (op : OpCode) (r : FoldResult) (st : Stack bigs floats)
      → fold_ints a b op ≡ some r
      → exec_op bigs floats op st ≡ on_pair bigs floats (binary bigs floats op) st
  unfolding exec_op fold_ints
  exec_op-binary a b (push_int n) r st e = cc
  exec_op-binary a b push_true r st e = cc
  exec_op-binary a b push_false r st e = cc
  exec_op-binary a b pop r st e = cc
  exec_op-binary a b nop r st e = cc
  exec_op-binary a b op r st e = refl

  -- Where the optimiser folds two i64 constants and an operator, the executor, run on the three
  -- instructions, pushes a value of the same text as the constant pushed instead, on the same
  -- stack: no error, no overflow and no rounding tells them apart. This holds of all seventeen
  -- operators, the bitwise ones among them, if num_bigint is exact and the double of an integer is
  -- no NaN.
  pub fold_window-exec_ops :
      (a b : ℤ) (op : OpCode) (r : FoldResult) (st : Stack bigs floats)
      → in_i64 a ≡ true
      → fold_window (push_int a) (push_int b) op ≡ some r
      → SameStacks
          (exec_ops bigs floats (push_int a ∷ push_int b ∷ op ∷ []) st)
          (exec_ops bigs floats (push_result r ∷ nop ∷ nop ∷ []) st)
  unfolding exec_ops fold_window
  fold_window-exec_ops a b op r st h e =
      rw (exec_op-binary a b op r (box bigs floats laws b ∷ box bigs floats laws a ∷ st) e)
        (folds (fold_ints a b op) (binary bigs floats op) a b r st e (Agrees-fold_ints a b op h))
