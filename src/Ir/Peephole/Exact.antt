-- ===== src/Ir/Peephole/Exact.antt =====
-- The constant folding of `peephole_pass` (crates/rtcl-ir/src/bytecode.rs)
-- beside unbounded integers.
use native.Mathlib.Nat.{div-le_self, div-add-mod', mod-le}
use mathlib.Core.Option.{some-injective}
use rtcl.Prelude.{
  ℕ, zero, suc, ◌+◌, ◌-◌, ◌*◌, ◌/◌, ◌%◌, ◌^◌, ◌≡◌, ◌≤◌, refl, ap, ◌∙◌, Bool, true, false, not,
  Option, none, some, leb, ltb, arith, if_intro,
}
use rtcl.Prelude.Int.{ℤ, pos, negsuc, neg_nat, ◌+ℤ◌, ◌-ℤ◌, ◌*ℤ◌, eqb, ltbℤ}
use rtcl.Ir.OpCode.{
  OpCode, add, sub, mul, div, mod_op, pow, eq, ne, lt, gt, le, ge, bit_and, bit_or, bit_xor, shl,
  shr,
}
use rtcl.Ir.Peephole.Fold.{
  FoldResult, int, bool, in_i64, checked, power, shift_fits, fold_shl, fold_shr, fold_div, fold_mod,
  fold_pow, fold_ints,
}
use rtcl.Ir.Peephole.Shift.{
  in_i64→lt, in_i64→lt_negsuc, pos-in_i64, negsuc-in_i64, wrap_i64-id, shift-in_i64, lt_pow,
}

-- Division that rounds down.
abbrev pub floor_div : ℤ → ℤ → Option ℤ
floor_div a (pos zero) = none
floor_div (pos a) (pos (suc b)) = some (pos (a / suc b))
floor_div (negsuc a) (pos (suc b)) = some (negsuc (a / suc b))
floor_div (pos a) (negsuc b) = some (neg_nat ((a + b) / suc b))
floor_div (negsuc a) (negsuc b) = some (pos (suc a / suc b))

abbrev pub div_exact : Option ℤ → Option FoldResult
div_exact none = none
div_exact (some q) = some (int q)

abbrev pub mod_exact : ℤ → ℤ → Option ℤ → Option FoldResult
mod_exact a b none = none
mod_exact a b (some q) = some (int (a -ℤ q *ℤ b))

abbrev pub shift_right : ℤ → ℕ → ℤ
shift_right (pos a) n = pos (a / 2 ^ n)
shift_right (negsuc a) n = negsuc (a / 2 ^ n)

abbrev pub for_count : (ℕ → ℤ) → ℤ → Option FoldResult
for_count f (pos n) = some (int (f n))
for_count f (negsuc n) = none

-- The operation on integers of any size, as a Tcl expression computes it.
unfoldable pub exact : ℤ → ℤ → OpCode → Option FoldResult
unfolding power
exact a b add = some (int (a +ℤ b))
exact a b sub = some (int (a -ℤ b))
exact a b mul = some (int (a *ℤ b))
exact a b div = div_exact (floor_div a b)
exact a b mod_op = mod_exact a b (floor_div a b)
exact a b pow = for_count (power a) b
exact a b eq = some (bool (eqb a b))
exact a b ne = some (bool (not (eqb a b)))
exact a b lt = some (bool (ltbℤ a b))
exact a b gt = some (bool (ltbℤ b a))
exact a b le = some (bool (not (ltbℤ b a)))
exact a b ge = some (bool (not (ltbℤ a b)))
exact a b shl = for_count (λ n. a *ℤ pos (2 ^ n)) b
exact a b shr = for_count (shift_right a) b
exact a b op = none

abbrev pub is_bitwise : OpCode → Bool
is_bitwise bit_and = true
is_bitwise bit_or = true
is_bitwise bit_xor = true
is_bitwise op = false

abbrev pub InRange : FoldResult → Type 0
InRange (int z) = in_i64 z ≡ true
InRange (bool b) = Unit

-- The folded result is the exact one, and an i64.
abbrev Agrees : Option FoldResult → Option FoldResult → Type 0
Agrees none e = Unit
Agrees (some r) e = (e ≡ some r) × InRange r

Agrees-checked : (z : ℤ) → Agrees (checked z) (some (int z))
unfolding checked
Agrees-checked z = if_intro (λ f. Agrees f (some (int z))) (in_i64 z) (λ h. (refl, h)) (λ _. tt)

Agrees-div : (a b : ℤ) → in_i64 a ≡ true → Agrees (fold_div a b) (div_exact (floor_div a b))
unfolding fold_div
Agrees-div (pos a) (pos zero) h = tt
Agrees-div (pos a) (pos (suc b)) h =
    (refl, pos-in_i64 (a / suc b) (omega (arith, div-le_self a (suc b), in_i64→lt a h)))
Agrees-div (pos a) (negsuc b) h = tt
Agrees-div (negsuc a) (pos b) h = tt
Agrees-div (negsuc a) (negsuc b) h = tt

add-neg_nat : (a k : ℕ) → k ≤ a → pos a +ℤ neg_nat k ≡ pos (a - k)
add-neg_nat a zero h = let e : a + 0 ≡ a - 0 = omega arith in ap pos e
add-neg_nat a (suc k) h = let e : ltb a (suc k) ≡ false = ground arith in rw e refl

Agrees-mod : (a b : ℤ) → in_i64 a ≡ true → Agrees (fold_mod a b) (mod_exact a b (floor_div a b))
unfolding fold_mod
Agrees-mod (pos a) (pos zero) h = tt
Agrees-mod (pos a) (pos (suc b)) h =
    let q = a / suc b * suc b in
    let e = div-add-mod' a (suc b) in
    let e' : a - q ≡ a % suc b = omega (arith, e) in
    (
      ap (λ (z : ℤ). some (int z)) (add-neg_nat a q (omega (arith, e)) ∙ ap pos e'),
      pos-in_i64 (a % suc b) (omega (arith, mod-le a (suc b), in_i64→lt a h)),
    )
Agrees-mod (pos a) (negsuc b) h = tt
Agrees-mod (negsuc a) (pos b) h = tt
Agrees-mod (negsuc a) (negsuc b) h = tt

Agrees-pow : (a b : ℤ) → Agrees (fold_pow a b) (for_count (power a) b)
unfolding fold_pow
Agrees-pow a (pos n) =
    if_intro (λ f. Agrees f (some (int (power a n)))) (ltb n (2 ^ 28))
      (λ _. Agrees-checked (power a n)) (λ _. tt)
Agrees-pow a (negsuc n) = tt

Agrees-shl :
    (a b : ℤ) → in_i64 a ≡ true → Agrees (fold_shl a b) (for_count (λ n. a *ℤ pos (2 ^ n)) b)
unfolding fold_shl
Agrees-shl a (pos n) h =
    let z = a *ℤ pos (2 ^ n) in
    if_intro (λ f. Agrees f (some (int z))) (ltb n 64)
      (λ l.
        if_intro (λ f. Agrees f (some (int z))) (shift_fits a n)
          (λ k. let r = shift-in_i64 a n (ground arith) h k in rw (wrap_i64-id z r) (refl, r))
          (λ _. tt))
      (λ _. tt)
Agrees-shl a (negsuc n) h = tt

Agrees-shr : (a b : ℤ) → in_i64 a ≡ true → Agrees (fold_shr a b) (for_count (shift_right a) b)
unfolding fold_shr
Agrees-shr (pos a) (pos n) h =
    let e = lt_pow a n (in_i64→lt a h) in
    if_intro (λ f. Agrees f (some (int (pos (a / 2 ^ n))))) (leb 64 n)
      (λ l. rw (e (ground arith)) (refl, pos-in_i64 0 (omega arith)))
      (λ _. (refl, pos-in_i64 (a / 2 ^ n) (omega (arith, div-le_self a (2 ^ n), in_i64→lt a h))))
Agrees-shr (negsuc a) (pos n) h =
    let e = lt_pow a n (in_i64→lt_negsuc a h) in
    if_intro (λ f. Agrees f (some (int (negsuc (a / 2 ^ n))))) (leb 64 n)
      (λ l. rw (e (ground arith)) (refl, negsuc-in_i64 0 (omega arith)))
      (λ _. (
        refl,
        negsuc-in_i64 (a / 2 ^ n) (omega (arith, div-le_self a (2 ^ n), in_i64→lt_negsuc a h)),
      ))
Agrees-shr (pos a) (negsuc n) h = tt
Agrees-shr (negsuc a) (negsuc n) h = tt

Agrees-fold_ints :
    (a b : ℤ) (op : OpCode)
    → in_i64 a ≡ true
    → is_bitwise op ≡ false
    → Agrees (fold_ints a b op) (exact a b op)
unfolding fold_ints exact
Agrees-fold_ints a b add h k = Agrees-checked (a +ℤ b)
Agrees-fold_ints a b sub h k = Agrees-checked (a -ℤ b)
Agrees-fold_ints a b mul h k = Agrees-checked (a *ℤ b)
Agrees-fold_ints a b div h k = Agrees-div a b h
Agrees-fold_ints a b mod_op h k = Agrees-mod a b h
Agrees-fold_ints a b pow h k = Agrees-pow a b
Agrees-fold_ints a b eq h k = (refl, tt)
Agrees-fold_ints a b ne h k = (refl, tt)
Agrees-fold_ints a b lt h k = (refl, tt)
Agrees-fold_ints a b gt h k = (refl, tt)
Agrees-fold_ints a b le h k = (refl, tt)
Agrees-fold_ints a b ge h k = (refl, tt)
Agrees-fold_ints a b shl h k = Agrees-shl a b h
Agrees-fold_ints a b shr h k = Agrees-shr a b h
Agrees-fold_ints a b bit_and h k = cc
Agrees-fold_ints a b bit_or h k = cc
Agrees-fold_ints a b bit_xor h k = cc
Agrees-fold_ints a b op h k = tt

Agrees→exact :
    (f e : Option FoldResult) (r : FoldResult) → f ≡ some r → Agrees f e → (e ≡ some r) × InRange r
Agrees→exact none e r h g = cc
Agrees→exact (some s) e r h g = let h' : s ≡ r = some-injective s r h in rw (← h') g

-- Where `peephole_pass` folds an operation that is not bitwise on two i64 constants, its result is
-- that of the operation on integers of any size, rounding down in `/` and `%`, and it is an i64: no
-- fold wraps around.
pub exact-fold_ints :
    (a b : ℤ) (op : OpCode) (r : FoldResult)
    → in_i64 a ≡ true
    → is_bitwise op ≡ false
    → fold_ints a b op ≡ some r
    → (exact a b op ≡ some r) × InRange r
exact-fold_ints a b op r h k e =
    Agrees→exact (fold_ints a b op) (exact a b op) r e (Agrees-fold_ints a b op h k)
