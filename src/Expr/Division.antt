-- ===== src/Expr/Division.antt =====
-- Lemmas on `floor_div` of crates/rtcl-vm/src/types/expr.rs: it rounds down, and its result stays in
-- the range of its operands.
use native.Mathlib.Nat.{div-add-mod', mod-lt, div-eq_of_lt-le, div-le_self, div-one}
use mathlib.Core.Option.{some-injective}
use rtcl.Prelude.{
  ltb→lt, lt→ltb, ℕ, zero, suc, ◌+◌, ◌-◌, ◌*◌, ◌/◌, ◌%◌, ◌^◌, ◌≡◌, ◌≤◌, ◌<◌, refl, sym, ap, ◌∙◌,
  Bool, true, false, not, ◌&&◌, some, ◌==◌, ltb, arith, Bool-cases, inl, inr, ==_iff,
}
use rtcl.Prelude.Int.{ℤ, pos, negsuc, neg_nat, ◌-ℤ◌, eqb}
use rtcl.Ir.Peephole.Exact.{floor_div}
use rtcl.Expr.Value.{in_imm}
use rtcl.Expr.Arith.{floor_div_i64}

suc_times : (q m : ℕ) → (q + 1) * m ≡ q * m + m
suc_times q m = omega arith

div_between : (a m q r : ℕ) → q * m + r ≡ a → r < m → a / m ≡ q
div_between a m q r e h = div-eq_of_lt-le m (omega arith) (omega (arith, suc_times q m))

-- Rounded up.
ceil_exact : (a b : ℕ) → a % suc b ≡ 0 → (a + b) / suc b ≡ a / suc b
ceil_exact a b h =
    div_between (a + b) (suc b) (a / suc b) b (omega (arith, div-add-mod' a (suc b))) (omega arith)

ceil_more : (a b : ℕ) → 0 < a % suc b → (a + b) / suc b ≡ suc (a / suc b)
ceil_more a b h =
    let q = a / suc b in
    let s = suc_times q (suc b) in
    let l = mod-lt a {m = suc b} (omega arith) in
    div_between (a + b) (suc b) (suc q) (a % suc b - 1) (omega (arith, div-add-mod' a (suc b), s))
      (omega arith)

-- One less.
exact_quotient : (q a b : ℕ) → q * suc b ≡ suc a → q ≡ suc (a / suc b)
exact_quotient zero a b h = absurd (omega arith)
exact_quotient (suc q) a b h = ap suc (sym (div_between a (suc b) q b (omega arith) (omega arith)))

floor_exact : (a b : ℕ) → suc a % suc b ≡ 0 → suc a / suc b ≡ suc (a / suc b)
floor_exact a b h = exact_quotient (suc a / suc b) a b (omega (arith, div-add-mod' (suc a) (suc b)))

floor_less : (a b : ℕ) → 0 < suc a % suc b → suc a / suc b ≡ a / suc b
floor_less a b h =
    let l = mod-lt (suc a) {m = suc b} (omega arith) in
    sym (
      div_between a (suc b) (suc a / suc b) (suc a % suc b - 1)
        (omega (arith, div-add-mod' (suc a) (suc b))) (omega arith))

neg_nat-minus_one : (n : ℕ) → neg_nat n -ℤ pos 1 ≡ negsuc n
neg_nat-minus_one zero = refl
neg_nat-minus_one (suc n) = ap negsuc (omega arith)

neg_nat-zero : (n : ℕ) → eqb (neg_nat n) (pos 0) ≡ (n == 0)
neg_nat-zero zero = refl
neg_nat-zero (suc n) = let e : (suc n == 0) ≡ false = ground arith in sym e

pub below_zero : (n : ℕ) → ltb n 0 ≡ false
below_zero n = ground arith

pub and_false : (b : Bool) → (b && false) ≡ false
and_false true = refl
and_false false = refl

pub floor_div-floor_div_i64 :
    (a b : ℤ) → eqb b (pos 0) ≡ false → floor_div a b ≡ some (floor_div_i64 a b)
unfolding floor_div_i64
floor_div-floor_div_i64 (pos a) (pos zero) h = cc
floor_div-floor_div_i64 (pos a) (pos (suc b)) h =
    rw (below_zero a, below_zero (suc b), and_false (not (a % suc b == 0))) refl
floor_div-floor_div_i64 (pos a) (negsuc b) h = elim (Bool-cases (a % suc b == 0)) [
  | inl z ↦
      rw (below_zero a, z)
        (ap (λ n. some (neg_nat n)) (ceil_exact a b ((==_iff (a % suc b) 0).0 z)))
  | inr n ↦
      rw (below_zero a, n)
        (ap some (ap neg_nat (ceil_more a b (ground arith)) ∙ sym (neg_nat-minus_one (a / suc b))))
]
floor_div-floor_div_i64 (negsuc a) (pos zero) h = cc
floor_div-floor_div_i64 (negsuc a) (pos (suc b)) h = elim (Bool-cases (suc a % suc b == 0)) [
  | inl z ↦
      rw (below_zero (suc b), neg_nat-zero (suc a % suc b), z)
        (ap some (ap neg_nat (sym (floor_exact a b ((==_iff (suc a % suc b) 0).0 z)))))
  | inr n ↦
      rw (below_zero (suc b), neg_nat-zero (suc a % suc b), n)
        (ap some (
          ap negsuc (sym (floor_less a b (ground arith)))
          ∙ sym (neg_nat-minus_one (suc a / suc b))))
]
floor_div-floor_div_i64 (negsuc a) (negsuc b) h =
    rw (and_false (not (eqb (neg_nat (suc a % suc b)) (pos 0)))) refl

neg_nat-in_imm : (n : ℕ) → n ≤ 2 ^ 62 → in_imm (neg_nat n) ≡ true
unfolding in_imm
neg_nat-in_imm zero h = refl
neg_nat-in_imm (suc n) h = lt→ltb n (2 ^ 62) (omega arith)

ceil_bound : (a b : ℕ) → (a + b) / suc b ≤ suc (a / suc b)
ceil_bound a b = elim (Bool-cases (a % suc b == 0)) [
  | inl z ↦ omega (arith, ceil_exact a b ((==_iff (a % suc b) 0).0 z))
  | inr n ↦ omega (arith, ceil_more a b (ground arith))
]

double_bound : (q b : ℕ) → q + q ≤ q * suc (suc b)
double_bound q b = omega arith

-- A quotient of immediates fits an immediate, but for the smallest by minus one.
pub quotient_bound :
    (a b : ℤ) (q : ℤ)
    → in_imm a ≡ true
    → (eqb a (negsuc (2 ^ 62 - 1)) && eqb b (negsuc 0)) ≡ false
    → floor_div a b ≡ some q
    → in_imm q ≡ true
unfolding in_imm
quotient_bound (pos a) (pos zero) q h k e = cc
quotient_bound (pos a) (pos (suc b)) q h k e =
    rw (← some-injective (pos (a / suc b)) q e)
      (lt→ltb (a / suc b) (2 ^ 62) (omega (arith, div-le_self a (suc b), ltb→lt a (2 ^ 62) h)))
quotient_bound (pos a) (negsuc b) q h k e = rw (← some-injective (neg_nat ((a + b) / suc b)) q e) (
    neg_nat-in_imm ((a + b) / suc b)
      (omega (arith, ceil_bound a b, div-le_self a (suc b), ltb→lt a (2 ^ 62) h)))
quotient_bound (negsuc a) (pos zero) q h k e = cc
quotient_bound (negsuc a) (pos (suc b)) q h k e =
    rw (← some-injective (negsuc (a / suc b)) q e)
      (lt→ltb (a / suc b) (2 ^ 62) (omega (arith, div-le_self a (suc b), ltb→lt a (2 ^ 62) h)))
quotient_bound (negsuc a) (negsuc zero) q h k e = rw (← some-injective (pos (suc a / 1)) q e) (
    lt→ltb (suc a / 1) (2 ^ 62) (
      let l = ltb→lt a (2 ^ 62) h in
      let n : (a == 2 ^ 62 - 1) ≡ false = ground arith in
      let small : a < 2 ^ 62 - 1 = ground arith in omega (arith, div-one (suc a))))
quotient_bound (negsuc a) (negsuc (suc b)) q h k e =
    rw (← some-injective (pos (suc a / suc (suc b))) q e) (
      lt→ltb (suc a / suc (suc b)) (2 ^ 62) (
        omega (
          arith,
          ltb→lt a (2 ^ 62) h,
          double_bound (suc a / suc (suc b)) b,
          div-add-mod' (suc a) (suc (suc b)),
        )))
