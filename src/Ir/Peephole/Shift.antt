-- ===== src/Ir/Peephole/Shift.antt =====
-- Which shifted values fit an i64.
use native.Mathlib.Nat.{
  mul_assoc, mul-le-mul_right, mod-eq_of_lt, le-div_iff_mul-le, pow-suc, lt_of_mul-lt-mul_right,
  one-le-pow, pow-le-pow_right, div-eq_of_lt,
}
use rtcl.Prelude.{
  ℕ, zero, suc, ◌+◌, ◌-◌, ◌*◌, ◌/◌, ◌%◌, ◌^◌, ◌≡◌, ◌≤◌, ◌<◌, refl, sym, ap, ◌∙◌, subst, true, false,
  ◌||◌, ◌==◌, leb, ltb, arith, inl, inr, ltb→lt, lt→ltb, ◌⊎◌,
}
use rtcl.Prelude.Int.{ℤ, pos, negsuc, neg_nat, ◌*ℤ◌}
use rtcl.Ir.Peephole.Fold.{in_i64, wrap_i64, shift_fits}

pub in_i64→lt : (n : ℕ) → (in_i64 (pos n) ≡ true) → n < 2 ^ 63
unfolding in_i64
in_i64→lt n h = ltb→lt n (2 ^ 63) h

pub in_i64→lt_negsuc : (n : ℕ) → (in_i64 (negsuc n) ≡ true) → n < 2 ^ 63
unfolding in_i64
in_i64→lt_negsuc n h = ltb→lt n (2 ^ 63) h

pub pos-in_i64 : (n : ℕ) → n < 2 ^ 63 → in_i64 (pos n) ≡ true
unfolding in_i64
pos-in_i64 n h = lt→ltb n (2 ^ 63) h

pub negsuc-in_i64 : (n : ℕ) → n < 2 ^ 63 → in_i64 (negsuc n) ≡ true
unfolding in_i64
negsuc-in_i64 n h = lt→ltb n (2 ^ 63) h

pub wrap_i64-id : (z : ℤ) → in_i64 z ≡ true → wrap_i64 z ≡ z
unfolding wrap_i64
wrap_i64-id (pos n) h =
    let b = in_i64→lt n h in
    let e : n % 2 ^ 64 ≡ n = mod-eq_of_lt (omega (arith, b)) in rw (e, lt→ltb n (2 ^ 63) b) refl
wrap_i64-id (negsuc n) h =
    let b = in_i64→lt_negsuc n h in
    let e : n % 2 ^ 64 ≡ n = mod-eq_of_lt (omega (arith, b)) in
    let big : ltb (2 ^ 64 - 1 - n) (2 ^ 63) ≡ false = ground arith in
    let back : 2 ^ 64 - 1 - (2 ^ 64 - 1 - n) ≡ n = omega (arith, b) in rw (e, big) (ap negsuc back)

suc_mul : (a d : ℕ) → suc a * d ≡ a * d + d
suc_mul a d = omega arith

pow-add : (n m : ℕ) → 2 ^ (n + m) ≡ 2 ^ n * 2 ^ m
pow-add n zero =
    let e : n + 0 ≡ n = omega arith in
    let o : 2 ^ n ≡ 2 ^ n * 1 = omega arith in ap (λ k. 2 ^ k) e ∙ o
pow-add n (suc m) =
    let e : n + suc m ≡ suc (n + m) = omega arith in
    ap (λ k. 2 ^ k) e
    ∙ pow-suc 2 (n + m)
    ∙ ap (λ k. k * 2) (pow-add n m)
    ∙ mul_assoc (2 ^ n) (2 ^ m) 2
    ∙ ap (λ k. 2 ^ n * k) (sym (pow-suc 2 m))

pow-pos : (n : ℕ) → 0 < 2 ^ n
pow-pos n = one-le-pow n 2 (omega arith)

-- The bound of `shift_fits`, as a product.
shift_bound : (a n : ℕ) → n < 64 → a ≤ (2 ^ 63 - 1) / 2 ^ n → suc a * 2 ^ n ≤ 2 ^ 63
shift_bound a n l h =
    let d = 2 ^ n in
    let q = 2 ^ (63 - n) in
    let below : a * d ≤ 2 ^ 63 - 1 = (le-div_iff_mul-le (pow-pos n)).0 h in
    let e : 63 - n + n ≡ 63 = omega (arith, l) in
    let whole : q * d ≡ 2 ^ 63 = sym (pow-add (63 - n) n) ∙ ap (λ k. 2 ^ k) e in
    let strict : a * d < q * d = omega (arith, below, whole) in
    let less : a < q = lt_of_mul-lt-mul_right d strict in
    let bound : suc a * d ≤ q * d = mul-le-mul_right d less in
    subst (λ k. suc a * d ≤ k) whole bound

neg_nat-in_i64 : (k : ℕ) → k ≤ 2 ^ 63 → in_i64 (neg_nat k) ≡ true
neg_nat-in_i64 zero h = pos-in_i64 0 (omega arith)
neg_nat-in_i64 (suc k) h = negsuc-in_i64 k (omega (arith, h))

shift_fits-cases :
    (a n : ℕ)
    → (n == 0 || leb a ((2 ^ 63 - 1) / 2 ^ n)) ≡ true
    → (n ≡ 0) ⊎ (a ≤ (2 ^ 63 - 1) / 2 ^ n)
shift_fits-cases a n h = ground arith

-- Below its bound, a shifted value is an i64.
pub shift-in_i64 :
    (a : ℤ) (n : ℕ)
    → n < 64
    → in_i64 a ≡ true
    → shift_fits a n ≡ true
    → in_i64 (a *ℤ pos (2 ^ n)) ≡ true
shift-in_i64 (pos a) n l h k = elim (shift_fits-cases a n k) [
  | inl e ↦
      let e' : a ≡ a * 2 ^ n = subst (λ j. a ≡ a * 2 ^ j) (sym e) (omega arith) in
      subst (λ k. in_i64 (pos k) ≡ true) e' h
  | inr b ↦
      let s = shift_bound a n l b in
      let c : suc a * 2 ^ n ≡ a * 2 ^ n + 2 ^ n = suc_mul a (2 ^ n) in
      pos-in_i64 (a * 2 ^ n) (omega (arith, s, c, pow-pos n))
]
shift-in_i64 (negsuc a) n l h k = elim (shift_fits-cases a n k) [
  | inl e ↦
      let e' : suc a ≡ suc a * 2 ^ n = subst (λ j. suc a ≡ suc a * 2 ^ j) (sym e) (omega arith) in
      subst (λ k. in_i64 (neg_nat k) ≡ true) e' h
  | inr b ↦ neg_nat-in_i64 (suc a * 2 ^ n) (shift_bound a n l b)
]

pub lt_pow : (a n : ℕ) → a < 2 ^ 63 → 64 ≤ n → a / 2 ^ n ≡ 0
lt_pow a n h l =
    let p : 2 ^ 63 ≤ 2 ^ n = pow-le-pow_right {n = 2} (omega arith) {i = 63} (omega (arith, l)) in
    div-eq_of_lt (omega (arith, p, h))
