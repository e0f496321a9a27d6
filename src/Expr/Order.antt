-- ===== src/Expr/Order.antt =====
-- Comparisons of crates/rtcl-vm/src/types/expr_ops.rs on two i64.
use rtcl.Prelude.{
  ℕ, ◌≡◌, refl, sym, subst, Bool, true, false, not, some, ◌==◌, ltb, arith, if◌then◌else◌, if_intro,
  Bool-cases, inl, inr, ◌⊎◌,
}
use rtcl.Prelude.Int.{ℤ, pos, negsuc, eqb, ltbℤ}
use rtcl.Expr.Numbers.{BigInt, Floats, Ordering, less, equal, greater}
use rtcl.Expr.Value.{Value, imm, int, small, in_imm, ok, from_imm, from_int, int_rep, as_int}
use rtcl.Expr.Compare.{compare_int, holds, cmp_bool}
use rtcl.Expr.Exact.{retag-id}

-- Exactly one of three.
abbrev Trichotomy : Bool → Bool → Bool → Type 0
Trichotomy lt eq gt =
    ((lt ≡ true) × (eq ≡ false) × (gt ≡ false))
    ⊎ (((lt ≡ false) × (eq ≡ true) × (gt ≡ false)) ⊎ ((lt ≡ false) × (eq ≡ false) × (gt ≡ true)))

Trichotomy-ltb : (a b : ℕ) → Trichotomy (ltb a b) (a == b) (ltb b a)
Trichotomy-ltb a b = elim (Bool-cases (ltb a b)) [
  | inl l ↦ inl (l, ground arith, ground arith)
  | inr n ↦ elim (Bool-cases (a == b)) [
    | inl e ↦ inr (inl (n, e, ground arith))
    | inr d ↦ inr (inr (n, d, ground arith))
  ]
]

Trichotomy-ltbℤ : (a b : ℤ) → Trichotomy (ltbℤ a b) (eqb a b) (ltbℤ b a)
Trichotomy-ltbℤ (pos a) (pos b) = Trichotomy-ltb a b
Trichotomy-ltbℤ (pos a) (negsuc b) = inr (inr (refl, refl, refl))
Trichotomy-ltbℤ (negsuc a) (pos b) = inl (refl, refl, refl)
Trichotomy-ltbℤ (negsuc a) (negsuc b) = elim (Trichotomy-ltb a b) [
  | inl l ↦ inr (inr (l.2, l.1, l.0))
  | inr (inl e) ↦ inr (inl (e.2, e.1, e.0))
  | inr (inr g) ↦ inl (g.2, g.1, g.0)
]

-- What each comparison says of two integers.
abbrev pub Holds : Ordering → Bool → Bool → Bool → Type 0
Holds o lt eq gt =
    (holds 0 o ≡ lt)
    × (holds 1 o ≡ gt)
    × (holds 2 o ≡ not gt)
    × (holds 3 o ≡ not lt)
    × (holds 4 o ≡ eq)
    × (holds 5 o ≡ not eq)

Holds-Trichotomy :
    (lt eq gt : Bool)
    → Trichotomy lt eq gt
    → Holds (if lt then less else if eq then equal else greater) lt eq gt
Holds-Trichotomy lt eq gt (inl h) = rw (h.0, h.1, h.2) (refl, refl, refl, refl, refl, refl)
Holds-Trichotomy lt eq gt (inr (inl h)) = rw (h.0, h.1, h.2) (refl, refl, refl, refl, refl, refl)
Holds-Trichotomy lt eq gt (inr (inr h)) = rw (h.0, h.1, h.2) (refl, refl, refl, refl, refl, refl)

pub Holds-compare_int : (a b : ℤ) → Holds (compare_int a b) (ltbℤ a b) (eqb a b) (ltbℤ b a)
Holds-compare_int a b = Holds-Trichotomy (ltbℤ a b) (eqb a b) (ltbℤ b a) (Trichotomy-ltbℤ a b)

module _ {B F : Type 0} (bigs : BigInt B) (floats : Floats F) where
  -- An i64 as a value is an immediate or a box.
  pub from_int-elim :
      (P : Value F → Type 0) (n : ℤ)
      → (in_imm n ≡ true → P (imm n))
      → P (int n)
      → P (from_int bigs floats n)
  unfolding from_int from_imm
  from_int-elim P n i b =
      if_intro P (in_imm n) (λ h. subst (λ k. P (imm k)) (sym (retag-id n h)) (i h)) (λ _. b)

  pub int_rep-from_int :
      (n : ℤ) → int_rep bigs floats (from_int bigs floats n) ≡ ok (some (small n))
  unfolding int_rep
  int_rep-from_int n =
      from_int-elim (λ v. int_rep bigs floats v ≡ ok (some (small n))) n (λ _. refl) refl

  pub as_int-from_int : (n : ℤ) → as_int bigs floats (from_int bigs floats n) ≡ some n
  unfolding as_int
  as_int-from_int n = from_int-elim (λ v. as_int bigs floats v ≡ some n) n (λ _. refl) refl

  -- No integer is a NaN.
  abbrev pub IntegersCompare : Type 0
  IntegersCompare = (n : ℤ) → floats.is_nan (floats.of_i64 n) ≡ false

  pub cmp_bool-from_int :
      (cc : ℕ) (a b : ℤ)
      → IntegersCompare
      → cmp_bool bigs floats cc (from_int bigs floats a) (from_int bigs floats b)
        ≡ ok (holds cc (compare_int a b))
  unfolding cmp_bool
  cmp_bool-from_int cc a b law =
      from_int-elim
        (λ v. cmp_bool bigs floats cc v (from_int bigs floats b) ≡ ok (holds cc (compare_int a b)))
        a
        (λ _.
          from_int-elim (λ w. cmp_bool bigs floats cc (imm a) w ≡ ok (holds cc (compare_int a b))) b
            (λ _. refl) (rw (law a, law b) refl))
        (from_int-elim (λ w. cmp_bool bigs floats cc (int a) w ≡ ok (holds cc (compare_int a b))) b
          (λ _. rw (law a, law b) refl) (rw (law a, law b) refl))
