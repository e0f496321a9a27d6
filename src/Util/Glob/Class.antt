-- ===== src/Util/Glob/Class.antt =====
-- Lemmas on `match_class`, the class arm of `glob_match` (crates/rtcl-vm/src/interp/util.rs), beside the
-- relation of Util/Glob/Relation.
use rtcl.Prelude.{
  ℕ, ◌≡◌, ◌∙◌, sym, refl, ap, subst, true, false, ◌&&◌, [], ◌∷◌, some, ◌==◌, leb, arith, Bool-cases,
  inl, inr, if◌then◌else◌,
}
use mathlib.Core.Option.{some-injective}
use rtcl.Util.Glob.{Chars, in_range, skip_class, match_class}
use rtcl.Util.Glob.Relation.{
  Between, Closes, at_end, at_bracket, later, NoDash, InClass, member, range, past_member,
  past_range,
}

in_range-Between : (a b x : ℕ) → in_range a b x ≡ true → Between a x b
in_range-Between a b x h = elim (Bool-cases (leb a x && leb x b)) [
  | inl e ↦ inl (ground arith, ground arith)
  | inr e ↦ inr (ground arith, ground arith)
]

Between-in_range : (a b x : ℕ) → Between a x b → in_range a b x ≡ true
Between-in_range a b x (inl (h, k)) = ground arith
Between-in_range a b x (inr (h, k)) = ground arith

outside : (a b x : ℕ) → in_range a b x ≡ false → ¬ Between a x b
outside a b x h k = let e = Between-in_range a b x k in ground arith

outside-in_range : (a b x : ℕ) → ¬ Between a x b → in_range a b x ≡ false
outside-in_range a b x h = elim (Bool-cases (in_range a b x)) [
  | inl e ↦ absurd (h (in_range-Between a b x e))
  | inr e ↦ e
]

skip_class-Closes : (p : Chars) → Closes p (skip_class p)
unfolding skip_class
skip_class-Closes [] = at_end
skip_class-Closes (c ∷ p) = elim (Bool-cases (c == b']')) [
  | inl e ↦ let e' : c ≡ b']' = ground arith in rw e' at_bracket
  | inr e ↦ let n : ¬ (c ≡ b']') = λ q. ground arith in rw e (later n (skip_class-Closes p))
]

Closes-skip_class : {p p' : Chars} → Closes p p' → skip_class p ≡ p'
unfolding skip_class
Closes-skip_class at_end = refl
Closes-skip_class at_bracket = refl
Closes-skip_class (later {c = c} n k) =
    let e : (c == b']') ≡ false = ground arith in rw e (Closes-skip_class k)

-- One member, and what the code does behind it.
match_class-member :
    (x a : ℕ) (p : Chars)
    → (a == b']') ≡ false
    → NoDash p
    → match_class x (a ∷ p) ≡ (if a == x then some (skip_class p) else match_class x p)
unfolding match_class skip_class
match_class-member x a [] h n = rw h refl
match_class-member x a (d ∷ []) h n = let e : (d == b'-') ≡ false = ground arith in rw (h, e) refl
match_class-member x a (d ∷ b ∷ p) h n =
    let e : (d == b'-') ≡ false = ground arith in rw (h, e) refl

match_class-range :
    (x a b : ℕ) (p : Chars)
    → (a == b']') ≡ false
    → match_class x (a ∷ b'-' ∷ b ∷ p)
      ≡ (if in_range a b x then some (skip_class p) else match_class x p)
unfolding match_class
match_class-range x a b p h = rw h refl

closed_at : (x a : ℕ) (p p' : Chars) → (a == b']') ≡ true → match_class x (a ∷ p) ≡ some p' → ⊥
unfolding match_class
closed_at x a [] p' e h = ground arith
closed_at x a (d ∷ []) p' e h = ground arith
closed_at x a (d ∷ b ∷ p) p' e h = ground arith

-- The members and ranges of a class, each taken with its remaining pattern.
data Members : Chars → Type 0 where
  none_left : Members []
  one : {a : ℕ} {p : Chars} → NoDash p → Members p → Members (a ∷ p)
  lone_dash : {a : ℕ} → Members (a ∷ b'-' ∷ [])
  range_of : {a b : ℕ} {p : Chars} → Members p → Members (a ∷ b'-' ∷ b ∷ p)

-- The two ways to go on, for a class and what is left of it.
members : (p : Chars) → Members p
members [] = none_left
members (a ∷ []) = one tt none_left
members (a ∷ d ∷ []) = elim (Bool-cases (d == b'-')) [
  | inl e ↦ let e' : d ≡ b'-' = ground arith in rw e' lone_dash
  | inr e ↦ one (λ q. ground arith) (members (d ∷ []))
]
members (a ∷ d ∷ b ∷ p) =
    let rest = members p in
    let next = members (d ∷ b ∷ p) in
    elim (Bool-cases (d == b'-')) [
      | inl e ↦ let e' : d ≡ b'-' = ground arith in rw e' (range_of rest)
      | inr e ↦ one (λ q. ground arith) next
    ]

sound_of : (x : ℕ) (p p' : Chars) → Members p → match_class x p ≡ some p' → InClass x p p'
unfolding match_class
sound_of x _ p' none_left h = cc
sound_of x _ p' (lone_dash {a = a}) h = absurd (ground arith)
sound_of x _ p' (one {a = a} {p = p} n m) h = elim (Bool-cases (a == b']')) [
  | inl e ↦ absurd (closed_at x a p p' e h)
  | inr e ↦
      let k = sym (match_class-member x a p e n) ∙ h in
      let n' : ¬ (a ≡ b']') = λ q. ground arith in
      elim (Bool-cases (a == x)) [
        | inl f ↦
            let f' : a ≡ x = ground arith in
            let k' : skip_class p ≡ p' = some-injective _ _ (rw f at k) in
            subst (λ y. InClass x (y ∷ p) p') (sym f')
              (member (λ q. n' (f' ∙ q)) n (subst (Closes p) k' (skip_class-Closes p)))
        | inr f ↦ past_member n' (λ q. ground arith) n (sound_of x p p' m (rw f at k))
      ]
]
sound_of x _ p' (range_of {a = a} {b = b} {p = p} m) h = elim (Bool-cases (a == b']')) [
  | inl e ↦ absurd (closed_at x a (b'-' ∷ b ∷ p) p' e h)
  | inr e ↦
      let k = sym (match_class-range x a b p e) ∙ h in
      let n' : ¬ (a ≡ b']') = λ q. ground arith in
      elim (Bool-cases (in_range a b x)) [
        | inl f ↦
            let k' : skip_class p ≡ p' = some-injective _ _ (rw f at k) in
            range n' (in_range-Between a b x f) (subst (Closes p) k' (skip_class-Closes p))
        | inr f ↦ past_range n' (outside a b x f) (sound_of x p p' m (rw f at k))
      ]
]

pub match_class_sound : (x : ℕ) (p p' : Chars) → match_class x p ≡ some p' → InClass x p p'
match_class_sound x p p' = sound_of x p p' (members p)

pub match_class_complete : (x : ℕ) (p p' : Chars) → InClass x p p' → match_class x p ≡ some p'
match_class_complete x _ p' (member {p = p} n d c) =
    let e : (x == b']') ≡ false = ground arith in
    let e' : (x == x) ≡ true = ground arith in
    let k = match_class-member x x p e d in rw e' at k ∙ ap some (Closes-skip_class c)
match_class_complete x _ p' (range {a = a} {b = b} {p = p} n h c) =
    let e : (a == b']') ≡ false = ground arith in
    let k = match_class-range x a b p e in
    rw (Between-in_range a b x h) at k ∙ ap some (Closes-skip_class c)
match_class_complete x _ p' (past_member {a = a} {p = p} n m d c) =
    let e : (a == b']') ≡ false = ground arith in
    let e' : (a == x) ≡ false = ground arith in
    let k = match_class-member x a p e d in rw e' at k ∙ match_class_complete x p p' c
match_class_complete x _ p' (past_range {a = a} {b = b} {p = p} n h c) =
    let e : (a == b']') ≡ false = ground arith in
    let k = match_class-range x a b p e in
    rw (outside-in_range a b x h) at k ∙ match_class_complete x p p' c
