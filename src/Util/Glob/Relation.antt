-- ===== src/Util/Glob/Relation.antt =====
-- What a pattern means, as a relation.
use rtcl.Prelude.{
  ℕ, ◌≡◌, false, [], ◌∷◌, some, ◌==◌, length, ◌≤◌, ◌⊎◌, arith, if_intro, Bool-cases, inl, inr,
}
use rtcl.Util.Glob.{Chars, skip_stars, skip_class, match_class}

-- A character that stands for itself.
abbrev pub IsLiteral : ℕ → Type 0
IsLiteral c =
    ((c == b'*') ≡ false) × ((c == b'?') ≡ false) × ((c == b'[') ≡ false) × ((c == 92) ≡ false)

-- The character is in the range, whichever bound is written first.
abbrev pub Between : ℕ → ℕ → ℕ → Type 0
Between a x b = ((a ≤ x) × (x ≤ b)) ⊎ ((b ≤ x) × (x ≤ a))

-- A class ends behind the first closing bracket, or with the pattern.
pub data Closes : Chars → Chars → Type 0 where
  at_end : Closes [] []
  at_bracket : {p : Chars} → Closes (b']' ∷ p) p
  later : {c : ℕ} {p p' : Chars} → ¬ (c ≡ b']') → Closes p p' → Closes (c ∷ p) p'

-- No range starts with the member before.
abbrev pub NoDash : Chars → Type 0
NoDash [] = Unit
NoDash (d ∷ p) = ¬ (d ≡ b'-')

-- The character is a member of the class that starts here or in one of its ranges, and `p'` follows
-- the class. The first member or range that it is in counts.
pub data InClass (x : ℕ) : Chars → Chars → Type 0 where
  member : {p p' : Chars} → ¬ (x ≡ b']') → NoDash p → Closes p p' → InClass x (x ∷ p) p'
  range :
      {a b : ℕ} {p p' : Chars}
      → ¬ (a ≡ b']')
      → Between a x b
      → Closes p p'
      → InClass x (a ∷ b'-' ∷ b ∷ p) p'
  past_member :
      {a : ℕ} {p p' : Chars}
      → ¬ (a ≡ b']')
      → ¬ (a ≡ x)
      → NoDash p
      → InClass x p p'
      → InClass x (a ∷ p) p'
  past_range :
      {a b : ℕ} {p p' : Chars}
      → ¬ (a ≡ b']')
      → ¬ Between a x b
      → InClass x p p'
      → InClass x (a ∷ b'-' ∷ b ∷ p) p'

pub data Matches : Chars → Chars → Type 0 where
  done : Matches [] []
  star_none : {p t : Chars} → Matches p t → Matches (b'*' ∷ p) t
  star_one : {x : ℕ} {p t : Chars} → Matches (b'*' ∷ p) t → Matches (b'*' ∷ p) (x ∷ t)
  any : {x : ℕ} {p t : Chars} → Matches p t → Matches (b'?' ∷ p) (x ∷ t)
  class : {x : ℕ} {p p' t : Chars} → InClass x p p' → Matches p' t → Matches (b'[' ∷ p) (x ∷ t)
  quoted : {x : ℕ} {p t : Chars} → Matches p t → Matches (92 ∷ x ∷ p) (x ∷ t)
  literal : {x : ℕ} {p t : Chars} → IsLiteral x → Matches p t → Matches (x ∷ p) (x ∷ t)

pub data Suffix : Chars → Chars → Type 0 where
  here : {t : Chars} → Suffix t t
  there : {x : ℕ} {u t : Chars} → Suffix u t → Suffix u (x ∷ t)

pub Suffix-nil : (t : Chars) → Suffix [] t
Suffix-nil [] = here
Suffix-nil (x ∷ t) = there (Suffix-nil t)

-- A star matches whatever stands before a suffix that the rest matches.
pub Matches-star : {p u t : Chars} → Suffix u t → Matches p u → Matches (b'*' ∷ p) t
Matches-star here m = star_none m
Matches-star (there s) m = star_one (Matches-star s m)

pub Matches-skip_stars : (p : Chars) {t : Chars} → Matches (skip_stars p) t → Matches p t
unfolding skip_stars
Matches-skip_stars [] m = m
Matches-skip_stars (c ∷ p) {t = t} m = elim (Bool-cases (c == b'*')) [
  | inl e ↦
      let e' : c ≡ b'*' = ground arith in
      let m' : Matches (skip_stars p) t = rw e at m in rw e' (star_none (Matches-skip_stars p m'))
  | inr e ↦ rw e at m
]

-- What follows the leading stars matches a suffix.
pub Matches-suffix :
    {p t : Chars} → Matches p t → (u : Chars) × Suffix u t × Matches (skip_stars p) u
unfolding skip_stars
Matches-suffix done = ([], here, done)
Matches-suffix (star_none m) = Matches-suffix m
Matches-suffix (star_one m) = let (u, s, r) = Matches-suffix m in (u, there s, r)
Matches-suffix {t = t} (any m) = (t, here, any m)
Matches-suffix {t = t} (class e m) = (t, here, class e m)
Matches-suffix {t = t} (quoted m) = (t, here, quoted m)
Matches-suffix {t = t} (literal {x = x} l m) = (t, here, rw l.0 (literal l m))

pub length-skip_stars : (p : Chars) → length (skip_stars p) ≤ length p
unfolding skip_stars
length-skip_stars [] = omega arith
length-skip_stars (c ∷ p) =
    if_intro (λ (q : Chars). length q ≤ length (c ∷ p)) (c == b'*') {x = skip_stars p} {y = c ∷ p}
      (λ _. omega (arith, length-skip_stars p)) (λ _. omega arith)

length-skip_class : (p : Chars) → length (skip_class p) ≤ length p
unfolding skip_class
length-skip_class [] = omega arith
length-skip_class (c ∷ p) =
    if_intro (λ (q : Chars). length q ≤ length (c ∷ p)) (c == b']') {x = p} {y = skip_class p}
      (λ _. omega arith) (λ _. omega (arith, length-skip_class p))

pub length-match_class : (c : ℕ) (p p' : Chars) → match_class c p ≡ some p' → length p' ≤ length p
unfolding match_class
length-match_class c [] p' h = cc
length-match_class c (a ∷ []) p' h = ground arith
length-match_class c (a ∷ d ∷ []) p' h =
    ground (arith, length-skip_class (d ∷ []), length-match_class c (d ∷ []) p')
length-match_class c (a ∷ d ∷ b ∷ p) p' h = ground (
  arith,
  length-skip_class p,
  length-skip_class (d ∷ b ∷ p),
  length-match_class c p p',
  length-match_class c (d ∷ b ∷ p) p',
)
