-- ===== src/Util/Glob.antt =====
-- `glob_match`: a pattern and a text are lists of characters, a position in them what is left.
pub mod Relation
pub mod Class
pub mod Correct
pub mod Tests
use rtcl.Prelude.{
  ℕ, zero, suc, ◌+◌, Bool, true, false, ◌&&◌, ◌||◌, List, [], ◌∷◌, Option, none, some, length, ◌==◌,
  leb, if◌then◌else◌,
}

abbrev pub Chars : Type 0
Chars = List ℕ

-- Past the stars that follow a star.
unfoldable pub skip_stars : Chars → Chars
skip_stars [] = []
skip_stars (c ∷ p) = if c == b'*' then skip_stars p else c ∷ p

-- Behind a class that has matched: past its closing bracket, or at the end.
unfoldable pub skip_class : Chars → Chars
skip_class [] = []
skip_class (c ∷ p) = if c == b']' then p else skip_class p

abbrev pub in_range : ℕ → ℕ → ℕ → Bool
in_range a b c = (leb a c && leb c b) || (leb b c && leb c a)

-- The loop over the members of a class, for a character: what follows the class, if it matches.
unfoldable pub match_class : ℕ → Chars → Option Chars
unfolding skip_class
match_class c [] = none
match_class c (a ∷ []) = if a == b']' then none else if a == c then some [] else none
match_class c (a ∷ d ∷ []) =
    if a == b']'
    then none
    else if d == b'-'
    then none
    else if a == c
    then some (skip_class (d ∷ []))
    else match_class c (d ∷ [])
match_class c (a ∷ d ∷ b ∷ p) =
    let after_range = match_class c p in
    let after_one = match_class c (d ∷ b ∷ p) in
    if a == b']'
    then none
    else if d == b'-'
    then (if in_range a b c then some (skip_class p) else after_range)
    else if a == c
    then some (skip_class (d ∷ b ∷ p))
    else after_one

-- The loop of a star: the rest of the pattern at each position, up to the end.
unfoldable pub match_star : (Chars → Bool) → Chars → Bool
match_star rest [] = rest []
match_star rest (c ∷ t) = rest (c ∷ t) || match_star rest t

abbrev pub at_class : (Chars → Chars → Bool) → Chars → Option Chars → Bool
at_class more t none = false
at_class more t (some p) = more p t

abbrev pub at_star : (Chars → Chars → Bool) → Chars → Chars → Bool
at_star more t [] = true
at_star more t (c ∷ p) = match_star (more (c ∷ p)) t

abbrev pub at_quote : (Chars → Chars → Bool) → Chars → ℕ → Chars → Bool
at_quote more [] c t = false
at_quote more (d ∷ p) c t = if d == c then more p t else false

-- One round of `match_helper`; `more` is the rounds and calls that follow.
unfoldable pub match_round : (Chars → Chars → Bool) → Chars → Chars → Bool
unfolding skip_stars match_class match_star
match_round more [] [] = true
match_round more [] (x ∷ t) = false
match_round more (c ∷ p) [] = if c == b'*' then at_star more [] (skip_stars p) else false
match_round more (c ∷ p) (x ∷ t) =
    if c == b'*'
    then at_star more (x ∷ t) (skip_stars p)
    else if c == b'?'
    then more p t
    else if c == b'['
    then at_class more t (match_class x p)
    else if c == 92
    then at_quote more p x t
    else if c == x
    then more p t
    else false

-- `match_helper`; every round takes a character of the pattern at least.
unfoldable pub match_helper : ℕ → Chars → Chars → Bool
unfolding match_round
match_helper zero p t = false
match_helper (suc fuel) p t = match_round (match_helper fuel) p t

unfoldable pub glob_match : Chars → Chars → Bool
unfolding match_helper
glob_match p t = match_helper (length p + 1) p t
