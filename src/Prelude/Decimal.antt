-- ===== src/Prelude/Decimal.antt =====
-- Texts as lists of bytes, and Rust's decimal form of a u64: `to_string` and `str::parse`.
use Prim.Native.Nat.{ℕ, zero, suc, ◌+◌, ◌-◌, ◌*◌, ◌/◌, ◌%◌, ◌^◌, ◌<◌}
use mathlib.Core.Path.{◌≡◌, refl, ap, ◌∙◌}
use mathlib.Core.Logic.{◌≢◌, inl, inr}
use native.Mathlib.Nat.{pow-suc}
use mathlib.Core.Bool.{Bool, true, false, ◌&&◌}
use mathlib.Core.Option.{Option, none, some}
use mathlib.Core.List.{List, [], ◌∷◌, ◌++◌}
use native.Mathlib.Omega.{arith}
use rtcl.Prelude.Tests.{ltb, leb, ◌==◌, if◌then◌else◌, ==_iff, Bool-cases}

abbrev pub Text : Type 0
Text = List ℕ

unfoldable pub eq_text : Text → Text → Bool
eq_text [] [] = true
eq_text [] (d ∷ t) = false
eq_text (c ∷ s) [] = false
eq_text (c ∷ s) (d ∷ t) = (c == d) && eq_text s t

pub eq_text_refl : (s : Text) → eq_text s s ≡ true
unfolding eq_text
eq_text_refl [] = refl
eq_text_refl (c ∷ s) = rw ((==_iff c c).1 refl) (eq_text_refl s)

-- What follows a prefix, if the text starts with it.
unfoldable pub strip_prefix : Text → Text → Option Text
strip_prefix [] t = some t
strip_prefix (c ∷ p) [] = none
strip_prefix (c ∷ p) (d ∷ t) = if c == d then strip_prefix p t else none

pub strip_prefix-append : (p t : Text) → strip_prefix p (p ++ t) ≡ some t
unfolding strip_prefix
strip_prefix-append [] t = refl
strip_prefix-append (c ∷ p) t = rw ((==_iff c c).1 refl) (strip_prefix-append p t)

abbrev pub word_size : ℕ
word_size = 2 ^ 64

-- One digit of the parse, with its checked multiplication and addition.
unfoldable pub push_digit : ℕ → Option ℕ → Option ℕ
push_digit c none = none
push_digit c (some n) =
    if leb b'0' c && leb c b'9'
    then (if ltb (n * 10 + (c - b'0')) word_size then some (n * 10 + (c - b'0')) else none)
    else none

unfoldable pub parse_digits : Option ℕ → Text → Option ℕ
unfolding push_digit
parse_digits acc [] = acc
parse_digits acc (c ∷ s) = parse_digits (push_digit c acc) s

-- `str::parse::<u64>`.
unfoldable pub parse_u64 : Text → Option ℕ
unfolding parse_digits
parse_u64 [] = none
parse_u64 (c ∷ []) = parse_digits (some 0) (c ∷ [])
parse_u64 (c ∷ d ∷ s) =
    if c == b'+' then parse_digits (some 0) (d ∷ s) else parse_digits (some 0) (c ∷ d ∷ s)

-- The digits of a number of at most `fuel` digits.
unfoldable pub digits : ℕ → ℕ → Text
digits zero n = []
digits (suc fuel) n =
    let rest = digits fuel (n / 10) in
    if ltb n 10 then (n + b'0') ∷ [] else rest ++ ((n % 10 + b'0') ∷ [])

-- A u64 has at most twenty digits.
unfoldable pub show_u64 : ℕ → Text
show_u64 n = digits 20 n

parse_digits-append :
    (acc : Option ℕ) (s t : Text) → parse_digits acc (s ++ t) ≡ parse_digits (parse_digits acc s) t
unfolding parse_digits
parse_digits-append acc [] t = refl
parse_digits-append acc (c ∷ s) t = parse_digits-append (push_digit c acc) s t

push_digit-some :
    (n d : ℕ) → d < 10 → n * 10 + d < word_size → push_digit (d + 48) (some n) ≡ some (n * 10 + d)
unfolding push_digit
push_digit-some n d h k = ground arith

n-div : (fuel n : ℕ) → n < 10 ^ suc fuel → n / 10 < 10 ^ fuel
n-div fuel n h = omega (arith, pow-suc 10 fuel)

parse_digits-digits :
    (fuel n : ℕ) → n < 10 ^ fuel → n < word_size → parse_digits (some 0) (digits fuel n) ≡ some n
unfolding parse_digits digits
parse_digits-digits zero n h k = ap some (omega arith)
parse_digits-digits (suc fuel) n h k = elim (Bool-cases (ltb n 10)) [
  | inl small ↦ rw small (push_digit-some 0 n (ground arith) (ground arith) ∙ ap some (omega arith))
  | inr large ↦ rw large (
      parse_digits-append (some 0) (digits fuel (n / 10)) ((n % 10 + 48) ∷ [])
      ∙ ap (push_digit (n % 10 + 48))
          (parse_digits-digits fuel (n / 10) (n-div fuel n h) (omega arith))
      ∙ push_digit-some (n / 10) (n % 10) (omega arith) (omega arith)
      ∙ ap some (omega arith))
]

parse_digits-none : (s : Text) → parse_digits none s ≡ none
unfolding parse_digits
parse_digits-none [] = refl
parse_digits-none (c ∷ s) = parse_digits-none s

-- A text that starts with a sign is no digits.
parse_digits-ne_sign :
    (c : ℕ) (s : Text) {n : ℕ} → parse_digits (some 0) (c ∷ s) ≡ some n → (c == b'+') ≡ false
unfolding parse_digits
parse_digits-ne_sign c s h = elim (Bool-cases (c == b'+')) [
  | inl sign ↦ ground (arith, parse_digits-none s)
  | inr other ↦ other
]

parse_u64_of_digits :
    (s : Text) {n : ℕ} → s ≢ [] → parse_digits (some 0) s ≡ some n → parse_u64 s ≡ some n
unfolding parse_u64
parse_u64_of_digits [] full h = absurd (full refl)
parse_u64_of_digits (c ∷ []) full h = h
parse_u64_of_digits (c ∷ d ∷ s) full h = rw (parse_digits-ne_sign c (d ∷ s) h) h

append-ne_nil : (s : Text) (c : ℕ) → s ++ (c ∷ []) ≢ []
append-ne_nil [] c e = cc
append-ne_nil (d ∷ s) c e = cc

digits-ne_nil : (fuel n : ℕ) → digits (suc fuel) n ≢ []
unfolding digits
digits-ne_nil fuel n e = elim (Bool-cases (ltb n 10)) [
  | inl small ↦ cc (rw small at e)
  | inr large ↦ append-ne_nil (digits fuel (n / 10)) _ (rw large at e)
]

-- Printing a u64 and parsing it gives the number.
pub parse_u64-show_u64 : (n : ℕ) → n < word_size → parse_u64 (show_u64 n) ≡ some n
unfolding show_u64
parse_u64-show_u64 n h =
    parse_u64_of_digits (digits 20 n) (digits-ne_nil 19 n)
      (parse_digits-digits 20 n (omega arith) h)
