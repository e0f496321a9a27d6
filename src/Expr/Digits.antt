-- ===== src/Expr/Digits.antt =====
-- crates/rtcl-vm/src/value.rs, `as_int_from_string`: a text read as an i64. The tests of a text that
-- types/bignum.rs makes in `parse_literal`.
use rtcl.Prelude.{
  ℕ, ◌+◌, ◌-◌, ◌*◌, ◌^◌, Bool, true, false, ◌&&◌, ◌||◌, [], ◌∷◌, Option, none, some, ◌==◌, ltb, leb,
  if◌then◌else◌,
}
use rtcl.Prelude.Int.{ℤ, pos, neg, neg_nat}
use rtcl.Ir.Peephole.Fold.{in_i64, from_word, wrap_i64}
use rtcl.Parser.Rd.Token.{len_utf8}
use rtcl.Expr.Numbers.{Text}

-- `char::is_whitespace`
unfoldable pub is_whitespace : ℕ → Bool
is_whitespace c =
    (leb 9 c && leb c 13)
    || (c == 32
        || (c == 0x85
            || (c == 0xA0
                || (c == 0x1680
                    || ((leb 0x2000 c && leb c 0x200A)
                        || (c == 0x2028
                            || (c == 0x2029 || (c == 0x202F || (c == 0x205F || c == 0x3000)))))))))

unfoldable pub trim_start : Text → Text
unfolding is_whitespace
trim_start [] = []
trim_start (c ∷ s) = if is_whitespace c then trim_start s else c ∷ s

abbrev pub end_with : ℕ → Text → Text
end_with c [] = if is_whitespace c then [] else c ∷ []
end_with c (d ∷ s) = c ∷ d ∷ s

unfoldable pub trim_end : Text → Text
unfolding is_whitespace
trim_end [] = []
trim_end (c ∷ s) = end_with c (trim_end s)

unfoldable pub trim : Text → Text
unfolding trim_start trim_end
trim s = trim_end (trim_start s)

-- `char::to_digit`
unfoldable pub to_digit : ℕ → ℕ → Option ℕ
to_digit radix c =
    let d =
      if leb b'0' c && leb c b'9'
      then c - b'0'
      else if leb b'a' c && leb c b'z'
      then c - 87
      else if leb b'A' c && leb c b'Z'
      then c - 55
      else radix in
    if ltb d radix then some d else none

abbrev pub next_digit : ℕ → Option ℕ → Option ℕ → Option ℕ
next_digit radix none d = none
next_digit radix (some n) none = none
next_digit radix (some n) (some d) = some (n * radix + d)

unfoldable pub read_digits : ℕ → Option ℕ → Text → Option ℕ
unfolding to_digit
read_digits radix acc [] = acc
read_digits radix acc (c ∷ s) = read_digits radix (next_digit radix acc (to_digit radix c)) s

-- Digits, one at least.
unfoldable pub unsigned : ℕ → Text → Option ℕ
unfolding read_digits
unsigned radix [] = none
unsigned radix (c ∷ s) = read_digits radix (some 0) (c ∷ s)

abbrev pub map_int : (ℕ → ℤ) → Option ℕ → Option ℤ
map_int f none = none
map_int f (some n) = some (f n)

abbrev pub if_i64 : Option ℤ → Option ℤ
if_i64 none = none
if_i64 (some z) = if in_i64 z then some z else none

-- `i64::from_str_radix`
unfoldable pub from_str_radix : ℕ → Text → Option ℤ
unfolding unsigned in_i64
from_str_radix radix [] = none
from_str_radix radix (c ∷ s) = if_i64 (
    if c == b'-'
    then map_int neg_nat (unsigned radix s)
    else if c == b'+'
    then map_int pos (unsigned radix s)
    else map_int pos (unsigned radix (c ∷ s)))

unfoldable pub wrapping_neg : ℤ → ℤ
unfolding wrap_i64
wrapping_neg z = wrap_i64 (neg z)

abbrev pub negated : Bool → Option ℤ → Option ℤ
negated is_neg none = none
negated is_neg (some z) = some (if is_neg then wrapping_neg z else z)

-- A sign, and what is behind it.
abbrev pub sign_body : Text → Bool × Text
sign_body [] = (false, [])
sign_body (c ∷ s) =
    if c == b'-' then (true, s) else if c == b'+' then (false, s) else (false, c ∷ s)

-- `0x`, `0o` or `0b`, and what is behind it.
abbrev pub prefix_radix : Text → Option (ℕ × Text)
prefix_radix [] = none
prefix_radix (a ∷ []) = none
prefix_radix (a ∷ b ∷ s) =
    if a == b'0'
    then if b == b'x' || b == b'X'
      then some (16, s)
      else if b == b'o' || b == b'O'
      then some (8, s)
      else if b == b'b' || b == b'B'
      then some (2, s)
      else none
    else none

unfoldable pub all_octal : Text → Bool
all_octal [] = true
all_octal (c ∷ s) = (leb b'0' c && leb c b'7') && all_octal s

abbrev pub of_u64 : Option ℕ → Option ℤ
of_u64 none = none
of_u64 (some n) = if ltb n (2 ^ 64) then some (from_word n) else none

-- A leading zero says octal.
abbrev pub plain_int : Bool → Text → Text → Option ℤ
plain_int is_neg s [] = from_str_radix 10 s
plain_int is_neg s (a ∷ []) = from_str_radix 10 s
plain_int is_neg s (a ∷ b ∷ t) =
    if a == b'0'
    then (if all_octal (b ∷ t) then negated is_neg (of_u64 (unsigned 8 (b ∷ t))) else none)
    else from_str_radix 10 s

abbrev pub radix_int : Bool → Text → Text → Option (ℕ × Text) → Option ℤ
radix_int is_neg s body none = plain_int is_neg s body
radix_int is_neg s body (some (radix, digits)) = negated is_neg (from_str_radix radix digits)

unfoldable pub as_int_from_string : Text → Option ℤ
unfolding trim from_str_radix wrapping_neg all_octal unsigned
as_int_from_string t =
    let s = trim t in
    let (is_neg, body) = sign_body s in radix_int is_neg s body (prefix_radix body)

-- The bytes of a text are more than two.
abbrev pub text_size : Text → ℕ
text_size [] = 0
text_size (c ∷ s) = len_utf8 c + text_size s

-- The second byte ends a character.
abbrev pub splits_at_two : Text → Bool
splits_at_two [] = false
splits_at_two (c ∷ []) = len_utf8 c == 2
splits_at_two (c ∷ d ∷ s) = len_utf8 c == 2 || (len_utf8 c == 1 && len_utf8 d == 1)

unfoldable pub all_digits : ℕ → Text → Bool
unfolding to_digit
all_digits radix [] = true
all_digits radix (c ∷ s) =
    ((leb b'0' c && leb c b'9') && ltb (c - b'0') radix) && all_digits radix s
