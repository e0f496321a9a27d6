-- ===== src/Parser/Rd/Escape.antt =====
-- crates/rtcl-parser/src/rd/escape.rs: backslash sequences.
use rtcl.Prelude.{
  ℕ, zero, suc, ◌+◌, ◌-◌, ◌*◌, Bool, true, false, ◌&&◌, ◌||◌, [], ◌∷◌, Option, none, some, ◌==◌,
  ltb, leb, if◌then◌else◌,
}
use rtcl.Parser.Rd.Parsed.{Parsed, ok, M, Next, again, stop, loop}
use rtcl.Parser.Rd.Token.{
  Chars, Cursor, newline, whitespace, other_char, is_line_whitespace, peek, advance, is_at, at_end,
}

unfoldable pub simple_escape : ℕ → Option ℕ
simple_escape c =
    if c == b'a'
    then some 7
    else if c == b'b'
    then some 8
    else if c == b'f'
    then some 12
    else if c == b'n'
    then some 10
    else if c == b'r'
    then some 13
    else if c == b't'
    then some 9
    else if c == b'v'
    then some 11
    else none

-- `char::to_digit(16)`.
unfoldable pub hex_digit : ℕ → Option ℕ
hex_digit c =
    if leb b'0' c && leb c b'9'
    then some (c - b'0')
    else if leb b'a' c && leb c b'f'
    then some (c - 87)
    else if leb b'A' c && leb c b'F'
    then some (c - 55)
    else none

unfoldable pub octal_digit : ℕ → Option ℕ
octal_digit c = if leb b'0' c && leb c b'7' then some (c - b'0') else none

abbrev pub digit_of : (ℕ → Option ℕ) → Option ℕ → Option ℕ
digit_of digit none = none
digit_of digit (some c) = digit c

-- Digits in a base, at most so many: whether there was one, and their value.
unfoldable pub digits_at : (ℕ → Option ℕ) → ℕ → ℕ → Bool → ℕ → Cursor → Option ℕ × Cursor
unfolding peek advance
digits_at digit base zero found value c = ((if found then some value else none), c)
digits_at digit base (suc count) found value c = elim (digit_of digit (other_char (peek c))) [
  | none ↦ ((if found then some value else none), c)
  | some d ↦ digits_at digit base count true (value * base + d) (advance c)
]

-- `parse_hex`: no more digits once the value is above 0x10FFF.
unfoldable pub parse_hex : ℕ → Bool → ℕ → Cursor → Option ℕ × Cursor
unfolding peek advance hex_digit
parse_hex zero found value c = ((if found then some value else none), c)
parse_hex (suc count) found value c = elim (digit_of hex_digit (other_char (peek c))) [
  | none ↦ ((if found then some value else none), c)
  | some d ↦ elim (ltb 0x10FFF value) [
    | true ↦ ((if found then some value else none), c)
    | false ↦ parse_hex count true (value * 16 + d) (advance c)
  ]
]

unfoldable pub escape_char : ℕ → ℕ
escape_char value =
    if ltb 0xFFFF value || (leb 0xD800 value && leb value 0xDFFF) then 0xFFFD else value

abbrev pub or_letter : (ℕ → ℕ) → ℕ → Option ℕ × Cursor → Parsed ℕ
or_letter f letter (none, c) = ok letter c
or_letter f letter (some v, c) = ok (f v) c

-- An octal value that is no u8 is NUL.
unfoldable pub octal_char : ℕ → ℕ
octal_char v = if ltb v 256 then v else 0

abbrev pub raw_at : Chars → M ℕ
raw_at [] c = ok 92 c
raw_at (x ∷ s) c = ok x (advance c)

-- `advance_char`.
unfoldable pub raw_char : M ℕ
unfolding advance
raw_char c = raw_at c.left c

abbrev pub simple_or : Option ℕ → Parsed ℕ → Cursor → Parsed ℕ
simple_or none rest c = rest
simple_or (some y) rest c = ok y (advance c)

unfoldable pub letter_escape : ℕ → M ℕ
unfolding simple_escape octal_digit digits_at hex_digit parse_hex escape_char octal_char raw_char
    advance
letter_escape x c =
    let other =
      if x == b'x'
      then or_letter (λ v. v) b'x' (digits_at hex_digit 16 2 false 0 (advance c))
      else if x == b'u'
      then or_letter escape_char b'u' (parse_hex 4 false 0 (advance c))
      else if x == b'U'
      then or_letter escape_char b'U' (parse_hex 8 false 0 (advance c))
      else if leb b'0' x && leb x b'7'
      then or_letter octal_char 0 (digits_at octal_digit 8 3 false 0 c)
      else raw_char c in
    simple_or (simple_escape x) other c

abbrev pub blank_round : Unit {0} → M (Next (Unit {0}) ℕ)
blank_round u c =
    if is_line_whitespace (peek c) || is_at whitespace c
    then ok (again tt) (advance c)
    else ok (stop 32) c

abbrev pub letter_or_raw : Option ℕ → M ℕ
letter_or_raw none c = raw_char c
letter_or_raw (some x) c = letter_escape x c

-- At a backslash; `limit` bounds the rounds of the loop over blanks.
unfoldable pub backslash_subst : ℕ → M ℕ
unfolding letter_escape loop is_line_whitespace advance is_at
backslash_subst limit c =
    let d = advance c in
    if at_end d
    then ok 92 d
    else if is_at newline d
    then loop blank_round limit tt (advance d)
    else letter_or_raw (other_char (peek d)) d

abbrev pub skip_blanks : Chars → Chars
skip_blanks [] = []
skip_blanks (c ∷ s) = if c == 32 || c == 9 then skip_blanks s else c ∷ s

-- `process_braced_backslash_newline`; `blanks` says that blanks behind a line end are passed over.
unfoldable pub braced_text : Bool → Chars → Chars
braced_text blanks [] = []
braced_text blanks (c ∷ []) = if blanks && (c == 32 || c == 9) then [] else c ∷ []
braced_text blanks (c ∷ d ∷ []) =
    let rest = braced_text false (d ∷ []) in
    let passed = braced_text true (d ∷ []) in
    if blanks && (c == 32 || c == 9)
    then passed
    else if c == 92 && d == 10
    then 32 ∷ []
    else c ∷ rest
braced_text blanks (c ∷ d ∷ e ∷ s) =
    let rest = braced_text false (d ∷ e ∷ s) in
    let passed = braced_text true (d ∷ e ∷ s) in
    let behind_lf = 32 ∷ braced_text true (e ∷ s) in
    let behind_crlf = 32 ∷ braced_text true s in
    if blanks && (c == 32 || c == 9)
    then passed
    else if c == 92 && (d == 13 && e == 10)
    then behind_crlf
    else if c == 92 && d == 10
    then behind_lf
    else c ∷ rest
