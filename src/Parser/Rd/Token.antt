-- ===== src/Parser/Rd/Token.antt =====
-- crates/rtcl-parser/src/rd/token.rs and cursor.rs: the tokens, and the cursor that reads them. The
-- cursor's current token is what the tokenizer returns at its position; the model computes it where
-- the code keeps it.
use rtcl.Prelude.{
  ℕ, zero, suc, ◌+◌, ◌-◌, Bool, ◌&&◌, ◌||◌, List, [], ◌∷◌, Option, none, some, length, take, ◌==◌,
  ltb, if◌then◌else◌,
}

abbrev pub Chars : Type 0
Chars = List ℕ

pub data Token : Type 0 where
  eof newline carriage_return whitespace backslash dollar : Token
  left_brace right_brace left_bracket right_bracket double_quote : Token
  semicolon hash left_paren right_paren colon asterisk : Token
  other : ℕ → Token

-- A number for each token, to compare tokens by.
abbrev pub tag : Token → ℕ
tag eof = 0
tag newline = 1
tag carriage_return = 2
tag whitespace = 3
tag backslash = 4
tag dollar = 5
tag left_brace = 6
tag right_brace = 7
tag left_bracket = 8
tag right_bracket = 9
tag double_quote = 10
tag semicolon = 11
tag hash = 12
tag left_paren = 13
tag right_paren = 14
tag colon = 15
tag asterisk = 16
tag (other c) = 17 + c

abbrev pub same : Token → Token → Bool
same s t = tag s == tag t

abbrev pub other_char : Token → Option ℕ
other_char (other c) = some c
other_char t = none

unfoldable pub is_line_whitespace : Token → Bool
is_line_whitespace t = same t whitespace || same t carriage_return

unfoldable pub is_any_whitespace : Token → Bool
is_any_whitespace t = same t whitespace || (same t carriage_return || same t newline)

-- The position of the tokenizer, or of the cursor's current token.
pub record Cursor : Type 0 where
  pub left : Chars
  pub pos : ℕ
  pub line : ℕ

unfoldable pub new_cursor : Chars → Cursor
new_cursor input = record { left = input; pos = 0; line = 1 }

unfoldable pub len_utf8 : ℕ → ℕ
len_utf8 c = if ltb c 0x80 then 1 else if ltb c 0x800 then 2 else if ltb c 0x10000 then 3 else 4

-- The token of a character that is no line end.
unfoldable pub char_token : ℕ → Token
char_token c =
    if c == 32 || (c == 9 || c == 12)
    then whitespace
    else if c == 92
    then backslash
    else if c == b'$'
    then dollar
    else if c == b'{'
    then left_brace
    else if c == b'}'
    then right_brace
    else if c == b'['
    then left_bracket
    else if c == b']'
    then right_bracket
    else if c == b'"'
    then double_quote
    else if c == b';'
    then semicolon
    else if c == b'#'
    then hash
    else if c == b'('
    then left_paren
    else if c == b')'
    then right_paren
    else if c == b':'
    then colon
    else if c == b'*'
    then asterisk
    else other c

abbrev moved : Token → Chars → ℕ → ℕ → Token × Cursor
moved t s pos line = (t, record { left = s; pos = pos; line = line })

-- Behind a carriage return.
unfoldable pub return_token : Chars → ℕ → ℕ → Token × Cursor
return_token [] pos line = moved carriage_return [] (pos + 1) line
return_token (c ∷ s) pos line =
    if c == 10
    then moved newline s (pos + 2) (line + 1)
    else moved carriage_return (c ∷ s) (pos + 1) line

unfoldable pub token_at : Chars → ℕ → ℕ → Token × Cursor
unfolding return_token char_token len_utf8
token_at [] pos line = moved eof [] pos line
token_at (c ∷ s) pos line =
    if c == 10
    then moved newline s (pos + 1) (line + 1)
    else if c == 13
    then return_token s pos line
    else moved (char_token c) s (pos + len_utf8 c) line

-- `Tokenizer::next_token`.
unfoldable pub next_token : Cursor → Token × Cursor
unfolding token_at
next_token c = token_at c.left c.pos c.line

unfoldable pub peek : Cursor → Token
unfolding next_token
peek c = (next_token c).0

unfoldable pub advance : Cursor → Cursor
unfolding next_token
advance c = (next_token c).1

unfoldable pub is_at : Token → Cursor → Bool
unfolding peek
is_at t c = same (peek c) t

abbrev pub at_end : Cursor → Bool
at_end c = is_at eof c

unfoldable pub peek_at : ℕ → Cursor → Token
unfolding peek advance
peek_at zero c = peek c
peek_at (suc n) c = peek_at n (advance c)

unfoldable pub at_end_of_command : Bool → Cursor → Bool
unfolding is_at
at_end_of_command bracket_term c =
    at_end c || (is_at newline c || (is_at semicolon c || (bracket_term && is_at right_bracket c)))

-- The text from one position of the cursor to a later one.
unfoldable pub slice : Cursor → Cursor → Chars
slice start c = take (length start.left - length c.left) start.left
