-- ===== src/Parser/Agree/Tokens.antt =====
-- Tokens of crates/rtcl-parser/src/rd beside the brace scan of crates/rtcl-parser/src/completeness.rs:
-- what a token takes, the scan passes over.
use rtcl.Prelude.{
  ℕ, ◌≡◌, refl, Bool, false, [], ◌∷◌, ◌==◌, arith, if◌then◌else◌, Bool-cases, inl, inr,
}
use rtcl.Parser.Complete.{skip_braces}
use rtcl.Parser.Rd.Token.{
  Chars, Cursor, Token, eof, left_brace, right_brace, backslash, char_token, token_at, return_token,
  peek, advance, is_at, at_end, same,
}
use rtcl.Parser.Agree.Bytes.{utf8, Plain, skip_char}

-- What the token at a character leaves.
abbrev pub behind_lf : Chars → Chars
behind_lf [] = []
behind_lf (d ∷ s) = if d == 10 then s else d ∷ s

abbrev pub behind_token : Chars → Chars
behind_token [] = []
behind_token (c ∷ s) = if c == 13 then behind_lf s else s

token_at-left : (s : Chars) (pos line : ℕ) → (token_at s pos line).1.left ≡ behind_token s
unfolding token_at
token_at-left [] pos line = refl
token_at-left (c ∷ []) pos line = ground arith
token_at-left (c ∷ d ∷ s) pos line = ground arith

pub advance-left : (c : Cursor) → (advance c).left ≡ behind_token c.left
unfolding advance
advance-left c = token_at-left c.left c.pos c.line

-- Line feeds behind a carriage return are passed over by the scan too.
pub skip_lf :
    (depth : ℕ) (s : Chars)
    → skip_braces false depth (utf8 s) ≡ skip_braces false depth (utf8 (behind_lf s))
skip_lf depth [] = refl
skip_lf depth (d ∷ s) = elim (Bool-cases (d == 10)) [
  | inl lf ↦ rw lf (skip_char depth d (utf8 s) (ground arith, ground arith, ground arith))
  | inr other ↦ rw other
]

abbrev pub at_char : ℕ → Chars → ℕ → ℕ → Cursor
at_char x s pos line = record { left = x ∷ s; pos = pos; line = line }

-- What the parser asks of a token in a braced word.
abbrev pub Sees : Bool → Bool → Bool → Token → Type 0
Sees opens closes escapes t =
    (same t eof ≡ false)
    × (same t left_brace ≡ opens)
    × (same t right_brace ≡ closes)
    × (same t backslash ≡ escapes)

return_Sees : (s : Chars) (pos line : ℕ) → Sees false false false (return_token s pos line).0
unfolding return_token
return_Sees [] pos line = (refl, refl, refl, refl)
return_Sees (d ∷ s) pos line = elim (Bool-cases (d == 10)) [
  | inl lf ↦ rw lf (refl, refl, refl, refl)
  | inr other ↦ rw other (refl, refl, refl, refl)
]

char_Sees : (x : ℕ) → Plain x → Sees false false false (char_token x)
unfolding char_token
char_Sees x p = (ground arith, ground arith, ground arith, ground arith)

return_some : (s : Chars) (pos line : ℕ) → same (return_token s pos line).0 eof ≡ false
return_some s pos line = (return_Sees s pos line).0

char_some : (x : ℕ) → same (char_token x) eof ≡ false
unfolding char_token
char_some x = ground arith

token_some : (x : ℕ) (s : Chars) (pos line : ℕ) → same (token_at (x ∷ s) pos line).0 eof ≡ false
unfolding token_at
token_some x s pos line = elim (Bool-cases (x == 10)) [
  | inl lf ↦ rw lf
  | inr no_lf ↦ elim (Bool-cases (x == 13)) [
    | inl cr ↦ rw (no_lf, cr) (return_some s pos line)
    | inr no_cr ↦ rw (no_lf, no_cr) (char_some x)
  ]
]

-- A character is no end.
pub open_end : (x : ℕ) (s : Chars) (pos line : ℕ) → at_end (at_char x s pos line) ≡ false
unfolding is_at
open_end x s pos line = token_some x s pos line

Plain-Sees :
    (x : ℕ) (s : Chars) (pos line : ℕ)
    → Plain x
    → Sees false false false (token_at (x ∷ s) pos line).0
unfolding token_at
Plain-Sees x s pos line p = elim (Bool-cases (x == 10)) [
  | inl lf ↦ rw lf (refl, refl, refl, refl)
  | inr no_lf ↦ elim (Bool-cases (x == 13)) [
    | inl cr ↦ rw (no_lf, cr) (return_Sees s pos line)
    | inr no_cr ↦ rw (no_lf, no_cr) (char_Sees x p)
  ]
]

abbrev pub cursor : Chars → ℕ → ℕ → Cursor
cursor s pos line = record { left = s; pos = pos; line = line }

pub peek-Sees :
    (x : ℕ) (s : Chars) (pos line : ℕ)
    → Plain x
    → Sees false false false (peek (at_char x s pos line))
unfolding peek
peek-Sees x s pos line p = Plain-Sees x s pos line p
