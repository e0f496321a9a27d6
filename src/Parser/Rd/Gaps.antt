-- ===== src/Parser/Rd/Gaps.antt =====
-- What may stand between the commands of a script (crates/rtcl-parser/src/rd), in terms of its
-- characters: blanks, semicolons, line ends and comments.
use rtcl.Prelude.{
  ℕ, ◌≡◌, refl, sym, ◌∙◌, ap, subst, Bool, true, false, ◌&&◌, ◌||◌, [], ◌∷◌, ◌==◌, arith,
  if◌then◌else◌, Bool-cases, inl, inr,
}
use rtcl.Parser.Rd.Token.{
  Chars, Cursor, newline, backslash, semicolon, hash, char_token, return_token, token_at,
  is_any_whitespace, peek, advance, is_at, at_end,
}

-- A space, a tab, a form feed, a line feed, a carriage return or a semicolon.
abbrev pub is_separator : ℕ → Bool
is_separator x = x == 32 || (x == 9 || (x == 12 || (x == 10 || (x == 13 || x == b';'))))

-- A line feed, or one behind a carriage return.
abbrev pub at_line_end : Chars → Bool
at_line_end [] = false
at_line_end (x ∷ []) = x == 10
at_line_end (x ∷ y ∷ s) = x == 10 || (x == 13 && y == 10)

-- Behind a character; a carriage return and a line feed count as one.
abbrev pub past_char : Chars → Chars
past_char [] = []
past_char (x ∷ []) = []
past_char (x ∷ y ∷ s) = if x == 13 && y == 10 then s else y ∷ s

-- The rest of a comment, up to what follows it: it ends with the text or behind the first line end
-- that no backslash escapes.
pub data Comment : Chars → Chars → Type 0 where
  finished : Comment [] []
  line_end : {s : Chars} → at_line_end s ≡ true → Comment s (past_char s)
  escape : {s t : Chars} → Comment (past_char s) t → Comment (92 ∷ s) t
  other_char :
      {x : ℕ} {s t : Chars}
      → at_line_end (x ∷ s) ≡ false
      → (x == 92) ≡ false
      → Comment (past_char (x ∷ s)) t
      → Comment (x ∷ s) t

-- Separators and comments, up to what follows them.
pub data Gap : Chars → Chars → Type 0 where
  no_gap : {s : Chars} → Gap s s
  separator : {x : ℕ} {s t : Chars} → is_separator x ≡ true → Gap s t → Gap (x ∷ s) t
  comment : {s t u : Chars} → Comment s t → Gap t u → Gap (b'#' ∷ s) u

-- A command starts here, or the text ends.
abbrev pub Starts : Chars → Type 0
Starts [] = Unit
Starts (x ∷ s) = (is_separator x ≡ false) × ((x == b'#') ≡ false)

pub Gap-trans : {s t u : Chars} → Gap s t → Gap t u → Gap s u
Gap-trans no_gap h = h
Gap-trans (separator e g) h = separator e (Gap-trans g h)
Gap-trans (comment c g) h = comment c (Gap-trans g h)

token_at-past : (s : Chars) (pos line : ℕ) → (token_at s pos line).1.left ≡ past_char s
unfolding token_at return_token
token_at-past [] pos line = refl
token_at-past (x ∷ []) pos line = ground arith
token_at-past (x ∷ y ∷ s) pos line = ground arith

pub advance-past : (c : Cursor) → (advance c).left ≡ past_char c.left
unfolding advance
advance-past c = token_at-past c.left c.pos c.line

abbrev at : Chars → ℕ → ℕ → Cursor
at s pos line = record { left = s; pos = pos; line = line }

at_end-at : (s : Chars) (pos line : ℕ) → at_end (at s pos line) ≡ true → s ≡ []
unfolding is_at peek token_at return_token char_token
at_end-at [] pos line h = refl
at_end-at (x ∷ []) pos line h = absurd (ground arith)
at_end-at (x ∷ y ∷ s) pos line h = absurd (ground arith)

pub at_end-nil : (c : Cursor) → at_end c ≡ true → c.left ≡ []
at_end-nil c = at_end-at c.left c.pos c.line

newline-at : (s : Chars) (pos line : ℕ) → is_at newline (at s pos line) ≡ at_line_end s
unfolding is_at peek token_at return_token char_token
newline-at [] pos line = refl
newline-at (x ∷ []) pos line = ground arith
newline-at (x ∷ y ∷ s) pos line = ground arith

pub newline-line_end : (c : Cursor) → is_at newline c ≡ at_line_end c.left
newline-line_end c = newline-at c.left c.pos c.line

abbrev pub starts_with : ℕ → Chars → Bool
starts_with d [] = false
starts_with d (x ∷ s) = x == d

backslash-at : (s : Chars) (pos line : ℕ) → is_at backslash (at s pos line) ≡ starts_with 92 s
unfolding is_at peek token_at return_token char_token
backslash-at [] pos line = refl
backslash-at (x ∷ []) pos line = ground arith
backslash-at (x ∷ y ∷ s) pos line = ground arith

pub backslash-starts : (c : Cursor) → is_at backslash c ≡ starts_with 92 c.left
backslash-starts c = backslash-at c.left c.pos c.line

hash-at : (s : Chars) (pos line : ℕ) → is_at hash (at s pos line) ≡ starts_with b'#' s
unfolding is_at peek token_at return_token char_token
hash-at [] pos line = refl
hash-at (x ∷ []) pos line = ground arith
hash-at (x ∷ y ∷ s) pos line = ground arith

pub hash-starts : (c : Cursor) → is_at hash c ≡ starts_with b'#' c.left
hash-starts c = hash-at c.left c.pos c.line

abbrev separates : Chars → Bool
separates [] = false
separates (x ∷ s) = is_separator x

separator-at :
    (s : Chars) (pos line : ℕ)
    → (is_any_whitespace (peek (at s pos line)) || is_at semicolon (at s pos line)) ≡ separates s
unfolding is_at peek token_at return_token char_token is_any_whitespace
separator-at [] pos line = refl
separator-at (x ∷ []) pos line = ground arith
separator-at (x ∷ y ∷ s) pos line = ground arith

pub separator-separates :
    (c : Cursor) → (is_any_whitespace (peek c) || is_at semicolon c) ≡ separates c.left
separator-separates c = separator-at c.left c.pos c.line

-- The steps of the two loops.
past-Gap : (s : Chars) → separates s ≡ true → Gap s (past_char s)
past-Gap [] h = no_gap
past-Gap (x ∷ []) h = separator h no_gap
past-Gap (x ∷ y ∷ s) h = elim (Bool-cases (x == 13 && y == 10)) [
  | inl e ↦
      let lf : is_separator y ≡ true = ground arith in rw e (separator h (separator lf no_gap))
  | inr e ↦ rw e (separator h no_gap)
]

starts-eq : (d : ℕ) (s : Chars) → (d == 13) ≡ false → starts_with d s ≡ true → s ≡ d ∷ past_char s
starts-eq d [] n h = cc
starts-eq d (x ∷ []) n h = let e : x ≡ d = ground arith in ap (λ y. y ∷ []) e
starts-eq d (x ∷ y ∷ s) n h =
    let e : x ≡ d = ground arith in
    let e' : (x == 13) ≡ false = ground arith in rw e' (ap (λ z. z ∷ y ∷ s) e)

escape-step :
    (s t : Chars) → starts_with 92 s ≡ true → Comment (past_char (past_char s)) t → Comment s t
escape-step s t h c = subst (λ u. Comment u t) (sym (starts-eq 92 s refl h)) (escape c)

other-step :
    (s t : Chars)
    → at_line_end s ≡ false
    → starts_with 92 s ≡ false
    → Comment (past_char s) t
    → Comment s t
other-step [] t h k c = c
other-step (x ∷ s) t h k c = other_char h k c

Starts-of : (s : Chars) → separates s ≡ false → starts_with b'#' s ≡ false → Starts s
Starts-of [] h k = tt
Starts-of (x ∷ s) h k = (h, k)

module _ (c : Cursor) where
  pub separator-Gap :
      (is_any_whitespace (peek c) || is_at semicolon c) ≡ true → Gap c.left (advance c).left
  separator-Gap h =
      subst (Gap c.left) (sym (advance-past c)) (past-Gap c.left (sym (separator-separates c) ∙ h))

  pub hash-Gap : (t : Chars) → is_at hash c ≡ true → Comment (advance c).left t → Gap c.left t
  hash-Gap t h k =
      let e = starts-eq b'#' c.left refl (sym (hash-starts c) ∙ h) in
      subst (λ s. Gap s t) (sym e) (comment (subst (λ s. Comment s t) (advance-past c) k) no_gap)

  pub command-Starts :
      (is_any_whitespace (peek c) || is_at semicolon c) ≡ false
      → is_at hash c ≡ false
      → Starts c.left
  command-Starts h k = Starts-of c.left (sym (separator-separates c) ∙ h) (sym (hash-starts c) ∙ k)

  pub end-Comment : at_end c ≡ true → Comment c.left c.left
  end-Comment h = subst (λ s. Comment s s) (sym (at_end-nil c h)) finished

  pub newline-Comment : is_at newline c ≡ true → Comment c.left (advance c).left
  newline-Comment h =
      subst (Comment c.left) (sym (advance-past c)) (line_end (sym (newline-line_end c) ∙ h))

  pub escape-Comment :
      (t : Chars)
      → is_at backslash c ≡ true
      → Comment (advance (advance c)).left t
      → Comment c.left t
  escape-Comment t h k =
      escape-step c.left t (sym (backslash-starts c) ∙ h)
        (subst (λ s. Comment s t) (advance-past (advance c) ∙ ap past_char (advance-past c)) k)

  -- A backslash at the end of the text.
  pub last-Comment :
      (t : Chars)
      → is_at backslash c ≡ true
      → at_end (advance c) ≡ true
      → Comment (advance c).left t
      → Comment c.left t
  last-Comment t h e k =
      let nil = at_end-nil (advance c) e in
      escape-step c.left t (sym (backslash-starts c) ∙ h) (
        subst (λ s. Comment (past_char s) t) (advance-past c)
          (subst (λ s. Comment (past_char s) t) (sym nil) (subst (λ s. Comment s t) nil k)))

  pub other-Comment :
      (t : Chars)
      → is_at newline c ≡ false
      → is_at backslash c ≡ false
      → Comment (advance c).left t
      → Comment c.left t
  other-Comment t h b k =
      other-step c.left t (sym (newline-line_end c) ∙ h) (sym (backslash-starts c) ∙ b)
        (subst (λ s. Comment s t) (advance-past c) k)
