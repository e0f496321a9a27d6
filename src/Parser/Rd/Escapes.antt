-- ===== src/Parser/Rd/Escapes.antt =====
-- Lemmas on how far `backslash_subst` of crates/rtcl-parser/src/rd/escape.rs moves the cursor.
use rtcl.Prelude.{
  ℕ, zero, suc, ◌+◌, ◌*◌, ◌<◌, ◌≡◌, Bool, true, false, ◌&&◌, ◌||◌, [], ◌∷◌, Option, none, some,
  length, ◌==◌, ltb, leb, arith, Bool-cases, Option-cases, inl, inr, if_intro,
}
use rtcl.Parser.Rd.Escape.{
  simple_escape, hex_digit, octal_digit, digit_of, digits_at, parse_hex, escape_char, or_letter,
  octal_char, raw_char, raw_at, simple_or, letter_escape, blank_round, letter_or_raw,
  backslash_subst,
}
use rtcl.Parser.Rd.Groups.{Moved, go_on}
use rtcl.Parser.Rd.Parsed.{Parsed}
use rtcl.Parser.Rd.Reach.{
  Reaches, Reaches-refl, Reaches-trans, Reaches-size, Post-map, Moves-then, advance-Moves,
  advance-Reaches, Post, Round, Post-loop,
}
use rtcl.Parser.Rd.Token.{
  Chars, Cursor, Token, newline, other_char, is_line_whitespace, peek, advance, is_at, at_end,
}

digits_at-Reaches :
    (digit : ℕ → Option ℕ) (base count : ℕ) (found : Bool) (value : ℕ) (c : Cursor)
    → Reaches c (digits_at digit base count found value c).1
unfolding digits_at
digits_at-Reaches digit base zero found value c = Reaches-refl c
digits_at-Reaches digit base (suc count) found value c =
    elim (Option-cases (digit_of digit (other_char (peek c)))) [
      | inl nothing ↦ rw (nothing, digits_at) (Reaches-refl c)
      | inr (d, found_d) ↦
          rw (found_d, digits_at)
            (Reaches-trans (advance-Reaches c)
              (digits_at-Reaches digit base count true (value * base + d) (advance c)))
    ]

parse_hex-Reaches :
    (count : ℕ) (found : Bool) (value : ℕ) (c : Cursor)
    → Reaches c (parse_hex count found value c).1
unfolding parse_hex
parse_hex-Reaches zero found value c = Reaches-refl c
parse_hex-Reaches (suc count) found value c =
    elim (Option-cases (digit_of hex_digit (other_char (peek c)))) [
      | inl nothing ↦ rw (nothing, parse_hex) (Reaches-refl c)
      | inr (d, found_d) ↦ elim (Bool-cases (ltb 0x10FFF value)) [
        | inl big ↦ rw (found_d, big, parse_hex) (Reaches-refl c)
        | inr small ↦
            rw (found_d, small, parse_hex)
              (Reaches-trans (advance-Reaches c)
                (parse_hex-Reaches count true (value * 16 + d) (advance c)))
      ]
    ]

abbrev pub Reached : {A : Type 0} → Cursor → A → Cursor → Type 0
Reached c a d = Reaches c d

or_letter-Reaches :
    (f : ℕ → ℕ) (letter : ℕ) (c : Cursor) (r : Option ℕ × Cursor)
    → Reaches c r.1
    → Post (Reached c) c (or_letter f letter r)
or_letter-Reaches f letter c (none, d) h = h
or_letter-Reaches f letter c (some v, d) h = h

raw_at-Reaches : (s : Chars) (c : Cursor) → Post (Reached c) c (raw_at s c)
raw_at-Reaches [] c = Reaches-refl c
raw_at-Reaches (x ∷ s) c = advance-Reaches c

raw_char-Reaches : (c : Cursor) → Post (Reached c) c (raw_char c)
unfolding raw_char
raw_char-Reaches c = raw_at-Reaches c.left c

simple_or-Reaches :
    (o : Option ℕ) (r : Parsed ℕ) (c : Cursor)
    → Post (Reached c) c r
    → Post (Reached c) c (simple_or o r c)
simple_or-Reaches none r c h = h
simple_or-Reaches (some y) r c h = advance-Reaches c

letter_escape-Reaches : (x : ℕ) (c : Cursor) → Post (Reached c) c (letter_escape x c)
unfolding letter_escape
letter_escape-Reaches x c =
    let P : Parsed ℕ → Type 0 = Post (Reached c) c in
    let ahead = advance-Reaches c in
    simple_or-Reaches (simple_escape x) _ c (
      if_intro P (x == b'x')
        (λ _.
          or_letter-Reaches (λ v. v) b'x' c _
            (Reaches-trans ahead (digits_at-Reaches hex_digit 16 2 false 0 (advance c))))
        λ _.
          if_intro P (x == b'u')
            (λ _.
              or_letter-Reaches escape_char b'u' c _
                (Reaches-trans ahead (parse_hex-Reaches 4 false 0 (advance c))))
            λ _.
              if_intro P (x == b'U')
                (λ _.
                  or_letter-Reaches escape_char b'U' c _
                    (Reaches-trans ahead (parse_hex-Reaches 8 false 0 (advance c))))
                λ _.
                  if_intro P (leb b'0' x && leb x b'7')
                    (λ _.
                      or_letter-Reaches octal_char 0 c _
                        (digits_at-Reaches octal_digit 8 3 false 0 c))
                    (λ _. raw_char-Reaches c))

letter_or_raw-Reaches : (o : Option ℕ) (c : Cursor) → Post (Reached c) c (letter_or_raw o c)
letter_or_raw-Reaches none c = raw_char-Reaches c
letter_or_raw-Reaches (some x) c = letter_escape-Reaches x c

-- A blank is no end.
line_white-open :
    (c : Cursor)
    → (is_line_whitespace (peek c) || is_at Token.whitespace c) ≡ true
    → at_end c ≡ false
unfolding is_line_whitespace is_at
line_white-open c h = ground arith

module _ (limit : ℕ) (c : Cursor) (enough : length c.left < limit) (here : at_end c ≡ false) where
  -- `backslash_subst` takes the backslash at least, and ends.
  pub backslash_subst-Moves : Post (Moved c) c (backslash_subst limit c)
  unfolding backslash_subst
  backslash_subst-Moves =
      let d = advance c in
      let m = advance-Moves c here in
      let P : Parsed ℕ → Type 0 = Post (Moved c) c in
      if_intro P (at_end d) (λ _. m)
        λ h.
          if_intro P (is_at newline d)
            (λ _.
              Post-loop (Moved c) (Moved c) c blank_round
                (λ u e n.
                  if_intro (Post (Round (Moved c) (Moved c) (length e.left)) c)
                    (is_line_whitespace (peek e) || is_at Token.whitespace e)
                    (λ w. go_on c e n (line_white-open e w)) (λ _. n))
                limit tt (advance d) (omega (arith, (Moves-then m (advance-Reaches d)).1))
                (Moves-then m (advance-Reaches d)))
            (λ _.
              Post-map (Reached d) (Moved c) d c _ (Reaches-size c d m.0) (λ _ e r. Moves-then m r)
                (letter_or_raw-Reaches (other_char (peek d)) d))
