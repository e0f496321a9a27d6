-- ===== src/Parser/Agree/Braces.antt =====
-- The braced words of crates/rtcl-parser/src/rd/word.rs beside the brace scan of
-- crates/rtcl-parser/src/completeness.rs. The one reads characters, the other their bytes.
use rtcl.Prelude.{
  ℕ, zero, suc, ◌+◌, ◌≤◌, ◌<◌, ◌≡◌, refl, sym, ap, ◌∙◌, subst, true, false, [], ◌∷◌, Option, none,
  some, length, ◌==◌, ==_iff, arith, Bool-cases, if_intro, inl, inr,
}
use rtcl.Parser.Complete.{Text, skip_braces}
use rtcl.Parser.Rd.Group.{past_escape, braced_round, parse_braced_word}
use rtcl.Parser.Rd.Parsed.{Parsed, ok, err, out_of_fuel, missing_close_brace, loop}
use rtcl.Parser.Rd.Groups.{past_escape-Moves}
use rtcl.Parser.Rd.Reach.{not-at_end, advance-Moves}
use rtcl.Parser.Rd.Token.{Chars, Cursor, backslash, peek, advance, is_at}
use rtcl.Parser.Agree.Bytes.{utf8, utf8_char, Plain, skip_char, skip_escaped}
use rtcl.Parser.Agree.Tokens.{
  behind_token, advance-left, skip_lf, at_char, Sees, open_end, cursor, peek-Sees,
}

-- A braced word and the scan behind its brace: they end at the same place, or neither finds the end
-- and the error reports the brace at `c`.
abbrev pub Agrees : Cursor → Parsed Chars → Option Text → Type 0
Agrees c (ok t d) o = o ≡ some (utf8 d.left)
Agrees c (err e) o =
    (o ≡ none) × (e.message ≡ missing_close_brace) × (e.line ≡ c.line) × (e.offset ≡ c.pos)
Agrees c out_of_fuel o = ⊥

Agrees-eq :
    (c : Cursor) {r r' : Parsed Chars} {o o' : Option Text}
    → r ≡ r'
    → o ≡ o'
    → Agrees c r' o'
    → Agrees c r o
Agrees-eq c {r'} {o} p q a = subst (λ x. Agrees c x o) (sym p) (subst (Agrees c r') (sym q) a)

module _ (limit : ℕ) (c start : Cursor) (opener : start.pos ≡ c.pos + 1) where
  abbrev scan : ℕ → ℕ → Cursor → Parsed Chars
  scan fuel depth e = loop (braced_round limit c.line start) fuel depth e

  end_step : (fuel depth pos line : ℕ) → Agrees c (scan (suc fuel) depth (cursor [] pos line)) none
  unfolding loop is_at
  end_step fuel depth pos line = (refl, refl, refl, omega (arith, opener))

  open_step :
      (fuel depth pos line : ℕ) (s : Chars)
      → scan (suc fuel) depth (cursor (b'{' ∷ s) pos line)
        ≡ scan fuel (depth + 1) (cursor s (pos + 1) line)
  unfolding loop is_at advance
  open_step fuel depth pos line s = refl

  close_last :
      (fuel pos line : ℕ) (s : Chars)
      → Agrees c (scan (suc fuel) 1 (cursor (b'}' ∷ s) pos line)) (some (utf8 s))
  unfolding loop is_at advance
  close_last fuel pos line s = refl

  close_step :
      (fuel n pos line : ℕ) (s : Chars)
      → scan (suc fuel) (suc (suc n)) (cursor (b'}' ∷ s) pos line)
        ≡ scan fuel (suc n) (cursor s (pos + 1) line)
  unfolding loop is_at advance
  close_step fuel n pos line s =
      let more : (suc (suc n) == 1) ≡ false = ground arith in
      rw more (ap (λ depth. scan fuel depth (cursor s (pos + 1) line)) (omega arith))

  escape_step :
      (fuel depth pos line : ℕ) (s : Chars)
      → scan (suc fuel) depth (cursor (92 ∷ s) pos line)
        ≡ scan fuel depth (past_escape (cursor (92 ∷ s) pos line))
  unfolding loop is_at past_escape
  escape_step fuel depth pos line s = refl

  plain_step :
      (fuel depth : ℕ) (e : Cursor)
      → Sees false false false (peek e)
      → scan (suc fuel) depth e ≡ scan fuel depth (advance e)
  unfolding loop is_at
  plain_step fuel depth e (more, opens, closes, escapes) = rw (more, opens, closes, escapes)

  -- The scan, one character at a time.
  skip_open :
      (depth : ℕ) (s : Chars)
      → skip_braces false depth (utf8 (b'{' ∷ s)) ≡ skip_braces false (suc depth) (utf8 s)
  unfolding skip_braces utf8_char
  skip_open depth s = refl

  skip_close :
      (n : ℕ) (s : Chars)
      → skip_braces false (suc (suc n)) (utf8 (b'}' ∷ s)) ≡ skip_braces false (suc n) (utf8 s)
  unfolding skip_braces utf8_char
  skip_close n s =
      let more : (suc (suc n) == 1) ≡ false = ground arith in
      rw more (ap (λ depth. skip_braces false depth (utf8 s)) (omega arith))

  skip_close_last : (s : Chars) → skip_braces false 1 (utf8 (b'}' ∷ s)) ≡ some (utf8 s)
  unfolding skip_braces utf8_char
  skip_close_last s = refl

  skip_token :
      (depth : ℕ) (x : ℕ) (s : Chars)
      → skip_braces false depth (utf8 s) ≡ skip_braces false depth (utf8 (behind_token (x ∷ s)))
  skip_token depth x s =
      if_intro (λ t. skip_braces false depth (utf8 s) ≡ skip_braces false depth (utf8 t)) (x == 13)
        (λ _. skip_lf depth s) (λ _. refl)

  skip_backslash :
      (depth : ℕ) (s : Chars)
      → skip_braces false depth (utf8 (92 ∷ s)) ≡ skip_braces true depth (utf8 s)
  unfolding skip_braces utf8_char
  skip_backslash depth s = refl

  skip_end : (depth : ℕ) → skip_braces true depth [] ≡ skip_braces false depth []
  unfolding skip_braces
  skip_end depth = refl

  past_nothing : (pos line : ℕ) → (past_escape (cursor (92 ∷ []) pos line)).left ≡ []
  unfolding past_escape advance is_at
  past_nothing pos line = refl

  past_char :
      (pos line x : ℕ) (s : Chars)
      → (past_escape (cursor (92 ∷ x ∷ s) pos line)).left ≡ behind_token (x ∷ s)
  unfolding past_escape advance
  past_char pos line x s =
      rw (open_end x s (pos + 1) line) (advance-left (cursor (x ∷ s) (pos + 1) line))

  skip_past :
      (depth pos line : ℕ) (s : Chars)
      → skip_braces false depth (utf8 (92 ∷ s))
        ≡ skip_braces false depth (utf8 (past_escape (cursor (92 ∷ s) pos line)).left)
  skip_past depth pos line [] =
      skip_backslash depth []
      ∙ skip_end depth
      ∙ ap (λ t. skip_braces false depth (utf8 t)) (sym (past_nothing pos line))
  skip_past depth pos line (x ∷ s) =
      skip_backslash depth (x ∷ s)
      ∙ skip_escaped depth x (utf8 s)
      ∙ skip_token depth x s
      ∙ ap (λ t. skip_braces false depth (utf8 t)) (sym (past_char pos line x s))

  closing :
      (fuel n pos line : ℕ) (s : Chars)
      → ((m : ℕ)
          → Agrees c
              (scan fuel (suc m) (cursor s (pos + 1) line))
              (skip_braces false (suc m) (utf8 s)))
      → Agrees c
          (scan (suc fuel) (suc n) (cursor (b'}' ∷ s) pos line))
          (skip_braces false (suc n) (utf8 (b'}' ∷ s)))
  closing fuel zero pos line s more =
      subst (Agrees c _) (sym (skip_close_last s)) (close_last fuel pos line s)
  closing fuel (suc n) pos line s more =
      Agrees-eq c (close_step fuel n pos line s) (skip_close n s) (more n)

  past-shorter :
      (pos line : ℕ) (s : Chars) → length (past_escape (cursor (92 ∷ s) pos line)).left ≤ length s
  unfolding is_at
  past-shorter pos line s =
      let m =
        past_escape-Moves (cursor (92 ∷ s) pos line)
          (not-at_end backslash (cursor (92 ∷ s) pos line) refl refl) in
      omega (arith, m.1)

  advance-shorter :
      (x : ℕ) (s : Chars) (pos line : ℕ) → length (advance (at_char x s pos line)).left ≤ length s
  advance-shorter x s pos line =
      let m = advance-Moves (at_char x s pos line) (open_end x s pos line) in omega (arith, m.1)

  skip_none : (depth : ℕ) → skip_braces false depth [] ≡ none
  unfolding skip_braces
  skip_none depth = refl

  Agrees-scan :
      (fuel n : ℕ) (s : Chars) (pos line : ℕ)
      → length s < fuel
      → Agrees c (scan fuel (suc n) (cursor s pos line)) (skip_braces false (suc n) (utf8 s))
  Agrees-scan zero n s pos line h = absurd (omega arith)
  Agrees-scan (suc fuel) n [] pos line h =
      subst (Agrees c _) (sym (skip_none (suc n))) (end_step fuel (suc n) pos line)
  Agrees-scan (suc fuel) n (x ∷ s) pos line h =
      let P : ℕ → Type 0 = λ y.
        Agrees c (scan (suc fuel) (suc n) (cursor (y ∷ s) pos line))
          (skip_braces false (suc n) (utf8 (y ∷ s))) in
      elim (Bool-cases (x == b'{')) [
        | inl opens ↦ subst P (sym ((==_iff x b'{').0 opens)) (
            Agrees-eq c
              (open_step fuel (suc n) pos line s
                ∙ ap (λ d. scan fuel d (cursor s (pos + 1) line)) (omega arith))
              (skip_open (suc n) s) (Agrees-scan fuel (suc n) s (pos + 1) line (omega arith)))
        | inr no_open ↦ elim (Bool-cases (x == b'}')) [
          | inl closes ↦
              subst P (sym ((==_iff x b'}').0 closes))
                (closing fuel n pos line s (λ m. Agrees-scan fuel m s (pos + 1) line (omega arith)))
          | inr no_close ↦ elim (Bool-cases (x == 92)) [
            | inl escapes ↦ subst P (sym ((==_iff x 92).0 escapes)) (
                let e = past_escape (cursor (92 ∷ s) pos line) in
                Agrees-eq c (escape_step fuel (suc n) pos line s) (skip_past (suc n) pos line s)
                  (Agrees-scan fuel n e.left e.pos e.line (omega (arith, past-shorter pos line s))))
            | inr no_escape ↦
                let e = advance (at_char x s pos line) in
                let p : Plain x = (no_open, no_close, no_escape) in
                Agrees-eq c
                  (plain_step fuel (suc n) (at_char x s pos line) (peek-Sees x s pos line p))
                  (skip_char (suc n) x (utf8 s) p
                    ∙ skip_token (suc n) x s
                    ∙ ap (λ t. skip_braces false (suc n) (utf8 t))
                        (sym (advance-left (at_char x s pos line))))
                  (Agrees-scan fuel n e.left e.pos e.line
                    (omega (arith, advance-shorter x s pos line)))
          ]
        ]
      ]

-- A braced word of the parser and the brace scan of the completeness check end behind the same
-- brace; where there is none, both say so, and the parser's error reports the line and the offset of
-- the brace that is open.
pub Agrees-parse_braced_word :
    (limit : ℕ) (s : Chars) (pos line : ℕ)
    → length s < limit
    → Agrees
        (record { left = b'{' ∷ s; pos = pos; line = line })
        (parse_braced_word limit (record { left = b'{' ∷ s; pos = pos; line = line }))
        (skip_braces false 1 (utf8 s))
unfolding parse_braced_word
Agrees-parse_braced_word limit s pos line h =
    let c = cursor (b'{' ∷ s) pos line in
    Agrees-scan limit c (cursor s (pos + 1) line) refl limit 0 s (pos + 1) line h
