-- ===== src/Parser/Rd/Located.antt =====
-- Lemmas on how far the commands of crates/rtcl-parser/src/rd/mod.rs move the cursor, and on the
-- places that they record.
use rtcl.Prelude.{
  ℕ, ◌+◌, ◌-◌, ◌%◌, ◌^◌, ◌≤◌, ◌<◌, ◌≡◌, ◌≢◌, ◌⊎◌, refl, sym, ◌∙◌, subst, ltb, Bool, true, false,
  ◌&&◌, ◌||◌, List, [], ◌∷◌, ◌++◌, length, length-append, arith, inl, inr, if_intro, All,
}
use rtcl.Parser.Rd.Parsed.{loop}
use rtcl.Parser.Rd.Parts.{Worded, parse_next_word-Worded, Worded-Reaches}
use rtcl.Parser.Rd.Reach.{
  Reaches, Reaches-refl, Reaches-trans, Reaches-size, Reaches-length, Moves, Moves-then,
  advance-Moves, advance-Reaches, Post, Post-behind, Post-map, Round, Post-loop, text_size,
}
use rtcl.Parser.Rd.Script.{
  SrcSpan, Command, span, text_end, last_is_terminator, skip_line_whitespace, command_round,
  past_terminator, finish_command, parse_command,
}
use rtcl.Parser.Rd.Token.{
  Cursor, newline, semicolon, right_bracket, is_line_whitespace, peek, is_at, at_end,
  at_end_of_command, slice,
}
use rtcl.Parser.Rd.Word.{Word, CharTables, parse_next_word}
use rtcl.Parser.Rd.Skips.{
  Started, Started-Reaches, Started-Moves, Skipped, skip_line_whitespace-Skipped,
}

-- A span between two offsets.
abbrev pub SpanIn : ℕ → ℕ → SrcSpan → Type 0
SpanIn lo hi s = (lo ≤ s.start) × (s.start ≤ s.end) × (s.end ≤ hi)

pub All-snoc {ℓ} :
    {A : Type ℓ} (P : A → Type 0) (xs : List A) (x : A) → All P xs → P x → All P (xs ++ (x ∷ []))
All-snoc P [] x a p = (p, tt)
All-snoc P (y ∷ xs) x a p = (a.0, All-snoc P xs x a.1 p)

snoc-some : {A : Type 0} (xs : List A) (x : A) → xs ++ (x ∷ []) ≢ []
snoc-some [] x e = cc
snoc-some (y ∷ xs) x e = cc

or_true : (a b : Bool) → a ≡ false → (a || b) ≡ true → b ≡ true
or_true true b n h = cc
or_true false b n h = h

Skipped-Started :
    (limit : ℕ) (d f : Cursor) (enough : length d.left < limit)
    → Skipped limit d enough tt f
    → Started d f
Skipped-Started limit d f enough (inl h) = inl h.1
Skipped-Started limit d f enough (inr m) = inr m

Skipped-Moves :
    (limit : ℕ) (d f : Cursor) (enough : length d.left < limit)
    → Skipped limit d enough tt f
    → is_line_whitespace (peek d) ≡ true
    → Moves d f
Skipped-Moves limit d f enough (inl h) w = cc
Skipped-Moves limit d f enough (inr m) w = m

module _ (tables : CharTables) (limit : ℕ) (bracket_term : Bool) (c : Cursor)
    (enough : length c.left < limit) (small : text_size c < 2 ^ 32) where
  -- The words of a command, each with its span.
  abbrev pub Spans : List Word × List SrcSpan → Type 0
  Spans p = (length p.0 ≡ length p.1) × All (SpanIn c.pos (text_size c)) p.1

  abbrev CommandInv : List Word × List SrcSpan → Cursor → Type 0
  CommandInv p e = Started c e × Spans p × ((e ≡ c) ⊎ (p.0 ≢ []))

  abbrev CommandStop : List Word × List SrcSpan → Cursor → Type 0
  CommandStop p e =
      Started c e × Spans p × ((e ≡ c) ⊎ (p.0 ≢ [])) × (at_end_of_command bracket_term e ≡ true)

  -- A word and the blanks behind it take a character.
  word_and_blanks :
      (e d f : Cursor) (w : Word)
      → at_end_of_command bracket_term e ≡ false
      → Worded bracket_term e w d
      → Started d f
      → (is_line_whitespace (peek d) ≡ true → Moves d f)
      → Moves e f
  word_and_blanks e d f w open_end (inl stuck) st skip =
      let white = or_true (at_end_of_command bracket_term e) _ open_end stuck.0 in
      subst (λ x. Moves x f) stuck.1
        (skip (subst (λ x. is_line_whitespace (peek x) ≡ true) (sym stuck.1) white))
  word_and_blanks e d f w open_end (inr m) st skip = Moves-then m (Started-Reaches d f st)

  add_span :
      (p : List Word × List SrcSpan) (w : Word) (e d : Cursor)
      → Reaches c e
      → Reaches e d
      → Spans p
      → Spans (p.0 ++ (w ∷ []), p.1 ++ (span e.pos d.pos ∷ []))
  add_span p w e d r q s = (
    omega (arith, length-append {0} p.0 (w ∷ []), length-append {0} p.1 (span e.pos d.pos ∷ [])),
    All-snoc (SpanIn c.pos (text_size c)) p.1 (span e.pos d.pos) s.1
        (omega (arith, Reaches-size c e r, Reaches-size e d q, r.pos_eq, q.pos_eq)),
  )

  command_round-Round :
      (p : List Word × List SrcSpan) (e : Cursor)
      → CommandInv p e
      → Post
          (Round CommandInv CommandStop (length e.left))
          c
          (command_round tables limit bracket_term p e)
  command_round-Round p e i =
      let r = Started-Reaches c e i.0 in
      let room : length e.left < limit = omega (arith, Reaches-length c e r) in
      let R = Round CommandInv CommandStop (length e.left) in
      if_intro (Post R c) (at_end_of_command bracket_term e) (λ h. (i.0, i.1, i.2, h))
        λ open_end.
          Post-behind (Worded bracket_term e) R c
            (parse_next_word tables limit limit bracket_term e) _
            (Post-map (Worded bracket_term e) (Worded bracket_term e) e c _ (Reaches-size c e r)
              (λ _ _ z. z) (parse_next_word-Worded tables limit bracket_term limit e room room))
            λ w d worded.
              let q = Worded-Reaches tables limit bracket_term e w d worded in
              let room' : length d.left < limit = omega (arith, Reaches-length e d q) in
              Post-behind (Skipped limit d room') R c (skip_line_whitespace limit d) _
                (Post-map (Skipped limit d room') (Skipped limit d room') d c _
                  (Reaches-size c d (Reaches-trans r q)) (λ _ _ z. z)
                  (skip_line_whitespace-Skipped limit d room'))
                λ u f skipped.
                  let m =
                    word_and_blanks e d f w open_end worded
                      (Skipped-Started limit d f room' skipped)
                      (Skipped-Moves limit d f room' skipped) in
                  (
                    (
                      inr (Started-Moves c e f i.0 m),
                      add_span p w e d r q i.1,
                      inr (snoc-some p.0 w),
                    ),
                    m.1,
                  )

  -- Where a command stands and what it records.
  abbrev pub CommandAt : Command → Cursor → Type 0
  CommandAt cmd d =
      Reaches c d
      × (cmd.line ≡ c.line)
      × (cmd.text.start ≡ c.pos)
      × (c.pos ≤ cmd.text.end)
      × (cmd.text.end ≤ text_size c)
      × Spans (cmd.words, cmd.word_srcs)
      × (at_end c ≡ false → (bracket_term && is_at right_bracket c) ≡ false → Moves c d)
      × (at_end_of_command bracket_term c ≡ false → cmd.words ≢ [])
      × ((cmd.text.end ≡ d.pos) ⊎ (cmd.text.end + 1 ≡ d.pos))

  text_end-bounds : (d : Cursor) → c.pos ≤ d.pos → (c.pos ≤ text_end c d) × (text_end c d ≤ d.pos)
  unfolding text_end
  text_end-bounds d h = ground arith

  -- The text of a command ends with it, or before its terminator.
  text_end-cases : (d : Cursor) → (text_end c d ≡ d.pos) ⊎ (text_end c d + 1 ≡ d.pos)
  unfolding text_end
  text_end-cases d =
      if_intro (λ (n : ℕ). (n ≡ d.pos) ⊎ (n + 1 ≡ d.pos))
        (ltb c.pos d.pos && last_is_terminator (slice c d)) {x = d.pos - 1} {y = d.pos}
        (λ h. inr (ground arith)) (λ _. inl refl)

  span_end-cases :
      (n k : ℕ) → n < 2 ^ 32 → (n ≡ k) ⊎ (n + 1 ≡ k) → (n % 2 ^ 32 ≡ k) ⊎ (n % 2 ^ 32 + 1 ≡ k)
  span_end-cases n k h (inl e) = inl (omega arith)
  span_end-cases n k h (inr e) = inr (omega arith)

  words_there :
      (p : List Word × List SrcSpan) (e : Cursor)
      → CommandStop p e
      → at_end_of_command bracket_term c ≡ false
      → p.0 ≢ []
  words_there p e (st, spans, inr some_words, ends) open_end = some_words
  words_there p e (st, spans, inl same_e, ends) open_end =
      let here = subst (λ x. at_end_of_command bracket_term x ≡ true) same_e ends in
      let x : true ≡ false = sym here ∙ open_end in cc

  terminator-open : (e : Cursor) → (is_at newline e || is_at semicolon e) ≡ true → at_end e ≡ false
  unfolding is_at
  terminator-open e h = ground arith

  past_terminator-Reaches : (e : Cursor) → Reaches e (past_terminator e)
  unfolding past_terminator
  past_terminator-Reaches e =
      if_intro (Reaches e) (is_at newline e || is_at semicolon e) (λ _. advance-Reaches e)
        (λ _. Reaches-refl e)

  -- A command that starts at its end has a terminator to take.
  past_terminator-Moves :
      at_end_of_command bracket_term c ≡ true
      → at_end c ≡ false
      → (bracket_term && is_at right_bracket c) ≡ false
      → Moves c (past_terminator c)
  unfolding past_terminator at_end_of_command
  past_terminator-Moves ends here no_bracket =
      if_intro (Moves c) (is_at newline c || is_at semicolon c)
        (λ h. advance-Moves c (terminator-open c h)) (λ none_here. absurd (ground arith))

  from_start :
      (p : List Word × List SrcSpan) (e : Cursor)
      → CommandStop p e
      → at_end c ≡ false
      → (bracket_term && is_at right_bracket c) ≡ false
      → Moves c (past_terminator e)
  from_start p e (inr m, spans, some_words, ends) here no_bracket =
      Moves-then m (past_terminator-Reaches e)
  from_start p e (inl same_e, spans, some_words, ends) here no_bracket =
      subst (λ x. Moves c (past_terminator x)) (sym same_e)
        (past_terminator-Moves (subst (λ x. at_end_of_command bracket_term x ≡ true) same_e ends)
          here no_bracket)

  finish_command-CommandAt :
      (p : List Word × List SrcSpan) (e : Cursor)
      → CommandStop p e
      → Post CommandAt c (finish_command tables limit c p e)
  finish_command-CommandAt p e (st, spans, some_words, ends) =
      let d = past_terminator e in
      let r = Reaches-trans (Started-Reaches c e st) (past_terminator-Reaches e) in
      let b = text_end-bounds d (omega (arith, r.pos_eq)) in
      let s = Reaches-size c d r in
      (
        r,
        refl,
        omega arith,
        omega arith,
        omega arith,
        spans,
        λ here no_bracket. from_start p e (st, spans, some_words, ends) here no_bracket,
        words_there p e (st, spans, some_words, ends),
        span_end-cases (text_end c d) d.pos (omega arith) (text_end-cases d),
      )

  pub parse_command-CommandAt : Post CommandAt c (parse_command tables limit bracket_term c)
  unfolding parse_command
  parse_command-CommandAt =
      Post-behind CommandStop CommandAt c
        (loop (command_round tables limit bracket_term) limit ([], []) c)
        (finish_command tables limit c)
        (Post-loop CommandInv CommandStop c (command_round tables limit bracket_term)
          command_round-Round limit ([], []) c enough (inl refl, (refl, tt), inl refl))
        finish_command-CommandAt
