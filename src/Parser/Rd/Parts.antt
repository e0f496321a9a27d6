-- ===== src/Parser/Rd/Parts.antt =====
-- Lemmas on how far the quoted and bare words of crates/rtcl-parser/src/rd/word.rs move the cursor.
use rtcl.Prelude.{
  ℕ, zero, suc, ◌-◌, ◌<◌, ◌≡◌, refl, sym, subst, Bool, true, false, not, ◌&&◌, ◌||◌, [], length,
  ◌==◌, arith, ◌⊎◌, inl, inr, if_intro,
}
use rtcl.Parser.Rd.Escape.{backslash_subst}
use rtcl.Parser.Rd.Escapes.{Reached, backslash_subst-Moves}
use rtcl.Parser.Rd.Group.{parse_braced_word, parse_cmd_sub}
use rtcl.Parser.Rd.Groups.{
  Moved, go_on, fits, fits_before, or_false, parse_braced_word-Moves, parse_cmd_sub-Moves,
}
use rtcl.Parser.Rd.Parsed.{
  Parsed, Message, extra_after_close_brace, extra_after_close_quote, Next, again, stop, return,
  ◌>>◌,
}
use rtcl.Parser.Rd.Reach.{
  Reaches, Reaches-refl, Reaches-trans, Reaches-size, Reaches-length, Moves, Moves-then, then-Moves,
  advance-Moves, advance-Reaches, not-at_end, Post, Post-behind, Post-map, Round, Post-loop,
}
use rtcl.Parser.Rd.Token.{
  Cursor, newline, backslash, dollar, left_brace, left_bracket, double_quote, is_line_whitespace,
  peek, peek_at, advance, is_at, at_end, at_end_of_command, same,
}
use rtcl.Parser.Rd.Word.{
  Word, new_tokens, push_slice, CharTables, parse_dollar, Part, word_round, quoted_round,
  parse_quoted_word, bare_continuation, bare_round, parse_bare_word, check_no_trailing_garbage,
  is_expand, parse_next_word, literal,
}
use rtcl.Parser.Rd.Words.{behind-Post, parse_dollar-Moves}

-- A round that goes on has moved, and does not stop.
abbrev pub OnlyMoves : {S A : Type 0} → Cursor → Next S A → Cursor → Type 0
OnlyMoves e (again s) d = Moves e d
OnlyMoves e (stop a) d = ⊥

OnlyMoves-Round :
    {S A : Type 0} (Inv : S → Cursor → Type 0) (Q : A → Cursor → Type 0) (e : Cursor)
    → ((s : S) (d : Cursor) → Moves e d → Inv s d)
    → (x : Next S A) (d : Cursor) → OnlyMoves e x d
    → Round Inv Q (length e.left) x d
OnlyMoves-Round Inv Q e keep (again s) d m = (keep s d m, m.1)
OnlyMoves-Round Inv Q e keep (stop a) d m = absurd m

module _ (tables : CharTables) (limit : ℕ) (e : Cursor) (enough : length e.left < limit)
    (here : at_end e ≡ false) where
  word_round-Moves :
      (s : Part tables limit)
      → Post {A = Next (Part tables limit) Word} (OnlyMoves e) e (word_round tables limit s e)
  word_round-Moves (t, start) =
      let P : Parsed (Next (Part tables limit) Word) → Type 0 = Post (OnlyMoves e) e in
      if_intro P (is_at left_bracket e)
        (λ _.
          Post-behind (Moved e) (OnlyMoves e) e (parse_cmd_sub limit e) _
            (parse_cmd_sub-Moves limit e enough here) (λ s d m. m))
        λ _.
          if_intro P (is_at dollar e)
            (λ _.
              Post-behind (Moved e) (OnlyMoves e) e
                (parse_dollar tables limit (push_slice start e t) e) _
                (parse_dollar-Moves tables limit e enough here _) (λ s d m. m))
            λ _.
              if_intro P (is_at backslash e)
                (λ _.
                  Post-behind (Moved e) (OnlyMoves e) e (backslash_subst limit e) _
                    (backslash_subst-Moves limit e enough here) (λ s d m. m))
                (λ _. advance-Moves e here)

  -- The same as a round of a loop that was entered at `c`.
  word_round-Round :
      (c : Cursor) (Inv : Part tables limit → Cursor → Type 0) (Q : Word → Cursor → Type 0)
      (s : Part tables limit)
      → Reaches c e
      → ((u : Part tables limit) (d : Cursor) → Moves e d → Inv u d)
      → Post (Round Inv Q (length e.left)) c (word_round tables limit s e)
  word_round-Round c Inv Q s r keep =
      Post-map (OnlyMoves e) (Round Inv Q (length e.left)) e c (word_round tables limit s e)
        (Reaches-size c e r) (OnlyMoves-Round Inv Q e keep) (word_round-Moves s)

-- Where a word is empty and takes nothing.
abbrev pub blocked : Bool → Cursor → Bool
blocked bracket_term c = at_end_of_command bracket_term c || is_line_whitespace (peek c)

at_end-ends :
    (bracket_term : Bool) (c : Cursor) → at_end_of_command bracket_term c ≡ false → at_end c ≡ false
unfolding at_end_of_command
at_end-ends bracket_term c h = or_false (at_end c) _ h

-- A word has moved the cursor, unless it is blocked.
abbrev pub Worded : Bool → Cursor → Word → Cursor → Type 0
Worded bracket_term c w d = ((blocked bracket_term c ≡ true) × (d ≡ c)) ⊎ Moves c d

module _ (tables : CharTables) (limit : ℕ) (c : Cursor) (enough : length c.left < limit) where
  parse_quoted_word-Moves : at_end c ≡ false → Post (Moved c) c (parse_quoted_word tables limit c)
  unfolding parse_quoted_word
  parse_quoted_word-Moves here =
      let d = advance c in
      let m = advance-Moves c here in
      Post-loop (Moved c) (Moved c) c (quoted_round tables limit c.line (d.pos - 1))
        (λ s e n.
          let P : Parsed (Next (Part tables limit) Word) → Type 0 =
            Post (Round (Moved c) (Moved c) (length e.left)) c in
          if_intro P (at_end e) (λ _. fits_before c d m.0)
            λ h.
              if_intro P (is_at double_quote e) (λ _. (go_on c e n h).0)
                λ _.
                  word_round-Round tables limit e (omega (arith, n.1)) h c (Moved c) (Moved c) s n.0
                    (λ u f k. Moves-then n k.0))
        limit (new_tokens, d) d (omega (arith, m.1)) m

  abbrev Started : Part tables limit → Cursor → Type 0
  Started s e = (e ≡ c) ⊎ Moves c e

  Started-Reaches : (s : Part tables limit) (e : Cursor) → Started s e → Reaches c e
  Started-Reaches s e (inl same_e) = subst (Reaches c) (sym same_e) (Reaches-refl c)
  Started-Reaches s e (inr m) = m.0

  bare_stop :
      (bracket_term : Bool) (s : Part tables limit) (w : Word) (e : Cursor)
      → Started s e
      → blocked bracket_term e ≡ true
      → Worded bracket_term c w e
  bare_stop bracket_term s w e (inl same_e) h =
      inl (subst (λ d. blocked bracket_term d ≡ true) same_e h, same_e)
  bare_stop bracket_term s w e (inr m) h = inr m

  bare_continuation-Round :
      (bracket_term : Bool) (s : Part tables limit) (e : Cursor)
      → Started s e
      → at_end e ≡ false
      → Post
          (Round Started (Worded bracket_term c) (length e.left))
          c
          (bare_continuation tables limit s e)
  bare_continuation-Round bracket_term (t, start) e st here =
      let r = Started-Reaches (t, start) e st in
      let room : length e.left < limit = omega (arith, Reaches-length c e r) in
      let R = Round Started (Worded bracket_term c) (length e.left) in
      let escaped =
        Post-map (Moved e) (Moved e) e c (backslash_subst limit e) (Reaches-size c e r) (λ _ _ m. m)
          (backslash_subst-Moves limit e room here) in
      if_intro (Post R c) (not (e.pos == start.pos))
        (λ _.
          Post-behind (Moved e) R c (backslash_subst limit e) _ escaped
            (λ x d m. inr (then-Moves r m)))
        (λ _.
          Post-behind (Moved e) R c (backslash_subst limit e) _ escaped
            (λ x d m. (inr (then-Moves r m), m.1)))

  parse_bare_word-Worded :
      (bracket_term : Bool)
      → Post (Worded bracket_term c) c (parse_bare_word tables limit bracket_term c)
  unfolding parse_bare_word
  parse_bare_word-Worded bracket_term =
      Post-loop Started (Worded bracket_term c) c (bare_round tables limit bracket_term)
        (λ s e st.
          let r = Started-Reaches s e st in
          let P : Parsed (Next (Part tables limit) Word) → Type 0 =
            Post (Round Started (Worded bracket_term c) (length e.left)) c in
          if_intro P (blocked bracket_term e) (λ h. bare_stop bracket_term s (literal []) e st h)
            λ h.
              let open_end =
                at_end-ends bracket_term e (or_false (at_end_of_command bracket_term e) _ h) in
              if_intro P (is_at backslash e && same (peek_at 1 e) newline)
                (λ _. bare_continuation-Round bracket_term s e st open_end)
                (λ _.
                  word_round-Round tables limit e (omega (arith, Reaches-length c e r)) open_end c
                    Started (Worded bracket_term c) s r (λ u f k. inr (then-Moves r k))))
        limit (new_tokens, c) c enough (inl refl)

-- The check moves nothing.
check-Reaches :
    (tables : CharTables) (limit : ℕ) (bracket_term : Bool) (m : Message) (c : Cursor)
    → Post (Reached c) c (check_no_trailing_garbage tables limit bracket_term m c)
unfolding check_no_trailing_garbage
check-Reaches tables limit bracket_term m c =
    let P : Parsed (Unit {0}) → Type 0 = Post (Reached c) c in
    if_intro P (at_end_of_command bracket_term c || is_line_whitespace (peek c))
      (λ _. Reaches-refl c)
      λ _.
        if_intro P (is_at backslash c && same (peek_at 1 c) newline) (λ _. Reaches-refl c)
          (λ _. fits c c (Reaches-refl c))

module _ (tables : CharTables) (limit : ℕ) (bracket_term : Bool) where
  checked-Moves :
      (m : Message) (w : Word) (c d : Cursor)
      → Moves c d
      → Post
          (Worded bracket_term c)
          c
          ((check_no_trailing_garbage tables limit bracket_term m >> return w) d)
  checked-Moves m w c d n =
      behind-Post (Worded bracket_term c) c d
        (check_no_trailing_garbage tables limit bracket_term m d) _ n.0
        (check-Reaches tables limit bracket_term m d) (λ u e r. inr (Moves-then n r))

  pub Worded-Reaches :
      (c : Cursor) (w : Word) (d : Cursor) → Worded bracket_term c w d → Reaches c d
  Worded-Reaches c w d (inl h) = subst (Reaches c) (sym h.1) (Reaches-refl c)
  Worded-Reaches c w d (inr m) = m.0

  thrice : (c : Cursor) → at_end c ≡ false → Moves c (advance (advance (advance c)))
  thrice c h =
      Moves-then (advance-Moves c h)
        (Reaches-trans (advance-Reaches (advance c)) (advance-Reaches (advance (advance c))))

  pub parse_next_word-Worded :
      (fuel : ℕ) (c : Cursor)
      → length c.left < fuel
      → length c.left < limit
      → Post (Worded bracket_term c) c (parse_next_word tables limit fuel bracket_term c)
  unfolding parse_next_word
  parse_next_word-Worded zero c fueled enough = absurd (omega arith)
  parse_next_word-Worded (suc fuel) c fueled enough =
      let P : Parsed Word → Type 0 = Post (Worded bracket_term c) c in
      if_intro P (is_at left_brace c)
        (λ brace.
          let here = not-at_end left_brace c refl brace in
          let m = thrice c here in
          let c₃ = advance (advance (advance c)) in
          if_intro P (is_expand tables limit bracket_term c.left)
            (λ _.
              behind-Post (Worded bracket_term c) c c₃
                (parse_next_word tables limit fuel bracket_term c₃) _ m.0
                (Post-map (Worded bracket_term c₃) (Reached c₃) c₃ c₃ _ refl (Worded-Reaches c₃)
                  (parse_next_word-Worded fuel c₃ (omega (arith, m.1)) (omega (arith, m.1))))
                (λ w e r. inr (Moves-then m r)))
            (λ _.
              Post-behind (Moved c) (Worded bracket_term c) c (parse_braced_word limit c) _
                (parse_braced_word-Moves limit c enough here)
                (λ s d n. checked-Moves extra_after_close_brace (literal s) c d n)))
        λ _.
          if_intro P (is_at double_quote c)
            (λ quote.
              Post-behind (Moved c) (Worded bracket_term c) c (parse_quoted_word tables limit c) _
                (parse_quoted_word-Moves tables limit c enough
                  (not-at_end double_quote c refl quote))
                (λ w d n. checked-Moves extra_after_close_quote w c d n))
            (λ _. parse_bare_word-Worded tables limit c enough bracket_term)
