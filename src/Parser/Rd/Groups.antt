-- ===== src/Parser/Rd/Groups.antt =====
-- Lemmas on how far the scans of Parser/Rd/Group move the cursor, for crates/rtcl-parser/src/rd/word.rs.
use rtcl.Prelude.{
  ℕ, ◌-◌, ◌≤◌, ◌<◌, ◌≡◌, refl, Bool, true, false, ◌&&◌, ◌||◌, Option, none, some, length, ◌==◌, ltb,
  arith, if_intro,
}
use rtcl.Parser.Rd.Group.{
  past_escape, braced_round, parse_braced_word, skip_braced_round, skip_braced, skip_quoted_round,
  skip_quoted_in_cmd, cmd_sub_round, parse_cmd_sub, separates, expr_sugar_round,
  try_parse_expr_sugar, last_close, var_index_round, try_parse_var_index,
}
use rtcl.Parser.Rd.Parsed.{Parsed, M, Next, again, loop, behind, return}
use rtcl.Parser.Rd.Reach.{
  Reaches, Reaches-refl, Reaches-trans, Reaches-size, Moves, Moves-then, advance-Moves,
  advance-Reaches, Post, Post-behind, Post-map, Round, Post-loop, text_size,
}
use rtcl.Parser.Rd.Token.{
  Chars, Cursor, Token, peek, advance, is_at, at_end, left_brace, right_brace,
}

past_escape-Reaches : (c : Cursor) → Reaches (advance c) (past_escape c)
unfolding past_escape
past_escape-Reaches c =
    if_intro (Reaches (advance c)) (at_end (advance c)) (λ _. Reaches-refl _)
      (λ _. advance-Reaches _)

pub past_escape-Moves : (c : Cursor) → at_end c ≡ false → Moves c (past_escape c)
past_escape-Moves c h = Moves-then (advance-Moves c h) (past_escape-Reaches c)

-- A round at `e` of a loop that was entered behind `c`.
abbrev pub Later : Cursor → Cursor → Cursor → Type 0
Later c e d = Moves c d × (length d.left < length e.left)

pub Later-Moves : (c e d : Cursor) → Moves c e → Moves e d → Later c e d
Later-Moves c e d m n = (Moves-then m n.0, n.1)

pub go_on : (c e : Cursor) → Moves c e → at_end e ≡ false → Later c e (advance e)
go_on c e m h = Later-Moves c e (advance e) m (advance-Moves e h)

pub go_past : (c e : Cursor) → Moves c e → at_end e ≡ false → Later c e (past_escape e)
go_past c e m h = Later-Moves c e (past_escape e) m (past_escape-Moves e h)

pub or_false : (a b : Bool) → (a || b) ≡ false → a ≡ false
or_false true b h = h
or_false false b h = refl

-- An offset before a position that was reached lies within the text.
pub fits : (c e : Cursor) → Reaches c e → e.pos ≤ text_size c
fits c e r = omega (arith, Reaches-size c e r)

pub fits_before : (c e : Cursor) → Reaches c e → e.pos - 1 ≤ text_size c
fits_before c e r = omega (arith, Reaches-size c e r)

abbrev pub Moved : {A : Type 0} → Cursor → A → Cursor → Type 0
Moved c a d = Moves c d

module _ (limit : ℕ) (c : Cursor) (enough : length c.left < limit) (here : at_end c ≡ false) where
  -- A loop that is entered behind `c`.
  loop-Post :
      {S A : Type 0} (Inv : S → Cursor → Type 0) (Q : A → Cursor → Type 0) (body : S → M (Next S A))
      (s : S)
      → (Moves c (advance c) → Inv s (advance c))
      → ((s : S) (e : Cursor) → Inv s e → Post (Round Inv Q (length e.left)) c (body s e))
      → Post Q c (loop body limit s (advance c))
  loop-Post Inv Q body s start round =
      let m = advance-Moves c here in
      Post-loop Inv Q c body round limit s (advance c) (omega (arith, m.1)) (start m)

  loop-Moves :
      {S A : Type 0} (body : S → M (Next S A)) (s : S)
      → ((s : S) (e : Cursor)
          → Moves c e
          → Post (Round (Moved c) (Moved c) (length e.left)) c (body s e))
      → Post (Moved c) c (loop body limit s (advance c))
  loop-Moves body s round = loop-Post (Moved c) (Moved c) body s (λ m. m) round

  pub parse_braced_word-Moves : Post (Moved c) c (parse_braced_word limit c)
  unfolding parse_braced_word
  parse_braced_word-Moves = loop-Moves (braced_round limit c.line (advance c)) 1 λ depth e m.
      let P : Parsed (Next ℕ Chars) → Type 0 = Post (Round (Moved c) (Moved c) (length e.left)) c in
      if_intro P (at_end e) (λ _. fits_before c (advance c) (advance-Reaches c))
        λ h.
          if_intro P (is_at left_brace e) (λ _. go_on c e m h)
            λ _.
              if_intro P (is_at right_brace e)
                (λ _. if_intro P (depth == 1) (λ _. (go_on c e m h).0) (λ _. go_on c e m h))
                λ _.
                  if_intro P (is_at Token.backslash e) (λ _. go_past c e m h) (λ _. go_on c e m h)

  pub skip_braced-Moves : Post (Moved c) c (skip_braced limit c)
  unfolding skip_braced
  skip_braced-Moves = loop-Moves (skip_braced_round limit c.line) 1 λ depth e m.
      let P : Parsed (Next ℕ (Unit {0})) → Type 0 =
        Post (Round (Moved c) (Moved c) (length e.left)) c in
      if_intro P (at_end e || depth == 0)
        (λ _. if_intro P (ltb 0 depth) (λ _. fits c e m.0) (λ _. m))
        λ h.
          let open_end = or_false (at_end e) (depth == 0) h in
          if_intro P (is_at left_brace e) (λ _. go_on c e m open_end)
            λ _.
              if_intro P (is_at right_brace e) (λ _. go_on c e m open_end)
                λ _.
                  if_intro P (is_at Token.backslash e) (λ _. go_past c e m open_end)
                    (λ _. go_on c e m open_end)

  pub skip_quoted_in_cmd-Moves : Post (Moved c) c (skip_quoted_in_cmd limit c)
  unfolding skip_quoted_in_cmd
  skip_quoted_in_cmd-Moves = loop-Moves (skip_quoted_round limit c.line) tt λ u e m.
      let P : Parsed (Next (Unit {0}) (Unit {0})) → Type 0 =
        Post (Round (Moved c) (Moved c) (length e.left)) c in
      if_intro P (at_end e) (λ _. fits c e m.0)
        λ h.
          if_intro P (is_at Token.double_quote e) (λ _. (go_on c e m h).0)
            λ _. if_intro P (is_at Token.backslash e) (λ _. go_past c e m h) (λ _. go_on c e m h)

-- A part of a round at `e` that has scanned a group.
part-Later :
    (A : Type 0) {S : Type 0} (c e : Cursor) (s : S) (r : Parsed (Unit {0}))
    → Moves c e
    → Post (Moved e) e r
    → Post {A = Next S A}
        (Round (Moved c) (Moved c) (length e.left))
        c
        (behind r (λ _. return (again s)))
part-Later A {S} c e s r m p =
    Post-behind (λ _ d. Later c e d)
      (Round {A = A} (λ (_ : S) d. Moves c d) (λ _ d. Moves c d) (length e.left)) c r
      (λ _. return (again s))
      (Post-map (Moved e) (λ _ d. Later c e d) e c r (Reaches-size c e m.0)
        (λ _ d n. Later-Moves c e d m n) p)
      (λ _ d l. l)

module _ (limit : ℕ) (c : Cursor) (enough : length c.left < limit) (here : at_end c ≡ false) where
  pub parse_cmd_sub-Moves : Post (Moved c) c (parse_cmd_sub limit c)
  unfolding parse_cmd_sub
  parse_cmd_sub-Moves =
      loop-Moves limit c enough here (cmd_sub_round limit c.line (advance c)) (1, true)
        λ s e m.
          let P : Parsed (Next (ℕ × Bool) Chars) → Type 0 =
            Post (Round (Moved c) (Moved c) (length e.left)) c in
          let room : length e.left < limit = omega (arith, m.1) in
          if_intro P (at_end e) (λ _. fits_before c (advance c) (advance-Reaches c))
            λ h.
              if_intro P (is_at Token.left_bracket e) (λ _. go_on c e m h)
                λ _.
                  if_intro P (is_at Token.right_bracket e)
                    (λ _. if_intro P (s.0 == 1) (λ _. (go_on c e m h).0) (λ _. go_on c e m h))
                    λ _.
                      if_intro P (is_at left_brace e && s.1)
                        (λ _.
                          part-Later Chars c e (s.0, false) (skip_braced limit e) m
                            (skip_braced-Moves limit e room h))
                        λ _.
                          if_intro P (is_at Token.double_quote e && s.1)
                            (λ _.
                              part-Later Chars c e (s.0, false) (skip_quoted_in_cmd limit e) m
                                (skip_quoted_in_cmd-Moves limit e room h))
                            λ _.
                              if_intro P (separates limit (peek e)) (λ _. go_on c e m h)
                                λ _.
                                  if_intro P (is_at Token.backslash e) (λ _. go_past c e m h)
                                    (λ _. go_on c e m h)

  pub try_parse_expr_sugar-Reaches : Post (λ _ d. Reaches c d) c (try_parse_expr_sugar limit c)
  unfolding try_parse_expr_sugar
  try_parse_expr_sugar-Reaches =
      loop-Post limit c enough here (Moved c) (λ _ d. Reaches c d)
        (expr_sugar_round limit c (advance c)) 1 (λ m. m)
        λ depth e m.
          let P : Parsed (Next ℕ (Option Chars)) → Type 0 =
            Post (Round (Moved c) (λ _ d. Reaches c d) (length e.left)) c in
          if_intro P (at_end e) (λ _. Reaches-refl c)
            λ h.
              if_intro P (is_at Token.left_paren e) (λ _. go_on c e m h)
                λ _.
                  if_intro P (is_at Token.right_paren e)
                    (λ _. if_intro P (depth == 1) (λ _. (go_on c e m h).0.0) (λ _. go_on c e m h))
                    λ _.
                      if_intro P (is_at Token.backslash e) (λ _. go_past c e m h)
                        (λ _. go_on c e m h)

  -- The last parenthesis that closes was reached.
  abbrev Closed : Option Cursor → Type 0
  Closed none = Unit
  Closed (some close) = Moves c close

  abbrev IndexInv : ℕ × Option Cursor → Cursor → Type 0
  IndexInv s e = Moves c e × Closed s.1

  last_close-Reaches :
      (close : Option Cursor) (n : ℕ)
      → Closed close
      → Post (Round IndexInv (λ _ d. Reaches c d) n) c (last_close limit c (advance c) close)
  last_close-Reaches none n k = Reaches-refl c
  last_close-Reaches (some close) n k = Reaches-trans k.0 (advance-Reaches close)

  on_index :
      (close : Option Cursor) (e : Cursor)
      → Moves c e
      → Closed close
      → at_end e ≡ false
      → (Moves c (advance e) × Closed close) × (length (advance e).left < length e.left)
  on_index close e m k h = let l = go_on c e m h in ((l.0, k), l.1)

  pub try_parse_var_index-Reaches : Post (λ _ d. Reaches c d) c (try_parse_var_index limit c)
  unfolding try_parse_var_index
  try_parse_var_index-Reaches =
      loop-Post limit c enough here IndexInv (λ _ d. Reaches c d)
        (var_index_round limit c (advance c)) (1, none) (λ m. (m, tt))
        λ s e i.
          let m = i.0 in
          let P : Parsed (Next (ℕ × Option Cursor) (Option Chars)) → Type 0 =
            Post (Round IndexInv (λ _ d. Reaches c d) (length e.left)) c in
          if_intro P (at_end e) (λ _. last_close-Reaches s.1 (length e.left) i.1)
            λ h.
              if_intro P (is_at Token.left_paren e) (λ _. on_index s.1 e m i.1 h)
                λ _.
                  if_intro P (is_at Token.right_paren e)
                    (λ _.
                      if_intro P (s.0 == 1) (λ _. (go_on c e m h).0.0)
                        (λ _. on_index (some e) e m m h))
                    λ _.
                      if_intro P (is_at Token.backslash e)
                        (λ _. let l = go_past c e m h in ((l.0, i.1), l.1))
                        (λ _. on_index s.1 e m i.1 h)
