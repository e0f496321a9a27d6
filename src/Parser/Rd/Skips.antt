-- ===== src/Parser/Rd/Skips.antt =====
-- Lemmas on how far blanks, comments and separators move the cursor of crates/rtcl-parser/src/rd.
use rtcl.Prelude.{
  ℕ, ◌<◌, ◌≡◌, refl, sym, subst, true, false, not, ◌&&◌, ◌||◌, length, arith, ◌⊎◌, inl, inr,
  if_intro,
}
use rtcl.Parser.Rd.Gaps.{
  Comment, Gap, no_gap, Gap-trans, separator-Gap, hash-Gap, end-Comment, newline-Comment,
  escape-Comment, last-Comment, other-Comment,
}
use rtcl.Parser.Rd.Groups.{Later, Later-Moves, go_on}
use rtcl.Parser.Rd.Parsed.{Parsed, Next}
use rtcl.Parser.Rd.Reach.{
  Reaches, Reaches-refl, Reaches-trans, Reaches-size, Reaches-length, Moves, Moves-then, then-Moves,
  advance-Moves, advance-Reaches, not-at_end, Post, Post-behind, Post-map, Round, Post-loop,
}
use rtcl.Parser.Rd.Script.{
  line_white_round, skip_line_whitespace, comment_round, skip_comment, separator_round,
  skip_command_separators,
}
use rtcl.Parser.Rd.Token.{
  Chars, Cursor, newline, backslash, semicolon, hash, is_line_whitespace, is_any_whitespace, peek,
  advance, is_at, at_end,
}
use rtcl.Parser.Rd.Words.{and_true}

-- The cursor stays, or it has moved.
abbrev pub Started : Cursor → Cursor → Type 0
Started c e = (e ≡ c) ⊎ Moves c e

pub Started-Reaches : (c e : Cursor) → Started c e → Reaches c e
Started-Reaches c e (inl same_e) = subst (Reaches c) (sym same_e) (Reaches-refl c)
Started-Reaches c e (inr m) = m.0

pub Started-Moves : (c e d : Cursor) → Started c e → Moves e d → Moves c d
Started-Moves c e d st m = then-Moves (Started-Reaches c e st) m

white-open : (e : Cursor) → is_line_whitespace (peek e) ≡ true → at_end e ≡ false
unfolding is_line_whitespace is_at
white-open e h = ground arith

any_white-open :
    (e : Cursor) → (is_any_whitespace (peek e) || is_at semicolon e) ≡ true → at_end e ≡ false
unfolding is_any_whitespace is_at
any_white-open e h = ground arith

module _ (limit : ℕ) (c : Cursor) (enough : length c.left < limit) where
  -- Blanks are skipped, if there are any.
  abbrev pub Skipped : Unit {0} → Cursor → Type 0
  Skipped u e = ((is_line_whitespace (peek c) ≡ false) × (e ≡ c)) ⊎ Moves c e

  Skipped-at : (e : Cursor) → Started c e → is_line_whitespace (peek e) ≡ false → Skipped tt e
  Skipped-at e (inl same_e) h =
      inl (subst (λ d. is_line_whitespace (peek d) ≡ false) same_e h, same_e)
  Skipped-at e (inr m) h = inr m

  pub skip_line_whitespace-Skipped : Post Skipped c (skip_line_whitespace limit c)
  unfolding skip_line_whitespace
  skip_line_whitespace-Skipped =
      Post-loop (λ _ e. Started c e) Skipped c (line_white_round limit)
        (λ u e st.
          let P : Parsed (Next (Unit {0}) (Unit {0})) → Type 0 =
            Post (Round (λ _ d. Started c d) Skipped (length e.left)) c in
          if_intro P (is_line_whitespace (peek e))
            (λ h. let m = advance-Moves e (white-open e h) in (inr (Started-Moves c e _ st m), m.1))
            λ no_white.
              if_intro P (is_at backslash e && is_at newline (advance e))
                (λ h.
                  let m =
                    Moves-then (advance-Moves e (not-at_end backslash e refl (and_true _ _ h)))
                      (advance-Reaches (advance e)) in
                  (inr (Started-Moves c e _ st m), m.1))
                (λ _. Skipped-at e st no_white))
        limit tt c enough (inl refl)

  -- A comment has been read up to here.
  abbrev pub InComment : Unit {0} → Cursor → Type 0
  InComment u e = Moves c e × ((t : Chars) → Comment e.left t → Comment (advance c).left t)

  -- A comment has been passed.
  abbrev pub PastComment : Unit {0} → Cursor → Type 0
  PastComment u e = Moves c e × Comment (advance c).left e.left

  comment_on :
      (e d : Cursor)
      → InComment tt e
      → Later c e d
      → ((t : Chars) → Comment d.left t → Comment e.left t)
      → InComment tt d × (length d.left < length e.left)
  comment_on e d i l step = ((l.0, λ t k. i.1 t (step t k)), l.1)

  comment-Moves : at_end c ≡ false → Post PastComment c (skip_comment limit c)
  unfolding skip_comment
  comment-Moves here =
      let m = advance-Moves c here in
      Post-loop InComment PastComment c (comment_round limit)
        (λ u e i.
          let n = i.0 in
          let P : Parsed (Next (Unit {0}) (Unit {0})) → Type 0 =
            Post (Round InComment PastComment (length e.left)) c in
          let d = advance e in
          if_intro P (at_end e) (λ h. (n, i.1 e.left (end-Comment e h)))
            λ h.
              let twice =
                Later-Moves c e (advance d) n
                  (Moves-then (advance-Moves e h) (advance-Reaches d)) in
              if_intro P (is_at newline e)
                (λ l. ((go_on c e n h).0, i.1 d.left (newline-Comment e l)))
                λ no_line.
                  if_intro P (is_at backslash e)
                    (λ b.
                      let past = comment_on e (advance d) i twice (λ t. escape-Comment e t b) in
                      if_intro P (is_at newline d) (λ _. past)
                        (λ _.
                          if_intro P (not (at_end d)) (λ _. past)
                            (λ z.
                              comment_on e d i (go_on c e n h)
                                (λ t. last-Comment e t b (ground arith)))))
                    (λ b. comment_on e d i (go_on c e n h) (λ t. other-Comment e t no_line b)))
        limit tt (advance c) (omega (arith, m.1)) (m, λ t k. k)

-- Past separators and comments, at a command or at the end.
module _ (limit : ℕ) (c : Cursor) (enough : length c.left < limit) where
  abbrev InGap : Unit {0} → Cursor → Type 0
  InGap u e = Reaches c e × Gap c.left e.left

  abbrev pub PastGap : Unit {0} → Cursor → Type 0
  PastGap u e =
      Reaches c e
      × Gap c.left e.left
      × ((is_any_whitespace (peek e) || is_at semicolon e) ≡ false)
      × (is_at hash e ≡ false)

  pub separators-Reaches : Post PastGap c (skip_command_separators limit c)
  unfolding skip_command_separators
  separators-Reaches =
      Post-loop InGap PastGap c (separator_round limit)
        (λ u e i.
          let (r, g) = i in
          let P : Parsed (Next (Unit {0}) (Unit {0})) → Type 0 =
            Post (Round InGap PastGap (length e.left)) c in
          let room : length e.left < limit = omega (arith, Reaches-length c e r) in
          if_intro P (is_any_whitespace (peek e) || is_at semicolon e)
            (λ h.
              let m = advance-Moves e (any_white-open e h) in
              ((Reaches-trans r m.0, Gap-trans g (separator-Gap e h)), m.1))
            λ no_separator.
              if_intro P (is_at hash e)
                (λ h.
                  Post-behind (PastComment limit e room) (Round InGap PastGap (length e.left)) c
                    (skip_comment limit e) _
                    (Post-map (PastComment limit e room) (PastComment limit e room) e c
                      (skip_comment limit e) (Reaches-size c e r) (λ _ _ m. m)
                      (comment-Moves limit e room (not-at_end hash e refl h)))
                    (λ _ d p.
                      ((Reaches-trans r p.0.0, Gap-trans g (hash-Gap e d.left h p.1)), p.0.1)))
                (λ no_comment. (r, g, no_separator, no_comment)))
        limit tt c enough (Reaches-refl c, no_gap)
