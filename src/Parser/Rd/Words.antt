-- ===== src/Parser/Rd/Words.antt =====
-- Lemmas on how far the words of crates/rtcl-parser/src/rd/word.rs move the cursor.
use rtcl.Prelude.{
  ℕ, ◌<◌, ◌≡◌, refl, Bool, true, false, ◌&&◌, Option, none, some, length, arith, if_intro,
}
use rtcl.Parser.Rd.Escapes.{Reached}
use rtcl.Parser.Rd.Group.{parse_cmd_sub, try_parse_expr_sugar, try_parse_var_index}
use rtcl.Parser.Rd.Groups.{
  Moved, Later-Moves, go_on, fits, parse_cmd_sub-Moves, try_parse_expr_sugar-Reaches,
  try_parse_var_index-Reaches,
}
use rtcl.Parser.Rd.Parsed.{Parsed, M, Next, loop, behind}
use rtcl.Parser.Rd.Reach.{
  Reaches, Reaches-size, Moves, Moves-then, advance-Moves, advance-Reaches, not-at_end, Post,
  Post-behind, Post-map, Round, Post-loop,
}
use rtcl.Parser.Rd.Token.{
  Chars, Cursor, Token, eof, left_brace, right_brace, left_bracket, left_paren, colon, other_char,
  peek, advance, is_at, at_end, same,
}
use rtcl.Parser.Rd.Word.{
  Tokens, CharTables, is_name, at_colons, is_var_start, var_name_round, braced_name_round, indexed,
  behind_name, parse_dollar,
}

-- Go on behind a part that was parsed from `d`, which was reached from `c`.
pub behind-Post :
    {A B : Type 0} (R : B → Cursor → Type 0) (c d : Cursor) (r : Parsed A) (f : A → M B)
    → Reaches c d
    → Post (Reached d) d r
    → ((a : A) (e : Cursor) → Reaches d e → Post R c (f a e))
    → Post R c (behind r f)
behind-Post R c d r f q p h =
    Post-behind (Reached d) R c r f
      (Post-map (Reached d) (Reached d) d c r (Reaches-size c d q) (λ _ _ z. z) p) h

pub weaken : {A : Type 0} (d : Cursor) (r : Parsed A) → Post (Moved d) d r → Post (Reached d) d r
weaken d r p = Post-map (Moved d) (Reached d) d d r refl (λ _ _ m. m.0) p

name-open :
    (tables : CharTables) (limit : ℕ) (t : Token)
    → is_name tables limit (other_char t) ≡ true
    → same t eof ≡ false
name-open tables limit Token.eof h = cc
name-open tables limit t h = ground arith

pub and_true : (a b : Bool) → (a && b) ≡ true → a ≡ true
and_true true b h = refl
and_true false b h = h

name_char-open :
    (tables : CharTables) (limit : ℕ) (e : Cursor)
    → is_name tables limit (other_char (peek e)) ≡ true
    → at_end e ≡ false
unfolding is_at
name_char-open tables limit e h = name-open tables limit (peek e) h

colons-open :
    (tables : CharTables) (limit : ℕ) (e : Cursor)
    → at_colons tables limit e ≡ true
    → at_end e ≡ false
colons-open tables limit e h = not-at_end colon e refl (and_true (is_at colon e) _ h)

module _ (tables : CharTables) (limit : ℕ) (c : Cursor) (enough : length c.left < limit)
    (here : at_end c ≡ false) where
  var_name-Moves :
      (d : Cursor) → Moves c d → Post (Moved c) c (loop (var_name_round tables limit d) limit tt d)
  var_name-Moves d m =
      Post-loop (Moved c) (Moved c) c (var_name_round tables limit d)
        (λ u e n.
          let P : Parsed (Next (Unit {0}) Chars) → Type 0 =
            Post (Round (Moved c) (Moved c) (length e.left)) c in
          if_intro P (is_name tables limit (other_char (peek e)))
            (λ h. go_on c e n (name_char-open tables limit e h))
            λ _.
              if_intro P (at_colons tables limit e)
                (λ h. Later-Moves c e _ n (
                  Moves-then (advance-Moves e (colons-open tables limit e h))
                    (advance-Reaches (advance e))))
                (λ _. n))
        limit tt d (omega (arith, m.1)) m

  braced_name-Moves :
      (d : Cursor)
      → Moves c d
      → Post (Moved c) c (loop (braced_name_round tables limit d) limit tt d)
  braced_name-Moves d m =
      Post-loop (Moved c) (Moved c) c (braced_name_round tables limit d)
        (λ u e n.
          let P : Parsed (Next (Unit {0}) Chars) → Type 0 =
            Post (Round (Moved c) (Moved c) (length e.left)) c in
          if_intro P (at_end e) (λ _. fits c e n.0)
            λ h. if_intro P (is_at right_brace e) (λ _. (go_on c e n h).0) (λ _. go_on c e n h))
        limit tt d (omega (arith, m.1)) m

  indexed-Moves :
      (name : Chars) (t : Tokens) (index : Option Chars) (e : Cursor)
      → Moves c e
      → Post (Moved c) c (indexed tables limit name t index e)
  indexed-Moves name t none e m = fits c e m.0
  indexed-Moves name t (some index) e m = m

  behind_name-Moves :
      (t : Tokens) (name : Chars) (e : Cursor)
      → Moves c e
      → Post (Moved c) c (behind_name tables limit t name e)
  behind_name-Moves t name e m =
      let room : length e.left < limit = omega (arith, m.1) in
      if_intro (Post (Moved c) c) (is_at left_paren e)
        (λ h.
          behind-Post (Moved c) c e (try_parse_var_index limit e) (indexed tables limit name t) m.0
            (try_parse_var_index-Reaches limit e room (not-at_end left_paren e refl h))
            (λ index f r. indexed-Moves name t index f (Moves-then m r)))
        (λ _. m)

  pub parse_dollar-Moves : (t : Tokens) → Post (Moved c) c (parse_dollar tables limit t c)
  unfolding parse_dollar
  parse_dollar-Moves t =
      let d = advance c in
      let m = advance-Moves c here in
      let room : length d.left < limit = omega (arith, m.1) in
      let P : Parsed Tokens → Type 0 = Post (Moved c) c in
      if_intro P (is_at left_bracket d)
        (λ h.
          behind-Post (Moved c) c d (parse_cmd_sub limit d) _ m.0
            (weaken d _ (parse_cmd_sub-Moves limit d room (not-at_end left_bracket d refl h)))
            (λ s e r. Moves-then m r))
        λ _.
          if_intro P (is_at left_brace d)
            (λ _.
              Post-behind (Moved c) (Moved c) c
                (loop (braced_name_round tables limit (advance d)) limit tt (advance d)) _
                (braced_name-Moves (advance d) (Moves-then m (advance-Reaches d))) (λ s e n. n))
            λ _.
              if_intro P (is_at left_paren d)
                (λ h.
                  behind-Post (Moved c) c d (try_parse_expr_sugar limit d) _ m.0
                    (try_parse_expr_sugar-Reaches limit d room (not-at_end left_paren d refl h))
                    (λ s e r. Moves-then m r))
                λ _.
                  if_intro P (is_var_start tables limit d)
                    (λ _.
                      Post-behind (Moved c) (Moved c) c
                        (loop (var_name_round tables limit d) limit tt d)
                        (behind_name tables limit t) (var_name-Moves d m)
                        (λ name e n. behind_name-Moves t name e n))
                    (λ _. m)
