-- ===== src/Parser/Rd/Group.antt =====
-- crates/rtcl-parser/src/rd/word.rs: braced words, and the groups that are scanned for their end,
-- command substitutions, braced and quoted parts in them, and array indices.
use rtcl.Prelude.{
  ℕ, ◌+◌, ◌-◌, Bool, true, false, ◌&&◌, ◌||◌, Option, none, some, ◌==◌, ltb, if◌then◌else◌,
}
use rtcl.Parser.Rd.Escape.{braced_text}
use rtcl.Parser.Rd.Parsed.{
  Parsed, ok, err, Message, missing_close_brace, missing_quote, missing_close_bracket, M, return,
  Next, again, stop, loop, behind,
}
use rtcl.Parser.Rd.Token.{
  Chars, Token, Cursor, newline, whitespace, carriage_return, backslash, left_brace, right_brace,
  left_bracket, right_bracket, double_quote, semicolon, left_paren, right_paren, same, peek,
  advance, is_at, at_end, slice,
}

-- Past a backslash and the token behind it.
unfoldable pub past_escape : Cursor → Cursor
unfolding advance is_at
past_escape c = let d = advance c in if at_end d then d else advance d

-- An error at a line and an offset other than the cursor's.
abbrev pub unclosed : {A : Type 0} → Message → ℕ → ℕ → Parsed A
unclosed m line offset = err (record { message = m; line = line; column = 0; offset = offset })

module _ (limit : ℕ) where
  abbrev pub braced_round : ℕ → Cursor → ℕ → M (Next ℕ Chars)
  braced_round line start depth c =
      if at_end c
      then unclosed missing_close_brace line (start.pos - 1)
      else if is_at left_brace c
      then ok (again (depth + 1)) (advance c)
      else if is_at right_brace c
      then (if depth == 1
          then ok (stop (braced_text false (slice start c))) (advance c)
          else ok (again (depth - 1)) (advance c))
      else if is_at backslash c
      then ok (again depth) (past_escape c)
      else ok (again depth) (advance c)

  -- At a brace: the text up to the brace that closes it.
  unfoldable pub parse_braced_word : M Chars
  unfolding loop past_escape advance is_at slice braced_text
  parse_braced_word c = loop (braced_round c.line (advance c)) limit 1 (advance c)

  abbrev pub skip_braced_round : ℕ → ℕ → M (Next ℕ (Unit {0}))
  skip_braced_round line depth c =
      if at_end c || depth == 0
      then (if ltb 0 depth then unclosed missing_close_brace line c.pos else ok (stop tt) c)
      else if is_at left_brace c
      then ok (again (depth + 1)) (advance c)
      else if is_at right_brace c
      then ok (again (depth - 1)) (advance c)
      else if is_at backslash c
      then ok (again depth) (past_escape c)
      else ok (again depth) (advance c)

  unfoldable pub skip_braced : M (Unit {0})
  unfolding loop past_escape advance is_at
  skip_braced c = loop (skip_braced_round c.line) limit 1 (advance c)

  abbrev pub skip_quoted_round : ℕ → Unit {0} → M (Next (Unit {0}) (Unit {0}))
  skip_quoted_round line u c =
      if at_end c
      then unclosed missing_quote line c.pos
      else if is_at double_quote c
      then ok (stop tt) (advance c)
      else if is_at backslash c
      then ok (again tt) (past_escape c)
      else ok (again tt) (advance c)

  unfoldable pub skip_quoted_in_cmd : M (Unit {0})
  unfolding loop past_escape advance is_at
  skip_quoted_in_cmd c = loop (skip_quoted_round c.line) limit tt (advance c)

  abbrev pub separates : Token → Bool
  separates t =
      same t whitespace || (same t carriage_return || (same t newline || same t semicolon))

  -- The state is the depth of the brackets, and whether a word can start here.
  abbrev pub cmd_sub_round : ℕ → Cursor → ℕ × Bool → M (Next (ℕ × Bool) Chars)
  cmd_sub_round line start (depth, startofword) c =
      if at_end c
      then unclosed missing_close_bracket line (start.pos - 1)
      else if is_at left_bracket c
      then ok (again (depth + 1, true)) (advance c)
      else if is_at right_bracket c
      then (if depth == 1
          then ok (stop (slice start c)) (advance c)
          else ok (again (depth - 1, false)) (advance c))
      else if is_at left_brace c && startofword
      then behind (skip_braced c) (λ _. return (again (depth, false)))
      else if is_at double_quote c && startofword
      then behind (skip_quoted_in_cmd c) (λ _. return (again (depth, false)))
      else if separates (peek c)
      then ok (again (depth, true)) (advance c)
      else if is_at backslash c
      then ok (again (depth, false)) (past_escape c)
      else ok (again (depth, false)) (advance c)

  -- At a bracket: the script up to the bracket that closes it.
  unfoldable pub parse_cmd_sub : M Chars
  unfolding loop skip_braced skip_quoted_in_cmd past_escape advance is_at peek slice
  parse_cmd_sub c = loop (cmd_sub_round c.line (advance c)) limit (1, true) (advance c)

  -- `save` is the position to go back to.
  abbrev pub expr_sugar_round : Cursor → Cursor → ℕ → M (Next ℕ (Option Chars))
  expr_sugar_round save start depth c =
      if at_end c
      then ok (stop none) save
      else if is_at left_paren c
      then ok (again (depth + 1)) (advance c)
      else if is_at right_paren c
      then (if depth == 1
          then ok (stop (some (slice start c))) (advance c)
          else ok (again (depth - 1)) (advance c))
      else if is_at backslash c
      then ok (again depth) (past_escape c)
      else ok (again depth) (advance c)

  unfoldable pub try_parse_expr_sugar : M (Option Chars)
  unfolding loop past_escape advance is_at slice
  try_parse_expr_sugar c = loop (expr_sugar_round c (advance c)) limit 1 (advance c)

  -- Where no parenthesis balances: back to the last that closes, or to the start.
  abbrev pub last_close :
      Cursor → Cursor → Option Cursor → Parsed (Next (ℕ × Option Cursor) (Option Chars))
  last_close save start none = ok (stop none) save
  last_close save start (some close) = ok (stop (some (slice start close))) (advance close)

  abbrev pub var_index_round :
      Cursor → Cursor → ℕ × Option Cursor → M (Next (ℕ × Option Cursor) (Option Chars))
  var_index_round save start (depth, close) c =
      if at_end c
      then last_close save start close
      else if is_at left_paren c
      then ok (again (depth + 1, close)) (advance c)
      else if is_at right_paren c
      then (if depth == 1
          then ok (stop (some (slice start c))) (advance c)
          else ok (again (depth - 1, some c)) (advance c))
      else if is_at backslash c
      then ok (again (depth, close)) (past_escape c)
      else ok (again (depth, close)) (advance c)

  unfoldable pub try_parse_var_index : M (Option Chars)
  unfolding loop past_escape advance is_at slice
  try_parse_var_index c = loop (var_index_round c (advance c)) limit (1, none) (advance c)
