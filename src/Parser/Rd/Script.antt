-- ===== src/Parser/Rd/Script.antt =====
-- crates/rtcl-parser/src/rd/mod.rs: comments, commands and scripts.
use rtcl.Prelude.{
  ℕ, ◌+◌, ◌-◌, ◌%◌, ◌^◌, Bool, false, not, ◌&&◌, ◌||◌, List, [], ◌∷◌, ◌++◌, length, ◌==◌, ltb,
  if◌then◌else◌,
}
use rtcl.Parser.Rd.Parsed.{Parsed, ok, M, return, Next, again, stop, loop, behind}
use rtcl.Parser.Rd.Token.{
  Chars, Cursor, newline, backslash, semicolon, hash, right_bracket, is_line_whitespace,
  is_any_whitespace, new_cursor, peek, advance, is_at, at_end, at_end_of_command, slice,
}
use rtcl.Parser.Rd.Word.{Word, CharTables, parse_next_word}

pub record SrcSpan : Type 0 where
  pub start : ℕ
  pub end : ℕ

pub record Command : Type 0 where
  pub words : List Word
  pub line : ℕ
  pub text : SrcSpan
  pub word_srcs : List SrcSpan

abbrev pub span : ℕ → ℕ → SrcSpan
span start end = record { start = start % 2 ^ 32; end = end % 2 ^ 32 }

abbrev pub last_is_terminator : Chars → Bool
last_is_terminator [] = false
last_is_terminator (c ∷ []) = c == 10 || c == b';'
last_is_terminator (c ∷ d ∷ s) = last_is_terminator (d ∷ s)

-- The end of a command's text: without a last line feed or semicolon.
unfoldable pub text_end : Cursor → Cursor → ℕ
unfolding slice
text_end start c =
    if ltb start.pos c.pos && last_is_terminator (slice start c) then c.pos - 1 else c.pos

-- Past the terminator, if one stands here.
unfoldable pub past_terminator : Cursor → Cursor
unfolding is_at advance
past_terminator c = if is_at newline c || is_at semicolon c then advance c else c

module _ (limit : ℕ) where
  abbrev pub line_white_round : Unit {0} → M (Next (Unit {0}) (Unit {0}))
  line_white_round u c =
      if is_line_whitespace (peek c)
      then ok (again tt) (advance c)
      else if is_at backslash c && is_at newline (advance c)
      then ok (again tt) (advance (advance c))
      else ok (stop tt) c

  -- `Cursor::skip_line_whitespace`.
  unfoldable pub skip_line_whitespace : M (Unit {0})
  unfolding loop is_line_whitespace peek advance is_at
  skip_line_whitespace = loop line_white_round limit tt

  abbrev pub comment_round : Unit {0} → M (Next (Unit {0}) (Unit {0}))
  comment_round u c =
      let d = advance c in
      if at_end c
      then ok (stop tt) c
      else if is_at newline c
      then ok (stop tt) d
      else if is_at backslash c
      then (if is_at newline d
          then ok (again tt) (advance d)
          else if not (at_end d)
          then ok (again tt) (advance d)
          else ok (again tt) d)
      else ok (again tt) d

  unfoldable pub skip_comment : M (Unit {0})
  unfolding loop advance is_at
  skip_comment c = loop comment_round limit tt (advance c)

  abbrev pub separator_round : Unit {0} → M (Next (Unit {0}) (Unit {0}))
  separator_round u c =
      if is_any_whitespace (peek c) || is_at semicolon c
      then ok (again tt) (advance c)
      else if is_at hash c
      then behind (skip_comment c) (λ _. return (again tt))
      else ok (stop tt) c

  unfoldable pub skip_command_separators : M (Unit {0})
  unfolding loop skip_comment is_any_whitespace peek advance is_at
  skip_command_separators = loop separator_round limit tt

module _ (tables : CharTables) (limit : ℕ) where
  abbrev pub Parts : Type 0
  Parts = List Word × List SrcSpan

  abbrev pub command_round : Bool → Parts → M (Next Parts Parts)
  command_round bracket_term (words, srcs) c =
      if at_end_of_command bracket_term c
      then ok (stop (words, srcs)) c
      else behind (parse_next_word tables limit limit bracket_term c) λ w d.
        behind (skip_line_whitespace limit d)
          (λ _. return (again (words ++ (w ∷ []), srcs ++ (span c.pos d.pos ∷ []))))

  abbrev pub finish_command : Cursor → Parts → M Command
  finish_command start (words, srcs) c =
      let d = past_terminator c in
      ok
        (record {
          words = words;
          line = start.line;
          text = span start.pos (text_end start d);
          word_srcs = srcs;
        })
        d

  unfoldable pub parse_command : Bool → M Command
  unfolding loop at_end_of_command parse_next_word skip_line_whitespace past_terminator text_end
  parse_command bracket_term c =
      behind (loop (command_round bracket_term) limit ([], []) c) (finish_command c)

  abbrev pub add_unless : List Word → List Command → Command → List Command
  add_unless [] commands cmd = commands
  add_unless (w ∷ ws) commands cmd = commands ++ (cmd ∷ [])

  abbrev pub add_command : List Command → Command → List Command
  add_command commands cmd = add_unless cmd.words commands cmd

  abbrev pub script_end : Bool → List Command → M (Next (List Command) (List Command))
  script_end bracket_term commands c =
      if at_end c || (bracket_term && is_at right_bracket c)
      then ok (stop commands) c
      else behind (parse_command bracket_term c) (λ cmd. return (again (add_command commands cmd)))

  abbrev pub script_round : Bool → List Command → M (Next (List Command) (List Command))
  script_round bracket_term commands c =
      behind (skip_command_separators limit c) (λ _. script_end bracket_term commands)

  unfoldable pub parse_script : Bool → M (List Command)
  unfolding loop parse_command skip_command_separators is_at
  parse_script bracket_term = loop (script_round bracket_term) limit []

-- Every round of a loop takes a character, but for the last.
unfoldable pub parse : CharTables → Chars → Parsed (List Command)
unfolding parse_script new_cursor
parse tables source = parse_script tables (length source + 1) false (new_cursor source)
