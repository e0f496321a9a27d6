-- ===== src/Parser/Rd/Word.antt =====
-- crates/rtcl-parser/src/rd/word.rs and tokens.rs: words, and the accumulator of their parts.
use rtcl.Prelude.{
  ℕ, zero, suc, ◌-◌, Bool, true, false, not, ◌&&◌, ◌||◌, [], ◌∷◌, ◌++◌, Option, none, some, ◌==◌,
  leb, if◌then◌else◌, codes,
}
use rtcl.Parser.Rd.Escape.{backslash_subst}
use rtcl.Parser.Rd.Group.{
  parse_braced_word, parse_cmd_sub, try_parse_expr_sugar, try_parse_var_index, unclosed,
}
use rtcl.Parser.Rd.Parsed.{
  ok, out_of_fuel, Message, missing_quote, missing_variable_brace, missing_paren,
  extra_after_close_brace, extra_after_close_quote, M, return, error_at, Next, again, stop, loop,
  behind, ◌>>◌,
}
use rtcl.Parser.Rd.Token.{
  Chars, Cursor, newline, backslash, dollar, left_brace, right_brace, left_bracket, double_quote,
  left_paren, colon, same, other_char, is_line_whitespace, peek, peek_at, advance, is_at, at_end,
  at_end_of_command, slice,
}

mutual
  pub data Word : Type 0 where
    literal : Chars → Word
    var_ref : Chars → Word
    command_sub : Chars → Word
    concat : Words → Word
    expand : Word → Word
    expr_sugar : Chars → Word

  pub data Words : Type 0 where
    nil : Words
    cons : Word → Words → Words

unfoldable pub snoc : Words → Word → Words
snoc nil w = cons w nil
snoc (cons v ws) w = cons v (snoc ws w)

pub record Tokens : Type 0 where
  pub parts : Words
  pub string : Chars
  pub has_string : Bool

abbrev pub new_tokens : Tokens
new_tokens = record { parts = nil; string = []; has_string = false }

unfoldable pub flush_string : Tokens → Tokens
unfolding snoc
flush_string t =
    if t.has_string
    then record { parts = snoc t.parts (literal t.string); string = []; has_string = false }
    else t

unfoldable pub push : Word → Tokens → Tokens
unfolding flush_string snoc
push w t = let u = flush_string t in record u { parts = snoc u.parts w }

unfoldable pub push_str : Chars → Tokens → Tokens
push_str s t = record t { string = t.string ++ s; has_string = true }

abbrev pub one_word : Words → Word
one_word nil = literal []
one_word (cons w nil) = w
one_word (cons v (cons w ws)) = concat (cons v (cons w ws))

-- `Tokens::take`.
unfoldable pub take_word : Tokens → Word
unfolding flush_string
take_word t = one_word (flush_string t).parts

-- The text from `start` on, if there is any.
unfoldable pub push_slice : Cursor → Cursor → Tokens → Tokens
unfolding push_str slice
push_slice start c t = if c.pos == start.pos then t else push_str (slice start c) t

abbrev pub sugar_word : Option Chars → Tokens → Tokens
sugar_word none t = push_str (b'$' ∷ []) t
sugar_word (some []) t = push (var_ref (codes "()")) t
sugar_word (some (c ∷ s)) t = push (expr_sugar (c ∷ s)) t

-- `char::is_alphabetic` and `char::is_whitespace` are tables of the Rust library.
pub record CharTables : Type 0 where
  pub is_alphabetic : ℕ → Bool
  pub is_whitespace : ℕ → Bool

module _ (tables : CharTables) (limit : ℕ) where
  abbrev pub is_alphanumeric : ℕ → Bool
  is_alphanumeric c =
      (leb b'0' c && leb c b'9') || ((leb b'a' c && leb c b'z') || (leb b'A' c && leb c b'Z'))

  unfoldable pub is_varname_char : ℕ → Bool
  is_varname_char c = is_alphanumeric c || (c == b'_' || tables.is_alphabetic c)

  abbrev pub is_name : Option ℕ → Bool
  is_name none = false
  is_name (some c) = is_varname_char c

  -- Two colons.
  abbrev pub at_colons : Cursor → Bool
  at_colons c = is_at colon c && same (peek_at 1 c) colon

  unfoldable pub is_var_start : Cursor → Bool
  unfolding is_varname_char is_at peek_at peek
  is_var_start c = is_name (other_char (peek c)) || at_colons c

  abbrev pub var_name_round : Cursor → Unit {0} → M (Next (Unit {0}) Chars)
  var_name_round start u c =
      if is_name (other_char (peek c))
      then ok (again tt) (advance c)
      else if at_colons c
      then ok (again tt) (advance (advance c))
      else ok (stop (slice start c)) c

  abbrev pub braced_name_round : Cursor → Unit {0} → M (Next (Unit {0}) Chars)
  braced_name_round start u c =
      if at_end c
      then error_at missing_variable_brace c
      else if is_at right_brace c
      then ok (stop (slice start c)) (advance c)
      else ok (again tt) (advance c)

  abbrev pub indexed : Chars → Tokens → Option Chars → M Tokens
  indexed name t none c = error_at missing_paren c
  indexed name t (some index) c = ok (push (var_ref (name ++ (b'(' ∷ (index ++ (b')' ∷ []))))) t) c

  abbrev pub behind_name : Tokens → Chars → M Tokens
  behind_name t name c =
      if is_at left_paren c
      then behind (try_parse_var_index limit c) (indexed name t)
      else ok (push (var_ref name) t) c

  unfoldable pub parse_dollar : Tokens → M Tokens
  unfolding loop parse_cmd_sub try_parse_expr_sugar try_parse_var_index is_var_start push push_str
      slice advance
  parse_dollar t c =
      let d = advance c in
      if is_at left_bracket d
      then behind (parse_cmd_sub limit d) (λ s. return (push (expr_sugar s) t))
      else if is_at left_brace d
      then behind (loop (braced_name_round (advance d)) limit tt (advance d))
          (λ s. return (push (var_ref s) t))
      else if is_at left_paren d
      then behind (try_parse_expr_sugar limit d) (λ s. return (sugar_word s t))
      else if is_var_start d
      then behind (loop (var_name_round d) limit tt d) (behind_name t)
      else ok (push_str (b'$' ∷ []) t) d

  -- The state of a word: its parts, and where the text that is not yet among them starts.
  abbrev pub Part : Type 0
  Part = Tokens × Cursor

  -- A substitution in a word.
  abbrev pub substituted : {A : Type 0} → Tokens → M (Next Part A)
  substituted t c = ok (again (t, c)) c

  abbrev pub word_round : {A : Type 0} → Part → M (Next Part A)
  word_round (t, start) c =
      let u = push_slice start c t in
      if is_at left_bracket c
      then behind (parse_cmd_sub limit c) (λ s. substituted (push (command_sub s) u))
      else if is_at dollar c
      then behind (parse_dollar u c) substituted
      else if is_at backslash c
      then behind (backslash_subst limit c) (λ x. substituted (push_str (x ∷ []) u))
      else ok (again (t, start)) (advance c)

  abbrev pub quoted_round : ℕ → ℕ → Part → M (Next Part Word)
  quoted_round line opener (t, start) c =
      if at_end c
      then unclosed missing_quote line opener
      else if is_at double_quote c
      then ok (stop (take_word (push_slice start c t))) (advance c)
      else word_round (t, start) c

  unfoldable pub parse_quoted_word : M Word
  unfolding loop parse_cmd_sub parse_dollar backslash_subst push_slice push push_str take_word
      advance is_at
  parse_quoted_word c =
      let d = advance c in loop (quoted_round c.line (d.pos - 1)) limit (new_tokens, d) d

  -- A backslash and a line end: the end of the word, or blanks before it.
  abbrev pub bare_continuation : Part → M (Next Part Word)
  bare_continuation (t, start) c =
      if not (c.pos == start.pos)
      then behind (backslash_subst limit c) (λ x. return (stop (take_word (push_slice start c t))))
      else behind (backslash_subst limit c) (λ x. substituted t)

  abbrev pub bare_round : Bool → Part → M (Next Part Word)
  bare_round bracket_term (t, start) c =
      if at_end_of_command bracket_term c || is_line_whitespace (peek c)
      then ok (stop (take_word (push_slice start c t))) c
      else if is_at backslash c && same (peek_at 1 c) newline
      then bare_continuation (t, start) c
      else word_round (t, start) c

  unfoldable pub parse_bare_word : Bool → M Word
  unfolding loop parse_cmd_sub parse_dollar backslash_subst push_slice push push_str take_word
      advance is_at at_end_of_command is_line_whitespace peek peek_at
  parse_bare_word bracket_term c = loop (bare_round bracket_term) limit (new_tokens, c) c

  unfoldable pub check_no_trailing_garbage : Bool → Message → M (Unit {0})
  unfolding at_end_of_command is_line_whitespace is_at peek_at
  check_no_trailing_garbage bracket_term m c =
      if at_end_of_command bracket_term c || is_line_whitespace (peek c)
      then ok tt c
      else if is_at backslash c && same (peek_at 1 c) newline
      then ok tt c
      else error_at m c

  -- `{*}` and a word behind it.
  unfoldable pub is_expand : Bool → Chars → Bool
  is_expand bracket_term [] = false
  is_expand bracket_term (a ∷ []) = false
  is_expand bracket_term (a ∷ b ∷ []) = false
  is_expand bracket_term (a ∷ b ∷ c ∷ []) = false
  is_expand bracket_term (a ∷ b ∷ c ∷ d ∷ s) =
      (a == b'{' && (b == b'*' && c == b'}'))
      && (not (tables.is_whitespace d) && (not (d == b';') && not (bracket_term && d == b']')))

  unfoldable pub parse_next_word : ℕ → Bool → M Word
  unfolding is_expand parse_braced_word parse_quoted_word parse_bare_word check_no_trailing_garbage
      advance is_at
  parse_next_word zero bracket_term c = out_of_fuel
  parse_next_word (suc fuel) bracket_term c =
      let expanded =
        behind (parse_next_word fuel bracket_term (advance (advance (advance c))))
          (λ w. return (expand w)) in
      if is_at left_brace c
      then if is_expand bracket_term c.left
        then expanded
        else behind (parse_braced_word limit c) (λ s.
          check_no_trailing_garbage bracket_term extra_after_close_brace >> return (literal s))
      else if is_at double_quote c
      then behind (parse_quoted_word c)
          (λ w. check_no_trailing_garbage bracket_term extra_after_close_quote >> return w)
      else parse_bare_word bracket_term c
