-- ===== src/Parser/Rd/Tests.antt =====
-- Parses of small scripts by crates/rtcl-parser/src/rd, and the theorems at such scripts.
use rtcl.Prelude.{ℕ, ◌≡◌, refl, false, ◌||◌, List, [], ◌∷◌, ◌++◌, codes, ◌==◌}
use rtcl.Parser.Rd.Escape.{backslash_subst}
use rtcl.Parser.Rd.Parsed.{Parsed, ok, err, missing_close_brace, extra_after_close_quote}
use rtcl.Parser.Rd.Script.{Command, SrcSpan, parse}
use rtcl.Parser.Rd.Token.{new_cursor}
use rtcl.Parser.Rd.Word.{Word, nil, cons, CharTables, literal, var_ref, command_sub, concat, expand}

-- The tables of ASCII.
abbrev pub ascii : CharTables
ascii = record {
  is_alphabetic = λ c. false;
  is_whitespace = λ c. c == 32 || (c == 9 || (c == 10 || c == 13));
}

abbrev map_words : List Command → List (List Word)
map_words [] = []
map_words (cmd ∷ rest) = cmd.words ∷ map_words rest

abbrev words_of : Parsed (List Command) → List (List Word)
words_of (ok commands c) = map_words commands
words_of r = []

abbrev at : ℕ → ℕ → SrcSpan
at start end = record { start = start; end = end }

two_commands :
    parse ascii (codes "set x 1;" ++ (10 ∷ codes "# note" ++ (10 ∷ codes "puts {a b}")))
    ≡ ok
        (record {
          words = literal (codes "set") ∷ literal (codes "x") ∷ literal (codes "1") ∷ [];
          line = 1;
          text = at 0 7;
          word_srcs = at 0 3 ∷ at 4 5 ∷ at 6 7 ∷ [];
        }
          ∷ record {
            words = literal (codes "puts") ∷ literal (codes "a b") ∷ [];
            line = 3;
            text = at 16 26;
            word_srcs = at 16 20 ∷ at 21 26 ∷ [];
          }
          ∷ [])
        (record { left = []; pos = 26; line = 3 })
unfolding parse
two_commands = refl

substitutions :
    words_of (parse ascii (codes "puts $a(1)x[cmd {]}]$::b {*}$l"))
    ≡ (literal (codes "puts")
        ∷ concat (
            cons (var_ref (codes "a(1)")) (
              cons
                (literal (codes "x"))
                (cons (command_sub (codes "cmd {]}")) (cons (var_ref (codes "::b")) nil))))
        ∷ expand (var_ref (codes "l"))
        ∷ [])
      ∷ []
unfolding parse
substitutions = refl

unclosed_brace :
    parse ascii (codes "set x {a")
    ≡ err (record { message = missing_close_brace; line = 1; column = 0; offset = 6 })
unfolding parse
unclosed_brace = refl

garbage :
    parse ascii (codes "set v " ++ (34 ∷ codes "ab" ++ (34 ∷ codes "cd")))
    ≡ err (record { message = extra_after_close_quote; line = 1; column = 0; offset = 10 })
unfolding parse
garbage = refl

-- An escaped semicolon at the end of the text is taken for a terminator.
text_loses_escape :
    parse ascii (codes "puts a" ++ (92 ∷ codes ";"))
    ≡ ok
        (record {
          words = literal (codes "puts") ∷ literal (codes "a;") ∷ [];
          line = 1;
          text = at 0 7;
          word_srcs = at 0 4 ∷ at 5 8 ∷ [];
        }
          ∷ [])
        (record { left = []; pos = 8; line = 1 })
unfolding parse
text_loses_escape = refl

-- Behind a carriage return and a line feed, the carriage return stays in the text.
text_keeps_return :
    parse ascii (codes "a" ++ (13 ∷ 10 ∷ []))
    ≡ ok
        (record {
          words = literal (codes "a") ∷ [];
          line = 1;
          text = at 0 2;
          word_srcs = at 0 1 ∷ [];
        }
          ∷ [])
        (record { left = []; pos = 3; line = 2 })
unfolding parse
text_keeps_return = refl

octal_overflow :
    backslash_subst 9 (new_cursor (92 ∷ codes "400"))
    ≡ ok 0 (record { left = []; pos = 4; line = 1 })
unfolding backslash_subst new_cursor
octal_overflow = refl
