-- ===== src/Parser/Agree/Tests.antt =====
-- The agreement of a braced word of crates/rtcl-parser/src/rd/word.rs with the brace scan of
-- crates/rtcl-parser/src/completeness.rs, at a text with an escaped brace and a text that is open.
use rtcl.Prelude.{false, ◌≡◌, refl, ◌∷◌, ◌++◌, some, codes, arith}
use rtcl.Parser.Agree.Braces.{Agrees, Agrees-parse_braced_word}
use rtcl.Parser.Agree.Bytes.{utf8, utf8_char}
use rtcl.Parser.Complete.{skip_braces}
use rtcl.Parser.Rd.Group.{parse_braced_word}
use rtcl.Parser.Rd.Token.{Chars}

-- `a {é} \} }` and more behind the word.
abbrev inner : Chars
inner = codes "a {" ++ (233 ∷ codes "} \\} } more")

inner_end : skip_braces false 1 (utf8 inner) ≡ some (codes " more")
unfolding skip_braces utf8_char
inner_end = refl

Agrees-parse_braced_word_example :
    Agrees
      (record { left = b'{' ∷ inner; pos = 6; line = 2 })
      (parse_braced_word 100 (record { left = b'{' ∷ inner; pos = 6; line = 2 }))
      (skip_braces false 1 (utf8 inner))
Agrees-parse_braced_word_example = Agrees-parse_braced_word 100 inner 6 2 (omega arith)
