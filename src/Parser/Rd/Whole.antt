-- ===== src/Parser/Rd/Whole.antt =====
-- `parse` of crates/rtcl-parser/src/rd/mod.rs as a whole.
use rtcl.Prelude.{ℕ, ◌+◌, ◌^◌, ◌≤◌, ◌<◌, ◌≡◌, ◌≢◌, ◌⊎◌, true, List, [], ◌∷◌, ◌++◌, length, All}
use rtcl.Parser.Rd.Gaps.{Gap, Starts}
use rtcl.Parser.Rd.Located.{SpanIn}
use rtcl.Parser.Rd.Parsed.{Parsed, ok, err, out_of_fuel}
use rtcl.Parser.Rd.Reach.{Reaches, size, line_feeds}
use rtcl.Parser.Rd.Script.{Command}
use rtcl.Parser.Rd.Token.{Chars, Cursor, at_end}
use rtcl.Parser.Rd.Word.{Word, CharTables}

-- A command stands at `here` in the text, and `rest` follows it: its line is that of its start,
-- counted from one by the line feeds before it; its text ends where it does or before its
-- terminator; it has words, and each has a span between that start and the end of the text.
pub record Placed (source here rest : Chars) (cmd : Command) : Type 0 where
  pub before : Chars
  pub body : Chars
  pub parts : source ≡ before ++ here
  pub body_parts : here ≡ body ++ rest
  pub shorter : length rest < length here
  pub line_eq : cmd.line ≡ 1 + line_feeds before
  pub start_eq : cmd.text.start ≡ size before
  pub end_eq :
      (cmd.text.end ≡ size before + size body) ⊎ (cmd.text.end + 1 ≡ size before + size body)
  pub ordered : cmd.text.start ≤ cmd.text.end
  pub some_words : cmd.words ≢ []
  pub matched : length cmd.words ≡ length cmd.word_srcs
  pub spans : All (SpanIn cmd.text.start (size source)) cmd.word_srcs

-- The commands of what is left of the text: each starts at the first character that belongs to no
-- separator and no comment, and behind the last there is nothing else up to the end.
pub data Commands (source : Chars) : Chars → List Command → Type 0 where
  last : {s : Chars} → Gap s [] → Commands source s []
  next :
      {s here rest : Chars} {cmd : Command} {commands : List Command}
      → Gap s here
      → Starts here
      → Placed source here rest cmd
      → Commands source rest commands
      → Commands source s (cmd ∷ commands)

module _ (tables : CharTables) (limit : ℕ) (source : Chars) (enough : length source < limit)
    (small : size source < 2 ^ 32) where
  abbrev start : Cursor
  start = record { left = source; pos = 0; line = 1 }

  -- With the commands of what is left, these are the commands of the text.
  abbrev Found : List Command → Chars → Type 0
  Found commands s =
      (more : List Command) → Commands source s more → Commands source source (commands ++ more)

  abbrev ScriptInv : List Command → Cursor → Type 0
  ScriptInv commands c = Reaches start c × Found commands c.left

  abbrev ScriptStop : List Command → Cursor → Type 0
  ScriptStop commands c = Commands source source commands × (at_end c ≡ true)

-- How the parse of a text of fewer than 2^32 bytes ends: at the end of the text, with its commands,
-- or with an error at an offset within it; the fuel is enough.
abbrev pub Parses : Chars → Parsed (List Command) → Type 0
Parses source (ok commands c) = Commands source source commands × (at_end c ≡ true)
Parses source (err e) = e.offset ≤ size source
Parses source out_of_fuel = ⊥
