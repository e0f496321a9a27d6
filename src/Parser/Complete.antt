-- ===== src/Parser/Complete.antt =====
-- crates/rtcl-parser/src/completeness.rs, `is_complete`: is more input needed? A text is its bytes,
-- an index what is left from there.
pub mod Fuel
pub mod Tests
use rtcl.Prelude.{
  ℕ, zero, suc, ◌+◌, ◌-◌, Bool, true, false, ◌&&◌, ◌||◌, List, [], ◌∷◌, Option, none, some, length,
  ◌==◌, if◌then◌else◌,
}

abbrev pub Text : Type 0
Text = List ℕ

-- The scan of a group: what is left behind it, or the group is open at the end of the text. A bound
-- on the rounds that is too small is told apart from both.
pub data Scan : Type 0 where
  closed : Text → Scan
  unclosed out_of_fuel : Scan

-- What closes a group whose bytes are scanned: a quote or a bracket.
pub data Closer : Type 0 where
  quote bracket : Closer

-- `skip_braces` at `depth` open braces; `escaped` says that a backslash stands before.
unfoldable pub skip_braces : Bool → ℕ → Text → Option Text
skip_braces escaped depth [] = none
skip_braces true depth (c ∷ s) = skip_braces false depth s
skip_braces false depth (c ∷ s) =
    let deeper = skip_braces false (suc depth) s in
    let shallower = skip_braces false (depth - 1) s in
    let after_escape = skip_braces true depth s in
    let other = skip_braces false depth s in
    if c == b'{'
    then deeper
    else if c == b'}'
    then (if depth == 1 then some s else shallower)
    else if c == 92
    then after_escape
    else other

abbrev pub past_byte : Text → Text
past_byte [] = []
past_byte (c ∷ s) = s

-- Go on behind a group, if it is closed.
abbrev pub behind : (Text → Scan) → Scan → Scan
behind more unclosed = unclosed
behind more out_of_fuel = out_of_fuel
behind more (closed s) = more s

-- The answer of `skip_braces`, which takes a byte in every round and needs no bound.
abbrev pub from_braces : Option Text → Scan
from_braces none = unclosed
from_braces (some s) = closed s

-- One round of `skip_quotes` or `skip_brackets`; `more` stands for the rounds and calls that follow.
unfoldable pub skip_round : (Closer → Text → Scan) → Closer → Text → Scan
unfolding skip_braces
skip_round more closer [] = unclosed
skip_round more quote (c ∷ s) =
    if c == b'"'
    then closed s
    else if c == 92
    then more quote (past_byte s)
    else if c == b'['
    then behind (more quote) (more bracket s)
    else more quote s
skip_round more bracket (c ∷ s) =
    if c == b']'
    then closed s
    else if c == b'{'
    then behind (more bracket) (from_braces (skip_braces false 1 s))
    else if c == b'"'
    then behind (more bracket) (more quote s)
    else if c == 92
    then more bracket (past_byte s)
    else if c == b'['
    then behind (more bracket) (more bracket s)
    else more bracket s

-- `skip_quotes` and `skip_brackets`; every round takes a byte at least.
unfoldable pub skip_group : ℕ → Closer → Text → Scan
unfolding skip_round
skip_group zero closer s = out_of_fuel
skip_group (suc fuel) closer s = skip_round (skip_group fuel) closer s

unfoldable pub skip_blanks : Text → Text
skip_blanks [] = []
skip_blanks (c ∷ s) = if c == 32 || c == 9 then skip_blanks s else c ∷ s

abbrev pub starts_with_newline : Text → Bool
starts_with_newline [] = false
starts_with_newline (c ∷ s) = c == 10

abbrev pub unless_end : (Text → Option Bool) → Text → Option Bool
unless_end more [] = some false
unless_end more (c ∷ s) = more (c ∷ s)

-- Behind a backslash.
unfoldable pub scan_escape : (Text → Option Bool) → Text → Option Bool
unfolding skip_blanks
scan_escape more [] = more []
scan_escape more (c ∷ s) =
    if c == 10 || (c == 13 && starts_with_newline s)
    then unless_end more (skip_blanks s)
    else more s

abbrev pub scan_behind : (Text → Option Bool) → Scan → Option Bool
scan_behind more unclosed = some false
scan_behind more out_of_fuel = none
scan_behind more (closed s) = more s

-- One round of the main scan; `group` is the scan of a group.
unfoldable pub scan_round : (Closer → Text → Scan) → (Text → Option Bool) → Text → Option Bool
unfolding skip_braces scan_escape
scan_round group more [] = some true
scan_round group more (c ∷ s) =
    if c == b'{'
    then scan_behind more (from_braces (skip_braces false 1 s))
    else if c == b'"'
    then scan_behind more (group quote s)
    else if c == b'['
    then scan_behind more (group bracket s)
    else if c == 92
    then scan_escape more s
    else more s

-- `none`: out of rounds.
unfoldable pub scan_script : ℕ → Text → Option Bool
unfolding scan_round skip_group
scan_script zero s = none
scan_script (suc fuel) s = scan_round (skip_group fuel) (scan_script fuel) s

unfoldable pub is_complete : Text → Option Bool
unfolding scan_script
is_complete s = scan_script (length s + 1) s
