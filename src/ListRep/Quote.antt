-- ===== src/ListRep/Quote.antt =====
-- `scan_element`, `convert_element` and `serialize_list`: how a list is written.
use rtcl.Prelude.{
  ℕ, zero, suc, Bool, true, false, ◌&&◌, ◌||◌, List, [], ◌∷◌, ◌++◌, ◌==◌, leb, if◌then◌else◌,
}
use rtcl.Prelude.Int.{ℤ, pos, negsuc}

abbrev pub Bytes : Type 0
Bytes = List ℕ

abbrev pub backslash : ℕ
backslash = 92

unfoldable pub is_tcl_space : ℕ → Bool
is_tcl_space b = b == 32 || (leb 9 b && leb b 13)

pub data ConvMode : Type 0 where
  plain brace escape mask : ConvMode

-- The locals of `scan_element`.
pub record Scan : Type 0 where
  pub forbid_none : Bool
  pub require_escape : Bool
  pub prefer_escape : Bool
  pub prefer_brace : Bool
  pub nesting : ℤ

abbrev pub up : ℤ → ℤ
up (pos n) = pos (suc n)
up (negsuc zero) = pos 0
up (negsuc (suc n)) = negsuc n

abbrev pub down : ℤ → ℤ
down (pos zero) = negsuc 0
down (pos (suc n)) = pos n
down (negsuc n) = negsuc (suc n)

abbrev pub is_neg : ℤ → Bool
is_neg (pos n) = false
is_neg (negsuc n) = true

abbrev pub is_zero : ℤ → Bool
is_zero (pos zero) = true
is_zero (pos (suc n)) = false
is_zero (negsuc n) = false

abbrev pub need_brace : Scan → Scan
need_brace f = record f { forbid_none = true; prefer_brace = true }

abbrev pub need_escape : Scan → Scan
need_escape f = record f { forbid_none = true; prefer_escape = true }

abbrev pub must_escape : Scan → Scan
must_escape f = record f { require_escape = true }

-- One round of the loop, for a byte other than a backslash.
unfoldable pub scan_byte : ℕ → Scan → Scan
unfolding is_tcl_space
scan_byte c f =
    if c == b'{'
    then record f { nesting = up f.nesting }
    else if c == b'}'
    then record f {
      nesting = down f.nesting;
      require_escape = if is_neg (down f.nesting) then true else f.require_escape;
    }
    else if c == b']' || c == b'"'
    then need_escape f
    else if c == b'[' || (c == b'$' || c == b';')
    then need_brace f
    else if is_tcl_space c
    then need_brace f
    else f

-- A backslash takes a newline, a brace or a backslash after it along.
unfoldable pub scan_from : Bytes → Scan → Scan
unfolding scan_byte
scan_from [] f = f
scan_from (c ∷ []) f = if c == backslash then need_brace (must_escape f) else scan_byte c f
scan_from (c ∷ d ∷ s) f =
    let newline = scan_from s (need_brace (must_escape f)) in
    let pair = scan_from s (need_brace f) in
    let single = scan_from (d ∷ s) (need_brace f) in
    let other = scan_from (d ∷ s) (scan_byte c f) in
    if c == backslash
    then (if d == 10
        then newline
        else if d == b'{' || (d == b'}' || d == backslash)
        then pair
        else single)
    else other

abbrev pub scan_start : ℕ → Scan
scan_start c =
    let opens = c == b'{' || c == b'"' in
    record {
      forbid_none = opens;
      require_escape = false;
      prefer_escape = false;
      prefer_brace = opens;
      nesting = pos 0;
    }

-- What follows the loop.
unfoldable pub choose : Scan → ConvMode
choose f =
    if f.require_escape || (if is_zero f.nesting then false else true)
    then escape
    else if f.forbid_none
    then (if f.prefer_escape && (if f.prefer_brace then false else true) then mask else brace)
    else plain

unfoldable pub scan_element : Bytes → ConvMode
unfolding scan_from choose
scan_element [] = brace
scan_element (c ∷ s) = choose (scan_from (c ∷ s) (scan_start c))

-- The arm of the escaping loop for one byte; `braces` tells the mode `escape` from `mask`.
unfoldable pub escape_byte : Bool → ℕ → Bytes
escape_byte braces b =
    if b == b']'
      || (b == b'[' || (b == b'$' || (b == b';' || (b == 32 || (b == backslash || b == b'"')))))
    then backslash ∷ b ∷ []
    else if b == b'{' || b == b'}'
    then (if braces then backslash ∷ b ∷ [] else b ∷ [])
    else if b == 12
    then backslash ∷ b'f' ∷ []
    else if b == 10
    then backslash ∷ b'n' ∷ []
    else if b == 13
    then backslash ∷ b'r' ∷ []
    else if b == 9
    then backslash ∷ b't' ∷ []
    else if b == 11
    then backslash ∷ b'v' ∷ []
    else b ∷ []

unfoldable pub escape_all : Bool → Bytes → Bytes
unfolding escape_byte
escape_all braces [] = []
escape_all braces (b ∷ s) = escape_byte braces b ++ escape_all braces s

unfoldable pub convert_mode : ConvMode → Bytes → Bytes
unfolding escape_all
convert_mode plain s = s
convert_mode brace s = b'{' ∷ (s ++ b'}' ∷ [])
convert_mode escape s = escape_all true s
convert_mode mask s = escape_all false s

-- A leading `#` of the first element is quoted.
unfoldable pub convert_hash : ConvMode → Bytes → Bytes
unfolding convert_mode
convert_hash escape s = backslash ∷ b'#' ∷ convert_mode escape s
convert_hash _ s = convert_mode brace (b'#' ∷ s)

unfoldable pub convert_element : Bytes → Bool → Bytes
unfolding scan_element convert_hash
convert_element [] quote_hash = b'{' ∷ b'}' ∷ []
convert_element (c ∷ s) quote_hash =
    if quote_hash && c == b'#'
    then convert_hash (scan_element (c ∷ s)) s
    else convert_mode (scan_element (c ∷ s)) (c ∷ s)

-- The rounds of the loop with `i > 0`.
unfoldable pub serialize_tail : List Bytes → Bytes
unfolding convert_element
serialize_tail [] = []
serialize_tail (item ∷ items) = 32 ∷ (convert_element item false ++ serialize_tail items)

unfoldable pub serialize_list : List Bytes → Bytes
unfolding serialize_tail
serialize_list [] = []
serialize_list (item ∷ items) = convert_element item true ++ serialize_tail items
