-- ===== src/ListRep/Parse.antt =====
-- `parse_elements`, `find_element` and `junk_error`: how a list is read.
use mathlib.Core.List.{reverse}
use rtcl.Prelude.{
  ℕ, zero, suc, ◌+◌, ◌-◌, Bool, true, false, ◌&&◌, List, [], ◌∷◌, ◌==◌, leb, ltb, length,
  if◌then◌else◌,
}
use rtcl.ListRep.Quote.{Bytes, backslash, is_tcl_space}
use rtcl.ListRep.Backslash.{scan_backslash, collapse}

pub data Shape : Type 0 where
  braces quotes : Shape

-- The errors, with the bytes that a junk message quotes. The code has no such values for the last
-- two: a loop that does not end, and a slice past the end of the text, a panic.
pub data ListParseError : Type 0 where
  junk : Shape → Bytes → ListParseError
  unmatched : Shape → ListParseError
  out_of_fuel past_end : ListParseError

pub data Parsed {ℓ} (A : Type ℓ) : Type ℓ where
  ok : A → Parsed A
  err : ListParseError → Parsed A

unfoldable pub skip_spaces : Bytes → Bytes
unfolding is_tcl_space
skip_spaces [] = []
skip_spaces (c ∷ s) = if is_tcl_space c then skip_spaces s else c ∷ s

-- The first loop of `junk_error`: bytes up to a space, `room` at most, reversed, and what follows.
unfoldable pub junk_window : ℕ → Bytes → Bytes → Bytes × Bytes
unfolding is_tcl_space
junk_window zero acc s = (acc, s)
junk_window (suc room) acc [] = (acc, [])
junk_window (suc room) acc (c ∷ s) =
    let more = junk_window room (c ∷ acc) s in if is_tcl_space c then (acc, c ∷ s) else more

abbrev pub at_boundary : Bytes → Bool
at_boundary [] = true
at_boundary (c ∷ s) = if leb 0x80 c && ltb c 0xc0 then false else true

-- The second loop: back to a character boundary.
unfoldable pub to_boundary : Bytes → Bytes → Bytes
to_boundary [] rest = []
to_boundary (c ∷ acc) rest =
    let shorter = to_boundary acc (c ∷ rest) in
    if at_boundary rest then reverse (c ∷ acc) else shorter

unfoldable pub junk_error : Shape → Bytes → ListParseError
unfolding junk_window to_boundary
junk_error shape s = let (acc, rest) = junk_window 20 [] s in junk shape (to_boundary acc rest)

abbrev pub push : ℕ → Parsed (Bytes × Bytes) → Parsed (Bytes × Bytes)
push c (ok (elem, rest)) = ok (c ∷ elem, rest)
push c (err e) = err e

-- `i += n` at a backslash, with `n` from `scan_backslash`: what is left to skip once the backslash is
-- behind. For `n = 0` the loop would stay where it is forever.
abbrev pub step : ℕ → (ℕ → Parsed (Bytes × Bytes)) → Parsed (Bytes × Bytes)
step zero more = err out_of_fuel
step (suc n) more = more n

-- What may follow a closing brace or quote.
unfoldable pub after_close : Shape → Bytes → Parsed (Bytes × Bytes)
unfolding is_tcl_space skip_spaces junk_error
after_close shape [] = ok ([], [])
after_close shape (c ∷ s) =
    if is_tcl_space c then ok ([], skip_spaces (c ∷ s)) else err (junk_error shape (c ∷ s))

-- Inside `depth` open braces; `skip` bytes of a backslash sequence are left.
unfoldable pub braced : ℕ → ℕ → Bytes → Parsed (Bytes × Bytes)
unfolding after_close scan_backslash
braced skip depth [] = err (unmatched braces)
braced (suc skip) depth (c ∷ s) = push c (braced skip depth s)
braced zero depth (c ∷ s) =
    let deeper = push c (braced 0 (suc depth) s) in
    let shallower = push c (braced 0 (depth - 1) s) in
    let sequence = step (scan_backslash s).0 (λ skip. push c (braced skip depth s)) in
    let other = push c (braced 0 depth s) in
    if c == b'{'
    then deeper
    else if c == b'}'
    then (if depth == 1 then after_close braces s else shallower)
    else if c == backslash
    then sequence
    else other

-- Inside quotes; the element is raw.
unfoldable pub quoted : ℕ → Bytes → Parsed (Bytes × Bytes)
unfolding after_close scan_backslash
quoted skip [] = err (unmatched quotes)
quoted (suc skip) (c ∷ s) = push c (quoted skip s)
quoted zero (c ∷ s) =
    let sequence = step (scan_backslash s).0 (λ skip. push c (quoted skip s)) in
    let other = push c (quoted 0 s) in
    if c == b'"' then after_close quotes s else if c == backslash then sequence else other

-- A bare element, raw, and what follows it.
unfoldable pub bare : ℕ → Bytes → Parsed (Bytes × Bytes)
unfolding is_tcl_space scan_backslash
bare zero [] = ok ([], [])
bare (suc skip) [] = err past_end
bare (suc skip) (c ∷ s) = push c (bare skip s)
bare zero (c ∷ s) =
    let sequence = step (scan_backslash s).0 (λ skip. push c (bare skip s)) in
    let other = push c (bare 0 s) in
    if is_tcl_space c then ok ([], c ∷ s) else if c == backslash then sequence else other

-- `has_backslash`, as the scan of a raw element leaves it.
unfoldable pub has_backslash : Bytes → Bool
has_backslash [] = false
has_backslash (c ∷ s) = if c == backslash then true else has_backslash s

unfoldable pub element_value : Bytes → Bytes
unfolding collapse has_backslash
element_value raw = if has_backslash raw then collapse raw else raw

abbrev pub raw_value : Parsed (Bytes × Bytes) → Parsed (Bytes × Bytes)
raw_value (ok (raw, rest)) = ok (element_value raw, rest)
raw_value (err e) = err e

-- The element that these bytes start with, and what follows it.
unfoldable pub find_element : Bytes → Parsed (Bytes × Bytes)
unfolding braced quoted bare element_value
find_element [] = ok ([], [])
find_element (c ∷ s) =
    if c == b'{'
    then braced 0 1 s
    else if c == b'"'
    then raw_value (quoted 0 s)
    else raw_value (bare 0 (c ∷ s))

abbrev pub push_element : Bytes → Parsed (List Bytes) → Parsed (List Bytes)
push_element elem (ok items) = ok (elem ∷ items)
push_element elem (err e) = err e

-- What a round of the loop does with the element found, `more` being the rounds that follow.
unfoldable pub parse_after :
    (Bytes → Parsed (List Bytes)) → Parsed (Bytes × Bytes) → Parsed (List Bytes)
parse_after more (ok (elem, rest)) = push_element elem (more rest)
parse_after more (err e) = err e

-- The round, past the spaces.
unfoldable pub parse_round : (Bytes → Parsed (List Bytes)) → Bytes → Parsed (List Bytes)
unfolding parse_after find_element
parse_round more [] = ok []
parse_round more (c ∷ s) = parse_after more (find_element (c ∷ s))

-- The loop of `parse_elements`, one element a round.
unfoldable pub parse_from : ℕ → Bytes → Parsed (List Bytes)
unfolding skip_spaces parse_round
parse_from zero s = err out_of_fuel
parse_from (suc fuel) s = parse_round (parse_from fuel) (skip_spaces s)

-- `parse_elements`; its two callers differ in the text of the messages only.
unfoldable pub parse_elements : Bytes → Parsed (List Bytes)
unfolding parse_from
parse_elements s = parse_from (length s + 1) s
