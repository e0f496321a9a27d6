-- ===== src/ListRep/Backslash.antt =====
-- `scan_backslash` and `collapse`: backslash sequences inside a list element.
use Prim.Native.Nat.{min}
use rtcl.Prelude.{
  ℕ, zero, suc, ◌+◌, ◌-◌, ◌*◌, ◌/◌, ◌%◌, Bool, true, false, ◌&&◌, ◌||◌, [], ◌∷◌, ◌++◌, ◌==◌, leb,
  ltb, length, take, drop, if◌then◌else◌,
}
use rtcl.ListRep.Quote.{Bytes, backslash}

-- What is left of a sequence or a character, once its first byte is behind.
abbrev pub less_one : ℕ → ℕ
less_one zero = zero
less_one (suc n) = n

-- The length of the UTF-8 sequence that `b` starts.
unfoldable pub utf8_len : ℕ → ℕ
utf8_len b = if ltb b 0x80 then 1 else if leb 0xf0 b then 4 else if leb 0xe0 b then 3 else 2

-- `char::to_string`: the UTF-8 bytes of a code point.
unfoldable pub encode_utf8 : ℕ → Bytes
encode_utf8 c =
    if ltb c 0x80
    then c ∷ []
    else if ltb c 0x800
    then (0xc0 + c / 64) ∷ (0x80 + c % 64) ∷ []
    else if ltb c 0x10000
    then (0xe0 + c / 4096) ∷ (0x80 + c / 64 % 64) ∷ (0x80 + c % 64) ∷ []
    else (0xf0 + c / 262144) ∷ (0x80 + c / 4096 % 64) ∷ (0x80 + c / 64 % 64) ∷ (0x80 + c % 64) ∷ []

-- `char::from_u32(v).unwrap_or('\u{fffd}')`
unfoldable pub char_or_replacement : ℕ → ℕ
char_or_replacement v = if ltb 0x10ffff v || (leb 0xd800 v && ltb v 0xe000) then 0xfffd else v

unfoldable pub is_hex : ℕ → Bool
is_hex c = (leb b'0' c && leb c b'9') || ((leb b'a' c && leb c b'f') || (leb b'A' c && leb c b'F'))

unfoldable pub hex_digit : ℕ → ℕ
hex_digit c = if leb c b'9' then c - 48 else if leb b'a' c then c - 87 else c - 55

unfoldable pub is_octal : ℕ → Bool
is_octal c = leb b'0' c && leb c b'7'

-- At most `max` hex digits: the value, saturated as a u32, and how many were read.
unfoldable pub read_hex : ℕ → ℕ → Bytes → ℕ × ℕ
unfolding is_hex hex_digit
read_hex zero val s = (val, 0)
read_hex (suc max) val [] = (val, 0)
read_hex (suc max) val (c ∷ s) =
    let (v, n) = read_hex max (min (min (val * 16) 0xffff_ffff + hex_digit c) 0xffff_ffff) s in
    if is_hex c then (v, suc n) else (val, 0)

-- Up to `max` further octal digits; the last is taken only if the value stays below 256.
unfoldable pub read_octal : ℕ → ℕ → Bytes → ℕ × ℕ
unfolding is_octal
read_octal zero val s = (val, 0)
read_octal (suc max) val [] = (val, 0)
read_octal (suc max) val (c ∷ s) =
    let (v, n) = read_octal max (val * 8 + (c - 48)) s in
    if is_octal c && (if max == 0 && leb 0x20 val then false else true)
    then (v, suc n)
    else (val, 0)

unfoldable pub blanks : Bytes → ℕ
blanks [] = 0
blanks (c ∷ s) = if c == 32 || c == 9 then suc (blanks s) else 0

-- `\x`: the bytes read behind the letter, and the text.
unfoldable pub hex_escape : Bytes → ℕ × Bytes
unfolding read_hex encode_utf8
hex_escape t =
    let (val, n) = read_hex 2 0 t in
    if n == 0 then (2, b'x' ∷ []) else (suc (suc n), encode_utf8 (val % 256))

-- A low surrogate after a high one, `\u` included.
unfoldable pub low_surrogate : Bytes → ℕ × ℕ
unfolding read_hex
low_surrogate (a ∷ b ∷ t) = if a == backslash && b == b'u' then read_hex 4 0 t else (0, 0)
low_surrogate t = (0, 0)

-- Four digits `val` of a high surrogate, and four digits `low` of a low one behind them.
abbrev pub is_pair : ℕ → ℕ → ℕ → ℕ → ℕ → Bool
is_pair c val n low m =
    m == 4
    && ((c == b'u' && n == 4)
        && ((leb 0xd800 val && ltb val 0xdc00) && (leb 0xdc00 low && ltb low 0xe000)))

unfoldable pub unicode_text : ℕ → ℕ → ℕ → ℕ → ℕ → ℕ × Bytes
unfolding encode_utf8 char_or_replacement
unicode_text c val n low m =
    if n == 0
    then (2, c ∷ [])
    else if is_pair c val n low m
    then (
      suc (suc (n + suc (suc m))),
      encode_utf8 (char_or_replacement (val % 0x400 * 0x400 + low % 0x400 + 0x10000)),
    )
    else (suc (suc n), encode_utf8 (char_or_replacement val))

unfoldable pub unicode_escape : ℕ → Bytes → ℕ × Bytes
unfolding read_hex low_surrogate unicode_text
unicode_escape c t =
    let (val, n) = read_hex (if c == b'u' then 4 else 8) 0 t in
    let (low, m) = low_surrogate (drop n t) in unicode_text c val n low m

-- The sequence whose backslash stands before these bytes: how many bytes it takes, the backslash
-- included, and the text that replaces it.
unfoldable pub scan_backslash : Bytes → ℕ × Bytes
unfolding hex_escape unicode_escape read_octal is_octal blanks utf8_len encode_utf8
scan_backslash [] = (1, backslash ∷ [])
scan_backslash (c ∷ t) =
    if c == b'a'
    then (2, 7 ∷ [])
    else if c == b'b'
    then (2, 8 ∷ [])
    else if c == b'f'
    then (2, 12 ∷ [])
    else if c == b'n'
    then (2, 10 ∷ [])
    else if c == b'r'
    then (2, 13 ∷ [])
    else if c == b't'
    then (2, 9 ∷ [])
    else if c == b'v'
    then (2, 11 ∷ [])
    else if c == b'x'
    then hex_escape t
    else if c == b'u' || c == b'U'
    then unicode_escape c t
    else if is_octal c
    then (let (val, n) = read_octal 2 (c - 48) t in (suc (suc n), encode_utf8 (val % 256)))
    else if c == 10
    then (suc (suc (blanks t)), 32 ∷ [])
    else (let text = take (utf8_len c) (c ∷ t) in (suc (length text), text))

-- The loop of `collapse`: `skip` bytes of a sequence, or `copy` bytes of a character, are left.
unfoldable pub collapse_from : ℕ → ℕ → Bytes → Bytes
unfolding scan_backslash utf8_len
collapse_from skip copy [] = []
collapse_from (suc skip) copy (c ∷ s) = collapse_from skip copy s
collapse_from zero (suc copy) (c ∷ s) = c ∷ collapse_from zero copy s
collapse_from zero zero (c ∷ s) =
    let sequence = (scan_backslash s).1 ++ collapse_from (less_one (scan_backslash s).0) 0 s in
    let character = c ∷ collapse_from 0 (less_one (utf8_len c)) s in
    if c == backslash then sequence else character

unfoldable pub collapse : Bytes → Bytes
unfolding collapse_from
collapse s = collapse_from 0 0 s
