-- ===== src/ListRep/Find.antt =====
-- Lemmas on `find_element` after `convert_element` (crates/rtcl-vm/src/value.rs).
use rtcl.Prelude.{
  ℕ, zero, suc, ◌≡◌, ◌≢◌, ◌<◌, subst, refl, ap, ◌∙◌, ◌⊎◌, inl, inr, Bool, true, false, [], ◌∷◌,
  ◌++◌, append_assoc, ◌==◌, arith, All, Bool-cases, if_intro, ◌&&◌,
}
use rtcl.Prelude.Int.{ℤ, pos, negsuc}
use rtcl.ListRep.Quote.{
  Bytes, backslash, is_tcl_space, ConvMode, plain, brace, escape, mask, Scan, is_zero, scan_from,
  scan_start, choose, scan_element, escape_all, convert_mode, convert_hash, convert_element,
}
use rtcl.ListRep.Backslash.{scan_backslash, collapse_from}
use rtcl.ListRep.Parse.{ok, skip_spaces, braced, bare, has_backslash, find_element}
use rtcl.ListRep.Scan.{scan_from-forbid, scan_from-prefer_brace, IsBare, scan_from-IsBare}
use rtcl.ListRep.Braces.{Ends, At, braced_lem}
use rtcl.ListRep.Utf8.{IsUtf8, one, two, three, four, IsUtf8-Framed}
use rtcl.ListRep.Escapes.{
  escape_byte-StandsFor, bare-plain, bare-pair, bare-Ends, bare-escape_all,
  collapse_from-no_backslash, collapse_from-pair, element_value-eq-collapse, collapse-escape_all,
}

-- The text starts with a byte that is no space.
abbrev pub Starts : Bytes → Type 0
Starts [] = ⊥
Starts (c ∷ s) = is_tcl_space c ≡ false

-- The text before `rest` is read as the element `x`; what follows is `rest`, with or without its
-- leading spaces.
pub record Found (text x rest : Bytes) : Type 0 where
  pub starts : Starts text
  pub found :
      (find_element (text ++ rest) ≡ ok (x, rest))
      ⊎ (find_element (text ++ rest) ≡ ok (x, skip_spaces rest))

choose-plain : (f : Scan) → choose f ≡ plain → f.forbid_none ≡ false
unfolding choose
choose-plain f h = ground arith

choose-mask : (f : Scan) → choose f ≡ mask → f.prefer_brace ≡ false
unfolding choose
choose-mask f h = ground arith

is_zero→eq : (n : ℤ) → is_zero n ≡ true → n ≡ pos 0
is_zero→eq (pos zero) h = refl
is_zero→eq (pos (suc n)) h = cc
is_zero→eq (negsuc n) h = cc

choose-balanced : (f : Scan) → choose f ≢ escape → (f.require_escape ≡ false) × (f.nesting ≡ pos 0)
unfolding choose
choose-balanced f h = (ground arith, is_zero→eq f.nesting (ground arith))

find_element-open : (s : Bytes) → find_element (b'{' ∷ s) ≡ braced 0 1 s
unfolding find_element
find_element-open s = refl

brace_text : (x rest : Bytes) → convert_mode brace x ++ rest ≡ b'{' ∷ (x ++ b'}' ∷ rest)
unfolding convert_mode
brace_text x rest = ap (λ t. b'{' ∷ t) (append_assoc x (b'}' ∷ []) rest)

-- In braces.
Found-brace :
    (c : ℕ) (s rest : Bytes)
    → IsUtf8 (c ∷ s)
    → scan_element (c ∷ s) ≢ escape
    → Ends rest
    → Found (convert_mode brace (c ∷ s)) (c ∷ s) rest
unfolding scan_element convert_mode is_tcl_space
Found-brace c s rest u h e =
    let (unset, even) = choose-balanced (scan_from (c ∷ s) (scan_start c)) h in
    let a : At 0 (scan_start c) (c ∷ s) = record {
      open_now = refl;
      no_escape = unset;
      balanced = even;
    } in
    let reads = braced_lem rest e 0 0 (scan_start c) (c ∷ s) (IsUtf8-Framed u) a tt in
    record {
      starts = refl;
      found = inr (ap find_element (brace_text (c ∷ s) rest) ∙ find_element-open _ ∙ reads);
    }

bare-All : (x rest : Bytes) → All IsBare x → Ends rest → bare 0 (x ++ rest) ≡ ok (x, rest)
bare-All [] rest h e = bare-Ends rest e
bare-All (c ∷ s) rest (h, hs) e = rw (bare-plain c (s ++ rest) h, bare-All s rest hs e)

has_backslash-All : (x : Bytes) → All IsBare x → has_backslash x ≡ false
unfolding has_backslash
has_backslash-All [] h = refl
has_backslash-All (c ∷ s) (h, hs) = rw (h.1, has_backslash-All s hs)

find_element-bare :
    (c : ℕ) (s raw rest : Bytes)
    → (c == b'{') ≡ false
    → (c == b'"') ≡ false
    → bare 0 (c ∷ s) ≡ ok (raw, rest)
    → find_element (c ∷ s) ≡ ok (collapse_from 0 0 raw, rest)
unfolding find_element
find_element-bare c s raw rest h k e = rw (h, k, e, element_value-eq-collapse raw)

-- As it is.
Found-plain :
    (c : ℕ) (s rest : Bytes) → scan_element (c ∷ s) ≡ plain → Ends rest → Found (c ∷ s) (c ∷ s) rest
unfolding scan_element
Found-plain c s rest h e =
    let unset = choose-plain (scan_from (c ∷ s) (scan_start c)) h in
    let start = scan_from-forbid (c ∷ s) (scan_start c) unset in
    let b = scan_from-IsBare (c ∷ s) (scan_start c) unset in
    let raw = bare-All (c ∷ s) rest b e in
    let same = collapse_from-no_backslash 0 (c ∷ s) (has_backslash-All (c ∷ s) b) in
    record {
      starts = b.0.0;
      found = inl (
          find_element-bare c (s ++ rest) (c ∷ s) rest (ground arith) (ground arith) raw ∙ rw same);
    }

-- How the escaped text of a nonempty element starts.
abbrev BareStart : Bytes → Type 0
BareStart [] = ⊥
BareStart (c ∷ s) = (is_tcl_space c ≡ false) × ((c == b'{') ≡ false) × ((c == b'"') ≡ false)

escape_all-BareStart :
    (braces : Bool) (c : ℕ) (s : Bytes)
    → (braces ≡ false → (c == b'{') ≡ false)
    → BareStart (escape_all braces (c ∷ s))
unfolding escape_all is_tcl_space
escape_all-BareStart braces c s h = elim (escape_byte-StandsFor braces c) [
  | inl (e, b, q, opens) ↦ rw e (b.0, elim (Bool-cases braces) [ inl t ↦ opens t | inr f ↦ h f ], q)
  | inr (x, e, _) ↦ rw e (refl, refl, refl)
]

-- Bytes that are read as one bare element.
Found-bare :
    (text x rest : Bytes)
    → BareStart text
    → bare 0 (text ++ rest) ≡ ok (text, rest)
    → collapse_from 0 0 text ≡ x
    → Found text x rest
Found-bare [] x rest h k e = elim h [ ]
Found-bare (c ∷ s) x rest (a, b, q) k e = record {
  starts = a;
  found = inl (find_element-bare c (s ++ rest) (c ∷ s) rest b q k ∙ rw e);
}

-- With backslashes.
Found-escaped :
    (braces : Bool) (c : ℕ) (s rest : Bytes)
    → (braces ≡ false → (c == b'{') ≡ false)
    → IsUtf8 (c ∷ s)
    → Ends rest
    → Found (escape_all braces (c ∷ s)) (c ∷ s) rest
Found-escaped braces c s rest h u e =
    Found-bare (escape_all braces (c ∷ s)) (c ∷ s) rest (escape_all-BareStart braces c s h)
      (bare-escape_all braces (c ∷ s) rest e) (collapse-escape_all braces u)

-- With a quoted hash.
Found-hash :
    (s rest : Bytes)
    → IsUtf8 s
    → Ends rest
    → Found (backslash ∷ b'#' ∷ escape_all true s) (b'#' ∷ s) rest
unfolding is_tcl_space scan_backslash
Found-hash s rest u e =
    let text = escape_all true s in
    Found-bare (backslash ∷ b'#' ∷ text) (b'#' ∷ s) rest (refl, refl, refl)
      (bare-pair b'#' (text ++ rest) refl ∙ rw (bare-escape_all true s rest e))
      (collapse_from-pair b'#' b'#' text refl ∙ rw (collapse-escape_all true u))

IsUtf8-tail : (c : ℕ) (s : Bytes) → c < 0x80 → IsUtf8 (c ∷ s) → IsUtf8 s
IsUtf8-tail c s l (one h u) = u
IsUtf8-tail c s l (two h k b u) = absurd (omega (arith, l, h))
IsUtf8-tail c s l (three h k b d u) = absurd (omega (arith, l, h))
IsUtf8-tail c s l (four h b d e u) = absurd (omega (arith, l, h))

-- The modes of a first element that starts with a hash.
Found-convert_hash :
    (m : ConvMode) (s rest : Bytes)
    → scan_element (b'#' ∷ s) ≡ m
    → IsUtf8 (b'#' ∷ s)
    → Ends rest
    → Found (convert_hash m s) (b'#' ∷ s) rest
unfolding convert_hash convert_mode
Found-convert_hash escape s rest h u e = Found-hash s rest (IsUtf8-tail b'#' s (omega arith) u) e
Found-convert_hash plain s rest h u e = Found-brace b'#' s rest u (λ k. cc) e
Found-convert_hash brace s rest h u e = Found-brace b'#' s rest u (λ k. cc) e
Found-convert_hash mask s rest h u e = Found-brace b'#' s rest u (λ k. cc) e

mask-start : (c : ℕ) (s : Bytes) → scan_element (c ∷ s) ≡ mask → (c == b'{') ≡ false
unfolding scan_element
mask-start c s h =
    let unset = choose-mask (scan_from (c ∷ s) (scan_start c)) h in
    let start = scan_from-prefer_brace (c ∷ s) (scan_start c) unset in ground arith

Found-convert_mode :
    (m : ConvMode) (c : ℕ) (s rest : Bytes)
    → scan_element (c ∷ s) ≡ m
    → IsUtf8 (c ∷ s)
    → Ends rest
    → Found (convert_mode m (c ∷ s)) (c ∷ s) rest
unfolding convert_mode
Found-convert_mode plain c s rest h u e = Found-plain c s rest h e
Found-convert_mode brace c s rest h u e = Found-brace c s rest u (λ k. cc) e
Found-convert_mode escape c s rest h u e = Found-escaped true c s rest (λ k. cc) u e
Found-convert_mode mask c s rest h u e = Found-escaped false c s rest (λ _. mask-start c s h) u e

Found-empty : (rest : Bytes) → Ends rest → Found (b'{' ∷ b'}' ∷ []) [] rest
unfolding is_tcl_space scan_from
Found-empty rest e =
    let f = scan_start 0 in
    let a : At 0 f [] = record { open_now = refl; no_escape = refl; balanced = refl } in
    record { starts = refl; found = inr (find_element-open _ ∙ braced_lem rest e 0 0 f [] tt a tt) }

-- Whatever the mode.
pub Found-convert_element :
    (x rest : Bytes) (quote_hash : Bool)
    → IsUtf8 x
    → Ends rest
    → Found (convert_element x quote_hash) x rest
unfolding convert_element
Found-convert_element [] rest quote_hash u e = Found-empty rest e
Found-convert_element (c ∷ s) rest quote_hash u e =
    if_intro (λ t. Found t (c ∷ s) rest) (quote_hash && c == b'#')
      (λ h.
        let k : c ≡ b'#' = ground arith in
        let u' : IsUtf8 (b'#' ∷ s) = subst (λ d. IsUtf8 (d ∷ s)) k u in
        rw k (Found-convert_hash (scan_element (b'#' ∷ s)) s rest refl u' e))
      (λ _. Found-convert_mode (scan_element (c ∷ s)) c s rest refl u e)
