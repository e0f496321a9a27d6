-- ===== src/ListRep/Scan.antt =====
-- What the flags of `scan_element` say of the bytes it has scanned.
use rtcl.Prelude.{ℕ, ◌≡◌, false, [], ◌∷◌, ◌==◌, All, arith}
use rtcl.ListRep.Quote.{
  Bytes, backslash, is_tcl_space, Scan, need_brace, must_escape, scan_byte, scan_from,
}

-- Once set, a flag stays set.
scan_byte-forbid :
    (c : ℕ) (f : Scan)
    → (scan_byte c f).forbid_none ≡ false
    → (f.forbid_none ≡ false) × (is_tcl_space c ≡ false)
unfolding scan_byte
scan_byte-forbid c f h = ground arith

scan_byte-require :
    (c : ℕ) (f : Scan) → (scan_byte c f).require_escape ≡ false → f.require_escape ≡ false
unfolding scan_byte
scan_byte-require c f h = ground arith

scan_byte-prefer_brace :
    (c : ℕ) (f : Scan) → (scan_byte c f).prefer_brace ≡ false → f.prefer_brace ≡ false
unfolding scan_byte
scan_byte-prefer_brace c f h = ground arith

pub scan_from-forbid :
    (s : Bytes) (f : Scan) → (scan_from s f).forbid_none ≡ false → f.forbid_none ≡ false
unfolding scan_from
scan_from-forbid [] f h = h
scan_from-forbid (c ∷ []) f h = ground (arith, scan_byte-forbid c f)
scan_from-forbid (c ∷ d ∷ s) f h = ground (
  arith,
  scan_byte-forbid c f,
  scan_from-forbid s (need_brace (must_escape f)),
  scan_from-forbid s (need_brace f),
  scan_from-forbid (d ∷ s) (need_brace f),
  scan_from-forbid (d ∷ s) (scan_byte c f),
)

pub scan_from-require :
    (s : Bytes) (f : Scan) → (scan_from s f).require_escape ≡ false → f.require_escape ≡ false
unfolding scan_from
scan_from-require [] f h = h
scan_from-require (c ∷ []) f h = ground (arith, scan_byte-require c f)
scan_from-require (c ∷ d ∷ s) f h = ground (
  arith,
  scan_byte-require c f,
  scan_from-require s (need_brace (must_escape f)),
  scan_from-require s (need_brace f),
  scan_from-require (d ∷ s) (need_brace f),
  scan_from-require (d ∷ s) (scan_byte c f),
)

pub scan_from-prefer_brace :
    (s : Bytes) (f : Scan) → (scan_from s f).prefer_brace ≡ false → f.prefer_brace ≡ false
unfolding scan_from
scan_from-prefer_brace [] f h = h
scan_from-prefer_brace (c ∷ []) f h = ground (arith, scan_byte-prefer_brace c f)
scan_from-prefer_brace (c ∷ d ∷ s) f h = ground (
  arith,
  scan_byte-prefer_brace c f,
  scan_from-prefer_brace s (need_brace (must_escape f)),
  scan_from-prefer_brace s (need_brace f),
  scan_from-prefer_brace (d ∷ s) (need_brace f),
  scan_from-prefer_brace (d ∷ s) (scan_byte c f),
)

-- A byte that a bare element takes as it is.
abbrev pub IsBare : ℕ → Type 0
IsBare c = (is_tcl_space c ≡ false) × ((c == backslash) ≡ false)

-- Where nothing forbids writing the element as it is, every byte is such a byte.
pub scan_from-IsBare : (s : Bytes) (f : Scan) → (scan_from s f).forbid_none ≡ false → All IsBare s
unfolding scan_from
scan_from-IsBare [] f h = tt
scan_from-IsBare (c ∷ []) f h = ground (arith, scan_byte-forbid c f)
scan_from-IsBare (c ∷ d ∷ s) f h = ground (
  arith,
  scan_byte-forbid c f,
  scan_from-forbid s (need_brace (must_escape f)),
  scan_from-forbid s (need_brace f),
  scan_from-forbid (d ∷ s) (need_brace f),
  scan_from-forbid (d ∷ s) (scan_byte c f),
  scan_from-IsBare (d ∷ s) (scan_byte c f),
)
