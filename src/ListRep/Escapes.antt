-- ===== src/ListRep/Escapes.antt =====
-- Lemmas on scanning and collapsing an escaped element (crates/rtcl-vm/src/value.rs).
use rtcl.Prelude.{
  ℕ, zero, suc, ◌≤◌, ◌≡◌, refl, ap, ◌∙◌, ◌⊎◌, inl, inr, Bool, true, false, [], ◌∷◌, ◌++◌, ◌==◌,
  arith, Bool-cases,
}
use rtcl.ListRep.Quote.{Bytes, backslash, is_tcl_space, escape_byte, escape_all}
use rtcl.ListRep.Backslash.{less_one, utf8_len, scan_backslash, collapse_from, collapse}
use rtcl.ListRep.Parse.{ok, push, step, bare, has_backslash, element_value}
use rtcl.ListRep.Scan.{IsBare}
use rtcl.ListRep.Braces.{Ends}
use rtcl.ListRep.Utf8.{
  IsUtf8, done, one, two, three, four, utf8_len-one, utf8_len-two, utf8_len-three, utf8_len-four,
}

-- A byte stands as it is, or as a backslash and a letter that is read back as the byte.
abbrev pub StandsFor : Bool → ℕ → Type 0
StandsFor braces c =
    ((escape_byte braces c ≡ c ∷ [])
      × IsBare c
      × ((c == b'"') ≡ false)
      × (braces ≡ true → (c == b'{') ≡ false))
    ⊎ ((x : ℕ) × (escape_byte braces c ≡ backslash ∷ x ∷ [])
        × ((u : Bytes) → scan_backslash (x ∷ u) ≡ (2, c ∷ [])))

-- To tell one byte from the others.
StandsFor-or :
    {braces : Bool} (c k : ℕ)
    → StandsFor braces k
    → ((c == k) ≡ false → StandsFor braces c)
    → StandsFor braces c
StandsFor-or c k here others = elim (Bool-cases (c == k)) [
  | inl h ↦ let e : c ≡ k = ground arith in rw e here
  | inr h ↦ others h
]

open_brace-StandsFor : (braces : Bool) → StandsFor braces b'{'
unfolding escape_byte scan_backslash is_tcl_space
open_brace-StandsFor true = inr (b'{', refl, λ u. refl)
open_brace-StandsFor false = inl (refl, (refl, refl), refl, λ e. cc)

close_brace-StandsFor : (braces : Bool) → StandsFor braces b'}'
unfolding escape_byte scan_backslash is_tcl_space
close_brace-StandsFor true = inr (b'}', refl, λ u. refl)
close_brace-StandsFor false = inl (refl, (refl, refl), refl, λ e. refl)

pub escape_byte-StandsFor : (braces : Bool) (c : ℕ) → StandsFor braces c
unfolding escape_byte scan_backslash is_tcl_space
escape_byte-StandsFor braces c = StandsFor-or c 93 (inr (93, refl, λ u. refl)) (λ h93.
    StandsFor-or c 91 (inr (91, refl, λ u. refl)) (λ h91.
      StandsFor-or c 36 (inr (36, refl, λ u. refl)) (λ h36.
        StandsFor-or c 59 (inr (59, refl, λ u. refl)) (λ h59.
          StandsFor-or c 32 (inr (32, refl, λ u. refl)) (λ h32.
            StandsFor-or c 92 (inr (92, refl, λ u. refl)) (λ h92.
              StandsFor-or c 34 (inr (34, refl, λ u. refl)) (λ h34.
                StandsFor-or c 12 (inr (102, refl, λ u. refl)) (λ h12.
                  StandsFor-or c 10 (inr (110, refl, λ u. refl)) (λ h10.
                    StandsFor-or c 13 (inr (114, refl, λ u. refl)) (λ h13.
                      StandsFor-or c 9 (inr (116, refl, λ u. refl)) (λ h9.
                        StandsFor-or c 11 (inr (118, refl, λ u. refl)) (λ h11.
                          StandsFor-or c 123 (open_brace-StandsFor braces) (λ h123.
                            StandsFor-or c 125 (close_brace-StandsFor braces) (λ h125. inl (
                              ground arith,
                              (ground arith, ground arith),
                              ground arith,
                              λ e. h123,
                            )))))))))))))))

pub bare-plain : (c : ℕ) (s : Bytes) → IsBare c → bare 0 (c ∷ s) ≡ push c (bare 0 s)
unfolding bare
bare-plain c s (h, k) = rw (h, k) refl

bare-backslash :
    (s : Bytes)
    → bare 0 (backslash ∷ s) ≡ step (scan_backslash s).0 (λ skip. push backslash (bare skip s))
unfolding bare is_tcl_space
bare-backslash s = refl

bare-skipped : (x : ℕ) (s : Bytes) → bare 1 (x ∷ s) ≡ push x (bare 0 s)
unfolding bare
bare-skipped x s = refl

pub bare-pair :
    (x : ℕ) (s : Bytes)
    → (scan_backslash (x ∷ s)).0 ≡ 2
    → bare 0 (backslash ∷ x ∷ s) ≡ push backslash (push x (bare 0 s))
bare-pair x s h =
    bare-backslash (x ∷ s)
    ∙ ap (λ n. step n (λ skip. push backslash (bare skip (x ∷ s)))) h
    ∙ ap (push backslash) (bare-skipped x s)

pub bare-Ends : (rest : Bytes) → Ends rest → bare 0 rest ≡ ok ([], rest)
unfolding bare
bare-Ends [] h = refl
bare-Ends (c ∷ s) h = rw h refl

-- The escaped text ends where the element ends.
pub bare-escape_all :
    (braces : Bool) (s rest : Bytes)
    → Ends rest
    → bare 0 (escape_all braces s ++ rest) ≡ ok (escape_all braces s, rest)
unfolding escape_all
bare-escape_all braces [] rest h = bare-Ends rest h
bare-escape_all braces (c ∷ s) rest h = elim (escape_byte-StandsFor braces c) [
  | inl (e, b, _, _) ↦
      rw (e, bare-plain c (escape_all braces s ++ rest) b, bare-escape_all braces s rest h)
  | inr (x, e, r) ↦ rw (
    e,
    bare-pair x (escape_all braces s ++ rest) (ap (λ (p : ℕ × Bytes). p.0) (r _)),
    bare-escape_all braces s rest h,
  )
]

collapse_from-plain :
    (c : ℕ) (s : Bytes)
    → (c == backslash) ≡ false
    → collapse_from 0 0 (c ∷ s) ≡ c ∷ collapse_from 0 (less_one (utf8_len c)) s
unfolding collapse_from
collapse_from-plain c s h = rw h

collapse_from-backslash :
    (s : Bytes)
    → collapse_from 0 0 (backslash ∷ s)
      ≡ (scan_backslash s).1 ++ collapse_from (less_one (scan_backslash s).0) 0 s
unfolding collapse_from
collapse_from-backslash s = refl

collapse_from-none : collapse_from 0 0 [] ≡ []
unfolding collapse_from
collapse_from-none = refl

collapse_from-skipped : (x : ℕ) (s : Bytes) → collapse_from 1 0 (x ∷ s) ≡ collapse_from 0 0 s
unfolding collapse_from
collapse_from-skipped x s = refl

collapse_from-copied :
    (copy c : ℕ) (s : Bytes) → collapse_from 0 (suc copy) (c ∷ s) ≡ c ∷ collapse_from 0 copy s
unfolding collapse_from
collapse_from-copied copy c s = refl

pub collapse_from-pair :
    (x c : ℕ) (s : Bytes)
    → scan_backslash (x ∷ s) ≡ (2, c ∷ [])
    → collapse_from 0 0 (backslash ∷ x ∷ s) ≡ c ∷ collapse_from 0 0 s
collapse_from-pair x c s h = rw (collapse_from-backslash (x ∷ s), h, collapse_from-skipped x s)

escape_byte-high : (braces : Bool) (c : ℕ) → 0x80 ≤ c → escape_byte braces c ≡ c ∷ []
unfolding escape_byte
escape_byte-high braces c h = ground arith

-- Without a backslash there is nothing to collapse.
pub collapse_from-no_backslash :
    (copy : ℕ) (s : Bytes) → has_backslash s ≡ false → collapse_from 0 copy s ≡ s
unfolding has_backslash collapse_from
collapse_from-no_backslash copy [] h = refl
collapse_from-no_backslash (suc copy) (c ∷ s) h =
    ap (λ t. c ∷ t) (collapse_from-no_backslash copy s (ground arith))
collapse_from-no_backslash zero (c ∷ s) h = elim (Bool-cases (c == backslash)) [
  | inl e ↦ absurd (ground arith)
  | inr e ↦
      rw e (ap (λ t. c ∷ t) (collapse_from-no_backslash (less_one (utf8_len c)) s (ground arith)))
]

pub element_value-eq-collapse : (s : Bytes) → element_value s ≡ collapse_from 0 0 s
unfolding element_value collapse
element_value-eq-collapse s = elim (Bool-cases (has_backslash s)) [
  | inl e ↦ rw e refl
  | inr e ↦ rw (e, collapse_from-no_backslash 0 s e)
]

-- Collapsing the escaped text gives the element back.
pub collapse-escape_all :
    (braces : Bool) {s : Bytes} → IsUtf8 s → collapse_from 0 0 (escape_all braces s) ≡ s
unfolding escape_all
collapse-escape_all braces done = rw collapse_from-none refl
collapse-escape_all braces (one {a = a} {s = s} h u) = elim (escape_byte-StandsFor braces a) [
  | inl (e, (_, b), _, _) ↦ rw (
    e,
    collapse_from-plain a (escape_all braces s) b,
    utf8_len-one a h,
    collapse-escape_all braces u,
  )
  | inr (x, e, r) ↦ rw (
    e,
    collapse_from-pair x a (escape_all braces s) (r (escape_all braces s)),
    collapse-escape_all braces u,
  )
]
collapse-escape_all braces (two {a = a} {b = b'} {s = s} h k b u) =
    let t = escape_all braces s in
    rw (
      escape_byte-high braces a (ground arith),
      escape_byte-high braces b' b.low,
      collapse_from-plain a (b' ∷ t) (ground arith),
      utf8_len-two a h k,
      collapse_from-copied 0 b' t,
      collapse-escape_all braces u,
    )
collapse-escape_all braces (three {a = a} {b = b'} {c = c'} {s = s} h k b c u) =
    let t = escape_all braces s in
    rw (
      escape_byte-high braces a (ground arith),
      escape_byte-high braces b' b.low,
      escape_byte-high braces c' c.low,
      collapse_from-plain a (b' ∷ c' ∷ t) (ground arith),
      utf8_len-three a h k,
      collapse_from-copied 1 b' (c' ∷ t),
      collapse_from-copied 0 c' t,
      collapse-escape_all braces u,
    )
collapse-escape_all braces (four {a = a} {b = b'} {c = c'} {d = d'} {s = s} h b c d u) =
    let t = escape_all braces s in
    rw (
      escape_byte-high braces a (ground arith),
      escape_byte-high braces b' b.low,
      escape_byte-high braces c' c.low,
      escape_byte-high braces d' d.low,
      collapse_from-plain a (b' ∷ c' ∷ d' ∷ t) (ground arith),
      utf8_len-four a h,
      collapse_from-copied 2 b' (c' ∷ d' ∷ t),
      collapse_from-copied 1 c' (d' ∷ t),
      collapse_from-copied 0 d' t,
      collapse-escape_all braces u,
    )
