-- ===== src/ListRep/Quiet.antt =====
-- Lemmas on how the brace count of crates/rtcl-vm/src/value.rs passes over backslash sequences.
use rtcl.Prelude.{
  ℕ, zero, suc, ◌+◌, ◌-◌, ◌≤◌, ◌≡◌, refl, sym, subst, ◌⊎◌, inl, inr, true, false, [], ◌∷◌, ◌++◌,
  ◌==◌, length, take, drop, arith, if◌then◌else◌, if_intro, Bool-cases, leb, ltb, ◌&&◌, ◌||◌,
}
use rtcl.ListRep.Quote.{Bytes, backslash}
use rtcl.ListRep.Backslash.{
  less_one, utf8_len, is_hex, is_octal, read_hex, read_octal, hex_escape, low_surrogate, is_pair,
  unicode_text, unicode_escape, scan_backslash,
}

abbrev pub IsQuiet : ℕ → Type 0
IsQuiet c = ((c == b'{') ≡ false) × ((c == b'}') ≡ false) × ((c == backslash) ≡ false)

-- The one backslash that a sequence can hold inside: the `\u` of a low surrogate.
abbrev pub OpensUnicode : ℕ → Bytes → Type 0
OpensUnicode c [] = ⊥
OpensUnicode c (d ∷ s) = (c ≡ backslash) × (d ≡ b'u')

-- The first `k` bytes are there, and the brace count passes over them.
abbrev pub Quiet : ℕ → Bytes → Type 0
Quiet zero s = Unit
Quiet (suc k) [] = ⊥
Quiet (suc k) (c ∷ s) = (IsQuiet c ⊎ OpensUnicode c s) × Quiet k s

-- The first `k` bytes are there, and none is ASCII.
abbrev pub High : ℕ → Bytes → Type 0
High zero s = Unit
High (suc k) [] = ⊥
High (suc k) (c ∷ s) = (128 ≤ c) × High k s

Quiet-add : (k j : ℕ) (s : Bytes) → Quiet k s → Quiet j (drop k s) → Quiet (k + j) s
Quiet-add zero j s h g = subst (λ n. Quiet n s) (omega arith) g
Quiet-add (suc k) j [] h g = elim h [ ]
Quiet-add (suc k) j (c ∷ s) (h, hs) g =
    let e : suc (k + j) ≡ suc k + j = omega arith in
    subst (λ n. Quiet n (c ∷ s)) e (h, Quiet-add k j s hs g)

drop-Quiet : (k : ℕ) (s u : Bytes) → Quiet k s → drop k (s ++ u) ≡ drop k s ++ u
drop-Quiet zero s u h = refl
drop-Quiet (suc k) [] u h = elim h [ ]
drop-Quiet (suc k) (c ∷ s) u (h, hs) = drop-Quiet k s u hs

High-Quiet : (k : ℕ) (s u : Bytes) → High k s → Quiet (length (take k (s ++ u))) s
High-Quiet zero s u h = tt
High-Quiet (suc k) [] u h = elim h [ ]
High-Quiet (suc k) (c ∷ s) u (h, hs) =
    (inl (ground arith, ground arith, ground arith), High-Quiet k s u hs)

is_hex-IsQuiet : (c : ℕ) → is_hex c ≡ true → IsQuiet c
unfolding is_hex
is_hex-IsQuiet c h = (ground arith, ground arith, ground arith)

is_octal-IsQuiet : (c : ℕ) → is_octal c ≡ true → IsQuiet c
unfolding is_octal
is_octal-IsQuiet c h = (ground arith, ground arith, ground arith)

pub utf8_len-suc : (d : ℕ) → utf8_len d ≡ suc (less_one (utf8_len d))
unfolding utf8_len
utf8_len-suc d =
    let P = λ (n : ℕ). n ≡ suc (less_one n) in
    if_intro P (ltb d 0x80) (λ _. refl)
      (λ _.
        if_intro P (leb 0xf0 d) (λ _. refl) (λ _. if_intro P (leb 0xe0 d) (λ _. refl) (λ _. refl)))

unicode_text-Quiet :
    (c val n low m d : ℕ) (s : Bytes)
    → IsQuiet d
    → Quiet n s
    → ((m == 4) ≡ true → Quiet (n + suc (suc m)) s)
    → Quiet (less_one (unicode_text c val n low m).0) (d ∷ s)
unfolding unicode_text
unicode_text-Quiet c val n low m d s q first both =
    if_intro (λ (r : ℕ × Bytes). Quiet (less_one r.0) (d ∷ s)) (n == 0) (λ _. (inl q, tt))
      (λ _.
        if_intro (λ (r : ℕ × Bytes). Quiet (less_one r.0) (d ∷ s)) (is_pair c val n low m)
          (λ e. (inl q, both (ground arith))) (λ _. (inl q, first)))

module _ (rest : Bytes) where
  -- The text of a braced element, with its closing brace and what follows.
  abbrev closed : Bytes → Bytes
  closed s = s ++ b'}' ∷ rest

  read_hex-Quiet : (max val : ℕ) (s : Bytes) → Quiet (read_hex max val (closed s)).1 s
  unfolding read_hex
  read_hex-Quiet zero val s = tt
  read_hex-Quiet (suc max) val [] = tt
  read_hex-Quiet (suc max) val (c ∷ s) =
      if_intro (λ (r : ℕ × ℕ). Quiet r.1 (c ∷ s)) (is_hex c)
        (λ h. (inl (is_hex-IsQuiet c h), read_hex-Quiet max _ s)) (λ _. tt)

  read_octal-Quiet : (max val : ℕ) (s : Bytes) → Quiet (read_octal max val (closed s)).1 s
  unfolding read_octal
  read_octal-Quiet zero val s = tt
  read_octal-Quiet (suc max) val [] = tt
  read_octal-Quiet (suc max) val (c ∷ s) =
      if_intro (λ (r : ℕ × ℕ). Quiet r.1 (c ∷ s))
        (is_octal c && (if max == 0 && leb 0x20 val then false else true))
        (λ h. (inl (is_octal-IsQuiet c (ground arith)), read_octal-Quiet max _ s)) (λ _. tt)

  hex_escape-Quiet :
      (s : Bytes) (d : ℕ) → IsQuiet d → Quiet (less_one (hex_escape (closed s)).0) (d ∷ s)
  unfolding hex_escape
  hex_escape-Quiet s d q =
      if_intro (λ (r : ℕ × Bytes). Quiet (less_one r.0) (d ∷ s)) ((read_hex 2 0 (closed s)).1 == 0)
        (λ _. (inl q, tt)) (λ _. (inl q, read_hex-Quiet 2 0 s))

  brace_no_surrogate : (t : Bytes) → ((low_surrogate (b'}' ∷ t)).1 == 4) ≡ false
  unfolding low_surrogate
  brace_no_surrogate [] = refl
  brace_no_surrogate (c ∷ t) = refl

  low_surrogate-Quiet :
      (s : Bytes)
      → ((low_surrogate (closed s)).1 == 4) ≡ true
      → Quiet (suc (suc (low_surrogate (closed s)).1)) s
  unfolding low_surrogate
  low_surrogate-Quiet [] h = cc (brace_no_surrogate rest)
  low_surrogate-Quiet (a ∷ []) h = absurd (ground arith)
  low_surrogate-Quiet (a ∷ b ∷ s) h = elim (Bool-cases (a == backslash && b == b'u')) [
    | inl e ↦ (
      inr (ground arith, ground arith),
      (inl (ground arith, ground arith, ground arith), rw e (read_hex-Quiet 4 0 s)),
    )
    | inr e ↦ absurd (ground arith)
  ]

  unicode_escape-Quiet :
      (s : Bytes) (c d : ℕ) → IsQuiet d → Quiet (less_one (unicode_escape c (closed s)).0) (d ∷ s)
  unfolding unicode_escape
  unicode_escape-Quiet s c d q =
      let max = if c == b'u' then 4 else 8 in
      let (val, n) = read_hex max 0 (closed s) in
      let first : Quiet n s = read_hex-Quiet max 0 s in
      let (low, m) = low_surrogate (drop n (closed s)) in
      let shift = drop-Quiet n s (b'}' ∷ rest) first in
      unicode_text-Quiet c val n low m d s q first (λ e. Quiet-add n (suc (suc m)) s first (
        subst (λ t. Quiet (suc (suc (low_surrogate t).1)) (drop n s)) (sym shift)
          (low_surrogate-Quiet (drop n s)
            (subst (λ t. ((low_surrogate t).1 == 4) ≡ true) shift e))))

  octal_text-Quiet :
      (s : Bytes) (d : ℕ) → IsQuiet d → Quiet (suc (read_octal 2 (d - 48) (closed s)).1) (d ∷ s)
  octal_text-Quiet s d q = (inl q, read_octal-Quiet 2 (d - 48) s)

  character-Quiet :
      (s : Bytes) (d : ℕ)
      → IsQuiet d
      → High (less_one (utf8_len d)) s
      → Quiet (length (take (utf8_len d) (d ∷ closed s))) (d ∷ s)
  character-Quiet s d q h =
      subst (λ n. Quiet (length (take n (d ∷ closed s))) (d ∷ s)) (sym (utf8_len-suc d))
        (inl q, High-Quiet (less_one (utf8_len d)) s (b'}' ∷ rest) h)

  -- The bytes that the sequence of a backslash takes along, when a brace, a backslash or a newline
  -- does not follow it.
  pub scan_backslash-Quiet :
      (d : ℕ) (s : Bytes)
      → IsQuiet d
      → (d == 10) ≡ false
      → High (less_one (utf8_len d)) s
      → Quiet (less_one (scan_backslash (d ∷ closed s)).0) (d ∷ s)
  unfolding scan_backslash
  scan_backslash-Quiet d s q newline h =
      let P = λ (r : ℕ × Bytes). Quiet (less_one r.0) (d ∷ s) in
      let one : Quiet 1 (d ∷ s) = (inl q, tt) in
      if_intro P (d == b'a') (λ _. one)
        (λ _.
          if_intro P (d == b'b') (λ _. one)
            (λ _.
              if_intro P (d == b'f') (λ _. one)
                (λ _.
                  if_intro P (d == b'n') (λ _. one)
                    (λ _.
                      if_intro P (d == b'r') (λ _. one)
                        (λ _.
                          if_intro P (d == b't') (λ _. one)
                            (λ _.
                              if_intro P (d == b'v') (λ _. one)
                                (λ _.
                                  if_intro P (d == b'x') (λ _. hex_escape-Quiet s d q)
                                    (λ _.
                                      if_intro P (d == b'u' || d == b'U')
                                        (λ _. unicode_escape-Quiet s d d q)
                                        (λ _.
                                          if_intro P (is_octal d) (λ _. octal_text-Quiet s d q)
                                            (λ _.
                                              if_intro P (d == 10) (λ e. absurd (ground arith))
                                                (λ _. character-Quiet s d q h)))))))))))
