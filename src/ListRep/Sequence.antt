-- ===== src/ListRep/Sequence.antt =====
-- Lemmas on how many bytes a backslash sequence takes (`scan_backslash` of crates/rtcl-vm/src/value.rs):
-- its backslash, and no byte behind the end of the text.
use rtcl.Prelude.{
  ℕ, zero, suc, ◌+◌, ◌*◌, ◌-◌, ◌≤◌, ◌≡◌, refl, ◌⊎◌, inl, inr, true, false, ◌&&◌, ◌||◌, [], ◌∷◌,
  ◌==◌, leb, length, take, drop, arith, if_intro, if◌then◌else◌,
}
use Prim.Native.Nat.{min}
use rtcl.ListRep.Quote.{Bytes, backslash}
use rtcl.ListRep.Backslash.{
  less_one, utf8_len, is_hex, is_octal, hex_digit, read_hex, read_octal, blanks, hex_escape,
  low_surrogate, is_pair, unicode_text, unicode_escape, scan_backslash,
}

length-read_hex : (max val : ℕ) (s : Bytes) → (read_hex max val s).1 ≤ length s
unfolding read_hex
length-read_hex zero val s = omega arith
length-read_hex (suc max) val [] = omega arith
length-read_hex (suc max) val (c ∷ s) =
    let v = min (min (val * 16) 0xffff_ffff + hex_digit c) 0xffff_ffff in
    if_intro (λ (r : ℕ × ℕ). r.1 ≤ suc (length s)) (is_hex c)
      {x = ((read_hex max v s).0, suc (read_hex max v s).1)} {y = (val, 0)}
      (λ _. omega (arith, length-read_hex max v s)) (λ _. omega arith)

length-read_octal : (max val : ℕ) (s : Bytes) → (read_octal max val s).1 ≤ length s
unfolding read_octal
length-read_octal zero val s = omega arith
length-read_octal (suc max) val [] = omega arith
length-read_octal (suc max) val (c ∷ s) =
    let v = val * 8 + (c - 48) in
    if_intro (λ (r : ℕ × ℕ). r.1 ≤ suc (length s))
      (is_octal c && (if max == 0 && leb 0x20 val then false else true))
      {x = ((read_octal max v s).0, suc (read_octal max v s).1)} {y = (val, 0)}
      (λ _. omega (arith, length-read_octal max v s)) (λ _. omega arith)

length-blanks : (s : Bytes) → blanks s ≤ length s
unfolding blanks
length-blanks [] = omega arith
length-blanks (c ∷ s) =
    if_intro (λ (n : ℕ). n ≤ suc (length s)) (c == 32 || c == 9) {x = suc (blanks s)} {y = 0}
      (λ _. omega (arith, length-blanks s)) (λ _. omega arith)

length-take : (n : ℕ) (s : Bytes) → length (take n s) ≤ length s
length-take zero s = omega arith
length-take (suc n) [] = omega arith
length-take (suc n) (c ∷ s) = omega (arith, length-take n s)

length-drop : (n : ℕ) (s : Bytes) → n ≤ length s → n + length (drop n s) ≡ length s
length-drop zero s h = omega arith
length-drop (suc n) [] h = absurd (omega (arith, h))
length-drop (suc n) (c ∷ s) h = omega (arith, length-drop n s (omega (arith, h)))

low_surrogate-within :
    (s : Bytes) → ((low_surrogate s).1 ≡ 0) ⊎ ((low_surrogate s).1 + 2 ≤ length s)
unfolding low_surrogate
low_surrogate-within [] = inl refl
low_surrogate-within (a ∷ []) = inl refl
low_surrogate-within (a ∷ b ∷ t) =
    if_intro (λ (r : ℕ × ℕ). (r.1 ≡ 0) ⊎ (r.1 + 2 ≤ suc (suc (length t))))
      (a == backslash && b == b'u') {x = read_hex 4 0 t} {y = (0, 0)}
      (λ _. inr (omega (arith, length-read_hex 4 0 t))) (λ _. inl refl)

-- One byte at least, and `n` bytes behind the backslash at most.
abbrev pub Within : ℕ → ℕ × Bytes → Type 0
Within n r = (1 ≤ r.0) × (r.0 ≤ suc n)

unicode_text-Within :
    (c val n low m l : ℕ)
    → n ≤ l
    → (m ≡ 0) ⊎ (n + (m + 2) ≤ l)
    → Within (suc l) (unicode_text c val n low m)
unfolding unicode_text
unicode_text-Within c val n low m l h k =
    if_intro (Within (suc l)) (n == 0) (λ _. (omega arith, omega arith))
      (λ _.
        if_intro (Within (suc l)) (is_pair c val n low m) (λ p. (omega arith, pair_fits p k))
          (λ _. (omega arith, omega (arith, h))))
  where
    pair_fits :
        is_pair c val n low m ≡ true
        → (m ≡ 0) ⊎ (n + (m + 2) ≤ l)
        → suc (suc (n + suc (suc m))) ≤ suc (suc l)
    pair_fits p (inl z) = absurd (ground arith)
    pair_fits p (inr b) = omega (arith, b)

unicode_escape-Within : (c : ℕ) (t : Bytes) → Within (suc (length t)) (unicode_escape c t)
unfolding unicode_escape
unicode_escape-Within c t =
    let max = if c == b'u' then 4 else 8 in
    let n = (read_hex max 0 t).1 in
    let h = length-read_hex max 0 t in
    let d = length-drop n t h in
    unicode_text-Within c (read_hex max 0 t).0 n (low_surrogate (drop n t)).0
      (low_surrogate (drop n t)).1 (length t) h (fits n d (low_surrogate-within (drop n t)))
  where
    fits :
        (n : ℕ)
        → n + length (drop n t) ≡ length t
        → ((low_surrogate (drop n t)).1 ≡ 0)
          ⊎ ((low_surrogate (drop n t)).1 + 2 ≤ length (drop n t))
        → ((low_surrogate (drop n t)).1 ≡ 0) ⊎ (n + ((low_surrogate (drop n t)).1 + 2) ≤ length t)
    fits n d (inl z) = inl z
    fits n d (inr b) = inr (omega (arith, d, b))

hex_escape-Within : (t : Bytes) → Within (suc (length t)) (hex_escape t)
unfolding hex_escape
hex_escape-Within t =
    if_intro (Within (suc (length t))) ((read_hex 2 0 t).1 == 0) (λ _. (omega arith, omega arith))
      (λ _. (omega arith, omega (arith, length-read_hex 2 0 t)))

-- A sequence takes its backslash at least, and ends with the text at the latest.
pub scan_backslash-Within : (s : Bytes) → Within (length s) (scan_backslash s)
unfolding scan_backslash
scan_backslash-Within [] = (omega arith, omega arith)
scan_backslash-Within (c ∷ t) =
    let P = Within (suc (length t)) in
    let pair : (x : ℕ) → P (2, x ∷ []) = λ x. (omega arith, omega arith) in
    if_intro P (c == b'a') (λ _. pair 7)
      (λ _.
        if_intro P (c == b'b') (λ _. pair 8)
          (λ _.
            if_intro P (c == b'f') (λ _. pair 12)
              (λ _.
                if_intro P (c == b'n') (λ _. pair 10)
                  (λ _.
                    if_intro P (c == b'r') (λ _. pair 13)
                      (λ _.
                        if_intro P (c == b't') (λ _. pair 9)
                          (λ _.
                            if_intro P (c == b'v') (λ _. pair 11)
                              (λ _.
                                if_intro P (c == b'x') (λ _. hex_escape-Within t)
                                  (λ _.
                                    if_intro P (c == b'u' || c == b'U')
                                      (λ _. unicode_escape-Within c t)
                                      (λ _.
                                        if_intro P (is_octal c)
                                          (λ _. (
                                            omega arith,
                                            omega (arith, length-read_octal 2 (c - 48) t),
                                          ))
                                          (λ _.
                                            if_intro P (c == 10)
                                              (λ _. (omega arith, omega (arith, length-blanks t)))
                                              (λ _. (
                                                omega arith,
                                                omega (arith, length-take (utf8_len c) (c ∷ t)),
                                              ))))))))))))

suc_of : (n : ℕ) → 1 ≤ n → n ≡ suc (less_one n)
suc_of zero h = absurd (omega (arith, h))
suc_of (suc n) h = refl

pub scan_backslash-suc : (s : Bytes) → (scan_backslash s).0 ≡ suc (less_one (scan_backslash s).0)
scan_backslash-suc s = suc_of (scan_backslash s).0 (scan_backslash-Within s).0

pub scan_backslash-rest : (s : Bytes) → less_one (scan_backslash s).0 ≤ length s
scan_backslash-rest s = omega (arith, scan_backslash-suc s, (scan_backslash-Within s).1)
