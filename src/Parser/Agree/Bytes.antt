-- ===== src/Parser/Agree/Bytes.antt =====
-- The brace scan of crates/rtcl-parser/src/completeness.rs over the UTF-8 bytes of a character.
use rtcl.Prelude.{
  ℕ, ◌+◌, ◌/◌, ◌%◌, ◌≤◌, ◌≡◌, refl, ◌∙◌, true, false, [], ◌∷◌, ◌++◌, ◌==◌, ltb, arith,
  if◌then◌else◌, if_intro,
}
use rtcl.Parser.Complete.{Text, skip_braces}
use rtcl.Parser.Rd.Token.{Chars}

-- The bytes of a character.
unfoldable pub utf8_char : ℕ → Text
utf8_char c =
    if ltb c 0x80
    then c ∷ []
    else if ltb c 0x800
    then (0xC0 + c / 64) ∷ (0x80 + c % 64) ∷ []
    else if ltb c 0x10000
    then (0xE0 + c / 4096) ∷ (0x80 + c / 64 % 64) ∷ (0x80 + c % 64) ∷ []
    else (0xF0 + c / 262144) ∷ (0x80 + c / 4096 % 64) ∷ (0x80 + c / 64 % 64) ∷ (0x80 + c % 64) ∷ []

abbrev pub utf8 : Chars → Text
utf8 [] = []
utf8 (c ∷ s) = utf8_char c ++ utf8 s

-- What the scan passes over without counting.
abbrev pub Plain : ℕ → Type 0
Plain b = ((b == b'{') ≡ false) × ((b == b'}') ≡ false) × ((b == 92) ≡ false)

skip-Plain :
    (depth b : ℕ) (t : Text) → Plain b → skip_braces false depth (b ∷ t) ≡ skip_braces false depth t
unfolding skip_braces
skip-Plain depth b t p = rw (p.0, p.1, p.2)

high_Plain : (b : ℕ) → 0x80 ≤ b → Plain b
high_Plain b h = (ground arith, ground arith, ground arith)

skip_high :
    (depth b : ℕ) (t : Text)
    → 0x80 ≤ b
    → skip_braces false depth (b ∷ t) ≡ skip_braces false depth t
skip_high depth b t h = skip-Plain depth b t (high_Plain b h)

-- A byte behind the first of a character.
skip_rest :
    (depth c k : ℕ) (t : Text)
    → skip_braces false depth ((0x80 + c / k % 64) ∷ t) ≡ skip_braces false depth t
skip_rest depth c k t = skip_high depth _ t (omega arith)

skip_last :
    (depth c : ℕ) (t : Text)
    → skip_braces false depth ((0x80 + c % 64) ∷ t) ≡ skip_braces false depth t
skip_last depth c t = skip_high depth _ t (omega arith)

-- A character that is no brace and no backslash.
pub skip_char :
    (depth c : ℕ) (t : Text)
    → Plain c
    → skip_braces false depth (utf8_char c ++ t) ≡ skip_braces false depth t
unfolding utf8_char
skip_char depth c t p =
    let P : Text → Type 0 =
      λ bytes. skip_braces false depth (bytes ++ t) ≡ skip_braces false depth t in
    if_intro P (ltb c 0x80) (λ _. skip-Plain depth c t p)
      λ _.
        if_intro P (ltb c 0x800) (λ _. skip_high depth _ _ (omega arith) ∙ skip_last depth c t)
          λ _.
            if_intro P (ltb c 0x10000)
              (λ _.
                skip_high depth _ _ (omega arith) ∙ skip_rest depth c 64 _ ∙ skip_last depth c t)
              (λ _.
                skip_high depth _ _ (omega arith)
                ∙ skip_rest depth c 4096 _
                ∙ skip_rest depth c 64 _
                ∙ skip_last depth c t)

-- The byte behind a backslash.
skip_one : (depth b : ℕ) (t : Text) → skip_braces true depth (b ∷ t) ≡ skip_braces false depth t
unfolding skip_braces
skip_one depth b t = refl

-- Any character behind a backslash.
pub skip_escaped :
    (depth c : ℕ) (t : Text) → skip_braces true depth (utf8_char c ++ t) ≡ skip_braces false depth t
unfolding utf8_char
skip_escaped depth c t =
    let P : Text → Type 0 =
      λ bytes. skip_braces true depth (bytes ++ t) ≡ skip_braces false depth t in
    if_intro P (ltb c 0x80) (λ _. skip_one depth c t)
      λ _.
        if_intro P (ltb c 0x800) (λ _. skip_one depth _ _ ∙ skip_last depth c t)
          λ _.
            if_intro P (ltb c 0x10000)
              (λ _. skip_one depth _ _ ∙ skip_rest depth c 64 _ ∙ skip_last depth c t)
              (λ _.
                skip_one depth _ _
                ∙ skip_rest depth c 4096 _
                ∙ skip_rest depth c 64 _
                ∙ skip_last depth c t)
