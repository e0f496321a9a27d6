-- ===== src/Util/Glob/Correct.antt =====
-- Lemmas on `glob_match` (crates/rtcl-vm/src/interp/util.rs) beside the relation of Util/Glob/Relation.
use rtcl.Prelude.{
  ℕ, zero, suc, ◌+◌, ◌≡◌, ◌≤◌, ◌<◌, ◌↔◌, refl, sym, ◌∙◌, subst, Bool, true, [], ◌∷◌, none, some,
  length, ◌==◌, arith, Bool-cases, Option-cases, inl, inr,
}
use rtcl.Util.Glob.{
  Chars, skip_stars, match_class, match_star, at_class, at_star, at_quote, match_round,
  match_helper, glob_match,
}
use rtcl.Util.Glob.Class.{match_class_sound, match_class_complete}
use rtcl.Util.Glob.Relation.{
  Matches, done, star_none, star_one, any, class, quoted, literal, Suffix, here, there, Suffix-nil,
  Matches-star, Matches-skip_stars, Matches-suffix, length-skip_stars, length-match_class,
}

match_star_sound :
    (rest : Chars → Bool) (t : Chars)
    → match_star rest t ≡ true
    → (u : Chars) × Suffix u t × (rest u ≡ true)
unfolding match_star
match_star_sound rest [] h = ([], here, h)
match_star_sound rest (x ∷ t) h = elim (Bool-cases (rest (x ∷ t))) [
  | inl e ↦ (x ∷ t, here, e)
  | inr e ↦ let (u, s, r) = match_star_sound rest t (rw e at h) in (u, there s, r)
]

match_star_complete :
    (rest : Chars → Bool) (u t : Chars) → Suffix u t → rest u ≡ true → match_star rest t ≡ true
unfolding match_star
match_star_complete rest u [] here h = h
match_star_complete rest u (x ∷ t) here h = rw h
match_star_complete rest u (x ∷ t) (there s) h = ground (arith, match_star_complete rest u t s h)

module _ (more : Chars → Chars → Bool) (sound : (p t : Chars) → more p t ≡ true → Matches p t) where
  star_sound : (p t q : Chars) → skip_stars p ≡ q → at_star more t q ≡ true → Matches (b'*' ∷ p) t
  star_sound p t [] e h =
      Matches-star (Suffix-nil t) (Matches-skip_stars p (subst (λ q. Matches q []) (sym e) done))
  star_sound p t (c ∷ q) e h =
      let (u, s, r) = match_star_sound (more (c ∷ q)) t h in
      Matches-star s (Matches-skip_stars p (subst (λ q. Matches q u) (sym e) (sound (c ∷ q) u r)))

  class_sound :
      (p : Chars) (x : ℕ) (t : Chars)
      → at_class more t (match_class x p) ≡ true
      → Matches (b'[' ∷ p) (x ∷ t)
  class_sound p x t h = elim (Option-cases (match_class x p)) [
    | inl e ↦ let h' : at_class more t none ≡ true = rw e at h in cc
    | inr (p', e) ↦
        let h' : at_class more t (some p') ≡ true = rw e at h in
        class (match_class_sound x p p' e) (sound p' t h')
  ]

  quote_sound :
      (p : Chars) (x : ℕ) (t : Chars) → at_quote more p x t ≡ true → Matches (92 ∷ p) (x ∷ t)
  quote_sound [] x t h = cc
  quote_sound (d ∷ p) x t h = elim (Bool-cases (d == x)) [
    | inl e ↦ let e' : d ≡ x = ground arith in rw e' (quoted (sound p t (rw e at h)))
    | inr e ↦ absurd (ground arith)
  ]

  round_sound : (p t : Chars) → match_round more p t ≡ true → Matches p t
  unfolding match_round
  round_sound [] [] h = done
  round_sound [] (x ∷ t) h = cc
  round_sound (c ∷ p) [] h = elim (Bool-cases (c == b'*')) [
    | inl e ↦
        let e' : c ≡ b'*' = ground arith in rw e' (star_sound p [] (skip_stars p) refl (rw e at h))
    | inr e ↦ absurd (ground arith)
  ]
  round_sound (c ∷ p) (x ∷ t) h = elim (Bool-cases (c == b'*')) [
    | inl e ↦
        let e' : c ≡ b'*' = ground arith in
        rw e' (star_sound p (x ∷ t) (skip_stars p) refl (rw e at h))
    | inr e1 ↦ elim (Bool-cases (c == b'?')) [
      | inl e ↦ let e' : c ≡ b'?' = ground arith in rw e' (any (sound p t (rw (e1, e) at h)))
      | inr e2 ↦ elim (Bool-cases (c == b'[')) [
        | inl e ↦
            let e' : c ≡ b'[' = ground arith in rw e' (class_sound p x t (rw (e1, e2, e) at h))
        | inr e3 ↦ elim (Bool-cases (c == 92)) [
          | inl e ↦
              let e' : c ≡ 92 = ground arith in rw e' (quote_sound p x t (rw (e1, e2, e3, e) at h))
          | inr e4 ↦ elim (Bool-cases (c == x)) [
            | inl e ↦
                let e' : x ≡ c = ground arith in
                rw e' (literal (e1, e2, e3, e4) (sound p t (rw (e1, e2, e3, e4, e) at h)))
            | inr e ↦ absurd (ground arith)
          ]
        ]
      ]
    ]
  ]

module _ (more : Chars → Chars → Bool) (n : ℕ)
    (complete : (p t : Chars) → length p < n → Matches p t → more p t ≡ true) where
  star_complete :
      (q u t : Chars) → length q < n → Suffix u t → Matches q u → at_star more t q ≡ true
  star_complete [] u t l s m = refl
  star_complete (c ∷ q) u t l s m =
      match_star_complete (more (c ∷ q)) u t s (complete (c ∷ q) u l m)

  round-star : (p t : Chars) → match_round more (b'*' ∷ p) t ≡ at_star more t (skip_stars p)
  unfolding match_round
  round-star p [] = refl
  round-star p (x ∷ t) = refl

  round-star_complete :
      (p t : Chars) → length p < n → Matches (b'*' ∷ p) t → match_round more (b'*' ∷ p) t ≡ true
  unfolding skip_stars
  round-star_complete p t l m =
      let (u, s, r) = Matches-suffix m in
      round-star p t ∙ star_complete (skip_stars p) u t (omega (arith, l, length-skip_stars p)) s r

  round_complete : (p t : Chars) → length p ≤ n → Matches p t → match_round more p t ≡ true
  unfolding match_round
  round_complete _ _ l done = refl
  round_complete _ t l (star_none {p = p} m) =
      round-star_complete p t (omega (arith, l)) (star_none m)
  round_complete _ _ l (star_one {x = x} {p = p} {t = t} m) =
      round-star_complete p (x ∷ t) (omega (arith, l)) (star_one m)
  round_complete _ _ l (any {p = p} {t = t} m) = complete p t (omega (arith, l)) m
  round_complete _ _ l (class {x = x} {p = p} {p' = p'} {t = t} e m) =
      let e' = match_class_complete x p p' e in
      rw e' (complete p' t (omega (arith, l, length-match_class x p p' e')) m)
  round_complete _ _ l (quoted {x = x} {p = p} {t = t} m) =
      let e : (x == x) ≡ true = ground arith in rw e (complete p t (omega (arith, l)) m)
  round_complete _ _ l (literal {x = x} {p = p} {t = t} (e1, e2, e3, e4) m) =
      let e : (x == x) ≡ true = ground arith in
      rw (e1, e2, e3, e4, e) (complete p t (omega (arith, l)) m)

helper_sound : (fuel : ℕ) (p t : Chars) → match_helper fuel p t ≡ true → Matches p t
unfolding match_helper
helper_sound zero p t h = cc
helper_sound (suc fuel) p t h = round_sound (match_helper fuel) (helper_sound fuel) p t h

helper_complete :
    (fuel : ℕ) (p t : Chars) → length p < fuel → Matches p t → match_helper fuel p t ≡ true
unfolding match_helper
helper_complete zero p t l m = absurd (omega (arith, l))
helper_complete (suc fuel) p t l m =
    round_complete (match_helper fuel) fuel (helper_complete fuel) p t (omega (arith, l)) m

-- `glob_match` answers true exactly if the text matches the pattern: a star stands for any
-- characters, a question mark for one, a class for a character that is one of its members or lies
-- between the bounds of one of its ranges, whichever bound comes first, a backslash for the
-- character behind it, and every other character for itself.
pub glob_match-Matches : (p t : Chars) → (glob_match p t ≡ true) ↔ Matches p t
unfolding glob_match
glob_match-Matches p t =
    (helper_sound (length p + 1) p t, λ m. helper_complete (length p + 1) p t (omega arith) m)
