-- ===== src/Parser/Complete/Fuel.antt =====
-- Lemmas on the fuel of the scan of `is_complete` (crates/rtcl-parser/src/completeness.rs).
use rtcl.Prelude.{
  ℕ, zero, suc, ◌+◌, ◌-◌, ◌≡◌, ◌≤◌, ◌<◌, refl, sym, ap, ◌∙◌, Bool, true, false, ◌||◌, ◌&&◌, [], ◌∷◌,
  Option, some, length, ◌==◌, if_intro, if◌then◌else◌, arith,
}
use rtcl.Parser.Complete.{
  Text, Scan, closed, unclosed, out_of_fuel, from_braces, Closer, quote, bracket, skip_braces,
  past_byte, behind, skip_round, skip_group, skip_blanks, starts_with_newline, unless_end,
  scan_escape, scan_behind, scan_round, scan_script, is_complete,
}

-- A relation between two conditionals on the same test.
if_both {ℓ} :
    {A : Type ℓ} (P : A → A → Type 0) (b : Bool) {x y x' y' : A}
    → P x x'
    → P y y'
    → P (if b then x else y) (if b then x' else y')
if_both P true h k = h
if_both P false h k = k

-- The scan of a group ends, with at most `n` bytes left.
abbrev Shrinks : ℕ → Scan → Type 0
Shrinks n unclosed = Unit
Shrinks n out_of_fuel = ⊥
Shrinks n (closed s) = length s ≤ n

Shrinks-more : (n m : ℕ) (r : Scan) → n ≤ m → Shrinks n r → Shrinks m r
Shrinks-more n m unclosed h s = tt
Shrinks-more n m out_of_fuel h s = s
Shrinks-more n m (closed t) h s = omega (arith, h, s)

skip_braces-Shrinks :
    (escaped : Bool) (depth : ℕ) (s : Text)
    → Shrinks (length s) (from_braces (skip_braces escaped depth s))
unfolding skip_braces
skip_braces-Shrinks true depth [] = tt
skip_braces-Shrinks false depth [] = tt
skip_braces-Shrinks true depth (c ∷ s) =
    Shrinks-more (length s) _ _ (omega arith) (skip_braces-Shrinks false depth s)
skip_braces-Shrinks false depth (c ∷ s) =
    let n = length s in
    let P = λ (r : Option Text). Shrinks (suc n) (from_braces r) in
    let up = λ (b : Bool) (d : ℕ).
      Shrinks-more n (suc n) (from_braces (skip_braces b d s)) (omega arith)
        (skip_braces-Shrinks b d s) in
    if_intro P (c == b'{') (λ _. up false (suc depth))
      (λ _.
        if_intro P (c == b'}')
          (λ _.
            if_intro P (depth == 1) {x = some s} {y = skip_braces false (depth - 1) s}
              (λ _. omega arith) (λ _. up false (depth - 1)))
          (λ _. if_intro P (c == 92) (λ _. up true depth) (λ _. up false depth)))

length-past_byte : (s : Text) → length (past_byte s) ≤ length s
length-past_byte [] = omega arith
length-past_byte (c ∷ s) = omega arith

length-skip_blanks : (s : Text) → length (skip_blanks s) ≤ length s
unfolding skip_blanks
length-skip_blanks [] = omega arith
length-skip_blanks (c ∷ s) =
    if_intro (λ (t : Text). length t ≤ suc (length s)) (c == 32 || c == 9) {x = skip_blanks s}
      {y = c ∷ s} (λ _. omega (arith, length-skip_blanks s)) (λ _. omega arith)

-- On the texts of at most `n` bytes, two scans of a group agree, and they shrink the text.
record Agree (n : ℕ) (f g : Closer → Text → Scan) : Type 0 where
  same : (closer : Closer) (s : Text) → length s ≤ n → f closer s ≡ g closer s
  shrinks : (closer : Closer) (s : Text) → length s ≤ n → Shrinks (length s) (f closer s)

module _ (n : ℕ) (f g : Closer → Text → Scan) (a : Agree n f g) where
  behind-same :
      (closer : Closer) (r : Scan)
      → Shrinks n r
      → (behind (f closer) r ≡ behind (g closer) r) × Shrinks n (behind (f closer) r)
  behind-same closer unclosed h = (refl, tt)
  behind-same closer out_of_fuel h = absurd h
  behind-same closer (closed s) h =
      (a.same closer s h, Shrinks-more (length s) n _ h (a.shrinks closer s h))

  abbrev Both : Scan → Scan → Type 0
  Both x y = (x ≡ y) × Shrinks n x

  more-Both : (closer : Closer) (s : Text) → length s ≤ n → Both (f closer s) (g closer s)
  more-Both closer s h = (a.same closer s h, Shrinks-more (length s) n _ h (a.shrinks closer s h))

  behind-Both :
      (closer : Closer) (r r' : Scan)
      → Both r r'
      → Both (behind (f closer) r) (behind (g closer) r')
  behind-Both closer r r' (e, h) =
      let (e', h') = behind-same closer r h in (e' ∙ ap (behind (g closer)) e, h')

  same-Both :
      (closer : Closer) (r : Scan) → Shrinks n r → Both (behind (f closer) r) (behind (g closer) r)
  same-Both closer r h = behind-Both closer r r (refl, h)

  skip_round-Both :
      (closer : Closer) (c : ℕ) (s : Text)
      → length s ≡ n
      → Both (skip_round f closer (c ∷ s)) (skip_round g closer (c ∷ s))
  unfolding skip_round
  skip_round-Both quote c s l =
      let here = more-Both quote s (omega (arith, l)) in
      let escape = more-Both quote (past_byte s) (omega (arith, l, length-past_byte s)) in
      let group = behind-Both quote _ _ (more-Both bracket s (omega (arith, l))) in
      if_both Both (c == b'"') {x = closed s} {x' = closed s} (refl, omega (arith, l))
        (if_both Both (c == 92) escape (if_both Both (c == b'[') group here))
  skip_round-Both bracket c s l =
      let here = more-Both bracket s (omega (arith, l)) in
      let escape = more-Both bracket (past_byte s) (omega (arith, l, length-past_byte s)) in
      let group = behind-Both bracket _ _ (more-Both bracket s (omega (arith, l))) in
      let quotes = behind-Both bracket _ _ (more-Both quote s (omega (arith, l))) in
      let shrunk =
        Shrinks-more (length s) n (from_braces (skip_braces false 1 s)) (omega (arith, l))
          (skip_braces-Shrinks false 1 s) in
      let group_braces = same-Both bracket (from_braces (skip_braces false 1 s)) shrunk in
      if_both Both (c == b']') {x = closed s} {x' = closed s} (refl, omega (arith, l))
        (if_both Both (c == b'{') group_braces (
          if_both Both (c == b'"') quotes
            (if_both Both (c == 92) escape (if_both Both (c == b'[') group here))))

Agree-less : (k n : ℕ) (f g : Closer → Text → Scan) → k ≤ n → Agree n f g → Agree k f g
Agree-less k n f g h a = record {
  same = λ closer s l. a.same closer s (omega (arith, h, l));
  shrinks = λ closer s l. a.shrinks closer s (omega (arith, h, l));
}

Agree-round :
    (n : ℕ) (f g : Closer → Text → Scan)
    → Agree n f g
    → (closer : Closer) (s : Text) → length s ≤ suc n
    → (skip_round f closer s ≡ skip_round g closer s) × Shrinks (length s) (skip_round f closer s)
unfolding skip_round
Agree-round n f g a quote [] l = (refl, tt)
Agree-round n f g a bracket [] l = (refl, tt)
Agree-round n f g a closer (c ∷ s) l =
    let k = length s in
    let (e, h) = skip_round-Both k f g (Agree-less k n f g (omega (arith, l)) a) closer c s refl in
    (e, Shrinks-more k (suc k) _ (omega arith) h)

Agree-group : (n m m' : ℕ) → n < m → n < m' → Agree n (skip_group m) (skip_group m')
unfolding skip_group skip_round
Agree-group n zero m' h h' = absurd (omega (arith, h))
Agree-group n (suc m) zero h h' = absurd (omega (arith, h'))
Agree-group zero (suc m) (suc m') h h' = record {
  same = λ closer s l. (nil closer s l).0;
  shrinks = λ closer s l. (nil closer s l).1;
}
  where
    nil :
        (closer : Closer) (s : Text)
        → length s ≤ 0
        → (skip_round (skip_group m) closer s ≡ skip_round (skip_group m') closer s)
          × Shrinks (length s) (skip_round (skip_group m) closer s)
    nil quote [] l = (refl, tt)
    nil bracket [] l = (refl, tt)
    nil closer (c ∷ s) l = absurd (omega (arith, l))
Agree-group (suc n) (suc m) (suc m') h h' =
    let a = Agree-group n m m' (omega (arith, h)) (omega (arith, h')) in
    let r = Agree-round n (skip_group m) (skip_group m') a in
    record { same = λ closer s l. (r closer s l).0; shrinks = λ closer s l. (r closer s l).1 }

-- Two scans give the same answer, and it is one.
abbrev Answers : Option Bool → Option Bool → Type 0
Answers x y = (x ≡ y) × ((b : Bool) × (x ≡ some b))

module _ (n : ℕ) (f g : Text → Option Bool)
    (a : (s : Text) → length s ≤ n → Answers (f s) (g s)) where
  scan_behind-same : (r : Scan) → Shrinks n r → Answers (scan_behind f r) (scan_behind g r)
  scan_behind-same unclosed h = (refl, (false, refl))
  scan_behind-same out_of_fuel h = absurd h
  scan_behind-same (closed s) h = a s h

  unless_end-same : (s : Text) → length s ≤ n → Answers (unless_end f s) (unless_end g s)
  unless_end-same [] h = (refl, (false, refl))
  unless_end-same (c ∷ s) h = a (c ∷ s) h

  scan_escape-same : (s : Text) → length s ≤ n → Answers (scan_escape f s) (scan_escape g s)
  unfolding scan_escape
  scan_escape-same [] h = a [] h
  scan_escape-same (c ∷ s) h =
      if_both Answers (c == 10 || (c == 13 && starts_with_newline s))
        (unless_end-same (skip_blanks s) (omega (arith, h, length-skip_blanks s)))
        (a s (omega (arith, h)))

scan_script-same :
    (n m m' : ℕ) (s : Text)
    → length s ≤ n
    → n < m
    → n < m'
    → Answers (scan_script m s) (scan_script m' s)
unfolding scan_script scan_round
scan_script-same n zero m' s l h h' = absurd (omega (arith, h))
scan_script-same n (suc m) zero s l h h' = absurd (omega (arith, h'))
scan_script-same n (suc m) (suc m') [] l h h' = (refl, (true, refl))
scan_script-same zero (suc m) (suc m') (c ∷ s) l h h' = absurd (omega (arith, l))
scan_script-same (suc n) (suc m) (suc m') (c ∷ s) l h h' =
    let k = length s in
    let F = scan_script m in
    let G = scan_script m' in
    let more : (t : Text) → length t ≤ k → Answers (F t) (G t) = λ t b.
      scan_script-same n m m' t (omega (arith, b, l)) (omega (arith, h)) (omega (arith, h')) in
    let a = Agree-group n m m' (omega (arith, h)) (omega (arith, h')) in
    let group : (closer : Closer)
        → Answers (scan_behind F (skip_group m closer s)) (scan_behind G (skip_group m' closer s)) =
      λ closer.
        let (e, (b, q)) =
          scan_behind-same k F G more (skip_group m closer s)
            (a.shrinks closer s (omega (arith, l))) in
        (e ∙ ap (scan_behind G) (a.same closer s (omega (arith, l))), (b, q)) in
    if_both Answers (c == b'{')
      (scan_behind-same k F G more (from_braces (skip_braces false 1 s))
        (skip_braces-Shrinks false 1 s))
      (if_both Answers (c == b'"') (group quote) (
        if_both Answers (c == b'[') (group bracket) (
          if_both Answers (c == 92) (scan_escape-same k F G more s (omega arith))
            (more s (omega arith)))))

-- `is_complete` ends on every text with an answer, and any number of rounds above the number of
-- bytes gives that answer. A scan that ran out of rounds would have none.
pub scan_script-is_complete :
    (s : Text) (fuel : ℕ)
    → length s < fuel
    → (b : Bool) × (is_complete s ≡ some b) × (scan_script fuel s ≡ some b)
unfolding is_complete
scan_script-is_complete s fuel h =
    let (e, (b, q)) =
      scan_script-same (length s) fuel (length s + 1) s (omega arith) h (omega arith) in
    (b, sym e ∙ q, q)
