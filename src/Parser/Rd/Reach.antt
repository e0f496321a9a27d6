-- ===== src/Parser/Rd/Reach.antt =====
-- Lemmas on how a cursor of crates/rtcl-parser/src/rd moves, and on the loops of the parser.
use rtcl.Prelude.{
  ℕ, zero, suc, ◌+◌, ◌≤◌, ◌<◌, ◌≡◌, refl, sym, ap, ◌∙◌, true, false, [], ◌∷◌, ◌++◌, append_assoc,
  length, length-append, ◌==◌, arith, if◌then◌else◌, Bool-cases, inl, inr,
}
use rtcl.Parser.Rd.Parsed.{
  Parsed, ok, err, out_of_fuel, M, Next, again, stop, loop, behind, next_round,
}
use rtcl.Parser.Rd.Token.{
  Chars, Token, Cursor, eof, same, len_utf8, return_token, token_at, advance, is_at, at_end,
}

-- The size of a text in bytes, and its line feeds.
abbrev pub size : Chars → ℕ
size [] = 0
size (c ∷ s) = len_utf8 c + size s

abbrev pub line_feeds : Chars → ℕ
line_feeds [] = 0
line_feeds (c ∷ s) = (if c == 10 then 1 else 0) + line_feeds s

pub size-append : (s t : Chars) → size (s ++ t) ≡ size s + size t
size-append [] t = omega arith
size-append (c ∷ s) t = omega (arith, size-append s t)

line_feeds-append : (s t : Chars) → line_feeds (s ++ t) ≡ line_feeds s + line_feeds t
line_feeds-append [] t = omega arith
line_feeds-append (c ∷ s) t = omega (arith, line_feeds-append s t)

-- The cursor has moved over `gap`: its offset by the bytes, its line by the line feeds.
pub record Reaches (c d : Cursor) : Type 0 where
  pub gap : Chars
  pub left_eq : c.left ≡ gap ++ d.left
  pub pos_eq : d.pos ≡ c.pos + size gap
  pub line_eq : d.line ≡ c.line + line_feeds gap

pub Reaches-refl : (c : Cursor) → Reaches c c
Reaches-refl c = record { gap = []; left_eq = refl; pos_eq = omega arith; line_eq = omega arith }

pub Reaches-trans : {c d e : Cursor} → Reaches c d → Reaches d e → Reaches c e
Reaches-trans {e} r q = record {
  gap = r.gap ++ q.gap;
  left_eq = r.left_eq ∙ ap (λ t. r.gap ++ t) q.left_eq ∙ sym (append_assoc r.gap q.gap e.left);
  pos_eq = omega (arith, r.pos_eq, q.pos_eq, size-append r.gap q.gap);
  line_eq = omega (arith, r.line_eq, q.line_eq, line_feeds-append r.gap q.gap);
}

-- The end of the text stays where it is, and what is left does not grow.
abbrev pub text_size : Cursor → ℕ
text_size c = c.pos + size c.left

pub Reaches-size : (c d : Cursor) → Reaches c d → text_size d ≡ text_size c
Reaches-size c d r = omega (arith, r.pos_eq, ap size r.left_eq, size-append r.gap d.left)

pub Reaches-length : (c d : Cursor) → Reaches c d → length d.left ≤ length c.left
Reaches-length c d r = omega (arith, ap length r.left_eq, length-append r.gap d.left)

-- A move that takes a character at least.
abbrev pub Moves : Cursor → Cursor → Type 0
Moves c d = Reaches c d × (length d.left < length c.left)

pub Moves-then : {c d e : Cursor} → Moves c d → Reaches d e → Moves c e
Moves-then {d} {e} m r = (Reaches-trans m.0 r, omega (arith, m.1, Reaches-length d e r))

pub then-Moves : {c d e : Cursor} → Reaches c d → Moves d e → Moves c e
then-Moves {c} {d} r m = (Reaches-trans r m.0, omega (arith, m.1, Reaches-length c d r))

one_char :
    (x : ℕ) (s : Chars) (pos line : ℕ) (d : Cursor)
    → d.left ≡ s
    → d.pos ≡ pos + len_utf8 x
    → d.line ≡ line + (if x == 10 then 1 else 0)
    → Moves (record { left = x ∷ s; pos = pos; line = line }) d
one_char x s pos line d left_d pos_d line_d = (
  record {
    gap = x ∷ [];
    left_eq = ap (λ t. x ∷ t) (sym left_d);
    pos_eq = omega (arith, pos_d);
    line_eq = omega (arith, line_d);
  },
  omega (arith, ap length left_d),
)

len_utf8-ascii : (x : ℕ) → x < 128 → len_utf8 x ≡ 1
unfolding len_utf8
len_utf8-ascii x h = ground arith

return_token-Moves :
    (x : ℕ) (s : Chars) (pos line : ℕ)
    → x ≡ 13
    → Moves (record { left = x ∷ s; pos = pos; line = line }) (return_token s pos line).1
unfolding return_token
return_token-Moves x [] pos line cr =
    one_char x [] pos line _ refl (omega (arith, len_utf8-ascii x)) (ground arith)
return_token-Moves x (y ∷ s) pos line cr = elim (Bool-cases (y == 10)) [
  | inl lf ↦ rw lf (
    record {
      gap = x ∷ y ∷ [];
      left_eq = refl;
      pos_eq = omega (arith, len_utf8-ascii x, len_utf8-ascii y ((ground arith)));
      line_eq = ground arith;
    },
    omega arith,
  )
  | inr other ↦
      rw other (one_char x (y ∷ s) pos line _ refl (omega (arith, len_utf8-ascii x)) (ground arith))
]

token_at-Moves :
    (x : ℕ) (s : Chars) (pos line : ℕ)
    → Moves (record { left = x ∷ s; pos = pos; line = line }) (token_at (x ∷ s) pos line).1
unfolding token_at
token_at-Moves x s pos line = elim (Bool-cases (x == 10)) [
  | inl lf ↦ rw lf (one_char x s pos line _ refl (ground (arith, len_utf8-ascii x)) (ground arith))
  | inr no_lf ↦ elim (Bool-cases (x == 13)) [
    | inl cr ↦ rw (no_lf, cr) (return_token-Moves x s pos line (ground arith))
    | inr no_cr ↦ rw (no_lf, no_cr) (one_char x s pos line _ refl refl (ground arith))
  ]
]

Moves-at :
    (s : Chars) (pos line : ℕ)
    → at_end (record { left = s; pos = pos; line = line }) ≡ false
    → Moves (record { left = s; pos = pos; line = line }) (token_at s pos line).1
unfolding is_at token_at
Moves-at [] pos line h = cc
Moves-at (x ∷ s) pos line h = token_at-Moves x s pos line

-- Where the cursor is not at the end, a step moves it.
pub advance-Moves : (c : Cursor) → at_end c ≡ false → Moves c (advance c)
unfolding advance
advance-Moves c h = Moves-at c.left c.pos c.line h

stays_at :
    (s : Chars) (pos line : ℕ)
    → Reaches (record { left = s; pos = pos; line = line }) (token_at s pos line).1
unfolding token_at
stays_at [] pos line = Reaches-refl _
stays_at (x ∷ s) pos line = (token_at-Moves x s pos line).0

pub advance-Reaches : (c : Cursor) → Reaches c (advance c)
unfolding advance
advance-Reaches c = stays_at c.left c.pos c.line

-- A token of its own is no end.
pub not-at_end : (t : Token) (c : Cursor) → same t eof ≡ false → is_at t c ≡ true → at_end c ≡ false
unfolding is_at
not-at_end t c other here = ground arith

-- What a function of the parser returns: the result and the cursor satisfy `Q`, an error lies within
-- the text, and the fuel is enough.
abbrev pub Post : {A : Type 0} → (A → Cursor → Type 0) → Cursor → Parsed A → Type 0
Post Q c (ok a d) = Q a d
Post Q c (err e) = e.offset ≤ text_size c
Post Q c out_of_fuel = ⊥

pub Post-behind :
    {A B : Type 0} (Q : A → Cursor → Type 0) (R : B → Cursor → Type 0) (c : Cursor) (r : Parsed A)
    (f : A → M B)
    → Post Q c r
    → ((a : A) (d : Cursor) → Q a d → Post R c (f a d))
    → Post R c (behind r f)
Post-behind Q R c (ok a d) f p h = h a d p
Post-behind Q R c (err e) f p h = p
Post-behind Q R c out_of_fuel f p h = absurd p

pub Post-map :
    {A : Type 0} (Q R : A → Cursor → Type 0) (c d : Cursor) (r : Parsed A)
    → text_size c ≡ text_size d
    → ((a : A) (e : Cursor) → Q a e → R a e)
    → Post Q c r
    → Post R d r
Post-map Q R c d (ok a e) same_size h p = h a e p
Post-map Q R c d (err e) same_size h p = omega arith
Post-map Q R c d out_of_fuel same_size h p = p

-- A round that goes on keeps `Inv` and takes a character; one that stops gives `Q`.
abbrev pub Round :
    {S A : Type 0} → (S → Cursor → Type 0) → (A → Cursor → Type 0) → ℕ → Next S A → Cursor → Type 0
Round Inv Q n (again s) d = Inv s d × (length d.left < n)
Round Inv Q n (stop a) d = Q a d

next_Post :
    {S A : Type 0} (Inv : S → Cursor → Type 0) (Q : A → Cursor → Type 0) (c₀ : Cursor)
    (body : S → M (Next S A)) (fuel n : ℕ)
    → n ≤ fuel
    → ((s : S) (c : Cursor) → length c.left < fuel → Inv s c → Post Q c₀ (loop body fuel s c))
    → (x : Next S A) (d : Cursor) → Round Inv Q n x d
    → Post Q c₀ (next_round (loop body fuel) x d)
next_Post Inv Q c₀ body fuel n h rest (again s) d r = rest s d (omega arith) r.0
next_Post Inv Q c₀ body fuel n h rest (stop a) d r = r

-- The rule of loops.
pub Post-loop :
    {S A : Type 0} (Inv : S → Cursor → Type 0) (Q : A → Cursor → Type 0) (c₀ : Cursor)
    (body : S → M (Next S A))
    → ((s : S) (c : Cursor) → Inv s c → Post (Round Inv Q (length c.left)) c₀ (body s c))
    → (fuel : ℕ) (s : S) (c : Cursor) → length c.left < fuel
    → Inv s c
    → Post Q c₀ (loop body fuel s c)
unfolding loop
Post-loop Inv Q c₀ body round zero s c h i = absurd (omega arith)
Post-loop Inv Q c₀ body round (suc fuel) s c h i =
    Post-behind (Round Inv Q (length c.left)) Q c₀ (body s c) (next_round (loop body fuel))
      (round s c i)
      (next_Post Inv Q c₀ body fuel (length c.left) (omega arith)
        (Post-loop Inv Q c₀ body round fuel))
