-- ===== src/ListRep/Utf8.antt =====
-- The shape of UTF-8 text: each character is a byte that tells its length, and continuation bytes.
-- Every Rust string has it.
use rtcl.Prelude.{ℕ, ◌≤◌, ◌<◌, ◌≡◌, [], ◌∷◌, arith}
use rtcl.ListRep.Quote.{Bytes}
use rtcl.ListRep.Backslash.{utf8_len}
use rtcl.ListRep.Braces.{Whole, Framed}

pub record IsCont (b : ℕ) : Type 0 where
  pub low : 0x80 ≤ b
  pub high : b < 0xc0

pub data IsUtf8 : Bytes → Type 0 where
  done : IsUtf8 []
  one : {a : ℕ} {s : Bytes} → a < 0x80 → IsUtf8 s → IsUtf8 (a ∷ s)
  two : {a b : ℕ} {s : Bytes} → 0xc0 ≤ a → a < 0xe0 → IsCont b → IsUtf8 s → IsUtf8 (a ∷ b ∷ s)
  three :
      {a b c : ℕ} {s : Bytes}
      → 0xe0 ≤ a
      → a < 0xf0
      → IsCont b
      → IsCont c
      → IsUtf8 s
      → IsUtf8 (a ∷ b ∷ c ∷ s)
  four :
      {a b c d : ℕ} {s : Bytes}
      → 0xf0 ≤ a
      → IsCont b
      → IsCont c
      → IsCont d
      → IsUtf8 s
      → IsUtf8 (a ∷ b ∷ c ∷ d ∷ s)

module _ (a : ℕ) where
  pub utf8_len-one : a < 0x80 → utf8_len a ≡ 1
  unfolding utf8_len
  utf8_len-one h = ground arith

  pub utf8_len-two : 0xc0 ≤ a → a < 0xe0 → utf8_len a ≡ 2
  unfolding utf8_len
  utf8_len-two h k = ground arith

  pub utf8_len-three : 0xe0 ≤ a → a < 0xf0 → utf8_len a ≡ 3
  unfolding utf8_len
  utf8_len-three h k = ground arith

  pub utf8_len-four : 0xf0 ≤ a → utf8_len a ≡ 4
  unfolding utf8_len
  utf8_len-four h = ground arith

IsUtf8-Whole : {s : Bytes} → IsUtf8 s → Whole s
IsUtf8-Whole done = tt
IsUtf8-Whole (one {a = a} h u) = rw (utf8_len-one a h) tt
IsUtf8-Whole (two {a = a} h k b u) = rw (utf8_len-two a h k) (b.low, tt)
IsUtf8-Whole (three {a = a} h k b c u) = rw (utf8_len-three a h k) (b.low, (c.low, tt))
IsUtf8-Whole (four {a = a} h b c d u) = rw (utf8_len-four a h) (b.low, (c.low, (d.low, tt)))

pub IsUtf8-Framed : {s : Bytes} → IsUtf8 s → Framed s
IsUtf8-Framed done = tt
IsUtf8-Framed (one h u) = (λ _. IsUtf8-Whole u, IsUtf8-Framed u)
IsUtf8-Framed (two h k b u) =
    (λ e. absurd (ground arith), (λ e. absurd (ground arith), IsUtf8-Framed u))
IsUtf8-Framed (three h k b c u) = (
  λ e. absurd (ground arith),
  (λ e. absurd (ground arith), (λ e. absurd (ground arith), IsUtf8-Framed u)),
)
IsUtf8-Framed (four h b c d u) = (
  λ e. absurd (ground arith),
  (
    λ e. absurd (ground arith),
    (λ e. absurd (ground arith), (λ e. absurd (ground arith), IsUtf8-Framed u)),
  ),
)
