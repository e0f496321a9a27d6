-- ===== src/Parser/Rd/Parsed.antt =====
-- crates/rtcl-parser/src/rd: what a function of the parser returns, and its loops. A function
-- takes the cursor and returns it moved, or an error.
use rtcl.Prelude.{ℕ, zero, suc}
use rtcl.Parser.Rd.Token.{Cursor}

-- The messages of crates/rtcl-parser/src/rd/word.rs.
pub data Message : Type 0 where
  missing_close_brace missing_quote missing_close_bracket missing_variable_brace missing_paren :
      Message
  extra_after_close_brace extra_after_close_quote : Message

pub record ParseError : Type 0 where
  pub message : Message
  pub line : ℕ
  pub column : ℕ
  pub offset : ℕ

pub data Parsed (A : Type 0) : Type 0 where
  ok : A → Cursor → Parsed A
  err : ParseError → Parsed A
  out_of_fuel : Parsed A

abbrev pub M : Type 0 → Type 0
M A = Cursor → Parsed A

abbrev pub return : {A : Type 0} → A → M A
return a c = ok a c

abbrev pub behind : {A B : Type 0} → Parsed A → (A → M B) → Parsed B
behind (ok a c) f = f a c
behind (err e) f = err e
behind out_of_fuel f = out_of_fuel

infixl 5 ◌>>=◌ ◌>>◌
abbrev pub ◌>>=◌ : {A B : Type 0} → M A → (A → M B) → M B
◌>>=◌ m f c = behind (m c) f

abbrev pub ◌>>◌ : {A B : Type 0} → M A → M B → M B
m >> n = m >>= λ _. n

-- `Cursor::error`.
abbrev pub error_at : {A : Type 0} → Message → M A
error_at m c = err (record { message = m; line = c.line; column = 0; offset = c.pos })

-- What a round of a loop asks for: another round, or the end.
pub data Next (S A : Type 0) : Type 0 where
  again : S → Next S A
  stop : A → Next S A

abbrev pub next_round : {S A : Type 0} → (S → M A) → Next S A → M A
next_round more (again s) c = more s c
next_round more (stop a) c = ok a c

-- A loop whose variables are `S`.
unfoldable pub loop : {S A : Type 0} → (S → M (Next S A)) → ℕ → S → M A
loop body zero s c = out_of_fuel
loop body (suc fuel) s c = behind (body s c) (next_round (loop body fuel))
