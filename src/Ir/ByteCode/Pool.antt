-- ===== src/Ir/ByteCode/Pool.antt =====
-- Lemmas on the constant pool and the local table of `ByteCode` (crates/rtcl-ir/src/bytecode.rs).
use Prim.Native.String.{String}
use native.Mathlib.Nat.{mod-eq_of_lt}
use text.Mathlib.Text.{◌==◌ as str_eq}
use text.Mathlib.TextEquality.{eq_iff}
use rtcl.Prelude.{
  ℕ, zero, suc, ◌^◌, ◌<◌, ◌≤◌, ◌≡◌, refl, ap, List, [], ◌∷◌, ◌++◌, Option, none, some, length,
  get_elem?, arith, inl, inr, Option-cases, Bool-cases,
}
use rtcl.Ir.OpCode.{OpCode, push_const, push_const_wide}
use rtcl.Ir.ByteCode.{
  ByteCode, position, intern, add_const_wide, get_const, get_const_wide, emit_push_const, as_u32,
  as_u16, leb,
}

get_elem?-append_left {ℓ} :
    {A : Type ℓ} (xs ys : List A) (i : ℕ) {x : A}
    → get_elem? xs i ≡ some x
    → get_elem? (xs ++ ys) i ≡ some x
get_elem?-append_left [] ys i h = cc
get_elem?-append_left (x ∷ xs) ys zero h = h
get_elem?-append_left (x ∷ xs) ys (suc i) h = get_elem?-append_left xs ys i h

get_elem?-append_last {ℓ} :
    {A : Type ℓ} (xs : List A) (x : A) → get_elem? (xs ++ x ∷ []) (length xs) ≡ some x
get_elem?-append_last [] x = refl
get_elem?-append_last (y ∷ xs) x = get_elem?-append_last xs x

-- Where a text is found, the table holds it.
position-get_elem? :
    (s : String) (cs : List String) (i : ℕ)
    → position s cs ≡ some i
    → (get_elem? cs i ≡ some s) × (i < length cs)
unfolding position
position-get_elem? s [] i h = cc
position-get_elem? s (c ∷ cs) i h = elim (Bool-cases (str_eq c s)) [
  | inl e ↦ ground (arith, eq_iff c s)
  | inr e ↦ elim (Option-cases (position s cs)) [
    | inl n ↦ ground arith
    | inr (j, p) ↦ ground (arith, position-get_elem? s cs j p)
  ]
]

intern-none :
    (s : String) (cs : List String) → position s cs ≡ none → intern s cs ≡ (length cs, cs ++ s ∷ [])
unfolding intern
intern-none s cs h = ground arith

intern-some :
    (s : String) (cs : List String) (i : ℕ) → position s cs ≡ some i → intern s cs ≡ (i, cs)
unfolding intern
intern-some s cs i h = ground arith

intern_lem :
    (s : String) (cs : List String)
    → (get_elem? (intern s cs).1 (intern s cs).0 ≡ some s) × ((intern s cs).0 ≤ length cs)
intern_lem s cs = elim (Option-cases (position s cs)) [
  | inl n ↦ rw (intern-none s cs n) (get_elem?-append_last cs s, omega arith)
  | inr (i, p) ↦ rw (intern-some s cs i p) (ground (arith, position-get_elem? s cs i p))
]

intern-keeps :
    (s : String) (cs : List String) (j : ℕ) (x : String)
    → get_elem? cs j ≡ some x
    → get_elem? (intern s cs).1 j ≡ some x
intern-keeps s cs j x h = elim (Option-cases (position s cs)) [
  | inl n ↦ rw (intern-none s cs n) (get_elem?-append_left cs (s ∷ []) j h)
  | inr (i, p) ↦ rw (intern-some s cs i p) h
]

position-append_last :
    (s : String) (cs : List String)
    → position s cs ≡ none
    → position s (cs ++ s ∷ []) ≡ some (length cs)
unfolding position
position-append_last s [] h = ground (arith, eq_iff s s)
position-append_last s (c ∷ cs) h = ground (arith, position-append_last s cs)

-- A second request finds the text where the first one left it.
intern_again : (s : String) (cs : List String) → intern s (intern s cs).1 ≡ intern s cs
intern_again s cs = elim (Option-cases (position s cs)) [
  | inl n ↦
      rw (intern-none s cs n)
        (intern-some s (cs ++ s ∷ []) (length cs) (position-append_last s cs n))
  | inr (i, p) ↦ rw (intern-some s cs i p) (intern-some s cs i p)
]

in_range : (s : String) (cs : List String) → length cs < 2 ^ 32 → (intern s cs).0 < 2 ^ 32
in_range s cs h = omega (arith, intern_lem s cs)

-- A text that is added to a pool of fewer than 2^32 constants is read back by the index that is
-- returned, every constant that was there keeps its index, and adding the text once more returns
-- the same index and changes nothing.
pub get_const_wide-add_const_wide :
    (s : String) (code : ByteCode)
    → length code.constants < 2 ^ 32
    → (get_const_wide (add_const_wide s code).0 (add_const_wide s code).1 ≡ some s)
      × ((j : ℕ) (x : String)
          → get_const_wide j code ≡ some x
          → get_const_wide j (add_const_wide s code).1 ≡ some x)
      × (add_const_wide s (add_const_wide s code).1 ≡ add_const_wide s code)
unfolding get_const_wide add_const_wide
get_const_wide-add_const_wide s code h = (
  rw (mod-eq_of_lt (in_range s code.constants h)) (intern_lem s code.constants).0,
  λ j x g. intern-keeps s code.constants j x g,
  ap (λ (p : ℕ × List String). (as_u32 p.0, record code { constants = p.1 }))
      (intern_again s code.constants),
)

-- The text that a push of a constant puts on the stack.
abbrev pub pushed : OpCode → ByteCode → Option String
pushed (push_const i) code = get_const i code
pushed (push_const_wide i) code = get_const_wide i code
pushed op code = none

-- `emit_push_const` appends one instruction, and that instruction pushes the text, whether its
-- index fits the narrow form or not.
pub pushed-emit_push_const :
    (s : String) (line : ℕ) (code : ByteCode)
    → length code.constants < 2 ^ 32
    → (op : OpCode) × ((emit_push_const s line code).1.ops ≡ code.ops ++ op ∷ [])
      × (pushed op (emit_push_const s line code).1 ≡ some s)
unfolding emit_push_const get_const get_const_wide
pushed-emit_push_const s line code h = elim (Bool-cases (leb (add_const_wide s code).0 0xffff)) [
  | inl e ↦ (
    push_const (as_u16 (add_const_wide s code).0),
    ground arith,
    ground (arith, (get_const_wide-add_const_wide s code h).0),
  )
  | inr e ↦ (
    push_const_wide (add_const_wide s code).0,
    ground arith,
    ground (arith, (get_const_wide-add_const_wide s code h).0),
  )
]
