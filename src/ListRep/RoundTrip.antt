-- ===== src/ListRep/RoundTrip.antt =====
-- `parse_elements` after `serialize_list` (crates/rtcl-vm/src/value.rs).
use rtcl.Prelude.{
  ℕ, zero, suc, ◌+◌, ◌≤◌, ◌<◌, ◌≡◌, refl, ap, ◌∙◌, inl, inr, true, false, List, [], ◌∷◌, ◌++◌,
  length, length-append, All, arith, if_intro,
}
use rtcl.ListRep.Quote.{Bytes, is_tcl_space, convert_element, serialize_tail, serialize_list}
use rtcl.ListRep.Parse.{
  ok, skip_spaces, find_element, push_element, parse_after, parse_round, parse_from, parse_elements,
}
use rtcl.ListRep.Braces.{Ends}
use rtcl.ListRep.Utf8.{IsUtf8}
use rtcl.ListRep.Find.{Starts, Found, Found-convert_element}

skip_spaces-twice : (s : Bytes) → skip_spaces (skip_spaces s) ≡ skip_spaces s
unfolding skip_spaces
skip_spaces-twice [] = refl
skip_spaces-twice (c ∷ s) =
    if_intro (λ t. skip_spaces t ≡ t) (is_tcl_space c) (λ _. skip_spaces-twice s) (λ h. rw h)

parse_from-skip_spaces :
    (fuel : ℕ) (s : Bytes) → parse_from fuel (skip_spaces s) ≡ parse_from fuel s
unfolding parse_from
parse_from-skip_spaces zero s = refl
parse_from-skip_spaces (suc fuel) s = ap (parse_round (parse_from fuel)) (skip_spaces-twice s)

skip_spaces-start : (c : ℕ) (s : Bytes) → is_tcl_space c ≡ false → skip_spaces (c ∷ s) ≡ c ∷ s
unfolding skip_spaces
skip_spaces-start c s h = rw h

parse_from-found :
    (fuel : ℕ) (c : ℕ) (t x rest : Bytes)
    → is_tcl_space c ≡ false
    → find_element (c ∷ t) ≡ ok (x, rest)
    → parse_from (suc fuel) (c ∷ t) ≡ push_element x (parse_from fuel rest)
unfolding parse_from parse_round parse_after
parse_from-found fuel c t x rest h e =
    ap (parse_round (parse_from fuel)) (skip_spaces-start c t h)
    ∙ ap (parse_after (parse_from fuel)) e

-- One round on a text that starts with an element.
parse_from-Found :
    (fuel : ℕ) (text x rest : Bytes)
    → Found text x rest
    → parse_from (suc fuel) (text ++ rest) ≡ push_element x (parse_from fuel rest)
parse_from-Found fuel [] x rest f = elim f.starts [ ]
parse_from-Found fuel (c ∷ t) x rest f = elim f.found [
  | inl e ↦ parse_from-found fuel c (t ++ rest) x rest f.starts e
  | inr e ↦
      parse_from-found fuel c (t ++ rest) x (skip_spaces rest) f.starts e
      ∙ ap (push_element x) (parse_from-skip_spaces fuel rest)
]

serialize_tail-Ends : (items : List Bytes) → Ends (serialize_tail items)
unfolding serialize_tail is_tcl_space
serialize_tail-Ends [] = tt
serialize_tail-Ends (x ∷ items) = refl

parse_from-space : (fuel : ℕ) (s : Bytes) → parse_from (suc fuel) (32 ∷ s) ≡ parse_from (suc fuel) s
unfolding parse_from skip_spaces is_tcl_space
parse_from-space fuel s = refl

parse_from-none : (fuel : ℕ) → parse_from (suc fuel) [] ≡ ok []
unfolding parse_from parse_round skip_spaces
parse_from-none fuel = refl

-- Any fuel above the number of elements will do.
parse_from-serialize_tail :
    (items : List Bytes) (fuel : ℕ)
    → All IsUtf8 items
    → length items < fuel
    → parse_from fuel (serialize_tail items) ≡ ok items
unfolding serialize_tail
parse_from-serialize_tail [] (suc fuel) u h = parse_from-none fuel
parse_from-serialize_tail items zero u h = absurd (omega (arith, h))
parse_from-serialize_tail (x ∷ items) (suc fuel) (u, us) h =
    let rest = serialize_tail items in
    parse_from-space fuel (convert_element x false ++ rest)
    ∙ parse_from-Found fuel (convert_element x false) x rest
        (Found-convert_element x rest false u (serialize_tail-Ends items))
    ∙ rw (parse_from-serialize_tail items fuel us (omega (arith, h)))

length-serialize_tail : (items : List Bytes) → length items ≤ length (serialize_tail items)
unfolding serialize_tail
length-serialize_tail [] = omega arith
length-serialize_tail (x ∷ items) =
    let n = length-serialize_tail items in
    let m = length-append (convert_element x false) (serialize_tail items) in omega (arith, n, m)

parse_from-serialize_list :
    (x : Bytes) (items : List Bytes) (fuel : ℕ)
    → All IsUtf8 (x ∷ items)
    → length items < fuel
    → parse_from (suc fuel) (serialize_list (x ∷ items)) ≡ ok (x ∷ items)
unfolding serialize_list
parse_from-serialize_list x items fuel (u, us) h =
    let rest = serialize_tail items in
    parse_from-Found fuel (convert_element x true) x rest
      (Found-convert_element x rest true u (serialize_tail-Ends items))
    ∙ rw (parse_from-serialize_tail items fuel us h)

Starts-length : (text : Bytes) → Starts text → 0 < length text
Starts-length [] h = elim h [ ]
Starts-length (c ∷ s) h = omega arith

length-serialize_list :
    (x : Bytes) (items : List Bytes) → IsUtf8 x → length items < length (serialize_list (x ∷ items))
unfolding serialize_list
length-serialize_list x items u =
    let text = convert_element x true in
    let rest = serialize_tail items in
    let f = Found-convert_element x rest true u (serialize_tail-Ends items) in
    omega (arith, length-serialize_tail items, length-append text rest, Starts-length text f.starts)

fuel_suc : (n : ℕ) → n + 1 ≡ suc n
fuel_suc n = omega arith

-- Any list of UTF-8 elements, written by `serialize_list` and read by `parse_elements`, is read
-- without an error, as the same elements in the same order, whatever bytes they hold.
pub parse_elements-serialize_list :
    (items : List Bytes) → All IsUtf8 items → parse_elements (serialize_list items) ≡ ok items
unfolding parse_elements serialize_list
parse_elements-serialize_list [] u = parse_from-none 0
parse_elements-serialize_list (x ∷ items) u = rw (
  fuel_suc (length (serialize_list (x ∷ items))),
  parse_from-serialize_list x items (length (serialize_list (x ∷ items))) u
      (length-serialize_list x items u.0),
)
