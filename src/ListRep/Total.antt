-- ===== src/ListRep/Total.antt =====
-- Lemmas on the progress of `find_element` and `parse_elements` (crates/rtcl-vm/src/value.rs).
use rtcl.Prelude.{
  ℕ, zero, suc, ◌+◌, ◌-◌, ◌≤◌, ◌<◌, ◌≡◌, ◌≢◌, sym, subst, false, List, [], ◌∷◌, ◌==◌, length, arith,
  if_intro,
}
use rtcl.ListRep.Quote.{Bytes, backslash, is_tcl_space}
use rtcl.ListRep.Backslash.{less_one, scan_backslash}
use rtcl.ListRep.Sequence.{scan_backslash-suc, scan_backslash-rest}
use rtcl.ListRep.Parse.{
  Shape, braces, quotes, ListParseError, out_of_fuel, past_end, step, Parsed, ok, err, skip_spaces,
  junk_error, push, after_close, braced, quoted, bare, raw_value, find_element, push_element,
  parse_after, parse_round, parse_from, parse_elements,
}

-- An error of the code: no loop runs on without end, and no slice is out of range.
abbrev IsError : ListParseError → Type 0
IsError e = (e ≢ out_of_fuel) × (e ≢ past_end)

-- At most `n` bytes are left to read, or an error of the code.
abbrev Shrinks : ℕ → Parsed (Bytes × Bytes) → Type 0
Shrinks n (ok (elem, rest)) = length rest ≤ n
Shrinks n (err e) = IsError e

Shrinks-more : (n m : ℕ) (r : Parsed (Bytes × Bytes)) → n ≤ m → Shrinks n r → Shrinks m r
Shrinks-more n m (ok (elem, rest)) h s = omega (arith, h, s)
Shrinks-more n m (err e) h s = s

Shrinks-push : (n c : ℕ) (r : Parsed (Bytes × Bytes)) → Shrinks n r → Shrinks (suc n) (push c r)
Shrinks-push n c (ok (elem, rest)) s = omega (arith, s)
Shrinks-push n c (err e) s = s

length-skip_spaces : (s : Bytes) → length (skip_spaces s) ≤ length s
unfolding skip_spaces
length-skip_spaces [] = omega arith
length-skip_spaces (c ∷ s) =
    if_intro (λ t. length t ≤ suc (length s)) (is_tcl_space c) {x = skip_spaces s} {y = c ∷ s}
      (λ _. omega (arith, length-skip_spaces s)) (λ _. omega arith)

after_close-Shrinks : (shape : Shape) (s : Bytes) → Shrinks (length s) (after_close shape s)
unfolding after_close junk_error
after_close-Shrinks shape [] = omega arith
after_close-Shrinks shape (c ∷ s) =
    if_intro (Shrinks (suc (length s))) (is_tcl_space c) (λ _. length-skip_spaces (c ∷ s))
      (λ _. (λ e. cc, λ e. cc))

-- A sequence that the loop passes.
step-Shrinks :
    (n : ℕ) (s : Bytes) (more : ℕ → Parsed (Bytes × Bytes))
    → ((skip : ℕ) → skip ≤ length s → Shrinks n (more skip))
    → Shrinks n (step (scan_backslash s).0 more)
step-Shrinks n s more h =
    subst (λ k. Shrinks n (step k more)) (sym (scan_backslash-suc s))
      (h (less_one (scan_backslash s).0) (scan_backslash-rest s))

braced-Shrinks : (skip depth : ℕ) (s : Bytes) → Shrinks (length s) (braced skip depth s)
unfolding braced
braced-Shrinks zero depth [] = (λ e. cc, λ e. cc)
braced-Shrinks (suc skip) depth [] = (λ e. cc, λ e. cc)
braced-Shrinks (suc skip) depth (c ∷ s) = Shrinks-push (length s) c _ (braced-Shrinks skip depth s)
braced-Shrinks zero depth (c ∷ s) =
    let P = Shrinks (suc (length s)) in
    if_intro P (c == b'{') (λ _. Shrinks-push (length s) c _ (braced-Shrinks 0 (suc depth) s))
      (λ _.
        if_intro P (c == b'}')
          (λ _.
            if_intro P (depth == 1)
              (λ _. Shrinks-more (length s) _ _ (omega arith) (after_close-Shrinks braces s))
              (λ _. Shrinks-push (length s) c _ (braced-Shrinks 0 (depth - 1) s)))
          (λ _.
            if_intro P (c == backslash)
              (λ _.
                step-Shrinks (suc (length s)) s (λ skip. push c (braced skip depth s))
                  (λ skip _. Shrinks-push (length s) c _ (braced-Shrinks skip depth s)))
              (λ _. Shrinks-push (length s) c _ (braced-Shrinks 0 depth s))))

quoted-Shrinks : (skip : ℕ) (s : Bytes) → Shrinks (length s) (quoted skip s)
unfolding quoted
quoted-Shrinks zero [] = (λ e. cc, λ e. cc)
quoted-Shrinks (suc skip) [] = (λ e. cc, λ e. cc)
quoted-Shrinks (suc skip) (c ∷ s) = Shrinks-push (length s) c _ (quoted-Shrinks skip s)
quoted-Shrinks zero (c ∷ s) =
    let P = Shrinks (suc (length s)) in
    if_intro P (c == b'"')
      (λ _. Shrinks-more (length s) _ _ (omega arith) (after_close-Shrinks quotes s))
      (λ _.
        if_intro P (c == backslash)
          (λ _.
            step-Shrinks (suc (length s)) s (λ skip. push c (quoted skip s))
              (λ skip _. Shrinks-push (length s) c _ (quoted-Shrinks skip s)))
          (λ _. Shrinks-push (length s) c _ (quoted-Shrinks 0 s)))

raw_value-Shrinks : (n : ℕ) (r : Parsed (Bytes × Bytes)) → Shrinks n r → Shrinks n (raw_value r)
raw_value-Shrinks n (ok (raw, rest)) s = s
raw_value-Shrinks n (err e) s = s

bare-Shrinks : (skip : ℕ) (s : Bytes) → skip ≤ length s → Shrinks (length s) (bare skip s)
unfolding bare
bare-Shrinks zero [] h = omega arith
bare-Shrinks (suc skip) [] h = absurd (omega (arith, h))
bare-Shrinks (suc skip) (c ∷ s) h =
    Shrinks-push (length s) c _ (bare-Shrinks skip s (omega (arith, h)))
bare-Shrinks zero (c ∷ s) h =
    let P = Shrinks (suc (length s)) in
    if_intro P (is_tcl_space c) (λ _. omega arith)
      (λ _.
        if_intro P (c == backslash)
          (λ _.
            step-Shrinks (suc (length s)) s (λ skip. push c (bare skip s))
              (λ skip l. Shrinks-push (length s) c _ (bare-Shrinks skip s l)))
          (λ _. Shrinks-push (length s) c _ (bare-Shrinks 0 s (omega arith))))

-- A byte more than what is read of it.
Shrinks-push_less : (n c : ℕ) (r : Parsed (Bytes × Bytes)) → Shrinks n r → Shrinks n (push c r)
Shrinks-push_less n c (ok (elem, rest)) s = s
Shrinks-push_less n c (err e) s = s

bare-Shrinks-start :
    (c : ℕ) (s : Bytes) → is_tcl_space c ≡ false → Shrinks (length s) (bare 0 (c ∷ s))
unfolding bare
bare-Shrinks-start c s h =
    let P = Shrinks (length s) in
    rw h (
      if_intro P (c == backslash)
        (λ _.
          step-Shrinks (length s) s (λ skip. push c (bare skip s))
            (λ skip l. Shrinks-push_less (length s) c _ (bare-Shrinks skip s l)))
        (λ _. Shrinks-push_less (length s) c _ (bare-Shrinks 0 s (omega arith))))

find_element-Shrinks :
    (c : ℕ) (s : Bytes) → is_tcl_space c ≡ false → Shrinks (length s) (find_element (c ∷ s))
unfolding find_element
find_element-Shrinks c s h =
    let P = Shrinks (length s) in
    if_intro P (c == b'{') (λ _. braced-Shrinks 0 1 s)
      (λ _.
        if_intro P (c == b'"') (λ _. raw_value-Shrinks (length s) _ (quoted-Shrinks 0 s))
          (λ _. raw_value-Shrinks (length s) _ (bare-Shrinks-start c s h)))

-- A text without spaces before its first element.
abbrev Skipped : Bytes → Type 0
Skipped [] = Unit
Skipped (c ∷ s) = is_tcl_space c ≡ false

skip_spaces-Skipped : (s : Bytes) → Skipped (skip_spaces s)
unfolding skip_spaces
skip_spaces-Skipped [] = tt
skip_spaces-Skipped (c ∷ s) =
    if_intro Skipped (is_tcl_space c) (λ _. skip_spaces-Skipped s) (λ h. h)

-- A list, or an error of the code.
abbrev Ends : Parsed (List Bytes) → Type 0
Ends (ok items) = Unit
Ends (err e) = IsError e

push_element-Ends : (elem : Bytes) (r : Parsed (List Bytes)) → Ends r → Ends (push_element elem r)
push_element-Ends elem (ok items) h = tt
push_element-Ends elem (err e) h = h

module _ (more : Bytes → Parsed (List Bytes)) (n : ℕ)
    (ends : (t : Bytes) → length t ≤ n → Ends (more t)) where
  parse_after-Ends : (r : Parsed (Bytes × Bytes)) → Shrinks n r → Ends (parse_after more r)
  unfolding parse_after
  parse_after-Ends (ok (elem, rest)) s = push_element-Ends elem (more rest) (ends rest s)
  parse_after-Ends (err e) s = s

  parse_round-Ends : (s : Bytes) → Skipped s → length s ≤ suc n → Ends (parse_round more s)
  unfolding parse_round
  parse_round-Ends [] k l = tt
  parse_round-Ends (c ∷ s) k l =
      parse_after-Ends (find_element (c ∷ s))
        (Shrinks-more (length s) n _ (omega (arith, l)) (find_element-Shrinks c s k))

parse_from-Ends : (fuel : ℕ) (s : Bytes) → length s < fuel → Ends (parse_from fuel s)
unfolding parse_from skip_spaces parse_round
parse_from-Ends zero s h = absurd (omega (arith, h))
parse_from-Ends (suc zero) [] h = tt
parse_from-Ends (suc zero) (c ∷ s) h = absurd (omega (arith, h))
parse_from-Ends (suc (suc fuel)) s h =
    parse_round-Ends (parse_from (suc fuel)) fuel
      (λ t l. parse_from-Ends (suc fuel) t (omega (arith, l))) (skip_spaces s)
      (skip_spaces-Skipped s) (omega (arith, h, length-skip_spaces s))

no_error : (r : Parsed (List Bytes)) → Ends r → (r ≢ err out_of_fuel) × (r ≢ err past_end)
no_error (ok items) h = (λ e. cc, λ e. cc)
no_error (err e) h = (
  λ k. let k' : err e ≡ err out_of_fuel = k in h.0 cc,
  λ k. let k' : err e ≡ err past_end = k in h.1 cc,
)

-- On every text, `parse_elements` ends with the elements or with one of the errors of the code: its
-- loop runs at most once for each byte and once more, the scan of an element passes every backslash
-- sequence by a byte at least, and no bare element is cut off behind the end of the text.
pub parse_elements-total :
    (s : Bytes) → (parse_elements s ≢ err out_of_fuel) × (parse_elements s ≢ err past_end)
unfolding parse_elements
parse_elements-total s = no_error _ (parse_from-Ends (length s + 1) s (omega arith))
