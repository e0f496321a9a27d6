-- ===== src/ListRep/Braces.antt =====
-- Lemmas on reading an element written in braces (crates/rtcl-vm/src/value.rs).
use rtcl.Prelude.{
  ℕ, zero, suc, ◌-◌, ◌≡◌, refl, sym, ap, ◌∙◌, subst, inl, inr, Bool, true, false, [], ◌∷◌, ◌++◌,
  ◌==◌, arith, Bool-cases, ◌||◌,
}
use rtcl.Prelude.Int.{pos}
use rtcl.ListRep.Quote.{
  Bytes, backslash, is_tcl_space, Scan, need_brace, must_escape, scan_byte, scan_from,
}
use rtcl.ListRep.Backslash.{less_one, utf8_len, scan_backslash}
use rtcl.ListRep.Sequence.{scan_backslash-suc}
use rtcl.ListRep.Parse.{ok, push, step, braces, after_close, skip_spaces, braced}
use rtcl.ListRep.Scan.{scan_from-require}
use rtcl.ListRep.Quiet.{IsQuiet, Quiet, High, scan_backslash-Quiet}

-- What follows a backslash starts with a whole character.
abbrev pub Whole : Bytes → Type 0
Whole [] = Unit
Whole (d ∷ s) = High (less_one (utf8_len d)) s

abbrev pub Framed : Bytes → Type 0
Framed [] = Unit
Framed (c ∷ s) = ((c == backslash) ≡ true → Whole s) × Framed s

-- An element ends at the end of the text or at a space.
abbrev pub Ends : Bytes → Type 0
Ends [] = Unit
Ends (c ∷ s) = is_tcl_space c ≡ true

scan_from-other :
    (c : ℕ) (s : Bytes) (f : Scan)
    → (c == backslash) ≡ false
    → scan_from (c ∷ s) f ≡ scan_from s (scan_byte c f)
unfolding scan_from
scan_from-other c [] f h = rw h
scan_from-other c (d ∷ s) f h = rw h

scan_byte-quiet : (c : ℕ) (f : Scan) → IsQuiet c → (scan_byte c f).nesting ≡ f.nesting
unfolding scan_byte
scan_byte-quiet c f q = ground arith

after_close-Ends : (rest : Bytes) → Ends rest → after_close braces rest ≡ ok ([], skip_spaces rest)
unfolding after_close
after_close-Ends [] h = refl
after_close-Ends (c ∷ s) h = rw h

-- `f` is the scan's state before `s`, and `n` braces are open there.
pub record At (n : ℕ) (f : Scan) (s : Bytes) : Type 0 where
  pub open_now : f.nesting ≡ pos n
  pub no_escape : (scan_from s f).require_escape ≡ false
  pub balanced : (scan_from s f).nesting ≡ pos 0

At-other :
    (n : ℕ) (c : ℕ) (f : Scan) (s : Bytes) → At n f (c ∷ s) → IsQuiet c → At n (scan_byte c f) s
At-other n c f s a q =
    let e = scan_from-other c s f q.2 in
    record {
      open_now = scan_byte-quiet c f q ∙ a.open_now;
      no_escape = rw (← e) a.no_escape;
      balanced = rw (← e) a.balanced;
    }

At-open : (n : ℕ) (f : Scan) (s : Bytes) → At n f (b'{' ∷ s) → At (suc n) (scan_byte b'{' f) s
unfolding scan_byte
At-open n f s a =
    let e = scan_from-other b'{' s f refl in
    record {
      open_now = rw a.open_now;
      no_escape = rw (← e) a.no_escape;
      balanced = rw (← e) a.balanced;
    }

At-close :
    (n : ℕ) (f : Scan) (s : Bytes)
    → At n f (b'}' ∷ s)
    → (m : ℕ) × (n ≡ suc m) × At m (scan_byte b'}' f) s
unfolding scan_byte
At-close zero f s a =
    let e = scan_from-other b'}' s f refl in
    let set : (scan_byte b'}' f).require_escape ≡ true = rw a.open_now in
    let unset = scan_from-require s (scan_byte b'}' f) (rw e at a.no_escape) in cc
At-close (suc n) f s a =
    let e = scan_from-other b'}' s f refl in
    (
      n,
      refl,
      record {
        open_now = rw a.open_now;
        no_escape = rw (← e) a.no_escape;
        balanced = rw (← e) a.balanced;
      },
    )

abbrev takes_pair : ℕ → Bool
takes_pair d = d == b'{' || (d == b'}' || d == backslash)

module _ (d : ℕ) (s : Bytes) (f : Scan) where
  scan_from-newline :
      (d == 10) ≡ true → scan_from (backslash ∷ d ∷ s) f ≡ scan_from s (need_brace (must_escape f))
  unfolding scan_from
  scan_from-newline h = ground arith

  scan_from-pair :
      (d == 10) ≡ false
      → takes_pair d ≡ true
      → scan_from (backslash ∷ d ∷ s) f ≡ scan_from s (need_brace f)
  unfolding scan_from
  scan_from-pair h k = ground arith

  scan_from-single :
      (d == 10) ≡ false
      → takes_pair d ≡ false
      → scan_from (backslash ∷ d ∷ s) f ≡ scan_from (d ∷ s) (need_brace f)
  unfolding scan_from
  scan_from-single h k = ground arith

  At-newline : (n : ℕ) → At n f (backslash ∷ d ∷ s) → (d == 10) ≡ false
  At-newline n a = elim (Bool-cases (d == 10)) [
    | inl h ↦
        let set : (need_brace (must_escape f)).require_escape ≡ true = refl in
        let unset =
          scan_from-require s (need_brace (must_escape f))
            (rw (scan_from-newline h) at a.no_escape) in
        cc
    | inr h ↦ h
  ]

  At-pair : (n : ℕ) → At n f (backslash ∷ d ∷ s) → takes_pair d ≡ true → At n (need_brace f) s
  At-pair n a k =
      let e = scan_from-pair (At-newline n a) k in
      record {
        open_now = a.open_now;
        no_escape = rw (← e) a.no_escape;
        balanced = rw (← e) a.balanced;
      }

  At-single :
      (n : ℕ) → At n f (backslash ∷ d ∷ s) → takes_pair d ≡ false → At n (need_brace f) (d ∷ s)
  At-single n a k =
      let e = scan_from-single (At-newline n a) k in
      record {
        open_now = a.open_now;
        no_escape = rw (← e) a.no_escape;
        balanced = rw (← e) a.balanced;
      }

braced-close :
    (depth : ℕ) (s : Bytes)
    → (depth == 1) ≡ false
    → braced 0 depth (b'}' ∷ s) ≡ push b'}' (braced 0 (depth - 1) s)
unfolding braced
braced-close depth s h = rw h

pair_length : (d : ℕ) (u : Bytes) → takes_pair d ≡ true → less_one (scan_backslash (d ∷ u)).0 ≡ 1
unfolding scan_backslash
pair_length d u k = elim (Bool-cases (d == b'{')) [
  | inl h ↦ let e : d ≡ b'{' = ground arith in rw e refl
  | inr h ↦ elim (Bool-cases (d == b'}')) [
    | inl i ↦ let e : d ≡ b'}' = ground arith in rw e refl
    | inr i ↦ let e : d ≡ backslash = ground arith in rw e refl
  ]
]

At-lone : (n : ℕ) (f : Scan) → ¬ At n f (backslash ∷ [])
unfolding scan_from
At-lone n f a = let set : true ≡ false = a.no_escape in cc

module _ (rest : Bytes) (rest_ends : Ends rest) where
  -- The bytes of the element, closed, read with `n + 1` braces open and `k` bytes to skip.
  abbrev pub Reads : ℕ → ℕ → Bytes → Type 0
  Reads k n s = braced k (suc n) (s ++ b'}' ∷ rest) ≡ ok (s, skip_spaces rest)

  Reads-skip : (k n c : ℕ) (s : Bytes) → Reads k n s → Reads (suc k) n (c ∷ s)
  unfolding braced
  Reads-skip k n c s h = ap (push c) h

  Reads-quiet : (n c : ℕ) (s : Bytes) → IsQuiet c → Reads 0 n s → Reads 0 n (c ∷ s)
  unfolding braced
  Reads-quiet n c s q h = ground arith

  Reads-nil : (k n : ℕ) (f : Scan) → At n f [] → Quiet k [] → Reads k n []
  unfolding braced scan_from
  Reads-nil zero n f a q = let e : n ≡ 0 = ground arith in rw e (after_close-Ends rest rest_ends)
  Reads-nil (suc k) n f a q = elim q [ ]

  Reads-open : (n : ℕ) (s : Bytes) → Reads 0 (suc n) s → Reads 0 n (b'{' ∷ s)
  unfolding braced
  Reads-open n s h = ap (push b'{') h

  Reads-close : (n : ℕ) (s : Bytes) → Reads 0 n s → Reads 0 (suc n) (b'}' ∷ s)
  Reads-close n s h =
      let e : suc (suc n) - 1 ≡ suc n = omega arith in
      braced-close (suc (suc n)) (s ++ b'}' ∷ rest) (ground arith) ∙ rw (e, h)

  Reads-backslash :
      (n : ℕ) (s : Bytes)
      → Reads (less_one (scan_backslash (s ++ b'}' ∷ rest)).0) n s
      → Reads 0 n (backslash ∷ s)
  unfolding braced
  Reads-backslash n s h =
      let t = s ++ b'}' ∷ rest in
      ap (λ k. step k (λ skip. push backslash (braced skip (suc n) t))) (scan_backslash-suc t)
      ∙ ap (push backslash) h

  -- Any byte but a backslash.
  Reads-plain :
      (n c : ℕ) (f : Scan) (s : Bytes)
      → At n f (c ∷ s)
      → (c == backslash) ≡ false
      → ((m : ℕ) (g : Scan) → At m g s → Reads 0 m s)
      → Reads 0 n (c ∷ s)
  Reads-plain n c f s a b ih = elim (Bool-cases (c == b'{')) [
    | inl h ↦
        let e : c ≡ b'{' = ground arith in
        let a' : At n f (b'{' ∷ s) = rw e at a in
        rw e (Reads-open n s (ih (suc n) (scan_byte b'{' f) (At-open n f s a')))
    | inr h ↦ elim (Bool-cases (c == b'}')) [
      | inl k ↦
          let e : c ≡ b'}' = ground arith in
          let a' : At n f (b'}' ∷ s) = rw e at a in
          let (m, em, am) = At-close n f s a' in
          rw (e, em) (Reads-close m s (ih m (scan_byte b'}' f) am))
      | inr k ↦ Reads-quiet n c s (h, k, b) (ih n (scan_byte c f) (At-other n c f s a (h, k, b)))
    ]
  ]

  Reads-pair :
      (n d : ℕ) (s : Bytes) → takes_pair d ≡ true → Reads 0 n s → Reads 0 n (backslash ∷ d ∷ s)
  Reads-pair n d s k h = Reads-backslash n (d ∷ s) (
      subst (λ j. Reads j n (d ∷ s)) (sym (pair_length d (s ++ b'}' ∷ rest) k))
        (Reads-skip 0 n d s h))

  -- The whole element, by the scan's own steps.
  pub braced_lem : (k n : ℕ) (f : Scan) (s : Bytes) → Framed s → At n f s → Quiet k s → Reads k n s
  braced_lem k n f [] w a q = Reads-nil k n f a q
  braced_lem (suc k) n f (c ∷ []) w a (inl q, qs) =
      Reads-skip k n c [] (braced_lem k n (scan_byte c f) [] w.1 (At-other n c f [] a q) qs)
  braced_lem (suc k) n f (c ∷ []) w a (inr q, qs) = elim q [ ]
  braced_lem (suc k) n f (c ∷ d ∷ s) w a (inl q, qs) =
      Reads-skip k n c (d ∷ s)
        (braced_lem k n (scan_byte c f) (d ∷ s) w.1 (At-other n c f (d ∷ s) a q) qs)
  braced_lem (suc k) n f (c ∷ d ∷ s) w a (inr (q, u), qs) =
      let a' : At n f (backslash ∷ d ∷ s) = rw q at a in
      Reads-skip k n c (d ∷ s)
        (braced_lem k n (need_brace f) (d ∷ s) w.1 (At-single d s f n a' (ground arith)) qs)
  braced_lem zero n f (c ∷ []) w a q = elim (Bool-cases (c == backslash)) [
    | inl h ↦
        let e : c ≡ backslash = ground arith in
        let a' : At n f (backslash ∷ []) = rw e at a in absurd (At-lone n f a')
    | inr h ↦ Reads-plain n c f [] a h (λ m g a'. braced_lem zero m g [] tt a' tt)
  ]
  braced_lem zero n f (c ∷ d ∷ s) w a q = elim (Bool-cases (c == backslash)) [
    | inl h ↦
        let e : c ≡ backslash = ground arith in
        let a' : At n f (backslash ∷ d ∷ s) = rw e at a in
        rw e (elim (Bool-cases (takes_pair d)) [
          | inl k ↦
              Reads-pair n d s k
                (braced_lem zero n (need_brace f) s w.1.1 (At-pair d s f n a' k) tt)
          | inr k ↦ Reads-backslash n (d ∷ s) (
              braced_lem (less_one (scan_backslash (d ∷ (s ++ b'}' ∷ rest))).0) n (need_brace f)
                (d ∷ s) w.1 (At-single d s f n a' k)
                (scan_backslash-Quiet rest d s (ground arith) (At-newline d s f n a') (w.0 h)))
        ])
    | inr h ↦ Reads-plain n c f (d ∷ s) a h (λ m g a'. braced_lem zero m g (d ∷ s) w.1 a' tt)
  ]
