-- ===== src/Ir/Strip/Whole.antt =====
-- `strip_nops` of crates/rtcl-ir/src/bytecode.rs as a whole: lemmas on its table, loop and remapping.
use rtcl.Prelude.{
  ℕ, zero, suc, ◌+◌, ◌≤◌, ◌≡◌, refl, sym, ap, ◌∙◌, subst, ◌≢◌, ◌↔◌, true, false, List, [], ◌∷◌, map,
  Option, none, some, length, All, arith, Bool-cases, ◌==◌, inl, inr,
}
use mathlib.Core.Option.{some-injective}
use rtcl.Ir.OpCode.{OpCode}
use rtcl.Ir.Targets.{map_targets, targets_of, is_nop, targets_of-map_targets, is_nop-map_targets}
use rtcl.Ir.ByteCode.{ByteCode}
use rtcl.Ir.Machine.{Machine, config, Outcome, out_of_fuel, EndsWith}
use rtcl.Ir.Strip.{
  new_len, new_indices, forward_table, lookup_target, all_below, targets_fit, compact_ops,
  push_line, compact_lines, with_lines, strip_ops, strip_nops,
}
use rtcl.Ir.Strip.Table.{kept_before, forward_table_lem}
use rtcl.Ir.Strip.Run.{AllLe, TargetsFit, stripped, EndsWith-image}

-- The table that `strip_nops` builds.
abbrev forward : List OpCode → ℕ → ℕ
forward ops = lookup_target (forward_table (new_len 0 ops) ops (new_indices 0 ops))

forward_lem : (ops : List OpCode) (t : ℕ) → t ≤ length ops → forward ops t ≡ kept_before ops t
unfolding lookup_target
forward_lem ops t h = ground (arith, forward_table_lem 0 ops t h)

all_below→AllLe : (n : ℕ) (ts : List ℕ) → all_below (n + 1) ts ≡ true → AllLe n ts
unfolding all_below
all_below→AllLe n [] h = tt
all_below→AllLe n (t ∷ ts) h = ground (arith, all_below→AllLe n ts)

AllLe→all_below : (n : ℕ) (ts : List ℕ) → AllLe n ts → all_below (n + 1) ts ≡ true
unfolding all_below
AllLe→all_below n [] h = refl
AllLe→all_below n (t ∷ ts) (h, hs) = ground (arith, AllLe→all_below n ts hs)

targets_fit→TargetsFit :
    (n : ℕ) (ops : List OpCode) → targets_fit (n + 1) ops ≡ true → TargetsFit n ops
unfolding targets_fit
targets_fit→TargetsFit n [] h = tt
targets_fit→TargetsFit n (op ∷ ops) h =
    ground (arith, all_below→AllLe n (targets_of op), targets_fit→TargetsFit n ops)

TargetsFit→targets_fit :
    (n : ℕ) (ops : List OpCode) → TargetsFit n ops → targets_fit (n + 1) ops ≡ true
unfolding targets_fit
TargetsFit→targets_fit n [] h = refl
TargetsFit→targets_fit n (op ∷ ops) (h, hs) =
    ground (arith, AllLe→all_below n (targets_of op) h, TargetsFit→targets_fit n ops hs)

abbrev pub NopFree : List OpCode → Type 0
NopFree = All (λ op. is_nop op ≡ false)

compact_ops-NopFree :
    (f : ℕ → ℕ) (ops : List OpCode) → NopFree (compact_ops (map (map_targets f) ops))
unfolding compact_ops
compact_ops-NopFree f [] = tt
compact_ops-NopFree f (op ∷ ops) = elim (Bool-cases (is_nop (map_targets f op))) [
  | inl e ↦ rw e (compact_ops-NopFree f ops)
  | inr e ↦ rw e (e, compact_ops-NopFree f ops)
]

new_len_bound : (offset : ℕ) (ops : List OpCode) → new_len offset ops ≤ offset + length ops
unfolding new_len
new_len_bound offset [] = omega arith
new_len_bound offset (op ∷ ops) =
    ground (arith, new_len_bound offset ops, new_len_bound (offset + 1) ops)

-- When nothing is counted out, there is nothing to strip.
new_len-NopFree :
    (offset : ℕ) (ops : List OpCode) → new_len offset ops ≡ offset + length ops → NopFree ops
unfolding new_len
new_len-NopFree offset [] h = tt
new_len-NopFree offset (op ∷ ops) h =
    ground (arith, new_len_bound offset ops, new_len-NopFree (offset + 1) ops)

kept_before_bound :
    (f : ℕ → ℕ) (ops : List OpCode) (t : ℕ)
    → kept_before ops t ≤ length (compact_ops (map (map_targets f) ops))
unfolding kept_before compact_ops
kept_before_bound f ops zero = omega arith
kept_before_bound f [] (suc t) = omega arith
kept_before_bound f (op ∷ ops) (suc t) =
    ground (arith, is_nop-map_targets f op, kept_before_bound f ops t)

pub AllLe-map :
    (f : ℕ → ℕ) (n k : ℕ) (ts : List ℕ)
    → ((t : ℕ) → t ≤ n → f t ≤ k)
    → AllLe n ts
    → AllLe k (map f ts)
AllLe-map f n k [] b h = tt
AllLe-map f n k (t ∷ ts) b (h, hs) = (b t h, AllLe-map f n k ts b hs)

TargetsFit-compact_ops :
    (f : ℕ → ℕ) (n k : ℕ) (ops : List OpCode)
    → ((t : ℕ) → t ≤ n → f t ≤ k)
    → TargetsFit n ops
    → TargetsFit k (compact_ops (map (map_targets f) ops))
unfolding compact_ops
TargetsFit-compact_ops f n k [] b h = tt
TargetsFit-compact_ops f n k (op ∷ ops) b (h, hs) = elim (Bool-cases (is_nop (map_targets f op))) [
  | inl e ↦ rw e (TargetsFit-compact_ops f n k ops b hs)
  | inr e ↦
      let here : AllLe k (targets_of (map_targets f op)) =
        rw (targets_of-map_targets f op) (AllLe-map f n k (targets_of op) b h) in
      rw e (here, TargetsFit-compact_ops f n k ops b hs)
]

-- The two ways in which `strip_nops` returns.
strip_nops-same :
    (code : ByteCode) → new_len 0 code.ops ≡ length code.ops → strip_nops code ≡ some code
unfolding strip_nops
strip_nops-same code h = ground arith

strip_nops-shorter :
    (code : ByteCode)
    → new_len 0 code.ops ≢ length code.ops
    → TargetsFit (length code.ops) code.ops
    → strip_nops code ≡ with_lines code (compact_lines code.ops code.line_map)
unfolding strip_nops
strip_nops-shorter code h fit =
    ground (arith, TargetsFit→targets_fit (length code.ops) code.ops fit)

-- One line for each instruction.
abbrev pub Parallel : ByteCode → Type 0
Parallel code = length code.line_map ≡ length code.ops

-- Each kept instruction has its line, and each line kept its instruction.
abbrev Lines : ℕ → Option (List ℕ) → Type 0
Lines n none = ⊥
Lines n (some lines) = length lines ≡ n

Lines-push : (n line : ℕ) (o : Option (List ℕ)) → Lines n o → Lines (suc n) (push_line line o)
Lines-push n line none h = h
Lines-push n line (some lines) h = ap suc h

compact_lines-Lines :
    (f : ℕ → ℕ) (ops : List OpCode) (lines : List ℕ)
    → length lines ≡ length ops
    → Lines (length (compact_ops (map (map_targets f) ops))) (compact_lines ops lines)
unfolding compact_lines compact_ops
compact_lines-Lines f [] lines h = refl
compact_lines-Lines f (op ∷ ops) [] h = absurd (omega (arith, h))
compact_lines-Lines f (op ∷ ops) (line ∷ lines) h =
    let l = compact_lines-Lines f ops lines (omega (arith, h)) in
    elim (Bool-cases (is_nop op)) [
      | inl e ↦ let e' = is_nop-map_targets f op ∙ e in rw (e, e') l
      | inr e ↦ let e' = is_nop-map_targets f op ∙ e in rw (e, e') (Lines-push _ line _ l)
    ]

Lines-cases :
    (n : ℕ) (o : Option (List ℕ))
    → Lines n o
    → (lines : List ℕ) × (o ≡ some lines) × (length lines ≡ n)
Lines-cases n none h = elim h [ ]
Lines-cases n (some lines) h = (lines, refl, h)

-- On a unit with a line for each instruction, whose targets lie within it or at its end,
-- `strip_nops` does not panic; its result has no `Nop`, a line for each instruction, and targets
-- that lie within the result or at its end.
pub strip_nops-NopFree :
    (code : ByteCode)
    → length code.line_map ≡ length code.ops
    → TargetsFit (length code.ops) code.ops
    → (code' : ByteCode) × (strip_nops code ≡ some code')
      × NopFree code'.ops
      × (length code'.line_map ≡ length code'.ops)
      × TargetsFit (length code'.ops) code'.ops
unfolding strip_ops
strip_nops-NopFree code par fit = elim (Bool-cases (new_len 0 code.ops == length code.ops)) [
  | inl e ↦ (
    code,
    strip_nops-same code (ground arith),
    new_len-NopFree 0 code.ops (ground arith),
    par,
    fit,
  )
  | inr e ↦
      let (lines, q, l) =
        Lines-cases _ _ (compact_lines-Lines (forward code.ops) code.ops code.line_map par) in
      (
        record code { ops = strip_ops code.ops; line_map = lines },
        strip_nops-shorter code (ground arith) fit ∙ ap (with_lines code) q,
        compact_ops-NopFree (forward code.ops) code.ops,
        l,
        TargetsFit-compact_ops (forward code.ops) (length code.ops) _ code.ops
            (λ t h. rw (forward_lem code.ops t h) (kept_before_bound (forward code.ops) code.ops t))
            fit,
      )
]

ops_of : {r : Option ByteCode} {a b : ByteCode} → r ≡ some a → r ≡ some b → a.ops ≡ b.ops
ops_of {a} {b} p q = ap (λ (c : ByteCode). c.ops) (some-injective a b (sym p ∙ q))

ops_of-with_lines :
    (code code' : ByteCode) (o : Option (List ℕ))
    → with_lines code o ≡ some code'
    → strip_ops code.ops ≡ code'.ops
ops_of-with_lines code code' none h = cc
ops_of-with_lines code code' (some lines) h = ops_of refl h

-- Whatever the instructions compute, the stripped unit, entered at its start, ends with an outcome
-- exactly if the unit does: it finishes in the same state, or sticks where the unit sticks.
pub EndsWith-strip_nops :
    {S : Type 0} (m : Machine S) (code code' : ByteCode) (s : S) (o : Outcome S)
    → TargetsFit (length code.ops) code.ops
    → strip_nops code ≡ some code'
    → o ≢ out_of_fuel
    → EndsWith m code.ops (config 0 [] s) o ↔ EndsWith m code'.ops (config 0 [] s) o
unfolding strip_ops stripped kept_before
EndsWith-strip_nops m code code' s o fit h n =
    elim (Bool-cases (new_len 0 code.ops == length code.ops)) [
      | inl e ↦
          subst (λ ops. EndsWith m code.ops (config 0 [] s) o ↔ EndsWith m ops (config 0 [] s) o)
            (ops_of (strip_nops-same code (ground arith)) h) (λ x. x, λ x. x)
      | inr e ↦
          subst (λ ops. EndsWith m code.ops (config 0 [] s) o ↔ EndsWith m ops (config 0 [] s) o)
            (ops_of-with_lines code code' (compact_lines code.ops code.line_map)
              (sym (strip_nops-shorter code (ground arith) fit) ∙ h))
            (EndsWith-image m code.ops (forward code.ops) (forward_lem code.ops) fit (config 0 [] s)
              o tt n)
    ]
