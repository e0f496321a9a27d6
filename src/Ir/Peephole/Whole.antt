-- ===== src/Ir/Peephole/Whole.antt =====
-- `peephole` of crates/rtcl-ir/src/bytecode.rs as a whole: lemmas on its passes in sequence.
use rtcl.Prelude.{
  ℕ, zero, suc, ◌≡◌, refl, sym, ap, ◌∙◌, subst, Bool, true, false, ◌||◌, List, Option, none, some,
  length, ltb, if_intro, arith,
}
use rtcl.Ir.OpCode.{OpCode}
use rtcl.Ir.ByteCode.{ByteCode}
use rtcl.Ir.Strip.{strip_nops}
use rtcl.Ir.Strip.Run.{TargetsFit}
use rtcl.Ir.Strip.Whole.{NopFree, Parallel, strip_nops-NopFree}
use rtcl.Ir.Fuse.{fuse_pairs}
use rtcl.Ir.Fuse.Keeps.{InUnit, Fuses, fuse_pairs-InUnit}
use rtcl.Ir.Peephole.{
  fuse_slots, fold_consts, fuse_two, with_list, rewrite_pass, then_rewrite, peephole_pass,
  then_strip, then_strip_fused, then_fuse, peephole_rounds, peephole,
}
use rtcl.Ir.Peephole.Passes.{Keeps, Keeps-fuse_slots, Keeps-fold_consts, Keeps-fuse_two}

Keeps-InUnit :
    (code : ByteCode) (ops : List OpCode)
    → Keeps (length code.ops) code.ops ops
    → InUnit code
    → InUnit (with_list code ops)
Keeps-InUnit code ops k h = subst (λ n. TargetsFit n ops) (sym k.same_length) (k.fits h)

Keeps-then : (n : ℕ) (a b c : List OpCode) → Keeps n a b → Keeps n b c → Keeps n a c
Keeps-then n a b c k l = record {
  same_length = l.same_length ∙ k.same_length;
  fits = λ h. l.fits (k.fits h);
}

-- A unit with a line for each instruction, and targets within it or at its end.
abbrev Fine : ByteCode → Type 0
Fine code = Parallel code × InUnit code

with_list-Fine :
    (code : ByteCode) (ops : List OpCode)
    → Keeps (length code.ops) code.ops ops
    → Fine code
    → Fine (with_list code ops)
with_list-Fine code ops k (p, h) = (p ∙ sym k.same_length, Keeps-InUnit code ops k h)

rewrite_pass-Fine : (code : ByteCode) → Fine code → Fine (rewrite_pass code).1
unfolding rewrite_pass
rewrite_pass-Fine code h =
    let n = length code.ops in
    let ops = (fold_consts code.ops).1 in
    if_intro (λ (r : Bool × ByteCode). Fine r.1) (ltb n 2) (λ _. h)
      (λ _.
        with_list-Fine code (fuse_two ops).1
          (Keeps-then n code.ops ops (fuse_two ops).1 (Keeps-fold_consts n code.ops)
            (Keeps-fuse_two n ops))
          h)

-- A result within the range, not a panic.
abbrev Runs : Option (Bool × ByteCode) → Type 0
Runs none = ⊥
Runs (some (changed, code)) = Fine code

Runs-then_rewrite :
    (o : Option ByteCode) (code : ByteCode) → o ≡ some code → Fine code → Runs (then_rewrite o)
Runs-then_rewrite o code e h = rw e (rewrite_pass-Fine code h)

Runs-peephole_pass : (code : ByteCode) → Fine code → Runs (peephole_pass code)
unfolding peephole_pass
Runs-peephole_pass code h =
    let ops = (fuse_slots code.ops).1 in
    let slots = with_list code ops in
    let (par, fits) = with_list-Fine code ops (Keeps-fuse_slots (length code.ops) code.ops) h in
    if_intro (λ o. Runs (then_rewrite o)) (fuse_slots code.ops).0
      (λ _.
        let (code', e, _, p, f) = strip_nops-NopFree slots par fits in
        Runs-then_rewrite (strip_nops slots) code' e (p, f))
      (λ _. Runs-then_rewrite (some code) code refl h)

-- After a round of the driver no `Nop` is left.
abbrev Stripped : Option (Bool × ByteCode) → Type 0
Stripped none = ⊥
Stripped (some (changed, code)) = NopFree code.ops × Fine code

Stripped-then_strip_fused :
    (changed : Bool) (code : ByteCode) (o : Option (Bool × ByteCode))
    → Parallel code
    → Fuses code o
    → Stripped (then_strip_fused changed o)
Stripped-then_strip_fused changed code o p ((fused, unit), e, l, m, fits) =
    let par : Parallel unit = ap length m ∙ (p ∙ sym l) in
    let (code', q, free, p', f) = strip_nops-NopFree unit par fits in
    subst (λ r. Stripped (then_strip_fused changed r)) (sym e)
      (subst (λ r. Stripped (then_strip (changed || fused) r)) (sym q) (free, (p', f)))

Stripped-then_fuse : (o : Option (Bool × ByteCode)) → Runs o → Stripped (then_fuse o)
Stripped-then_fuse none r = elim r [ ]
Stripped-then_fuse (some (changed, code)) (p, f) =
    Stripped-then_strip_fused changed code (fuse_pairs code) p (fuse_pairs-InUnit code f)

abbrev Returns : Option ByteCode → Type 0
Returns o = (code : ByteCode) × (o ≡ some code) × NopFree code.ops × Fine code

Stripped-cases :
    (o : Option (Bool × ByteCode))
    → Stripped o
    → (changed : Bool) × (code : ByteCode) × (o ≡ some (changed, code))
      × NopFree code.ops
      × Fine code
Stripped-cases none s = elim s [ ]
Stripped-cases (some (changed, code)) (free, f) = (changed, code, refl, free, f)

module _ (rounds : ℕ) (code code' : ByteCode) where
  peephole_rounds-changed :
      then_fuse (peephole_pass code) ≡ some (true, code')
      → peephole_rounds (suc rounds) code ≡ peephole_rounds rounds code'
  unfolding peephole_rounds
  peephole_rounds-changed e = ground arith

  peephole_rounds-unchanged :
      then_fuse (peephole_pass code) ≡ some (false, code')
      → peephole_rounds (suc rounds) code ≡ some code'
  unfolding peephole_rounds
  peephole_rounds-unchanged e = ground arith

Returns-round :
    (rounds : ℕ) (code : ByteCode)
    → ((next : ByteCode) → NopFree next.ops → Fine next → Returns (peephole_rounds rounds next))
    → (changed : Bool) (code' : ByteCode) → then_fuse (peephole_pass code) ≡ some (changed, code')
    → NopFree code'.ops
    → Fine code'
    → Returns (peephole_rounds (suc rounds) code)
Returns-round rounds code more true code' e free f =
    subst Returns (sym (peephole_rounds-changed rounds code code' e)) (more code' free f)
Returns-round rounds code more false code' e free f =
    subst Returns (sym (peephole_rounds-unchanged rounds code code' e)) (code', refl, free, f)

Returns-suc :
    (rounds : ℕ) (code : ByteCode)
    → ((next : ByteCode) → NopFree next.ops → Fine next → Returns (peephole_rounds rounds next))
    → Fine code
    → Returns (peephole_rounds (suc rounds) code)
Returns-suc rounds code more h =
    let s = Stripped-then_fuse (peephole_pass code) (Runs-peephole_pass code h) in
    let (changed, code', e, free, f) = Stripped-cases (then_fuse (peephole_pass code)) s in
    Returns-round rounds code more changed code' e free f

Returns-peephole_rounds :
    (rounds : ℕ) (code : ByteCode)
    → NopFree code.ops
    → Fine code
    → Returns (peephole_rounds rounds code)
unfolding peephole_rounds
Returns-peephole_rounds zero code free h = (code, refl, free, h)
Returns-peephole_rounds (suc rounds) code free h =
    Returns-suc rounds code (Returns-peephole_rounds rounds) h

-- On a unit with a line for each instruction, whose targets lie within it or at its end, the
-- optimiser returns a unit: no target, line or window is read out of range on the way. The unit
-- returned has no `Nop`, a line for each instruction, and its targets lie within it or at its end.
pub peephole-NopFree :
    (code : ByteCode)
    → length code.line_map ≡ length code.ops
    → TargetsFit (length code.ops) code.ops
    → (code' : ByteCode) × (peephole code ≡ some code')
      × NopFree code'.ops
      × (length code'.line_map ≡ length code'.ops)
      × TargetsFit (length code'.ops) code'.ops
unfolding peephole
peephole-NopFree code par h =
    let (code', e, free, (par', f)) = Returns-suc 7 code (Returns-peephole_rounds 7) (par, h) in
    (code', e, free, par', f)
