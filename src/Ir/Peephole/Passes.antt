-- ===== src/Ir/Peephole/Passes.antt =====
-- Lemmas on lengths and targets for the passes of `peephole_pass` (crates/rtcl-ir/src/bytecode.rs).
use rtcl.Prelude.{
  ℕ, zero, suc, ◌≡◌, ◌⊎◌, refl, sym, ap, subst, Bool, true, false, List, [], ◌∷◌, Option, none,
  some, length, Option-cases, inl, inr, arith, if_intro,
}
use rtcl.Prelude.Int.{pos}
use rtcl.Ir.OpCode.{
  OpCode, push_int, pop, store_var, load_local, add, add_slot_slot, add_slot_imm, cmp_slot_slot,
  cmp_slot_imm, not_op,
}
use rtcl.Ir.Targets.{targets_of}
use rtcl.Ir.Unfuse.{cmp_cc_of}
use rtcl.Ir.Strip.Run.{AllLe, TargetsFit}
use rtcl.Ir.Peephole.Fold.{FoldResult, int, bool}
use rtcl.Ir.Peephole.{
  map_cc, sum_or_compare, slot_window, keep_op, folded, fuse_slots, push_result, fold_window,
  fold_consts, is_branch, Pair, no_pair, first_only, both, pair_window, paired, replaced, fuse_two,
}

-- As many instructions as before, and targets as far as before.
pub record Keeps (n : ℕ) (ops ops' : List OpCode) : Type 0 where
  pub same_length : length ops' ≡ length ops
  pub fits : TargetsFit n ops → TargetsFit n ops'

abbrev Untargeting : Option OpCode → Type 0
Untargeting none = Unit
Untargeting (some op) = targets_of op ≡ []

Untargeting-map_cc :
    (f : ℕ → OpCode) (o : Option ℕ) → ((k : ℕ) → targets_of (f k) ≡ []) → Untargeting (map_cc f o)
Untargeting-map_cc f none h = tt
Untargeting-map_cc f (some k) h = h k

Untargeting-sum :
    (sum : OpCode) (f : ℕ → OpCode) (op : OpCode)
    → targets_of sum ≡ []
    → ((k : ℕ) → targets_of (f k) ≡ [])
    → Untargeting (sum_or_compare sum f op)
Untargeting-sum sum f add h k = h
Untargeting-sum sum f op h k = Untargeting-map_cc f (cmp_cc_of op) k

Untargeting-slot_window : (a b c : OpCode) → Untargeting (slot_window a b c)
unfolding slot_window targets_of
Untargeting-slot_window (load_local a) (load_local b) op =
    Untargeting-sum (add_slot_slot a b) (cmp_slot_slot a b) op refl (λ k. refl)
Untargeting-slot_window (load_local a) (push_int k) op =
    Untargeting-sum (add_slot_imm a k) (cmp_slot_imm a k) op refl (λ k. refl)
Untargeting-slot_window (push_int k) (load_local b) op =
    Untargeting-map_cc _ (cmp_cc_of op) (λ k. refl)
Untargeting-slot_window a b op = tt

targets_of-push_result : (r : FoldResult) → targets_of (push_result r) ≡ []
unfolding targets_of
targets_of-push_result (int z) = refl
targets_of-push_result (bool true) = refl
targets_of-push_result (bool false) = refl

-- The rounds of the passes.
module _ (a b c : OpCode) (ops : List OpCode) where
  fuse_slots-none :
      slot_window a b c ≡ none → fuse_slots (a ∷ b ∷ c ∷ ops) ≡ keep_op a (fuse_slots (b ∷ c ∷ ops))
  unfolding fuse_slots
  fuse_slots-none e = ground arith

  fuse_slots-some :
      (op : OpCode)
      → slot_window a b c ≡ some op
      → fuse_slots (a ∷ b ∷ c ∷ ops) ≡ folded op (fuse_slots ops)
  unfolding fuse_slots
  fuse_slots-some op e = ground arith

  fold_consts-none :
      fold_window a b c ≡ none
      → fold_consts (a ∷ b ∷ c ∷ ops) ≡ keep_op a (fold_consts (b ∷ c ∷ ops))
  unfolding fold_consts
  fold_consts-none e = ground arith

  fold_consts-some :
      (r : FoldResult)
      → fold_window a b c ≡ some r
      → fold_consts (a ∷ b ∷ c ∷ ops) ≡ folded (push_result r) (fold_consts ops)
  unfolding fold_consts
  fold_consts-some r e = ground arith

  fuse_two-no_pair :
      pair_window a b ≡ no_pair → fuse_two (a ∷ b ∷ ops) ≡ keep_op a (fuse_two (b ∷ ops))
  unfolding fuse_two
  fuse_two-no_pair e = ground arith

  fuse_two-first_only :
      (op : OpCode)
      → pair_window a b ≡ first_only op
      → fuse_two (a ∷ b ∷ ops) ≡ replaced op (fuse_two (b ∷ ops))
  unfolding fuse_two
  fuse_two-first_only op e = ground arith

  fuse_two-both :
      (op : OpCode) → pair_window a b ≡ both op → fuse_two (a ∷ b ∷ ops) ≡ paired op (fuse_two ops)
  unfolding fuse_two
  fuse_two-both op e = ground arith

module _ (n : ℕ) where
  Keeps-op :
      (op : OpCode) (ops : List OpCode) (r : Bool × List OpCode)
      → Keeps n ops r.1
      → Keeps n (op ∷ ops) (keep_op op r).1
  Keeps-op op ops r k = record {
    same_length = ap suc k.same_length;
    fits = λ (h, hs). (h, k.fits hs);
  }

  Keeps-folded :
      (a b c op : OpCode) (ops : List OpCode) (r : Bool × List OpCode)
      → targets_of op ≡ []
      → Keeps n ops r.1
      → Keeps n (a ∷ b ∷ c ∷ ops) (folded op r).1
  unfolding targets_of
  Keeps-folded a b c op ops r e k = record {
    same_length = ap (λ l. suc (suc (suc l))) k.same_length;
    fits = λ (_, (_, (_, hs))). (subst (AllLe n) (sym e) tt, (tt, (tt, k.fits hs)));
  }

  Keeps-paired :
      (a b op : OpCode) (ops : List OpCode) (r : Bool × List OpCode)
      → targets_of op ≡ []
      → Keeps n ops r.1
      → Keeps n (a ∷ b ∷ ops) (paired op r).1
  unfolding targets_of
  Keeps-paired a b op ops r e k = record {
    same_length = ap (λ l. suc (suc l)) k.same_length;
    fits = λ (_, (_, hs)). (subst (AllLe n) (sym e) tt, (tt, k.fits hs));
  }

  Keeps-replaced :
      (a op : OpCode) (ops : List OpCode) (r : Bool × List OpCode)
      → targets_of op ≡ []
      → Keeps n ops r.1
      → Keeps n (a ∷ ops) (replaced op r).1
  Keeps-replaced a op ops r e k = record {
    same_length = ap suc k.same_length;
    fits = λ (_, hs). (subst (AllLe n) (sym e) tt, k.fits hs);
  }

  Keeps-refl : (ops : List OpCode) → Keeps n ops ops
  Keeps-refl ops = record { same_length = refl; fits = λ h. h }

  pub Keeps-fuse_slots : (ops : List OpCode) → Keeps n ops (fuse_slots ops).1
  unfolding fuse_slots
  Keeps-fuse_slots [] = Keeps-refl []
  Keeps-fuse_slots (a ∷ []) = Keeps-refl (a ∷ [])
  Keeps-fuse_slots (a ∷ b ∷ []) = Keeps-refl (a ∷ b ∷ [])
  Keeps-fuse_slots (a ∷ b ∷ c ∷ ops) = elim (Option-cases (slot_window a b c)) [
    | inl e ↦
        rw (fuse_slots-none a b c ops e)
          (Keeps-op a (b ∷ c ∷ ops) (fuse_slots (b ∷ c ∷ ops)) (Keeps-fuse_slots (b ∷ c ∷ ops)))
    | inr (op, e) ↦
        let t : targets_of op ≡ [] = subst Untargeting e (Untargeting-slot_window a b c) in
        rw (fuse_slots-some a b c ops op e)
          (Keeps-folded a b c op ops (fuse_slots ops) t (Keeps-fuse_slots ops))
  ]

  pub Keeps-fold_consts : (ops : List OpCode) → Keeps n ops (fold_consts ops).1
  unfolding fold_consts
  Keeps-fold_consts [] = Keeps-refl []
  Keeps-fold_consts (a ∷ []) = Keeps-refl (a ∷ [])
  Keeps-fold_consts (a ∷ b ∷ []) = Keeps-refl (a ∷ b ∷ [])
  Keeps-fold_consts (a ∷ b ∷ c ∷ ops) = elim (Option-cases (fold_window a b c)) [
    | inl e ↦
        rw (fold_consts-none a b c ops e)
          (Keeps-op a (b ∷ c ∷ ops) (fold_consts (b ∷ c ∷ ops)) (Keeps-fold_consts (b ∷ c ∷ ops)))
    | inr (r, e) ↦ rw (fold_consts-some a b c ops r e) (
        Keeps-folded a b c (push_result r) ops (fold_consts ops) (targets_of-push_result r)
          (Keeps-fold_consts ops))
  ]

  -- Each 2-op pattern, with the rest of the pass done.
  abbrev Paired : OpCode → OpCode → List OpCode → Pair → Type 0
  Paired a b ops no_pair = Unit
  Paired a b ops (first_only op) = targets_of op ≡ []
  Paired a b ops (both op) = targets_of op ≡ []

  Paired-pair_window : (a b : OpCode) (ops : List OpCode) → Paired a b ops (pair_window a b)
  unfolding pair_window targets_of
  Paired-pair_window (store_var x) pop ops = refl
  Paired-pair_window (push_int (pos (suc zero))) op ops =
      if_intro (Paired (push_int (pos 1)) op ops) (is_branch op) (λ _. refl) (λ _. tt)
  Paired-pair_window (push_int (pos zero)) op ops =
      if_intro (Paired (push_int (pos 0)) op ops) (is_branch op) (λ _. refl) (λ _. tt)
  Paired-pair_window not_op not_op ops = refl
  Paired-pair_window a b ops = tt

  Pair-cases :
      (p : Pair)
      → (p ≡ no_pair) ⊎ (((op : OpCode) × (p ≡ first_only op)) ⊎ ((op : OpCode) × (p ≡ both op)))
  Pair-cases no_pair = inl refl
  Pair-cases (first_only op) = inr (inl (op, refl))
  Pair-cases (both op) = inr (inr (op, refl))

  pub Keeps-fuse_two : (ops : List OpCode) → Keeps n ops (fuse_two ops).1
  unfolding fuse_two
  Keeps-fuse_two [] = Keeps-refl []
  Keeps-fuse_two (a ∷ []) = Keeps-refl (a ∷ [])
  Keeps-fuse_two (a ∷ b ∷ ops) = elim (Pair-cases (pair_window a b)) [
    | inl e ↦
        rw (fuse_two-no_pair a b a ops e)
          (Keeps-op a (b ∷ ops) (fuse_two (b ∷ ops)) (Keeps-fuse_two (b ∷ ops)))
    | inr (inl (op, e)) ↦
        let t : targets_of op ≡ [] = subst (Paired a b ops) e (Paired-pair_window a b ops) in
        rw (fuse_two-first_only a b a ops op e)
          (Keeps-replaced a op (b ∷ ops) (fuse_two (b ∷ ops)) t (Keeps-fuse_two (b ∷ ops)))
    | inr (inr (op, e)) ↦
        let t : targets_of op ≡ [] = subst (Paired a b ops) e (Paired-pair_window a b ops) in
        rw (fuse_two-both a b a ops op e)
          (Keeps-paired a b op ops (fuse_two ops) t (Keeps-fuse_two ops))
  ]
