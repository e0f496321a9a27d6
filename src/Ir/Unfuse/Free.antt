-- ===== src/Ir/Unfuse/Free.antt =====
-- Lemmas for `has_fused_ops` after `unfused` of crates/rtcl-ir/src/bytecode.rs.
use rtcl.Prelude.{
  ℕ, ◌≡◌, ◌≢◌, ◌≤◌, refl, sym, ap, subst, ◌∙◌, Bool, true, false, List, [], ◌∷◌, ◌++◌, map, take,
  length, length-append, All, ◌==◌, if_intro, arith, Bool-cases, inl, inr,
}
use rtcl.Ir.OpCode.{
  OpCode, jump, cmp_var_var_jump_true, cmp_var_var_jump_false, cmp_var_imm_jump_true,
  cmp_var_imm_jump_false, cmp_var_imm, cmp_var_var, nop,
}
use rtcl.Ir.ByteCode.{ByteCode}
use rtcl.Ir.Unfuse.{
  cmp_op_of, is_fused, any_fused, has_fused_ops, expansion, expand_ops, remap_targets, unfused,
}
use rtcl.Ir.Unfuse.Places.{length-expansion}
use rtcl.Ir.Fuse.Window.{Fusion, found, fuse_window}
use rtcl.Ir.Fuse.Sound.{Special, mirrored, dead, to_next, to_mark, to_foreach, Stands}
use rtcl.Ir.Fuse.Whole.{Stands-fuse_window}

is_fused-cmp_op_of : (cc : ℕ) → is_fused (cmp_op_of cc) ≡ false
unfolding is_fused cmp_op_of
is_fused-cmp_op_of cc =
    let P = λ (op : OpCode). is_fused op ≡ false in
    if_intro P (cc == 0) (λ _. refl)
      (λ _.
        if_intro P (cc == 1) (λ _. refl)
          (λ _.
            if_intro P (cc == 2) (λ _. refl)
              (λ _.
                if_intro P (cc == 3) (λ _. refl)
                  (λ _. if_intro P (cc == 4) (λ _. refl) (λ _. refl)))))

any_fused-expansion : (op : OpCode) → any_fused (expansion op) ≡ false
unfolding expansion any_fused
any_fused-expansion (cmp_var_var_jump_true a b cc t) = rw (is_fused-cmp_op_of cc) refl
any_fused-expansion (cmp_var_var_jump_false a b cc t) = rw (is_fused-cmp_op_of cc) refl
any_fused-expansion (cmp_var_imm_jump_true a k cc t) = rw (is_fused-cmp_op_of cc) refl
any_fused-expansion (cmp_var_imm_jump_false a k cc t) = rw (is_fused-cmp_op_of cc) refl
any_fused-expansion (cmp_var_imm a k cc) = rw (is_fused-cmp_op_of cc) refl
any_fused-expansion (cmp_var_var a b cc) = rw (is_fused-cmp_op_of cc) refl
any_fused-expansion op = refl

is_fused-remap_targets : (f : ℕ → ℕ) (op : OpCode) → is_fused (remap_targets f op) ≡ is_fused op
unfolding is_fused remap_targets
is_fused-remap_targets f (jump t) = refl
is_fused-remap_targets f op = refl

any_fused-append :
    (xs ys : List OpCode)
    → any_fused xs ≡ false
    → any_fused ys ≡ false
    → any_fused (xs ++ ys) ≡ false
unfolding any_fused
any_fused-append [] ys h k = k
any_fused-append (x ∷ xs) ys h k = elim (Bool-cases (is_fused x)) [
  | inl e ↦ absurd (ground arith)
  | inr e ↦ rw e (any_fused-append xs ys (rw e at h) k)
]

pub any_fused-expand_ops : (ops : List OpCode) → any_fused (expand_ops ops) ≡ false
unfolding expand_ops any_fused
any_fused-expand_ops [] = refl
any_fused-expand_ops (op ∷ ops) =
    any_fused-append (expansion op) (expand_ops ops) (any_fused-expansion op)
      (any_fused-expand_ops ops)

any_fused-map :
    (f : ℕ → ℕ) (ops : List OpCode) → any_fused (map (remap_targets f) ops) ≡ any_fused ops
unfolding any_fused
any_fused-map f [] = refl
any_fused-map f (op ∷ ops) = rw (is_fused-remap_targets f op, any_fused-map f ops)

unfused-free : (code : ByteCode) → has_fused_ops code ≡ false → unfused code ≡ code
unfolding unfused
unfused-free code h = rw h

has_fused_ops-unfused_lem : (code : ByteCode) → has_fused_ops (unfused code) ≡ false
unfolding unfused has_fused_ops
has_fused_ops-unfused_lem code =
    if_intro (λ (c : ByteCode). any_fused c.ops ≡ false) (any_fused code.ops)
      (λ _. any_fused-map _ (expand_ops code.ops) ∙ any_fused-expand_ops code.ops) (λ h. h)

-- An instruction that `fuse_pairs` puts in the place of some window, beside a `Nop`.
pub record Made (op : OpCode) : Type 0 where
  pub free : Bool
  pub free3 : Bool
  pub free4 : Bool
  pub at : ℕ
  pub unit : List OpCode
  pub first : OpCode
  pub second : OpCode
  pub rest : List OpCode
  pub fusion : Fusion
  pub window : fuse_window free free3 free4 at unit first second rest ≡ found fusion
  pub result : fusion.op ≡ op
  pub no_nop : op ≢ nop

-- What is no superinstruction stands for itself.
length-expansion_free : (op : OpCode) → is_fused op ≡ false → length (expansion op) ≡ 1
unfolding is_fused expansion
length-expansion_free (jump t) h = refl
length-expansion_free op h = ground arith

-- A window of two instructions or more expands to two or more.
length-expand_ops : (ops : List OpCode) → length ops ≤ length (expand_ops ops)
unfolding expand_ops
length-expand_ops [] = omega arith
length-expand_ops (op ∷ ops) = omega (
  arith,
  length-append (expansion op) (expand_ops ops),
  length-expansion op,
  length-expand_ops ops,
)

Special-fused :
    {i : ℕ} {all window : List OpCode} {op : OpCode}
    → Special i all window op
    → op ≢ nop
    → is_fused op ≡ true
unfolding is_fused
Special-fused (mirrored e) n = refl
Special-fused (dead p) n = absurd (n refl)
Special-fused (to_next to_mark) n = refl
Special-fused (to_next (to_foreach b)) n = refl

expansion-fused :
    (ops : List OpCode) (op : OpCode)
    → 2 ≤ length ops
    → expand_ops ops ≡ expansion op
    → is_fused op ≡ true
expansion-fused ops op l e = elim (Bool-cases (is_fused op)) [
  | inl f ↦ f
  | inr f ↦
      absurd (omega (arith, l, length-expand_ops ops, ap length e, length-expansion_free op f))
]

two_of_window :
    {free free3 free4 : Bool} {i : ℕ} {all : List OpCode} (first second : OpCode)
    (ops : List OpCode) (f : Fusion)
    → Stands free free3 free4 i all (first ∷ second ∷ ops) f
    → 2 ≤ length (take f.width (first ∷ second ∷ ops))
two_of_window first second ops f s = elim s.tail [
  | inl (_, w, _) ↦ rw w (omega arith)
  | inr (_, inl (w, _)) ↦ rw w (omega arith)
  | inr (_, inr (inl (w, _))) ↦ rw w (omega arith)
  | inr (_, inr (inr (w, _))) ↦ rw w (omega arith)
]

Made-fused : (op : OpCode) → Made op → is_fused op ≡ true
Made-fused op m =
    let g = m.fusion in
    let s =
      Stands-fuse_window m.free m.free3 m.free4 m.at m.unit m.first m.second m.rest g m.window in
    subst (λ o. is_fused o ≡ true) m.result
      (elim s.same [
        | inl x ↦ expansion-fused _ g.op (two_of_window m.first m.second m.rest g s) x
        | inr x ↦ Special-fused x (λ q. m.no_nop (sym m.result ∙ q))
      ])

any_fused-All : (ops : List OpCode) → any_fused ops ≡ false → All (λ op. ¬ Made op) ops
unfolding any_fused
any_fused-All [] h = tt
any_fused-All (op ∷ ops) h = elim (Bool-cases (is_fused op)) [
  | inl e ↦ absurd (ground arith)
  | inr e ↦ (
    λ m. let x : true ≡ false = sym (Made-fused op m) ∙ e in cc,
    any_fused-All ops (ground arith),
  )
]

-- `unfused` leaves no instruction that `fuse_pairs` makes from a window, `Nop` aside, and so none
-- that `has_fused_ops` looks for. It returns a unit without one of these unchanged, so unfusing
-- twice is unfusing once. The slot pair of `peephole_pass`, `AddSlotSlot` and `AddSlotImm`, and the
-- slot comparisons are no such instructions: they stay.
pub has_fused_ops-unfused :
    (code : ByteCode)
    → All (λ op. ¬ Made op) (unfused code).ops
      × (has_fused_ops (unfused code) ≡ false)
      × (has_fused_ops code ≡ false → unfused code ≡ code)
      × (unfused (unfused code) ≡ unfused code)
unfolding has_fused_ops
has_fused_ops-unfused code = (
  any_fused-All (unfused code).ops (has_fused_ops-unfused_lem code),
  has_fused_ops-unfused_lem code,
  unfused-free code,
  unfused-free (unfused code) (has_fused_ops-unfused_lem code),
)
