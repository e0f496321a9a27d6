-- ===== src/Ir/Peephole.antt =====
-- crates/rtcl-ir/src/bytecode.rs, `peephole_pass` and `peephole`.
-- The rewrites in place are a rebuilt list; a panic of `strip_nops` or `fuse_pairs`
-- is `none`.
pub mod Fold
pub mod Shift
pub mod Exact
pub mod Passes
pub mod Whole
use rtcl.Prelude.{
  ℕ, zero, suc, Bool, true, false, ◌||◌, List, [], ◌∷◌, Option, none, some, length, ltb,
  if◌then◌else◌,
}
use rtcl.Prelude.Int.{ℤ, pos, negsuc}
use rtcl.Ir.OpCode.{
  OpCode, push_int, push_true, push_false, pop, store_var, store_var_pop, load_local, jump_true,
  jump_false, add, add_slot_slot, add_slot_imm, cmp_slot_slot, cmp_slot_imm, not_op, nop,
}
use rtcl.Ir.ByteCode.{ByteCode}
use rtcl.Ir.Unfuse.{cmp_cc_of}
use rtcl.Ir.Fuse.{fuse_pairs}
use rtcl.Ir.Fuse.Window.{cmp_cc_mirror}
use rtcl.Ir.Strip.{strip_nops}
use rtcl.Ir.Peephole.Fold.{FoldResult, int, bool, fold_ints}

abbrev pub map_cc : (ℕ → OpCode) → Option ℕ → Option OpCode
map_cc f none = none
map_cc f (some cc) = some (f cc)

abbrev pub sum_or_compare : OpCode → (ℕ → OpCode) → OpCode → Option OpCode
sum_or_compare sum f add = some sum
sum_or_compare sum f op = map_cc f (cmp_cc_of op)

-- The slot superinstructions.
unfoldable pub slot_window : OpCode → OpCode → OpCode → Option OpCode
unfolding cmp_cc_of cmp_cc_mirror
slot_window (load_local a) (load_local b) op =
    sum_or_compare (add_slot_slot a b) (cmp_slot_slot a b) op
slot_window (load_local a) (push_int k) op = sum_or_compare (add_slot_imm a k) (cmp_slot_imm a k) op
slot_window (push_int k) (load_local b) op =
    map_cc (λ cc. cmp_slot_imm b k (cmp_cc_mirror cc)) (cmp_cc_of op)
slot_window first second op = none

-- A pass, with whether it changed anything.
abbrev pub keep_op : OpCode → Bool × List OpCode → Bool × List OpCode
keep_op op (changed, ops) = (changed, op ∷ ops)

abbrev pub folded : OpCode → Bool × List OpCode → Bool × List OpCode
folded op (changed, ops) = (true, op ∷ nop ∷ nop ∷ ops)

unfoldable pub fuse_slots : List OpCode → Bool × List OpCode
unfolding slot_window
fuse_slots (a ∷ b ∷ c ∷ ops) = elim (slot_window a b c) [
  | none ↦ keep_op a (fuse_slots (b ∷ c ∷ ops))
  | some op ↦ folded op (fuse_slots ops)
]
fuse_slots ops = (false, ops)

abbrev pub push_result : FoldResult → OpCode
push_result (int n) = push_int n
push_result (bool true) = push_true
push_result (bool false) = push_false

unfoldable pub fold_window : OpCode → OpCode → OpCode → Option FoldResult
unfolding fold_ints
fold_window (push_int a) (push_int b) op = fold_ints a b op
fold_window first second op = none

-- After a fold the loop stays at the constant, which now has `Nop`s behind it.
unfoldable pub fold_consts : List OpCode → Bool × List OpCode
unfolding fold_window
fold_consts (a ∷ b ∷ c ∷ ops) = elim (fold_window a b c) [
  | none ↦ keep_op a (fold_consts (b ∷ c ∷ ops))
  | some r ↦ folded (push_result r) (fold_consts ops)
]
fold_consts ops = (false, ops)

abbrev pub is_branch : OpCode → Bool
is_branch (jump_true t) = true
is_branch (jump_false t) = true
is_branch op = false

-- What a 2-op pattern makes of its two instructions: a new first one and the second kept, or both
-- taken together and a `Nop` behind.
pub data Pair : Type 0 where
  no_pair : Pair
  first_only : OpCode → Pair
  both : OpCode → Pair

unfoldable pub pair_window : OpCode → OpCode → Pair
pair_window (store_var x) pop = both (store_var_pop x)
pair_window (push_int (pos (suc zero))) op = if is_branch op then first_only push_true else no_pair
pair_window (push_int (pos zero)) op = if is_branch op then first_only push_false else no_pair
pair_window not_op not_op = both nop
pair_window first op = no_pair

abbrev pub paired : OpCode → Bool × List OpCode → Bool × List OpCode
paired op (changed, ops) = (true, op ∷ nop ∷ ops)

abbrev pub replaced : OpCode → Bool × List OpCode → Bool × List OpCode
replaced op (changed, ops) = (true, op ∷ ops)

unfoldable pub fuse_two : List OpCode → Bool × List OpCode
unfolding pair_window
fuse_two (a ∷ b ∷ ops) = elim (pair_window a b) [
  | no_pair ↦ keep_op a (fuse_two (b ∷ ops))
  | first_only op ↦ replaced op (fuse_two (b ∷ ops))
  | both op ↦ paired op (fuse_two ops)
]
fuse_two ops = (false, ops)

abbrev pub with_list : ByteCode → List OpCode → ByteCode
with_list code ops = record code { ops = ops }

-- Constant folding and the 2-op patterns; the slot pass does not count as a change.
unfoldable pub rewrite_pass : ByteCode → Bool × ByteCode
unfolding fold_consts fuse_two
rewrite_pass code =
    let (folds, ops) = fold_consts code.ops in
    let (pairs, ops') = fuse_two ops in
    if ltb (length code.ops) 2 then (false, code) else (folds || pairs, with_list code ops')

abbrev pub then_rewrite : Option ByteCode → Option (Bool × ByteCode)
then_rewrite none = none
then_rewrite (some code) = some (rewrite_pass code)

unfoldable pub peephole_pass : ByteCode → Option (Bool × ByteCode)
unfolding fuse_slots rewrite_pass strip_nops
peephole_pass code =
    let (fused, ops) = fuse_slots code.ops in
    then_rewrite (if fused then strip_nops (with_list code ops) else some code)

abbrev pub then_strip : Bool → Option ByteCode → Option (Bool × ByteCode)
then_strip changed none = none
then_strip changed (some code) = some (changed, code)

abbrev pub then_strip_fused : Bool → Option (Bool × ByteCode) → Option (Bool × ByteCode)
then_strip_fused changed none = none
then_strip_fused changed (some (fused, code)) = then_strip (changed || fused) (strip_nops code)

-- The rest of a round of the driver.
abbrev pub then_fuse : Option (Bool × ByteCode) → Option (Bool × ByteCode)
then_fuse none = none
then_fuse (some (changed, code)) = then_strip_fused changed (fuse_pairs code)

unfoldable pub peephole_rounds : ℕ → ByteCode → Option ByteCode
unfolding peephole_pass fuse_pairs strip_nops
peephole_rounds zero code = some code
peephole_rounds (suc rounds) code = elim (then_fuse (peephole_pass code)) [
  | none ↦ none
  | some (true, code') ↦ peephole_rounds rounds code'
  | some (false, code') ↦ some code'
]

unfoldable pub peephole : ByteCode → Option ByteCode
unfolding peephole_rounds
peephole code = peephole_rounds 8 code
