-- ===== src/Ir/Targets.antt =====
-- crates/rtcl-ir/src/bytecode.rs: the operands of an instruction that are jump targets, as
-- `collect_jump_targets` reads them and as `strip_nops` and the retargeting of `fuse_pairs` write them.
use rtcl.Prelude.{ℕ, List, [], ◌∷◌, map, ◌≡◌, refl, Bool, true, false}
use rtcl.Ir.OpCode.{
  OpCode, nop, jump, jump_true, jump_false, catch_start, loop_enter, foreach_start, foreach_next,
  foreach_next_close, cmp_slot_slot_jump_true, cmp_slot_slot_jump_false, cmp_slot_imm_jump_true,
  cmp_slot_imm_jump_false, cmp_var_var_jump_true, cmp_var_var_jump_false, cmp_var_imm_jump_true,
  cmp_var_imm_jump_false, for_next_incr_local, for_next_incr_var,
}

-- Every target operand, rewritten by `f`.
unfoldable pub map_targets : (ℕ → ℕ) → OpCode → OpCode
map_targets f (jump t) = jump (f t)
map_targets f (jump_true t) = jump_true (f t)
map_targets f (jump_false t) = jump_false (f t)
map_targets f (catch_start t) = catch_start (f t)
map_targets f (loop_enter cont brk) = loop_enter (f cont) (f brk)
map_targets f (foreach_start info next end) = foreach_start info (f next) (f end)
map_targets f (foreach_next info body) = foreach_next info (f body)
map_targets f (foreach_next_close info body) = foreach_next_close info (f body)
map_targets f (cmp_slot_slot_jump_true a b cc t) = cmp_slot_slot_jump_true a b cc (f t)
map_targets f (cmp_slot_slot_jump_false a b cc t) = cmp_slot_slot_jump_false a b cc (f t)
map_targets f (cmp_slot_imm_jump_true a k cc t) = cmp_slot_imm_jump_true a k cc (f t)
map_targets f (cmp_slot_imm_jump_false a k cc t) = cmp_slot_imm_jump_false a k cc (f t)
map_targets f (cmp_var_var_jump_true a b cc t) = cmp_var_var_jump_true a b cc (f t)
map_targets f (cmp_var_var_jump_false a b cc t) = cmp_var_var_jump_false a b cc (f t)
map_targets f (cmp_var_imm_jump_true a k cc t) = cmp_var_imm_jump_true a k cc (f t)
map_targets f (cmp_var_imm_jump_false a k cc t) = cmp_var_imm_jump_false a k cc (f t)
map_targets f (for_next_incr_local site x k t) = for_next_incr_local site x k (f t)
map_targets f (for_next_incr_var site x k t) = for_next_incr_var site x k (f t)
map_targets f op = op

-- The operands that `collect_jump_targets` marks.
unfoldable pub targets_of : OpCode → List ℕ
targets_of (jump t) = t ∷ []
targets_of (jump_true t) = t ∷ []
targets_of (jump_false t) = t ∷ []
targets_of (catch_start t) = t ∷ []
targets_of (cmp_slot_slot_jump_true a b cc t) = t ∷ []
targets_of (cmp_slot_slot_jump_false a b cc t) = t ∷ []
targets_of (cmp_slot_imm_jump_true a k cc t) = t ∷ []
targets_of (cmp_slot_imm_jump_false a k cc t) = t ∷ []
targets_of (cmp_var_var_jump_true a b cc t) = t ∷ []
targets_of (cmp_var_var_jump_false a b cc t) = t ∷ []
targets_of (cmp_var_imm_jump_true a k cc t) = t ∷ []
targets_of (cmp_var_imm_jump_false a k cc t) = t ∷ []
targets_of (loop_enter cont brk) = cont ∷ brk ∷ []
targets_of (foreach_start info next end) = next ∷ end ∷ []
targets_of (foreach_next info body) = body ∷ []
targets_of (foreach_next_close info body) = body ∷ []
targets_of (for_next_incr_local site x k t) = t ∷ []
targets_of (for_next_incr_var site x k t) = t ∷ []
targets_of op = []

unfoldable pub is_nop : OpCode → Bool
is_nop nop = true
is_nop op = false

-- The instruction with its targets forgotten.
unfoldable pub erase : OpCode → OpCode
unfolding map_targets
erase = map_targets (λ _. 0)

pub targets_of-map_targets :
    (f : ℕ → ℕ) (op : OpCode) → targets_of (map_targets f op) ≡ map f (targets_of op)
unfolding targets_of map_targets
targets_of-map_targets f (jump t) = refl
targets_of-map_targets f op = refl

pub erase-map_targets : (f : ℕ → ℕ) (op : OpCode) → erase (map_targets f op) ≡ erase op
unfolding erase
erase-map_targets f (jump t) = refl
erase-map_targets f op = refl

pub is_nop-map_targets : (f : ℕ → ℕ) (op : OpCode) → is_nop (map_targets f op) ≡ is_nop op
unfolding is_nop map_targets
is_nop-map_targets f (jump t) = refl
is_nop-map_targets f op = refl

pub is_nop→eq : (op : OpCode) → is_nop op ≡ true → op ≡ nop
unfolding is_nop
is_nop→eq nop h = refl
is_nop→eq op h = cc
