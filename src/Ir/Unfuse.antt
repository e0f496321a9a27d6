-- ===== src/Ir/Unfuse.antt =====
-- crates/rtcl-ir/src/bytecode.rs, `has_fused_ops` and `unfused`: a unit without superinstructions.
-- `expand_into` appends to the output; here it returns what it appends, and `none` for `false`.
pub mod Free
pub mod Places
pub mod Windows
pub mod Run
use rtcl.Prelude.{
  ℕ, zero, suc, ◌+◌, Bool, true, false, ◌||◌, List, [], ◌∷◌, ◌++◌, map, Option, none, some, length,
  get_elem?, ◌==◌, if◌then◌else◌,
}
use rtcl.Ir.OpCode.{
  OpCode, push_const, push_int, pop, load_var, store_var_pop, load_local, store_local,
  store_local_pop, incr_var, incr_var_pop, incr_local, incr_local_pop, jump, jump_true, jump_false,
  loop_enter, foreach_start, foreach_next, return, add, sub, lappend_local, lappend_var,
  lappend_var_var, lappend_slot_slot, add_slot_slot, cmp_slot_slot, cmp_slot_imm, add_var_var,
  add_var_imm, cmp_var_var, cmp_var_imm, cmp_slot_slot_jump_true, cmp_slot_slot_jump_false,
  cmp_slot_imm_jump_true, cmp_slot_imm_jump_false, cmp_var_var_jump_true, cmp_var_var_jump_false,
  cmp_var_imm_jump_true, cmp_var_imm_jump_false, eq, ne, lt, gt, le, ge, call, dyn_call,
  catch_start, line, begin_cmd, begin_cmd_sub_mark, expr_mark_begin_cmd, begin_cmd_push_const,
  sub_end_store_local_pop, sub_end_store_var_pop, sub_end_return, swap_to_next_mark,
  next_mark_begin_cmd, begin_cmd_incr_local_pop, begin_cmd_incr_var_pop, for_next_incr_local,
  for_next_incr_var, foreach_next_close, slot_set_add_ss, var_set_add_vv, push_const_sub_mark,
  sub_mark_begin_cmd, expr_mark_begin_push_const, sub_slot_imm, sub_slot_slot, sub_end_dyn_call,
  sub_end_call, sub_end_add, next_mark, sub_mark, sub_end, expr_mark, nop,
}
use rtcl.Ir.ByteCode.{ByteCode, line_at}

-- The comparison of a `cc` operand, and back.
unfoldable pub cmp_op_of : ℕ → OpCode
cmp_op_of cc =
    if cc == 0
    then lt
    else if cc == 1
    then gt
    else if cc == 2
    then le
    else if cc == 3
    then ge
    else if cc == 4
    then eq
    else ne

unfoldable pub cmp_cc_of : OpCode → Option ℕ
cmp_cc_of lt = some 0
cmp_cc_of gt = some 1
cmp_cc_of le = some 2
cmp_cc_of ge = some 3
cmp_cc_of eq = some 4
cmp_cc_of ne = some 5
cmp_cc_of op = none

-- The pattern of `has_fused_ops`.
unfoldable pub is_fused : OpCode → Bool
is_fused (cmp_slot_slot_jump_true a b cc t) = true
is_fused (cmp_slot_slot_jump_false a b cc t) = true
is_fused (cmp_slot_imm_jump_true a k cc t) = true
is_fused (cmp_slot_imm_jump_false a k cc t) = true
is_fused (cmp_var_var_jump_true a b cc t) = true
is_fused (cmp_var_var_jump_false a b cc t) = true
is_fused (cmp_var_imm_jump_true a k cc t) = true
is_fused (cmp_var_imm_jump_false a k cc t) = true
is_fused (lappend_slot_slot src dst) = true
is_fused (lappend_var_var src dst) = true
is_fused (incr_local_pop x k) = true
is_fused (incr_var_pop x k) = true
is_fused (store_local_pop x) = true
is_fused (cmp_var_imm a k cc) = true
is_fused (cmp_var_var a b cc) = true
is_fused (add_var_imm a k) = true
is_fused (add_var_var a b) = true
is_fused (begin_cmd_sub_mark site) = true
is_fused (expr_mark_begin_cmd site) = true
is_fused (begin_cmd_push_const site idx) = true
is_fused (sub_end_store_local_pop slot) = true
is_fused (sub_end_store_var_pop idx) = true
is_fused sub_end_return = true
is_fused swap_to_next_mark = true
is_fused (for_next_incr_local site x k t) = true
is_fused (for_next_incr_var site x k t) = true
is_fused (next_mark_begin_cmd site) = true
is_fused (begin_cmd_incr_local_pop site x k) = true
is_fused (begin_cmd_incr_var_pop site x k) = true
is_fused (foreach_next_close info body) = true
is_fused (slot_set_add_ss set_site expr_site a b dst) = true
is_fused (var_set_add_vv set_site expr_site a b dst) = true
is_fused (push_const_sub_mark i) = true
is_fused (sub_mark_begin_cmd site) = true
is_fused (expr_mark_begin_push_const site i) = true
is_fused (sub_slot_imm a k) = true
is_fused (sub_slot_slot a b) = true
is_fused (sub_end_dyn_call argc) = true
is_fused (sub_end_call cmd_id argc) = true
is_fused sub_end_add = true
is_fused op = false

unfoldable pub any_fused : List OpCode → Bool
unfolding is_fused
any_fused [] = false
any_fused (op ∷ ops) = is_fused op || any_fused ops

unfoldable pub has_fused_ops : ByteCode → Bool
unfolding any_fused
has_fused_ops code = any_fused code.ops

-- The arms of `expand_into` up to the `foreach` ones.
unfoldable pub expand_into : OpCode → Option (List OpCode)
unfolding cmp_op_of
expand_into (cmp_slot_slot_jump_true a b cc t) = some (cmp_slot_slot a b cc ∷ jump_true t ∷ [])
expand_into (cmp_slot_slot_jump_false a b cc t) = some (cmp_slot_slot a b cc ∷ jump_false t ∷ [])
expand_into (cmp_slot_imm_jump_true a k cc t) = some (cmp_slot_imm a k cc ∷ jump_true t ∷ [])
expand_into (cmp_slot_imm_jump_false a k cc t) = some (cmp_slot_imm a k cc ∷ jump_false t ∷ [])
expand_into (cmp_var_var_jump_true a b cc t) =
    some (load_var a ∷ load_var b ∷ cmp_op_of cc ∷ jump_true t ∷ [])
expand_into (cmp_var_var_jump_false a b cc t) =
    some (load_var a ∷ load_var b ∷ cmp_op_of cc ∷ jump_false t ∷ [])
expand_into (cmp_var_imm_jump_true a k cc t) =
    some (load_var a ∷ push_int k ∷ cmp_op_of cc ∷ jump_true t ∷ [])
expand_into (cmp_var_imm_jump_false a k cc t) =
    some (load_var a ∷ push_int k ∷ cmp_op_of cc ∷ jump_false t ∷ [])
expand_into (lappend_slot_slot src dst) = some (load_local src ∷ lappend_local dst ∷ pop ∷ [])
expand_into (lappend_var_var src dst) = some (load_var src ∷ lappend_var dst ∷ pop ∷ [])
expand_into (incr_local_pop x k) = some (incr_local x k ∷ pop ∷ [])
expand_into (incr_var_pop x k) = some (incr_var x k ∷ pop ∷ [])
expand_into (store_local_pop x) = some (store_local x ∷ pop ∷ [])
expand_into (begin_cmd_sub_mark site) = some (begin_cmd site ∷ sub_mark ∷ [])
expand_into (expr_mark_begin_cmd site) = some (expr_mark ∷ begin_cmd site ∷ [])
expand_into (begin_cmd_push_const site idx) = some (begin_cmd site ∷ push_const idx ∷ [])
expand_into (sub_end_store_local_pop slot) = some (sub_end ∷ store_local slot ∷ pop ∷ [])
expand_into (sub_end_store_var_pop idx) = some (sub_end ∷ store_var_pop idx ∷ [])
expand_into sub_end_return = some (sub_end ∷ return ∷ [])
expand_into swap_to_next_mark = some (nop ∷ next_mark ∷ [])
expand_into (for_next_incr_local site x k t) =
    some (nop ∷ next_mark ∷ begin_cmd site ∷ incr_local x k ∷ pop ∷ jump t ∷ [])
expand_into (for_next_incr_var site x k t) =
    some (nop ∷ next_mark ∷ begin_cmd site ∷ incr_var x k ∷ pop ∷ jump t ∷ [])
expand_into (next_mark_begin_cmd site) = some (next_mark ∷ begin_cmd site ∷ [])
expand_into (begin_cmd_incr_local_pop site x k) = some (begin_cmd site ∷ incr_local x k ∷ pop ∷ [])
expand_into (begin_cmd_incr_var_pop site x k) = some (begin_cmd site ∷ incr_var x k ∷ pop ∷ [])
expand_into (foreach_next_close info body) = some (nop ∷ foreach_next info body ∷ [])
expand_into (slot_set_add_ss set_site expr_site a b dst) = some (
    begin_cmd set_site
    ∷ sub_mark
    ∷ begin_cmd expr_site
    ∷ add_slot_slot a b
    ∷ sub_end
    ∷ store_local dst
    ∷ pop
    ∷ [])
expand_into (var_set_add_vv set_site expr_site a b dst) = some (
    begin_cmd set_site
    ∷ sub_mark
    ∷ begin_cmd expr_site
    ∷ load_var a
    ∷ load_var b
    ∷ add
    ∷ sub_end
    ∷ store_var_pop dst
    ∷ [])
expand_into (push_const_sub_mark i) = some (push_const i ∷ sub_mark ∷ [])
expand_into (sub_mark_begin_cmd site) = some (sub_mark ∷ begin_cmd site ∷ [])
expand_into (expr_mark_begin_push_const site i) =
    some (expr_mark ∷ begin_cmd site ∷ push_const i ∷ [])
expand_into (sub_slot_imm a k) = some (load_local a ∷ push_int k ∷ sub ∷ [])
expand_into (sub_slot_slot a b) = some (load_local a ∷ load_local b ∷ sub ∷ [])
expand_into (sub_end_dyn_call argc) = some (sub_end ∷ dyn_call argc ∷ [])
expand_into (sub_end_call cmd_id argc) = some (sub_end ∷ call cmd_id argc ∷ [])
expand_into sub_end_add = some (sub_end ∷ add ∷ [])
expand_into (cmp_var_imm a k cc) = some (load_var a ∷ push_int k ∷ cmp_op_of cc ∷ [])
expand_into (cmp_var_var a b cc) = some (load_var a ∷ load_var b ∷ cmp_op_of cc ∷ [])
expand_into (add_var_imm a k) = some (load_var a ∷ push_int k ∷ add ∷ [])
expand_into (add_var_var a b) = some (load_var a ∷ load_var b ∷ add ∷ [])
expand_into op = none

-- What the loop appends for one instruction.
unfoldable pub expansion : OpCode → List OpCode
unfolding expand_into
expansion op = elim (expand_into op) [ none ↦ op ∷ [] | some es ↦ es ]

unfoldable pub expand_ops : List OpCode → List OpCode
unfolding expansion
expand_ops [] = []
expand_ops (op ∷ ops) = expansion op ++ expand_ops ops

-- `map`: where the expansion of each instruction starts.
unfoldable pub heads : ℕ → List OpCode → List ℕ
unfolding expansion
heads offset [] = []
heads offset (op ∷ ops) = offset ∷ heads (offset + length (expansion op)) ops

abbrev pub repeat : ℕ → ℕ → List ℕ
repeat zero k = []
repeat (suc n) k = k ∷ repeat n k

unfoldable pub expand_lines : ℕ → ByteCode → List OpCode → List ℕ
unfolding expansion line_at
expand_lines i code [] = []
expand_lines i code (op ∷ ops) =
    repeat (length (expansion op)) (line_at i code) ++ expand_lines (suc i) code ops

-- The closure `remap`, with `n_ops` for a target outside the table.
unfoldable pub remap : List ℕ → ℕ → ℕ → ℕ
remap table n_ops t = elim (get_elem? table t) [ none ↦ n_ops | some k ↦ k ]

-- The last loop: it names the instructions that an expanded unit can hold.
unfoldable pub remap_targets : (ℕ → ℕ) → OpCode → OpCode
remap_targets f (jump t) = jump (f t)
remap_targets f (jump_true t) = jump_true (f t)
remap_targets f (jump_false t) = jump_false (f t)
remap_targets f (catch_start t) = catch_start (f t)
remap_targets f (loop_enter cont brk) = loop_enter (f cont) (f brk)
remap_targets f (foreach_start info next end) = foreach_start info (f next) (f end)
remap_targets f (foreach_next info body) = foreach_next info (f body)
remap_targets f op = op

unfoldable pub unfused : ByteCode → ByteCode
unfolding has_fused_ops expand_ops expand_lines heads remap remap_targets
unfused code =
    let ops = expand_ops code.ops in
    if has_fused_ops code
    then record code {
      ops = map (remap_targets (remap (heads 0 code.ops) (length ops))) ops;
      line_map = expand_lines 0 code code.ops;
    }
    else code
