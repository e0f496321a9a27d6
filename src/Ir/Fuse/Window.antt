-- ===== src/Ir/Fuse/Window.antt =====
-- The windows of `fuse_pairs`, by their first instruction. Of two arms that match, the first whose
-- guard holds decides; here no two arms match the same pair.
use rtcl.Prelude.{
  ℕ, ◌+◌, ◌^◌, Bool, true, false, ◌&&◌, List, [], ◌∷◌, Option, none, some, get_elem?, ◌==◌, ltb,
  if◌then◌else◌,
}
use rtcl.Prelude.Int.{ℤ, pos, negsuc}
use rtcl.Ir.OpCode.{
  OpCode, push_const, push_const_wide, push_empty, push_int, push_float, push_true, push_false, pop,
  load_var, store_var_pop, load_local, store_local, store_local_pop, incr_var, incr_var_pop,
  incr_local, incr_local_pop, jump, jump_true, jump_false, foreach_next, return, add, sub,
  lappend_local, lappend_var, lappend_var_var, lappend_slot_slot, body_mark_framed, add_slot_slot,
  cmp_slot_slot, cmp_slot_imm, add_var_var, add_var_imm, cmp_var_var, cmp_var_imm,
  cmp_slot_slot_jump_true, cmp_slot_slot_jump_false, cmp_slot_imm_jump_true,
  cmp_slot_imm_jump_false, cmp_var_var_jump_true, cmp_var_var_jump_false, cmp_var_imm_jump_true,
  cmp_var_imm_jump_false, call, dyn_call, begin_cmd, begin_cmd_sub_mark, expr_mark_begin_cmd,
  begin_cmd_push_const, sub_end_store_local_pop, sub_end_store_var_pop, sub_end_return,
  swap_to_next_mark, next_mark_begin_cmd, begin_cmd_incr_local_pop, begin_cmd_incr_var_pop,
  for_next_incr_local, for_next_incr_var, foreach_next_close, slot_set_add_ss, var_set_add_vv,
  push_const_sub_mark, sub_mark_begin_cmd, expr_mark_begin_push_const, sub_slot_imm, sub_slot_slot,
  sub_end_dyn_call, sub_end_call, sub_end_add, body_mark, next_mark, sub_mark, sub_end, expr_mark,
  nop,
}
use rtcl.Ir.Unfuse.{cmp_cc_of}

-- The superinstruction, and how many instructions it replaces; a trampoline takes the targets of
-- the second one to itself.
pub record Fusion : Type 0 where
  pub op : OpCode
  pub width : ℕ
  pub trampoline : Bool

-- What the match on the window gives; an index behind the unit is a panic.
pub data Found : Type 0 where
  no_window out_of_range : Found
  found : Fusion → Found

abbrev pub fusion : OpCode → ℕ → Found
fusion op width = found (record { op = op; width = width; trampoline = false })

abbrev pub pair_if : Bool → OpCode → Found
pair_if free op = if free then fusion op 2 else no_window

unfoldable pub cmp_cc_mirror : ℕ → ℕ
cmp_cc_mirror cc =
    if cc == 0 then 1 else if cc == 1 then 0 else if cc == 2 then 3 else if cc == 3 then 2 else cc

abbrev pub fits_i32 : ℤ → Bool
fits_i32 (pos n) = ltb n (2 ^ 31)
fits_i32 (negsuc n) = ltb n (2 ^ 31)

-- `cmp_cc_of(op).map(...)`
abbrev pub compare_with : (ℕ → OpCode) → Option ℕ → Found
compare_with f none = no_window
compare_with f (some cc) = fusion (f cc) 3

unfoldable pub add_or_compare : OpCode → (ℕ → OpCode) → OpCode → Found
unfolding cmp_cc_of
add_or_compare sum f add = fusion sum 3
add_or_compare sum f op = compare_with f (cmp_cc_of op)

unfoldable pub before_pop : OpCode → OpCode → Found
before_pop op pop = fusion op 3
before_pop op _ = no_window

unfoldable pub before_sub : OpCode → OpCode → Found
before_sub op sub = fusion op 3
before_sub op _ = no_window

-- `self.ops[i + 2]`, read only under `tail_free(3)`, but then at any index.
abbrev pub third : Bool → (OpCode → Found) → List OpCode → Found
third free f [] = if free then out_of_range else no_window
third free f (op ∷ ops) = if free then f op else no_window

abbrev pub branch_if : Bool → (ℕ → OpCode) → (ℕ → OpCode) → OpCode → Found
branch_if free if_true if_false (jump_true t) = pair_if free (if_true t)
branch_if free if_true if_false (jump_false t) = pair_if free (if_false t)
branch_if free if_true if_false op = no_window

-- A pushed literal that is dropped.
abbrev pub dead_push : Bool → OpCode → Found
dead_push free pop = pair_if free nop
dead_push free op = no_window

unfoldable pub fuse_load_var : Bool → ℕ → OpCode → List OpCode → Found
unfolding add_or_compare before_pop
fuse_load_var free3 a (push_int k) ops =
    third free3 (add_or_compare (add_var_imm a k) (cmp_var_imm a k)) ops
fuse_load_var free3 a (load_var b) ops =
    third free3 (add_or_compare (add_var_var a b) (cmp_var_var a b)) ops
fuse_load_var free3 a (lappend_var d) ops = third free3 (before_pop (lappend_var_var a d)) ops
fuse_load_var free3 a op ops = no_window

unfoldable pub fuse_push_int : Bool → Bool → ℤ → OpCode → List OpCode → Found
unfolding cmp_cc_of cmp_cc_mirror
fuse_push_int free free3 k (load_var b) ops =
    third free3 (λ op. compare_with (λ cc. cmp_var_imm b k (cmp_cc_mirror cc)) (cmp_cc_of op)) ops
fuse_push_int free free3 k op ops = dead_push free op

unfoldable pub fuse_load_local : Bool → ℕ → OpCode → List OpCode → Found
unfolding before_pop before_sub
fuse_load_local free3 a (lappend_local d) ops = third free3 (before_pop (lappend_slot_slot a d)) ops
fuse_load_local free3 a (push_int k) ops = third free3 (before_sub (sub_slot_imm a k)) ops
fuse_load_local free3 a (load_local b) ops = third free3 (before_sub (sub_slot_slot a b)) ops
fuse_load_local free3 a op ops = no_window

unfoldable pub fuse_push_const : Bool → ℕ → OpCode → Found
fuse_push_const free idx sub_mark = pair_if free (push_const_sub_mark idx)
fuse_push_const free idx op = dead_push free op

unfoldable pub fuse_begin_cmd : Bool → ℕ → OpCode → Found
fuse_begin_cmd free site sub_mark = pair_if free (begin_cmd_sub_mark site)
fuse_begin_cmd free site (push_const idx) = pair_if free (begin_cmd_push_const site idx)
fuse_begin_cmd free site (incr_local_pop x k) = pair_if free (begin_cmd_incr_local_pop site x k)
fuse_begin_cmd free site (incr_var_pop x k) = pair_if free (begin_cmd_incr_var_pop site x k)
fuse_begin_cmd free site op = no_window

unfoldable pub fuse_sub_end : Bool → OpCode → Found
fuse_sub_end free (store_local_pop slot) = pair_if free (sub_end_store_local_pop slot)
fuse_sub_end free (store_var_pop idx) = pair_if free (sub_end_store_var_pop idx)
fuse_sub_end free return = pair_if free sub_end_return
fuse_sub_end free (dyn_call argc) = pair_if free (sub_end_dyn_call argc)
fuse_sub_end free (call cmd_id argc) = pair_if free (sub_end_call cmd_id argc)
fuse_sub_end free add = pair_if free sub_end_add
fuse_sub_end free op = no_window

-- The 4-op windows of a `set` statement: `self.ops[i + 2]` and `self.ops[i + 3]`.
unfoldable pub set_add : ℕ → ℕ → List OpCode → Found
set_add s1 s2 [] = out_of_range
set_add s1 s2 (op ∷ []) = out_of_range
set_add s1 s2 (add_slot_slot a b ∷ sub_end_store_local_pop d ∷ ops) =
    fusion (slot_set_add_ss s1 s2 a b d) 4
set_add s1 s2 (add_var_var a b ∷ sub_end_store_var_pop d ∷ ops) =
    fusion (var_set_add_vv s1 s2 a b d) 4
set_add s1 s2 ops = no_window

unfoldable pub fuse_statement : Bool → ℕ → OpCode → List OpCode → Found
unfolding set_add
fuse_statement free4 s1 (begin_cmd s2) ops = if free4 then set_add s1 s2 ops else no_window
fuse_statement free4 s1 op ops = no_window

-- The `for` tail: the `k` of the loop variable must fit an i32.
unfoldable pub jump_back : ℤ → (ℕ → OpCode) → OpCode → Found
jump_back k f (jump t) = if fits_i32 k then fusion (f t) 3 else no_window
jump_back k f op = no_window

unfoldable pub fuse_swap : Bool → OpCode → List OpCode → Found
unfolding jump_back
fuse_swap free3 (begin_cmd_incr_local_pop site x k) ops =
    third free3 (jump_back k (for_next_incr_local site x k)) ops
fuse_swap free3 (begin_cmd_incr_var_pop site x k) ops =
    third free3 (jump_back k (for_next_incr_var site x k)) ops
fuse_swap free3 op ops = no_window

abbrev pub is_body_mark : Option OpCode → Bool
is_body_mark (some body_mark) = true
is_body_mark (some body_mark_framed) = true
is_body_mark o = false

-- A jump to the next instruction, in the unit `all` at the index `i`.
unfoldable pub fuse_trampoline : ℕ → List OpCode → ℕ → OpCode → Found
fuse_trampoline i all t next_mark =
    if t == i + 1
    then found (record { op = swap_to_next_mark; width = 2; trampoline = true })
    else no_window
fuse_trampoline i all t (foreach_next info body) =
    if t == i + 1 && is_body_mark (get_elem? all body)
    then found (record { op = foreach_next_close info (body + 1); width = 2; trampoline = true })
    else no_window
fuse_trampoline i all t op = no_window

unfoldable pub fuse_sub_mark : Bool → OpCode → Found
fuse_sub_mark free (begin_cmd site) = pair_if free (sub_mark_begin_cmd site)
fuse_sub_mark free op = no_window

unfoldable pub fuse_expr_mark : Bool → OpCode → Found
fuse_expr_mark free (begin_cmd site) = pair_if free (expr_mark_begin_cmd site)
fuse_expr_mark free op = no_window

unfoldable pub fuse_expr_cmd : Bool → ℕ → OpCode → Found
fuse_expr_cmd free site (push_const idx) = pair_if free (expr_mark_begin_push_const site idx)
fuse_expr_cmd free site op = no_window

unfoldable pub fuse_next_mark : Bool → OpCode → Found
fuse_next_mark free (begin_cmd site) = pair_if free (next_mark_begin_cmd site)
fuse_next_mark free op = no_window

-- A statement's result that is dropped.
unfoldable pub discard : Bool → OpCode → OpCode → Found
discard free op pop = pair_if free op
discard free op _ = no_window

-- `free`, `free3` and `free4` say that no tail of a window of 2, 3 and 4 is a jump target.
unfoldable pub fuse_window :
    Bool → Bool → Bool → ℕ → List OpCode → OpCode → OpCode → List OpCode → Found
unfolding fuse_load_var fuse_push_int fuse_load_local fuse_push_const fuse_begin_cmd fuse_sub_end
    fuse_statement fuse_swap fuse_trampoline fuse_sub_mark fuse_expr_mark fuse_expr_cmd
    fuse_next_mark discard
fuse_window free free3 free4 i all (cmp_slot_slot a b cc) op ops =
    branch_if free (cmp_slot_slot_jump_true a b cc) (cmp_slot_slot_jump_false a b cc) op
fuse_window free free3 free4 i all (cmp_slot_imm a k cc) op ops =
    branch_if free (cmp_slot_imm_jump_true a k cc) (cmp_slot_imm_jump_false a k cc) op
fuse_window free free3 free4 i all (cmp_var_var a b cc) op ops =
    branch_if free (cmp_var_var_jump_true a b cc) (cmp_var_var_jump_false a b cc) op
fuse_window free free3 free4 i all (cmp_var_imm a k cc) op ops =
    branch_if free (cmp_var_imm_jump_true a k cc) (cmp_var_imm_jump_false a k cc) op
fuse_window free free3 free4 i all (load_var a) op ops = fuse_load_var free3 a op ops
fuse_window free free3 free4 i all (push_int k) op ops = fuse_push_int free free3 k op ops
fuse_window free free3 free4 i all (load_local a) op ops = fuse_load_local free3 a op ops
fuse_window free free3 free4 i all push_empty op ops = dead_push free op
fuse_window free free3 free4 i all push_true op ops = dead_push free op
fuse_window free free3 free4 i all push_false op ops = dead_push free op
fuse_window free free3 free4 i all (push_float x) op ops = dead_push free op
fuse_window free free3 free4 i all (push_const idx) op ops = fuse_push_const free idx op
fuse_window free free3 free4 i all (push_const_wide idx) op ops = dead_push free op
fuse_window free free3 free4 i all (begin_cmd site) op ops = fuse_begin_cmd free site op
fuse_window free free3 free4 i all expr_mark op ops = fuse_expr_mark free op
fuse_window free free3 free4 i all sub_end op ops = fuse_sub_end free op
fuse_window free free3 free4 i all sub_mark op ops = fuse_sub_mark free op
fuse_window free free3 free4 i all (expr_mark_begin_cmd site) op ops = fuse_expr_cmd free site op
fuse_window free free3 free4 i all (begin_cmd_sub_mark s1) op ops = fuse_statement free4 s1 op ops
fuse_window free free3 free4 i all swap_to_next_mark op ops = fuse_swap free3 op ops
fuse_window free free3 free4 i all (jump t) op ops = fuse_trampoline i all t op
fuse_window free free3 free4 i all next_mark op ops = fuse_next_mark free op
fuse_window free free3 free4 i all (incr_var x k) op ops = discard free (incr_var_pop x k) op
fuse_window free free3 free4 i all (incr_local x k) op ops = discard free (incr_local_pop x k) op
fuse_window free free3 free4 i all (store_local x) op ops = discard free (store_local_pop x) op
fuse_window free free3 free4 i all first op ops = no_window
